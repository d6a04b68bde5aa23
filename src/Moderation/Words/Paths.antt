-- ===== src/Moderation/Words/Paths.antt =====
-- The automaton has a path for each prefix of a word, and an end for each word.
use csghub_server.Prelude.{
  or_true, ℕ, Bool, true, false, ◌||◌, ◌&&◌, ◌==◌, ==_iff, any, Option, none, some, List, [], ◌∷◌,
  ◌++◌, ap, ◌∙◌, sym, if◌then◌else◌, has_prefix, text_eq, ◌≡◌, refl, inl, inr, Bool-cases, arith,
}
use csghub_server.Moderation.Words.{
  no_more, to, State, Transitions, state, new_state, or_new, is_end, transitions, next_state,
  set_state, add_word, add_words, build_dfa,
}

-- The state at the end of a path
unfoldable pub walk : List ℕ → State → Option State
walk [] s = some s
walk (c ∷ p) s = elim (next_state c (transitions s)) [ none ↦ none | some t ↦ walk p t ]

abbrev pub onward : List ℕ → Option State → Option State
onward p o = elim o [ none ↦ none | some t ↦ walk p t ]

abbrev pub is_there : Option State → Bool
is_there none = false
is_there (some s) = true

abbrev pub is_final : Option State → Bool
is_final none = false
is_final (some s) = is_end s

next_state-set_state :
    (c d : ℕ) (s : State) (ts : Transitions)
    → next_state d (set_state c s ts) ≡ (if c == d then some s else next_state d ts)
unfolding next_state set_state
next_state-set_state c d s no_more = refl
next_state-set_state c d s (to e t ts) = elim (Bool-cases (e == c)) [
  | inl same ↦ rw same (ground (arith, (==_iff e c).0 same))
  | inr other ↦ rw other (ground (arith, next_state-set_state c d s ts, other))
]

or_false : (b : Bool) → b ≡ (b || false)
or_false b = ground arith

-- What a word adds: `test` of the state at the end of a path, where `matches` says it of the word.
module _ (test : Option State → Bool) (matches : List ℕ → List ℕ → Bool)
    (test_none : test none ≡ false)
    (at_new : (w p : List ℕ) → (test (walk p new_state) || matches w p) ≡ matches w p)
    (at_end : (p : List ℕ) (s : State)
      → test (walk p (state true (transitions s))) ≡ (test (walk p s) || matches [] p))
    (at_start : (c : ℕ) (w : List ℕ) (s : State) (ts : Transitions)
      → test (some (state (is_end s) ts)) ≡ (test (some s) || matches (c ∷ w) []))
    (matches_cons : (c d : ℕ) (w p : List ℕ)
      → matches (c ∷ w) (d ∷ p) ≡ ((c == d) && matches w p)) where
  or_new-onward :
      (w p : List ℕ) (o : Option State)
      → (test (walk p (or_new o)) || matches w p) ≡ (test (onward p o) || matches w p)
  unfolding walk
  or_new-onward w p none = rw test_none (at_new w p)
  or_new-onward w p (some s) = refl

  grown-onward :
      (b : Bool) (w p : List ℕ) (grown : State) (o : Option State)
      → (b ≡ true → test (walk p grown) ≡ (test (walk p (or_new o)) || matches w p))
      → test (onward p (if b then some grown else o)) ≡ (test (onward p o) || (b && matches w p))
  unfolding walk
  grown-onward true w p grown o h = h refl ∙ or_new-onward w p o
  grown-onward false w p grown o h = or_false (test (onward p o))

  walk-add_word :
      (w p : List ℕ) (s : State) → test (walk p (add_word w s)) ≡ (test (walk p s) || matches w p)
  unfolding walk add_word
  walk-add_word [] p s = at_end p s
  walk-add_word (c ∷ w) [] s = at_start c w s _
  walk-add_word (c ∷ w) (d ∷ p) s =
      let ts : Transitions = transitions s in
      let grown : State = add_word w (or_new (next_state c ts)) in
      let known : (c == d) ≡ true
          → test (walk p grown) ≡ (test (walk p (or_new (next_state d ts))) || matches w p) =
        λ same. rw (sym ((==_iff c d).0 same)) (walk-add_word w p (or_new (next_state c ts))) in
      ap (λ o. test (onward p o)) (next_state-set_state c d grown ts)
      ∙ (grown-onward (c == d) w p grown (next_state d ts) known
          ∙ ap (λ b. test (onward p (next_state d ts)) || b) (sym (matches_cons c d w p)))

has_prefix-nil : (w : List ℕ) → has_prefix w [] ≡ true
has_prefix-nil [] = refl
has_prefix-nil (c ∷ w) = refl

there_new : (w p : List ℕ) → (is_there (walk p new_state) || has_prefix w p) ≡ has_prefix w p
unfolding walk next_state
there_new w [] = sym (has_prefix-nil w)
there_new w (c ∷ p) = refl

there_end :
    (p : List ℕ) (s : State)
    → is_there (walk p (state true (transitions s))) ≡ (is_there (walk p s) || has_prefix [] p)
unfolding walk
there_end [] s = refl
there_end (c ∷ p) s = or_false _

final_new : (w p : List ℕ) → (is_final (walk p new_state) || text_eq w p) ≡ text_eq w p
unfolding walk next_state
final_new w [] = refl
final_new w (c ∷ p) = refl

final_end :
    (p : List ℕ) (s : State)
    → is_final (walk p (state true (transitions s))) ≡ (is_final (walk p s) || text_eq [] p)
unfolding walk
final_end [] s = sym (or_true (is_end s))
final_end (c ∷ p) s = or_false _

-- The paths after a word was added, and the ends
is_there-add_word :
    (w p : List ℕ) (s : State)
    → is_there (walk p (add_word w s)) ≡ (is_there (walk p s) || has_prefix w p)
is_there-add_word =
    walk-add_word is_there has_prefix refl there_new there_end (λ c w s ts. refl) (λ c d w p. refl)

is_final-add_word :
    (w p : List ℕ) (s : State)
    → is_final (walk p (add_word w s)) ≡ (is_final (walk p s) || text_eq w p)
is_final-add_word =
    walk-add_word is_final text_eq refl final_new final_end (λ c w s ts. or_false (is_end s))
      (λ c d w p. refl)

or_assoc : (a b c : Bool) → ((a || b) || c) ≡ (a || (b || c))
or_assoc a b c = ground arith

-- A test that each word adds to, over all of them
walk-add_words :
    (test : Option State → Bool) (matches : List ℕ → List ℕ → Bool)
    → ((w p : List ℕ) (s : State) → test (walk p (add_word w s)) ≡ (test (walk p s) || matches w p))
    → (ws : List (List ℕ)) (p : List ℕ) (s : State)
    → test (walk p (add_words ws s)) ≡ (test (walk p s) || any (λ w. matches w p) ws)
unfolding add_words
walk-add_words test matches one [] p s = or_false _
walk-add_words test matches one (w ∷ ws) p s =
    walk-add_words test matches one ws p (add_word w s)
    ∙ (ap (λ b. b || any (λ v. matches v p) ws) (one w p s)
        ∙ or_assoc (test (walk p s)) (matches w p) (any (λ v. matches v p) ws))

-- The automaton of some words: its paths are the prefixes of the words, and the empty one.
pub build_dfa-paths :
    (ws : List (List ℕ)) (p : List ℕ)
    → is_there (walk p (build_dfa ws))
      ≡ (is_there (walk p new_state) || any (λ w. has_prefix w p) ws)
unfolding build_dfa
build_dfa-paths ws p = walk-add_words is_there has_prefix is_there-add_word ws p new_state

-- Its ends are the words.
pub build_dfa-ends :
    (ws : List (List ℕ)) (p : List ℕ)
    → is_final (walk p (build_dfa ws)) ≡ (is_final (walk p new_state) || any (λ w. text_eq w p) ws)
unfolding build_dfa
build_dfa-ends ws p = walk-add_words is_final text_eq is_final-add_word ws p new_state

onward_nil : (o : Option State) → onward [] o ≡ o
unfolding walk
onward_nil none = refl
onward_nil (some s) = refl

onward-append :
    (p q : List ℕ) (o r : Option State) (t : State)
    → ((s : State) → walk p s ≡ some t → walk q s ≡ r)
    → onward p o ≡ some t
    → onward q o ≡ r
onward-append p q none r t ih h = absurd (cc (h))
onward-append p q (some s) r t ih h = ih s h

-- One step further on a path
pub walk-append :
    (p : List ℕ) (c : ℕ) (s t : State)
    → walk p s ≡ some t
    → walk (p ++ c ∷ []) s ≡ next_state c (transitions t)
unfolding walk
walk-append [] c s t h = let e : s ≡ t = cc (h) in rw e (onward_nil (next_state c (transitions t)))
walk-append (d ∷ p) c s t h =
    onward-append p (p ++ c ∷ []) (next_state d (transitions s)) (next_state c (transitions t)) t
      (λ u k. walk-append p c u t k) h
