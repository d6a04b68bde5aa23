-- ===== src/Moderation/Words/Scan.antt =====
-- What the automaton of the sensitive words finds, by the words alone.
use csghub_server.Prelude.{
  subst, ℕ, Bool, true, false, not, ◌||◌, ◌++◌, any, keep, some, List, [], ◌∷◌, if◌then◌else◌,
  has_prefix, text_eq, text_eq_iff, ◌≡◌, ◌≢◌, refl, sym, ap, ◌∙◌, inl, inr, Bool-cases,
  Option-cases, append_assoc, In, here, there, arith,
}
use csghub_server.Moderation.Words.{
  State, new_state, is_end, transitions, next_state, build_dfa, is_ignored_character, contains_from,
  contains_sensitive_word,
}
use csghub_server.Moderation.Words.Paths.{
  walk, is_there, is_final, build_dfa-paths, build_dfa-ends, walk-append,
}

-- The code points that are looked at
abbrev pub seen : List ℕ → List ℕ
seen text = keep (λ c. not (is_ignored_character c)) text

-- The search without an automaton: `p` is what was read since the last start, and stays a prefix of
-- a word. Where it does not, the search starts again behind the code point that did not fit.
unfoldable pub scan_words : List (List ℕ) → List ℕ → List ℕ → Bool
scan_words ws p [] = false
scan_words ws p (c ∷ text) =
    let q = p ++ c ∷ [] in
    let longer = scan_words ws q text in
    if is_ignored_character c
    then scan_words ws p text
    else if any (λ w. has_prefix w q) ws
    then any (λ w. text_eq w q) ws || longer
    else scan_words ws [] text

there_longer : (p : List ℕ) (c : ℕ) → is_there (walk (p ++ c ∷ []) new_state) ≡ false
unfolding walk next_state
there_longer [] c = refl
there_longer (d ∷ p) c = refl

final_longer : (p : List ℕ) (c : ℕ) → is_final (walk (p ++ c ∷ []) new_state) ≡ false
unfolding walk next_state
final_longer [] c = refl
final_longer (d ∷ p) c = refl

module _ (ws : List (List ℕ)) where
  step_there :
      (p : List ℕ) (c : ℕ) (s : State)
      → walk p (build_dfa ws) ≡ some s
      → any (λ w. has_prefix w (p ++ c ∷ [])) ws ≡ is_there (next_state c (transitions s))
  step_there p c s at =
      let paths = build_dfa-paths ws (p ++ c ∷ []) in
      cc (rw there_longer at paths, ap is_there (walk-append p c (build_dfa ws) s at))

  step_final :
      (p : List ℕ) (c : ℕ) (s : State)
      → walk p (build_dfa ws) ≡ some s
      → any (λ w. text_eq w (p ++ c ∷ [])) ws ≡ is_final (next_state c (transitions s))
  step_final p c s at =
      let ends = build_dfa-ends ws (p ++ c ∷ []) in
      cc (rw final_longer at ends, ap is_final (walk-append p c (build_dfa ws) s at))

  contains_from-scan_words :
      (p text : List ℕ) (s : State)
      → walk p (build_dfa ws) ≡ some s
      → contains_from (build_dfa ws) s text ≡ scan_words ws p text
  unfolding contains_from scan_words walk
  contains_from-scan_words p [] s at = refl
  contains_from-scan_words p (c ∷ text) s at = elim (Bool-cases (is_ignored_character c)) [
    | inl skipped ↦ rw skipped (contains_from-scan_words p text s at)
    | inr looked ↦ elim (Option-cases (next_state c (transitions s))) [
      | inl stuck ↦
          (let no_prefix : any (λ w. has_prefix w (p ++ c ∷ [])) ws ≡ false =
              cc (step_there p c s at, ap is_there stuck) in
            rw (looked, stuck, no_prefix) (contains_from-scan_words [] text (build_dfa ws) refl))
      | inr (t, step) ↦
          (let prefix : any (λ w. has_prefix w (p ++ c ∷ [])) ws ≡ true =
              cc (step_there p c s at, ap is_there step) in
            let final : any (λ w. text_eq w (p ++ c ∷ [])) ws ≡ is_end t =
              cc (step_final p c s at, ap is_final step) in
            rw (looked, step, prefix, final)
              (ap (λ b. is_end t || b)
                (contains_from-scan_words (p ++ c ∷ []) text t
                  (walk-append p c (build_dfa ws) s at ∙ step))))
    ]
  ]

-- `ContainsSensitiveWord` of the automaton that `BuildDFA` makes of some words finds exactly what the
-- search by the words finds: a word stands behind a start of the search, if what is ignored is left
-- out; the search starts again behind each code point with which what was read is no longer a prefix
-- of a word.
pub contains_sensitive_word_lem :
    (ws : List (List ℕ)) (text : List ℕ)
    → contains_sensitive_word (build_dfa ws) text ≡ scan_words ws [] text
unfolding contains_sensitive_word walk
contains_sensitive_word_lem ws text = contains_from-scan_words ws [] text (build_dfa ws) refl

-- The word stands in the text.
abbrev pub StandsIn : List ℕ → List ℕ → Type 0
StandsIn w text = (before : List ℕ) × (after : List ℕ) × (text ≡ before ++ (w ++ after))

-- A word that is not empty
abbrev pub HasWord : List (List ℕ) → List ℕ → Type 0
HasWord ws text = (w : List ℕ) × In w ws × (w ≢ []) × StandsIn w text

any_word : (ws : List (List ℕ)) (q : List ℕ) → any (λ w. text_eq w q) ws ≡ true → In q ws
any_word [] q h = absurd (cc (h))
any_word (w ∷ ws) q h = elim (Bool-cases (text_eq w q)) [
  | inl same ↦ rw ((text_eq_iff w q).0 same) here
  | inr other ↦ there (any_word ws q (rw other at h))
]

not_empty : (p : List ℕ) (c : ℕ) → (p ++ c ∷ []) ≢ []
not_empty [] c h = cc (h)
not_empty (d ∷ p) c h = cc (h)

HasWord-later :
    (ws : List (List ℕ)) (p : List ℕ) (c : ℕ) (text : List ℕ)
    → HasWord ws text
    → HasWord ws (p ++ (c ∷ text))
HasWord-later ws p c text (w, i, ne, (before, after, e)) = (
  w,
  i,
  ne,
  (
    p ++ (c ∷ before),
    after,
    ap (λ v. p ++ (c ∷ v)) e ∙ sym (append_assoc p (c ∷ before) (w ++ after)),
  ),
)

scan_words-HasWord :
    (ws : List (List ℕ)) (p text : List ℕ)
    → scan_words ws p text ≡ true
    → HasWord ws (p ++ seen text)
unfolding scan_words
scan_words-HasWord ws p [] h = absurd (cc (h))
scan_words-HasWord ws p (c ∷ text) h = elim (Bool-cases (is_ignored_character c)) [
  | inl skipped ↦ rw skipped (scan_words-HasWord ws p text (rw skipped at h))
  | inr looked ↦ rw looked (elim (Bool-cases (any (λ w. has_prefix w (p ++ c ∷ [])) ws)) [
    | inl longer ↦ elim (Bool-cases (any (λ w. text_eq w (p ++ c ∷ [])) ws)) [
      | inl found ↦ (
        p ++ c ∷ [],
        any_word ws (p ++ c ∷ []) found,
        not_empty p c,
        ([], seen text, sym (append_assoc p (c ∷ []) (seen text))),
      )
      | inr on ↦
          subst (HasWord ws) (append_assoc p (c ∷ []) (seen text))
            (scan_words-HasWord ws (p ++ c ∷ []) text (rw (looked, longer, on) at h))
    ]
    | inr stuck ↦
        HasWord-later ws p c (seen text) (scan_words-HasWord ws [] text (rw (looked, stuck) at h))
  ])
]

-- Whatever the words and the text: if `ContainsSensitiveWord` reports a word, then one of the words,
-- and not an empty one, stands in the text without what is ignored.
pub contains_sensitive_word-HasWord :
    (ws : List (List ℕ)) (text : List ℕ)
    → contains_sensitive_word (build_dfa ws) text ≡ true
    → HasWord ws (seen text)
contains_sensitive_word-HasWord ws text h =
    scan_words-HasWord ws [] text (sym (contains_sensitive_word_lem ws text) ∙ h)

-- Two code points that differ and are not ignored: the text `c c d` has the word `c d` in it, and the
-- automaton of this word does not find it, since the second `c` is not tried as a new start.
pub contains_sensitive_word-missed :
    (c d : ℕ)
    → c ≢ d
    → is_ignored_character c ≡ false
    → is_ignored_character d ≡ false
    → (contains_sensitive_word (build_dfa ((c ∷ d ∷ []) ∷ [])) (c ∷ c ∷ d ∷ []) ≡ false)
      × HasWord ((c ∷ d ∷ []) ∷ []) (seen (c ∷ c ∷ d ∷ []))
unfolding scan_words
contains_sensitive_word-missed c d ne hc hd = (
  rw (contains_sensitive_word_lem ((c ∷ d ∷ []) ∷ []) (c ∷ c ∷ d ∷ []), hc, hd)
      (ground (arith, ne)),
  rw (hc, hd) (c ∷ d ∷ [], here, (λ h. cc (h)), (c ∷ [], [], refl)),
)
