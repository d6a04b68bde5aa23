-- ===== src/Moderation/Words.antt =====
-- moderation/checker/local_sensitive_word_checker.go: the automaton of the sensitive words. Words and
-- texts are lists of code points here, as `range` over a string gives them. The map of a state is a
-- list of pairs without repeated keys.
pub mod Paths
pub mod Scan
use csghub_server.Prelude.{
  ℕ, Bool, true, false, ◌||◌, ◌==◌, any, Option, none, some, List, [], ◌∷◌, if◌then◌else◌,
}

mutual
  pub data State : Type 0 where
    state : Bool → Transitions → State

  pub data Transitions : Type 0 where
    no_more : Transitions
    to : ℕ → State → Transitions → Transitions

abbrev pub new_state : State
new_state = state false no_more

abbrev pub is_end : State → Bool
is_end (state e ts) = e

abbrev pub transitions : State → Transitions
transitions (state e ts) = ts

-- `current.transitions[char]`
unfoldable pub next_state : ℕ → Transitions → Option State
next_state c no_more = none
next_state c (to d s ts) = if d == c then some s else next_state c ts

-- `current.transitions[char] = s`, which is how a change of the state behind `char` shows as well
unfoldable pub set_state : ℕ → State → Transitions → Transitions
set_state c s no_more = to c s no_more
set_state c s (to d t ts) = if d == c then to c s ts else to d t (set_state c s ts)

abbrev pub or_new : Option State → State
or_new none = new_state
or_new (some s) = s

-- One round of `BuildDFA`: the states along the word, and the mark at its end
unfoldable pub add_word : List ℕ → State → State
add_word [] s = state true (transitions s)
add_word (c ∷ w) s =
    let grown = add_word w (or_new (next_state c (transitions s))) in
    state (is_end s) (set_state c grown (transitions s))

unfoldable pub add_words : List (List ℕ) → State → State
add_words [] s = s
add_words (w ∷ ws) s = add_words ws (add_word w s)

unfoldable pub build_dfa : List (List ℕ) → State
build_dfa ws = add_words ws new_state

-- The code points of `isIgnoredCharacter`
abbrev pub ignored_characters : List ℕ
ignored_characters =
    32 ∷ 12288 ∷ 9 ∷ 38 ∷ 37 ∷ 36 ∷ 64 ∷ 42 ∷ 65281 ∷ 33 ∷ 35 ∷ 94 ∷ 126 ∷ 95 ∷ 8212 ∷ 65372 ∷ 39
    ∷ 34 ∷ 59 ∷ 46 ∷ 65292 ∷ 44 ∷ 63 ∷ 60 ∷ 62 ∷ 12298 ∷ 12299 ∷ 65306 ∷ 58 ∷ []

unfoldable pub is_ignored_character : ℕ → Bool
is_ignored_character c = any (λ i. c == i) ignored_characters

-- `ContainsSensitiveWord`, from a state on
unfoldable pub contains_from : State → State → List ℕ → Bool
contains_from root current [] = false
contains_from root current (c ∷ text) =
    if is_ignored_character c
    then contains_from root current text
    else elim (next_state c (transitions current)) [
      | none ↦ contains_from root root text
      | some s ↦ is_end s || contains_from root s text
    ]

unfoldable pub contains_sensitive_word : State → List ℕ → Bool
contains_sensitive_word root text = contains_from root root text
