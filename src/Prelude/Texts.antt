-- ===== src/Prelude/Texts.antt =====
-- Text that the program walks, as the list of its bytes, and the functions of Go's `strings`
-- package that it calls.
use csghub_server.Prelude.Tests.{Bool-cases, ◌==◌, leb, if◌then◌else◌}
use mathlib.Core.Logic.{◌≢◌, inl, inr, ◌↔◌}
use Prim.Native.Nat.{ℕ, ◌+◌}
use Prim.Native.Char.{code}
use Prim.Native.String.{String}
use mathlib.Core.Path.{◌≡◌}
use mathlib.Core.Bool.{Bool, true, false, ◌&&◌, ◌||◌}
use mathlib.Core.List.{List, [], ◌∷◌, map}
use native.Mathlib.Omega.{arith}

abbrev pub Text : Type 0
Text = List ℕ

-- The bytes of an ASCII literal.
abbrev pub codes : String → Text
codes String.[] = []
codes (String.◌∷◌ c s) = code c ∷ codes s

abbrev pub text_eq : Text → Text → Bool
text_eq [] [] = true
text_eq [] (y ∷ ys) = false
text_eq (x ∷ xs) [] = false
text_eq (x ∷ xs) (y ∷ ys) = x == y && text_eq xs ys

pub text_eq_iff : (xs ys : Text) → (text_eq xs ys ≡ true) ↔ (xs ≡ ys)
text_eq_iff [] [] = ground arith
text_eq_iff [] (y ∷ ys) = ground arith
text_eq_iff (x ∷ xs) [] = ground arith
text_eq_iff (x ∷ xs) (y ∷ ys) = ground (arith, text_eq_iff xs ys)

pub text_neq : (xs ys : Text) → xs ≢ ys → text_eq xs ys ≡ false
text_neq xs ys ne = elim (Bool-cases (text_eq xs ys)) [
  | inl same ↦ absurd (ne ((text_eq_iff xs ys).0 same))
  | inr other ↦ other
]

-- `strings.HasPrefix`
abbrev pub has_prefix : Text → Text → Bool
has_prefix s [] = true
has_prefix [] (p ∷ ps) = false
has_prefix (c ∷ s) (p ∷ ps) = c == p && has_prefix s ps

-- `strings.HasSuffix`
abbrev pub has_suffix : Text → Text → Bool
has_suffix [] p = text_eq [] p
has_suffix (c ∷ s) p = text_eq (c ∷ s) p || has_suffix s p

-- `strings.Contains`
abbrev pub contains : Text → Text → Bool
contains [] p = has_prefix [] p
contains (c ∷ s) p = has_prefix (c ∷ s) p || contains s p

-- `strings.ToLower`, for ASCII
abbrev pub lower : ℕ → ℕ
lower c = if leb b'A' c && leb c b'Z' then c + 32 else c

abbrev pub to_lower : Text → Text
to_lower = map lower

-- Puts `c` in front of the first piece.
abbrev pub extend : ℕ → List Text → List Text
extend c [] = (c ∷ []) ∷ []
extend c (p ∷ ps) = (c ∷ p) ∷ ps

-- `strings.Split` at a separator of one byte
abbrev pub split : ℕ → Text → List Text
split sep [] = [] ∷ []
split sep (c ∷ s) = let rest = split sep s in if c == sep then [] ∷ rest else extend c rest
