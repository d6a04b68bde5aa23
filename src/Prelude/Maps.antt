-- ===== src/Prelude/Maps.antt =====
-- Go's maps from texts, as association lists: the first entry of a key counts.
use mathlib.Core.Path.{◌≡◌, refl}
use mathlib.Core.Bool.{true}
use mathlib.Core.Option.{Option, none, some}
use mathlib.Core.List.{List, [], ◌∷◌}
use native.Mathlib.Omega.{arith}
use csghub_server.Prelude.Tests.{if◌then◌else◌}
use csghub_server.Prelude.Texts.{Text, text_eq, text_eq_iff}

module _ {ℓ} {V : Type ℓ} where
  -- `m[key]`, where the key is there
  unfoldable pub lookup : Text → List (Text × V) → Option V
  lookup key [] = none
  lookup key (entry ∷ rest) = if text_eq entry.0 key then some entry.1 else lookup key rest

  -- `m[key] = new`
  unfoldable pub insert : Text → V → List (Text × V) → List (Text × V)
  insert key new [] = (key, new) ∷ []
  insert key new (entry ∷ rest) =
      let beyond = insert key new rest in
      if text_eq entry.0 key then (key, new) ∷ rest else entry ∷ beyond

  pub lookup-insert :
      (written read : Text) (new : V) (m : List (Text × V))
      → lookup read (insert written new m)
        ≡ (if text_eq written read then some new else lookup read m)
  unfolding lookup insert
  lookup-insert written read new [] = refl
  lookup-insert written read new (entry ∷ rest) =
      let ih = lookup-insert written read new rest in
      ground
        (arith, text_eq_iff entry.0 written, text_eq_iff entry.0 read, text_eq_iff written read)

pub text_eq_refl : (k : Text) → text_eq k k ≡ true
text_eq_refl k = (text_eq_iff k k).1 refl
