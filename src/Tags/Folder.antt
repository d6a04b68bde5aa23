-- ===== src/Tags/Folder.antt =====
-- The library of a file does not depend on the folder that it is in.
use csghub_server.Deploy.AppName.{last_or}
use csghub_server.Tags.Names.{base, library_tag, trim_slashes}
use csghub_server.Prelude.{
  Text, ℕ, false, List, [], ◌∷◌, ◌++◌, ◌==◌, is_empty, split, ◌≡◌, refl, All, Bool-cases, inl, inr,
}

-- A file name: not empty, and without a slash.
abbrev pub IsFileName : Text → Type 0
IsFileName n = (is_empty n ≡ false) × All (λ c. (c == b'/') ≡ false) n

split-one : (n : Text) → All (λ c. (c == b'/') ≡ false) n → split b'/' n ≡ n ∷ []
split-one [] h = refl
split-one (c ∷ n) h = rw (h.0, split-one n h.1) refl

-- The pieces behind the first one end in the file name.
abbrev EndsIn : Text → List Text → Type 0
EndsIn n pieces =
    (p : Text) × (ps : List Text) × (pieces ≡ p ∷ ps) × ((d : Text) → last_or d ps ≡ n)

split-EndsIn :
    (dir n : Text) → All (λ c. (c == b'/') ≡ false) n → EndsIn n (split b'/' (dir ++ b'/' ∷ n))
split-EndsIn [] n h = ([], n ∷ [], rw (split-one n h) refl, λ d. refl)
split-EndsIn (c ∷ dir) n h =
    let (p, ps, e, l) = split-EndsIn dir n h in
    elim (Bool-cases (c == b'/')) [
      | inl slash ↦ ([], p ∷ ps, rw (slash, e) refl, λ d. l p)
      | inr other ↦ (c ∷ p, ps, rw (other, e) refl, l)
    ]

is_empty-append : (dir : Text) (c : ℕ) (n : Text) → is_empty (dir ++ c ∷ n) ≡ false
is_empty-append [] c n = refl
is_empty-append (d ∷ dir) c n = refl

trim_slashes-name : (n : Text) → All (λ c. (c == b'/') ≡ false) n → trim_slashes n ≡ n
unfolding trim_slashes
trim_slashes-name [] h = refl
trim_slashes-name (c ∷ n) h =
    rw (trim_slashes-name n h.1, h.0)
      (elim (Bool-cases (is_empty n)) [ inl e ↦ rw e refl | inr e ↦ rw e refl ])

trim_slashes-append :
    (dir n : Text) → IsFileName n → trim_slashes (dir ++ b'/' ∷ n) ≡ dir ++ b'/' ∷ n
unfolding trim_slashes
trim_slashes-append [] n h = rw (trim_slashes-name n h.1, h.0) refl
trim_slashes-append (c ∷ dir) n h =
    rw (trim_slashes-append dir n h, is_empty-append dir b'/' n) refl

base-append : (dir n : Text) → IsFileName n → base (dir ++ b'/' ∷ n) ≡ base n
unfolding base
base-append dir n h =
    let (p, ps, e, l) = split-EndsIn dir n h.1 in
    rw
      (
        trim_slashes-append dir n h,
        is_empty-append dir b'/' n,
        e,
        trim_slashes-name n h.1,
        h.0,
        split-one n h.1,
      )
      (l p)

-- The library of a file in a folder is that of its name alone, where the name is not empty and has
-- no slash.
pub library_tag_folder :
    (dir n : Text) → IsFileName n → library_tag (dir ++ b'/' ∷ n) ≡ library_tag n
unfolding library_tag
library_tag_folder dir n h = rw (is_empty-append dir b'/' n, base-append dir n h, h.0) refl
