-- ===== src/Prelude/Lists.antt =====
-- Lists measured by native numbers, predicates on their elements, filters by a Boolean test.
use Prim.Native.Nat.{ℕ, zero, suc, ◌+◌, ◌≤◌}
use mathlib.Core.Path.{◌≡◌, refl}
use mathlib.Core.Logic.{◌⊎◌, inl, inr}
use mathlib.Core.Bool.{Bool, true, false, ◌||◌}
use mathlib.Core.List.{List, [], ◌∷◌, ◌++◌, map}
use mathlib.Core.Option.{Option, none, some}
use native.Mathlib.Omega.{arith}
use csghub_server.Prelude.Tests.{if◌then◌else◌, Bool-cases}

module _ {ℓ} {A : Type ℓ} where
  abbrev pub length : List A → ℕ
  length [] = 0
  length (x ∷ xs) = suc (length xs)

  abbrev pub get_elem? : List A → ℕ → Option A
  get_elem? [] i = none
  get_elem? (x ∷ xs) zero = some x
  get_elem? (x ∷ xs) (suc i) = get_elem? xs i

  -- Go's slice `xs[:n]`, for `n` within the length.
  abbrev pub take : ℕ → List A → List A
  take zero xs = []
  take (suc n) [] = []
  take (suc n) (x ∷ xs) = x ∷ take n xs

  abbrev pub is_empty : List A → Bool
  is_empty [] = true
  is_empty (x ∷ xs) = false

  pub length-append : (xs ys : List A) → length (xs ++ ys) ≡ length xs + length ys
  length-append [] ys = omega arith
  length-append (x ∷ xs) ys = omega (arith, length-append xs ys)

  pub length-take_le : (n : ℕ) (xs : List A) → length (take n xs) ≤ n
  length-take_le zero xs = omega arith
  length-take_le (suc n) [] = omega arith
  length-take_le (suc n) (x ∷ xs) = omega (arith, length-take_le n xs)

  -- The elements that pass a test, in their order.
  abbrev pub keep : (A → Bool) → List A → List A
  keep p [] = []
  keep p (x ∷ xs) = if p x then x ∷ keep p xs else keep p xs

  abbrev pub any : (A → Bool) → List A → Bool
  any p [] = false
  any p (x ∷ xs) = p x || any p xs

  -- A predicate on every element; it computes to nested pairs.
  abbrev pub All {κ} : (A → Type κ) → List A → Type κ
  All P [] = Unit
  All P (x ∷ xs) = P x × All P xs

  -- Membership with the place kept.
  pub data In (a : A) : List A → Type ℓ where
    here : {xs : List A} → In a (a ∷ xs)
    there : {x : A} {xs : List A} → In a xs → In a (x ∷ xs)

module _ {ℓ κ} {A : Type ℓ} (P : A → Type κ) where
  pub All-append : (xs ys : List A) → All P xs → All P ys → All P (xs ++ ys)
  All-append [] ys hx hy = hy
  All-append (x ∷ xs) ys hx hy = (hx.0, All-append xs ys hx.1 hy)

  pub All-In : {a : A} (xs : List A) → All P xs → In a xs → P a
  All-In [] h m = elim m [ ]
  All-In (x ∷ xs) h here = h.0
  All-In (x ∷ xs) h (there m) = All-In xs h.1 m

module _ {ℓ κ μ} {A : Type ℓ} (P : A → Type κ) (Q : A → Type μ) (f : (a : A) → P a → Q a) where
  pub All-map : (xs : List A) → All P xs → All Q xs
  All-map [] h = tt
  All-map (x ∷ xs) h = (f x h.0, All-map xs h.1)

module _ {ℓ κ} {A : Type ℓ} (P : A → Type κ) where
  pub All-tabulate : (xs : List A) → ((a : A) → In a xs → P a) → All P xs
  All-tabulate [] h = tt
  All-tabulate (x ∷ xs) h = (h x here, All-tabulate xs (λ a m. h a (there m)))

module _ {ℓ κ} {A : Type ℓ} {B : Type κ} where
  pub map-cong : (f g : A → B) (xs : List A) → ((a : A) → In a xs → f a ≡ g a) → map f xs ≡ map g xs
  map-cong f g [] h = refl
  map-cong f g (x ∷ xs) h = cc (h x here, map-cong f g xs (λ a m. h a (there m)))

  pub In-map : (f : A → B) (xs : List A) {b : B} → In b (map f xs) → (a : A) × In a xs × (b ≡ f a)
  In-map f [] m = elim m [ ]
  In-map f (x ∷ xs) here = (x, here, refl)
  In-map f (x ∷ xs) (there m) = let (a, ma, e) = In-map f xs m in (a, there ma, e)

module _ {ℓ} {A : Type ℓ} {a : A} where
  pub In-append_left : (xs ys : List A) → In a xs → In a (xs ++ ys)
  In-append_left [] ys m = elim m [ ]
  In-append_left (_ ∷ xs) ys here = here
  In-append_left (_ ∷ xs) ys (there m) = there (In-append_left xs ys m)

  pub In-append_right : (xs ys : List A) → In a ys → In a (xs ++ ys)
  In-append_right [] ys m = m
  In-append_right (_ ∷ xs) ys m = there (In-append_right xs ys m)

module _ {ℓ} {A : Type ℓ} where
  -- A member of a list that may have a first element more.
  In-if :
      (b : Bool) (x : A) (ys : List A) {a : A}
      → In a (if b then x ∷ ys else ys)
      → ((a ≡ x) × (b ≡ true)) ⊎ In a ys
  In-if true x ys here = inl (refl, refl)
  In-if true x ys (there m) = inr m
  In-if false x ys m = inr m

  pub In-keep : (p : A → Bool) (xs : List A) {a : A} → In a (keep p xs) → p a ≡ true
  In-keep p [] m = elim m [ ]
  In-keep p (x ∷ xs) m = elim (In-if (p x) x (keep p xs) m) [
    | inl (same, passes) ↦ rw same passes
    | inr later ↦ In-keep p xs later
  ]

  pub In-of_keep : (p : A → Bool) (xs : List A) {a : A} → In a (keep p xs) → In a xs
  In-of_keep p [] m = elim m [ ]
  In-of_keep p (x ∷ xs) m = elim (In-if (p x) x (keep p xs) m) [
    | inl (same, passes) ↦ rw same here
    | inr later ↦ there (In-of_keep p xs later)
  ]

  pub In-to_keep : (p : A → Bool) (xs : List A) {a : A} → In a xs → p a ≡ true → In a (keep p xs)
  In-to_keep p [] m h = elim m [ ]
  In-to_keep p (x ∷ xs) here h = rw h here
  In-to_keep p (x ∷ xs) (there m) h = elim (Bool-cases (p x)) [
    | inl passes ↦ rw passes (there (In-to_keep p xs m h))
    | inr fails ↦ rw fails (In-to_keep p xs m h)
  ]
