-- ===== src/Repos/Store/Outcomes.antt =====
-- Results of the fallible operations on repositories, with the errors told apart as far as callers
-- can.
use csghub_server.Prelude.{◌≡◌, refl, ◌⊎◌, inl, inr, Bool, true, false}

pub data Error : Type 0 where
  not_found no_email no_permission unauthorized forbidden user_not_found unknown_role store_failed
        git_failed panicked bad_key tag_failed lfs_failed still_there bad_deploy already_exists
        invalid_oid size_mismatch hash_mismatch :
      Error

pub data Outcome {ℓ} (A : Type ℓ) : Type ℓ where
  ok : A → Outcome A
  err : Error → Outcome A

infixl 5 ◌>>=◌ ◌>>◌
abbrev pub ◌>>=◌ {ℓ κ} : {A : Type ℓ} {B : Type κ} → Outcome A → (A → Outcome B) → Outcome B
ok a >>= f = f a
err e >>= f = err e

abbrev pub ◌>>◌ {ℓ} : {B : Type ℓ} → Outcome (Unit {0}) → Outcome B → Outcome B
m >> k = m >>= λ _. k

abbrev pub guard : Bool → Error → Outcome (Unit {0})
guard true e = ok tt
guard false e = err e

pub Outcome-cases {ℓ} :
    {A : Type ℓ} (x : Outcome A) → ((a : A) × (x ≡ ok a)) ⊎ ((e : Error) × (x ≡ err e))
Outcome-cases (ok a) = inl (a, refl)
Outcome-cases (err e) = inr (e, refl)

-- Both parts of a sequence that went through.
pub bind-ok {ℓ κ} :
    {A : Type ℓ} {B : Type κ} (x : Outcome A) (f : A → Outcome B) (b : B)
    → (x >>= f) ≡ ok b
    → (a : A) × (x ≡ ok a) × (f a ≡ ok b)
bind-ok (ok a) f b h = (a, refl, h)
bind-ok (err e) f b h = cc h

pub guard-ok : (b : Bool) (e : Error) (a : Unit {0}) → guard b e ≡ ok a → b ≡ true
guard-ok true e a h = refl
guard-ok false e a h = cc h

-- Any error of a lookup is reported as one that finds nothing.
abbrev pub or_missing {ℓ} : {A : Type ℓ} → Outcome A → Outcome A
or_missing (ok a) = ok a
or_missing (err e) = err not_found

pub or_missing-ok {ℓ} : {A : Type ℓ} (x : Outcome A) (a : A) → or_missing x ≡ ok a → x ≡ ok a
or_missing-ok (ok b) a h = h
or_missing-ok (err e) a h = cc h
