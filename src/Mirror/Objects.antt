-- ===== src/Mirror/Objects.antt =====
-- The LFS files of all branches, each taken once.
use csghub_server.Prelude.{
  sym, subst, Text, true, List, [], ◌∷◌, text_eq, text_eq_iff, ◌≡◌, refl, ◌≢◌, ◌⊎◌, inl, inr, All,
  In, here, there, Bool-cases, arith, text_eq_refl,
}
use csghub_server.Mirror.Sync.{
  key_of, LfsMetaObject, is_seen, remove_duplicate_lfs_meta_object, unseen,
}

-- No two of the objects have the same key.
abbrev pub Distinct : List LfsMetaObject → Type 0
Distinct [] = Unit
Distinct (o ∷ os) = All (λ p. key_of p ≢ key_of o) os × Distinct os

is_seen-In : (seen : List Text) (k : Text) → is_seen seen k ≡ true → In k seen
is_seen-In [] k h = absurd (cc)
is_seen-In (s ∷ seen) k h = elim (Bool-cases (text_eq s k)) [
  | inl same ↦ subst (λ x. In x (s ∷ seen)) ((text_eq_iff s k).0 same) here
  | inr other ↦ there (is_seen-In seen k (rw other at h))
]

In-is_seen : (seen : List Text) (k : Text) → In k seen → is_seen seen k ≡ true
In-is_seen [] k m = elim m [ ]
In-is_seen (_ ∷ seen) k here = rw (text_eq_refl k) refl
In-is_seen (s ∷ seen) k (there m) = ground (arith, In-is_seen seen k m)

unseen-new :
    (seen : List Text) (os : List LfsMetaObject) (k : Text)
    → In k seen
    → All (λ p. key_of p ≢ k) (unseen seen os)
unfolding unseen
unseen-new seen [] k m = tt
unseen-new seen (o ∷ os) k m = elim (Bool-cases (is_seen seen (key_of o))) [
  | inl old ↦ rw old (unseen-new seen os k m)
  | inr new ↦ rw new (
    (λ e. absurd (cc (new, rw (sym e) at (In-is_seen seen k m)))),
    unseen-new (key_of o ∷ seen) os k (there m),
  )
]

unseen-Distinct : (seen : List Text) (os : List LfsMetaObject) → Distinct (unseen seen os)
unfolding unseen
unseen-Distinct seen [] = tt
unseen-Distinct seen (o ∷ os) = elim (Bool-cases (is_seen seen (key_of o))) [
  | inl old ↦ rw old (unseen-Distinct seen os)
  | inr new ↦
      rw new (unseen-new (key_of o ∷ seen) os (key_of o) here, unseen-Distinct (key_of o ∷ seen) os)
]

In-cases : {k s : Text} {seen : List Text} → In k (s ∷ seen) → (k ≡ s) ⊎ In k seen
In-cases here = inl refl
In-cases (there m) = inr m

-- An object of the list with that key.
abbrev pub HasKey : List LfsMetaObject → Text → Type 0
HasKey os k = (o : LfsMetaObject) × In o os × (key_of o ≡ k)

unseen-HasKey :
    (seen : List Text) (os : List LfsMetaObject) (o : LfsMetaObject)
    → In o os
    → In (key_of o) seen ⊎ HasKey (unseen seen os) (key_of o)
unfolding unseen
unseen-HasKey seen [] o m = elim m [ ]
unseen-HasKey seen (_ ∷ os) o here = elim (Bool-cases (is_seen seen (key_of o))) [
  | inl old ↦ inl (is_seen-In seen (key_of o) old)
  | inr new ↦ inr (rw new (o, here, refl))
]
unseen-HasKey seen (p ∷ os) o (there m) = elim (Bool-cases (is_seen seen (key_of p))) [
  | inl old ↦ rw old (unseen-HasKey seen os o m)
  | inr new ↦ elim (unseen-HasKey (key_of p ∷ seen) os o m) [
    | inr (q, mq, e) ↦ inr (rw new (q, there mq, e))
    | inl k ↦ elim (In-cases k) [ inl e ↦ inr (rw new (p, here, sym e)) | inr old ↦ inl old ]
  ]
]

-- No two objects that are left have the same key, and every key that was there is still there.
pub remove_duplicate_lfs_meta_object_lem :
    (os : List LfsMetaObject)
    → Distinct (remove_duplicate_lfs_meta_object os)
      × ((o : LfsMetaObject) → In o os → HasKey (remove_duplicate_lfs_meta_object os) (key_of o))
unfolding remove_duplicate_lfs_meta_object
remove_duplicate_lfs_meta_object_lem os = (
  unseen-Distinct [] os,
  λ o m. elim (unseen-HasKey [] os o m) [ inl k ↦ elim k [ ] | inr h ↦ h ],
)
