-- ===== src/Org/Rows.antt =====
-- The rows of the table of members, builder/store/database/member.go: rows added and removed.
use csghub_server.Org.Store.{is_member_with, is_member, member_in, Member}
use csghub_server.Prelude.{
  not, keep, text_eq_iff, ==_refl, true, Text, ℕ, ◌≡◌, refl, ◌≢◌, inl, inr, none, some, List, [],
  ◌∷◌, ◌++◌, arith, All, if◌then◌else◌, ◌∙◌, Bool-cases,
}

-- No user is a member of one organization by two rows.
abbrev pub Once : List Member → Type 0
Once [] = Unit
Once (m ∷ ms) = (member_in m.organization_id m.user_id ms ≡ none) × Once ms

pub member_in-append_some :
    (o u : ℕ) (ms ns : List Member) (m : Member)
    → member_in o u ms ≡ some m
    → member_in o u (ms ++ ns) ≡ some m
member_in-append_some o u [] ns m h = absurd (cc)
member_in-append_some o u (x ∷ ms) ns m h = elim (Bool-cases (is_member o u x)) [
  | inl it ↦ rw it (rw it at h)
  | inr other ↦ rw other (member_in-append_some o u ms ns m (rw other at h))
]

pub member_in-append_none :
    (o u : ℕ) (ms : List Member) (n : Member)
    → member_in o u ms ≡ none
    → member_in o u (ms ++ n ∷ []) ≡ (if is_member o u n then some n else none)
member_in-append_none o u [] n h = refl
member_in-append_none o u (x ∷ ms) n h = elim (Bool-cases (is_member o u x)) [
  | inl it ↦ absurd (cc (rw it at h))
  | inr other ↦ rw other (member_in-append_none o u ms n (rw other at h))
]

pub Once-append :
    (ms : List Member) (n : Member)
    → Once ms
    → member_in n.organization_id n.user_id ms ≡ none
    → Once (ms ++ n ∷ [])
Once-append [] n h free = (refl, tt)
Once-append (x ∷ ms) n h free = elim (Bool-cases (is_member n.organization_id n.user_id x)) [
  | inl it ↦ absurd (cc (rw it at free))
  | inr other ↦ (
    member_in-append_none x.organization_id x.user_id ms n h.0 ∙ ground arith,
    Once-append ms n h.1 (rw other at free),
  )
]

pub member_in-found :
    (o u : ℕ) (r : Text)
    → is_member o u (record { organization_id = o; user_id = u; role = r }) ≡ true
member_in-found o u r = rw (==_refl o, ==_refl u)

-- Removes the rows of one user with one role.
abbrev pub without : ℕ → ℕ → Text → List Member → List Member
without o u r ms = keep (λ m. not (is_member_with o u r m)) ms

-- A user is a member with one role only.
abbrev pub AllRoles : ℕ → ℕ → Text → List Member → Type 0
AllRoles o u r ms = All (λ m. is_member o u m ≡ true → m.role ≡ r) ms

pub without-same :
    (o u : ℕ) (r old : Text) (ms : List Member)
    → AllRoles o u r ms
    → r ≢ old
    → without o u old ms ≡ ms
without-same o u r old [] h ne = refl
without-same o u r old (m ∷ ms) h ne = elim (Bool-cases (is_member o u m)) [
  | inr other ↦ rw (other, without-same o u r old ms h.1 ne)
  | inl it ↦ ground (arith, text_eq_iff m.role old, h.0 it, without-same o u r old ms h.1 ne)
]

pub without-none :
    (o u : ℕ) (r : Text) (ms : List Member)
    → AllRoles o u r ms
    → member_in o u (without o u r ms) ≡ none
without-none o u r [] h = refl
without-none o u r (m ∷ ms) h = ground (arith, text_eq_iff m.role r, h.0, without-none o u r ms h.1)

-- Another user of the organization keeps the membership.
pub without-other :
    (o u v : ℕ) (r : Text) (ms : List Member)
    → v ≢ u
    → member_in o v (without o u r ms) ≡ member_in o v ms
without-other o u v r [] ne = refl
without-other o u v r (m ∷ ms) ne = ground (arith, without-other o u v r ms ne)
