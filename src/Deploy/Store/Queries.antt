-- ===== src/Deploy/Store/Queries.antt =====
-- What the queries for a new task return: the unfinished task with the least key.
use csghub_server.Deploy.Store.{
  deploy_by_id, load_relation, fetched, TaskRow, DeployTask, first_by_id, earlier,
}
use csghub_server.Prelude.{
  ◌∙◌, subst, ℕ, ◌≤◌, ◌≡◌, refl, ◌⊎◌, inl, inr, Bool, true, false, Option, none, some, List, [],
  ◌∷◌, arith, ltb, keep, All, All-map, In, here, there, Bool-cases, Option-cases, Fetched, found,
  no_rows, ap,
}

-- A candidate of a query: a task that passes its condition.
abbrev Candidate : (TaskRow → Bool) → TaskRow → Type 0
Candidate p u = p u ≡ true

-- `t` is the candidate of `p` in the table with the least key.
pub record IsFirst (p : TaskRow → Bool) (ts : List TaskRow) (t : TaskRow) : Type 0 where
  pub stored : In t ts
  pub passes : p t ≡ true
  pub least : All (λ u. p u ≡ true → t.id ≤ u.id) ts

earlier_cases :
    (t : TaskRow) (o : Option TaskRow)
    → ((earlier t o ≡ t) × ((u : TaskRow) → o ≡ some u → t.id ≤ u.id))
      ⊎ ((u : TaskRow) × (o ≡ some u) × (earlier t o ≡ u) × (u.id ≤ t.id))
earlier_cases t none = inl (refl, λ u h. absurd (cc))
earlier_cases t (some v) = elim (Bool-cases (ltb v.id t.id)) [
  | inl lt ↦ inr (v, refl, rw lt, ground arith)
  | inr ge ↦ inl (rw ge, λ u h. ground arith)
]

abbrev Passed : (TaskRow → Bool) → ℕ → TaskRow → Type 0
Passed p n u = p u ≡ true → n ≤ u.id

first_none :
    (p : TaskRow → Bool) (ts : List TaskRow)
    → first_by_id (keep p ts) ≡ none
    → All (λ u. p u ≡ false) ts
unfolding first_by_id
first_none p [] h = tt
first_none p (t ∷ ts) h = elim (Bool-cases (p t)) [
  | inl yes' ↦ absurd (cc (rw yes' at h))
  | inr no' ↦ (no', first_none p ts (rw no' at h))
]

-- The rest of the table in the three cases of a table that begins with `t`.
skip_case :
    (p : TaskRow → Bool) (t r : TaskRow) (ts : List TaskRow)
    → p t ≡ false
    → IsFirst p ts r
    → IsFirst p (t ∷ ts) r
skip_case p t r ts out f = record {
  stored = there f.stored;
  passes = f.passes;
  least = (λ h. absurd (cc), f.least);
}

alone_case :
    (p : TaskRow → Bool) (t : TaskRow) (ts : List TaskRow)
    → p t ≡ true
    → All (λ u. p u ≡ false) ts
    → IsFirst p (t ∷ ts) t
alone_case p t ts in' none' = record {
  stored = here;
  passes = in';
  least = (λ h. omega arith, All-map _ (Passed p t.id) (λ u e h. absurd (cc)) ts none');
}

before_case :
    (p : TaskRow → Bool) (t u : TaskRow) (ts : List TaskRow)
    → p t ≡ true
    → t.id ≤ u.id
    → IsFirst p ts u
    → IsFirst p (t ∷ ts) t
before_case p t u ts in' le f = record {
  stored = here;
  passes = in';
  least = (
    λ h. omega arith,
    All-map (Passed p u.id) (Passed p t.id) (λ v g h. omega (arith, g h)) ts f.least,
  );
}

after_case :
    (p : TaskRow → Bool) (t u : TaskRow) (ts : List TaskRow)
    → u.id ≤ t.id
    → IsFirst p ts u
    → IsFirst p (t ∷ ts) u
after_case p t u ts le f = record {
  stored = there f.stored;
  passes = f.passes;
  least = (λ h. le, f.least);
}

pub first_by_id-keep :
    (p : TaskRow → Bool) (ts : List TaskRow) (r : TaskRow)
    → first_by_id (keep p ts) ≡ some r
    → IsFirst p ts r
unfolding first_by_id
first_by_id-keep p [] r h = absurd (cc)
first_by_id-keep p (t ∷ ts) r h = elim (Bool-cases (p t)) [
  | inr out ↦ skip_case p t r ts out (first_by_id-keep p ts r (rw out at h))
  | inl in' ↦ elim (Option-cases (first_by_id (keep p ts))) [
    | inl e ↦
        let e' : t ≡ r = cc (rw (in', e) at h) in
        subst (IsFirst p (t ∷ ts)) e' (alone_case p t ts in' (first_none p ts e))
    | inr (u, e) ↦ elim (earlier_cases t (some u)) [
      | inl (same, le) ↦
          let e' : t ≡ r = cc (rw (in', e, same) at h) in
          subst (IsFirst p (t ∷ ts)) e'
            (before_case p t u ts in' (le u refl) (first_by_id-keep p ts u e))
      | inr (v, ev, same, le) ↦
          let e' : v ≡ r = cc (rw (in', e, same) at h) in
          let e'' : u ≡ v = cc in
          subst (IsFirst p (t ∷ ts)) e'
            (after_case p t v ts le (first_by_id-keep p ts v (e ∙ ap some e'')))
    ]
  ]
]

pub get_new-IsFirst :
    (ds : List _) (p : TaskRow → Bool) (ts : List TaskRow) (t : DeployTask)
    → fetched (load_relation ds (first_by_id (keep p ts))) ≡ found t
    → IsFirst p ts t.row × (t.deploy ≡ deploy_by_id t.deploy_id ds)
get_new-IsFirst ds p ts t h = elim (Option-cases (first_by_id (keep p ts))) [
  | inl e ↦ absurd (cc (rw e at h))
  | inr (r, e) ↦
      let h' : Fetched.found (record { row = r; deploy = deploy_by_id r.deploy_id ds }) ≡ found t =
        rw e at h in
      let e' : r ≡ t.row = cc in (subst (IsFirst p ts) e' (first_by_id-keep p ts r e), ground arith)
]

pub get_new-no_rows :
    (ds : List _) (p : TaskRow → Bool) (ts : List TaskRow)
    → fetched (load_relation ds (first_by_id (keep p ts))) ≡ no_rows
    → All (λ u. p u ≡ false) ts
get_new-no_rows ds p ts h = elim (Option-cases (first_by_id (keep p ts))) [
  | inl e ↦ first_none p ts e
  | inr (r, e) ↦ absurd (cc (rw e at h))
]
