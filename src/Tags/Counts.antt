-- ===== src/Tags/Counts.antt =====
-- What the updates of a repository's tags do to the counts.
use csghub_server.Prelude.{
  ap, &&_true, sym, ℕ, suc, ◌+◌, ◌-◌, Bool, true, false, ◌&&◌, Option, none, some, List, [], ◌∷◌,
  ◌++◌, map, if◌then◌else◌, ◌==◌, ◌≡◌, refl, ◌⊎◌, inl, inr, arith, ◌∙◌, Bool-cases, Option-cases,
  ==_iff,
}
use csghub_server.Tags.Store.{
  tag_ids, Tag, Statements, then_increase, decrease_all, decrease, in_tx, increase_all, increase,
  is_row_of, set_library_tag, upsert_repo_tags, increase_row, lessen, row_of, RepositoryTag, Rows,
}

-- The count of a tag of a repository, 0 without a row.
abbrev pub count_in : Option RepositoryTag → ℕ
count_in none = 0
count_in (some x) = x.count

abbrev pub count_of : ℕ → ℕ → Rows → ℕ
count_of r t s = count_in (row_of r t s.rows)

abbrev pub occurrences : ℕ → List ℕ → ℕ
occurrences t [] = 0
occurrences t (u ∷ us) = if u == t then suc (occurrences t us) else occurrences t us

row_of-lessen :
    (r t q u : ℕ) (xs : List RepositoryTag)
    → count_in (row_of q u (map (lessen r t) xs))
      ≡ (if q == r && u == t then count_in (row_of q u xs) - 1 else count_in (row_of q u xs))
row_of-lessen r t q u [] = ground arith
row_of-lessen r t q u (x ∷ xs) = ground (arith, row_of-lessen r t q u xs)

row_of-increase_other :
    (r t q u : ℕ) (xs : List RepositoryTag)
    → (q == r && u == t) ≡ false
    → count_in (row_of q u (map (increase_row r t) xs)) ≡ count_in (row_of q u xs)
row_of-increase_other r t q u [] h = refl
row_of-increase_other r t q u (x ∷ xs) h = ground (arith, row_of-increase_other r t q u xs h)

row_of-increase :
    (r t q u : ℕ) (xs : List RepositoryTag) (y : RepositoryTag)
    → row_of r t xs ≡ some y
    → count_in (row_of q u (map (increase_row r t) xs))
      ≡ (if q == r && u == t then suc (count_in (row_of q u xs)) else count_in (row_of q u xs))
row_of-increase r t q u [] y h = absurd (cc)
row_of-increase r t q u (x ∷ xs) y h = elim (Bool-cases (is_row_of r t x)) [
  | inl this ↦ ground (arith, row_of-increase_other r t q u xs)
  | inr other ↦ ground (arith, row_of-increase r t q u xs y (rw other at h))
]

row_of-append :
    (r t q u i : ℕ) (xs : List RepositoryTag)
    → row_of r t xs ≡ none
    → count_in (row_of q u (xs ++ record { id = i; repository_id = r; tag_id = t; count = 1 } ∷ []))
      ≡ (if q == r && u == t then 1 else count_in (row_of q u xs))
row_of-append r t q u i [] h = ground arith
row_of-append r t q u i (x ∷ xs) h = elim (Bool-cases (is_row_of r t x)) [
  | inl this ↦ absurd (cc (rw this at h))
  | inr other ↦ ground (arith, row_of-append r t q u i xs (rw other at h))
]

count_of-decrease :
    (r t q u : ℕ) (s : Rows)
    → count_of q u (decrease r t s)
      ≡ (if q == r && u == t then count_of q u s - 1 else count_of q u s)
count_of-decrease r t q u s = row_of-lessen r t q u s.rows

count_of-increase :
    (r t q u : ℕ) (s : Rows)
    → count_of q u (increase r t s)
      ≡ (if q == r && u == t then suc (count_of q u s) else count_of q u s)
count_of-increase r t q u s = elim (Option-cases (row_of r t s.rows)) [
  | inr (y, e) ↦ rw e (row_of-increase r t q u s.rows y e)
  | inl e ↦ rw e (
      row_of-append r t q u s.next_id s.rows e ∙ elim (Bool-cases (q == r && u == t)) [
        | inr no' ↦ ground (arith, no')
        | inl same ↦
            let both = &&_true _ _ same in
            let free : row_of q u s.rows ≡ none =
              rw ((==_iff q r).0 both.0, (==_iff u t).0 both.1) e in
            ground (arith, ap count_in free, same)
      ])
]

decrease_all_lem :
    (works : ℕ → Bool) (r q u : ℕ) (ts : List ℕ) (s s' : Rows)
    → decrease_all works r ts s ≡ some s'
    → count_of q u s' ≡ (if q == r then count_of q u s - occurrences u ts else count_of q u s)
unfolding decrease_all
decrease_all_lem works r q u [] s s' h = let e : s ≡ s' = cc h in rw (sym e) (ground arith)
decrease_all_lem works r q u (t ∷ ts) s s' h = elim (Bool-cases (works t)) [
  | inr fails ↦ absurd (cc (rw fails at h))
  | inl ok' ↦
      decrease_all_lem works r q u ts (decrease r t s) s' (rw ok' at h)
      ∙ ground (arith, count_of-decrease r t q u s)
]

increase_all_lem :
    (works : ℕ → Bool) (r q u : ℕ) (ts : List ℕ) (s s' : Rows)
    → increase_all works r ts s ≡ some s'
    → count_of q u s' ≡ (if q == r then count_of q u s + occurrences u ts else count_of q u s)
unfolding increase_all
increase_all_lem works r q u [] s s' h = let e : s ≡ s' = cc h in rw (sym e) (ground arith)
increase_all_lem works r q u (t ∷ ts) s s' h = elim (Bool-cases (works t)) [
  | inr fails ↦ absurd (cc (rw fails at h))
  | inl ok' ↦
      increase_all_lem works r q u ts (increase r t s) s' (rw ok' at h)
      ∙ ground (arith, count_of-increase r t q u s)
]

-- A transaction that is not committed leaves the table; otherwise each tag of the repository lost the
-- old occurrences, down to 0 at most, and then got the new ones.
abbrev pub Recounted : ℕ → List ℕ → List ℕ → Rows → Rows × Bool → Type 0
Recounted r old new s d =
    (d ≡ (s, false))
    ⊎ ((d.1 ≡ true)
        × ((q u : ℕ)
            → count_of q u d.0 ≡ (
                if q == r
                then (count_of q u s - occurrences u old) + occurrences u new
                else count_of q u s)))

recounts :
    (dec inc : ℕ → Bool) (r : ℕ) (old new : List ℕ) (s : Rows)
    → Recounted r old new s (in_tx s (then_increase inc r new (decrease_all dec r old s)))
recounts dec inc r old new s = elim (Option-cases (decrease_all dec r old s)) [
  | inl no' ↦ rw no' (inl refl)
  | inr (s1, e1) ↦ elim (Option-cases (increase_all inc r new s1)) [
    | inl no' ↦ rw (e1, no') (inl refl)
    | inr (s2, e2) ↦
        rw (e1, e2)
          (inr (
            refl,
            λ q u.
                increase_all_lem inc r q u new s1 s2 e2
                ∙ ground (arith, decrease_all_lem dec r q u old s s1 e1),
          ))
  ]
]

-- `UpsertRepoTags`, whichever of its statements fail: either the table is as it was, or for every
-- tag of the repository the count has lost the occurrences among the old tags, down to 0 at most,
-- and then got those among the new ones, and the counts of other repositories are as they were.
pub upsert_repo_tags_lem :
    (st : Statements) (r : ℕ) (old new : List ℕ) (s : Rows)
    → Recounted r old new s (upsert_repo_tags st r old new s)
unfolding upsert_repo_tags
upsert_repo_tags_lem st r old new s = recounts st.decreases st.increases r old new s

-- `SetLibraryTag`, whichever of its statements fail: the same, for the old and the new tag of one
-- file, each of which may be nil.
pub set_library_tag_lem :
    (st : Statements) (r : ℕ) (new old : Option Tag) (s : Rows)
    → Recounted r (tag_ids old) (tag_ids new) s (set_library_tag st r new old s)
unfolding set_library_tag
set_library_tag_lem st r new old s =
    recounts st.decreases st.increases r (tag_ids old) (tag_ids new) s
