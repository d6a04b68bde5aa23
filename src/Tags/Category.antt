-- ===== src/Tags/Category.antt =====
-- Setting the tags of one category.
use csghub_server.Prelude.{
  ==_iff, &&_true, ==_refl, Text, ℕ, ◌-◌, ◌≤◌, Bool, true, some, List, [], ◌∷◌, ◌==◌, is_empty, ◌≡◌,
  inl, inr, arith, Bool-cases, Option-cases, ◌∙◌,
}
use csghub_server.Tags.Counts.{Recounted, upsert_repo_tags_lem, count_of, occurrences}
use csghub_server.Tags.Store.{is_row_of, Rows, row_of, RepositoryTag, Statements, Tag}
use csghub_server.Tags.Component.{
  all_tags_by_scope_and_category, ids_of_names, has_category, Queries, ids_of_rows,
  update_repo_tags_by_category,
}

occurrences-ids_of_rows :
    (r u : ℕ) (category : Text) (tags : List Tag) (xs : List RepositoryTag) (x : RepositoryTag)
    → row_of r u xs ≡ some x
    → has_category category tags u ≡ true
    → 1 ≤ occurrences u (ids_of_rows r category tags xs)
unfolding ids_of_rows
occurrences-ids_of_rows r u category tags [] x h c = absurd (cc)
occurrences-ids_of_rows r u category tags (y ∷ ys) x h c = elim (Bool-cases (is_row_of r u y)) [
  | inr other ↦ ground (arith, occurrences-ids_of_rows r u category tags ys x (rw other at h) c)
  | inl this ↦
      let two = &&_true (y.repository_id == r) (y.tag_id == u) this in
      let c' : has_category category tags y.tag_id ≡ true = rw ((==_iff y.tag_id u).0 two.1) c in
      rw (two.0, c', two.1) (omega arith)
]

-- The occurrences among the old tags take all of a count that is 1 at most.
all_taken :
    (r u : ℕ) (category : Text) (tags : List Tag) (s : Rows)
    → has_category category tags u ≡ true
    → count_of r u s ≤ 1
    → count_of r u s - occurrences u (ids_of_rows r category tags s.rows) ≡ 0
all_taken r u category tags s c few = elim (Option-cases (row_of r u s.rows)) [
  | inl no' ↦ rw no' (omega arith)
  | inr (x, e) ↦ omega (arith, occurrences-ids_of_rows r u category tags s.rows x e c, few)
]

same_repository :
    (r u : ℕ) (old new : List ℕ) (s : Rows) (d : Rows × Bool)
    → Recounted r old new s d
    → d.1 ≡ true
    → count_of r u s - occurrences u old ≡ 0
    → count_of r u d.0 ≡ occurrences u new
same_repository r u old new s d (inl e) h z = absurd (cc)
same_repository r u old new s d (inr (y, f)) h z = f r u ∙ rw (==_refl r, z) (omega arith)

-- If the update is committed, a tag of the category that the repository had once at most has the
-- count of its occurrences among the tags asked for: 0 if it is not among them.
pub update_repo_tags_by_category_lem :
    (q : Queries) (st : Statements) (scope category : Text) (r u : ℕ) (names : List Text)
    (tags : List Tag) (s : Rows)
    → (update_repo_tags_by_category q st scope r category names tags s).1 ≡ true
    → has_category category tags u ≡ true
    → count_of r u s ≤ 1
    → count_of r u (update_repo_tags_by_category q st scope r category names tags s).0
      ≡ occurrences u (ids_of_names (all_tags_by_scope_and_category scope category tags) names)
unfolding update_repo_tags_by_category
update_repo_tags_by_category_lem q st scope category r u names tags s h c few =
    let all = all_tags_by_scope_and_category scope category tags in
    let old = ids_of_rows r category tags s.rows in
    elim (Bool-cases q.lists_tags) [
      | inr no' ↦ absurd (cc (rw no' at h))
      | inl lists ↦ elim (Bool-cases (is_empty all)) [
        | inl no' ↦ absurd (cc (rw (lists, no') at h))
        | inr some' ↦ elim (Bool-cases q.lists_old) [
          | inr no' ↦ absurd (cc (rw (lists, some', no') at h))
          | inl olds ↦
              rw (lists, some', olds)
                (same_repository r u old (ids_of_names all names) s _
                  (upsert_repo_tags_lem st r old (ids_of_names all names) s)
                  (rw (lists, some', olds) at h) (all_taken r u category tags s c few))
        ]
      ]
    ]
