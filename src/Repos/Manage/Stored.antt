-- ===== src/Repos/Manage/Stored.antt =====
-- What a creation and a deletion of a repository leave in the tables.
use csghub_server.Repos.Store.{
  remove_repo, clean_relations, insert_repo, Repository, User, World, Env, Place, ok, err,
  not_found, git_failed, Call, git, repo_at, is_at, git_path_of, find_repo, find_by_path,
  insert_row, tell_git, create_repo, delete_repo, delete_row, clean_relations_by_repo_id,
}
use csghub_server.Prelude.{
  In-keep, suc, Text, text_eq_refl, to_lower, ℕ, true, false, not, List, [], ◌∷◌, ◌++◌, ◌≡◌, ◌==◌,
  ==_refl, ==_iff, refl, Bool-cases, inl, inr, keep, In, All,
}
use csghub_server.Repos.Manage.{
  CreateRepoReq, create_repository, delete_repository, create_checks, delete_checks, creation,
  new_repository,
}

-- A row put behind a table in which nothing is found at its place.
repo_at-append :
    (p : Text) (r : Repository) (rs : List Repository)
    → repo_at p rs ≡ err not_found
    → is_at p r ≡ true
    → repo_at p (rs ++ r ∷ []) ≡ ok r
repo_at-append p r [] h fits = rw fits refl
repo_at-append p r (s ∷ rs) h fits = elim (Bool-cases (is_at p s)) [
  | inl same ↦ cc (rw same at h)
  | inr other ↦ rw other (repo_at-append p r rs (rw other at h) fits)
]

-- Every row at the place has that key.
abbrev pub OnlyAt : Text → ℕ → List Repository → Type 0
OnlyAt p i rs = All (λ s. is_at p s ≡ true → s.id ≡ i) rs

repo_at-kept :
    (p : Text) (s : Repository) (rs : List Repository)
    → ¬ (is_at p s ≡ true)
    → repo_at p rs ≡ err not_found
    → repo_at p (s ∷ rs) ≡ err not_found
repo_at-kept p s rs ne h = elim (Bool-cases (is_at p s)) [
  | inl at ↦ absurd (ne at)
  | inr other ↦ rw other h
]

repo_at-keep :
    (p : Text) (i : ℕ) (rs : List Repository)
    → OnlyAt p i rs
    → repo_at p (keep (λ s. not (s.id == i)) rs) ≡ err not_found
repo_at-keep p i [] h = refl
repo_at-keep p i (s ∷ rs) h = elim (Bool-cases (s.id == i)) [
  | inl same ↦ rw same (repo_at-keep p i rs h.1)
  | inr other ↦
      rw other (
        repo_at-kept p s _ (λ at. cc (other, (==_iff s.id i).1 (h.0 at))) (repo_at-keep p i rs h.1))
]

keep-gone : (i : ℕ) (js : List ℕ) → ¬ In i (keep (λ j. not (j == i)) js)
keep-gone i js m = cc (In-keep (λ j. not (j == i)) js m, ==_refl i)

module _ (env : Env) (healthy : (c : Call) → env.fails c ≡ false) (w : World) where
  -- If all calls go through, the checks of `CreateRepo` pass, and the git server gives the repository
  -- the git path of its place, where none was before, then `CreateRepo` succeeds with the row that a
  -- lookup of the place finds afterwards. The row has a new key, belongs to the user, and is as
  -- private as was asked for; the git server was told of it once.
  pub create_repository-find :
      (q : CreateRepoReq) (u : User)
      → create_checks env q w ≡ ok u
      → (env.created q.place).git_path ≡ git_path_of q.place
      → find_by_path env q.place w ≡ err not_found
      → (v : World) × (r : Repository) × (create_repository env q w
          ≡ (v, ok (env.created q.place, r)))
        × (find_by_path env q.place v ≡ ok r)
        × (r.id ≡ w.next_id)
        × (r.user_id ≡ u.id)
        × (r.private ≡ q.private)
        × (v.git ≡ w.git ++ create_repo q.place (creation q) ∷ [])
  unfolding create_repository insert_row tell_git find_by_path
  create_repository-find q u passes path absent =
      let r = record (new_repository q u (env.created q.place)) { id = w.next_id } in
      let v = record w {
        repos = w.repos ++ r ∷ [];
        next_id = suc w.next_id;
        git = w.git ++ create_repo q.place (creation q) ∷ [];
      } in
      let absent' = rw (healthy (find_repo q.place)) at absent in
      (
        v,
        r,
        rw (passes, healthy (git (create_repo q.place (creation q))), healthy (insert_repo q.place))
            refl,
        rw (healthy (find_repo q.place)) (
            repo_at-append (git_path_of q.place) r w.repos absent'
              (rw path (text_eq_refl (to_lower (git_path_of q.place))))),
        refl,
        refl,
        refl,
        refl,
      )

  -- If all calls go through, the checks of `DeleteRepo` pass with the row of the repository, and no
  -- row of another key is found at the place, then `DeleteRepo` returns that row; afterwards a lookup
  -- of the place finds nothing, neither a runtime framework nor a like refers to the repository any
  -- more, and the git server was told of it once.
  pub delete_repository-gone :
      (p : Place) (username : Text) (r : Repository)
      → delete_checks env p username w ≡ ok r
      → OnlyAt (git_path_of p) r.id w.repos
      → (v : World) × (delete_repository env p username w ≡ (v, ok r))
        × (find_by_path env p v ≡ err not_found)
        × (¬ In r.id v.frameworks)
        × (¬ In r.id v.likes)
        × (v.git ≡ w.git ++ delete_repo p ∷ [])
  unfolding delete_repository delete_row tell_git find_by_path clean_relations_by_repo_id
  delete_repository-gone p username r passes only = (
    record w {
      repos = keep (λ s. not (s.id == r.id)) w.repos;
      frameworks = keep (λ j. not (j == r.id)) w.frameworks;
      likes = keep (λ j. not (j == r.id)) w.likes;
      git = w.git ++ delete_repo p ∷ [];
    },
    rw
        (
          passes,
          healthy (clean_relations r.id),
          healthy (git (delete_repo p)),
          healthy (remove_repo r.id),
        )
        refl,
    rw (healthy (find_repo p)) (repo_at-keep (git_path_of p) r.id w.repos only),
    keep-gone r.id w.frameworks,
    keep-gone r.id w.likes,
    refl,
  )

-- If the checks of `DeleteRepo` pass and the git server alone refuses, then `DeleteRepo` ends with
-- an error and the row of the repository stays, but the runtime frameworks and the likes of the
-- repository are gone.
pub delete_repository-half :
    (env : Env) (p : Place) (username : Text) (w : World) (r : Repository)
    → delete_checks env p username w ≡ ok r
    → env.fails (clean_relations r.id) ≡ false
    → env.fails (git (delete_repo p)) ≡ true
    → ((delete_repository env p username w).1 ≡ err git_failed)
      × ((delete_repository env p username w).0.repos ≡ w.repos)
      × (¬ In r.id (delete_repository env p username w).0.frameworks)
      × (¬ In r.id (delete_repository env p username w).0.likes)
unfolding delete_repository tell_git clean_relations_by_repo_id
delete_repository-half env p username w r passes cleans refuses =
    rw (passes, cleans, refuses) (refl, refl, keep-gone r.id w.frameworks, keep-gone r.id w.likes)
