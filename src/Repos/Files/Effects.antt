-- ===== src/Repos/Files/Effects.antt =====
-- Who changes the files of a repository, and what the changes leave behind.
use csghub_server.Prelude.{
  ap, ◌∙◌, Text, text_neq, true, false, none, [], ◌∷◌, ◌++◌, ◌≡◌, ◌≢◌, ◌⊎◌, inl, inr, refl, arith,
  Bool-cases,
}
use csghub_server.Repos.Store.{
  git_failed, tag_failed, checked_or, Repository, World, Env, Place, ok, err, guard, unauthorized,
  Refused, bind-ok, guard-ok, Call, git, tag, namespace_and_name, find_by_path, tell_git,
  create_file, delete_file, tell_tags, library_tags, set_update_time,
}
use csghub_server.Repos.Access.{get_user_repo_permission, UserRepoPermission}
use csghub_server.Repos.Access.Rights.{
  Holds, get_user_repo_permission_lem, check-Holds, write_known,
}
use csghub_server.Repos.Files.{
  new_tags, FileReq, file_checks, create_repo_file, update_repo_file, delete_repo_file, lfs_pointer,
  store_lfs, create_tagged, change_tags, has_scope, is_readme,
}
use csghub_server.Repos.Files.Lfs.{LfsEnv}
use csghub_server.Org.Role.{write}

-- The user may write to the repository: the owner of its namespace, or a member with that role.
pub record MayWrite (env : Env) (w : World) (q : FileReq) : Type 0 where
  pub repo : Repository
  pub namespace : Text
  pub name : Text
  pub found : find_by_path env q.place w ≡ ok repo
  pub path : namespace_and_name repo ≡ ok (namespace, name)
  pub holds : Holds env w q.current_user namespace write

permission-named :
    (env : Env) (user : Text) (repo : Repository) (w : World) (p : UserRepoPermission)
    → get_user_repo_permission env user repo w ≡ ok p
    → p.can_write ≡ true
    → (user ≢ []) × (ns : Text) × (name : Text) × (namespace_and_name repo ≡ ok (ns, name))
unfolding get_user_repo_permission
permission-named env [] repo w p h writes = absurd (ground arith)
permission-named env (c ∷ user) repo w p h writes =
    let (x, named, rest) = bind-ok (namespace_and_name repo) _ p h in (λ e. cc e, x.0, x.1, named)

module _ (env : Env) (w : World) (q : FileReq) where
  file_checks-MayWrite : (r : Repository) → file_checks env q w ≡ ok r → MayWrite env w q
  unfolding file_checks
  file_checks-MayWrite r h =
      let (repo, found, h1) = bind-ok (find_by_path env q.place w) _ r h in
      let (p, permitted, h2) =
        bind-ok (get_user_repo_permission env q.current_user repo w) _ r h1 in
      let (x, can, h3) = bind-ok (guard p.can_write unauthorized) _ r h2 in
      let writes = guard-ok p.can_write unauthorized x can in
      let (named, ns, name, path) = permission-named env q.current_user repo w p permitted writes in
      let t =
        get_user_repo_permission_lem env q.current_user ns name repo w p named path permitted in
      record {
        repo = repo;
        namespace = ns;
        name = name;
        found = found;
        path = path;
        holds = check-Holds env q.current_user ns write w write_known (cc (t.1, writes));
      }

-- Creating, updating and deleting a file end with an error and change nothing, unless the user owns
-- the namespace of the repository or is a member of it with at least the role write. This holds for
-- public repositories as well.
pub files-authorized :
    (env : Env) (l : LfsEnv) (w : World) (q : FileReq)
    → (Refused w (create_repo_file env l q w) ⊎ MayWrite env w q)
      × (Refused w (update_repo_file env l q w) ⊎ MayWrite env w q)
      × (Refused w (delete_repo_file env l q w) ⊎ MayWrite env w q)
unfolding create_repo_file update_repo_file delete_repo_file
files-authorized env l w q = (
  checked_or (file_checks env q w) _ w (file_checks-MayWrite env w q),
  checked_or (file_checks env q w) _ w (file_checks-MayWrite env w q),
  checked_or (file_checks env q w) _ w (file_checks-MayWrite env w q),
)

set_update_time-keeps :
    (env : Env) (p : Place) (w : World)
    → ((set_update_time env p w).git ≡ w.git) × ((set_update_time env p w).tags ≡ w.tags)
unfolding set_update_time
set_update_time-keeps env p w = ground arith

-- A creation that the git server refuses: the tags are asked for first, and may fail before it.
create_tagged-refused :
    (env : Env) (l : LfsEnv) (w : World) (q : FileReq)
    → has_scope q.place.repo_type ≡ true
    → env.fails (git (create_file q.place q.file_path q.content)) ≡ true
    → (create_tagged env l q q.content w ≡ (w, err tag_failed))
      ⊎ ((v : World) × (create_tagged env l q q.content w ≡ (v, err git_failed)) × (v.git ≡ w.git))
unfolding create_tagged tell_tags tell_git
create_tagged-refused env l w q scope refuses =
    elim (Bool-cases (env.fails (tag (new_tags l q q.content)))) [
      | inl fails ↦ inl (rw (scope, fails) refl)
      | inr asked ↦ inr (
        record w { tags = w.tags ++ new_tags l q q.content ∷ [] },
        rw (scope, asked, refuses) refl,
        refl,
      )
    ]

-- If the checks pass and the file is to be no LFS file, but the git server refuses to create it, then
-- `CreateFile` reports success, though the git server has carried out no call.
pub create_repo_file-lost :
    (env : Env) (l : LfsEnv) (w : World) (q : FileReq) (r : Repository)
    → file_checks env q w ≡ ok r
    → has_scope q.place.repo_type ≡ true
    → lfs_pointer l q ≡ none
    → env.fails (git (create_file q.place q.file_path q.content)) ≡ true
    → ((create_repo_file env l q w).1 ≡ ok tt) × ((create_repo_file env l q w).0.git ≡ w.git)
unfolding create_repo_file store_lfs
create_repo_file-lost env l w q r passes scope plain refuses =
    elim (create_tagged-refused env l w q scope refuses) [
      | inl e ↦ rw (passes, plain, e) (refl, (set_update_time-keeps env q.place w).0)
      | inr (v, e, same) ↦
          rw (passes, plain, e) (refl, (set_update_time-keeps env q.place v).0 ∙ same)
    ]

module _ (env : Env) (healthy : (c : Call) → env.fails c ≡ false) (l : LfsEnv) (q : FileReq)
    (scope : has_scope q.place.repo_type ≡ true) (library : is_readme q ≡ false) where
  tags-create :
      (w : World) (r : Repository)
      → file_checks env q w ≡ ok r
      → lfs_pointer l q ≡ none
      → (create_repo_file env l q w).0.tags ≡ w.tags ++ library_tags q.place [] q.file_path ∷ []
  unfolding create_repo_file create_tagged new_tags store_lfs tell_tags tell_git
  tags-create w r passes plain =
      rw
        (
          passes,
          plain,
          scope,
          library,
          healthy (tag (library_tags q.place [] q.file_path)),
          healthy (git (create_file q.place q.file_path q.content)),
        )
        ((set_update_time-keeps env q.place _).1)

  tags-delete :
      (w : World) (r : Repository)
      → file_checks env q w ≡ ok r
      → q.origin_path ≡ []
      → q.file_path ≢ []
      → (delete_repo_file env l q w).0.tags ≡ w.tags ++ library_tags q.place [] q.file_path ∷ []
  unfolding delete_repo_file change_tags tell_tags tell_git
  tags-delete w r passes no_origin named =
      let renamed = text_neq q.file_path q.origin_path (λ e. named (e ∙ no_origin)) in
      rw
        (
          passes,
          healthy (git (delete_file q.place q.file_path)),
          library,
          renamed,
          scope,
          healthy (tag (library_tags q.place q.origin_path q.file_path)),
        )
        ((set_update_time-keeps env q.place _).1)
      ∙ ap (λ p. w.tags ++ library_tags q.place p q.file_path ∷ []) no_origin

  -- If all calls go through, deleting a library file with an empty origin path makes the same call
  -- of the tag component as creating it does: after both, the tags of the new file were asked for
  -- twice.
  pub delete_repo_file-tags :
      (w : World) (r r' : Repository)
      → file_checks env q w ≡ ok r
      → lfs_pointer l q ≡ none
      → q.origin_path ≡ []
      → q.file_path ≢ []
      → file_checks env q (create_repo_file env l q w).0 ≡ ok r'
      → (delete_repo_file env l q (create_repo_file env l q w).0).0.tags
        ≡ (w.tags ++ library_tags q.place [] q.file_path ∷ [])
          ++ library_tags q.place [] q.file_path ∷ []
  delete_repo_file-tags w r r' passes plain no_origin named passes' =
      tags-delete (create_repo_file env l q w).0 r' passes' no_origin named
      ∙ ap (λ ts. ts ++ library_tags q.place [] q.file_path ∷ []) (tags-create w r passes plain)
