-- ===== src/Repos/Files.antt =====
-- component/repo.go: the files of a repository that are created, updated and deleted over the API.
-- `Lfs` (child module) decides which files the object store holds.
use csghub_server.Prelude.{
  ◌&&◌, Text, text_eq, is_empty, codes, ℕ, Bool, true, false, not, Option, none, some,
  if◌then◌else◌, List, [], ◌∷◌, ◌++◌, ◌≡◌, ◌||◌, ◌==◌,
}
pub mod Lfs
pub mod Effects
mod Examples
use csghub_server.Repos.Store.{
  Repository, World, Env, Place, Outcome, ok, err, ◌>>=◌, ◌>>◌, guard, Error, unauthorized,
  panicked, lfs_failed, Done, checked, and_then, find_by_path, namespace_by_path, find_by_username,
  tell_git, create_file, update_file, delete_file, tell_tags, TagCall, meta_tags, library_tags,
  set_update_time, LfsMetaObject, put_object, write_lfs_meta,
}
use csghub_server.Repos.Access.{get_user_repo_permission}
use csghub_server.Repos.Files.Lfs.{
  LfsEnv, Pointer, should_use_lfs, parse_gitattributes, pointer_of, pointer_file, relative_path,
}
use csghub_server.Tags.Names.{base}

pub record FileReq : Type 0 where
  pub place : Place
  pub current_user : Text
  pub username : Text
  pub branch : Text
  pub file_path : Text
  pub origin_path : Text
  pub content : Text
  pub original_content : Text

-- The checks that the three operations share.
unfoldable pub file_checks : Env → FileReq → World → Outcome Repository
file_checks env q w = do
  repo ← find_by_path env q.place w
  p ← get_user_repo_permission env q.current_user repo w
  guard p.can_write unauthorized
  u ← find_by_username env q.username w
  n ← namespace_by_path env q.place.namespace w
  ok repo

-- `checkIfShouldUseLfs` and its twin for updates: the pointer to a file that the object store holds.
abbrev pub by_attributes : LfsEnv → FileReq → Option Text → Option Pointer
by_attributes l q none = none
by_attributes l q (some content) =
    if should_use_lfs l (base q.file_path) (parse_gitattributes content)
    then some (pointer_of l q.original_content)
    else none

unfoldable pub lfs_pointer : LfsEnv → FileReq → Option Pointer
lfs_pointer l q = if l.is_gitaly then by_attributes l q (l.attributes q.place q.branch) else none

abbrev pub sent_content : LfsEnv → FileReq → Option Pointer → Text
sent_content l q none = q.content
sent_content l q (some p) = pointer_file l p

-- `getTagScopeByRepoType` panics for another type.
unfoldable pub has_scope : Text → Bool
has_scope t =
    text_eq t (codes "model")
    || (text_eq t (codes "dataset")
        || (text_eq t (codes "code") || (text_eq t (codes "space") || text_eq t (codes "prompt"))))

abbrev pub scoped : Place → (World → Done (Unit {0})) → World → Done (Unit {0})
scoped p step w = if has_scope p.repo_type then step w else (w, err panicked)

unfoldable pub is_readme : FileReq → Bool
is_readme q = text_eq (base q.file_path) (codes "README.md")

-- What `createReadmeFile` and `createLibraryFile` ask the tag component for.
unfoldable pub new_tags : LfsEnv → FileReq → Text → TagCall
new_tags l q content =
    if is_readme q
    then meta_tags q.place (l.decode content)
    else library_tags q.place [] q.file_path

unfoldable pub create_tagged : Env → LfsEnv → FileReq → Text → World → Done (Unit {0})
create_tagged env l q content w =
    and_then (scoped q.place (tell_tags env (new_tags l q content)) w)
      (λ _. tell_git env (create_file q.place q.file_path content))

-- `changeReadmeFile`, `changeLibraryFile`: a library file is looked at only if its name changes.
unfoldable pub change_tags : Env → LfsEnv → FileReq → Text → World → Done (Unit {0})
change_tags env l q content w =
    if is_readme q
    then scoped q.place (tell_tags env (meta_tags q.place (l.decode content))) w
    else if text_eq q.file_path q.origin_path
    then (w, ok tt)
    else scoped q.place (tell_tags env (library_tags q.place q.origin_path q.file_path)) w

-- An error is written to the log, and the operation goes on; a panic ends it.
abbrev pub logged {ℓ} : {A : Type ℓ} → Done (Unit {0}) → (World → Done A) → Done A
logged (w, ok a) f = f w
logged (w, err panicked) f = (w, err panicked)
logged (w, err e) f = f w

-- The row of the pointer: the one with that key is written, or a new one.
abbrev pub put_meta : LfsMetaObject → List LfsMetaObject → List LfsMetaObject
put_meta m [] = m ∷ []
put_meta m (n ∷ ns) =
    let rest = put_meta m ns in
    if text_eq n.oid m.oid && n.repository_id == m.repository_id then m ∷ ns else n ∷ rest

abbrev pub meta_of : Repository → Pointer → LfsMetaObject
meta_of repo p = record { oid = p.oid; size = p.size; repository_id = repo.id }

abbrev pub write_meta : Env → Repository → Pointer → World → Done (Unit {0})
write_meta env repo p w =
    if env.fails (write_lfs_meta p.oid repo.id)
    then (w, err lfs_failed)
    else (record w { lfs_metas = put_meta (meta_of repo p) w.lfs_metas }, ok tt)

abbrev pub object_key : Pointer → Text
object_key p = codes "lfs/" ++ relative_path p.oid

unfoldable pub store_lfs :
    Env → LfsEnv → Repository → FileReq → Option Pointer → World → Done (Unit {0})
store_lfs env l repo q none w = (w, ok tt)
store_lfs env l repo q (some p) w =
    let key = object_key p in
    let w' = record w { objects = w.objects ++ (key, q.original_content) ∷ [] } in
    if env.fails (put_object key)
    then (w, err lfs_failed)
    else if l.uploaded_size key q.original_content == p.size
    then write_meta env repo p w'
    else (w', err lfs_failed)

-- What `CreateFile` and `UpdateFile` do at their end.
abbrev pub finish : Env → LfsEnv → Repository → FileReq → Option Pointer → World → Done (Unit {0})
finish env l repo q p w =
    and_then (store_lfs env l repo q p w) (λ _ v. (set_update_time env q.place v, ok tt))

unfoldable pub create_repo_file : Env → LfsEnv → FileReq → World → Done (Unit {0})
create_repo_file env l q w =
    checked (file_checks env q w)
      (λ repo v.
        let p = lfs_pointer l q in
        logged (create_tagged env l q (sent_content l q p) v) (finish env l repo q p))
      w

unfoldable pub update_repo_file : Env → LfsEnv → FileReq → World → Done (Unit {0})
update_repo_file env l q w =
    checked (file_checks env q w)
      (λ repo v.
        let p = lfs_pointer l q in
        let content = sent_content l q p in
        and_then (tell_git env (update_file q.place q.file_path content) v)
          (λ _ x. logged (change_tags env l q content x) (finish env l repo q p)))
      w

unfoldable pub delete_repo_file : Env → LfsEnv → FileReq → World → Done (Unit {0})
delete_repo_file env l q w =
    checked (file_checks env q w)
      (λ repo v. and_then (tell_git env (delete_file q.place q.file_path) v) (λ _ x.
        logged (change_tags env l q q.content x) (λ y. (set_update_time env q.place y, ok tt))))
      w
