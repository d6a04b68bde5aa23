-- ===== src/Repos/Manage.antt =====
-- component/repo.go: `CreateRepo`, `UpdateRepo` and `DeleteRepo`.
pub mod Guard
pub mod Stored
use csghub_server.Prelude.{
  ◌==◌, Text, text_eq, is_empty, codes, split, Bool, true, false, not, ◌&&◌, ◌||◌, Option, none,
  some, if◌then◌else◌, List, [], ◌∷◌, ◌++◌,
}
use csghub_server.Repos.Store.{
  Repository, Namespace, User, World, Env, Place, Creation, Settings, GitRepo, Outcome, ok, err,
  ◌>>=◌, ◌>>◌, guard, or_missing, not_found, no_email, no_permission, Done, checked, and_then,
  find_by_path, namespace_by_path, find_by_username, can_admin_site, org_namespace, insert_row,
  update_row, delete_row, clean_relations_by_repo_id, tell_git, create_repo, update_repo,
  delete_repo,
}
use csghub_server.Repos.Access.{check_current_user_permission}
use csghub_server.Org.Role.{Role, write, admin}

-- `path.Join` of two elements: the segments of a cleaned path, the last one first.
abbrev pub is_up : Text → Bool
is_up s = text_eq s (codes "..")

abbrev pub push_segment : Bool → Text → List Text → List Text
push_segment rooted s [] = if is_up s && rooted then [] else s ∷ []
push_segment rooted s (t ∷ ts) = if is_up s && not (is_up t) then ts else s ∷ t ∷ ts

unfoldable pub clean_segments : Bool → List Text → List Text → List Text
clean_segments rooted [] done = done
clean_segments rooted (s ∷ ss) done =
    clean_segments rooted ss
      (if is_empty s || text_eq s (codes ".") then done else push_segment rooted s done)

unfoldable pub joined : List Text → Text
joined [] = []
joined (s ∷ []) = s
joined (s ∷ t ∷ ts) = joined (t ∷ ts) ++ (b'/' ∷ s)

abbrev pub is_rooted : Text → Bool
is_rooted [] = false
is_rooted (c ∷ s) = c == b'/'

abbrev pub written : Bool → Text → Text
written true s = b'/' ∷ s
written false s = if is_empty s then codes "." else s

abbrev pub with_slash : Text → Text → Text
with_slash a b = if is_empty a then b else if is_empty b then a else a ++ (b'/' ∷ b)

unfoldable pub path_join : Text → Text → Text
path_join a b =
    let s = with_slash a b in
    if is_empty s
    then []
    else written (is_rooted s) (joined (clean_segments (is_rooted s) (split b'/' s) []))

-- The check of the namespace that all three share: the role of a member of an organization, or else
-- the name of the user.
unfoldable pub may_manage : Env → Role → Text → Text → Namespace → User → World → Outcome (Unit {0})
may_manage env role username ns n u w =
    if text_eq n.namespace_type org_namespace
    then (check_current_user_permission env username ns role w >>= λ can. guard can no_permission)
    else guard (text_eq n.path u.username) no_permission

abbrev pub unless_admin : User → Outcome (Unit {0}) → Outcome (Unit {0})
unless_admin u check = if can_admin_site u then ok tt else check

pub record CreateRepoReq : Type 0 where
  pub place : Place
  pub username : Text
  pub nickname : Text
  pub description : Text
  pub private : Bool
  pub license : Text
  pub default_branch : Text
  pub readme : Text

abbrev pub main_branch : Text
main_branch = codes "main"

abbrev pub creation : CreateRepoReq → Creation
creation q = record {
  username = q.username;
  nickname = q.place.name;
  license = q.license;
  default_branch = if is_empty q.default_branch then main_branch else q.default_branch;
  readme = q.readme;
  private = q.private;
}

-- The row, but for its key.
abbrev pub new_repository : CreateRepoReq → User → GitRepo → Repository
new_repository q u g = record {
  id = 0;
  user_id = u.id;
  path = path_join q.place.namespace q.place.name;
  git_path = g.git_path;
  name = q.place.name;
  nickname = q.nickname;
  description = q.description;
  private = q.private;
  license = q.license;
  default_branch = g.default_branch;
  http_clone_url = g.http_clone_url;
  ssh_clone_url = g.ssh_clone_url;
  repository_type = q.place.repo_type;
}

unfoldable pub create_checks : Env → CreateRepoReq → World → Outcome User
create_checks env q w = do
  n ← or_missing (namespace_by_path env q.place.namespace w)
  u ← or_missing (find_by_username env q.username w)
  guard (not (is_empty u.email)) no_email
  unless_admin u (may_manage env write q.username q.place.namespace n u w)
  ok u

abbrev pub store_new : Env → CreateRepoReq → User → World → Done (GitRepo × Repository)
store_new env q u w =
    let g = env.created q.place in
    and_then (insert_row env q.place (new_repository q u g) w) (λ r v. (v, ok (g, r)))

unfoldable pub create_repository : Env → CreateRepoReq → World → Done (GitRepo × Repository)
create_repository env q w =
    checked (create_checks env q w)
      (λ u v. and_then (tell_git env (create_repo q.place (creation q)) v) (λ _. store_new env q u))
      w

-- A nil pointer leaves a field as it is.
pub record UpdateRepoReq : Type 0 where
  pub place : Place
  pub username : Text
  pub private : Option Bool
  pub nickname : Option Text
  pub description : Option Text

abbrev pub given {ℓ} : {A : Type ℓ} → Option A → A → A
given none old = old
given (some a) old = a

abbrev pub changed : UpdateRepoReq → Repository → Repository
changed q r = record r {
  private = given q.private r.private;
  nickname = given q.nickname r.nickname;
  description = given q.description r.description;
}

abbrev pub settings : Repository → Settings
settings r = record {
  nickname = r.nickname;
  description = r.description;
  default_branch = r.default_branch;
  private = r.private;
}

unfoldable pub update_checks : Env → UpdateRepoReq → World → Outcome Repository
update_checks env q w = do
  r ← or_missing (find_by_path env q.place w)
  n ← or_missing (namespace_by_path env q.place.namespace w)
  u ← or_missing (find_by_username env q.username w)
  unless_admin u (may_manage env write q.username q.place.namespace n u w)
  ok r

unfoldable pub update_repository : Env → UpdateRepoReq → World → Done Repository
update_repository env q w =
    checked (update_checks env q w)
      (λ r v.
        let r' = changed q r in
        and_then (tell_git env (update_repo q.place (settings r')) v) (λ _. update_row env r'))
      w

unfoldable pub delete_checks : Env → Place → Text → World → Outcome Repository
delete_checks env p username w = do
  r ← or_missing (find_by_path env p w)
  n ← or_missing (namespace_by_path env p.namespace w)
  u ← or_missing (find_by_username env username w)
  may_manage env admin username p.namespace n u w
  ok r

-- The relations of the repository, the repository at the git server, and its row.
abbrev pub delete_all : Env → Place → Repository → World → Done Repository
delete_all env p r w = and_then (clean_relations_by_repo_id env r.id w) (λ _ v.
    and_then (tell_git env (delete_repo p) v)
      (λ _ x. and_then (delete_row env r x) (λ _ y. (y, ok r))))

unfoldable pub delete_repository : Env → Place → Text → World → Done Repository
delete_repository env p username w = checked (delete_checks env p username w) (delete_all env p) w
