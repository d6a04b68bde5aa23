-- ===== src/Repos/Access.antt =====
-- component/repo.go: the permissions of a user on a repository.
use csghub_server.Org.Role
pub mod Rights
use csghub_server.Repos.Store.{
  Repository, Namespace, World, Env, Place, Outcome, ok, err, ◌>>=◌, user_not_found, unknown_role,
  find_by_path, namespace_by_path, namespace_and_name, user_namespace,
}
use csghub_server.Org.Role.{Role, unknown, read, write, admin, can_read, can_write, can_admin}
use csghub_server.Prelude.{
  Text, text_eq, is_empty, Bool, true, false, not, ◌||◌, if◌then◌else◌, List, [], ◌∷◌,
}

-- The switch on the role that an operation asks for.
abbrev pub has_right : Role → Role → Outcome Bool
has_right unknown r = err unknown_role
has_right read r = ok (can_read r)
has_right write r = ok (can_write r)
has_right admin r = ok (can_admin r)

unfoldable pub check_current_user_permission : Env → Text → Text → Role → World → Outcome Bool
check_current_user_permission env user ns role w = do
  n ← namespace_by_path env ns w
  (if text_eq n.namespace_type user_namespace
      then ok (text_eq user ns)
      else (env.member_role ns user >>= has_right role))

-- A private repository is open to no anonymous user.
abbrev pub allow_private : Env → Text → Text → Role → World → Outcome Bool
allow_private env user ns role w =
    if is_empty user then err user_not_found else check_current_user_permission env user ns role w

unfoldable pub allow_read_access_repo : Env → Repository → Text → World → Outcome Bool
allow_read_access_repo env repo user w =
    if not repo.private
    then ok true
    else if is_empty user
    then err user_not_found
    else (namespace_and_name repo >>= λ p. check_current_user_permission env user p.0 read w)

unfoldable pub allow_read_access : Env → Place → Text → World → Outcome Bool
allow_read_access env p user w = do
  repo ← find_by_path env p w
  allow_read_access_repo env repo user w

unfoldable pub allow_write_access : Env → Place → Text → World → Outcome Bool
allow_write_access env p user w = do
  repo ← find_by_path env p w
  if not repo.private then ok true else allow_private env user p.namespace write w

unfoldable pub allow_admin_access : Env → Place → Text → World → Outcome Bool
allow_admin_access env p user w = do
  repo ← find_by_path env p w
  if not repo.private then ok true else allow_private env user p.namespace admin w

pub record UserRepoPermission : Type 0 where
  pub can_read : Bool
  pub can_write : Bool
  pub can_admin : Bool

abbrev pub reader : Repository → UserRepoPermission
reader repo = record { can_read = not repo.private; can_write = false; can_admin = false }

abbrev pub by_role : Repository → Role → UserRepoPermission
by_role repo r = record {
  can_read = Role.can_read r || not repo.private;
  can_write = Role.can_write r;
  can_admin = Role.can_admin r;
}

abbrev pub in_namespace : Env → Text → Repository → Text → Namespace → Outcome UserRepoPermission
in_namespace env user repo ns n =
    if text_eq n.namespace_type user_namespace
    then (if text_eq user ns
        then ok (record { can_read = true; can_write = true; can_admin = true })
        else ok (reader repo))
    else (env.member_role ns user >>= λ r. ok (by_role repo r))

unfoldable pub get_user_repo_permission :
    Env → Text → Repository → World → Outcome UserRepoPermission
get_user_repo_permission env user repo w =
    if is_empty user
    then ok (reader repo)
    else (namespace_and_name repo >>= λ p.
        namespace_by_path env p.0 w >>= λ n. in_namespace env user repo p.0 n)

-- One round of `visiableToUser`: whether the repository is shown.
abbrev pub is_visible : Env → Text → World → Repository → Outcome Bool
is_visible env user w repo =
    if repo.private
    then (if is_empty user
        then ok false
        else (namespace_and_name repo >>= λ p. check_current_user_permission env user p.0 read w))
    else ok true

unfoldable pub visible_to_user : Env → List Repository → Text → World → Outcome (List Repository)
visible_to_user env [] user w = ok []
visible_to_user env (r ∷ rs) user w = is_visible env user w r >>= λ shown.
    visible_to_user env rs user w >>= λ rest. ok (if shown then r ∷ rest else rest)
