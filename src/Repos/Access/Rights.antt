-- ===== src/Repos/Access/Rights.antt =====
-- Who has a right on a repository, said without the checks of component/repo.go.
use csghub_server.Prelude.{
  not, ◌∷◌, [], Text, text_eq, text_eq_iff, ℕ, Bool, true, false, ◌≤◌, ◌≢◌, ◌↔◌, inl, inr,
  if◌then◌else◌, ◌≡◌, arith, Bool-cases, refl,
}
use csghub_server.Repos.Access.{
  in_namespace, find_by_path, namespace_and_name, Place, UserRepoPermission, Repository,
  allow_admin_access, allow_read_access_repo, allow_write_access, allow_private, allow_read_access,
  get_user_repo_permission, has_right, check_current_user_permission,
}
use csghub_server.Repos.Store.{
  find_by_path, namespace_and_name, Place, Repository, ◌>>=◌, bind-ok, Namespace, World, Env, ok,
  namespace_by_path, user_namespace,
}
use csghub_server.Org.Role.{Role, unknown, read, write, admin}

abbrev pub rank : Role → ℕ
rank unknown = 0
rank read = 1
rank write = 2
rank admin = 3

-- The user owns the namespace, or is a member of the organization with that role or a higher one.
pub data Holds (env : Env) (w : World) (user ns : Text) (role : Role) : Type 0 where
  owner :
      (n : Namespace)
      → namespace_by_path env ns w ≡ ok n
      → n.namespace_type ≡ user_namespace
      → user ≡ ns
      → Holds env w user ns role
  member :
      (n : Namespace) (r : Role)
      → namespace_by_path env ns w ≡ ok n
      → n.namespace_type ≢ user_namespace
      → env.member_role ns user ≡ ok r
      → rank role ≤ rank r
      → Holds env w user ns role

-- The test of a namespace's type, turned into a statement about it.
of_user : (t : Text) → text_eq t user_namespace ≡ false → t ≢ user_namespace
of_user t h eq = cc (h, (text_eq_iff t user_namespace).1 eq)

of_other : (t : Text) → t ≢ user_namespace → text_eq t user_namespace ≡ false
of_other t h = elim (Bool-cases (text_eq t user_namespace)) [
  | inl e ↦ absurd (h ((text_eq_iff t user_namespace).0 e))
  | inr e ↦ e
]

has_right_iff :
    (role r : Role) → role ≢ unknown → (has_right role r ≡ ok true) ↔ (rank role ≤ rank r)
has_right_iff unknown r known = absurd (known refl)
has_right_iff read r known = elim r [
  | unknown ↦ ground arith
  | read ↦ ground arith
  | write ↦ ground arith
  | admin ↦ ground arith
]
has_right_iff write r known = elim r [
  | unknown ↦ ground arith
  | read ↦ ground arith
  | write ↦ ground arith
  | admin ↦ ground arith
]
has_right_iff admin r known = elim r [
  | unknown ↦ ground arith
  | read ↦ ground arith
  | write ↦ ground arith
  | admin ↦ ground arith
]

module _ (env : Env) (user ns : Text) (role : Role) (w : World) where
  of_namespace :
      (n : Namespace) (b : Bool)
      → role ≢ unknown
      → namespace_by_path env ns w ≡ ok n
      → text_eq n.namespace_type user_namespace ≡ b
      → (if b then ok (text_eq user ns) else (env.member_role ns user >>= has_right role)) ≡ ok true
      → Holds env w user ns role
  of_namespace n true known there own h =
      owner n there ((text_eq_iff n.namespace_type user_namespace).0 own)
        ((text_eq_iff user ns).0 (cc h))
  of_namespace n false known there other h =
      let (r, is_member, right) = bind-ok (env.member_role ns user) (has_right role) true h in
      member n r there (of_user n.namespace_type other) is_member
        ((has_right_iff role r known).0 right)

  pub check-Holds :
      role ≢ unknown
      → check_current_user_permission env user ns role w ≡ ok true
      → Holds env w user ns role
  unfolding check_current_user_permission
  check-Holds known h =
      let (n, there, rest) = bind-ok (namespace_by_path env ns w) _ true h in
      of_namespace n _ known there refl rest

  pub Holds-check :
      role ≢ unknown
      → Holds env w user ns role
      → check_current_user_permission env user ns role w ≡ ok true
  unfolding check_current_user_permission
  Holds-check known (owner n there own eq) =
      rw (there, (text_eq_iff n.namespace_type user_namespace).1 own, (text_eq_iff user ns).1 eq)
        refl
  Holds-check known (member n r there other is_member high) =
      rw (there, of_other n.namespace_type other, is_member, (has_right_iff role r known).1 high)
        refl

  pub check_iff :
      role ≢ unknown
      → (check_current_user_permission env user ns role w ≡ ok true) ↔ Holds env w user ns role
  check_iff known = (check-Holds known, Holds-check known)

-- A named user who is granted something by `allow_private`.
allow_private_iff :
    (env : Env) (user ns : Text) (role : Role) (w : World)
    → role ≢ unknown
    → (allow_private env user ns role w ≡ ok true) ↔ ((user ≢ []) × Holds env w user ns role)
allow_private_iff env [] ns role w known = (λ h. absurd (cc h), λ p. absurd (p.0 refl))
allow_private_iff env (c ∷ user) ns role w known = (
  λ h. (λ e. cc e, check-Holds env (c ∷ user) ns role w known h),
  λ p. Holds-check env (c ∷ user) ns role w known p.1,
)

pub read_known : read ≢ unknown
read_known h = cc h

pub write_known : write ≢ unknown
write_known h = cc h

pub admin_known : admin ≢ unknown
admin_known h = cc h

-- For a private repository that is found, `AllowReadAccess`, `AllowWriteAccess` and
-- `AllowAdminAccess` grant access exactly to the named users who own the namespace or are members
-- of it with at least the role read, write or admin. The namespace is that of the repository's
-- path for reading, and that of the request otherwise.
pub allow_access_lem :
    (env : Env) (p : Place) (user ns name : Text) (w : World) (repo : Repository)
    → find_by_path env p w ≡ ok repo
    → repo.private ≡ true
    → namespace_and_name repo ≡ ok (ns, name)
    → ((allow_read_access env p user w ≡ ok true) ↔ ((user ≢ []) × Holds env w user ns read))
      × ((allow_write_access env p user w ≡ ok true)
          ↔ ((user ≢ []) × Holds env w user p.namespace write))
      × ((allow_admin_access env p user w ≡ ok true)
          ↔ ((user ≢ []) × Holds env w user p.namespace admin))
unfolding allow_read_access allow_write_access allow_admin_access allow_read_access_repo
allow_access_lem env p user ns name w repo found hidden named =
    rw (found, named, hidden)
      (
        allow_private_iff env user ns read w read_known,
        allow_private_iff env user p.namespace write w write_known,
        allow_private_iff env user p.namespace admin w admin_known,
      )

-- The permissions of a named user in a namespace that is there, for each outcome of the tests.
in_namespace_cases :
    (env : Env) (user ns : Text) (repo : Repository) (n : Namespace) (p : UserRepoPermission)
    → in_namespace env user repo ns n ≡ ok p
    → ((if not repo.private
          then ok true
          else if text_eq n.namespace_type user_namespace
          then ok (text_eq user ns)
          else (env.member_role ns user >>= has_right read))
        ≡ ok p.can_read)
      × ((if text_eq n.namespace_type user_namespace
            then ok (text_eq user ns)
            else (env.member_role ns user >>= has_right write))
          ≡ ok p.can_write)
      × ((if text_eq n.namespace_type user_namespace
            then ok (text_eq user ns)
            else (env.member_role ns user >>= has_right admin))
          ≡ ok p.can_admin)
in_namespace_cases env user ns repo n p h = ground arith

-- For a named user, the permissions that `getUserRepoPermission` reports are those that the checks
-- of the single rights come to: `AllowReadAccessRepo` for reading, and the check of the roles write
-- and admin in the repository's namespace for the others.
pub get_user_repo_permission_lem :
    (env : Env) (user ns name : Text) (repo : Repository) (w : World) (p : UserRepoPermission)
    → user ≢ []
    → namespace_and_name repo ≡ ok (ns, name)
    → get_user_repo_permission env user repo w ≡ ok p
    → (allow_read_access_repo env repo user w ≡ ok p.can_read)
      × (check_current_user_permission env user ns write w ≡ ok p.can_write)
      × (check_current_user_permission env user ns admin w ≡ ok p.can_admin)
unfolding get_user_repo_permission allow_read_access_repo check_current_user_permission
get_user_repo_permission_lem env [] ns name repo w p named path h = absurd (named refl)
get_user_repo_permission_lem env (c ∷ user) ns name repo w p named path h =
    let (n, there, rest) = bind-ok (namespace_by_path env ns w) _ p (rw path at h) in
    let t = in_namespace_cases env (c ∷ user) ns repo n p rest in rw (path, there) t
