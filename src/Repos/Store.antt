-- ===== src/Repos/Store.antt =====
-- The tables that the repository component reads and writes (builder/store/database/repository.go,
-- namespace.go, user.go), the git server as the list of the calls it carried out, and which calls
-- fail. Columns that no operation here reads or writes are left out.
use csghub_server.Prelude.{
  refl, inl, inr, ◌⊎◌, ◌≡◌, pos, int_eq, ℤ, Text, text_eq, codes, contains, split, to_lower, ℕ, suc,
  Bool, true, false, List, [], ◌∷◌, ◌++◌, keep, if◌then◌else◌, ◌||◌, ◌==◌, not,
}
mod Outcomes
pub use Outcomes.*
use csghub_server.Org.Role.{Role}

pub record Repository : Type 0 where
  pub id : ℕ
  pub user_id : ℕ
  pub path : Text
  pub git_path : Text
  pub name : Text
  pub nickname : Text
  pub description : Text
  pub private : Bool
  pub license : Text
  pub default_branch : Text
  pub http_clone_url : Text
  pub ssh_clone_url : Text
  pub repository_type : Text

pub record Namespace : Type 0 where
  pub id : ℕ
  pub path : Text
  pub namespace_type : Text

pub record User : Type 0 where
  pub id : ℕ
  pub username : Text
  pub email : Text
  pub role_mask : Text

pub record SshKey : Type 0 where
  pub id : ℕ
  pub user : User

-- `UserNamespace` and `OrgNamespace`
abbrev pub user_namespace : Text
user_namespace = codes "user"

abbrev pub org_namespace : Text
org_namespace = codes "organization"

-- `CanAdmin` of a user
unfoldable pub can_admin_site : User → Bool
can_admin_site u = contains u.role_mask (codes "admin") || contains u.role_mask (codes "super_user")

-- A repository at the git server: its type, namespace and name.
pub record Place : Type 0 where
  pub repo_type : Text
  pub namespace : Text
  pub name : Text

pub record Creation : Type 0 where
  pub username : Text
  pub nickname : Text
  pub license : Text
  pub default_branch : Text
  pub readme : Text
  pub private : Bool

pub record Settings : Type 0 where
  pub nickname : Text
  pub description : Text
  pub default_branch : Text
  pub private : Bool

-- What the git server was asked to do, and did.
pub data GitCall : Type 0 where
  create_repo : Place → Creation → GitCall
  update_repo : Place → Settings → GitCall
  delete_repo upload_pack : Place → GitCall
  info_refs : Place → Text → GitCall
  receive_pack : Place → ℕ → Text → GitCall
  create_file update_file : Place → Text → Text → GitCall
  delete_file : Place → Text → GitCall

-- What the tag component was asked to do, and did.
pub data TagCall : Type 0 where
  meta_tags : Place → Text → TagCall
  library_tags : Place → Text → Text → TagCall

pub record LfsMetaObject : Type 0 where
  pub oid : Text
  pub size : ℕ
  pub repository_id : ℕ

pub record LfsLock : Type 0 where
  pub id : ℕ
  pub repository_id : ℕ
  pub user_id : ℕ
  pub path : Text

-- `gitserver.CreateRepoResp`
pub record GitRepo : Type 0 where
  pub git_path : Text
  pub default_branch : Text
  pub http_clone_url : Text
  pub ssh_clone_url : Text

-- The repositories with the key of the next one, the repository ids of the rows of
-- repositories_runtime_frameworks and of user_likes, the other tables, the objects in the object
-- store by their keys, the repositories whose time of change was set, the
-- relations between repositories, from which one to which other, and the locks with the next key.
pub record World : Type 0 where
  pub repos : List Repository
  pub next_id : ℕ
  pub frameworks : List ℕ
  pub likes : List ℕ
  pub namespaces : List Namespace
  pub users : List User
  pub ssh_keys : List SshKey
  pub git : List GitCall
  pub tags : List TagCall
  pub objects : List (Text × Text)
  pub lfs_metas : List LfsMetaObject
  pub touched : List Place
  pub relations : List (ℕ × ℕ)
  pub locks : List LfsLock
  pub next_lock : ℕ

pub data Call : Type 0 where
  find_repo : Place → Call
  find_namespace : Text → Call
  find_user : Text → Call
  find_ssh_key : ℤ → Call
  insert_repo : Place → Call
  write_repo remove_repo clean_relations : ℕ → Call
  git : GitCall → Call
  tag : TagCall → Call
  put_object : Text → Call
  write_lfs_meta : Text → ℕ → Call
  touch : Place → Call
  relations_from relations_to : ℕ → Call
  find_by_ids : List ℕ → Call
  find_repo_by_id : ℕ → Call
  find_lock insert_lock : ℕ → Text → Call
  find_lock_by_id remove_lock list_locks : ℕ → Call
  find_lfs_meta insert_lfs_meta remove_lfs_meta : Text → ℕ → Call
  stat_object remove_object : Text → Call

-- Which calls fail, what the user service says of a member of an organization, and what the git
-- server says of a repository that it creates.
pub record Env : Type 0 where
  pub fails : Call → Bool
  pub member_role : Text → Text → Outcome Role
  pub created : Place → GitRepo
  pub git_token : Text → Outcome Text

-- An operation returns the world that it leaves, also with an error.
abbrev pub Done {ℓ} : Type ℓ → Type ℓ
Done A = World × Outcome A

-- The checks read the world; what comes behind them runs only if they all pass.
abbrev pub checked {ℓ κ} :
    {A : Type ℓ} {B : Type κ} → Outcome A → (A → World → Done B) → World → Done B
checked (ok a) f w = f a w
checked (err e) f w = (w, err e)

-- The operation ended with an error and changed nothing.
abbrev pub Refused {ℓ} : {A : Type ℓ} → World → Done A → Type ℓ
Refused w d = (e : Error) × (d ≡ (w, err e))

-- Checks that end with an error leave the world alone.
pub checked_or {ℓ κ μ} :
    {A : Type ℓ} {B : Type κ} {P : Type μ} (x : Outcome A) (f : A → World → Done B) (w : World)
    → ((a : A) → x ≡ ok a → P)
    → Refused w (checked x f w) ⊎ P
checked_or (ok a) f w h = inr (h a refl)
checked_or (err e) f w h = inl (e, refl)

-- The next statement, unless there was an error.
abbrev pub and_then {ℓ κ} : {A : Type ℓ} {B : Type κ} → Done A → (A → World → Done B) → Done B
and_then (w, ok a) f = f a w
and_then (w, err e) f = (w, err e)

-- `fmt.Sprintf("%ss_%s/%s", repoType, namespace, name)`
unfoldable pub git_path_of : Place → Text
git_path_of p = p.repo_type ++ codes "s_" ++ p.namespace ++ (b'/' ∷ p.name)

-- `LOWER(git_path) = LOWER(?)`
abbrev pub is_at : Text → Repository → Bool
is_at p r = text_eq (to_lower r.git_path) (to_lower p)

abbrev pub repo_at : Text → List Repository → Outcome Repository
repo_at p [] = err not_found
repo_at p (r ∷ rs) = if is_at p r then ok r else repo_at p rs

abbrev pub namespace_at : Text → List Namespace → Outcome Namespace
namespace_at p [] = err not_found
namespace_at p (n ∷ ns) = if text_eq n.path p then ok n else namespace_at p ns

abbrev pub user_named : Text → List User → Outcome User
user_named n [] = err not_found
user_named n (u ∷ us) = if text_eq u.username n then ok u else user_named n us

-- `FindByPath` and `Find` of the repositories, which search by the same condition.
unfoldable pub find_by_path : Env → Place → World → Outcome Repository
find_by_path env p w =
    if env.fails (find_repo p) then err store_failed else repo_at (git_path_of p) w.repos

unfoldable pub namespace_by_path : Env → Text → World → Outcome Namespace
namespace_by_path env p w =
    if env.fails (find_namespace p) then err store_failed else namespace_at p w.namespaces

unfoldable pub find_by_username : Env → Text → World → Outcome User
find_by_username env n w =
    if env.fails (find_user n) then err store_failed else user_named n w.users

abbrev pub ssh_key_at : ℤ → List SshKey → Outcome SshKey
ssh_key_at i [] = err not_found
ssh_key_at i (k ∷ ks) = if int_eq (pos k.id) i then ok k else ssh_key_at i ks

unfoldable pub ssh_key_by_id : Env → ℤ → World → Outcome SshKey
ssh_key_by_id env i w =
    if env.fails (find_ssh_key i) then err store_failed else ssh_key_at i w.ssh_keys

-- The key is given by the database.
unfoldable pub insert_row : Env → Place → Repository → World → Done Repository
insert_row env p r w =
    let r' = record r { id = w.next_id } in
    if env.fails (insert_repo p)
    then (w, err store_failed)
    else (record w { repos = w.repos ++ r' ∷ []; next_id = suc w.next_id }, ok r')

abbrev pub put_row : Repository → List Repository → List Repository
put_row r [] = []
put_row r (s ∷ ss) = (if s.id == r.id then r else s) ∷ put_row r ss

unfoldable pub update_row : Env → Repository → World → Done Repository
update_row env r w =
    if env.fails (write_repo r.id)
    then (w, err store_failed)
    else (record w { repos = put_row r w.repos }, ok r)

unfoldable pub delete_row : Env → Repository → World → Done (Unit {0})
delete_row env r w =
    if env.fails (remove_repo r.id)
    then (w, err store_failed)
    else (record w { repos = keep (λ s. not (s.id == r.id)) w.repos }, ok tt)

-- `CleanRelationsByRepoID`, one transaction
unfoldable pub clean_relations_by_repo_id : Env → ℕ → World → Done (Unit {0})
clean_relations_by_repo_id env i w =
    if env.fails (clean_relations i) then (w, err store_failed) else (
      record w {
        frameworks = keep (λ j. not (j == i)) w.frameworks;
        likes = keep (λ j. not (j == i)) w.likes;
      },
      ok tt,
    )

-- A call of the git server.
unfoldable pub tell_git : Env → GitCall → World → Done (Unit {0})
tell_git env c w =
    if env.fails (git c) then (w, err git_failed) else (record w { git = w.git ++ c ∷ [] }, ok tt)

-- `NamespaceAndName`, which panics on a path with no slash.
abbrev pub first_two : List Text → Outcome (Text × Text)
first_two [] = err panicked
first_two (a ∷ []) = err panicked
first_two (a ∷ b ∷ rest) = ok (a, b)

unfoldable pub namespace_and_name : Repository → Outcome (Text × Text)
namespace_and_name r = first_two (split b'/' r.path)

-- A call of the tag component, which works on tables of its own.
unfoldable pub tell_tags : Env → TagCall → World → Done (Unit {0})
tell_tags env c w =
    if env.fails (tag c) then (w, err tag_failed) else (record w { tags = w.tags ++ c ∷ [] }, ok tt)

-- `SetUpdateTimeByPath`
unfoldable pub set_update_time : Env → Place → World → World
set_update_time env p w =
    if env.fails (touch p) then w else record w { touched = w.touched ++ p ∷ [] }
