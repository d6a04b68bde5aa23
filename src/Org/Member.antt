-- ===== src/Org/Member.antt =====
-- user/component/member.go. An operation returns the world that it leaves, also with an error.
use csghub_server.Org.Store.{
  remove_member, add_member, delete, not_allowed, not_found, organization_members, Organization,
  add_roles, err, find, ok, Env, Member, Outcome, User, World, add, find_by_path, find_by_username,
  tell_git, ◌>>=◌,
}
use csghub_server.Org.Role.{to_git_role, Role, role_text, admin, read, write, unknown}
use csghub_server.Prelude.{
  text_eq, Text, ℕ, Bool, true, false, Option, none, some, List, [], ◌∷◌, map, if◌then◌else◌, ◌&&◌,
  ltb, ◌==◌,
}

abbrev pub Done : Type 0
Done = World × Outcome (Unit {0})

-- The next statement, unless there was an error.
abbrev pub and_then : Done → (World → Done) → Done
and_then (w, ok a) f = f w
and_then (w, err e) f = (w, err e)

-- `allowAddMember`
unfoldable pub allow_add_member : Member → Bool
allow_add_member m = text_eq m.role (role_text admin)

-- The membership of an operator: no rows is an error here.
abbrev pub the_member : Outcome (Option Member) → Outcome Member
the_member (ok none) = err not_found
the_member (ok (some m)) = ok m
the_member (err e) = err e

abbrev pub if_allowed : Bool → Outcome (Unit {0})
if_allowed true = ok tt
if_allowed false = err not_allowed

-- One round of the loop of `AddMembers`: a member is skipped.
abbrev pub add_absent :
    Env → Organization → Text → Text → User → Text → Option Member → World → Done
add_absent env o org_name user_name u role (some m) w = (w, ok tt)
add_absent env o org_name user_name u role none w =
    and_then (add env o.id u.id role w)
      (tell_git env (add_member org_name user_name (to_git_role role)))

unfoldable pub add_one : Env → Organization → Text → Text → Text → World → Done
add_one env o org_name role user_name w =
    (find_by_username env user_name w >>= λ u.
    (find env o.id u.id w >>= λ m. add_absent env o org_name user_name u role m w) w)
      w

unfoldable pub add_each : Env → Organization → Text → Text → List Text → World → Done
add_each env o org_name role [] w = (w, ok tt)
add_each env o org_name role (u ∷ us) w =
    and_then (add_one env o org_name role u w) (add_each env o org_name role us)

-- The operator's organization, where the operator may change members.
unfoldable pub operated : Env → Text → Text → (Organization → World → Done) → World → Done
operated env org_name operator_name body w =
    (find_by_path env org_name w >>= λ o.
    (find_by_username env operator_name w >>= λ op.
    (the_member (find env o.id op.id w) >>= λ m.
    (if_allowed (allow_add_member m) >>= λ _. body o w) w)
      w)
      w)
      w

-- `AddMembers`
unfoldable pub add_members : Env → Text → List Text → Text → Text → World → Done
add_members env org_name users operator_name role =
    operated env org_name operator_name (λ o. add_each env o org_name role users)

-- `AddMember`
unfoldable pub add_one_member : Env → Text → Text → Text → Text → World → Done
add_one_member env org_name user_name operator_name role =
    add_members env org_name (user_name ∷ []) operator_name role

abbrev pub remove_present :
    Env → Organization → Text → Text → User → Text → Option Member → World → Done
remove_present env o org_name user_name u role none w = (w, ok tt)
remove_present env o org_name user_name u role (some m) w =
    and_then (delete env o.id u.id role w)
      (tell_git env (remove_member org_name user_name (to_git_role role)))

abbrev pub remove_one : Env → Text → Text → Text → Organization → World → Done
remove_one env org_name user_name role o w =
    (find_by_username env user_name w >>= λ u.
    (find env o.id u.id w >>= λ m. remove_present env o org_name user_name u role m w) w)
      w

-- `Delete`
unfoldable pub remove_member_of : Env → Text → Text → Text → Text → World → Done
remove_member_of env org_name user_name operator_name role =
    operated env org_name operator_name (remove_one env org_name user_name role)

-- `ChangeMemberRole`
unfoldable pub change_member_role : Env → Text → Text → Text → Text → Text → World → Done
change_member_role env org_name user_name operator_name old_role new_role w =
    and_then (remove_member_of env org_name user_name operator_name old_role w)
      (add_one_member env org_name user_name operator_name new_role)

-- `SetAdmin` and `InitRoles`
unfoldable pub set_admin : Env → ℕ → Text → User → World → Done
set_admin env org_id org_name u w =
    and_then (add env org_id u.id (role_text admin) w)
      (tell_git env (add_member org_name u.username admin))

unfoldable pub init_roles : Env → Text → World → Done
init_roles env org_name = tell_git env (add_roles org_name (admin ∷ read ∷ write ∷ []))

-- `GetMemberRole`
abbrev pub git_role : Option Member → Role
git_role none = unknown
git_role (some m) = to_git_role m.role

infixl 5 ◌>>?◌
abbrev ◌>>?◌ {ℓ κ} : {A : Type ℓ} {B : Type κ} → Outcome A → (A → Outcome B) → Outcome B
ok a >>? f = f a
err e >>? f = err e

unfoldable pub get_member_role : Env → Text → Text → World → Outcome Role
get_member_role env org_name user_name w = find_by_path env org_name w >>? λ o.
    find_by_username env user_name w >>? λ u. find env o.id u.id w >>? λ m. ok (git_role m)

-- What `OrgMembers` shows of a member.
pub record Listed : Type 0 where
  pub uuid : Text
  pub username : Text
  pub nickname : Text
  pub avatar : Text
  pub role : Text
  pub last_login_at : Text

abbrev user_by_id : ℕ → List User → Option User
user_by_id i [] = none
user_by_id i (u ∷ us) = if u.id == i then some u else user_by_id i us

-- The relation of a row whose user is gone is the zero user.
abbrev shown : Bool → Member → Option User → Listed
shown more m none = record {
  uuid = [];
  username = [];
  nickname = [];
  avatar = [];
  role = (if more then m.role else []);
  last_login_at = [];
}
shown more m (some u) = record {
  uuid = u.uuid;
  username = u.username;
  nickname = u.nickname;
  avatar = u.avatar;
  role = (if more then m.role else []);
  last_login_at = (if more then u.last_login_at else []);
}

abbrev has_member : Outcome (Option Member) → Bool
has_member (ok none) = false
has_member (ok (some m)) = true
has_member (err e) = false

-- Whether the current user belongs to the organization; an error counts as no.
abbrev pub is_insider : Env → ℕ → Outcome User → World → Bool
is_insider env o (err e) w = false
is_insider env o (ok u) w = ltb 0 u.id && has_member (find env o u.id w)

unfoldable pub org_members : Env → Text → Text → ℕ → ℕ → World → Outcome (List Listed × ℕ)
org_members env org_name current_user page_size page w = find_by_path env org_name w >>? λ o.
    let more = is_insider env o.id (find_by_username env current_user w) w in
    organization_members env o.id page_size page w >>? λ r.
    ok (map (λ m. shown more m (user_by_id m.user_id w.users)) r.0, r.1)
