-- ===== src/Org/Role.antt =====
-- builder/git/membership/role.go: the role of a member at the git server.
use csghub_server.Prelude.{codes, text_eq, Text, ◌≡◌, refl, Bool, true, false, [], if◌then◌else◌}

pub data Role : Type 0 where
  unknown read write admin : Role

-- The text of a role, as the database stores it.
abbrev pub role_text : Role → Text
role_text unknown = []
role_text read = codes "read"
role_text write = codes "write"
role_text admin = codes "admin"

abbrev pub can_read : Role → Bool
can_read unknown = false
can_read read = true
can_read write = true
can_read admin = true

abbrev pub can_write : Role → Bool
can_write unknown = false
can_write read = false
can_write write = true
can_write admin = true

abbrev pub can_admin : Role → Bool
can_admin unknown = false
can_admin read = false
can_admin write = false
can_admin admin = true

-- `toGitRole` of user/component/member.go
unfoldable pub to_git_role : Text → Role
to_git_role t =
    if text_eq t (codes "admin")
    then admin
    else if text_eq t (codes "write")
    then write
    else if text_eq t (codes "read")
    then read
    else unknown

-- Every right includes the lesser one, and a role is read back from its text.
pub to_git_role-role_text : (r : Role) → to_git_role (role_text r) ≡ r
unfolding to_git_role
to_git_role-role_text unknown = refl
to_git_role-role_text read = refl
to_git_role-role_text write = refl
to_git_role-role_text admin = refl
