-- ===== src/Org/Change.antt =====
-- What `ChangeMemberRole` does when every call goes through.
use csghub_server.Org.Rows.{
  member_in-append_none, member_in-found, without, AllRoles, without-same, without-none,
  without-other,
}
use csghub_server.Org.Store.{
  org_by_path, add, not_found, err, ok, user_by_name, User, Organization, tell_git, delete, find,
  find_by_path, find_by_username, remove_member, World, member_in, Member, Env,
}
use csghub_server.Org.Member.{
  add_members, add_one, add_each, add_one_member, change_member_role, remove_one, Done,
  allow_add_member, operated, remove_member_of,
}
use csghub_server.Prelude.{
  codes, text_eq_iff, Text, ℕ, ◌≡◌, refl, ◌≢◌, Bool, false, none, some, [], ◌∷◌, ◌++◌, arith,
  if◌then◌else◌, ◌∙◌,
}
use csghub_server.Org.Role.{to_git_role}
use csghub_server.Org.Access.{IsAdmin}

abbrev pub healthy : Bool → Env
healthy gitea = record { fails = λ c. false; is_gitea = gitea }

module _ (gitea : Bool) (g op name : Text) (w : World) (a : IsAdmin w g op) where
  operated-healthy :
      (body : Organization → World → Done) → operated (healthy gitea) g op body w ≡ body a.org w
  unfolding operated find_by_path find_by_username find allow_add_member
  operated-healthy body =
      rw
        (
          a.org_there,
          a.user_there,
          a.member_there,
          (text_eq_iff a.member.role (codes "admin")).1 a.is_admin,
        )
        refl

  after_remove : ℕ → Text → World
  after_remove u old = record w {
    members = without a.org.id u old w.members;
    git = if gitea then w.git ++ remove_member g name (to_git_role old) ∷ [] else w.git;
  }

  removes :
      (u : User) (m : Member) (old : Text)
      → user_by_name name w.users ≡ ok u
      → member_in a.org.id u.id w.members ≡ some m
      → remove_member_of (healthy gitea) g name op old w ≡ (after_remove u.id old, ok tt)
  unfolding remove_member_of find_by_username find delete tell_git after_remove
  removes u m old eu em =
      operated-healthy (remove_one (healthy gitea) g name old) ∙ rw (eu, em) (ground arith)

  -- The tables after the removal, where the operator is still an admin.
  still_admin :
      (u : User) (old : Text)
      → member_in a.org.id a.user.id (without a.org.id u.id old w.members) ≡ some a.member
      → IsAdmin (after_remove u.id old) g op
  unfolding after_remove
  still_admin u old there' = record {
    org = a.org;
    user = a.user;
    member = a.member;
    org_there = a.org_there;
    user_there = a.user_there;
    member_there = there';
    is_admin = a.is_admin;
  }

-- One user added to an organization, by an admin of it.
module _ (gitea : Bool) (g op name role : Text) (w : World) (a : IsAdmin w g op) where
  adds_as :
      add_one_member (healthy gitea) g name op role w
      ≡ add_each (healthy gitea) a.org g role (name ∷ []) w
  unfolding add_one_member add_members
  adds_as =
      operated-healthy gitea g op name w a (λ o. add_each (healthy gitea) o g role (name ∷ []))

  adds_nothing :
      (u : User) (m : Member)
      → user_by_name name w.users ≡ ok u
      → member_in a.org.id u.id w.members ≡ some m
      → add_one_member (healthy gitea) g name op role w ≡ (w, ok tt)
  unfolding add_each add_one find_by_username find
  adds_nothing u m eu em = adds_as ∙ rw (eu, em) refl

  adds_row :
      (u : User)
      → user_by_name name w.users ≡ ok u
      → member_in a.org.id u.id w.members ≡ none
      → ((add_one_member (healthy gitea) g name op role w).0.members
          ≡ w.members ++ record { organization_id = a.org.id; user_id = u.id; role = role } ∷ [])
        × ((add_one_member (healthy gitea) g name op role w).1 ≡ ok tt)
  unfolding add_each add_one find_by_username find add tell_git
  adds_row u eu em = rw (adds_as, eu, em) (ground arith)

changes_by_adding :
    (gitea : Bool) (g op name old new : Text) (w : World) (a : IsAdmin w g op) (u : User)
    (m : Member)
    → user_by_name name w.users ≡ ok u
    → member_in a.org.id u.id w.members ≡ some m
    → change_member_role (healthy gitea) g name op old new w
      ≡ add_one_member (healthy gitea) g name op new (after_remove gitea g op name w a u.id old)
unfolding change_member_role
changes_by_adding gitea g op name old new w a u m eu em =
    rw (removes gitea g op name w a u m old eu em)

members-after_remove :
    (gitea : Bool) (g op name old : Text) (w : World) (a : IsAdmin w g op) (u : ℕ)
    → ((after_remove gitea g op name w a u old).members ≡ without a.org.id u old w.members)
      × ((after_remove gitea g op name w a u old).users ≡ w.users)
      × ((after_remove gitea g op name w a u old).orgs ≡ w.orgs)
unfolding after_remove
members-after_remove gitea g op name old w a u = (refl, refl, refl)

-- The operator, whose row was removed, is refused.
gone_is_refused :
    (gitea : Bool) (g op name role : Text) (w : World) (o : Organization) (u : User)
    → org_by_path g w.orgs ≡ ok o
    → user_by_name op w.users ≡ ok u
    → member_in o.id u.id w.members ≡ none
    → add_one_member (healthy gitea) g name op role w ≡ (w, err not_found)
unfolding add_one_member add_members operated find_by_path find_by_username find
gone_is_refused gitea g op name role w o u eo eu em = rw (eo, eu, em) refl

-- The members after a change of role, and its result.
abbrev pub changed : Bool → Text → Text → Text → Text → Text → World → Done
changed gitea g name op old new w = change_member_role (healthy gitea) g name op old new w

-- If all calls go through, the operator is an admin and the user, another than the operator, is a
-- member with the old role and no other, then `ChangeMemberRole` succeeds, and the user is a
-- member with the new role.
pub change_member_role-changes :
    (gitea : Bool) (g op name old new : Text) (w : World) (a : IsAdmin w g op) (u : User)
    (m : Member)
    → user_by_name name w.users ≡ ok u
    → member_in a.org.id u.id w.members ≡ some m
    → AllRoles a.org.id u.id old w.members
    → a.user.id ≢ u.id
    → ((changed gitea g name op old new w).1 ≡ ok tt)
      × (member_in a.org.id u.id (changed gitea g name op old new w).0.members
          ≡ some (record { organization_id = a.org.id; user_id = u.id; role = new }))
unfolding still_admin
change_member_role-changes gitea g op name old new w a u m eu em roles ne =
    let w1 = after_remove gitea g op name w a u.id old in
    let t = members-after_remove gitea g op name old w a u.id in
    let admin1 =
      still_admin gitea g op name w a u old
        (without-other a.org.id u.id a.user.id old w.members ne ∙ a.member_there) in
    let gone = without-none a.org.id u.id old w.members roles in
    let r = adds_row gitea g op name new w1 admin1 u (rw t.1 eu) (rw t.0 gone) in
    rw (changes_by_adding gitea g op name old new w a u m eu em) (
      r.1,
      rw
          (
            r.0,
            t.0,
            member_in-append_none a.org.id u.id (without a.org.id u.id old w.members)
                (record { organization_id = a.org.id; user_id = u.id; role = new }) gone,
            member_in-found a.org.id u.id new,
          )
          refl,
    )

-- If all calls go through, but the user is a member with another role than the given old one, then
-- `ChangeMemberRole` reports success, and the table of members is as it was: the user does not
-- get the new role.
pub change_member_role-wrong_old :
    (gitea : Bool) (g op name old new r : Text) (w : World) (a : IsAdmin w g op) (u : User)
    (m : Member)
    → user_by_name name w.users ≡ ok u
    → member_in a.org.id u.id w.members ≡ some m
    → AllRoles a.org.id u.id r w.members
    → r ≢ old
    → ((changed gitea g name op old new w).1 ≡ ok tt)
      × ((changed gitea g name op old new w).0.members ≡ w.members)
unfolding still_admin
change_member_role-wrong_old gitea g op name old new r w a u m eu em roles ne =
    let w1 = after_remove gitea g op name w a u.id old in
    let t = members-after_remove gitea g op name old w a u.id in
    let same = without-same a.org.id u.id r old w.members roles ne in
    let admin1 = still_admin gitea g op name w a u old (rw same a.member_there) in
    let e =
      changes_by_adding gitea g op name old new w a u m eu em
      ∙ adds_nothing gitea g op name new w1 admin1 u m (rw t.1 eu) (rw (t.0, same) em) in
    rw e (refl, t.0 ∙ same)

-- If all calls go through and an admin changes his or her own role, then `ChangeMemberRole` ends
-- with an error, and the admin is no member of the organization any more.
pub change_member_role-own :
    (gitea : Bool) (g op new : Text) (w : World) (a : IsAdmin w g op)
    → AllRoles a.org.id a.user.id (codes "admin") w.members
    → ((changed gitea g op op (codes "admin") new w).1 ≡ err not_found)
      × (member_in a.org.id a.user.id (changed gitea g op op (codes "admin") new w).0.members
          ≡ none)
change_member_role-own gitea g op new w a roles =
    let w1 = after_remove gitea g op op w a a.user.id (codes "admin") in
    let t = members-after_remove gitea g op op (codes "admin") w a a.user.id in
    let gone = without-none a.org.id a.user.id (codes "admin") w.members roles in
    let e =
      changes_by_adding gitea g op op (codes "admin") new w a a.user a.member a.user_there
        a.member_there
      ∙ gone_is_refused gitea g op op new w1 a.org a.user (rw t.2 a.org_there) (rw t.1 a.user_there)
          (rw t.0 gone) in
    rw e (refl, rw t.0 gone)
