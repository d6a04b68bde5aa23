-- ===== src/Org/Examples.antt =====
-- An organization of two members, and the theorems at it.
use csghub_server.Prelude.{
  ◌∙◌, ap, sym, ◌⊎◌, ℕ, codes, refl, [], ◌∷◌, Text, ◌≡◌, some, none, true, arith,
}
use csghub_server.Org.Store.{
  Organization, tell_git, add, find, find_by_username, find_by_path, member_in, not_found, Member,
  User, err, ok, World,
}
use csghub_server.Org.Role.{to_git_role}
use csghub_server.Org.Member.{
  add_one, add_each, allow_add_member, change_member_role, remove_member_of, operated, Done,
  add_members,
}
use csghub_server.Org.Access.{members-authorized, IsAdmin, Refused}
use csghub_server.Org.Adding.{add_members_lem, AllJoined}
use csghub_server.Org.Change.{
  change_member_role-changes, change_member_role-own, change_member_role-wrong_old, healthy,
  changed,
}

abbrev user : ℕ → Text → User
user i n = record {
  id = i;
  uuid = [];
  username = n;
  nickname = [];
  avatar = [];
  last_login_at = [];
}

abbrev member : ℕ → Text → Member
member u r = record { organization_id = 1; user_id = u; role = r }

abbrev acme : World
acme = record {
  orgs = record { id = 1; path = codes "acme" } ∷ [];
  users = user 5 (codes "ann") ∷ user 6 (codes "bob") ∷ user 7 (codes "cid") ∷ [];
  members = member 5 (codes "admin") ∷ member 6 (codes "read") ∷ [];
  git = [];
}

ann : IsAdmin acme (codes "acme") (codes "ann")
ann = record {
  org = record { id = 1; path = codes "acme" };
  user = user 5 (codes "ann");
  member = member 5 (codes "admin");
  org_there = refl;
  user_there = refl;
  member_there = refl;
  is_admin = refl;
}

-- The operator `bob` is a reader.
bob_is_no_admin : ¬ IsAdmin acme (codes "acme") (codes "bob")
bob_is_no_admin a =
    let org1 : Organization = record { id = 1; path = codes "acme" } in
    let eo : org1 ≡ a.org = cc a.org_there in
    let eu : user 6 (codes "bob") ≡ a.user = cc a.user_there in
    let em = rw (sym eo, sym eu) at a.member_there in
    let er : member 6 (codes "read") ≡ a.member = cc em in
    let et : codes "read" ≡ codes "admin" = ap (λ m. m.role) er ∙ a.is_admin in ground (arith, et)

-- Adds `cid` and the member `bob` as writers.
added : Done
added =
    add_members (healthy true) (codes "acme") (codes "cid" ∷ codes "bob" ∷ []) (codes "ann")
      (codes "write") acme

added_users :
    added.0.members
    ≡ member 5 (codes "admin") ∷ member 6 (codes "read") ∷ member 7 (codes "write") ∷ []
unfolding added add_members operated find_by_path find_by_username find allow_add_member add_each
    add_one add tell_git to_git_role
added_users = refl

members-authorized_example :
    Refused acme (
      add_members
        (healthy true)
        (codes "acme")
        (codes "cid" ∷ [])
        (codes "bob")
        (codes "read")
        acme)
    × Refused acme (
        remove_member_of
          (healthy true)
          (codes "acme")
          (codes "ann")
          (codes "bob")
          (codes "read")
          acme)
    × Refused acme (
        change_member_role
          (healthy true)
          (codes "acme")
          (codes "ann")
          (codes "bob")
          (codes "read")
          (codes "write")
          acme)
members-authorized_example =
    members-authorized (healthy true) (codes "acme") (codes "bob") (codes "ann") (codes "read")
      (codes "write") (codes "cid" ∷ []) acme bob_is_no_admin

add_members_example :
    Refused acme (
      add_members
        (healthy true)
        (codes "acme")
        (codes "cid" ∷ codes "bob" ∷ [])
        (codes "ann")
        (codes "write")
        acme)
    ⊎ ((a : IsAdmin acme (codes "acme") (codes "ann")) × AllJoined a.org.id
          (codes "write")
          (codes "cid" ∷ codes "bob" ∷ [])
          acme
          (add_members
            (healthy true)
            (codes "acme")
            (codes "cid" ∷ codes "bob" ∷ [])
            (codes "ann")
            (codes "write")
            acme))
add_members_example =
    add_members_lem (healthy true) (codes "acme") (codes "ann") (codes "write")
      (codes "cid" ∷ codes "bob" ∷ []) acme

change_member_role-changes_test :
    ((changed true (codes "acme") (codes "bob") (codes "ann") (codes "read") (codes "write") acme).1
      ≡ ok tt)
    × (member_in 1 6
          (changed true
            (codes "acme")
            (codes "bob")
            (codes "ann")
            (codes "read")
            (codes "write")
            acme).0.members
        ≡ some (member 6 (codes "write")))
unfolding ann
change_member_role-changes_test =
    change_member_role-changes true (codes "acme") (codes "ann") (codes "bob") (codes "read")
      (codes "write") acme ann (user 6 (codes "bob")) (member 6 (codes "read")) refl refl
      ((λ h. absurd (cc)), ((λ h. refl), tt)) (λ h. omega (arith, h))

change_member_role-wrong_old_test :
    ((changed true
        (codes "acme")
        (codes "bob")
        (codes "ann")
        (codes "write")
        (codes "admin")
        acme).1
      ≡ ok tt)
    × ((changed true
          (codes "acme")
          (codes "bob")
          (codes "ann")
          (codes "write")
          (codes "admin")
          acme).0.members
        ≡ acme.members)
unfolding ann
change_member_role-wrong_old_test =
    change_member_role-wrong_old true (codes "acme") (codes "ann") (codes "bob") (codes "write")
      (codes "admin") (codes "read") acme ann (user 6 (codes "bob")) (member 6 (codes "read")) refl
      refl ((λ h. absurd (cc)), ((λ h. refl), tt)) (λ h. ground arith)

change_member_role-own_test :
    ((changed true (codes "acme") (codes "ann") (codes "ann") (codes "admin") (codes "read") acme).1
      ≡ err not_found)
    × (member_in 1 5
          (changed true
            (codes "acme")
            (codes "ann")
            (codes "ann")
            (codes "admin")
            (codes "read")
            acme).0.members
        ≡ none)
unfolding ann
change_member_role-own_test =
    change_member_role-own true (codes "acme") (codes "ann") (codes "read") acme ann
      ((λ h. refl), ((λ h. absurd (cc)), tt))
