-- ===== src/Org/Access.antt =====
-- Who may change the members of an organization, and what adding members leaves alone.
use csghub_server.Prelude.{
  text_eq_iff, text_eq, codes, Text, ◌≡◌, ◌⊎◌, inl, inr, Option, none, some, List, Bool-cases,
}
use csghub_server.Org.Store.{
  find-ok, find_by_username-ok, find_by_path-ok, not_allowed, Outcome-cases, Outcome, member_in,
  user_by_name, find, ok, find_by_username, org_by_path, Member, find_by_path, User, err, Error,
  Organization, Env, World,
}
use csghub_server.Org.Member.{
  add_each, remove_one, change_member_role, remove_member_of, add_members, the_member,
  allow_add_member, operated, Done,
}

-- The operator `op` is a member of the organization `g` with the role of an admin.
pub record IsAdmin (w : World) (g op : Text) : Type 0 where
  pub org : Organization
  pub user : User
  pub member : Member
  pub org_there : org_by_path g w.orgs ≡ ok org
  pub user_there : user_by_name op w.users ≡ ok user
  pub member_there : member_in org.id user.id w.members ≡ some member
  pub is_admin : member.role ≡ codes "admin"

-- The operation ended with an error and changed nothing.
abbrev pub Refused : World → Done → Type 0
Refused w d = (e : Error) × (d ≡ (w, err e))

the_member-ok : (x : Outcome (Option Member)) (m : Member) → the_member x ≡ ok m → x ≡ ok (some m)
the_member-ok (ok none) m h = absurd (cc)
the_member-ok (ok (some n)) m h = cc
the_member-ok (err e) m h = absurd (cc)

module _ (env : Env) (g op : Text) (body : Organization → World → Done) (w : World) where
  abbrev pub Cases : Type 0
  Cases =
      Refused w (operated env g op body w)
      ⊎ ((a : IsAdmin w g op) × (operated env g op body w ≡ body a.org w))

  pub operated_cases : Cases
  unfolding operated allow_add_member
  operated_cases = elim (Outcome-cases (find_by_path env g w)) [
    | inr (e, eo) ↦ inl (e, rw eo)
    | inl (o, eo) ↦ elim (Outcome-cases (find_by_username env op w)) [
      | inr (e, eu) ↦ inl (e, rw (eo, eu))
      | inl (u, eu) ↦ elim (Outcome-cases (the_member (find env o.id u.id w))) [
        | inr (e, em) ↦ inl (e, rw (eo, eu, em))
        | inl (m, em) ↦ elim (Bool-cases (text_eq m.role (codes "admin"))) [
          | inr low ↦ inl (not_allowed, rw (eo, eu, em, low))
          | inl high ↦ inr (
            record {
              org = o;
              user = u;
              member = m;
              org_there = find_by_path-ok env g w o eo;
              user_there = find_by_username-ok env op w u eu;
              member_there = find-ok env o.id u.id w (some m) (the_member-ok _ m em);
              is_admin = (text_eq_iff m.role (codes "admin")).0 high;
            },
            rw (eo, eu, em, high),
          )
        ]
      ]
    ]
  ]

  pub operated-Refused : ¬ IsAdmin w g op → Refused w (operated env g op body w)
  operated-Refused no_admin = elim operated_cases [ inl r ↦ r | inr (a, e) ↦ absurd (no_admin a) ]

-- An operator who is no admin of the organization changes nothing: adding members, removing a
-- member and changing a role all end with an error and leave tables and git server as they were,
-- whichever calls fail.
pub members-authorized :
    (env : Env) (g op user role new_role : Text) (users : List Text) (w : World)
    → ¬ IsAdmin w g op
    → Refused w (add_members env g users op role w)
      × Refused w (remove_member_of env g user op role w)
      × Refused w (change_member_role env g user op role new_role w)
unfolding add_members remove_member_of change_member_role
members-authorized env g op user role new_role users w no_admin =
    let removed = operated-Refused env g op (remove_one env g user role) w no_admin in
    (
      operated-Refused env g op (λ o. add_each env o g role users) w no_admin,
      removed,
      (removed.0, rw (removed.1)),
    )
