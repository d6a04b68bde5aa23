-- ===== src/Org/Adding.antt =====
-- What adding members to an organization does to the table of members.
use csghub_server.Org.Rows.{
  Once, member_in-append_some, member_in-append_none, Once-append, member_in-found,
}
use csghub_server.Org.Store.{
  find-ok, find_by_username-ok, find, find_by_username, Outcome-cases, insert_member, add_member,
  store_failed, Organization, add, GitCall, ok, user_by_name, Env, Outcome, User, err, member_in,
  Error, Member, World, tell_git,
}
use csghub_server.Org.Access.{operated_cases, IsAdmin, Refused}
use csghub_server.Org.Member.{and_then, add_absent, add_each, add_one, add_members, Done}
use csghub_server.Org.Role.{to_git_role}
use csghub_server.Prelude.{
  Option, ◌⊎◌, All-append, append-nil, append_assoc, Text, ℕ, ◌≡◌, refl, ◌≢◌, inl, inr, none, some,
  List, [], ◌∷◌, ◌++◌, arith, All, ◌∙◌, sym, Bool-cases,
}

-- From `w` to `w'` rows of one organization and role were added, behind the old ones.
pub record Grown (o : ℕ) (role : Text) (w w' : World) : Type 0 where
  pub new : List Member
  pub rows : w'.members ≡ w.members ++ new
  pub are_new : All (λ m. (m.organization_id ≡ o) × (m.role ≡ role)) new
  pub same_users : w'.users ≡ w.users
  pub same_orgs : w'.orgs ≡ w.orgs
  pub once : Once w.members → Once w'.members

Grown-refl : (o : ℕ) (role : Text) (w : World) → Grown o role w w
Grown-refl o role w = record {
  new = [];
  rows = sym (append-nil w.members);
  are_new = tt;
  same_users = refl;
  same_orgs = refl;
  once = λ h. h;
}

Grown-trans :
    (o : ℕ) (role : Text) {u v w : World} → Grown o role u v → Grown o role v w → Grown o role u w
Grown-trans o role {u} {v} {w} a b = record {
  new = a.new ++ b.new;
  rows = rw (b.rows, a.rows, append_assoc);
  are_new =
      All-append (λ m. (m.organization_id ≡ o) × (m.role ≡ role)) a.new b.new a.are_new b.are_new;
  same_users = b.same_users ∙ a.same_users;
  same_orgs = b.same_orgs ∙ a.same_orgs;
  once = λ h. b.once (a.once h);
}

-- The call of the git server changes no table.
tell_git-tables :
    (env : Env) (c : GitCall) (w : World)
    → ((tell_git env c w).0.members ≡ w.members)
      × ((tell_git env c w).0.users ≡ w.users)
      × ((tell_git env c w).0.orgs ≡ w.orgs)
unfolding tell_git
tell_git-tables env c w = ground arith

-- The named user exists and is a member of the organization.
pub record Joined (o : ℕ) (w : World) (name : Text) : Type 0 where
  pub user : User
  pub member : Member
  pub user_there : user_by_name name w.users ≡ ok user
  pub member_there : member_in o user.id w.members ≡ some member

Joined-Grown :
    (o : ℕ) (role name : Text) {w w' : World}
    → Grown o role w w'
    → Joined o w name
    → Joined o w' name
Joined-Grown o role name {w} {w'} g j = record {
  user = j.user;
  member = j.member;
  user_there = rw g.same_users j.user_there;
  member_there =
      rw g.rows (member_in-append_some o j.user.id w.members g.new j.member j.member_there);
}

-- What one round does: rows are added at most, and if it succeeds the user is a member.
pub record Effect (o : ℕ) (role name : Text) (w : World) (d : Done) : Type 0 where
  pub grown : Grown o role w d.0
  pub joined : d.1 ≡ ok tt → Joined o d.0 name

err-ne-ok : {e : Error} → ◌≢◌ {A = Outcome (Unit {0})} (err e) (ok tt)
err-ne-ok h = cc

err-Effect : (o : ℕ) (role name : Text) (w : World) (e : Error) → Effect o role name w (w, err e)
err-Effect o role name w e = record {
  grown = Grown-refl o role w;
  joined = λ h. absurd (err-ne-ok h);
}

abbrev with_row : ℕ → ℕ → Text → World → World
with_row o u r w = record w {
  members = w.members ++ record { organization_id = o; user_id = u; role = r } ∷ [];
}

add_cases :
    (env : Env) (o u : ℕ) (r : Text) (w : World)
    → (add env o u r w ≡ (w, err store_failed)) ⊎ (add env o u r w ≡ (with_row o u r w, ok tt))
unfolding add
add_cases env o u r w = elim (Bool-cases (env.fails (insert_member o u))) [
  | inl e ↦ inl (rw e)
  | inr e ↦ inr (rw e)
]

with_row-Grown :
    (o u : ℕ) (r : Text) (w w' : World)
    → w'.members ≡ (with_row o u r w).members
    → w'.users ≡ w.users
    → w'.orgs ≡ w.orgs
    → member_in o u w.members ≡ none
    → Grown o r w w'
with_row-Grown o u r w w' em eu eo free = record {
  new = record { organization_id = o; user_id = u; role = r } ∷ [];
  rows = em;
  are_new = ((refl, refl), tt);
  same_users = eu;
  same_orgs = eo;
  once = λ h.
      rw em (Once-append w.members (record { organization_id = o; user_id = u; role = r }) h free);
}

module _ (env : Env) (o : Organization) (org_name name role : Text) where
  added-Effect :
      (u : User) (w : World)
      → user_by_name name w.users ≡ ok u
      → member_in o.id u.id w.members ≡ none
      → Effect o.id role name w (add_absent env o org_name name u role none w)
  added-Effect u w there' free = elim (add_cases env o.id u.id role w) [
    | inl e ↦ rw e (err-Effect o.id role name w store_failed)
    | inr e ↦
        let t =
          tell_git-tables env (add_member org_name name (to_git_role role))
            (with_row o.id u.id role w) in
        rw e (record {
          grown = with_row-Grown o.id u.id role w _ t.0 t.1 t.2 free;
          joined = λ h. record {
            user = u;
            member = record { organization_id = o.id; user_id = u.id; role = role };
            user_there = rw t.1 there';
            member_there =
                rw
                  (
                    t.0,
                    member_in-append_none o.id u.id w.members
                        (record { organization_id = o.id; user_id = u.id; role = role }) free,
                    member_in-found o.id u.id role,
                  )
                  refl;
          };
        })
  ]

  add_one-Effect : (w : World) → Effect o.id role name w (add_one env o org_name role name w)
  unfolding add_one
  add_one-Effect w = elim (Outcome-cases (find_by_username env name w)) [
    | inr (e, eu) ↦ rw eu (err-Effect o.id role name w e)
    | inl (u, eu) ↦ elim (Outcome-cases (find env o.id u.id w)) [
      | inr (e, em) ↦ rw (eu, em) (err-Effect o.id role name w e)
      | inl (m, em) ↦
          rw (eu, em)
            (by_member u m (find_by_username-ok env name w u eu) (find-ok env o.id u.id w m em))
    ]
  ]
    where
      by_member :
          (u : User) (m : Option Member)
          → user_by_name name w.users ≡ ok u
          → member_in o.id u.id w.members ≡ m
          → Effect o.id role name w (add_absent env o org_name name u role m w)
      by_member u none there' free = added-Effect u w there' free
      by_member u (some m) there' it = record {
        grown = Grown-refl o.id role w;
        joined = λ h. record { user = u; member = m; user_there = there'; member_there = it };
      }

-- The loop: rows are added at most, and if it ends without an error all are members.
pub record AllJoined (o : ℕ) (role : Text) (names : List Text) (w : World) (d : Done) : Type 0 where
  pub grown : Grown o role w d.0
  pub joined : d.1 ≡ ok tt → All (Joined o d.0) names

module _ (env : Env) (o : Organization) (org_name role : Text) where
  next_round :
      (name : Text) (names : List Text) (w : World) (d : Done)
      → Effect o.id role name w d
      → ((w' : World) → AllJoined o.id role names w' (add_each env o org_name role names w'))
      → AllJoined o.id role (name ∷ names) w (and_then d (add_each env o org_name role names))
  next_round name names w (w', ok tt) e rest =
      let r = rest w' in
      record {
        grown = Grown-trans o.id role e.grown r.grown;
        joined = λ h. (Joined-Grown o.id role name r.grown (e.joined refl), r.joined h);
      }
  next_round name names w (w', err x) e rest = record {
    grown = e.grown;
    joined = λ h. absurd (err-ne-ok h);
  }

  add_each-AllJoined :
      (names : List Text) (w : World)
      → AllJoined o.id role names w (add_each env o org_name role names w)
  unfolding add_each
  add_each-AllJoined [] w = record { grown = Grown-refl o.id role w; joined = λ h. tt }
  add_each-AllJoined (name ∷ names) w =
      next_round name names w (add_one env o org_name role name w)
        (add_one-Effect env o org_name name role w) (λ w'. add_each-AllJoined names w')

-- Adding members, whichever calls fail and whether it ends with an error or not: if anything has
-- changed, the operator is an admin of the organization, only rows of this organization with the
-- given role were added, behind the rows that were there, and no user is a member by two rows if
-- none was before. If it ends without an error, each of the named users is a member afterwards.
pub add_members_lem :
    (env : Env) (g op role : Text) (users : List Text) (w : World)
    → Refused w (add_members env g users op role w)
      ⊎ ((a : IsAdmin w g op) × AllJoined a.org.id role users w (add_members env g users op role w))
unfolding add_members
add_members_lem env g op role users w =
    elim (operated_cases env g op (λ o. add_each env o g role users) w) [
      | inl r ↦ inl r
      | inr (a, e) ↦ inr (a, rw e (add_each-AllJoined env a.org g role users w))
    ]
