-- ===== src/Repos/Manage/Guard.antt =====
-- Who creates, updates and deletes repositories.
use csghub_server.Prelude.{
  Text, text_eq, text_eq_iff, is_empty, Bool, true, false, not, ◌≢◌, ◌⊎◌, inl, inr, if◌then◌else◌,
  ◌≡◌, refl,
}
use csghub_server.Repos.Store.{
  checked_or, Refused, bind-ok, guard-ok, or_missing, or_missing-ok, Repository, Namespace, User,
  World, Env, Place, ok, ◌>>=◌, guard, find_by_path, namespace_by_path, find_by_username,
  can_admin_site, org_namespace, no_email, no_permission,
}
use csghub_server.Repos.Access.{check_current_user_permission}
use csghub_server.Repos.Access.Rights.{Holds, check-Holds, write_known, admin_known}
use csghub_server.Repos.Manage.{
  may_manage, CreateRepoReq, UpdateRepoReq, create_repository, update_repository, delete_repository,
  create_checks, update_checks, delete_checks, unless_admin,
}
use csghub_server.Org.Role.{Role, write, admin, unknown}

-- The user is in charge of the namespace: it is an organization in which the user holds the role,
-- or else it is named as the user is.
pub record InCharge (env : Env) (w : World) (username ns : Text) (role : Role) : Type 0 where
  pub namespace : Namespace
  pub user : User
  pub namespace_there : namespace_by_path env ns w ≡ ok namespace
  pub user_there : find_by_username env username w ≡ ok user
  pub in_charge :
      ((namespace.namespace_type ≡ org_namespace) × Holds env w username ns role)
      ⊎ ((namespace.namespace_type ≢ org_namespace) × (namespace.path ≡ user.username))

-- An administrator of the site.
pub record IsSiteAdmin (env : Env) (w : World) (username : Text) : Type 0 where
  pub user : User
  pub user_there : find_by_username env username w ≡ ok user
  pub is_admin : can_admin_site user ≡ true

module _ (env : Env) (role : Role) (known : role ≢ unknown) (username ns : Text) (w : World) where
  of_org_test :
      (n : Namespace) (u : User) (b : Bool)
      → namespace_by_path env ns w ≡ ok n
      → find_by_username env username w ≡ ok u
      → text_eq n.namespace_type org_namespace ≡ b
      → (if b
          then (check_current_user_permission env username ns role w >>= λ can.
              guard can no_permission)
          else guard (text_eq n.path u.username) no_permission)
        ≡ ok tt
      → InCharge env w username ns role
  of_org_test n u true there named org h =
      let (can, allowed, passes) =
        bind-ok (check_current_user_permission env username ns role w) _ tt h in
      record {
        namespace = n;
        user = u;
        namespace_there = there;
        user_there = named;
        in_charge = inl (
          (text_eq_iff n.namespace_type org_namespace).0 org,
          check-Holds env username ns role w known
              (rw (guard-ok can no_permission tt passes) at allowed),
        );
      }
  of_org_test n u false there named other h = record {
    namespace = n;
    user = u;
    namespace_there = there;
    user_there = named;
    in_charge = inr (
      λ org. cc (other, (text_eq_iff n.namespace_type org_namespace).1 org),
      (text_eq_iff n.path u.username).0 (guard-ok _ no_permission tt h),
    );
  }

  may_manage-InCharge :
      (n : Namespace) (u : User)
      → namespace_by_path env ns w ≡ ok n
      → find_by_username env username w ≡ ok u
      → may_manage env role username ns n u w ≡ ok tt
      → InCharge env w username ns role
  unfolding may_manage
  may_manage-InCharge n u there named h = of_org_test n u _ there named refl h

  -- The same where an administrator of the site needs no check.
  unless_admin-InCharge :
      (n : Namespace) (u : User) (b : Bool)
      → namespace_by_path env ns w ≡ ok n
      → find_by_username env username w ≡ ok u
      → can_admin_site u ≡ b
      → (if b then ok tt else may_manage env role username ns n u w) ≡ ok tt
      → InCharge env w username ns role ⊎ IsSiteAdmin env w username
  unless_admin-InCharge n u true there named adm h =
      inr (record { user = u; user_there = named; is_admin = adm })
  unless_admin-InCharge n u false there named adm h = inl (may_manage-InCharge n u there named h)

module _ (env : Env) (w : World) where
  create_checks-InCharge :
      (q : CreateRepoReq) (u : User)
      → create_checks env q w ≡ ok u
      → InCharge env w q.username q.place.namespace write ⊎ IsSiteAdmin env w q.username
  unfolding create_checks
  create_checks-InCharge q u h =
      let (n, there, h1) = bind-ok (or_missing (namespace_by_path env q.place.namespace w)) _ u h in
      let (v, named, h2) = bind-ok (or_missing (find_by_username env q.username w)) _ u h1 in
      let (x, has_email, h3) = bind-ok (guard (not (is_empty v.email)) no_email) _ u h2 in
      let (y, passes, h4) =
        bind-ok (unless_admin v (may_manage env write q.username q.place.namespace n v w)) _ u h3 in
      unless_admin-InCharge env write write_known q.username q.place.namespace w n v _
        (or_missing-ok _ n there) (or_missing-ok _ v named) refl passes

  update_checks-InCharge :
      (q : UpdateRepoReq) (r : Repository)
      → update_checks env q w ≡ ok r
      → InCharge env w q.username q.place.namespace write ⊎ IsSiteAdmin env w q.username
  unfolding update_checks
  update_checks-InCharge q r h =
      let (r', found, h0) = bind-ok (or_missing (find_by_path env q.place w)) _ r h in
      let (n, there, h1) =
        bind-ok (or_missing (namespace_by_path env q.place.namespace w)) _ r h0 in
      let (v, named, h2) = bind-ok (or_missing (find_by_username env q.username w)) _ r h1 in
      let (y, passes, h3) =
        bind-ok (unless_admin v (may_manage env write q.username q.place.namespace n v w)) _ r h2 in
      unless_admin-InCharge env write write_known q.username q.place.namespace w n v _
        (or_missing-ok _ n there) (or_missing-ok _ v named) refl passes

  delete_checks-InCharge :
      (p : Place) (username : Text) (r : Repository)
      → delete_checks env p username w ≡ ok r
      → InCharge env w username p.namespace admin
  unfolding delete_checks
  delete_checks-InCharge p username r h =
      let (r', found, h0) = bind-ok (or_missing (find_by_path env p w)) _ r h in
      let (n, there, h1) = bind-ok (or_missing (namespace_by_path env p.namespace w)) _ r h0 in
      let (v, named, h2) = bind-ok (or_missing (find_by_username env username w)) _ r h1 in
      let (y, passes, h3) = bind-ok (may_manage env admin username p.namespace n v w) _ r h2 in
      may_manage-InCharge env admin admin_known username p.namespace w n v (or_missing-ok _ n there)
        (or_missing-ok _ v named) passes

-- Creating and updating a repository end with an error and change nothing, neither the tables nor
-- the git server, unless the user is in charge of the namespace with the right to write, or is an
-- administrator of the site; deleting one, unless the user is in charge with an admin's right.
pub manage-authorized :
    (env : Env) (w : World) (qc : CreateRepoReq) (qu : UpdateRepoReq) (p : Place) (username : Text)
    → (Refused w (create_repository env qc w)
        ⊎ (InCharge env w qc.username qc.place.namespace write ⊎ IsSiteAdmin env w qc.username))
      × (Refused w (update_repository env qu w)
          ⊎ (InCharge env w qu.username qu.place.namespace write ⊎ IsSiteAdmin env w qu.username))
      × (Refused w (delete_repository env p username w) ⊎ InCharge env w username p.namespace admin)
unfolding create_repository update_repository delete_repository
manage-authorized env w qc qu p username = (
  checked_or (create_checks env qc w) _ w (create_checks-InCharge env w qc),
  checked_or (update_checks env qu w) _ w (update_checks-InCharge env w qu),
  checked_or (delete_checks env p username w) _ w (delete_checks-InCharge env w p username),
)
