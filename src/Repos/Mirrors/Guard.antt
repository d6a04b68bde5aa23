-- ===== src/Repos/Mirrors/Guard.antt =====
-- Who may touch a mirror.
use csghub_server.Repos.Store.{
  Outcome-cases, Env, World, Place, Outcome, Error, ok, err, bind-ok, guard-ok, no_permission,
}
use csghub_server.Prelude.{Text, ◌≡◌, ◌⊎◌, inl, inr, refl}
use csghub_server.Org.Role.{admin}
use csghub_server.Repos.Access.{check_current_user_permission}
use csghub_server.Repos.Access.Rights.{Holds, check-Holds, admin_known}
use csghub_server.Repos.Mirrors.{Mirror, MirrorEnv, MirrorSite, Acted, permitted, admin_check}
use csghub_server.Repos.Mirrors.Owned.{
  CreateMirrorReq, UpdateMirrorReq, create_mirror, update_mirror, delete_mirror, sync_mirror,
  get_mirror, create_mirror_checks, update_mirror_checks, mirror_checks,
}

-- The operation ended with an error and changed nothing.
abbrev pub Untouched {ℓ} : {A : Type ℓ} → MirrorSite → Acted A → Type ℓ
Untouched s d = (x : Error) × (d ≡ (s, err x))

permitted_or {ℓ κ μ} :
    {A : Type ℓ} {B : Type κ} {P : Type μ} (x : Outcome A) (f : A → MirrorSite → Acted B)
    (s : MirrorSite)
    → ((a : A) → x ≡ ok a → P)
    → Untouched s (permitted x f s) ⊎ P
permitted_or (ok a) f s h = inr (h a refl)
permitted_or (err e) f s h = inl (e, refl)

admin_check-Holds :
    (env : Env) (user ns : Text) (w : World)
    → admin_check env user ns w ≡ ok tt
    → Holds env w user ns admin
unfolding admin_check
admin_check-Holds env user ns w h =
    let (can, allowed, passes) =
      bind-ok (check_current_user_permission env user ns admin w) _ tt h in
    check-Holds env user ns admin w admin_known
      (rw (guard-ok can no_permission tt passes) at allowed)

module _ (e : MirrorEnv) (s : MirrorSite) where
  create_mirror_checks-Holds :
      (q : CreateMirrorReq) (m : Mirror)
      → create_mirror_checks e q s ≡ ok m
      → Holds e.env s.world q.current_user q.place.namespace admin
  unfolding create_mirror_checks
  create_mirror_checks-Holds q m h =
      let (x, passes, rest) =
        bind-ok (admin_check e.env q.current_user q.place.namespace s.world) _ m h in
      admin_check-Holds e.env q.current_user q.place.namespace s.world passes

  mirror_checks-Holds :
      (p : Place) (user : Text) (m : Mirror)
      → mirror_checks e p user s ≡ ok m
      → Holds e.env s.world user p.namespace admin
  unfolding mirror_checks
  mirror_checks-Holds p user m h =
      let (x, passes, rest) = bind-ok (admin_check e.env user p.namespace s.world) _ m h in
      admin_check-Holds e.env user p.namespace s.world passes

  update_mirror_checks-Holds :
      (q : UpdateMirrorReq) (m : Mirror)
      → update_mirror_checks e q s ≡ ok m
      → Holds e.env s.world q.current_user q.place.namespace admin
  unfolding update_mirror_checks
  update_mirror_checks-Holds q m h =
      let (old, passes, rest) = bind-ok (mirror_checks e q.place q.current_user s) _ m h in
      mirror_checks-Holds q.place q.current_user old passes

-- Creating, updating, deleting and synchronising a mirror end with an error and change nothing,
-- neither the table nor the queue nor what the servers were asked, unless the user owns the
-- namespace or is a member of it with the role admin; and only such a user is shown a mirror.
pub mirrors-authorized :
    (e : MirrorEnv) (s : MirrorSite) (qc : CreateMirrorReq) (qu : UpdateMirrorReq) (p : Place)
    (user : Text)
    → (Untouched s (create_mirror e qc s)
        ⊎ Holds e.env s.world qc.current_user qc.place.namespace admin)
      × (Untouched s (update_mirror e qu s)
          ⊎ Holds e.env s.world qu.current_user qu.place.namespace admin)
      × (Untouched s (delete_mirror e p user s) ⊎ Holds e.env s.world user p.namespace admin)
      × (Untouched s (sync_mirror e p user s) ⊎ Holds e.env s.world user p.namespace admin)
      × (((x : Error) × (get_mirror e p user s ≡ err x))
          ⊎ Holds e.env s.world user p.namespace admin)
unfolding create_mirror update_mirror delete_mirror sync_mirror get_mirror
mirrors-authorized e s qc qu p user = (
  permitted_or (create_mirror_checks e qc s) _ s (create_mirror_checks-Holds e s qc),
  permitted_or (update_mirror_checks e qu s) _ s (update_mirror_checks-Holds e s qu),
  permitted_or (mirror_checks e p user s) _ s (mirror_checks-Holds e s p user),
  permitted_or (mirror_checks e p user s) _ s (mirror_checks-Holds e s p user),
  get_mirror-cases (Outcome-cases (mirror_checks e p user s)),
)
  where
    get_mirror-cases :
        ((m : Mirror) × (mirror_checks e p user s ≡ ok m))
          ⊎ ((x : Error) × (mirror_checks e p user s ≡ err x))
        → ((x : Error) × (mirror_checks e p user s ≡ err x))
          ⊎ Holds e.env s.world user p.namespace admin
    get_mirror-cases (inl (m, h)) = inr (mirror_checks-Holds e s p user m h)
    get_mirror-cases (inr refused) = inl refused
