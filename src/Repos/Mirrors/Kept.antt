-- ===== src/Repos/Mirrors/Kept.antt =====
-- That every operation on mirrors keeps the table sound.
use csghub_server.Mirror.Sync.{in_progress, pending, SyncStatus}
use csghub_server.Repos.Mirrors.{
  is_exist, store_failed, is_gitaly, write_repo, SyncStatus, find_mirror, update_mirror_by_key,
  set_sync_status, guard, is_gitea, exists_for, admin_check, Mirror, MirrorSite, MirrorEnv,
}
use csghub_server.Org.Store.{store_failed}
use csghub_server.Prelude.{
  sym, if◌then◌else◌, ◌==◌, arith, map, false, any, subst, true, not, Text, ◌≡◌, Bool, ℕ, none,
  some, Option,
}
use csghub_server.Repos.Mirrors.Unique.{
  find_mirror-first, Keeps, update_mirror_by_key-After, enqueue-After, call_server-After,
  create_mirror_row-After, announce-After, if-After, mirror_by_repo_id-Holding, on_success-After,
  After-keeps, Lacks, delete_mirror_by_key-After, Holding, permitted-After, HasOneEach,
}
use csghub_server.Repos.Mirrors.Table.{listed-first_mirror, listed-any, listed}
use csghub_server.Repos.Mirrors.Saas.{
  sync_checks, saas_checks, by_mirror, mirror_from_saas_sync, write_back, make_from_saas,
  mirror_from_saas,
}
use csghub_server.Repos.Mirrors.Owned.{
  updated_mirror, UpdateMirrorReq, CreateMirrorReq, update_mirror_checks, create_mirror_checks,
  create_mirror, delete_mirror, mirror_checks, sync_mirror, update_mirror,
}
use csghub_server.Repos.Store.{
  write_repo, already_exists, guard, Place, Repository, ok, err, bind-ok, guard-ok, find_by_path,
}

ok-same : (x y : Mirror) → ok x ≡ ok y → x ≡ y
ok-same x y h = cc (h)

ok-repository : (x y : Mirror × Text) → ok x ≡ ok y → y.0.repository_id ≡ x.0.repository_id
ok-repository x y h = cc (h)

not-true : (b : Bool) → not b ≡ true → b ≡ false
not-true b h = ground arith

exists_for-any :
    (e : MirrorEnv) (i : ℕ) (b : Bool) (s : MirrorSite)
    → exists_for e i s ≡ ok b
    → any (λ m. m.repository_id == i) s.mirrors ≡ b
exists_for-any e i b s h = if-any (e.fails_query (is_exist i)) h
  where
    if-any :
        (fails : Bool)
        → (if fails then err store_failed else ok (any (λ m. m.repository_id == i) s.mirrors))
          ≡ ok b
        → any (λ m. m.repository_id == i) s.mirrors ≡ b
    if-any true g = absurd (cc (g))
    if-any false g = cc (g)

module _ (e : MirrorEnv) (s : MirrorSite) (sound : HasOneEach s) where
  mirror_checks-Holding :
      (p : Place) (user : Text) (m : Mirror) → mirror_checks e p user s ≡ ok m → Holding m s
  unfolding mirror_checks
  mirror_checks-Holding p user m h =
      let (x, passes, h1) = bind-ok (admin_check e.env user p.namespace s.world) _ m h in
      let (r, found, h2) = bind-ok (find_by_path e.env p s.world) _ m h1 in
      mirror_by_repo_id-Holding e r.id m s sound h2

  create_mirror_checks-Lacks :
      (q : CreateMirrorReq) (m : Mirror)
      → create_mirror_checks e q s ≡ ok m
      → Lacks m.repository_id s
  unfolding create_mirror_checks
  create_mirror_checks-Lacks q m h =
      let (x, passes, h1) =
        bind-ok (admin_check e.env q.current_user q.place.namespace s.world) _ m h in
      let (r, found, h2) = bind-ok (find_by_path e.env q.place s.world) _ m h1 in
      let (exists, known, h3) = bind-ok (exists_for e r.id s) _ m h2 in
      let (y, lacks, h4) = bind-ok (guard (not exists) already_exists) _ m h3 in
      let (source, named, h5) = bind-ok (e.source_name q.mirror_source_id) _ m h4 in
      let (token, given, h6) = bind-ok (e.env.git_token q.current_user) _ m h5 in
      let absent : any (λ v. v.repository_id == r.id) s.mirrors ≡ false = cc (
        exists_for-any e r.id exists s known,
        not-true exists (guard-ok (not exists) already_exists y lacks),
      ) in
      (
        sound,
        subst (λ v. listed v.repository_id (map (λ x. x.repository_id) s.mirrors) ≡ false)
            (ok-same _ m h6) (rw (listed-any r.id s.mirrors) absent),
      )

  create_mirror-Keeps : (q : CreateMirrorReq) → Keeps (create_mirror e q s)
  unfolding create_mirror
  create_mirror-Keeps q =
      permitted-After HasOneEach (create_mirror_checks e q s) _ s sound (λ m passes.
        (on_success-After HasOneEach (λ n. Lacks m.repository_id) (λ x. HasOneEach) _ _
          (announce-After e q m s (create_mirror_checks-Lacks q m passes))
          (λ task v lacks.
            on_success-After HasOneEach Holding (λ x. HasOneEach) _ _
              (create_mirror_row-After e (record m { mirror_task_id = task }) v lacks)
              (λ made y hold. enqueue-After e _ made y hold))))

  update_mirror-Keeps : (q : UpdateMirrorReq) → Keeps (update_mirror e q s)
  unfolding update_mirror update_mirror_checks
  update_mirror-Keeps q =
      permitted-After HasOneEach (update_mirror_checks e q s) _ s sound (λ m passes.
        let (old, found, h1) = bind-ok (mirror_checks e q.place q.current_user s) _ m passes in
        let (source, named, h2) = bind-ok (e.source_name q.mirror_source_id) _ m h1 in
        let (token, given, h3) = bind-ok (e.env.git_token q.current_user) _ m h2 in
        subst (λ v. Keeps (update_mirror_by_key e v s)) (ok-same _ m h3)
          ((update_mirror_by_key-After e (updated_mirror q source token old) s
            (mirror_checks-Holding q.place q.current_user old found))))

  delete_mirror-Keeps : (p : Place) (user : Text) → Keeps (delete_mirror e p user s)
  unfolding delete_mirror
  delete_mirror-Keeps p user =
      permitted-After HasOneEach (mirror_checks e p user s) _ s sound
        (λ m passes. delete_mirror_by_key-After e m s sound)

  sync_mirror-Keeps : (p : Place) (user : Text) → Keeps (sync_mirror e p user s)
  unfolding sync_mirror
  sync_mirror-Keeps p user =
      permitted-After HasOneEach (mirror_checks e p user s) _ s sound (λ m passes.
        (if-After (λ x. HasOneEach) HasOneEach (is_gitea e.git_server) _ _
          (on_success-After HasOneEach (λ n. HasOneEach) (λ x. HasOneEach) _ _
            (call_server-After e HasOneEach HasOneEach _ s sound sound) (λ n v h. h))
          (on_success-After HasOneEach (λ n. HasOneEach) (λ x. HasOneEach) _ _
            (enqueue-After e _ (record m { priority = 3 }) s
              (mirror_checks-Holding p user m passes))
            (λ n v h. h))))

  set_sync_status-After :
      (i : ℕ) (status : SyncStatus) (v : MirrorSite)
      → HasOneEach v
      → Keeps (set_sync_status e i status v)
  unfolding set_sync_status
  set_sync_status-After i status v h =
      if-After (λ x. HasOneEach) HasOneEach (e.env.fails (write_repo i)) _ _ h h

  write_back-After : (i : ℕ) (v : MirrorSite) → HasOneEach v → Keeps (write_back e i v)
  write_back-After i v h =
      if-After (λ x. HasOneEach) HasOneEach (e.env.fails (write_repo i)) _ _ h h

  saas_checks-repository :
      (p : Place) (user : Text) (r : Repository) (x : Mirror × Text)
      → saas_checks e p user r ≡ ok x
      → x.0.repository_id ≡ r.id
  saas_checks-repository p user r x h =
      let (version, known, h1) = bind-ok (e.sync_version r p.repo_type) _ x h in
      let (token, given, h2) = bind-ok e.client_token _ x h1 in ok-repository _ x h2

  none-Lacks : (i : ℕ) → find_mirror e i s ≡ ok none → Lacks i s
  none-Lacks i found = (sound, listed-first_mirror i s.mirrors (find_mirror-first e i none s found))

  by_mirror-Keeps :
      (p : Place) (user : Text) (r : Repository) (o : Option Mirror)
      → find_mirror e r.id s ≡ ok o
      → Keeps (by_mirror e p user r o s)
  unfolding make_from_saas mirror_from_saas_sync
  by_mirror-Keeps p user r none found =
      permitted-After HasOneEach (saas_checks e p user r) _ s sound (λ x passes.
        on_success-After HasOneEach (λ n. Lacks r.id) (λ y. HasOneEach) _ _
          (call_server-After e (Lacks r.id) HasOneEach _ s (none-Lacks r.id found) sound)
          (λ task v lacks.
            on_success-After HasOneEach Holding (λ y. HasOneEach) _ _
              (create_mirror_row-After e (record x.0 { mirror_task_id = task }) v
                (subst (λ i. Lacks i v) (sym (saas_checks-repository p user r x passes)) lacks))
              (λ m z hold.
                if-After (λ y. HasOneEach) HasOneEach (is_gitaly e.git_server) _ _
                  (set_sync_status-After r.id pending _ hold.0)
                  (set_sync_status-After r.id in_progress z hold.0))))
  by_mirror-Keeps p user r (some m) found =
      permitted-After HasOneEach (sync_checks e m s) _ s sound (λ x passes.
        (if-After (λ y. HasOneEach) HasOneEach (is_gitea e.git_server) _ _
          (on_success-After HasOneEach (λ n. HasOneEach) (λ y. HasOneEach) _ _
            (call_server-After e HasOneEach HasOneEach _ s sound sound)
            (λ n v h. write_back-After x.1.id v h))
          (if-After (λ y. HasOneEach) HasOneEach (is_gitaly e.git_server) _ _
            (set_sync_status-After x.1.id pending _ sound) (write_back-After x.1.id s sound))))

  mirror_from_saas-Keeps : (p : Place) (user : Text) → Keeps (mirror_from_saas e p user s)
  unfolding mirror_from_saas
  mirror_from_saas-Keeps p user =
      permitted-After HasOneEach (find_by_path e.env p s.world) _ s sound (λ r there.
        permitted-After HasOneEach (find_mirror e r.id s) _ s sound
          (λ o found. by_mirror-Keeps p user r o found))

-- Whatever is done with mirrors, and whichever calls fail: if the keys of the table are distinct and
-- below the next one, and no repository has two mirrors, then that is so again after creating,
-- updating, deleting or synchronising a mirror and after mirroring from the hub's own service.
pub mirrors-HasOneEach :
    (e : MirrorEnv) (s : MirrorSite) (qc : CreateMirrorReq) (qu : UpdateMirrorReq) (p : Place)
    (user : Text)
    → HasOneEach s
    → HasOneEach (create_mirror e qc s).0
      × HasOneEach (update_mirror e qu s).0
      × HasOneEach (delete_mirror e p user s).0
      × HasOneEach (sync_mirror e p user s).0
      × HasOneEach (mirror_from_saas e p user s).0
mirrors-HasOneEach e s qc qu p user sound = (
  After-keeps HasOneEach (create_mirror e qc s) (create_mirror-Keeps e s sound qc),
  After-keeps HasOneEach (update_mirror e qu s) (update_mirror-Keeps e s sound qu),
  After-keeps HasOneEach (delete_mirror e p user s) (delete_mirror-Keeps e s sound p user),
  After-keeps HasOneEach (sync_mirror e p user s) (sync_mirror-Keeps e s sound p user),
  After-keeps HasOneEach (mirror_from_saas e p user s) (mirror_from_saas-Keeps e s sound p user),
)
