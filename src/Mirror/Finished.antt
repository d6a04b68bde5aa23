-- ===== src/Mirror/Finished.antt =====
-- What a synchronisation that succeeds leaves.
use csghub_server.Deploy.AppName.{last_or}
use csghub_server.Mirror.Sync.{
  error, task_of, repo_synced, finished, in_progress, low_priority, completed,
  generate_lfs_meta_objects, running, with_mirrored, Mirror, Repository, Result, end_mirror,
  sync_repo, trigger, with_branch, with_objects, with_repository, World, succeeded, Answers,
  errored,
}
use csghub_server.Prelude.{
  ap, Text, ℕ, zero, suc, Bool, true, false, not, ◌&&◌, Option, none, some, [], ◌∷◌, ◌++◌,
  if◌then◌else◌, split, length, ltb, ◌≡◌, refl, ◌⊎◌, inl, inr, Bool-cases,
}

-- The mirror is finished, with all of the repository there, or the LFS files are left to another task.
abbrev pub IsDone : Answers → Text → World → World → Type 0
IsDone a token w w' =
    ((r : Repository) × (w'.repository ≡ some r)
      × (r.sync_status ≡ completed)
      × (w'.mirror.status ≡ finished)
      × (w'.lfs_queue ≡ w.lfs_queue)
      × (generate_lfs_meta_objects a ≡ some 0))
    ⊎ ((r : Repository) × (w'.repository ≡ some r)
        × (r.sync_status ≡ in_progress)
        × (w'.mirror.status ≡ repo_synced)
        × (w'.lfs_queue
            ≡ w.lfs_queue
              ++ record {
                mirror_id = w.mirror.id;
                priority = low_priority;
                created_at = w.mirror.created_at;
                mirror_token = token;
              }
                ∷ [])
        × ((n : ℕ) × (generate_lfs_meta_objects a ≡ some (suc n))))

abbrev pub Synced : Answers → Text → World → Result → Type 0
Synced a token w r = r.1 ≡ succeeded → (r.0.workflows ≡ suc w.workflows) × IsDone a token w r.0

error-ne-succeeded : {t : Text} → errored t ≡ succeeded → ⊥
error-ne-succeeded h = absurd (cc)

module _ (a : Answers) (token : Text) (w : World) where
  abbrev running_mirror : Mirror
  running_mirror = record w.mirror { status = running; priority = low_priority }

  -- A step that goes on or ends with an error.
  if-Synced :
      (c : Bool) (x : Result) (v : World)
      → Synced a token w x
      → Synced a token w (if c then x else error v)
  if-Synced true x v s = s
  if-Synced false x v s = λ h. absurd (error-ne-succeeded h)

  if_not-Synced :
      (c : Bool) (x : Result) (v : World)
      → Synced a token w x
      → Synced a token w (if not c then error v else x)
  if_not-Synced true x v s = s
  if_not-Synced false x v s = λ h. absurd (error-ne-succeeded h)

  -- The last steps, from a world that is as it should be.
  trigger-Synced :
      (v : World) → v.workflows ≡ w.workflows → IsDone a token w v → Synced a token w (trigger a v)
  unfolding trigger
  trigger-Synced v e d =
      if-Synced (a.last_commit && (a.diff && a.executes)) _ v (λ h. (ap suc e, d))

  end_mirror-Synced :
      (m : Mirror) (v : World)
      → v.workflows ≡ w.workflows
      → IsDone a token w (record v { mirror = m })
      → Synced a token w (end_mirror a m v)
  unfolding end_mirror
  end_mirror-Synced m v e d = if-Synced a.ends _ v (trigger-Synced (record v { mirror = m }) e d)

  with_objects-Synced :
      (r : Repository) (o : Option ℕ) (v : World)
      → generate_lfs_meta_objects a ≡ o
      → r.sync_status ≡ in_progress
      → v.workflows ≡ w.workflows
      → v.lfs_queue ≡ w.lfs_queue
      → v.repository ≡ some r
      → Synced a token w (with_objects a token running_mirror r o v)
  unfolding with_objects
  with_objects-Synced r none v g st e q er = λ h. absurd (error-ne-succeeded h)
  with_objects-Synced r (some zero) v g st e q er = if-Synced a.completes_repo _ v (
      end_mirror-Synced (record running_mirror { status = finished })
        (record v { repository = some (record r { sync_status = completed }) }) e
        (inl (record r { sync_status = completed }, refl, refl, refl, q, g)))
  with_objects-Synced r (some (suc n)) v g st e q er =
      end_mirror-Synced (record running_mirror { status = repo_synced })
        (record v { lfs_queue = v.lfs_queue ++ task_of token running_mirror ∷ [] }) e
        (inr (r, er, st, refl, rw q refl, (n, g)))

  with_branch-Synced :
      (r : Repository) (o : Option Text) (v : World)
      → v.workflows ≡ w.workflows
      → v.lfs_queue ≡ w.lfs_queue
      → Synced a token w (with_branch a token running_mirror r o v)
  unfolding with_branch
  with_branch-Synced r none v e q = λ h. absurd (error-ne-succeeded h)
  with_branch-Synced r (some ref) v e q = if-Synced a.updates_repo _ v (
      with_objects-Synced _ _
        (record v {
          repository = some (record r {
            default_branch = last_or [] (split b'/' ref);
            sync_status = in_progress;
          });
        })
        refl refl e q refl)

  with_mirrored-Synced :
      (r : Repository) (o : Option Text) (v : World)
      → v.workflows ≡ w.workflows
      → v.lfs_queue ≡ w.lfs_queue
      → Synced a token w (with_mirrored a token running_mirror r o v)
  unfolding with_mirrored
  with_mirrored-Synced r (some t) v e q = λ h. absurd (error-ne-succeeded h)
  with_mirrored-Synced r none v e q = with_branch-Synced r a.default_branch v e q

  with_repository-Synced :
      (o : Option Repository) (v : World)
      → v.workflows ≡ w.workflows
      → v.lfs_queue ≡ w.lfs_queue
      → Synced a token w (with_repository a token running_mirror o v)
  unfolding with_repository
  with_repository-Synced none v e q h = absurd (error-ne-succeeded h)
  with_repository-Synced (some r) v e q h = elim (Bool-cases (ltb 1 (length (split b'/' r.path)))) [
    | inr no' ↦ absurd (cc (rw no' at h))
    | inl ok' ↦ rw ok' (with_mirrored-Synced r a.sync_error v e q (rw ok' at h))
  ]

  -- If `SyncRepo` returns `nil`, it has started one workflow, and either the repository has no LFS
  -- files, is marked as completed and its mirror as finished, and nothing was put into the queue, or
  -- it has some, is marked as in progress and its mirror as synchronised, and one task for the LFS
  -- files was put into the queue, which has the low priority, whatever the mirror had.
  pub sync_repo_lem : Synced a token w (sync_repo a token w)
  unfolding sync_repo
  sync_repo_lem = if_not-Synced a.finds _ w (
      if_not-Synced a.begins _ w
        (with_repository-Synced w.repository (record w { mirror = running_mirror }) refl refl))
