-- ===== src/Mirror/Queue/Started.antt =====
-- What becomes of a mirror that `EnqueueMirrorTasks`, mirror/prioriy_queue.go, finds: its task at the
-- workers, and the second call for one whose LFS files are missing only.
use csghub_server.Mirror.Queue.{
  is_due, dispatcher, to_sync_lfs, to_sync_repo, Queues, enqueue_lfs, enqueue_mirror_tasks,
  SortedSet, enqueue_all, MirrorRow, Answers, enqueued, set_waiting, stamped,
}
use csghub_server.Prelude.{
  false, true, Bool, List, or_true, if◌then◌else◌, if_true, refl, In-keep, In-to_keep, ap, ==_iff,
  sym, In-of_keep, inr, In, inl, Bool-cases, ◌≡◌, ◌==◌, ◌≤◌, keep, ℕ,
}
use csghub_server.Mirror.Queue.Enqueued.{
  enqueue_all-waits, enqueue_all-Queued, enqueue_all-other, Queued, enqueue_all-rows, IsKeyOf,
}
use csghub_server.Mirror.Queue.Handed.{dispatcher-drains, answered}

module _ (z : SortedSet) (a : Answers) where
  -- The queues after the first loop
  abbrev pub after_repo : ℕ → Queues z → Queues z
  after_repo now q =
      let w = enqueue_all z a now (keep (to_sync_repo now) q.rows) (q.repo_queue, q.rows) in
      record q { repo_queue = w.0; rows = w.1 }

  abbrev pub after_lfs : ℕ → Queues z → Queues z
  after_lfs now q =
      let w = enqueue_all z a now (keep (to_sync_lfs now) q.rows) (q.lfs_queue, q.rows) in
      record q { lfs_queue = w.0; rows = w.1 }

  if-repo_queue :
      (b : Bool) (x y : Queues z)
      → x.repo_queue ≡ y.repo_queue
      → (if b then x else y).repo_queue ≡ y.repo_queue
  if-repo_queue true x y h = h
  if-repo_queue false x y h = refl

  enqueue_lfs-repo_queue :
      (now : ℕ) (q : Queues z) → (enqueue_lfs z a now q).repo_queue ≡ q.repo_queue
  unfolding enqueue_lfs
  enqueue_lfs-repo_queue now q = if-repo_queue a.reads_lfs _ q refl

  enqueue_lfs-reads :
      (now : ℕ) (q : Queues z) → a.reads_lfs ≡ true → enqueue_lfs z a now q ≡ after_lfs now q
  unfolding enqueue_lfs
  enqueue_lfs-reads now q h = if_true a.reads_lfs _ q h

  enqueue_mirror_tasks-reads :
      (now : ℕ) (q : Queues z)
      → a.reads_repo ≡ true
      → enqueue_mirror_tasks z a now q ≡ enqueue_lfs z a now (after_repo now q)
  unfolding enqueue_mirror_tasks
  enqueue_mirror_tasks-reads now q h = if_true a.reads_repo _ q h

  -- A mirror that the first query gives has its task in the queue.
  enqueue_mirror_tasks-Queued :
      (now : ℕ) (q : Queues z) (r : MirrorRow)
      → a.reads_repo ≡ true
      → a.adds r.mirror.id ≡ true
      → In r q.rows
      → to_sync_repo now r ≡ true
      → Queued z (enqueue_mirror_tasks z a now q).repo_queue (stamped now (enqueued r))
  enqueue_mirror_tasks-Queued now q r reads adds m due =
      rw (enqueue_mirror_tasks-reads now q reads, enqueue_lfs-repo_queue now)
        (enqueue_all-Queued z a now (keep (to_sync_repo now) q.rows) _ r
          (In-to_keep (to_sync_repo now) q.rows m due) adds)

  -- If the table is read and Redis takes the task, the task of each mirror that is due, waiting,
  -- failed or incomplete is handed to the workers once Redis has answered in as many rounds of the
  -- dispatcher as the queue has tasks.
  pub enqueue_mirror_tasks-handed :
      (now : ℕ) (q : Queues z) (r : MirrorRow) (rounds : List Bool)
      → a.reads_repo ≡ true
      → a.adds r.mirror.id ≡ true
      → In r q.rows
      → to_sync_repo now r ≡ true
      → z.card (enqueue_mirror_tasks z a now q).repo_queue ≤ answered rounds
      → In
          (stamped now (enqueued r))
          (dispatcher z rounds (enqueue_mirror_tasks z a now q).repo_queue)
  enqueue_mirror_tasks-handed now q r rounds reads adds m due enough =
      dispatcher-drains z rounds _ _ _ (enqueue_mirror_tasks-Queued now q r reads adds m due) enough

  module _ (now : ℕ) (q : Queues z) (r : MirrorRow) where
    abbrev repo_rows : List MirrorRow
    repo_rows = keep (to_sync_repo now) q.rows

    -- Only the row of the mirror has its key, and the first query does not give it.
    module _ (key : IsKeyOf r q.rows) (apart : to_sync_repo now r ≡ false) where
      repo_rows-apart : (x : MirrorRow) → In x repo_rows → (r.mirror.id == x.mirror.id) ≡ false
      repo_rows-apart x m = elim (Bool-cases (r.mirror.id == x.mirror.id)) [
        | inl same ↦
            (let e =
                key x (In-of_keep (to_sync_repo now) q.rows m)
                  (sym ((==_iff r.mirror.id x.mirror.id).0 same)) in
              let given = In-keep (to_sync_repo now) q.rows m in
              absurd (cc (ap (to_sync_repo now) e, given, apart)))
        | inr other ↦ other
      ]

      after_repo-IsKeyOf : IsKeyOf r (after_repo now q).rows
      after_repo-IsKeyOf y m same = elim (enqueue_all-rows z a now repo_rows _ y m) [
        | inl old ↦ key y old same
        | inr (x, given, e) ↦
            (let no_key = repo_rows-apart x given in
              absurd (
                cc (
                  (==_iff r.mirror.id x.mirror.id).1 (cc (same, ap (λ v. v.mirror.id) e)),
                  no_key,
                )))
      ]

      -- The row is waiting after the second loop, and its task is in the second queue.
      enqueue_mirror_tasks-synced :
          a.reads_repo ≡ true
          → a.reads_lfs ≡ true
          → a.adds r.mirror.id ≡ true
          → a.updates r.mirror.id ≡ true
          → In r q.rows
          → to_sync_lfs now r ≡ true
          → Queued z (enqueue_mirror_tasks z a now q).lfs_queue (stamped now (enqueued r))
            × In (set_waiting r) (enqueue_mirror_tasks z a now q).rows
      enqueue_mirror_tasks-synced reads reads_lfs adds updates m synced =
          let left =
            enqueue_all-other z a now r repo_rows (q.repo_queue, q.rows) repo_rows-apart m in
          let rows : List MirrorRow = (after_repo now q).rows in
          let given = In-to_keep (to_sync_lfs now) rows left synced in
          rw
            (
              enqueue_mirror_tasks-reads now q reads,
              enqueue_lfs-reads now (after_repo now q) reads_lfs,
            )
            (
              enqueue_all-Queued z a now (keep (to_sync_lfs now) rows) (q.lfs_queue, rows) r given
                  adds,
              enqueue_all-waits z a now r (keep (to_sync_lfs now) rows) (q.lfs_queue, rows)
                  (λ y i. after_repo-IsKeyOf y (In-of_keep (to_sync_lfs now) rows i))
                  (r, left, refl) given updates,
            )

      -- If both queries answer, Redis takes the task and the row is written: the task of a mirror
      -- that is synchronised but for its LFS files is put into the queue for those, and a second
      -- call puts it into the queue of the repositories as well, whether or not the mirror is due. No
      -- other row has the mirror's key, and the first of the two queries does not give it at first.
      pub enqueue_mirror_tasks-again :
          (later : ℕ)
          → a.reads_repo ≡ true
          → a.reads_lfs ≡ true
          → a.adds r.mirror.id ≡ true
          → a.updates r.mirror.id ≡ true
          → In r q.rows
          → to_sync_lfs now r ≡ true
          → Queued z (enqueue_mirror_tasks z a now q).lfs_queue (stamped now (enqueued r))
            × Queued z
                (enqueue_mirror_tasks z a later (enqueue_mirror_tasks z a now q)).repo_queue
                (stamped later (enqueued r))
      enqueue_mirror_tasks-again later reads reads_lfs adds updates m synced =
          let (queued, is_waiting) =
            enqueue_mirror_tasks-synced reads reads_lfs adds updates m synced in
          (
            queued,
            enqueue_mirror_tasks-Queued later (enqueue_mirror_tasks z a now q) (set_waiting r) reads
                adds is_waiting (or_true (is_due later r.next_execution)),
          )
