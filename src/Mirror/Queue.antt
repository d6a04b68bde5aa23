-- ===== src/Mirror/Queue.antt =====
-- mirror/queue/queue.go, the queue of mirrors with priorities, a sorted set of Redis; `dispatcher` of
-- mirror/reposyncer/local_woker.go, which empties it, and mirror/prioriy_queue.go, which fills it
-- when the server starts, by `ToSyncRepo` and `ToSyncLfs` of builder/store/database/mirror.go.
-- A score is the exact product, as a double has it up to 2^53. Redis is a parameter, and so is which
-- of its commands and of the writes to the database succeed.
pub mod Handed
pub mod Enqueued
pub mod Started
mod Examples
use csghub_server.Prelude.{
  suc, ℕ, ◌≤◌, ◌*◌, ◌==◌, ltb, Bool, true, false, ◌||◌, Option, none, some, List, [], ◌∷◌, map,
  keep, if◌then◌else◌, ◌≡◌, ◌⊎◌,
}
use csghub_server.Mirror.Sync.{
  waiting, failed, incomplete, repo_synced, running, finished, MirrorTask, Mirror, MirrorStatus,
}

-- What ZADD and ZPOPMAX promise of one sorted set.
pub record SortedSet : Type 1 where
  pub Set : Type 0
  -- the member is in the set, with this score
  pub Scored : Set → MirrorTask → ℕ → Type 0
  -- ZCARD
  pub card : Set → ℕ
  pub zadd : ℕ → MirrorTask → Set → Set
  pub zpopmax : Set → Option (MirrorTask × Set)
  pub zadd-Scored : (n : ℕ) (t : MirrorTask) (s : Set) → Scored (zadd n t s) t n
  pub zadd-other :
      (n : ℕ) (t : MirrorTask) (s : Set) (u : MirrorTask) (k : ℕ)
      → Scored s u k
      → (u ≡ t) ⊎ Scored (zadd n t s) u k
  pub zpopmax-none : (s : Set) → zpopmax s ≡ none → (u : MirrorTask) (k : ℕ) → ¬ Scored s u k
  pub zpopmax-greatest :
      (s s' : Set) (t : MirrorTask)
      → zpopmax s ≡ some (t, s')
      → (n : ℕ) × Scored s t n × ((u : MirrorTask) (k : ℕ) → Scored s u k → k ≤ n)
  pub zpopmax-other :
      (s s' : Set) (t : MirrorTask)
      → zpopmax s ≡ some (t, s')
      → (u : MirrorTask) (k : ℕ) → Scored s u k
      → (u ≡ t) ⊎ Scored s' u k
  pub zpopmax-card :
      (s s' : Set) (t : MirrorTask) → zpopmax s ≡ some (t, s') → suc (card s') ≤ card s

-- `Push` puts the time into a task without one.
abbrev pub stamped : ℕ → MirrorTask → MirrorTask
stamped now t = if t.created_at == 0 then record t { created_at = now } else t

abbrev pub score : MirrorTask → ℕ
score t = t.created_at * t.priority

-- A row of the table: the mirror, and when it is to be synchronised next, if that is set.
pub record MirrorRow : Type 0 where
  pub mirror : Mirror
  pub next_execution : Option ℕ

-- `next_execution_timestamp < now`, which NULL does not satisfy
abbrev pub is_due : ℕ → Option ℕ → Bool
is_due now none = false
is_due now (some t) = ltb t now

abbrev pub is_retried : MirrorStatus → Bool
is_retried incomplete = true
is_retried failed = true
is_retried waiting = true
is_retried running = false
is_retried finished = false
is_retried repo_synced = false

abbrev pub is_repo_synced : MirrorStatus → Bool
is_repo_synced repo_synced = true
is_repo_synced incomplete = false
is_repo_synced failed = false
is_repo_synced waiting = false
is_repo_synced running = false
is_repo_synced finished = false

-- The conditions of the queries `ToSyncRepo` and `ToSyncLfs`
abbrev pub to_sync_repo : ℕ → MirrorRow → Bool
to_sync_repo now r = is_due now r.next_execution || is_retried r.mirror.status

abbrev pub to_sync_lfs : ℕ → MirrorRow → Bool
to_sync_lfs now r = is_due now r.next_execution || is_repo_synced r.mirror.status

abbrev pub enqueued : MirrorRow → MirrorTask
enqueued r = record {
  mirror_id = r.mirror.id;
  priority = r.mirror.priority;
  created_at = r.mirror.created_at;
  mirror_token = [];
}

abbrev pub set_waiting : MirrorRow → MirrorRow
set_waiting r = record r { mirror = record r.mirror { status = waiting } }

-- `Update` writes the row as it was read, by its primary key.
unfoldable pub update : MirrorRow → List MirrorRow → List MirrorRow
update r = map (λ x. if x.mirror.id == r.mirror.id then r else x)

-- Which commands succeed: the two queries, `ZADD` and the writes of the rows, by the mirror's id.
pub record Answers : Type 0 where
  pub reads_repo : Bool
  pub reads_lfs : Bool
  pub adds : ℕ → Bool
  pub updates : ℕ → Bool

module _ (z : SortedSet) where
  -- `Push`: an error of Redis is not looked at.
  unfoldable pub push : Bool → ℕ → MirrorTask → z.Set → z.Set
  push redis now t s = let u = stamped now t in if redis then z.zadd (score u) u s else s

  -- `Pop`: no task if Redis fails, and none after ten seconds without one.
  unfoldable pub pop : Bool → z.Set → Option (MirrorTask × z.Set)
  pop redis s = if redis then z.zpopmax s else none

  -- `dispatcher`: in each round, by whether Redis answers, one task is handed to the workers.
  unfoldable pub dispatcher : List Bool → z.Set → List MirrorTask
  dispatcher [] s = []
  dispatcher (redis ∷ rounds) s = elim (pop redis s) [
    | none ↦ dispatcher rounds s
    | some (t, s') ↦ t ∷ dispatcher rounds s'
  ]

  -- The two queues and the table.
  pub record Queues : Type 0 where
    pub repo_queue : z.Set
    pub lfs_queue : z.Set
    pub rows : List MirrorRow

  -- The loop over the rows that a query gave: an error of `Update` is logged only.
  unfoldable pub enqueue_all :
      Answers → ℕ → List MirrorRow → z.Set × List MirrorRow → z.Set × List MirrorRow
  enqueue_all a now [] w = w
  enqueue_all a now (r ∷ rs) w = enqueue_all a now rs (
    push (a.adds r.mirror.id) now (enqueued r) w.0,
    if a.updates r.mirror.id then update (set_waiting r) w.1 else w.1,
  )

  -- `EnqueueMirrorTasks`, its second half first
  unfoldable pub enqueue_lfs : Answers → ℕ → Queues → Queues
  enqueue_lfs a now q =
      if a.reads_lfs
      then (let w = enqueue_all a now (keep (to_sync_lfs now) q.rows) (q.lfs_queue, q.rows) in
          record q { lfs_queue = w.0; rows = w.1 })
      else q

  unfoldable pub enqueue_mirror_tasks : Answers → ℕ → Queues → Queues
  enqueue_mirror_tasks a now q =
      if a.reads_repo
      then (let w = enqueue_all a now (keep (to_sync_repo now) q.rows) (q.repo_queue, q.rows) in
          enqueue_lfs a now (record q { repo_queue = w.0; rows = w.1 }))
      else q
