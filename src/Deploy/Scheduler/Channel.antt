-- ===== src/Deploy/Scheduler/Channel.antt =====
-- The scheduler with its channel of 100 runners, under every interleaving of the goroutines that
-- call `next`, of the loop of `Run` that receives, and of what others write to the tables. `next`
-- holds the lock until its send goes through, so at most one runner waits to be sent.
use csghub_server.Prelude.{
  ap, length-append, subst, All-map, append_assoc, All-append, append-nil, ◌≤◌, length, ◌<◌, ℕ, ◌≡◌,
  refl, inl, inr, true, false, Option, none, some, List, [], ◌∷◌, ◌++◌, arith, All, if◌then◌else◌,
}
use csghub_server.Deploy.Scheduler.{sleep_task, watch_id, is_sleep, next, Calls, Runner, Scheduler}
use csghub_server.Deploy.Scheduler.Order.{Advances, Before, next-Advances}
use csghub_server.Deploy.Store.{Db, TaskRow}

pub record System : Type 0 where
  pub sched : Scheduler
  pub sending : Option Runner
  pub queue : List Runner
  pub taken : List Runner

abbrev pub capacity : ℕ
capacity = 100

pub data Step (s : System) : System → Type 0 where
  pick :
      (c : Calls) (sched : Scheduler) (r : Runner)
      → s.sending ≡ none
      → next c s.sched ≡ some (sched, r)
      → Step s (record s { sched = sched; sending = some r })
  send :
      (r : Runner)
      → s.sending ≡ some r
      → length s.queue < capacity
      → Step s (record s { sending = none; queue = s.queue ++ r ∷ [] })
  receive :
      (r : Runner) (q : List Runner)
      → s.queue ≡ r ∷ q
      → Step s (record s { queue = q; taken = s.taken ++ r ∷ [] })
  write : (db : Db) → Step s (record s { sched = record s.sched { db = db } })

pub data Reach (s : System) : System → Type 0 where
  start : Reach s s
  after : {t u : System} → Reach s t → Step t u → Reach s u

-- A scheduler that has just started, over any tables.
abbrev pub fresh : Db → System
fresh db = record {
  sched = record { last = none; db = db };
  sending = none;
  queue = [];
  taken = [];
}

-- The keys of the tasks among some runners, in their order.
abbrev pub task_ids : List Runner → List ℕ
task_ids [] = []
task_ids (r ∷ rs) = if is_sleep r then task_ids rs else watch_id r ∷ task_ids rs

abbrev pub waiting : Option Runner → List Runner
waiting none = []
waiting (some r) = r ∷ []

-- Every runner that `next` has returned so far, in the order of the calls.
abbrev pub sent : System → List Runner
sent s = s.taken ++ (s.queue ++ waiting s.sending)

abbrev pub Ascending : List ℕ → Type 0
Ascending [] = Unit
Ascending (x ∷ xs) = All (λ y. x < y) xs × Ascending xs

abbrev Bound : Option TaskRow → List ℕ → Type 0
Bound none ids = ids ≡ []
Bound (some t) ids = All (λ i. i ≤ t.id) ids

Ascending-append :
    (xs : List ℕ) (y : ℕ) → Ascending xs → All (λ x. x < y) xs → Ascending (xs ++ y ∷ [])
Ascending-append [] y a h = (tt, tt)
Ascending-append (x ∷ xs) y a h =
    (All-append (λ z. x < z) xs (y ∷ []) a.0 (h.0, tt), Ascending-append xs y a.1 h.1)

task_ids-append : (rs qs : List Runner) → task_ids (rs ++ qs) ≡ task_ids rs ++ task_ids qs
task_ids-append [] qs = refl
task_ids-append (r ∷ rs) qs = ground (arith, task_ids-append rs qs)

record Inv (s : System) : Type 0 where
  ordered : Ascending (task_ids (sent s))
  bounded : Bound s.sched.last (task_ids (sent s))
  fits : length s.queue ≤ capacity

Bound-below :
    (last : Option TaskRow) (n : ℕ) (ids : List ℕ)
    → Bound last ids
    → Before last n
    → All (λ i. i < n) ids
Bound-below none n ids h b = rw h tt
Bound-below (some t) n ids h b = All-map (λ i. i ≤ t.id) (λ i. i < n) (λ i le. omega arith) ids h

Below-le : (n : ℕ) (ids : List ℕ) → All (λ i. i < n) ids → All (λ i. i ≤ n) ids
Below-le n ids h = All-map (λ i. i < n) (λ i. i ≤ n) (λ i lt. omega arith) ids h

-- A sleep adds no key, whether the last task moves or not.
sleep_ids :
    (rs : List Runner) (r : Runner) → is_sleep r ≡ true → task_ids (rs ++ r ∷ []) ≡ task_ids rs
sleep_ids [] r h = rw h
sleep_ids (q ∷ rs) r h = ground (arith, sleep_ids rs r h)

task_id_last :
    (rs : List Runner) (r : Runner)
    → is_sleep r ≡ false
    → task_ids (rs ++ r ∷ []) ≡ task_ids rs ++ watch_id r ∷ []
task_id_last [] r h = rw h
task_id_last (q ∷ rs) r h = ground (arith, task_id_last rs r h)

Keys : Option TaskRow → List Runner → Type 0
Keys last rs = Ascending (task_ids rs) × Bound last (task_ids rs)

next-Keys :
    (s s' : Scheduler) (r : Runner) (rs : List Runner)
    → Advances s s' r
    → Keys s.last rs
    → Keys s'.last (rs ++ r ∷ [])
unfolding Keys
next-Keys s s' r rs (inl (e, inl same)) k = rw (e, same, sleep_ids rs sleep_task refl) k
next-Keys s s' r rs (inl (e, inr (t, moved, b))) k =
    rw (e, moved, sleep_ids rs sleep_task refl)
      (k.0, Below-le t.id _ (Bound-below s.last t.id _ k.1 b))
next-Keys s s' r rs (inr (t, moved, id, real, b)) k =
    let below = Bound-below s.last t.id (task_ids rs) k.1 b in
    rw (moved, task_id_last rs r real, id)
      (
        Ascending-append (task_ids rs) t.id k.0 below,
        All-append (λ i. i ≤ t.id) (task_ids rs) (t.id ∷ []) (Below-le t.id _ below)
            (omega arith, tt),
      )

Step-Inv : {s u : System} → Step s u → Inv s → Inv u
unfolding Keys
Step-Inv {s} (pick c sched r idle e) h =
    let k =
      next-Keys s.sched sched r (sent s) (next-Advances c s.sched sched r e)
        (h.ordered, h.bounded) in
    let same : sent s ++ r ∷ [] ≡ s.taken ++ (s.queue ++ r ∷ []) =
      rw (idle, append-nil, append_assoc) in
    let k' = subst (Keys sched.last) same k in
    record { ordered = k'.0; bounded = k'.1; fits = h.fits }
Step-Inv {s} (send r full room) h =
    let same : sent s ≡ s.taken ++ ((s.queue ++ r ∷ []) ++ []) = rw (full, append-nil) in
    let k = subst (Keys s.sched.last) same (h.ordered, h.bounded) in
    record { ordered = k.0; bounded = k.1; fits = omega (arith, length-append s.queue (r ∷ [])) }
Step-Inv {s} (receive r q e) h =
    let same : sent s ≡ (s.taken ++ r ∷ []) ++ (q ++ waiting s.sending) = rw (e, append_assoc) in
    let k = subst (Keys s.sched.last) same (h.ordered, h.bounded) in
    record { ordered = k.0; bounded = k.1; fits = omega (arith, ap length e) }
Step-Inv (write db) h = record { ordered = h.ordered; bounded = h.bounded; fits = h.fits }

Reach-Inv : {s u : System} → Reach s u → Inv s → Inv u
Reach-Inv start h = h
Reach-Inv (after r st) h = Step-Inv st (Reach-Inv r h)

fresh-Inv : (db : Db) → Inv (fresh db)
fresh-Inv db = record { ordered = tt; bounded = refl; fits = omega arith }

-- Whatever others write to the tables and however the goroutines interleave, the tasks that a
-- scheduler has handed out since it started were handed out in ascending order of their keys, so
-- none of them twice, and its channel never holds more than 100 runners.
pub Reach-Ascending :
    (db : Db) (s : System)
    → Reach (fresh db) s
    → Ascending (task_ids (sent s)) × (length s.queue ≤ capacity)
Reach-Ascending db s r = let h = Reach-Inv r (fresh-Inv db) in (h.ordered, h.fits)
