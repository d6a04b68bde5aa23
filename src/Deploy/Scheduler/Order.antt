-- ===== src/Deploy/Scheduler/Order.antt =====
-- Which task `next` picks.
use csghub_server.Prelude.{
  ◌≤◌, Bool-cases, ◌<◌, subst, ◌∙◌, sym, Option-cases, Fetched, fetched, ℕ, ◌≡◌, refl, ◌≢◌, ◌⊎◌,
  inl, inr, Bool, true, false, Option, none, some, arith, All, found, no_rows, failed,
}
use csghub_server.Deploy.Scheduler.{
  cancel_row, is_sleep, RepoInfo, watch_id, with_task, Fetched, repo_of, with_repo, DeployTask,
  Deploy, Db, sleep_task, Runner, get_new_task_after, Scheduler, get_new_task_first, Calls, next,
  query_next,
}
use csghub_server.Deploy.Repo.{RepoInfo}
use csghub_server.Deploy.Store.Queries.{get_new-IsFirst, get_new-no_rows, IsFirst}
use csghub_server.Deploy.Store.{
  deploy_by_id, DeployTask, Deploy, Db, get_new_task_after, is_new_after, get_new_task_first,
  is_unfinished, TaskRow,
}

-- What is left to do for a scheduler: unfinished tasks, after the last one that it picked.
abbrev pub is_due : Option TaskRow → TaskRow → Bool
is_due none u = is_unfinished u
is_due (some t) u = is_new_after t.id u

-- What `next` may do: nothing is due and it sends a sleep, or the first task due is taken with its
-- deploy, and handled as `with_repo` does.
pub data Pick (c : Calls) (s : Scheduler) : Scheduler → Runner → Type 0 where
  rest : All (λ u. is_due s.last u ≡ false) s.db.tasks → Pick c s s sleep_task
  take :
      (t : TaskRow) (d : Deploy)
      → IsFirst (is_due s.last) s.db.tasks t
      → deploy_by_id t.deploy_id s.db.deploys ≡ some d
      → {s' : Scheduler} {r : Runner} → (s', r) ≡ with_repo c t d (repo_of c d) s
      → Pick c s s' r

query_found :
    (last : Option TaskRow) (db : Db) (t : DeployTask)
    → query_next true last db ≡ found t
    → IsFirst (is_due last) db.tasks t.row × (t.deploy ≡ deploy_by_id t.row.deploy_id db.deploys)
unfolding query_next get_new_task_first get_new_task_after
query_found none db t h = get_new-IsFirst db.deploys is_unfinished db.tasks t h
query_found (some l) db t h = get_new-IsFirst db.deploys (is_new_after l.id) db.tasks t h

query_no_rows :
    (last : Option TaskRow) (db : Db)
    → query_next true last db ≡ no_rows
    → All (λ u. is_due last u ≡ false) db.tasks
unfolding query_next get_new_task_first get_new_task_after
query_no_rows none db h = get_new-no_rows db.deploys is_unfinished db.tasks h
query_no_rows (some l) db h = get_new-no_rows db.deploys (is_new_after l.id) db.tasks h

fetched-ne-failed : (o : Option DeployTask) → fetched o ≢ failed
fetched-ne-failed none h = cc
fetched-ne-failed (some t) h = cc

query_next-ne-failed : (last : Option TaskRow) (db : Db) → query_next true last db ≢ failed
unfolding query_next get_new_task_first get_new_task_after
query_next-ne-failed none db h = fetched-ne-failed _ h
query_next-ne-failed (some l) db h = fetched-ne-failed _ h

pick_of :
    (c : Calls) (s s' : Scheduler) (r : Runner) (q : Fetched DeployTask)
    → query_next true s.last s.db ≡ q
    → with_task c q s ≡ some (s', r)
    → Pick c s s' r
pick_of c s s' r (found t) e h =
    let (first, loaded) = query_found s.last s.db t e in
    elim (Option-cases t.deploy) [
      | inl nil ↦ absurd (cc (rw nil at h))
      | inr (d, there') ↦
          let h' : some (with_repo c t.row d (repo_of c d) s) ≡ some (s', r) = rw there' at h in
          take t.row d first (sym loaded ∙ there') (cc)
    ]
pick_of c s s' r no_rows e h =
    let same : ◌≡◌ {A = Scheduler × Runner} (s, sleep_task) (s', r) = cc in
    subst (λ p. Pick c s p.0 p.1) same (rest (query_no_rows s.last s.db e))
pick_of c s s' r failed e h = absurd (query_next-ne-failed s.last s.db e)

-- Whatever the stores answer, if the query for a task goes through and `next` does not panic, then
-- either nothing is due, and it sends a sleep and changes nothing, or it takes the task due with
-- the least key, with the deploy that the task names, and goes on with the repository of that deploy.
pub next-Pick :
    (c : Calls) (s s' : Scheduler) (r : Runner)
    → c.query_ok ≡ true
    → next c s ≡ some (s', r)
    → Pick c s s' r
unfolding next
next-Pick c s s' r ok h =
    pick_of c s s' r (query_next true s.last s.db) refl
      (subst (λ b. with_task c (query_next b s.last s.db) s ≡ some (s', r)) ok h)

-- Every task so far, the last one included, has a lesser key than `n`.
abbrev pub Before : Option TaskRow → ℕ → Type 0
Before none n = Unit
Before (some t) n = t.id < n

query_down :
    (c : Calls) (s s' : Scheduler) (r : Runner)
    → c.query_ok ≡ false
    → next c s ≡ some (s', r)
    → (r ≡ sleep_task)
      × ((s'.last ≡ s.last) ⊎ ((t : TaskRow) × (s'.last ≡ some t) × Before s.last t.id))
unfolding next query_next
query_down c s s' r down h =
    let h' = subst (λ b. with_task c (query_next b s.last s.db) s ≡ some (s', r)) down h in
    (cc, inl (ground arith))

-- A call of `next` sends a sleep and does not go back, or takes a later task.
abbrev pub Advances : Scheduler → Scheduler → Runner → Type 0
Advances s s' r =
    ((r ≡ sleep_task)
      × ((s'.last ≡ s.last) ⊎ ((t : TaskRow) × (s'.last ≡ some t) × Before s.last t.id)))
    ⊎ ((t : TaskRow) × (s'.last ≡ some t)
        × (watch_id r ≡ t.id)
        × (is_sleep r ≡ false)
        × Before s.last t.id)

due-Before : (last : Option TaskRow) (t : TaskRow) → is_due last t ≡ true → Before last t.id
due-Before none t h = tt
due-Before (some l) t h = ground arith

with_repo-Advances :
    (c : Calls) (t : TaskRow) (d : Deploy) (q : Fetched RepoInfo) (s s' : Scheduler) (r : Runner)
    → Before s.last t.id
    → (s', r) ≡ with_repo c t d q s
    → Advances s s' r
unfolding with_repo
with_repo-Advances c t d (found p) s s' r b e = inr (t, cc, ground arith, ground arith, b)
with_repo-Advances c t d no_rows s s' r b e = inl (cc, inr (cancel_row t, cc, b'))
  where
    b' : Before s.last (cancel_row t).id
    b' = b
with_repo-Advances c t d failed s s' r b e = inl (cc, inr (t, cc, b))

-- The same of the sends of a sleep, whether the query fails or finds nothing.
Pick-Advances : (c : Calls) {s s' : Scheduler} {r : Runner} → Pick c s s' r → Advances s s' r
Pick-Advances c (rest none') = inl (refl, inl refl)
Pick-Advances c {s} {s'} {r} (take t d first there' e) =
    with_repo-Advances c t d (repo_of c d) s s' r (due-Before s.last t first.passes) e

pub next-Advances :
    (c : Calls) (s s' : Scheduler) (r : Runner) → next c s ≡ some (s', r) → Advances s s' r
next-Advances c s s' r h = elim (Bool-cases c.query_ok) [
  | inl ok ↦ Pick-Advances c (next-Pick c s s' r ok h)
  | inr down ↦ inl (query_down c s s' r down h)
]

-- When the store of spaces or models fails with an error other than "no rows", `next` sends a
-- sleep and writes nothing, but the task counts as picked: it is not due any more, although it is
-- still unfinished, and neither is any task with a lesser key.
pub next-repo_failed :
    (c : Calls) (s : Scheduler) (t : DeployTask) (d : Deploy)
    → c.query_ok ≡ true
    → query_next true s.last s.db ≡ found t
    → t.deploy ≡ some d
    → repo_of c d ≡ failed
    → (next c s ≡ some (record s { last = some t.row }, sleep_task))
      × ((u : TaskRow) → u.id ≤ t.row.id → is_due (some t.row) u ≡ false)
unfolding next with_repo
next-repo_failed c s t d ok q loaded down = (
  subst
      (λ b.
        with_task c (query_next b s.last s.db) s
        ≡ some (record s { last = some t.row }, sleep_task))
      (sym ok) (rw (q, loaded, down)),
  λ u le. ground arith,
)
