-- ===== src/Mirror/Queue/Examples.antt =====
-- A sorted set as a list, one mirror that failed and one whose LFS files are missing, and the
-- theorems at them.
use csghub_server.Mirror.Queue.Started.{enqueue_mirror_tasks-again, enqueue_mirror_tasks-handed}
use csghub_server.Mirror.Queue.{
  dispatcher, update, push, enqueue_all, enqueue_lfs, enqueued, enqueue_mirror_tasks, SortedSet,
  Answers, MirrorRow, Queues,
}
use csghub_server.Prelude.{
  suc, some, none, Bool, true, false, List, [], ◌∷◌, Option, ap, ◌+◌, subst, ==_iff, text_eq_iff,
  &&_true, ==_refl, arith, length, refl, In-to_keep, inr, there, inl, Bool-cases, here, ltb, not,
  text_eq, In, keep, ℕ, ◌==◌, ◌&&◌, ◌≡◌, ◌⊎◌, ◌≤◌, if◌then◌else◌,
}
use csghub_server.Mirror.Queue.Enqueued.{IsKeyOf, Queued}
use csghub_server.Mirror.Sync.{MirrorStatus, failed, repo_synced, MirrorTask}

abbrev same_task : MirrorTask → MirrorTask → Bool
same_task t u =
    (t.mirror_id == u.mirror_id && t.priority == u.priority)
    && (t.created_at == u.created_at && text_eq t.mirror_token u.mirror_token)

same_task→eq : (t u : MirrorTask) → same_task t u ≡ true → t ≡ u
same_task→eq t u h =
    let (ids, times) = &&_true _ _ h in
    let (e1, e2) = &&_true _ _ ids in
    let (e3, e4) = &&_true _ _ times in
    let p1 = (==_iff t.mirror_id u.mirror_id).0 e1 in
    let p2 = (==_iff t.priority u.priority).0 e2 in
    let p3 = (==_iff t.created_at u.created_at).0 e3 in
    let p4 = (text_eq_iff t.mirror_token u.mirror_token).0 e4 in
    λ i. record { mirror_id = p1 i; priority = p2 i; created_at = p3 i; mirror_token = p4 i }

same_task_refl : (t : MirrorTask) → same_task t t ≡ true
same_task_refl t =
    rw
      (
        ==_refl t.mirror_id,
        ==_refl t.priority,
        ==_refl t.created_at,
        (text_eq_iff t.mirror_token t.mirror_token).1 refl,
      )
      refl

abbrev Entries : Type 0
Entries = List (ℕ × MirrorTask)

-- All entries but those of a task
unfoldable without : MirrorTask → Entries → Entries
without t = keep (λ e. not (same_task e.1 t))

In-without :
    (t : MirrorTask) (es : Entries) (u : MirrorTask) (k : ℕ)
    → In (k, u) es
    → (u ≡ t) ⊎ In (k, u) (without t es)
unfolding without
In-without t es u k m = elim (Bool-cases (same_task u t)) [
  | inl same ↦ inl (same_task→eq u t same)
  | inr other ↦ inr (In-to_keep (λ e. not (same_task e.1 t)) es m (rw other refl))
]

-- The entry of the greatest score
unfoldable greatest : ℕ × MirrorTask → Entries → ℕ × MirrorTask
greatest e [] = e
greatest e (x ∷ es) = let g = greatest x es in if ltb e.0 g.0 then g else e

greatest-In : (e : ℕ × MirrorTask) (es : Entries) → In (greatest e es) (e ∷ es)
unfolding greatest
greatest-In e [] = here
greatest-In e (x ∷ es) = go (ltb e.0 (greatest x es).0) (there (greatest-In x es))
  where
    go :
        (b : Bool)
        → In (greatest x es) (e ∷ (x ∷ es))
        → In (if b then greatest x es else e) (e ∷ (x ∷ es))
    go true m = m
    go false m = here

greatest_le :
    (e : ℕ × MirrorTask) (es : Entries) {x : ℕ × MirrorTask}
    → In x (e ∷ es)
    → x.0 ≤ (greatest e es).0
unfolding greatest
greatest_le e [] here = omega arith
greatest_le e [] (there m) = elim m [ ]
greatest_le e (y ∷ es) here = ground arith
greatest_le e (y ∷ es) (there m) = ground (arith, greatest_le y es m)

length-without_le : (t : MirrorTask) (es : Entries) → length (without t es) ≤ length es
unfolding without
length-without_le t [] = omega arith
length-without_le t (e ∷ es) = ground (arith, length-without_le t es)

length-without :
    (t : MirrorTask) (es : Entries) (n : ℕ) → In (n, t) es → suc (length (without t es)) ≤ length es
unfolding without
length-without t [] n m = elim m [ ]
length-without t (e ∷ es) n here = rw (same_task_refl t) (omega (arith, length-without_le t es))
length-without t (e ∷ es) n (there m) = ground (arith, length-without t es n m)

unfoldable pop_greatest : Entries → Option (MirrorTask × Entries)
pop_greatest [] = none
pop_greatest (e ∷ es) = let t = (greatest e es).1 in some (t, without t (e ∷ es))

-- What a task that was popped says of the list before
pop_greatest-some :
    (es rest : Entries) (t : MirrorTask)
    → pop_greatest es ≡ some (t, rest)
    → (n : ℕ) × In (n, t) es
      × (rest ≡ without t es)
      × ((u : MirrorTask) (k : ℕ) → In (k, u) es → k ≤ n)
unfolding pop_greatest
pop_greatest-some [] rest t h = absurd (cc (h))
pop_greatest-some (e ∷ es) rest t h =
    let g = greatest e es in
    let same : g.1 ≡ t = cc (h) in
    let left : rest ≡ without g.1 (e ∷ es) = cc (h) in
    (
      g.0,
      subst (λ v. In (g.0, v) (e ∷ es)) same (greatest-In e es),
      cc (left, ap (λ v. without v (e ∷ es)) same),
      λ u k m. greatest_le e es m,
    )

pop_greatest-none :
    (es : Entries) → pop_greatest es ≡ none → (u : MirrorTask) (k : ℕ) → ¬ In (k, u) es
unfolding pop_greatest
pop_greatest-none [] h u k m = elim m [ ]
pop_greatest-none (e ∷ es) h u k m = absurd (cc (h))

abbrev in_list : SortedSet
in_list = record {
  Set = Entries;
  Scored = λ es t n. In (n, t) es;
  card = length;
  zadd = λ n t es. (n, t) ∷ without t es;
  zpopmax = pop_greatest;
  zadd-Scored = λ n t es. here;
  zadd-other =
      λ n t es u k m. elim (In-without t es u k m) [ inl e ↦ inl e | inr i ↦ inr (there i) ];
  zpopmax-none = pop_greatest-none;
  zpopmax-greatest =
      λ es rest t h. let (n, m, e, most) = pop_greatest-some es rest t h in (n, m, most);
  zpopmax-other = λ es rest t h u k m.
      let (n, i, e, most) = pop_greatest-some es rest t h in rw e (In-without t es u k m);
  zpopmax-card = λ es rest t h.
      let (n, i, e, most) = pop_greatest-some es rest t h in rw e (length-without t es n i);
}

abbrev row : ℕ → ℕ → MirrorStatus → MirrorRow
row i p s = record {
  mirror = record { id = i; priority = p; status = s; last_message = []; created_at = 100 + i };
  next_execution = none;
}

abbrev broken : MirrorRow
broken = row 1 3 failed

abbrev lacking : MirrorRow
lacking = row 2 1 repo_synced

abbrev queues : Queues in_list
queues = record { repo_queue = []; lfs_queue = []; rows = broken ∷ lacking ∷ [] }

abbrev all_answer : Answers
all_answer = record { reads_repo = true; reads_lfs = true; adds = λ i. true; updates = λ i. true }

enqueue_mirror_tasks-handed_example : In (enqueued broken) (
    dispatcher in_list
      (false ∷ true ∷ [])
      (enqueue_mirror_tasks in_list all_answer 500 queues).repo_queue)
unfolding enqueue_mirror_tasks enqueue_lfs enqueue_all push update without
enqueue_mirror_tasks-handed_example =
    enqueue_mirror_tasks-handed in_list all_answer 500 queues broken (false ∷ true ∷ []) refl refl
      here refl (omega arith)

key : IsKeyOf lacking queues.rows
key x here h = absurd (omega (arith, h))
key x (there here) h = refl
key x (there (there m)) h = elim m [ ]

enqueue_mirror_tasks-again_example :
    Queued in_list (enqueue_mirror_tasks in_list all_answer 500 queues).lfs_queue (enqueued lacking)
    × Queued in_list
        (enqueue_mirror_tasks in_list all_answer 900
          (enqueue_mirror_tasks in_list all_answer 500 queues)).repo_queue
        (enqueued lacking)
enqueue_mirror_tasks-again_example =
    enqueue_mirror_tasks-again in_list all_answer 500 queues lacking key refl 900 refl refl refl
      refl (there here) refl
