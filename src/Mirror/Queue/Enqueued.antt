-- ===== src/Mirror/Queue/Enqueued.antt =====
-- The rows and the tasks after the loop of `EnqueueMirrorTasks`, mirror/prioriy_queue.go.
use csghub_server.Prelude.{
  refl, sym, here, ==_iff, inr, there, Bool-cases, In, inl, ℕ, ◌==◌, Bool, true, false, List, [],
  ◌∷◌, if◌then◌else◌, ◌≡◌, ◌⊎◌,
}
use csghub_server.Mirror.Queue.{
  push, SortedSet, update, enqueue_all, MirrorRow, Answers, enqueued, set_waiting, score, stamped,
}
use csghub_server.Mirror.Sync.{MirrorTask}

-- The rows with the key of `r` that stand in a list are `r`.
abbrev pub IsKeyOf : MirrorRow → List MirrorRow → Type 0
IsKeyOf r rows = (x : MirrorRow) → In x rows → x.mirror.id ≡ r.mirror.id → x ≡ r

-- Some row has the key `i`.
abbrev pub HasId : ℕ → List MirrorRow → Type 0
HasId i rows = (x : MirrorRow) × In x rows × (x.mirror.id ≡ i)

update-In_other :
    (r x : MirrorRow) (rows : List MirrorRow)
    → In x rows
    → (x.mirror.id == r.mirror.id) ≡ false
    → In x (update r rows)
unfolding update
update-In_other r x [] m h = elim m [ ]
update-In_other r x (y ∷ rows) here h = rw h here
update-In_other r x (y ∷ rows) (there m) h = there (update-In_other r x rows m h)

update-In_own :
    (r x : MirrorRow) (rows : List MirrorRow)
    → In x rows
    → x.mirror.id ≡ r.mirror.id
    → In r (update r rows)
unfolding update
update-In_own r x [] m h = elim m [ ]
update-In_own r x (y ∷ rows) here h = rw ((==_iff x.mirror.id r.mirror.id).1 h) here
update-In_own r x (y ∷ rows) (there m) h = there (update-In_own r x rows m h)

-- A member of a list whose first element may have been replaced
In-replaced :
    (r x y : MirrorRow) (same : Bool) (rows new_rows : List MirrorRow)
    → (In y new_rows → In y rows ⊎ (y ≡ r))
    → In y ((if same then r else x) ∷ new_rows)
    → In y (x ∷ rows) ⊎ (y ≡ r)
In-replaced r x y true rows new_rows h here = inr refl
In-replaced r x y false rows new_rows h here = inl here
In-replaced r x y same rows new_rows h (there i) = elim (h i) [
  | inl old ↦ inl (there old)
  | inr new ↦ inr new
]

update-rows : (r y : MirrorRow) (rows : List MirrorRow) → In y (update r rows) → In y rows ⊎ (y ≡ r)
unfolding update
update-rows r y [] m = elim m [ ]
update-rows r y (x ∷ rows) m =
    In-replaced r x y (x.mirror.id == r.mirror.id) rows (update r rows) (update-rows r y rows) m

write-rows :
    (x y : MirrorRow) (writes : Bool) (rows : List MirrorRow)
    → In y (if writes then update (set_waiting x) rows else rows)
    → In y rows ⊎ (y ≡ set_waiting x)
write-rows x y true rows m = update-rows (set_waiting x) y rows m
write-rows x y false rows m = inl m

update-HasId :
    (r : MirrorRow) (i : ℕ) (rows : List MirrorRow) → HasId i rows → HasId i (update r rows)
update-HasId r i rows (x, m, h) = elim (Bool-cases (x.mirror.id == r.mirror.id)) [
  | inl same ↦ (
    r,
    update-In_own r x rows m ((==_iff x.mirror.id r.mirror.id).0 same),
    cc (h, (==_iff x.mirror.id r.mirror.id).0 same),
  )
  | inr other ↦ (x, update-In_other r x rows m other, h)
]

-- A write of a row that is `r` if it has its key
write-stays :
    (r x : MirrorRow) (writes : Bool) (rows : List MirrorRow)
    → (x.mirror.id ≡ r.mirror.id → x ≡ r)
    → In (set_waiting r) rows
    → In (set_waiting r) (if writes then update (set_waiting x) rows else rows)
write-stays r x false rows key m = m
write-stays r x true rows key m = elim (Bool-cases (r.mirror.id == x.mirror.id)) [
  | inl same ↦
      (let e = (==_iff r.mirror.id x.mirror.id).0 same in
        rw (key (sym e)) (update-In_own (set_waiting r) (set_waiting r) rows m refl))
  | inr other ↦ update-In_other (set_waiting x) (set_waiting r) rows m other
]

write-HasId :
    (x : MirrorRow) (writes : Bool) (i : ℕ) (rows : List MirrorRow)
    → HasId i rows
    → HasId i (if writes then update (set_waiting x) rows else rows)
write-HasId x false i rows h = h
write-HasId x true i rows h = update-HasId (set_waiting x) i rows h

-- The task is in the queue, with its score.
abbrev pub Queued : (z : SortedSet) → z.Set → MirrorTask → Type 0
Queued z s t = z.Scored s t (score t)

module _ (z : SortedSet) (a : Answers) (now : ℕ) where
  push-Queued : (t : MirrorTask) (s : z.Set) → Queued z (push z true now t s) (stamped now t)
  unfolding push
  push-Queued t s = z.zadd-Scored (score (stamped now t)) (stamped now t) s

  push-keeps :
      (b : Bool) (t : MirrorTask) (s : z.Set) (u : MirrorTask)
      → Queued z s u
      → Queued z (push z b now t s) u
  unfolding push
  push-keeps false t s u h = h
  push-keeps true t s u h =
      elim (z.zadd-other (score (stamped now t)) (stamped now t) s u (score u) h) [
        | inl same ↦ rw same (push-Queued t s)
        | inr left ↦ left
      ]

  pub enqueue_all-keeps :
      (rs : List MirrorRow) (w : z.Set × List MirrorRow) (u : MirrorTask)
      → Queued z w.0 u
      → Queued z (enqueue_all z a now rs w).0 u
  unfolding enqueue_all
  enqueue_all-keeps [] w u h = h
  enqueue_all-keeps (r ∷ rs) w u h =
      enqueue_all-keeps rs _ u (push-keeps (a.adds r.mirror.id) (enqueued r) w.0 u h)

  -- The task of each row for which ZADD succeeds is in the queue.
  pub enqueue_all-Queued :
      (rs : List MirrorRow) (w : z.Set × List MirrorRow) (r : MirrorRow)
      → In r rs
      → a.adds r.mirror.id ≡ true
      → Queued z (enqueue_all z a now rs w).0 (stamped now (enqueued r))
  unfolding enqueue_all
  enqueue_all-Queued [] w r m h = elim m [ ]
  enqueue_all-Queued (x ∷ rs) w r here h =
      enqueue_all-keeps rs _ (stamped now (enqueued r)) (rw h (push-Queued (enqueued r) w.0))
  enqueue_all-Queued (x ∷ rs) w r (there m) h = enqueue_all-Queued rs _ r m h

  -- The row stays waiting, once it is, as only rows of its key are written.
  enqueue_all-stays :
      (r : MirrorRow) (rs : List MirrorRow) (w : z.Set × List MirrorRow)
      → IsKeyOf r rs
      → In (set_waiting r) w.1
      → In (set_waiting r) (enqueue_all z a now rs w).1
  unfolding enqueue_all
  enqueue_all-stays r [] w key m = m
  enqueue_all-stays r (x ∷ rs) w key m =
      enqueue_all-stays r rs _ (λ y i. key y (there i))
        (write-stays r x (a.updates x.mirror.id) w.1 (key x here) m)

  -- Each row that is written is waiting.
  pub enqueue_all-waits :
      (r : MirrorRow) (rs : List MirrorRow) (w : z.Set × List MirrorRow)
      → IsKeyOf r rs
      → HasId r.mirror.id w.1
      → In r rs
      → a.updates r.mirror.id ≡ true
      → In (set_waiting r) (enqueue_all z a now rs w).1
  unfolding enqueue_all
  enqueue_all-waits r [] w key old m h = elim m [ ]
  enqueue_all-waits r (x ∷ rs) w key (y, i, e) here h =
      enqueue_all-stays r rs _ (λ v j. key v (there j))
        (rw h (update-In_own (set_waiting r) y w.1 i e))
  enqueue_all-waits r (x ∷ rs) w key old (there m) h =
      enqueue_all-waits r rs _ (λ v j. key v (there j))
        (write-HasId x (a.updates x.mirror.id) r.mirror.id w.1 old) m h

  -- A row that no row of the loop has the key of is left alone.
  pub enqueue_all-other :
      (r : MirrorRow) (rs : List MirrorRow) (w : z.Set × List MirrorRow)
      → ((x : MirrorRow) → In x rs → (r.mirror.id == x.mirror.id) ≡ false)
      → In r w.1
      → In r (enqueue_all z a now rs w).1
  unfolding enqueue_all
  enqueue_all-other r [] w none_of m = m
  enqueue_all-other r (x ∷ rs) w none_of m =
      enqueue_all-other r rs _ (λ v j. none_of v (there j))
        (elim (Bool-cases (a.updates x.mirror.id)) [
          | inl writes ↦ rw writes (update-In_other (set_waiting x) r w.1 m (none_of x here))
          | inr fails ↦ rw fails m
        ])

  -- The rows are those of before and those that the loop has written.
  pub enqueue_all-rows :
      (rs : List MirrorRow) (w : z.Set × List MirrorRow) (y : MirrorRow)
      → In y (enqueue_all z a now rs w).1
      → In y w.1 ⊎ ((x : MirrorRow) × In x rs × (y ≡ set_waiting x))
  unfolding enqueue_all
  enqueue_all-rows [] w y m = inl m
  enqueue_all-rows (x ∷ rs) w y m = elim (enqueue_all-rows rs _ y m) [
    | inl old ↦ elim (write-rows x y (a.updates x.mirror.id) w.1 old) [
      | inl older ↦ inl older
      | inr new ↦ inr (x, here, new)
    ]
    | inr (v, i, new) ↦ inr (v, there i, new)
  ]
