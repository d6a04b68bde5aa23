-- ===== src/Mirror/Queue/Handed.antt =====
-- What `EnqueueMirrorTasks` puts into the queues, and that the dispatcher hands it all over.
use csghub_server.Prelude.{
  arith, there, here, inr, inl, Option-cases, In, ℕ, ◌≤◌, Bool, true, false, List, [], ◌∷◌,
}
use csghub_server.Mirror.Queue.{MirrorTask, suc, dispatcher, pop, SortedSet}
use csghub_server.Mirror.Sync.{MirrorTask}

-- The rounds in which Redis answers
abbrev pub answered : List Bool → ℕ
answered [] = 0
answered (true ∷ rounds) = suc (answered rounds)
answered (false ∷ rounds) = answered rounds

module _ (z : SortedSet) where
  open z use {Scored, card}

  -- If Redis answers in at least as many rounds as the queue has tasks, each of its tasks is
  -- handed to the workers.
  pub dispatcher-drains :
      (rounds : List Bool) (s : z.Set) (t : MirrorTask) (n : ℕ)
      → Scored s t n
      → card s ≤ answered rounds
      → In t (dispatcher z rounds s)
  unfolding dispatcher pop
  dispatcher-drains [] s t n i b = elim (Option-cases (z.zpopmax s)) [
    | inl e ↦ absurd (z.zpopmax-none s e t n i)
    | inr ((u, s'), e) ↦ absurd (omega (arith, b, z.zpopmax-card s s' u e))
  ]
  dispatcher-drains (false ∷ rounds) s t n i b = dispatcher-drains rounds s t n i b
  dispatcher-drains (true ∷ rounds) s t n i b = elim (Option-cases (z.zpopmax s)) [
    | inl e ↦ absurd (z.zpopmax-none s e t n i)
    | inr ((u, s'), e) ↦
        rw (dispatcher, pop, e)
          (elim (z.zpopmax-other s s' u e t n i) [
            | inl same ↦ rw same here
            | inr left ↦
                there
                  (dispatcher-drains rounds s' t n left (omega (arith, b, z.zpopmax-card s s' u e)))
          ])
  ]
