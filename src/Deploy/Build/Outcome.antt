-- ===== src/Deploy/Build/Outcome.antt =====
-- How a build ends, and what it leaves in the tables.
use csghub_server.Deploy.Build.{
  codes, is_fail, build_success, build_failed, succeeded, polling, Ended, Held, is_success,
  StatusAnswer, poll_build,
}
use csghub_server.Prelude.{
  codes, Bool-cases, zero, suc, ◌≡◌, refl, ◌≢◌, inl, inr, Bool, true, false, Option, none, some,
  List, [], ◌∷◌, map, arith, In, here, there, if◌then◌else◌, ◌||◌, pos,
}
use csghub_server.Deploy.Build.Task
use csghub_server.Deploy.Repo.{succeeded, polling, Ended, Held}
use csghub_server.Deploy.Store.{write_row, TaskRow, TaskColumn}

-- An answer of `Status` that ends the loop.
abbrev pub is_conclusive : StatusAnswer → Bool
is_conclusive StatusAnswer.unreachable = false
is_conclusive (StatusAnswer.answered code image stored) = is_success code || is_fail code

-- What an answer that ends the loop makes of what is held.
abbrev pub conclude : StatusAnswer → Held → Held
conclude StatusAnswer.unreachable h = h
conclude (StatusAnswer.answered code image stored) h =
    if is_success code then build_success stored image h else build_failed stored h

-- The first answer that ends the loop.
abbrev pub conclusion : List StatusAnswer → Option StatusAnswer
conclusion [] = none
conclusion (a ∷ as') = if is_conclusive a then some a else conclusion as'

abbrev pub outcome : Option StatusAnswer → Held → Held × Ended
outcome none h = (h, polling)
outcome (some a) h = (conclude a h, succeeded)

-- The polling loop ends by the first answer that reports success or failure, with `nil` in both
-- cases, and without one it goes on and changes nothing: answers that cannot be had, that report
-- progress or that have an unknown code do not count.
pub poll_build-outcome :
    (as' : List StatusAnswer) (h : Held) → poll_build as' h ≡ outcome (conclusion as') h
unfolding poll_build
poll_build-outcome [] h = refl
poll_build-outcome (StatusAnswer.unreachable ∷ as') h = poll_build-outcome as' h
poll_build-outcome (StatusAnswer.answered (pos zero) image stored ∷ as') h = refl
poll_build-outcome (StatusAnswer.answered (pos (suc zero)) image stored ∷ as') h = refl
poll_build-outcome (StatusAnswer.answered code image stored ∷ as') h =
    ground (arith, poll_build-outcome as' h)

-- Rows with other keys are not touched by a transaction that writes one task.
write_row-other : (cs : List TaskColumn) (t u : TaskRow) → u.id ≢ t.id → write_row cs (t ∷ []) u ≡ u
write_row-other cs t u ne = ground arith

In-write_row :
    (cs : List TaskColumn) (t u : TaskRow) (ts : List TaskRow)
    → u.id ≢ t.id
    → In u ts
    → In u (map (write_row cs (t ∷ [])) ts)
In-write_row cs t u [] ne m = elim m [ ]
In-write_row cs t u (x ∷ ts) ne here = rw (write_row-other cs t u ne) here
In-write_row cs t u (x ∷ ts) ne (there m) = there (In-write_row cs t u ts ne m)

succeed-ne-failed : Task.build_succeed ≢ Task.build_failed
succeed-ne-failed e = ground arith

build_failed-keeps :
    (stored : Bool) (h : Held) (u : TaskRow)
    → u.id ≢ h.task.id
    → In u h.db.tasks
    → In u (build_failed stored h).db.tasks
unfolding build_failed
build_failed-keeps true h u ne m =
    In-write_row (TaskColumn.status ∷ TaskColumn.message ∷ [])
      (record h.task { status = Task.build_failed; message = codes "build failed" }) u h.db.tasks ne
      m
build_failed-keeps false h u ne m = m

-- When a build has failed, `Run` returns `nil` all the same, and every other row of the task table
-- stays as it was: whatever was answered, if the task ends as failed, then the run ended with no
-- error, and each row with another key is still in the table, unchanged. So the scheduler is given
-- no error by which it would cancel the run task of the deploy.
pub poll_build-failed_silent :
    (as' : List StatusAnswer) (h : Held) (u : TaskRow)
    → h.task.status ≢ Task.build_failed
    → (poll_build as' h).0.task.status ≡ Task.build_failed
    → u.id ≢ h.task.id
    → In u h.db.tasks
    → ((poll_build as' h).1 ≡ succeeded) × In u (poll_build as' h).0.db.tasks
unfolding build_success build_failed
poll_build-failed_silent as' h u before failed' ne m =
    rw poll_build-outcome (by_conclusion (conclusion as') (rw poll_build-outcome at failed'))
  where
    by_conclusion :
        (a : Option StatusAnswer)
        → (outcome a h).0.task.status ≡ Task.build_failed
        → ((outcome a h).1 ≡ succeeded) × In u (outcome a h).0.db.tasks
    by_conclusion none f = absurd (before f)
    by_conclusion (some StatusAnswer.unreachable) f = absurd (before f)
    by_conclusion (some (StatusAnswer.answered code image stored)) f =
        elim (Bool-cases (is_success code)) [
          | inl s ↦ absurd (succeed-ne-failed (rw s at f))
          | inr s ↦ (refl, rw s (build_failed-keeps stored h u ne m))
        ]
