-- ===== src/Deploy/Run/Ends.antt =====
-- When the loop of a run ends, and when it cannot.
use csghub_server.Deploy.Repo.{panicked, path_field, refused, made, Made, Ended, RepoInfo, polling}
use csghub_server.Deploy.Request.{make_deploy_request, RunRequest, Formats, DeployConfig}
use csghub_server.Deploy.Run.{
  Text, after_turn, watch_status, turn, run_deploy, limit_time, on_answer, deploy_success,
  deploy_in_progress, polling, end, on_status, Watch, again, Round, RunStatus, Turn,
}
use csghub_server.Prelude.{
  Text, Bool-cases, any, ◌*◌, ◌-◌, ◌||◌, ℤ, ℕ, ◌≡◌, refl, ◌≢◌, ◌⊎◌, inl, inr, Bool, true, false,
  Option, none, some, List, [], ◌∷◌, arith, All, if◌then◌else◌, ltb, leb, ◌==◌, int_eq, not, pos,
}
use csghub_server.Deploy.Run.Task
use csghub_server.Deploy.Run.Status

-- Task statuses in which the loop asks for the status: the two that a round leaves behind.
abbrev pub IsWatched : ℤ → Type 0
IsWatched s = (s ≡ pos 1) ⊎ (s ≡ pos 3)

-- What the loop compares a status with, and does not change while it watches.
pub record Terms : Type 0 where
  pub deploy_id : ℕ
  pub since : ℕ
  pub limit : ℕ

-- A status that ends the loop: the deploy is superseded, has been deploying for too long, or has
-- a code other than deploying and startup.
abbrev pub is_final : Terms → ℕ → RunStatus → Bool
is_final m now s =
    ltb m.deploy_id s.deploy_id
    || (if s.code == Status.deploying
        then leb (60 * m.limit) (now - m.since)
        else not (s.code == Status.startup))

abbrev pub is_final_answer : Terms → ℕ → Option RunStatus → Bool
is_final_answer m now none = false
is_final_answer m now (some s) = is_final m now s

abbrev pub is_final_round : Terms → Round → Bool
is_final_round m o = is_final_answer m o.now o.status

pub record Watches (cfg : DeployConfig) (m : Terms) (w : Watch) : Type 0 where
  pub watched : IsWatched w.held.task.status
  pub same_deploy : w.held.task.deploy_id ≡ m.deploy_id
  pub same_since : w.since ≡ m.since
  pub same_limit : limit_time cfg w.held.deploy ≡ m.limit

-- After a round the loop still watches, on the same terms, or it is over.
abbrev GoesOn : DeployConfig → Terms → Turn → Type 0
GoesOn cfg m (again w) = Watches cfg m w
GoesOn cfg m (end w e) = e ≢ polling

abbrev IsOver : Turn → Type 0
IsOver (again w) = ⊥
IsOver (end w e) = e ≢ polling

module _ (cfg : DeployConfig) (m : Terms) (o : Round) (w : Watch) (h : Watches cfg m w) where
  on_status-GoesOn : (s : RunStatus) → GoesOn cfg m (on_status cfg o s w)
  unfolding on_status deploy_in_progress deploy_success
  on_status-GoesOn s = ground (arith, h)

  on_answer-GoesOn : (a : Option RunStatus) → GoesOn cfg m (on_answer cfg o a w)
  unfolding on_answer
  on_answer-GoesOn none = h
  on_answer-GoesOn (some s) = ground (arith, on_status-GoesOn s)

  on_answer-IsOver :
      (a : Option RunStatus) → is_final_answer m o.now a ≡ true → IsOver (on_answer cfg o a w)
  unfolding on_answer on_status
  on_answer-IsOver none f = absurd (cc)
  on_answer-IsOver (some s) f = ground (arith, h)

module _ (fm : Formats) (cfg : DeployConfig) (r : RepoInfo) where
  watched_status : {s : ℤ} → IsWatched s → int_eq s (pos 0) ≡ false
  watched_status h = ground arith

  module _ (m : Terms) where
    turn-GoesOn : (o : Round) (w : Watch) → Watches cfg m w → GoesOn cfg m (turn fm cfg r o w)
    unfolding turn watch_status
    turn-GoesOn o w h = rw (watched_status h.watched) (at_path (path_field r.path 1))
      where
        at_path : (p : Made Text) → GoesOn cfg m (watch_status cfg o p w)
        at_path (made t) = on_answer-GoesOn cfg m o w h o.status
        at_path (refused e) = λ e'. cc
        at_path panicked = λ e'. cc

    turn-IsOver :
        (o : Round) (w : Watch)
        → Watches cfg m w
        → is_final_round m o ≡ true
        → IsOver (turn fm cfg r o w)
    unfolding turn watch_status
    turn-IsOver o w h f = rw (watched_status h.watched) (at_path (path_field r.path 1))
      where
        at_path : (p : Made Text) → IsOver (watch_status cfg o p w)
        at_path (made t) = on_answer-IsOver cfg m o w h o.status f
        at_path (refused e) = λ e'. cc
        at_path panicked = λ e'. cc

    after-ne-polling :
        (next : Watch → Watch × Ended) (t : Turn)
        → GoesOn cfg m t
        → ((w : Watch) → Watches cfg m w → (next w).1 ≢ polling)
        → (after_turn next t).1 ≢ polling
    after-ne-polling next (again w) h ih = ih w h
    after-ne-polling next (end w e) h ih = h

    over-ne-polling :
        (next : Watch → Watch × Ended) (t : Turn) → IsOver t → (after_turn next t).1 ≢ polling
    over-ne-polling next (again w) h = absurd h
    over-ne-polling next (end w e) h = h

    watch_ends :
        (os : List Round) (w : Watch)
        → Watches cfg m w
        → any (is_final_round m) os ≡ true
        → (run_deploy fm cfg r os w).1 ≢ polling
    unfolding run_deploy
    watch_ends [] w h f = absurd (cc)
    watch_ends (o ∷ os) w h f = elim (Bool-cases (is_final_round m o)) [
      | inl now' ↦ over-ne-polling _ _ (turn-IsOver o w h now')
      | inr later ↦
          after-ne-polling _ _ (turn-GoesOn o w h) (λ w' h'. watch_ends os w' h' (rw later at f))
    ]

-- The terms of a watch that has begun.
abbrev pub terms_of : DeployConfig → Watch → Terms
terms_of cfg w = record {
  deploy_id = w.held.task.deploy_id;
  since = w.since;
  limit = limit_time cfg w.held.deploy;
}

-- Once the service was created the run comes to an end as soon as one of the answers of the image
-- runner is that the deploy is superseded, that it has been deploying for as long as the limit
-- allows, or any status other than deploying and startup, whatever the answers before it are.
pub run_deploy_ends :
    (fm : Formats) (cfg : DeployConfig) (r : RepoInfo) (os : List Round) (w : Watch)
    → IsWatched w.held.task.status
    → any (is_final_round (terms_of cfg w)) os ≡ true
    → (run_deploy fm cfg r os w).1 ≢ polling
run_deploy_ends fm cfg r os w h f =
    watch_ends fm cfg r (terms_of cfg w) os w
      (record { watched = h; same_deploy = refl; same_since = refl; same_limit = refl }) f

-- As long as the deploy has no image, every round of a pending run task asks again: over any
-- number of rounds in which the request can be made but names no image, the run neither ends nor
-- changes anything, however long it takes.
pub run_deploy-no_image :
    (fm : Formats) (cfg : DeployConfig) (r : RepoInfo) (os : List Round) (w : Watch)
    → w.held.task.status ≡ Task.deploy_pending
    → All
        (λ o.
          (q : RunRequest) × (make_deploy_request fm cfg r o.db_error o.token o.stored_deploy
            ≡ made q)
          × (q.image_id ≡ []))
        os
    → run_deploy fm cfg r os w ≡ (w, polling)
unfolding run_deploy turn
run_deploy-no_image fm cfg r [] w p h = refl
run_deploy-no_image fm cfg r (o ∷ os) w p ((q, e, image), hs) =
    simp (p, e, image) (run_deploy-no_image fm cfg r os w p hs)
