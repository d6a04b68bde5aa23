-- ===== src/Metering/Consumer.antt =====
-- accounting/consumer/metering.go. `parse` is `json.Unmarshal` of a message; which calls of the
-- database and of the message queue succeed is given for each attempt, counted from 0.
use csghub_server.Prelude.{
  Text, ℕ, zero, suc, Bool, true, false, Option, none, some, List, [], ◌∷◌, ◌++◌, if◌then◌else◌,
  leb,
}
use csghub_server.Metering.Event.{MeteringEvent, AccountMetering, row_of}

-- The table of the metering, the queue of dead letters, and the messages acknowledged.
pub record Books : Type 0 where
  pub rows : List AccountMetering
  pub dead : List Text
  pub acked : List Text

pub data Error : Type 0 where
  unmarshal_failed save_failed publish_failed : Error

-- Which attempts at a message succeed.
pub record Calls : Type 0 where
  pub saves : ℕ → Bool
  pub publishes : ℕ → Bool
  pub acks : Bool

-- A step of a loop, with Go's error: `none` is nil.
abbrev pub Step : Type 0
Step = Books × Option Error

unfoldable pub save_metering_event_record : Bool → MeteringEvent → Books → Step
save_metering_event_record works e b =
    if works then (record b { rows = b.rows ++ row_of e ∷ [] }, none) else (b, some save_failed)

-- `for j := 0; j < n; j++`, left by `break` when there is no error.
abbrev pub unless_done : Step → (Option Error → Books → Step) → Step
unless_done (b, none) next = (b, none)
unless_done (b, some e) next = next (some e) b

unfoldable pub retry : (ℕ → Books → Step) → ℕ → ℕ → Option Error → Books → Step
retry act j zero last b = (b, last)
retry act j (suc n) last b = unless_done (act j b) (retry act (suc j) n)

unfoldable pub publish_meter_data_to_dlq : Bool → Text → Books → Step
publish_meter_data_to_dlq works msg b =
    if works then (record b { dead = b.dead ++ msg ∷ [] }, none) else (b, some publish_failed)

unfoldable pub move_msg_to_dlq_with_retry : Calls → Text → ℕ → Books → Step
move_msg_to_dlq_with_retry c msg limit =
    retry (λ i. publish_meter_data_to_dlq (c.publishes i) msg) 0 limit none

-- `msg.Ack`, whose error is only logged.
abbrev pub ack : Bool → Text → Books → Books
ack works msg b = if works then record b { acked = b.acked ++ msg ∷ [] } else b

-- The errors of the move are only logged, too.
abbrev pub moved : Calls → Text → Step → Books
moved c msg (b, none) = b
moved c msg (b, some e) = (move_msg_to_dlq_with_retry c msg 5 b).0

module _ (parse : Text → Option MeteringEvent) where
  abbrev pub save_parsed : Bool → Option MeteringEvent → Books → Step
  save_parsed works none b = (b, some unmarshal_failed)
  save_parsed works (some e) b = save_metering_event_record works e b

  unfoldable pub handle_msg_data : Bool → Text → Books → Step
  handle_msg_data works msg = save_parsed works (parse msg)

  unfoldable pub handle_msg_with_retry : Calls → Text → Books → Books
  handle_msg_with_retry c msg b =
      ack c.acks msg (moved c msg (retry (λ j. handle_msg_data (c.saves j) msg) 0 3 none b))

  -- What one round of the loop of `handleReadMsgs` finds.
  pub data Round : Type 0 where
    verify_failed timed_out fetch_failed no_batch : Round
    batch : List (Text × Calls) → Round

  unfoldable pub handle_batch : List (Text × Calls) → Books → Books
  handle_batch [] b = b
  handle_batch ((msg, c) ∷ msgs) b = handle_batch msgs (handle_msg_with_retry c msg b)

  -- The count of failed reads and the books after a round.
  unfoldable pub read_round : Round → ℕ → Books → ℕ × Books
  read_round verify_failed failed b = (suc failed, b)
  read_round timed_out failed b = (failed, b)
  read_round fetch_failed failed b = (suc failed, b)
  read_round no_batch failed b = (suc failed, b)
  read_round (batch msgs) failed b = (failed, handle_batch msgs b)

  -- `handleReadMsgs` over the given rounds, and whether it has ended.
  unfoldable pub handle_read_msgs : ℕ → List Round → ℕ → Books → Books × Bool
  handle_read_msgs limit [] failed b = (b, leb limit failed)
  handle_read_msgs limit (r ∷ rs) failed b =
      let (failed', b') = read_round r failed b in
      let rest = handle_read_msgs limit rs failed' b' in
      if leb limit failed then (b, true) else rest

-- `preReadMsgs`: whether the two streams could be built in a round, and whether the loop has ended.
unfoldable pub pre_read_msgs : List (Bool × Bool) → Bool
pre_read_msgs [] = false
pre_read_msgs ((false, dlq) ∷ rs) = pre_read_msgs rs
pre_read_msgs ((true, false) ∷ rs) = pre_read_msgs rs
pre_read_msgs ((true, true) ∷ rs) = true
