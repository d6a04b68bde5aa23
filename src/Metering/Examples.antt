-- ===== src/Metering/Examples.antt =====
-- Messages that are booked at once, at the third attempt, or not at all, and the theorems at them.
use csghub_server.Metering.Event.{row_of, MeteringEvent}
use csghub_server.Metering.Consumer.{
  no_batch, save_metering_event_record, batch, retry, verify_failed, handle_batch, handle_msg_data,
  read_round, timed_out, Books, Calls, Round, handle_msg_with_retry, handle_read_msgs,
}
use csghub_server.Metering.Reading.{handle_read_msgs_lem, messages, failures}
use csghub_server.Metering.Delivery.{handle_msg_with_retry_lem}
use csghub_server.Prelude.{
  Text, codes, ◌+◌, ◌≤◌, ◌<◌, true, false, Option, none, some, List, [], ◌∷◌, if◌then◌else◌, ◌≡◌,
  refl, pos, ◌==◌, text_eq,
}

abbrev event : MeteringEvent
event = record {
  uuid = codes "e1";
  user_uuid = codes "u1";
  value = pos 5;
  value_type = pos 0;
  scene = pos 20;
  op_uid = [];
  resource_id = codes "3";
  resource_name = codes "gpu";
  customer_id = codes "svc";
  created_at = 100;
  extra = [];
}

-- A parser that knows one message.
abbrev parser : Text → Option MeteringEvent
parser t = if text_eq t (codes "ok") then some event else none

abbrev third_works : Calls
third_works = record { saves = λ j. j == 2; publishes = λ j. true; acks = true }

abbrev no_books : Books
no_books = record { rows = []; dead = []; acked = [] }

-- The message is saved with the unit of its scene.
saved_at_third :
    handle_msg_with_retry parser third_works (codes "ok") no_books
    ≡ record { rows = row_of event ∷ []; dead = []; acked = codes "ok" ∷ [] }
unfolding handle_msg_with_retry handle_msg_data retry save_metering_event_record
saved_at_third = refl

handle_msg_with_retry_example :
    ((handle_msg_with_retry parser third_works (codes "bad") no_books).rows ≡ [])
    × ((handle_msg_with_retry parser third_works (codes "bad") no_books).dead ≡ codes "bad" ∷ [])
    × ((handle_msg_with_retry parser third_works (codes "bad") no_books).acked ≡ codes "bad" ∷ [])
handle_msg_with_retry_example = handle_msg_with_retry_lem parser third_works (codes "bad") no_books

abbrev rounds : List (Round parser)
rounds =
    timed_out
    ∷ batch ((codes "ok", third_works) ∷ (codes "bad", third_works) ∷ [])
    ∷ verify_failed
    ∷ []

handle_read_msgs_test :
    (0 + failures parser rounds < 10
      → handle_read_msgs parser 10 rounds 0 no_books
        ≡ (handle_batch parser (messages parser rounds) no_books, false))
    × (10 ≤ 0 + failures parser rounds → (handle_read_msgs parser 10 rounds 0 no_books).1 ≡ true)
handle_read_msgs_test = handle_read_msgs_lem parser 10 rounds 0 no_books

-- Two failed reads end the loop, when that is the limit.
two_failures :
    handle_read_msgs parser 2 (verify_failed ∷ timed_out ∷ no_batch ∷ []) 0 no_books
    ≡ (no_books, true)
unfolding handle_read_msgs read_round
two_failures = refl
