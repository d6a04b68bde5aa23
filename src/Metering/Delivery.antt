-- ===== src/Metering/Delivery.antt =====
-- What becomes of a message of the metering queue.
use csghub_server.Metering.Consumer.{
  ack, publish_failed, save_failed, publish_meter_data_to_dlq, save_metering_event_record,
  unmarshal_failed, handle_msg_data, move_msg_to_dlq_with_retry, moved, retry, Step,
  handle_msg_with_retry, Calls, Error, Books,
}
use csghub_server.Prelude.{
  Option-cases, Text, ℕ, zero, suc, Bool, true, false, ◌||◌, Option, none, some, List, [], ◌∷◌,
  ◌++◌, if◌then◌else◌, ◌≡◌, refl, Bool-cases, inl, inr, append-nil, ◌∙◌, sym,
}
use csghub_server.Metering.Event.{row_of, AccountMetering, MeteringEvent}

-- One of `n` answers from the `j`-th on is yes.
abbrev pub any_of : (ℕ → Bool) → ℕ → ℕ → Bool
any_of f j zero = false
any_of f j (suc n) = f j || any_of f (suc j) n

abbrev last_error : ℕ → Option Error → Error → Option Error
last_error zero last e = last
last_error (suc n) last e = some e

last_error-same : (n : ℕ) (e : Error) → last_error n (some e) e ≡ some e
last_error-same zero e = refl
last_error-same (suc n) e = refl

module _ (f : ℕ → Bool) (g : Books → Books) (e : Error) (act : ℕ → Books → Step)
    (acts : (j : ℕ) (b : Books) → act j b ≡ (if f j then (g b, none) else (b, some e))) where
  -- A loop whose attempts do the same, or fail with the same error.
  retry_lem :
      (n j : ℕ) (last : Option Error) (b : Books)
      → retry act j n last b ≡ (if any_of f j n then (g b, none) else (b, last_error n last e))
  unfolding retry
  retry_lem zero j last b = refl
  retry_lem (suc n) j last b = elim (Bool-cases (f j)) [
    | inl works ↦ rw (acts j b, works) refl
    | inr fails ↦ rw (acts j b, fails) (retry_lem n (suc j) (some e) b ∙ rw (last_error-same n e))
  ]

abbrev pub saved : Bool → Option MeteringEvent → List AccountMetering
saved works none = []
saved works (some e) = if works then row_of e ∷ [] else []

abbrev pub is_saved : Bool → Option MeteringEvent → Bool
is_saved works none = false
is_saved works (some e) = works

abbrev pub dead_letter : Bool → Bool → Text → List Text
dead_letter is_saved publishes msg = if is_saved then [] else if publishes then msg ∷ [] else []

pick-dead :
    (works : Bool) (msg : Text) (b : Books)
    → (if◌then◌else◌ {A = Step} works
        (record b { dead = b.dead ++ msg ∷ [] }, none)
        (b, some publish_failed)).0
      ≡ record b { dead = b.dead ++ (if works then msg ∷ [] else []) }
pick-dead true msg b = refl
pick-dead false msg b = rw append-nil refl

ack_lem :
    (works : Bool) (msg : Text) (b : Books)
    → ((ack works msg b).rows ≡ b.rows)
      × ((ack works msg b).dead ≡ b.dead)
      × ((ack works msg b).acked ≡ b.acked ++ (if works then msg ∷ [] else []))
ack_lem true msg b = (refl, refl, refl)
ack_lem false msg b = (refl, refl, sym (append-nil b.acked))

module _ (parse : Text → Option MeteringEvent) (c : Calls) (msg : Text) (b : Books) where
  -- The attempts to save, without the acknowledgement.
  abbrev attempts : Step
  attempts = retry (λ j. handle_msg_data parse (c.saves j) msg) 0 3 none b

  abbrev works : Bool
  works = any_of c.saves 0 3

  abbrev with_row : MeteringEvent → Books
  with_row e = record b { rows = b.rows ++ row_of e ∷ [] }

  attempts-no_event : parse msg ≡ none → attempts ≡ (b, some unmarshal_failed)
  unfolding handle_msg_data
  attempts-no_event h =
      retry_lem (λ _. false) (λ b'. b') unmarshal_failed
        (λ j. handle_msg_data parse (c.saves j) msg) (λ j b'. rw h) 3 0 none b

  attempts-event :
      (e : MeteringEvent)
      → parse msg ≡ some e
      → attempts ≡ (if works then (with_row e, none) else (b, some save_failed))
  unfolding handle_msg_data save_metering_event_record
  attempts-event e h =
      retry_lem c.saves (λ b'. record b' { rows = b'.rows ++ row_of e ∷ [] }) save_failed
        (λ j. handle_msg_data parse (c.saves j) msg) (λ j b'. rw h) 3 0 none b

  moves :
      (move_msg_to_dlq_with_retry c msg 5 b).0
      ≡ record b { dead = b.dead ++ (if any_of c.publishes 0 5 then msg ∷ [] else []) }
  unfolding move_msg_to_dlq_with_retry publish_meter_data_to_dlq
  moves =
      rw
        (retry_lem c.publishes (λ b'. record b' { dead = b'.dead ++ msg ∷ [] }) publish_failed
          (λ i. publish_meter_data_to_dlq (c.publishes i) msg) (λ j b'. refl) 5 0 none b)
        (pick-dead (any_of c.publishes 0 5) msg b)

  -- Saved, or moved to the dead letters.
  kept : moved c msg attempts ≡ record b {
    rows = b.rows ++ saved works (parse msg);
    dead = b.dead ++ dead_letter (is_saved works (parse msg)) (any_of c.publishes 0 5) msg;
  }
  kept = elim (Option-cases (parse msg)) [
    | inl h ↦ rw (attempts-no_event h, h, append-nil) moves
    | inr (e, h) ↦ elim (Bool-cases works) [
      | inl y ↦ rw (attempts-event e h, h, y, append-nil) refl
      | inr n ↦ rw (attempts-event e h, h, n, append-nil) moves
    ]
  ]

-- A message is tried three times, and leaves one row if it is an event and one of the attempts
-- works; otherwise no row, and one dead letter if one of the five attempts to publish it works. In
-- every case it is acknowledged, if that call works.
pub handle_msg_with_retry_lem :
    (parse : Text → Option MeteringEvent) (c : Calls) (msg : Text) (b : Books)
    → ((handle_msg_with_retry parse c msg b).rows
        ≡ b.rows ++ saved (any_of c.saves 0 3) (parse msg))
      × ((handle_msg_with_retry parse c msg b).dead
          ≡ b.dead
            ++ dead_letter (is_saved (any_of c.saves 0 3) (parse msg)) (any_of c.publishes 0 5) msg)
      × ((handle_msg_with_retry parse c msg b).acked ≡ b.acked ++ (if c.acks then msg ∷ [] else []))
unfolding handle_msg_with_retry
handle_msg_with_retry_lem parse c msg b = rw (kept parse c msg b) (ack_lem c.acks msg _)
