-- ===== src/Metering/Reading.antt =====
-- How long the consumer reads, and that it handles every message it fetches.
use csghub_server.Metering.Consumer.{
  no_batch, fetch_failed, timed_out, handle_msg_with_retry, verify_failed, Books, Calls, batch,
  Round, handle_batch, handle_read_msgs, read_round,
}
use csghub_server.Prelude.{
  Text, ℕ, suc, ◌+◌, ◌≤◌, ◌<◌, true, false, Option, List, [], ◌∷◌, ◌++◌, leb, ◌≡◌, refl, Bool-cases,
  inl, inr, arith,
}
use csghub_server.Metering.Event.{MeteringEvent}

gt→leb : (a b : ℕ) → b < a → leb a b ≡ false
gt→leb a b h = ground arith

le→leb : (a b : ℕ) → a ≤ b → leb a b ≡ true
le→leb a b h = ground arith

module _ (parse : Text → Option MeteringEvent) where
  -- The rounds whose read failed; a time out is no failure.
  abbrev pub failures : List (Round parse) → ℕ
  failures [] = 0
  failures (verify_failed ∷ rs) = suc (failures rs)
  failures (timed_out ∷ rs) = failures rs
  failures (fetch_failed ∷ rs) = suc (failures rs)
  failures (no_batch ∷ rs) = suc (failures rs)
  failures (batch msgs ∷ rs) = failures rs

  abbrev pub messages : List (Round parse) → List (Text × Calls)
  messages [] = []
  messages (verify_failed ∷ rs) = messages rs
  messages (timed_out ∷ rs) = messages rs
  messages (fetch_failed ∷ rs) = messages rs
  messages (no_batch ∷ rs) = messages rs
  messages (batch msgs ∷ rs) = msgs ++ messages rs

  handle_batch-append :
      (xs ys : List (Text × Calls)) (b : Books)
      → handle_batch parse (xs ++ ys) b ≡ handle_batch parse ys (handle_batch parse xs b)
  unfolding handle_batch
  handle_batch-append [] ys b = refl
  handle_batch-append ((m, c) ∷ xs) ys b =
      handle_batch-append xs ys (handle_msg_with_retry parse c m b)

  -- One round adds its failure to the count, and its messages are handled.
  read_round_lem :
      (r : Round parse) (rs : List (Round parse)) (failed : ℕ) (b : Books)
      → ((read_round parse r failed b).0 + failures rs ≡ failed + failures (r ∷ rs))
        × (failed ≤ (read_round parse r failed b).0)
        × (handle_batch parse (messages (r ∷ rs)) b
            ≡ handle_batch parse (messages rs) (read_round parse r failed b).1)
  unfolding read_round
  read_round_lem verify_failed rs failed b = (omega arith, omega arith, refl)
  read_round_lem timed_out rs failed b = (refl, omega arith, refl)
  read_round_lem fetch_failed rs failed b = (omega arith, omega arith, refl)
  read_round_lem no_batch rs failed b = (omega arith, omega arith, refl)
  read_round_lem (batch msgs) rs failed b =
      (refl, omega arith, handle_batch-append msgs (messages rs) b)

  -- `handleReadMsgs` reads on for as long as fewer reads than the limit have failed, and until then
  -- every message of every batch is handled once, in the order of the batches; as soon as so many
  -- have failed, it ends.
  pub handle_read_msgs_lem :
      (limit : ℕ) (rs : List (Round parse)) (failed : ℕ) (b : Books)
      → (failed + failures rs < limit
          → handle_read_msgs parse limit rs failed b ≡ (handle_batch parse (messages rs) b, false))
        × (limit ≤ failed + failures rs → (handle_read_msgs parse limit rs failed b).1 ≡ true)
  unfolding handle_read_msgs handle_batch
  handle_read_msgs_lem limit [] failed b = (
    (λ h. rw (gt→leb limit failed (omega (arith, h))) refl),
    λ h. le→leb limit failed (omega (arith, h)),
  )
  handle_read_msgs_lem limit (r ∷ rs) failed b =
      let l = read_round_lem r rs failed b in
      let ih =
        handle_read_msgs_lem limit rs (read_round parse r failed b).0
          (read_round parse r failed b).1 in
      (
        (λ h. rw (gt→leb limit failed (omega (arith, h)), l.2) (ih.0 (omega (arith, h, l.0)))),
        (λ h. elim (Bool-cases (leb limit failed)) [
          | inl full ↦ rw full refl
          | inr more ↦ rw more (ih.1 (omega (arith, h, l.0)))
        ]),
      )
