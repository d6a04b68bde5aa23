-- ===== src/Moderation/Files/Passed.antt =====
-- The blocks of a text file, and what it takes for one to pass.
use csghub_server.Prelude.{
  ◌⊎◌, split, any, is_empty, if◌then◌else◌, All-map, ltb→lt, Text, length, take, drop, joined_parts,
  take-append-drop, length-drop, length-take_le, ltb, leb, ◌≤◌, ◌*◌, ◌||◌, ℕ, zero, suc, Bool, true,
  false, List, [], ◌∷◌, ◌≡◌, ◌≢◌, refl, inl, inr, Bool-cases, Option-cases, All, arith, append-nil,
}
use csghub_server.Moderation.Files.{
  split, not, any, is_empty, check_exception, check_fail, Content, opened, not_opened, Checkers,
  Verdict, check_pass, block_size, read_limit, blocks_from, blocks, read_text, check_blocks,
  run_text, comment_detection, remote_verdict,
}
use csghub_server.Moderation.Green.{
  is_allowed, sensitive, harmless, bad_code, labels_verdict, is_ok, first_blocked, TextScanItem,
  split_tasks, TextModeration, scan_verdict, Service, Checked, judged, failed_check, too_long,
  pass_text_check, pass_large_text_check, small_text_size, large_text_size,
}
use csghub_server.Moderation.Words.{contains_sensitive_word}
use csghub_server.Moderation.Runes.{runes}
use csghub_server.Moderation.Green.Judged.{Passes}

joined_parts-blocks_from :
    (fuel size : ℕ) (bytes : Text)
    → 1 ≤ size
    → length bytes ≤ fuel
    → joined_parts (blocks_from fuel size bytes) ≡ bytes
unfolding blocks_from
joined_parts-blocks_from zero size [] pos enough = refl
joined_parts-blocks_from zero size (b ∷ bytes) pos enough = absurd (omega (arith, enough))
joined_parts-blocks_from (suc fuel) size [] pos enough = refl
joined_parts-blocks_from (suc fuel) size (b ∷ bytes) pos enough =
    elim (Bool-cases (ltb (length (b ∷ bytes)) size)) [
      | inl last ↦ rw (blocks_from, last) (append-nil (b ∷ bytes))
      | inr more ↦
          rw
            (
              blocks_from,
              more,
              joined_parts-blocks_from fuel size (drop size (b ∷ bytes)) pos
                  (omega (arith, enough, pos, length-drop size (b ∷ bytes))),
            )
            (take-append-drop size (b ∷ bytes))
    ]

blocks_from-fit :
    (fuel size : ℕ) (bytes : Text)
    → All (λ block. length block ≤ size) (blocks_from fuel size bytes)
unfolding blocks_from
blocks_from-fit zero size bytes = tt
blocks_from-fit (suc fuel) size [] = tt
blocks_from-fit (suc fuel) size (b ∷ bytes) = elim (Bool-cases (ltb (length (b ∷ bytes)) size)) [
  | inl last ↦ rw (blocks_from, last) (ground (arith, last), tt)
  | inr more ↦
      rw (blocks_from, more)
        (length-take_le size (b ∷ bytes), blocks_from-fit fuel size (drop size (b ∷ bytes)))
]

scan_verdict-ne : (items : List TextScanItem) → ¬ (scan_verdict items ≡ failed_check too_long)
unfolding scan_verdict
scan_verdict-ne [] h = cc (h)
scan_verdict-ne (item ∷ items) h = elim (Option-cases (first_blocked item.results)) [
  | inl clean ↦ scan_verdict-ne items (rw (scan_verdict, clean) at h)
  | inr (label, blocked) ↦ cc (rw (scan_verdict, blocked) at h)
]

short_verdict-ne :
    (m : TextModeration)
    → ¬ (
        (if is_ok m.status_code m.body_code then labels_verdict m else failed_check bad_code)
        ≡ failed_check too_long)
short_verdict-ne m h =
    go (is_ok m.status_code m.body_code) (is_empty m.labels)
      (any (λ l. not (is_allowed l)) (split b',' m.labels)) h
  where
    go :
        (fine none_named others : Bool)
        → ¬ (
            (if fine
              then (if none_named
                  then harmless
                  else if others
                  then sensitive m.reason
                  else harmless)
              else failed_check bad_code)
            ≡ failed_check too_long)
    go true true others e = cc (e)
    go true false true e = cc (e)
    go true false false e = cc (e)
    go false none_named others e = cc (e)

-- A text of the size of a block is not refused for its length.
pass_text_check-not_long :
    (s : Service) (scenario block : Text)
    → length block ≤ block_size
    → pass_text_check s scenario block ≢ failed_check too_long
unfolding pass_text_check pass_large_text_check
pass_text_check-not_long s scenario block fits h =
    elim (Bool-cases (ltb small_text_size (length block))) [
      | inl long ↦ elim (Bool-cases (ltb (100 * large_text_size) (length block))) [
        | inl longer ↦ omega (arith, fits, ltb→lt (100 * large_text_size) (length block) longer)
        | inr known ↦ elim (Option-cases (s.text_scan (split_tasks block))) [
          | inl failed ↦ cc (rw (long, known, failed) at h)
          | inr (response, answered) ↦
              scan_verdict-ne response.items (rw (long, known, answered) at h)
        ]
      ]
      | inr short ↦ elim (Option-cases (s.text_moderation scenario block)) [
        | inl failed ↦ cc (rw (short, failed) at h)
        | inr (m, answered) ↦ short_verdict-ne m (rw (short, answered) at h)
      ]
    ]

-- The blocks that the bytes of a file are read in are the bytes, one after the other, none has more
-- than 90,000 of them, and for none of them does the remote check say that the text is too long.
pub blocks_lem :
    (s : Service) (scenario bytes : Text)
    → (joined_parts (blocks bytes) ≡ bytes)
      × All
          (λ block.
            (length block ≤ block_size)
            × (pass_text_check s scenario block ≢ failed_check too_long))
          (blocks bytes)
unfolding blocks
blocks_lem s scenario bytes = (
  joined_parts-blocks_from (length bytes) block_size bytes (omega arith) (omega arith),
  All-map (λ block. length block ≤ block_size) _
      (λ block fits. (fits, pass_text_check-not_long s scenario block fits))
      (blocks_from (length bytes) block_size bytes)
      (blocks_from-fit (length bytes) block_size bytes),
)

-- The block has no sensitive word, and the service lets it pass.
abbrev pub IsHarmless : Checkers → Text → Type 0
IsHarmless c block =
    (contains_sensitive_word c.words (runes block) ≡ false)
    × Passes (pass_text_check c.service comment_detection block)

fail-ne : {t m : Text} → ¬ (◌≡◌ {A = Verdict} (check_fail, t) (check_pass, m))
fail-ne h = cc (h)

exception-ne : {t m : Text} → ¬ (◌≡◌ {A = Verdict} (check_exception, t) (check_pass, m))
exception-ne h = cc (h)

remote_verdict-pass :
    (v : Checked) (rest : Verdict) (m : Text)
    → remote_verdict v rest ≡ (check_pass, m)
    → Passes v × (rest ≡ (check_pass, m))
remote_verdict-pass (failed_check e) rest m h = absurd (exception-ne h)
remote_verdict-pass (judged r) rest m h = elim (Bool-cases r.is_sensitive) [
  | inl bad ↦ absurd (fail-ne (rw bad at h))
  | inr fine ↦ ((r, refl, fine), rw fine at h)
]

check_blocks-pass :
    (c : Checkers) (bs : List Text) (m : Text)
    → check_blocks c bs ≡ (check_pass, m)
    → All (IsHarmless c) bs
unfolding check_blocks
check_blocks-pass c [] m h = tt
check_blocks-pass c (b ∷ bs) m h = elim (Bool-cases (contains_sensitive_word c.words (runes b))) [
  | inl found ↦ absurd (fail-ne (rw found at h))
  | inr none_found ↦
      (let (passes, rest) =
          remote_verdict-pass (pass_text_check c.service comment_detection b) (check_blocks c bs) m
            (rw none_found at h) in
        ((none_found, passes), check_blocks-pass c bs m rest))
]

-- All of a file was read that is looked at: it was opened, and either its end comes behind the bytes
-- or there is a megabyte of them.
pub record IsRead (content : Content) (bytes : Text) : Type 0 where
  pub ends : Bool
  pub there : content ≡ opened bytes ends
  pub enough : (ends ≡ true) ⊎ (1048576 ≤ length bytes)

-- The parts are blocks of the first megabyte: one after the other they are it, and none has more than
-- 90,000 bytes.
pub record AreBlocks (bytes : Text) (parts : List Text) : Type 0 where
  pub whole : joined_parts parts ≡ take 1048576 bytes
  pub fit : All (λ block. length block ≤ 90000) parts

megabyte : (n : ℕ) → leb read_limit n ≡ true → 1048576 ≤ n
megabyte n e = ground arith

was_read : (e : Bool) (n : ℕ) → (e || leb read_limit n) ≡ true → (e ≡ true) ⊎ (1048576 ≤ n)
was_read true n e = inl refl
was_read false n e = inr (megabyte n e)

-- If a text file passes, then it was opened and either read to its end or for a megabyte, and the
-- blocks of the first megabyte, which have up to 90,000 bytes each, have all been looked at: in none of
-- them does the automaton report a sensitive word, and the remote check lets each of them pass.
pub run_text-pass :
    (c : Checkers) (content : Content) (m : Text)
    → run_text c content ≡ (check_pass, m)
    → (bytes : Text) × (parts : List Text) × IsRead content bytes
      × AreBlocks bytes parts
      × All (IsHarmless c) parts
unfolding run_text read_text blocks
run_text-pass c not_opened m h = absurd (exception-ne h)
run_text-pass c (opened bytes ends) m h =
    elim (Bool-cases (ends || leb read_limit (length bytes))) [
      | inl read ↦ (
        bytes,
        blocks (take read_limit bytes),
        record { ends = ends; there = refl; enough = was_read ends (length bytes) read },
        record {
          whole = (blocks_lem c.service comment_detection (take read_limit bytes)).0;
          fit = blocks_from-fit (length (take read_limit bytes)) block_size (take read_limit bytes);
        },
        check_blocks-pass c (blocks (take read_limit bytes)) m
            (rw (run_text, read_text, read) at h),
      )
      | inr broken ↦ absurd (exception-ne (rw (run_text, read_text, broken) at h))
    ]
