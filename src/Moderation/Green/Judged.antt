-- ===== src/Moderation/Green/Judged.antt =====
-- What it takes for a text to pass.
use csghub_server.Prelude.{
  ==_iff, text_eq_iff, &&_true, lt→ltb, text_eq, codes, ◌↔◌, Text, length, split, ltb, ltb→lt, ◌≤◌,
  ◌*◌, ◌<◌, true, false, not, any, none, some, List, [], ◌∷◌, ◌≡◌, refl, ◌⊎◌, inl, inr, Bool-cases,
  Option-cases, All, arith,
}
use csghub_server.Moderation.Green.{
  text_eq, ℕ, codes, TextScanItem, TextScanResponse, failed_check, CheckError, Service, CheckResult,
  ScanResult, TextModeration, Checked, judged, is_blocked, is_ok, is_allowed, first_blocked,
  scan_verdict, labels_verdict, pass_large_text_check, pass_text_check, split_tasks,
  small_text_size, large_text_size, harmless,
}

-- The check passed.
abbrev pub Passes : Checked → Type 0
Passes c = (r : CheckResult) × (c ≡ judged r) × (r.is_sensitive ≡ false)

-- The only labels that do no harm.
abbrev pub IsHarmlessLabel : Text → Type 0
IsHarmlessLabel l = (l ≡ codes "ad") ⊎ (l ≡ codes "flood")

-- The service asks to block the text, is sure of it, and the label is none of the two.
pub record Blocks (r : ScanResult) : Type 0 where
  pub harmful : ¬ IsHarmlessLabel r.label
  pub sure : r.is_sure ≡ true
  pub suggested : r.suggestion ≡ codes "block"

-- No result of the task blocks.
abbrev pub IsClean : TextScanItem → Type 0
IsClean item = All (λ r. ¬ Blocks r) item.results

-- The answer about a short text is in order, and names no label but those that do no harm.
pub record ShortPassed (s : Service) (scenario text : Text) : Type 0 where
  pub short : length text ≤ 500
  pub answer : TextModeration
  pub answered : s.text_moderation scenario text ≡ some answer
  pub status_ok : answer.status_code ≡ 200
  pub body_ok : answer.body_code ≡ 200
  pub labels_allowed : (answer.labels ≡ []) ⊎ All IsHarmlessLabel (split b',' answer.labels)

-- The service has answered for the tasks of a long text, whatever the codes of the answer are, and
-- none of the results that it has blocks.
pub record LongPassed (s : Service) (text : Text) : Type 0 where
  pub long : (500 < length text) × (length text ≤ 900000)
  pub response : TextScanResponse
  pub answered : s.text_scan (split_tasks text) ≡ some response
  pub clean : All IsClean response.items

sensitive-ne : {t : Text} → ¬ Passes (judged (record { is_sensitive = true; reason = t }))
sensitive-ne (r, e, h) = absurd (cc (e, h))

failed-ne : {x : CheckError} → ¬ Passes (failed_check x)
failed-ne (r, e, h) = absurd (cc (e))

harmless-Passes : Passes harmless
harmless-Passes = (_, refl, refl)

is_allowed_iff : (l : Text) → (is_allowed l ≡ true) ↔ IsHarmlessLabel l
is_allowed_iff l = elim (Bool-cases (text_eq l (codes "ad"))) [
  | inl ad ↦ rw ad (λ h. inl ((text_eq_iff l (codes "ad")).0 ad), λ h. refl)
  | inr other ↦ rw other (
    λ h. inr ((text_eq_iff l (codes "flood")).0 h),
    elim [
      | inl e ↦ absurd (cc (other, (text_eq_iff l (codes "ad")).1 e))
      | inr e ↦ (text_eq_iff l (codes "flood")).1 e
    ],
  )
]

is_blocked_iff : (r : ScanResult) → (is_blocked r ≡ true) ↔ Blocks r
is_blocked_iff r = elim (Bool-cases (is_allowed r.label)) [
  | inl fine ↦
      rw fine (λ h. absurd (cc (h)), λ b. absurd (b.harmful ((is_allowed_iff r.label).0 fine)))
  | inr bad ↦ rw bad (
    λ h.
        (let (sure, block) = &&_true r.is_sure _ h in
          record {
            harmful = λ a. absurd (cc (bad, (is_allowed_iff r.label).1 a));
            sure = sure;
            suggested = (text_eq_iff r.suggestion (codes "block")).0 block;
          }),
    λ b. rw (b.sure, (text_eq_iff r.suggestion (codes "block")).1 b.suggested) refl,
  )
]

first_blocked_iff : (rs : List ScanResult) → (first_blocked rs ≡ none) ↔ All (λ r. ¬ Blocks r) rs
unfolding first_blocked
first_blocked_iff [] = (λ h. tt, λ h. refl)
first_blocked_iff (r ∷ rs) = elim (Bool-cases (is_blocked r)) [
  | inl blocked ↦
      rw blocked (λ h. absurd (cc (h)), λ h. absurd (h.0 ((is_blocked_iff r).0 blocked)))
  | inr clean ↦ rw clean (
    λ h. (λ b. cc (clean, (is_blocked_iff r).1 b), (first_blocked_iff rs).0 h),
    λ h. (first_blocked_iff rs).1 h.1,
  )
]

scan_verdict_iff : (items : List TextScanItem) → Passes (scan_verdict items) ↔ All IsClean items
unfolding scan_verdict
scan_verdict_iff [] = (λ h. tt, λ h. harmless-Passes)
scan_verdict_iff (item ∷ items) = elim (Option-cases (first_blocked item.results)) [
  | inl clean ↦
      rw (scan_verdict, clean)
        (
          λ h. ((first_blocked_iff item.results).0 clean, (scan_verdict_iff items).0 h),
          λ h. (scan_verdict_iff items).1 h.1,
        )
  | inr (label, blocked) ↦
      rw (scan_verdict, blocked)
        (
          λ h. absurd (sensitive-ne h),
          λ h. absurd (cc (blocked, (first_blocked_iff item.results).1 h.0)),
        )
]

any-not_allowed :
    (ls : List Text) → (any (λ l. not (is_allowed l)) ls ≡ false) ↔ All IsHarmlessLabel ls
any-not_allowed [] = (λ h. tt, λ h. refl)
any-not_allowed (l ∷ ls) = elim (Bool-cases (is_allowed l)) [
  | inl fine ↦
      rw fine (
        λ h. ((is_allowed_iff l).0 fine, (any-not_allowed ls).0 h),
        λ h. (any-not_allowed ls).1 h.1,
      )
  | inr bad ↦ rw bad (λ h. absurd (cc (h)), λ h. absurd (cc (bad, (is_allowed_iff l).1 h.0)))
]

labels_verdict_iff :
    (m : TextModeration)
    → Passes (labels_verdict m) ↔ ((m.labels ≡ []) ⊎ All IsHarmlessLabel (split b',' m.labels))
labels_verdict_iff m = go m.labels refl
  where
    go :
        (ls : Text)
        → m.labels ≡ ls
        → Passes (labels_verdict m) ↔ ((m.labels ≡ []) ⊎ All IsHarmlessLabel (split b',' m.labels))
    go [] e = (λ h. inl e, λ h. rw e harmless-Passes)
    go (c ∷ ls) e = rw e (elim (Bool-cases (any (λ l. not (is_allowed l)) (split b',' (c ∷ ls)))) [
      | inl bad ↦ rw bad (
        λ h. absurd (sensitive-ne h),
        elim [
          | inl none_named ↦ absurd (cc (none_named))
          | inr fine ↦ absurd (cc (bad, (any-not_allowed (split b',' (c ∷ ls))).1 fine))
        ],
      )
      | inr fine ↦
          rw fine (λ h. inr ((any-not_allowed (split b',' (c ∷ ls))).0 fine), λ h. harmless-Passes)
    ])

not_long : (n size : ℕ) → n ≤ size → ltb size n ≡ false
not_long n size le = ground arith

is_ok_iff : (m n : ℕ) → (is_ok m n ≡ true) ↔ ((m ≡ 200) × (n ≡ 200))
is_ok_iff m n = ground (arith, ==_iff m 200, ==_iff n 200)

module _ (s : Service) (scenario text : Text) where
  Passes-cases :
      Passes (pass_text_check s scenario text) → ShortPassed s scenario text ⊎ LongPassed s text
  unfolding pass_text_check pass_large_text_check
  Passes-cases h = elim (Bool-cases (ltb small_text_size (length text))) [
    | inl long ↦ elim (Bool-cases (ltb (100 * large_text_size) (length text))) [
      | inl longer ↦ absurd (failed-ne (rw (long, longer) at h))
      | inr fits ↦ elim (Option-cases (s.text_scan (split_tasks text))) [
        | inl failed ↦ absurd (failed-ne (rw (long, fits, failed) at h))
        | inr (response, answered) ↦ inr (record {
          long = (ltb→lt small_text_size (length text) long, ground (arith, fits));
          response = response;
          answered = answered;
          clean = (scan_verdict_iff response.items).0 (rw (long, fits, answered) at h);
        })
      ]
    ]
    | inr short ↦ elim (Option-cases (s.text_moderation scenario text)) [
      | inl failed ↦ absurd (failed-ne (rw (short, failed) at h))
      | inr (m, answered) ↦ elim (Bool-cases (is_ok m.status_code m.body_code)) [
        | inl fine ↦
            (let codes_ok = (is_ok_iff m.status_code m.body_code).0 fine in
              inl (record {
                short = ground (arith, short);
                answer = m;
                answered = answered;
                status_ok = codes_ok.0;
                body_ok = codes_ok.1;
                labels_allowed = (labels_verdict_iff m).0 (rw (short, answered, fine) at h);
              }))
        | inr bad ↦ absurd (failed-ne (rw (short, answered, bad) at h))
      ]
    ]
  ]

  ShortPassed-Passes : ShortPassed s scenario text → Passes (pass_text_check s scenario text)
  unfolding pass_text_check
  ShortPassed-Passes p =
      rw
        (
          not_long (length text) small_text_size p.short,
          p.answered,
          (is_ok_iff p.answer.status_code p.answer.body_code).1 (p.status_ok, p.body_ok),
        )
        ((labels_verdict_iff p.answer).1 p.labels_allowed)

  LongPassed-Passes : LongPassed s text → Passes (pass_text_check s scenario text)
  unfolding pass_text_check pass_large_text_check
  LongPassed-Passes p =
      rw
        (
          lt→ltb small_text_size (length text) p.long.0,
          not_long (length text) (100 * large_text_size) p.long.1,
          p.answered,
        )
        ((scan_verdict_iff p.response.items).1 p.clean)

-- A text passes the check exactly in two cases. A text of up to 500 bytes passes if the service has
-- answered with both codes 200 and with no label but `ad` and `flood`. A longer one of up to 900,000
-- bytes passes if the service has answered for its tasks, and each result that the answer has is not
-- to be blocked, not sure, or labelled `ad` or `flood`; an answer without results lets it pass,
-- whatever its code is.
pub pass_text_check_lem :
    (s : Service) (scenario text : Text)
    → Passes (pass_text_check s scenario text) ↔ (ShortPassed s scenario text ⊎ LongPassed s text)
pass_text_check_lem s scenario text = (
  Passes-cases s scenario text,
  elim [
    | inl short ↦ ShortPassed-Passes s scenario text short
    | inr long ↦ LongPassed-Passes s scenario text long
  ],
)
