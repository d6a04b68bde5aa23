-- ===== src/Moderation/Green/Tasks.antt =====
-- The tasks that a long text is cut into.
use csghub_server.Prelude.{
  Text, length, drop, joined_parts, take-append-drop, length-drop, length-take_le, ltb, ltb→lt, ◌≤◌,
  ◌*◌, ℕ, zero, suc, ◌≡◌, inl, inr, Bool-cases, All, arith, append-nil,
}
use csghub_server.Moderation.Green.{split_from, split_tasks, large_text_size}

joined_parts-split_from :
    (fuel size : ℕ) (text : Text) → joined_parts (split_from fuel size text) ≡ text
unfolding split_from
joined_parts-split_from zero size text = append-nil text
joined_parts-split_from (suc fuel) size text = elim (Bool-cases (ltb size (length text))) [
  | inl more ↦
      rw (split_from, more, joined_parts-split_from fuel size (drop size text))
        (take-append-drop size text)
  | inr last ↦ rw (split_from, last) (append-nil text)
]

module _ (size : ℕ) (some_size : 1 ≤ size) where
  split_from-fit :
      (fuel : ℕ) (text : Text)
      → length text ≤ fuel
      → All (λ part. length part ≤ size) (split_from fuel size text)
  unfolding split_from
  split_from-fit zero text enough = (omega (arith, enough), tt)
  split_from-fit (suc fuel) text enough = elim (Bool-cases (ltb size (length text))) [
    | inl more ↦
        rw (split_from, more)
          (
            length-take_le size text,
            split_from-fit fuel (drop size text)
                (omega (arith, length-drop size text, enough, some_size)),
          )
    | inr last ↦ rw (split_from, last) (ground (arith, last), tt)
  ]

  split_from-few :
      (fuel n : ℕ) (text : Text)
      → length text ≤ suc n * size
      → length (split_from fuel size text) ≤ suc n
  unfolding split_from
  split_from-few zero n text fits = omega arith
  split_from-few (suc fuel) n text fits = elim (Bool-cases (ltb size (length text))) [
    | inl more ↦
        rw (split_from, more)
          (elim n
              as (λ k.
                length text ≤ suc k * size
                → suc (length (split_from fuel size (drop size text))) ≤ suc k) [
                  | zero ↦ λ h. absurd (omega (arith, h, ltb→lt size (length text) more))
                  | suc k ↦ λ h. omega (
                    arith,
                    split_from-few fuel k (drop size text)
                        (omega (arith, h, length-drop size text)),
                  )
                ]
            fits)
    | inr last ↦ rw (split_from, last) (omega arith)
  ]

-- A text that is not too long for the check is cut into at most 100 tasks, none of them longer than
-- the service takes, and one after the other they are the text.
pub split_tasks_lem :
    (text : Text)
    → length text ≤ 100 * large_text_size
    → (joined_parts (split_tasks text) ≡ text)
      × All (λ task. length task ≤ large_text_size) (split_tasks text)
      × (length (split_tasks text) ≤ 100)
unfolding split_tasks
split_tasks_lem text fits = (
  joined_parts-split_from (length text) 9000 text,
  split_from-fit 9000 (omega arith) (length text) text (omega arith),
  split_from-few 9000 (omega arith) (length text) 99 text fits,
)
