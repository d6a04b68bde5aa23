-- ===== src/Moderation/Green.antt =====
-- builder/sensitive/aliyun_green.go: texts and images are judged by a service of Aliyun, whose answers
-- are parameters; long texts are cut into tasks.
use csghub_server.Prelude.{
  ◌++◌, Text, text_eq, codes, split, is_empty, length, take, drop, ltb, ◌==◌, ◌*◌, ◌&&◌, ◌||◌, not,
  ℕ, zero, suc, Bool, true, false, Option, none, some, List, [], ◌∷◌, if◌then◌else◌, any,
}
pub mod Tasks
pub mod Judged

abbrev pub small_text_size : ℕ
small_text_size = 500

abbrev pub large_text_size : ℕ
large_text_size = 9000

pub record CheckResult : Type 0 where
  pub is_sensitive : Bool
  pub reason : Text

-- A result of a scan; `is_sure` says that its rate is 0.8 at least.
pub record ScanResult : Type 0 where
  pub label : Text
  pub is_sure : Bool
  pub suggestion : Text

-- What was scanned of one task; its code is not looked at.
pub record TextScanItem : Type 0 where
  pub code : ℕ
  pub results : List ScanResult

-- The answer about a long text, whose code is not looked at either.
pub record TextScanResponse : Type 0 where
  pub code : ℕ
  pub items : List TextScanItem

-- An answer about a short text.
pub record TextModeration : Type 0 where
  pub status_code : ℕ
  pub body_code : ℕ
  pub labels : Text
  pub reason : Text

-- An answer about an image: its labels, and which of them have a confidence of more than 80.
pub record ImageModeration : Type 0 where
  pub status_code : ℕ
  pub body_code : ℕ
  pub results : List (Text × Bool)

-- The service, whose calls may fail.
pub record Service : Type 0 where
  pub text_scan : List Text → Option TextScanResponse
  pub text_moderation : Text → Text → Option TextModeration
  pub image_moderation : Text → Text → Text → Option ImageModeration

pub data CheckError : Type 0 where
  too_long call_failed bad_code index_panic : CheckError

pub data Checked : Type 0 where
  judged : CheckResult → Checked
  failed_check : CheckError → Checked

abbrev pub harmless : Checked
harmless = judged (record { is_sensitive = false; reason = [] })

abbrev pub sensitive : Text → Checked
sensitive reason = judged (record { is_sensitive = true; reason = reason })

-- The loop of `splitTasks`, by the text that is left; a round cuts off `size` bytes.
unfoldable pub split_from : ℕ → ℕ → Text → List Text
split_from zero size text = text ∷ []
split_from (suc fuel) size text = elim (ltb size (length text)) [
  | true ↦ take size text ∷ split_from fuel size (drop size text)
  | false ↦ text ∷ []
]

unfoldable pub split_tasks : Text → List Text
split_tasks text = split_from (length text) large_text_size text

-- `ad` and `flood` are allowed.
abbrev pub is_allowed : Text → Bool
is_allowed label = text_eq label (codes "ad") || text_eq label (codes "flood")

abbrev pub is_blocked : ScanResult → Bool
is_blocked r = not (is_allowed r.label) && (r.is_sure && text_eq r.suggestion (codes "block"))

unfoldable pub first_blocked : List ScanResult → Option Text
first_blocked [] = none
first_blocked (r ∷ rs) = if is_blocked r then some r.label else first_blocked rs

unfoldable pub scan_verdict : List TextScanItem → Checked
scan_verdict [] = harmless
scan_verdict (item ∷ items) = elim (first_blocked item.results) [
  | none ↦ scan_verdict items
  | some label ↦ sensitive label
]

unfoldable pub pass_large_text_check : Service → Text → Checked
pass_large_text_check s text =
    if ltb (100 * large_text_size) (length text)
    then failed_check too_long
    else elim (s.text_scan (split_tasks text)) [
      | none ↦ failed_check call_failed
      | some response ↦ scan_verdict response.items
    ]

abbrev pub is_ok : ℕ → ℕ → Bool
is_ok status code = status == 200 && code == 200

-- The verdict on the labels of a short text.
abbrev pub labels_verdict : TextModeration → Checked
labels_verdict m =
    if is_empty m.labels
    then harmless
    else if any (λ label. not (is_allowed label)) (split b',' m.labels)
    then sensitive m.reason
    else harmless

unfoldable pub pass_text_check : Service → Text → Text → Checked
pass_text_check s scenario text =
    if ltb small_text_size (length text)
    then pass_large_text_check s text
    else elim (s.text_moderation scenario text) [
      | none ↦ failed_check call_failed
      | some m ↦ if is_ok m.status_code m.body_code then labels_verdict m else failed_check bad_code
    ]

-- The labels with much confidence, each once, in no particular order in the source.
unfoldable pub confident_labels : List (Text × Bool) → List Text
confident_labels [] = []
confident_labels ((label, is_sure) ∷ rs) =
    let rest = confident_labels rs in
    if is_sure && not (any (text_eq label) rest) then label ∷ rest else rest

unfoldable pub joined_labels : List Text → Text
joined_labels [] = []
joined_labels (l ∷ []) = l
joined_labels (l ∷ m ∷ ls) = l ++ (b',' ∷ joined_labels (m ∷ ls))

-- The first result is looked at only if there is none, which panics.
unfoldable pub image_verdict : List (Text × Bool) → Checked
image_verdict [] = failed_check index_panic
image_verdict (r ∷ rs) = elim (confident_labels (r ∷ rs)) [
  | [] ↦ harmless
  | l ∷ ls ↦ sensitive (joined_labels (l ∷ ls))
]

unfoldable pub pass_image_check : Service → Text → Text → Text → Checked
pass_image_check s scenario bucket object = elim (s.image_moderation scenario bucket object) [
  | none ↦ failed_check call_failed
  | some m ↦
      if is_ok m.status_code m.body_code then image_verdict m.results else failed_check bad_code
]
