-- ===== src/Moderation/Files.antt =====
-- moderation/checker: the checker of a file by its kind, and what the checkers say. A reader gives
-- bytes and then ends, or fails, or cannot be opened; the sniffing of content types is a parameter.
use csghub_server.Prelude.{
  map, ◌+◌, Text, text_eq, codes, split, is_empty, has_prefix, to_lower, length, take, drop, ltb,
  leb, ◌==◌, ◌*◌, ◌&&◌, ◌||◌, ◌++◌, not, ℕ, zero, suc, Bool, true, false, Option, none, some, List,
  [], ◌∷◌, if◌then◌else◌, any,
}
pub mod Passed
use csghub_server.Moderation.Words.{State, contains_sensitive_word}
use csghub_server.Moderation.Runes.{runes}
use csghub_server.Moderation.Green.{
  Service, Checked, CheckResult, judged, failed_check, pass_text_check,
}

-- `SensitiveCheckStatus`
pub data Status : Type 0 where
  check_fail check_pending check_pass check_skip check_exception : Status

pub data Content : Type 0 where
  not_opened : Content
  -- the bytes, and whether the end of the file comes behind them, and not an error
  opened : Text → Bool → Content

pub data FileChecker : Type 0 where
  folder lfs image text unknown : FileChecker

-- The sensitive words, the remote service, and the sniffing of a content type.
pub record Checkers : Type 0 where
  pub words : State
  pub service : Service
  pub detect : Text → Text

abbrev pub Verdict : Type 0
Verdict = Status × Text

abbrev pub image_exts : List Text
image_exts =
    codes ".png"
    ∷ codes ".jpg"
    ∷ codes ".jpeg"
    ∷ codes ".gif"
    ∷ codes ".tif"
    ∷ codes ".tiff"
    ∷ codes ".svg"
    ∷ codes ".bmp"
    ∷ codes ".webp"
    ∷ []

abbrev pub text_exts : List Text
text_exts =
    codes ".md"
    ∷ codes ".txt"
    ∷ codes ".csv"
    ∷ codes ".json"
    ∷ codes ".jsonl"
    ∷ codes ".html"
    ∷ codes ".cs"
    ∷ codes ".js"
    ∷ codes ".ts"
    ∷ codes ".py"
    ∷ codes ".php"
    ∷ codes ".java"
    ∷ codes ".c"
    ∷ codes ".cpp"
    ∷ codes ".go"
    ∷ codes ".rb"
    ∷ codes ".sh"
    ∷ []

-- `path.Ext`: from the last dot of the last element on
unfoldable pub ext_from : Text → Text → Text
ext_from ext [] = ext
ext_from ext (c ∷ s) = ext_from (if c == b'/' then [] else if c == b'.' then c ∷ s else ext) s

-- The extension goes up to the end, so a slash behind a dot leaves none.
unfoldable pub path_ext : Text → Text
path_ext path = ext_from [] path

-- A letter as `strings.EqualFold` sees it beside one of ASCII: U+017F is an s, and U+212A a k.
abbrev pub fold_rune : ℕ → ℕ
fold_rune c =
    if c == 383
    then b's'
    else if c == 8490
    then b'k'
    else if leb b'A' c && leb c b'Z'
    then c + 32
    else c

-- `strings.EqualFold` with a text of ASCII
abbrev pub equal_fold : Text → Text → Bool
equal_fold ext known = text_eq (map fold_rune (runes ext)) (map fold_rune (runes known))

abbrev pub is_one_of : List Text → Text → Bool
is_one_of exts ext = any (equal_fold ext) exts

unfoldable pub get_file_checker : Text → Text → Text → FileChecker
get_file_checker file_type path lfs_path =
    if text_eq file_type (codes "folder")
    then folder
    else if not (is_empty lfs_path)
    then lfs
    else if is_one_of image_exts (path_ext path)
    then image
    else if is_one_of text_exts (path_ext path)
    then text
    else unknown

abbrev pub read_limit : ℕ
read_limit = 1024 * 1024

abbrev pub block_size : ℕ
block_size = 10 * 9000

-- At most 1 MB is read; an error behind it is not seen.
unfoldable pub read_text : Content → Option Text
read_text not_opened = none
read_text (opened bytes ends) =
    if ends || leb read_limit (length bytes) then some (take read_limit bytes) else none

-- The blocks that the loop reads, each but the last of `size` bytes and none of them empty
unfoldable pub blocks_from : ℕ → ℕ → Text → List Text
blocks_from zero size bytes = []
blocks_from (suc fuel) size [] = []
blocks_from (suc fuel) size (b ∷ bytes) = elim (ltb (length (b ∷ bytes)) size) [
  | true ↦ (b ∷ bytes) ∷ []
  | false ↦ take size (b ∷ bytes) ∷ blocks_from fuel size (drop size (b ∷ bytes))
]

unfoldable pub blocks : Text → List Text
blocks bytes = blocks_from (length bytes) block_size bytes

abbrev pub comment_detection : Text
comment_detection = codes "comment_detection"

abbrev pub remote_verdict : Checked → Verdict → Verdict
remote_verdict (failed_check e) rest = (check_exception, codes "call sensitive checker api failed")
remote_verdict (judged r) rest = if r.is_sensitive then (check_fail, r.reason) else rest

-- The words first, then the service, block by block
unfoldable pub check_blocks : Checkers → List Text → Verdict
check_blocks c [] = (check_pass, [])
check_blocks c (block ∷ blocks) =
    let rest = check_blocks c blocks in
    if contains_sensitive_word c.words (runes block)
    then (check_fail, codes "contains sensitive word")
    else remote_verdict (pass_text_check c.service comment_detection block) rest

unfoldable pub run_text : Checkers → Content → Verdict
run_text c content = elim (read_text content) [
  | none ↦ (check_exception, codes "failed to read file content")
  | some bytes ↦ check_blocks c (blocks bytes)
]

abbrev pub skip_image : Verdict
skip_image = (check_skip, codes "skip image file")

abbrev pub by_type : Checkers → Text → Content → Verdict
by_type c type content =
    if has_prefix type (codes "text")
    then run_text c content
    else if has_prefix type (codes "image")
    then skip_image
    else if has_prefix type (codes "audio")
    then (check_skip, codes "skip binary audio file")
    else if has_prefix type (codes "video")
    then (check_skip, codes "skip binary video file")
    else (check_skip, codes "skip binary file")

-- `UnkownFileChecker`: the first read gives up to 512 bytes; at the end of the file it gives an error.
unfoldable pub run_unknown : Checkers → Content → Verdict
run_unknown c not_opened = (check_exception, codes "failed to read file contents")
run_unknown c (opened [] ends) = (check_exception, codes "failed to read file contents")
run_unknown c (opened (b ∷ bytes) ends) =
    by_type c (c.detect (take 512 (b ∷ bytes))) (opened (b ∷ bytes) ends)

unfoldable pub run_checker : Checkers → FileChecker → Content → Verdict
run_checker c folder content = (check_skip, codes "skip folder")
run_checker c lfs content = (check_skip, codes "skip lfs file")
run_checker c image content = skip_image
run_checker c text content = run_text c content
run_checker c unknown content = run_unknown c content
