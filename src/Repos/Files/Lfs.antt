-- ===== src/Repos/Files/Lfs.antt =====
-- component/repo.go: which files of a repository are kept in the object store. The pattern matching of
-- `filepath.Match`, base64, SHA-256 and the decimal format are arguments, as are the attributes file
-- of a branch, decoded, and the size that the object store reports of an upload.
use Prim.Native.Nat.{zero}
use csghub_server.Prelude.{
  suc, Text, text_eq, is_empty, codes, split, to_lower, has_prefix, length, ℕ, Bool, not, Option,
  if◌then◌else◌, List, [], ◌∷◌, ◌++◌, ◌||◌, ◌&&◌, ◌==◌, leb, ltb, any, keep, take, insert, extend,
}
use csghub_server.Repos.Store.{Place}

pub record LfsEnv : Type 0 where
  pub is_gitaly : Bool
  pub attributes : Place → Text → Option Text
  pub matches : Text → Text → Bool
  pub sha256 : Text → Text
  pub format : ℕ → Text
  pub encode : Text → Text
  pub decode : Text → Text
  pub uploaded_size : Text → Text → ℕ

-- ASCII white space
abbrev pub is_space : ℕ → Bool
is_space c = c == 32 || (leb 9 c && leb c 13)

unfoldable pub split_spaces : Text → List Text
split_spaces [] = [] ∷ []
split_spaces (c ∷ s) = let rest = split_spaces s in if is_space c then [] ∷ rest else extend c rest

-- `strings.Fields`
unfoldable pub fields : Text → List Text
unfolding split_spaces
fields s = keep (λ f. not (is_empty f)) (split_spaces s)

-- A line counts if it has two fields and is no comment: its first field, with the others.
unfoldable pub put_line : List Text → List (Text × List Text) → List (Text × List Text)
put_line [] m = m
put_line (f ∷ []) m = m
put_line (f ∷ g ∷ fs) m = if has_prefix f (codes "#") then m else insert f (g ∷ fs) m

unfoldable pub put_lines : List Text → List (Text × List Text) → List (Text × List Text)
put_lines [] m = m
put_lines (s ∷ ss) m = put_lines ss (put_line (fields s) m)

unfoldable pub parse_gitattributes : Text → List (Text × List Text)
parse_gitattributes content = put_lines (split 10 content) []

abbrev pub is_lfs : Text → Bool
is_lfs a = text_eq a (codes "filter=lfs") || text_eq a (codes "lfs")

-- The order of Go's map does not matter: some entry has to match.
unfoldable pub should_use_lfs : LfsEnv → Text → List (Text × List Text) → Bool
should_use_lfs l file m = any (λ e. l.matches e.0 (to_lower file) && any is_lfs e.1) m

pub record Pointer : Type 0 where
  pub oid : Text
  pub size : ℕ

-- `generateLFSPointerFromContent`: the pointer, and the encoded text that stands for the file.
abbrev pub pointer_of : LfsEnv → Text → Pointer
pointer_of l content = record { oid = l.sha256 content; size = length content }

abbrev pub pointer_file : LfsEnv → Pointer → Text
pointer_file l p = l.encode (
    codes "version https://git-lfs.github.com/spec/v1"
    ++ (10 ∷ codes "oid sha256:" ++ p.oid)
    ++ (10 ∷ codes "size " ++ l.format p.size)
    ++ 10 ∷ [])

abbrev pub drop : ℕ → Text → Text
drop zero s = s
drop (suc n) [] = []
drop (suc n) (c ∷ s) = drop n s

-- `RelativePath` of common/types/git_http.go
unfoldable pub relative_path : Text → Text
relative_path oid =
    if ltb (length oid) 5
    then oid
    else take 2 oid ++ (b'/' ∷ take 2 (drop 2 oid)) ++ (b'/' ∷ drop 4 oid)
