-- ===== src/Tags/Store.antt =====
-- builder/store/database/tag.go: the tags of a repository with their counts. A transaction in which a
-- statement fails is rolled back; `works` says which of its statements go through.
use csghub_server.Prelude.{
  Text, ℕ, suc, ◌-◌, Bool, true, false, ◌&&◌, Option, none, some, List, [], ◌∷◌, ◌++◌, map,
  if◌then◌else◌, ◌==◌, ltb, keep, any, not, text_eq, is_empty, codes, Fetched, found, no_rows,
  failed,
}

pub record Tag : Type 0 where
  pub id : ℕ
  pub name : Text
  pub category : Text
  pub group : Text
  pub scope : Text
  pub built_in : Bool

pub record RepositoryTag : Type 0 where
  pub id : ℕ
  pub repository_id : ℕ
  pub tag_id : ℕ
  pub count : ℕ

-- The table and the key of its next row.
pub record Rows : Type 0 where
  pub rows : List RepositoryTag
  pub next_id : ℕ

abbrev pub is_row_of : ℕ → ℕ → RepositoryTag → Bool
is_row_of r t x = x.repository_id == r && x.tag_id == t

abbrev pub row_of : ℕ → ℕ → List RepositoryTag → Option RepositoryTag
row_of r t [] = none
row_of r t (x ∷ xs) = if is_row_of r t x then some x else row_of r t xs

-- `SET count = count-1 WHERE ... and count > 0`
abbrev pub lessen : ℕ → ℕ → RepositoryTag → RepositoryTag
lessen r t x = if is_row_of r t x && ltb 0 x.count then record x { count = x.count - 1 } else x

abbrev pub decrease : ℕ → ℕ → Rows → Rows
decrease r t s = record s { rows = map (lessen r t) s.rows }

abbrev pub increase_row : ℕ → ℕ → RepositoryTag → RepositoryTag
increase_row r t x = if is_row_of r t x then record x { count = suc x.count } else x

-- An insert of a pair that is there counts up, by the unique index on repository and tag.
abbrev pub insert_or_increase : ℕ → ℕ → Option RepositoryTag → Rows → Rows
insert_or_increase r t none s = record {
  rows = s.rows ++ record { id = s.next_id; repository_id = r; tag_id = t; count = 1 } ∷ [];
  next_id = suc s.next_id;
}
insert_or_increase r t (some x) s = record s { rows = map (increase_row r t) s.rows }

abbrev pub increase : ℕ → ℕ → Rows → Rows
increase r t s = insert_or_increase r t (row_of r t s.rows) s

-- The loops over old and new tags: `none` is the error of a statement that fails.
unfoldable pub decrease_all : (ℕ → Bool) → ℕ → List ℕ → Rows → Option Rows
decrease_all works r [] s = some s
decrease_all works r (t ∷ ts) s =
    let rest = decrease_all works r ts (decrease r t s) in if works t then rest else none

unfoldable pub increase_all : (ℕ → Bool) → ℕ → List ℕ → Rows → Option Rows
increase_all works r [] s = some s
increase_all works r (t ∷ ts) s =
    let rest = increase_all works r ts (increase r t s) in if works t then rest else none

-- Which statements of a transaction go through.
pub record Statements : Type 0 where
  pub decreases : ℕ → Bool
  pub increases : ℕ → Bool
  pub deletes : Bool
  pub inserts : Bool

abbrev pub then_increase : (ℕ → Bool) → ℕ → List ℕ → Option Rows → Option Rows
then_increase works r ts none = none
then_increase works r ts (some s) = increase_all works r ts s

-- The table after a transaction, and whether it was committed.
abbrev pub in_tx : Rows → Option Rows → Rows × Bool
in_tx s none = (s, false)
in_tx s (some s') = (s', true)

unfoldable pub upsert_repo_tags : Statements → ℕ → List ℕ → List ℕ → Rows → Rows × Bool
upsert_repo_tags st r old new s =
    in_tx s (then_increase st.increases r new (decrease_all st.decreases r old s))

-- A nil tag is left alone.
abbrev pub tag_ids : Option Tag → List ℕ
tag_ids none = []
tag_ids (some t) = t.id ∷ []

-- The transaction of `SetLibraryTag`
unfoldable pub set_library_tag : Statements → ℕ → Option Tag → Option Tag → Rows → Rows × Bool
set_library_tag st r new old s =
    in_tx s
      (then_increase st.increases r (tag_ids new) (decrease_all st.decreases r (tag_ids old) s))

abbrev pub is_one_of : List ℕ → ℕ → Bool
is_one_of ts t = any (λ u. u == t) ts

abbrev pub delete_tags : ℕ → List ℕ → Rows → Rows
delete_tags r ts s = record s {
  rows = keep (λ x. not (x.repository_id == r && is_one_of ts x.tag_id)) s.rows;
}

unfoldable pub remove_repo_tags : Bool → ℕ → List ℕ → Rows → Rows × Bool
remove_repo_tags works r ts s =
    if is_empty ts then (s, true) else if works then (delete_tags r ts s, true) else (s, false)

abbrev pub framework : Text
framework = codes "framework"

abbrev pub is_framework : Tag → Bool
is_framework t = text_eq t.category framework

-- One row for each new tag, with count 1.
unfoldable pub insert_tags : ℕ → List Tag → Rows → Rows
insert_tags r [] s = s
insert_tags r (t ∷ ts) s = insert_tags r ts (record {
  rows = s.rows ++ record { id = s.next_id; repository_id = r; tag_id = t.id; count = 1 } ∷ [];
  next_id = suc s.next_id;
})

abbrev pub insert_meta_tags : Bool → ℕ → List Tag → Rows → Option Rows
insert_meta_tags works r ts s =
    if is_empty ts
    then some s
    else if any is_framework ts
    then none
    else if works
    then some (insert_tags r ts s)
    else none

-- The transaction of `SetMetaTags`: `held` are the tags that the repository has; the error of the
-- delete is not looked at.
unfoldable pub set_meta_tags : Statements → ℕ → List Tag → List Tag → Rows → Rows × Bool
set_meta_tags st r held tags s =
    let meta = map (λ t. t.id) (keep (λ t. not (is_framework t)) held) in
    in_tx s (insert_meta_tags st.inserts r tags (if st.deletes then delete_tags r meta s else s))

-- `FindOrCreate`: it returns the row that the query scanned, also when it inserted the tag.
abbrev pub zero_tag : Tag
zero_tag = record { id = 0; name = []; category = []; group = []; scope = []; built_in = false }

unfoldable pub find_or_create : Bool → Fetched Tag → Tag → List Tag × Option Tag
find_or_create inserts (found t) tag = ([], some t)
find_or_create inserts no_rows tag = if inserts then (tag ∷ [], some zero_tag) else ([], none)
find_or_create inserts failed tag = if inserts then (tag ∷ [], some zero_tag) else ([], none)
