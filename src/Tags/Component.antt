-- ===== src/Tags/Component.antt =====
-- component/tag.go over the tables. The row of a repository is given by its id where the store finds
-- it by its path: `repo` is `none` if that fails, as `tags` is if the tags cannot be had.
use csghub_server.Tags.Store.{
  set_library_tag, set_meta_tags, upsert_repo_tags, RepositoryTag, Rows, is_framework, Statements,
  Tag,
}
use csghub_server.Tags.Names.{library_tag}
use csghub_server.Prelude.{
  Text, codes, ℕ, Bool, true, false, not, ◌&&◌, ◌||◌, any, keep, map, Option, none, some, List, [],
  ◌∷◌, ◌++◌, if◌then◌else◌, ◌==◌, text_eq, is_empty,
}

-- `AllTagsByScope` and `AllTagsByScopeAndCategory`
abbrev pub all_tags_by_scope : Text → List Tag → List Tag
all_tags_by_scope scope = keep (λ t. text_eq t.scope scope)

abbrev pub all_tags_by_scope_and_category : Text → Text → List Tag → List Tag
all_tags_by_scope_and_category scope category =
    keep (λ t. text_eq t.scope scope && text_eq t.category category)

-- `TagIDs`: the tags of a repository in a category, or in any if the category is empty.
abbrev pub has_category : Text → List Tag → ℕ → Bool
has_category category tags i =
    any (λ t. t.id == i && (is_empty category || text_eq t.category category)) tags

unfoldable pub ids_of_rows : ℕ → Text → List Tag → List RepositoryTag → List ℕ
ids_of_rows r category tags [] = []
ids_of_rows r category tags (x ∷ xs) =
    let rest = ids_of_rows r category tags xs in
    if x.repository_id == r && has_category category tags x.tag_id then x.tag_id ∷ rest else rest

-- The tags with that name, for each name.
unfoldable pub ids_of_names : List Tag → List Text → List ℕ
ids_of_names tags [] = []
ids_of_names tags (n ∷ ns) =
    map (λ t. t.id) (keep (λ t. text_eq t.name n) tags) ++ ids_of_names tags ns

-- Which of the queries before the transaction go through.
pub record Queries : Type 0 where
  pub lists_tags : Bool
  pub lists_old : Bool
  pub finds_repo : Bool
  pub saves_tags : Bool

unfoldable pub update_repo_tags_by_category :
    Queries → Statements → Text → ℕ → Text → List Text → List Tag → Rows → Rows × Bool
update_repo_tags_by_category q st scope r category names tags s =
    let all = all_tags_by_scope_and_category scope category tags in
    let old = ids_of_rows r category tags s.rows in
    if not q.lists_tags
    then (s, false)
    else if is_empty all
    then (s, false)
    else if not q.lists_old
    then (s, false)
    else upsert_repo_tags st r old (ids_of_names all names) s

-- The last framework tag of that name
unfoldable pub framework_tag : Text → List Tag → Option Tag → Option Tag
framework_tag name [] found = found
framework_tag name (t ∷ ts) found =
    framework_tag name ts (if is_framework t && text_eq t.name name then some t else found)

abbrev pub has_tag_processor : Text → Bool
has_tag_processor scope =
    text_eq scope (codes "dataset")
    || (text_eq scope (codes "model") || text_eq scope (codes "prompt"))

unfoldable pub update_library_tags :
    Queries → Statements → Text → ℕ → Text → Text → List Tag → Rows → Rows × Bool
update_library_tags q st scope r old_path new_path tags s =
    let all = all_tags_by_scope scope tags in
    let new = framework_tag (library_tag new_path) all none in
    let old = framework_tag (library_tag old_path) all none in
    if not (has_tag_processor scope)
    then (s, true)
    else if not q.lists_tags
    then (s, false)
    else if not q.finds_repo
    then (s, false)
    else set_library_tag st r new old s

unfoldable pub clear_meta_tags : Queries → Statements → ℕ → List Tag → Rows → Rows × Bool
clear_meta_tags q st r held s = if q.finds_repo then set_meta_tags st r held [] s else (s, false)
