-- ===== src/Tags/Processor.antt =====
-- component/tagparser/tag_processor.go: the tags of a README file against the tags that there are. A
-- map of Go is an association list here, in some order of its keys.
use csghub_server.Tags.Store.{Tag}
use csghub_server.Prelude.{Text, false, Option, none, some, List, [], ◌∷◌, ◌++◌, lookup, insert}

-- The tags by category, and there by name.
abbrev pub CategoryMap : Type 0
CategoryMap = List (Text × List (Text × Tag))

abbrev pub names_in : Option (List (Text × Tag)) → List (Text × Tag)
names_in none = []
names_in (some m) = m

abbrev pub add_tag : Tag → CategoryMap → CategoryMap
add_tag t m = insert t.category (insert t.name t (names_in (lookup t.category m))) m

unfoldable pub map_from : List Tag → CategoryMap → CategoryMap
map_from [] m = m
map_from (t ∷ ts) m = map_from ts (add_tag t m)

unfoldable pub map_category_tag : List Tag → CategoryMap
map_category_tag ts = map_from ts []

-- A tag to create has no key yet, and is not built in.
abbrev pub new_tag : Text → Text → Text → Tag
new_tag scope category name = record {
  id = 0;
  name = name;
  category = category;
  group = [];
  scope = scope;
  built_in = false;
}

-- The tags matched and the tags to create.
abbrev pub Found : Type 0
Found = List Tag × List Tag

abbrev pub file : Text → Text → Text → Option Tag → Found → Found
file scope category name none (matched, new) = (matched, new_tag scope category name ∷ new)
file scope category name (some t) (matched, new) = (t ∷ matched, new)

unfoldable pub process_names : Text → Text → List (Text × Tag) → List Text → Found
process_names scope category known [] = ([], [])
process_names scope category known (n ∷ ns) =
    file scope category n (lookup n known) (process_names scope category known ns)

abbrev pub both : Found → Found → Found
both (a, b) (c, d) = (a ++ c, b ++ d)

abbrev pub process_category : Text → Text → Option (List (Text × Tag)) → List Text → Found
process_category scope category none names = ([], [])
process_category scope category (some known) names = process_names scope category known names

unfoldable pub process_tags : Text → CategoryMap → List (Text × List Text) → Found
process_tags scope existing [] = ([], [])
process_tags scope existing ((category, names) ∷ rest) =
    both (process_category scope category (lookup category existing) names)
      (process_tags scope existing rest)
