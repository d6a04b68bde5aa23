-- ===== src/Tags/Examples.antt =====
-- A model with a few tags, and the theorems at it.
use csghub_server.Tags.Folder.{library_tag_folder}
use csghub_server.Tags.Category.{update_repo_tags_by_category_lem}
use csghub_server.Tags.Component.{
  all_tags_by_scope_and_category, ids_of_names, ids_of_rows, framework_tag, Queries,
  update_library_tags, update_repo_tags_by_category,
}
use csghub_server.Tags.Counts.{occurrences, count_of, upsert_repo_tags_lem, Recounted}
use csghub_server.Tags.Store.{
  set_library_tag, decrease_all, increase_all, upsert_repo_tags, Rows, Statements, Tag,
}
use csghub_server.Tags.Complete.{process_tags_complete, IsFiled}
use csghub_server.Tags.Processed.{process_tags_lem, AllFound}
use csghub_server.Tags.Names.{trim_slashes, base, library_tag, meta_text, split_dashes}
use csghub_server.Tags.Processor.{map_category_tag, process_tags}
use csghub_server.Prelude.{Text, codes, ℕ, true, List, [], ◌∷◌, ◌++◌, ◌≡◌, refl, here, there, arith}

abbrev tag : ℕ → Text → Text → Tag
tag i category name = record {
  id = i;
  name = name;
  category = category;
  group = [];
  scope = codes "model";
  built_in = true;
}

abbrev model_tags : List Tag
model_tags =
    tag 1 (codes "task") (codes "vision")
    ∷ tag 2 (codes "task") (codes "text")
    ∷ tag 3 (codes "framework") (codes "onnx")
    ∷ []

-- Repository 9 has the tag `vision`.
abbrev table : Rows
table = record {
  rows = record { id = 1; repository_id = 9; tag_id = 1; count = 1 } ∷ [];
  next_id = 2;
}

abbrev all_go : Statements
all_go = record { decreases = λ _. true; increases = λ _. true; deletes = true; inserts = true }

abbrev all_answer : Queries
all_answer = record { lists_tags = true; lists_old = true; finds_repo = true; saves_tags = true }

library_of_file : library_tag (codes "dir/Model.ONNX") ≡ codes "onnx"
unfolding library_tag base trim_slashes
library_of_file = refl

metadata_of_readme : meta_text (codes "---\nlicense: mit\n---\n# Hi") ≡ codes "\nlicense: mit\n"
unfolding meta_text split_dashes
metadata_of_readme = refl

-- A new file of the library gets its tag a row, a second one counts it up.
two_files :
    (update_library_tags all_answer all_go
      (codes "model")
      9
      []
      (codes "b.onnx")
      model_tags
      (update_library_tags all_answer all_go
        (codes "model")
        9
        []
        (codes "a.onnx")
        model_tags
        table).0).0.rows
    ≡ table.rows ++ record { id = 2; repository_id = 9; tag_id = 3; count = 2 } ∷ []
unfolding update_library_tags library_tag base trim_slashes framework_tag set_library_tag
    increase_all decrease_all
two_files = refl

upsert_repo_tags_example :
    Recounted 9 (1 ∷ 2 ∷ []) (2 ∷ []) table (upsert_repo_tags all_go 9 (1 ∷ 2 ∷ []) (2 ∷ []) table)
upsert_repo_tags_example = upsert_repo_tags_lem all_go 9 (1 ∷ 2 ∷ []) (2 ∷ []) table

update_repo_tags_by_category_test :
    count_of 9 1
      (update_repo_tags_by_category all_answer all_go
        (codes "model")
        9
        (codes "task")
        (codes "text" ∷ [])
        model_tags
        table).0
    ≡ occurrences 1 (
        ids_of_names
          (all_tags_by_scope_and_category (codes "model") (codes "task") model_tags)
          (codes "text" ∷ []))
unfolding update_repo_tags_by_category upsert_repo_tags increase_all decrease_all ids_of_rows
    ids_of_names
update_repo_tags_by_category_test =
    update_repo_tags_by_category_lem all_answer all_go (codes "model") (codes "task") 9 1
      (codes "text" ∷ []) model_tags table refl refl (omega arith)

abbrev readme : List (Text × List Text)
readme = (codes "task", codes "text" ∷ codes "audio" ∷ []) ∷ (codes "colour", codes "red" ∷ []) ∷ []

process_tags_test :
    AllFound
      (codes "model")
      model_tags
      readme
      (process_tags (codes "model") (map_category_tag model_tags) readme)
process_tags_test = process_tags_lem (codes "model") model_tags readme

process_tags_complete_test :
    IsFiled
      (codes "task")
      (codes "audio")
      (process_tags (codes "model") (map_category_tag model_tags) readme)
process_tags_complete_test =
    process_tags_complete (codes "model") model_tags readme (tag 1 (codes "task") (codes "vision"))
      (codes "audio") (codes "text" ∷ codes "audio" ∷ []) here here (there here)

library_tag_folder_test : library_tag (codes "a/b/x.pt") ≡ library_tag (codes "x.pt")
library_tag_folder_test =
    library_tag_folder (codes "a/b") (codes "x.pt") (refl, (refl, (refl, (refl, (refl, tt)))))
