-- ===== src/Tags/Names.antt =====
-- component/tagparser: the category of a key of the metadata (category_name.go), the metadata of a
-- README file (contentparser.go), and the library of a file name (nameparser.go), over ASCII.
use csghub_server.Deploy.AppName.{last_or}
use csghub_server.Tags.Store.{framework}
use csghub_server.Prelude.{
  Text, codes, ℕ, Bool, ◌&&◌, ◌||◌, List, [], ◌∷◌, if◌then◌else◌, ◌==◌, text_eq, to_lower,
  has_prefix, has_suffix, is_empty, split, extend,
}

abbrev pub category_task : Text
category_task = codes "task"

abbrev pub category_license : Text
category_license = codes "license"

abbrev pub category_size : Text
category_size = codes "size"

-- `strings.EqualFold`
abbrev pub equal_fold : Text → Text → Bool
equal_fold a b = text_eq (to_lower a) (to_lower b)

unfoldable pub format_category_name : Text → Text
format_category_name name =
    if equal_fold name category_task
    then category_task
    else if equal_fold name (codes "tasks")
    then category_task
    else if equal_fold name (codes "tags")
    then category_task
    else if equal_fold name (codes "task_categories")
    then category_task
    else if equal_fold name (codes "pipeline_tag")
    then category_task
    else if equal_fold name category_license
    then category_license
    else if equal_fold name framework
    then framework
    else if equal_fold name category_size
    then category_size
    else if equal_fold name (codes "size_categories")
    then category_size
    else name

abbrev is_dash : ℕ → ℕ → ℕ → Bool
is_dash a b c = a == b'-' && (b == b'-' && c == b'-')

-- `strings.Split(s, "---")`
unfoldable pub split_dashes : Text → List Text
split_dashes [] = [] ∷ []
split_dashes (a ∷ []) = (a ∷ []) ∷ []
split_dashes (a ∷ b ∷ []) = (a ∷ b ∷ []) ∷ []
split_dashes (a ∷ b ∷ c ∷ s) =
    let behind = split_dashes s in
    let inside = split_dashes (b ∷ c ∷ s) in if is_dash a b c then [] ∷ behind else extend a inside

abbrev second : List Text → Text
second [] = []
second (p ∷ []) = []
second (p ∷ q ∷ ps) = q

unfoldable pub meta_text : Text → Text
meta_text readme = second (split_dashes readme)

-- `filepath.Base` of a path that is not empty
unfoldable pub trim_slashes : Text → Text
trim_slashes [] = []
trim_slashes (c ∷ s) =
    let rest = trim_slashes s in if is_empty rest && c == b'/' then [] else c ∷ rest

unfoldable pub base : Text → Text
base path = let t = trim_slashes path in if is_empty t then codes "/" else last_or [] (split b'/' t)

abbrev pub is_pytorch : Text → Bool
is_pytorch f =
    (has_prefix f (codes "pytorch_model") && has_suffix f (codes ".bin"))
    || has_suffix f (codes ".pt")

abbrev pub is_tensorflow : Text → Bool
is_tensorflow f = has_prefix f (codes "tf_model") && has_suffix f (codes ".h5")

abbrev pub is_safetensors : Text → Bool
is_safetensors f = has_suffix f (codes ".safetensors")

abbrev pub is_jax : Text → Bool
is_jax f = has_prefix f (codes "flax_model") && has_suffix f (codes ".msgpack")

abbrev pub library_of : Text → Text
library_of f =
    if is_pytorch f
    then codes "pytorch"
    else if is_tensorflow f
    then codes "tensorflow"
    else if is_safetensors f
    then codes "safetensors"
    else if is_jax f
    then codes "jax"
    else if has_suffix f (codes ".onnx")
    then codes "onnx"
    else if has_suffix f (codes ".pdparams")
    then codes "paddlepaddle"
    else if has_suffix f (codes ".joblib")
    then codes "joblib"
    else if has_suffix f (codes ".gguf")
    then codes "gguf"
    else []

unfoldable pub library_tag : Text → Text
library_tag path = if is_empty path then [] else library_of (to_lower (base path))
