-- ===== src/Repos/Git/Objects.antt =====
-- component/git_http.go: the objects of LFS, in the object store and in the table of their metadata
-- (builder/store/database/lfs_meta_object.go), which has a unique index on repository and oid.
-- `sha256` is the hash in hexadecimal, and `reported` the size that the object store reports of an
-- upload. The links of an answer are the names of their actions.
pub mod Uploads
use csghub_server.Prelude.{
  Text, text_eq, codes, ℕ, Bool, true, false, not, ◌&&◌, ◌||◌, Option, none, some, if◌then◌else◌,
  List, [], ◌∷◌, ◌++◌, map, keep, any, length, ◌==◌, leb, ◌≡◌,
}
use csghub_server.Repos.Store.{
  Repository, World, Env, Place, LfsMetaObject, Outcome, ok, err, ◌>>=◌, ◌>>◌, guard, Error,
  not_found, unauthorized, no_permission, store_failed, invalid_oid, size_mismatch, hash_mismatch,
  Done, checked, and_then, find_by_path, find_lfs_meta, insert_lfs_meta, remove_lfs_meta,
  stat_object, put_object, remove_object,
}
use csghub_server.Repos.Access.{allow_read_access, allow_write_access}
use csghub_server.Repos.Files.Lfs.{Pointer, relative_path}

-- `Valid`: 64 hexadecimal digits in lower case; sizes are not negative here.
abbrev pub is_hex : ℕ → Bool
is_hex c = (leb b'0' c && leb c b'9') || (leb b'a' c && leb c b'f')

unfoldable pub is_valid : Pointer → Bool
is_valid p = length p.oid == 64 && not (any (λ c. not (is_hex c)) p.oid)

abbrev pub key_of : Pointer → Text
key_of p = codes "lfs/" ++ relative_path p.oid

abbrev pub object_at : Text → List (Text × Text) → Option Text
object_at k [] = none
object_at k (o ∷ os) = if text_eq o.0 k then some o.1 else object_at k os

-- `StatObject`: an error of any kind counts as absence.
unfoldable pub stat : Env → Text → World → Option Text
stat env k w = if env.fails (stat_object k) then none else object_at k w.objects

abbrev pub exists : Option Text → Bool
exists none = false
exists (some o) = true

abbrev pub without_object : Text → List (Text × Text) → List (Text × Text)
without_object k os = keep (λ o. not (text_eq o.0 k)) os

abbrev pub is_meta_of : Text → ℕ → LfsMetaObject → Bool
is_meta_of oid r m = text_eq m.oid oid && m.repository_id == r

abbrev pub meta_by_oid : Text → ℕ → List LfsMetaObject → Option LfsMetaObject
meta_by_oid oid r [] = none
meta_by_oid oid r (m ∷ ms) = if is_meta_of oid r m then some m else meta_by_oid oid r ms

-- `FindByOID`: `none` is "no rows".
unfoldable pub find_meta : Env → Text → ℕ → World → Outcome (Option LfsMetaObject)
find_meta env oid r w =
    if env.fails (find_lfs_meta oid r) then err store_failed else ok (meta_by_oid oid r w.lfs_metas)

-- `Create` and `RemoveByOid`
abbrev pub meta_row : Pointer → ℕ → LfsMetaObject
meta_row p r = record { oid = p.oid; size = p.size; repository_id = r }

unfoldable pub create_meta : Env → Pointer → ℕ → World → Done (Unit {0})
create_meta env p r w =
    if env.fails (insert_lfs_meta p.oid r) || any (is_meta_of p.oid r) w.lfs_metas
    then (w, err store_failed)
    else (record w { lfs_metas = w.lfs_metas ++ meta_row p r ∷ [] }, ok tt)

unfoldable pub remove_meta : Env → Text → ℕ → World → Done (Unit {0})
remove_meta env oid r w =
    if env.fails (remove_lfs_meta oid r)
    then (w, err store_failed)
    else (record w { lfs_metas = keep (λ m. not (is_meta_of oid r m)) w.lfs_metas }, ok tt)

pub record ObjectEnv : Type 0 where
  pub env : Env
  pub sha256 : Text → Text
  pub reported : Text → ℕ
  -- whether a link for the upload or the download can be signed
  pub signs : Text → Option Text

pub record UploadReq : Type 0 where
  pub place : Place
  pub oid : Text
  pub size : ℕ
  pub current_user : Text
  pub body : Text

abbrev pub pointer : UploadReq → Pointer
pointer q = record { oid = q.oid; size = q.size }

-- A user who may not write has to prove to have the object: the size and the hash are checked.
abbrev pub proves : ObjectEnv → UploadReq → Outcome (Unit {0})
proves e q =
    guard (length q.body == q.size) size_mismatch
    >> guard (text_eq (e.sha256 q.body) q.oid) hash_mismatch

abbrev pub may_have : ObjectEnv → UploadReq → Outcome Bool → Outcome (Unit {0})
may_have e q (ok true) = ok tt
may_have e q (ok false) = proves e q
may_have e q (err x) = err x

abbrev pub removed : Env → Text → World → World
removed env k w =
    if env.fails (remove_object k) then w else record w { objects = without_object k w.objects }

-- The upload: one that fails, or whose size is not the reported one, is removed again, and its error
-- goes no further.
unfoldable pub put : ObjectEnv → UploadReq → World → World
put e q w =
    let k = key_of (pointer q) in
    let w' = record w { objects = without_object k w.objects ++ (k, q.body) ∷ [] } in
    if e.env.fails (put_object k)
    then removed e.env k w
    else if e.reported q.body == q.size
    then w'
    else removed e.env k w'

unfoldable pub upload_or_verify : ObjectEnv → UploadReq → Repository → World → Done (Unit {0})
upload_or_verify e q repo w =
    if exists (stat e.env (key_of (pointer q)) w)
    then checked (may_have e q (allow_write_access e.env q.place q.current_user w))
        (λ _. create_meta e.env (pointer q) repo.id) w
    else create_meta e.env (pointer q) repo.id (put e q w)

-- An error has the metadata removed; what `LfsUpload` returns then is the error of the removal.
abbrev pub cleaned : ObjectEnv → UploadReq → Repository → Done (Unit {0}) → Done (Unit {0})
cleaned e q repo (w, ok a) = (w, ok a)
cleaned e q repo (w, err x) = remove_meta e.env q.oid repo.id w

unfoldable pub upload_checks : ObjectEnv → UploadReq → World → Outcome Repository
upload_checks e q w = do
  repo ← find_by_path e.env q.place w
  guard (is_valid (pointer q)) invalid_oid
  ok repo

-- `LfsUpload`
unfoldable pub lfs_upload : ObjectEnv → UploadReq → World → Done (Unit {0})
lfs_upload e q w =
    checked (upload_checks e q w) (λ repo v. cleaned e q repo (upload_or_verify e q repo v)) w

abbrev pub size_of : Option Text → Outcome ℕ
size_of none = err store_failed
size_of (some o) = ok (length o)

unfoldable pub verify_checks : Env → Place → Pointer → World → Outcome Repository
verify_checks env p o w = do
  repo ← find_by_path env p w
  n ← size_of (stat env (key_of o) w)
  guard (n == o.size) size_mismatch
  ok repo

-- `LfsVerify`
unfoldable pub lfs_verify : Env → Place → Pointer → World → Done (Unit {0})
lfs_verify env p o w = checked (verify_checks env p o w) (λ repo. create_meta env o repo.id) w

-- What a batch answers for an object: an error, or the names of the actions with their links.
pub data Answer : Type 0 where
  bad_object : Pointer → Answer
  actions : Pointer → List Text → Answer

abbrev pub download_answer : Pointer → Answer
download_answer o = actions o (codes "download" ∷ [])

-- An object that is there needs no upload.
abbrev pub upload_answer : Pointer → Bool → Answer
upload_answer o there' = actions o (if there' then [] else codes "upload" ∷ codes "verify" ∷ [])

abbrev pub wrong_size : Pointer → Option LfsMetaObject → Bool
wrong_size o none = false
wrong_size o (some m) = not (o.size == m.size)

-- An object that is stored, but unknown to the repository, becomes known if the user may write.
abbrev pub adopt : Env → Pointer → Repository → Outcome Bool → World → Done Answer
adopt env o repo (err x) w = (w, err unauthorized)
adopt env o repo (ok false) w = (w, ok (upload_answer o false))
adopt env o repo (ok true) w =
    and_then (create_meta env o repo.id w) (λ _ v. (v, ok (upload_answer o true)))

abbrev pub is_unknown : Option LfsMetaObject → Bool
is_unknown none = true
is_unknown (some m) = false

abbrev pub known_answer :
    Env → Place → Text → Repository → Bool → Pointer → Option LfsMetaObject → World → Done Answer
known_answer env p user repo upload o m w =
    let there' = exists (stat env (key_of o) w) in
    if wrong_size o m
    then (w, ok (bad_object o))
    else if not upload
    then (w, ok (download_answer o))
    else if there' && is_unknown m
    then adopt env o repo (allow_write_access env p user w) w
    else (w, ok (upload_answer o there'))

-- One round of `BuildObjectResponse`.
unfoldable pub answer_object :
    Env → Place → Text → Repository → Bool → Pointer → World → Done Answer
answer_object env p user repo upload o w =
    if is_valid o
    then checked (find_meta env o.oid repo.id w) (known_answer env p user repo upload o) w
    else (w, ok (bad_object o))

unfoldable pub answer_objects :
    Env → Place → Text → Repository → Bool → List Pointer → World → Done (List Answer)
answer_objects env p user repo upload [] w = (w, ok [])
answer_objects env p user repo upload (o ∷ os) w =
    and_then (answer_object env p user repo upload o w)
      (λ a v. and_then (answer_objects env p user repo upload os v) (λ rest x. (x, ok (a ∷ rest))))

-- `BuildObjectResponse`
unfoldable pub build_object_response :
    Env → Place → Text → Bool → List Pointer → World → Done (List Answer)
build_object_response env p user upload os w =
    checked (find_by_path env p w) (λ repo. answer_objects env p user repo upload os) w

abbrev pub signed : Option Text → Outcome Text
signed none = err store_failed
signed (some link) = ok link

abbrev pub is_there : Option LfsMetaObject → Outcome LfsMetaObject
is_there none = err not_found
is_there (some m) = ok m

-- `LfsDownload`
unfoldable pub lfs_download : ObjectEnv → Place → Text → Text → World → Outcome Text
lfs_download e p oid user w = do
  repo ← find_by_path e.env p w
  allowed ← allow_read_access e.env p user w
  guard allowed no_permission
  m ← find_meta e.env oid repo.id w
  row ← is_there m
  signed (e.signs (key_of (record { oid = oid; size = 0 })))
