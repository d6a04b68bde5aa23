-- ===== src/Repos/Git/Objects/Uploads.antt =====
-- What `LfsUpload` leaves where it fails inside.
use csghub_server.Prelude.{
  ==_refl, Text, text_eq_refl, ℕ, true, false, not, none, some, List, [], ◌∷◌, ◌++◌, keep, any,
  ◌==◌, Bool-cases, ◌≡◌, refl, arith, inl, inr,
}
use csghub_server.Repos.Store.{
  Repository, World, LfsMetaObject, ok, insert_lfs_meta, remove_lfs_meta, put_object, remove_object,
}
use csghub_server.Repos.Access.{allow_write_access}
use csghub_server.Repos.Git.Objects.{
  ObjectEnv, UploadReq, pointer, key_of, stat, exists, is_meta_of, meta_by_oid, create_meta,
  remove_meta, put, upload_or_verify, upload_checks, lfs_upload, object_at, without_object,
}

meta_gone :
    (oid : Text) (r : ℕ) (ms : List LfsMetaObject)
    → meta_by_oid oid r (keep (λ m. not (is_meta_of oid r m)) ms) ≡ none
meta_gone oid r [] = refl
meta_gone oid r (m ∷ ms) = ground (arith, meta_gone oid r ms)

object_gone : (k : Text) (os : List (Text × Text)) → object_at k (without_object k os) ≡ none
object_gone k [] = refl
object_gone k (o ∷ os) = ground (arith, object_gone k os)

meta_by_oid-append :
    (oid : Text) (r : ℕ) (m : LfsMetaObject) (ms : List LfsMetaObject)
    → any (is_meta_of oid r) ms ≡ false
    → is_meta_of oid r m ≡ true
    → meta_by_oid oid r (ms ++ m ∷ []) ≡ some m
meta_by_oid-append oid r m [] h fits = rw fits refl
meta_by_oid-append oid r m (n ∷ ms) h fits = ground (arith, meta_by_oid-append oid r m ms)

-- A user who may write uploads an object again that is stored and known to the repository: if the
-- removal of metadata goes through, then `LfsUpload` reports success, and the repository does not
-- know the object any more.
pub lfs_upload-again :
    (e : ObjectEnv) (q : UploadReq) (w : World) (repo : Repository)
    → upload_checks e q w ≡ ok repo
    → exists (stat e.env (key_of (pointer q)) w) ≡ true
    → allow_write_access e.env q.place q.current_user w ≡ ok true
    → any (is_meta_of q.oid repo.id) w.lfs_metas ≡ true
    → e.env.fails (remove_lfs_meta q.oid repo.id) ≡ false
    → ((lfs_upload e q w).1 ≡ ok tt)
      × (meta_by_oid q.oid repo.id (lfs_upload e q w).0.lfs_metas ≡ none)
unfolding lfs_upload upload_or_verify create_meta remove_meta
lfs_upload-again e q w repo passes stored may known removes =
    elim (Bool-cases (e.env.fails (insert_lfs_meta q.oid repo.id))) [
      | inl fails ↦
          rw (passes, stored, may, fails, removes) (refl, meta_gone q.oid repo.id w.lfs_metas)
      | inr works ↦
          rw (passes, stored, may, works, known, removes)
            (refl, meta_gone q.oid repo.id w.lfs_metas)
    ]

-- An upload of a new object whose reported size is not the size that was asked for: if the other
-- calls go through, then `LfsUpload` reports success and the repository knows the object, with the
-- size that was asked for, but the object is not in the object store.
pub lfs_upload-lost :
    (e : ObjectEnv) (q : UploadReq) (w : World) (repo : Repository)
    → upload_checks e q w ≡ ok repo
    → exists (stat e.env (key_of (pointer q)) w) ≡ false
    → e.env.fails (put_object (key_of (pointer q))) ≡ false
    → (e.reported q.body == q.size) ≡ false
    → e.env.fails (remove_object (key_of (pointer q))) ≡ false
    → any (is_meta_of q.oid repo.id) w.lfs_metas ≡ false
    → e.env.fails (insert_lfs_meta q.oid repo.id) ≡ false
    → ((lfs_upload e q w).1 ≡ ok tt)
      × (meta_by_oid q.oid repo.id (lfs_upload e q w).0.lfs_metas
          ≡ some (record { oid = q.oid; size = q.size; repository_id = repo.id }))
      × (object_at (key_of (pointer q)) (lfs_upload e q w).0.objects ≡ none)
unfolding lfs_upload upload_or_verify create_meta put
lfs_upload-lost e q w repo passes absent puts other removes unknown inserts =
    rw (passes, absent, puts, other, removes, unknown, inserts)
      (
        refl,
        meta_by_oid-append q.oid repo.id _ w.lfs_metas unknown
            (rw (text_eq_refl q.oid, ==_refl repo.id) refl),
        object_gone (key_of (pointer q))
            (without_object (key_of (pointer q)) w.objects ++ (key_of (pointer q), q.body) ∷ []),
      )
