-- ===== src/Repos/Git/Examples.antt =====
-- A site with a stored object and with locks, and the theorems at it.
use csghub_server.Repos.Git.Objects.Uploads.{lfs_upload-lost, lfs_upload-again}
use csghub_server.Repos.Git.Objects.{
  pointer, key_of, object_at, create_meta, meta_by_oid, put, stat, upload_or_verify, is_valid,
  upload_checks, ObjectEnv, UploadReq, lfs_upload,
}
use csghub_server.Repos.Access.{allow_write_access}
use csghub_server.Repos.Files.Lfs.{relative_path}
use csghub_server.Prelude.{
  Text, codes, length, ℕ, zero, suc, true, none, some, [], ◌∷◌, ◌++◌, map, ◌≡◌, refl, In, arith,
}
use csghub_server.Repos.Sample.{world, env, at_open, open_repo, bob}
use csghub_server.Repos.Store.{World, LfsLock, ok, find_by_path, find_by_username, git_path_of}
use csghub_server.Repos.Git.Locks.{create_lock, unlock, lock_by_id}
use csghub_server.Repos.Git.Locks.Exclusive.{IsExclusive, locks-IsExclusive, unlock-foreign}

abbrev foreign : LfsLock
foreign = record { id = 3; repository_id = 8; user_id = 1; path = codes "w.bin" }

abbrev locked : World
locked = record world { locks = foreign ∷ []; next_lock = 4 }

one_lock : IsExclusive locked
one_lock r p = ground arith

locks-IsExclusive_example :
    IsExclusive (create_lock env at_open (codes "bob") (codes "w.bin") locked).0
    × IsExclusive (unlock env at_open (codes "bob") 3 true locked).0
locks-IsExclusive_example =
    locks-IsExclusive env at_open (codes "bob") (codes "w.bin") 3 true locked one_lock

-- Bob removes the lock of Alice in a private repository by way of the public one.
unlock-foreign_test :
    ((unlock env at_open (codes "bob") 3 true locked).1 ≡ ok foreign)
    × (¬ In 3 (map (λ m. m.id) (unlock env at_open (codes "bob") 3 true locked).0.locks))
unfolding find_by_path git_path_of find_by_username lock_by_id
unlock-foreign_test =
    unlock-foreign env at_open (codes "bob") 3 locked open_repo bob foreign refl refl refl refl refl

-- 64 hexadecimal digits
abbrev times : ℕ → Text → Text
times zero s = []
times (suc n) s = s ++ times n s

abbrev oid : Text
oid = times 64 (codes "a")

abbrev object_env : ObjectEnv
object_env = record { env = env; sha256 = λ s. oid; reported = length; signs = λ k. none }

abbrev upload : ℕ → UploadReq
upload n = record {
  place = at_open;
  oid = oid;
  size = n;
  current_user = codes "bob";
  body = codes "abc";
}

abbrev stored : World
stored = (lfs_upload object_env (upload 3) world).0

first_upload : (lfs_upload object_env (upload 3) world).1 ≡ ok tt
unfolding lfs_upload upload_checks find_by_path git_path_of is_valid upload_or_verify stat put
    create_meta relative_path
first_upload = refl

lfs_upload-again_test :
    ((lfs_upload object_env (upload 3) stored).1 ≡ ok tt)
    × (meta_by_oid oid 7 (lfs_upload object_env (upload 3) stored).0.lfs_metas ≡ none)
unfolding lfs_upload upload_checks find_by_path git_path_of is_valid upload_or_verify stat put
    create_meta relative_path allow_write_access
lfs_upload-again_test =
    lfs_upload-again object_env (upload 3) stored open_repo refl refl refl refl refl

lfs_upload-lost_example :
    ((lfs_upload object_env (upload 5) world).1 ≡ ok tt)
    × (meta_by_oid oid 7 (lfs_upload object_env (upload 5) world).0.lfs_metas
        ≡ some (record { oid = oid; size = 5; repository_id = 7 }))
    × (object_at (key_of (pointer (upload 5))) (lfs_upload object_env (upload 5) world).0.objects
        ≡ none)
unfolding upload_checks find_by_path git_path_of is_valid stat relative_path
lfs_upload-lost_example =
    lfs_upload-lost object_env (upload 5) world open_repo refl refl refl refl refl refl refl
