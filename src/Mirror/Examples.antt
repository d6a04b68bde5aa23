-- ===== src/Mirror/Examples.antt =====
-- A mirror with one LFS file on two branches, and the theorems at it.
use csghub_server.Mirror.Finished.{sync_repo_lem, IsDone}
use csghub_server.Mirror.Sync.{
  trigger, end_mirror, unseen, generate_lfs_meta_objects, with_objects, key_of, with_branch,
  pending, with_mirrored, remove_duplicate_lfs_meta_object, waiting, with_repository, Answers,
  LfsMetaObject, World, sync_repo,
}
use csghub_server.Mirror.Objects.{remove_duplicate_lfs_meta_object_lem, HasKey, Distinct}
use csghub_server.Prelude.{Text, codes, ℕ, true, none, some, List, [], ◌∷◌, ◌≡◌, refl, In}

abbrev world : World
world = record {
  mirror = record { id = 4; priority = 3; status = waiting; last_message = []; created_at = 100 };
  repository =
      some (record { id = 9; path = codes "ann/demo"; default_branch = []; sync_status = pending });
  lfs_queue = [];
  workflows = 0;
}

abbrev object : ℕ → Text → LfsMetaObject
object n oid = record { size = n; oid = oid; repository_id = 9 }

abbrev objects : List LfsMetaObject
objects = object 8 (codes "aa") ∷ object 5 (codes "bb") ∷ object 8 (codes "aa") ∷ []

abbrev all_answer : Answers
all_answer = record {
  finds = true;
  begins = true;
  sync_error = none;
  default_branch = some (codes "refs/heads/main");
  repo_error = [];
  marks_failed = true;
  updates_repo = true;
  pointers = some objects;
  stores_objects = true;
  lfs_error = [];
  marks_incomplete = true;
  completes_repo = true;
  ends = true;
  last_commit = true;
  diff = true;
  executes = true;
}

-- The mirror had the high priority.
lfs_task_is_low :
    (sync_repo all_answer [] world).0.lfs_queue
    ≡ record { mirror_id = 4; priority = 1; created_at = 100; mirror_token = [] } ∷ []
unfolding sync_repo with_repository with_mirrored with_branch with_objects generate_lfs_meta_objects
    remove_duplicate_lfs_meta_object unseen end_mirror trigger
lfs_task_is_low = refl

sync_repo_example :
    ((sync_repo all_answer [] world).0.workflows ≡ 1)
    × IsDone all_answer [] world (sync_repo all_answer [] world).0
unfolding sync_repo with_repository with_mirrored with_branch with_objects generate_lfs_meta_objects
    remove_duplicate_lfs_meta_object unseen end_mirror trigger
sync_repo_example = sync_repo_lem all_answer [] world refl

remove_duplicate_lfs_meta_object_test :
    Distinct (remove_duplicate_lfs_meta_object objects)
    × ((o : LfsMetaObject)
        → In o objects
        → HasKey (remove_duplicate_lfs_meta_object objects) (key_of o))
remove_duplicate_lfs_meta_object_test = remove_duplicate_lfs_meta_object_lem objects
