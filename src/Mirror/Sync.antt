-- ===== src/Mirror/Sync.antt =====
-- mirror/reposyncer/local_woker.go: `SyncRepo` for one mirror. The world has the rows of the mirror
-- and of its repository, and what was put into the queue; the answers of the git server, of the
-- stores and of the workflow engine are arguments.
use csghub_server.Deploy.AppName.{last_or}
use csghub_server.Prelude.{
  decimal, Text, codes, ℕ, zero, suc, Bool, not, ◌&&◌, any, Option, none, some, List, [], ◌∷◌, ◌++◌,
  if◌then◌else◌, text_eq, split, length, ltb,
}

pub data MirrorStatus : Type 0 where
  waiting running finished failed incomplete repo_synced : MirrorStatus

pub data SyncStatus : Type 0 where
  pending in_progress sync_failed completed : SyncStatus

abbrev pub low_priority : ℕ
low_priority = 1

pub record Repository : Type 0 where
  pub id : ℕ
  pub path : Text
  pub default_branch : Text
  pub sync_status : SyncStatus

pub record Mirror : Type 0 where
  pub id : ℕ
  pub priority : ℕ
  pub status : MirrorStatus
  pub last_message : Text
  pub created_at : ℕ

pub record MirrorTask : Type 0 where
  pub mirror_id : ℕ
  pub priority : ℕ
  pub created_at : ℕ
  pub mirror_token : Text

-- `repository` is `none` if the relation could not be loaded.
pub record World : Type 0 where
  pub mirror : Mirror
  pub repository : Option Repository
  pub lfs_queue : List MirrorTask
  pub workflows : ℕ

pub record LfsMetaObject : Type 0 where
  pub size : ℕ
  pub oid : Text
  pub repository_id : ℕ

pub record Answers : Type 0 where
  pub finds : Bool
  pub begins : Bool
  -- the error of `MirrorSync`
  pub sync_error : Option Text
  -- the default branch, by `GetRepo`, and the text of its error without one
  pub default_branch : Option Text
  pub repo_error : Text
  pub marks_failed : Bool
  pub updates_repo : Bool
  -- the LFS files of all branches
  pub pointers : Option (List LfsMetaObject)
  pub stores_objects : Bool
  -- the text of the error of `generateLfsMetaObjects`
  pub lfs_error : Text
  pub marks_incomplete : Bool
  pub completes_repo : Bool
  pub ends : Bool
  pub last_commit : Bool
  pub diff : Bool
  pub executes : Bool

pub data Ended : Type 0 where
  succeeded : Ended
  errored : Text → Ended
  crashed : Ended

abbrev pub Result : Type 0
Result = World × Ended

abbrev pub error : World → Result
error w = (w, errored (codes "failed to sync"))

-- `removeDuplicateLfsMetaObject`
abbrev pub key_of : LfsMetaObject → Text
key_of o = o.oid ++ (b'_' ∷ decimal o.repository_id)

abbrev pub is_seen : List Text → Text → Bool
is_seen seen k = any (λ s. text_eq s k) seen

unfoldable pub unseen : List Text → List LfsMetaObject → List LfsMetaObject
unseen seen [] = []
unseen seen (o ∷ os) =
    let skipped = unseen seen os in
    let taken = unseen (key_of o ∷ seen) os in
    if is_seen seen (key_of o) then skipped else o ∷ taken

unfoldable pub remove_duplicate_lfs_meta_object : List LfsMetaObject → List LfsMetaObject
remove_duplicate_lfs_meta_object = unseen []

-- `generateLfsMetaObjects`: the number of the objects, if there is no error.
abbrev pub stored_count : Bool → List LfsMetaObject → Option ℕ
stored_count stores [] = some 0
stored_count stores (o ∷ os) = if stores then some (length (o ∷ os)) else none

abbrev pub counted : Bool → Option (List LfsMetaObject) → Option ℕ
counted stores none = none
counted stores (some os) = stored_count stores (remove_duplicate_lfs_meta_object os)

unfoldable pub generate_lfs_meta_objects : Answers → Option ℕ
generate_lfs_meta_objects a = counted a.stores_objects a.pointers

-- The push workflow for all files, behind the last commit and the diff.
unfoldable pub trigger : Answers → World → Result
trigger a w =
    if a.last_commit && (a.diff && a.executes)
    then (record w { workflows = suc w.workflows }, succeeded)
    else error w

unfoldable pub end_mirror : Answers → Mirror → World → Result
end_mirror a m w = if a.ends then trigger a (record w { mirror = m }) else error w

abbrev pub task_of : Text → Mirror → MirrorTask
task_of token m = record {
  mirror_id = m.id;
  priority = m.priority;
  created_at = m.created_at;
  mirror_token = token;
}

-- By the number of LFS files
unfoldable pub with_objects : Answers → Text → Mirror → Repository → Option ℕ → World → Result
with_objects a token m r none w = error (
    if a.marks_incomplete
    then record w {
      mirror = record m { status = incomplete; last_message = a.lfs_error };
      repository = some (record r { sync_status = sync_failed });
    }
    else w)
with_objects a token m r (some zero) w =
    let ended = record w { repository = some (record r { sync_status = completed }) } in
    if a.completes_repo then end_mirror a (record m { status = finished }) ended else error w
with_objects a token m r (some (suc n)) w =
    end_mirror a (record m { status = repo_synced })
      (record w { lfs_queue = w.lfs_queue ++ task_of token m ∷ [] })

abbrev pub fail_mirror : Answers → Mirror → Text → World → Result
fail_mirror a m msg w = error (
    if a.marks_failed
    then record w { mirror = record m { status = failed; last_message = msg } }
    else w)

unfoldable pub with_branch : Answers → Text → Mirror → Repository → Option Text → World → Result
with_branch a token m r none w =
    fail_mirror a m (codes "failed to get repo detail:" ++ a.repo_error) w
with_branch a token m r (some ref) w =
    let r' = record r { default_branch = last_or [] (split b'/' ref); sync_status = in_progress } in
    if a.updates_repo
    then with_objects a token m r' (generate_lfs_meta_objects a) (record w { repository = some r' })
    else error w

unfoldable pub with_mirrored : Answers → Text → Mirror → Repository → Option Text → World → Result
with_mirrored a token m r (some e) w =
    fail_mirror a m (codes "failed mirror remote repo in git server:" ++ e) w
with_mirrored a token m r none w = with_branch a token m r a.default_branch w

-- The second field of a path without `/` is out of range.
unfoldable pub with_repository : Answers → Text → Mirror → Option Repository → World → Result
with_repository a token m none w = error w
with_repository a token m (some r) w =
    if ltb 1 (length (split b'/' r.path))
    then with_mirrored a token m r a.sync_error w
    else (w, crashed)

unfoldable pub sync_repo : Answers → Text → World → Result
sync_repo a token w =
    let m = record w.mirror { status = running; priority = low_priority } in
    if not a.finds
    then error w
    else if not a.begins
    then error w
    else with_repository a token m w.repository (record w { mirror = m })
