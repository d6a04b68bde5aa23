-- ===== src/Moderation/Checks/Pass.antt =====
-- The batches of `CheckRepoFiles` come to one pass over the selected files.
use csghub_server.Moderation.Checks.{
  with_repo, Result, check_pass, check_exception, get_file_checker, verdict, check_status, true,
  some, find_by_path, put_check, Repo, Place, batch_size, check_repo_files, run_checker, is_open,
  succeeded, suc, ◌∷◌, keep, last_id, process_files, take, get_files, is_selected, length, ltb,
  List, World, check_rounds, false, selected, Env, RepositoryFile,
}
use csghub_server.Moderation.Files.{
  check_pass, text, check_exception, opened, unknown, get_file_checker, check_blocks, blocks_from,
  blocks, read_text, run_text, run_unknown, run_checker,
}
use csghub_server.Prelude.{
  lt→ltb, In-to_keep, In, All-map, inr, take-append-drop, length-append, ltb→lt, refl, inl, sym,
  Bool-cases, drop, ◌+◌, keep, take, All, arith, length, ltb, Bool, ℕ, ◌≡◌, ◌==◌, ◌∙◌, ap, ◌<◌, ◌≤◌,
  ◌&&◌, ◌||◌,
}
use csghub_server.Moderation.Checks.Processed.{
  process_files-own, process_files-append, process_files-other, process_files-files,
}
use csghub_server.Repos.Store.{Place}
use csghub_server.Moderation.Checks.Batches.{
  behind-last, keep-same, keep-Ascending, take-Ascending, last_id-greatest, behind, Ascending,
}
use Prim.Native.Nat.{zero}
use mathlib.Core.List.{[]}

take_all : (n : ℕ) (fs : List RepositoryFile) → length (take n fs) < n → take n fs ≡ fs
take_all zero fs h = absurd (omega (arith, h))
take_all (suc n) [] h = refl
take_all (suc n) (f ∷ fs) h = ap (λ gs. f ∷ gs) (take_all n fs (omega (arith, h)))

length-keep_le :
    (p : RepositoryFile → Bool) (fs : List RepositoryFile) → length (keep p fs) ≤ length fs
length-keep_le p [] = omega arith
length-keep_le p (f ∷ fs) = ground (arith, length-keep_le p fs)

length-split :
    (n : ℕ) (fs : List RepositoryFile) → length (take n fs) + length (drop n fs) ≡ length fs
length-split n fs = sym (length-append (take n fs) (drop n fs)) ∙ ap length (take-append-drop n fs)

not_lt :
    (n : ℕ) (fs : List RepositoryFile) → ltb (length (take n fs)) n ≡ false → n ≤ length (take n fs)
not_lt n fs h = ground arith

and_false : (b : Bool) → (b && false) ≡ false
and_false b = ground arith

module _ (env : Env) (force : Bool) (repo_id : ℕ) where
  abbrev test : World → RepositoryFile → Bool
  test w = is_selected force repo_id w.checks

  -- A file behind the last key of those that were checked is selected as before.
  selected-kept :
      (fs : List RepositoryFile) (last : ℕ) (w : World) (f : RepositoryFile)
      → All (λ g. g.id ≤ last) fs
      → (test (process_files env fs w) f && ltb last f.id) ≡ (test w f && ltb last f.id)
  selected-kept fs last w f h = elim (Bool-cases (ltb last f.id)) [
    | inl later ↦
        (let lt = ltb→lt last f.id later in
          let others =
            All-map (λ g. g.id ≤ last) (λ g. (g.id == f.id) ≡ false)
              (λ g le. ground (arith, le, lt)) fs h in
          ap (λ s. (f.repository_id == repo_id && (force || is_open s)) && ltb last f.id)
            (process_files-other env f.id fs w others))
    | inr before ↦
        rw before (and_false (test (process_files env fs w) f) ∙ sym (and_false (test w f)))
  ]

  -- The next batch is taken from what is left.
  selected-last :
      (batch last : ℕ) (w : World)
      → Ascending w.files
      → selected force repo_id
          (last_id last (take batch (selected force repo_id last w)))
          (process_files env (take batch (selected force repo_id last w)) w)
        ≡ drop batch (selected force repo_id last w)
  unfolding selected
  selected-last batch last w h =
      let fs : List RepositoryFile = take batch (behind (test w) last w.files) in
      let low =
        last_id-greatest last fs
          (take-Ascending batch (behind (test w) last w.files) (keep-Ascending _ w.files h)) in
      ap (keep (λ f. test (process_files env fs w) f && ltb (last_id last fs) f.id))
        (process_files-files env fs w)
      ∙ (keep-same _ (λ f. test w f && ltb (last_id last fs) f.id) w.files
            (λ f. selected-kept fs (last_id last fs) w f low)
          ∙ behind-last (test w) batch last w.files h)

  -- The rounds come to one pass over the selected files.
  check_rounds_lem :
      (fuel batch last : ℕ) (w : World)
      → ((i : ℕ) → env.fails (get_files i) ≡ false)
      → 1 ≤ batch
      → Ascending w.files
      → length (selected force repo_id last w) < fuel
      → check_rounds fuel env force repo_id batch last w
        ≡ (process_files env (selected force repo_id last w) w, succeeded)
  unfolding check_rounds
  check_rounds_lem zero batch last w reads some_batch h enough = absurd (omega (arith, enough))
  check_rounds_lem (suc fuel) batch last w reads some_batch h enough =
      elim (Bool-cases (ltb (length (take batch (selected force repo_id last w))) batch)) [
        | inl ended ↦
            rw (check_rounds, reads last, ended)
              (ap (λ fs. (process_files env fs w, succeeded))
                (take_all batch (selected force repo_id last w) (ltb→lt _ batch ended)))
        | inr more ↦
            rw (check_rounds, reads last, more)
              (let S : List RepositoryFile = selected force repo_id last w in
                let v : World = process_files env (take batch S) w in
                let left : selected force repo_id (last_id last (take batch S)) v ≡ drop batch S =
                  selected-last batch last w h in
                let size : length (selected force repo_id (last_id last (take batch S)) v) < fuel =
                  rw left (
                    omega (arith, enough, some_batch, length-split batch S, not_lt batch S more)) in
                check_rounds_lem fuel batch (last_id last (take batch S)) v reads some_batch
                  (rw (process_files-files env (take batch S) w) h) size
                ∙ ap (λ x. (x, succeeded))
                    (ap (λ fs. process_files env fs v) left
                      ∙ (sym (process_files-append env (take batch S) (drop batch S) w)
                          ∙ ap (λ fs. process_files env fs w) (take-append-drop batch S))))
      ]

pub with_repo-found :
    (env : Env) (p : Place) (r : Repo) (f : Repo → World → Result) (w : World)
    → find_by_path env p w ≡ some r
    → with_repo env p f w ≡ f r w
with_repo-found env p r f w h = rw (with_repo, h) refl

batch_size_pos : (n : ℕ) → 1 ≤ batch_size n
batch_size_pos n = ground arith

few_selected :
    (env : Env) (force : Bool) (repo_id last : ℕ) (w : World)
    → length (selected force repo_id last w) < suc (length w.files)
unfolding selected
few_selected env force repo_id last w =
    omega
      (arith, length-keep_le (λ f. is_selected force repo_id w.checks f && ltb last f.id) w.files)

-- The repository is found, and the files can be read in any batch.
abbrev pub Readable : Env → Place → Repo → World → Type 0
Readable env p r w = (find_by_path env p w ≡ some r) × ((i : ℕ) → env.fails (get_files i) ≡ false)

-- If the repository is found and its files can be read, then `CheckRepoFiles` ends after one round more
-- than there are files at most, without an error, and whatever the size of the batches it has checked
-- each selected file behind the given key once, in the order of the keys.
pub check_repo_files_lem :
    (env : Env) (p : Place) (r : Repo) (force : Bool) (last batch : ℕ) (w : World)
    → Readable env p r w
    → Ascending w.files
    → check_repo_files (suc (length w.files)) env p force last batch w
      ≡ (process_files env (selected force r.id last w) w, succeeded)
unfolding check_repo_files
check_repo_files_lem env p r force last batch w (found, reads) h =
    with_repo-found env p r
      (λ x. check_rounds (suc (length w.files)) env force x.id (batch_size batch) last) w found
    ∙ (check_rounds_lem env force r.id (suc (length w.files)) (batch_size batch) last w reads
        (batch_size_pos batch) h (few_selected env force r.id last w))

-- If its checks can be stored as well, then each file of the repository behind the given key that had
-- no check or a pending one, or each with `force`, has the check that its own checker comes to.
pub check_repo_files-checked :
    (env : Env) (p : Place) (r : Repo) (force : Bool) (last batch : ℕ) (w : World)
    (f : RepositoryFile)
    → Readable env p r w
    → Ascending w.files
    → env.fails (put_check f.id) ≡ false
    → In f w.files
    → is_selected force r.id w.checks f ≡ true
    → last < f.id
    → check_status f.id (check_repo_files (suc (length w.files)) env p force last batch w).0.checks
      ≡ some (verdict env f).0
unfolding selected
check_repo_files-checked env p r force last batch w f readable h stored m chosen later =
    rw (check_repo_files_lem env p r force last batch w readable h) (
      process_files-own env (selected force r.id last w) w f (keep-Ascending _ w.files h)
        (In-to_keep _ w.files m (rw (chosen, lt→ltb last f.id later) refl)) stored)

-- An empty file of a kind that is told by its contents gets the check of an exception, since its end
-- is taken for an error, while an empty text file passes.
pub check_repo_files-empty :
    (env : Env) (p : Place) (r : Repo) (force : Bool) (last batch : ℕ) (w : World)
    (f : RepositoryFile)
    → Readable env p r w
    → Ascending w.files
    → env.fails (put_check f.id) ≡ false
    → In f w.files
    → is_selected force r.id w.checks f ≡ true
    → last < f.id
    → get_file_checker f.file_type f.path f.lfs_relative_path ≡ unknown
    → env.content f ≡ opened [] true
    → (check_status f.id (check_repo_files (suc (length w.files)) env p force last batch w).0.checks
        ≡ some check_exception)
      × ((run_checker env.checkers text (opened [] true)).0 ≡ check_pass)
unfolding run_checker run_unknown run_text read_text blocks blocks_from check_blocks
check_repo_files-empty env p r force last batch w f readable h stored m chosen later kind empty = (
  check_repo_files-checked env p r force last batch w f readable h stored m chosen later
      ∙ rw (kind, empty) refl,
  refl,
)
