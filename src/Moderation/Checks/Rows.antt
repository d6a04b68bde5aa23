-- ===== src/Moderation/Checks/Rows.antt =====
-- The rows of the checks that a pass over some files leaves, moderation/component/repo.go.
use csghub_server.Moderation.Checks.Processed.{mark_repo-tables}
use csghub_server.Moderation.Checks.{
  has_check, upsert, put_check, save_check_result, map, process_files, process_file, ℕ, put_row,
  verdict, same_status, text_eq, any, keep, Bool, List, Status, Env, RepositoryFileCheck,
  RepositoryFile, Text, World,
}
use csghub_server.Prelude.{
  ==_iff, subst, sym, here, inr, All-In, inl, Bool-cases, there, ==_refl, arith, refl, ap, ◌++◌,
  ◌==◌, ◌&&◌, ◌||◌, ◌≡◌, ◌∙◌, ◌<◌, true, false, List, [], ◌∷◌, text_eq, All, In, any, keep, Text,
}
use csghub_server.Moderation.Files.{Status}
use mathlib.Core.List.{append-nil}
use csghub_server.Moderation.Checks.Batches.{Ascending}

-- Some of the files gets the verdict.
abbrev pub some_verdict : Env → Status → List RepositoryFile → Bool
some_verdict env s fs = any (λ f. same_status (verdict env f).0 s) fs

abbrev pub on_branch : Text → List RepositoryFile → List RepositoryFile
on_branch b fs = keep (λ f. text_eq f.branch b) fs

-- A new key that is greater than the others gets the last row.
put_row-last :
    (c : RepositoryFileCheck) (ds : List RepositoryFileCheck)
    → All (λ d. d.repo_file_id < c.repo_file_id) ds
    → put_row c ds ≡ ds ++ (c ∷ [])
put_row-last c [] h = refl
put_row-last c (d ∷ ds) h =
    rw (smaller d.repo_file_id c.repo_file_id h.0, put_row-last c ds h.1) refl
  where
    smaller : (i j : ℕ) → i < j → (i == j) ≡ false
    smaller i j lt = ground arith

All-last :
    (P : RepositoryFileCheck → Type 0) (c : RepositoryFileCheck) (ds : List RepositoryFileCheck)
    → All P ds
    → P c
    → All P (ds ++ (c ∷ []))
All-last P c [] h p = (p, tt)
All-last P c (d ∷ ds) h p = (h.0, All-last P c ds h.1 p)

append-last :
    (c : RepositoryFileCheck) (ds es : List RepositoryFileCheck)
    → (ds ++ (c ∷ [])) ++ es ≡ ds ++ (c ∷ es)
append-last c [] es = refl
append-last c (d ∷ ds) es = ap (λ xs. d ∷ xs) (append-last c ds es)

on_row : (a b : Bool) → ((a && true) || b) ≡ (a || b)
on_row a b = ground arith

off_row : (a b : Bool) → ((a && false) || b) ≡ b
off_row a b = ground arith

-- Exactly one file has the key of a file.
any-key :
    (P : RepositoryFile → Bool) (fs : List RepositoryFile) (f : RepositoryFile)
    → Ascending fs
    → In f fs
    → any (λ g. g.id == f.id && P g) fs ≡ P f
any-key P [] f h m = elim m [ ]
any-key P (g ∷ fs) f h here = rw (==_refl f.id, no_key fs h.0) (ground arith)
  where
    no_key :
        (gs : List RepositoryFile)
        → All (λ x. f.id < x.id) gs
        → any (λ x. x.id == f.id && P x) gs ≡ false
    no_key [] above = refl
    no_key (x ∷ gs) above = ground (arith, no_key gs above.1, above.0)
any-key P (g ∷ fs) f h (there m) =
    ground (arith, any-key P fs f h.1 m, All-In (λ x. g.id < x.id) fs h.0 m)

module _ (env : Env) where
  -- The row of a file that is checked
  abbrev pub row : RepositoryFile → RepositoryFileCheck
  row f = record { repo_file_id = f.id; status = (verdict env f).0; message = (verdict env f).1 }

  abbrev pub Fresh : List RepositoryFile → List RepositoryFileCheck → Type 0
  Fresh fs cs = All (λ f. All (λ c. c.repo_file_id < f.id) cs) fs

  process_file-checks :
      (f : RepositoryFile) (w : World)
      → env.fails (put_check f.id) ≡ false
      → All (λ c. c.repo_file_id < f.id) w.checks
      → (process_file env f w).checks ≡ w.checks ++ (row f ∷ [])
  unfolding process_file save_check_result upsert
  process_file-checks f w works h =
      rw works (rw (mark_repo-tables env f (verdict env f).0 w).1 (put_row-last (row f) w.checks h))

  Fresh-last :
      (f : RepositoryFile) (fs : List RepositoryFile) (cs : List RepositoryFileCheck)
      → Fresh fs cs
      → All (λ g. f.id < g.id) fs
      → Fresh fs (cs ++ (row f ∷ []))
  Fresh-last f [] cs h above = tt
  Fresh-last f (g ∷ fs) cs h above =
      (All-last (λ c. c.repo_file_id < g.id) (row f) cs h.0 above.0, Fresh-last f fs cs h.1 above.1)

  pub process_files-checks :
      (fs : List RepositoryFile) (w : World)
      → ((i : ℕ) → env.fails (put_check i) ≡ false)
      → Ascending fs
      → Fresh fs w.checks
      → (process_files env fs w).checks ≡ w.checks ++ map row fs
  unfolding process_files
  process_files-checks [] w works h fresh = sym (append-nil w.checks)
  process_files-checks (f ∷ fs) w works h fresh =
      let one = process_file-checks f w (works f.id) fresh.0 in
      process_files-checks fs (process_file env f w) works h.1
        (subst (Fresh fs) (sym one) (Fresh-last f fs w.checks fresh.1 h.0))
      ∙ ap (λ cs. cs ++ map row fs) one
      ∙ append-last (row f) w.checks (map row fs)

  -- The checks of some files of the repository, seen through the table, are their verdicts.
  pub any-rows :
      (files : List RepositoryFile) (i : ℕ) (b : Text) (s : Status) (fs : List RepositoryFile)
      → Ascending files
      → All (λ f. In f files × (f.repository_id ≡ i)) fs
      → any (has_check files i b s) (map row fs) ≡ some_verdict env s (on_branch b fs)
  any-rows files i b s [] h ins = refl
  any-rows files i b s (f ∷ fs) h ins =
      rw
        (
          any-key (λ g. g.repository_id == i && text_eq g.branch b) files f h ins.0.0,
          (==_iff f.repository_id i).1 ins.0.1,
          any-rows files i b s fs h ins.1,
        )
        (elim (Bool-cases (text_eq f.branch b)) [
          | inl own ↦ rw own (on_row (same_status (verdict env f).0 s) _)
          | inr other ↦ rw other (off_row (same_status (verdict env f).0 s) _)
        ])
