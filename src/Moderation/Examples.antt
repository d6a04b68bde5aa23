-- ===== src/Moderation/Examples.antt =====
-- A word list, a service that allows everything, a repository with a bad text and an empty file, and
-- the theorems at them.
use csghub_server.Moderation.Files.Passed.{AreBlocks, IsRead, run_text-pass, IsHarmless}
use csghub_server.Prelude.{
  ◌↔◌, ◌==◌, if◌then◌else◌, Text, codes, ℕ, true, false, none, some, List, [], ◌∷◌, ◌≡◌, refl, ◌⊎◌,
  arith, length, joined_parts, All, ◌≤◌, here, there,
}
use csghub_server.Moderation.Green.Judged.{Passes, pass_text_check_lem, ShortPassed, LongPassed}
use csghub_server.Moderation.Checks.Decided.{check_then_detect, decided}
use csghub_server.Moderation.Checks.Rows.{on_branch}
use csghub_server.Moderation.Checks.{
  change_repo, verdict, World, Env, Repo, RepositoryFile, check_repo_files, check_status,
  process_files, selected, succeeded, detect_repo_sensitive_check_status, set_status, find_by_path,
}
use csghub_server.Moderation.Runes.{runes_from, runes}
use csghub_server.Moderation.Files.{
  check_blocks, blocks_from, ext_from, path_ext, Status, get_file_checker, read_text, Checkers,
  opened, run_text, run_checker, text, blocks, check_pass, check_fail, check_exception,
  check_pending,
}
use csghub_server.Repos.Store.{git_path_of, Place}
use csghub_server.Moderation.Words.{
  build_dfa, contains_sensitive_word, add_words, add_word, next_state, set_state, contains_from,
  is_ignored_character,
}
use csghub_server.Moderation.Words.Scan.{
  scan_words, HasWord, seen, contains_sensitive_word_lem, contains_sensitive_word-HasWord,
  contains_sensitive_word-missed,
}
use csghub_server.Moderation.Green.{Service, split_tasks, large_text_size, pass_text_check}
use csghub_server.Moderation.Green.Tasks.{split_tasks_lem}
use csghub_server.Moderation.Checks.Pass.{check_repo_files_lem, check_repo_files-empty, Readable}
use csghub_server.Moderation.Checks.Private.{check_repo_files-private, Marked}
use csghub_server.Moderation.Checks.Detected.{detect_repo_sensitive_check_status_lem, IsWorst}

abbrev words : List (List ℕ)
words = codes "bad" ∷ codes "worse" ∷ []

contains_sensitive_word_example :
    contains_sensitive_word (build_dfa words) (codes "so wo b.a.d")
    ≡ scan_words words [] (codes "so wo b.a.d")
contains_sensitive_word_example = contains_sensitive_word_lem words (codes "so wo b.a.d")

found_test : contains_sensitive_word (build_dfa words) (codes "so b.a.d") ≡ true
unfolding contains_sensitive_word build_dfa add_words add_word next_state set_state contains_from
    is_ignored_character
found_test = refl

contains_sensitive_word-HasWord_example : HasWord words (seen (codes "so b.a.d"))
contains_sensitive_word-HasWord_example =
    contains_sensitive_word-HasWord words (codes "so b.a.d") found_test

contains_sensitive_word-missed_example :
    (contains_sensitive_word (build_dfa (codes "ab" ∷ [])) (codes "aab") ≡ false)
    × HasWord (codes "ab" ∷ []) (seen (codes "aab"))
unfolding is_ignored_character
contains_sensitive_word-missed_example =
    contains_sensitive_word-missed b'a' b'b' (λ e. omega (arith, e)) refl refl

abbrev allowing : Service
allowing = record {
  text_scan = λ tasks. some (record { code = 200; items = [] });
  text_moderation =
      λ scenario t. some (record { status_code = 200; body_code = 200; labels = []; reason = [] });
  image_moderation = λ scenario bucket object. none;
}

split_tasks_example :
    (joined_parts (split_tasks (codes "hello")) ≡ codes "hello")
    × All (λ task. length task ≤ large_text_size) (split_tasks (codes "hello"))
    × (length (split_tasks (codes "hello")) ≤ 100)
split_tasks_example = split_tasks_lem (codes "hello") (omega arith)

pass_text_check_example :
    Passes (pass_text_check allowing (codes "chat") (codes "hello"))
    ↔ (ShortPassed allowing (codes "chat") (codes "hello") ⊎ LongPassed allowing (codes "hello"))
pass_text_check_example = pass_text_check_lem allowing (codes "chat") (codes "hello")

abbrev checkers : Checkers
checkers = record {
  words = build_dfa words;
  service = allowing;
  detect = λ bytes. codes "text/plain";
}

passed_test : run_text checkers (opened (codes "ok") true) ≡ (check_pass, [])
unfolding run_text read_text blocks blocks_from check_blocks contains_sensitive_word contains_from
    build_dfa add_words add_word next_state set_state is_ignored_character runes runes_from
    pass_text_check
passed_test = refl

run_text-pass_example :
    (bytes : Text) × (parts : List Text) × IsRead (opened (codes "ok") true) bytes
    × AreBlocks bytes parts
    × All (IsHarmless checkers) parts
run_text-pass_example = run_text-pass checkers (opened (codes "ok") true) [] passed_test

abbrev repo : Repo
repo = record {
  id = 7;
  git_path = codes "models_ann/x";
  default_branch = codes "main";
  private = false;
  status = check_pending;
}

abbrev file : ℕ → Text → RepositoryFile
file i path = record {
  id = i;
  repository_id = 7;
  path = path;
  file_type = codes "file";
  size = 3;
  commit_sha = codes "c";
  lfs_relative_path = [];
  branch = codes "main";
}

abbrev bad_text : RepositoryFile
bad_text = file 1 (codes "a.txt")

abbrev kept_empty : RepositoryFile
kept_empty = file 2 (codes "d/.gitkeep")

abbrev world : World
world = record { repos = repo ∷ []; files = bad_text ∷ kept_empty ∷ []; checks = [] }

abbrev env : Env
env = record {
  fails = λ c. false;
  checkers = checkers;
  content = λ f. if f.id == 1 then opened (codes "so bad") true else opened [] true;
}

abbrev place : Place
place = record { repo_type = codes "model"; namespace = codes "ann"; name = codes "x" }

readable : Readable env place repo world
unfolding find_by_path git_path_of
readable = (refl, λ i. refl)

check_repo_files_example :
    check_repo_files 3 env place false 0 1 world
    ≡ (process_files env (selected false 7 0 world) world, succeeded)
check_repo_files_example =
    check_repo_files_lem env place repo false 0 1 world readable ((omega arith, tt), (tt, tt))

check_repo_files-empty_test :
    (check_status 2 (check_repo_files 3 env place false 0 1 world).0.checks ≡ some check_exception)
    × ((run_checker checkers text (opened [] true)).0 ≡ check_pass)
unfolding get_file_checker path_ext ext_from runes runes_from
check_repo_files-empty_test =
    check_repo_files-empty env place repo false 0 1 world kept_empty readable
      ((omega arith, tt), (tt, tt)) refl (there here) refl (omega arith) refl refl

failed_test : (verdict env bad_text).0 ≡ check_fail
unfolding run_text read_text blocks blocks_from check_blocks contains_sensitive_word contains_from
    build_dfa add_words add_word next_state set_state is_ignored_character runes runes_from
    pass_text_check run_checker get_file_checker path_ext ext_from
failed_test = refl

check_repo_files-private_example : Marked 7 (check_repo_files 3 env place false 0 1 world).0.repos
unfolding selected
check_repo_files-private_example =
    check_repo_files-private env place repo false 0 1 world bad_text readable
      ((omega arith, tt), (tt, tt)) refl here failed_test

detect_repo_sensitive_check_status_test :
    (s : Status) × IsWorst world repo s
    × (detect_repo_sensitive_check_status env place world ≡ set_status env s repo world)
detect_repo_sensitive_check_status_test =
    detect_repo_sensitive_check_status_lem env place repo world readable.0 (λ s. refl)

check_then_detect_example :
    detect_repo_sensitive_check_status env place (check_repo_files 3 env place false 0 1 world).0
    ≡ change_repo env 7
        (λ x. record x {
          status = decided env (on_branch (codes "main") (selected false 7 0 world));
        })
        (check_repo_files 3 env place false 0 1 world).0
check_then_detect_example =
    check_then_detect env place repo false 0 1 world readable ((omega arith, tt), (tt, tt)) refl
      (λ i. refl) (λ s. refl)
