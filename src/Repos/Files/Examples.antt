-- ===== src/Repos/Files/Examples.antt =====
-- The theorems on the files of a repository, at a concrete site.
use csghub_server.Repos.Sample.{open_repo, world, env, at_open}
use csghub_server.Repos.Files.Effects.{
  delete_repo_file-tags, create_repo_file-lost, files-authorized, MayWrite,
}
use csghub_server.Repos.Store.{
  set_update_time, tell_tags, namespace_by_path, Env, ok, Refused, Call, git_path_of, find_by_path,
  find_by_username, namespace_and_name, tell_git, create_file, git, library_tags,
}
use csghub_server.Repos.Files.{
  store_lfs, new_tags, create_tagged, is_readme, has_scope, delete_repo_file, update_repo_file,
  FileReq, create_repo_file, file_checks, lfs_pointer,
}
use csghub_server.Prelude.{
  insert, length, has_suffix, codes, Bool, true, false, some, [], ◌∷◌, ◌≡◌, refl, ◌⊎◌,
}
use csghub_server.Tags.Names.{trim_slashes, base}
use csghub_server.Repos.Access.{get_user_repo_permission}
use csghub_server.Repos.Files.Lfs.{
  split_spaces, fields, put_line, put_lines, parse_gitattributes, should_use_lfs, LfsEnv,
}

abbrev plain_lfs : LfsEnv
plain_lfs = record {
  is_gitaly = true;
  attributes = λ p branch. some (codes "*.bin filter=lfs diff=lfs");
  matches = λ pattern file. has_suffix file (codes ".bin");
  sha256 = λ s. s;
  format = λ n. [];
  encode = λ s. s;
  decode = λ s. s;
  uploaded_size = λ key s. length s;
}

abbrev config_file : FileReq
config_file = record {
  place = at_open;
  current_user = codes "alice";
  username = codes "alice";
  branch = codes "main";
  file_path = codes "config.json";
  origin_path = [];
  content = codes "{}";
  original_content = codes "{}";
}

-- The same git server, which refuses to create a file.
abbrev is_creation : Call → Bool
is_creation (git (create_file p f c)) = true
is_creation c = false

abbrev refusing : Env
refusing = record env { fails = is_creation }

large_file_is_lfs :
    lfs_pointer plain_lfs (record config_file { file_path = codes "W.BIN" })
    ≡ some (record { oid = codes "{}"; size = 2 })
unfolding lfs_pointer should_use_lfs parse_gitattributes put_lines put_line fields split_spaces base
    trim_slashes insert
large_file_is_lfs = refl

files-authorized_example :
    (Refused world (create_repo_file env plain_lfs config_file world)
      ⊎ MayWrite env world config_file)
    × (Refused world (update_repo_file env plain_lfs config_file world)
        ⊎ MayWrite env world config_file)
    × (Refused world (delete_repo_file env plain_lfs config_file world)
        ⊎ MayWrite env world config_file)
files-authorized_example = files-authorized env plain_lfs world config_file

create_repo_file-lost_example :
    ((create_repo_file refusing plain_lfs config_file world).1 ≡ ok tt)
    × ((create_repo_file refusing plain_lfs config_file world).0.git ≡ [])
unfolding file_checks find_by_path git_path_of get_user_repo_permission namespace_and_name
    namespace_by_path find_by_username lfs_pointer should_use_lfs parse_gitattributes put_lines
    put_line fields split_spaces base trim_slashes insert has_scope
create_repo_file-lost_example =
    create_repo_file-lost refusing plain_lfs world config_file open_repo refl refl refl refl

delete_repo_file-tags_test :
    (delete_repo_file env plain_lfs config_file
      (create_repo_file env plain_lfs config_file world).0).0.tags
    ≡ library_tags at_open [] (codes "config.json")
      ∷ library_tags at_open [] (codes "config.json")
      ∷ []
unfolding file_checks find_by_path git_path_of get_user_repo_permission namespace_and_name
    namespace_by_path find_by_username lfs_pointer should_use_lfs parse_gitattributes put_lines
    put_line fields split_spaces base trim_slashes insert has_scope is_readme create_repo_file
    create_tagged new_tags tell_tags tell_git store_lfs set_update_time
delete_repo_file-tags_test =
    delete_repo_file-tags env (λ c. refl) plain_lfs config_file refl refl world open_repo open_repo
      refl refl refl (λ e. cc e) refl
