-- ===== src/Deploy/CloneUrl.antt =====
-- common/utils/common/repo.go: the addresses under which a repository is cloned.
use csghub_server.Prelude.{
  ◌==◌, Text, codes, ◌++◌, [], ◌∷◌, has_prefix, if◌then◌else◌, is_empty, Option, none, some,
}

-- `strings.TrimSuffix(s, "/")`
abbrev pub trim_slash : Text → Text
trim_slash [] = []
trim_slash (c ∷ []) = if c == b'/' then [] else c ∷ []
trim_slash (c ∷ d ∷ s) = c ∷ trim_slash (d ∷ s)

-- `strings.TrimPrefix`
abbrev pub drop_prefix : Text → Text → Text
drop_prefix s [] = s
drop_prefix [] (p ∷ ps) = []
drop_prefix (c ∷ s) (p ∷ ps) = drop_prefix s ps

abbrev pub trim_prefix : Text → Text → Text
trim_prefix s p = if has_prefix s p then drop_prefix s p else s

-- `<type>s/<path>.git`
abbrev repo_file : Text → Text → Text
repo_file repo_type path = repo_type ++ (codes "s/" ++ (path ++ codes ".git"))

unfoldable pub build_http_clone_url : Text → Text → Text → Text
build_http_clone_url domain repo_type path =
    trim_slash domain ++ (codes "/" ++ repo_file repo_type path)

-- `port` is that of the domain as `url.Parse` read it, `none` where that failed.
unfoldable pub build_ssh_clone_url : Option Text → Text → Text → Text → Text
build_ssh_clone_url none domain repo_type path = []
build_ssh_clone_url (some port) domain repo_type path =
    let host = trim_slash (trim_prefix domain (codes "ssh://")) in
    if is_empty port
    then host ++ (codes ":" ++ repo_file repo_type path)
    else codes "ssh://" ++ (host ++ (codes "/" ++ repo_file repo_type path))
