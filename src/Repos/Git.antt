-- ===== src/Repos/Git.antt =====
-- component/git_http.go and component/internal.go: pulls and pushes over HTTP, and the questions of
-- the SSH server. The constant parts of the answers are left out.
pub mod Guard
pub mod Locks
pub mod Objects
mod Examples
use csghub_server.Prelude.{
  Text, text_eq, codes, ℕ, ℤ, Bool, true, false, Option, none, some, if◌then◌else◌,
}
use csghub_server.Repos.Store.{
  Repository, Namespace, User, SshKey, World, Env, Place, Outcome, ok, err, ◌>>=◌, ◌>>◌,
  unauthorized, forbidden, bad_key, Done, checked, find_by_path, namespace_by_path,
  find_by_username, ssh_key_by_id, tell_git, info_refs, upload_pack, receive_pack,
}
use csghub_server.Repos.Access.{allow_read_access, allow_write_access}
use csghub_server.Deploy.Deployer.Resources.{atoi}

-- An error of a check of rights is reported as unauthorized, a refusal as forbidden.
abbrev pub granted : Outcome Bool → Outcome (Unit {0})
granted (ok true) = ok tt
granted (ok false) = err forbidden
granted (err e) = err unauthorized

-- A public repository is read without a check.
abbrev pub readable : Env → Repository → Place → Text → World → Outcome (Unit {0})
readable env repo p user w =
    if repo.private then granted (allow_read_access env p user w) else ok tt

abbrev pub receive : Text
receive = codes "git-receive-pack"

abbrev pub upload : Text
upload = codes "git-upload-pack"

-- `InfoRefs`
unfoldable pub serve_info_refs : Env → Place → Text → Text → World → Done (Unit {0})
serve_info_refs env p rpc user w =
    let checks = find_by_path env p w >>= λ repo.
    if text_eq rpc receive
    then granted (allow_write_access env p user w)
    else readable env repo p user w in
    checked checks (λ _. tell_git env (info_refs p rpc)) w

unfoldable pub git_upload_pack : Env → Place → Text → World → Done (Unit {0})
git_upload_pack env p user w =
    checked (find_by_path env p w >>= λ repo. readable env repo p user w)
      (λ _. tell_git env (upload_pack p)) w

-- A user that is not found is not authorized.
abbrev pub known_user : Outcome User → Outcome User
known_user (ok u) = ok u
known_user (err e) = err unauthorized

unfoldable pub git_receive_pack : Env → Place → Text → World → Done (Unit {0})
git_receive_pack env p user w =
    let checks = find_by_path env p w >>= λ repo. known_user (find_by_username env user w) >>= λ u.
    granted (allow_write_access env p user w) >> ok u in
    checked checks (λ u. tell_git env (receive_pack p u.id u.username)) w

pub record SshAllowed : Type 0 where
  pub user_id : ℕ
  pub key_id : ℕ
  pub project_id : ℕ
  pub root_namespace_id : ℕ

-- `strconv.ParseInt` of the key's id
abbrev pub key_number : Option ℤ → Outcome ℤ
key_number none = err bad_key
key_number (some i) = ok i

abbrev pub may_act : Env → Repository → Place → Text → Text → World → Outcome (Unit {0})
may_act env repo p action user w =
    if text_eq action receive
    then granted (allow_write_access env p user w)
    else if text_eq action upload
    then readable env repo p user w
    else ok tt

abbrev pub allowed : Namespace → Repository → SshKey → SshAllowed
allowed n repo k = record {
  user_id = k.user.id;
  key_id = k.id;
  project_id = repo.id;
  root_namespace_id = n.id;
}

-- `SSHAllowed`
unfoldable pub ssh_allowed : Env → Place → Text → Text → World → Outcome SshAllowed
ssh_allowed env p action key w = do
  n ← namespace_by_path env p.namespace w
  repo ← find_by_path env p w
  i ← key_number (atoi key)
  k ← ssh_key_by_id env i w
  may_act env repo p action k.user.username w
  ok (allowed n repo k)

-- `LfsAuthenticate`: the name and the git token of the key's user.
unfoldable pub lfs_authenticate : Env → Place → Text → World → Outcome (Text × Text)
lfs_authenticate env p key w = do
  repo ← find_by_path env p w
  i ← key_number (atoi key)
  k ← ssh_key_by_id env i w
  readable env repo p k.user.username w
  token ← env.git_token k.user.username
  ok (k.user.username, token)
