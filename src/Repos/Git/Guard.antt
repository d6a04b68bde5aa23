-- ===== src/Repos/Git/Guard.antt =====
-- Who pulls from and pushes to a repository, over HTTP and SSH.
use csghub_server.Org.Role.{Role, read, write}
use csghub_server.Prelude.{
  sym, subst, Bool-cases, ◌↔◌, text_neq, Text, Bool, true, false, ◌≢◌, [], ◌≡◌, refl, inl, inr, ◌⊎◌,
}
use csghub_server.Repos.Store.{
  Outcome-cases, Refused, Repository, User, World, Env, Place, Outcome, ok, err, Error,
  unauthorized, forbidden, Done, checked, find_by_path, find_by_username, namespace_and_name,
  tell_git, info_refs, upload_pack, receive_pack, GitCall,
}
use csghub_server.Repos.Access.{allow_read_access, allow_write_access}
use csghub_server.Repos.Access.Rights.{Holds, allow_access_lem}
use csghub_server.Repos.Git.{
  granted, readable, receive, serve_info_refs, git_upload_pack, git_receive_pack,
}

-- What the caller is granted, or else the error of the check.
granted_cases :
    (x : Outcome Bool) → ((x ≡ ok true) × (granted x ≡ ok tt)) ⊎ ((e : Error) × (granted x ≡ err e))
granted_cases (ok true) = inl (refl, refl)
granted_cases (ok false) = inr (forbidden, refl)
granted_cases (err e) = inr (unauthorized, refl)

module _ (env : Env) (p : Place) (user ns name : Text) (w : World) (repo : Repository)
    (found : find_by_path env p w ≡ ok repo) (hidden : repo.private ≡ true)
    (named : namespace_and_name repo ≡ ok (ns, name)) where
  -- The operation is refused, or the user has the right that it takes.
  abbrev pub Reads : Done (Unit {0}) → Type 0
  Reads d = Refused w d ⊎ Holds env w user ns read

  abbrev pub Writes : Done (Unit {0}) → Type 0
  Writes d = Refused w d ⊎ Holds env w user p.namespace write

  rights :
      ((allow_read_access env p user w ≡ ok true) → Holds env w user ns read)
      × ((allow_write_access env p user w ≡ ok true) → Holds env w user p.namespace write)
  rights =
      let r = allow_access_lem env p user ns name w repo found hidden named in
      (λ a. (r.0.0 a).1, λ a. (r.1.0 a).1)

  pull-Reads : (c : GitCall) → Reads (checked (readable env repo p user w) (λ _. tell_git env c) w)
  pull-Reads c = rw hidden (elim (granted_cases (allow_read_access env p user w)) [
    | inl (a, g) ↦ inr (rights.0 a)
    | inr (e, g) ↦ inl (e, rw g)
  ])

  push-Writes :
      (c : GitCall)
      → Writes (checked (granted (allow_write_access env p user w)) (λ _. tell_git env c) w)
  push-Writes c = elim (granted_cases (allow_write_access env p user w)) [
    | inl (a, g) ↦ inr (rights.1 a)
    | inr (e, g) ↦ inl (e, rw g)
  ]

  -- A private repository that is found is guarded over HTTP: a pull, and the exchange of references
  -- before it, end with an error and do not reach the git server, unless the user has the right to
  -- read; a push, and the exchange before it, unless the user has the right to write.
  pub git_http-authorized :
      (rpc : Text)
      → rpc ≢ receive
      → Reads (git_upload_pack env p user w)
        × Reads (serve_info_refs env p rpc user w)
        × Writes (git_receive_pack env p user w)
        × Writes (serve_info_refs env p receive user w)
  unfolding git_upload_pack git_receive_pack serve_info_refs
  git_http-authorized rpc other = (
    rw found (pull-Reads (upload_pack p)),
    rw (found, text_neq rpc receive other) (pull-Reads (info_refs p rpc)),
    elim (Outcome-cases (find_by_username env user w)) [
      | inr (e, none_there) ↦ inl (unauthorized, rw (found, none_there))
      | inl (u, there) ↦ elim (granted_cases (allow_write_access env p user w)) [
        | inl (a, g) ↦ inr (rights.1 a)
        | inr (e, g) ↦ inl (e, rw (found, there, g))
      ]
    ],
    rw found (push-Writes (info_refs p receive)),
  )

-- The repository is public, or the named user has the right on the namespace.
abbrev pub May : Env → World → Repository → Text → Text → Role → Type 0
May env w repo user ns role = (repo.private ≡ false) ⊎ ((user ≢ []) × Holds env w user ns role)

-- If it may be, the call of the git server is what happens; if not, it is refused.
abbrev pub Decides : Env → World → Type 0 → GitCall → Done (Unit {0}) → Type 0
Decides env w A c d = (A × (d ≡ tell_git env c w)) ⊎ ((¬ A) × Refused w d)

module _ (env : Env) (p : Place) (user ns name : Text) (w : World) (repo : Repository)
    (found : find_by_path env p w ≡ ok repo) (named : namespace_and_name repo ≡ ok (ns, name)) where
  abbrev MayPull : Type 0
  MayPull = May env w repo user ns read

  abbrev MayPush : Type 0
  MayPush = May env w repo user p.namespace write

  abbrev Answers : Type 0 → Outcome (Unit {0}) → Type 0
  Answers A x = (A × (x ≡ ok tt)) ⊎ ((¬ A) × (e : Error) × (x ≡ err e))

  granted-Answers :
      (A : Type 0) (x : Outcome Bool)
      → ((x ≡ ok true) ↔ A)
      → repo.private ≡ true
      → Answers ((repo.private ≡ false) ⊎ A) (granted x)
  granted-Answers A x iff hidden = elim (granted_cases x) [
    | inl (a, g) ↦ inl (inr (iff.0 a), g)
    | inr (e, g) ↦ inr (
      elim [
        | inl open_to_all ↦ absurd (cc (hidden, open_to_all))
        | inr may ↦ absurd (cc (rw (iff.1 may) at g))
      ],
      e,
      g,
    )
  ]

  readable_private :
      repo.private ≡ true → readable env repo p user w ≡ granted (allow_read_access env p user w)
  readable_private hidden = rw hidden refl

  pull-Answers : Answers MayPull (readable env repo p user w)
  pull-Answers = elim (Bool-cases repo.private) [
    | inl hidden ↦ subst (Answers MayPull) (sym (readable_private hidden)) (
        granted-Answers _ _ (allow_access_lem env p user ns name w repo found hidden named).0
          hidden)
    | inr open_to_all ↦ inl (inl open_to_all, rw open_to_all refl)
  ]

  push-Answers : Answers MayPush (granted (allow_write_access env p user w))
  unfolding allow_write_access
  push-Answers = elim (Bool-cases repo.private) [
    | inl hidden ↦
        granted-Answers _ _ (allow_access_lem env p user ns name w repo found hidden named).1 hidden
    | inr open_to_all ↦ inl (inl open_to_all, rw (found, open_to_all) refl)
  ]

  checked-Decides :
      (A : Type 0) (c : GitCall) (x : Outcome (Unit {0}))
      → Answers A x
      → Decides env w A c (checked x (λ _. tell_git env c) w)
  checked-Decides A c x (inl (may, eq)) = inl (may, rw eq refl)
  checked-Decides A c x (inr (may_not, e, eq)) = inr (may_not, (e, rw eq refl))

  -- If the repository is found, its path has a namespace and a name, and the user is registered: over
  -- HTTP it is pulled by this user, whatever the rights are, if it is public, and else exactly if the
  -- user is named and has the right to read; it is pushed to in the same way if it is public, and else
  -- exactly if the user is named and has the right to write. The exchange of references before a pull
  -- or a push goes by the same rule. Where the user may, the result is that of the call of the git
  -- server; where not, it is an error, and nothing has changed.
  pub git_http_decided :
      (rpc : Text) (u : User)
      → rpc ≢ receive
      → find_by_username env user w ≡ ok u
      → Decides env w (May env w repo user ns read) (upload_pack p) (git_upload_pack env p user w)
        × Decides env w
            (May env w repo user ns read)
            (info_refs p rpc)
            (serve_info_refs env p rpc user w)
        × Decides env w
            (May env w repo user p.namespace write)
            (receive_pack p u.id u.username)
            (git_receive_pack env p user w)
        × Decides env w
            (May env w repo user p.namespace write)
            (info_refs p receive)
            (serve_info_refs env p receive user w)
  unfolding git_upload_pack git_receive_pack serve_info_refs
  git_http_decided rpc u other there = (
    rw found (checked-Decides MayPull (upload_pack p) _ pull-Answers),
    rw (found, text_neq rpc receive other)
        (checked-Decides MayPull (info_refs p rpc) _ pull-Answers),
    rw (found, there)
        (elim push-Answers [
          | inl (may, eq) ↦ inl (may, rw eq refl)
          | inr (may_not, e, eq) ↦ inr (may_not, (e, rw eq refl))
        ]),
    rw found (checked-Decides MayPush (info_refs p receive) _ push-Answers),
  )
