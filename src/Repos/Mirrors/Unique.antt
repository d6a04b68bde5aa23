-- ===== src/Repos/Mirrors/Unique.antt =====
-- That a repository has one mirror at most, whatever is done with mirrors.
use csghub_server.Repos.Mirrors.{
  find_by_repo_id, first_mirror, or_not_found, is_gitea, find_mirror, is_gitaly, mirror_by_repo_id,
  update_mirror_row, delete_mirror_row, insert_mirror, store_failed, create_mirror_row,
  delete_mirror_by_key, update_mirror_by_key, Mirror, MirrorSite, MirrorEnv, Acted, permitted,
  on_success, call_server, MirrorCall,
}
use csghub_server.Prelude.{
  here, ◌++◌, ◌∷◌, [], In-append_right, ◌||◌, ◌≡◌, refl, ◌==◌, any, ℕ, Bool, true, false,
  if◌then◌else◌, Option, none, some, map, In, inl, inr, not,
}
use csghub_server.Repos.Mirrors.Owned.{announce, CreateMirrorReq, enqueue}
use csghub_server.Repos.Store.{Outcome-cases, Outcome, ok, err, bind-ok}
use csghub_server.Org.Store.{store_failed}
use csghub_server.Repos.Mirrors.Table.{
  IsSound, listed, put_mirror-IsSound, keep-IsSound, append-IsSound, In-first_mirror,
}

abbrev pub HasOneEach : MirrorSite → Type 0
HasOneEach s = IsSound s.mirrors s.next_mirror

-- The table is sound, and the repository has no mirror.
abbrev pub Lacks : ℕ → MirrorSite → Type 0
Lacks i s = HasOneEach s × (listed i (map (λ m. m.repository_id) s.mirrors) ≡ false)

-- The table is sound, and the mirror has the key and the repository of one of its rows.
abbrev pub Holding : Mirror → MirrorSite → Type 0
Holding m s =
    HasOneEach s
    × (old : Mirror) × In old s.mirrors
    × (m.id ≡ old.id)
    × (m.repository_id ≡ old.repository_id)

module _ {ℓ} {A : Type ℓ} where
  -- What holds of an operation's value and state if it succeeds, and of its state if not
  abbrev pub After : (A → MirrorSite → Type 0) → (MirrorSite → Type 0) → Acted A → Type 0
  After P Q (v, ok a) = P a v
  After P Q (v, err x) = Q v

  pub After-keeps : (Q : MirrorSite → Type 0) (d : Acted A) → After (λ a. Q) Q d → Q d.0
  After-keeps Q (v, ok a) h = h
  After-keeps Q (v, err x) h = h

  pub if-After :
      (P : A → MirrorSite → Type 0) (Q : MirrorSite → Type 0) (b : Bool) (x y : Acted A)
      → After P Q x
      → After P Q y
      → After P Q (if b then x else y)
  if-After P Q true x y p q = p
  if-After P Q false x y p q = q

module _ {ℓ κ} {A : Type ℓ} {B : Type κ} (Q : MirrorSite → Type 0) where
  pub permitted-After :
      (x : Outcome A) (f : A → MirrorSite → Acted B) (s : MirrorSite)
      → Q s
      → ((a : A) → x ≡ ok a → After (λ b. Q) Q (f a s))
      → After (λ b. Q) Q (permitted x f s)
  permitted-After (ok a) f s p h = h a refl
  permitted-After (err e) f s p h = p

  pub on_success-After :
      (P : A → MirrorSite → Type 0) (R : B → MirrorSite → Type 0) (d : Acted A)
      (f : A → MirrorSite → Acted B)
      → After P Q d
      → ((a : A) (v : MirrorSite) → P a v → After R Q (f a v))
      → After R Q (on_success d f)
  on_success-After P R (v, ok a) f p h = h a v p
  on_success-After P R (v, err x) f p h = p

or_not_found-ok : (o : Option Mirror) (m : Mirror) → or_not_found o ≡ ok m → o ≡ some m
or_not_found-ok none m h = absurd (cc (h))
or_not_found-ok (some x) m h = cc (h)

-- The table is sound however the operation ends.
abbrev pub Keeps {ℓ} : {A : Type ℓ} → Acted A → Type 0
Keeps d = After (λ a. HasOneEach) HasOneEach d

module _ (e : MirrorEnv) where
  -- The table is not touched by calls of a server.
  pub call_server-After :
      (P Q : MirrorSite → Type 0) (c : MirrorCall) (s : MirrorSite)
      → P (record s { calls = s.calls ++ c ∷ [] })
      → Q s
      → After (λ n. P) Q (call_server e c s)
  unfolding call_server
  call_server-After P Q c s p q = elim (Outcome-cases (e.answer c)) [
    | inl (n, answered) ↦ rw (call_server, answered) p
    | inr (x, failed) ↦ rw (call_server, failed) q
  ]

  pub update_mirror_by_key-After :
      (m : Mirror) (s : MirrorSite) → Holding m s → Keeps (update_mirror_by_key e m s)
  unfolding update_mirror_by_key
  update_mirror_by_key-After m s (sound, old, i, same, repo) =
      if-After (λ x. HasOneEach) HasOneEach
        (e.fails_query (update_mirror_row m.id) || not (any (λ x. x.id == m.id) s.mirrors)) _ _
        sound (put_mirror-IsSound s.mirrors s.next_mirror sound old m i same repo)

  pub delete_mirror_by_key-After :
      (m : Mirror) (s : MirrorSite) → HasOneEach s → Keeps (delete_mirror_by_key e m s)
  unfolding delete_mirror_by_key
  delete_mirror_by_key-After m s sound =
      if-After (λ x. HasOneEach) HasOneEach (e.fails_query (delete_mirror_row m.id)) _ _ sound
        (keep-IsSound s.mirrors s.next_mirror sound (λ x. not (x.id == m.id)))

  abbrev stored : Mirror → MirrorSite → Mirror
  stored m s = record m { id = s.next_mirror; created_at = e.now }

  -- A new row is one of the table.
  pub create_mirror_row-After :
      (m : Mirror) (s : MirrorSite)
      → Lacks m.repository_id s
      → After Holding HasOneEach (create_mirror_row e m s)
  unfolding create_mirror_row
  create_mirror_row-After m s (sound, lacks) =
      if-After Holding HasOneEach (e.fails_query (insert_mirror m.repository_id)) _ _ sound (
        append-IsSound s.mirrors s.next_mirror sound (stored m s) refl lacks,
        stored m s,
        In-append_right s.mirrors (stored m s ∷ []) here,
        refl,
        refl,
      )

  pub announce-After :
      (q : CreateMirrorReq) (m : Mirror) (s : MirrorSite)
      → Lacks m.repository_id s
      → After (λ n. Lacks m.repository_id) HasOneEach (announce e q m s)
  announce-After q m s lacks =
      let P : ℕ → MirrorSite → Type 0 = λ n. Lacks m.repository_id in
      if-After P HasOneEach (is_gitea e.git_server) _ _
        (if-After P HasOneEach e.saas _ _
          (call_server-After (Lacks m.repository_id) HasOneEach _ s lacks lacks.0)
          (on_success-After HasOneEach P P _ _
            (call_server-After (Lacks m.repository_id) HasOneEach _ s lacks lacks.0) (λ n v l. l)))
        lacks

  pub enqueue-After : (p : ℕ) (m : Mirror) (s : MirrorSite) → Holding m s → Keeps (enqueue e p m s)
  enqueue-After p m s hold =
      if-After (λ x. HasOneEach) HasOneEach (is_gitaly e.git_server) _ _
        (update_mirror_by_key-After _ _ hold) hold.0

  pub find_mirror-first :
      (i : ℕ) (o : Option Mirror) (s : MirrorSite)
      → find_mirror e i s ≡ ok o
      → first_mirror i s.mirrors ≡ o
  unfolding find_mirror
  find_mirror-first i o s h = if-first (e.fails_query (find_by_repo_id i)) h
    where
      if-first :
          (b : Bool)
          → (if b then err store_failed else ok (first_mirror i s.mirrors)) ≡ ok o
          → first_mirror i s.mirrors ≡ o
      if-first true g = absurd (cc (g))
      if-first false g = cc (g)

  -- The mirror that the checks of an operation find is a row.
  pub mirror_by_repo_id-Holding :
      (i : ℕ) (m : Mirror) (s : MirrorSite)
      → HasOneEach s
      → mirror_by_repo_id e i s ≡ ok m
      → Holding m s
  unfolding mirror_by_repo_id
  mirror_by_repo_id-Holding i m s sound h =
      let (o, first, found) = bind-ok (find_mirror e i s) or_not_found m h in
      let first_found = find_mirror-first i o s first in
      let (row_in, repo) =
        In-first_mirror i s.mirrors m (cc (first_found, or_not_found-ok o m found)) in
      (sound, m, row_in, refl, refl)
