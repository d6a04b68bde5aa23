-- ===== src/Repos/Related/Shown.antt =====
-- Which related repositories a user is shown.
use csghub_server.Prelude.{
  sym, Text, text_eq, text_eq_iff, ℕ, Bool, true, false, ◌||◌, some, if◌then◌else◌, List, [], ◌∷◌,
  ◌++◌, keep, ◌≡◌, refl, lookup, insert, lookup-insert, arith, ◌∙◌, ap, append_assoc, append-nil,
  Bool-cases, inl, inr,
}
use csghub_server.Repos.Store.{Repository, World, Env, Outcome, ok, err, bind-ok}
use csghub_server.Repos.Access.{is_visible, visible_to_user}
use csghub_server.Repos.Related.{
  ids_from, ids_to, sort, compact, is_among, repos_by_ids, or_empty, by_type, related_repos,
  is_among-sort, is_among-compact, is_among-append, leads, is_among-from, is_among-to,
}

keep-cong {ℓ} :
    {A : Type ℓ} (p q : A → Bool) (xs : List A) → ((a : A) → p a ≡ q a) → keep p xs ≡ keep q xs
keep-cong p q [] h = refl
keep-cong p q (x ∷ xs) h = rw (h x, keep-cong p q xs h) refl

abbrev pub is_ok_true : Outcome Bool → Bool
is_ok_true (ok b) = b
is_ok_true (err e) = false

shown_step :
    (x : Outcome Bool) (b : Bool) (r : Repository) (rest kept out : List Repository)
    → x ≡ ok b
    → rest ≡ kept
    → ok (if b then r ∷ rest else rest) ≡ ok out
    → out ≡ (if is_ok_true x then r ∷ kept else kept)
shown_step x true r rest kept out e1 e2 h = rw e1 (cc (e2, h))
shown_step x false r rest kept out e1 e2 h = rw e1 (cc (e2, h))

visible_to_user-keep :
    (env : Env) (user : Text) (w : World) (rs out : List Repository)
    → visible_to_user env rs user w ≡ ok out
    → out ≡ keep (λ r. is_ok_true (is_visible env user w r)) rs
unfolding visible_to_user
visible_to_user-keep env user w [] out h = cc h
visible_to_user-keep env user w (r ∷ rs) out h =
    let (shown, e1, h1) = bind-ok (is_visible env user w r) _ out h in
    let (rest, e2, h2) = bind-ok (visible_to_user env rs user w) _ out h1 in
    shown_step (is_visible env user w r) shown r rest _ out e1
      (visible_to_user-keep env user w rs rest e2) h2

put_step :
    (t : Text) (r : Repository) (rs : List Repository) (m : List (Text × List Repository))
    → or_empty (
          if text_eq r.repository_type t
          then some (or_empty (lookup r.repository_type m) ++ r ∷ [])
          else lookup t m)
        ++ keep (λ r. text_eq r.repository_type t) rs
      ≡ or_empty (lookup t m) ++ keep (λ r. text_eq r.repository_type t) (r ∷ rs)
put_step t r rs m = elim (Bool-cases (text_eq r.repository_type t)) [
  | inl same ↦
      rw (same, ap (λ k. lookup k m) ((text_eq_iff r.repository_type t).0 same))
        (append_assoc (or_empty (lookup t m)) (r ∷ []) _)
  | inr other ↦ rw other refl
]

-- The repositories of a type, behind those that the map had.
lookup-by_type :
    (t : Text) (rs : List Repository) (m : List (Text × List Repository))
    → or_empty (lookup t (by_type rs m))
      ≡ or_empty (lookup t m) ++ keep (λ r. text_eq r.repository_type t) rs
unfolding by_type
lookup-by_type t [] m = sym (append-nil (or_empty (lookup t m)))
lookup-by_type t (r ∷ rs) m =
    let new = or_empty (lookup r.repository_type m) ++ r ∷ [] in
    lookup-by_type t rs (insert r.repository_type new m)
    ∙ rw (lookup-insert r.repository_type t new m) (put_step t r rs m)

lookup-by_type_empty :
    (t : Text) (rs : List Repository)
    → or_empty (lookup t (by_type rs [])) ≡ keep (λ r. text_eq r.repository_type t) rs
unfolding lookup
lookup-by_type_empty t rs = lookup-by_type t rs []

ids_from-ok :
    (env : Env) (i : ℕ) (w : World) (ns : List ℕ)
    → ids_from env i w ≡ ok ns
    → (j : ℕ) → is_among ns j ≡ leads w.relations i j
unfolding ids_from
ids_from-ok env i w ns h j = ground (arith, is_among-from i j w.relations)

ids_to-ok :
    (env : Env) (i : ℕ) (w : World) (ns : List ℕ)
    → ids_to env i w ≡ ok ns
    → (j : ℕ) → is_among ns j ≡ leads w.relations j i
unfolding ids_to
ids_to-ok env i w ns h j = ground (arith, is_among-to i j w.relations)

repos_by_ids-ok :
    (env : Env) (is : List ℕ) (w : World) (rs : List Repository)
    → repos_by_ids env is w ≡ ok rs
    → rs ≡ keep (λ r. is_among is r.id) w.repos
unfolding repos_by_ids
repos_by_ids-ok env is w rs h = ground arith

-- The ids that are looked for are those at the other end of some relation.
is_among-related :
    (env : Env) (i : ℕ) (w : World) (tos froms : List ℕ)
    → ids_from env i w ≡ ok tos
    → ids_to env i w ≡ ok froms
    → (j : ℕ)
    → is_among (compact (sort (tos ++ froms))) j ≡ (leads w.relations i j || leads w.relations j i)
is_among-related env i w tos froms ht hf j =
    rw
      (
        is_among-compact j (sort (tos ++ froms)),
        is_among-sort j (tos ++ froms),
        is_among-append j tos froms,
        ids_from-ok env i w tos ht j,
        ids_to-ok env i w froms hf j,
      )
      refl

map_of :
    (m : List (Text × List Repository)) (shown : List Repository)
    → ok (by_type shown []) ≡ ok m
    → m ≡ by_type shown []
map_of m shown h = cc h

-- If `relatedRepos` returns a map, then it has for each type the repositories of that type that are
-- related to the given one in either direction and that the user may see, each as often as it is
-- in the table, and in that order.
pub related_repos_lem :
    (env : Env) (i : ℕ) (user : Text) (w : World) (m : List (Text × List Repository)) (t : Text)
    → related_repos env i user w ≡ ok m
    → or_empty (lookup t m)
      ≡ keep
          (λ r. text_eq r.repository_type t)
          (keep
            (λ r. is_ok_true (is_visible env user w r))
            (keep (λ r. leads w.relations i r.id || leads w.relations r.id i) w.repos))
unfolding related_repos
related_repos_lem env i user w m t h =
    let (tos, ht, h1) = bind-ok (ids_from env i w) _ m h in
    let (froms, hf, h2) = bind-ok (ids_to env i w) _ m h1 in
    let (rs, hr, h3) = bind-ok (repos_by_ids env (compact (sort (tos ++ froms))) w) _ m h2 in
    let (shown, hs, h4) = bind-ok (visible_to_user env rs user w) _ m h3 in
    let related = repos_by_ids-ok env (compact (sort (tos ++ froms))) w rs hr in
    let among = keep-cong _ _ w.repos (λ r. is_among-related env i w tos froms ht hf r.id) in
    let visible = visible_to_user-keep env user w rs shown hs in
    let p = λ (r : Repository). text_eq r.repository_type t in
    let q = λ (r : Repository). is_ok_true (is_visible env user w r) in
    ap (λ x. or_empty (lookup t x)) (map_of m shown h4)
    ∙ lookup-by_type_empty t shown
    ∙ ap (keep p) (visible ∙ ap (keep q) (related ∙ among))
