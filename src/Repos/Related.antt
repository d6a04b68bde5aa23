-- ===== src/Repos/Related.antt =====
-- component/repo.go, `relatedRepos`: the repositories that are related to one, in either direction, as
-- far as the user sees them, by their types (builder/store/database/repo_relations.go).
pub mod Shown
use csghub_server.Prelude.{
  Text, ℕ, Bool, ◌&&◌, ◌||◌, Option, none, some, if◌then◌else◌, List, [], ◌∷◌, ◌++◌, map, keep, any,
  ◌≡◌, refl, ◌==◌, leb, lookup, insert, arith,
}
use csghub_server.Repos.Store.{
  Repository, World, Env, Outcome, ok, err, ◌>>=◌, store_failed, relations_from, relations_to,
  find_by_ids,
}
use csghub_server.Repos.Access.{visible_to_user}

-- `From` and `To` of the store: the ids at the other ends of the relations.
unfoldable pub ids_from : Env → ℕ → World → Outcome (List ℕ)
ids_from env i w =
    if env.fails (relations_from i)
    then err store_failed
    else ok (map (λ x. x.1) (keep (λ x. x.0 == i) w.relations))

unfoldable pub ids_to : Env → ℕ → World → Outcome (List ℕ)
ids_to env i w =
    if env.fails (relations_to i)
    then err store_failed
    else ok (map (λ x. x.0) (keep (λ x. x.1 == i) w.relations))

-- `slices.Sort` and `slices.Compact` on numbers
unfoldable pub insert_sorted : ℕ → List ℕ → List ℕ
insert_sorted n [] = n ∷ []
insert_sorted n (m ∷ ms) = let rest = insert_sorted n ms in if leb n m then n ∷ m ∷ ms else m ∷ rest

unfoldable pub sort : List ℕ → List ℕ
sort [] = []
sort (n ∷ ns) = insert_sorted n (sort ns)

unfoldable pub compact : List ℕ → List ℕ
compact [] = []
compact (n ∷ []) = n ∷ []
compact (n ∷ m ∷ ms) = let rest = compact (m ∷ ms) in if n == m then rest else n ∷ rest

abbrev pub is_among : List ℕ → ℕ → Bool
is_among is i = any (λ j. j == i) is

-- `FindByIds`
unfoldable pub repos_by_ids : Env → List ℕ → World → Outcome (List Repository)
repos_by_ids env is w =
    if env.fails (find_by_ids is)
    then err store_failed
    else ok (keep (λ r. is_among is r.id) w.repos)

-- `res[t] = append(res[t], repo)`
abbrev pub or_empty : Option (List Repository) → List Repository
or_empty none = []
or_empty (some rs) = rs

unfoldable pub by_type :
    List Repository → List (Text × List Repository) → List (Text × List Repository)
by_type [] m = m
by_type (r ∷ rs) m =
    by_type rs (insert r.repository_type (or_empty (lookup r.repository_type m) ++ r ∷ []) m)

unfoldable pub related_repos : Env → ℕ → Text → World → Outcome (List (Text × List Repository))
related_repos env i user w = do
  tos ← ids_from env i w
  froms ← ids_to env i w
  rs ← repos_by_ids env (compact (sort (tos ++ froms))) w
  shown ← visible_to_user env rs user w
  ok (by_type shown [])

pub is_among-insert :
    (n i : ℕ) (ms : List ℕ) → is_among (insert_sorted n ms) i ≡ (n == i || is_among ms i)
unfolding insert_sorted
is_among-insert n i [] = refl
is_among-insert n i (m ∷ ms) = ground (arith, is_among-insert n i ms)

pub is_among-sort : (i : ℕ) (ns : List ℕ) → is_among (sort ns) i ≡ is_among ns i
unfolding sort
is_among-sort i [] = refl
is_among-sort i (n ∷ ns) = ground (arith, is_among-insert n i (sort ns), is_among-sort i ns)

pub is_among-compact : (i : ℕ) (ns : List ℕ) → is_among (compact ns) i ≡ is_among ns i
unfolding compact
is_among-compact i [] = refl
is_among-compact i (n ∷ []) = refl
is_among-compact i (n ∷ m ∷ ms) = ground (arith, is_among-compact i (m ∷ ms))

pub is_among-append :
    (i : ℕ) (ns ms : List ℕ) → is_among (ns ++ ms) i ≡ (is_among ns i || is_among ms i)
is_among-append i [] ms = refl
is_among-append i (n ∷ ns) ms = ground (arith, is_among-append i ns ms)

-- Whether some relation leads from the one to the other.
abbrev pub leads : List (ℕ × ℕ) → ℕ → ℕ → Bool
leads xs i j = any (λ x. x.0 == i && x.1 == j) xs

pub is_among-from :
    (i j : ℕ) (xs : List (ℕ × ℕ))
    → is_among (map (λ x. x.1) (keep (λ x. x.0 == i) xs)) j ≡ leads xs i j
is_among-from i j [] = refl
is_among-from i j (x ∷ xs) = ground (arith, is_among-from i j xs)

pub is_among-to :
    (i j : ℕ) (xs : List (ℕ × ℕ))
    → is_among (map (λ x. x.0) (keep (λ x. x.1 == i) xs)) j ≡ leads xs j i
is_among-to i j [] = refl
is_among-to i j (x ∷ xs) = ground (arith, is_among-to i j xs)
