-- ===== src/Repos/Git/Locks/Exclusive.antt =====
-- What locks keep, and whose lock a user can remove.
use csghub_server.Prelude.{
  subst, sym, &&_true, map, In-map, Text, text_eq, text_eq_iff, ℕ, Bool, true, false, not, Option,
  none, some, List, [], ◌∷◌, ◌++◌, keep, ◌==◌, ==_iff, Bool-cases, ◌≡◌, refl, arith, inl, inr, In,
  In-keep, length, ◌≤◌, length-append,
}
use csghub_server.Repos.Access.{allow_write_access}
use csghub_server.Repos.Git.Locks.{
  allow_write_access, checked, insert_lock, is_lock_of, lock_of, lock_by_path, lock_by_id, insert,
  create_lock, create_lock_checks, unlock, unlock_checks, writer_checks, remove,
}
use csghub_server.Repos.Store.{
  checked, insert_lock, Repository, User, World, Env, Place, LfsLock, Outcome, ok, err, Done,
  bind-ok, find_by_path, find_by_username, remove_lock,
}

-- No path of a repository is locked twice.
abbrev pub IsExclusive : World → Type 0
IsExclusive w = (r : ℕ) (p : Text) → length (keep (is_lock_of r p) w.locks) ≤ 1

lock_of-none :
    (r : ℕ) (p : Text) (ls : List LfsLock)
    → lock_of r p ls ≡ none
    → length (keep (is_lock_of r p) ls) ≡ 0
lock_of-none r p [] h = refl
lock_of-none r p (l ∷ ls) h = ground (arith, lock_of-none r p ls)

keep-append {ℓ} :
    {A : Type ℓ} (t : A → Bool) (xs ys : List A) → keep t (xs ++ ys) ≡ keep t xs ++ keep t ys
keep-append t [] ys = refl
keep-append t (x ∷ xs) ys = ground (arith, keep-append t xs ys)

length-keep_le {ℓ} :
    {A : Type ℓ} (s t : A → Bool) (xs : List A) → length (keep t (keep s xs)) ≤ length (keep t xs)
length-keep_le s t [] = omega arith
length-keep_le s t (x ∷ xs) = ground (arith, length-keep_le s t xs)

absent_at :
    (l : LfsLock) (ls : List LfsLock)
    → lock_of l.repository_id l.path ls ≡ none
    → (r : ℕ) (p : Text) → is_lock_of r p l ≡ true
    → lock_of r p ls ≡ none
absent_at l ls absent r p same =
    let (same_repo, same_path) = &&_true (l.repository_id == r) (text_eq l.path p) same in
    cc (absent, (==_iff l.repository_id r).0 same_repo, (text_eq_iff l.path p).0 same_path)

-- A lock of a path put behind the others.
exclusive-append :
    (l : LfsLock) (ls : List LfsLock)
    → lock_of l.repository_id l.path ls ≡ none
    → ((r : ℕ) (p : Text) → length (keep (is_lock_of r p) ls) ≤ 1)
    → (r : ℕ) (p : Text) → length (keep (is_lock_of r p) (ls ++ l ∷ [])) ≤ 1
exclusive-append l ls absent old r p =
    let split = keep-append (is_lock_of r p) ls (l ∷ []) in
    let sum = length-append (keep (is_lock_of r p) ls) (keep (is_lock_of r p) (l ∷ [])) in
    elim (Bool-cases (is_lock_of r p l)) [
      | inl same ↦
          let none_there = lock_of-none r p ls (absent_at l ls absent r p same) in
          rw split (ground (arith, sum, none_there))
      | inr other ↦ rw split (ground (arith, sum, old r p))
    ]

insert-IsExclusive :
    (env : Env) (r u : ℕ) (p : Text) (o : Option LfsLock) (w : World)
    → lock_of r p w.locks ≡ o
    → IsExclusive w
    → IsExclusive (insert env r u p o w).0
insert-IsExclusive env r u p (some l) w h ex = ex
insert-IsExclusive env r u p none w h ex = elim (Bool-cases (env.fails (insert_lock r p))) [
  | inl fails ↦ rw fails ex
  | inr stored ↦ rw stored (
      exclusive-append (record { id = w.next_lock; repository_id = r; user_id = u; path = p })
        w.locks h ex)
]

remove-IsExclusive :
    (env : Env) (i : ℕ) (l : LfsLock) (w : World) → IsExclusive w → IsExclusive (remove env i l w).0
remove-IsExclusive env i l w ex = elim (Bool-cases (env.fails (remove_lock i))) [
  | inl fails ↦ rw fails ex
  | inr removed ↦
      rw removed (λ r p.
        omega (arith, length-keep_le (λ m. not (m.id == i)) (is_lock_of r p) w.locks, ex r p))
]

lock_by_path-ok :
    (env : Env) (r : ℕ) (p : Text) (w : World) (o : Option LfsLock)
    → lock_by_path env r p w ≡ ok o
    → lock_of r p w.locks ≡ o
unfolding lock_by_path
lock_by_path-ok env r p w o h = ground arith

checked-kept {ℓ κ μ} :
    {A : Type ℓ} {B : Type κ} (P : World → Type μ) (x : Outcome A) (f : A → World → Done B)
    (w : World)
    → P w
    → ((a : A) → x ≡ ok a → P (f a w).0)
    → P (checked x f w).0
checked-kept P (ok a) f w p h = h a refl
checked-kept P (err e) f w p h = p

ok-injective {ℓ} : {A : Type ℓ} (a b : A) → ok a ≡ ok b → a ≡ b
ok-injective a b h = cc h

create_lock_step :
    (env : Env) (p : Place) (user file : Text) (w : World)
    (y : (Repository × User) × Option LfsLock)
    → create_lock_checks env p user file w ≡ ok y
    → lock_of (y.0.0).id file w.locks ≡ y.1
unfolding create_lock_checks
create_lock_step env p user file w y h =
    let (x, passes, h1) = bind-ok (writer_checks env p user w) _ y h in
    let (o, looked, h2) = bind-ok (lock_by_path env (x.0).id file w) _ y h1 in
    subst (λ z. lock_of (z.0.0).id file w.locks ≡ z.1) (ok-injective _ y h2)
      (lock_by_path-ok env (x.0).id file w o looked)

-- If no path of a repository is locked twice, then so it is after `CreateLock` and after `UnLock`,
-- whoever calls them and whichever calls fail.
pub locks-IsExclusive :
    (env : Env) (p : Place) (user file : Text) (i : ℕ) (force : Bool) (w : World)
    → IsExclusive w
    → IsExclusive (create_lock env p user file w).0 × IsExclusive (unlock env p user i force w).0
unfolding create_lock unlock
locks-IsExclusive env p user file i force w ex = (
  checked-kept IsExclusive (create_lock_checks env p user file w) _ w ex (λ y h.
      insert-IsExclusive env (y.0.0).id (y.0.1).id file y.1 w
        (create_lock_step env p user file w y h) ex),
  checked-kept IsExclusive (unlock_checks env p user i force w) _ w ex
      (λ l h. remove-IsExclusive env i l w ex),
)

key-gone : (i : ℕ) (ls : List LfsLock) → ¬ In i (map (λ m. m.id) (keep (λ m. not (m.id == i)) ls))
key-gone i ls m =
    let (a, in_kept, key) = In-map (λ m. m.id) (keep (λ m. not (m.id == i)) ls) m in
    cc (In-keep (λ m. not (m.id == i)) ls in_kept, (==_iff a.id i).1 (sym key))

-- Every registered user who names a public repository and asks for force removes any lock by its
-- key, whichever repository it belongs to and whoever holds it.
pub unlock-foreign :
    (env : Env) (p : Place) (user : Text) (i : ℕ) (w : World) (repo : Repository) (u : User)
    (l : LfsLock)
    → find_by_path env p w ≡ ok repo
    → repo.private ≡ false
    → find_by_username env user w ≡ ok u
    → lock_by_id env i w ≡ ok (some l)
    → env.fails (remove_lock i) ≡ false
    → ((unlock env p user i true w).1 ≡ ok l)
      × (¬ In i (map (λ m. m.id) (unlock env p user i true w).0.locks))
unfolding unlock unlock_checks writer_checks allow_write_access
unlock-foreign env p user i w repo u l found open_to_all there held removes =
    rw (found, there, open_to_all, held, removes) (refl, key-gone i w.locks)
