-- ===== src/Likes/Balance.antt =====
-- Whether the number that a repository shows is the number of its likes.
use csghub_server.Likes.Store.{
  rows_with, one_row, Works, add, delete, pred, like_row, unlike_row, coalesce, is_like, Db, Liked,
  UserLike,
}
use csghub_server.Prelude.{
  ℕ, suc, ◌+◌, ℤ, pos, true, false, not, ◌&&◌, Option, none, some, List, [], ◌∷◌, ◌++◌, map, keep,
  length, if◌then◌else◌, ◌==◌, ◌≡◌, refl, All, arith, Bool-cases, inl, inr, ◌∙◌, &&_true, ==_iff,
  ==_refl, sym, ap,
}

-- The likes of a repository.
abbrev pub likes_of : ℕ → List UserLike → ℕ
likes_of r ls = length (keep (λ l. l.repo_id == r) ls)

-- Every repository shows the number of its likes, where NULL counts as 0.
abbrev pub Balanced : Db → Type 0
Balanced db =
    All (λ x. coalesce x.likes (pos 0) ≡ pos (likes_of x.id db.user_likes)) db.repositories

likes_of-append :
    (r u i : ℕ) (ls : List UserLike)
    → likes_of r (ls ++ record { user_id = u; repo_id = i; collection_id = 0 } ∷ [])
      ≡ (if i == r then suc (likes_of r ls) else likes_of r ls)
likes_of-append r u i [] = ground arith
likes_of-append r u i (l ∷ ls) = ground (arith, likes_of-append r u i ls)

-- The other likes, and that one.
likes_of-keep :
    (r u i : ℕ) (ls : List UserLike)
    → likes_of r (keep (λ l. not (is_like u i l)) ls)
        + (if i == r then length (keep (is_like u i) ls) else 0)
      ≡ likes_of r ls
likes_of-keep r u i [] = ground arith
likes_of-keep r u i (l ∷ ls) = ground (arith, likes_of-keep r u i ls)

module _ (f : Liked → Liked) (ls ls' : List UserLike) where
  abbrev Shows : List UserLike → Liked → Type 0
  Shows ms x = coalesce x.likes (pos 0) ≡ pos (likes_of x.id ms)

  All-map_rows :
      (xs : List Liked)
      → ((x : Liked) → Shows ls x → Shows ls' (f x))
      → All (Shows ls) xs
      → All (Shows ls') (map f xs)
  All-map_rows [] step h = tt
  All-map_rows (x ∷ xs) step h = (step x h.0, All-map_rows xs step h.1)

flip : (a b : ℕ) → (a == b) ≡ (b == a)
flip a b = ground arith

pred-one_more :
    (o : Option ℤ) (n k : ℕ)
    → coalesce o (pos 0) ≡ pos n
    → k + 1 ≡ n
    → pred (coalesce o (pos 1)) ≡ pos k
pred-one_more none n k h e = absurd (ground (arith, h, e))
pred-one_more (some z) n k h e = rw h (ground (arith, e))

like_row-Shows :
    (u i : ℕ) (ls : List UserLike) (x : Liked)
    → coalesce x.likes (pos 0) ≡ pos (likes_of x.id ls)
    → coalesce (like_row i x).likes (pos 0)
      ≡ pos (
          likes_of
            (like_row i x).id
            (ls ++ record { user_id = u; repo_id = i; collection_id = 0 } ∷ []))
like_row-Shows u i ls x h = elim (Bool-cases (x.id == i)) [
  | inl same ↦ rw (same, h, likes_of-append x.id u i ls, flip i x.id, same) refl
  | inr other ↦ rw (other, h, likes_of-append x.id u i ls, flip i x.id, other) refl
]

unlike_row-Shows :
    (u i : ℕ) (ls : List UserLike) (x : Liked)
    → length (keep (is_like u i) ls) ≡ 1
    → coalesce x.likes (pos 0) ≡ pos (likes_of x.id ls)
    → coalesce (unlike_row i x).likes (pos 0)
      ≡ pos (likes_of (unlike_row i x).id (keep (λ l. not (is_like u i l)) ls))
unlike_row-Shows u i ls x one h = elim (Bool-cases (x.id == i)) [
  | inl same ↦
      rw same
        (pred-one_more x.likes _ _ h (rw (flip i x.id, same, one) refl ∙ likes_of-keep x.id u i ls))
  | inr other ↦
      rw (other, h)
        (ap pos (sym (rw (flip i x.id, other) (omega arith) ∙ likes_of-keep x.id u i ls)))
]

-- If every repository shows the number of its likes, NULL counting as 0, then so it does after a
-- repository was liked, whichever statements fail; on an error nothing has changed.
pub add-Balanced :
    (w : Works) (u i : ℕ) (db : Db)
    → Balanced db
    → Balanced (add w u i db).0 × ((add w u i db).1 ≡ false → (add w u i db).0 ≡ db)
unfolding add
add-Balanced w u i db h =
    elim (Bool-cases (w.first && (one_row w.second (rows_with i db.repositories) && w.commits))) [
      | inr no' ↦ rw no' (h, λ _. refl)
      | inl ok' ↦ rw ok' (
        All-map_rows (like_row i) db.user_likes
            (db.user_likes ++ record { user_id = u; repo_id = i; collection_id = 0 } ∷ [])
            db.repositories (like_row-Shows u i db.user_likes) h,
        λ e. absurd (cc),
      )
    ]

-- If every repository shows the number of its likes, NULL counting as 0, and `Delete` takes back a
-- like without an error, then so it does afterwards.
pub delete-Balanced :
    (w : Works) (u i : ℕ) (db : Db)
    → Balanced db
    → (delete w u i db).1 ≡ true
    → Balanced (delete w u i db).0
unfolding delete
delete-Balanced w u i db h yes' =
    elim (Bool-cases (
      one_row w.first (length (keep (is_like u i) db.user_likes))
      && (one_row w.second (rows_with i db.repositories) && w.commits))) [
        | inr no' ↦ absurd (cc (rw no' at yes'))
        | inl ok' ↦
            let one =
              &&_true (one_row w.first (length (keep (is_like u i) db.user_likes)))
                (one_row w.second (rows_with i db.repositories) && w.commits) ok' in
            let two = &&_true w.first (length (keep (is_like u i) db.user_likes) == 1) one.0 in
            rw (ok', two.0)
              (All-map_rows (unlike_row i) db.user_likes
                (keep (λ l. not (is_like u i l)) db.user_likes) db.repositories
                (λ x s.
                  unlike_row-Shows u i db.user_likes x
                    ((==_iff (length (keep (is_like u i) db.user_likes)) 1).0 two.1) s)
                h)
      ]

-- If the user likes the repository once and the update of the number fails after the delete went
-- through, `Delete` reports the error, but the like is gone and the number is as it was: a
-- repository that was in balance shows one like more than it has.
pub delete-not_undone :
    (w : Works) (u i : ℕ) (db : Db)
    → w.first ≡ true
    → w.second ≡ false
    → length (keep (is_like u i) db.user_likes) ≡ 1
    → ((delete w u i db).1 ≡ false)
      × ((delete w u i db).0.repositories ≡ db.repositories)
      × (suc (likes_of i (delete w u i db).0.user_likes) ≡ likes_of i db.user_likes)
unfolding delete
delete-not_undone w u i db a b one =
    rw (a, b, one)
      (refl, refl, (rw (==_refl i, one) (omega arith) ∙ likes_of-keep i u i db.user_likes))
