-- ===== src/Likes/Examples.antt =====
-- A repository with one like, and the theorems at it.
use csghub_server.Likes.Balance.{
  delete-not_undone, add-Balanced, delete-Balanced, likes_of, Balanced,
}
use csghub_server.Likes.Store.{Db, Works, add, delete}
use csghub_server.Prelude.{suc, pos, true, false, none, some, [], ◌∷◌, ◌≡◌, refl}

abbrev one_like : Db
one_like = record {
  user_likes = record { user_id = 5; repo_id = 9; collection_id = 0 } ∷ [];
  repositories = record { id = 9; likes = some (pos 1) } ∷ record { id = 8; likes = none } ∷ [];
  collections = [];
}

abbrev all_work : Works
all_work = record { first = true; second = true; commits = true }

abbrev update_fails : Works
update_fails = record { first = true; second = false; commits = true }

liked_and_unliked : delete all_work 5 8 (add all_work 5 8 one_like).0 ≡ (
  record one_like {
    repositories =
        record { id = 9; likes = some (pos 1) } ∷ record { id = 8; likes = some (pos 0) } ∷ [];
  },
  true,
)
unfolding add delete
liked_and_unliked = refl

add-Balanced_example :
    Balanced (add all_work 5 8 one_like).0
    × ((add all_work 5 8 one_like).1 ≡ false → (add all_work 5 8 one_like).0 ≡ one_like)
add-Balanced_example = add-Balanced all_work 5 8 one_like (refl, (refl, tt))

delete-Balanced_test : Balanced (delete all_work 5 9 one_like).0
unfolding delete
delete-Balanced_test = delete-Balanced all_work 5 9 one_like (refl, (refl, tt)) refl

delete-not_undone_test :
    ((delete update_fails 5 9 one_like).1 ≡ false)
    × ((delete update_fails 5 9 one_like).0.repositories ≡ one_like.repositories)
    × (suc (likes_of 9 (delete update_fails 5 9 one_like).0.user_likes) ≡ 1)
delete-not_undone_test = delete-not_undone update_fails 5 9 one_like refl refl refl
