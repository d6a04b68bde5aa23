-- ===== src/Likes/Store.antt =====
-- builder/store/database/user_like.go. A statement that runs on the transaction is undone if the
-- transaction fails; one that runs on the database itself is not. The column of likes may be NULL.
use csghub_server.Prelude.{
  ℕ, zero, suc, ℤ, pos, negsuc, Bool, true, false, not, ◌&&◌, Option, none, some, List, [], ◌∷◌,
  ◌++◌, map, keep, length, if◌then◌else◌, ◌==◌,
}

pub record UserLike : Type 0 where
  pub user_id : ℕ
  pub repo_id : ℕ
  pub collection_id : ℕ

-- A row of the repositories or of the collections.
pub record Liked : Type 0 where
  pub id : ℕ
  pub likes : Option ℤ

pub record Db : Type 0 where
  pub user_likes : List UserLike
  pub repositories : List Liked
  pub collections : List Liked

abbrev pub coalesce : Option ℤ → ℤ → ℤ
coalesce none d = d
coalesce (some z) d = z

abbrev pub succ : ℤ → ℤ
succ (pos n) = pos (suc n)
succ (negsuc zero) = pos 0
succ (negsuc (suc n)) = negsuc n

abbrev pub pred : ℤ → ℤ
pred (pos zero) = negsuc 0
pred (pos (suc n)) = pos n
pred (negsuc n) = negsuc (suc n)

-- `likes=COALESCE(likes, 0)+1` and `likes=COALESCE(likes, 1)-1` of the row with that key
abbrev pub like_row : ℕ → Liked → Liked
like_row i x = if x.id == i then record x { likes = some (succ (coalesce x.likes (pos 0))) } else x

abbrev pub unlike_row : ℕ → Liked → Liked
unlike_row i x =
    if x.id == i then record x { likes = some (pred (coalesce x.likes (pos 1))) } else x

abbrev pub rows_with : ℕ → List Liked → ℕ
rows_with i xs = length (keep (λ x. x.id == i) xs)

-- Which statements go through, and whether the transaction can be committed.
pub record Works : Type 0 where
  pub first : Bool
  pub second : Bool
  pub commits : Bool

abbrev pub Done : Type 0
Done = Db × Bool

-- `assertAffectedOneRow`: a statement must have gone through, on one row.
abbrev pub one_row : Bool → ℕ → Bool
one_row works n = works && n == 1

-- `begun` is what stays if the transaction fails, and `ended` the state at its end.
abbrev pub commit : Bool → Db → Db → Done
commit ok' begun ended = if ok' then (ended, true) else (begun, false)

abbrev pub with_like : UserLike → Db → Db
with_like l db = record db { user_likes = db.user_likes ++ l ∷ [] }

unfoldable pub add : Works → ℕ → ℕ → Db → Done
add w user_id repo_id db =
    let liked = with_like (record { user_id = user_id; repo_id = repo_id; collection_id = 0 }) db in
    let ended = record liked { repositories = map (like_row repo_id) db.repositories } in
    commit (w.first && (one_row w.second (rows_with repo_id db.repositories) && w.commits)) db ended

unfoldable pub like_collection : Works → ℕ → ℕ → Db → Done
like_collection w user_id collection_id db =
    let liked =
      with_like (record { user_id = user_id; repo_id = 0; collection_id = collection_id }) db in
    let ended = record liked { collections = map (like_row collection_id) db.collections } in
    commit (w.first && (one_row w.second (rows_with collection_id db.collections) && w.commits)) db
      ended

abbrev pub is_like : ℕ → ℕ → UserLike → Bool
is_like user_id repo_id l = l.user_id == user_id && l.repo_id == repo_id

abbrev pub is_collection_like : ℕ → ℕ → UserLike → Bool
is_collection_like user_id collection_id l =
    l.user_id == user_id && l.collection_id == collection_id

abbrev pub without : (UserLike → Bool) → Db → Db
without p db = record db { user_likes = keep (λ l. not (p l)) db.user_likes }

abbrev pub deleted : Bool → (UserLike → Bool) → Db → Db
deleted works p db = if works then without p db else db

-- The delete runs on the database itself, and is not undone.
unfoldable pub delete : Works → ℕ → ℕ → Db → Done
delete w user_id repo_id db =
    let begun = deleted w.first (is_like user_id repo_id) db in
    let ended = record begun { repositories = map (unlike_row repo_id) db.repositories } in
    commit
      (one_row w.first (length (keep (is_like user_id repo_id) db.user_likes))
        && (one_row w.second (rows_with repo_id db.repositories) && w.commits))
      begun ended

unfoldable pub unlike_collection : Works → ℕ → ℕ → Db → Done
unlike_collection w user_id collection_id db =
    let begun = deleted w.first (is_collection_like user_id collection_id) db in
    let ended = record begun { collections = map (unlike_row collection_id) db.collections } in
    commit
      (one_row w.first (length (keep (is_collection_like user_id collection_id) db.user_likes))
        && (one_row w.second (rows_with collection_id db.collections) && w.commits))
      begun ended
