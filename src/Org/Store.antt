-- ===== src/Org/Store.antt =====
-- The tables that membership needs (builder/store/database/member.go and the lookups of users and
-- organizations), the git server as the list of its accepted calls, and which calls fail.
use csghub_server.Prelude.{
  refl, inr, inl, arith, ◌⊎◌, ◌≡◌, length, text_eq, Text, take, ℕ, zero, suc, Bool, Option, none,
  some, List, [], ◌∷◌, ◌++◌, keep, if◌then◌else◌, ◌&&◌, ◌==◌, not, ◌-◌, ◌*◌,
}
use csghub_server.Org.Role.{Role}

pub record Organization : Type 0 where
  pub id : ℕ
  pub path : Text

pub record User : Type 0 where
  pub id : ℕ
  pub uuid : Text
  pub username : Text
  pub nickname : Text
  pub avatar : Text
  pub last_login_at : Text

pub record Member : Type 0 where
  pub organization_id : ℕ
  pub user_id : ℕ
  pub role : Text

-- What the git server was asked to do, and did.
pub data GitCall : Type 0 where
  add_member : Text → Text → Role → GitCall
  remove_member : Text → Text → Role → GitCall
  add_roles : Text → List Role → GitCall

pub record World : Type 0 where
  pub orgs : List Organization
  pub users : List User
  pub members : List Member
  pub git : List GitCall

-- A call of a store or of the git server; the environment says which of them fail.
pub data Call : Type 0 where
  find_org : Text → Call
  find_user : Text → Call
  find_member : ℕ → ℕ → Call
  list_members : ℕ → Call
  insert_member : ℕ → ℕ → Call
  delete_member : ℕ → ℕ → Call
  git : GitCall → Call

pub record Env : Type 0 where
  pub fails : Call → Bool
  -- whether the configured git server is Gitea
  pub is_gitea : Bool

pub data Error : Type 0 where
  not_found store_failed not_allowed : Error

pub data Outcome {ℓ} (A : Type ℓ) : Type ℓ where
  ok : A → Outcome A
  err : Error → Outcome A

-- A step that reads and may fail, before one that may change the world.
infixl 5 ◌>>=◌
abbrev pub ◌>>=◌ {ℓ κ} :
    {A : Type ℓ} {B : Type κ} → Outcome A → (A → World × Outcome B) → World → World × Outcome B
◌>>=◌ (ok a) f w = f a
◌>>=◌ (err e) f w = (w, err e)

abbrev pub org_by_path : Text → List Organization → Outcome Organization
org_by_path p [] = err not_found
org_by_path p (o ∷ os) = if text_eq o.path p then ok o else org_by_path p os

abbrev pub user_by_name : Text → List User → Outcome User
user_by_name n [] = err not_found
user_by_name n (u ∷ us) = if text_eq u.username n then ok u else user_by_name n us

abbrev pub is_member : ℕ → ℕ → Member → Bool
is_member o u m = m.organization_id == o && m.user_id == u

abbrev pub member_in : ℕ → ℕ → List Member → Option Member
member_in o u [] = none
member_in o u (m ∷ ms) = if is_member o u m then some m else member_in o u ms

unfoldable pub find_by_path : Env → Text → World → Outcome Organization
find_by_path env p w = if env.fails (find_org p) then err store_failed else org_by_path p w.orgs

unfoldable pub find_by_username : Env → Text → World → Outcome User
find_by_username env n w =
    if env.fails (find_user n) then err store_failed else user_by_name n w.users

-- `Find`: the nil member of "no rows" is `none`, every other error stays one.
unfoldable pub find : Env → ℕ → ℕ → World → Outcome (Option Member)
find env o u w =
    if env.fails (find_member o u) then err store_failed else ok (member_in o u w.members)

unfoldable pub add : Env → ℕ → ℕ → Text → World → World × Outcome (Unit {0})
add env o u r w = if env.fails (insert_member o u) then (w, err store_failed) else (
  record w { members = w.members ++ record { organization_id = o; user_id = u; role = r } ∷ [] },
  ok tt,
)

-- `Delete`: only rows with that role.
abbrev pub is_member_with : ℕ → ℕ → Text → Member → Bool
is_member_with o u r m = is_member o u m && text_eq m.role r

unfoldable pub delete : Env → ℕ → ℕ → Text → World → World × Outcome (Unit {0})
delete env o u r w =
    if env.fails (delete_member o u)
    then (w, err store_failed)
    else (record w { members = keep (λ m. not (is_member_with o u r m)) w.members }, ok tt)

-- `Limit(pageSize).Offset((page - 1) * pageSize)`, with the number of all rows.
abbrev pub skip : ℕ → List Member → List Member
skip zero ms = ms
skip (suc n) [] = []
skip (suc n) (m ∷ ms) = skip n ms

unfoldable pub organization_members : Env → ℕ → ℕ → ℕ → World → Outcome (List Member × ℕ)
organization_members env o page_size page w =
    let rows = keep (λ m. m.organization_id == o) w.members in
    if env.fails (list_members o)
    then err store_failed
    else ok (take page_size (skip ((page - 1) * page_size) rows), length rows)

-- A call of the git server, which Gitea's membership alone is told of.
unfoldable pub tell_git : Env → GitCall → World → World × Outcome (Unit {0})
tell_git env c w =
    if env.is_gitea
    then (if env.fails (git c)
        then (w, err store_failed)
        else (record w { git = w.git ++ c ∷ [] }, ok tt))
    else (w, ok tt)

pub Outcome-cases {ℓ} :
    {A : Type ℓ} (x : Outcome A) → ((a : A) × (x ≡ ok a)) ⊎ ((e : Error) × (x ≡ err e))
Outcome-cases (ok a) = inl (a, refl)
Outcome-cases (err e) = inr (e, refl)

pub find_by_path-ok :
    (env : Env) (p : Text) (w : World) (o : Organization)
    → find_by_path env p w ≡ ok o
    → org_by_path p w.orgs ≡ ok o
unfolding find_by_path
find_by_path-ok env p w o h = ground arith

pub find_by_username-ok :
    (env : Env) (n : Text) (w : World) (u : User)
    → find_by_username env n w ≡ ok u
    → user_by_name n w.users ≡ ok u
unfolding find_by_username
find_by_username-ok env n w u h = ground arith

pub find-ok :
    (env : Env) (o u : ℕ) (w : World) (m : Option Member)
    → find env o u w ≡ ok m
    → member_in o u w.members ≡ m
unfolding find
find-ok env o u w m h = ground arith
