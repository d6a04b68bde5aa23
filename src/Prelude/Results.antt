-- ===== src/Prelude/Results.antt =====
-- What a lookup in the database returns, and results of fallible code.
use mathlib.Core.Option.{Option, none, some}

-- `no_rows` is `sql.ErrNoRows`, `failed` every other error.
pub data Fetched {ℓ} (A : Type ℓ) : Type ℓ where
  found : A → Fetched A
  no_rows : Fetched A
  failed : Fetched A

-- The first row that a query returns.
abbrev pub fetched {ℓ} : {A : Type ℓ} → Option A → Fetched A
fetched none = no_rows
fetched (some a) = found a
