-- ===== src/Repos/Mirrors/Table.antt =====
-- The table of mirrors: its keys, and the repositories that its rows belong to.
use csghub_server.Prelude.{
  All-map, All-append, none, some, or_true, ◌≡◌, refl, ◌==◌, ==_iff, ==_refl, ◌≤◌, any, ℕ, suc,
  Bool, true, false, List, [], ◌∷◌, ◌++◌, map, keep, All, In, here, there, arith, Bool-cases, inl,
  inr, sym, ap,
}
use csghub_server.Repos.Mirrors.{first_mirror, Mirror, put_mirror}

abbrev pub listed : ℕ → List ℕ → Bool
listed i = any (λ j. j == i)

-- No number occurs twice.
abbrev pub AllDistinct : List ℕ → Type 0
AllDistinct [] = Unit
AllDistinct (i ∷ is) = (listed i is ≡ false) × AllDistinct is

-- Keys are below the next one and distinct, and no repository has two mirrors.
pub record IsSound (mirrors : List Mirror) (next : ℕ) : Type 0 where
  pub below : All (λ i. suc i ≤ next) (map (λ m. m.id) mirrors)
  pub keys : AllDistinct (map (λ m. m.id) mirrors)
  pub one_each : AllDistinct (map (λ m. m.repository_id) mirrors)

listed-append :
    (i j : ℕ) (is : List ℕ)
    → listed i is ≡ false
    → (j == i) ≡ false
    → listed i (is ++ j ∷ []) ≡ false
listed-append i j [] h ne = rw ne refl
listed-append i j (k ∷ is) h ne = ground (arith, listed-append i j is)

listed_cons :
    (i j : ℕ) (is : List ℕ) → listed j (i ∷ is) ≡ false → ((j == i) ≡ false) × (listed j is ≡ false)
listed_cons i j is h = ground arith

pub AllDistinct-append :
    (j : ℕ) (is : List ℕ) → AllDistinct is → listed j is ≡ false → AllDistinct (is ++ j ∷ [])
AllDistinct-append j [] d h = (refl, tt)
AllDistinct-append j (i ∷ is) d h =
    let (other, rest) = listed_cons i j is h in
    (listed-append i j is d.0 other, AllDistinct-append j is d.1 rest)

module _ (f : Mirror → ℕ) where
  pub listed-In : (x : Mirror) (ms : List Mirror) → In x ms → listed (f x) (map f ms) ≡ true
  listed-In x [] m = elim m [ ]
  listed-In x (y ∷ ms) here = rw (==_refl (f x)) refl
  listed-In x (y ∷ ms) (there m) = rw (listed-In x ms m) (or_true (f y == f x))

  listed-keep :
      (p : Mirror → Bool) (i : ℕ) (ms : List Mirror)
      → listed i (map f ms) ≡ false
      → listed i (map f (keep p ms)) ≡ false
  listed-keep p i [] h = refl
  listed-keep p i (m ∷ ms) h = ground (arith, listed-keep p i ms)

  pub AllDistinct-keep :
      (p : Mirror → Bool) (ms : List Mirror)
      → AllDistinct (map f ms)
      → AllDistinct (map f (keep p ms))
  AllDistinct-keep p [] d = tt
  AllDistinct-keep p (m ∷ ms) d = elim (Bool-cases (p m)) [
    | inl kept ↦ rw kept (listed-keep p (f m) ms d.0, AllDistinct-keep p ms d.1)
    | inr dropped ↦ rw dropped (AllDistinct-keep p ms d.1)
  ]

  -- A write that leaves a column as it was.
  pub map-put_mirror :
      (m : Mirror) (ms : List Mirror)
      → ((x : Mirror) → In x ms → x.id ≡ m.id → f m ≡ f x)
      → map f (put_mirror m ms) ≡ map f ms
  map-put_mirror m [] h = refl
  map-put_mirror m (x ∷ ms) h = elim (Bool-cases (x.id == m.id)) [
    | inl same ↦
        rw same
          (cc (h x here ((==_iff x.id m.id).0 same), map-put_mirror m ms (λ y i. h y (there i))))
    | inr other ↦ rw other (cc (map-put_mirror m ms (λ y i. h y (there i))))
  ]

-- A key stands for one row.
pub row_unique :
    (x y : Mirror) (ms : List Mirror)
    → AllDistinct (map (λ m. m.id) ms)
    → In x ms
    → In y ms
    → x.id ≡ y.id
    → x ≡ y
row_unique x y [] d i j e = elim i [ ]
row_unique x y (m ∷ ms) d here here e = refl
row_unique x y (m ∷ ms) d here (there j) e = absurd (cc (d.0, e, listed-In (λ m. m.id) y ms j))
row_unique x y (m ∷ ms) d (there i) here e = absurd (cc (d.0, e, listed-In (λ m. m.id) x ms i))
row_unique x y (m ∷ ms) d (there i) (there j) e = row_unique x y ms d.1 i j e

pub In-first_mirror :
    (i : ℕ) (ms : List Mirror) (m : Mirror)
    → first_mirror i ms ≡ some m
    → In m ms × (m.repository_id ≡ i)
In-first_mirror i [] m h = absurd (cc (h))
In-first_mirror i (x ∷ ms) m h = elim (Bool-cases (x.repository_id == i)) [
  | inl same ↦
      (let e : x ≡ m = cc (rw same at h) in rw (sym e) (here, (==_iff x.repository_id i).0 same))
  | inr other ↦ (let (found, e) = In-first_mirror i ms m (rw other at h) in (there found, e))
]

-- No mirror is found for a repository that has none.
pub listed-first_mirror :
    (i : ℕ) (ms : List Mirror)
    → first_mirror i ms ≡ none
    → listed i (map (λ m. m.repository_id) ms) ≡ false
listed-first_mirror i [] h = refl
listed-first_mirror i (x ∷ ms) h = ground (arith, listed-first_mirror i ms)

pub listed-any :
    (i : ℕ) (ms : List Mirror)
    → listed i (map (λ m. m.repository_id) ms) ≡ any (λ m. m.repository_id == i) ms
listed-any i [] = refl
listed-any i (m ∷ ms) = rw (listed-any i ms) refl

listed-below : (n : ℕ) (is : List ℕ) → All (λ i. suc i ≤ n) is → listed n is ≡ false
listed-below n [] h = refl
listed-below n (i ∷ is) h = ground (arith, listed-below n is)

map-append :
    (f : Mirror → ℕ) (m : Mirror) (ms : List Mirror) → map f (ms ++ m ∷ []) ≡ map f ms ++ f m ∷ []
map-append f m [] = refl
map-append f m (x ∷ ms) = rw (map-append f m ms) refl

All-keep :
    (f : Mirror → ℕ) (P : ℕ → Type 0) (p : Mirror → Bool) (ms : List Mirror)
    → All P (map f ms)
    → All P (map f (keep p ms))
All-keep f P p [] h = tt
All-keep f P p (m ∷ ms) h = elim (Bool-cases (p m)) [
  | inl kept ↦ rw kept (h.0, All-keep f P p ms h.1)
  | inr dropped ↦ rw dropped (All-keep f P p ms h.1)
]

-- Writing, deleting and adding rows
module _ (ms : List Mirror) (next : ℕ) (sound : IsSound ms next) where
  pub put_mirror-IsSound :
      (old m : Mirror)
      → In old ms
      → m.id ≡ old.id
      → m.repository_id ≡ old.repository_id
      → IsSound (put_mirror m ms) next
  put_mirror-IsSound old m i e r = record {
    below = rw (map-put_mirror (λ x. x.id) m ms (λ x j same. sym same)) sound.below;
    keys = rw (map-put_mirror (λ x. x.id) m ms (λ x j same. sym same)) sound.keys;
    one_each =
        rw
          (map-put_mirror (λ x. x.repository_id) m ms
            (λ x j same.
              cc
                (r, ap (λ v. v.repository_id) (row_unique x old ms sound.keys j i (cc (same, e))))))
          sound.one_each;
  }

  pub keep-IsSound : (p : Mirror → Bool) → IsSound (keep p ms) next
  keep-IsSound p = record {
    below = All-keep (λ m. m.id) (λ i. suc i ≤ next) p ms sound.below;
    keys = AllDistinct-keep (λ m. m.id) p ms sound.keys;
    one_each = AllDistinct-keep (λ m. m.repository_id) p ms sound.one_each;
  }

  pub append-IsSound :
      (m : Mirror)
      → m.id ≡ next
      → listed m.repository_id (map (λ x. x.repository_id) ms) ≡ false
      → IsSound (ms ++ m ∷ []) (suc next)
  append-IsSound m e fresh = record {
    below =
        rw (map-append (λ x. x.id) m ms, e)
          (All-append (λ i. suc i ≤ suc next) (map (λ x. x.id) ms) (next ∷ [])
            (All-map (λ i. suc i ≤ next) (λ i. suc i ≤ suc next) (λ i h. omega (arith, h))
              (map (λ x. x.id) ms) sound.below)
            (omega arith, tt));
    keys =
        rw (map-append (λ x. x.id) m ms, e)
          (AllDistinct-append next (map (λ x. x.id) ms) sound.keys
            (listed-below next (map (λ x. x.id) ms) sound.below));
    one_each =
        rw (map-append (λ x. x.repository_id) m ms)
          (AllDistinct-append m.repository_id (map (λ x. x.repository_id) ms) sound.one_each fresh);
  }
