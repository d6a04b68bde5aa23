-- ===== src/Moderation/Checks/Batches.antt =====
-- Files in the order of their keys, and the batches of them.
use csghub_server.Moderation.Checks.{RepositoryFile, last_id}
use csghub_server.Prelude.{
  subst, &&_true, take, drop, keep, ltb, ltb→lt, lt→ltb, ◌&&◌, ◌≤◌, ◌<◌, ℕ, zero, suc, Bool, true,
  false, List, [], ◌∷◌, ◌≡◌, refl, sym, ap, ◌∙◌, inl, inr, Bool-cases, All, arith,
}

-- Files in the order of their keys
abbrev pub Ascending : List RepositoryFile → Type 0
Ascending [] = Unit
Ascending (f ∷ fs) = All (λ g. f.id < g.id) fs × Ascending fs

-- Keeping files
keep-All :
    (P : RepositoryFile → Type 0) (p : RepositoryFile → Bool) (fs : List RepositoryFile)
    → All P fs
    → All P (keep p fs)
keep-All P p [] h = tt
keep-All P p (f ∷ fs) h = elim (Bool-cases (p f)) [
  | inl kept ↦ rw kept (h.0, keep-All P p fs h.1)
  | inr dropped ↦ rw dropped (keep-All P p fs h.1)
]

pub keep-Ascending :
    (p : RepositoryFile → Bool) (fs : List RepositoryFile) → Ascending fs → Ascending (keep p fs)
keep-Ascending p [] h = tt
keep-Ascending p (f ∷ fs) h = elim (Bool-cases (p f)) [
  | inl kept ↦ rw kept (keep-All (λ g. f.id < g.id) p fs h.0, keep-Ascending p fs h.1)
  | inr dropped ↦ rw dropped (keep-Ascending p fs h.1)
]

pub take-All :
    (P : RepositoryFile → Type 0) (n : ℕ) (fs : List RepositoryFile) → All P fs → All P (take n fs)
take-All P zero fs h = tt
take-All P (suc n) [] h = tt
take-All P (suc n) (f ∷ fs) h = (h.0, take-All P n fs h.1)

pub take-Ascending : (n : ℕ) (fs : List RepositoryFile) → Ascending fs → Ascending (take n fs)
take-Ascending zero fs h = tt
take-Ascending (suc n) [] h = tt
take-Ascending (suc n) (f ∷ fs) h = (take-All (λ g. f.id < g.id) n fs h.0, take-Ascending n fs h.1)

pub keep-same :
    (p q : RepositoryFile → Bool) (fs : List RepositoryFile)
    → ((f : RepositoryFile) → p f ≡ q f)
    → keep p fs ≡ keep q fs
keep-same p q [] h = refl
keep-same p q (f ∷ fs) h = rw (h f, keep-same p q fs h) refl

-- The last key is at least the one before, and at least each key.
last_id_le :
    (i : ℕ) (fs : List RepositoryFile) → All (λ f. i < f.id) fs → Ascending fs → i ≤ last_id i fs
last_id_le i [] above h = omega arith
last_id_le i (f ∷ fs) above h = omega (arith, above.0, last_id_le f.id fs h.0 h.1)

pub last_id-greatest :
    (i : ℕ) (fs : List RepositoryFile) → Ascending fs → All (λ f. f.id ≤ last_id i fs) fs
last_id-greatest i [] h = tt
last_id-greatest i (f ∷ fs) h = (last_id_le f.id fs h.0 h.1, last_id-greatest f.id fs h.1)

-- The files behind a key that pass a test
abbrev pub behind : (RepositoryFile → Bool) → ℕ → List RepositoryFile → List RepositoryFile
behind q i fs = keep (λ f. q f && ltb i f.id) fs

behind-above :
    (q : RepositoryFile → Bool) (i j : ℕ) (fs : List RepositoryFile)
    → i ≤ j
    → All (λ f. j < f.id) fs
    → behind q i fs ≡ behind q j fs
behind-above q i j [] le above = refl
behind-above q i j (f ∷ fs) le above =
    rw
      (
        lt→ltb i f.id (omega (arith, le, above.0)),
        lt→ltb j f.id above.0,
        behind-above q i j fs le above.1,
      )
      refl

behind-All :
    (q : RepositoryFile → Bool) (i : ℕ) (fs : List RepositoryFile)
    → All (λ f. i < f.id) (behind q i fs)
behind-All q i [] = tt
behind-All q i (f ∷ fs) = elim (Bool-cases (q f && ltb i f.id)) [
  | inl kept ↦ rw kept (ltb→lt i f.id (&&_true (q f) (ltb i f.id) kept).1, behind-All q i fs)
  | inr dropped ↦ rw dropped (behind-All q i fs)
]

module _ (q : RepositoryFile → Bool) where
  behind-kept :
      (i : ℕ) (f : RepositoryFile) (fs : List RepositoryFile)
      → (q f && ltb i f.id) ≡ true
      → behind q i (f ∷ fs) ≡ f ∷ behind q i fs
  behind-kept i f fs h = rw h refl

  behind-dropped :
      (i : ℕ) (f : RepositoryFile) (fs : List RepositoryFile)
      → (q f && ltb i f.id) ≡ false
      → behind q i (f ∷ fs) ≡ behind q i fs
  behind-dropped i f fs h = rw h refl

  not_behind : (i : ℕ) (f : RepositoryFile) → f.id ≤ i → (q f && ltb i f.id) ≡ false
  not_behind i f le = ground arith

  not_selected :
      (i j : ℕ) (f : RepositoryFile)
      → i ≤ j
      → (q f && ltb i f.id) ≡ false
      → (q f && ltb j f.id) ≡ false
  not_selected i j f le h = ground arith

  first_last_le :
      (n i : ℕ) (fs : List RepositoryFile) → Ascending fs → i ≤ last_id i (take n (behind q i fs))
  first_last_le n i fs h =
      last_id_le i (take n (behind q i fs))
        (take-All (λ f. i < f.id) n (behind q i fs) (behind-All q i fs))
        (take-Ascending n (behind q i fs) (keep-Ascending _ fs h))

  -- Behind the last of the first `n` files stand the others.
  pub behind-last :
      (n i : ℕ) (fs : List RepositoryFile)
      → Ascending fs
      → behind q (last_id i (take n (behind q i fs))) fs ≡ drop n (behind q i fs)
  behind-last zero i fs h = refl
  behind-last (suc n) i [] h = refl
  behind-last (suc n) i (f ∷ fs) h = elim (Bool-cases (q f && ltb i f.id)) [
    | inl kept ↦
        (let above =
            behind-above q i f.id fs
              (omega (arith, ltb→lt i f.id (&&_true (q f) (ltb i f.id) kept).1)) h.0 in
          let le = first_last_le n f.id fs h.1 in
          let here_dropped =
            behind-dropped (last_id f.id (take n (behind q f.id fs))) f fs (not_behind _ f le) in
          subst (λ S. behind q (last_id i (take (suc n) S)) (f ∷ fs) ≡ drop (suc n) S)
            (sym (behind-kept i f fs kept ∙ ap (λ S. f ∷ S) above))
            (here_dropped ∙ behind-last n f.id fs h.1))
    | inr dropped ↦
        (let le = first_last_le (suc n) i fs h.1 in
          subst (λ S. behind q (last_id i (take (suc n) S)) (f ∷ fs) ≡ drop (suc n) S)
            (sym (behind-dropped i f fs dropped))
            (behind-dropped (last_id i (take (suc n) (behind q i fs))) f fs
                (not_selected i _ f le dropped)
              ∙ behind-last (suc n) i fs h.1))
  ]
