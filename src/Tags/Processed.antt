-- ===== src/Tags/Processed.antt =====
-- Which tags of a README file are matched and which are created.
use csghub_server.Prelude.{
  All-append, All-map, sym, arith, &&_true, subst, Text, Bool, true, false, ◌&&◌, Option, none,
  some, List, [], ◌∷◌, if◌then◌else◌, lookup, lookup-insert, text_eq, text_eq_iff, ◌≡◌, refl, ◌⊎◌,
  inl, inr, All, In, here, there, Bool-cases, ◌∙◌,
}
use csghub_server.Tags.Processor.{
  process_category, file, map_category_tag, process_names, process_tags, Found, add_tag, names_in,
  CategoryMap, map_from,
}
use csghub_server.Tags.Store.{Tag}

-- The tag of a name in a category of the map.
abbrev pub find : Text → Text → CategoryMap → Option Tag
find c n m = lookup n (names_in (lookup c m))

abbrev pub is_named : Text → Text → Tag → Bool
is_named c n t = text_eq t.category c && text_eq t.name n

-- The last tag of the list with that category and name; `old` without one.
abbrev pub latest : Text → Text → List Tag → Option Tag → Option Tag
latest c n [] old = old
latest c n (t ∷ ts) old = latest c n ts (if is_named c n t then some t else old)

find-add_tag :
    (c n : Text) (t : Tag) (m : CategoryMap)
    → find c n (add_tag t m) ≡ (if is_named c n t then some t else find c n m)
find-add_tag c n t m = elim (Bool-cases (text_eq t.category c)) [
  | inr other ↦ rw (lookup-insert t.category c, other) refl
  | inl this ↦
      let eq = (text_eq_iff t.category c).0 this in
      rw (lookup-insert t.category c, this, lookup-insert t.name n, eq) refl
]

pub find-map_from :
    (c n : Text) (ts : List Tag) (m : CategoryMap)
    → find c n (map_from ts m) ≡ latest c n ts (find c n m)
unfolding map_from
find-map_from c n [] m = refl
find-map_from c n (t ∷ ts) m = find-map_from c n ts (add_tag t m) ∙ rw (find-add_tag c n t m)

-- A tag of the list with that category and name.
abbrev pub Named : Text → Text → Tag → Type 0
Named c n t = (t.category ≡ c) × (t.name ≡ n)

is_named-Named : (c n : Text) (t : Tag) → is_named c n t ≡ true → Named c n t
is_named-Named c n t h =
    let two = &&_true _ _ h in ((text_eq_iff t.category c).0 two.0, (text_eq_iff t.name n).0 two.1)

pub latest-some :
    (c n : Text) (ts : List Tag) (old : Option Tag) (t : Tag)
    → latest c n ts old ≡ some t
    → (old ≡ some t) ⊎ (In t ts × Named c n t)
latest-some c n [] old t h = inl h
latest-some c n (u ∷ ts) old t h = elim (latest-some c n ts _ t h) [
  | inr (m, nm) ↦ inr (there m, nm)
  | inl e ↦ elim (Bool-cases (is_named c n u)) [
    | inr other ↦ inl (rw other at e)
    | inl this ↦
        let eq : u ≡ t = cc (rw this at e) in
        inr (subst (λ x. In x (u ∷ ts)) eq here, subst (Named c n) eq (is_named-Named c n u this))
  ]
]

pub latest-none :
    (c n : Text) (ts : List Tag) (old : Option Tag)
    → latest c n ts old ≡ none
    → (old ≡ none) × All (λ t. is_named c n t ≡ false) ts
latest-none c n [] old h = (h, tt)
latest-none c n (u ∷ ts) old h =
    let ih = latest-none c n ts _ h in
    elim (Bool-cases (is_named c n u)) [
      | inl this ↦ absurd (cc (rw this at ih.0))
      | inr other ↦ (rw other at ih.0, (other, ih.1))
    ]

-- The metadata names the tag in its category.
abbrev pub InMeta : List (Text × List Text) → Tag → Type 0
InMeta meta t = (names : List Text) × In (t.category, names) meta × In t.name names

abbrev pub IsMatched : List Tag → List (Text × List Text) → Tag → Type 0
IsMatched tags meta t = In t tags × InMeta meta t

abbrev pub IsNew : Text → List Tag → List (Text × List Text) → Tag → Type 0
IsNew scope tags meta t =
    InMeta meta t
    × (t.scope ≡ scope)
    × (t.built_in ≡ false)
    × All (λ u. ¬ Named t.category t.name u) tags

-- The tags that were found for the metadata.
abbrev pub AllFound : Text → List Tag → List (Text × List Text) → Found → Type 0
AllFound scope tags meta d = All (IsMatched tags meta) d.0 × All (IsNew scope tags meta) d.1

not-Named : (c n : Text) (t : Tag) → is_named c n t ≡ false → ¬ Named c n t
not-Named c n t h nm =
    ground (arith, h, (text_eq_iff t.category c).1 nm.0, (text_eq_iff t.name n).1 nm.1)

module _ (scope : Text) (tags : List Tag) (meta : List (Text × List Text)) where
  filed :
      (c n : Text) (o : Option Tag) (d : Found)
      → latest c n tags none ≡ o
      → ((names : List Text) × In (c, names) meta × In n names)
      → AllFound scope tags meta d
      → AllFound scope tags meta (file scope c n o d)
  filed c n none (matched, new) e there' rest = (
    rest.0,
    (
      (there', refl, refl, All-map _ _ (λ u. not-Named c n u) tags (latest-none c n tags none e).1),
      rest.1,
    ),
  )
  filed c n (some t) (matched, new) e there' rest = elim (latest-some c n tags none t e) [
    | inl no' ↦ absurd (cc)
    | inr (m, nm) ↦ (((m, rw (nm.0, nm.1) there'), rest.0), rest.1)
  ]

  process_names-AllFound :
      (c : Text) (known : List (Text × Tag)) (ns : List Text)
      → ((n : Text) → lookup n known ≡ latest c n tags none)
      → ((n : Text) → In n ns → (names : List Text) × In (c, names) meta × In n names)
      → AllFound scope tags meta (process_names scope c known ns)
  unfolding process_names
  process_names-AllFound c known [] same there' = (tt, tt)
  process_names-AllFound c known (n ∷ ns) same there' =
      filed c n (lookup n known) _ (sym (same n)) (there' n here)
        (process_names-AllFound c known ns same (λ k m. there' k (there m)))

  process_tags-AllFound :
      (existing : CategoryMap) (rest : List (Text × List Text))
      → ((c n : Text) → find c n existing ≡ latest c n tags none)
      → ((e : Text × List Text) → In e rest → In e meta)
      → AllFound scope tags meta (process_tags scope existing rest)
  unfolding process_tags
  process_tags-AllFound existing [] same inside = (tt, tt)
  process_tags-AllFound existing ((c, names) ∷ rest) same inside =
      let first = by_category (lookup c existing) refl in
      let others = process_tags-AllFound existing rest same (λ e m. inside e (there m)) in
      (All-append _ _ _ first.0 others.0, All-append _ _ _ first.1 others.1)
    where
      by_category :
          (o : Option (List (Text × Tag)))
          → lookup c existing ≡ o
          → AllFound scope tags meta (process_category scope c o names)
      by_category none e = (tt, tt)
      by_category (some known) e =
          process_names-AllFound c known names (λ n. rw e at (same c n))
            (λ n m. (names, inside (c, names) here, m))

-- A tag that `processTags` matches is one of the tags that there are, and a tag that it creates is
-- none of them by category and name, has the scope of the processor and is not built in; both are
-- named in the metadata in their category.
pub process_tags_lem :
    (scope : Text) (tags : List Tag) (meta : List (Text × List Text))
    → AllFound scope tags meta (process_tags scope (map_category_tag tags) meta)
unfolding map_category_tag lookup
process_tags_lem scope tags meta =
    process_tags-AllFound scope tags meta (map_category_tag tags) meta
      (λ c n. find-map_from c n tags []) (λ e m. m)
