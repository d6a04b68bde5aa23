-- ===== src/Tags/Complete.antt =====
-- No name of a known category is lost.
use csghub_server.Tags.Processed.{latest-none, latest-some, find-map_from, Named, find, latest}
use csghub_server.Tags.Processor.{
  new_tag, process_category, CategoryMap, both, file, process_names, process_tags, Found,
  map_category_tag,
}
use csghub_server.Prelude.{
  Text, Option, none, some, List, [], ◌∷◌, lookup, text_eq_iff, ◌≡◌, refl, ◌⊎◌, inl, inr, All-In,
  In, here, there, arith, sym, In-append_left, In-append_right,
}
use csghub_server.Tags.Store.{Tag}

-- A tag with that category and name was matched or is to be created.
abbrev pub IsFiled : Text → Text → Found → Type 0
IsFiled c n d = (t : Tag) × (In t d.0 ⊎ In t d.1) × Named c n t

module _ (scope : Text) (tags : List Tag) where
  file-IsFiled :
      (c n : Text) (o : Option Tag) (d : Found)
      → latest c n tags none ≡ o
      → IsFiled c n (file scope c n o d)
  file-IsFiled c n none (matched, new) e = (new_tag scope c n, inr here, (refl, refl))
  file-IsFiled c n (some t) (matched, new) e = elim (latest-some c n tags none t e) [
    | inl no' ↦ absurd (cc)
    | inr (m, nm) ↦ (t, inl here, nm)
  ]

  file-IsFiled_other :
      (c n k : Text) (o : Option Tag) (d : Found) → IsFiled c n d → IsFiled c n (file scope c k o d)
  file-IsFiled_other c n k none (matched, new) (t, inl m, nm) = (t, inl m, nm)
  file-IsFiled_other c n k none (matched, new) (t, inr m, nm) = (t, inr (there m), nm)
  file-IsFiled_other c n k (some u) (matched, new) (t, inl m, nm) = (t, inl (there m), nm)
  file-IsFiled_other c n k (some u) (matched, new) (t, inr m, nm) = (t, inr m, nm)

  process_names-IsFiled :
      (c n : Text) (known : List (Text × Tag)) (ns : List Text)
      → ((k : Text) → lookup k known ≡ latest c k tags none)
      → In n ns
      → IsFiled c n (process_names scope c known ns)
  unfolding process_names
  process_names-IsFiled c n known [] same m = elim m [ ]
  process_names-IsFiled c n known (_ ∷ ns) same here =
      file-IsFiled c n (lookup n known) _ (sym (same n))
  process_names-IsFiled c n known (k ∷ ns) same (there m) =
      file-IsFiled_other c n k (lookup k known) _ (process_names-IsFiled c n known ns same m)

  both-left : (c n : Text) (d e : Found) → IsFiled c n d → IsFiled c n (both d e)
  both-left c n (a, b) (p, q) (t, inl m, nm) = (t, inl (In-append_left a p m), nm)
  both-left c n (a, b) (p, q) (t, inr m, nm) = (t, inr (In-append_left b q m), nm)

  both-right : (c n : Text) (d e : Found) → IsFiled c n e → IsFiled c n (both d e)
  both-right c n (a, b) (p, q) (t, inl m, nm) = (t, inl (In-append_right a p m), nm)
  both-right c n (a, b) (p, q) (t, inr m, nm) = (t, inr (In-append_right b q m), nm)

  -- The category of a tag is in the map.
  process_category-IsFiled :
      (existing : CategoryMap) (u : Tag) (n : Text) (names : List Text)
      (o : Option (List (Text × Tag)))
      → ((c k : Text) → find c k existing ≡ latest c k tags none)
      → In u tags
      → lookup u.category existing ≡ o
      → In n names
      → IsFiled u.category n (process_category scope u.category o names)
  unfolding lookup
  process_category-IsFiled existing u n names none same mu e m =
      let no' : latest u.category u.name tags none ≡ none =
        sym (rw e at (same u.category u.name)) in
      let missed = All-In _ tags (latest-none u.category u.name tags none no').1 mu in
      absurd (
        ground (
          arith,
          missed,
          (text_eq_iff u.category u.category).1 refl,
          (text_eq_iff u.name u.name).1 refl,
        ))
  process_category-IsFiled existing u n names (some known) same mu e m =
      process_names-IsFiled u.category n known names (λ k. rw e at (same u.category k)) m

  process_tags-IsFiled :
      (existing : CategoryMap) (u : Tag) (n : Text) (names : List Text)
      (meta : List (Text × List Text))
      → ((c k : Text) → find c k existing ≡ latest c k tags none)
      → In u tags
      → In (u.category, names) meta
      → In n names
      → IsFiled u.category n (process_tags scope existing meta)
  unfolding process_tags
  process_tags-IsFiled existing u n names [] same mu me m = elim me [ ]
  process_tags-IsFiled existing u n names (_ ∷ rest) same mu here m =
      both-left u.category n _ _
        (process_category-IsFiled existing u n names (lookup u.category existing) same mu refl m)
  process_tags-IsFiled existing u n names ((c, ks) ∷ rest) same mu (there me) m =
      both-right u.category n _ _ (process_tags-IsFiled existing u n names rest same mu me m)

-- Each name that the metadata has in the category of a tag that there is becomes a tag with that
-- category and name, matched or to be created.
pub process_tags_complete :
    (scope : Text) (tags : List Tag) (meta : List (Text × List Text)) (u : Tag) (n : Text)
    (names : List Text)
    → In u tags
    → In (u.category, names) meta
    → In n names
    → IsFiled u.category n (process_tags scope (map_category_tag tags) meta)
unfolding map_category_tag lookup
process_tags_complete scope tags meta u n names mu me m =
    process_tags-IsFiled scope tags (map_category_tag tags) u n names meta
      (λ c k. find-map_from c k tags []) mu me m
