-- ===== src/DataStructures/Lists.antt =====
-- The slices of pkg/datastructures: `Unique`, `Filter`, `Find`, `Remove` and `NewIndex`.
use suture_port_mariadb_oper.Prelude.{
  ◌≡◌, refl, inl, inr, Bool, true, false, not, ◌&&◌, ◌||◌, List, [], ◌∷◌, none, some, arith, Bytes,
  bytes_eq_iff, mem, Dict, lookup, insert, lookup-insert, All, In, if◌then◌else◌, Bool-cases,
}
use suture_port_mariadb_oper.DataStructures.{
  is_some, unique, unique_from, find, remove, new_index, index_from, filter, filter_entries,
}

-- No text stands twice in the list.
abbrev pub Distinct : List Bytes → Type 0
Distinct [] = Unit {0}
Distinct (w ∷ ws) = (mem w ws ≡ false) × Distinct ws

mem-unique_from :
    (k : Bytes) (seen : Dict (Unit {0})) (ws : List Bytes)
    → mem k (unique_from seen ws) ≡ (mem k ws && not (is_some (lookup k seen)))
unfolding mem unique_from is_some
mem-unique_from k seen [] = refl
mem-unique_from k seen (w ∷ ws) = ground (
  arith,
  bytes_eq_iff w k,
  lookup-insert w k tt seen,
  mem-unique_from k seen ws,
  mem-unique_from k (insert w tt seen) ws,
)

unique_from-Distinct : (seen : Dict (Unit {0})) (ws : List Bytes) → Distinct (unique_from seen ws)
unfolding unique_from
unique_from-Distinct seen [] = tt
unique_from-Distinct seen (w ∷ ws) = elim (Bool-cases (is_some (lookup w seen))) [
  | inl e ↦ rw e (unique_from-Distinct seen ws)
  | inr e ↦ rw e (
    unfold is_some in
        ground (
          arith,
          bytes_eq_iff w w,
          lookup-insert w w tt seen,
          mem-unique_from w (insert w tt seen) ws,
        ),
    unique_from-Distinct (insert w tt seen) ws,
  )
]

-- `Unique` keeps every element, adds none, and no element stands twice in its result.
pub unique_lem :
    (ws : List Bytes) → ((k : Bytes) → mem k (unique ws) ≡ mem k ws) × Distinct (unique ws)
unfolding unique
unique_lem ws = (
  (λ k. unfold lookup is_some in ground (arith, mem-unique_from k [] ws)),
  unique_from-Distinct [] ws,
)

find-some :
    {A : Type 0} (xs : List A) (fn : A → Bool) (a : A)
    → find xs fn ≡ some a
    → In a xs × (fn a ≡ true)
unfolding find
find-some [] fn a e = absurd (cc)
find-some (x ∷ xs) fn a e = elim (Bool-cases (fn x)) [
  | inl p ↦ let here : a ≡ x = ground arith in (inl here, rw here p)
  | inr p ↦ let (m, t) = find-some xs fn a (rw p at e) in (inr m, t)
]

find-none :
    {A : Type 0} (xs : List A) (fn : A → Bool) → find xs fn ≡ none → All (λ a. fn a ≡ false) xs
unfolding find
find-none [] fn e = tt
find-none (x ∷ xs) fn e = elim (Bool-cases (fn x)) [
  | inl p ↦ absurd (ground arith)
  | inr p ↦ (p, find-none xs fn (rw p at e))
]

-- `Find` gives an element of the list that passes, and `nil` only if none passes.
pub find_lem :
    {A : Type 0} (xs : List A) (fn : A → Bool)
    → ((a : A) → find xs fn ≡ some a → In a xs × (fn a ≡ true))
      × (find xs fn ≡ none → All (λ a. fn a ≡ false) xs)
find_lem xs fn = (find-some xs fn, find-none xs fn)

find-remove : {A : Type 0} (xs : List A) (fn : A → Bool) → find (remove xs fn) fn ≡ none
unfolding find remove
find-remove [] fn = refl
find-remove (x ∷ xs) fn = ground (arith, find-remove xs fn)

In-remove :
    {A : Type 0} (xs : List A) (fn : A → Bool) (a : A)
    → In a xs
    → fn a ≡ false
    → In a (remove xs fn)
unfolding remove
In-remove [] fn a m f = absurd m
In-remove (x ∷ xs) fn a (inl e) f = rw (← e, f) (inl refl)
In-remove (x ∷ xs) fn a (inr m) f = elim (Bool-cases (fn x)) [
  | inl p ↦ rw p (In-remove xs fn a m f)
  | inr p ↦ rw p (inr (In-remove xs fn a m f))
]

-- After `Remove` no element passes the test, and each element that did not pass is still there.
pub remove_lem :
    {A : Type 0} (xs : List A) (fn : A → Bool)
    → (find (remove xs fn) fn ≡ none) × ((a : A) → In a xs → fn a ≡ false → In a (remove xs fn))
remove_lem xs fn = (find-remove xs fn, In-remove xs fn)

lookup-filter_entries :
    {A : Type 0} (k : Bytes) (wanted : Dict Bytes) (idx : Dict A)
    → lookup k (filter_entries wanted idx)
      ≡ (if is_some (lookup k wanted) then lookup k idx else none)
unfolding lookup filter_entries
lookup-filter_entries k wanted [] = ground arith
lookup-filter_entries k wanted ((j, v) ∷ idx) = ground (
  arith,
  bytes_eq_iff j k,
  lookup-insert j k v (filter_entries wanted idx),
  lookup-filter_entries k wanted idx,
)

is_some-index_from :
    (k : Bytes) (idx : Dict Bytes) (ids : List Bytes)
    → is_some (lookup k (index_from idx ids (λ s. s))) ≡ (is_some (lookup k idx) || mem k ids)
unfolding index_from mem is_some
is_some-index_from k idx [] = ground arith
is_some-index_from k idx (w ∷ ids) =
    ground (arith, lookup-insert w k w idx, is_some-index_from k (insert w w idx) ids)

-- `Filter` has the entries of the map whose key is listed, with their values, and no others.
pub lookup-filter :
    {A : Type 0} (idx : Dict A) (ids : List Bytes) (k : Bytes)
    → lookup k (filter idx ids) ≡ (if mem k ids then lookup k idx else none)
unfolding filter new_index mem is_some lookup
lookup-filter idx ids k =
    rw (lookup-filter_entries k (index_from [] ids (λ s. s)) idx, is_some-index_from k [] ids) refl
