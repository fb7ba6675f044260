-- ===== src/DataStructures/Diffs.antt =====
-- `Diff` against the sets of keys that its three lists stand for.
use suture_port_mariadb_oper.Prelude.{
  ◌≡◌, refl, false, not, ◌&&◌, ◌||◌, List, [], ◌∷◌, arith, Bytes, bytes_eq, bytes_eq_iff, bytes_lt,
  bytes_lt_asymm, mem, Dict, lookup, insert, keys, if◌then◌else◌, Bool-cases, inl, inr,
}
use suture_port_mariadb_oper.DataStructures.{
  is_some, insert_sorted, sort_strings, missing_keys, mark_common, diff, has, all_exists,
}

-- Each text is at most the next one.
abbrev pub IsSorted : List Bytes → Type 0
IsSorted [] = Unit {0}
IsSorted (s ∷ []) = Unit {0}
IsSorted (s ∷ t ∷ ts) = (bytes_lt t s ≡ false) × IsSorted (t ∷ ts)

mem-insert_sorted :
    (k s : Bytes) (ts : List Bytes) → mem k (insert_sorted s ts) ≡ (bytes_eq s k || mem k ts)
unfolding mem insert_sorted
mem-insert_sorted k s [] = refl
mem-insert_sorted k s (t ∷ ts) = ground (arith, mem-insert_sorted k s ts)

mem-sort_strings : (k : Bytes) (ss : List Bytes) → mem k (sort_strings ss) ≡ mem k ss
unfolding mem sort_strings
mem-sort_strings k [] = refl
mem-sort_strings k (s ∷ ss) =
    ground (arith, mem-insert_sorted k s (sort_strings ss), mem-sort_strings k ss)

insert_sorted-IsSorted : (s : Bytes) (ts : List Bytes) → IsSorted ts → IsSorted (insert_sorted s ts)
unfolding insert_sorted
insert_sorted-IsSorted s [] h = tt
insert_sorted-IsSorted s (t ∷ []) h = elim (Bool-cases (bytes_lt t s)) [
  | inl e ↦ rw e (bytes_lt_asymm t s e, tt)
  | inr e ↦ rw e (e, tt)
]
insert_sorted-IsSorted s (t ∷ u ∷ ts) h = elim (Bool-cases (bytes_lt t s)) [
  | inl e ↦
      let ih = insert_sorted-IsSorted s (u ∷ ts) h.1 in
      rw e (elim (Bool-cases (bytes_lt u s)) [
        | inl f ↦ rw f (h.0, rw f at ih)
        | inr f ↦ rw f (bytes_lt_asymm t s e, rw f at ih)
      ])
  | inr e ↦ rw e (e, h)
]

pub sort_strings-IsSorted : (ss : List Bytes) → IsSorted (sort_strings ss)
unfolding sort_strings
sort_strings-IsSorted [] = tt
sort_strings-IsSorted (s ∷ ss) =
    insert_sorted-IsSorted s (sort_strings ss) (sort_strings-IsSorted ss)

is_some-lookup : {C : Type 0} (k : Bytes) (m : Dict C) → is_some (lookup k m) ≡ mem k (keys m)
unfolding is_some lookup mem
is_some-lookup k [] = refl
is_some-lookup k ((j, v) ∷ m) = ground (arith, is_some-lookup k m)

has-mem : {C : Type 0} (k : Bytes) (m : Dict C) → has m k ≡ mem k (keys m)
unfolding has all_exists
has-mem k m = ground (arith, is_some-lookup k m)

mem-insert :
    {C : Type 0} (k j : Bytes) (v : C) (m : Dict C)
    → mem k (keys (insert j v m)) ≡ (bytes_eq j k || mem k (keys m))
unfolding mem insert
mem-insert k j v [] = refl
mem-insert k j v ((i, w) ∷ m) =
    ground (arith, bytes_eq_iff i j, bytes_eq_iff j k, mem-insert k j v m)

mem-missing_keys :
    {C P : Type 0} (k : Bytes) (c : Dict C) (p : Dict P)
    → mem k (missing_keys c p) ≡ (mem k (keys c) && not (mem k (keys p)))
unfolding mem missing_keys
mem-missing_keys k [] p = refl
mem-missing_keys k ((j, v) ∷ c) p =
    ground (arith, bytes_eq_iff j k, mem-missing_keys k c p, is_some-lookup j p)

mem-mark_common :
    {C P : Type 0} (k : Bytes) (seen : Dict (Unit {0})) (c : Dict C) (p : Dict P)
    → mem k (keys (mark_common seen c p)) ≡ (mem k (keys seen) || mem k (keys c) && mem k (keys p))
unfolding mark_common mem
mem-mark_common k seen [] p = ground arith
mem-mark_common k seen ((j, v) ∷ c) p = ground (
  arith,
  bytes_eq_iff j k,
  is_some-lookup j p,
  mem-insert k j tt seen,
  mem-mark_common k (if is_some (lookup j p) then insert j tt seen else seen) c p,
)

mem-processed :
    {C P : Type 0} (k : Bytes) (c : Dict C) (p : Dict P)
    → mem k (keys (mark_common (mark_common [] c p) p c)) ≡ (mem k (keys c) && mem k (keys p))
unfolding mem
mem-processed k c p =
    ground (arith, mem-mark_common k (mark_common [] c p) p c, mem-mark_common k [] c p)

-- A key is in `added` exactly when only the current map has it, in `deleted` when only the
-- previous one has it, and in `rest` when both have it; each list is sorted.
pub diff_lem :
    {C P : Type 0} (current : Dict C) (previous : Dict P) (k : Bytes)
    → let d = diff current previous in
      (mem k d.added ≡ (has current k && not (has previous k)))
      × (mem k d.deleted ≡ (has previous k && not (has current k)))
      × (mem k d.rest ≡ (has current k && has previous k))
      × IsSorted d.added
      × IsSorted d.deleted
      × IsSorted d.rest
unfolding diff
diff_lem current previous k = (
  rw (mem-sort_strings, mem-missing_keys k current previous, has-mem k current, has-mem k previous),
  rw (mem-sort_strings, mem-missing_keys k previous current, has-mem k current, has-mem k previous),
  rw (mem-sort_strings, mem-processed k current previous, has-mem k current, has-mem k previous),
  sort_strings-IsSorted _,
  sort_strings-IsSorted _,
  sort_strings-IsSorted _,
)
