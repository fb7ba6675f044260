-- ===== src/DataStructures.antt =====
-- pkg/datastructures/datastructures.go. A map is an association list; what the code reads of a map
-- by ranging over it is sorted afterwards, or is again a map.
pub mod Diffs
pub mod Lists
mod Examples
use suture_port_mariadb_oper.Prelude.{
  ℕ, Bool, true, false, not, ◌&&◌, ◌||◌, List, [], ◌∷◌, ◌++◌, Option, none, some, Bytes, bytes_eq,
  bytes_lt, Dict, lookup, insert, keys, Result, ok, err, or_error, if◌then◌else◌,
}

pub data IndexError : Type 0 where
  not_found : IndexError

unfoldable pub is_some : {A : Type 0} → Option A → Bool
is_some none = false
is_some (some a) = true

module _ {A : Type 0} where
  -- `NewIndex`: a later item replaces an earlier one of the same identifier.
  unfoldable pub index_from : Dict A → List A → (A → Bytes) → Dict A
  index_from idx [] get_id = idx
  index_from idx (item ∷ items) get_id = index_from (insert (get_id item) item idx) items get_id

  unfoldable pub new_index : List A → (A → Bytes) → Dict A
  new_index items get_id = index_from [] items get_id

  unfoldable pub get : Dict A → Bytes → Result IndexError A
  get idx key = or_error (lookup key idx) not_found

  unfoldable pub all_exists : Dict A → List Bytes → Bool
  all_exists idx [] = true
  all_exists idx (id ∷ ids) = is_some (lookup id idx) && all_exists idx ids

  unfoldable pub has : Dict A → Bytes → Bool
  has idx key = all_exists idx (key ∷ [])

-- Of the keys only membership matters: `NewIndex[string](keys, identity)` maps each to itself.
unfoldable pub filter_entries : {A : Type 0} → Dict Bytes → Dict A → Dict A
filter_entries wanted [] = []
filter_entries wanted ((k, v) ∷ idx) =
    let rest = filter_entries wanted idx in
    if is_some (lookup k wanted) then insert k v rest else rest

unfoldable pub filter : {A : Type 0} → Dict A → List Bytes → Dict A
filter idx ids = filter_entries (new_index ids (λ s. s)) idx

pub record DiffResult : Type 0 where
  pub added : List Bytes
  pub deleted : List Bytes
  pub rest : List Bytes

-- sort.Strings.
unfoldable pub insert_sorted : Bytes → List Bytes → List Bytes
insert_sorted s [] = s ∷ []
insert_sorted s (t ∷ ts) =
    let rest = insert_sorted s ts in if bytes_lt t s then t ∷ rest else s ∷ t ∷ ts

unfoldable pub sort_strings : List Bytes → List Bytes
sort_strings [] = []
sort_strings (s ∷ ss) = insert_sorted s (sort_strings ss)

-- The keys of `current` that `previous` lacks, and those that it has.
unfoldable pub missing_keys : {C P : Type 0} → Dict C → Dict P → List Bytes
missing_keys [] previous = []
missing_keys ((k, v) ∷ current) previous =
    let rest = missing_keys current previous in
    if is_some (lookup k previous) then rest else k ∷ rest

-- The set `processed` after a loop: a key that both maps have is marked.
unfoldable pub mark_common : {C P : Type 0} → Dict (Unit {0}) → Dict C → Dict P → Dict (Unit {0})
mark_common processed [] previous = processed
mark_common processed ((k, v) ∷ current) previous =
    mark_common (if is_some (lookup k previous) then insert k tt processed else processed) current
      previous

unfoldable pub diff : {C P : Type 0} → Dict C → Dict P → DiffResult
diff current previous =
    let processed = mark_common (mark_common [] current previous) previous current in
    record {
      added = sort_strings (missing_keys current previous);
      deleted = sort_strings (missing_keys previous current);
      rest = sort_strings (keys processed);
    }

module _ {A : Type 0} where
  -- `Merge`.
  unfoldable pub merge : List (List A) → List A
  merge [] = []
  merge (s ∷ slices) = s ++ merge slices

  -- `Find`: the first element that passes.
  unfoldable pub find : List A → (A → Bool) → Option A
  find [] fn = none
  find (el ∷ elements) fn = if fn el then some el else find elements fn

  unfoldable pub any : List A → (A → Bool) → Bool
  any elements fn = is_some (find elements fn)

  -- `Remove`: the elements that do not pass.
  unfoldable pub remove : List A → (A → Bool) → List A
  remove [] fn = []
  remove (elem ∷ elements) fn =
      let rest = remove elements fn in if fn elem then rest else elem ∷ rest

-- `Unique`, at strings: the set `index` of those seen so far.
unfoldable pub unique_from : Dict (Unit {0}) → List Bytes → List Bytes
unique_from index [] = []
unique_from index (e ∷ elements) =
    let new = e ∷ unique_from (insert e tt index) elements in
    let old = unique_from index elements in if is_some (lookup e index) then old else new

unfoldable pub unique : List Bytes → List Bytes
unique elements = unique_from [] elements
