-- ===== src/DataStructures/Examples.antt =====
-- The data structures at concrete inputs.
use suture_port_mariadb_oper.Prelude.{
  ◌≡◌, refl, ℕ, Bool, true, false, not, ◌&&◌, [], ◌∷◌, codes, Dict, lookup, mem, insert, bytes_eq,
  bytes_lt, err,
}
use suture_port_mariadb_oper.DataStructures.{
  diff, has, unique, unique_from, find, remove, filter, is_some, merge, any, new_index, index_from,
  get, not_found, missing_keys, mark_common, sort_strings, insert_sorted, all_exists,
  filter_entries,
}
use suture_port_mariadb_oper.DataStructures.Diffs.{IsSorted, diff_lem}

program : Unit {0}
unfolding diff has unique unique_from find remove filter filter_entries is_some any new_index
    index_from get missing_keys mark_common sort_strings insert_sorted all_exists lookup insert
    bytes_eq bytes_lt mem
program = tt

abbrev current : Dict ℕ
current = (codes "c", 1) ∷ (codes "a", 2) ∷ (codes "b", 3) ∷ []

abbrev previous : Dict Bool
previous = (codes "d", true) ∷ (codes "b", false) ∷ []

diff_small :
    diff current previous
    ≡ record { added = codes "a" ∷ codes "c" ∷ []; deleted = codes "d" ∷ []; rest = codes "b" ∷ [] }
unfolding program
diff_small = refl

get_missing : get current (codes "d") ≡ err not_found
unfolding program
get_missing = refl

merge_two : merge {A = ℕ} ((1 ∷ []) ∷ (2 ∷ 3 ∷ []) ∷ []) ≡ 1 ∷ 2 ∷ 3 ∷ []
unfolding merge
merge_two = refl

diff_lem_example :
    let d = diff current previous in
    (mem (codes "b") d.added ≡ (has current (codes "b") && not (has previous (codes "b"))))
    × (mem (codes "b") d.deleted ≡ (has previous (codes "b") && not (has current (codes "b"))))
    × (mem (codes "b") d.rest ≡ (has current (codes "b") && has previous (codes "b")))
    × IsSorted d.added
    × IsSorted d.deleted
    × IsSorted d.rest
diff_lem_example = diff_lem current previous (codes "b")
