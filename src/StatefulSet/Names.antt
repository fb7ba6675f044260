-- ===== src/StatefulSet/Names.antt =====
-- A Pod's name and its index: pkg/statefulset/statefulset.go, PodName, PodIndex and ValidPodName.
use suture_port_mariadb_oper.Prelude.{
  ℕ, ◌<◌, ◌≤◌, ◌≡◌, ◌≢◌, refl, ◌↔◌, inl, inr, true, arith, Bytes, All-map_of, ℤ, pos, ◌≤ℤ◌, ok,
  Option-cases,
}
use suture_port_mariadb_oper.Text.{split, last_part, itoa, decimal, has_prefix, int_limit}
use suture_port_mariadb_oper.Text.Split.{Free, last_part-split, last_part-All, split-Free}
use suture_port_mariadb_oper.Text.Decimal.{atoi-decimal, decimal-IsDigits, atoi_nonneg}
use suture_port_mariadb_oper.StatefulSet.{ObjectMeta, pod_name, pod_index, valid_pod_name}

decimal-Free : (n : ℕ) → Free b'-' (decimal n)
decimal-Free n =
    All-map_of (λ c. (48 ≤ c) × (c ≤ 57)) (λ c. c ≢ b'-') (decimal n) (λ c h. omega arith)
      (decimal-IsDigits n)

-- The index is read back from every Pod name that the operator makes, whatever dashes the name
-- of the StatefulSet holds.
pub pod_index-pod_name :
    (meta : ObjectMeta) (n : ℕ) → n < int_limit → pod_index (pod_name meta (pos n)) ≡ ok (pos n)
unfolding pod_index pod_name itoa
pod_index-pod_name meta n h =
    rw (last_part-split b'-' meta.name (decimal n) (decimal-Free n), atoi-decimal n h) refl

-- An index that was read is never negative, since the part behind the last dash holds no dash.
pub pod_index_nonneg : (name : Bytes) (i : ℤ) → pod_index name ≡ ok i → pos 0 ≤ℤ i
unfolding pod_index
pod_index_nonneg name i e = elim (Option-cases (last_part (split b'-' name))) [
  | inl p ↦ absurd (ground arith)
  | inr (w, p) ↦
      atoi_nonneg w i (last_part-All (Free b'-') (split b'-' name) (split-Free b'-' name) p)
        (ground arith)
]

-- A Pod name is accepted exactly when its index was read and is below the number of replicas, and
-- the name begins with that of the StatefulSet.
pub valid_pod_name_iff :
    (meta : ObjectMeta) (r : ℕ) (name : Bytes)
    → (valid_pod_name meta (pos r) name ≡ ok tt)
      ↔ ((n : ℕ) × (pod_index name ≡ ok (pos n)) × (n < r) × (has_prefix name meta.name ≡ true))
unfolding valid_pod_name
valid_pod_name_iff meta r name = (accepted, λ (n, e, h, p). ground arith)
  where
    accepted :
        valid_pod_name meta (pos r) name ≡ ok tt
        → (n : ℕ) × (pod_index name ≡ ok (pos n)) × (n < r) × (has_prefix name meta.name ≡ true)
    accepted h = ground arith
