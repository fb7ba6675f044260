-- ===== src/Health/Choice.antt =====
-- The Pod that is chosen as healthy: pkg/health/health.go.
use suture_port_mariadb_oper.Prelude.{
  ◌≡◌, ◌≢◌, ◌⊎◌, ◌↔◌, refl, Bool, true, false, List, [], ◌∷◌, some, ℤ, eqb_ℤ, eqb_ℤ_iff, Result, ok,
  err, Any, All, inl, inr, Bool-cases, bytes_lt,
}
use suture_port_mariadb_oper.StatefulSet.{pod_index, NameError}
use suture_port_mariadb_oper.Api.{MariaDb, is_configured_replica}
use suture_port_mariadb_oper.Health.{
  Pod, HealthError, current_primary_not_set, list_failed, invalid_pod_name, no_healthy_instances,
  unsupported_endpoint_policy, get_failed, insert_pod, sort_pod_list, choose_pod, search_healthy,
  secondary_pod_healthy_index_by, is_healthy_replica, replica_pod_healthy_index,
}

-- A Pod that may become the primary: its index is not the current one, and it is healthy.
abbrev pub Eligible : (Pod → Bool) → ℤ → ℤ → Pod → Type 0
Eligible is_healthy current index p =
    (pod_index p.name ≡ ok index) × (index ≢ current) × (is_healthy p ≡ true)

-- No Pod of the list has an index and may become the primary.
abbrev pub Ineligible : (Pod → Bool) → ℤ → Pod → Type 0
Ineligible is_healthy current p =
    (index : ℤ) × (pod_index p.name ≡ ok index) × ((index ≡ current) ⊎ (is_healthy p ≡ false))

-- Sorting keeps the Pods of the list.
Any-insert_pod :
    (P : Pod → Type 0) (p : Pod) (ps : List Pod) → Any P (insert_pod p ps) → Any P (p ∷ ps)
unfolding insert_pod
Any-insert_pod P p [] = λ h. h
Any-insert_pod P p (q ∷ qs) = elim (Bool-cases (bytes_lt q.name p.name)) [
  | inl e ↦ rw e (λ h. elim h [
    | inl a ↦ inr (inl a)
    | inr m ↦ elim (Any-insert_pod P p qs m) [ inl b ↦ inl b | inr c ↦ inr (inr c) ]
  ])
  | inr e ↦ rw e (λ h. h)
]

Any-sort_pod_list : (P : Pod → Type 0) (ps : List Pod) → Any P (sort_pod_list ps) → Any P ps
unfolding sort_pod_list
Any-sort_pod_list P [] h = h
Any-sort_pod_list P (p ∷ ps) h = elim (Any-insert_pod P p (sort_pod_list ps) h) [
  | inl a ↦ inl a
  | inr m ↦ inr (Any-sort_pod_list P ps m)
]

All-insert_pod :
    (P : Pod → Type 0) (p : Pod) (ps : List Pod) → All P (insert_pod p ps) → All P (p ∷ ps)
unfolding insert_pod
All-insert_pod P p [] = λ h. h
All-insert_pod P p (q ∷ qs) = elim (Bool-cases (bytes_lt q.name p.name)) [
  | inl e ↦ rw e (λ h. let r = All-insert_pod P p qs h.1 in (r.0, (h.0, r.1)))
  | inr e ↦ rw e (λ h. h)
]

All-sort_pod_list : (P : Pod → Type 0) (ps : List Pod) → All P (sort_pod_list ps) → All P ps
unfolding sort_pod_list
All-sort_pod_list P [] h = h
All-sort_pod_list P (p ∷ ps) h =
    let r = All-insert_pod P p (sort_pod_list ps) h in (r.0, All-sort_pod_list P ps r.1)

-- What the search returns: a Pod that may become the primary; or, when each name has an index, that
-- there is none; or a Pod whose name has no index.
abbrev pub Chosen : (Pod → Bool) → ℤ → List Pod → Result HealthError ℤ → Type 0
Chosen is_healthy current pods (ok index) = Any (Eligible is_healthy current index) pods
Chosen is_healthy current pods (err no_healthy_instances) = All (Ineligible is_healthy current) pods
Chosen is_healthy current pods (err invalid_pod_name) =
    Any (λ p. (e : NameError) × (pod_index p.name ≡ err e)) pods
Chosen is_healthy current pods (err _) = ⊥

module _ (is_healthy : Pod → Bool) (current : ℤ) where
  Chosen-cons :
      (p : Pod) (ps : List Pod) (r : Result HealthError ℤ)
      → Ineligible is_healthy current p
      → Chosen is_healthy current ps r
      → Chosen is_healthy current (p ∷ ps) r
  Chosen-cons p ps (ok index) i h = inr h
  Chosen-cons p ps (err no_healthy_instances) i h = (i, h)
  Chosen-cons p ps (err invalid_pod_name) i h = inr h
  Chosen-cons p ps (err current_primary_not_set) i h = h
  Chosen-cons p ps (err list_failed) i h = h
  Chosen-cons p ps (err unsupported_endpoint_policy) i h = h
  Chosen-cons p ps (err get_failed) i h = h

  other_index : (i : ℤ) → eqb_ℤ i current ≡ false → i ≢ current
  other_index i e = λ q. ne (eqb_ℤ_iff i current) e q
    where
      ne :
          {i current : ℤ}
          → ((eqb_ℤ i current ≡ true) ↔ (i ≡ current))
          → eqb_ℤ i current ≡ false
          → i ≢ current
      ne h e q = cc (h.1 q, e)

  choose_pod-Chosen :
      (p : Pod) (ps : List Pod) (name : Result NameError ℤ) (rest : Result HealthError ℤ)
      → pod_index p.name ≡ name
      → Chosen is_healthy current ps rest
      → Chosen is_healthy current (p ∷ ps) (choose_pod (is_healthy p) current name rest)
  unfolding choose_pod
  choose_pod-Chosen p ps (err e) rest n h = inl (e, n)
  choose_pod-Chosen p ps (ok index) rest n h = elim (Bool-cases (eqb_ℤ index current)) [
    | inl e ↦ rw e (Chosen-cons p ps rest (index, n, inl ((eqb_ℤ_iff index current).0 e)) h)
    | inr e ↦ elim (Bool-cases (is_healthy p)) [
      | inl t ↦ rw (e, t) (inl (n, other_index index e, t))
      | inr f ↦ rw (e, f) (Chosen-cons p ps rest (index, n, inr f) h)
    ]
  ]

  search_healthy-Chosen :
      (pods : List Pod) → Chosen is_healthy current pods (search_healthy is_healthy current pods)
  unfolding search_healthy
  search_healthy-Chosen [] = tt
  search_healthy-Chosen (p ∷ ps) =
      choose_pod-Chosen p ps (pod_index p.name) (search_healthy is_healthy current ps) refl
        (search_healthy-Chosen ps)

  Chosen-unsort :
      (pods : List Pod) (r : Result HealthError ℤ)
      → Chosen is_healthy current (sort_pod_list pods) r
      → Chosen is_healthy current pods r
  Chosen-unsort pods (ok index) h = Any-sort_pod_list (Eligible is_healthy current index) pods h
  Chosen-unsort pods (err no_healthy_instances) h =
      All-sort_pod_list (Ineligible is_healthy current) pods h
  Chosen-unsort pods (err invalid_pod_name) h =
      Any-sort_pod_list (λ p. (e : NameError) × (pod_index p.name ≡ err e)) pods h
  Chosen-unsort pods (err current_primary_not_set) h = h
  Chosen-unsort pods (err list_failed) h = h
  Chosen-unsort pods (err unsupported_endpoint_policy) h = h
  Chosen-unsort pods (err get_failed) h = h

-- When a current primary is set and the Pods were listed: the index that is returned is that of a
-- listed Pod other than the current primary that is ready and was seen replicating. That there is
-- no healthy instance is said only when each Pod of the list is the current primary, is not ready,
-- or does not replicate; the one other error is a Pod whose name has no index.
pub replica_pod_healthy_index-Chosen :
    (mariadb : MariaDb) (current : ℤ) (pods : List Pod)
    → mariadb.status.current_primary_pod_index ≡ some current
    → Chosen (is_healthy_replica mariadb) current pods (replica_pod_healthy_index (ok pods) mariadb)
unfolding replica_pod_healthy_index secondary_pod_healthy_index_by is_healthy_replica
    is_configured_replica
replica_pod_healthy_index-Chosen mariadb current pods h = rw h (
    Chosen-unsort (is_healthy_replica mariadb) current pods
      (search_healthy (is_healthy_replica mariadb) current (sort_pod_list pods))
      (search_healthy-Chosen (is_healthy_replica mariadb) current (sort_pod_list pods)))
