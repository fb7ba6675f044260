-- ===== src/RecoveryStatus/Complete.antt =====
-- `isComplete` and `bootstrapSource` agree: a complete recovery has a source to bootstrap from.
use suture_port_mariadb_oper.Prelude.{
  ℕ, ◌+◌, ◌≡◌, refl, Bool, true, false, not, ◌&&◌, ◌||◌, List, [], ◌∷◌, Option, none, some, arith,
  Bytes, length, Result, ok, err,
}
use suture_port_mariadb_oper.GaleraState.{GaleraRecoverer, compare_to}
use suture_port_mariadb_oper.Api.{MariaDb, GaleraRecoveryStatus}
use suture_port_mariadb_oper.RecoveryStatus.{
  is_set, state_of_pod, recovered_of_pod, as_recoverer_state, as_recoverer_bootstrap, valid_seqno,
  should_skip_recoverer, is_safe, get_pod_names, scan_pods, is_complete, BootstrapSource,
  recovery_not_completed, Current, consider, finish, finish_at, safe_source, search_pod,
  search_pods, bootstrap_source,
}

is_ok : {E A : Type 0} → Result E A → Bool
is_ok (ok a) = true
is_ok (err e) = false

-- Whether some Pod offers a position: it is safe, or it is not skipped and has a valid number.
usable : GaleraRecoveryStatus → List Bytes → Bool
usable rs [] = false
usable rs (p ∷ pods) =
    is_safe (state_of_pod rs p)
    || not (should_skip_recoverer (as_recoverer_bootstrap (recovered_of_pod rs p)))
      && (valid_seqno (as_recoverer_state (state_of_pod rs p))
          || valid_seqno (as_recoverer_bootstrap (recovered_of_pod rs p)))
    || usable rs pods

is_set-consider :
    (r : Option GaleraRecoverer) (p : Bytes) (cur : Current)
    → is_set (consider r p cur).source ≡ (is_set cur.source || valid_seqno r)
unfolding consider is_set compare_to valid_seqno
is_set-consider none p cur = ground arith
is_set-consider (some r) p cur = ground arith

is_ok-safe : (o : Option _) (p : Bytes) → is_safe o ≡ true → is_ok (safe_source o p) ≡ true
unfolding is_ok safe_source is_safe
is_ok-safe none p h = cc
is_ok-safe (some g) p h = refl

is_ok-search_pods :
    (rs : GaleraRecoveryStatus) (cur : Current) (pods : List Bytes)
    → is_ok (search_pods rs cur pods) ≡ (is_set cur.source || usable rs pods)
unfolding search_pods search_pod usable finish finish_at is_ok is_set
is_ok-search_pods rs cur [] = ground arith
is_ok-search_pods rs cur (p ∷ pods) =
    let state = as_recoverer_state (state_of_pod rs p) in
    let recovered = as_recoverer_bootstrap (recovered_of_pod rs p) in
    let next = consider state p cur in
    ground (
      arith,
      is_ok-safe (state_of_pod rs p) p,
      is_set-consider state p cur,
      is_set-consider recovered p next,
      is_ok-search_pods rs cur pods,
      is_ok-search_pods rs (consider recovered p next) pods,
    )

scan-safe :
    (rs : GaleraRecoveryStatus) (n : ℕ) (c : Bool) (pods : List Bytes)
    → (scan_pods rs n c pods).safe_found ≡ true
    → usable rs pods ≡ true
unfolding scan_pods usable
scan-safe rs n c [] h = cc
scan-safe rs n c (p ∷ pods) h =
    ground (arith, scan-safe rs (n + 1) c pods, scan-safe rs n c pods, scan-safe rs n false pods)

scan_complete :
    (rs : GaleraRecoveryStatus) (n : ℕ) (c : Bool) (pods : List Bytes)
    → (scan_pods rs n c pods).safe_found ≡ false
    → (scan_pods rs n c pods).is_complete ≡ true
    → c ≡ true
unfolding scan_pods
scan_complete rs n c [] h k = k
scan_complete rs n c (p ∷ pods) h k = ground (
  arith,
  scan_complete rs (n + 1) c pods,
  scan_complete rs n c pods,
  scan_complete rs n false pods,
)

scan-skipped :
    (rs : GaleraRecoveryStatus) (n : ℕ) (c : Bool) (pods : List Bytes)
    → (scan_pods rs n c pods).safe_found ≡ false
    → (scan_pods rs n c pods).is_complete ≡ true
    → usable rs pods ≡ false
    → (scan_pods rs n c pods).num_skipped_pods ≡ n + length pods
unfolding scan_pods usable
scan-skipped rs n c [] h k u = omega arith
scan-skipped rs n c (p ∷ pods) h k u =
    ground (
      arith,
      scan-skipped rs (n + 1) c pods,
      scan-skipped rs n c pods,
      scan_complete rs n false pods,
    )

is_complete-usable :
    (rs : GaleraRecoveryStatus) (mdb : MariaDb)
    → is_complete rs mdb ≡ true
    → usable rs (get_pod_names mdb) ≡ true
unfolding is_complete
is_complete-usable rs mdb h =
    ground
      (arith, scan-safe rs 0 true (get_pod_names mdb), scan-skipped rs 0 true (get_pod_names mdb))

ok_of_is_ok : {E A : Type 0} (r : Result E A) → is_ok r ≡ true → (a : A) × (r ≡ ok a)
unfolding is_ok
ok_of_is_ok (ok a) h = (a, refl)
ok_of_is_ok (err e) h = absurd (cc)

-- Without a forced Pod, a source to bootstrap from is found exactly when the recovery is complete;
-- otherwise the error says that it is not completed. So the error "bootstrap source not found" is
-- never returned.
pub bootstrap_source-is_complete :
    (rs : GaleraRecoveryStatus) (mdb : MariaDb)
    → (is_complete rs mdb ≡ true
        → (src : BootstrapSource) × (bootstrap_source rs mdb none ≡ ok src))
      × (is_complete rs mdb ≡ false → bootstrap_source rs mdb none ≡ err recovery_not_completed)
unfolding bootstrap_source
bootstrap_source-is_complete rs mdb = (
  (λ h. rw h (
      ok_of_is_ok _ (
        ground (
          arith,
          is_complete-usable rs mdb h,
          is_ok-search_pods rs (record { source = none; pod = [] }) (get_pod_names mdb),
        )))),
  (λ h. rw h),
)
