-- ===== src/RecoveryStatus/Criterion.antt =====
-- `isComplete` without its loop.
use suture_port_mariadb_oper.Prelude.{
  ℕ, suc, ◌+◌, ◌≤◌, ◌≡◌, refl, Bool, true, false, not, ◌&&◌, ◌||◌, List, [], ◌∷◌, arith, Bytes,
  length, if◌then◌else◌, ◌==◌,
}
use suture_port_mariadb_oper.Api.{MariaDb, GaleraRecoveryStatus}
use suture_port_mariadb_oper.RecoveryStatus.{
  state_of_pod, recovered_of_pod, as_recoverer_state, as_recoverer_bootstrap, valid_seqno,
  should_skip_recoverer, is_safe, get_pod_names, scan_pods, is_complete,
}

module _ (rs : GaleraRecoveryStatus) where
  -- The Pod needs a state transfer to join again.
  abbrev pub is_skipped : Bytes → Bool
  is_skipped p = should_skip_recoverer (as_recoverer_bootstrap (recovered_of_pod rs p))

  -- A valid sequence number is known of the Pod.
  abbrev pub has_seqno : Bytes → Bool
  has_seqno p =
      valid_seqno (as_recoverer_state (state_of_pod rs p))
      || valid_seqno (as_recoverer_bootstrap (recovered_of_pod rs p))

  abbrev pub any_safe : List Bytes → Bool
  any_safe [] = false
  any_safe (p ∷ pods) = is_safe (state_of_pod rs p) || any_safe pods

  abbrev pub all_settled : List Bytes → Bool
  all_settled [] = true
  all_settled (p ∷ pods) = (is_skipped p || has_seqno p) && all_settled pods

  abbrev pub all_skipped : List Bytes → Bool
  all_skipped [] = true
  all_skipped (p ∷ pods) = is_skipped p && all_skipped pods

  skipped_count : List Bytes → ℕ
  skipped_count [] = 0
  skipped_count (p ∷ pods) = if is_skipped p then suc (skipped_count pods) else skipped_count pods

  skipped_count-le : (pods : List Bytes) → skipped_count pods ≤ length pods
  unfolding skipped_count
  skipped_count-le [] = omega arith
  skipped_count-le (p ∷ pods) = ground (arith, skipped_count-le pods)

  skipped_count-all_skipped :
      (pods : List Bytes) → (skipped_count pods == length pods) ≡ all_skipped pods
  unfolding skipped_count
  skipped_count-all_skipped [] = refl
  skipped_count-all_skipped (p ∷ pods) =
      ground (arith, skipped_count-le pods, skipped_count-all_skipped pods)

  scan-any_safe :
      (n : ℕ) (c : Bool) (pods : List Bytes) → (scan_pods rs n c pods).safe_found ≡ any_safe pods
  unfolding scan_pods
  scan-any_safe n c [] = refl
  scan-any_safe n c (p ∷ pods) =
      ground
        (arith, scan-any_safe (n + 1) c pods, scan-any_safe n c pods, scan-any_safe n false pods)

  scan-counts :
      (n : ℕ) (c : Bool) (pods : List Bytes)
      → any_safe pods ≡ false
      → ((scan_pods rs n c pods).num_skipped_pods ≡ n + skipped_count pods)
        × ((scan_pods rs n c pods).is_complete ≡ (c && all_settled pods))
  unfolding scan_pods skipped_count
  scan-counts n c [] h = ground arith
  scan-counts n c (p ∷ pods) h =
      ground (arith, scan-counts (n + 1) c pods, scan-counts n c pods, scan-counts n false pods)

  none_of_empty :
      (pods : List Bytes)
      → (length pods == 0) ≡ true
      → (any_safe pods ≡ false) × (all_skipped pods ≡ true)
  none_of_empty [] h = (refl, refl)
  none_of_empty (p ∷ pods) h = absurd (ground arith)

  -- The recovery is complete exactly when some Pod is safe to bootstrap from, or else every Pod is
  -- skipped or has a valid sequence number and not all of them are skipped. So the order of the
  -- Pods does not matter.
  pub is_complete_lem :
      (mdb : MariaDb)
      → let pods = get_pod_names mdb in
        is_complete rs mdb ≡ (any_safe pods || all_settled pods && not (all_skipped pods))
  unfolding is_complete
  is_complete_lem mdb =
      let pods = get_pod_names mdb in
      ground (
        arith,
        scan-any_safe 0 true pods,
        scan-counts 0 true pods,
        skipped_count-all_skipped pods,
        none_of_empty pods,
      )
