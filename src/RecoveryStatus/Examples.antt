-- ===== src/RecoveryStatus/Examples.antt =====
-- The recovery of a cluster of three Pods.
use suture_port_mariadb_oper.Prelude.{
  ◌≡◌, refl, ◌⊎◌, inl, inr, Bool, true, false, not, ◌&&◌, ◌||◌, [], ◌∷◌, some, none, codes,
  bytes_eq, lookup, insert, ℤ, pos, negsuc, ok, err, All, Any, In,
}
use suture_port_mariadb_oper.Text.{itoa, decimal, decimal_from}
use suture_port_mariadb_oper.StatefulSet.{pod_name}
use suture_port_mariadb_oper.DataStructures.{find}
use suture_port_mariadb_oper.GaleraState.{GaleraState, Bootstrap, get_uuid, get_seqno, compare_to}
use suture_port_mariadb_oper.Api.{MariaDb, GaleraRecoveryStatus, no_recovery_status}
use suture_port_mariadb_oper.RecoveryStatus.{
  made, assign, set_state, set_recovered, state_of_pod, recovered_of_pod, get_pod_names,
  pod_names_from, is_complete, scan_pods, is_safe, valid_seqno, should_skip_recoverer, nil_uuid,
  BootstrapSource, bootstrap_source, search_pods, search_pod, safe_source, source_of, finish,
  finish_at, consider, forced_source, recovery_not_completed, pod_not_found,
}
use suture_port_mariadb_oper.RecoveryStatus.Complete.{bootstrap_source-is_complete}
use suture_port_mariadb_oper.RecoveryStatus.Criterion.{
  any_safe, all_settled, all_skipped, is_complete_lem,
}
use suture_port_mariadb_oper.RecoveryStatus.Maximum.{IsDominated, bootstrap_source-IsDominated}
use suture_port_mariadb_oper.RecoveryStatus.Source.{
  SourceOk, bootstrap_source-SourceOk, bootstrap_source-forced, bootstrap_source_safe,
}

program : Unit {0}
unfolding itoa decimal decimal_from pod_name find get_uuid get_seqno compare_to set_state made
    assign set_recovered state_of_pod recovered_of_pod get_pod_names pod_names_from is_complete
    scan_pods is_safe valid_seqno should_skip_recoverer nil_uuid bootstrap_source search_pods
    search_pod safe_source source_of finish finish_at consider forced_source bytes_eq lookup insert
program = tt

abbrev mariadb : MariaDb
mariadb = record {
  metadata = record { name = codes "db"; namespace = codes "default" };
  suspend = false;
  replicas = 3;
  galera = none;
  replication = none;
  max_scale_ref = false;
  status = record {
    conditions = [];
    current_primary_pod_index = none;
    current_primary = none;
    replication_status = none;
    current_primary_failing_since = none;
    galera_recovery = none;
  };
}

abbrev state : ℤ → Bool → GaleraState
state seqno safe = record {
  version = codes "2.1";
  uuid = codes "u";
  seqno = seqno;
  safe_to_bootstrap = safe;
}

abbrev found : ℤ → Bootstrap
found seqno = record { uuid = codes "u"; seqno = seqno }

-- The first two Pods crashed, and the third one needs a state transfer.
abbrev crashed : GaleraRecoveryStatus
crashed = record {
  state = some (
      (codes "db-0", some (state (negsuc 0) false))
      ∷ (codes "db-1", some (state (negsuc 0) false))
      ∷ []);
  recovered = some (
      (codes "db-0", some (found (pos 41)))
      ∷ (codes "db-1", some (found (pos 42)))
      ∷ (
        codes "db-2",
        some (record { uuid = codes "00000000-0000-0000-0000-000000000000"; seqno = negsuc 0 }),
      )
      ∷ []);
  bootstrap = none;
  pods_restarted = none;
}

abbrev stopped : GaleraRecoveryStatus
stopped = record no_recovery_status {
  state = some (
      (codes "db-0", some (state (pos 50) false))
      ∷ (codes "db-1", some (state (pos 40) true))
      ∷ []);
}

abbrev second : BootstrapSource
second = record { bootstrap = some (found (pos 42)); pod = codes "db-1" }

crashed_source : bootstrap_source crashed mariadb none ≡ ok second
unfolding program
crashed_source = refl

stopped_source :
    bootstrap_source stopped mariadb none
    ≡ ok (record { bootstrap = some (found (pos 40)); pod = codes "db-1" })
unfolding program
stopped_source = refl

-- One Pod of three is known.
early_source :
    bootstrap_source
      (set_state no_recovery_status (codes "db-0") (state (pos 3) false))
      mariadb
      none
    ≡ err recovery_not_completed
unfolding program
early_source = refl

crashed_unsafe : All (λ p. is_safe (state_of_pod crashed p) ≡ false) (get_pod_names mariadb)
unfolding program
crashed_unsafe = (refl, (refl, (refl, tt)))

stopped_safe : Any (λ p. is_safe (state_of_pod stopped p) ≡ true) (get_pod_names mariadb)
unfolding program
stopped_safe = inr (inl refl)

bootstrap_source-is_complete_example :
    (is_complete crashed mariadb ≡ true
      → (src : BootstrapSource) × (bootstrap_source crashed mariadb none ≡ ok src))
    × (is_complete crashed mariadb ≡ false
        → bootstrap_source crashed mariadb none ≡ err recovery_not_completed)
bootstrap_source-is_complete_example = bootstrap_source-is_complete crashed mariadb

is_complete_lem_example :
    let pods = get_pod_names mariadb in
    is_complete crashed mariadb
    ≡ (any_safe crashed pods || all_settled crashed pods && not (all_skipped crashed pods))
is_complete_lem_example = is_complete_lem crashed mariadb

bootstrap_source-SourceOk_example : SourceOk crashed (get_pod_names mariadb) second
bootstrap_source-SourceOk_example = bootstrap_source-SourceOk crashed mariadb second crashed_source

bootstrap_source-IsDominated_example :
    (b : Bootstrap) × (second.bootstrap ≡ some b)
    × All (IsDominated crashed b.seqno) (get_pod_names mariadb)
bootstrap_source-IsDominated_example =
    bootstrap_source-IsDominated crashed mariadb second crashed_unsafe crashed_source

bootstrap_source_safe_example : is_safe (state_of_pod stopped (codes "db-1")) ≡ true
bootstrap_source_safe_example =
    bootstrap_source_safe stopped mariadb
      (record { bootstrap = some (found (pos 40)); pod = codes "db-1" }) stopped_safe stopped_source

bootstrap_source-forced_example :
    (In (codes "db-7") (get_pod_names mariadb)
      × (bootstrap_source crashed mariadb (some (codes "db-7"))
          ≡ ok (record { bootstrap = none; pod = codes "db-7" })))
    ⊎ (¬ In (codes "db-7") (get_pod_names mariadb)
        × (bootstrap_source crashed mariadb (some (codes "db-7")) ≡ err pod_not_found))
bootstrap_source-forced_example = bootstrap_source-forced crashed mariadb (codes "db-7")
