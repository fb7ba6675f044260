-- ===== src/Replication/Config.antt =====
-- pkg/controller/replication/config.go: a server is made the primary or a replica.
use suture_port_mariadb_oper.Prelude.{
  ◌+◌, ◌/◌, Bool, true, false, List, [], ◌∷◌, ◌++◌, Option, none, some, Bytes, codes, ℤ, pos,
  negsuc, if◌then◌else◌, ◌-ℤ◌,
}
use suture_port_mariadb_oper.Text.{itoa}
use suture_port_mariadb_oper.StatefulSet.{pod_fqdn_with_service, pod_short_fqdn_with_service}
use suture_port_mariadb_oper.Api.{
  MariaDb, WaitPoint, after_sync, after_commit, Gtid, current_pos, slave_pos, ReplicaReplication,
  default_replica, replication_of, deref, ten_seconds,
}
use suture_port_mariadb_oper.Replication.{
  Cluster, Step, enable_read_only, disable_read_only, reset_master, start_slave, stop_all_slaves,
  reset_all_slaves, reset_slave_pos, set_system_variables, change_master, create_user, alter_user,
  grant, ◌>>=◌, ◌>>◌, give, wrap, ask, run,
}

-- `WaitPoint.MariaDBFormat` and `Gtid.MariaDBFormat`: the two values that each type has.
unfoldable pub wait_point_format : WaitPoint → Bytes
wait_point_format after_sync = codes "AFTER_SYNC"
wait_point_format after_commit = codes "AFTER_COMMIT"

unfoldable pub gtid_format : Gtid → Bytes
gtid_format current_pos = codes "current_pos"
gtid_format slave_pos = codes "slave_pos"

-- `serverId`.
unfoldable pub server_id : ℤ → Bytes
server_id index = itoa (index -ℤ negsuc 9)

-- `Duration.Milliseconds`, which rounds to zero.
unfoldable pub milliseconds : ℤ → ℤ
milliseconds (pos n) = pos (n / 1000000)
milliseconds (negsuc n) = pos 0 -ℤ pos ((n + 1) / 1000000)

-- The replica's part of the specification, which `Replication` has filled in.
unfoldable pub replica_of : MariaDb → ReplicaReplication
replica_of mariadb = deref (replication_of mariadb).replica default_replica

unfoldable pub sync_binlog_of : MariaDb → Bytes
sync_binlog_of mariadb = itoa (deref (replication_of mariadb).sync_binlog (pos 1))

unfoldable pub wait_point_vars : Option WaitPoint → List (Bytes × Bytes)
wait_point_vars none = []
wait_point_vars (some w) = (codes "rpl_semi_sync_master_wait_point", wait_point_format w) ∷ []

unfoldable pub primary_vars : MariaDb → ℤ → List (Bytes × Bytes)
primary_vars mariadb primary_pod_index =
    (codes "sync_binlog", sync_binlog_of mariadb)
    ∷ (codes "rpl_semi_sync_master_enabled", codes "ON")
    ∷ (
      codes "rpl_semi_sync_master_timeout",
      itoa (milliseconds (deref (replica_of mariadb).connection_timeout ten_seconds)),
    )
    ∷ (codes "rpl_semi_sync_slave_enabled", codes "OFF")
    ∷ (codes "server_id", server_id primary_pod_index)
    ∷ wait_point_vars (replica_of mariadb).wait_point

unfoldable pub replica_vars : MariaDb → ℤ → List (Bytes × Bytes)
replica_vars mariadb ordinal =
    (codes "sync_binlog", sync_binlog_of mariadb)
    ∷ (codes "rpl_semi_sync_master_enabled", codes "OFF")
    ∷ (codes "rpl_semi_sync_slave_enabled", codes "ON")
    ∷ (codes "server_id", server_id ordinal)
    ∷ []

unfoldable pub configure_primary_vars : Cluster → MariaDb → ℤ → ℤ → Step (Unit {0})
configure_primary_vars k mariadb client primary_pod_index =
    wrap (run k client (set_system_variables (primary_vars mariadb primary_pod_index)))

unfoldable pub configure_replica_vars : Cluster → MariaDb → ℤ → ℤ → Step (Unit {0})
configure_replica_vars k mariadb client ordinal =
    wrap (run k client (set_system_variables (replica_vars mariadb ordinal)))

abbrev pub repl_user : Bytes
repl_user = codes "repl"

abbrev pub repl_user_host : Bytes
repl_user_host = codes "%"

-- `formatAccountName`.
unfoldable pub format_account_name : Bytes → Bytes → Bytes
format_account_name username host = b'\'' ∷ (username ++ (codes "'@'" ++ (host ++ b'\'' ∷ [])))

unfoldable pub put_user : Cluster → ℤ → Bytes → Bytes → Bool → Step (Unit {0})
put_user k client account_name password true =
    wrap (run k client (alter_user account_name password))
put_user k client account_name password false =
    wrap (run k client (create_user account_name password))

-- `reconcileUserSql`.
unfoldable pub reconcile_user_sql : Cluster → ℤ → Bytes → Bytes → Bytes → Step (Unit {0})
reconcile_user_sql k client username host privileges =
    let account_name = format_account_name username host in
    do
      password ← wrap (ask k.reconcile_password)
      exists ← wrap (ask (λ log. k.user_exists log client username host))
      put_user k client account_name password exists
      wrap (run k client (grant privileges account_name))

unfoldable pub reconcile_primary_sql : Cluster → ℤ → Step (Unit {0})
reconcile_primary_sql k client =
    wrap (reconcile_user_sql k client repl_user repl_user_host (codes "REPLICATION REPLICA"))

-- `ConfigurePrimary`: the server of the Pod `client` becomes the primary with that index.
unfoldable pub configure_primary : Cluster → MariaDb → ℤ → ℤ → Step (Unit {0})
configure_primary k mariadb client pod_index = do
  wrap (run k client stop_all_slaves)
  wrap (run k client reset_all_slaves)
  wrap (run k client reset_slave_pos)
  wrap (run k client disable_read_only)
  wrap (reconcile_primary_sql k client)
  wrap (configure_primary_vars k mariadb client pod_index)

-- `getChangeMasterHost`: before the version 10.6 a host has at most 60 characters.
unfoldable pub change_master_host : Cluster → MariaDb → ℤ → Bool → Bytes
change_master_host k mariadb primary_pod_index is_compatible_version =
    let service = mariadb.metadata.name ++ codes "-internal" in
    if is_compatible_version
    then pod_fqdn_with_service k.cluster_name mariadb.metadata primary_pod_index service
    else pod_short_fqdn_with_service mariadb.metadata primary_pod_index service

-- `changeMaster`.
unfoldable pub do_change_master : Cluster → MariaDb → ℤ → ℤ → Step (Unit {0})
do_change_master k mariadb client primary_pod_index = do
  password ← wrap (ask k.secret_key_ref)
  compatible ← wrap (ask (λ log. k.is_compatible_version))
  wrap (
      run k client (
        change_master (change_master_host k mariadb primary_pod_index compatible)
          (gtid_format (deref (replica_of mariadb).gtid current_pos))
          (deref (replica_of mariadb).connection_retries (pos 10)) password))

unfoldable pub reset_slave_pos_if : Cluster → ℤ → Bool → Step (Unit {0})
reset_slave_pos_if k client true = wrap (run k client reset_slave_pos)
reset_slave_pos_if k client false = give tt

-- `ConfigureReplica`.
unfoldable pub configure_replica : Cluster → MariaDb → ℤ → ℤ → ℤ → Bool → Step (Unit {0})
configure_replica k mariadb client replica_pod_index primary_pod_index reset = do
  wrap (run k client reset_master)
  wrap (run k client stop_all_slaves)
  reset_slave_pos_if k client reset
  wrap (run k client enable_read_only)
  wrap (configure_replica_vars k mariadb client replica_pod_index)
  wrap (do_change_master k mariadb client primary_pod_index)
  wrap (run k client start_slave)
