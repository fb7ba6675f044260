-- ===== src/StatefulSet/Examples.antt =====
-- Names of Pods at concrete inputs.
use suture_port_mariadb_oper.Prelude.{
  ◌≡◌, ◌↔◌, refl, ◌<◌, ℕ, [], codes, bytes_eq, pos, negsuc, ◌≤ℤ◌, ok, err, true, arith,
}
use suture_port_mariadb_oper.Text.{
  split, atoi, itoa, decimal, decimal_from, has_prefix, parse_magnitude, parse_digits, is_digit,
  as_positive, as_negative,
}
use suture_port_mariadb_oper.StatefulSet.{
  ObjectMeta, pod_name, pod_index, valid_pod_name, invalid_pod_name, index_out_of_range,
  replicas_negative, service_fqdn_with_service, pod_fqdn_with_service,
}
use suture_port_mariadb_oper.StatefulSet.Names.{
  pod_index-pod_name, pod_index_nonneg, valid_pod_name_iff,
}

program : Unit {0}
unfolding pod_name pod_index valid_pod_name split atoi itoa decimal decimal_from has_prefix
    parse_magnitude parse_digits is_digit as_positive as_negative
program = tt

abbrev galera : ObjectMeta
galera = record { name = codes "mariadb-galera"; namespace = codes "default" }

pod_name_third : pod_name galera (pos 12) ≡ codes "mariadb-galera-12"
unfolding program
pod_name_third = refl

pod_index_missing : pod_index (codes "mariadb-galera-x") ≡ err invalid_pod_name
unfolding program
pod_index_missing = refl

valid_pod_name_high :
    valid_pod_name galera (pos 3) (codes "mariadb-galera-3") ≡ err index_out_of_range
unfolding program
valid_pod_name_high = refl

valid_pod_name_negative : valid_pod_name galera (negsuc 0) (codes "x-0") ≡ err replicas_negative
unfolding program
valid_pod_name_negative = refl

pod_fqdn :
    pod_fqdn_with_service [] galera (pos 1) (codes "internal")
    ≡ codes "mariadb-galera-1.internal.default.svc.cluster.local"
unfolding program pod_fqdn_with_service service_fqdn_with_service bytes_eq
pod_fqdn = refl

pod_index-pod_name_example : pod_index (pod_name galera (pos 12)) ≡ ok (pos 12)
pod_index-pod_name_example = pod_index-pod_name galera 12 (omega arith)

pod_index_third : pod_index (codes "mariadb-galera-12") ≡ ok (pos 12)
unfolding program
pod_index_third = refl

pod_index_nonneg_example : pos 0 ≤ℤ pos 12
pod_index_nonneg_example = pod_index_nonneg (codes "mariadb-galera-12") (pos 12) pod_index_third

valid_pod_name_iff_example : (valid_pod_name galera (pos 3) (codes "mariadb-galera-2") ≡ ok tt) ↔ (
    (n : ℕ) × (pod_index (codes "mariadb-galera-2") ≡ ok (pos n))
    × (n < 3)
    × (has_prefix (codes "mariadb-galera-2") (codes "mariadb-galera") ≡ true))
valid_pod_name_iff_example = valid_pod_name_iff galera 3 (codes "mariadb-galera-2")
