-- ===== src/StatefulSet.antt =====
-- pkg/statefulset/statefulset.go: names of Pods and Services.
pub mod Names
mod Examples
use suture_port_mariadb_oper.Prelude.{
  ℕ, Bool, true, false, not, ◌||◌, List, [], ◌∷◌, ◌++◌, Option, none, some, Bytes, codes, length,
  bytes_eq, ℤ, pos, ltb_ℤ, leb_ℤ, Result, ok, err, ◌>>=◌, ◌>>◌, fail_if, or_error, if◌then◌else◌,
}
use suture_port_mariadb_oper.Text.{split, last_part, atoi, itoa, has_prefix}

-- metav1.ObjectMeta: what the functions read of it.
pub record ObjectMeta : Type 0 where
  pub name : Bytes
  pub namespace : Bytes

pub data NameError : Type 0 where
  invalid_pod_name replicas_negative index_out_of_range invalid_prefix : NameError

unfoldable pub pod_name : ObjectMeta → ℤ → Bytes
pod_name meta pod_index = meta.name ++ b'-' ∷ itoa pod_index

-- The last part is there: strings.Split gives at least one part.
unfoldable pub pod_index : Bytes → Result NameError ℤ
pod_index pod_name = do
  part ← or_error (last_part (split b'-' pod_name)) invalid_pod_name
  or_error (atoi part) invalid_pod_name

unfoldable pub valid_pod_name : ObjectMeta → ℤ → Bytes → Result NameError (Unit {0})
valid_pod_name meta replicas pod_name = do
  fail_if (ltb_ℤ replicas (pos 0)) replicas_negative
  index ← pod_index pod_name
  fail_if (ltb_ℤ index (pos 0) || leb_ℤ replicas index) index_out_of_range
  fail_if (not (has_prefix pod_name meta.name)) invalid_prefix
  ok tt

-- The environment variable CLUSTER_NAME is the argument `cluster`.
unfoldable pub service_fqdn_with_service : Bytes → ObjectMeta → Bytes → Bytes
service_fqdn_with_service cluster meta service =
    let cluster_name = if bytes_eq cluster [] then codes "cluster.local" else cluster in
    service ++ b'.' ∷ (meta.namespace ++ (codes ".svc." ++ cluster_name))

unfoldable pub pod_fqdn_with_service : Bytes → ObjectMeta → ℤ → Bytes → Bytes
pod_fqdn_with_service cluster meta pod_index service =
    pod_name meta pod_index ++ b'.' ∷ service_fqdn_with_service cluster meta service

unfoldable pub service_name_variants : Bytes → ObjectMeta → Bytes → List Bytes
service_name_variants cluster meta service =
    service_fqdn_with_service cluster meta service
    ∷ (service ++ b'.' ∷ (meta.namespace ++ codes ".svc"))
    ∷ (service ++ b'.' ∷ meta.namespace)
    ∷ service
    ∷ []

unfoldable pub headless_service_name_variants : Bytes → ObjectMeta → Bytes → Bytes → List Bytes
headless_service_name_variants cluster meta pod service =
    let cluster_name = if bytes_eq cluster [] then codes "cluster.local" else cluster in
    let host = pod ++ b'.' ∷ service in
    (host ++ b'.' ∷ (meta.namespace ++ (codes ".svc." ++ cluster_name)))
    ∷ (host ++ b'.' ∷ (meta.namespace ++ codes ".svc"))
    ∷ (host ++ b'.' ∷ meta.namespace)
    ∷ host
    ∷ []

unfoldable pub pod_short_fqdn_with_service : ObjectMeta → ℤ → Bytes → Bytes
pod_short_fqdn_with_service meta pod_index service = pod_name meta pod_index ++ b'.' ∷ service
