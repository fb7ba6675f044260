-- ===== src/Replication/Fencing.antt =====
-- The new primary takes writes only when the old one has stopped and the replicas have caught up:
-- pkg/controller/replication/switchover.go.
use suture_port_mariadb_oper.Prelude.{
  ◌≡◌, refl, ap, ℕ, Bool, true, List, [], ◌∷◌, some, ℤ, Result, ok, err, In, inr,
}
use suture_port_mariadb_oper.StatefulSet.{pod_name}
use suture_port_mariadb_oper.Api.{MariaDb, MariaDbStatus}
use suture_port_mariadb_oper.Api.Conditions.{StatusConditions, set_condition}
use suture_port_mariadb_oper.Conditions.{set_primary_switching}
use suture_port_mariadb_oper.Replication.{
  Cluster, Step, Error, Log, Event, sql, status_patched, ◌>>◌, resume, wrap, patch, PodCondition,
  pod_ready, disable_read_only,
}
use suture_port_mariadb_oper.Replication.Switchover.{
  desired_index, seal_primary, promote_primary, switching_status, switching, switched_status,
  switch_primary, reconcile_switchover, should_reconcile_switchover,
}
use suture_port_mariadb_oper.Replication.Triples.{
  is_promotion, Keeps, Calm, Keeps-resume, Keeps-then, Post,
}
use suture_port_mariadb_oper.Replication.Keeping.{
  Keeps-run_if, Keeps-seal_primary, Keeps-promote_primary,
}
use suture_port_mariadb_oper.Replication.Sealing.{Sealed, seal_primary-Sealed}

-- A command that lets a server take writes is sent to the new primary only, behind the seal.
abbrev pub Guarded : Cluster → MariaDb → ℤ → Event → Log → Type 0
Guarded k mariadb from (sql i c b) log =
    is_promotion c ≡ true → (i ≡ desired_index mariadb) × Sealed k mariadb from log
Guarded k mariadb from (status_patched s b) log = Unit {0}

abbrev pub Fenced : Cluster → MariaDb → ℤ → Log → Type 0
Fenced k mariadb from [] = Unit {0}
Fenced k mariadb from (e ∷ log) = Guarded k mariadb from e log × Fenced k mariadb from log

-- When a first part has sealed the log, the second part may count on it.
Keeps-behind :
    (I S : Log → Type 0) (r : Result Error (Unit {0})) (log : Log) (n : Step (Unit {0}))
    → ((l : Log) → I l × S l → I (n l).1)
    → I log
    → Post (λ _ l. S l) r log
    → I (resume r log (λ _. n)).1
Keeps-behind I S (ok _) log n h i s = h log (i, s)
Keeps-behind I S (err e) log n h i s = i

module _ (k : Cluster) (mariadb : MariaDb) (from : ℤ) where
  abbrev Both : Log → Type 0
  Both log = Fenced k mariadb from log × Sealed k mariadb from log

  Calm-Fenced : Calm (Fenced k mariadb from)
  Calm-Fenced = λ log i c b h hl. ((λ p. cc), hl)

  Sealed-cons :
      (log : Log) (e : Event) → Sealed k mariadb from log → Sealed k mariadb from (e ∷ log)
  Sealed-cons log e s =
      (s.0, s.1, e ∷ s.2, ap (λ l. e ∷ l) s.3, s.4, s.5, λ i lt ne. inr (s.6 i lt ne))

  Calm-Both : Calm Both
  Calm-Both = λ log i c b h hl. (((λ p. cc), hl.0), Sealed-cons log (sql i c b) hl.1)

  promoted :
      (log : Log) (b : Bool)
      → Both log
      → Both (sql (desired_index mariadb) disable_read_only b ∷ log)
  promoted log b h = (((λ _. (refl, h.1)), h.0), Sealed-cons log _ h.1)

  Keeps-patch : (status : MariaDbStatus) → Keeps (Fenced k mariadb from) (wrap (patch k status))
  unfolding patch
  Keeps-patch status = λ log h. (tt, h)

  promote_primary-Fenced :
      (status : MariaDbStatus) (log : Log)
      → Both log
      → Fenced k mariadb from ((promote_primary k mariadb >> wrap (patch k status)) log).1
  promote_primary-Fenced status log h =
      Keeps-resume (Fenced k mariadb from) (promote_primary k mariadb log).0
        (promote_primary k mariadb log).1 (λ _. wrap (patch k status)) (λ _. Keeps-patch status)
        (Keeps-promote_primary k mariadb Both Calm-Both promoted log h).0

module _ (meta : StatusConditions) (k : Cluster)
    (covers : (log : Log) (is : List ℕ) (i : ℕ) → In i is → In i (k.schedule log is))
    (mariadb : MariaDb) (from : ℤ) (current : mariadb.status.current_primary_pod_index ≡ some from)
    (ready : (log : Log) (cs : List PodCondition)
      → k.get_pod log (pod_name mariadb.metadata from) ≡ ok cs
      → pod_ready cs ≡ true) where
  switching-current : (switching meta mariadb).status.current_primary_pod_index ≡ some from
  unfolding switching switching_status set_primary_switching set_condition
  switching-current = current

  switching-ready :
      (log : Log) (cs : List PodCondition)
      → k.get_pod log (pod_name (switching meta mariadb).metadata from) ≡ ok cs
      → pod_ready cs ≡ true
  unfolding switching
  switching-ready = ready

  switch_primary-Fenced :
      (log : Log)
      → Fenced k (switching meta mariadb) from log
      → Fenced k (switching meta mariadb) from (switch_primary meta k mariadb log).1
  unfolding switch_primary
  switch_primary-Fenced log h =
      let m = switching meta mariadb in
      Keeps-then (Fenced k m from) (wrap (patch k (switching_status meta mariadb)))
        (seal_primary k m >> (promote_primary k m >> wrap (patch k (switched_status meta mariadb))))
        (Keeps-patch k m from (switching_status meta mariadb))
        (λ l hl.
          Keeps-behind (Fenced k m from) (Sealed k m from) (seal_primary k m l).0
            (seal_primary k m l).1
            (promote_primary k m >> wrap (patch k (switched_status meta mariadb)))
            (λ l' b. promote_primary-Fenced k m from (switched_status meta mariadb) l' b)
            (Keeps-seal_primary k m (Fenced k m from) (Calm-Fenced k m from) l hl)
            (seal_primary-Sealed k covers m from switching-current switching-ready l))
        log h

  -- When the goroutines are all run and the old primary is never seen as not ready: whatever fails
  -- on the way, a switchover lets only the new primary take writes, and does so only after the old
  -- primary was locked and made read-only, its position was read after that, and every other Pod
  -- has waited for this position; this is kept of the log when it holds before.
  pub reconcile_switchover-Fenced :
      (log : Log)
      → Fenced k (switching meta mariadb) from log
      → Fenced k (switching meta mariadb) from (reconcile_switchover meta k mariadb log).1
  unfolding reconcile_switchover
  reconcile_switchover-Fenced log h =
      Keeps-run_if k mariadb (Fenced k (switching meta mariadb) from)
        (should_reconcile_switchover meta mariadb) (switch_primary meta k mariadb)
        switch_primary-Fenced log h
