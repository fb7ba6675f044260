-- ===== src/Replication/Logged.antt =====
-- pkg/controller/replication/switchover.go: what stands in the log of a switchover, and
-- stays there.
use suture_port_mariadb_oper.Prelude.{
  ◌≡◌, subst, ap, ◌++◌, ◌⊎◌, inl, inr, ℕ, Bool, true, false, List, [], ◌∷◌, Option, none, some,
  Bytes, ℤ, Result, ok, err, In,
}
use suture_port_mariadb_oper.StatefulSet.{pod_name}
use suture_port_mariadb_oper.Api.{MariaDb}
use suture_port_mariadb_oper.Replication.{
  Cluster, Step, Error, Log, Event, Command, sql, resume, ◌>>=◌, run_all, unless_done, PodCondition,
  pod_ready, change_master,
}
use suture_port_mariadb_oper.Replication.Config.{change_master_host}
use suture_port_mariadb_oper.Replication.Switchover.{desired_index}
use suture_port_mariadb_oper.Replication.Progress.{IsOk, Succeeds}
use suture_port_mariadb_oper.Replication.Triples.{
  Keeps, Calm, Keeps-resume, Keeps-run_all, first_error-log,
}

-- What stays when the log grows.
abbrev pub Grows : (Log → Type 0) → Type 0
Grows J = (e : Event) (log : Log) → J log → J (e ∷ log)

-- What holds of the log behind a step.
abbrev pub Reaches : {A : Type 0} → (Log → Type 0) → Step A → Type 0
Reaches J m = (log : Log) → J (m log).1

pub Calm-of_Grows : (J : Log → Type 0) → Grows J → Calm J
Calm-of_Grows J g = λ log i c b h hl. g (sql i c b) log hl

pub Reaches-first :
    {A B : Type 0} (J : Log → Type 0) (m : Step A) (n : A → Step B)
    → Reaches J m
    → ((a : A) → Keeps J (n a))
    → Reaches J (m >>= n)
Reaches-first J m n h keep = λ log. Keeps-resume J (m log).0 (m log).1 n keep (h log)

pub Reaches-later :
    {A B : Type 0} (J : Log → Type 0) (m : Step A) (n : A → Step B)
    → Succeeds m
    → ((a : A) → Reaches J (n a))
    → Reaches J (m >>= n)
Reaches-later {A} J m n ok_m h = λ log. go (m log).0 (m log).1 (ok_m log)
  where
    go : (r : Result Error A) (log : Log) → IsOk r → J (resume r log n).1
    go (ok a) log o = h a log
    go (err e) log o = cc (o.1)

-- All goroutines run, and what one of them reaches is not lost.
pub Reaches-run_all :
    (J : Log → Type 0) (body : ℕ → Step (Unit {0})) (is : List ℕ) (i : ℕ)
    → In i is
    → Reaches J (body i)
    → ((j : ℕ) → Keeps J (body j))
    → Reaches J (run_all body is)
unfolding run_all
Reaches-run_all J body [] i m h keep = absurd m
Reaches-run_all J body (j ∷ is) i (inl e) h keep = λ log.
    rw (first_error-log (body j log).0 (run_all body is (body j log).1))
      (Keeps-run_all J body is keep (body j log).1 (subst (λ n. J (body n log).1) e (h log)))
Reaches-run_all J body (j ∷ is) i (inr m) h keep = λ log.
    rw (first_error-log (body j log).0 (run_all body is (body j log).1))
      (Reaches-run_all J body is i m h keep (body j log).1)

pub Keeps-unless_done-log :
    (J : Log → Type 0) (o : Option Error) (p : Result Error (Unit {0}) × Log)
    → J p.1
    → J (unless_done o p).1
Keeps-unless_done-log J none p h = h
Keeps-unless_done-log J (some e) p h = h

-- The Pod was sent the command, which succeeded.
abbrev pub Sent : ℤ → Command → Log → Type 0
Sent j c log = In (sql j c true) log

pub Grows-Sent : (j : ℤ) (c : Command) → Grows (Sent j c)
Grows-Sent j c = λ e log h. inr h

module _ (k : Cluster) (mariadb : MariaDb) where
  -- The Pod with that index was not ready at some point of the log.
  abbrev pub SeenNotReady : ℤ → Log → Type 0
  SeenNotReady j log =
      (l : Log) × (later : List Event) × (log ≡ later ++ l)
      × (cs : List PodCondition) × (k.get_pod l (pod_name mariadb.metadata j) ≡ ok cs)
      × (pod_ready cs ≡ false)

  abbrev pub Unless : ℤ → (Log → Type 0) → Log → Type 0
  Unless j J log = SeenNotReady j log ⊎ J log

  -- The Pod was told to replicate from the new primary.
  abbrev pub Follows : ℤ → Log → Type 0
  Follows j log =
      (b : Bool) × (k.is_compatible_version ≡ ok b)
      × (gtid : Bytes) × (retries : ℤ) × (password : Bytes) × Sent j
          (change_master (change_master_host k mariadb (desired_index mariadb) b) gtid retries
            password)
          log

  pub Grows-Follows : (j : ℤ) → Grows (Follows j)
  Grows-Follows j =
      λ e log (b, q, gtid, retries, password, h). (b, q, gtid, retries, password, inr h)

  pub Grows-Unless : (j : ℤ) (J : Log → Type 0) → Grows J → Grows (Unless j J)
  Grows-Unless j J g = λ e log h. elim h [
    | inl (l, later, q, cs, r, n) ↦ inl (l, e ∷ later, ap (λ x. e ∷ x) q, cs, r, n)
    | inr y ↦ inr (g e log y)
  ]
