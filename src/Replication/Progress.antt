-- ===== src/Replication/Progress.antt =====
-- A switchover in which no call fails succeeds: pkg/controller/replication.
use suture_port_mariadb_oper.Prelude.{
  ◌≡◌, refl, ℕ, Bool, true, false, List, [], ◌∷◌, Option, none, some, Bytes, ℤ, Result, ok, err,
}
use suture_port_mariadb_oper.Api.{MariaDbStatus}
use suture_port_mariadb_oper.Replication.{
  Cluster, Step, Error, Log, Command, ◌>>=◌, ◌>>◌, wrap, run, client_for, patch, await_all, resume,
  wrap_error, to_result, run_all, first_error, unless_done, phase_error,
}
use suture_port_mariadb_oper.Replication.Switchover.{run_if, phase}

-- The result is a value.
abbrev pub IsOk : {A : Type 0} → Result Error A → Type 0
IsOk {A} r = (a : A) × (r ≡ ok a)

abbrev pub Succeeds : {A : Type 0} → Step A → Type 0
Succeeds m = (log : Log) → IsOk (m log).0

-- No call of the cluster fails, and the context is not done.
pub record IsSmooth (k : Cluster) : Type 0 where
  pub runs : (log : Log) (i : ℤ) (c : Command) → k.exec log i c ≡ none
  pub reads : (log : Log) (i : ℤ) (name : Bytes) → IsOk (k.system_variable log i name)
  pub finds : (log : Log) (i : ℤ) (user host : Bytes) → IsOk (k.user_exists log i user host)
  pub connects : (log : Log) (i : ℤ) → k.client_for_index log i ≡ none
  pub gets : (log : Log) (name : Bytes) → IsOk (k.get_pod log name)
  pub patches : (log : Log) (s : MariaDbStatus) → k.patch_status log s ≡ none
  pub reconciles : (log : Log) → IsOk (k.reconcile_password log)
  pub resolves : (log : Log) → IsOk (k.secret_key_ref log)
  pub compares : IsOk k.is_compatible_version
  pub waits : (log : Log) → k.done log ≡ none

pub Succeeds-resume :
    {A B : Type 0} (r : Result Error A) (log : Log) (n : A → Step B)
    → IsOk r
    → ((a : A) → Succeeds (n a))
    → IsOk (resume r log n).0
Succeeds-resume (ok a) log n h f = f a log
Succeeds-resume (err e) log n h f = cc (h.1)

pub Succeeds-bind :
    {A B : Type 0} (m : Step A) (n : A → Step B)
    → Succeeds m
    → ((a : A) → Succeeds (n a))
    → Succeeds (m >>= n)
Succeeds-bind m n h f = λ log. Succeeds-resume (m log).0 (m log).1 n (h log) f

pub Succeeds-then :
    {B : Type 0} (m : Step (Unit {0})) (n : Step B) → Succeeds m → Succeeds n → Succeeds (m >> n)
Succeeds-then m n h f = Succeeds-bind m (λ _. n) h (λ _. f)

pub IsOk-wrap_error : {A : Type 0} (r : Result Error A) → IsOk r → IsOk (wrap_error r)
IsOk-wrap_error (ok a) h = (a, refl)
IsOk-wrap_error (err e) h = cc (h.1)

pub IsOk-phase_error : {A : Type 0} (r : Result Error A) → IsOk r → IsOk (phase_error r)
IsOk-phase_error (ok a) h = (a, refl)
IsOk-phase_error (err e) h = cc (h.1)

pub Succeeds-wrap : {A : Type 0} (m : Step A) → Succeeds m → Succeeds (wrap m)
Succeeds-wrap m h = λ log. IsOk-wrap_error (m log).0 (h log)

pub Succeeds-phase : (m : Step (Unit {0})) → Succeeds m → Succeeds (phase m)
Succeeds-phase m h = λ log. IsOk-phase_error (m log).0 (h log)

pub IsOk-to_result : (o : Option Error) → o ≡ none → IsOk (to_result o)
IsOk-to_result none e = (tt, refl)
IsOk-to_result (some x) e = cc

pub Succeeds-run_if : (b : Bool) (m : Step (Unit {0})) → Succeeds m → Succeeds (run_if b m)
Succeeds-run_if true m h = h
Succeeds-run_if false m h = λ log. (tt, refl)

pub IsOk-first_error :
    (r : Result Error (Unit {0})) (p : Result Error (Unit {0}) × Log)
    → IsOk r
    → IsOk p.0
    → IsOk (first_error r p).0
IsOk-first_error (ok _) p h g = g
IsOk-first_error (err e) p h g = cc (h.1)

pub Succeeds-run_all :
    (body : ℕ → Step (Unit {0})) (is : List ℕ)
    → ((i : ℕ) → Succeeds (body i))
    → Succeeds (run_all body is)
unfolding run_all
Succeeds-run_all body [] h = λ log. (tt, refl)
Succeeds-run_all body (i ∷ is) h = λ log.
    IsOk-first_error (body i log).0 (run_all body is (body i log).1) (h i log)
      (Succeeds-run_all body is h (body i log).1)

pub IsOk-unless_done :
    (o : Option Error) (p : Result Error (Unit {0}) × Log)
    → o ≡ none
    → IsOk p.0
    → IsOk (unless_done o p).0
IsOk-unless_done none p e h = h
IsOk-unless_done (some x) p e h = cc

module _ (k : Cluster) (smooth : IsSmooth k) where
  open smooth use {
    runs, reads, finds, connects, gets, patches, reconciles, resolves, compares, waits,
  }

  pub Succeeds-run : (i : ℤ) (c : Command) → Succeeds (run k i c)
  unfolding run
  Succeeds-run i c = λ log. IsOk-to_result (k.exec log i c) (runs log i c)

  pub Succeeds-wrap_run : (i : ℤ) (c : Command) → Succeeds (wrap (run k i c))
  Succeeds-wrap_run i c = Succeeds-wrap (run k i c) (Succeeds-run i c)

  pub Succeeds-client_for : (i : ℤ) → Succeeds (client_for k i)
  unfolding client_for
  Succeeds-client_for i = λ log. IsOk-to_result (k.client_for_index log i) (connects log i)

  pub Succeeds-patch : (s : MariaDbStatus) → Succeeds (patch k s)
  unfolding patch
  Succeeds-patch s = λ log. IsOk-to_result (k.patch_status log s) (patches log s)

  pub Succeeds-await_all :
      (body : ℕ → Step (Unit {0})) (is : List ℕ)
      → ((i : ℕ) → Succeeds (body i))
      → Succeeds (await_all k body is)
  unfolding await_all
  Succeeds-await_all body is h = λ log.
      let p = run_all body (k.schedule log is) log in
      IsOk-unless_done (k.done p.1) p (waits p.1) (Succeeds-run_all body (k.schedule log is) h log)
