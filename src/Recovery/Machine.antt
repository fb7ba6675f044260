-- ===== src/Recovery/Machine.antt =====
-- The recovery of a Galera cluster seen from outside: pkg/controller/galera/recovery.go refines a
-- machine of three phases.
use suture_port_mariadb_oper.Prelude.{
  ◌≡◌, refl, sym, subst, ◌∙◌, Bool, true, false, [], ◌∷◌, none, some, arith, if◌then◌else◌,
}
use suture_port_mariadb_oper.Api.{MariaDbStatus, GaleraRecoveryStatus, deref, no_recovery_status}
use suture_port_mariadb_oper.RecoveryStatus.{
  is_set, is_bootstrapping, pods_restarted, set_state, set_recovered,
}
use suture_port_mariadb_oper.Recovery.{
  State, Event, tick, pod_deleted, bootstrap_enabled, bootstrap_disabled, replicas_patched,
  job_created, job_deleted, status_patched, Log, is_zero, with_recovery, record_event,
}
use suture_port_mariadb_oper.Recovery.Keeping.{Calm, is_quiet, written}

pub data Phase : Type 0 where
  idle bootstrapping restarted : Phase

-- A bootstrap is begun, finished when all Pods are restarted, and given up at any time.
pub data Move : Phase → Phase → Type 0 where
  stay : (p : Phase) → Move p p
  begin : Move idle bootstrapping
  finish : Move bootstrapping restarted
  expire : (p : Phase) → Move p idle

unfoldable pub phase_at : Bool → Bool → Phase
phase_at false r = idle
phase_at true false = bootstrapping
phase_at true true = restarted

unfoldable pub phase_of : GaleraRecoveryStatus → Phase
unfolding phase_at
phase_of rs = phase_at (is_bootstrapping rs) (pods_restarted rs)

-- The machine's phase and the two flags determine one another, when the flags are coherent.
pub idle-flags :
    (b r : Bool) → (r ≡ true → b ≡ true) → phase_at b r ≡ idle → (b ≡ false) × (r ≡ false)
unfolding phase_at
idle-flags false false h e = (refl, refl)
idle-flags false true h e = cc (h refl)
idle-flags true false h e = cc
idle-flags true true h e = cc

pub bootstrapping-flags : (b r : Bool) → phase_at b r ≡ bootstrapping → (b ≡ true) × (r ≡ false)
unfolding phase_at
bootstrapping-flags false r e = cc
bootstrapping-flags true false e = (refl, refl)
bootstrapping-flags true true e = cc

pub restarted-flags : (b r : Bool) → phase_at b r ≡ restarted → (b ≡ true) × (r ≡ true)
unfolding phase_at
restarted-flags false r e = cc
restarted-flags true false e = cc
restarted-flags true true e = (refl, refl)

-- What a status says of the recovery.
abbrev pub recovery_in : MariaDbStatus → GaleraRecoveryStatus
recovery_in status = deref status.galera_recovery no_recovery_status

abbrev pub status_phase : MariaDbStatus → Phase
status_phase status = phase_of (recovery_in status)

-- The Pods are restarted behind a bootstrap only.
abbrev pub IsCoherent : GaleraRecoveryStatus → Type 0
IsCoherent rs = pods_restarted rs ≡ true → is_bootstrapping rs ≡ true

-- The phase that was written last, and `start` before all of the log.
abbrev pub last_phase : Phase → Log → Phase
last_phase start [] = start
last_phase start (status_patched status done ∷ log) = status_phase status
last_phase start (e ∷ log) = last_phase start log

-- Each write of the status is a move of the machine.
abbrev pub IsRun : Phase → Log → Type 0
IsRun start [] = Unit {0}
IsRun start (status_patched status done ∷ log) =
    Move (last_phase start log) (status_phase status) × IsRun start log
IsRun start (e ∷ log) = IsRun start log

-- The log is a run of the machine, and the status that the controller holds is at its end.
pub record Refines (start : Phase) (s : State) : Type 0 where
  pub coherent : IsCoherent (recovery_in s.status)
  pub run : IsRun start s.log
  pub last : last_phase start s.log ≡ status_phase s.status

-- The recovery status is at the phase `p` too.
pub record Synced (start p : Phase) (s : State) : Type 0 where
  pub refines : Refines start s
  pub coherent : IsCoherent s.rs
  pub current : phase_of s.rs ≡ p
  pub held : status_phase s.status ≡ p

quiet-run :
    (start : Phase) (e : Event) (log : Log)
    → is_quiet e ≡ true
    → IsRun start log
    → IsRun start (e ∷ log) × (last_phase start (e ∷ log) ≡ last_phase start log)
quiet-run start tick log q h = (h, refl)
quiet-run start (pod_deleted pod done) log q h = (h, refl)
quiet-run start (bootstrap_enabled i b done) log q h = (h, refl)
quiet-run start (bootstrap_disabled i done) log q h = (h, refl)
quiet-run start (replicas_patched n done) log q h = (h, refl)
quiet-run start (job_created job done) log q h = (h, refl)
quiet-run start (job_deleted job done) log q h = (h, refl)
quiet-run start (status_patched status done) log q h = cc

-- Writing a recovery status and reading it again.
stored : GaleraRecoveryStatus → GaleraRecoveryStatus
stored rs = deref (if is_zero rs then none else some rs) no_recovery_status

stored_lem :
    (rs : GaleraRecoveryStatus)
    → (is_bootstrapping (stored rs) ≡ is_bootstrapping rs)
      × (pods_restarted (stored rs) ≡ pods_restarted rs)
unfolding stored is_zero is_bootstrapping pods_restarted is_set
stored_lem rs = ground arith

stored-phase : (rs : GaleraRecoveryStatus) → phase_of (stored rs) ≡ phase_of rs
unfolding phase_of
stored-phase rs = let e = stored_lem rs in rw (e.0, e.1)

stored-IsCoherent : (rs : GaleraRecoveryStatus) → IsCoherent rs → IsCoherent (stored rs)
stored-IsCoherent rs h = λ r. let e = stored_lem rs in e.0 ∙ h (sym e.1 ∙ r)

Move-along : {p q p' q' : Phase} → p' ≡ p → q' ≡ q → Move p q → Move p' q'
Move-along {p} {q} {p'} {q'} e f m =
    subst (λ x. Move x q') (sym e) (subst (λ y. Move p y) (sym f) m)

-- The recovery status that the controller works on is not looked at.
pub Refines-rs :
    {start : Phase} (s : State) (rs : GaleraRecoveryStatus)
    → Refines start s
    → Refines start (record s { rs = rs })
Refines-rs s rs h = record { coherent = h.coherent; run = h.run; last = h.last }

module _ {start p : Phase} where
  pub Synced-event :
      (e : Event) (s : State)
      → IsRun start (e ∷ s.log)
      → last_phase start (e ∷ s.log) ≡ last_phase start s.log
      → Synced start p s
      → Synced start p (record_event s e)
  Synced-event e s run last h = record {
    refines = record { coherent = h.refines.coherent; run = run; last = last ∙ h.refines.last };
    coherent = h.coherent;
    current = h.current;
    held = h.held;
  }

  -- A write moves the machine to the phase of the recovery status.
  pub Synced-write :
      {q : Phase} (s : State) (rs : GaleraRecoveryStatus) (done : Bool)
      → Synced start p s
      → IsCoherent rs
      → phase_of rs ≡ q
      → Move p q
      → Synced start q (written (record s { rs = rs }) done)
  unfolding with_recovery stored
  Synced-write {q} s rs done h c e m =
      let new : phase_of (stored rs) ≡ q = stored-phase rs ∙ e in
      record {
        refines = record {
          coherent = stored-IsCoherent rs c;
          run = (Move-along (h.refines.last ∙ h.held) new m, h.refines.run);
          last = refl;
        };
        coherent = c;
        current = e;
        held = new;
      }

  pub Synced-Calm : Calm (Synced start p)
  unfolding set_state set_recovered phase_of is_bootstrapping pods_restarted
  Synced-Calm = record {
    logs = λ e s q h. let r = quiet-run start e s.log q h.refines.run in Synced-event e s r.0 r.1 h;
    states = λ pod g s h. record {
      refines = Refines-rs s (set_state s.rs pod g) h.refines;
      coherent = h.coherent;
      current = h.current;
      held = h.held;
    };
    recovers = λ pod b s h. record {
      refines = Refines-rs s (set_recovered s.rs pod b) h.refines;
      coherent = h.coherent;
      current = h.current;
      held = h.held;
    };
    writes = λ s done h. Synced-write s s.rs done h h.coherent h.current (stay p);
  }
