-- ===== src/SqlResource/Kinds.antt =====
-- internal/controller/{database,user,grant}_controller{,_finalizer}.go: the three kinds keep the
-- promises of `CleansUp`.
pub mod Laws
use suture_port_mariadb_oper.Prelude.{
  ◌≡◌, refl, sym, subst, ◌∙◌, ap, ◌⊎◌, inl, inr, Bool, true, false, not, List, [], ◌∷◌, Option,
  none, some, Bytes, Result, ok, err, if◌then◌else◌,
}
use suture_port_mariadb_oper.Steps.{
  Step, ◌>>=◌, ◌>>◌, give, gets, fail, ask, lift, run_if, require, resume, modify,
}
use suture_port_mariadb_oper.Steps.Keeps.{
  Keeps, keeps_rules, Keeps-bind, Keeps-gets, Keeps-then, Keeps-give, Keeps-modify, Keeps-require,
  Keeps-run_if, Keeps-fail,
}
use suture_port_mariadb_oper.Steps.Triples.{Triple, Holds, Triple-state}
use suture_port_mariadb_oper.Conditions.Patchers.{Patcher}
use suture_port_mariadb_oper.SqlResource.{SqlError, statement_failed, patch_failed}
use suture_port_mariadb_oper.SqlResource.Objects.{
  Statement, drop_database, drop_user, revoke, Event, ran, patched, status_patched, Session, Action,
  Server, ControllerUtil, Kind, update, record_event, record_sent, exec, send, patch_conditions,
  has_finalizer, put_name, take_name,
}
use suture_port_mariadb_oper.SqlResource.Cleaning.{CleansUp}
use suture_port_mariadb_oper.SqlResource.Databases.{
  Database, database_name_or_default, database_kind, reconcile_database, drop_named_database,
  database_reconciler, database_finalizer,
}

-- A statement that has succeeded.
pub data Ran {O : Type 0} (q : Statement) : List (Event O) → Type 0 where
  newest : {log : List (Event O)} → Ran q (ran q true ∷ log)
  older : {e : Event O} {log : List (Event O)} → Ran q log → Ran q (e ∷ log)

module _ {O : Type 0} (k : Server O) where
  -- What holds of the object and stays when the log grows.
  pub Keeps-exec :
      {I : Session O → Type 0} (q : Statement)
      → ((e : Event O) (s : Session O) → I s → I (record_event e s))
      → Keeps I (exec k q)
  unfolding exec
  Keeps-exec q grows = Keeps-bind (gets (λ s. k.runs s.log q)) _ (Keeps-gets _) (λ b.
      Keeps-then _ _ (Keeps-modify (record_event (ran q b)) (grows (ran q b))) (Keeps-require b _))

  pub Keeps-send :
      {I : Session O → Type 0} (event : O → Bool → Event O) (f : O → O)
      → ((e : Event O) (s : Session O) → I s → I (record_event e s))
      → ((s : Session O) → I s → I (update f s))
      → Keeps I (send k event f)
  unfolding send record_sent
  Keeps-send event f grows updated = Keeps-then _ _ (Keeps-modify (update f) updated) (
      Keeps-bind (gets (λ s. k.patches s.log s.object)) _ (Keeps-gets _) (λ b.
        Keeps-then _ _ (Keeps-modify (record_sent event b) (λ s. grows (event s.object b) s))
          (Keeps-require b _)))

  pub Triple-exec :
      {P Q R : Session O → Type 0} (q : Statement)
      → ((s : Session O) → P s → Q (record_event (ran q true) s))
      → ((s : Session O) → P s → R (record_event (ran q false) s))
      → Triple P (exec k q) (λ _. Q) R
  unfolding exec ◌>>=◌ ◌>>◌ resume gets modify require give fail
  Triple-exec {P} {Q} {R} q succeeds fails = record { at = λ s h. go s h (k.runs s.log q) }
    where
      go :
          (s : Session O)
          → P s
          → (b : Bool)
          → Holds
              (λ _. Q)
              R
              ((modify (record_event (ran q b)) >> require b statement_failed) s).0
              ((modify (record_event (ran q b)) >> require b statement_failed) s).1
      go s h true = succeeds s h
      go s h false = fails s h

  pub Triple-send :
      {P Q : Session O → Type 0} (event : O → Bool → Event O) (f : O → O)
      → ((b : Bool) (s : Session O) → P s → Q (record_sent event b (update f s)))
      → Triple P (send k event f) (λ _. Q) Q
  unfolding send ◌>>=◌ ◌>>◌ resume gets modify require give fail update
  Triple-send {P} {Q} event f sent = record { at = λ s h. go s h (k.patches s.log (f s.object)) }
    where
      go :
          (s : Session O)
          → P s
          → (b : Bool)
          → Holds
              (λ _. Q)
              Q
              ((modify (record_sent event b) >> require b patch_failed) (update f s)).0
              ((modify (record_sent event b) >> require b patch_failed) (update f s)).1
      go s h true = sent true s h
      go s h false = sent false s h

module _ {O : Type 0} (k : Server O) (kind : Kind O) (util : ControllerUtil) where
  abbrev pub Kept : Session O → Type 0
  Kept s = has_finalizer k kind util s ≡ true

  pub Kept-record_event : (e : Event O) (s : Session O) → Kept s → Kept (record_event e s)
  unfolding has_finalizer record_event
  Kept-record_event e s h = h

  pub Keeps-patch_conditions : (p : Patcher) → Keeps Kept (patch_conditions k kind p)
  unfolding patch_conditions has_finalizer update
  Keeps-patch_conditions p = Keeps-send k status_patched _ Kept-record_event (λ s h.
      rw
        (
          has_finalizer,
          update,
          kind.finalizers-with_conditions s.object (p (kind.conditions s.object)),
        )
        h)

  pub Keeps-put_name : Keeps Kept (put_name k kind util)
  unfolding put_name has_finalizer update
  Keeps-put_name = Keeps-bind (gets (has_finalizer k kind util)) _ (Keeps-gets _) (λ held.
      Keeps-run_if (not held) _ (
        Keeps-send k patched _ Kept-record_event (λ s h.
          rw
            (
              has_finalizer,
              update,
              kind.finalizers-with_finalizers s.object
                  (util.add_name (kind.finalizers s.object) kind.finalizer_name),
            )
            (util.contains-add (kind.finalizers s.object) kind.finalizer_name))))

  pub Keeps-take_name :
      {I : Session O → Type 0}
      → ((e : Event O) (s : Session O) → I s → I (record_event e s))
      → ((fs : List Bytes) (s : Session O) → I s → I (update (λ o. kind.with_finalizers o fs) s))
      → Keeps I (take_name k kind util)
  unfolding take_name update
  Keeps-take_name grows stripped =
      Keeps-bind (gets (has_finalizer k kind util)) _ (Keeps-gets _) (λ held. Keeps-run_if held _ (
        Keeps-send k patched _ grows
          (λ s h. stripped (util.remove_name (kind.finalizers s.object) kind.finalizer_name) s h)))

  -- A clean-up of one statement, which the object names.
  pub Triple-clean_up_exec :
      (q : O → Statement)
      → Triple Kept (λ s. exec k (q s.object) s) (λ _ s. Kept s × Ran (q s.object) s.log) Kept
  unfolding has_finalizer record_event
  Triple-clean_up_exec q = record {
    at = λ s h.
        (Triple-exec k {P = Same s} {Q = λ s'. Kept s' × Ran (q s'.object) s'.log} {R = Kept}
            (q s.object)
            (λ s' p.
              (p.1, subst (λ o. Ran (q o) (ran (q s.object) true ∷ s'.log)) (sym p.0) newest))
            (λ s' p. p.1)).at
          s (refl, h);
  }
    where
      Same : Session O → Session O → Type 0
      Same s s' = (s'.object ≡ s.object) × Kept s'

  pub conditions-patch_conditions :
      (p : Patcher) (s : Session O)
      → kind.conditions (patch_conditions k kind p s).1.object ≡ p (kind.conditions s.object)
  unfolding patch_conditions update record_sent record_event
  conditions-patch_conditions p s =
      Triple-state (patch_conditions k kind p)
        (Triple-send k {P = λ s'. s'.object ≡ s.object} {Q = Done} status_patched _ (λ b s' e.
          rw (e, kind.conditions-with_conditions s.object (p (kind.conditions s.object))) refl))
        s refl Done (λ a s' h. h) (λ s' h. h)
    where
      Done : Session O → Type 0
      Done s' = kind.conditions s'.object ≡ p (kind.conditions s.object)
