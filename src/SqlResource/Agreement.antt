-- ===== src/SqlResource/Agreement.antt =====
-- internal/controller/grant_controller.go: the privileges that the statements leave granted, and
-- those of the specification and of the status.
use suture_port_mariadb_oper.Prelude.{
  ◌≡◌, refl, ◌∙◌, sym, subst, Bool, true, false, not, ◌&&◌, ◌||◌, List, [], ◌∷◌, Option, none, some,
  Bytes, arith, bytes_eq_iff, bytes_eq_sound, bytes_eq, bytes_eq_refl, mem, ok, if◌then◌else◌,
}
use suture_port_mariadb_oper.Steps.{◌>>=◌, give, gets, run_if, resume}
use suture_port_mariadb_oper.Steps.Triples.{
  Triple, Triple-give, Triple-then, Triple-value, Triple-weaken,
}
use suture_port_mariadb_oper.Api.{deref}
use suture_port_mariadb_oper.SqlResource.Objects.{
  Privileges, Statement, create_database, drop_database, create_user, alter_user, drop_user, grant,
  revoke, Event, ran, patched, status_patched, Session, Server, record_event, record_sent, update,
  send,
}
use suture_port_mariadb_oper.SqlResource.Kinds.{Triple-exec, Triple-send}
use suture_port_mariadb_oper.SqlResource.Grants.{
  Grant, account_name, privileges_on, lists_eq, missing_from, is_current, privileges_to_revoke,
  with_current, revoke_listed, revoke_missing, grant_listed, save_current, reconcile_grant_of,
  reconcile_grant,
}

-- The statement is on the database and the table of the grant, and for its account.
abbrev pub is_on : Grant → Privileges → Bool
is_on g x =
    bytes_eq x.database g.database
    && bytes_eq x.table g.table
    && bytes_eq x.account_name (account_name g)

-- The privileges of a statement that succeeded, after those before: of the grant's target only.
abbrev pub after : Grant → Statement → Bytes → Bool → Bool
after g (grant x) p held = if is_on g x then mem p x.privileges || held else held
after g (revoke x) p held = if is_on g x then not (mem p x.privileges) && held else held
after g (create_database n c d) p held = held
after g (drop_database n) p held = held
after g (create_user a o) p held = held
after g (alter_user a o) p held = held
after g (drop_user a) p held = held

-- Whether the statements that succeeded leave the privilege granted to the account of the grant, on
-- its database and table.
unfoldable pub is_granted : Grant → List (Event Grant) → Bytes → Bool
is_granted g [] p = false
is_granted g (ran q true ∷ log) p = after g q p (is_granted g log p)
is_granted g (ran q false ∷ log) p = is_granted g log p
is_granted g (patched o b ∷ log) p = is_granted g log p
is_granted g (status_patched o b ∷ log) p = is_granted g log p

-- A statement of the grant is on its own target.
after-revoke :
    (g : Grant) (ps : List Bytes) (option : Bool) (p : Bytes) (held : Bool)
    → after g (revoke (privileges_on g ps option)) p held ≡ (not (mem p ps) && held)
after-revoke g ps option p held =
    rw (bytes_eq_refl g.database, bytes_eq_refl g.table, bytes_eq_refl (account_name g)) refl

after-grant :
    (g : Grant) (ps : List Bytes) (option : Bool) (p : Bytes) (held : Bool)
    → after g (grant (privileges_on g ps option)) p held ≡ (mem p ps || held)
after-grant g ps option p held =
    rw (bytes_eq_refl g.database, bytes_eq_refl g.table, bytes_eq_refl (account_name g)) refl

abbrev pub is_listed : Grant → Bytes → Bool
is_listed g p = mem p (deref g.current_privileges [])

mem-missing_from :
    (p : Bytes) (spec ps : List Bytes)
    → mem p (missing_from spec ps) ≡ (mem p ps && not (mem p spec))
unfolding mem missing_from
mem-missing_from p spec [] = refl
mem-missing_from p spec (x ∷ ps) = ground (arith, mem-missing_from p spec ps, bytes_eq_iff x p)

lists_eq_sound : (xs ys : List Bytes) → lists_eq xs ys ≡ true → xs ≡ ys
unfolding lists_eq
lists_eq_sound [] [] h = refl
lists_eq_sound [] (y ∷ ys) h = cc
lists_eq_sound (x ∷ xs) [] h = cc
lists_eq_sound (x ∷ xs) (y ∷ ys) h = ground (arith, bytes_eq_sound x y, lists_eq_sound xs ys)

-- Behind the revocation, what is granted is in the status and in the specification.
revoked_listed :
    (g : Grant) (p : Bytes)
    → (not (mem p (privileges_to_revoke g)) && is_listed g p)
      ≡ (is_listed g p && mem p g.privileges)
unfolding privileges_to_revoke is_current mem
revoked_listed g p = ground (
  arith,
  mem-missing_from p g.privileges (deref g.current_privileges []),
  lists_eq_sound (deref g.current_privileges []) g.privileges,
)

module _ (k : Server Grant) (g : Grant) where
  Known : (Bytes → Bool) → Session Grant → Type 0
  Known left s = (s.object ≡ g) × ((p : Bytes) → is_granted g s.log p ≡ left p)

  kept_privileges : Bytes → Bool
  kept_privileges p = is_listed g p && mem p g.privileges

  Triple-revoke_listed :
      (ps : List Bytes)
      → ps ≡ privileges_to_revoke g
      → Triple
          (Known (is_listed g))
          (revoke_listed k g ps)
          (λ _. Known kept_privileges)
          (λ _. Unit {0})
  unfolding revoke_listed Known record_event is_granted kept_privileges mem
  Triple-revoke_listed [] e = Triple-give tt (λ s h. (
    h.0,
    λ p.
        let both = revoked_listed g p in
        rw (h.1 p) (
          subst (λ ps. (not (mem p ps) && is_listed g p) ≡ (is_listed g p && mem p g.privileges))
            (sym e) both),
  ))
  Triple-revoke_listed (q ∷ ps) e =
      Triple-exec k (revoke (privileges_on g (q ∷ ps) false))
        (λ s h. (
          h.0,
          λ p.
              after-revoke g (q ∷ ps) false p (is_granted g s.log p)
              ∙ rw (h.1 p) (
                  subst
                    (λ ps.
                      (not (mem p ps) && is_listed g p) ≡ (is_listed g p && mem p g.privileges))
                    (sym e) (revoked_listed g p)),
        ))
        (λ s h. tt)

  Triple-revoke_missing :
      (c : Option (List Bytes))
      → g.current_privileges ≡ c
      → Triple
          (Known (is_listed g))
          (revoke_missing k g c)
          (λ _. Known kept_privileges)
          (λ _. Unit {0})
  unfolding revoke_missing Known kept_privileges mem
  Triple-revoke_missing none e = Triple-give tt (λ s h. (
    h.0,
    λ p.
        h.1 p
        ∙ subst (λ c. mem p (deref c []) ≡ (mem p (deref c []) && mem p g.privileges)) (sym e) refl,
  ))
  Triple-revoke_missing (some c) e = Triple-revoke_listed (privileges_to_revoke g) refl

  Triple-grant_listed :
      Triple
        (Known kept_privileges)
        (grant_listed k g)
        (λ _. Known (λ p. mem p g.privileges))
        (λ _. Unit {0})
  unfolding grant_listed Known record_event is_granted kept_privileges
  Triple-grant_listed =
      Triple-exec k (grant (privileges_on g g.privileges g.grant_option))
        (λ s h. (
          h.0,
          λ p.
              let known = h.1 p in
              after-grant g g.privileges g.grant_option p (is_granted g s.log p)
              ∙ ground (arith, known),
        ))
        (λ s h. tt)

  Saved : Session Grant → Type 0
  Saved s =
      (p : Bytes)
      → (is_granted g s.log p ≡ mem p g.privileges) × (is_listed s.object p ≡ mem p g.privileges)

  Triple-save_current :
      Triple (Known (λ p. mem p g.privileges)) (save_current k g) (λ _. Saved) (λ _. Unit {0})
  unfolding save_current run_if Saved Known is_current record_sent record_event update with_current
      is_granted
  Triple-save_current = go (is_current g) refl
    where
      go :
          (b : Bool)
          → is_current g ≡ b
          → Triple
              (Known (λ p. mem p g.privileges))
              (if not b then send k status_patched with_current else give tt)
              (λ _. Saved)
              (λ _. Unit {0})
      go true e = Triple-give tt (λ s h p.
          (h.1 p, rw (h.0, lists_eq_sound (deref g.current_privileges []) g.privileges e) refl))
      go false e =
          Triple-weaken (send k status_patched with_current) (λ s h. h) (λ a s h. h) (λ s h. tt)
            (Triple-send k status_patched with_current (λ b s h p. (h.1 p, rw h.0 refl)))

-- From a status that lists what is granted, a reconciliation of a Grant that succeeds leaves
-- exactly the privileges of the specification granted to its account, on its database and table,
-- and the status lists exactly those again. What is granted is what the statements that succeeded
-- say on that database and table, for that account.
pub reconcile_grant-Agrees :
    (k : Server Grant) (s : Session Grant)
    → ((p : Bytes) → is_granted s.object s.log p ≡ is_listed s.object p)
    → (reconcile_grant k s).0 ≡ ok tt
    → (p : Bytes)
    → (is_granted s.object (reconcile_grant k s).1.log p ≡ mem p s.object.privileges)
      × (is_listed (reconcile_grant k s).1.object p ≡ mem p s.object.privileges)
unfolding reconcile_grant reconcile_grant_of ◌>>=◌ gets resume Known Saved
reconcile_grant-Agrees k s agrees e =
    Triple-value (reconcile_grant_of k g) run s (refl, agrees) tt e
  where
    g : Grant
    g = s.object

    run : Triple (Known k g (is_listed g)) (reconcile_grant_of k g) (λ _. Saved k g) (λ _. Unit {0})
    run =
        Triple-then (Known k g (kept_privileges k g)) _ _
          (Triple-revoke_missing k g g.current_privileges refl)
          (Triple-then (Known k g (λ p. mem p g.privileges)) _ _ (Triple-grant_listed k g)
            (Triple-save_current k g))
