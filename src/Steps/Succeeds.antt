-- ===== src/Steps/Succeeds.antt =====
-- Steps that return a value from every state: a rule for each way to build one.
use suture_port_mariadb_oper.Prelude.{
  ◌≡◌, refl, subst, Bool, true, false, List, [], ◌∷◌, Option, none, some, Result, ok, err, All,
}
use suture_port_mariadb_oper.Steps.{
  Step, resume, ◌>>=◌, ◌>>◌, give, lift, gets, modify, wrap, wrap_error, to_result, run_if, require,
  for_each,
}

abbrev pub IsOk : {E A : Type 0} → Result E A → Type 0
IsOk {E} {A} r = (a : A) × (r ≡ ok a)

pub IsOk-wrap_error : {E F A : Type 0} (f : F) (r : Result E A) → IsOk r → IsOk (wrap_error f r)
unfolding wrap_error
IsOk-wrap_error f (ok a) h = (a, refl)
IsOk-wrap_error f (err x) h = cc (h.1)

pub record Succeeds {S E A : Type 0} (m : Step S E A) : Type 0 where
  pub at : (s : S) → IsOk (m s).0

module _ {S E A : Type 0} where
  pub Succeeds-give : (a : A) → Succeeds {S = S} {E = E} (give a)
  unfolding give
  Succeeds-give a = record { at = λ s. (a, refl) }

  pub Succeeds-lift : (r : Result E A) → IsOk r → Succeeds {S = S} (lift r)
  unfolding lift
  Succeeds-lift r h = record { at = λ s. h }

  pub Succeeds-gets : (f : S → A) → Succeeds {E = E} (gets f)
  unfolding gets
  Succeeds-gets f = record { at = λ s. (f s, refl) }

  pub Succeeds-wrap : (e : E) (m : Step S E A) → Succeeds m → Succeeds (wrap e m)
  unfolding wrap
  Succeeds-wrap e m h = record { at = λ s. IsOk-wrap_error e (m s).0 (h.at s) }

pub IsOk-to_result : {E : Type 0} (o : Option E) → o ≡ none → IsOk (to_result o)
unfolding to_result
IsOk-to_result none e = (tt, refl)
IsOk-to_result (some x) e = cc

module _ {S E A B : Type 0} where
  -- The rest may use what the first step returns.
  pub Succeeds-bind_of :
      (P : A → Type 0) (m : Step S E A) (k : A → Step S E B)
      → ((s : S) → (a : A) × ((m s).0 ≡ ok a) × P a)
      → ((a : A) → P a → Succeeds (k a))
      → Succeeds (m >>= k)
  unfolding ◌>>=◌ resume
  Succeeds-bind_of P m k hm hk = record { at = λ s. go (m s).0 (m s).1 (hm s) }
    where
      go : (r : Result E A) (s : S) → (a : A) × (r ≡ ok a) × P a → IsOk (resume r s k).0
      go (ok a) s h = (hk a (subst P (cc (h.1)) h.2)).at s
      go (err e) s h = cc (h.1)

  pub Succeeds-bind :
      (m : Step S E A) (k : A → Step S E B)
      → Succeeds m
      → ((a : A) → Succeeds (k a))
      → Succeeds (m >>= k)
  Succeeds-bind m k hm hk =
      Succeeds-bind_of (λ a. Unit {0}) m k (λ s. ((hm.at s).0, (hm.at s).1, tt)) (λ a _. hk a)

module _ {S E : Type 0} where
  pub Succeeds-then :
      {B : Type 0} (m : Step S E (Unit {0})) (n : Step S E B)
      → Succeeds m
      → Succeeds n
      → Succeeds (m >> n)
  unfolding ◌>>◌
  Succeeds-then m n hm hn = Succeeds-bind m (λ _. n) hm (λ _. hn)

  pub Succeeds-modify : (f : S → S) → Succeeds {E = E} (modify f)
  unfolding modify
  Succeeds-modify f = record { at = λ s. (tt, refl) }

  pub Succeeds-run_if : (b : Bool) (m : Step S E (Unit {0})) → Succeeds m → Succeeds (run_if b m)
  unfolding run_if
  Succeeds-run_if true m h = h
  Succeeds-run_if false m h = Succeeds-give tt

  pub Succeeds-require : (b : Bool) (e : E) → b ≡ true → Succeeds {S = S} (require b e)
  unfolding require
  Succeeds-require true e h = Succeeds-give tt
  Succeeds-require false e h = cc

  pub Succeeds-for_each :
      {A : Type 0} (P : A → Type 0) (body : A → Step S E (Unit {0})) (xs : List A)
      → ((x : A) → P x → Succeeds (body x))
      → All P xs
      → Succeeds (for_each body xs)
  unfolding for_each
  Succeeds-for_each P body [] h a = Succeeds-give tt
  Succeeds-for_each P body (x ∷ xs) h a =
      Succeeds-then (body x) _ (h x a.0) (Succeeds-for_each P body xs h a.1)

pub ruleset succeeds_rules = (
  Succeeds-give, Succeeds-lift, Succeeds-gets, Succeeds-wrap, Succeeds-bind, Succeeds-then,
  Succeeds-modify, Succeeds-run_if,
)
