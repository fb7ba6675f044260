-- ===== src/Steps/Keeps.antt =====
-- What a step keeps true of the state, whether it succeeds or not: a rule for each way to build one.
use suture_port_mariadb_oper.Prelude.{Bool, true, false, List, [], ◌∷◌, Result, ok, err}
use suture_port_mariadb_oper.Steps.{
  Step, resume, ◌>>=◌, ◌>>◌, give, fail, lift, gets, ask, modify, wrap, run_if, require, deferred,
  for_each, first_error, both, run_all, again,
}

pub record Keeps {S E A : Type 0} (I : S → Type 0) (m : Step S E A) : Type 0 where
  pub at : (s : S) → I s → I (m s).1

module _ {S E A : Type 0} {I : S → Type 0} where
  pub Keeps-give : (a : A) → Keeps {E = E} I (give a)
  unfolding give
  Keeps-give a = record { at = λ s h. h }

  pub Keeps-fail : (e : E) → Keeps {A = A} I (fail e)
  unfolding fail
  Keeps-fail e = record { at = λ s h. h }

  pub Keeps-lift : (r : Result E A) → Keeps I (lift r)
  unfolding lift
  Keeps-lift r = record { at = λ s h. h }

  pub Keeps-gets : (f : S → A) → Keeps {E = E} I (gets f)
  unfolding gets
  Keeps-gets f = record { at = λ s h. h }

  pub Keeps-ask : (f : S → Result E A) → Keeps I (ask f)
  unfolding ask
  Keeps-ask f = record { at = λ s h. h }

  pub Keeps-wrap : (e : E) (m : Step S E A) → Keeps I m → Keeps I (wrap e m)
  unfolding wrap
  Keeps-wrap e m h = record { at = h.at }

  pub Keeps-deferred :
      (d : Step S E (Unit {0})) (m : Step S E A) → Keeps I d → Keeps I m → Keeps I (deferred d m)
  unfolding deferred
  Keeps-deferred d m hd hm = record { at = λ s h. hd.at (m s).1 (hm.at s h) }

module _ {S E A B : Type 0} {I : S → Type 0} where
  Keeps-resume :
      (r : Result E A) (k : A → Step S E B) (s : S)
      → ((a : A) → Keeps I (k a))
      → I s
      → I (resume r s k).1
  unfolding resume
  Keeps-resume (ok a) k s hk h = (hk a).at s h
  Keeps-resume (err e) k s hk h = h

  pub Keeps-bind :
      (m : Step S E A) (k : A → Step S E B)
      → Keeps I m
      → ((a : A) → Keeps I (k a))
      → Keeps I (m >>= k)
  unfolding ◌>>=◌
  Keeps-bind m k hm hk = record { at = λ s h. Keeps-resume (m s).0 k (m s).1 hk (hm.at s h) }

Keeps-first_error :
    {S E : Type 0} (I : S → Type 0) (r : Result E (Unit {0})) (p : Result E (Unit {0}) × S)
    → I p.1
    → I (first_error r p).1
unfolding first_error
Keeps-first_error I (ok _) p h = h
Keeps-first_error I (err e) p h = h

module _ {S E : Type 0} {I : S → Type 0} where
  pub Keeps-then :
      {B : Type 0} (m : Step S E (Unit {0})) (n : Step S E B)
      → Keeps I m
      → Keeps I n
      → Keeps I (m >> n)
  unfolding ◌>>◌
  Keeps-then m n hm hn = Keeps-bind m (λ _. n) hm (λ _. hn)

  pub Keeps-modify : (f : S → S) → ((s : S) → I s → I (f s)) → Keeps {E = E} I (modify f)
  unfolding modify
  Keeps-modify f h = record { at = h }

  pub Keeps-run_if : (b : Bool) (m : Step S E (Unit {0})) → Keeps I m → Keeps I (run_if b m)
  unfolding run_if
  Keeps-run_if true m h = h
  Keeps-run_if false m h = Keeps-give tt

  pub Keeps-require : (b : Bool) (e : E) → Keeps {S = S} I (require b e)
  unfolding require
  Keeps-require true e = Keeps-give tt
  Keeps-require false e = Keeps-fail e

  pub Keeps-for_each :
      {A : Type 0} (body : A → Step S E (Unit {0})) (xs : List A)
      → ((x : A) → Keeps I (body x))
      → Keeps I (for_each body xs)
  unfolding for_each
  Keeps-for_each body [] h = Keeps-give tt
  Keeps-for_each body (x ∷ xs) h = Keeps-then (body x) _ (h x) (Keeps-for_each body xs h)

  pub Keeps-both : (m n : Step S E (Unit {0})) → Keeps I m → Keeps I n → Keeps I (both m n)
  unfolding both
  Keeps-both m n hm hn = record {
    at = λ s h. Keeps-first_error I (m s).0 (n (m s).1) (hn.at (m s).1 (hm.at s h));
  }

  pub Keeps-run_all :
      {A : Type 0} (body : A → Step S E (Unit {0})) (xs : List A)
      → ((x : A) → Keeps I (body x))
      → Keeps I (run_all body xs)
  unfolding run_all
  Keeps-run_all body [] h = Keeps-give tt
  Keeps-run_all body (x ∷ xs) h = Keeps-both (body x) _ (h x) (Keeps-run_all body xs h)

  pub Keeps-again :
      (r : Result E (Unit {0})) (next : Step S E (Unit {0})) → Keeps I next → Keeps I (again r next)
  unfolding again
  Keeps-again (ok _) next h = record { at = λ s hs. hs }
  Keeps-again (err e) next h = h

pub ruleset keeps_rules = (
  Keeps-give, Keeps-fail, Keeps-lift, Keeps-gets, Keeps-ask, Keeps-wrap, Keeps-deferred, Keeps-bind,
  Keeps-then, Keeps-run_if, Keeps-require, Keeps-for_each, Keeps-both, Keeps-run_all,
)
