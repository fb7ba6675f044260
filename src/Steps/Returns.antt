-- ===== src/Steps/Returns.antt =====
-- What holds of every value that a step returns, whatever the state.
use suture_port_mariadb_oper.Prelude.{◌≡◌, refl, Bool, true, false, Result, ok, err}
use suture_port_mariadb_oper.Steps.{Step, resume, ◌>>=◌, ◌>>◌, give, lift, require}
use suture_port_mariadb_oper.Steps.Keeps.{Keeps}

abbrev pub Meets : {E A : Type 0} → (A → Type 0) → Result E A → Type 0
Meets P (ok a) = P a
Meets P (err e) = Unit {0}

pub record Returns {S E A : Type 0} (P : A → Type 0) (m : Step S E A) : Type 0 where
  pub at : (s : S) → Meets P (m s).0

module _ {S E A : Type 0} {P : A → Type 0} where
  pub Returns-give : (a : A) → P a → Returns {S = S} {E = E} P (give a)
  unfolding give
  Returns-give a h = record { at = λ s. h }

  pub Returns-lift : (r : Result E A) → Meets P r → Returns {S = S} P (lift r)
  unfolding lift
  Returns-lift r h = record { at = λ s. h }

module _ {S E A B : Type 0} {Q : B → Type 0} where
  -- The rest may use what holds of the value of the first step.
  pub Returns-bind :
      (P : A → Type 0) (m : Step S E A) (k : A → Step S E B)
      → Returns P m
      → ((a : A) → P a → Returns Q (k a))
      → Returns Q (m >>= k)
  unfolding ◌>>=◌ resume
  Returns-bind P m k hm hk = record { at = λ s. go (m s).0 (m s).1 (hm.at s) }
    where
      go : (r : Result E A) (s : S) → Meets P r → Meets Q (resume r s k).0
      go (ok a) s h = (hk a h).at s
      go (err e) s h = tt

module _ {S E B : Type 0} {Q : B → Type 0} where
  pub Returns-require :
      (b : Bool) (e : E) (n : Step S E B) → (b ≡ true → Returns Q n) → Returns Q (require b e >> n)
  unfolding ◌>>◌ ◌>>=◌ resume require
  Returns-require true e n h = record { at = (h refl).at }
  Returns-require false e n h = record { at = λ s. tt }

  pub Returns-then : (m : Step S E (Unit {0})) (n : Step S E B) → Returns Q n → Returns Q (m >> n)
  unfolding ◌>>◌ ◌>>=◌ resume
  Returns-then m n h = record { at = λ s. go (m s).0 (m s).1 }
    where
      go : (r : Result E (Unit {0})) (s : S) → Meets Q (resume r s (λ _. n)).0
      go (ok _) s = h.at s
      go (err e) s = tt

module _ {S E A B : Type 0} {I : S → Type 0} where
  pub Keeps-bind_of :
      (P : A → Type 0) (m : Step S E A) (k : A → Step S E B)
      → Keeps I m
      → Returns P m
      → ((a : A) → P a → Keeps I (k a))
      → Keeps I (m >>= k)
  unfolding ◌>>=◌ resume
  Keeps-bind_of P m k hm r hk = record { at = λ s h. go (m s).0 (m s).1 (r.at s) (hm.at s h) }
    where
      go : (r : Result E A) (s : S) → Meets P r → I s → I (resume r s k).1
      go (ok a) s p h = (hk a p).at s h
      go (err e) s p h = h
