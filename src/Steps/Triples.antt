-- ===== src/Steps/Triples.antt =====
-- What holds behind a step that succeeds, and behind one that fails.
use suture_port_mariadb_oper.Prelude.{◌≡◌, sym, subst, Result, ok, err}
use suture_port_mariadb_oper.Steps.{Step, resume, ◌>>=◌, ◌>>◌, gets, give, wrap, wrap_error}
use suture_port_mariadb_oper.Steps.Keeps.{Keeps}

abbrev pub Holds : {S E A : Type 0} → (A → S → Type 0) → (S → Type 0) → Result E A → S → Type 0
Holds Q R (ok a) s = Q a s
Holds Q R (err e) s = R s

-- From a state with `P`: `Q` behind a success, and `R` behind an error.
pub record Triple {S E A : Type 0} (P : S → Type 0) (m : Step S E A) (Q : A → S → Type 0)
    (R : S → Type 0) : Type 0 where
  pub at : (s : S) → P s → Holds Q R (m s).0 (m s).1

module _ {S E A : Type 0} {P : S → Type 0} {Q : A → S → Type 0} {R : S → Type 0} where
  pub Triple-weaken :
      {P' : S → Type 0} {Q' : A → S → Type 0} {R' : S → Type 0} (m : Step S E A)
      → ((s : S) → P' s → P s)
      → ((a : A) (s : S) → Q a s → Q' a s)
      → ((s : S) → R s → R' s)
      → Triple P m Q R
      → Triple P' m Q' R'
  Triple-weaken {P'} {Q'} {R'} m hp hq hr t = record {
    at = λ s h. go (m s).0 (m s).1 (t.at s (hp s h));
  }
    where
      go : (r : Result E A) (s : S) → Holds Q R r s → Holds Q' R' r s
      go (ok a) s h = hq a s h
      go (err e) s h = hr s h

  pub Triple-wrap : (e : E) (m : Step S E A) → Triple P m Q R → Triple P (wrap e m) Q R
  unfolding wrap wrap_error
  Triple-wrap e m t = record { at = λ s h. go (m s).0 (m s).1 (t.at s h) }
    where
      go : (r : Result E A) (s : S) → Holds Q R r s → Holds Q R (wrap_error e r) s
      go (ok a) s h = h
      go (err x) s h = h

  pub Triple-give : (a : A) → ((s : S) → P s → Q a s) → Triple {E = E} P (give a) Q R
  unfolding give
  Triple-give a h = record { at = h }

-- What holds of the state, whatever the step returns.
pub Triple-always :
    {S E A : Type 0} {P : S → Type 0} {Q : S → Type 0} (m : Step S E A)
    → ((s : S) → P s → Q (m s).1)
    → Triple P m (λ _. Q) Q
Triple-always {S} {E} {A} {P} {Q} m h = record { at = λ s hs. go (m s).0 (m s).1 (h s hs) }
  where
    go : (r : Result E A) (s : S) → Q s → Holds (λ _. Q) Q r s
    go (ok a) s h = h
    go (err e) s h = h

pub Triple-keeps :
    {S E A : Type 0} {I : S → Type 0} (m : Step S E A) → Keeps I m → Triple I m (λ _. I) I
Triple-keeps m k = Triple-always m k.at

module _ {S E A B : Type 0} {P : S → Type 0} {R : S → Type 0} where
  pub Triple-bind :
      {Q : B → S → Type 0} (M : A → S → Type 0) (m : Step S E A) (k : A → Step S E B)
      → Triple P m M R
      → ((a : A) → Triple (M a) (k a) Q R)
      → Triple P (m >>= k) Q R
  unfolding ◌>>=◌ resume
  Triple-bind {Q} M m k hm hk = record { at = λ s h. go (m s).0 (m s).1 (hm.at s h) }
    where
      go : (r : Result E A) (s : S) → Holds M R r s → Holds Q R (resume r s k).0 (resume r s k).1
      go (ok a) s h = (hk a).at s h
      go (err e) s h = h

module _ {S E A B : Type 0} {I : S → Type 0} {Q : B → S → Type 0} {R : S → Type 0} where
  -- A step that keeps `I`, and the rest from `I` on.
  pub Triple-kept :
      (m : Step S E A) (k : A → Step S E B)
      → Keeps I m
      → ((s : S) → I s → R s)
      → ((a : A) → Triple I (k a) Q R)
      → Triple I (m >>= k) Q R
  Triple-kept m k hm hr hk =
      Triple-bind (λ _. I) m k (Triple-weaken m (λ s h. h) (λ a s h. h) hr (Triple-keeps m hm)) hk

module _ {S E B : Type 0} {P : S → Type 0} {Q : B → S → Type 0} {R : S → Type 0} where
  -- A value that is read from the state, when it is known.
  pub Triple-gets :
      {A : Type 0} (f : S → A) (k : A → Step S E B) (a : A)
      → ((s : S) → P s → f s ≡ a)
      → Triple P (k a) Q R
      → Triple P (gets f >>= k) Q R
  unfolding ◌>>=◌ resume gets
  Triple-gets f k a h t = record {
    at = λ s hs. subst (λ x. Holds Q R (k x s).0 (k x s).1) (sym (h s hs)) (t.at s hs);
  }

  pub Triple-then :
      (M : S → Type 0) (m : Step S E (Unit {0})) (n : Step S E B)
      → Triple P m (λ _. M) R
      → Triple M n Q R
      → Triple P (m >> n) Q R
  unfolding ◌>>◌
  Triple-then M m n hm hn = Triple-bind (λ _. M) m (λ _. n) hm (λ _. hn)

pub Triple-exists :
    {S E A X : Type 0} {P : X → S → Type 0} {Q : A → S → Type 0} {R : S → Type 0} (m : Step S E A)
    → ((x : X) → Triple (P x) m Q R)
    → Triple (λ s. (x : X) × P x s) m Q R
Triple-exists m t = record { at = λ s h. (t h.0).at s h.1 }

module _ {S E A : Type 0} {P : S → Type 0} {Q : A → S → Type 0} {R : S → Type 0} (m : Step S E A)
    (t : Triple P m Q R) (s : S) (h : P s) where
  -- What holds behind a success and behind an error holds behind the step.
  pub Triple-state :
      (T : S → Type 0) → ((a : A) (s' : S) → Q a s' → T s') → ((s' : S) → R s' → T s') → T (m s).1
  Triple-state T f g = go (m s).0 (m s).1 (t.at s h)
    where
      go : (r : Result E A) (s' : S) → Holds Q R r s' → T s'
      go (ok a) s' hs = f a s' hs
      go (err e) s' hs = g s' hs

  pub Triple-value : (a : A) → (m s).0 ≡ ok a → Q a (m s).1
  Triple-value a e = subst (λ r. Holds Q R r (m s).1) e (t.at s h)
