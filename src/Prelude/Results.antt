-- ===== src/Prelude/Results.antt =====
-- The result of a function that may fail: Go's pair of a value and an `error`.
use mathlib.Core.Path.{◌≡◌, refl, subst}
use mathlib.Core.Bool.{Bool, true, false}
use mathlib.Core.Option.{Option, none, some}
use suture_port_mariadb_oper.Prelude.Tests.{if◌then◌else◌}

pub data Result {ℓ} (E : Type 0) (A : Type ℓ) : Type ℓ where
  ok : A → Result E A
  err : E → Result E A

infixl 5 ◌>>=◌ ◌>>◌
abbrev pub ◌>>=◌ {ℓ κ} :
    {E : Type 0} {A : Type ℓ} {B : Type κ} → Result E A → (A → Result E B) → Result E B
ok a >>= f = f a
err e >>= f = err e

abbrev pub ◌>>◌ {ℓ} : {E : Type 0} {B : Type ℓ} → Result E (Unit {0}) → Result E B → Result E B
m >> k = m >>= λ _. k

-- `if bad { return err }`.
abbrev pub fail_if : {E : Type 0} → Bool → E → Result E (Unit {0})
fail_if true e = err e
fail_if false e = ok tt

-- A missing value is the error `e`.
abbrev pub or_error {ℓ} : {E : Type 0} {A : Type ℓ} → Option A → E → Result E A
or_error none e = err e
or_error (some a) e = ok a

-- Every value that is returned satisfies `P`.
abbrev pub Ensures : {E A : Type 0} → (A → Type 0) → Result E A → Type 0
Ensures P (ok a) = P a
Ensures P (err e) = Unit {0}

module _ {E A : Type 0} (P : A → Type 0) where
  pub ensures_ok : (r : Result E A) (a : A) → Ensures P r → r ≡ ok a → P a
  ensures_ok r a h e = go a (subst (Ensures P) e h)
    where
      go : (b : A) → Ensures {E = E} P (ok b) → P b
      go b k = k

  pub Ensures-if :
      (b : Bool) (x y : Result E A)
      → (b ≡ true → Ensures P x)
      → (b ≡ false → Ensures P y)
      → Ensures P (if b then x else y)
  Ensures-if true x y h k = h refl
  Ensures-if false x y h k = k refl

  pub Ensures-fail_if :
      (b : Bool) (e : E) (r : Result E A) → (b ≡ false → Ensures P r) → Ensures P (fail_if b e >> r)
  Ensures-fail_if true e r h = tt
  Ensures-fail_if false e r h = h refl

  pub Ensures-or_error :
      (o : Option A) (e : E) → ((a : A) → o ≡ some a → P a) → Ensures P (or_error o e)
  Ensures-or_error none e h = tt
  Ensures-or_error (some a) e h = h a refl

  pub Ensures-bind :
      {B : Type 0} (Q : B → Type 0) (m : Result E B) (f : B → Result E A)
      → Ensures Q m
      → ((b : B) → Q b → Ensures P (f b))
      → Ensures P (m >>= f)
  Ensures-bind Q (ok b) f h k = k b h
  Ensures-bind Q (err e) f h k = tt

pub Ensures-any : {E A : Type 0} (r : Result E A) → Ensures (λ _. Unit {0}) r
Ensures-any (ok a) = tt
Ensures-any (err e) = tt
