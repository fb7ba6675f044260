-- ===== src/Steps.antt =====
-- Go functions that change what they are given and return an error: steps on a state `S`.
pub mod Keeps
pub mod Triples
pub mod Returns
pub mod Succeeds
use suture_port_mariadb_oper.Prelude.{
  Bool, true, false, List, [], ◌∷◌, Option, none, some, Result, ok, err, if◌then◌else◌,
}

abbrev pub Step : Type 0 → Type 0 → Type 0 → Type 0
Step S E A = S → Result E A × S

-- An error ends the step, and the state is kept.
unfoldable pub resume : {S E A B : Type 0} → Result E A → S → (A → Step S E B) → Result E B × S
resume (ok a) s k = k a s
resume (err e) s k = (err e, s)

infixl 5 ◌>>=◌ ◌>>◌
unfoldable pub ◌>>=◌ : {S E A B : Type 0} → Step S E A → (A → Step S E B) → Step S E B
unfolding resume
◌>>=◌ m k s = resume (m s).0 (m s).1 k

unfoldable pub ◌>>◌ : {S E B : Type 0} → Step S E (Unit {0}) → Step S E B → Step S E B
unfolding ◌>>=◌
m >> n = m >>= λ _. n

unfoldable pub give : {S E A : Type 0} → A → Step S E A
give a s = (ok a, s)

unfoldable pub fail : {S E A : Type 0} → E → Step S E A
fail e s = (err e, s)

-- A result that does not depend on the state.
unfoldable pub lift : {S E A : Type 0} → Result E A → Step S E A
lift r s = (r, s)

unfoldable pub gets : {S E A : Type 0} → (S → A) → Step S E A
gets f s = (ok (f s), s)

-- A call that reads the state only, and may fail.
unfoldable pub ask : {S E A : Type 0} → (S → Result E A) → Step S E A
ask f s = (f s, s)

unfoldable pub modify : {S E : Type 0} → (S → S) → Step S E (Unit {0})
modify f s = (ok tt, f s)

unfoldable pub to_result : {E : Type 0} → Option E → Result E (Unit {0})
to_result none = ok tt
to_result (some e) = err e

unfoldable pub is_none : {A : Type 0} → Option A → Bool
is_none none = true
is_none (some a) = false

unfoldable pub wrap_error : {E F A : Type 0} → F → Result E A → Result F A
wrap_error f (ok a) = ok a
wrap_error f (err e) = err f

-- `fmt.Errorf("…: %v", err)`: every error becomes `e`.
unfoldable pub wrap : {S E A : Type 0} → E → Step S E A → Step S E A
unfolding wrap_error
wrap e m s = (wrap_error e (m s).0, (m s).1)

unfoldable pub run_if : {S E : Type 0} → Bool → Step S E (Unit {0}) → Step S E (Unit {0})
unfolding give
run_if b m = if b then m else give tt

-- `if !b { return e }`.
unfoldable pub require : {S E : Type 0} → Bool → E → Step S E (Unit {0})
unfolding give fail
require b e = if b then give tt else fail e

-- A `defer`: `d` runs behind `m`, whatever `m` returns, and its own result is dropped.
unfoldable pub deferred : {S E A : Type 0} → Step S E (Unit {0}) → Step S E A → Step S E A
deferred d m s = ((m s).0, (d (m s).1).1)

-- One after the other, up to the first error.
unfoldable pub for_each :
    {S E A : Type 0} → (A → Step S E (Unit {0})) → List A → Step S E (Unit {0})
unfolding give ◌>>◌
for_each body [] = give tt
for_each body (x ∷ xs) = body x >> for_each body xs

-- The first error, or the second.
unfoldable pub first_error :
    {S E : Type 0} → Result E (Unit {0}) → Result E (Unit {0}) × S → Result E (Unit {0}) × S
first_error (ok _) rest = rest
first_error (err e) rest = (err e, rest.1)

-- Both run; the error of the first wins.
unfoldable pub both :
    {S E : Type 0} → Step S E (Unit {0}) → Step S E (Unit {0}) → Step S E (Unit {0})
unfolding first_error
both m n s = first_error (m s).0 (n (m s).1)

-- All run, whatever they return; the first error wins.
unfoldable pub run_all : {S E A : Type 0} → (A → Step S E (Unit {0})) → List A → Step S E (Unit {0})
unfolding give both
run_all body [] = give tt
run_all body (x ∷ xs) = both (body x) (run_all body xs)

-- Behind a try that failed, `next` is tried.
unfoldable pub again :
    {S E : Type 0} → Result E (Unit {0}) → Step S E (Unit {0}) → Step S E (Unit {0})
again (ok _) next s = (ok tt, s)
again (err _) next s = next s
