-- ===== src/Text/Decimal.antt =====
-- strconv.Atoi reads back what `%d` prints.
use native.Mathlib.Nat.{pow-suc}
use suture_port_mariadb_oper.Prelude.{
  ◌^◌, length, length-append, ℕ, zero, suc, ◌+◌, ◌-◌, ◌*◌, ◌/◌, ◌%◌, ◌<◌, ◌≤◌, ◌≡◌, refl, ◌≢◌, inl,
  inr, [], ◌∷◌, ◌++◌, Option, some, none, arith, Bytes, All, Bool-cases, ltb, ℤ, pos, negsuc, ◌≤ℤ◌,
  ltb→lt, ap, All-append, snoc_ne_nil,
}
use suture_port_mariadb_oper.Text.{
  is_digit, parse_digits, parse_magnitude, as_positive, as_negative, atoi, decimal_from, decimal,
  itoa, int_limit,
}

abbrev and_then : Option ℕ → (ℕ → Option ℕ) → Option ℕ
and_then none f = none
and_then (some n) f = f n

parse_digits-append :
    (acc : ℕ) (s t : Bytes)
    → parse_digits acc (s ++ t) ≡ and_then (parse_digits acc s) (λ n. parse_digits n t)
unfolding parse_digits
parse_digits-append acc [] t = refl
parse_digits-append acc (c ∷ s) t = elim (Bool-cases (is_digit c)) [
  | inl e ↦ rw e (parse_digits-append (acc * 10 + (c - 48)) s t)
  | inr e ↦ rw e refl
]

parse_digits_digit : (acc d : ℕ) → d < 10 → parse_digits acc ((48 + d) ∷ []) ≡ some (acc * 10 + d)
unfolding parse_digits is_digit
parse_digits_digit acc d h = ground arith

parse_digits-decimal_from : (f n : ℕ) → n < f → parse_digits 0 (decimal_from f n) ≡ some n
unfolding decimal_from
parse_digits-decimal_from zero n h = elim h [ ]
parse_digits-decimal_from (suc f) n h = elim (Bool-cases (ltb n 10)) [
  | inl e ↦ rw (e, parse_digits_digit 0 n (ltb→lt n 10 e)) (ap some (omega arith))
  | inr e ↦
      rw
        (
          e,
          parse_digits-append 0 (decimal_from f (n / 10)) ((48 + n % 10) ∷ []),
          parse_digits-decimal_from f (n / 10) (ground arith),
        )
        (rw (parse_digits_digit (n / 10) (n % 10) (omega arith)) (ap some (omega arith)))
]

abbrev pub IsDigits : Bytes → Type 0
IsDigits s = All (λ c. (48 ≤ c) × (c ≤ 57)) s

decimal_from-IsDigits : (f n : ℕ) → IsDigits (decimal_from f n)
unfolding decimal_from
decimal_from-IsDigits zero n = tt
decimal_from-IsDigits (suc f) n = elim (Bool-cases (ltb n 10)) [
  | inl e ↦ rw e ((omega arith, omega (arith, ltb→lt n 10 e)), tt)
  | inr e ↦ rw e (
      All-append _ (decimal_from f (n / 10)) ((48 + n % 10) ∷ []) (decimal_from-IsDigits f (n / 10))
        ((omega arith, omega arith), tt))
]

decimal_from-ne_nil : (f n : ℕ) → n < f → decimal_from f n ≢ []
unfolding decimal_from
decimal_from-ne_nil zero n h = elim h [ ]
decimal_from-ne_nil (suc f) n h = elim (Bool-cases (ltb n 10)) [
  | inl e ↦ rw e (λ p. cc)
  | inr e ↦ rw e (snoc_ne_nil (decimal_from f (n / 10)) (48 + n % 10))
]

pub decimal-IsDigits : (n : ℕ) → IsDigits (decimal n)
unfolding decimal
decimal-IsDigits n = decimal_from-IsDigits (suc n) n

pub decimal-ne_nil : (n : ℕ) → decimal n ≢ []
unfolding decimal
decimal-ne_nil n = decimal_from-ne_nil (suc n) n (omega arith)

of_digits : (s : Bytes) (n : ℕ) → s ≢ [] → parse_digits 0 s ≡ some n → parse_magnitude s ≡ some n
unfolding parse_magnitude
of_digits [] n h e = absurd (h refl)
of_digits (c ∷ s) n h e = e

parse_magnitude-decimal : (n : ℕ) → parse_magnitude (decimal n) ≡ some n
parse_magnitude-decimal n =
    of_digits (decimal n) n (decimal-ne_nil n)
      (unfold decimal in parse_digits-decimal_from (suc n) n (omega arith))

atoi_of_digits :
    (s : Bytes) (n : ℕ)
    → IsDigits s
    → s ≢ []
    → parse_magnitude s ≡ some n
    → n < int_limit
    → atoi s ≡ some (pos n)
unfolding atoi as_positive
atoi_of_digits [] n d ne e h = absurd (ne refl)
atoi_of_digits (c ∷ s) n d ne e h = ground (arith, d.0)

pub atoi-decimal : (n : ℕ) → n < int_limit → atoi (decimal n) ≡ some (pos n)
atoi-decimal n h =
    atoi_of_digits (decimal n) n (decimal-IsDigits n) (decimal-ne_nil n) (parse_magnitude-decimal n)
      h

-- The values of Go's 64-bit `int`.
abbrev pub IsInt : ℤ → Type 0
IsInt (pos n) = n < int_limit
IsInt (negsuc n) = n < int_limit

pub atoi-itoa : (z : ℤ) → IsInt z → atoi (itoa z) ≡ some z
unfolding itoa
atoi-itoa (pos n) h = atoi-decimal n h
atoi-itoa (negsuc n) h =
    unfold atoi in rw (parse_magnitude-decimal (suc n)) (unfold as_negative in ground arith)

atoi_plain : (c : ℕ) (s : Bytes) (z : ℤ) → c ≢ b'-' → atoi (c ∷ s) ≡ some z → pos 0 ≤ℤ z
unfolding atoi as_positive
atoi_plain c s z h e = ground arith

-- Text with no minus sign reads as a number that is not negative.
pub atoi_nonneg : (s : Bytes) (z : ℤ) → All (λ c. c ≢ b'-') s → atoi s ≡ some z → pos 0 ≤ℤ z
unfolding atoi
atoi_nonneg [] z h e = cc
atoi_nonneg (c ∷ s) z h e = atoi_plain c s z h.0 e

length-decimal_from : (k f n : ℕ) → n < 10 ^ suc k → length (decimal_from f n) ≤ suc k
unfolding decimal_from
length-decimal_from k zero n h = omega arith
length-decimal_from zero (suc f) n h = ground arith
length-decimal_from (suc k) (suc f) n h = elim (Bool-cases (ltb n 10)) [
  | inl e ↦ rw e (omega arith)
  | inr e ↦
      rw (e, length-append (decimal_from f (n / 10)) ((48 + n % 10) ∷ []))
        (omega (arith, length-decimal_from k f (n / 10) (omega (arith, pow-suc 10 (suc k)))))
]

-- A number up to 2 ^ 63 has at most nineteen digits.
pub length-decimal : (n : ℕ) → n ≤ int_limit → length (decimal n) ≤ 19
unfolding decimal
length-decimal n h = length-decimal_from 18 (suc n) n (omega arith)
