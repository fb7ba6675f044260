-- ===== src/Text.antt =====
-- What the program uses of Go's packages strings, strconv, bufio and fmt, on ASCII text.
pub mod Split
pub mod Decimal
pub mod Lines
use suture_port_mariadb_oper.Prelude.{
  ℕ, zero, suc, ◌+◌, ◌-◌, ◌*◌, ◌/◌, ◌%◌, ◌^◌, Bool, true, false, ◌&&◌, ◌||◌, List, [], ◌∷◌, ◌++◌,
  Option, none, some, Bytes, length, ltb, leb, ◌==◌, if◌then◌else◌, ℤ, pos, negsuc,
}

-- strings.HasPrefix.
unfoldable pub has_prefix : Bytes → Bytes → Bool
has_prefix s [] = true
has_prefix [] (d ∷ p) = false
has_prefix (c ∷ s) (d ∷ p) = c == d && has_prefix s p

-- strings.TrimPrefix.
unfoldable pub trim_prefix : Bytes → Bytes → Bytes
trim_prefix s [] = s
trim_prefix [] (d ∷ p) = []
trim_prefix (c ∷ s) (d ∷ p) =
    let t = trim_prefix s p in if has_prefix (c ∷ s) (d ∷ p) then t else c ∷ s

-- strings.HasSuffix.
unfoldable pub has_suffix : Bytes → Bytes → Bool
has_suffix [] p = if length p == 0 then true else false
has_suffix (c ∷ s) p =
    let rest = has_suffix s p in if length p == length (c ∷ s) then has_prefix (c ∷ s) p else rest

abbrev pub cons_head : ℕ → List Bytes → List Bytes
cons_head c [] = (c ∷ []) ∷ []
cons_head c (w ∷ ws) = (c ∷ w) ∷ ws

-- strings.Split by a separator of one byte.
unfoldable pub split : ℕ → Bytes → List Bytes
split sep [] = [] ∷ []
split sep (c ∷ s) = let rest = split sep s in if c == sep then [] ∷ rest else cons_head c rest

-- strings.Split by a longer separator: `skip` bytes of the last match are still to be passed over.
unfoldable pub split_from : Bytes → ℕ → Bytes → List Bytes
split_from sep skip [] = [] ∷ []
split_from sep zero (c ∷ s) =
    let here = has_prefix (c ∷ s) sep in
    let rest = split_from sep (if here then length sep - 1 else 0) s in
    if here then [] ∷ rest else cons_head c rest
split_from sep (suc skip) (c ∷ s) = split_from sep skip s

unfoldable pub split_by : Bytes → Bytes → List Bytes
split_by sep s = split_from sep 0 s

-- The last element, as `parts[len(parts)-1]`.
abbrev pub last_part : List Bytes → Option Bytes
last_part [] = none
last_part (w ∷ []) = some w
last_part (w ∷ v ∷ ws) = last_part (v ∷ ws)

-- unicode.IsSpace, below 128.
unfoldable pub is_space : ℕ → Bool
is_space c = c == 32 || (leb 9 c && leb c 13)

unfoldable pub trim_left : Bytes → Bytes
trim_left [] = []
trim_left (c ∷ s) = let rest = trim_left s in if is_space c then rest else c ∷ s

unfoldable pub trim_right : Bytes → Bytes
trim_right [] = []
trim_right (c ∷ s) =
    let rest = trim_right s in if is_space c && length rest == 0 then [] else c ∷ rest

-- strings.TrimSpace.
unfoldable pub trim_space : Bytes → Bytes
trim_space s = trim_right (trim_left s)

unfoldable pub is_digit : ℕ → Bool
is_digit c = leb 48 c && leb c 57

-- A run of decimal digits, after `acc`.
unfoldable pub parse_digits : ℕ → Bytes → Option ℕ
parse_digits acc [] = some acc
parse_digits acc (c ∷ s) =
    let rest = parse_digits (acc * 10 + (c - 48)) s in if is_digit c then rest else none

-- 2 ^ 63: the values of Go's `int` run from - int_limit to int_limit - 1.
abbrev pub int_limit : ℕ
int_limit = 2 ^ 63

unfoldable pub parse_magnitude : Bytes → Option ℕ
parse_magnitude [] = none
parse_magnitude (c ∷ s) = parse_digits 0 (c ∷ s)

unfoldable pub as_positive : Option ℕ → Option ℤ
as_positive none = none
as_positive (some n) = if ltb n int_limit then some (pos n) else none

unfoldable pub as_negative : Option ℕ → Option ℤ
as_negative none = none
as_negative (some zero) = some (pos 0)
as_negative (some (suc n)) = if ltb n int_limit then some (negsuc n) else none

-- strconv.Atoi: an optional sign and digits, in the range of a 64-bit `int`.
unfoldable pub atoi : Bytes → Option ℤ
atoi [] = none
atoi (c ∷ s) =
    if c == b'-'
    then as_negative (parse_magnitude s)
    else if c == b'+'
    then as_positive (parse_magnitude s)
    else as_positive (parse_magnitude (c ∷ s))

-- The decimal digits of `n`; `n + 1` rounds are enough, since each divides by ten.
unfoldable pub decimal_from : ℕ → ℕ → Bytes
decimal_from zero n = []
decimal_from (suc f) n =
    let rest = decimal_from f (n / 10) in
    if ltb n 10 then (48 + n) ∷ [] else rest ++ (48 + n % 10) ∷ []

-- `%d` of a number that is not negative.
unfoldable pub decimal : ℕ → Bytes
decimal n = decimal_from (suc n) n

-- `%d`.
unfoldable pub itoa : ℤ → Bytes
itoa (pos n) = decimal n
itoa (negsuc n) = b'-' ∷ decimal (suc n)

-- bufio.ScanLines: a line without its end, and without one carriage return before it.
unfoldable pub drop_cr : Bytes → Bytes
drop_cr [] = []
drop_cr (c ∷ []) = if c == 13 then [] else c ∷ []
drop_cr (c ∷ d ∷ s) = c ∷ drop_cr (d ∷ s)

-- bufio.MaxScanTokenSize: the scanner stops, for good, at a line that does not fit its buffer.
abbrev pub max_token : ℕ
max_token = 65536

-- The lines that the scanner hands out; text that ends in a line feed has no line after it.
unfoldable pub take_lines : List Bytes → List Bytes
take_lines [] = []
take_lines (w ∷ []) =
    if length w == 0 then [] else if ltb (length w) max_token then drop_cr w ∷ [] else []
take_lines (w ∷ v ∷ ws) =
    let rest = take_lines (v ∷ ws) in if ltb (length w) max_token then drop_cr w ∷ rest else []

unfoldable pub scan_lines : Bytes → List Bytes
scan_lines s = take_lines (split 10 s)
