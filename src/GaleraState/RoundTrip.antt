-- ===== src/GaleraState/RoundTrip.antt =====
-- The state file that `GaleraState.Marshal` writes is the one that `Unmarshal` reads.
use suture_port_mariadb_oper.Prelude.{
  ℕ, suc, ◌+◌, ◌<◌, ◌≤◌, ◌≡◌, ◌≢◌, refl, ◌∙◌, Bool, true, false, not, ◌&&◌, List, [], ◌∷◌, ◌++◌,
  some, arith, Bytes, All, All-append, All-map_of, codes, length, length-append, leb, ◌==◌, ℤ, pos,
  negsuc, ok, ◌>>=◌, bytes_eq,
}
use suture_port_mariadb_oper.Text.{
  split, scan_lines, itoa, atoi, as_positive, parse_magnitude, parse_digits, is_digit, decimal,
  is_space, max_token,
}
use suture_port_mariadb_oper.Text.Split.{Free, split_once}
use suture_port_mariadb_oper.Text.Decimal.{IsInt, atoi-itoa, decimal-IsDigits, length-decimal}
use suture_port_mariadb_oper.Text.Lines.{
  IsLine, scan_lines-cons, scan_lines_last, Solid, trim_space-Solid, trim_space_lead,
}
use suture_port_mariadb_oper.GaleraState.{
  GaleraState, Fields, no_fields, escape_byte, html_escape, bool_digit, marshal, read_field,
  read_parts, read_lines, unmarshal, state_of, parse_bool, render,
}

-- A byte that needs no escape and means nothing to the reader: printable, and none of : " & ' + < >.
abbrev pub plain_byte : ℕ → Bool
plain_byte c =
    leb 33 c
    && leb c 126
    && not (c == 34)
    && not (c == 38)
    && not (c == 39)
    && not (c == 43)
    && not (c == 58)
    && not (c == 60)
    && not (c == 62)

abbrev pub IsToken : Bytes → Type 0
IsToken s = All (λ c. plain_byte c ≡ true) s

escape_plain : (c : ℕ) → plain_byte c ≡ true → escape_byte c ≡ c ∷ []
unfolding escape_byte
escape_plain c h = ground arith

html_escape_token : (s : Bytes) → IsToken s → html_escape s ≡ s
unfolding html_escape
html_escape_token [] h = refl
html_escape_token (c ∷ s) h = rw (escape_plain c h.0, html_escape_token s h.1) refl

token-Solid : (s : Bytes) → IsToken s → Solid s
token-Solid s =
    All-map_of (λ c. plain_byte c ≡ true) (λ c. is_space c ≡ false) s
      (λ c h. unfold is_space in ground arith)

token-Free : (sep : ℕ) (s : Bytes) → plain_byte sep ≡ false → IsToken s → Free sep s
token-Free sep s k = All-map_of (λ c. plain_byte c ≡ true) (λ c. c ≢ sep) s (λ c h e. ground arith)

digit_plain : (c : ℕ) → (48 ≤ c) × (c ≤ 57) → plain_byte c ≡ true
digit_plain c h = ground arith

decimal-IsToken : (n : ℕ) → IsToken (decimal n)
decimal-IsToken n =
    All-map_of (λ c. (48 ≤ c) × (c ≤ 57)) (λ c. plain_byte c ≡ true) (decimal n) digit_plain
      (decimal-IsDigits n)

itoa-IsToken : (z : ℤ) → IsToken (itoa z)
unfolding itoa
itoa-IsToken (pos n) = decimal-IsToken n
itoa-IsToken (negsuc n) = (refl, decimal-IsToken (suc n))

length-itoa : (z : ℤ) → IsInt z → length (itoa z) ≤ 20
unfolding itoa
length-itoa (pos n) h = omega (arith, length-decimal n (omega arith))
length-itoa (negsuc n) h = omega (arith, length-decimal (suc n) h)

-- A key, a colon, a space and a token are one line of the file.
IsLine-IsLine :
    (key v : Bytes)
    → IsToken key
    → IsToken v
    → length key + length v + 2 < max_token
    → IsLine (key ++ b':' ∷ b' ' ∷ v)
IsLine-IsLine key v k t h = record {
  no_lf =
      All-append _ key _ (token-Free 10 key refl k)
        (omega arith, (omega arith, token-Free 10 v refl t));
  no_cr =
      All-append _ key _ (token-Free 13 key refl k)
        (omega arith, (omega arith, token-Free 13 v refl t));
  fits = omega (arith, length-append key (b':' ∷ b' ' ∷ v));
}

module _ (uuid_ok : Bytes → Bool) where
  -- Such a line is read as that field.
  read_parts_line :
      (f : Fields) (key v : Bytes)
      → IsToken key
      → IsToken v
      → read_parts uuid_ok f (split b':' (key ++ b':' ∷ b' ' ∷ v)) ≡ read_field uuid_ok f key v
  unfolding read_parts
  read_parts_line f key v k t =
      rw
        (split_once b':' key (b' ' ∷ v) (token-Free b':' key refl k)
          ((λ e. omega arith), token-Free b':' v refl t))
        (rw (trim_space-Solid key (token-Solid key k), trim_space_lead v (token-Solid v t)) refl)

abbrev line : Bytes → Bytes → Bytes
line key v = key ++ b':' ∷ b' ' ∷ v

text_lines :
    (v u s b : Bytes)
    → IsLine v
    → IsLine u
    → IsLine s
    → IsLine b
    → b ≢ []
    → scan_lines (v ++ 10 ∷ (u ++ 10 ∷ (s ++ 10 ∷ b))) ≡ v ∷ u ∷ s ∷ b ∷ []
text_lines v u s b hv hu hs hb ne = rw (
  scan_lines-cons v _ hv,
  scan_lines-cons u _ hu,
  scan_lines-cons s _ hs,
  scan_lines_last b hb ne,
)

parse_bool_digit : (b : Bool) → parse_bool (bool_digit b ∷ []) ≡ ok b
unfolding parse_bool atoi as_positive parse_magnitude parse_digits is_digit
parse_bool_digit true = refl
parse_bool_digit false = refl

bool_digit-IsToken : (b : Bool) → IsToken (bool_digit b ∷ [])
bool_digit-IsToken true = (refl, tt)
bool_digit-IsToken false = (refl, tt)

abbrev pub all_plain : Bytes → Bool
all_plain [] = true
all_plain (c ∷ s) = plain_byte c && all_plain s

pub all_plain-IsToken : (s : Bytes) → all_plain s ≡ true → IsToken s
all_plain-IsToken [] h = tt
all_plain-IsToken (c ∷ s) h = (ground arith, all_plain-IsToken s (ground arith))

module _ (uuid_ok : Bytes → Bool) where
  version_line :
      (f : Fields) (v : Bytes)
      → IsToken v
      → read_parts uuid_ok f (split b':' (line (codes "version") v))
        ≡ ok (record f { version = some v })
  version_line f v t =
      read_parts_line uuid_ok f (codes "version") v (all_plain-IsToken (codes "version") refl) t
      ∙ unfold read_field bytes_eq in refl

  uuid_line :
      (f : Fields) (v : Bytes)
      → IsToken v
      → uuid_ok v ≡ true
      → read_parts uuid_ok f (split b':' (line (codes "uuid") v)) ≡ ok (record f { uuid = some v })
  uuid_line f v t h =
      read_parts_line uuid_ok f (codes "uuid") v (all_plain-IsToken (codes "uuid") refl) t
      ∙ unfold read_field bytes_eq in rw h

  seqno_line :
      (f : Fields) (z : ℤ)
      → IsInt z
      → read_parts uuid_ok f (split b':' (line (codes "seqno") (itoa z)))
        ≡ ok (record f { seqno = some z })
  seqno_line f z h =
      read_parts_line uuid_ok f (codes "seqno") (itoa z) (all_plain-IsToken (codes "seqno") refl)
        (itoa-IsToken z)
      ∙ unfold read_field bytes_eq in rw (atoi-itoa z h)

  safe_line :
      (f : Fields) (b : Bool)
      → read_parts uuid_ok f (split b':' (line (codes "safe_to_bootstrap") (bool_digit b ∷ [])))
        ≡ ok (record f { safe_to_bootstrap = some b })
  safe_line f b =
      read_parts_line uuid_ok f (codes "safe_to_bootstrap") (bool_digit b ∷ [])
        (all_plain-IsToken (codes "safe_to_bootstrap") refl) (bool_digit-IsToken b)
      ∙ unfold read_field bytes_eq in rw (parse_bool_digit b)

  read_lines-cons :
      (f f' : Fields) (l : Bytes) (ls : List Bytes)
      → read_parts uuid_ok f (split b':' l) ≡ ok f'
      → read_lines uuid_ok f (l ∷ ls) ≡ read_lines uuid_ok f' ls
  unfolding read_lines
  read_lines-cons f f' l ls h = rw h

  -- The four lines of a state that was written give back the state.
  read_state :
      (g : GaleraState)
      → IsToken g.version
      → IsToken g.uuid
      → uuid_ok g.uuid ≡ true
      → IsInt g.seqno
      → (read_lines uuid_ok no_fields (
            line (codes "version") g.version
            ∷ line (codes "uuid") g.uuid
            ∷ line (codes "seqno") (itoa g.seqno)
            ∷ line (codes "safe_to_bootstrap") (bool_digit g.safe_to_bootstrap ∷ [])
            ∷ [])
          >>= λ f. state_of f.version f.uuid f.seqno f.safe_to_bootstrap)
        ≡ ok g
  unfolding read_lines state_of
  read_state g tv tu hu hs = rw (
    version_line no_fields g.version tv,
    uuid_line _ g.uuid tu hu,
    seqno_line _ g.seqno hs,
    safe_line _ g.safe_to_bootstrap,
  )

-- A state that is written to the file and read again is the same, when its UUID is one that
-- `uuid.Parse` takes, its version and UUID are printable text without the characters that separate
-- fields or are escaped, each shorter than the scanner's buffer allows for its line, and its
-- sequence number is a 64-bit integer.
pub unmarshal-marshal :
    (uuid_ok : Bytes → Bool) (g : GaleraState)
    → IsToken g.version
    → IsToken g.uuid
    → length g.version + 9 < max_token
    → length g.uuid + 6 < max_token
    → uuid_ok g.uuid ≡ true
    → IsInt g.seqno
    → (marshal uuid_ok g >>= unmarshal uuid_ok) ≡ ok g
unfolding marshal unmarshal render
unmarshal-marshal uuid_ok g tv tu lv lu hu hs =
    rw
      (
        hu,
        html_escape_token g.version tv,
        html_escape_token g.uuid tu,
        text_lines (line (codes "version") g.version) (line (codes "uuid") g.uuid)
            (line (codes "seqno") (itoa g.seqno))
            (line (codes "safe_to_bootstrap") (bool_digit g.safe_to_bootstrap ∷ []))
            (IsLine-IsLine (codes "version") g.version (all_plain-IsToken (codes "version") refl) tv
              (omega arith))
            (IsLine-IsLine (codes "uuid") g.uuid (all_plain-IsToken (codes "uuid") refl) tu
              (omega arith))
            (IsLine-IsLine (codes "seqno") (itoa g.seqno) (all_plain-IsToken (codes "seqno") refl)
              (itoa-IsToken g.seqno) (omega (arith, length-itoa g.seqno hs)))
            (IsLine-IsLine (codes "safe_to_bootstrap") (bool_digit g.safe_to_bootstrap ∷ [])
              (all_plain-IsToken (codes "safe_to_bootstrap") refl)
              (bool_digit-IsToken g.safe_to_bootstrap) (omega arith))
            (λ e. cc),
      )
      (read_state uuid_ok g tv tu hu hs)
