-- ===== src/GaleraState.antt =====
-- pkg/galera/recovery/recovery.go: the state file of a Galera node and the log of its recovery.
-- `uuid_ok` stands for github.com/google/uuid: whether `Parse` takes the text.
pub mod RoundTrip
pub mod Valid
mod Examples
use suture_port_mariadb_oper.Prelude.{
  ℕ, suc, Bool, true, false, not, ◌&&◌, ◌||◌, List, [], ◌∷◌, ◌++◌, Option, none, some, Bytes, codes,
  length, bytes_eq, ℤ, pos, negsuc, ltb_ℤ, eqb_ℤ, Result, ok, err, ◌>>=◌, ◌>>◌, fail_if, or_error,
  if◌then◌else◌, ◌==◌,
}
use suture_port_mariadb_oper.Text.{split, split_by, atoi, itoa, trim_space, scan_lines}

pub record GaleraState : Type 0 where
  pub version : Bytes
  pub uuid : Bytes
  pub seqno : ℤ
  pub safe_to_bootstrap : Bool

pub record Bootstrap : Type 0 where
  pub uuid : Bytes
  pub seqno : ℤ

-- The interface GaleraRecoverer, by the two types that implement it.
pub data GaleraRecoverer : Type 0 where
  galera_state : GaleraState → GaleraRecoverer
  bootstrap : Bootstrap → GaleraRecoverer

unfoldable pub get_uuid : GaleraRecoverer → Bytes
get_uuid (galera_state g) = g.uuid
get_uuid (bootstrap b) = b.uuid

unfoldable pub get_seqno : GaleraRecoverer → ℤ
get_seqno (galera_state g) = g.seqno
get_seqno (bootstrap b) = b.seqno

-- `Compare`, the same for both types; `none` is the nil interface.
unfoldable pub compare_to : GaleraRecoverer → Option GaleraRecoverer → ℤ
compare_to g none = pos 1
compare_to g (some other) =
    if ltb_ℤ (get_seqno g) (get_seqno other)
    then negsuc 0
    else if ltb_ℤ (get_seqno other) (get_seqno g)
    then pos 1
    else pos 0

pub data BoolError : Type 0 where
  not_an_integer not_a_bool : BoolError

pub data StateError : Type 0 where
  invalid_uuid invalid_seqno invalid_state_file recovered_not_found : StateError
  invalid_safe_to_bootstrap : BoolError → StateError

unfoldable pub parse_bool : Bytes → Result BoolError Bool
parse_bool s = do
  i ← or_error (atoi s) not_an_integer
  fail_if (not (eqb_ℤ i (pos 0)) && not (eqb_ℤ i (pos 1))) not_a_bool
  ok (eqb_ℤ i (pos 1))

-- A byte as html/template writes it in the text of a page.
unfoldable pub escape_byte : ℕ → Bytes
escape_byte c =
    if c == 0
    then 0xEF ∷ 0xBF ∷ 0xBD ∷ []
    else if c == b'"'
    then codes "&#34;"
    else if c == b'&'
    then codes "&amp;"
    else if c == b'\''
    then codes "&#39;"
    else if c == b'+'
    then codes "&#43;"
    else if c == b'<'
    then codes "&lt;"
    else if c == b'>'
    then codes "&gt;"
    else c ∷ []

unfoldable pub html_escape : Bytes → Bytes
html_escape [] = []
html_escape (c ∷ s) = escape_byte c ++ html_escape s

abbrev pub bool_digit : Bool → ℕ
bool_digit true = b'1'
bool_digit false = b'0'

-- The variables of the loop of `GaleraState.Unmarshal`.
pub record Fields : Type 0 where
  pub version : Option Bytes
  pub uuid : Option Bytes
  pub seqno : Option ℤ
  pub safe_to_bootstrap : Option Bool

abbrev pub no_fields : Fields
no_fields = record { version = none; uuid = none; seqno = none; safe_to_bootstrap = none }

-- The test for nil pointers behind the loop, and the new state.
unfoldable pub state_of :
    Option Bytes → Option Bytes → Option ℤ → Option Bool → Result StateError GaleraState
state_of (some v) (some u) (some s) (some b) =
    ok (record { version = v; uuid = u; seqno = s; safe_to_bootstrap = b })
state_of _ _ _ _ = err invalid_state_file

abbrev pub map_error : Result BoolError Bool → Result StateError Bool
map_error (ok b) = ok b
map_error (err e) = err (invalid_safe_to_bootstrap e)

-- The separator that `Bootstrap.Unmarshal` looks for.
abbrev pub marker : Bytes
marker = codes "WSREP: Recovered position: "

-- The template of grastate.dat, filled in.
unfoldable pub render : GaleraState → Bytes
render g =
    (codes "version: " ++ html_escape g.version)
    ++ 10
      ∷ ((codes "uuid: " ++ html_escape g.uuid)
          ++ 10
            ∷ ((codes "seqno: " ++ itoa g.seqno)
                ++ 10 ∷ (codes "safe_to_bootstrap: " ++ bool_digit g.safe_to_bootstrap ∷ [])))

module _ (uuid_ok : Bytes → Bool) where
  -- `GaleraState.Marshal`.
  unfoldable pub marshal : GaleraState → Result StateError Bytes
  marshal g = do fail_if (not (uuid_ok g.uuid)) invalid_uuid; ok (render g)

  -- The `switch` on the key of a line.
  unfoldable pub read_field : Fields → Bytes → Bytes → Result StateError Fields
  read_field f key value =
      if bytes_eq key (codes "version")
      then ok (record f { version = some value })
      else if bytes_eq key (codes "uuid")
      then (if uuid_ok value then ok (record f { uuid = some value }) else err invalid_uuid)
      else if bytes_eq key (codes "seqno")
      then (or_error (atoi value) invalid_seqno >>= λ i. ok (record f { seqno = some i }))
      else if bytes_eq key (codes "safe_to_bootstrap")
      then (map_error (parse_bool value) >>= λ b. ok (record f { safe_to_bootstrap = some b }))
      else ok f

  unfoldable pub read_parts : Fields → List Bytes → Result StateError Fields
  read_parts f (k ∷ v ∷ []) = read_field f (trim_space k) (trim_space v)
  read_parts f _ = ok f

  unfoldable pub read_lines : Fields → List Bytes → Result StateError Fields
  read_lines f [] = ok f
  read_lines f (line ∷ rest) = read_parts f (split b':' line) >>= λ f'. read_lines f' rest

  -- `GaleraState.Unmarshal`. On an error the receiver is left as it was.
  unfoldable pub unmarshal : Bytes → Result StateError GaleraState
  unmarshal text = do
    f ← read_lines no_fields (scan_lines text)
    state_of f.version f.uuid f.seqno f.safe_to_bootstrap

  -- `Bootstrap.Validate`.
  unfoldable pub validate : Bootstrap → Result StateError (Unit {0})
  validate b = fail_if (not (uuid_ok b.uuid)) invalid_uuid

  -- A line of the log that holds the marker once, cut at the colon behind it.
  unfoldable pub read_position :
      Option Bootstrap → List Bytes → Result StateError (Option Bootstrap)
  read_position last (u ∷ s ∷ []) = do
    fail_if (not (uuid_ok (trim_space u))) invalid_uuid
    seqno ← or_error (atoi (trim_space s)) invalid_seqno
    ok (some (record { uuid = trim_space u; seqno = seqno }))
  read_position last _ = ok last

  unfoldable pub read_marked : Option Bootstrap → List Bytes → Result StateError (Option Bootstrap)
  read_marked last (before ∷ after ∷ []) = read_position last (split b':' after)
  read_marked last _ = ok last

  unfoldable pub read_log : Option Bootstrap → List Bytes → Result StateError (Option Bootstrap)
  read_log last [] = ok last
  read_log last (line ∷ rest) = read_marked last (split_by marker line) >>= λ b. read_log b rest

  -- `Bootstrap.Unmarshal`: the two pointers are set together, so they are one option.
  unfoldable pub unmarshal_log : Bytes → Result StateError Bootstrap
  unmarshal_log text = do
    found ← read_log none (scan_lines text)
    or_error found recovered_not_found
