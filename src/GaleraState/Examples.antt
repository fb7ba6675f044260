-- ===== src/GaleraState/Examples.antt =====
-- State files and recovery logs at concrete inputs. Here a UUID is any text of 36 bytes.
use suture_port_mariadb_oper.Prelude.{
  ◌≡◌, refl, ◌==◌, Bool, true, [], ◌∷◌, ◌++◌, Bytes, codes, bytes_eq, length, pos, negsuc, ok, err,
  ◌>>=◌, arith,
}
use suture_port_mariadb_oper.Text.{
  split, split_by, split_from, atoi, itoa, decimal, decimal_from, has_prefix, parse_magnitude,
  parse_digits, is_digit, as_positive, as_negative, scan_lines, take_lines, drop_cr, trim_space,
  trim_left, trim_right, is_space,
}
use suture_port_mariadb_oper.Text.Decimal.{IsInt}
use suture_port_mariadb_oper.GaleraState.{
  GaleraState, marshal, render, html_escape, escape_byte, unmarshal, read_lines, read_parts,
  read_field, state_of, parse_bool, validate, unmarshal_log, read_log, read_marked, read_position,
  invalid_state_file, invalid_safe_to_bootstrap, not_a_bool,
}
use suture_port_mariadb_oper.GaleraState.RoundTrip.{unmarshal-marshal, all_plain-IsToken}
use suture_port_mariadb_oper.GaleraState.Valid.{unmarshal-marshal_ok, unmarshal_log-validate}

text : Unit {0}
unfolding split split_by split_from atoi itoa decimal decimal_from has_prefix parse_magnitude
    parse_digits is_digit as_positive as_negative scan_lines take_lines drop_cr trim_space trim_left
    trim_right is_space bytes_eq
text = tt

program : Unit {0}
unfolding text marshal render html_escape escape_byte unmarshal read_lines read_parts read_field
    state_of parse_bool validate unmarshal_log read_log read_marked read_position
program = tt

abbrev uuid_ok : Bytes → Bool
uuid_ok s = length s == 36

abbrev cluster : Bytes
cluster = codes "15d9a0ef-02b1-11ee-9499-decd8e34642e"

abbrev state : GaleraState
state = record { version = codes "2.1"; uuid = cluster; seqno = negsuc 0; safe_to_bootstrap = true }

abbrev file : Bytes
file =
    codes "# GALERA saved state"
    ++ 10
      ∷ (codes "version: 2.1"
          ++ 13
            ∷ 10
            ∷ (codes "uuid: 15d9a0ef-02b1-11ee-9499-decd8e34642e"
                ++ 10 ∷ (codes "seqno:   -1" ++ 10 ∷ (codes "safe_to_bootstrap: 1" ++ 10 ∷ []))))

unmarshal-file : unmarshal uuid_ok file ≡ ok state
unfolding program
unmarshal-file = refl

unmarshal_incomplete : unmarshal uuid_ok (codes "seqno: 3") ≡ err invalid_state_file
unfolding program
unmarshal_incomplete = refl

unmarshal_bad_bool :
    unmarshal uuid_ok (codes "safe_to_bootstrap: 2") ≡ err (invalid_safe_to_bootstrap not_a_bool)
unfolding program
unmarshal_bad_bool = refl

-- A plus sign in the version does not come back.
unmarshal_escaped :
    (marshal uuid_ok (record state { version = codes "2+1" }) >>= unmarshal uuid_ok)
    ≡ ok (record state { version = codes "2&#43;1" })
unfolding program
unmarshal_escaped = refl

abbrev log : Bytes
log =
    codes "WSREP: Recovered position: 15d9a0ef-02b1-11ee-9499-decd8e34642e:5"
    ++ 10
      ∷ (codes "noise"
          ++ 10 ∷ codes "[Note] WSREP: Recovered position: 15d9a0ef-02b1-11ee-9499-decd8e34642e:7")

unmarshal_log_last : unmarshal_log uuid_ok log ≡ ok (record { uuid = cluster; seqno = pos 7 })
unfolding program
unmarshal_log_last = refl

unmarshal-marshal_example : (marshal uuid_ok state >>= unmarshal uuid_ok) ≡ ok state
unmarshal-marshal_example =
    unmarshal-marshal uuid_ok state (all_plain-IsToken (codes "2.1") refl)
      (all_plain-IsToken cluster refl) (omega arith) (omega arith) refl (omega arith)

unmarshal-marshal_ok_example : IsInt (negsuc 0) × (marshal uuid_ok state ≡ ok (render state))
unmarshal-marshal_ok_example = unmarshal-marshal_ok uuid_ok file state unmarshal-file

unmarshal_log-validate_example :
    IsInt (pos 7) × (validate uuid_ok (record { uuid = cluster; seqno = pos 7 }) ≡ ok tt)
unmarshal_log-validate_example =
    unmarshal_log-validate uuid_ok log (record { uuid = cluster; seqno = pos 7 }) unmarshal_log_last
