-- ===== src/GaleraState/Valid.antt =====
-- What was read from a state file or a log has a UUID that was parsed and a 64-bit sequence number.
use suture_port_mariadb_oper.Prelude.{
  ℕ, suc, ◌≡◌, inl, inr, Bool, true, List, [], ◌∷◌, Option, zero, none, some, arith, ◌==◌, or_error,
  Ensures, ensures_ok, Ensures-bind, Bytes, ℤ, pos, negsuc, Result, ok, err, ◌>>=◌, Bool-cases,
  Option-cases, bytes_eq, codes,
}
use suture_port_mariadb_oper.Text.{
  split, split_by, trim_space, scan_lines, atoi, as_positive, as_negative, parse_magnitude,
}
use suture_port_mariadb_oper.Text.Decimal.{IsInt}
use suture_port_mariadb_oper.GaleraState.{
  GaleraState, Bootstrap, StateError, Fields, no_fields, read_field, read_parts, read_lines,
  unmarshal, state_of, read_position, read_marked, read_log, unmarshal_log, marshal, validate,
  marker, map_error, parse_bool, render,
}

as_positive-IsInt : (o : Option ℕ) (z : ℤ) → as_positive o ≡ some z → IsInt z
unfolding as_positive
as_positive-IsInt none z e = absurd (cc)
as_positive-IsInt (some n) (pos m) e = ground arith
as_positive-IsInt (some n) (negsuc m) e = absurd (ground arith)

as_negative-IsInt : (o : Option ℕ) (z : ℤ) → as_negative o ≡ some z → IsInt z
unfolding as_negative
as_negative-IsInt none z e = absurd (cc)
as_negative-IsInt (some zero) (pos m) e = ground arith
as_negative-IsInt (some zero) (negsuc m) e = absurd (ground arith)
as_negative-IsInt (some (suc n)) (pos m) e = absurd (ground arith)
as_negative-IsInt (some (suc n)) (negsuc m) e = ground arith

-- `strconv.Atoi` gives a 64-bit integer.
pub atoi-IsInt : (s : Bytes) (z : ℤ) → atoi s ≡ some z → IsInt z
unfolding atoi
atoi-IsInt [] z e = absurd (cc)
atoi-IsInt (c ∷ s) z e = elim (Bool-cases (c == b'-')) [
  | inl m ↦ as_negative-IsInt (parse_magnitude s) z (ground arith)
  | inr m ↦ elim (Bool-cases (c == b'+')) [
    | inl p ↦ as_positive-IsInt (parse_magnitude s) z (ground arith)
    | inr p ↦ as_positive-IsInt (parse_magnitude (c ∷ s)) z (ground arith)
  ]
]

module _ (uuid_ok : Bytes → Bool) where
  abbrev UuidOk : Option Bytes → Type 0
  UuidOk none = Unit {0}
  UuidOk (some u) = uuid_ok u ≡ true

  abbrev SeqnoOk : Option ℤ → Type 0
  SeqnoOk none = Unit {0}
  SeqnoOk (some z) = IsInt z

  abbrev FieldsOk : Fields → Type 0
  FieldsOk f = UuidOk f.uuid × SeqnoOk f.seqno

  read_field-FieldsOk :
      (f : Fields) (k v : Bytes) → FieldsOk f → Ensures FieldsOk (read_field uuid_ok f k v)
  unfolding read_field
  read_field-FieldsOk f k v h = elim (Bool-cases (bytes_eq k (codes "version"))) [
    | inl e ↦ rw e h
    | inr e ↦ elim (Bool-cases (bytes_eq k (codes "uuid"))) [
      | inl u ↦ elim (Bool-cases (uuid_ok v)) [
        | inl good ↦ rw (e, u, good) (good, h.1)
        | inr bad ↦ rw (e, u, bad) tt
      ]
      | inr u ↦ elim (Bool-cases (bytes_eq k (codes "seqno"))) [
        | inl s ↦ elim (Option-cases (atoi v)) [
          | inl bad ↦ rw (e, u, s, bad) tt
          | inr (z, good) ↦ rw (e, u, s, good) (h.0, atoi-IsInt v z good)
        ]
        | inr s ↦ elim (Bool-cases (bytes_eq k (codes "safe_to_bootstrap"))) [
          | inl b ↦ rw (e, u, s, b) (keep (map_error (parse_bool v)))
          | inr b ↦ rw (e, u, s, b) h
        ]
      ]
    ]
  ]
    where
      keep :
          (r : Result StateError Bool)
          → Ensures FieldsOk (r >>= λ b. ok (record f { safe_to_bootstrap = some b }))
      keep (ok b) = h
      keep (err e) = tt

  read_parts-FieldsOk :
      (f : Fields) (ps : List Bytes) → FieldsOk f → Ensures FieldsOk (read_parts uuid_ok f ps)
  unfolding read_parts
  read_parts-FieldsOk f (k ∷ v ∷ []) h = read_field-FieldsOk f (trim_space k) (trim_space v) h
  read_parts-FieldsOk f _ h = h

  read_lines-FieldsOk :
      (f : Fields) (ls : List Bytes) → FieldsOk f → Ensures FieldsOk (read_lines uuid_ok f ls)
  unfolding read_lines
  read_lines-FieldsOk f [] h = h
  read_lines-FieldsOk f (l ∷ ls) h =
      Ensures-bind FieldsOk FieldsOk _ _ (read_parts-FieldsOk f (split b':' l) h)
        (λ f' h'. read_lines-FieldsOk f' ls h')

  abbrev StateOk : GaleraState → Type 0
  StateOk g = (uuid_ok g.uuid ≡ true) × IsInt g.seqno

  state_of-StateOk :
      (v u : Option Bytes) (s : Option ℤ) (b : Option Bool)
      → UuidOk u
      → SeqnoOk s
      → Ensures StateOk (state_of v u s b)
  unfolding state_of
  state_of-StateOk (some v) (some u) (some s) (some b) hu hs = (hu, hs)
  state_of-StateOk _ _ _ _ hu hs = tt

  unmarshal-StateOk : (text : Bytes) → Ensures StateOk (unmarshal uuid_ok text)
  unfolding unmarshal
  unmarshal-StateOk text =
      Ensures-bind StateOk FieldsOk _ _ (read_lines-FieldsOk no_fields (scan_lines text) (tt, tt))
        (λ f h. state_of-StateOk f.version f.uuid f.seqno f.safe_to_bootstrap h.0 h.1)

  abbrev BootstrapOk : Bootstrap → Type 0
  BootstrapOk b = (uuid_ok b.uuid ≡ true) × IsInt b.seqno

  abbrev FoundOk : Option Bootstrap → Type 0
  FoundOk none = Unit {0}
  FoundOk (some b) = BootstrapOk b

  read_position-FoundOk :
      (last : Option Bootstrap) (ps : List Bytes)
      → FoundOk last
      → Ensures FoundOk (read_position uuid_ok last ps)
  unfolding read_position
  read_position-FoundOk last (u ∷ s ∷ []) h = elim (Bool-cases (uuid_ok (trim_space u))) [
    | inr bad ↦ rw bad tt
    | inl good ↦ elim (Option-cases (atoi (trim_space s))) [
      | inl bad ↦ rw (good, bad) tt
      | inr (z, e) ↦ rw (good, e) (good, atoi-IsInt (trim_space s) z e)
    ]
  ]
  read_position-FoundOk last _ h = h

  read_marked-FoundOk :
      (last : Option Bootstrap) (ps : List Bytes)
      → FoundOk last
      → Ensures FoundOk (read_marked uuid_ok last ps)
  unfolding read_marked
  read_marked-FoundOk last (b ∷ a ∷ []) h = read_position-FoundOk last (split b':' a) h
  read_marked-FoundOk last _ h = h

  read_log-FoundOk :
      (last : Option Bootstrap) (ls : List Bytes)
      → FoundOk last
      → Ensures FoundOk (read_log uuid_ok last ls)
  unfolding read_log
  read_log-FoundOk last [] h = h
  read_log-FoundOk last (l ∷ ls) h =
      Ensures-bind FoundOk FoundOk _ _ (read_marked-FoundOk last (split_by marker l) h)
        (λ b hb. read_log-FoundOk b ls hb)

  found-BootstrapOk :
      (o : Option Bootstrap) (e : StateError) → FoundOk o → Ensures BootstrapOk (or_error o e)
  found-BootstrapOk none e h = tt
  found-BootstrapOk (some b) e h = h

  unmarshal_log-BootstrapOk : (text : Bytes) → Ensures BootstrapOk (unmarshal_log uuid_ok text)
  unfolding unmarshal_log
  unmarshal_log-BootstrapOk text =
      Ensures-bind BootstrapOk FoundOk _ _ (read_log-FoundOk none (scan_lines text) tt)
        (λ o h. found-BootstrapOk o _ h)

-- A state that was read from a file has a 64-bit sequence number, and can be written back:
-- `Marshal` returns its rendered text.
pub unmarshal-marshal_ok :
    (uuid_ok : Bytes → Bool) (text : Bytes) (g : GaleraState)
    → unmarshal uuid_ok text ≡ ok g
    → IsInt g.seqno × (marshal uuid_ok g ≡ ok (render g))
unfolding marshal
unmarshal-marshal_ok uuid_ok text g e =
    let (hu, hs) = ensures_ok (StateOk uuid_ok) _ g (unmarshal-StateOk uuid_ok text) e in
    (hs, rw hu)

-- A position that was read from the log of a recovery has a 64-bit sequence number and passes
-- `Bootstrap.Validate`.
pub unmarshal_log-validate :
    (uuid_ok : Bytes → Bool) (text : Bytes) (b : Bootstrap)
    → unmarshal_log uuid_ok text ≡ ok b
    → IsInt b.seqno × (validate uuid_ok b ≡ ok tt)
unfolding validate
unmarshal_log-validate uuid_ok text b e =
    let (hu, hs) =
      ensures_ok (BootstrapOk uuid_ok) _ b (unmarshal_log-BootstrapOk uuid_ok text) e in
    (hs, rw hu)
