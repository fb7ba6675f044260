-- ===== src/Text/Split.antt =====
-- Laws of strings.Split by one byte and of prefixes.
use mathlib.Core.Path.{subst}
use suture_port_mariadb_oper.Prelude.{
  ℕ, ◌≡◌, refl, ◌≢◌, inl, inr, true, List, [], ◌∷◌, ◌++◌, some, arith, Bytes, All, Bool-cases, ◌==◌,
}
use suture_port_mariadb_oper.Text.{has_prefix, cons_head, split, last_part, trim_prefix}

-- No byte of the text is the separator.
abbrev pub Free : ℕ → Bytes → Type 0
Free sep s = All (λ c. c ≢ sep) s

pub split-ne_nil : (sep : ℕ) (s : Bytes) → split sep s ≢ []
unfolding split
split-ne_nil sep [] = λ e. cc
split-ne_nil sep (c ∷ s) = ground (arith, split-ne_nil sep s)

cons_head-append :
    (c : ℕ) (xs ys : List Bytes) → xs ≢ [] → cons_head c (xs ++ ys) ≡ cons_head c xs ++ ys
cons_head-append c [] ys h = absurd (h refl)
cons_head-append c (x ∷ xs) ys h = refl

-- Text cut at one separator is split on either side of it.
pub split-append : (sep : ℕ) (s t : Bytes) → split sep (s ++ sep ∷ t) ≡ split sep s ++ split sep t
unfolding split
split-append sep [] t = ground arith
split-append sep (c ∷ s) t = ground (
  arith,
  split-append sep s t,
  cons_head-append c (split sep s) (split sep t),
  split-ne_nil sep s,
)

pub split_single : (sep : ℕ) (s : Bytes) → Free sep s → split sep s ≡ s ∷ []
unfolding split
split_single sep [] h = refl
split_single sep (c ∷ s) h = ground (arith, split_single sep s h.1)

pub split_once :
    (sep : ℕ) (s t : Bytes) → Free sep s → Free sep t → split sep (s ++ sep ∷ t) ≡ s ∷ t ∷ []
split_once sep s t h k = cc (split-append sep s t, split_single sep s h, split_single sep t k)

last_part-snoc : (xs : List Bytes) (w : Bytes) → last_part (xs ++ w ∷ []) ≡ some w
last_part-snoc [] w = refl
last_part-snoc (x ∷ []) w = refl
last_part-snoc (x ∷ y ∷ xs) w = last_part-snoc (y ∷ xs) w

-- What stands behind the last separator is the last part.
pub last_part-split :
    (sep : ℕ) (s t : Bytes) → Free sep t → last_part (split sep (s ++ sep ∷ t)) ≡ some t
last_part-split sep s t h =
    rw (split-append sep s t, split_single sep t h) (last_part-snoc (split sep s) t)

cons_head-Free :
    (sep c : ℕ) (ws : List Bytes) → c ≢ sep → All (Free sep) ws → All (Free sep) (cons_head c ws)
cons_head-Free sep c [] h k = ((h, tt), tt)
cons_head-Free sep c (w ∷ ws) h k = ((h, k.0), k.1)

-- No part holds the separator.
pub split-Free : (sep : ℕ) (s : Bytes) → All (Free sep) (split sep s)
unfolding split
split-Free sep [] = (tt, tt)
split-Free sep (c ∷ s) = elim (Bool-cases (c == sep)) [
  | inl e ↦ rw e (tt, split-Free sep s)
  | inr e ↦ rw e (cons_head-Free sep c (split sep s) (λ p. ground (arith, p)) (split-Free sep s))
]

some_inj : {v w : Bytes} → some v ≡ some w → v ≡ w
some_inj e = cc

pub last_part-All :
    (P : Bytes → Type 0) (ws : List Bytes) {w : Bytes} → All P ws → last_part ws ≡ some w → P w
last_part-All P [] h e = cc
last_part-All P (v ∷ []) h e = subst P (some_inj e) h.0
last_part-All P (v ∷ u ∷ ws) h e = last_part-All P (u ∷ ws) h.1 e

pub has_prefix_append : (p s : Bytes) → has_prefix (p ++ s) p ≡ true
unfolding has_prefix
has_prefix_append [] [] = refl
has_prefix_append [] (c ∷ s) = refl
has_prefix_append (d ∷ p) s = ground (arith, has_prefix_append p s)

pub trim_prefix_append : (p s : Bytes) → trim_prefix (p ++ s) p ≡ s
unfolding trim_prefix has_prefix
trim_prefix_append [] [] = refl
trim_prefix_append [] (c ∷ s) = refl
trim_prefix_append (d ∷ p) s = ground (arith, has_prefix_append p s, trim_prefix_append p s)
