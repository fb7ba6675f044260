-- ===== src/Text/Lines.antt =====
-- Laws of the line scanner and of strings.TrimSpace on text that is plain enough.
use suture_port_mariadb_oper.Prelude.{
  ◌<◌, ◌≡◌, refl, ap, ◌≢◌, false, List, [], ◌∷◌, ◌++◌, arith, Bytes, All, length, lt→ltb,
}
use suture_port_mariadb_oper.Text.{
  split, drop_cr, max_token, take_lines, scan_lines, is_space, trim_left, trim_right, trim_space,
}
use suture_port_mariadb_oper.Text.Split.{Free, split-append, split_single, split-ne_nil}

drop_cr-Free : (s : Bytes) → Free 13 s → drop_cr s ≡ s
unfolding drop_cr
drop_cr-Free [] h = refl
drop_cr-Free (c ∷ []) h = ground arith
drop_cr-Free (c ∷ d ∷ s) h = ap (λ t. c ∷ t) (drop_cr-Free (d ∷ s) h.1)

-- A line that the scanner hands out as it stands.
pub record IsLine (w : Bytes) : Type 0 where
  pub no_lf : Free 10 w
  pub no_cr : Free 13 w
  pub fits : length w < max_token

take_lines-cons :
    (w : Bytes) (ws : List Bytes) → IsLine w → ws ≢ [] → take_lines (w ∷ ws) ≡ w ∷ take_lines ws
unfolding take_lines
take_lines-cons w [] h ne = absurd (ne refl)
take_lines-cons w (v ∷ ws) h ne = rw (lt→ltb _ _ h.fits, drop_cr-Free w h.no_cr) refl

-- A line and its line feed are the first token.
pub scan_lines-cons : (w s : Bytes) → IsLine w → scan_lines (w ++ 10 ∷ s) ≡ w ∷ scan_lines s
unfolding scan_lines
scan_lines-cons w s h =
    rw (split-append 10 w s, split_single 10 w h.no_lf)
      (take_lines-cons w (split 10 s) h (split-ne_nil 10 s))

take_lines_last : (w : Bytes) → IsLine w → w ≢ [] → take_lines (w ∷ []) ≡ w ∷ []
unfolding take_lines
take_lines_last [] h ne = absurd (ne refl)
take_lines_last (c ∷ w) h ne = ground (arith, lt→ltb _ _ h.fits, drop_cr-Free (c ∷ w) h.no_cr)

-- A last line wants no line feed.
pub scan_lines_last : (w : Bytes) → IsLine w → w ≢ [] → scan_lines w ≡ w ∷ []
unfolding scan_lines
scan_lines_last w h ne = rw (split_single 10 w h.no_lf) (take_lines_last w h ne)

-- Text with no white space.
abbrev pub Solid : Bytes → Type 0
Solid s = All (λ c. is_space c ≡ false) s

trim_right-Solid : (s : Bytes) → Solid s → trim_right s ≡ s
unfolding trim_right
trim_right-Solid [] h = refl
trim_right-Solid (c ∷ s) h = rw (h.0, trim_right-Solid s h.1) refl

pub trim_space-Solid : (s : Bytes) → Solid s → trim_space s ≡ s
unfolding trim_space trim_right trim_left
trim_space-Solid [] h = refl
trim_space-Solid (c ∷ s) h = rw h.0 (trim_right-Solid (c ∷ s) h)

pub trim_space_lead : (s : Bytes) → Solid s → trim_space (b' ' ∷ s) ≡ s
unfolding trim_space trim_left is_space
trim_space_lead s h = trim_space-Solid s h
