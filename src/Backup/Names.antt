-- ===== src/Backup/Names.antt =====
-- The name of a backup without its compression: pkg/backup/processor.go.
use suture_port_mariadb_oper.Prelude.{
  ◌≡◌, refl, true, List, [], ◌∷◌, Option, Bytes, ℤ, Result, ok, err, All, ap, ◌∙◌,
}
use suture_port_mariadb_oper.Text.{split}
use suture_port_mariadb_oper.Text.Split.{Free, split-append, split_single, split_once, split-Free}
use suture_port_mariadb_oper.Backup.{
  BackupError, compress_none, validate_compression, compression_from_extension,
  logical_compression_of, logical_compression, logical_uncompressed_of, logical_uncompressed,
  logical_date_of, logical_date, physical_compression_of, physical_compression,
  physical_uncompressed_of, physical_uncompressed, physical_date, first_part, replace_ok, join,
  is_ok,
}

split-join :
    (a b d : Bytes)
    → Free b'.' a
    → Free b'.' b
    → Free b'.' d
    → split b'.' (join a (join b d)) ≡ a ∷ b ∷ d ∷ []
split-join a b d f g h =
    split-append b'.' a (join b d) ∙ cc (split_single b'.' a f, split_once b'.' b d g h)

replaced :
    {A : Type 0} (r : Result BackupError A) (s u : Bytes)
    → replace_ok r s ≡ ok u
    → (u ≡ s) × (is_ok r ≡ true)
replaced (ok a) s u h = (cc, refl)
replaced (err e) s u h = cc

module _ (parse_date : Bytes → Option ℤ) where
  logical_parts :
      (parts : List Bytes) (u : Bytes)
      → All (Free b'.') parts
      → logical_uncompressed_of parts ≡ ok u
      → (logical_compression u ≡ ok compress_none)
        × (is_ok (logical_compression_of parts) ≡ true)
        × (logical_date parse_date u ≡ logical_date_of parse_date parts)
  unfolding logical_uncompressed_of logical_compression_of logical_compression logical_date
      logical_date_of
  logical_parts [] u f h = cc
  logical_parts (a ∷ []) u f h = cc
  logical_parts (a ∷ b ∷ []) u f h = cc
  logical_parts (a ∷ b ∷ c ∷ []) u f h = cc
  logical_parts (a ∷ b ∷ c ∷ d ∷ []) u f h =
      let r = replaced (validate_compression c) (join a (join b d)) u h in
      let parts = ap (split b'.') r.0 ∙ split-join a b d f.0 f.1.0 f.1.1.1.0 in
      (ap logical_compression_of parts, r.1, ap (logical_date_of parse_date) parts)
  logical_parts (a ∷ b ∷ c ∷ d ∷ e ∷ r) u f h = cc

  physical_parts :
      (parts : List Bytes) (u : Bytes)
      → All (Free b'.') parts
      → physical_uncompressed_of parts ≡ ok u
      → (physical_compression u ≡ ok compress_none)
        × (is_ok (physical_compression_of parts) ≡ true)
        × (first_part (split b'.' u) ≡ first_part parts)
  unfolding physical_uncompressed_of physical_compression_of physical_compression
  physical_parts [] u f h = cc
  physical_parts (a ∷ []) u f h = cc
  physical_parts (a ∷ b ∷ []) u f h = cc
  physical_parts (a ∷ b ∷ c ∷ []) u f h =
      let r = replaced (compression_from_extension c) (join a b) u h in
      let parts = ap (split b'.') r.0 ∙ split_once b'.' a b f.0 f.1.0 in
      (ap physical_compression_of parts, r.1, ap first_part parts)
  physical_parts (a ∷ b ∷ c ∷ d ∷ r) u f h = cc

  -- When the compression is taken off the name of a logical backup, the name had a valid one, and
  -- the new name has none and the same date.
  pub logical_uncompressed_lem :
      (file_name u : Bytes)
      → logical_uncompressed file_name ≡ ok u
      → (logical_compression u ≡ ok compress_none)
        × (is_ok (logical_compression file_name) ≡ true)
        × (logical_date parse_date u ≡ logical_date parse_date file_name)
  unfolding logical_uncompressed logical_compression logical_date
  logical_uncompressed_lem file_name u h =
      logical_parts (split b'.' file_name) u (split-Free b'.' file_name) h

  -- The same for the name of a physical backup.
  pub physical_uncompressed_lem :
      (file_name u : Bytes)
      → physical_uncompressed file_name ≡ ok u
      → (physical_compression u ≡ ok compress_none)
        × (is_ok (physical_compression file_name) ≡ true)
        × (physical_date parse_date u ≡ physical_date parse_date file_name)
  unfolding physical_uncompressed physical_compression physical_date
  physical_uncompressed_lem file_name u h =
      let r = physical_parts (split b'.' file_name) u (split-Free b'.' file_name) h in
      (r.0, r.1, rw r.2 refl)
