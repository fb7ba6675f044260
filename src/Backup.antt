-- ===== src/Backup.antt =====
-- pkg/backup/processor.go: which backup file is restored, and which ones are deleted. The dates of
-- the names are parsed by the package time with a layout: `parse_date` stands for that, `none` for
-- its errors. Times are in nanoseconds.
pub mod Target
pub mod Retention
pub mod Names
mod Examples
use suture_port_mariadb_oper.Prelude.{
  ℕ, suc, ◌+◌, ◌-◌, ◌^◌, Bool, true, false, not, ◌&&◌, ◌||◌, ◌==◌, ltb, List, [], ◌∷◌, ◌++◌, Option,
  none, some, Bytes, codes, bytes_eq, ℤ, pos, negsuc, ◌-ℤ◌, ltb_ℤ, pos_part, neg_part, Result, ok,
  err, if◌then◌else◌,
}
use suture_port_mariadb_oper.Text.{split, has_prefix, has_suffix, trim_prefix, last_part}

pub data BackupError : Type 0 where
  no_valid_backup_files invalid_backup_file_name invalid_compression : BackupError
  unknown_extension : BackupError

pub data CompressAlgorithm : Type 0 where
  compress_empty compress_none compress_bzip2 compress_gzip : CompressAlgorithm

-- The conversion of a text and `Validate`.
unfoldable pub validate_compression : Bytes → Result BackupError CompressAlgorithm
validate_compression s =
    if bytes_eq s []
    then ok compress_empty
    else if bytes_eq s (codes "none")
    then ok compress_none
    else if bytes_eq s (codes "bzip2")
    then ok compress_bzip2
    else if bytes_eq s (codes "gzip")
    then ok compress_gzip
    else err invalid_compression

unfoldable pub extension : CompressAlgorithm → Bytes
extension compress_empty = []
extension compress_none = []
extension compress_bzip2 = codes "bz2"
extension compress_gzip = codes "gz"

unfoldable pub compression_from_extension : Bytes → Result BackupError CompressAlgorithm
compression_from_extension ext =
    if bytes_eq ext []
    then ok compress_none
    else if bytes_eq ext (codes "bz2")
    then ok compress_bzip2
    else if bytes_eq ext (codes "gz")
    then ok compress_gzip
    else err unknown_extension

-- The bounds of time.Duration, at which `Time.Sub` stops.
abbrev pub max_duration : ℕ
max_duration = 9223372036854775807

abbrev pub min_ℕ : ℕ → ℕ → ℕ
min_ℕ a b = if ltb a b then a else b

-- `a.Sub(b).Abs()`.
unfoldable pub abs_diff : ℤ → ℤ → ℕ
abs_diff a b = min_ℕ (pos_part (a -ℤ b) + neg_part (a -ℤ b)) max_duration

-- What is out of the range of a duration is its bound.
unfoldable pub clamp : ℤ → ℤ
clamp d =
    if ltb_ℤ (pos max_duration) d
    then pos max_duration
    else if ltb_ℤ d (negsuc max_duration)
    then negsuc max_duration
    else d

-- `a.Sub(b)`.
unfoldable pub sub_time : ℤ → ℤ → ℤ
sub_time a b = clamp (a -ℤ b)

pub record BackupDiff : Type 0 where
  pub file_name : Bytes
  pub diff : ℕ

-- What the loop of `GetBackupTargetFile` ends with: a file of the very date, or the differences.
pub data Collected : Type 0 where
  exact : Bytes → Collected
  diffs : List BackupDiff → Collected

abbrev pub cons_diff : BackupDiff → Collected → Collected
cons_diff x (exact f) = exact f
cons_diff x (diffs ds) = diffs (x ∷ ds)

unfoldable pub collect_file : Bytes → Option ℤ → ℤ → Collected → Collected
collect_file file none target rest = rest
collect_file file (some date) target rest =
    if abs_diff date target == 0
    then exact file
    else cons_diff (record { file_name = file; diff = abs_diff date target }) rest

-- sort.Slice by the difference; of equal ones any may be the first.
unfoldable pub insert_diff : BackupDiff → List BackupDiff → List BackupDiff
insert_diff x [] = x ∷ []
insert_diff x (y ∷ ys) =
    let rest = insert_diff x ys in if ltb y.diff x.diff then y ∷ rest else x ∷ y ∷ ys

unfoldable pub sort_diffs : List BackupDiff → List BackupDiff
sort_diffs [] = []
sort_diffs (x ∷ xs) = insert_diff x (sort_diffs xs)

unfoldable pub first_file : List BackupDiff → Result BackupError Bytes
first_file [] = err no_valid_backup_files
first_file (x ∷ xs) = ok x.file_name

unfoldable pub pick : Collected → Result BackupError Bytes
pick (exact f) = ok f
pick (diffs ds) = first_file (sort_diffs ds)

-- Older than the retention; a file without a date is left alone.
unfoldable pub is_old : ℤ → ℤ → Option ℤ → Bool
is_old now max_retention none = false
is_old now max_retention (some date) = ltb_ℤ max_retention (sub_time now date)

module _ (date_of : Bytes → Option ℤ) where
  unfoldable pub collect : ℤ → List Bytes → Collected
  collect target [] = diffs []
  collect target (file ∷ files) = collect_file file (date_of file) target (collect target files)

  -- `GetBackupTargetFile`, the same for both processors.
  unfoldable pub get_backup_target_file : List Bytes → ℤ → Result BackupError Bytes
  get_backup_target_file files target = pick (collect target files)

  -- `GetOldBackupFiles`, the same for both processors.
  unfoldable pub get_old_backup_files : ℤ → List Bytes → ℤ → List Bytes
  get_old_backup_files now [] max_retention = []
  get_old_backup_files now (file ∷ files) max_retention =
      let rest = get_old_backup_files now files max_retention in
      if is_old now max_retention (date_of file) then file ∷ rest else rest

abbrev pub is_ok : {E A : Type 0} → Result E A → Bool
is_ok (ok a) = true
is_ok (err e) = false

abbrev pub is_date : Option ℤ → Bool
is_date none = false
is_date (some t) = true

abbrev pub join : Bytes → Bytes → Bytes
join a b = a ++ b'.' ∷ b

-- The logical processor: backup.<date>.sql or backup.<date>.<compression>.sql.
unfoldable pub logical_compression_of : List Bytes → Result BackupError CompressAlgorithm
logical_compression_of (a ∷ b ∷ c ∷ []) = ok compress_none
logical_compression_of (a ∷ b ∷ c ∷ d ∷ []) = validate_compression c
logical_compression_of _ = err invalid_backup_file_name

unfoldable pub logical_compression : Bytes → Result BackupError CompressAlgorithm
logical_compression file_name = logical_compression_of (split b'.' file_name)

abbrev pub replace_ok : {A : Type 0} → Result BackupError A → Bytes → Result BackupError Bytes
replace_ok (ok a) s = ok s
replace_ok (err e) s = err e

unfoldable pub logical_uncompressed_of : List Bytes → Result BackupError Bytes
logical_uncompressed_of (a ∷ b ∷ c ∷ d ∷ []) =
    replace_ok (validate_compression c) (join a (join b d))
logical_uncompressed_of _ = err invalid_backup_file_name

unfoldable pub logical_uncompressed : Bytes → Result BackupError Bytes
logical_uncompressed file_name = logical_uncompressed_of (split b'.' file_name)

-- The physical processor: physicalbackup-<date>.<…> and perhaps the extension of a compression.
unfoldable pub physical_compression_of : List Bytes → Result BackupError CompressAlgorithm
physical_compression_of (a ∷ b ∷ []) = ok compress_none
physical_compression_of (a ∷ b ∷ c ∷ []) = compression_from_extension c
physical_compression_of _ = err invalid_backup_file_name

unfoldable pub physical_compression : Bytes → Result BackupError CompressAlgorithm
physical_compression file_name = physical_compression_of (split b'.' file_name)

unfoldable pub physical_uncompressed_of : List Bytes → Result BackupError Bytes
physical_uncompressed_of (a ∷ b ∷ c ∷ []) = replace_ok (compression_from_extension c) (join a b)
physical_uncompressed_of _ = err invalid_backup_file_name

unfoldable pub physical_uncompressed : Bytes → Result BackupError Bytes
physical_uncompressed file_name = physical_uncompressed_of (split b'.' file_name)

abbrev pub first_part : List Bytes → Bytes
first_part [] = []
first_part (w ∷ ws) = w

abbrev pub physical_prefix : Bytes
physical_prefix = codes "physicalbackup-"

module _ (parse_date : Bytes → Option ℤ) where
  unfoldable pub logical_date_of : List Bytes → Option ℤ
  logical_date_of (a ∷ b ∷ c ∷ []) = parse_date b
  logical_date_of (a ∷ b ∷ c ∷ d ∷ []) = parse_date b
  logical_date_of _ = none

  unfoldable pub logical_date : Bytes → Option ℤ
  logical_date file_name = logical_date_of (split b'.' file_name)

  unfoldable pub is_valid_logical : Bytes → Bool
  is_valid_logical file_name =
      has_prefix file_name (codes "backup.")
      && has_suffix file_name (codes ".sql")
      && is_ok (logical_compression file_name)
      && is_date (logical_date file_name)

  -- Without the option that replaces it; `base` is path.Base of the name.
  unfoldable pub physical_date : Bytes → Option ℤ
  physical_date base =
      let first = first_part (split b'.' base) in
      if has_prefix first physical_prefix
      then parse_date (trim_prefix first physical_prefix)
      else none

  unfoldable pub is_valid_physical : Bytes → Bool
  is_valid_physical base =
      has_prefix base physical_prefix
      && is_ok (physical_compression base)
      && is_date (physical_date base)
