-- ===== src/Backup/Examples.antt =====
-- Three backups, whose dates are single digits.
use suture_port_mariadb_oper.Prelude.{
  ◌≡◌, ◌↔◌, refl, ◌-◌, List, [], ◌∷◌, Option, none, some, Bytes, codes, bytes_eq, ℤ, pos, ok, In,
  arith,
}
use suture_port_mariadb_oper.Text.{split}
use suture_port_mariadb_oper.Backup.{
  validate_compression, compression_from_extension, abs_diff, collect_file, collect, insert_diff,
  sort_diffs, first_file, pick, get_backup_target_file, get_old_backup_files,
  logical_compression_of, logical_compression, logical_uncompressed_of, logical_uncompressed,
  logical_date_of, logical_date, physical_uncompressed_of, physical_uncompressed,
}
use suture_port_mariadb_oper.Backup.Target.{Closest, get_backup_target_file-Closest}
use suture_port_mariadb_oper.Backup.Retention.{Outdated, get_old_backup_files_iff}

unfoldable digit : Bytes → Option ℤ
digit (c ∷ []) = some (pos (c - 48))
digit _ = none

abbrev files : List Bytes
files = codes "backup.3.sql" ∷ codes "backup.7.gzip.sql" ∷ codes "notes" ∷ codes "backup.4.sql" ∷ []

program : Unit {0}
unfolding digit split validate_compression compression_from_extension abs_diff collect_file collect
    insert_diff sort_diffs first_file pick get_backup_target_file logical_compression_of
    logical_compression logical_uncompressed_of logical_uncompressed logical_date_of logical_date
    physical_uncompressed_of physical_uncompressed bytes_eq
program = tt

nearest : get_backup_target_file (logical_date digit) files (pos 6) ≡ ok (codes "backup.7.gzip.sql")
unfolding program
nearest = refl

logical_name : logical_uncompressed (codes "backup.7.gzip.sql") ≡ ok (codes "backup.7.sql")
unfolding program
logical_name = refl

physical_name :
    physical_uncompressed (codes "physicalbackup-7.xb.gz") ≡ ok (codes "physicalbackup-7.xb")
unfolding program
physical_name = refl

get_backup_target_file-Closest_example :
    Closest
      (logical_date digit)
      (pos 6)
      files
      (get_backup_target_file (logical_date digit) files (pos 6))
get_backup_target_file-Closest_example =
    get_backup_target_file-Closest (logical_date digit) (pos 6) files

get_old_backup_files_iff_example :
    In (codes "backup.3.sql") (get_old_backup_files (logical_date digit) (pos 9) files (pos 4)) ↔ (
      In (codes "backup.3.sql") files
      × Outdated (logical_date digit) (pos 9) (pos 4) (codes "backup.3.sql"))
get_old_backup_files_iff_example =
    get_old_backup_files_iff (logical_date digit) (pos 9) (pos 4) (omega arith) (omega arith) files
      (codes "backup.3.sql")
