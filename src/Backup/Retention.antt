-- ===== src/Backup/Retention.antt =====
-- Which backups are deleted: pkg/backup/processor.go.
use suture_port_mariadb_oper.Prelude.{
  ◌≡◌, ◌↔◌, refl, sym, subst, true, List, [], ◌∷◌, Option, none, some, Bytes, ℤ, pos, ltb_ℤ, ◌-ℤ◌,
  ◌<ℤ◌, ◌≤ℤ◌, In, inl, inr, Bool-cases, arith,
}
use suture_port_mariadb_oper.Backup.{is_old, clamp, sub_time, get_old_backup_files, max_duration}

-- A duration below the greatest one is not changed by the bounds.
clamp_over : (r d : ℤ) → pos 0 ≤ℤ r → r <ℤ pos max_duration → ltb_ℤ r (clamp d) ≡ true → r <ℤ d
unfolding clamp
clamp_over r d z b h = ground arith

over_clamp : (r d : ℤ) → pos 0 ≤ℤ r → r <ℤ pos max_duration → r <ℤ d → ltb_ℤ r (clamp d) ≡ true
unfolding clamp
over_clamp r d z b h = ground arith

-- The file has a date, and its age is more than the retention.
abbrev pub Outdated : (Bytes → Option ℤ) → ℤ → ℤ → Bytes → Type 0
Outdated date_of now max_retention file =
    (date : ℤ) × (date_of file ≡ some date) × (max_retention <ℤ now -ℤ date)

module _ (date_of : Bytes → Option ℤ) (now max_retention : ℤ) (nonneg : pos 0 ≤ℤ max_retention)
    (bounded : max_retention <ℤ pos max_duration) where
  is_old-Outdated :
      (file : Bytes) (o : Option ℤ)
      → date_of file ≡ o
      → is_old now max_retention o ≡ true
      → Outdated date_of now max_retention file
  unfolding is_old sub_time
  is_old-Outdated file none e h = cc
  is_old-Outdated file (some date) e h =
      (date, e, clamp_over max_retention (now -ℤ date) nonneg bounded h)

  Outdated-is_old :
      (file : Bytes)
      → Outdated date_of now max_retention file
      → is_old now max_retention (date_of file) ≡ true
  unfolding is_old sub_time
  Outdated-is_old file h = rw h.1 (over_clamp max_retention (now -ℤ h.0) nonneg bounded h.2)

  -- With a retention that is not negative and below the greatest duration: a file is deleted exactly
  -- when it is listed and its name has a date that lies back longer than the retention. So a file
  -- whose name has no date is never deleted.
  pub get_old_backup_files_iff :
      (files : List Bytes) (file : Bytes)
      → In file (get_old_backup_files date_of now files max_retention)
        ↔ (In file files × Outdated date_of now max_retention file)
  unfolding get_old_backup_files
  get_old_backup_files_iff [] file = ((λ h. absurd h), λ h. absurd h.0)
  get_old_backup_files_iff (g ∷ files) file =
      elim (Bool-cases (is_old now max_retention (date_of g))) [
        | inl e ↦ rw e (
          (λ h. elim h [
            | inl q ↦ (
              inl q,
              subst (Outdated date_of now max_retention) (sym q)
                  (is_old-Outdated g (date_of g) refl e),
            )
            | inr m ↦ let r = (get_old_backup_files_iff files file).0 m in (inr r.0, r.1)
          ]),
          (λ h. elim h.0 [
            | inl q ↦ inl q
            | inr m ↦ inr ((get_old_backup_files_iff files file).1 (m, h.1))
          ]),
        )
        | inr e ↦ rw e (
          (λ h. let r = (get_old_backup_files_iff files file).0 h in (inr r.0, r.1)),
          (λ h. elim h.0 [
            | inl q ↦ cc (Outdated-is_old g (subst (Outdated date_of now max_retention) q h.1), e)
            | inr m ↦ (get_old_backup_files_iff files file).1 (m, h.1)
          ]),
        )
      ]
