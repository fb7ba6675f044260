-- ===== src/Backup/Target.antt =====
-- The backup that is nearest to the recovery time: pkg/backup/processor.go.
use suture_port_mariadb_oper.Prelude.{
  ◌≡◌, ◌≢◌, refl, sym, subst, ◌∙◌, ℕ, ◌+◌, ◌-◌, ◌≤◌, ◌<◌, pos_part, neg_part, ◌==◌, ltb, false,
  List, [], ◌∷◌, Option, none, some, Bytes, ℤ, Result, ok, err, All, Any, In, inl, inr, Bool-cases,
  arith, All-map_of, All-of_In,
}
use suture_port_mariadb_oper.Backup.{
  BackupError, BackupDiff, Collected, exact, diffs, cons_diff, collect_file, collect, insert_diff,
  sort_diffs, first_file, pick, get_backup_target_file, abs_diff, max_duration,
}

-- How far two instants are apart, in nanoseconds.
abbrev pub distance : ℤ → ℤ → ℕ
distance a b =
    (pos_part a + neg_part b - (neg_part a + pos_part b))
    + (neg_part a + pos_part b - (pos_part a + neg_part b))

-- The first difference of a sorted list is a least one of the list that was sorted.
abbrev Minimal : List BackupDiff → List BackupDiff → Type 0
Minimal ds [] = ds ≡ []
Minimal ds (x ∷ xs) = In x ds × All (λ y. x.diff ≤ y.diff) ds

insert_diff-Minimal :
    (y : BackupDiff) (ds s : List BackupDiff) → Minimal ds s → Minimal (y ∷ ds) (insert_diff y s)
unfolding insert_diff
insert_diff-Minimal y ds [] h = (inl refl, (omega arith, rw h tt))
insert_diff-Minimal y ds (x ∷ xs) h = elim (Bool-cases (ltb x.diff y.diff)) [
  | inl e ↦ rw e (inr h.0, (ground (arith, e), h.1))
  | inr e ↦ rw e (
    inl refl,
    (
      omega arith,
      All-map_of (λ z. x.diff ≤ z.diff) (λ z. y.diff ≤ z.diff) ds
          (λ z p. below x.diff y.diff z.diff e p) h.1,
    ),
  )
]
  where
    below : (a b c : ℕ) → ltb a b ≡ false → a ≤ c → b ≤ c
    below a b c e p = ground arith

sort_diffs-Minimal : (ds : List BackupDiff) → Minimal ds (sort_diffs ds)
unfolding sort_diffs
sort_diffs-Minimal [] = refl
sort_diffs-Minimal (x ∷ xs) = insert_diff-Minimal x xs (sort_diffs xs) (sort_diffs-Minimal xs)

module _ (date_of : Bytes → Option ℤ) (target : ℤ) where
  -- The file stands in the list, and this is how far its date is from the target.
  abbrev pub AtDistance : List Bytes → Bytes → ℕ → Type 0
  AtDistance files file m =
      In file files × ((date : ℤ) × (date_of file ≡ some date) × (abs_diff date target ≡ m))

  abbrev pub NotFarther : List Bytes → Result BackupError Bytes → Type 0
  NotFarther files (ok file) =
      (m : ℕ) × AtDistance files file m
      × All (λ g. (date : ℤ) → date_of g ≡ some date → m ≤ abs_diff date target) files
  NotFarther files (err e) = All (λ g. (date : ℤ) → date_of g ≢ some date) files

  abbrev Gathered : List Bytes → Collected → Type 0
  Gathered files (exact file) = AtDistance files file 0
  Gathered files (diffs ds) =
      All (λ x. AtDistance files x.file_name x.diff) ds
      × All (λ g. (date : ℤ) → date_of g ≡ some date → Any (λ x. x.diff ≡ abs_diff date target) ds)
          files

  same : (a b : ℤ) → some a ≡ some b → abs_diff a target ≡ abs_diff b target
  same a b e = cc

  farther :
      (file : Bytes) (date : ℤ) (files : List Bytes) (c : Collected)
      → date_of file ≡ some date
      → Gathered files c
      → Gathered
          (file ∷ files)
          (cons_diff (record { file_name = file; diff = abs_diff date target }) c)
  farther file date files (exact g) e h = (inr h.0, h.1)
  farther file date files (diffs ds) e h = (
    (
      (inl refl, (date, e, refl)),
      All-map_of (λ x. AtDistance files x.file_name x.diff)
          (λ x. AtDistance (file ∷ files) x.file_name x.diff) ds (λ x p. (inr p.0, p.1)) h.0,
    ),
    (
      (λ d q. inl (same date d (sym e ∙ q))),
      All-map_of (λ g. (d : ℤ) → date_of g ≡ some d → Any (λ x. x.diff ≡ abs_diff d target) ds)
          (λ g.
            (d : ℤ)
            → date_of g ≡ some d
            → Any (λ x. x.diff ≡ abs_diff d target)
                (record { file_name = file; diff = abs_diff date target } ∷ ds))
          files (λ g p d q. inr (p d q)) h.1,
    ),
  )

  Gathered-file :
      (file : Bytes) (o : Option ℤ) (files : List Bytes) (c : Collected)
      → date_of file ≡ o
      → Gathered files c
      → Gathered (file ∷ files) (collect_file file o target c)
  unfolding collect_file
  Gathered-file file none files (exact g) e h = (inr h.0, h.1)
  Gathered-file file none files (diffs ds) e h = (
    All-map_of (λ x. AtDistance files x.file_name x.diff)
        (λ x. AtDistance (file ∷ files) x.file_name x.diff) ds (λ x p. (inr p.0, p.1)) h.0,
    ((λ date q. cc), h.1),
  )
  Gathered-file file (some date) files c e h = elim (Bool-cases (abs_diff date target == 0)) [
    | inl z ↦ rw z (inl refl, (date, e, ground (arith, z)))
    | inr z ↦ rw z (farther file date files c e h)
  ]

  collect-Gathered : (files : List Bytes) → Gathered files (collect date_of target files)
  unfolding collect
  collect-Gathered [] = (tt, tt)
  collect-Gathered (f ∷ files) =
      Gathered-file f (date_of f) files (collect date_of target files) refl (collect-Gathered files)

  least_of :
      (m n : ℕ) (ds : List BackupDiff) → All (λ y. m ≤ y.diff) ds → Any (λ x. x.diff ≡ n) ds → m ≤ n
  least_of m n [] h a = absurd a
  least_of m n (d ∷ ds) h (inl e) = subst (λ k. m ≤ k) e h.0
  least_of m n (d ∷ ds) h (inr a) = least_of m n ds h.1 a

  first_file-NotFarther :
      (files : List Bytes) (ds s : List BackupDiff)
      → Minimal ds s
      → Gathered files (diffs ds)
      → NotFarther files (first_file s)
  unfolding first_file
  first_file-NotFarther files ds [] h g =
      All-map_of
        (λ f. (date : ℤ) → date_of f ≡ some date → Any (λ x. x.diff ≡ abs_diff date target) ds)
        (λ f. (date : ℤ) → date_of f ≢ some date) files
        (λ f p date q. subst (λ l. Any (λ x. x.diff ≡ abs_diff date target) l) h (p date q)) g.1
  first_file-NotFarther files ds (x ∷ xs) h g = (
    x.diff,
    All-of_In (λ y. AtDistance files y.file_name y.diff) ds g.0 h.0,
    All-map_of
        (λ f. (date : ℤ) → date_of f ≡ some date → Any (λ y. y.diff ≡ abs_diff date target) ds)
        (λ f. (date : ℤ) → date_of f ≡ some date → x.diff ≤ abs_diff date target) files
        (λ f p date q. least_of x.diff (abs_diff date target) ds h.1 (p date q)) g.1,
  )

  every : (P : Bytes → Type 0) (files : List Bytes) → ((f : Bytes) → P f) → All P files
  every P [] h = tt
  every P (f ∷ files) h = (h f, every P files h)

  pick-NotFarther :
      (files : List Bytes) (c : Collected) → Gathered files c → NotFarther files (pick c)
  unfolding pick
  pick-NotFarther files (exact file) h = (0, h, every _ files (λ f date q. omega arith))
  pick-NotFarther files (diffs ds) h =
      first_file-NotFarther files ds (sort_diffs ds) (sort_diffs-Minimal ds) h

  -- The file is nearest to the target, of those whose distance a duration can hold.
  abbrev pub Closest : List Bytes → Result BackupError Bytes → Type 0
  Closest files (ok file) =
      In file files
      × ((chosen : ℤ) × (date_of file ≡ some chosen)
          × All
              (λ g.
                (date : ℤ)
                → date_of g ≡ some date
                → distance date target < max_duration
                → distance chosen target ≤ distance date target)
              files)
  Closest files (err e) = All (λ g. (date : ℤ) → date_of g ≢ some date) files

  nearer_of :
      (c d : ℤ) (m : ℕ)
      → abs_diff c target ≡ m
      → m ≤ abs_diff d target
      → distance d target < max_duration
      → distance c target ≤ distance d target
  unfolding abs_diff
  nearer_of c d m e h b = ground (arith, e, h, b)

  Closest-NotFarther :
      (files : List Bytes) (r : Result BackupError Bytes) → NotFarther files r → Closest files r
  Closest-NotFarther files (ok file) (m, (listed, (chosen, e, at)), all) = (
    listed,
    (
      chosen,
      e,
      All-map_of (λ g. (date : ℤ) → date_of g ≡ some date → m ≤ abs_diff date target) _ files
          (λ g p date q b. nearer_of chosen date m at (p date q) b) all,
    ),
  )
  Closest-NotFarther files (err e) h = h

  -- The backup that is chosen is one of the files and has a date, and no file whose date lies less
  -- than the greatest duration from the target is nearer to it. That there is no valid backup is
  -- said only when no file has a date.
  pub get_backup_target_file-Closest :
      (files : List Bytes) → Closest files (get_backup_target_file date_of files target)
  unfolding get_backup_target_file
  get_backup_target_file-Closest files =
      Closest-NotFarther files (pick (collect date_of target files))
        (pick-NotFarther files (collect date_of target files) (collect-Gathered files))
