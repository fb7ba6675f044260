-- ===== src/Replication/Triples.antt =====
-- What a step keeps true of the log, and what holds behind one that returns a value.
use suture_port_mariadb_oper.Prelude.{
  ◌≡◌, refl, sym, subst, ℕ, Bool, true, false, List, [], ◌∷◌, Option, none, some, ℤ, Result, ok,
  err, In, inl, inr,
}
use suture_port_mariadb_oper.Replication.{
  Cluster, Step, Error, Log, Event, Command, sql, resume, ◌>>=◌, ◌>>◌, wrap_error, run, client_for,
  run_all, await_all, first_error, unless_done, to_result, phase_error, is_none, disable_read_only,
  not_found, wait_replica_timeout, failed,
}

-- The command that lets a server take writes.
abbrev pub is_promotion : Command → Bool
is_promotion disable_read_only = true
is_promotion _ = false

-- `I` is kept, whether the step succeeds or not.
abbrev pub Keeps : {A : Type 0} → (Log → Type 0) → Step A → Type 0
Keeps I m = (log : Log) → I log → I (m log).1

-- A log with a command in front keeps `I`, unless the command promotes a server.
abbrev pub Calm : (Log → Type 0) → Type 0
Calm I =
    (log : Log) (i : ℤ) (c : Command) (b : Bool)
    → is_promotion c ≡ false
    → I log
    → I (sql i c b ∷ log)

pub Keeps-resume :
    {A B : Type 0} (I : Log → Type 0) (r : Result Error A) (log : Log) (k : A → Step B)
    → ((a : A) → Keeps I (k a))
    → I log
    → I (resume r log k).1
Keeps-resume I (ok a) log k hk h = hk a log h
Keeps-resume I (err e) log k hk h = h

pub Keeps-bind :
    {A B : Type 0} (I : Log → Type 0) (m : Step A) (k : A → Step B)
    → Keeps I m
    → ((a : A) → Keeps I (k a))
    → Keeps I (m >>= k)
Keeps-bind I m k hm hk = λ log h. Keeps-resume I (m log).0 (m log).1 k hk (hm log h)

pub Keeps-then :
    {B : Type 0} (I : Log → Type 0) (m : Step (Unit {0})) (n : Step B)
    → Keeps I m
    → Keeps I n
    → Keeps I (m >> n)
Keeps-then I m n hm hn = Keeps-bind I m (λ _. n) hm (λ _. hn)

pub Keeps-run :
    (I : Log → Type 0) (k : Cluster) (i : ℤ) (c : Command)
    → Calm I
    → is_promotion c ≡ false
    → Keeps I (run k i c)
unfolding run
Keeps-run I k i c calm h = λ log hl. calm log i c _ h hl

pub Keeps-client_for : (I : Log → Type 0) (k : Cluster) (i : ℤ) → Keeps I (client_for k i)
unfolding client_for
Keeps-client_for I k i = λ log h. h

pub first_error-log :
    (r : Result Error (Unit {0})) (p : Result Error (Unit {0}) × Log) → (first_error r p).1 ≡ p.1
first_error-log (ok _) p = refl
first_error-log (err e) p = refl

pub Keeps-run_all :
    (I : Log → Type 0) (body : ℕ → Step (Unit {0})) (is : List ℕ)
    → ((i : ℕ) → Keeps I (body i))
    → Keeps I (run_all body is)
unfolding run_all
Keeps-run_all I body [] h = λ log hl. hl
Keeps-run_all I body (i ∷ is) h = λ log hl.
    rw (first_error-log (body i log).0 (run_all body is (body i log).1))
      (Keeps-run_all I body is h (body i log).1 (h i log hl))

unless_done-log : (o : Option Error) (p : Result Error (Unit {0}) × Log) → (unless_done o p).1 ≡ p.1
unless_done-log none p = refl
unless_done-log (some e) p = refl

pub Keeps-await_all :
    (I : Log → Type 0) (k : Cluster) (body : ℕ → Step (Unit {0})) (is : List ℕ)
    → ((i : ℕ) → Keeps I (body i))
    → Keeps I (await_all k body is)
unfolding await_all
Keeps-await_all I k body is h = λ log hl.
    rw
      (unless_done-log (k.done (run_all body (k.schedule log is) log).1)
        (run_all body (k.schedule log is) log))
      (Keeps-run_all I body (k.schedule log is) h log hl)

-- `Q` holds of the value and the log, when a value is returned.
abbrev pub Post : {A : Type 0} → (A → Log → Type 0) → Result Error A → Log → Type 0
Post Q (ok a) log = Q a log
Post Q (err e) log = Unit {0}

pub Post-resume :
    {A B : Type 0} (P : A → Log → Type 0) (Q : B → Log → Type 0) (r : Result Error A) (log : Log)
    (k : A → Step B)
    → Post P r log
    → ((a : A) (l : Log) → P a l → Post Q (k a l).0 (k a l).1)
    → Post Q (resume r log k).0 (resume r log k).1
Post-resume P Q (ok a) log k h f = f a log h
Post-resume P Q (err e) log k h f = tt

pub Post-wrap :
    {A : Type 0} (Q : A → Log → Type 0) (r : Result Error A) (log : Log)
    → Post Q r log
    → Post Q (wrap_error r) log
Post-wrap Q (ok a) log h = h
Post-wrap Q (err e) log h = tt

-- A command that succeeds is the newest event.
pub Post-run :
    (k : Cluster) (i : ℤ) (c : Command) (log : Log)
    → Post (λ _ l. l ≡ sql i c true ∷ log) (run k i c log).0 (run k i c log).1
unfolding run
Post-run k i c log = run_answer i c log (k.exec log i c)
  where
    run_answer :
        (i : ℤ) (c : Command) (log : Log) (o : Option Error)
        → Post (λ _ l. l ≡ sql i c true ∷ log) (to_result o) (sql i c (is_none o) ∷ log)
    run_answer i c log none = refl
    run_answer i c log (some e) = tt

-- An event stays in the log.
pub Calm-In : (e : Event) → Calm (λ log. In e log)
Calm-In e = λ log i c b h hl. inr hl

pub Post-of_Keeps :
    {A : Type 0} (I : Log → Type 0) (r : Result Error A) (log : Log)
    → I log
    → Post (λ _ l. I l) r log
Post-of_Keeps I (ok a) log h = h
Post-of_Keeps I (err e) log h = tt

pub Post-map :
    {A : Type 0} (P Q : A → Log → Type 0) (r : Result Error A) (log : Log)
    → ((a : A) → P a log → Q a log)
    → Post P r log
    → Post Q r log
Post-map P Q (ok a) log f h = f a h
Post-map P Q (err e) log f h = tt

pub Post-with :
    {A : Type 0} (P : A → Log → Type 0) (I : Log → Type 0) (r : Result Error A) (log : Log)
    → Post P r log
    → I log
    → Post (λ a l. P a l × I l) r log
Post-with P I (ok a) log h i = (h, i)
Post-with P I (err e) log h i = tt

pub Post-phase :
    (Q : Unit {0} → Log → Type 0) (r : Result Error (Unit {0})) (log : Log)
    → Post Q r log
    → Post Q (phase_error r) log
Post-phase Q (ok a) log h = h
Post-phase Q (err not_found) log h = tt
Post-phase Q (err wait_replica_timeout) log h = tt
Post-phase Q (err failed) log h = tt

-- The first goroutine and the others.
pub Post-first_error :
    (E F : Log → Type 0) (r : Result Error (Unit {0})) (log : Log)
    (p : Result Error (Unit {0}) × Log)
    → Post (λ _ l. E l) r log
    → (E log → E p.1)
    → Post (λ _ l. F l) p.0 p.1
    → Post (λ _ l. E l × F l) (first_error r p).0 (first_error r p).1
Post-first_error E F (err e) log p h keep f = tt
Post-first_error E F (ok a) log p h keep f =
    Post-map (λ _ l. F l) (λ _ l. E l × F l) p.0 p.1 (λ _ q. (keep h, q)) f

pub Post-run_all :
    (body : ℕ → Step (Unit {0})) (ev : ℕ → Event) (is : List ℕ) (log : Log)
    → ((i : ℕ) (l : Log) → Post (λ _ l'. In (ev i) l') (body i l).0 (body i l).1)
    → ((is' : List ℕ) (j : ℕ) → Keeps (λ l. In (ev j) l) (run_all body is'))
    → Post (λ _ l. (i : ℕ) → In i is → In (ev i) l) (run_all body is log).0 (run_all body is log).1
unfolding run_all
Post-run_all body ev [] log done keep = λ i m. absurd m
Post-run_all body ev (i ∷ is) log done keep =
    let l = (body i log).1 in
    Post-map (λ _ l'. In (ev i) l' × ((j : ℕ) → In j is → In (ev j) l'))
      (λ _ l'. (j : ℕ) → In j (i ∷ is) → In (ev j) l')
      (first_error (body i log).0 (run_all body is l)).0
      (first_error (body i log).0 (run_all body is l)).1
      (λ _ h j m. elim m [
        | inl e ↦
            subst (λ n. In (ev n) (first_error (body i log).0 (run_all body is l)).1) (sym e) h.0
        | inr m' ↦ h.1 j m'
      ])
      (Post-first_error (λ l'. In (ev i) l') (λ l'. (j : ℕ) → In j is → In (ev j) l') (body i log).0
        l (run_all body is l) (done i log) (keep is i l) (Post-run_all body ev is l done keep))
