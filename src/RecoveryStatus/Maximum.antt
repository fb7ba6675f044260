-- ===== src/RecoveryStatus/Maximum.antt =====
-- `bootstrapSource` chooses the largest sequence number.
use suture_port_mariadb_oper.Prelude.{
  ◌≡◌, inl, inr, true, false, List, [], ◌∷◌, Option, none, some, arith, Bytes, ℤ, pos, leb_ℤ, ◌≤ℤ◌,
  ok, Bool-cases, All,
}
use suture_port_mariadb_oper.GaleraState.{
  Bootstrap, GaleraRecoverer, get_uuid, get_seqno, compare_to,
}
use suture_port_mariadb_oper.Api.{MariaDb, GaleraRecoveryStatus}
use suture_port_mariadb_oper.RecoveryStatus.{
  state_of_pod, recovered_of_pod, as_recoverer_state, as_recoverer_bootstrap, valid_seqno,
  should_skip_recoverer, is_safe, get_pod_names, is_complete, BootstrapSource, Current, consider,
  finish, finish_at, source_of, search_pod, search_pods, bootstrap_source,
}

-- The number of the position, if there is one, is at most `s`.
abbrev pub AtMost : Option GaleraRecoverer → ℤ → Type 0
AtMost none s = Unit {0}
AtMost (some r) s = get_seqno r ≤ℤ s

compare_ge :
    (r q : GaleraRecoverer)
    → leb_ℤ (pos 0) (compare_to r (some q)) ≡ true
    → get_seqno q ≤ℤ get_seqno r
unfolding compare_to
compare_ge r q h = ground arith

compare_lt :
    (r q : GaleraRecoverer)
    → leb_ℤ (pos 0) (compare_to r (some q)) ≡ false
    → get_seqno r ≤ℤ get_seqno q
unfolding compare_to
compare_lt r q h = ground arith

considered :
    (r : GaleraRecoverer) (p pod : Bytes) (o : Option GaleraRecoverer) (s : ℤ)
    → AtMost (consider (some r) p (record { source = o; pod = pod })).source s
    → AtMost o s × (valid_seqno (some r) ≡ true → AtMost (some r) s)
unfolding consider
considered r p pod none s h = (tt, λ v. unfold compare_to in rw v at h)
considered r p pod (some q) s h = elim (Bool-cases (valid_seqno (some r))) [
  | inl v ↦ elim (Bool-cases (leb_ℤ (pos 0) (compare_to r (some q)))) [
    | inl c ↦ let k : get_seqno r ≤ℤ s = rw (v, c) at h in (omega (arith, compare_ge r q c), λ _. k)
    | inr c ↦ let k : get_seqno q ≤ℤ s = rw (v, c) at h in (k, λ _. omega (arith, compare_lt r q c))
  ]
  | inr v ↦ (rw v at h, λ w. absurd (ground arith))
]

consider-AtMost :
    (r : Option GaleraRecoverer) (p : Bytes) (cur : Current) (s : ℤ)
    → AtMost (consider r p cur).source s
    → AtMost cur.source s × (valid_seqno r ≡ true → AtMost r s)
unfolding consider
consider-AtMost none p cur s h = (h, λ v. tt)
consider-AtMost (some r) p cur s h = considered r p cur.pod cur.source s h

-- Every valid number of the Pod is at most `s`, unless the Pod is skipped.
pub record IsDominated (rs : GaleraRecoveryStatus) (s : ℤ) (p : Bytes) : Type 0 where
  pub by_state :
      should_skip_recoverer (as_recoverer_bootstrap (recovered_of_pod rs p)) ≡ false
      → valid_seqno (as_recoverer_state (state_of_pod rs p)) ≡ true
      → AtMost (as_recoverer_state (state_of_pod rs p)) s
  pub by_recovered :
      should_skip_recoverer (as_recoverer_bootstrap (recovered_of_pod rs p)) ≡ false
      → valid_seqno (as_recoverer_bootstrap (recovered_of_pod rs p)) ≡ true
      → AtMost (as_recoverer_bootstrap (recovered_of_pod rs p)) s

-- The source has a position, with a number that bounds those of the Pods.
abbrev Wins : GaleraRecoveryStatus → List Bytes → Current → BootstrapSource → Type 0
Wins rs pods cur src =
    (b : Bootstrap) × (src.bootstrap ≡ some b)
    × AtMost cur.source b.seqno
    × All (IsDominated rs b.seqno) pods

finish-Wins :
    (rs : GaleraRecoveryStatus) (o : Option GaleraRecoverer) (pod : Bytes) (src : BootstrapSource)
    → finish_at o pod ≡ ok src
    → Wins rs [] (record { source = o; pod = pod }) src
unfolding finish_at source_of
finish-Wins rs none pod src e = absurd (cc)
finish-Wins rs (some r) pod src e =
    (record { uuid = get_uuid r; seqno = get_seqno r }, ground arith, omega arith, tt)

search_pods-Wins :
    (rs : GaleraRecoveryStatus) (cur : Current) (pods : List Bytes) (src : BootstrapSource)
    → All (λ p. is_safe (state_of_pod rs p) ≡ false) pods
    → search_pods rs cur pods ≡ ok src
    → Wins rs pods cur src
unfolding search_pods search_pod finish
search_pods-Wins rs cur [] src safe e = finish-Wins rs cur.source cur.pod src e
search_pods-Wins rs cur (p ∷ pods) src safe e =
    elim (Bool-cases (should_skip_recoverer (as_recoverer_bootstrap (recovered_of_pod rs p)))) [
      | inl skip ↦
          let (b, eq, most, rest) =
            search_pods-Wins rs cur pods src safe.1 (rw (safe.0, skip) at e) in
          (
            b,
            eq,
            most,
            (
              record {
                by_state = λ k. absurd (ground arith);
                by_recovered = λ k. absurd (ground arith);
              },
              rest,
            ),
          )
      | inr go ↦
          let state = as_recoverer_state (state_of_pod rs p) in
          let recovered = as_recoverer_bootstrap (recovered_of_pod rs p) in
          let (b, eq, most, rest) =
            search_pods-Wins rs (consider recovered p (consider state p cur)) pods src safe.1
              (rw (safe.0, go) at e) in
          let (most', by_recovered) =
            consider-AtMost recovered p (consider state p cur) b.seqno most in
          let (most'', by_state) = consider-AtMost state p cur b.seqno most' in
          (
            b,
            eq,
            most'',
            (record { by_state = λ _. by_state; by_recovered = λ _. by_recovered }, rest),
          )
    ]

-- When no Pod is forced, and none is safe to bootstrap from, the source has a position whose sequence number is at
-- least every valid one, in the state or the recovered position, of the Pods that are not skipped.
pub bootstrap_source-IsDominated :
    (rs : GaleraRecoveryStatus) (mdb : MariaDb) (src : BootstrapSource)
    → All (λ p. is_safe (state_of_pod rs p) ≡ false) (get_pod_names mdb)
    → bootstrap_source rs mdb none ≡ ok src
    → (b : Bootstrap) × (src.bootstrap ≡ some b) × All (IsDominated rs b.seqno) (get_pod_names mdb)
unfolding bootstrap_source
bootstrap_source-IsDominated rs mdb src safe e = elim (Bool-cases (is_complete rs mdb)) [
  | inl done ↦
      let (b, eq, _, all) =
        search_pods-Wins rs (record { source = none; pod = [] }) (get_pod_names mdb) src safe
          (rw done at e) in
      (b, eq, all)
  | inr open_ ↦ absurd (ground arith)
]
