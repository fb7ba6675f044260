-- ===== src/RecoveryStatus/Source.antt =====
-- Which Pod `bootstrapSource` chooses.
use mathlib.Core.Path.{subst}
use mathlib.Core.Bool.{false≢true}
use suture_port_mariadb_oper.Prelude.{
  ◌≡◌, refl, sym, ap, ◌⊎◌, inl, inr, true, false, ◌&&◌, List, [], ◌∷◌, Option, none, some, arith,
  Bytes, bytes_eq, bytes_eq_iff, pos, leb_ℤ, ok, err, Bool-cases, Option-cases, All-of_In, In, Any,
  bytes_eq_refl, ◌∙◌,
}
use suture_port_mariadb_oper.DataStructures.{find}
use suture_port_mariadb_oper.DataStructures.Lists.{find_lem}
use suture_port_mariadb_oper.GaleraState.{GaleraState, GaleraRecoverer, galera_state, compare_to}
use suture_port_mariadb_oper.Api.{MariaDb, GaleraRecoveryStatus}
use suture_port_mariadb_oper.RecoveryStatus.{
  state_of_pod, recovered_of_pod, as_recoverer_state, as_recoverer_bootstrap, valid_seqno,
  should_skip_recoverer, is_safe, get_pod_names, is_complete, BootstrapSource, Current, consider,
  finish, finish_at, safe_source, source_of, search_pod, search_pods, forced_source,
  bootstrap_source, pod_not_found,
}

module _ (rs : GaleraRecoveryStatus) (names : List Bytes) where
  -- `r` is what is known of the Pod: its state, or the position that was recovered.
  abbrev pub Holds : Bytes → GaleraRecoverer → Type 0
  Holds p r =
      (as_recoverer_state (state_of_pod rs p) ≡ some r)
      ⊎ (as_recoverer_bootstrap (recovered_of_pod rs p) ≡ some r)

  abbrev CurrentOk : Current → Type 0
  CurrentOk cur =
      (cur.source ≡ none)
      ⊎ ((r : GaleraRecoverer) × (cur.source ≡ some r) × Holds cur.pod r × In cur.pod names)

  abbrev pub SourceOk : BootstrapSource → Type 0
  SourceOk src =
      (r : GaleraRecoverer) × Holds src.pod r × (src ≡ source_of r src.pod) × In src.pod names

  consider-CurrentOk :
      (r : Option GaleraRecoverer) (p : Bytes) (cur : Current)
      → ((q : GaleraRecoverer) → r ≡ some q → Holds p q)
      → In p names
      → CurrentOk cur
      → CurrentOk (consider r p cur)
  unfolding consider
  consider-CurrentOk none p cur h m c = c
  consider-CurrentOk (some r) p cur h m c =
      elim (Bool-cases (valid_seqno (some r) && leb_ℤ (pos 0) (compare_to r cur.source))) [
        | inl t ↦ rw t (inr (r, refl, h r refl, m))
        | inr t ↦ rw t c
      ]

  finish-SourceOk :
      (o : Option GaleraRecoverer) (pod : Bytes) (src : BootstrapSource)
      → CurrentOk (record { source = o; pod = pod })
      → finish_at o pod ≡ ok src
      → SourceOk src
  unfolding finish_at source_of
  finish-SourceOk none pod src c e = absurd (cc)
  finish-SourceOk (some r) pod src (inl n) e = absurd (cc)
  finish-SourceOk (some r) pod src (inr (q, same, holds, m)) e =
      let eq : source_of q pod ≡ src = cc in subst SourceOk eq (q, holds, refl, m)

  safe_source-SourceOk :
      (o : Option GaleraState) (p : Bytes) (src : BootstrapSource)
      → state_of_pod rs p ≡ o
      → In p names
      → safe_source o p ≡ ok src
      → SourceOk src
  unfolding safe_source source_of
  safe_source-SourceOk none p src o_eq m e = absurd (cc)
  safe_source-SourceOk (some g) p src o_eq m e =
      let eq : source_of (galera_state g) p ≡ src = cc in
      subst SourceOk eq (galera_state g, inl (ap as_recoverer_state o_eq), refl, m)

  search_pods-SourceOk :
      (cur : Current) (pods : List Bytes) (src : BootstrapSource)
      → ((p : Bytes) → In p pods → In p names)
      → CurrentOk cur
      → search_pods rs cur pods ≡ ok src
      → SourceOk src
  unfolding search_pods search_pod finish
  search_pods-SourceOk cur [] src h c e = finish-SourceOk cur.source cur.pod src c e
  search_pods-SourceOk cur (p ∷ pods) src h c e = elim (Bool-cases (is_safe (state_of_pod rs p))) [
    | inl safe ↦ safe_source-SourceOk (state_of_pod rs p) p src refl (h p (inl refl)) (rw safe at e)
    | inr unsafe ↦
        elim (Bool-cases (should_skip_recoverer (as_recoverer_bootstrap (recovered_of_pod rs p)))) [
          | inl skip ↦
              search_pods-SourceOk cur pods src (λ q m. h q (inr m)) c (rw (unsafe, skip) at e)
          | inr go ↦
              search_pods-SourceOk
                (consider (as_recoverer_bootstrap (recovered_of_pod rs p)) p
                  (consider (as_recoverer_state (state_of_pod rs p)) p cur))
                pods src (λ q m. h q (inr m))
                (consider-CurrentOk (as_recoverer_bootstrap (recovered_of_pod rs p)) p _
                  (λ q holds. inr holds) (h p (inl refl))
                  (consider-CurrentOk (as_recoverer_state (state_of_pod rs p)) p cur
                    (λ q holds. inl holds) (h p (inl refl)) c))
                (rw (unsafe, go) at e)
        ]
  ]

-- Without a forced Pod, the source is one of the Pods of the cluster, and its position is the state
-- of that Pod or the position that was recovered in it.
pub bootstrap_source-SourceOk :
    (rs : GaleraRecoveryStatus) (mdb : MariaDb) (src : BootstrapSource)
    → bootstrap_source rs mdb none ≡ ok src
    → SourceOk rs (get_pod_names mdb) src
unfolding bootstrap_source
bootstrap_source-SourceOk rs mdb src e = elim (Bool-cases (is_complete rs mdb)) [
  | inl done ↦
      search_pods-SourceOk rs (get_pod_names mdb) (record { source = none; pod = [] })
        (get_pod_names mdb) src (λ p m. m) (inl refl) (rw done at e)
  | inr open_ ↦ absurd (ground arith)
]

-- A forced Pod is taken as it is when it is one of the cluster's, and refused otherwise.
pub bootstrap_source-forced :
    (rs : GaleraRecoveryStatus) (mdb : MariaDb) (forced : Bytes)
    → (In forced (get_pod_names mdb)
        × (bootstrap_source rs mdb (some forced) ≡ ok (record { bootstrap = none; pod = forced })))
      ⊎ (¬ In forced (get_pod_names mdb)
          × (bootstrap_source rs mdb (some forced) ≡ err pod_not_found))
unfolding bootstrap_source forced_source
bootstrap_source-forced rs mdb forced =
    let names = get_pod_names mdb in
    let (found, missed) = find_lem names (λ pod. bytes_eq pod forced) in
    elim (Option-cases (find names (λ pod. bytes_eq pod forced))) [
      | inl e ↦ inr (
        (λ m. false≢true (
            sym (All-of_In (λ pod. bytes_eq pod forced ≡ false) names (missed e) m)
            ∙ bytes_eq_refl forced)),
        rw e,
      )
      | inr (q, e) ↦
          let (m, t) = found q e in
          let same : q ≡ forced = (bytes_eq_iff q forced).0 t in
          inl (subst (λ x. In x names) same m, rw (e, same))
    ]

safe_source_pod :
    (o : Option GaleraState) (p : Bytes) (src : BootstrapSource)
    → safe_source o p ≡ ok src
    → src.pod ≡ p
unfolding safe_source source_of
safe_source_pod none p src e = absurd (cc)
safe_source_pod (some g) p src e = ground arith

Any-tail :
    (P : Bytes → Type 0) (p : Bytes) (pods : List Bytes) → ¬ P p → Any P (p ∷ pods) → Any P pods
Any-tail P p pods n (inl h) = absurd (n h)
Any-tail P p pods n (inr m) = m

search_pods_safe :
    (rs : GaleraRecoveryStatus) (cur : Current) (pods : List Bytes) (src : BootstrapSource)
    → Any (λ p. is_safe (state_of_pod rs p) ≡ true) pods
    → search_pods rs cur pods ≡ ok src
    → is_safe (state_of_pod rs src.pod) ≡ true
unfolding search_pods search_pod finish
search_pods_safe rs cur [] src any e = absurd any
search_pods_safe rs cur (p ∷ pods) src any e = elim (Bool-cases (is_safe (state_of_pod rs p))) [
  | inl safe ↦ rw (safe_source_pod (state_of_pod rs p) p src (rw safe at e)) safe
  | inr unsafe ↦
      let rest : Any (λ q. is_safe (state_of_pod rs q) ≡ true) pods =
        Any-tail (λ q. is_safe (state_of_pod rs q) ≡ true) p pods (λ h. false≢true (sym unsafe ∙ h))
          any in
      elim (Bool-cases (should_skip_recoverer (as_recoverer_bootstrap (recovered_of_pod rs p)))) [
        | inl skip ↦ search_pods_safe rs cur pods src rest (rw (unsafe, skip) at e)
        | inr go ↦
            search_pods_safe rs
              (consider (as_recoverer_bootstrap (recovered_of_pod rs p)) p
                (consider (as_recoverer_state (state_of_pod rs p)) p cur))
              pods src rest (rw (unsafe, go) at e)
      ]
]

-- When no Pod is forced, and some Pod of the cluster is safe to bootstrap from, the source is such a
-- Pod, whatever the sequence numbers of the others are.
pub bootstrap_source_safe :
    (rs : GaleraRecoveryStatus) (mdb : MariaDb) (src : BootstrapSource)
    → Any (λ p. is_safe (state_of_pod rs p) ≡ true) (get_pod_names mdb)
    → bootstrap_source rs mdb none ≡ ok src
    → is_safe (state_of_pod rs src.pod) ≡ true
unfolding bootstrap_source
bootstrap_source_safe rs mdb src any e = elim (Bool-cases (is_complete rs mdb)) [
  | inl done ↦
      search_pods_safe rs (record { source = none; pod = [] }) (get_pod_names mdb) src any
        (rw done at e)
  | inr open_ ↦ absurd (ground arith)
]
