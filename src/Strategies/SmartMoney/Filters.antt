-- ===== src/Strategies/SmartMoney/Filters.antt =====
-- SmartMoneyStrategy: which wallets a signal follows.
use poly_meridian.Prelude.{
  ℕ, ◌≡◌, refl, ◌⊎◌, inl, inr, ◌≤◌, Bool, true, false, some, List, [], ◌∷◌, String, get_or, length,
  All, arith, Option-cases, Bool-cases, string_eq, nat_eq, nat_beq_iff, ◌==◌,
}
use poly_meridian.Prelude.Chain.{Ends, Ends-some, bind-Ends, require-Ends, if-Ends, Ends-none}
use poly_meridian.Prelude.Dict.{
  Dict, get, insert, values, HasDistinctKeys, insert-HasDistinctKeys, insert-All,
}
use poly_meridian.Num.{Num, Convert, ◌<?◌, ◌≤?◌, lit}
use poly_meridian.Domain.{Datetime, Clock, Market}
use poly_meridian.Features.{ask_of}
use poly_meridian.Aggregator.{StrategySignal}
use poly_meridian.Strategies.SmartMoney.{
  WalletFlow, ClusterState, SmartMoneyStrategy, Cluster, Rationale, is_member, is_eligible,
  filter_eligible, keep_largest, bucket_wallets, distinct_wallets, pick_best_cluster, cutoff_of,
  wallets_of, chosen_cluster, side_token, signal_of, evaluate,
}

module _ {F D : Type 0} ⦃nf : Num F⦄ (lower : String → String) where
  -- A flow passes the filters: it is recent and large, and its wallet neither hedges nor has lost a
  -- fifth.
  pub record IsEligible (s : SmartMoneyStrategy F D) (cutoff : Datetime) (f : WalletFlow F)
      : Type 0 where
    pub recent : cutoff ≤ f.last_update
    pub large : (s.min_net_usd_per_wallet ≤? f.net_usd) ≡ true
    pub unhedged : is_member (lower f.wallet) s.wallet_hedge_flag ≡ false
    pub calm : (get_or (get (lower f.wallet) s.wallet_drawdown) (lit 0 0) <? lit 20 2) ≡ true

  filter_eligible-All :
      (s : SmartMoneyStrategy F D) (cutoff : Datetime) (fs : List (WalletFlow F))
      → All (IsEligible s cutoff) (filter_eligible lower s cutoff fs)
  unfolding filter_eligible
  filter_eligible-All s cutoff [] = tt
  filter_eligible-All s cutoff (f ∷ fs) = elim (Bool-cases (is_eligible lower s cutoff f)) [
    | inr out ↦ rw (filter_eligible, out) (filter_eligible-All s cutoff fs)
    | inl kept ↦
        rw (filter_eligible, kept)
          (
            record {
              recent = ground arith;
              large = ground (arith, nf.le_not_lt s.min_net_usd_per_wallet f.net_usd);
              unhedged = ground arith;
              calm = ground (
                arith,
                nf.le_not_lt (lit 20 2) (get_or (get (lower f.wallet) s.wallet_drawdown) (lit 0 0)),
              );
            },
            filter_eligible-All s cutoff fs,
          )
  ]

module _ {F : Type 0} where
  -- An entry of the bucket: the flow is under its own wallet, of the tier, and has the property.
  abbrev Filed : (WalletFlow F → Type 0) → ℕ → String × WalletFlow F → Type 0
  Filed P tier e = (e.0 ≡ e.1.wallet) × (e.1.tier ≡ tier) × P e.1

  record IsBucket (P : WalletFlow F → Type 0) (tier : ℕ) (d : Dict String (WalletFlow F))
      : Type 0 where
    pub distinct : HasDistinctKeys d
    pub filed : All (Filed P tier) d

module _ {F : Type 0} ⦃nf : Num F⦄ (P : WalletFlow F → Type 0) where
  keep_largest-IsBucket :
      (tier : ℕ) (f : WalletFlow F) (d : Dict String (WalletFlow F))
      → f.tier ≡ tier
      → P f
      → IsBucket P tier d
      → IsBucket P tier (keep_largest f d)
  keep_largest-IsBucket tier f d same h b =
      let put : IsBucket P tier (insert f.wallet f d) = record {
        distinct = insert-HasDistinctKeys f.wallet f d b.distinct;
        filed = insert-All (Filed P tier) f.wallet f d (refl, same, h) b.filed;
      } in
      elim (Option-cases (get f.wallet d)) [
        | inl missing ↦ rw (keep_largest, missing) put
        | inr (cur, known) ↦ elim (Bool-cases (cur.net_usd <? f.net_usd)) [
          | inl larger ↦ rw (keep_largest, known, larger) put
          | inr smaller ↦ rw (keep_largest, known, smaller) b
        ]
      ]

  bucket_wallets-IsBucket :
      (tier : ℕ) (fs : List (WalletFlow F)) (d : Dict String (WalletFlow F))
      → All P fs
      → IsBucket P tier d
      → IsBucket P tier (bucket_wallets tier fs d)
  unfolding bucket_wallets
  bucket_wallets-IsBucket tier [] d hs b = b
  bucket_wallets-IsBucket tier (f ∷ fs) d (h, hs) b = elim (Bool-cases (f.tier == tier)) [
    | inl same ↦
        rw (bucket_wallets, same)
          (bucket_wallets-IsBucket tier fs (keep_largest f d) hs
            (keep_largest-IsBucket tier f d ((nat_beq_iff f.tier tier).0 same) h b))
    | inr other ↦ rw (bucket_wallets, other) (bucket_wallets-IsBucket tier fs d hs b)
  ]

module _ {F D : Type 0} ⦃nf : Num F⦄ (lower : String → String) where
  -- A cluster of wallets, each with one flow that passes the filters and is of the cluster's tier,
  -- and as many as the tier asks for.
  pub record IsCluster (now : Datetime) (s : SmartMoneyStrategy F D) (c : Cluster F) : Type 0 where
    pub wallets : Dict String (WalletFlow F)
    pub flows : c.flows ≡ values wallets
    pub distinct : HasDistinctKeys wallets
    pub counted : All (Filed (IsEligible lower s (cutoff_of lower now s)) c.tier) wallets
    pub enough :
        ((c.tier ≡ 1) × (s.tier1_min_cluster ≤ length c.flows))
        ⊎ ((c.tier ≡ 2) × (s.tier2_min_cluster ≤ length c.flows))

  wallets_of-IsCluster :
      (now : Datetime) (s : SmartMoneyStrategy F D) (on_yes : Bool) (tier : ℕ)
      (fs : List (WalletFlow F))
      → ((tier ≡ 1) × (s.tier1_min_cluster ≤ length (wallets_of lower now s tier fs)))
        ⊎ ((tier ≡ 2) × (s.tier2_min_cluster ≤ length (wallets_of lower now s tier fs)))
      → IsCluster now s
          (record { on_yes = on_yes; tier = tier; flows = wallets_of lower now s tier fs })
  unfolding distinct_wallets
  wallets_of-IsCluster now s on_yes tier fs enough =
      let cutoff = cutoff_of lower now s in
      let fresh = filter_eligible lower s cutoff fs in
      let b =
        bucket_wallets-IsBucket (IsEligible lower s cutoff) tier fresh []
          (filter_eligible-All lower s cutoff fs) (record { distinct = tt; filed = tt }) in
      record {
        wallets = bucket_wallets tier fresh [];
        flows = refl;
        distinct = b.distinct;
        counted = b.filed;
        enough = enough;
      }

  chosen_cluster-Ends :
      (now : Datetime) (s : SmartMoneyStrategy F D) (cs : ClusterState F)
      → Ends (IsCluster now s) (chosen_cluster lower now s cs)
  unfolding chosen_cluster pick_best_cluster
  chosen_cluster-Ends now s cs =
      if-Ends _ _ _
        (λ ok.
          Ends-some (wallets_of-IsCluster now s true 1 cs.yes_flows (inl (refl, ground arith))))
        (if-Ends _ _ _
          (λ ok.
            Ends-some (wallets_of-IsCluster now s false 1 cs.no_flows (inl (refl, ground arith))))
          (if-Ends _ _ _
            (λ ok.
              Ends-some (wallets_of-IsCluster now s true 2 cs.yes_flows (inr (refl, ground arith))))
            (if-Ends _ _ _
              (λ ok.
                Ends-some
                  (wallets_of-IsCluster now s false 2 cs.no_flows (inr (refl, ground arith))))
              Ends-none)))

module _ {F D : Type 0} ⦃nf : Num F⦄ ⦃nd : Num D⦄ ⦃cv : Convert F D⦄ (lower : String → String) where
  -- A signal follows a cluster: it buys the cluster's side at its best ask.
  pub record Follows (now : Datetime) (m : Market D) (s : SmartMoneyStrategy F D)
      (g : StrategySignal (Rationale F) F) : Type 0 where
    pub cluster : Cluster F
    pub is_cluster : IsCluster lower now s cluster
    pub price : D
    pub offered : ask_of s.books (side_token cluster.on_yes m) ≡ some price
    pub sent : g ≡ signal_of now m s cluster price

  -- Every signal follows a cluster of distinct wallets, as many as the tier asks for: each has a
  -- flow that is recent and large, is of the cluster's tier, does not hedge and has not lost a fifth.
  -- The cluster is of tier one or two, whatever the setting for tier three.
  pub evaluate-Follows :
      ⦃ck : Clock F⦄ (now : Datetime) (m : Market D) (s : SmartMoneyStrategy F D)
      (g : StrategySignal (Rationale F) F)
      → evaluate lower now m s ≡ some g
      → Follows now m s g
  unfolding evaluate
  evaluate-Follows now m s g e =
      let ends : Ends (Follows now m s) (evaluate lower now m s) = require-Ends _ _ (λ enabled.
        bind-Ends _ _ (λ cs known. require-Ends _ _ (λ fresh. bind-Ends _ _ (λ c chosen.
          require-Ends _ _ (λ traded. bind-Ends _ _ (λ price offered. Ends-some (record {
            cluster = c;
            is_cluster = (chosen_cluster-Ends lower now s cs).each c chosen;
            price = price;
            offered = offered;
            sent = refl;
          }))))))) in
      ends.each g e
