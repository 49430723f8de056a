-- ===== src/Strategies/SmartMoney.antt =====
-- src/poly_meridian/strategies/smart_money.py: `SmartMoneyStrategy`, which follows clusters of
-- wallets. `str.lower` is an argument; the text of the attribution log is left out, and counters
-- of refused signals are too.
use poly_meridian.Prelude.{
  ℕ, zero, suc, ◌≡◌, Bool, true, false, not, ◌&&◌, ◌||◌, Option, none, some, List, [], ◌∷◌, map,
  filter, String, if◌then◌else◌, get_or, length, ltb, leb, ◌==◌, string_eq, nat_eq,
}
use Prim.Native.Nat.{◌-◌ as ◌-ℕ◌, ◌*◌ as ◌*ℕ◌}
use poly_meridian.Prelude.Chain.{◌>>=◌, require}
use poly_meridian.Prelude.Dict.{Dict, get, insert, values}
use poly_meridian.Num.{
  Num, Convert, Quantize, to_float, to_decimal, ◌+◌, ◌-◌, ◌*◌, ◌/◌, ◌<?◌, ◌≤?◌, lit, max, min, sum,
}
use poly_meridian.Domain.{Datetime, Clock, Action, Market}
use poly_meridian.Book.{LocalBook}
use poly_meridian.Features.{ask_of}
use poly_meridian.Aggregator.{StrategySignal}
use poly_meridian.Risk.Kelly.{sized_kelly}
pub mod Filters

pub record WalletFlow (F : Type 0) : Type 0 where
  pub wallet : String
  pub direction : String
  pub net_usd : F
  pub last_update : Datetime
  pub tier : ℕ

pub record ClusterState (F : Type 0) : Type 0 where
  pub condition_id : String
  pub yes_flows : List (WalletFlow F)
  pub no_flows : List (WalletFlow F)
  pub last_update : Datetime

pub record SmartMoneyStrategy (F D : Type 0) : Type 0 where
  pub enabled : Bool
  pub tier1_min_cluster : ℕ
  pub tier2_min_cluster : ℕ
  pub tier3_auto_trade : Bool
  pub min_net_usd_per_wallet : F
  pub latency_decay_sec : ℕ
  pub freshness_max_sec : ℕ
  pub max_size_pct_tier1 : F
  pub max_size_pct_tier2 : F
  pub max_size_pct_tier3 : F
  pub books : Dict String (LocalBook D)
  pub cluster_state : Dict String (ClusterState F)
  pub wallet_tier : Dict String ℕ
  pub wallet_drawdown : Dict String F
  pub wallet_hedge_flag : List String

-- What `_pick_best_cluster` returns: the side, the tier and the flows.
pub record Cluster (F : Type 0) : Type 0 where
  pub on_yes : Bool
  pub tier : ℕ
  pub flows : List (WalletFlow F)

pub record Rationale (F : Type 0) : Type 0 where
  pub tier : ℕ
  pub direction : String
  pub cluster_size : ℕ
  pub net_usd_total : F
  pub best_ask : F
  pub our_p_long : F
  pub market_p_long : F
  pub max_size_pct : F
  pub copied_from : List (ℕ × String)
  pub latency_decay_sec : ℕ

abbrev pub is_member : String → List String → Bool
is_member x [] = false
is_member x (y ∷ ys) = let rest = is_member x ys in if y == x then true else rest

-- `f.tier or 3`
abbrev pub tier_or_three : ℕ → ℕ
tier_or_three n = if n == 0 then 3 else n

-- A table of the three tiers.
abbrev pub by_tier : {A : Type 0} → ℕ → A → A → A → A
by_tier tier a b c = if tier == 1 then a else if tier == 2 then b else c

module _ {F D : Type 0} where
  unfoldable pub attach_book :
      String → LocalBook D → SmartMoneyStrategy F D → SmartMoneyStrategy F D
  attach_book token book s = record s { books = insert token book s.books }

  unfoldable pub attach_cluster_state :
      ClusterState F → SmartMoneyStrategy F D → SmartMoneyStrategy F D
  attach_cluster_state state s = record s {
    cluster_state = insert state.condition_id state s.cluster_state;
  }

  unfoldable pub attach_wallet_tier :
      (String → String) → String → ℕ → SmartMoneyStrategy F D → SmartMoneyStrategy F D
  attach_wallet_tier lower wallet tier s = record s {
    wallet_tier = insert (lower wallet) tier s.wallet_tier;
  }

  unfoldable pub attach_wallet_drawdown :
      (String → String) → String → F → SmartMoneyStrategy F D → SmartMoneyStrategy F D
  attach_wallet_drawdown lower wallet drawdown s = record s {
    wallet_drawdown = insert (lower wallet) drawdown s.wallet_drawdown;
  }

  unfoldable pub attach_wallet_hedge_flag :
      (String → String) → String → Bool → SmartMoneyStrategy F D → SmartMoneyStrategy F D
  attach_wallet_hedge_flag lower wallet is_hedger s =
      let others = filter (λ (w : String). not (w == lower wallet)) s.wallet_hedge_flag in
      record s { wallet_hedge_flag = if is_hedger then lower wallet ∷ others else others }

module _ {F D : Type 0} ⦃nf : Num F⦄ (lower : String → String) where
  -- The filters that a flow passes to be counted.
  abbrev pub is_eligible : SmartMoneyStrategy F D → Datetime → WalletFlow F → Bool
  is_eligible s cutoff f =
      not (ltb f.last_update cutoff)
      && not (f.net_usd <? s.min_net_usd_per_wallet)
      && not (is_member (lower f.wallet) s.wallet_hedge_flag)
      && not (lit 20 2 ≤? get_or (get (lower f.wallet) s.wallet_drawdown) (lit 0 0))

  -- A flow with its tier resolved.
  abbrev pub resolved : SmartMoneyStrategy F D → WalletFlow F → WalletFlow F
  resolved s f = record f {
    tier = get_or (get (lower f.wallet) s.wallet_tier) (tier_or_three f.tier);
  }

  unfoldable pub filter_eligible :
      SmartMoneyStrategy F D → Datetime → List (WalletFlow F) → List (WalletFlow F)
  filter_eligible s cutoff [] = []
  filter_eligible s cutoff (f ∷ fs) =
      let rest = filter_eligible s cutoff fs in
      if is_eligible s cutoff f then resolved s f ∷ rest else rest

module _ {F : Type 0} ⦃nf : Num F⦄ where
  -- A wallet keeps its largest flow.
  abbrev pub keep_largest : WalletFlow F → Dict String (WalletFlow F) → Dict String (WalletFlow F)
  keep_largest f bucket = elim (get f.wallet bucket) [
    | none ↦ insert f.wallet f bucket
    | some cur ↦ (if cur.net_usd <? f.net_usd then insert f.wallet f bucket else bucket)
  ]

  unfoldable pub bucket_wallets :
      ℕ → List (WalletFlow F) → Dict String (WalletFlow F) → Dict String (WalletFlow F)
  bucket_wallets tier [] bucket = bucket
  bucket_wallets tier (f ∷ fs) bucket =
      bucket_wallets tier fs (if f.tier == tier then keep_largest f bucket else bucket)

  unfoldable pub distinct_wallets : ℕ → List (WalletFlow F) → List (WalletFlow F)
  unfolding bucket_wallets
  distinct_wallets tier fs = values (bucket_wallets tier fs [])

module _ {F : Type 0} where
  -- The first of the four clusters that is large enough.
  unfoldable pub pick_best_cluster :
      ℕ
      → ℕ
      → List (WalletFlow F)
      → List (WalletFlow F)
      → List (WalletFlow F)
      → List (WalletFlow F)
      → Option (Cluster F)
  pick_best_cluster min1 min2 yes1 yes2 no1 no2 =
      if leb min1 (length yes1)
      then some (record { on_yes = true; tier = 1; flows = yes1 })
      else if leb min1 (length no1)
      then some (record { on_yes = false; tier = 1; flows = no1 })
      else if leb min2 (length yes2)
      then some (record { on_yes = true; tier = 2; flows = yes2 })
      else if leb min2 (length no2)
      then some (record { on_yes = false; tier = 2; flows = no2 })
      else none

module _ {F D : Type 0} ⦃nf : Num F⦄ (lower : String → String) where
  -- `now - timedelta(seconds=self.latency_decay_sec)`
  abbrev pub cutoff_of : Datetime → SmartMoneyStrategy F D → Datetime
  cutoff_of now s = now -ℕ s.latency_decay_sec *ℕ 1000000

  -- The wallets of one side and tier that count.
  abbrev pub wallets_of :
      Datetime → SmartMoneyStrategy F D → ℕ → List (WalletFlow F) → List (WalletFlow F)
  wallets_of now s tier flows =
      distinct_wallets tier (filter_eligible lower s (cutoff_of now s) flows)

  unfoldable pub chosen_cluster :
      Datetime → SmartMoneyStrategy F D → ClusterState F → Option (Cluster F)
  chosen_cluster now s cs =
      pick_best_cluster s.tier1_min_cluster s.tier2_min_cluster (wallets_of now s 1 cs.yes_flows)
        (wallets_of now s 2 cs.yes_flows) (wallets_of now s 1 cs.no_flows)
        (wallets_of now s 2 cs.no_flows)

abbrev pub side_token : {D : Type 0} → Bool → Market D → String
side_token on_yes m = if on_yes then m.yes_token_id else m.no_token_id

module _ {F D : Type 0} ⦃nf : Num F⦄ ⦃cv : Convert F D⦄ where
  abbrev pub our_p : ℕ → D → F
  our_p tier price =
      max (lit 1 2) (min (lit 99 2) (to_float price + by_tier tier (lit 10 2) (lit 7 2) (lit 4 2)))

  abbrev pub conviction_of : SmartMoneyStrategy F D → Cluster F → F
  conviction_of s c =
      let least = if ltb s.tier1_min_cluster 1 then 1 else s.tier1_min_cluster in
      let ratio : F = lit (length c.flows) 0 / lit least 0 in
      max (lit 0 0) (
        min (lit 1 0)
          ((lit 5 1 + lit 1 1 * (ratio - lit 1 0)) * by_tier c.tier (lit 1 0) (lit 7 1) (lit 4 1)))

  abbrev pub signal_of :
      Datetime → Market D → SmartMoneyStrategy F D → Cluster F → D → StrategySignal (Rationale F) F
  signal_of now m s c price = record {
    ts = now;
    strategy = "smart_money";
    condition_id = m.condition_id;
    token_id = side_token c.on_yes m;
    edge = our_p c.tier price - to_float price;
    conviction = conviction_of s c;
    suggested_action = if c.on_yes then Action.buy_yes else Action.buy_no;
    rationale = record {
      tier = c.tier;
      direction = if c.on_yes then "YES" else "NO";
      cluster_size = length c.flows;
      net_usd_total = sum (map (λ (f : WalletFlow F). f.net_usd) c.flows);
      best_ask = to_float price;
      our_p_long = our_p c.tier price;
      market_p_long = to_float price;
      max_size_pct = by_tier c.tier s.max_size_pct_tier1 s.max_size_pct_tier2 s.max_size_pct_tier3;
      copied_from = map (λ (f : WalletFlow F). (f.tier, f.wallet)) c.flows;
      latency_decay_sec = s.latency_decay_sec;
    };
  }

module _ {F D : Type 0} ⦃nf : Num F⦄ ⦃nd : Num D⦄ ⦃cv : Convert F D⦄ ⦃ck : Clock F⦄
    (lower : String → String) where
  unfoldable pub evaluate :
      Datetime → Market D → SmartMoneyStrategy F D → Option (StrategySignal (Rationale F) F)
  evaluate now m s = do
    _ ← require s.enabled
    cs ← get m.condition_id s.cluster_state
    _ ← require (not (lit s.freshness_max_sec 0 <? ck.seconds_between now cs.last_update))
    c ← chosen_cluster lower now s cs
    _ ← require (not (c.tier == 3 && not s.tier3_auto_trade))
    price ← ask_of s.books (side_token c.on_yes m)
    some (signal_of now m s c price)

-- The aggregator's helpers.
abbrev pub proposed_price : {F D : Type 0} ⦃cv : Convert F D⦄ → Rationale F → D
proposed_price r = to_decimal r.best_ask

module _ {F D : Type 0} ⦃nf : Num F⦄ ⦃nd : Num D⦄ ⦃qd : Quantize D⦄ ⦃cv : Convert F D⦄ where
  abbrev pub proposed_size_pct : Rationale F → D → F → F
  proposed_size_pct r bankroll_usd max_size_pct =
      (sized_kelly r.our_p_long r.market_p_long bankroll_usd (lit 25 2)
        (min max_size_pct r.max_size_pct)).f_used
