-- ===== src/Strategies/ClusterBuilder.antt =====
-- src/poly_meridian/strategies/cluster_builder.py: `ClusterStateBuilder`, which gathers the flows of
-- wallets from trades and transfers. Lower and upper case, and the reading of hexadecimal digits,
-- are arguments; the task that feeds the events one by one is left out.
use Prim.Native.String.{slice, len}
use Prim.Native.Nat.{◌-◌ as ◌-ℕ◌, ◌*◌ as ◌*ℕ◌}
use text.Mathlib.Text.{find?, starts_with}
use poly_meridian.Prelude.{
  ℕ, ◌≡◌, Bool, true, false, not, ◌&&◌, ◌||◌, Option, none, some, List, [], ◌∷◌, ◌++◌, filter,
  String, if◌then◌else◌, get_or, leb, ltb, is_some, ◌==◌, string_eq,
}
use poly_meridian.Prelude.Chain.{◌>>=◌, require}
use poly_meridian.Prelude.Dict.{Dict, get, insert}
use poly_meridian.Num.{Num, ◌<?◌, lit}
use poly_meridian.Domain.{Datetime}
use poly_meridian.Strategies.SmartMoney.{
  WalletFlow, ClusterState, SmartMoneyStrategy, attach_cluster_state,
}
pub mod Transfers

pub record ClusterStateBuilder (F : Type 0) : Type 0 where
  pub window_sec : ℕ
  pub decay_sec : ℕ
  pub flows : Dict String (List (WalletFlow F))
  pub wallet_tier : Dict String ℕ
  pub token_to_condition : Dict String (String × String)

-- How texts are read: `str.lower`, `str.upper`, `str(int(raw, 16))` and `float(int(raw, 16))`.
pub record Reader (F : Type 0) : Type 0 where
  pub lower : String → String
  pub upper : String → String
  pub token_of_hex : String → Option String
  pub value_of_hex : String → Option F

pub record TradeEvent (F : Type 0) : Type 0 where
  pub wallet : String
  pub condition_id : String
  pub direction : String
  pub side : String
  pub size_usd : F
  pub ts : Option Datetime

-- A transfer on the chain: a topic is none where it is not a text.
pub record TransferEvent : Type 0 where
  pub wallet : String
  pub topics : List (Option String)
  pub data_text : String
  pub ts : Option Datetime

pub data Event (F : Type 0) : Type 0 where
  ctf_transfer : TransferEvent → Event F
  polymarket_trade : TradeEvent F → Event F
  other_event : Event F

-- The topic at index three, where there is one and it is a text.
abbrev pub topic_three : TransferEvent → Option String
topic_three e = elim e.topics [ a ∷ b ∷ c ∷ d ∷ _ ↦ d | _ ↦ none ]

-- `text.removeprefix("0x")`
abbrev pub without_prefix : String → String
without_prefix s = if starts_with s "0x" then slice s 2 (len s) else s

module _ {F : Type 0} where
  -- `_parse_token_id`
  unfoldable pub parse_token_id : Reader F → TransferEvent → Option String
  parse_token_id r e = elim (topic_three e) [ none ↦ none | some t ↦ r.token_of_hex t ]

  -- `_is_receipt`
  unfoldable pub is_receipt : Reader F → TransferEvent → String → Bool
  is_receipt r e wallet = elim (topic_three e) [
    | none ↦ false
    | some t ↦ is_some (find? (r.lower t) (without_prefix (r.lower wallet)))
  ]

  unfoldable pub register_token_to_condition :
      Reader F → String → String → String → ClusterStateBuilder F → ClusterStateBuilder F
  register_token_to_condition r token condition direction b = record b {
    token_to_condition = insert token (condition, r.upper direction) b.token_to_condition;
  }

  unfoldable pub register_wallet_tier :
      Reader F → String → ℕ → ClusterStateBuilder F → ClusterStateBuilder F
  register_wallet_tier r wallet tier b = record b {
    wallet_tier = insert (r.lower wallet) tier b.wallet_tier;
  }

  -- `[f for f in flows if f.last_update >= now - timedelta(seconds=sec)]`
  abbrev pub since : Datetime → ℕ → List (WalletFlow F) → List (WalletFlow F)
  since now sec fs = filter (λ (f : WalletFlow F). leb (now -ℕ sec *ℕ 1000000) f.last_update) fs

  -- A flow is appended, and the condition's flows are trimmed to the window.
  abbrev pub add_flow :
      Datetime → String → WalletFlow F → ClusterStateBuilder F → ClusterStateBuilder F
  add_flow now condition f b = record b {
    flows =
        insert condition (since now b.window_sec (get_or (get condition b.flows) [] ++ f ∷ []))
          b.flows;
  }

  -- The latest of the flows' times.
  abbrev pub latest_update : Datetime → List (WalletFlow F) → Datetime
  latest_update t [] = t
  latest_update t (f ∷ fs) = latest_update (if ltb t f.last_update then f.last_update else t) fs

  abbrev pub flows_towards : String → List (WalletFlow F) → List (WalletFlow F)
  flows_towards direction fs = filter (λ (f : WalletFlow F). f.direction == direction) fs

  unfoldable pub cluster_of : Datetime → String → ℕ → List (WalletFlow F) → Option (ClusterState F)
  cluster_of now condition decay_sec kept = elim (since now decay_sec kept) [
    | [] ↦ none
    | f ∷ fs ↦ some (record {
      condition_id = condition;
      yes_flows = flows_towards "YES" (f ∷ fs);
      no_flows = flows_towards "NO" (f ∷ fs);
      last_update = latest_update f.last_update fs;
    })
  ]

  unfoldable pub snapshot_state :
      Datetime → String → ClusterStateBuilder F → Option (ClusterState F) × ClusterStateBuilder F
  unfolding cluster_of
  snapshot_state now condition b = elim (get_or (get condition b.flows) []) [
    | [] ↦ (none, b)
    | f ∷ fs ↦
        (let kept = since now b.window_sec (f ∷ fs) in
          (
            cluster_of now condition b.decay_sec kept,
            record b { flows = insert condition kept b.flows },
          ))
  ]

module _ {F : Type 0} ⦃nf : Num F⦄ (r : Reader F) where
  -- `_parse_value`
  unfoldable pub parse_value : TransferEvent → F
  parse_value e =
      if ltb (len e.data_text) 130
      then lit 0 0
      else get_or (r.value_of_hex (slice e.data_text 66 130)) (lit 0 0)

  abbrev pub is_buy_trade : TradeEvent F → Bool
  is_buy_trade e =
      let direction = r.upper e.direction in
      not (r.lower e.wallet == "")
      && not (e.condition_id == "")
      && (direction == "YES" || direction == "NO")
      && r.upper e.side == "BUY"
      && (lit 0 0 <? e.size_usd)

  -- `_apply_polymarket_trade`
  unfoldable pub apply_polymarket_trade :
      Datetime → TradeEvent F → ClusterStateBuilder F → Option String × ClusterStateBuilder F
  apply_polymarket_trade now e b =
      if is_buy_trade e
      then (
        some e.condition_id,
        add_flow now e.condition_id
            (record {
              wallet = r.lower e.wallet;
              direction = r.upper e.direction;
              net_usd = e.size_usd;
              last_update = get_or e.ts now;
              tier = get_or (get (r.lower e.wallet) b.wallet_tier) 3;
            })
            b,
      )
      else (none, b)

  -- The condition and the side of a transfer that is counted.
  unfoldable pub receipt_of : TransferEvent → ClusterStateBuilder F → Option (String × String)
  unfolding parse_token_id is_receipt
  receipt_of e b = do
    _ ← require (not (r.lower e.wallet == ""))
    token ← parse_token_id r e
    target ← get token b.token_to_condition
    _ ← require (is_receipt r e (r.lower e.wallet))
    some target

  -- `_apply_event`
  unfoldable pub apply_event :
      Datetime → TransferEvent → ClusterStateBuilder F → ClusterStateBuilder F
  unfolding receipt_of parse_value
  apply_event now e b = elim (receipt_of e b) [
    | none ↦ b
    | some (condition, direction) ↦
        add_flow now condition
          (record {
            wallet = r.lower e.wallet;
            direction = direction;
            net_usd = parse_value e;
            last_update = get_or e.ts now;
            tier = 3;
          })
          b
  ]

  unfoldable pub condition_from_event : TransferEvent → ClusterStateBuilder F → Option String
  unfolding parse_token_id
  condition_from_event e b = do
    token ← parse_token_id r e
    target ← get token b.token_to_condition
    some target.0

module _ {F D : Type 0} where
  -- The strategy is given the snapshot of a condition, if there is one.
  unfoldable pub inform :
      Datetime
      → Option String
      → ClusterStateBuilder F
      → SmartMoneyStrategy F D
      → ClusterStateBuilder F × SmartMoneyStrategy F D
  unfolding snapshot_state attach_cluster_state
  inform now none b s = (b, s)
  inform now (some condition) b s =
      let (state, trimmed) = snapshot_state now condition b in
      if condition == ""
      then (b, s)
      else (trimmed, elim state [ none ↦ s | some cs ↦ attach_cluster_state cs s ])

module _ {F D : Type 0} ⦃nf : Num F⦄ (r : Reader F) where
  -- One round of `_consume`, with a strategy attached.
  unfoldable pub consume :
      Datetime
      → Event F
      → ClusterStateBuilder F
      → SmartMoneyStrategy F D
      → ClusterStateBuilder F × SmartMoneyStrategy F D
  unfolding inform apply_event condition_from_event apply_polymarket_trade
  consume now (ctf_transfer e) b s =
      inform now (condition_from_event r e b) (apply_event r now e b) s
  consume now (polymarket_trade e) b s =
      let (condition, grown) = apply_polymarket_trade r now e b in inform now condition grown s
  consume now other_event b s = (b, s)
