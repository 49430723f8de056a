-- ===== src/Strategies/ClusterBuilder/Transfers.antt =====
-- ClusterStateBuilder: which transfers of the chain are counted.
use text.Mathlib.Text.{find?}
use poly_meridian.Prelude.{
  ◌≡◌, ◌⊎◌, inl, inr, true, some, String, is_some, arith, Option-cases, string_eq,
}
use poly_meridian.Prelude.Chain.{Ends, Ends-some, bind-Ends, require-Ends}
use poly_meridian.Prelude.Dict.{get}
use poly_meridian.Num.{Num}
use poly_meridian.Domain.{Datetime}
use poly_meridian.Strategies.ClusterBuilder.{
  ClusterStateBuilder, Reader, TransferEvent, topic_three, without_prefix, parse_token_id,
  is_receipt, receipt_of, apply_event,
}

module _ {F : Type 0} (r : Reader F) where
  -- One and the same topic is read as the token and as the receiver.
  pub record HasBoth (e : TransferEvent) (b : ClusterStateBuilder F) : Type 0 where
    pub topic : String
    pub third : topic_three e ≡ some topic
    pub token : String
    pub is_token : r.token_of_hex topic ≡ some token
    pub target : String × String
    pub registered : get token b.token_to_condition ≡ some target
    pub is_wallet :
        is_some (find? (r.lower topic) (without_prefix (r.lower (r.lower e.wallet)))) ≡ true

module _ {F : Type 0} ⦃nf : Num F⦄ (r : Reader F) where
  both :
      (e : TransferEvent) (b : ClusterStateBuilder F) (token : String) (target : String × String)
      → parse_token_id r e ≡ some token
      → get token b.token_to_condition ≡ some target
      → is_receipt r e (r.lower e.wallet) ≡ true
      → HasBoth r e b
  unfolding parse_token_id is_receipt
  both e b token target parsed registered received = elim (Option-cases (topic_three e)) [
    | inl missing ↦ absurd (ground arith)
    | inr (t, third) ↦ record {
      topic = t;
      third = third;
      token = token;
      is_token = ground arith;
      target = target;
      registered = registered;
      is_wallet = ground arith;
    }
  ]

  receipt_of-Ends :
      (e : TransferEvent) (b : ClusterStateBuilder F)
      → Ends (λ target. HasBoth r e b) (receipt_of r e b)
  unfolding receipt_of
  receipt_of-Ends e b = require-Ends _ _ (λ named. bind-Ends _ _ (λ token parsed.
      bind-Ends _ _ (λ target registered.
        require-Ends _ _
          (λ received. Ends-some (both e b token target parsed registered received)))))

  -- A transfer leaves the flows as they are unless its third topic is, at once, the number of a
  -- registered token and a text that has the wallet's address in it.
  pub apply_event-HasBoth :
      (now : Datetime) (e : TransferEvent) (b : ClusterStateBuilder F)
      → (apply_event r now e b ≡ b) ⊎ HasBoth r e b
  unfolding apply_event
  apply_event-HasBoth now e b = elim (Option-cases (receipt_of r e b)) [
    | inl ignored ↦ inl (ground (arith, ignored))
    | inr (target, counted) ↦ inr ((receipt_of-Ends e b).each target counted)
  ]
