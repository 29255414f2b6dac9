-- ===== src/Mcp/Policy.antt =====
-- What a capability grant demands of a call, stated without the order of the code's checks, and that
-- `findGrant` lets no other call through.
use bankr_integration.Prelude.{
  ◌≡◌, refl, sym, subst, ◌⊎◌, inl, inr, Bool, true, false, not, ◌||◌, Option, none, some, List, [],
  ◌∷◌, arith, map, find?-holds,
}
use bankr_integration.Js.Text.{
  Text, txt, ◌===◌, ===_sound, trim, Listed, includes-Listed, lower, is_empty,
}
use bankr_integration.Js.Number.{Number, num_lt}
use bankr_integration.Js.Json.{Json, str, Fields, get, has, clean, or_else, to_number}
use bankr_integration.Js.Host.{Host}
use bankr_integration.Mcp.Tools.{
  BaseMcpTool, capability, read_wallet_state, pay_x402_invoice, publish_receipt_hash,
  request_human_approved_contract_call, execute_approved_value_movement,
  execute_approved_asset_exchange, execute_approved_contract_operation,
}
use bankr_integration.Mcp.Session.{CapabilityGrant}
use bankr_integration.Mcp.Args.{
  accepted, lower_value, amount, >>-accepted, last-accepted, >>=-accepted, transfer_accepted,
}
use bankr_integration.Mcp.Approved.{zero_number, not_positive, is_past}
use bankr_integration.Mcp.Grant.{
  bankr_read_only_grant_policy_sha256, is_outside, lower_trimmed, is_negative, is_above, max_of,
  tool_policy, is_other_chain, granted_for, check_grant, find_grant,
}

not-false : (b : Bool) → not b ≡ false → b ≡ true
not-false b h = ground arith

or-false : (a b : Bool) → (a || b) ≡ false → (a ≡ false) × (b ≡ false)
or-false a b h = ground arith

-- The list is not given, or is empty, or holds the text.
abbrev pub Allows : (Text → Text) → Option (List Text) → Text → Type 0
Allows f none x = Unit
Allows f (some xs) x = (xs ≡ []) ⊎ Listed x (map f xs)

-- No more than the limit, where the grant has one that is a number.
abbrev pub IsWithin : Option Number → Number → Type 0
IsWithin none n = Unit
IsWithin (some max) n = num_lt max n ≡ false

module _ (host : Host) where
  -- A positive finite amount within the grant's limit.
  abbrev pub Spends : CapabilityGrant → Json → Type 0
  Spends g v =
      (n : Number) × (amount host v ≡ some n)
      × (num_lt zero_number n ≡ true)
      × IsWithin (max_of host g) n

  -- An amount that is not negative, within the grant's limit.
  abbrev pub Attaches : CapabilityGrant → Json → Type 0
  Attaches g v =
      (n : Number) × (amount host v ≡ some n)
      × (num_lt n zero_number ≡ false)
      × IsWithin (max_of host g) n

  abbrev pub HasReceipt : Fields → Type 0
  HasReceipt args = is_empty (clean host (get (txt "human_approval_receipt") args)) ≡ false

  -- What each tool demands of the grant and the arguments.
  abbrev pub Demands : BaseMcpTool → Fields → CapabilityGrant → Type 0
  Demands pay_x402_invoice args g =
      Allows lower_trimmed g.allowed_recipients (lower_value host (get (txt "recipient") args))
      × Spends g (get (txt "amount") args)
  Demands execute_approved_value_movement args g =
      HasReceipt args
      × Allows lower_trimmed g.allowed_recipients (lower_value host (get (txt "recipient") args))
      × Allows lower_trimmed g.allowed_assets (lower_value host (get (txt "token_address") args))
      × Spends g (get (txt "amount") args)
  Demands execute_approved_asset_exchange args g =
      HasReceipt args
      × Allows lower_trimmed g.allowed_assets (lower_value host (get (txt "from_token") args))
      × Allows lower_trimmed g.allowed_assets (lower_value host (get (txt "to_token") args))
      × Spends g (get (txt "amount") args)
  Demands execute_approved_contract_operation args g =
      HasReceipt args
      × Allows lower_trimmed g.allowed_contracts (lower_value host (get (txt "contract") args))
      × Allows lower g.allowed_methods (lower_value host (get (txt "method") args))
      × Attaches g (or_else (get (txt "value") args) (str (txt "0")))
  Demands request_human_approved_contract_call args g =
      Allows lower_trimmed g.allowed_contracts (lower_value host (get (txt "contract") args))
      × Allows lower g.allowed_methods (lower_value host (get (txt "method") args))
  Demands read_wallet_state args g =
      trim (elim g.policy_hash [ none ↦ [] | some h ↦ h ]) ≡ bankr_read_only_grant_policy_sha256
  Demands publish_receipt_hash args g = Unit

  Allows-inside :
      (f : Text → Text) (xs : Option (List Text)) (x : Text)
      → is_outside f xs x ≡ false
      → Allows f xs x
  unfolding is_outside
  Allows-inside f none x h = tt
  Allows-inside f (some []) x h = inl refl
  Allows-inside f (some (y ∷ ys)) x h = inr (includes-Listed x (map f (y ∷ ys)) (ground arith))

  spend :
      (g : CapabilityGrant) (v : Json)
      → not_positive (amount host v) ≡ false
      → is_above (max_of host g) (amount host v) ≡ false
      → Spends g v
  unfolding not_positive is_above
  spend g v p a = go (amount host v) (max_of host g) refl refl p a
    where
      go :
          (o m : Option Number)
          → amount host v ≡ o
          → max_of host g ≡ m
          → not_positive o ≡ false
          → is_above m o ≡ false
          → Spends g v
      go none m e f p' a' = absurd (ground arith)
      go (some n) none e f p' a' = (n, e, ground arith, subst (λ m. IsWithin m n) (sym f) tt)
      go (some n) (some m) e f p' a' = (n, e, ground arith, subst (λ m. IsWithin m n) (sym f) a')

  attach :
      (g : CapabilityGrant) (v : Json)
      → is_negative (amount host v) ≡ false
      → is_above (max_of host g) (amount host v) ≡ false
      → Attaches g v
  unfolding is_negative is_above
  attach g v p a = go (amount host v) (max_of host g) refl refl p a
    where
      go :
          (o m : Option Number)
          → amount host v ≡ o
          → max_of host g ≡ m
          → is_negative o ≡ false
          → is_above m o ≡ false
          → Attaches g v
      go none m e f p' a' = absurd (ground arith)
      go (some n) none e f p' a' = (n, e, p', subst (λ m. IsWithin m n) (sym f) tt)
      go (some n) (some m) e f p' a' = (n, e, p', subst (λ m. IsWithin m n) (sym f) a')

  tool_policy-Demands :
      (now : Number) (t : BaseMcpTool) (args : Fields) (g : CapabilityGrant)
      → tool_policy host now t args g ≡ accepted tt
      → Demands t args g
  unfolding tool_policy
  tool_policy-Demands now pay_x402_invoice args g h =
      let (r, h) = >>-accepted (is_outside lower_trimmed g.allowed_recipients _) _ _ h in
      let (p, h) = >>-accepted (not_positive _) _ _ h in
      let a = last-accepted (is_above _ _) _ h in
      (Allows-inside lower_trimmed g.allowed_recipients _ r, spend g _ p a)
  tool_policy-Demands now read_wallet_state args g h =
      let (_, h) = >>-accepted _ _ _ h in ===_sound _ _ (not-false _ (last-accepted (not _) _ h))
  tool_policy-Demands now execute_approved_value_movement args g h =
      let (w, h) = >>-accepted (is_empty _) _ _ h in
      let (r, h) = >>-accepted (is_outside lower_trimmed g.allowed_recipients _) _ _ h in
      let (t, h) = >>-accepted (is_outside lower_trimmed g.allowed_assets _) _ _ h in
      let (p, h) = >>-accepted (not_positive _) _ _ h in
      let (a, h) = >>-accepted (is_above _ _) _ _ h in
      (
        w,
        Allows-inside lower_trimmed g.allowed_recipients _ r,
        Allows-inside lower_trimmed g.allowed_assets _ t,
        spend g _ p a,
      )
  tool_policy-Demands now execute_approved_asset_exchange args g h =
      let (w, h) = >>-accepted (is_empty _) _ _ h in
      let (r, h) =
        >>-accepted
          (is_outside lower_trimmed g.allowed_assets
              (lower_value host (get (txt "from_token") args))
            || is_outside lower_trimmed g.allowed_assets
                (lower_value host (get (txt "to_token") args)))
          _ _ h in
      let (p, h) = >>-accepted (not_positive _) _ _ h in
      let (a, h) = >>-accepted (is_above _ _) _ _ h in
      let (left, right) = or-false _ _ r in
      (
        w,
        Allows-inside lower_trimmed g.allowed_assets _ left,
        Allows-inside lower_trimmed g.allowed_assets _ right,
        spend g _ p a,
      )
  tool_policy-Demands now execute_approved_contract_operation args g h =
      let (w, h) = >>-accepted (is_empty _) _ _ h in
      let (c, h) = >>-accepted (is_outside lower_trimmed g.allowed_contracts _) _ _ h in
      let (m, h) = >>-accepted (is_outside lower g.allowed_methods _) _ _ h in
      let (p, h) = >>-accepted (is_negative _) _ _ h in
      let a = last-accepted (is_above _ _) _ h in
      (
        w,
        Allows-inside lower_trimmed g.allowed_contracts _ c,
        Allows-inside lower g.allowed_methods _ m,
        attach g _ p a,
      )
  tool_policy-Demands now request_human_approved_contract_call args g h =
      let (c, h) = >>-accepted (is_outside lower_trimmed g.allowed_contracts _) _ _ h in
      let m = last-accepted (is_outside lower g.allowed_methods _) _ h in
      (
        Allows-inside lower_trimmed g.allowed_contracts _ c,
        Allows-inside lower g.allowed_methods _ m,
      )
  tool_policy-Demands now publish_receipt_hash args g h = tt

  -- What a grant that covers a call is: for the tool's capability, not expired,
  -- for the call's chain, its demands met; and the call declares no grants of its own.
  abbrev pub IsCoveredBy : Number → BaseMcpTool → Fields → CapabilityGrant → Type 0
  IsCoveredBy now t args g =
      (g.capability ≡ capability t)
      × (is_past host now g.expires_at ≡ false)
      × (is_other_chain g.chain_id (to_number host (get (txt "chain_id") args)) ≡ false)
      × (has (txt "capability_grant") args ≡ false)
      × (has (txt "capability_grants") args ≡ false)
      × Demands t args g

  check_grant-accepted :
      (now : Number) (t : BaseMcpTool) (args : Fields) (o : Option CapabilityGrant)
      (g : CapabilityGrant)
      → check_grant host now t args o ≡ accepted g
      → (o ≡ some g)
        × (is_past host now g.expires_at ≡ false)
        × (is_other_chain g.chain_id (to_number host (get (txt "chain_id") args)) ≡ false)
        × Demands t args g
  unfolding check_grant
  check_grant-accepted now t args none g h = absurd (ground arith)
  check_grant-accepted now t args (some g') g h =
      let (p, h) = >>-accepted (is_past host now g'.expires_at) _ _ h in
      let (c, h) = >>-accepted (is_other_chain g'.chain_id _) _ _ h in
      let (_, d, h) = >>=-accepted (tool_policy host now t args g') _ h in
      transfer_accepted
        (λ x.
          (some g' ≡ some x)
          × (is_past host now x.expires_at ≡ false)
          × (is_other_chain x.chain_id (to_number host (get (txt "chain_id") args)) ≡ false)
          × Demands t args x)
        h (refl, p, c, tool_policy-Demands now t args g' d)

  -- For every host, time, tool, arguments and list of grants, a grant that findGrant accepts has
  -- the tool's capability, is not past its expiry, is for the chain of the arguments or for any,
  -- the arguments declare no grants, and what the tool demands holds: a wallet read has the pinned
  -- policy hash, a governed tool has a human approval receipt, recipients, assets, contracts and
  -- methods that the tool names are in the grant's lists where these are given and not empty, and
  -- the amount or value is a number that is positive (not negative for a contract value) and not
  -- above the grant's limit where that limit is a number.
  pub find_grant-IsCoveredBy :
      (now : Number) (t : BaseMcpTool) (args : Fields) (grants : List CapabilityGrant)
      (g : CapabilityGrant)
      → find_grant host now t args grants ≡ accepted g
      → IsCoveredBy now t args g
  unfolding find_grant granted_for
  find_grant-IsCoveredBy now t args grants g h =
      let (s, h) =
        >>-accepted (has (txt "capability_grant") args || has (txt "capability_grants") args) _ _
          h in
      let (o, p, c, d) = check_grant-accepted now t args _ g h in
      let (one, many) = or-false _ _ s in
      (
        ===_sound _ _
            (find?-holds (λ (x : CapabilityGrant). x.capability === capability t) grants o),
        p,
        c,
        one,
        many,
        d,
      )
