-- ===== src/Mcp/Args.antt =====
-- The arguments of a tool call: how they are read, which fields are refused, and the agent wallet
-- (`lower`, `normalizedAddress`, `amount`, `hasRaw…Fields`, `normalizeAgentWalletArgs`).
use bankr_integration.Prelude.{
  ◌≡◌, ◌⊎◌, inl, inr, refl, subst, arith, Bool, true, false, not, ◌&&◌, Option, none, some, List,
  [], ◌∷◌, if◌then◌else◌, any,
}
use bankr_integration.Js.Text.{Text, txt, ◌===◌, lower, is_empty}
use bankr_integration.Js.Number.{Number, is_finite}
use bankr_integration.Js.Pattern.{test_whole, hex_prefixed, times, one, is_lower_hex}
use bankr_integration.Js.Json.{Json, str, Fields, get, has, put, clean}
use bankr_integration.Js.Host.{Host}
use bankr_integration.Mcp.Session.{BaseMcpSession}

-- A check: the value that it lets through, or the reason of the refusal.
pub data Checked {ℓ} (A : Type ℓ) : Type ℓ where
  accepted : A → Checked A
  rejected : Text → Checked A

infixl 5 ◌>>=◌
abbrev pub ◌>>=◌ {ℓ κ} : {A : Type ℓ} {B : Type κ} → Checked A → (A → Checked B) → Checked B
accepted a >>= k = k a
rejected reason >>= k = rejected reason

-- `if (test) return { ok: false, reason };`
infixl 5 ◌>>◌
abbrev pub ◌>>◌ {ℓ} : {B : Type ℓ} → Checked (Unit {0}) → Checked B → Checked B
m >> k = m >>= λ _. k

abbrev pub reject_if : Bool → Text → Checked (Unit {0})
reject_if true reason = rejected reason
reject_if false reason = accepted tt

unfoldable pub raw_transaction_keys : List Text
raw_transaction_keys =
    txt "transaction"
    ∷ txt "tx"
    ∷ txt "to"
    ∷ txt "data"
    ∷ txt "calldata"
    ∷ txt "calldata_hash"
    ∷ txt "value"
    ∷ txt "signed_transaction"
    ∷ []

unfoldable pub raw_value_movement_keys : List Text
raw_value_movement_keys =
    txt "recipient"
    ∷ txt "token_address"
    ∷ txt "amount"
    ∷ txt "is_native_token"
    ∷ txt "transfer"
    ∷ txt "bankr_body"
    ∷ txt "body"
    ∷ []

unfoldable pub raw_asset_exchange_keys : List Text
raw_asset_exchange_keys =
    txt "from_token"
    ∷ txt "to_token"
    ∷ txt "amount"
    ∷ txt "min_buy_amount"
    ∷ txt "quote"
    ∷ txt "swap"
    ∷ txt "bankr_body"
    ∷ txt "body"
    ∷ []

-- One of the keys is a property of the arguments.
unfoldable pub has_any : List Text → Fields → Bool
has_any keys args = any (λ k. has k args) keys

module _ (host : Host) where
  -- `String(value ?? "").trim().toLowerCase()`
  unfoldable pub lower_value : Json → Text
  lower_value v = lower (clean host v)

  -- The empty text where the value is no address.
  unfoldable pub normalized_address : Json → Text
  normalized_address v =
      let text = lower_value v in
      if test_whole (hex_prefixed (times 40 (one is_lower_hex))) text then text else []

  -- `none` for what is no finite number.
  unfoldable pub amount : Json → Option Number
  amount v = let n = host.parse_number (clean host v) in if is_finite n then some n else none

  -- The wallet arguments of `read_wallet_state`.
  unfoldable pub normalize_agent_wallet_args : Fields → BaseMcpSession → Checked Fields
  normalize_agent_wallet_args args session =
      let requested = normalized_address (get (txt "agent_wallet") args) in
      let verified =
        normalized_address
          (elim session.passport.agent_wallet [ none ↦ str [] | some w ↦ str w ]) in
      let session_wallet = normalized_address (str session.wallet) in
      if has (txt "agent_wallet") args && is_empty requested
      then rejected (txt "agent_wallet must be a 0x-prefixed EVM address")
      else if not (is_empty verified)
      then (if not (is_empty requested) && not (requested === verified)
          then rejected (txt "agent_wallet does not match the verified ERC-8004 agentWallet")
          else accepted (put (txt "agent_wallet") (str verified) args))
      else if not (is_empty requested) && not (requested === session_wallet)
      then rejected (
          txt
            "agent_wallet must match the signed session wallet unless ERC-8004 agentWallet is verified")
      else accepted (
          put (txt "agent_wallet") (str (if is_empty requested then session_wallet else requested))
            args)

pub Checked-cases {ℓ} :
    {A : Type ℓ} (m : Checked A)
    → ((reason : Text) × (m ≡ rejected reason)) ⊎ ((a : A) × (m ≡ accepted a))
Checked-cases (accepted a) = inr (a, refl)
Checked-cases (rejected reason) = inl (reason, refl)

-- Inversion of a check that let something through.
pub >>-accepted {ℓ} :
    {B : Type ℓ} (b : Bool) (reason : Text) (k : Checked B) {x : B}
    → (reject_if b reason >> k) ≡ accepted x
    → (b ≡ false) × (k ≡ accepted x)
>>-accepted true reason k h = absurd (ground arith)
>>-accepted false reason k h = (refl, h)

pub last-accepted : (b : Bool) (reason : Text) → reject_if b reason ≡ accepted tt → b ≡ false
last-accepted true reason h = absurd (ground arith)
last-accepted false reason h = refl

pub >>=-accepted {ℓ κ} :
    {A : Type ℓ} {B : Type κ} (m : Checked A) (k : A → Checked B) {x : B}
    → (m >>= k) ≡ accepted x
    → (a : A) × (m ≡ accepted a) × (k a ≡ accepted x)
>>=-accepted (accepted a) k h = (a, refl, h)
>>=-accepted (rejected reason) k h = absurd (ground arith)

accepted_inj {ℓ} : {A : Type ℓ} {a b : A} → accepted a ≡ accepted b → a ≡ b
accepted_inj h = cc

pub transfer_accepted {ℓ κ} :
    {A : Type ℓ} (P : A → Type κ) {a b : A} → accepted a ≡ accepted b → P a → P b
transfer_accepted P h p = subst P (accepted_inj h) p
