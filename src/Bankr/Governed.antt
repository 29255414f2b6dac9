-- ===== src/Bankr/Governed.antt =====
-- What the adapter sends for a governed tool.
use bankr_integration.Prelude.{
  ◌≡◌, ◌≢◌, refl, sym, ap, ◌∙◌, subst, arith, Bool, true, false, Option, none, some, List, [], ◌∷◌,
  Bool-cases, inl, inr, transfer_some,
}
use bankr_integration.Js.Text.{Text, txt, ◌===◌}
use bankr_integration.Js.Number.{Number}
use bankr_integration.Js.Json.{Json, bool, str, Fields, get, or_else, text_of}
use bankr_integration.Js.Host.{Host}
use bankr_integration.Kernel.Types.{IdentityEnvelope}
use bankr_integration.Approval.Types.{ApprovedOperation, ValueMovement}
use bankr_integration.Approval.Usage.{Outcome, returned, threw}
use bankr_integration.Mcp.Tools.{
  BaseMcpTool, is_governed, execute_approved_value_movement, execute_approved_asset_exchange,
  execute_approved_contract_operation,
}
use bankr_integration.Mcp.Args.{accepted, normalized_address}
use bankr_integration.Mcp.Approved.{validate_approved_value_movement}
use bankr_integration.Mcp.Binding.{validate_approved_value_movement-IsFor}
use bankr_integration.Mcp.Execution.{
  ExecutionInput, Lifecycle, default_runtime_result, runtime_accepted,
}
use bankr_integration.Mcp.Call.{run_governed, execute_allowed_tool}
use bankr_integration.Mcp.Lifecycle.{is_done, run_governed-WasConsumed}
use bankr_integration.Bankr.Http.{
  Web, Request, Server, Sent, BankrResponse, continue, ◌>>=◌, give, lift, receive, request,
}
use bankr_integration.Bankr.Adapter.{
  Adapter, transfer_body, text_property, fetch, post_request, disabled_write,
}
use bankr_integration.Bankr.Runtime.{bankr_method, bankr_runtime, sent_by}
use bankr_integration.Bankr.Writes.{move_value, exchange_assets, operate_contract}

true_neq_false : true ≢ false
true_neq_false h = ground arith

returned_inj : {A : Type 0} {x y : A} → returned x ≡ returned y → x ≡ y
returned_inj h = cc

transfer_returned : {A : Type 0} (P : A → Type 0) {x y : A} → returned x ≡ returned y → P x → P y
transfer_returned P h p = subst P (returned_inj h) p

module _ (host : Host) (web : Web) (server : Server) (a : Adapter) where
  receive-sent : (o : Outcome BankrResponse) (sent : List Request) → (receive host o sent).1 ≡ sent
  unfolding receive
  receive-sent (threw m) sent = refl
  receive-sent (returned res) sent = ground arith

  -- A request, and then steps that send nothing.
  pub one_request :
      (r : Request) (f : Json → Outcome Json) (g : Json → Json → Json) (sent : List Request)
      → ((fetch host web server a r >>= λ x. lift (f x) >>= λ h. give (g x h)) sent).1 ≡ r ∷ sent
  unfolding fetch request
  one_request r f g sent = go (receive host (server (r ∷ sent)) (r ∷ sent)) (receive-sent _ _)
    where
      go :
          (m : Sent Json)
          → m.1 ≡ r ∷ sent
          → (continue m (λ x. lift (f x) >>= λ h. give (g x h))).1 ≡ r ∷ sent
      go (threw e, s) h = h
      go (returned x, s) h = ends (f x)
        where
          ends : (o : Outcome Json) → (continue (o, s) (λ h. give (g x h))).1 ≡ r ∷ sent
          ends (threw e) = h
          ends (returned y) = h

  disabled_write-refused :
      (input : ExecutionInput) → runtime_accepted (disabled_write host web server a input) ≡ false
  unfolding disabled_write runtime_accepted get ◌===◌ txt
  disabled_write-refused input = refl

  -- With governed writes off, a governed method sends nothing and answers what is no acceptance.
  disabled_method :
      (t : BaseMcpTool) (method : ExecutionInput → List Request → Sent Json)
      (input : ExecutionInput) (sent : List Request)
      → a.governed_writes ≡ false
      → is_governed t ≡ true
      → bankr_method host web server a t ≡ some method
      → method input sent ≡ (returned (disabled_write host web server a input), sent)
  unfolding bankr_method move_value exchange_assets operate_contract
  disabled_method execute_approved_value_movement method input sent off g h =
      transfer_some (λ m. m input sent ≡ (returned (disabled_write host web server a input), sent))
        h (rw (off, move_value) refl)
  disabled_method execute_approved_asset_exchange method input sent off g h =
      transfer_some (λ m. m input sent ≡ (returned (disabled_write host web server a input), sent))
        h (rw (off, exchange_assets) refl)
  disabled_method execute_approved_contract_operation method input sent off g h =
      transfer_some (λ m. m input sent ≡ (returned (disabled_write host web server a input), sent))
        h (rw (off, operate_contract) refl)
  disabled_method t method input sent off g h = absurd (true_neq_false (sym g))

  disabled_runtime :
      (S : Type 0) (t : BaseMcpTool) (input : ExecutionInput)
      → a.governed_writes ≡ false
      → is_governed t ≡ true
      → (elim (bankr_runtime host web server a t) as (λ _. Outcome Json) [
        | none ↦ returned (default_runtime_result host input.tool input.args input.session)
        | some method ↦ method input
      ])
        ≡ returned (disabled_write host web server a input)
  unfolding bankr_method
  disabled_runtime S execute_approved_value_movement input off g =
      ap (λ (x : Sent Json). x.0)
        (disabled_method execute_approved_value_movement _ input [] off g refl)
  disabled_runtime S execute_approved_asset_exchange input off g =
      ap (λ (x : Sent Json). x.0)
        (disabled_method execute_approved_asset_exchange _ input [] off g refl)
  disabled_runtime S execute_approved_contract_operation input off g =
      ap (λ (x : Sent Json). x.0)
        (disabled_method execute_approved_contract_operation _ input [] off g refl)
  disabled_runtime S t input off g = absurd (true_neq_false (sym g))

  executed_disabled :
      (S : Type 0) (e : IdentityEnvelope) (input : ExecutionInput)
      → a.governed_writes ≡ false
      → is_governed input.tool ≡ true
      → execute_allowed_tool S host (bankr_runtime host web server a) e input
        ≡ returned (disabled_write host web server a input)
  unfolding execute_allowed_tool
  executed_disabled S e input off g = disabled_runtime S input.tool input off g

  -- With governed writes turned off in the adapter, a call of a governed tool that is run over it
  -- sends no request, whatever the server would answer, and the gateway's reply to it is never a
  -- completed execution.
  pub disabled_writes-not-done :
      (S : Type 0) (e : IdentityEnvelope) (life : Lifecycle S) (approval : ApprovedOperation)
      (input : ExecutionInput) (s : S)
      → a.governed_writes ≡ false
      → is_governed input.tool ≡ true
      → (sent_by host web server a input ≡ [])
        × (is_done
              (run_governed S host
                (bankr_runtime host web server a)
                e
                (some life)
                approval
                input
                s).reply
            ≡ false)
  unfolding bankr_method
  disabled_writes-not-done S e life approval input s off g = (silent input.tool g, unfinished)
    where
      silent :
          (t : BaseMcpTool)
          → is_governed t ≡ true
          → (elim (bankr_method host web server a t) as (λ _. List Request) [
            | none ↦ []
            | some method ↦ (method input []).1
          ])
            ≡ []
      silent execute_approved_value_movement h =
          ap (λ (x : Sent Json). x.1)
            (disabled_method execute_approved_value_movement _ input [] off h refl)
      silent execute_approved_asset_exchange h =
          ap (λ (x : Sent Json). x.1)
            (disabled_method execute_approved_asset_exchange _ input [] off h refl)
      silent execute_approved_contract_operation h =
          ap (λ (x : Sent Json). x.1)
            (disabled_method execute_approved_contract_operation _ input [] off h refl)
      silent t h = absurd (true_neq_false (sym h))

      unfinished :
          is_done
            (run_governed S host
              (bankr_runtime host web server a)
              e
              (some life)
              approval
              input
              s).reply
          ≡ false
      unfinished =
          elim (Bool-cases (
            is_done
              (run_governed S host (bankr_runtime host web server a) e (some life) approval input
                s).reply)) [
                  | inr h ↦ h
                  | inl h ↦
                      let (r, result, _, ran, accepted', _, _) =
                        run_governed-WasConsumed S host (bankr_runtime host web server a) e life
                          approval input s h in
                      absurd (
                        true_neq_false (
                          sym accepted'
                          ∙ transfer_returned (λ x. runtime_accepted result ≡ runtime_accepted x)
                              (sym ran ∙ executed_disabled S e input off g) refl
                          ∙ disabled_write-refused input))
                ]

  text_of-str : (v : Json) (s : Text) → v ≡ str s → str (text_of host (or_else v (str []))) ≡ str s
  unfolding or_else text_of
  text_of-str v [] h = rw (h, or_else, text_of) refl
  text_of-str v (c ∷ s) h = rw (h, or_else, text_of) refl

  flag_of :
      (v : Json) (b : Bool) → v ≡ bool b → (elim v as (λ _. Bool) [ bool b ↦ b | _ ↦ false ]) ≡ b
  flag_of v b h = rw (h) refl

  pub sent_tool :
      (t : BaseMcpTool) (method : ExecutionInput → List Request → Sent Json)
      (input : ExecutionInput)
      → input.tool ≡ t
      → bankr_method host web server a t ≡ some method
      → sent_by host web server a input ≡ (method input []).1
  sent_tool t method input h m =
      ap
        (λ (x : Option (ExecutionInput → List Request → Sent Json)).
          (elim x as (λ _. List Request) [ none ↦ [] | some f ↦ (f input []).1 ]))
        (ap (bankr_method host web server a) h ∙ m)

  transfer_sent :
      (input : ExecutionInput) (token recipient amount : Json) (flag : Bool)
      → a.governed_writes ≡ true
      → str (text_of host (or_else (get (txt "token_address") input.args) (str []))) ≡ token
      → str (text_of host (or_else (get (txt "recipient") input.args) (str []))) ≡ recipient
      → str (text_of host (or_else (get (txt "amount") input.args) (str []))) ≡ amount
      → (elim (get (txt "is_native_token") input.args) as (λ _. Bool) [ bool b ↦ b | _ ↦ false ])
        ≡ flag
      → (move_value host web server a input []).1
        ≡ post_request host web server a
            (txt "/wallet/transfer")
            (transfer_body token recipient amount flag)
          ∷ []
  unfolding move_value
  transfer_sent input token recipient amount flag on t r m f =
      rw on (one_request _ (text_property (txt "txHash")) _ [] ∙ rw (t, r, m, f) refl)

  -- With governed writes turned on, when the gateway's validator of value movements has accepted an
  -- approval and the adapter executes the arguments that it returned, the adapter sends one
  -- request, a post to the transfer endpoint whose body has the approval's asset and recipient, as
  -- normalised addresses, its amount and its native-token flag.
  pub move_value-sends :
      (now : Number) (approval : ApprovedOperation) (m : ValueMovement) (args : Fields)
      (input : ExecutionInput)
      → a.governed_writes ≡ true
      → input.tool ≡ execute_approved_value_movement
      → validate_approved_value_movement host now approval m args input.session
        ≡ accepted input.args
      → sent_by host web server a input
        ≡ post_request host web server a (txt "/wallet/transfer") (
            transfer_body
              (str (normalized_address host (str m.token_address)))
              (str (normalized_address host (str m.recipient)))
              (str m.amount)
              m.is_native_token)
          ∷ []
  unfolding bankr_method
  move_value-sends now approval m args input on t h =
      let (_, recipient, token, amount, flag) =
        validate_approved_value_movement-IsFor host now approval m args input.args input.session
          h in
      sent_tool _ _ input t refl
      ∙ transfer_sent input _ _ _ _ on (text_of-str _ _ token) (text_of-str _ _ recipient)
          (text_of-str _ _ amount) (flag_of _ _ flag)
