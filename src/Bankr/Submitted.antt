-- ===== src/Bankr/Submitted.antt =====
-- From an approvals file to the transaction that the adapter submits (`getApprovedContractOperation`,
-- `executeApprovedContractOperation`).
use bankr_integration.Prelude.{◌≡◌, refl, ap, ◌∙◌, subst, true, Option, none, some, List, [], ◌∷◌}
use bankr_integration.Js.Text.{Text, txt, lower}
use bankr_integration.Js.Number.{Number}
use bankr_integration.Js.Json.{Json, num, str, obj, Fields, end, field, get, or_else}
use bankr_integration.Js.Host.{Host}
use bankr_integration.Approval.Types.{
  ApprovedOperation, ApprovalLookup, ApprovalStoreOptions, ContractOperation, OperationBody,
  contract_operation, value_movement, asset_exchange,
}
use bankr_integration.Approval.Canonical.{canonical_approval_hash}
use bankr_integration.Approval.Own.{IsGiven, IsOwnTransaction, IsOwn, IsAimed}
use bankr_integration.Approval.Lookup.{
  contract, same_kind, kind_of, entries_of, IsElem, get_approved_contract_operation,
  get_approved_sound,
}
use bankr_integration.Mcp.Tools.{execute_approved_contract_operation}
use bankr_integration.Mcp.Execution.{ExecutionInput}
use bankr_integration.Bankr.Http.{Web, Request, Server}
use bankr_integration.Bankr.Adapter.{Adapter, tx_hash_of, post_request}
use bankr_integration.Bankr.Runtime.{bankr_method, sent_by}
use bankr_integration.Bankr.Writes.{submit_operation, submit_approved, operate_contract}
use bankr_integration.Bankr.Governed.{one_request, sent_tool}

-- A body whose transaction has the four properties.
abbrev body_of : Json → Json → Json → Json → Json
body_of chain to calldata value = obj (
    field (txt "transaction")
      (obj (
        field (txt "chainId") chain
          (field (txt "to") to (field (txt "data") calldata (field (txt "value") value end)))))
      end)

-- The body that carries a transaction of the approvals file, with no value as 0x0.
abbrev pub body_of_transaction : Fields → Json
body_of_transaction t =
    body_of (get (txt "chainId") t) (get (txt "to") t) (get (txt "data") t)
      (or_else (get (txt "value") t) (str (txt "0x0")))

contract_of :
    (op : OperationBody)
    → same_kind (kind_of op) contract ≡ true
    → (c : ContractOperation) × (op ≡ contract_operation c)
contract_of (contract_operation c) h = (c, refl)
contract_of (value_movement m) h = cc
contract_of (asset_exchange x) h = cc

given_or :
    (v : Json) (value : Option Text) (default : Text)
    → IsGiven v value
    → or_else v (str default) ≡ str (elim value [ none ↦ default | some s ↦ s ])
unfolding or_else
given_or v none default h = rw (h, or_else) refl
given_or v (some s) default h = rw (h, or_else) refl

module _ (host : Host) (opts : ApprovalStoreOptions) (web : Web) (server : Server)
    (a : Adapter) where
  -- An object of the file has a transaction on the approval's chain and to its contract, the
  -- approval's hash is over both, and the one request posts that transaction.
  abbrev pub PostsFrom : Option Json → ApprovedOperation → List Request → Type 0
  PostsFrom file approval sent =
      (item : Fields) × (t : Fields) × (to : Text) × (c : ContractOperation) × IsElem (obj item)
        (entries_of file)
      × (get (txt "transaction") item ≡ obj t)
      × (approval.approval_hash ≡ canonical_approval_hash host item (some t))
      × (get (txt "chainId") t ≡ num approval.chain_id)
      × (get (txt "to") t ≡ str to)
      × (approval.operation ≡ contract_operation c)
      × (lower to ≡ lower c.contract)
      × (sent ≡ post_request host web server a (txt "/wallet/submit") (body_of_transaction t) ∷ [])

  submitted :
      (approval : ApprovedOperation) (c : ContractOperation) (t : Fields) (input : ExecutionInput)
      → a.governed_writes ≡ true
      → input.approved_operation ≡ some approval
      → approval.operation ≡ contract_operation c
      → IsOwnTransaction t c
      → (operate_contract host web server a input []).1
        ≡ post_request host web server a (txt "/wallet/submit") (body_of_transaction t) ∷ []
  unfolding operate_contract submit_approved submit_operation
  submitted approval c t input on h o (chain, to, calldata, value) =
      rw
        (
          on,
          h,
          o,
          chain,
          to,
          calldata,
          given_or (get (txt "value") t) c.transaction.value (txt "0x0") value,
        )
        (one_request host web server a _ tx_hash_of _ [])

  -- With governed writes turned on, when a lookup of contract operations in an approvals file has
  -- found an approval and the adapter executes the contract operation with it, the adapter sends
  -- one request, a post to the submission endpoint whose body has the chain, target, calldata and
  -- value, or 0x0 where it has none, of a transaction that an object in the file holds; the
  -- approval's hash is over that object and that transaction, whose chain is the approval's and
  -- whose target is the approved contract up to the case of its letters.
  pub submit_approved-sends :
      (file : Option Json) (wanted : ApprovalLookup) (now : Number) (approval : ApprovedOperation)
      (input : ExecutionInput)
      → get_approved_contract_operation host opts file wanted now ≡ some approval
      → a.governed_writes ≡ true
      → input.tool ≡ execute_approved_contract_operation
      → input.approved_operation ≡ some approval
      → PostsFrom file approval (sent_by host web server a input)
  unfolding bankr_method get_approved_contract_operation
  submit_approved-sends file wanted now approval input found on tool h =
      let (genuine, kind, _, _, _, _) =
        get_approved_sound host opts contract file wanted now found in
      let (c, o) = contract_of approval.operation kind in
      let (tx, own, hash, _, _) = genuine.sealed in
      let (t, is_tx, here, parts) = subst (IsOwn genuine.item tx) o own in
      let (on_chain, aimed) = subst (IsAimed approval.chain_id) o genuine.aimed in
      (
        genuine.item,
        t,
        c.transaction.to,
        c,
        genuine.among,
        here,
        hash ∙ ap (canonical_approval_hash host genuine.item) is_tx,
        parts.0 ∙ ap num on_chain,
        parts.1,
        o,
        aimed,
        sent_tool host web server a _ _ input tool refl ∙ submitted approval c t input on h o parts,
      )
