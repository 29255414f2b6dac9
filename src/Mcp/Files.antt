-- ===== src/Mcp/Files.antt =====
-- A governed call over the file-backed approval store.
use bankr_integration.Prelude.{
  ◌≡◌, refl, sym, ap, subst, Bool, true, false, ◌||◌, Option, some, List, [], ◌∷◌, arith,
}
use bankr_integration.Js.Text.{Text, ===_refl}
use bankr_integration.Js.Number.{Number}
use bankr_integration.Js.Json.{Json}
use bankr_integration.Js.Host.{Host}
use bankr_integration.Kernel.Types.{IdentityEnvelope}
use bankr_integration.Approval.Types.{ApprovedOperation, ApprovalReservation, ApprovalStoreOptions}
use bankr_integration.Approval.Canonical.{configured}
use bankr_integration.Approval.Usage.{
  Outcome, returned, threw, Usage, Faults, granted, approval_key, key_of, reservation_of,
  audit_event, reserve, release, consume,
}
use bankr_integration.Approval.Replay.{
  taken, reserve_granted, consume_returned, consumed_never_granted, grant_count, is_granted, Call,
}
use bankr_integration.Mcp.Store.{
  FileState, file_backed, no_faults, next_fault, later_faults, on_files,
}
use bankr_integration.Mcp.Execution.{
  ExecutionInput, Runtime, Lifecycle, lifecycle_of, runtime_accepted,
}
use bankr_integration.Mcp.Call.{execute_allowed_tool, handed, run_governed}
use bankr_integration.Mcp.Lifecycle.{is_done, run_governed-WasConsumed, failed_consumption}

or-right-false : (a b : Bool) → (a || b) ≡ false → b ≡ false
or-right-false a b h = ground arith

abbrev after_files : Outcome (Unit {0}) × Usage → Outcome (Unit {0}) × FileState
after_files (o, u) = (o, record { usage = u; script = [] })

abbrev pub fails_in_consume : Faults
fails_in_consume = record no_faults { mkdir_consumed = true }

-- The second call of the store, the consumption, is the one that fails.
abbrev pub failing : Usage → FileState
failing u = record { usage = u; script = no_faults ∷ fails_in_consume ∷ [] }

module _ (host : Host) (opts : ApprovalStoreOptions) (file : Option Json) (now : Number)
    (runtime : Runtime) (e : IdentityEnvelope) where
  abbrev pub files : Option (Lifecycle FileState)
  files = lifecycle_of (some (file_backed host opts file now))

  abbrev pub files_lifecycle : Lifecycle FileState
  files_lifecycle = record {
    reserve = λ a receipt_hash s. on_files (λ f u. reserve host opts f now a receipt_hash u) s;
    release = λ r reason result s. on_files (λ f u. release host opts f now r reason result u) s;
    consume = λ r result s. on_files (λ f u. consume host opts f now r result u) s;
  }

  -- Over the file-backed store, whatever file operations fail: when a governed call answers with an
  -- execution, its approval's key had no file before, and no later history of calls of the store
  -- grants it again.
  pub done_is_final :
      (a : ApprovedOperation) (input : ExecutionInput) (s : FileState) (cs : List Call)
      → is_done (run_governed FileState host runtime e files a input s).reply ≡ true
      → (taken s.usage (approval_key host a) ≡ false)
        × (grant_count host opts
              (approval_key host a)
              (run_governed FileState host runtime e files a input s).store.usage
              cs
            ≡ 0)
  unfolding lifecycle_of on_files key_of reservation_of approval_key
  done_is_final a input s cs h =
      let (r, result, got, _, _, ok, final) =
        run_governed-WasConsumed FileState host runtime e files_lifecycle a input s h in
      let (made, free, _) =
        reserve_granted host opts (next_fault s.script) now a input.of_policy.hash s.usage got in
      (
        free,
        consumed_never_granted host opts (approval_key host a) _ cs (
            subst
              (λ y.
                (run_governed FileState host runtime e files a input s).store.usage.consumed
                  (key_of host y)
                ≡ true)
              made
              (subst (λ (z : FileState). z.usage.consumed (key_of host r) ≡ true) (sym final)
                (consume_returned host opts (next_fault (later_faults s.script)) now r result _
                  ok))),
      )

  module _ {root : Text} (c : configured opts.usage_store_path ≡ some root) where
    reserve_free :
        (a : ApprovedOperation) (receipt_hash : Text) (u : Usage)
        → taken u (approval_key host a) ≡ false
        → (reserve host opts no_faults now a receipt_hash u).0
          ≡ returned (granted (reservation_of host a))
    unfolding reserve audit_event
    reserve_free a receipt_hash u free = ground arith

    consume_failing :
        (r : ApprovalReservation) (result : Json) (u : Usage)
        → consume host opts fails_in_consume now r result u ≡ (threw [], u)
    unfolding consume
    consume_failing r result u = rw (c, consume) refl

    release_free :
        (r : ApprovalReservation) (reason : Text) (result : Json) (u : Usage)
        → u.consumed (key_of host r) ≡ false
        → taken (release host opts no_faults now r reason result u).1 (key_of host r) ≡ false
    unfolding release audit_event
    release_free r reason result u h = ground (arith, ===_refl (key_of host r))

    reserve_unconsumed :
        (a : ApprovedOperation) (receipt_hash : Text) (u : Usage) (j : Text)
        → u.consumed j ≡ false
        → (reserve host opts no_faults now a receipt_hash u).1.consumed j ≡ false
    unfolding reserve audit_event
    reserve_unconsumed a receipt_hash u j h = ground arith

  -- With a usage path configured and an approval whose key has no file, when the runtime reports an
  -- accepted execution and creating the folder of consumed approvals then fails, the governed call
  -- hands its input to the runtime and yet a next reservation of the same approval is granted.
  pub failed_consumption-granted_again :
      (a : ApprovedOperation) (input : ExecutionInput) (u : Usage) (result : Json)
      (receipt_hash : Text) {root : Text}
      → configured opts.usage_store_path ≡ some root
      → taken u (approval_key host a) ≡ false
      → execute_allowed_tool FileState host runtime e input ≡ returned result
      → runtime_accepted result ≡ true
      → let end = run_governed FileState host runtime e files a input (failing u) in
        (end.executed ≡ handed FileState host runtime e input)
        × (is_granted (reserve host opts no_faults now a receipt_hash end.store.usage).0 ≡ true)
  unfolding lifecycle_of on_files key_of reservation_of approval_key
  failed_consumption-granted_again a input u result receipt_hash c free ran ok =
      let h = input.of_policy.hash in
      let r = reservation_of host a in
      let u1 = (reserve host opts no_faults now a h u).1 in
      let s1 : FileState = record { usage = u1; script = fails_in_consume ∷ [] } in
      let s2 : FileState = record { usage = u1; script = [] } in
      let unconsumed = reserve_unconsumed c a h u (key_of host r) (or-right-false _ _ free) in
      let (ran', store) =
        failed_consumption FileState host runtime e files_lifecycle a input (failing u) r result []
          {s1 = s1} {s2 = s2} (ap (λ x. (x, s1)) (reserve_free c a h u free)) ran ok
          (ap after_files (consume_failing c r result u1)) in
      let again = release_free c r [] _ u1 unconsumed in
      (
        ran',
        subst
            (λ (z : FileState).
              is_granted (reserve host opts no_faults now a receipt_hash z.usage).0 ≡ true)
            (sym store) (ap is_granted (reserve_free c a receipt_hash _ again)),
      )
