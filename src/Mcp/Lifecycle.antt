-- ===== src/Mcp/Lifecycle.antt =====
-- The life of an approval in a governed call: reserved, executed, consumed; and the refusal of raw
-- fields before any of it.
use bankr_integration.Prelude.{◌≡◌, ◌≢◌, refl, sym, ◌∙◌, Bool, true, false, some, arith}
use bankr_integration.Js.Text.{Text}
use bankr_integration.Js.Json.{Json, undefined}
use bankr_integration.Js.Host.{Host}
use bankr_integration.Kernel.Types.{IdentityEnvelope}
use bankr_integration.Approval.Types.{ApprovedOperation, ApprovalReservation}
use bankr_integration.Approval.Usage.{Outcome, returned, threw, ReserveReply, granted, denied}
use bankr_integration.Mcp.Verdict.{Reply, done}
use bankr_integration.Mcp.Execution.{ExecutionInput, Runtime, Lifecycle, runtime_accepted}
use bankr_integration.Mcp.Call.{
  after_result, execute_allowed_tool, handed, refuse_with, after_release, caught, after_rejection,
  after_consumption, settle, after_reserve, run_governed,
}

true_neq_false : true ≢ false
true_neq_false h = ground arith

-- The reply that reports an execution.
abbrev pub is_done : Outcome Reply → Bool
is_done (returned (done t n result r)) = true
is_done o = false

module _ (S : Type 0) (host : Host) (runtime : Runtime) (e : IdentityEnvelope)
    (life : Lifecycle S) where
  after_release-not-done :
      (input : ExecutionInput) (reason : Text) (result : Json) (o : Outcome (Unit {0}) × S)
      → is_done (after_release S host runtime e input reason result o).reply ≡ false
  unfolding after_release refuse_with
  after_release-not-done input reason result (returned u, s) = refl
  after_release-not-done input reason result (threw m, s) = refl

  caught-not-done :
      (r : ApprovalReservation) (input : ExecutionInput) (m : Text) (s : S)
      → is_done (caught S host runtime e life r input m s).reply ≡ false
  unfolding caught
  caught-not-done r input m s = after_release-not-done input _ _ _

  after_rejection-not-done :
      (r : ApprovalReservation) (input : ExecutionInput) (result : Json)
      (o : Outcome (Unit {0}) × S)
      → is_done (after_rejection S host runtime e life r input result o).reply ≡ false
  unfolding after_rejection refuse_with
  after_rejection-not-done r input result (returned u, s) = refl
  after_rejection-not-done r input result (threw m, s) = caught-not-done r input m s

  -- What a governed call has done when it reports an execution: reserved the approval, got an accepted
  -- result from the runtime, and consumed the reservation, in this order.
  abbrev pub WasConsumed : ApprovedOperation → ExecutionInput → S → Type 0
  WasConsumed a input s =
      let reserved = life.reserve a input.of_policy.hash s in
      (r : ApprovalReservation) × (result : Json) × (reserved.0 ≡ returned (granted r))
      × (execute_allowed_tool S host runtime e input ≡ returned result)
      × (runtime_accepted result ≡ true)
      × ((life.consume r result reserved.1).0 ≡ returned tt)
      × ((run_governed S host runtime e (some life) a input s).store
          ≡ (life.consume r result reserved.1).1)

  after_consumption-done :
      (r : ApprovalReservation) (input : ExecutionInput) (result : Json)
      (o : Outcome (Unit {0}) × S)
      → is_done (after_consumption S host runtime e life r input result o).reply ≡ true
      → (o.0 ≡ returned tt)
        × ((after_consumption S host runtime e life r input result o).store ≡ o.1)
  unfolding after_consumption
  after_consumption-done r input result (returned tt, s) h = (refl, refl)
  after_consumption-done r input result (threw m, s) h =
      absurd (true_neq_false (sym h ∙ caught-not-done r input m s))

  settle-done :
      (r : ApprovalReservation) (input : ExecutionInput) (o : Outcome Json) (s : S)
      → is_done (settle S host runtime e life r input o s).reply ≡ true
      → (result : Json) × (o ≡ returned result)
        × (runtime_accepted result ≡ true)
        × ((life.consume r result s).0 ≡ returned tt)
        × ((settle S host runtime e life r input o s).store ≡ (life.consume r result s).1)
  unfolding settle after_result
  settle-done r input (threw m) s h = absurd (true_neq_false (sym h ∙ caught-not-done r input m s))
  settle-done r input (returned result) s h = go (runtime_accepted result) refl h
    where
      go :
          (b : Bool)
          → runtime_accepted result ≡ b
          → is_done (after_result S host runtime e life r input result b s).reply ≡ true
          → (x : Json) × (returned result ≡ returned x)
            × (runtime_accepted x ≡ true)
            × ((life.consume r x s).0 ≡ returned tt)
            × ((after_result S host runtime e life r input result b s).store
                ≡ (life.consume r x s).1)
      go true y d =
          let (ok, final) = after_consumption-done r input result (life.consume r result s) d in
          (result, refl, y, ok, final)
      go false n d = absurd (true_neq_false (sym d ∙ after_rejection-not-done r input result _))

  -- For every store with the three usage methods, runtime and state, a governed call that answers
  -- with an execution has reserved the approval, got a result from the runtime that reports an
  -- accepted execution, and consumed that reservation with that result, and it ends in the state
  -- after the consumption.
  pub run_governed-WasConsumed :
      (a : ApprovedOperation) (input : ExecutionInput) (s : S)
      → is_done (run_governed S host runtime e (some life) a input s).reply ≡ true
      → WasConsumed a input s
  unfolding run_governed after_reserve refuse_with
  run_governed-WasConsumed a input s h = go (life.reserve a input.of_policy.hash s) refl h
    where
      go :
          (o : Outcome ReserveReply × S)
          → life.reserve a input.of_policy.hash s ≡ o
          → is_done (after_reserve S host runtime e life input o).reply ≡ true
          → (r : ApprovalReservation) × (result : Json) × (o.0 ≡ returned (granted r))
            × (execute_allowed_tool S host runtime e input ≡ returned result)
            × (runtime_accepted result ≡ true)
            × ((life.consume r result o.1).0 ≡ returned tt)
            × ((after_reserve S host runtime e life input o).store ≡ (life.consume r result o.1).1)
      go (threw m, s') f d = absurd (true_neq_false (sym d))
      go (returned (denied reason), s') f d = absurd (true_neq_false (sym d))
      go (returned (granted r), s') f d =
          let (result, ran, ok, consumed, final) =
            settle-done r input (execute_allowed_tool S host runtime e input) s' d in
          (r, result, refl, ran, ok, consumed, final)

  after_release-ends :
      (input : ExecutionInput) (reason : Text) (result : Json) (o : Outcome (Unit {0}) × S)
      → let end = after_release S host runtime e input reason result o in
        (end.executed ≡ handed S host runtime e input) × (end.store ≡ o.1)
  unfolding after_release
  after_release-ends input reason result (returned u, s) = (refl, refl)
  after_release-ends input reason result (threw m, s) = (refl, refl)

  -- A consumption that throws ends in a release of the reservation, with the tool executed.
  pub failed_consumption :
      (a : ApprovedOperation) (input : ExecutionInput) (s : S) (r : ApprovalReservation)
      (result : Json) (m : Text) {s1 s2 : S}
      → life.reserve a input.of_policy.hash s ≡ (returned (granted r), s1)
      → execute_allowed_tool S host runtime e input ≡ returned result
      → runtime_accepted result ≡ true
      → life.consume r result s1 ≡ (threw m, s2)
      → let end = run_governed S host runtime e (some life) a input s in
        (end.executed ≡ handed S host runtime e input)
        × (end.store ≡ (life.release r m undefined s2).1)
  unfolding run_governed after_reserve settle after_result after_consumption caught
  failed_consumption a input s r result m g ran ok c =
      rw g (rw ran (rw ok (rw c (after_release-ends input _ _ _))))
