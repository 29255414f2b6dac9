-- ===== src/Mcp/Requests.antt =====
-- Which requests of the gateway have an effect.
use bankr_integration.Prelude.{
  ◌≡◌, refl, arith, false, Option, none, [], All, All-map, ap, ◌∙◌, subst, transfer_some, some,
  if◌then◌else◌, take, Bool-cases, Option-cases, inl, inr,
}
use bankr_integration.Js.Text.{Text, txt, ◌===◌, ===_sound, is_empty, trim}
use bankr_integration.Js.Number.{Number}
use bankr_integration.Js.Json.{Json, undefined, str, arr, obj, Fields, get}
use bankr_integration.Js.Host.{Host}
use bankr_integration.Mcp.Session.{BaseMcpSession}
use bankr_integration.Mcp.Store.{ApprovalStore}
use bankr_integration.Mcp.Execution.{ExecutionInput, Runtime}
use bankr_integration.Mcp.Call.{call_base_mcp_tool}
use bankr_integration.Mcp.Authorised.{IsAuthorised, call-IsAuthorised}
use bankr_integration.Mcp.Rpc.{
  properties, or_end, clean_tool_name, call_args, method_of, called_with, call_method, dispatch,
  handle_base_mcp_request,
}

-- A name that is not cleaned to nothing is the text under `name` of an object.
clean_tool_name-str :
    (v : Json)
    → is_empty (clean_tool_name v) ≡ false
    → (n : Text) × (v ≡ str n) × (clean_tool_name v ≡ take 80 (trim n))
unfolding clean_tool_name is_empty
clean_tool_name-str (str n) h = (n, refl, refl)
clean_tool_name-str _ h = cc

-- The text under `name` of the parameters of a request, and the name that it is cut to.
abbrev IsNamed : Json → Text → Type 0
IsNamed params name =
    (ps : Fields) × (n : Text) × (params ≡ obj ps)
    × (get (txt "name") ps ≡ str n)
    × (name ≡ take 80 (trim n))

params-IsNamed :
    (params : Json)
    → let name = clean_tool_name (get (txt "name") (or_end (properties params))) in
      is_empty name ≡ false → IsNamed params name
unfolding properties get
params-IsNamed (obj ps) h =
    let (n, there, cut) = clean_tool_name-str (get (txt "name") ps) h in (ps, n, refl, there, cut)
params-IsNamed _ h = let (n, there, _) = clean_tool_name-str undefined h in cc

abbrev method_from : Json → Json → Option Text
method_from version method = elim version [
  | str v ↦ if v === txt "2.0" then elim method [ str m ↦ some m | _ ↦ none ] else none
  | _ ↦ none
]

method_from-str :
    (version method : Json) (m : Text) → method_from version method ≡ some m → method ≡ str m
method_from-str (str v) (str n) m h = ground arith
method_from-str (str v) _ m h = ground arith
method_from-str _ method m h = cc

method_of-obj :
    (body : Json) (req : Fields) (m : Text)
    → properties body ≡ some req
    → method_of req ≡ some m
    → (body ≡ obj req) × (get (txt "method") req ≡ str m)
unfolding properties method_of get
method_of-obj (obj fs) req m h k = (cc, method_from-str _ _ m k)
method_of-obj (arr xs) req m h k =
    transfer_some (λ r. method_of r ≡ some m → (arr xs ≡ obj r) × (get (txt "method") r ≡ str m)) h
      (λ none_there. cc) k
method_of-obj _ req m h k = cc

module _ (S : Type 0) (host : Host) (now : Number) (runtime : Runtime)
    (store : Option (ApprovalStore S)) (session : Option BaseMcpSession) where
  -- Authorised for the session of the request, under the name that its parameters give the tool.
  abbrev IsAsked : Fields → ExecutionInput → Type 0
  IsAsked req input =
      (ses : BaseMcpSession) × (ps : Fields) × (name : Text) × (session ≡ some ses)
      × (get (txt "params") req ≡ obj ps)
      × (get (txt "name") ps ≡ str name)
      × IsAuthorised host now (take 80 (trim name)) ses input

  -- Asked for by a body that is a call of a tool.
  abbrev pub IsCalled : Json → ExecutionInput → Type 0
  IsCalled body input =
      (req : Fields) × (body ≡ obj req)
      × (get (txt "method") req ≡ str (txt "tools/call"))
      × IsAsked req input

  call-IsAsked :
      (o : Option BaseMcpSession) (name : Text) (req args : Fields) (s : S)
      → session ≡ o
      → IsNamed (get (txt "params") req) name
      → All (IsAsked req) (call_base_mcp_tool S host now runtime store name args o s).executed
  unfolding call_base_mcp_tool
  call-IsAsked none name req args s e named = tt
  call-IsAsked (some ses) name req args s e (ps, n, there, is_name, cut) =
      All-map (IsAuthorised host now name ses) (IsAsked req) _
        (λ input h.
          (ses, ps, n, e, there, is_name, subst (λ x. IsAuthorised host now x ses input) cut h))
        (call-IsAuthorised S host now runtime store name ses args s)

  call_method-IsAsked :
      (id : Json) (req : Fields) (s : S)
      → All (IsAsked req) (call_method S host now runtime store session id req s).executed
  unfolding call_method called_with
  call_method-IsAsked id req s =
      elim (Bool-cases (
        is_empty
          (clean_tool_name (get (txt "name") (or_end (properties (get (txt "params") req))))))) [
            | inl h ↦ rw (h, call_method) tt
            | inr h ↦
                rw (h, call_method)
                  (call-IsAsked session _ req (call_args (get (txt "params") req)) s refl
                    (params-IsNamed _ h))
          ]

  dispatch-IsCalled :
      (body id : Json) (method : Text) (req : Fields) (s : S)
      → body ≡ obj req
      → get (txt "method") req ≡ str method
      → All (IsCalled body) (dispatch S host now runtime store session id method req s).executed
  unfolding dispatch
  dispatch-IsCalled body id method req s b m = elim (Bool-cases (method === txt "tools/call")) [
    | inl call ↦
        let asked =
          All-map (IsAsked req) (IsCalled body) _
            (λ input h. (req, b, m ∙ ap str (===_sound _ _ call), h))
            (call_method-IsAsked id req s) in
        ground arith
    | inr other ↦ ground arith
  ]

  -- For every JSON-RPC body, store, runtime and session, when a request hands an input to the
  -- runtime, its method is tools/call, its parameters name a tool, and the input is for the session
  -- of the request and is authorised, by the scope, the kernel's patterns and a covering grant, as
  -- a call of the tool with that name, trimmed and cut to 80 units.
  pub handle-IsCalled :
      (body : Json) (s : S)
      → All
          (IsCalled body)
          (handle_base_mcp_request S host now runtime store session body s).executed
  unfolding handle_base_mcp_request
  handle-IsCalled body s = elim (Option-cases (properties body)) [
    | inl h ↦ rw (h, handle_base_mcp_request) tt
    | inr (req, h) ↦ elim (Option-cases (method_of req)) [
      | inl m ↦ rw (h, m, handle_base_mcp_request) tt
      | inr (method, m) ↦
          let (b, named) = method_of-obj body req method h m in
          rw (h, m, handle_base_mcp_request) (dispatch-IsCalled body _ method req s b named)
    ]
  ]

  -- A well-formed JSON-RPC request whose method is not tools/call hands nothing to the runtime and
  -- leaves the store's state as it was.
  pub handle_effect_free :
      (body : Json) (req : Fields) (method : Text) (s : S)
      → properties body ≡ some req
      → method_of req ≡ some method
      → (method === txt "tools/call") ≡ false
      → let end = handle_base_mcp_request S host now runtime store session body s in
        (end.executed ≡ []) × (end.store ≡ s)
  unfolding handle_base_mcp_request dispatch
  handle_effect_free body req method s h m other = ground arith
