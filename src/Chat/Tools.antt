-- ===== src/Chat/Tools.antt =====
-- The tools of the agent (tools.ts): which are paid, and what a free one does. The graph, the
-- council's memory and the sidecar are parameters.
use bankr_integration.Prelude.{
  Bool, true, false, Option, none, some, List, [], ◌∷◌, ◌++◌, if◌then◌else◌, ltb, length, take,
}
use bankr_integration.Js.Text.{Text, txt, ◌===◌, trim, includes}
use bankr_integration.Js.Json.{
  Json, undefined, bool, str, arr, obj, Elems, nil, cons, end, field, get, or_else, text_of,
}
use bankr_integration.Js.Host.{Host}
use bankr_integration.Approval.Usage.{Outcome, returned, threw}

pub data PaidAction : Type 0 where
  council_quick council_panel : PaidAction

pub record PaidTool : Type 0 where
  pub action : PaidAction
  pub price : Text

-- An entry of `PAID_TOOLS`.
unfoldable pub paid_tool : Text → Option PaidTool
paid_tool name =
    if name === txt "council_quick"
    then some (record { action = council_quick; price = txt "$0.05" })
    else if name === txt "council_panel"
    then some (record { action = council_panel; price = txt "$0.25" })
    else none

-- The names that every object has from its prototype, which `in` finds too.
abbrev pub prototype_names : List Text
prototype_names =
    txt "constructor"
    ∷ txt "__proto__"
    ∷ txt "__defineGetter__"
    ∷ txt "__defineSetter__"
    ∷ txt "__lookupGetter__"
    ∷ txt "__lookupSetter__"
    ∷ txt "hasOwnProperty"
    ∷ txt "isPrototypeOf"
    ∷ txt "propertyIsEnumerable"
    ∷ txt "toLocaleString"
    ∷ txt "toString"
    ∷ txt "valueOf"
    ∷ []

-- `name in PAID_TOOLS`
unfoldable pub is_paid_tool : Text → Bool
is_paid_tool name = elim (paid_tool name) [ some t ↦ true | none ↦ includes prototype_names name ]

-- An answer of the sidecar.
pub record SidecarReply : Type 0 where
  pub ok : Bool
  pub json : Outcome Json

-- `sidecar` is `none` where no sidecar is configured; it takes the path and the body of a request.
pub record ChatToolDeps : Type 0 where
  pub graph_search : Text → Outcome Json
  pub search_council : Text → Outcome Elems
  pub sidecar : Option (Text → Json → Outcome SidecarReply)

status_message : Text → Text → Json
status_message status message =
    obj (field (txt "status") (str status) (field (txt "message") (str message) end))

-- The reply's body, or an error where there was none.
sidecar_json : Text → Outcome SidecarReply → Json
unfolding status_message
sidecar_json message (threw e) = status_message (txt "error") message
sidecar_json message (returned reply) =
    if reply.ok
    then (elim reply.json [ returned v ↦ v | threw e ↦ status_message (txt "error") message ])
    else status_message (txt "error") message

hits_result : Outcome Json → Outcome Json
hits_result (threw e) = threw e
hits_result (returned hits) = returned (obj (field (txt "hits") hits end))

council_result : Outcome Elems → Outcome Json
council_result (threw e) = threw e
council_result (returned hits) =
    let note : Json = elim hits [
      | nil ↦ str (txt "the Council hasn't deliberated anything close to this yet")
      | cons v vs ↦ undefined
    ] in
    returned (obj (field (txt "hits") (arr hits) (field (txt "note") note end)))

module _ (host : Host) (deps : ChatToolDeps) where
  -- `sidecarGraph`
  unfoldable pub sidecar_graph : Text → Text → Json
  unfolding status_message sidecar_json
  sidecar_graph path name =
      let clean = trim (take 128 name) in
      elim deps.sidecar [
        | none ↦
            status_message (txt "unavailable")
              (txt "the graph's deeper view isn't reachable right now")
        | some call ↦
            if ltb (length clean) 2
            then status_message (txt "error") (txt "concept name too short")
            else sidecar_json (txt "the graph is unreachable right now")
                (call path (obj (field (txt "name") (str clean) end)))
      ]

  unfoldable pub workshop_research : Text → Json
  unfolding status_message sidecar_json
  workshop_research topic = elim deps.sidecar [
    | none ↦ status_message (txt "coming_soon") (
        txt
          "The Workshop isn't open yet — research briefs (graph + biblical + web evidence) are being built. For now the Council can review the idea.")
    | some call ↦ sidecar_json (txt "the Workshop is unreachable right now") (
        call (txt "/research") (
          obj (
            field (txt "topic") (str (take 200 topic))
              (field (txt "include_semantic") (bool false) end))))
  ]

  -- `String(args[key] ?? "")`, of a value that need not be an object.
  text_arg : Json → Text → Text
  text_arg (obj args) key = text_of host (or_else (get key args) (str []))
  text_arg input key = []

  abbrev no_hits : Json
  no_hits = obj (field (txt "hits") (arr nil) end)

  -- `dispatchFreeTool`
  unfoldable pub dispatch_free_tool : Text → Json → Outcome Json
  unfolding text_arg hits_result council_result
  dispatch_free_tool name input =
      let query = text_arg input (txt "query") in
      let named = text_arg input (txt "name") in
      if name === txt "search_graph"
      then (if ltb (length (trim (take 128 query))) 2
          then returned no_hits
          else hits_result (deps.graph_search (take 128 query)))
      else if name === txt "graph_concept"
      then returned (sidecar_graph (txt "/graph/concept") named)
      else if name === txt "graph_related"
      then returned (sidecar_graph (txt "/graph/related") named)
      else if name === txt "graph_bible"
      then returned (sidecar_graph (txt "/graph/bible") named)
      else if name === txt "council_memory"
      then (if ltb (length (trim (take 300 query))) 2
          then returned no_hits
          else council_result (deps.search_council (take 300 query)))
      else if name === txt "workshop_research"
      then returned (workshop_research (text_arg input (txt "topic")))
      else returned (obj (field (txt "error") (str (txt "unknown tool: " ++ name)) end))
