-- ===== src/Chat/Agent.antt =====
-- One turn of the agent (agent.ts, frames.ts): a loop of at most four answers of the model, the free
-- tools between them run in the turn, a paid tool ends it. The model is a function of the messages it
-- is sent; a tool's answer may also depend on the number of tools that ran before it.
use bankr_integration.Prelude.{
  ℕ, zero, suc, ◌+◌, ◌==◌, Bool, true, false, not, ◌&&◌, Option, none, some, List, [], ◌∷◌, ◌++◌,
  if◌then◌else◌, length, take, filter, find?,
}
use bankr_integration.Js.Text.{Text, txt, ◌===◌, is_empty}
use bankr_integration.Js.Pattern.{test, lit_i}
use bankr_integration.Js.Json.{
  Json, undefined, str, arr, obj, Elems, nil, cons, Fields, end, field, get, or_else, text_of,
  stringify,
}
use bankr_integration.Js.Host.{Host}
use bankr_integration.Approval.Usage.{returned, threw}
use bankr_integration.Js.Objects.{is_str}
use bankr_integration.Chat.History.{as_array}
use bankr_integration.Chat.Tools.{
  PaidTool, paid_tool, is_paid_tool, ChatToolDeps, dispatch_free_tool,
}

-- What the client of the model throws: the status of the error, and its message.
pub record Failure : Type 0 where
  pub status : Option ℕ
  pub message : Text

-- Token counts; those of an answer may lack.
pub record Tokens : Type 0 where
  pub tokens_in : ℕ
  pub tokens_out : ℕ
  pub cache_read : ℕ
  pub cache_write : ℕ

pub record AnswerUsage : Type 0 where
  pub input_tokens : Option ℕ
  pub output_tokens : Option ℕ
  pub cache_read_input_tokens : Option ℕ
  pub cache_creation_input_tokens : Option ℕ

pub record FinalMessage : Type 0 where
  pub content : List Fields
  pub stop_reason : Text
  pub usage : AnswerUsage

-- `delta` is its type and its text, an empty text where it has none.
pub record StreamEvent : Type 0 where
  pub kind : Text
  pub delta : Option (Text × Text)

pub data Ending : Type 0 where
  finished : FinalMessage → Ending
  failed : Failure → Ending

-- A streamed answer: the events that came, and then the final message or an error.
pub record Answer : Type 0 where
  pub events : List StreamEvent
  pub ending : Ending

pub data ChatFrame : Type 0 where
  text_frame : Text → ChatFrame
  tool_start tool_result : Text → Json → ChatFrame
  -- The action and price, the id of the call, the idea and the seat.
  confirm_required : Option PaidTool → Text → Text → Json → ChatFrame
  assistant_message : List Fields → ChatFrame
  usage_frame : Tokens → ChatFrame
  compaction : Text → ℕ → ChatFrame
  error_frame : Text → ChatFrame
  -- Whether a payment is pending.
  done : Bool → ChatFrame

abbrev pub no_tokens : Tokens
no_tokens = record { tokens_in = 0; tokens_out = 0; cache_read = 0; cache_write = 0 }

or_zero : Option ℕ → ℕ
or_zero none = 0
or_zero (some n) = n

add_usage : Tokens → AnswerUsage → Tokens
unfolding or_zero
add_usage u a = record {
  tokens_in = u.tokens_in + or_zero a.input_tokens;
  tokens_out = u.tokens_out + or_zero a.output_tokens;
  cache_read = u.cache_read + or_zero a.cache_read_input_tokens;
  cache_write = u.cache_write + or_zero a.cache_creation_input_tokens;
}

-- The text of an event that has one to show.
event_text : StreamEvent → Option Text
event_text e = elim e.delta [
  | none ↦ none
  | some (kind, text) ↦
      if e.kind === txt "content_block_delta" && (kind === txt "text_delta" && not (is_empty text))
      then some text
      else none
]

unfoldable pub show_text : Option Text → List ChatFrame → List ChatFrame
show_text none rest = rest
show_text (some text) rest = text_frame text ∷ rest

unfoldable pub text_frames : List StreamEvent → List ChatFrame
unfolding event_text show_text
text_frames [] = []
text_frames (e ∷ es) = show_text (event_text e) (text_frames es)

has_status : ℕ → Failure → Bool
has_status n f = elim f.status [ none ↦ false | some m ↦ m == n ]

-- The text for the user.
unfoldable pub message_for : Failure → Text
unfolding has_status
message_for f =
    if has_status 429 f
    then txt "Leonardo is rate-limited right now — try again in a minute."
    else if has_status 529 f
    then txt "The model service is overloaded — try again shortly."
    else if test (lit_i "usage limit") f.message
    then txt
        "Leonardo's thinking quota is used up for now — it resets on a schedule; try again later."
    else if test (lit_i "timed out") f.message
    then txt "Leonardo took too long to answer — try again."
    else txt "Leonardo hit an internal error — try again."

is_tool_use : Fields → Bool
is_tool_use block = is_str (txt "tool_use") (get (txt "type") block)

property : Text → Json → Json
property key (obj fs) = get key fs
property key v = undefined

module _ (host : Host) where
  -- `String(block.name)`
  abbrev pub name_of : Fields → Text
  name_of block = text_of host (get (txt "name") block)

  unfoldable pub is_paid_block : Fields → Bool
  is_paid_block block = is_paid_tool (name_of block)

  unfoldable pub confirmation : Fields → ChatFrame
  unfolding property
  confirmation block =
      let input = get (txt "input") block in
      confirm_required (paid_tool (name_of block)) (text_of host (get (txt "id") block))
        (text_of host (or_else (property (txt "idea") input) (str [])))
        (property (txt "seat") input)

  module _ (deps : ℕ → ChatToolDeps) where
    -- What the n-th tool of a turn answers.
    tool_payload : ℕ → Fields → Json
    tool_payload n block =
        elim (dispatch_free_tool host (deps n) (name_of block) (get (txt "input") block)) [
          | returned v ↦ v
          | threw e ↦ obj (field (txt "error") (str (txt "tool failed")) end)
        ]

    result_block : ℕ → Fields → Json
    unfolding tool_payload
    result_block n block = obj (
        field (txt "type") (str (txt "tool_result")) (
          field (txt "tool_use_id") (get (txt "id") block)
            (field (txt "content") (str (take 8000 (stringify host (tool_payload n block)))) end)))

    unfoldable pub tool_frames : ℕ → List Fields → List ChatFrame
    unfolding tool_payload
    tool_frames n [] = []
    tool_frames n (block ∷ blocks) =
        tool_start (name_of block) (get (txt "input") block)
        ∷ tool_result (name_of block) (tool_payload n block)
        ∷ tool_frames (suc n) blocks

    tool_results : ℕ → List Fields → Elems
    unfolding result_block
    tool_results n [] = nil
    tool_results n (block ∷ blocks) = cons (result_block n block) (tool_results (suc n) blocks)

    message : Text → Json → Fields
    message role content = field (txt "role") (str role) (field (txt "content") content end)

    -- What follows an answer: the turn ends with frames, or goes on after frames with the tokens so
    -- far, the messages and the number of tools that ran.
    pub data Step : Type 0 where
      ends : List ChatFrame → Step
      goes_on : List ChatFrame → Tokens → List Fields → ℕ → Step

    unfoldable pub after_blocks : ℕ → Tokens → List Fields → FinalMessage → List Fields → Step
    unfolding is_paid_block confirmation tool_results message
    after_blocks ran total working final blocks = elim (find? is_paid_block blocks) [
      | some paid ↦
          ends (
            confirmation paid
            ∷ assistant_message final.content
            ∷ usage_frame total
            ∷ done true
            ∷ [])
      | none ↦
          let turns =
            message (txt "assistant") (as_array final.content)
            ∷ message (txt "user") (arr (tool_results ran blocks))
            ∷ [] in
          goes_on (tool_frames ran blocks) total (working ++ turns) (ran + length blocks)
    ]

    unfoldable pub after_ending : ℕ → Tokens → List Fields → Ending → Step
    unfolding add_usage is_tool_use
    after_ending ran usage working (failed f) = ends (error_frame (message_for f) ∷ [])
    after_ending ran usage working (finished final) =
        let total = add_usage usage final.usage in
        if final.stop_reason === txt "tool_use"
        then after_blocks ran total working final (filter is_tool_use final.content)
        else ends (usage_frame total ∷ done false ∷ [])

    module _ (brain : List Fields → Answer) where
      -- The frames of the loop, and how many answers of the model it asked for.
      unfoldable pub iterate : ℕ → ℕ → Tokens → List Fields → List ChatFrame × ℕ
      iterate zero ran usage working = (
        usage_frame usage
            ∷ error_frame (txt "Leonardo got stuck in a tool loop — try rephrasing.")
            ∷ [],
        0,
      )
      iterate (suc left) ran usage working =
          let texts = text_frames (brain working).events in
          elim (after_ending ran usage working (brain working).ending) [
            | ends frames ↦ (texts ++ frames, 1)
            | goes_on frames usage' working' ran' ↦
                let (rest, asked) = iterate left ran' usage' working' in
                (texts ++ (frames ++ rest), suc asked)
          ]
