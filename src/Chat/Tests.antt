-- ===== src/Chat/Tests.antt =====
-- Turns and histories at fixed inputs.
use bankr_integration.Prelude.{
  ◌≡◌, refl, arith, ℕ, ◌-◌, ◌≤◌, none, some, List, [], ◌∷◌, ◌++◌, length, All,
}
use bankr_integration.Js.Text.{txt, ◌===◌, join}
use bankr_integration.Js.Json.{
  Json, str, arr, Fields, end, field, get, obj, nil, cons, stringify, quote,
}
use bankr_integration.Fixtures.{toy_host}
use bankr_integration.Approval.Usage.{returned}
use bankr_integration.Js.Objects.{is_str}
use bankr_integration.Chat.History.{
  user_turn, valid_history, clamp_history, clamp_turns, some_turns, turns_of, is_user, is_assistant,
  from_user, cut_message, drop_oldest, split_for_compaction, size,
}
use bankr_integration.Chat.Compaction.{
  split_for_compaction-append, clamp_history-bound, StartsAsUser,
}
use bankr_integration.Chat.Tools.{ChatToolDeps}
use bankr_integration.Chat.Agent.{Answer, finished}
use bankr_integration.Chat.Run.{run_chat_turn}
use bankr_integration.Chat.Turn.{EndsOnce, IsFree, run_chat_turn-EndsOnce, run_chat_turn-IsFree}

abbrev hello : Fields
hello = user_turn (txt "hello")

abbrev three : List Fields
three = hello ∷ user_turn (txt "there") ∷ hello ∷ []

split_for_compaction-append_example :
    let (overflow, recent) = split_for_compaction 2 three in
    (overflow ++ recent ≡ three) × (length recent ≤ 2) × (length overflow ≡ length three - 2)
split_for_compaction-append_example = split_for_compaction-append 2 three (omega arith)

-- With no turns to keep, the overflow and the recent part are both the whole history.
keeps_none : split_for_compaction 0 three ≡ (three, three)
unfolding split_for_compaction
keeps_none = refl

abbrev reply : Fields
reply = field (txt "role") (str (txt "assistant")) (field (txt "content") (str (txt "hi")) end)

abbrev messages : Json
messages = arr (cons (obj reply) (cons (obj hello) nil))

clamped : clamp_history toy_host messages ≡ some (hello ∷ [])
unfolding clamp_history valid_history clamp_turns some_turns turns_of is_user is_assistant is_str
    from_user cut_message drop_oldest get txt ◌===◌ size stringify quote join
clamped = refl

clamp_history-bound_example : (length (hello ∷ []) ≤ 40) × StartsAsUser (hello ∷ [])
clamp_history-bound_example = clamp_history-bound toy_host messages (hello ∷ []) clamped

abbrev offline : ℕ → ChatToolDeps
offline n = record {
  graph_search = λ q. returned (arr nil);
  search_council = λ q. returned nil;
  sidecar = none;
}

abbrev asks_for : Fields
asks_for =
    field (txt "type") (str (txt "tool_use")) (field (txt "name") (str (txt "search_graph")) end)

-- A model that always asks for the graph.
abbrev insistent : List Fields → Answer
insistent working = record {
  events = [];
  ending = finished (record {
    content = asks_for ∷ [];
    stop_reason = txt "tool_use";
    usage = record {
      input_tokens = some 1;
      output_tokens = none;
      cache_read_input_tokens = none;
      cache_creation_input_tokens = none;
    };
  });
}

run_chat_turn-EndsOnce_example :
    let (frames, asked) =
      run_chat_turn toy_host offline insistent (λ s. insistent []) none messages in
    EndsOnce frames × (asked ≤ 4)
run_chat_turn-EndsOnce_example =
    run_chat_turn-EndsOnce toy_host offline insistent (λ s. insistent []) none messages

run_chat_turn-IsFree_example :
    All IsFree (run_chat_turn toy_host offline insistent (λ s. insistent []) none messages).0
run_chat_turn-IsFree_example =
    run_chat_turn-IsFree toy_host offline insistent (λ s. insistent []) none messages
