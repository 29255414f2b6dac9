-- ===== src/Chat/Run.antt =====
-- A whole turn of the agent (agent.ts) with the summary of what overflows (compaction.ts). The
-- summary is asked of the same model, with another prompt: a function of that prompt.
use bankr_integration.Prelude.{
  ℕ, Option, none, some, List, [], ◌∷◌, ◌++◌, if◌then◌else◌, length, take, map,
}
use bankr_integration.Js.Text.{Text, txt, is_empty, join, trim}
use bankr_integration.Js.Json.{
  Json, undefined, str, arr, obj, Elems, nil, cons, Fields, end, field, get, or_else, text_of,
  stringify,
}
use bankr_integration.Js.Host.{Host}
use bankr_integration.Js.Objects.{is_str}
use bankr_integration.Chat.History.{
  is_assistant, valid_history, clamp_history, as_array, needs_compaction, split_for_compaction,
  build_working_with_summary,
}
use bankr_integration.Chat.Tools.{ChatToolDeps}
use bankr_integration.Chat.Agent.{
  Answer, Ending, finished, failed, ChatFrame, compaction, error_frame, no_tokens, iterate,
}

-- The strings of the text blocks of an answer, as `String(b.text ?? "")`.
module _ (host : Host) where
  block_texts : List Fields → List Text
  block_texts [] = []
  block_texts (b ∷ bs) =
      let rest = block_texts bs in
      if is_str (txt "text") (get (txt "type") b)
      then text_of host (or_else (get (txt "text") b) (str [])) ∷ rest
      else rest

  called : Fields → Text
  called b =
      txt "[called "
      ++ (text_of host (get (txt "name") b)
          ++ (txt " "
              ++ (take 200 (stringify host (or_else (get (txt "input") b) (obj end))) ++ txt "]")))

  resulted : Fields → Text
  resulted b =
      txt "[tool result: "
      ++ (take 400 (text_of host (or_else (get (txt "content") b) (str []))) ++ txt "]")

  part_of : Fields → List Text
  unfolding called resulted
  part_of b =
      let tagged =
        (if is_str (txt "tool_use") (get (txt "type") b)
          then called b ∷ []
          else if is_str (txt "tool_result") (get (txt "type") b)
          then resulted b ∷ []
          else []) in
      if is_str (txt "text") (get (txt "type") b)
      then (elim (get (txt "text") b) [ str s ↦ s ∷ [] | _ ↦ tagged ])
      else tagged

  parts_of : Elems → List Text
  unfolding part_of
  parts_of nil = []
  parts_of (cons (obj b) bs) = part_of b ++ parts_of bs
  parts_of (cons v bs) = parts_of bs

  -- `flatten`; `none` where it throws, on a turn without content.
  unfoldable pub flatten : Fields → Option Text
  unfolding parts_of
  flatten m =
      let role = if is_assistant m then txt "Leonardo: " else txt "User: " in
      elim (get (txt "content") m) [
        | undefined ↦ none
        | str s ↦ some (role ++ s)
        | arr bs ↦ some (role ++ join (txt " ") (parts_of bs))
        | v ↦ some (role ++ take 400 (stringify host v))
      ]

  unfoldable pub transcript : List Fields → Option (List Text)
  transcript [] = some []
  transcript (m ∷ ms) = elim (flatten m) [
    | none ↦ none
    | some t ↦ (elim (transcript ms) [ none ↦ none | some ts ↦ some (t ∷ ts) ])
  ]

  summary_body : Option Text → List Text → Text
  summary_body prior lines =
      let turns =
        txt "New conversation turns to fold in:\n" ++ take 16000 (join (txt "\n") lines) in
      elim prior [
        | none ↦ turns
        | some p ↦
            if is_empty p
            then turns
            else txt "Existing summary so far:\n" ++ (p ++ (txt "\n\n" ++ turns))
      ]

  summary_text : Ending → Option Text
  unfolding block_texts
  summary_text (failed f) = none
  summary_text (finished final) = some (take 1800 (trim (join [] (block_texts final.content))))

  -- `summarizeOverflow`; `none` where it throws.
  unfoldable pub summarize_overflow : (Text → Answer) → Option Text → List Fields → Option Text
  unfolding summary_body summary_text
  summarize_overflow summarizer prior overflow = elim (transcript overflow) [
    | none ↦ none
    | some lines ↦ summary_text (summarizer (summary_body prior lines)).ending
  ]

  or_prior : Option Text → Option Text → Text
  or_prior (some s) prior = s
  or_prior none none = []
  or_prior none (some p) = p

  -- Where there is an overflow and a summary of it, the summary takes its place.
  unfoldable pub replace_overflow :
      Text → List Fields → List Fields → List Fields → List ChatFrame × List Fields
  replace_overflow summary all recent [] = ([], all)
  replace_overflow summary all recent (m ∷ ms) =
      if is_empty summary
      then ([], all)
      else (compaction summary (length (m ∷ ms)) ∷ [], build_working_with_summary summary recent)

  -- The frames of the compaction, and the turns to work on.
  unfoldable pub prepare :
      (Text → Answer) → Option Text → List Fields → List ChatFrame × List Fields
  unfolding or_prior
  prepare summarizer prior all =
      let (overflow, recent) = split_for_compaction 12 all in
      let summary = or_prior (summarize_overflow summarizer prior overflow) prior in
      if needs_compaction host all then replace_overflow summary all recent overflow else ([], all)

  role_and_content : Fields → Fields
  role_and_content m =
      field (txt "role") (get (txt "role") m) (field (txt "content") (get (txt "content") m) end)

  abbrev pub no_usable_history : List ChatFrame
  no_usable_history = error_frame (txt "No usable message history.") ∷ []

  module _ (deps : ℕ → ChatToolDeps) (brain : List Fields → Answer) where
    unfoldable pub run_clamped : List ChatFrame → Option (List Fields) → List ChatFrame × ℕ
    unfolding role_and_content
    run_clamped frames none = (frames ++ no_usable_history, 0)
    run_clamped frames (some history) =
        let (rest, asked) = iterate host deps brain 4 0 no_tokens (map role_and_content history) in
        (frames ++ rest, asked)

    unfoldable pub run_prepared : List ChatFrame × List Fields → List ChatFrame × ℕ
    run_prepared (frames, prepared) = run_clamped frames (clamp_history host (as_array prepared))

    unfoldable pub run_valid :
        (Text → Answer) → Option Text → Option (List Fields) → List ChatFrame × ℕ
    run_valid summarizer prior none = (no_usable_history, 0)
    run_valid summarizer prior (some all) = run_prepared (prepare summarizer prior all)

    -- `runChatTurn`: its frames, and how many answers of the model the loop asked for.
    unfoldable pub run_chat_turn : (Text → Answer) → Option Text → Json → List ChatFrame × ℕ
    run_chat_turn summarizer prior messages = run_valid summarizer prior (valid_history messages)
