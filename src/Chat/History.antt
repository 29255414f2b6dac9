-- ===== src/Chat/History.antt =====
-- The history of a chat turn (agent.ts, compaction.ts): which of the client's messages are turns, the
-- clamp, and the split of an overlong history.
use bankr_integration.Prelude.{
  ℕ, zero, suc, ◌-◌, Bool, ◌&&◌, ◌||◌, Option, none, some, List, [], ◌∷◌, ◌++◌, if◌then◌else◌, ltb,
  leb, length, take, drop, map, ◌>>=◌,
}
use bankr_integration.Js.Text.{Text, txt, is_empty}
use bankr_integration.Js.Json.{
  Json, str, arr, obj, Elems, nil, cons, Fields, end, field, get, put, stringify,
}
use bankr_integration.Js.Objects.{is_str}
use bankr_integration.Js.Host.{Host}

-- `xs.slice(-n)`, which is all of `xs` for no elements, since -0 counts from the start.
abbrev pub last_of {ℓ} : {A : Type ℓ} → ℕ → List A → List A
last_of zero xs = xs
last_of (suc n) xs = drop (length xs - suc n) xs

unfoldable pub is_user : Fields → Bool
unfolding is_str
is_user m = is_str (txt "user") (get (txt "role") m)

unfoldable pub is_assistant : Fields → Bool
unfolding is_str
is_assistant m = is_str (txt "assistant") (get (txt "role") m)

-- The turns among the elements of an array: the objects with a role.
unfoldable pub turns_of : Elems → List Fields
turns_of nil = []
turns_of (cons (obj m) xs) =
    let rest = turns_of xs in if is_user m || is_assistant m then m ∷ rest else rest
turns_of (cons v xs) = turns_of xs

-- A list that is not empty.
unfoldable pub some_turns : List Fields → Option (List Fields)
some_turns [] = none
some_turns (m ∷ ms) = some (m ∷ ms)

-- `validHistory`
unfoldable pub valid_history : Json → Option (List Fields)
valid_history (arr xs) = some_turns (turns_of xs)
valid_history v = none

-- A block of a tool's result whose text is over 8000 units long is cut.
unfoldable pub cut_result : Fields → Fields
unfolding is_str
cut_result block = elim (get (txt "content") block) [
  | str s ↦
      if is_str (txt "tool_result") (get (txt "type") block) && ltb 8000 (length s)
      then put (txt "content") (str (take 8000 s ++ txt " …(truncated)")) block
      else block
  | _ ↦ block
]

unfoldable pub cut_blocks : Elems → Elems
cut_blocks nil = nil
cut_blocks (cons (obj block) xs) = cons (obj (cut_result block)) (cut_blocks xs)
cut_blocks (cons v xs) = cons v (cut_blocks xs)

unfoldable pub cut_message : Fields → Fields
cut_message m = elim (get (txt "content") m) [
  | arr blocks ↦ put (txt "content") (arr (cut_blocks blocks)) m
  | _ ↦ m
]

unfoldable pub from_user : List Fields → List Fields
from_user [] = []
from_user (m ∷ ms) = if is_user m then m ∷ ms else from_user ms

abbrev pub as_array : List Fields → Json
as_array ms = arr (go ms)
  where
    go : List Fields → Elems
    go [] = nil
    go (m ∷ ms) = cons (obj m) (go ms)

module _ (host : Host) where
  -- `JSON.stringify(arr).length`
  unfoldable pub size : List Fields → ℕ
  size ms = length (stringify host (as_array ms))

  -- The oldest go until the rest is small enough; the last one stays.
  unfoldable pub drop_oldest : List Fields → List Fields
  drop_oldest [] = []
  drop_oldest (m ∷ []) = m ∷ []
  drop_oldest (m ∷ n ∷ ms) =
      if ltb 24000 (size (m ∷ n ∷ ms)) then drop_oldest (n ∷ ms) else m ∷ n ∷ ms

  -- `clampHistory`, of turns that are valid
  unfoldable pub clamp_turns : List Fields → Option (List Fields)
  clamp_turns valid = some_turns (from_user (map cut_message (drop_oldest (last_of 40 valid))))

  -- `clampHistory`
  unfoldable pub clamp_history : Json → Option (List Fields)
  clamp_history messages = valid_history messages >>= clamp_turns

  -- `needsCompaction`
  unfoldable pub needs_compaction : List Fields → Bool
  needs_compaction ms = ltb 24 (length ms) || ltb 18000 (size ms)

-- `splitForCompaction`, the overflow first.
unfoldable pub split_for_compaction : ℕ → List Fields → List Fields × List Fields
split_for_compaction keep_recent ms =
    if leb (length ms) keep_recent
    then ([], ms)
    else (take (length ms - keep_recent) ms, last_of keep_recent ms)

abbrev pub user_turn : Text → Fields
user_turn s = field (txt "role") (str (txt "user")) (field (txt "content") (str s) end)

abbrev pub summary_prefix : Text
summary_prefix = txt "Summary of the earlier conversation (compacted):\n"

-- The content of a turn of the user that is plain text.
unfoldable pub plain_text : Fields → Option Text
plain_text m = elim (get (txt "content") m) [
  | str s ↦ if is_user m then some s else none
  | _ ↦ none
]

-- The summary goes in front of the first turn, into it where that is a user's plain text.
unfoldable pub with_summary : Text → List Fields → List Fields
with_summary summary [] = user_turn (summary_prefix ++ summary) ∷ []
with_summary summary (first ∷ rest) = elim (plain_text first) [
  | some content ↦ user_turn (summary_prefix ++ (summary ++ (txt "\n\n---\n\n" ++ content))) ∷ rest
  | none ↦ user_turn (summary_prefix ++ summary) ∷ first ∷ rest
]

-- `buildWorkingWithSummary`
unfoldable pub build_working_with_summary : Text → List Fields → List Fields
build_working_with_summary summary recent =
    if is_empty summary then recent else with_summary summary recent
