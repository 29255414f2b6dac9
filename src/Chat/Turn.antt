-- ===== src/Chat/Turn.antt =====
-- How a turn of the agent ends, and which tools it runs.
use bankr_integration.Prelude.{
  ◌≡◌, refl, subst, arith, ℕ, zero, suc, ◌≤◌, Bool, true, false, Option, none, some, List, [], ◌∷◌,
  ◌++◌, if◌then◌else◌, Bool-cases, inl, inr, find?, All, All-append, Option-cases,
}
use bankr_integration.Js.Text.{Text, txt, ◌===◌, is_empty}
use bankr_integration.Js.Json.{Json, Fields}
use bankr_integration.Js.Host.{Host}
use bankr_integration.Chat.History.{valid_history, needs_compaction, split_for_compaction}
use bankr_integration.Chat.Tools.{is_paid_tool, ChatToolDeps}
use bankr_integration.Chat.Agent.{
  Answer, Ending, finished, failed, FinalMessage, Tokens, StreamEvent, ChatFrame, text_frame,
  tool_start, error_frame, done, show_text, text_frames, name_of, is_paid_block, confirmation,
  tool_frames, Step, ends, goes_on, after_blocks, after_ending, iterate,
}
use bankr_integration.Chat.Run.{
  replace_overflow, prepare, run_clamped, run_prepared, run_valid, run_chat_turn, no_usable_history,
}

-- `done` and `error` are the frames that end a turn.
abbrev pub is_final : ChatFrame → Bool
is_final (done pending) = true
is_final (error_frame message) = true
is_final f = false

-- One frame ends the turn, and it is the last.
abbrev pub EndsOnce : List ChatFrame → Type 0
EndsOnce [] = ⊥
EndsOnce (f ∷ []) = is_final f ≡ true
EndsOnce (f ∷ g ∷ fs) = (is_final f ≡ false) × EndsOnce (g ∷ fs)

some_not_none {ℓ} : {A : Type ℓ} {x : A} → ¬ (some x ≡ none)
some_not_none h = cc

-- A tool that a frame announces is not a paid one.
abbrev pub IsFree : ChatFrame → Type 0
IsFree (tool_start name args) = is_paid_tool name ≡ false
IsFree f = Unit

abbrev GoesOn : ChatFrame → Type 0
GoesOn f = is_final f ≡ false

EndsOnce-append : (xs ys : List ChatFrame) → All GoesOn xs → EndsOnce ys → EndsOnce (xs ++ ys)
EndsOnce-append [] ys a e = e
EndsOnce-append (x ∷ []) [] a e = absurd e
EndsOnce-append (x ∷ []) (y ∷ ys) a e = (a.0, e)
EndsOnce-append (x ∷ z ∷ xs) ys a e = (a.0, EndsOnce-append (z ∷ xs) ys a.1 e)

show_text-All :
    (P : ChatFrame → Type 0)
    → ((t : Text) → P (text_frame t))
    → (o : Option Text) (rest : List ChatFrame) → All P rest
    → All P (show_text o rest)
unfolding show_text
show_text-All P h none rest a = a
show_text-All P h (some t) rest a = (h t, a)

-- What holds of all text frames holds of the texts of an answer.
text_frames-All :
    (P : ChatFrame → Type 0)
    → ((t : Text) → P (text_frame t))
    → (es : List StreamEvent) → All P (text_frames es)
unfolding text_frames
text_frames-All P h [] = tt
text_frames-All P h (e ∷ es) = show_text-All P h _ (text_frames es) (text_frames-All P h es)

module _ (host : Host) (deps : ℕ → ChatToolDeps) where
  abbrev EndsStep : Step host deps → Type 0
  EndsStep (ends fs) = EndsOnce fs × All IsFree fs
  EndsStep (goes_on fs u w n) = All GoesOn fs × All IsFree fs

  tool_frames-GoesOn : (n : ℕ) (blocks : List Fields) → All GoesOn (tool_frames host deps n blocks)
  unfolding tool_frames
  tool_frames-GoesOn n [] = tt
  tool_frames-GoesOn n (b ∷ bs) = (refl, (refl, tool_frames-GoesOn (suc n) bs))

  tool_frames-IsFree :
      (n : ℕ) (blocks : List Fields)
      → find? (is_paid_block host) blocks ≡ none
      → All IsFree (tool_frames host deps n blocks)
  unfolding tool_frames is_paid_block
  tool_frames-IsFree n [] h = tt
  tool_frames-IsFree n (b ∷ bs) h = elim (Bool-cases (is_paid_tool (name_of host b))) [
    | inl e ↦ absurd (
        some_not_none
          (subst (λ c. (if c then some b else find? (is_paid_block host) bs) ≡ none) e h))
    | inr e ↦ (
      e,
      (
        tt,
        tool_frames-IsFree (suc n) bs
            (subst (λ c. (if c then some b else find? (is_paid_block host) bs) ≡ none) e h),
      ),
    )
  ]

  after_blocks-EndsStep :
      (ran : ℕ) (total : Tokens) (working : List Fields) (final : FinalMessage)
      (blocks : List Fields)
      → EndsStep (after_blocks host deps ran total working final blocks)
  unfolding after_blocks confirmation
  after_blocks-EndsStep ran total working final blocks =
      elim (Option-cases (find? (is_paid_block host) blocks)) [
        | inl h ↦ rw (EndsStep, h) (tool_frames-GoesOn ran blocks, tool_frames-IsFree ran blocks h)
        | inr (b, h) ↦ rw (EndsStep, h) ((refl, (refl, (refl, refl))), (tt, (tt, (tt, (tt, tt)))))
      ]

  after_ending-EndsStep :
      (ran : ℕ) (usage : Tokens) (working : List Fields) (e : Ending)
      → EndsStep (after_ending host deps ran usage working e)
  unfolding after_ending
  after_ending-EndsStep ran usage working (failed f) = (refl, (tt, tt))
  after_ending-EndsStep ran usage working (finished final) =
      elim (Bool-cases (final.stop_reason === txt "tool_use")) [
        | inl h ↦ rw h (after_blocks-EndsStep ran _ working final _)
        | inr h ↦ rw h ((refl, refl), (tt, (tt, tt)))
      ]

  module _ (brain : List Fields → Answer) where
    abbrev EndsWithin : ℕ → List ChatFrame × ℕ → Type 0
    EndsWithin n (fs, asked) = EndsOnce fs × All IsFree fs × (asked ≤ n)

    iterate-EndsWithin :
        (left ran : ℕ) (usage : Tokens) (working : List Fields)
        → EndsWithin left (iterate host deps brain left ran usage working)
    unfolding iterate
    iterate-EndsWithin zero ran usage working = ((refl, refl), (tt, (tt, tt)), omega arith)
    iterate-EndsWithin (suc left) ran usage working =
        go (after_ending host deps ran usage working (brain working).ending)
          (after_ending-EndsStep ran usage working (brain working).ending)
          (λ n u w. iterate-EndsWithin left n u w)
      where
        texts : List ChatFrame
        texts = text_frames (brain working).events

        go :
            (s : Step host deps)
            → EndsStep s
            → ((n : ℕ) (u : Tokens) (w : List Fields)
                → EndsWithin left (iterate host deps brain left n u w))
            → EndsWithin (suc left) (elim s [
              | ends frames ↦ (text_frames (brain working).events ++ frames, 1)
              | goes_on frames usage' working' ran' ↦
                  let (rest, asked) = iterate host deps brain left ran' usage' working' in
                  (text_frames (brain working).events ++ (frames ++ rest), suc asked)
            ])
        go (ends fs) (e, f) ih = (
          EndsOnce-append texts fs (text_frames-All GoesOn (λ t. refl) (brain working).events) e,
          All-append IsFree texts fs (text_frames-All IsFree (λ t. tt) (brain working).events) f,
          omega arith,
        )
        go (goes_on fs u w n) (g, f) ih =
            let (e, f', few) = ih n u w in
            (
              EndsOnce-append texts _ (text_frames-All GoesOn (λ t. refl) (brain working).events)
                  (EndsOnce-append fs _ g e),
              All-append IsFree texts _ (text_frames-All IsFree (λ t. tt) (brain working).events)
                  (All-append IsFree fs _ f f'),
              omega (arith, few),
            )

    abbrev Opens : List ChatFrame × List Fields → Type 0
    Opens (fs, prepared) = All GoesOn fs × All IsFree fs

    replace_overflow-Opens :
        (summary : Text) (all recent overflow : List Fields)
        → Opens (replace_overflow host summary all recent overflow)
    unfolding replace_overflow
    replace_overflow-Opens summary all recent [] = (tt, tt)
    replace_overflow-Opens summary all recent (m ∷ ms) = elim (Bool-cases (is_empty summary)) [
      | inl h ↦ rw h (tt, tt)
      | inr h ↦ rw h ((refl, tt), (tt, tt))
    ]

    prepare-Opens :
        (summarizer : Text → Answer) (prior : Option Text) (all : List Fields)
        → Opens (prepare host summarizer prior all)
    unfolding prepare
    prepare-Opens summarizer prior all = elim (Bool-cases (needs_compaction host all)) [
      | inl h ↦ rw h (replace_overflow-Opens _ all _ (split_for_compaction 12 all).0)
      | inr h ↦ rw h (tt, tt)
    ]

    run_clamped-EndsWithin :
        (fs : List ChatFrame) (history : Option (List Fields))
        → All GoesOn fs
        → All IsFree fs
        → EndsWithin 4 (run_clamped host deps brain fs history)
    unfolding run_clamped
    run_clamped-EndsWithin fs none g f =
        (EndsOnce-append fs no g refl, All-append IsFree fs no f (tt, tt), omega arith)
      where
        no : List ChatFrame
        no = no_usable_history host
    run_clamped-EndsWithin fs (some history) g f =
        let (e, f', few) = iterate-EndsWithin 4 0 _ _ in
        (EndsOnce-append fs _ g e, All-append IsFree fs _ f f', few)

    run_valid-EndsWithin :
        (summarizer : Text → Answer) (prior : Option Text) (valid : Option (List Fields))
        → EndsWithin 4 (run_valid host deps brain summarizer prior valid)
    unfolding run_valid run_prepared
    run_valid-EndsWithin summarizer prior none = (refl, (tt, tt), omega arith)
    run_valid-EndsWithin summarizer prior (some all) =
        let (g, f) = prepare-Opens summarizer prior all in
        run_clamped-EndsWithin (prepare host summarizer prior all).0 _ g f

    -- For every history, model and tools, errors of them included, a chat turn ends: exactly one of
    -- its frames is a done or an error frame, and that is its last; its loop asks the model for at
    -- most four answers.
    pub run_chat_turn-EndsOnce :
        (summarizer : Text → Answer) (prior : Option Text) (messages : Json)
        → let (frames, asked) = run_chat_turn host deps brain summarizer prior messages in
          EndsOnce frames × (asked ≤ 4)
    unfolding run_chat_turn
    run_chat_turn-EndsOnce summarizer prior messages =
        let (e, f, few) = run_valid-EndsWithin summarizer prior (valid_history messages) in (e, few)

    -- No tool that a chat turn starts is a paid one, whatever the model asks for.
    pub run_chat_turn-IsFree :
        (summarizer : Text → Answer) (prior : Option Text) (messages : Json)
        → All IsFree (run_chat_turn host deps brain summarizer prior messages).0
    unfolding run_chat_turn
    run_chat_turn-IsFree summarizer prior messages =
        let (e, f, few) = run_valid-EndsWithin summarizer prior (valid_history messages) in f
