-- ===== src/Access/FreePrompts.antt =====
-- The count of a wallet's free prompts: a map of counts that is read from its file at the first use
-- and kept, and a write of the file after each change, which may fail. `FREE_PROMPTS` and the counts
-- are natural numbers here.
use bankr_integration.Prelude.{
  ℕ, ◌+◌, ◌-◌, Bool, true, Option, none, some, List, [], ◌∷◌, if◌then◌else◌,
}
use bankr_integration.Js.Text.{Text, ◌===◌, lower}

-- A record of counts, `none` for a key that it lacks.
abbrev pub Counts : Type 0
Counts = Text → Option ℕ

-- `used`, the counts that are kept, and what the file holds, `none` where it cannot be read.
pub record Freebies : Type 0 where
  pub used : Option Counts
  pub file : Option Counts

-- `load`
unfoldable pub load : Freebies → Counts
load s = elim s.file [ none ↦ λ w. none | some c ↦ c ]

-- `counts`
unfoldable pub counts : Freebies → Counts
counts s = elim s.used [ none ↦ load s | some c ↦ c ]

unfoldable pub keep : Freebies → Freebies
keep s = record s { used = some (counts s) }

-- `counts()[w] ?? 0`
unfoldable pub used_by : Counts → Text → ℕ
used_by c w = elim (c w) [ none ↦ 0 | some n ↦ n ]

unfoldable pub set_count : Text → ℕ → Counts → Counts
set_count w n c = λ v. if v === w then some n else c v

-- `persist`; the flag is whether the write succeeds.
unfoldable pub persist : Bool → Freebies → Freebies
persist written s = if written then record s { file = some (counts s) } else s

module _ (free_prompts : ℕ) where
  -- `freeRemaining`
  unfoldable pub free_remaining : Text → Freebies → ℕ × Freebies
  unfolding keep
  free_remaining wallet s = (free_prompts - used_by (counts s) (lower wallet), keep s)

  -- `consumeFree`
  unfoldable pub consume_free : Bool → Text → Freebies → ℕ × Freebies
  consume_free written wallet s =
      let w = lower wallet in
      let changed : Freebies = record s {
        used = some (set_count w (used_by (counts s) w + 1) (counts s));
      } in
      free_remaining w (persist written changed)

  -- `_resetFreebies`, what a restart of the process does to the counts that are kept.
  unfoldable pub reset_freebies : Freebies → Freebies
  reset_freebies s = record s { used = none }

  pub data MeterCall : Type 0 where
    remaining consumes : Text → MeterCall
    restarts : MeterCall

  -- The replies of a sequence of calls whose writes of the file all succeed.
  unfoldable pub replies : List MeterCall → Freebies → List ℕ
  replies [] s = []
  replies (remaining w ∷ cs) s = let (n, s') = free_remaining w s in n ∷ replies cs s'
  replies (consumes w ∷ cs) s = let (n, s') = consume_free true w s in n ∷ replies cs s'
  replies (restarts ∷ cs) s = replies cs (reset_freebies s)
