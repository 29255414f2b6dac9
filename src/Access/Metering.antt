-- ===== src/Access/Metering.antt =====
-- The free prompts refine a meter that never forgets: a number of uses for each wallet.
use bankr_integration.Prelude.{
  ◌≡◌, refl, ap, ap₂, ◌∙◌, ℕ, ◌+◌, ◌-◌, Bool, true, false, none, some, List, [], ◌∷◌, if◌then◌else◌,
}
use bankr_integration.Js.Text.{Text, ◌===◌, lower, lower_idem}
use bankr_integration.Access.FreePrompts.{
  Counts, Freebies, load, counts, keep, used_by, set_count, persist, free_remaining, consume_free,
  reset_freebies, MeterCall, remaining, consumes, restarts, replies,
}

-- The abstract meter: how often each wallet, in lower case, was used.
abbrev pub Meter : Type 0
Meter = Text → ℕ

unfoldable pub add_use : Text → Meter → Meter
add_use w m = λ v. if v === w then m w + 1 else m v

module _ (free_prompts : ℕ) where
  unfoldable pub meter_replies : List (MeterCall free_prompts) → Meter → List ℕ
  meter_replies [] m = []
  meter_replies (remaining w ∷ cs) m = (free_prompts - m (lower w)) ∷ meter_replies cs m
  meter_replies (consumes w ∷ cs) m =
      (free_prompts - add_use (lower w) m (lower w)) ∷ meter_replies cs (add_use (lower w) m)
  meter_replies (restarts ∷ cs) m = meter_replies cs m

  -- The counts that are kept and those of the file are the meter's.
  abbrev pub Shows : Freebies → Meter → Type 0
  Shows s m = (w : Text) → (used_by (counts s) w ≡ m w) × (used_by (load s) w ≡ m w)

  keep-Shows : (s : Freebies) (m : Meter) → Shows s m → Shows (keep s) m
  unfolding keep counts load
  keep-Shows s m h w = h w

  reset-Shows : (s : Freebies) (m : Meter) → Shows s m → Shows (reset_freebies free_prompts s) m
  unfolding reset_freebies counts load
  reset-Shows s m h w = ((h w).1, (h w).1)

  set_count-add_use :
      (c : Counts) (m : Meter) (w v : Text)
      → ((u : Text) → used_by c u ≡ m u)
      → used_by (set_count w (used_by c w + 1) c) v ≡ add_use w m v
  unfolding set_count add_use used_by
  set_count-add_use c m w v h = chosen (v === w)
    where
      chosen :
          (b : Bool)
          → (elim (if b then some (used_by c w + 1) else c v) as (λ x. ℕ) [ none ↦ 0 | some n ↦ n ])
            ≡ (if b then m w + 1 else m v)
      chosen true = ap (λ n. n + 1) (h w)
      chosen false = h v

  consume-Shows :
      (s : Freebies) (m : Meter) (wallet : Text)
      → Shows s m
      → Shows (consume_free free_prompts true wallet s).1 (add_use (lower wallet) m)
  unfolding consume_free free_remaining persist keep counts load
  consume-Shows s m wallet h v =
      let e = set_count-add_use (counts s) m (lower wallet) v (λ u. (h u).0) in (e, e)

  consume-reply :
      (s : Freebies) (m : Meter) (wallet : Text)
      → Shows s m
      → (consume_free free_prompts true wallet s).0
        ≡ free_prompts - add_use (lower wallet) m (lower wallet)
  unfolding consume_free free_remaining persist counts
  consume-reply s m wallet h =
      ap (λ n. free_prompts - n)
        (set_count-add_use (counts s) m (lower wallet) _ (λ u. (h u).0)
          ∙ ap (add_use (lower wallet) m) (lower_idem wallet))

  -- When the store's writes succeed, any sequence of readings, uses and restarts gets the replies
  -- of a meter that counts each wallet's uses, letter case left out, and that a restart does not
  -- change.
  pub replies-meter :
      (cs : List (MeterCall free_prompts)) (s : Freebies) (m : Meter)
      → Shows s m
      → replies free_prompts cs s ≡ meter_replies cs m
  unfolding replies meter_replies free_remaining
  replies-meter [] s m h = refl
  replies-meter (remaining w ∷ cs) s m h =
      ap₂ ◌∷◌ (ap (λ n. free_prompts - n) (h (lower w)).0)
        (replies-meter cs (keep s) m (keep-Shows s m h))
  replies-meter (consumes w ∷ cs) s m h =
      ap₂ ◌∷◌ (consume-reply s m w h)
        (replies-meter cs _ (add_use (lower w) m) (consume-Shows s m w h))
  replies-meter (restarts ∷ cs) s m h =
      replies-meter cs (reset_freebies free_prompts s) m (reset-Shows s m h)
