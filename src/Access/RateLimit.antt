-- ===== src/Access/RateLimit.antt =====
-- The sliding-window rate limiter of one gateway process. Times are milliseconds since the epoch, as
-- natural numbers, and the map of hits is the list of its entries in order.
use bankr_integration.Prelude.{
  ℕ, ◌+◌, Bool, true, false, not, Option, none, some, List, [], ◌∷◌, ◌++◌, if◌then◌else◌, ltb, ◌==◌,
  length, filter, all,
}
use bankr_integration.Js.Text.{Text, txt, ◌===◌, trim}
use bankr_integration.Js.Number.{Number, whole, num_le}

abbrev pub Hits : Type 0
Hits = List (Text × List ℕ)

-- `hits.get(ip) ?? []`
unfoldable pub hits_of : Text → Hits → List ℕ
hits_of ip [] = []
hits_of ip ((k, v) ∷ h) = if k === ip then v else hits_of ip h

-- `hits.set(ip, v)`
unfoldable pub set_hits : Text → List ℕ → Hits → Hits
set_hits ip v [] = (ip, v) ∷ []
set_hits ip v ((k, w) ∷ h) = if k === ip then (k, v) ∷ h else (k, w) ∷ set_hits ip v h

-- `s.split(",")[0]`
before_comma : Text → Text
before_comma [] = []
before_comma (c ∷ s) = if c == b',' then [] else c ∷ before_comma s

-- The caller's address, from the two headers.
unfoldable pub ip_of : Option Text → Option Text → Text
unfolding before_comma
ip_of (some ip) forwarded = ip
ip_of none (some list) = trim (before_comma list)
ip_of none none = txt "local"

module _ (window_ms : ℕ) where
  -- `now - t < windowMs`
  abbrev pub in_window : ℕ → ℕ → Bool
  in_window now t = ltb now (t + window_ms)

  -- The entries that stay when a map with more than 5000 of them is swept.
  unfoldable pub sweep : ℕ → Hits → Hits
  sweep now h =
      if ltb 5000 (length h) then filter (λ e. not (all (λ t. not (in_window now t)) e.1)) h else h

  -- One request: whether it goes on to the next handler, and the hits after it.
  unfoldable pub rate_limit : Number → Text → ℕ → Hits → Bool × Hits
  rate_limit max ip now h =
      let recent = filter (in_window now) (hits_of ip h) in
      if num_le max (whole (length recent))
      then (false, h)
      else (true, sweep now (set_hits ip (recent ++ (now ∷ [])) h))

  -- The requests that went on and the hits, after requests that are listed with the last one first.
  abbrev pub after_request : Text → ℕ → Bool × Hits → List (Text × ℕ) → List (Text × ℕ) × Hits
  after_request ip now (ok, h) admitted = (if ok then admitted ++ ((ip, now) ∷ []) else admitted, h)

  unfoldable pub after_requests : Number → List (Text × ℕ) → List (Text × ℕ) × Hits
  unfolding rate_limit
  after_requests max [] = ([], [])
  after_requests max ((ip, now) ∷ rs) =
      let (admitted, h) = after_requests max rs in
      after_request ip now (rate_limit max ip now h) admitted
