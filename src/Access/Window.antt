-- ===== src/Access/Window.antt =====
-- The rate limiter admits no more than its maximum in a window.
use bankr_integration.Prelude.{
  ◌≡◌, refl, sym, ap, ◌∙◌, subst, arith, ℕ, ◌+◌, ◌≤◌, Bool, true, false, not, List, [], ◌∷◌, ◌++◌,
  if◌then◌else◌, Bool-cases, inl, inr, ltb, leb, length, length-append, filter, length-filter-le,
  all,
}
use bankr_integration.Js.Text.{Text, ◌===◌, ===_sound}
use bankr_integration.Js.Number.{whole}
use bankr_integration.Access.RateLimit.{
  Hits, hits_of, in_window, sweep, rate_limit, after_request, after_requests,
}
use bankr_integration.Access.Hits.{
  num_le-whole, filter-append, filter-filter, filter-none, has_key, Distinct, no_hits,
  hits_of-set_hits, set_hits-Distinct, filter-no_key, filter-Distinct,
}

module _ (window_ms : ℕ) (now : ℕ) where
  abbrev inside : List ℕ → List ℕ
  inside ts = filter (in_window window_ms now) ts

  abbrev is_kept : Text × List ℕ → Bool
  is_kept e = not (all (λ t. not (in_window window_ms now t)) e.1)

  not_kept : (ts : List ℕ) → is_kept ([], ts) ≡ false → inside ts ≡ []
  not_kept ts h = filter-none (in_window window_ms now) ts (ground arith)

  -- Sweeping loses no time that is in the window.
  inside-kept :
      (ip : Text) (h : Hits)
      → Distinct h
      → inside (hits_of ip (filter is_kept h)) ≡ inside (hits_of ip h)
  unfolding hits_of
  inside-kept ip [] d = refl
  inside-kept ip ((k, v) ∷ h) d = elim (Bool-cases (is_kept (k, v))) [
    | inl e ↦
        rw e
          (elim (Bool-cases (k === ip)) [ inl f ↦ rw f refl | inr f ↦ rw f (inside-kept ip h d.1) ])
    | inr e ↦ rw e (elim (Bool-cases (k === ip)) [
      | inl f ↦ rw f (
          ap (filter (in_window window_ms now)) (
            no_hits ip _ (
              filter-no_key is_kept ip h (subst (λ x. has_key x h ≡ false) (===_sound k ip f) d.0)))
          ∙ sym (not_kept v e))
      | inr f ↦ rw f (inside-kept ip h d.1)
    ])
  ]

  inside-sweep :
      (ip : Text) (h : Hits)
      → Distinct h
      → inside (hits_of ip (sweep window_ms now h)) ≡ inside (hits_of ip h)
  unfolding sweep
  inside-sweep ip h d = elim (Bool-cases (ltb 5000 (length h))) [
    | inl e ↦ rw e (inside-kept ip h d)
    | inr e ↦ rw e refl
  ]

  sweep-Distinct : (h : Hits) → Distinct h → Distinct (sweep window_ms now h)
  unfolding sweep
  sweep-Distinct h d = elim (Bool-cases (ltb 5000 (length h))) [
    | inl e ↦ rw e (filter-Distinct is_kept h d)
    | inr e ↦ rw e d
  ]

-- The times of the requests of an address.
unfoldable pub times_of : Text → List (Text × ℕ) → List ℕ
times_of ip [] = []
times_of ip ((j, t) ∷ rs) = if j === ip then t ∷ times_of ip rs else times_of ip rs

swap_ifs :
    (a b : Bool) (x : ℕ) (xs ys : List ℕ)
    → (if b then x ∷ (if a then xs ++ ys else xs) else if a then xs ++ ys else xs)
      ≡ (if a then (if b then x ∷ xs else xs) ++ ys else if b then x ∷ xs else xs)
swap_ifs true true x xs ys = refl
swap_ifs true false x xs ys = refl
swap_ifs false true x xs ys = refl
swap_ifs false false x xs ys = refl

times_of-snoc :
    (ip j : Text) (t : ℕ) (rs : List (Text × ℕ))
    → times_of ip (rs ++ ((j, t) ∷ []))
      ≡ (if j === ip then times_of ip rs ++ (t ∷ []) else times_of ip rs)
unfolding times_of
times_of-snoc ip j t [] = ground arith
times_of-snoc ip j t ((k, u) ∷ rs) =
    rw (times_of-snoc ip j t rs) (swap_ifs (j === ip) (k === ip) u (times_of ip rs) (t ∷ []))

-- Requests, the last first, at times that do not go back.
abbrev pub IsOrdered : List (Text × ℕ) → ℕ → Type 0
IsOrdered [] now = Unit
IsOrdered ((ip, t) ∷ rs) now = (t ≤ now) × IsOrdered rs t

module _ (window_ms : ℕ) (k : ℕ) where
  abbrev state : List (Text × ℕ) → List (Text × ℕ) × Hits
  state rs = after_requests window_ms (whole k) rs

  abbrev Tracks : ℕ → List (Text × ℕ) × Hits → Type 0
  Tracks now s =
      Distinct s.1
      × ((ip : Text)
          → inside window_ms now (hits_of ip s.1) ≡ inside window_ms now (times_of ip s.0))
      × ((ip : Text) → length (inside window_ms now (times_of ip s.0)) ≤ k)

  -- Time passes.
  later : (now now' : ℕ) (s : List (Text × ℕ) × Hits) → now ≤ now' → Tracks now s → Tracks now' s
  later now now' s h (d, same, few) = (
    d,
    λ ip.
        sym (again (hits_of ip s.1))
        ∙ ap (inside window_ms now') (same ip)
        ∙ again (times_of ip s.0),
    λ ip. fewer ip,
  )
    where
      again :
          (ts : List ℕ) → inside window_ms now' (inside window_ms now ts) ≡ inside window_ms now' ts
      again ts =
          filter-filter (in_window window_ms now) (in_window window_ms now') (λ t e. ground arith)
            ts

      fewer : (ip : Text) → length (inside window_ms now' (times_of ip s.0)) ≤ k
      fewer ip = omega (
        arith,
        ap length (again (times_of ip s.0)),
        length-filter-le (in_window window_ms now') (inside window_ms now (times_of ip s.0)),
        few ip,
      )

  -- What is added for a request that goes on, at the addresses of the map and of the record.
  module _ (ip : Text) (now : ℕ) (admitted : List (Text × ℕ)) (h : Hits)
      (t : Tracks now (admitted, h)) where
    abbrev recent : List ℕ
    recent = inside window_ms now (hits_of ip h)

    added_same :
        (j : Text)
        → inside window_ms now (if ip === j then recent ++ (now ∷ []) else hits_of j h)
          ≡ inside window_ms now
              (if ip === j then times_of j admitted ++ (now ∷ []) else times_of j admitted)
    added_same j = elim (Bool-cases (ip === j)) [
      | inl e ↦ rw e (
          filter-append _ recent (now ∷ [])
          ∙ ap (λ l. l ++ inside window_ms now (now ∷ []))
              (filter-filter _ _ (λ x e. e) (hits_of ip h)
                ∙ t.1 ip
                ∙ ap (λ x. inside window_ms now (times_of x admitted)) (===_sound ip j e))
          ∙ sym (filter-append _ (times_of j admitted) (now ∷ [])))
      | inr e ↦ rw e (t.1 j)
    ]

    added_few :
        leb k (length recent) ≡ false
        → (j : Text)
        → length (
            inside window_ms now
              (if ip === j then times_of j admitted ++ (now ∷ []) else times_of j admitted))
          ≤ k
    added_few room j = elim (Bool-cases (ip === j)) [
      | inl e ↦ rw e (
          omega (
            arith,
            ap length (filter-append (in_window window_ms now) (times_of j admitted) (now ∷ [])),
            length-append (inside window_ms now (times_of j admitted))
                (inside window_ms now (now ∷ [])),
            length-filter-le (in_window window_ms now) (now ∷ []),
            ap length (t.1 ip),
            ap (λ x. length (inside window_ms now (times_of x admitted))) (===_sound ip j e),
            room_left room,
          ))
      | inr e ↦ rw e (t.2 j)
    ]
      where
        room_left : leb k (length recent) ≡ false → length recent + 1 ≤ k
        room_left h = ground arith

    step-Tracks :
        Tracks now
          (after_request window_ms ip now (rate_limit window_ms (whole k) ip now h) admitted)
    unfolding rate_limit
    step-Tracks = elim (Bool-cases (leb k (length recent))) [
      | inl e ↦ rw (num_le-whole k (length recent), e) t
      | inr e ↦
          rw (num_le-whole k (length recent), e)
            (let d = set_hits-Distinct ip (recent ++ (now ∷ [])) h t.0 in
              (
                sweep-Distinct window_ms now _ d,
                λ j.
                    inside-sweep window_ms now j _ d
                    ∙ ap (inside window_ms now) (hits_of-set_hits j ip _ h)
                    ∙ added_same j
                    ∙ sym (ap (inside window_ms now) (times_of-snoc j ip now admitted)),
                λ j. rw (times_of-snoc j ip now admitted) (added_few e j),
              ))
    ]

  after_requests-Tracks :
      (rs : List (Text × ℕ)) (now : ℕ) → IsOrdered rs now → Tracks now (state rs)
  unfolding after_requests times_of hits_of
  after_requests-Tracks [] now o = (tt, λ ip. refl, λ ip. omega arith)
  after_requests-Tracks ((ip, t) ∷ rs) now o =
      let (t_now, o) = o in
      later t now _ t_now
        (step-Tracks ip t (state rs).0 (state rs).1 (after_requests-Tracks rs t o))

  -- With a maximum k, after any requests from any addresses at times that do not go back, no more
  -- than k of the requests of an address that were let through lie in the window that ends now,
  -- also when the map has been swept.
  pub rate_limit-bound :
      (rs : List (Text × ℕ)) (now : ℕ) (ip : Text)
      → IsOrdered rs now
      → length
          (filter (in_window window_ms now) (times_of ip (after_requests window_ms (whole k) rs).0))
        ≤ k
  rate_limit-bound rs now ip o = let (d, same, few) = after_requests-Tracks rs now o in few ip
