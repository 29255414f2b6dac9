-- ===== src/Access/Hits.antt =====
-- The map of hits: what is read after a write, and the keys that stay distinct.
use bankr_integration.Prelude.{
  ◌≡◌, ◌≢◌, refl, sym, ap, ◌∙◌, arith, ℕ, Bool, true, false, not, ◌||◌, List, [], ◌∷◌, ◌++◌,
  if◌then◌else◌, Bool-cases, inl, inr, leb, filter, all, any,
}
use bankr_integration.Js.Text.{Text, ◌===◌, ===_sound, ===_refl}
use bankr_integration.Js.Number.{whole, num_le, num_lt, num_eq}
use bankr_integration.Access.RateLimit.{Hits, hits_of, set_hits}

pub num_le-whole : (k n : ℕ) → num_le (whole k) (whole n) ≡ leb k n
unfolding num_le num_lt num_eq whole
num_le-whole k n = ground arith

true_neq_false : true ≢ false
true_neq_false h = ground arith

module _ {A : Type 0} where
  pub filter-append :
      (p : A → Bool) (xs ys : List A) → filter p (xs ++ ys) ≡ filter p xs ++ filter p ys
  filter-append p [] ys = refl
  filter-append p (x ∷ xs) ys = elim (Bool-cases (p x)) [
    | inl h ↦ rw h (ap (λ l. x ∷ l) (filter-append p xs ys))
    | inr h ↦ rw h (filter-append p xs ys)
  ]

  -- A weaker filter before a stronger one takes nothing away.
  pub filter-filter :
      (p q : A → Bool)
      → ((x : A) → q x ≡ true → p x ≡ true)
      → (xs : List A) → filter q (filter p xs) ≡ filter q xs
  filter-filter p q h [] = refl
  filter-filter p q h (x ∷ xs) = elim (Bool-cases (q x)) [
    | inl e ↦ rw (e, h x e, e) (ap (λ l. x ∷ l) (filter-filter p q h xs))
    | inr e ↦ elim (Bool-cases (p x)) [
      | inl e' ↦ rw (e', e) (filter-filter p q h xs)
      | inr e' ↦ rw (e', e) (filter-filter p q h xs)
    ]
  ]

  pub filter-none : (p : A → Bool) (xs : List A) → all (λ x. not (p x)) xs ≡ true → filter p xs ≡ []
  filter-none p [] h = refl
  filter-none p (x ∷ xs) h = ground (arith, filter-none p xs)

-- The keys of the map.
abbrev pub has_key : Text → Hits → Bool
has_key ip h = any (λ e. e.0 === ip) h

abbrev pub Distinct : Hits → Type 0
Distinct [] = Unit
Distinct ((k, v) ∷ h) = (has_key k h ≡ false) × Distinct h

pub no_hits : (ip : Text) (h : Hits) → has_key ip h ≡ false → hits_of ip h ≡ []
unfolding hits_of
no_hits ip [] e = refl
no_hits ip ((k, v) ∷ h) e = ground (arith, no_hits ip h)

-- Two keys are not both equal to a third if they differ.
apart : (k j ip : Text) → (k === j) ≡ false → (k === ip) ≡ true → (j === ip) ≡ false
apart k j ip h e = elim (Bool-cases (j === ip)) [
  | inl f ↦ absurd (true_neq_false (sym (rw (===_sound j ip f) e) ∙ h))
  | inr f ↦ f
]

pub hits_of-set_hits :
    (ip j : Text) (v : List ℕ) (h : Hits)
    → hits_of ip (set_hits j v h) ≡ (if j === ip then v else hits_of ip h)
unfolding hits_of set_hits
hits_of-set_hits ip j v [] = refl
hits_of-set_hits ip j v ((k, w) ∷ h) = elim (Bool-cases (k === j)) [
  | inl e ↦ rw (e, ===_sound k j e) (ground arith)
  | inr e ↦ rw e (ground (arith, hits_of-set_hits ip j v h, apart k j ip e))
]

has_key-set_hits :
    (ip j : Text) (v : List ℕ) (h : Hits)
    → has_key ip (set_hits j v h) ≡ ((j === ip) || has_key ip h)
unfolding set_hits
has_key-set_hits ip j v [] = refl
has_key-set_hits ip j v ((k, w) ∷ h) = elim (Bool-cases (k === j)) [
  | inl e ↦ rw (e, ===_sound k j e) (ground arith)
  | inr e ↦ rw e (ground (arith, has_key-set_hits ip j v h))
]

pub set_hits-Distinct : (j : Text) (v : List ℕ) (h : Hits) → Distinct h → Distinct (set_hits j v h)
unfolding set_hits
set_hits-Distinct j v [] d = (refl, tt)
set_hits-Distinct j v ((k, w) ∷ h) d = elim (Bool-cases (k === j)) [
  | inl e ↦ rw e d
  | inr e ↦ rw e (
    has_key-set_hits k j v h ∙ rw (apart k j k e (===_refl k), d.0) refl,
    set_hits-Distinct j v h d.1,
  )
]

pub filter-no_key :
    (p : (Text × List ℕ) → Bool) (ip : Text) (h : Hits)
    → has_key ip h ≡ false
    → has_key ip (filter p h) ≡ false
filter-no_key p ip [] e = refl
filter-no_key p ip ((k, v) ∷ h) e = ground (arith, filter-no_key p ip h)

pub filter-Distinct : (p : (Text × List ℕ) → Bool) (h : Hits) → Distinct h → Distinct (filter p h)
filter-Distinct p [] d = tt
filter-Distinct p ((k, v) ∷ h) d = elim (Bool-cases (p (k, v))) [
  | inl e ↦ rw e (filter-no_key p k h d.0, filter-Distinct p h d.1)
  | inr e ↦ rw e (filter-Distinct p h d.1)
]
