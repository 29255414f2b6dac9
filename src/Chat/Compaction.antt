-- ===== src/Chat/Compaction.antt =====
-- What compaction and the clamp keep of a history.
use bankr_integration.Prelude.{
  ◌≡◌, refl, ap, arith, ℕ, zero, suc, ◌-◌, ◌≤◌, true, some, List, [], ◌∷◌, ◌++◌, if◌then◌else◌, leb,
  Bool-cases, inl, inr, length, take, drop, length-drop, map, subst, transfer_some, >>=-eq-some,
}
use bankr_integration.Js.Json.{Json, Fields}
use bankr_integration.Js.Host.{Host}
use bankr_integration.Chat.History.{
  last_of, some_turns, is_user, cut_message, from_user, drop_oldest, clamp_turns, clamp_history,
  split_for_compaction, valid_history,
}

take-drop {ℓ} : {A : Type ℓ} (n : ℕ) (xs : List A) → take n xs ++ drop n xs ≡ xs
take-drop zero xs = refl
take-drop (suc n) [] = refl
take-drop (suc n) (x ∷ xs) = ap (λ l. x ∷ l) (take-drop n xs)

length-take {ℓ} : {A : Type ℓ} (n : ℕ) (xs : List A) → n ≤ length xs → length (take n xs) ≡ n
length-take zero xs h = refl
length-take (suc n) [] h = omega arith
length-take (suc n) (x ∷ xs) h = omega (arith, length-take n xs)

length-last_of {ℓ} : {A : Type ℓ} (n : ℕ) (xs : List A) → 1 ≤ n → length (last_of n xs) ≤ n
length-last_of zero xs h = omega arith
length-last_of (suc n) xs h = omega (arith, length-drop (length xs - suc n) xs)

take-last_of {ℓ} :
    {A : Type ℓ} (n : ℕ) (xs : List A) → 1 ≤ n → take (length xs - n) xs ++ last_of n xs ≡ xs
take-last_of zero xs h = absurd (one_positive h)
  where
    one_positive : 1 ≤ 0 → ⊥
    one_positive h = omega arith
take-last_of (suc n) xs h = take-drop (length xs - suc n) xs

-- Where at least one turn is to be kept, the overflow of a history followed by its recent part is
-- the history, the recent part has no more turns than are to be kept, and the overflow has those
-- beyond that number.
pub split_for_compaction-append :
    (keep_recent : ℕ) (ms : List Fields)
    → 1 ≤ keep_recent
    → let (overflow, recent) = split_for_compaction keep_recent ms in
      (overflow ++ recent ≡ ms)
      × (length recent ≤ keep_recent)
      × (length overflow ≡ length ms - keep_recent)
unfolding split_for_compaction
split_for_compaction-append k ms positive = elim (Bool-cases (leb (length ms) k)) [
  | inl e ↦ rw e (refl, short e, none_over e)
  | inr e ↦ rw e (
    take-last_of k ms positive,
    length-last_of k ms positive,
    omega (arith, length-take (length ms - k) ms),
  )
]
  where
    short : leb (length ms) k ≡ true → length ms ≤ k
    short e = ground arith

    none_over : leb (length ms) k ≡ true → 0 ≡ length ms - k
    none_over e = ground arith

length-map {ℓ κ} :
    {A : Type ℓ} {B : Type κ} (f : A → B) (xs : List A) → length (map f xs) ≡ length xs
length-map f [] = refl
length-map f (x ∷ xs) = ap suc (length-map f xs)

length-from_user : (ms : List Fields) → length (from_user ms) ≤ length ms
unfolding from_user
length-from_user [] = omega arith
length-from_user (m ∷ ms) = ground (arith, length-from_user ms)

-- The first message is the user's.
abbrev pub StartsAsUser : List Fields → Type 0
StartsAsUser [] = ⊥
StartsAsUser (m ∷ ms) = is_user m ≡ true

module _ (host : Host) where
  length-drop_oldest : (ms : List Fields) → length (drop_oldest host ms) ≤ length ms
  unfolding drop_oldest
  length-drop_oldest [] = omega arith
  length-drop_oldest (m ∷ []) = omega arith
  length-drop_oldest (m ∷ n ∷ ms) = ground (arith, length-drop_oldest (n ∷ ms))

  kept_turns :
      (ms kept : List Fields)
      → some_turns (from_user ms) ≡ some kept
      → (length kept ≤ length ms) × StartsAsUser kept
  unfolding some_turns from_user
  kept_turns [] kept h = cc
  kept_turns (m ∷ ms) kept h = elim (Bool-cases (is_user m)) [
    | inl e ↦
        transfer_some (λ l. (length l ≤ suc (length ms)) × StartsAsUser l) {a = m ∷ ms} {b = kept}
          (subst (λ b. some_turns (if b then m ∷ ms else from_user ms) ≡ some kept) e h)
          (omega arith, e)
    | inr e ↦
        let (few, user) =
          kept_turns ms kept
            (subst (λ b. some_turns (if b then m ∷ ms else from_user ms) ≡ some kept) e h) in
        (omega (arith, few), user)
  ]

  -- A history that the clamp lets through has at most 40 turns and starts with one of the user.
  pub clamp_history-bound :
      (messages : Json) (kept : List Fields)
      → clamp_history host messages ≡ some kept
      → (length kept ≤ 40) × StartsAsUser kept
  unfolding clamp_history clamp_turns
  clamp_history-bound messages kept h =
      let (valid, _, h) = >>=-eq-some (valid_history messages) (clamp_turns host) h in
      let (few, user) = kept_turns _ kept h in
      (
        omega (
          arith,
          few,
          length-map cut_message (drop_oldest host (last_of 40 valid)),
          length-drop_oldest (last_of 40 valid),
          length-last_of 40 valid (omega arith),
        ),
        user,
      )
