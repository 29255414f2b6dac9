-- ===== src/Approval/Replay.antt =====
-- An approval is granted at most once: what the operations of Usage do to the keys, and histories.
use bankr_integration.Prelude.{
  ℕ, ◌+◌, ◌≤◌, ◌≡◌, refl, Bool, true, false, ◌&&◌, ◌||◌, some, List, [], ◌∷◌, arith, if◌then◌else◌,
  Bool-cases, All, and-eq-true, subst, inl, inr,
}
use bankr_integration.Js.Text.{Text, ◌===◌, ===_refl, ===_sound}
use bankr_integration.Js.Number.{Number}
use bankr_integration.Js.Json.{Json, Fields}
use bankr_integration.Js.Host.{Host}
use bankr_integration.Approval.Types.{ApprovedOperation, ApprovalReservation, ApprovalStoreOptions}
use bankr_integration.Approval.Usage.{
  Outcome, returned, threw, Usage, Faults, ReserveReply, granted, denied, approval_key, key_of,
  reservation_of, audit_event, reserve, release, consume,
}

-- A key that has a file, in either folder.
abbrev pub taken : Usage → Text → Bool
taken u j = u.reserved j || u.consumed j

-- What an operation keeps of every key: it stays taken, and it stays consumed.
pub record Keeps (u u' : Usage) (j : Text) : Type 0 where
  pub stays_taken : taken u j ≡ true → taken u' j ≡ true
  pub stays_consumed : u.consumed j ≡ true → u'.consumed j ≡ true

module _ (host : Host) (opts : ApprovalStoreOptions) (fault : Faults) (now : Number) where
  audit_event-files :
      (event : Text) (r : ApprovalReservation) (extra : Fields) (u : Usage) {u' : Usage}
      → audit_event host opts fault now event r extra u ≡ some u'
      → (u'.reserved ≡ u.reserved) × (u'.consumed ≡ u.consumed)
  unfolding audit_event
  audit_event-files event r extra u h = ground arith

  pub reserve_granted :
      (a : ApprovedOperation) (receipt_hash : Text) (u : Usage) {r : ApprovalReservation}
      → (reserve host opts fault now a receipt_hash u).0 ≡ returned (granted r)
      → (r ≡ reservation_of host a)
        × (taken u (approval_key host a) ≡ false)
        × (taken (reserve host opts fault now a receipt_hash u).1 (approval_key host a) ≡ true)
  unfolding reserve audit_event
  reserve_granted a receipt_hash u h = ground (arith, ===_refl (approval_key host a))

  pub reserve-Keeps :
      (a : ApprovedOperation) (receipt_hash : Text) (u : Usage) (j : Text)
      → Keeps u (reserve host opts fault now a receipt_hash u).1 j
  unfolding reserve audit_event
  reserve-Keeps a receipt_hash u j = record {
    stays_taken = λ h. ground (arith, ===_sound (approval_key host a) j);
    stays_consumed = λ h. ground arith;
  }

  pub consume-Keeps :
      (r : ApprovalReservation) (result : Json) (u : Usage) (j : Text)
      → Keeps u (consume host opts fault now r result u).1 j
  unfolding consume audit_event
  consume-Keeps r result u j = record {
    stays_taken = λ h. ground (arith, ===_sound (key_of host r) j);
    stays_consumed = λ h. ground arith;
  }

  -- A release frees no key but that of its reservation, and never a consumed one.
  pub release-Keeps :
      (r : ApprovalReservation) (reason : Text) (result : Json) (u : Usage) (j : Text)
      → (key_of host r === j) ≡ false
      → Keeps u (release host opts fault now r reason result u).1 j
  unfolding release audit_event
  release-Keeps r reason result u j h = record {
    stays_taken = λ t. ground arith;
    stays_consumed = λ t. ground arith;
  }

  pub release_consumed :
      (r : ApprovalReservation) (reason : Text) (result : Json) (u : Usage) (j : Text)
      → u.consumed j ≡ true
      → (release host opts fault now r reason result u).1.consumed j ≡ true
  unfolding release audit_event
  release_consumed r reason result u j h = ground arith

  pub consume_returned :
      (r : ApprovalReservation) (result : Json) (u : Usage)
      → (consume host opts fault now r result u).0 ≡ returned tt
      → (consume host opts fault now r result u).1.consumed (key_of host r) ≡ true
  unfolding consume audit_event
  consume_returned r result u h = ground (arith, ===_refl (key_of host r))

-- The calls that a history is made of.
pub data Operation : Type 0 where
  reserves : ApprovedOperation → Text → Operation
  releases : ApprovalReservation → Text → Json → Operation
  consumes : ApprovalReservation → Json → Operation

-- An operation, the file operations that fail in it, and its time.
pub record Call : Type 0 where
  pub operation : Operation
  pub fault : Faults
  pub now : Number

abbrev pub is_granted : Outcome ReserveReply → Bool
is_granted (returned (granted r)) = true
is_granted (returned (denied reason)) = false
is_granted (threw message) = false

module _ (host : Host) (opts : ApprovalStoreOptions) where
  perform : Operation → Faults → Number → Usage → Usage
  perform (reserves a h) fault now u = (reserve host opts fault now a h u).1
  perform (releases r reason result) fault now u = (release host opts fault now r reason result u).1
  perform (consumes r result) fault now u = (consume host opts fault now r result u).1

  grants_op : Text → Operation → Faults → Number → Usage → Bool
  grants_op j (reserves a h) fault now u =
      approval_key host a === j && is_granted (reserve host opts fault now a h u).0
  grants_op j (releases r reason result) fault now u = false
  grants_op j (consumes r result) fault now u = false

  -- The call grants a reservation of the key.
  unfoldable pub grants : Text → Call → Usage → Bool
  unfolding grants_op
  grants j c u = grants_op j c.operation c.fault c.now u

  unfoldable pub after : Call → Usage → Usage
  unfolding perform
  after c u = perform c.operation c.fault c.now u

  frees_op : Text → Operation → Bool
  frees_op j (releases r reason result) = key_of host r === j
  frees_op j (reserves a h) = false
  frees_op j (consumes r result) = false

  -- The call releases a reservation of the key.
  unfoldable pub frees : Text → Call → Bool
  unfolding frees_op
  frees j c = frees_op j c.operation

  -- How many reservations of a key a history grants.
  unfoldable pub grant_count : Text → Usage → List Call → ℕ
  grant_count j u [] = 0
  grant_count j u (c ∷ cs) = (if grants j c u then 1 else 0) + grant_count j (after c u) cs

  is_granted-taken :
      (a : ApprovedOperation) (h : Text) (fault : Faults) (now : Number) (u : Usage)
      → is_granted (reserve host opts fault now a h u).0 ≡ true
      → (taken u (approval_key host a) ≡ false)
        × (taken (reserve host opts fault now a h u).1 (approval_key host a) ≡ true)
  is_granted-taken a h fault now u g = go (reserve host opts fault now a h u).0 refl g
    where
      go :
          (o : Outcome ReserveReply)
          → (reserve host opts fault now a h u).0 ≡ o
          → is_granted o ≡ true
          → (taken u (approval_key host a) ≡ false)
            × (taken (reserve host opts fault now a h u).1 (approval_key host a) ≡ true)
      go (returned (granted r)) e g' =
          let (_, was, is) = reserve_granted host opts fault now a h u e in (was, is)
      go (returned (denied reason)) e g' = cc
      go (threw message) e g' = cc

  grants_op-taken :
      (j : Text) (o : Operation) (fault : Faults) (now : Number) (u : Usage)
      → grants_op j o fault now u ≡ true
      → (taken u j ≡ false) × (taken (perform o fault now u) j ≡ true)
  unfolding grants_op perform
  grants_op-taken j (reserves a h) fault now u g =
      let (same, made) = and-eq-true (approval_key host a === j) _ g in
      subst (λ k. (taken u k ≡ false) × (taken (reserve host opts fault now a h u).1 k ≡ true))
        (===_sound _ _ same) (is_granted-taken a h fault now u made)
  grants_op-taken j (releases r reason result) fault now u g = cc
  grants_op-taken j (consumes r result) fault now u g = cc

  perform-Keeps :
      (j : Text) (o : Operation) (fault : Faults) (now : Number) (u : Usage)
      → frees_op j o ≡ false
      → Keeps u (perform o fault now u) j
  unfolding perform frees_op
  perform-Keeps j (reserves a h) fault now u f = reserve-Keeps host opts fault now a h u j
  perform-Keeps j (releases r reason result) fault now u f =
      release-Keeps host opts fault now r reason result u j f
  perform-Keeps j (consumes r result) fault now u f = consume-Keeps host opts fault now r result u j

  perform_consumed :
      (j : Text) (o : Operation) (fault : Faults) (now : Number) (u : Usage)
      → u.consumed j ≡ true
      → (perform o fault now u).consumed j ≡ true
  unfolding perform
  perform_consumed j (reserves a h) fault now u c =
      (reserve-Keeps host opts fault now a h u j).stays_consumed c
  perform_consumed j (releases r reason result) fault now u c =
      release_consumed host opts fault now r reason result u j c
  perform_consumed j (consumes r result) fault now u c =
      (consume-Keeps host opts fault now r result u j).stays_consumed c

  grant_count-taken :
      (j : Text) (u : Usage) (cs : List Call)
      → All (λ c. frees j c ≡ false) cs
      → taken u j ≡ true
      → grant_count j u cs ≡ 0
  unfolding grant_count grants after frees
  grant_count-taken j u [] f t = refl
  grant_count-taken j u (c ∷ cs) (f, fs) t =
      let t' = (perform-Keeps j c.operation c.fault c.now u f).stays_taken t in
      ground (
        arith,
        grants_op-taken j c.operation c.fault c.now u,
        grant_count-taken j (perform c.operation c.fault c.now u) cs fs t',
      )

  -- Whatever file operations fail and in whatever order calls come, a history of calls of the
  -- file-backed store that releases no reservation of a key grants at most one reservation of that
  -- key.
  pub granted_once :
      (j : Text) (u : Usage) (cs : List Call)
      → All (λ c. frees j c ≡ false) cs
      → grant_count j u cs ≤ 1
  unfolding grant_count grants after frees
  granted_once j u [] f = omega arith
  granted_once j u (c ∷ cs) (f, fs) = elim (Bool-cases (grants_op j c.operation c.fault c.now u)) [
    | inl g ↦
        let (_, t) = grants_op-taken j c.operation c.fault c.now u g in
        let none_left = grant_count-taken j (perform c.operation c.fault c.now u) cs fs t in
        ground arith
    | inr g ↦ ground (arith, granted_once j (perform c.operation c.fault c.now u) cs fs)
  ]

  -- Once a key is consumed no history grants it again, not even one with releases.
  pub consumed_never_granted :
      (j : Text) (u : Usage) (cs : List Call) → u.consumed j ≡ true → grant_count j u cs ≡ 0
  unfolding grant_count grants after
  consumed_never_granted j u [] c = refl
  consumed_never_granted j u (k ∷ cs) c = ground (
    arith,
    grants_op-taken j k.operation k.fault k.now u,
    consumed_never_granted j (perform k.operation k.fault k.now u) cs
        (perform_consumed j k.operation k.fault k.now u c),
  )

  -- After a consumption that returns, no history of calls of the file-backed store, with releases
  -- or not and whatever file operations fail, grants a reservation of that key again.
  pub consumption_is_final :
      (r : ApprovalReservation) (result : Json) (fault : Faults) (now : Number) (u : Usage)
      (cs : List Call)
      → (consume host opts fault now r result u).0 ≡ returned tt
      → grant_count (key_of host r) (consume host opts fault now r result u).1 cs ≡ 0
  consumption_is_final r result fault now u cs h =
      consumed_never_granted (key_of host r) _ cs
        (consume_returned host opts fault now r result u h)
