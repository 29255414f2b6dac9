-- ===== src/Approval/Lookup.antt =====
-- Looking an approval up in the store's file (`readApprovals`, `isActive` and the three `getApproved…`
-- methods of `createFileBackedBankrApprovalStore`).
use bankr_integration.Prelude.{
  ◌≡◌, Bool, true, false, ◌&&◌, ◌||◌, Option, none, some, List, [], ◌∷◌, arith, find?, find?-holds,
  sym, All, All-map, Option-cases, transfer_some, and-eq-true, Bool-cases, inl, inr, ◌⊎◌,
}
use bankr_integration.Js.Text.{Text, txt, ◌===◌, ===_sound, is_empty}
use bankr_integration.Js.Number.{Number, num_eq, num_eq_sound, num_le}
use bankr_integration.Js.Json.{Json, arr, obj, Elems, nil, cons, Fields, get}
use bankr_integration.Js.Host.{Host}
use bankr_integration.Approval.Types.{
  ApprovedOperation, ApprovalLookup, ApprovalStoreOptions, OperationBody, contract_operation,
  value_movement, asset_exchange,
}
use bankr_integration.Approval.Parse.{parse_approval, parse_elems, parse_approvals}
use bankr_integration.Approval.Own.{IsAimed, as_record-obj}
use bankr_integration.Approval.Sealed.{IsSealed, parse_approval-IsSealed, parse_approval-IsAimed}

pub data OperationKind : Type 0 where
  contract movement exchange : OperationKind

abbrev pub kind_of : OperationBody → OperationKind
kind_of (contract_operation c) = contract
kind_of (value_movement m) = movement
kind_of (asset_exchange x) = exchange

abbrev pub same_kind : OperationKind → OperationKind → Bool
same_kind contract contract = true
same_kind movement movement = true
same_kind exchange exchange = true
same_kind j k = false

-- The values that stand in an approvals file: those of a list, or of the list under `approvals`.
abbrev pub entries_of : Option Json → Elems
entries_of (some (arr xs)) = xs
entries_of (some (obj fs)) = elim (get (txt "approvals") fs) [ arr xs ↦ xs | _ ↦ nil ]
entries_of _ = nil

abbrev pub IsElem : Json → Elems → Type 0
IsElem v nil = ⊥
IsElem v (cons w ws) = (v ≡ w) ⊎ IsElem v ws

All-find? :
    (P : ApprovedOperation → Type 0) (p : ApprovedOperation → Bool) (xs : List ApprovedOperation)
    {a : ApprovedOperation}
    → All P xs
    → find? p xs ≡ some a
    → P a
All-find? P p [] h e = cc
All-find? P p (x ∷ xs) (g, h) e = elim (Bool-cases (p x)) [
  | inl hit ↦ transfer_some P (rw hit at e) g
  | inr miss ↦ All-find? P p xs h (rw miss at e)
]

module _ (host : Host) (opts : ApprovalStoreOptions) where
  -- The file's contents, `none` where reading or parsing it fails.
  unfoldable pub read_approvals : Option Json → List ApprovedOperation
  read_approvals none = []
  read_approvals (some parsed) = parse_approvals host opts parsed

  -- `!expires_at || now.getTime() <= Date.parse(expires_at)`
  unfoldable pub is_active : Number → ApprovedOperation → Bool
  is_active now a = elim a.expires_at [
    | none ↦ true
    | some t ↦ is_empty t || num_le now (host.parse_date t)
  ]

  unfoldable pub is_wanted : OperationKind → ApprovalLookup → Number → ApprovedOperation → Bool
  is_wanted kind input now a =
      same_kind (kind_of a.operation) kind
      && (a.approval_id === input.approval_id)
      && (a.passport_id === input.passport_id)
      && num_eq a.chain_id input.chain_id
      && is_active now a

  unfoldable pub get_approved :
      OperationKind → Option Json → ApprovalLookup → Number → Option ApprovedOperation
  get_approved kind file input now = find? (is_wanted kind input now) (read_approvals file)

  unfoldable pub get_approved_contract_operation :
      Option Json → ApprovalLookup → Number → Option ApprovedOperation
  get_approved_contract_operation = get_approved contract

  unfoldable pub get_approved_value_movement :
      Option Json → ApprovalLookup → Number → Option ApprovedOperation
  get_approved_value_movement = get_approved movement

  unfoldable pub get_approved_asset_exchange :
      Option Json → ApprovalLookup → Number → Option ApprovedOperation
  get_approved_asset_exchange = get_approved exchange

  -- Read from an object among the values, sealed by the hash of that object, and with its
  -- transaction on its chain.
  pub record IsGenuineIn (entries : Elems) (a : ApprovedOperation) : Type 0 where
    pub item : Fields
    pub among : IsElem (obj item) entries
    pub sealed : IsSealed host opts item a
    pub aimed : IsAimed a.chain_id a.operation

  later_IsGenuineIn :
      (v : Json) (vs : Elems) (a : ApprovedOperation) → IsGenuineIn vs a → IsGenuineIn (cons v vs) a
  later_IsGenuineIn v vs a g = record {
    item = g.item;
    among = inr g.among;
    sealed = g.sealed;
    aimed = g.aimed;
  }

  parse_elems-IsGenuineIn : (xs : Elems) → All (IsGenuineIn xs) (parse_elems host opts xs)
  unfolding parse_elems
  parse_elems-IsGenuineIn nil = tt
  parse_elems-IsGenuineIn (cons v vs) =
      let rest =
        All-map (IsGenuineIn vs) (IsGenuineIn (cons v vs)) _ (later_IsGenuineIn v vs)
          (parse_elems-IsGenuineIn vs) in
      elim (Option-cases (parse_approval host opts v)) [
        | inl e ↦ rw (e, parse_elems) rest
        | inr (a, e) ↦
            let (item, found, sealed) = parse_approval-IsSealed host opts v e in
            rw (e, parse_elems)
              (
                record {
                  item = item;
                  among = inl (sym (as_record-obj v found));
                  sealed = sealed;
                  aimed = parse_approval-IsAimed host opts v e;
                },
                rest,
              )
      ]

  field-IsGenuineIn :
      (v : Json)
      → All
          (IsGenuineIn (elim v [ arr xs ↦ xs | _ ↦ nil ]))
          (elim v [ arr xs ↦ parse_elems host opts xs | _ ↦ [] ])
  field-IsGenuineIn (arr xs) = parse_elems-IsGenuineIn xs
  field-IsGenuineIn _ = tt

  read_approvals-IsGenuineIn :
      (file : Option Json) → All (IsGenuineIn (entries_of file)) (read_approvals file)
  unfolding read_approvals parse_approvals
  read_approvals-IsGenuineIn none = tt
  read_approvals-IsGenuineIn (some (arr xs)) = parse_elems-IsGenuineIn xs
  read_approvals-IsGenuineIn (some (obj fs)) = field-IsGenuineIn (get (txt "approvals") fs)
  read_approvals-IsGenuineIn (some _) = tt

  -- No expiry, a blank one, or a date that is not before now; a text that is no date is none of these.
  abbrev pub Current : Number → Option Text → Type 0
  Current now none = Unit
  Current now (some t) = (is_empty t ≡ true) ⊎ (num_le now (host.parse_date t) ≡ true)

  is_active-Current :
      (now : Number) (a : ApprovedOperation) → is_active now a ≡ true → Current now a.expires_at
  unfolding is_active
  is_active-Current now a h = ground arith

  -- Whatever the approvals file holds, a lookup of any of the three kinds returns only an approval
  -- of that kind with the ids and the chain that were asked for, whose expiry is absent, blank or a
  -- date that is not before now; it was read from an object that stands in the file's list, its
  -- stated hash is the hash over that object and the object's own transaction, where it is of a
  -- contract operation, and that transaction is on its chain and to its contract.
  pub get_approved_sound :
      (kind : OperationKind) (file : Option Json) (input : ApprovalLookup) (now : Number)
      {a : ApprovedOperation}
      → get_approved kind file input now ≡ some a
      → IsGenuineIn (entries_of file) a
        × (same_kind (kind_of a.operation) kind ≡ true)
        × (a.approval_id ≡ input.approval_id)
        × (a.passport_id ≡ input.passport_id)
        × (a.chain_id ≡ input.chain_id)
        × Current now a.expires_at
  unfolding get_approved is_wanted
  get_approved_sound kind file input now {a} e =
      let held = find?-holds (is_wanted kind input now) (read_approvals file) {x = a} e in
      let (h, active) = and-eq-true _ (is_active now a) held in
      let (h, c) = and-eq-true _ (num_eq a.chain_id input.chain_id) h in
      let (h, p) = and-eq-true _ (a.passport_id === input.passport_id) h in
      let (k, i) = and-eq-true _ (a.approval_id === input.approval_id) h in
      (
        All-find? (IsGenuineIn (entries_of file)) _ (read_approvals file)
            (read_approvals-IsGenuineIn file) e,
        k,
        ===_sound _ _ i,
        ===_sound _ _ p,
        num_eq_sound _ _ c,
        is_active-Current now a active,
      )
