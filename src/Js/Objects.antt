-- ===== src/Js/Objects.antt =====
-- Reading a property after writing one, tests on values, and the copy of a value through JSON text.
use bankr_integration.Prelude.{◌≡◌, ◌∙◌, arith, Bool, false, if◌then◌else◌}
use bankr_integration.Js.Text.{Text, ◌===◌, ===_sound, ===_refl}
use bankr_integration.Js.Number.{is_finite}
use bankr_integration.Js.Json.{
  Json, undefined, null, num, str, arr, obj, Elems, nil, cons, Fields, end, field, get, put,
}

-- `v === s`, of a string `s`.
unfoldable pub is_str : Text → Json → Bool
is_str s (str t) = t === s
is_str s v = false

pub get-put : (k : Text) (v : Json) (fs : Fields) → get k (put k v fs) ≡ v
unfolding get put
get-put k v end = ground (arith, ===_refl k)
get-put k v (field j w fs) = ground (arith, ===_sound k j, ===_refl k, get-put k v fs)

pub get-put-other :
    (k j : Text) (v : Json) (fs : Fields) → (j === k) ≡ false → get k (put j v fs) ≡ get k fs
unfolding get put
get-put-other k j v end h = ground arith
get-put-other k j v (field i w fs) h = ground (arith, ===_sound i j, get-put-other k j v fs h)

-- A field that is put beside another leaves what was read there.
pub passes :
    (k j : Text) (v : Json) (fs : Fields) {w : Json}
    → (j === k) ≡ false
    → get k fs ≡ w
    → get k (put j v fs) ≡ w
passes k j v fs h e = get-put-other k j v fs h ∙ e

-- `JSON.parse(JSON.stringify(v))`: undefined properties go, undefined elements and numbers that are
-- not finite become `null`.
unfoldable mutual
  pub copy : Json → Json
  copy (num n) = if is_finite n then num n else null
  copy (arr xs) = arr (copy_elems xs)
  copy (obj fs) = obj (copy_fields fs)
  copy v = v

  pub copy_elems : Elems → Elems
  copy_elems nil = nil
  copy_elems (cons undefined xs) = cons null (copy_elems xs)
  copy_elems (cons v xs) = cons (copy v) (copy_elems xs)

  pub copy_fields : Fields → Fields
  copy_fields end = end
  copy_fields (field k undefined fs) = copy_fields fs
  copy_fields (field k v fs) = field k (copy v) (copy_fields fs)
