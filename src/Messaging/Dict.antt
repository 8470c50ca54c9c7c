-- ===== src/Messaging/Dict.antt =====
-- Laws of the dicts that src/core/messaging.py and its callers build.
use nimbus_commerce_platform.Common.{
  ◌≡◌, refl, String, Option, none, some, arith, str_eq, str_eq_iff, if◌then◌else◌,
}
use nimbus_commerce_platform.Messaging.Envelope.{Json, Fields, end, field, get, put, update}

-- No key stands twice.
abbrev pub Distinct : Fields → Type 0
Distinct end = Unit
Distinct (field k v d) = (get k d ≡ none) × Distinct d

pub get-put :
    (k j : String) (v : Json) (d : Fields)
    → get j (put k v d) ≡ (if str_eq k j then some v else get j d)
unfolding get put
get-put k j v end = refl
get-put k j v (field i w d) =
    ground (arith, str_eq_iff k j, str_eq_iff i k, str_eq_iff i j, get-put k j v d)

abbrev pub or_else : Option Json → Option Json → Option Json
or_else none b = b
or_else (some a) b = some a

pub get-update :
    (k : String) (d e : Fields) → Distinct e → get k (update d e) ≡ or_else (get k e) (get k d)
unfolding get update
get-update k d end h = refl
get-update k d (field j v e) h =
    ground (arith, str_eq_iff j k, get-put j k v d, get-update k (put j v d) e h.1)
