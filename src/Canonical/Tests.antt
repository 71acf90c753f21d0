-- ===== src/Canonical/Tests.antt =====
-- Texts of canonical-json.ts.
use hsk_3_0_app.Base.{◌≡◌, refl, true, none, some}
use hsk_3_0_app.Base.Sort.{insert, sort}
use hsk_3_0_app.Activity.{Json, num, str, bool, arr, obj, nil, item, end, field}
use hsk_3_0_app.Canonical.{code_units, serialize_canonical_value, canonical_json}
use hsk_3_0_app.Canonical.Depth.{depth}

runs : Unit {0}
unfolding code_units serialize_canonical_value canonical_json insert sort depth
runs = tt

abbrev value : Json
value = obj (field "b" (arr (item (num "1") (item (str "\"\n") nil))) (field "a" (bool true) end))

order_test : canonical_json value 16 ≡ some "{\"a\":true,\"b\":[1,\"\\\"\\n\"]}"
unfolding runs
order_test = refl

deep_test : canonical_json value 1 ≡ none
unfolding runs
deep_test = refl
