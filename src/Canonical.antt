-- ===== src/Canonical.antt =====
-- backend/src/common/utils/canonical-json.ts, for the values that JSON has. `none` stands for the error
-- of a value that is too deep, the only one that such a value meets.
pub mod Depth
mod Tests
use Prim.Native.Char.{Char, code}
use mathlib.Core.Option
use hsk_3_0_app.Base.{
  concat, map, ℕ, zero, suc, ◌+◌, ◌-◌, ◌/◌, ◌%◌, ◌≤◌, ◌==◌, Bool, true, false, Option, none, some,
  List, [], ◌∷◌, String, ltb, leb, if◌then◌else◌, compare, Ordering, max, get_elem?,
}
use hsk_3_0_app.Base.Sort.{sort}
use hsk_3_0_app.Activity.{
  Json, Items, Fields, null, bool, num, str, arr, obj, nil, item, end, field,
}

-- The UTF-16 code units of a text.
unfoldable pub code_units : String → List ℕ
code_units String.[] = []
code_units (String.◌∷◌ c s) =
    let rest = code_units s in
    if ltb (code c) 65536
    then code c ∷ rest
    else (55296 + (code c - 65536) / 1024) ∷ (56320 + (code c - 65536) % 1024) ∷ rest

abbrev compare_units : List ℕ → List ℕ → Ordering
compare_units [] [] = Ordering.eq
compare_units [] (_ ∷ _) = Ordering.lt
compare_units (_ ∷ _) [] = Ordering.gt
compare_units (a ∷ left) (b ∷ right) =
    let rest = compare_units left right in
    elim (compare a b) [
      | Ordering.lt ↦ Ordering.lt
      | Ordering.gt ↦ Ordering.gt
      | Ordering.eq ↦ rest
    ]

-- `compareUtf16CodeUnits`
abbrev pub compare_utf16_code_units : String → String → Ordering
compare_utf16_code_units left right = compare_units (code_units left) (code_units right)

abbrev hex_digits : List String
hex_digits =
    "0" ∷ "1" ∷ "2" ∷ "3" ∷ "4" ∷ "5" ∷ "6" ∷ "7" ∷ "8" ∷ "9" ∷ "a" ∷ "b" ∷ "c" ∷ "d" ∷ "e" ∷ "f"
    ∷ []

abbrev hex_digit : ℕ → String
hex_digit n = elim (get_elem? hex_digits n) [ none ↦ "" | some digit ↦ digit ]

-- A character as `JSON.stringify` writes it within a string, before the rest.
abbrev escape : Char → String → String
escape c rest =
    if code c == 34
    then concat "\\\"" rest
    else if code c == 92
    then concat "\\\\" rest
    else if code c == 8
    then concat "\\b" rest
    else if code c == 9
    then concat "\\t" rest
    else if code c == 10
    then concat "\\n" rest
    else if code c == 12
    then concat "\\f" rest
    else if code c == 13
    then concat "\\r" rest
    else if ltb (code c) 32
    then concat "\\u00" (concat (hex_digit (code c / 16)) (concat (hex_digit (code c % 16)) rest))
    else String.◌∷◌ c rest

abbrev escape_all : String → String
escape_all String.[] = "\""
escape_all (String.◌∷◌ c s) = let rest = escape_all s in escape c rest

-- `JSON.stringify` of a string.
abbrev pub stringify : String → String
stringify s = concat "\"" (escape_all s)

-- `parts.join(',')`, before an end.
abbrev join : (parts : List String) (last : String) → String
join [] last = last
join (part ∷ []) last = concat part last
join (part ∷ next ∷ parts) last =
    let rest = join (next ∷ parts) last in concat part (concat "," rest)

-- `${JSON.stringify(key)}:${…}` for the keys in their order.
abbrev join_entries : List (String × String) → String
join_entries entries = concat "{" (
    join
      (map (λ (e : String × String). concat (stringify e.0) (concat ":" e.1))
        (sort (λ (a b : String × String). compare_utf16_code_units a.0 b.0) entries))
      "}")

-- `serializeCanonicalValue`, of a value, of the items of an array and of the entries of an object. The
-- entries are ordered once they are serialised.
unfoldable mutual
  pub serialize_canonical_value : Json → (remaining_depth : ℕ) → Option String
  serialize_canonical_value null n = some "null"
  serialize_canonical_value (bool b) n = some (if b then "true" else "false")
  serialize_canonical_value (num text) n = some text
  serialize_canonical_value (str text) n = some (stringify text)
  serialize_canonical_value (arr items) zero = none
  serialize_canonical_value (arr items) (suc n) =
      Option.map (λ parts. concat "[" (join parts "]")) (serialize_items items n)
  serialize_canonical_value (obj fields) zero = none
  serialize_canonical_value (obj fields) (suc n) =
      Option.map join_entries (serialize_fields fields n)

  pub serialize_items : Items → ℕ → Option (List String)
  serialize_items nil n = some []
  serialize_items (item value items) n = elim (serialize_canonical_value value n) [
    | none ↦ none
    | some part ↦ Option.map (λ parts. part ∷ parts) (serialize_items items n)
  ]

  pub serialize_fields : Fields → ℕ → Option (List (String × String))
  serialize_fields end n = some []
  serialize_fields (field key value fields) n = elim (serialize_canonical_value value n) [
    | none ↦ none
    | some part ↦ Option.map (λ entries. (key, part) ∷ entries) (serialize_fields fields n)
  ]

-- `CANONICAL_JSON_MAX_DEPTH`
abbrev pub canonical_json_max_depth : ℕ
canonical_json_max_depth = 16

-- `canonicalJson`, with a depth that is not 0.
unfoldable pub canonical_json : Json → (max_depth : ℕ) → Option String
unfolding serialize_canonical_value
canonical_json value max_depth =
    if leb 1 max_depth then serialize_canonical_value value max_depth else none
