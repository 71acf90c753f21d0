-- ===== src/Authoring/Passed/Readers.antt =====
-- What the readers of lesson-exercise-authoring.validator.ts pass.
use hsk_3_0_app.Base.{
  ℕ, suc, ◌+◌, ◌≤◌, ◌==◌, ◌≡◌, refl, sym, ap, ◌∙◌, subst, inl, inr, Bool, true, false, Option, some,
  List, [], ◌∷◌, ◌++◌, String, all, All, length, arith, Option-cases, is_some,
}
use hsk_3_0_app.Activity.{Json, Fields}
use hsk_3_0_app.Authoring.{Unicode, Segment, at_key, at_index, Checked, passed, failed}
use hsk_3_0_app.Authoring.Texts.{
  utf16_length, trim, collapse_spaces, is_stable_id, trim-collapse_spaces,
}
use hsk_3_0_app.Authoring.Validate.{
  check, after, has_text, read_string, require_human_text, require_fill_blank_text,
  require_stable_id, read_texts, read_ids, read_array, require_array, get_field, allowed_keys, keys,
}
use hsk_3_0_app.Authoring.Input.{required_field}

module _ {ℓ} {A : Type ℓ} where
  pub check-passed :
      (test : Bool) (code : String) (path : List Segment) (next : Checked A) (a : A)
      → check test code path next ≡ passed a
      → (test ≡ true) × (next ≡ passed a)
  check-passed true code path next a e = (refl, e)
  check-passed false code path next a e = absurd (ground arith)

  pub allowed-passed :
      (fields : Fields) (allowed : List String) (path : List Segment) (next : Checked A) (a : A)
      → allowed_keys fields allowed path next ≡ passed a
      → next ≡ passed a
  allowed-passed fields allowed path next a e =
      (check-passed (all (has_text allowed) (keys fields)) "unknown_field" _ next a e).1

  pub required-passed :
      (fields : Fields) (name : String) (next : Checked A) (a : A)
      → required_field fields name next ≡ passed a
      → next ≡ passed a
  required-passed fields name next a e =
      (check-passed (is_some (get_field fields name)) "required_field" (at_key name ∷ []) next a
        e).1

  pub after-passed {κ} :
      {B : Type κ} (first : Checked B) (next : B → Checked A) (a : A)
      → after first next ≡ passed a
      → (b : B) × (first ≡ passed b) × (next b ≡ passed a)
  after-passed (passed b) next a e = (b, refl, e)
  after-passed (failed f) next a e = absurd (ground arith)

pub passed-injective {ℓ} : {A : Type ℓ} (a b : A) → passed a ≡ passed b → a ≡ b
passed-injective {A = A} a b e = ap (value_or a) e
  where
    value_or : A → Checked A → A
    value_or base (passed a) = a
    value_or base (failed f) = base

module _ (unicode : Unicode) where
  -- The text is a normalized id.
  abbrev pub IsId : String → Type 0
  IsId id = (is_stable_id unicode id ≡ true) × (raw : String) × (id ≡ unicode.nfkc raw)

  -- The text is one that a learner may send.
  abbrev pub IsInked : String → Type 0
  IsInked text = (utf16_length (trim text) == 0) ≡ false

  pub require_stable_id-IsId :
      (value : Option Json) (path : List Segment) (id : String)
      → require_stable_id unicode value path ≡ passed id
      → IsId id
  require_stable_id-IsId value path id e = elim (Option-cases (read_string value)) [
    | inl missing ↦ absurd (ground arith)
    | inr (raw, found) ↦
        let (stable, same) =
          check-passed _ "invalid_stable_id" path (passed (unicode.nfkc raw)) id
            (rw (require_stable_id, found) at e) in
        let named = passed-injective _ _ same in
        (subst (λ i. is_stable_id unicode i ≡ true) named stable, raw, sym named)
  ]

  require_human_text-IsInked :
      (value : Option Json) (path : List Segment) (text : String)
      → require_human_text unicode value path ≡ passed text
      → (raw : String) × (trim raw ≡ text) × IsInked raw
  require_human_text-IsInked value path text e = elim (Option-cases (read_string value)) [
    | inl missing ↦ absurd (ground arith)
    | inr (raw, found) ↦
        let (inked, next) =
          check-passed _ "non_empty_string_required" path _ text
            (rw (require_human_text, found) at e) in
        let (short, same) =
          check-passed _ "string_too_long" path (passed (trim (unicode.nfkc raw))) text next in
        (unicode.nfkc raw, passed-injective _ _ same, ground arith)
  ]

  require_fill_blank_text-IsInked :
      (value : Option Json) (path : List Segment) (text : String)
      → require_fill_blank_text unicode value path ≡ passed text
      → IsInked text
  require_fill_blank_text-IsInked value path text e =
      let (human, first, last) =
        after-passed (require_human_text unicode value path) (λ t. passed (collapse_spaces t)) text
          e in
      let (raw, trimmed, inked) = require_human_text-IsInked value path human first in
      let same : collapse_spaces (trim raw) ≡ text =
        ap (λ t. collapse_spaces t) trimmed ∙ passed-injective _ _ last in
      subst IsInked same (trim-collapse_spaces raw inked)

  pub read_texts-IsInked :
      (index : ℕ) (values : List Json) (path : List Segment) (texts : List String)
      → read_texts unicode index values path ≡ passed texts
      → All IsInked texts
  unfolding read_texts
  read_texts-IsInked index [] path texts e = subst (All IsInked) (passed-injective _ _ e) tt
  read_texts-IsInked index (value ∷ values) path texts e =
      let (text, here, rest) =
        after-passed (require_fill_blank_text unicode (some value) (path ++ at_index index ∷ [])) _
          texts e in
      let (more, there, last) =
        after-passed (read_texts unicode (index + 1) values path) _ texts rest in
      subst (All IsInked) (passed-injective _ _ last) (
        require_fill_blank_text-IsInked (some value) (path ++ at_index index ∷ []) text here,
        read_texts-IsInked (index + 1) values path more there,
      )

  pub read_ids-IsId :
      (index : ℕ) (values : List Json) (path : List Segment) (ids : List String)
      → read_ids unicode index values path ≡ passed ids
      → All IsId ids × (length ids ≡ length values)
  unfolding read_ids
  read_ids-IsId index [] path ids e =
      subst (λ l. All IsId l × (length l ≡ 0)) (passed-injective _ _ e) (tt, refl)
  read_ids-IsId index (value ∷ values) path ids e =
      let (id, here, rest) =
        after-passed (require_stable_id unicode (some value) (path ++ at_index index ∷ [])) _ ids
          e in
      let (more, there, last) =
        after-passed (read_ids unicode (index + 1) values path) _ ids rest in
      let (a, b) = read_ids-IsId (index + 1) values path more there in
      subst (λ l. All IsId l × (length l ≡ suc (length values))) (passed-injective _ _ last)
        ((require_stable_id-IsId (some value) (path ++ at_index index ∷ []) id here, a), ap suc b)

  pub require_array-minimum :
      (value : Option Json) (accepts : Bool) (path : List Segment) (minimum : ℕ)
      (values : List Json)
      → require_array value accepts path minimum ≡ passed values
      → minimum ≤ length values
  require_array-minimum value accepts path minimum values e =
      elim (Option-cases (read_array value)) [
        | inl missing ↦ absurd (ground arith)
        | inr (found, at) ↦
            let (enough, next) = check-passed _ _ path _ values (rw (require_array, at) at e) in
            let (short, same) = check-passed _ "array_too_large" path (passed found) values next in
            let named = passed-injective _ _ same in
            subst (λ l. minimum ≤ length l) named (ground arith)
      ]
