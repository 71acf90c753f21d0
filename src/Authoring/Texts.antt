-- ===== src/Authoring/Texts.antt =====
-- The text functions of lesson-exercise-authoring.validator.ts and of JavaScript that it calls.
use Prim.Native.Char.{code}
use hsk_3_0_app.Base.{
  concat, ℕ, ◌+◌, ◌==◌, ◌≡◌, refl, sym, ap, ◌∙◌, inl, inr, Bool, true, false, ◌&&◌, ◌||◌, not, List,
  [], ◌∷◌, String, ltb, leb, if◌then◌else◌, any, all, arith, Bool-cases,
}
use hsk_3_0_app.Activity.Faults.{codes}
use hsk_3_0_app.Authoring.{Unicode}

-- `\s`, which `trim` takes away too.
abbrev pub is_space : (code_point : ℕ) → Bool
is_space c =
    (leb 9 c && leb c 13)
    || c == 32
    || c == 160
    || c == 5760
    || (leb 8192 c && leb c 8202)
    || c == 8232
    || c == 8233
    || c == 8239
    || c == 8287
    || c == 12288
    || c == 65279

abbrev is_empty : String → Bool
is_empty String.[] = true
is_empty (String.◌∷◌ c s) = false

-- `length`, in UTF-16 code units.
unfoldable pub utf16_length : String → ℕ
utf16_length String.[] = 0
utf16_length (String.◌∷◌ c s) =
    let rest = utf16_length s in if ltb (code c) 65536 then 1 + rest else 2 + rest

-- `Buffer.byteLength(text, 'utf8')`
unfoldable pub utf8_length : String → ℕ
utf8_length String.[] = 0
utf8_length (String.◌∷◌ c s) =
    let rest = utf8_length s in
    if ltb (code c) 128
    then 1 + rest
    else if ltb (code c) 2048
    then 2 + rest
    else if ltb (code c) 65536
    then 3 + rest
    else 4 + rest

unfoldable pub trim_start : String → String
trim_start String.[] = String.[]
trim_start (String.◌∷◌ c s) =
    let rest = trim_start s in if is_space (code c) then rest else String.◌∷◌ c s

unfoldable pub trim_end : String → String
trim_end String.[] = String.[]
trim_end (String.◌∷◌ c s) =
    let rest = trim_end s in
    if is_space (code c) && is_empty rest then String.[] else String.◌∷◌ c rest

-- `trim`
unfoldable pub trim : String → String
unfolding trim_start trim_end
trim s = trim_end (trim_start s)

-- `replace(/\s+/gu, ' ')`, within a run of spaces or not.
unfoldable pub collapse_from : (in_spaces : Bool) → String → String
collapse_from b String.[] = String.[]
collapse_from b (String.◌∷◌ c s) =
    let within = collapse_from true s in
    let outside = collapse_from false s in
    if is_space (code c) then (if b then within else concat " " within) else String.◌∷◌ c outside

abbrev pub collapse_spaces : String → String
collapse_spaces s = collapse_from false s

-- `/^[\p{L}\p{N}][\p{L}\p{N}._:-]*$/u`
abbrev pub matches_stable_id : Unicode → List ℕ → Bool
matches_stable_id unicode [] = false
matches_stable_id unicode (first ∷ rest) =
    unicode.is_letter_or_number first
    && all (λ c. unicode.is_letter_or_number c || c == b'.' || c == b'_' || c == b':' || c == b'-')
        rest

-- The tests of `requireStableId` and `requireClientStableId` on a text that is normalized.
abbrev pub is_stable_id : Unicode → (normalized : String) → Bool
is_stable_id unicode normalized = not (
    utf16_length normalized == 0
    || ltb 128 (utf16_length normalized)
    || any is_space (codes normalized)
    || not (matches_stable_id unicode (codes normalized)))

-- The text has a character that is no space.
abbrev has_ink : String → Bool
has_ink String.[] = false
has_ink (String.◌∷◌ c s) = not (is_space (code c)) || has_ink s

utf16_length-is_empty : (s : String) → (utf16_length s == 0) ≡ is_empty s
unfolding utf16_length
utf16_length-is_empty String.[] = refl
utf16_length-is_empty (String.◌∷◌ c s) = ground arith

has_ink-trim_start : (s : String) → has_ink (trim_start s) ≡ has_ink s
unfolding trim_start
has_ink-trim_start String.[] = refl
has_ink-trim_start (String.◌∷◌ c s) =
    let rest = has_ink-trim_start s in
    elim (Bool-cases (is_space (code c))) [ inl e ↦ rw e rest | inr e ↦ rw (e, e) refl ]

trim_end-is_empty : (s : String) → is_empty (trim_end s) ≡ not (has_ink s)
unfolding trim_end
trim_end-is_empty String.[] = refl
trim_end-is_empty (String.◌∷◌ c s) =
    let rest = trim_end-is_empty s in
    elim (Bool-cases (is_space (code c))) [
      | inr e ↦ rw e refl
      | inl e ↦ elim (Bool-cases (is_empty (trim_end s))) [
        | inl f ↦ rw (e, f) (sym f ∙ rest)
        | inr f ↦ rw (e, f) (sym f ∙ rest)
      ]
    ]

has_ink-trim_end : (s : String) → has_ink (trim_end s) ≡ has_ink s
unfolding trim_end
has_ink-trim_end String.[] = refl
has_ink-trim_end (String.◌∷◌ c s) =
    let rest = has_ink-trim_end s in
    let blank = trim_end-is_empty s in
    elim (Bool-cases (is_space (code c))) [
      | inr e ↦ rw (e, e) refl
      | inl e ↦ elim (Bool-cases (is_empty (trim_end s))) [
        | inl f ↦ ground arith
        | inr f ↦ rw (e, f, e) rest
      ]
    ]

has_ink-collapse_from : (b : Bool) (s : String) → has_ink (collapse_from b s) ≡ has_ink s
unfolding collapse_from
has_ink-collapse_from b String.[] = refl
has_ink-collapse_from b (String.◌∷◌ c s) =
    let within = has_ink-collapse_from true s in
    elim (Bool-cases (is_space (code c))) [
      | inr e ↦ rw (e, e) (ground arith)
      | inl e ↦ elim (Bool-cases b) [ inl f ↦ rw (e, f) within | inr f ↦ rw (e, f) within ]
    ]

-- A text is not blank once its spaces are collapsed exactly when it was not blank.
has_ink-collapse_spaces : (s : String) → has_ink (collapse_spaces s) ≡ has_ink s
has_ink-collapse_spaces s = has_ink-collapse_from false s

trim-has_ink : (s : String) → (utf16_length (trim s) == 0) ≡ not (has_ink s)
unfolding trim
trim-has_ink s =
    utf16_length-is_empty (trim_end (trim_start s))
    ∙ trim_end-is_empty (trim_start s)
    ∙ ap not (has_ink-trim_start s)

has_ink-trim : (s : String) → has_ink (trim s) ≡ has_ink s
unfolding trim
has_ink-trim s = has_ink-trim_end (trim_start s) ∙ has_ink-trim_start s

-- A text that is not blank once it is trimmed is not blank either with its spaces collapsed.
pub trim-collapse_spaces :
    (s : String)
    → (utf16_length (trim s) == 0) ≡ false
    → (utf16_length (trim (collapse_spaces (trim s))) == 0) ≡ false
trim-collapse_spaces s h =
    trim-has_ink (collapse_spaces (trim s))
    ∙ ap not (has_ink-collapse_spaces (trim s) ∙ has_ink-trim s)
    ∙ sym (trim-has_ink s)
    ∙ h
