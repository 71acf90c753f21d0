-- ===== src/Authoring/RoundTrip.antt =====
-- lesson-activity-scorer.ts on the answers that lesson-exercise-authoring.validator.ts has passed.
use mathlib.Core.List.Memᴰ
use text.Mathlib.Text.{◌==◌ as str_eq}
use text.Mathlib.TextPositions.{eq_refl}
use hsk_3_0_app.Base.{
  ◌==◌, ◌≡◌, refl, sym, ap, ◌∙◌, subst, Bool, true, false, Option, List, [], ◌∷◌, map, String, All,
  length, arith, Memᴰ, All-mem, length-map,
}
use hsk_3_0_app.Activity.{ExerciseType, Json, str, obj, arr, field, end, ok}
use hsk_3_0_app.Authoring.{
  Unicode, draft, passed, Choice, Authored, choice, fill_blank, arrange, speaking, AuthoringValue,
}
use hsk_3_0_app.Authoring.Validate.{has_text, choice_ids, items_list}
use hsk_3_0_app.Authoring.Input.{validate_lesson_exercise_authoring, text_items}
use hsk_3_0_app.Authoring.Score.{
  score_choice, score_fill_blank, score_arrange_sentence, score_authored, score_checked,
  score_lesson_exercise, require_client_ids, scoring_input, score_of, is_speaking, agrees,
  is_exact_token_set, normalize_fill_blank, is_case_sensitive,
}
use hsk_3_0_app.Authoring.Passed.{IsId, IsInked, IsAuthored, validate-IsAuthored}

-- The answers that the author has accepted, as a learner sends them.
abbrev pub right_answers : Authored → List Json
right_answers (choice options option_id) = obj (field "optionId" (str option_id) end) ∷ []
right_answers (fill_blank texts case_sensitive) =
    map (λ text. obj (field "text" (str text) end)) texts
right_answers (arrange tokens token_ids) =
    obj (field "tokenIds" (arr (text_items token_ids)) end) ∷ []
right_answers (speaking text) = []

agrees_refl : (ids : List String) → agrees ids ids ≡ true
agrees_refl [] = refl
agrees_refl (id ∷ ids) = rw (eq_refl id, agrees_refl ids) refl

mem-has_text :
    (f : String → String) {text : String} {texts : List String}
    → Memᴰ text texts
    → has_text (map f texts) (f text) ≡ true
mem-has_text f {text = text} (Memᴰ.head {x} {xs} same) =
    rw (subst (λ t. str_eq (f text) (f t) ≡ true) same (eq_refl (f text))) refl
mem-has_text f (Memᴰ.tail {x} {xs} m) = let rest = mem-has_text f m in ground arith

mem-of_map {ℓ κ} :
    {A : Type ℓ} {B : Type κ} (f : A → B) (xs : List A) {b : B}
    → Memᴰ b (map f xs)
    → (a : A) × (b ≡ f a) × Memᴰ a xs
mem-of_map f [] m = absurd (Memᴰ.not-nil m)
mem-of_map f (x ∷ xs) (Memᴰ.head same) = (x, same, Memᴰ.head refl)
mem-of_map f (x ∷ xs) (Memᴰ.tail m) = let (a, same, n) = mem-of_map f xs m in (a, same, Memᴰ.tail n)

items_list-text_items : (texts : List String) → items_list (text_items texts) ≡ map str texts
items_list-text_items [] = refl
items_list-text_items (s ∷ texts) = ap (λ l. str s ∷ l) (items_list-text_items texts)

module _ (unicode : Unicode)
    (idempotent : (s : String) → unicode.nfkc (unicode.nfkc s) ≡ unicode.nfkc s) where
  IsId-nfkc : (id : String) → IsId unicode id → unicode.nfkc id ≡ id
  IsId-nfkc id (stable, raw, same) = ap unicode.nfkc same ∙ idempotent raw ∙ sym same

  choice-right :
      (options : List Choice) (id : String)
      → IsId unicode id
      → has_text (choice_ids options) id ≡ true
      → score_choice unicode options id (obj (field "optionId" (str id) end)) ≡ ok true
  unfolding score_choice
  choice-right options id named member =
      let same = IsId-nfkc id named in rw (same, named.0, member, eq_refl id) refl

  ids-right :
      (ids : List String)
      → All (IsId unicode) ids
      → require_client_ids unicode (map str ids) ≡ ok ids
  unfolding require_client_ids
  ids-right [] h = refl
  ids-right (id ∷ ids) (named, h) = rw (IsId-nfkc id named, named.0, ids-right ids h) refl

  fill_blank-right :
      (texts : List String) (case_sensitive : Option Bool) (text : String)
      → Memᴰ text texts
      → IsInked unicode text
      → score_fill_blank unicode texts case_sensitive (obj (field "text" (str text) end)) ≡ ok true
  unfolding score_fill_blank
  fill_blank-right texts case_sensitive text m inked =
      rw
        (
          inked,
          mem-has_text (λ t. normalize_fill_blank unicode t (is_case_sensitive case_sensitive)) m,
        )
        refl

  arrange-right :
      (tokens : List Choice) (ids : List String)
      → IsAuthored unicode (arrange tokens ids)
      → score_arrange_sentence unicode tokens ids
          (obj (field "tokenIds" (arr (text_items ids)) end))
        ≡ ok true
  unfolding score_arrange_sentence
  arrange-right tokens ids (named, least, exact) =
      let values = items_list-text_items ids in
      let sent = ids-right ids named in
      let many : (length (map str ids) == 0) ≡ false = ground (arith, length-map str ids, least) in
      let whole : is_exact_token_set ids (choice_ids tokens) ≡ true =
        rw (length-map (λ (c : Choice). c.id) tokens) exact in
      rw (values, many, sent, whole, agrees_refl ids) refl

  score_authored-right :
      (authored : Authored) (submitted : Json)
      → IsAuthored unicode authored
      → Memᴰ submitted (right_answers authored)
      → score_authored unicode authored submitted ≡ ok true
  unfolding score_authored
  score_authored-right (choice options id) submitted (named, member) m =
      rw (Memᴰ.eq_of_singleton m) (choice-right options id named member)
  score_authored-right (fill_blank texts case_sensitive) submitted inked m =
      let (text, same, n) = mem-of_map (λ text. obj (field "text" (str text) end)) texts m in
      rw same (fill_blank-right texts case_sensitive text n (All-mem (IsInked unicode) n inked))
  score_authored-right (arrange tokens ids) submitted facts m =
      rw (Memᴰ.eq_of_singleton m) (arrange-right tokens ids facts)
  score_authored-right (speaking text) submitted h m = absurd (Memᴰ.not-nil m)

  -- An answer that the author has accepted scores 100: the option, any of the texts or the order that
  -- the validator returns, where normalizing to NFKC twice is the same as once.
  pub score_lesson_exercise-right :
      (kind : ExerciseType) (content answer submitted : Json) (value : AuthoringValue)
      → is_speaking kind ≡ false
      → validate_lesson_exercise_authoring unicode (scoring_input kind content answer) draft
        ≡ passed value
      → Memᴰ submitted (right_answers value.authored)
      → score_lesson_exercise unicode kind content answer submitted ≡ ok (score_of true)
  unfolding score_lesson_exercise score_checked
  score_lesson_exercise-right kind content answer submitted value silent valid m =
      let facts =
        validate-IsAuthored unicode (scoring_input kind content answer) draft value valid in
      let right = score_authored-right value.authored submitted facts m in
      rw (silent, valid, right) refl
