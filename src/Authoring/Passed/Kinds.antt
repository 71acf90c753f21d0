-- ===== src/Authoring/Passed/Kinds.antt =====
-- What the checks of each type of exercise in lesson-exercise-authoring.validator.ts pass.
use hsk_3_0_app.Base.{
  ◌≤◌, ◌==◌, ◌≡◌, sym, subst, true, false, ◌&&◌, Option, none, some, [], ◌∷◌, all, All, length,
}
use hsk_3_0_app.Activity.{
  ExerciseType, mcq, listening_choice, arrange_sentence, speaking_repeat, Json,
}
use hsk_3_0_app.Authoring.{Unicode, at_key, passed, Authored, choice, fill_blank, arrange, speaking}
use hsk_3_0_app.Authoring.Validate.{
  has_text, choice_ids, are_distinct, require_human_text, require_stable_id, read_texts, read_ids,
  read_choices, read_case_sensitive, require_array, require_record, get_field, validate_choice,
  validate_fill_blank, validate_arrange, validate_speaking, allowed_keys, read_reference,
}
use hsk_3_0_app.Authoring.Input.{validate_authored}
use hsk_3_0_app.Authoring.Passed.Readers.{
  IsId, IsInked, after-passed, allowed-passed, check-passed, passed-injective, read_ids-IsId,
  read_texts-IsInked, require_array-minimum, require_stable_id-IsId,
}

module _ (unicode : Unicode) where
  -- What the scorer relies on.
  abbrev pub IsAuthored : Authored → Type 0
  IsAuthored (choice options option_id) =
      (IsId unicode) option_id × (has_text (choice_ids options) option_id ≡ true)
  IsAuthored (fill_blank texts case_sensitive) = All (IsInked unicode) texts
  IsAuthored (arrange tokens token_ids) =
      All (IsId unicode) token_ids
      × (1 ≤ length token_ids)
      × ((length token_ids == length tokens
            && are_distinct token_ids
            && all (has_text (choice_ids tokens)) token_ids)
          ≡ true)
  IsAuthored (speaking text) = Unit

  validate_choice-IsAuthored :
      (content answer : Option Json) (authored : Authored)
      → validate_choice unicode content answer ≡ passed authored
      → IsAuthored authored
  unfolding validate_choice
  validate_choice-IsAuthored content answer authored e =
      let (fields, a, e) =
        after-passed (require_record content (at_key "content" ∷ [])) _ authored e in
      let (b, e) = check-passed _ _ _ _ authored e in
      let (values, c, e) =
        after-passed
          (require_array (get_field fields "options") false
            (at_key "content" ∷ at_key "options" ∷ []) 2)
          _ authored e in
      let (options, d, e) =
        after-passed (read_choices unicode [] 0 values (at_key "content" ∷ at_key "options" ∷ [])) _
          authored e in
      let (reply, f, e) =
        after-passed (require_record answer (at_key "answer" ∷ [])) _ authored e in
      let (g, e) = check-passed _ _ _ _ authored e in
      let (id, h, e) =
        after-passed
          (require_stable_id unicode (get_field reply "optionId")
            (at_key "answer" ∷ at_key "optionId" ∷ []))
          _ authored e in
      let (member, e) = check-passed _ _ _ _ authored e in
      subst IsAuthored (passed-injective (choice options id) authored e) (
        require_stable_id-IsId unicode (get_field reply "optionId")
            (at_key "answer" ∷ at_key "optionId" ∷ []) id h,
        member,
      )

  validate_fill_blank-IsAuthored :
      (content answer : Option Json) (authored : Authored)
      → validate_fill_blank unicode content answer ≡ passed authored
      → IsAuthored authored
  unfolding validate_fill_blank
  validate_fill_blank-IsAuthored content answer authored e =
      let (fields, a, e) =
        after-passed (require_record content (at_key "content" ∷ [])) _ authored e in
      let (b, e) = check-passed _ _ _ _ authored e in
      let (reply, c, e) =
        after-passed (require_record answer (at_key "answer" ∷ [])) _ authored e in
      let (d, e) = check-passed _ _ _ _ authored e in
      let path = at_key "answer" ∷ at_key "acceptedTexts" ∷ [] in
      let (values, f, e) =
        after-passed (require_array (get_field reply "acceptedTexts") true path 1) _ authored e in
      let (texts, g, e) = after-passed (read_texts unicode 0 values path) _ authored e in
      let (case_sensitive, h, e) =
        after-passed (read_case_sensitive unicode (get_field reply "caseSensitive")) _ authored e in
      subst IsAuthored (passed-injective (fill_blank texts case_sensitive) authored e)
        (read_texts-IsInked unicode 0 values path texts g)

  validate_arrange-IsAuthored :
      (content answer : Option Json) (authored : Authored)
      → validate_arrange unicode content answer ≡ passed authored
      → IsAuthored authored
  unfolding validate_arrange
  validate_arrange-IsAuthored content answer authored e =
      let (fields, a, e) =
        after-passed (require_record content (at_key "content" ∷ [])) _ authored e in
      let (b, e) = check-passed _ _ _ _ authored e in
      let path = at_key "content" ∷ at_key "tokens" ∷ [] in
      let (values, c, e) =
        after-passed (require_array (get_field fields "tokens") false path 2) _ authored e in
      let (tokens, d, e) = after-passed (read_choices unicode [] 0 values path) _ authored e in
      let (reply, f, e) =
        after-passed (require_record answer (at_key "answer" ∷ [])) _ authored e in
      let (g, e) = check-passed _ _ _ _ authored e in
      let place = at_key "answer" ∷ at_key "tokenIds" ∷ [] in
      let (raw_ids, h, e) =
        after-passed (require_array (get_field reply "tokenIds") false place 1) _ authored e in
      let (ids, i, e) = after-passed (read_ids unicode 0 raw_ids place) _ authored e in
      let (exact, e) = check-passed _ _ _ _ authored e in
      let (named, counted) = read_ids-IsId unicode 0 raw_ids place ids i in
      let least =
        require_array-minimum unicode (get_field reply "tokenIds") false place 1 raw_ids h in
      subst IsAuthored (passed-injective (arrange tokens ids) authored e)
        (named, subst (λ n. 1 ≤ n) (sym counted) least, exact)

  read_reference-IsAuthored :
      (text : Option Json) (authored : Authored)
      → read_reference unicode text ≡ passed authored
      → IsAuthored authored
  read_reference-IsAuthored none authored e =
      subst IsAuthored (passed-injective (speaking none) authored e) tt
  read_reference-IsAuthored (some text) authored e =
      let place = at_key "content" ∷ at_key "referenceText" ∷ [] in
      let (reference, a, last) =
        after-passed (require_human_text unicode (some text) place) _ authored e in
      subst IsAuthored (passed-injective (speaking (some reference)) authored last) tt

  validate_speaking-IsAuthored :
      (content answer : Option Json) (authored : Authored)
      → validate_speaking unicode content answer ≡ passed authored
      → IsAuthored authored
  unfolding validate_speaking
  validate_speaking-IsAuthored content answer authored e =
      let (fields, a, e) =
        after-passed (require_record content (at_key "content" ∷ [])) _ authored e in
      let (reply, b, e) =
        after-passed (require_record answer (at_key "answer" ∷ [])) _ authored e in
      let spoken = read_reference unicode (get_field fields "referenceText") in
      let e =
        allowed-passed fields ("referenceText" ∷ []) (at_key "content" ∷ [])
          (allowed_keys reply [] (at_key "answer" ∷ []) spoken) authored e in
      let e = allowed-passed reply [] (at_key "answer" ∷ []) spoken authored e in
      read_reference-IsAuthored (get_field fields "referenceText") authored e

  pub validate_authored-IsAuthored :
      (kind : ExerciseType) (content answer : Option Json) (authored : Authored)
      → validate_authored unicode kind content answer ≡ passed authored
      → IsAuthored authored
  unfolding validate_authored
  validate_authored-IsAuthored mcq content answer authored e =
      validate_choice-IsAuthored content answer authored e
  validate_authored-IsAuthored listening_choice content answer authored e =
      validate_choice-IsAuthored content answer authored e
  validate_authored-IsAuthored ExerciseType.fill_blank content answer authored e =
      validate_fill_blank-IsAuthored content answer authored e
  validate_authored-IsAuthored arrange_sentence content answer authored e =
      validate_arrange-IsAuthored content answer authored e
  validate_authored-IsAuthored speaking_repeat content answer authored e =
      validate_speaking-IsAuthored content answer authored e
