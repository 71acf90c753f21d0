-- ===== src/Authoring.antt =====
-- backend/src/common/validation/lesson-exercise-authoring.validator.ts: the checks of an authored
-- exercise. What the runtime knows of characters is the record `Texts`; the message of an error is
-- left out.
pub mod Texts
pub mod Validate
pub mod Input
pub mod Score
pub mod Depth
pub mod Passed
pub mod RoundTrip
mod Tests
use hsk_3_0_app.Base.{ℕ, Bool, Option, List, String}
use hsk_3_0_app.Activity.{ExerciseType, Json}

-- `normalize('NFKC')`, `toLowerCase` and the classes of `\p{L}` and `\p{N}`.
pub record Unicode : Type 0 where
  pub nfkc : String → String
  pub to_lower_case : String → String
  pub is_letter_or_number : (code_point : ℕ) → Bool

-- `LessonExerciseAuthoringMode`
pub data Mode : Type 0 where
  draft publish : Mode

-- A step of the path of an error.
pub data Segment : Type 0 where
  at_key : String → Segment
  at_index : ℕ → Segment
  at_unknown : Segment

-- `LessonExerciseAuthoringValidationError`
pub record Failure : Type 0 where
  pub code : String
  pub path : List Segment

pub data Checked {ℓ} (A : Type ℓ) : Type ℓ where
  passed : A → Checked A
  failed : Failure → Checked A

-- `{ id, text }` of an option or a token.
pub record Choice : Type 0 where
  pub id : String
  pub text : String

-- The `content` and `answer` that a check returns, for each type of exercise.
pub data Authored : Type 0 where
  choice : (options : List Choice) (option_id : String) → Authored
  fill_blank : (accepted_texts : List String) (case_sensitive : Option Bool) → Authored
  arrange : (tokens : List Choice) (token_ids : List String) → Authored
  speaking : (reference_text : Option String) → Authored

-- `LessonExerciseAuthoringValue`; an absent field is `none`, and `null` is
-- `some none`. A number stands as its text.
pub record AuthoringValue : Type 0 where
  pub kind : ExerciseType
  pub prompt : String
  pub authored : Authored
  pub explanation : Option (Option String)
  pub media_id : Option (Option String)
