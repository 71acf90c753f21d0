-- ===== src/Authoring/Validate.antt =====
-- `validateLessonExerciseAuthoring` of lesson-exercise-authoring.validator.ts.
pub mod Readers
pub mod Kinds
unfoldable pub use Readers.*
unfoldable pub use Kinds.*
