-- ===== src/Authoring/Input.antt =====
-- `validateLessonExerciseAuthoring` of lesson-exercise-authoring.validator.ts as a whole: the bounds of
-- the input, its fields, and the bound of what is returned.
pub mod Bounds
pub mod Kinds
pub mod Fields
unfoldable pub use Bounds.*
unfoldable pub use Kinds.*
unfoldable pub use Fields.*
