-- ===== src/Authoring/Passed.antt =====
-- What an exercise has that passes lesson-exercise-authoring.validator.ts.
pub mod Readers
pub mod Kinds
pub mod Whole
unfoldable pub use Readers.*
unfoldable pub use Kinds.*
unfoldable pub use Whole.*
