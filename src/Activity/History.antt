-- ===== src/Activity/History.antt =====
-- Any sequence of the writes of lesson-activity.service.ts, by any learners. The published content
-- may change between two writes, so that each comes with the content that it reads.
use hsk_3_0_app.Base.{ℕ, Option, List, [], ◌∷◌}
use hsk_3_0_app.Activity.Faults.{Thrown}
use hsk_3_0_app.Activity.Store.{Store, Db, Content, Grading}
use hsk_3_0_app.Activity.Service.{Request, Outcome, commit}
use hsk_3_0_app.Activity.Service.Starts.{start_lesson, start_topic}
use hsk_3_0_app.Activity.Service.Submit.{Submission, submit_attempt}
use hsk_3_0_app.Activity.Service.Completes.{complete_topic, complete_lesson}

-- The calls of `LessonActivityController` that write.
pub data Call : Type 0 where
  starts_lesson starts_topic completes_topic completes_lesson : ℕ → Call
  submits : (exercise_id : ℕ) → Submission → Call

pub record Action : Type 0 where
  pub content : Content
  pub request : Request
  pub fault : Option Thrown
  pub call : Call

module _ (store : Store) (grading : Grading) where
  unfoldable pub handle : Db store → Content → Request → Option Thrown → Call → Outcome store
  handle db content request fault (starts_lesson id) =
      start_lesson store content db request fault id
  handle db content request fault (starts_topic id) = start_topic store content db request fault id
  handle db content request fault (completes_topic id) =
      complete_topic store content db request fault id
  handle db content request fault (completes_lesson id) =
      complete_lesson store content db request fault id
  handle db content request fault (submits id submission) =
      submit_attempt store content grading db request fault id submission

  unfoldable pub perform : Db store → Action → Outcome store
  perform db action = handle db action.content action.request action.fault action.call

  -- The tables after the writes, one after the other.
  unfoldable pub run : Db store → List Action → Db store
  run db [] = db
  run db (action ∷ actions) = run (commit db (perform db action)) actions
