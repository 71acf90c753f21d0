-- ===== src/Activity/Service.antt =====
-- lesson-activity.service.ts: the writes of a learner's activity, each the body of one transaction
-- (`write`), and what they share. The row locks (`lockLesson`, `lockProgressRows`, the lock of the
-- user's row in `write`) make a user's writes run one after the other: a write here is one step.
pub mod Reads
pub mod Recompute
pub mod Starts
pub mod Submit
pub mod Completes
use hsk_3_0_app.Base.{ℕ, Bool, true, false, ◌&&◌, Option, none, some, String, if◌then◌else◌, is_nat}
use hsk_3_0_app.Path.{Status}
use hsk_3_0_app.Activity.{
  Result, ok, err, EventType, EventValues, lesson_started, lesson_completed, topic_started,
  topic_completed, exercise_submitted, word_saved, StoredEvent, Attempt, account_not_available,
  key_reused, require,
}
use hsk_3_0_app.Activity.Faults.{Thrown, classify_lesson_activity_persistence_error, fault_error}
use hsk_3_0_app.Activity.Store.{Store, Db, Content}

-- A request of a write: the user, the raw `Idempotency-Key` (`none` if it is no string), and the
-- clock at the check of the key's age and at the write.
pub record Request : Type 0 where
  pub user_id : ℕ
  pub raw_key : Option String
  pub checked_at : ℕ
  pub now : ℕ

-- What an event is about.
pub data Target : Type 0 where
  lesson topic exercise : ℕ → Target

-- The body of a successful answer: that of `eventResult`, or the attempt (its serialised form
-- holds fields of it).
pub data Reply : Type 0 where
  event_reply : (target : Target) (status : Status) (event_id occurred_at : ℕ) → Reply
  attempt_reply : Attempt → Reply

-- What a transaction's callback returns: the tables and the answer, or what it throws.
abbrev pub Outcome : Store → Type 0
Outcome store = Result (Db store × Reply)

-- `write`, less the user's lock: `fault` is the error of the database that ends the transaction,
-- if there is one.
unfoldable pub write {ℓ} : {A : Type ℓ} → Content → Request → Option Thrown → Result A → Result A
write content request fault callback = elim fault [
  | some error ↦ err (fault_error (classify_lesson_activity_persistence_error error))
  | none ↦ if content.is_active request.user_id then callback else err account_not_available
]

-- The tables after a write: a transaction that throws is rolled back.
unfoldable pub commit : {store : Store} → Db store → Outcome store → Db store
commit db (ok (db', reply)) = db'
commit db (err error) = db

-- `eventResult`
unfoldable pub event_result : StoredEvent → Target → Status → Reply
event_result event target status = event_reply target status event.id event.occurred_at

abbrev same_event_type : EventType → EventType → Bool
same_event_type lesson_started lesson_started = true
same_event_type lesson_completed lesson_completed = true
same_event_type topic_started topic_started = true
same_event_type topic_completed topic_completed = true
same_event_type exercise_submitted exercise_submitted = true
same_event_type word_saved word_saved = true
same_event_type _ _ = false

-- The id that a target of an event is compared with.
abbrev event_has_target : StoredEvent → Target → Bool
event_has_target event (lesson id) = is_nat event.lesson_id id
event_has_target event (topic id) = is_nat event.topic_id id
event_has_target event (exercise id) = is_nat event.exercise_id id

-- `assertEvent`
unfoldable pub assert_event : StoredEvent → EventType → Target → Result (Unit {0})
assert_event event kind target =
    require (same_event_type event.kind kind && event_has_target event target) key_reused

-- `learningEvent.create` of a lesson's or a topic's event.
abbrev pub target_event : EventType → (lesson_id : ℕ) (topic_id : Option ℕ) (now : ℕ) → EventValues
target_event kind lesson_id topic_id now = record {
  kind = kind;
  lesson_id = some lesson_id;
  topic_id = topic_id;
  exercise_id = none;
  attempt_id = none;
  occurred_at = now;
}

-- The end of a write: the event is created, and the answer tells of it.
unfoldable pub finish :
    (store : Store)
    → Db store
    → (user_id : ℕ) (key : String) → EventValues
    → Target
    → Status
    → Db store × Reply
finish store db user_id key values target status =
    let made = store.events.create db.events user_id key values in
    (record db { events = made.0 }, event_result made.1 target status)
