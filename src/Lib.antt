-- ===== src/Lib.antt =====
-- A model of the learner's side of the learning backend (backend/src/modules/learning), of its
-- sign-in (backend/src/modules/auth), its rate limits and its access to media
-- (backend/src/modules/media), and what is proved of them.
--
-- The parts. A learner sees the lessons of a level as a path (backend/src/modules/learning/path):
-- lessons are locked, available, current or done. A learner's activity on a lesson
-- (backend/src/modules/learning/activity) is a series of writes, each one transaction over the
-- tables of progress, attempts, learning events and plan items: start a lesson, start a topic,
-- submit an attempt, complete a topic, complete a lesson. Each write carries an idempotency key.
-- The writes and the path share the unlock rule `isLessonUnlocked`.
-- Attempts are scored against the exercise that its author has submitted, which one validator
-- checks when it is written and again when it is scored. Learners sign in through
-- backend/src/modules/auth, whose sign-in and mails pass the counters of
-- backend/src/infrastructure/rate-limit.
--
-- The files.
--   Base: the names that all share; Base/Tests (Boolean tests), Base/Lists (lists indexed by
--     native numbers), Base/Sort (`Array.prototype.sort`, which is stable).
--   Path, Path/Select: path/learning-path.policy.ts (`isLessonUnlocked`, `buildLevelPath`,
--     `selectNextLesson`). Path/Rows, Laws and States are about the states of the lessons,
--     Path/Newest, Recent, Candidates and Next about the choice of the newest activity.
--   Path/Service: path/learning-path.service.ts, from the rows of its queries to the answer.
--   Activity: the rows and errors, after backend/prisma/schema.prisma.
--   Activity/Progress: activity/lesson-activity-progress.ts, with the division and `Math.round` of
--     binary64 in Activity/Double.
--   Activity/Faults: activity/lesson-activity-persistence.ts, and the keys of
--     activity/lesson-activity-idempotency.ts.
--   Activity/Store: the calls of the database client, which is outside the repository, as records
--     of operations and laws; Activity/Memory has a store that fulfils them.
--   Activity/Service: activity/lesson-activity.service.ts: the transaction (`write`), the reads and
--     guards (Service/Reads), the recomputation of progress (Service/Recompute), and the five
--     writes (Service/Starts, Service/Submit, Service/Completes).
--   Activity/History: any sequence of calls, by any learners, over changing content.
--   Activity/Results, Inversion: what a successful call has passed. Activity/Evolves, Rows, Effects
--     and Kept: what writes keep. Activity/Replays: requests sent again. Activity/Distinct,
--     Submitted and Gates: what a completion asks for.
--   Activity/Views: the endpoints that only read, and activity/lesson-activity.serializer.ts.
--     Activity/Pointers and Offers: what the next activity means, and that it is accepted.
--   Activity/Scores and Attempts: the best scores, and the numbers of attempts. Activity/Graded: the
--     service over the scorer of Authoring/Score.
--   RateLimit: infrastructure/rate-limit/postgres-throttler.storage.ts (under backend/src).
--     RateLimit/Window is about the hits that pass, RateLimit/Cleanup about the purge.
--   Auth: the rows of the accounts; Auth/Sessions, Login and Recovery: modules/auth/auth.service.ts,
--     with strategies/jwt.strategy.ts (`validate`) and the jobs that write tokens.
--     Auth/Purge: jobs/purge-expired-sessions.job.ts. Auth/Final: any sequence of the writes of
--     sessions; Auth/Once, Access and Reuse: when a session has ended. Auth/Reset, SignIn and
--     Lockout: the password's reset, the sign-in and its locks.
--   Canonical: common/utils/canonical-json.ts (under backend/src), with its depth in Canonical/Depth.
--   Authoring: common/validation/lesson-exercise-authoring.validator.ts, in Authoring/Texts, Validate
--     and Input. Authoring/Score: activity/lesson-activity-scorer.ts. Authoring/Depth, Passed and
--     RoundTrip: the bound of the depth, what the validator passes, and its score.
--   Media: backend/src/modules/media/media-access-signature.ts; Media/Access: media-access.service.ts
--     beside it; Media/Grant: the addresses that the one operation answers with and the other takes.
--   Path/Tests, Activity/Tests, RateLimit/Tests, Auth/Tests, Canonical/Tests, Authoring/Tests and
--     Media/Tests: tests, and the theorems at concrete inputs.
--
-- State and time. A write takes the tables and returns the tables and its answer, or an error; an
-- error leaves the tables as they were (`commit`). The locks of a user's row make the writes of a
-- user run one after the other, so that a write is one step. Times are milliseconds; `new Date()`
-- is part of the request, and the check of a key's age has its own clock. A database error is an
-- argument of the write (`fault`), which may end any of them.
--
-- A call of the sign-in takes the tables and returns the tables and its answer; what the code
-- writes before an error stays written, but for a transaction that fails. Each SQL statement is a
-- function on the rows. The statements of a call read one time, but for those that `refresh` runs
-- after its transaction. Random tokens and salts are arguments; digests, argon2, the signer, the
-- configuration and JavaScript's `trim` and `toLowerCase` are the record `Hosts`.
--
-- Numbers. Ids, indices, scores and times are natural numbers. The percentage and the lesson's score
-- go through binary64 as the code does: a double is a multiple of 2^-1074, rounded half to even.
-- The loop over an error's causes has the code's four rounds, the purge of sessions its thousand
-- and the purge of counters its ten.
--
-- Not modelled: the database client and its transactions (assumed by the laws of Activity/Store),
-- the hash of a request and the projection of media (parameters, with the scorer, in the record
-- `Grading`), NFKC and the classes of letters (the record `Unicode`), the list
-- of a learner's progress rows, and the texts of lessons, topics and levels in answers; the mails,
-- the queue's own deduplication, cookies and the key ids of access tokens; the metrics and the
-- storage of media, with the digests that sign their addresses (the records `Storage` and `Runtime`). The other modules of
-- the backend and the frontend are outside the model.
mod Base
pub mod Path
pub mod RateLimit
pub mod Authoring
pub mod Canonical
pub mod Media
pub mod Auth
pub mod Activity
