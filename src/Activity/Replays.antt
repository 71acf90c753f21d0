-- ===== src/Activity/Replays.antt =====
-- What a write of lesson-activity.service.ts leaves under its key, for a request that is sent again.
pub mod Starts
pub mod Completes
pub mod Submits
use hsk_3_0_app.Base.{
  ℕ, ◌≡◌, refl, sym, ap, subst, ◌∙◌, true, false, ◌&&◌, some, String, arith, ◌==◌,
}
use hsk_3_0_app.Activity.{EventType, ok, EventValues, StoredEvent}
use hsk_3_0_app.Activity.Faults.{is_idempotency_key_expired, parse_idempotency_key}
use hsk_3_0_app.Activity.Store.{Store, Db}
use hsk_3_0_app.Path.{Status}
use hsk_3_0_app.Activity.Service.{Target, event_result, assert_event, Request, Reply, finish}
use mathlib.Core.Option.{some-injective}
use hsk_3_0_app.Activity.Results.{ok-injective}

module _ (store : Store) where
  -- The key has an event of this kind about this target, and the answer tells of it.
  pub record Recorded (user_id : ℕ) (key : String) (kind : EventType) (target : Target)
      (status : Status) (out : Db store × Reply) : Type 0 where
    pub event : StoredEvent
    pub there : store.events.find_unique out.0.events user_id key ≡ some event
    pub accepted : assert_event event kind target ≡ ok tt
    pub told : (out.0, event_result event target status) ≡ out

  -- The key's event has not expired.
  pub IsFresh : Db store → Request → (checked_at : ℕ) → Type 0
  IsFresh db request checked_at =
      (key : String) (event : StoredEvent)
      → parse_idempotency_key request.raw_key ≡ ok key
      → store.events.find_unique db.events request.user_id key ≡ some event
      → is_idempotency_key_expired event.created_at checked_at ≡ false

  pub finish-Recorded :
      (db : Db store) (user_id : ℕ) (key : String) (kind : EventType) (values : EventValues)
      (target : Target) (status : Status)
      → ((event : StoredEvent) → event.values ≡ values → assert_event event kind target ≡ ok tt)
      → Recorded user_id key kind target status (finish store db user_id key values target status)
  unfolding finish
  finish-Recorded db user_id key kind values target status accepted =
      let here : ((user_id == user_id) && store.events.same_key key key) ≡ true =
        rw ((store.events.same_key_iff key key).1 refl) (ground arith) in
      record {
        event = (store.events.create db.events user_id key values).1;
        there = rw (store.events.find-create db.events user_id key values user_id key, here) refl;
        accepted = accepted _ (store.events.create-values db.events user_id key values);
        told = refl;
      }

  pub IsFresh-at :
      (db : Db store) (request : Request) (checked_at : ℕ) (key : String) (event : StoredEvent)
      → parse_idempotency_key request.raw_key ≡ ok key
      → store.events.find_unique db.events request.user_id key ≡ some event
      → is_idempotency_key_expired event.created_at checked_at ≡ false
      → IsFresh db request checked_at
  unfolding IsFresh
  IsFresh-at db request checked_at key event parsed found fresh j other parsed_j found_j =
      let key_same : key ≡ j = ok-injective (sym parsed ∙ parsed_j) in
      let event_same : event ≡ other =
        some-injective _ _ (
          sym found ∙ ap (store.events.find_unique db.events request.user_id) key_same ∙ found_j) in
      subst (λ (e : StoredEvent). is_idempotency_key_expired e.created_at checked_at ≡ false)
        event_same fresh
