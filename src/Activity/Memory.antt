-- ===== src/Activity/Memory.antt =====
-- A store in memory: the store's interface with every law proved.
use text.Mathlib.Text.{◌==◌ as str_eq}
use text.Mathlib.TextEquality.{eq_iff}
use hsk_3_0_app.Base.{
  ℕ, ◌+◌, ◌<◌, refl, Option, none, some, List, [], ◌∷◌, map, String, ◌==◌, if◌then◌else◌, ◌&&◌, ◌≢◌,
  arith, All,
}
use hsk_3_0_app.Activity.{Attempt, StoredEvent, LessonProgress, TopicProgress, PlanItem}
use hsk_3_0_app.Activity.Store.{Table, EventTable, AttemptTable, PlanItemTable, Store, Db}

abbrev pub table : (V : Type 0) → Table V
table V = record {
  Rows = ℕ → ℕ → Option V;
  find_unique = λ rows user key. rows user key;
  upsert =
      λ rows user key row other j. if (user == other) && (key == j) then some row else rows other j;
  find-upsert = λ rows user key row other j. refl;
}

-- The rows of the events, and the id of the next one.
abbrev pub events : EventTable
events = record {
  Rows = ℕ × (ℕ → String → Option StoredEvent);
  same_key = str_eq;
  same_key_iff = eq_iff;
  find_unique = λ rows user key. rows.1 user key;
  create = λ rows user key values.
      let event : StoredEvent = record {
        id = rows.0;
        created_at = values.occurred_at;
        values = values;
      } in
      (
        (
          rows.0 + 1,
          λ other j. if (user == other) && str_eq key j then some event else rows.1 other j,
        ),
        event,
      );
  create-values = λ rows user key values. refl;
  find-create = λ rows user key values other j. refl;
}

abbrev pub fresh_id : List Attempt → ℕ
fresh_id [] = 1
fresh_id (a ∷ attempts) = a.id + fresh_id attempts

fresh_id-positive : (attempts : List Attempt) → 0 < fresh_id attempts
fresh_id-positive [] = omega arith
fresh_id-positive (a ∷ attempts) = let rest = fresh_id-positive attempts in omega (arith, rest)

above-All :
    (n : ℕ) (attempts : List Attempt)
    → fresh_id attempts < n + 1
    → All (λ (a : Attempt). a.id ≢ n) attempts
above-All n [] h = tt
above-All n (a ∷ attempts) h =
    let positive = fresh_id-positive attempts in
    (λ same. omega (arith, h, positive, same), above-All n attempts (omega (arith, h)))

pub fresh_id-All :
    (attempts : List Attempt) → All (λ (a : Attempt). a.id ≢ fresh_id attempts) attempts
fresh_id-All attempts = above-All (fresh_id attempts) attempts (omega arith)

abbrev pub attempts : AttemptTable
attempts = record {
  Rows = List Attempt;
  all = λ rows. rows;
  create = λ rows values.
      let made : Attempt = record { id = fresh_id rows; values = values } in (made ∷ rows, made);
  create-values = λ rows values. refl;
  all-create = λ rows values. refl;
  create-fresh = λ rows values. fresh_id-All rows;
}

abbrev pub plan_items : PlanItemTable
plan_items = record {
  Rows = List PlanItem;
  all = λ rows. rows;
  update_many = λ rows test change. map (λ i. if test i then change i else i) rows;
  all-update_many = λ rows test change. refl;
}

abbrev pub memory : Store
memory = record {
  progresses = table LessonProgress;
  topic_progresses = table TopicProgress;
  attempts = attempts;
  events = events;
  plan_items = plan_items;
}

-- No rows.
abbrev pub empty : Db memory
empty = record {
  progresses = λ user key. none;
  topic_progresses = λ user key. none;
  attempts = [];
  events = (1, λ user key. none);
  plan_items = [];
}
