-- ===== src/Activity/Effects.antt =====
-- What a successful write of lesson-activity.service.ts does to the tables: the learner's rows
-- evolve, other users' rows stay, and no recorded event is changed.
pub mod Starts
pub mod Completes
pub mod Submits
use hsk_3_0_app.Base.{
  ℕ, ◌≡◌, ap, inl, inr, ◌&&◌, Option, none, some, String, arith, ◌==◌, Bool-cases,
}
use hsk_3_0_app.Activity.{LessonProgress, TopicProgress, EventValues, StoredEvent}
use hsk_3_0_app.Activity.Store.{Store, Db, EventTable}
use hsk_3_0_app.Path.{Status}
use hsk_3_0_app.Activity.Service.{Target, finish}
use hsk_3_0_app.Activity.Evolves.{
  lesson_columns, topic_columns, TableEvolves, TableEvolves-refl, TableEvolves-trans,
}

module _ (events : EventTable) where
  -- No recorded event is changed or lost.
  abbrev pub KeepsEvents : events.Rows → events.Rows → Type 0
  KeepsEvents rows rows' =
      (other : ℕ) (j : String) (e : StoredEvent)
      → events.find_unique rows other j ≡ some e
      → events.find_unique rows' other j ≡ some e

  -- An event under a key that has none.
  pub create-KeepsEvents :
      (rows : events.Rows) (user : ℕ) (key : String) (values : EventValues)
      → events.find_unique rows user key ≡ none
      → KeepsEvents rows (events.create rows user key values).0
  create-KeepsEvents rows user key values missing other j e found =
      elim (Bool-cases ((user == other) && events.same_key key j)) [
        | inr differs ↦ rw (events.find-create rows user key values other j, differs) found
        | inl same ↦
            let user_same : user ≡ other = ground arith in
            let key_same : key ≡ j = (events.same_key_iff key j).0 (ground arith) in
            cc (
              ap (λ u. events.find_unique rows u key) user_same,
              ap (events.find_unique rows other) key_same,
            )
      ]

module _ (store : Store) where
  -- A lesson's row.
  abbrev pub lesson_row : Db store → (user lesson_id : ℕ) → Option LessonProgress
  lesson_row db user lesson_id = store.progresses.find_unique db.progresses user lesson_id

  -- A topic's row.
  abbrev pub topic_row : Db store → (user topic_id : ℕ) → Option TopicProgress
  topic_row db user topic_id = store.topic_progresses.find_unique db.topic_progresses user topic_id

  pub record Effect (user : ℕ) (db db' : Db store) : Type 0 where
    pub lessons : TableEvolves lesson_columns store.progresses user db.progresses db'.progresses
    pub topics :
        TableEvolves topic_columns store.topic_progresses user db.topic_progresses
          db'.topic_progresses
    pub events : KeepsEvents store.events db.events db'.events

  pub Effect-refl : (user : ℕ) (db : Db store) → Effect user db db
  Effect-refl user db = record {
    lessons = TableEvolves-refl _ _ user _;
    topics = TableEvolves-refl _ _ user _;
    events = λ other j e h. h;
  }

  pub Effect-trans :
      {user : ℕ} {a b c : Db store} → Effect user a b → Effect user b c → Effect user a c
  Effect-trans f g = record {
    lessons = TableEvolves-trans _ _ f.lessons g.lessons;
    topics = TableEvolves-trans _ _ f.topics g.topics;
    events = λ other j e h. g.events other j e (f.events other j e h);
  }

  -- The end of a write under a key that has no event.
  pub finish-Effect :
      (db : Db store) (user : ℕ) (key : String) (values : EventValues) (target : Target)
      (status : Status)
      → store.events.find_unique db.events user key ≡ none
      → Effect user db (finish store db user key values target status).0
  unfolding finish
  finish-Effect db user key values target status absent = record {
    lessons = TableEvolves-refl _ _ user _;
    topics = TableEvolves-refl _ _ user _;
    events = create-KeepsEvents store.events _ user key values absent;
  }
