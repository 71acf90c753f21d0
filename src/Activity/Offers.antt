-- ===== src/Activity/Offers.antt =====
-- The next action that `getLessonActivity` of lesson-activity.service.ts shows, and what the writes
-- make of it.
use hsk_3_0_app.Base.{
  ℕ, ◌≡◌, refl, ap, subst, ◌∙◌, ◌≢◌, inl, inr, Bool, true, false, not, none, some, String, List,
  map, arith, ◌==◌, Bool-cases, Option-cases, is_some, [], ◌∷◌, any, all, contains, filter,
}
use hsk_3_0_app.Activity.{ok, Graph, Topic, LessonProgress, lesson_completed, OrderedExercise}
use hsk_3_0_app.Activity.Faults.{parse_idempotency_key}
use hsk_3_0_app.Activity.Store.{Store, Db, Content, Grading}
use hsk_3_0_app.Path.{Status, is_done}
use hsk_3_0_app.Activity.Service.{Request, write, Reply, finish, target_event, lesson}
use hsk_3_0_app.Activity.Service.Reads.{
  ordered_exercise, find_event, require_started_lesson_progress, topic_exercises, ordered_topics,
  standalone_exercises, completed_topic_ids, attempted_exercise_ids, topic_is_done,
}
use hsk_3_0_app.Activity.Service.Completes.{
  has_open_topic, has_open_standalone, complete_lesson_places, complete_lesson_afresh,
  complete_lesson_body, complete_lesson,
}
use hsk_3_0_app.Activity.Progress.{select_next_activity, NextAction}
use hsk_3_0_app.Activity.Service.Recompute.{lesson_pointer}
use hsk_3_0_app.Activity.Pointers.{
  all_attempted, all_completed, select_next_activity-complete_lesson,
}
use hsk_3_0_app.Activity.Views.{
  LessonView, next, shown_action, is_over, lesson_view, get_lesson_activity,
}

contains-filter :
    (d : ℕ → Bool) (ids : List ℕ) (n : ℕ) → contains ids n ≡ true → contains (filter d ids) n ≡ d n
contains-filter d [] n h = cc
contains-filter d (x ∷ ids) n h = elim (Bool-cases (x == n)) [
  | inl here ↦
      let same : x ≡ n = ground arith in
      elim (Bool-cases (d n)) [
        | inl kept ↦ let on : d x ≡ true = ap d same ∙ kept in ground arith
        | inr dropped ↦
            let off : d x ≡ false = ap d same ∙ dropped in
            elim (Bool-cases (contains ids n)) [
              | inl again ↦ let rest = contains-filter d ids n again in ground arith
              | inr last ↦ let gone = contains-filter_none d ids n last in ground arith
            ]
      ]
  | inr elsewhere ↦
      let rest = contains-filter d ids n (ground arith) in
      elim (Bool-cases (d x)) [ inl kept ↦ ground arith | inr dropped ↦ ground arith ]
]
  where
    contains-filter_none :
        (d : ℕ → Bool) (ids : List ℕ) (n : ℕ)
        → contains ids n ≡ false
        → contains (filter d ids) n ≡ false
    contains-filter_none d [] n h = refl
    contains-filter_none d (x ∷ ids) n h =
        let rest = contains-filter_none d ids n (ground arith) in
        elim (Bool-cases (d x)) [ inl kept ↦ ground arith | inr dropped ↦ ground arith ]

any-not_all : {A : Type 0} (f : A → Bool) (xs : List A) → any (λ x. not (f x)) xs ≡ not (all f xs)
any-not_all f [] = refl
any-not_all f (x ∷ xs) = let rest = any-not_all f xs in ground arith

module _ (store : Store) where
  all_completed-topics :
      (db : Db store) (user_id : ℕ) (graph : Graph) (ids : List ℕ) (topics : List Topic)
      → ((n : ℕ) → contains (map (λ (t : Topic). t.id) topics) n ≡ true → contains ids n ≡ true)
      → all_completed
          (map
            (λ (t : Topic). record {
              id = t.id;
              order_index = t.order_index;
              exercises = map ordered_exercise (topic_exercises graph t.id);
            })
            topics)
          (filter (topic_is_done store db user_id) ids)
        ≡ all (λ (t : Topic). topic_is_done store db user_id t.id) topics
  all_completed-topics db user_id graph ids [] within = refl
  all_completed-topics db user_id graph ids (t ∷ topics) within =
      let here =
        contains-filter (topic_is_done store db user_id) ids t.id (within t.id (ground arith)) in
      let rest =
        all_completed-topics db user_id graph ids topics (λ n h. within n (ground arith)) in
      rw (here, rest) refl

  all_completed-eq-has_open_topic :
      (db : Db store) (user_id : ℕ) (graph : Graph)
      → all_completed (ordered_topics graph) (completed_topic_ids store db user_id graph)
        ≡ not (has_open_topic store db user_id graph)
  unfolding ordered_topics has_open_topic
  all_completed-eq-has_open_topic db user_id graph =
      let done_so = λ (t : Topic). topic_is_done store db user_id t.id in
      let same = all_completed-topics db user_id graph _ graph.topics (λ n h. h) in
      let opened = any-not_all done_so graph.topics in ground (arith, same, opened)

  all_attempted-eq-has_open_standalone :
      (db : Db store) (user_id : ℕ) (graph : Graph)
      → all_attempted (standalone_exercises graph) (attempted_exercise_ids store db user_id graph)
        ≡ not (has_open_standalone store db user_id graph)
  unfolding has_open_standalone
  all_attempted-eq-has_open_standalone db user_id graph =
      let attempted =
        λ (e : OrderedExercise). contains (attempted_exercise_ids store db user_id graph) e.id in
      let opened = any-not_all attempted (standalone_exercises graph) in ground (arith, opened)

  -- The pointer of a lesson that is not completed.
  lesson_pointer-complete_lesson :
      (db : Db store) (user_id : ℕ) (graph : Graph)
      → (lesson_pointer store db user_id graph false).next_action ≡ NextAction.complete_lesson
      → (has_open_topic store db user_id graph ≡ false)
        × (has_open_standalone store db user_id graph ≡ false)
  unfolding lesson_pointer
  lesson_pointer-complete_lesson db user_id graph h =
      let both = (select_next_activity-complete_lesson _ _ _ _).0 h in
      let topics = all_completed-eq-has_open_topic db user_id graph in
      let standalone = all_attempted-eq-has_open_standalone db user_id graph in
      (ground (arith, both, topics), ground (arith, both, standalone))

  module _ (content : Content) where
    complete_lesson_afresh-accepts :
        (db : Db store) (user_id lesson_id : ℕ) (key : String) (now : ℕ) (graph : Graph)
        (row : LessonProgress)
        → store.progresses.find_unique db.progresses user_id lesson_id ≡ some row
        → is_some row.started_at ≡ true
        → is_done row.status ≡ false
        → has_open_topic store db user_id graph ≡ false
        → has_open_standalone store db user_id graph ≡ false
        → complete_lesson_afresh store content db user_id lesson_id key now graph
          ≡ ok (
              finish store
                (complete_lesson_places store content db user_id lesson_id now graph row)
                user_id
                key
                (target_event lesson_completed lesson_id none now)
                (lesson lesson_id)
                Status.done)
    unfolding complete_lesson_afresh require_started_lesson_progress
    complete_lesson_afresh-accepts db user_id lesson_id key now graph row found started undone
          topics standalone =
        ground arith

    complete_lesson_body-afresh :
        (db : Db store) (user_id checked_at now lesson_id : ℕ) (key : String) (graph : Graph)
        → content.find_ready_lesson lesson_id ≡ some graph
        → store.events.find_unique db.events user_id key ≡ none
        → complete_lesson_body store content db user_id checked_at now lesson_id key
          ≡ complete_lesson_afresh store content db user_id lesson_id key now graph
    unfolding complete_lesson_body find_event
    complete_lesson_body-afresh db user_id checked_at now lesson_id key graph at absent =
        ground arith

    shown-complete_lesson :
        (db : Db store) (user_id lesson_id : ℕ) (graph : Graph) (row : LessonProgress)
        → store.progresses.find_unique db.progresses user_id lesson_id ≡ some row
        → shown_action
            (some row)
            (lesson_pointer store db user_id graph (is_done row.status)).next_action
          ≡ next NextAction.complete_lesson
        → (is_done row.status ≡ false)
          × (has_open_topic store db user_id graph ≡ false)
          × (has_open_standalone store db user_id graph ≡ false)
    unfolding lesson_pointer select_next_activity
    shown-complete_lesson db user_id lesson_id graph row found h =
        elim (Bool-cases (is_done row.status)) [
          | inl over ↦ absurd (
              closed (
                subst
                  (λ b.
                    shown_action (some row) (lesson_pointer store db user_id graph b).next_action
                    ≡ next NextAction.complete_lesson)
                  over h))
          | inr pending ↦
              let (topics, standalone) = lesson_pointer-complete_lesson db user_id graph (
                next-injective (
                  subst
                    (λ b.
                      shown_action (some row) (lesson_pointer store db user_id graph b).next_action
                      ≡ next NextAction.complete_lesson)
                    pending h)) in
              (pending, topics, standalone)
        ]
      where
        next-injective : {a b : NextAction} → next a ≡ next b → a ≡ b
        next-injective h = cc

        closed :
            shown_action (some row) (lesson_pointer store db user_id graph true).next_action
            ≢ next NextAction.complete_lesson
        closed h = cc

    -- Where `getLessonActivity` shows that the lesson's completion is next, and the lesson was
    -- started, `completeLesson` succeeds: for an active account, with a key that is valid and has
    -- no event, and if the database does not fail.
    pub complete_lesson-accepts :
        (db : Db store) (grading : Grading) (request : Request) (lesson_id : ℕ) (key : String)
        (view : LessonView) (row : LessonProgress)
        → get_lesson_activity store content grading db request.user_id lesson_id ≡ ok view
        → view.next_action ≡ next NextAction.complete_lesson
        → store.progresses.find_unique db.progresses request.user_id lesson_id ≡ some row
        → is_some row.started_at ≡ true
        → content.is_active request.user_id ≡ true
        → parse_idempotency_key request.raw_key ≡ ok key
        → store.events.find_unique db.events request.user_id key ≡ none
        → (out : Db store × Reply) × (complete_lesson store content db request none lesson_id
            ≡ ok out)
    unfolding get_lesson_activity lesson_view complete_lesson write
    complete_lesson-accepts db grading request lesson_id key view row shown offered found started
          active parsed absent =
        elim (Option-cases (content.find_ready_lesson lesson_id)) [
          | inl missing ↦ absurd (ground arith)
          | inr (graph, at) ↦
              let same : lesson_view store content grading db request.user_id lesson_id graph
                  ≡ view =
                ground arith in
              let action = ap (λ (v : LessonView). v.next_action) same ∙ offered in
              let (undone, topics, standalone) =
                shown-complete_lesson db request.user_id lesson_id graph row found (
                  subst
                    (λ o.
                      shown_action o
                        (lesson_pointer store db request.user_id graph (is_over o)).next_action
                      ≡ next NextAction.complete_lesson)
                    found action) in
              let accepted =
                complete_lesson_afresh-accepts db request.user_id lesson_id key request.now graph
                  row found started undone topics standalone in
              (
                finish store
                    (complete_lesson_places store content db request.user_id lesson_id request.now
                      graph row)
                    request.user_id key (target_event lesson_completed lesson_id none request.now)
                    (lesson lesson_id) Status.done,
                rw (parsed, active)
                    (complete_lesson_body-afresh db request.user_id request.checked_at request.now
                        lesson_id key graph at absent
                      ∙ accepted),
              )
        ]
