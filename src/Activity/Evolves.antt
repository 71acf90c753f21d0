-- ===== src/Activity/Evolves.antt =====
-- How a write may change a learner's rows: what is done stays done, a start is never moved, and a
-- row that is coherent stays so.
use hsk_3_0_app.Base.{
  ℕ, ◌≡◌, refl, ap, subst, ◌∙◌, ◌≢◌, inl, inr, true, false, ◌&&◌, Option, none, some, arith, ◌==◌,
  if◌then◌else◌, Bool-cases, is_some,
}
use hsk_3_0_app.Path.{Status, is_done}
use hsk_3_0_app.Activity.{LessonProgress, TopicProgress}
use hsk_3_0_app.Activity.Store.{Table}

-- A lesson that is done is at 100 percent, and has the time of its start and of its completion.
pub record IsCoherentLesson (row : LessonProgress) : Type 0 where
  pub percent : is_done row.status ≡ true → row.completion_percent ≡ 100
  pub started : is_done row.status ≡ true → is_some row.started_at ≡ true
  pub finished : is_done row.status ≡ true → is_some row.completed_at ≡ true

pub record IsCoherentTopic (row : TopicProgress) : Type 0 where
  pub percent : is_done row.status ≡ true → row.completion_percent ≡ 100
  pub started : is_done row.status ≡ true → is_some row.started_at ≡ true
  pub finished : is_done row.status ≡ true → is_some row.completed_at ≡ true

-- What the statements read of a row.
pub record Columns (V : Type 0) : Type 1 where
  pub status : V → Status
  pub started_at : V → Option ℕ
  pub IsCoherent : V → Type 0

abbrev pub lesson_columns : Columns LessonProgress
lesson_columns = record {
  status = λ row. row.status;
  started_at = λ row. row.started_at;
  IsCoherent = IsCoherentLesson;
}

abbrev pub topic_columns : Columns TopicProgress
topic_columns = record {
  status = λ row. row.status;
  started_at = λ row. row.started_at;
  IsCoherent = IsCoherentTopic;
}

module _ {V : Type 0} (columns : Columns V) where
  -- The row of a key, if there is one, is coherent; is done; was started at `t`.
  abbrev pub Coherent : Option V → Type 0
  Coherent none = Unit
  Coherent (some row) = columns.IsCoherent row

  abbrev pub Done : Option V → Type 0
  Done none = ⊥
  Done (some row) = is_done (columns.status row) ≡ true

  abbrev pub StartedAt : Option V → ℕ → Type 0
  StartedAt none t = ⊥
  StartedAt (some row) t = columns.started_at row ≡ some t

  pub record Evolves (old new : Option V) : Type 0 where
    pub coherent : Coherent old → Coherent new
    pub done : Done old → Done new
    pub started : (t : ℕ) → StartedAt old t → StartedAt new t

  pub Evolves-refl : (o : Option V) → Evolves o o
  Evolves-refl o = record { coherent = λ h. h; done = λ h. h; started = λ t h. h }

  pub Evolves-trans : {a b c : Option V} → Evolves a b → Evolves b c → Evolves a c
  Evolves-trans f g = record {
    coherent = λ h. g.coherent (f.coherent h);
    done = λ h. g.done (f.done h);
    started = λ t h. g.started t (f.started t h);
  }

  module _ (table : Table V) where
    -- Every row evolves, and those of other users stay as they are.
    pub record TableEvolves (user : ℕ) (rows rows' : table.Rows) : Type 0 where
      pub row :
          (other key : ℕ)
          → Evolves (table.find_unique rows other key) (table.find_unique rows' other key)
      pub foreign :
          (other key : ℕ)
          → other ≢ user
          → table.find_unique rows' other key ≡ table.find_unique rows other key

    pub TableEvolves-refl : (user : ℕ) (rows : table.Rows) → TableEvolves user rows rows
    TableEvolves-refl user rows = record {
      row = λ other key. Evolves-refl _;
      foreign = λ other key h. refl;
    }

    pub TableEvolves-trans :
        {user : ℕ} {a b c : table.Rows}
        → TableEvolves user a b
        → TableEvolves user b c
        → TableEvolves user a c
    TableEvolves-trans f g = record {
      row = λ other key. Evolves-trans (f.row other key) (g.row other key);
      foreign = λ other key h. g.foreign other key h ∙ f.foreign other key h;
    }

    -- A write of one row of the user.
    pub upsert-TableEvolves :
        (user key : ℕ) (rows : table.Rows) (new : V)
        → Evolves (table.find_unique rows user key) (some new)
        → TableEvolves user rows (table.upsert rows user key new)
    upsert-TableEvolves user key rows new e = record {
      row = λ other j. elim (Bool-cases ((user == other) && (key == j))) [
        | inl same ↦
            let user_same : user ≡ other = ground arith in
            let key_same : key ≡ j = ground arith in
            rw (table.find-upsert rows user key new other j, same)
              (subst (λ u. Evolves (table.find_unique rows u j) (some new)) user_same
                (subst (λ k. Evolves (table.find_unique rows user k) (some new)) key_same e))
        | inr differs ↦ rw (table.find-upsert rows user key new other j, differs) (Evolves-refl _)
      ];
      foreign = λ other j h.
          let apart : ((user == other) && (key == j)) ≡ false = ground arith in
          table.find-upsert rows user key new other j
          ∙ ap (λ b. if b then some new else table.find_unique rows other j) apart;
    }
