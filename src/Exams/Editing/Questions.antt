-- ===== src/Exams/Editing/Questions.antt =====
-- How the loop of `updateExam` changes the questions of the exam, one request after another.
use mathlib.Core.Bool.{false≢true}
use ssambee_be.Prelude.{
  ℕ, ◌+◌, ◌==◌, ==_self, ==_ne, ◌≡◌, ◌≢◌, ◌<◌, refl, ap, sym, subst, ◌∙◌, Bool, true, false, not,
  ◌&&◌, Option, none, some, List, [], ◌∷◌, ◌++◌, arith, All, All-append, All-map, HasDistinct,
  head?, if◌then◌else◌, find_by, find_many, update_many, find_by_rows, All-find_many,
  find_many_sound, HasDistinct-update, HasDistinct-append, find_many-append, find_many-append_ne,
  find_many-update_ne, find_many-update_self,
}
use ssambee_be.Prelude.Action.{Returns}
use ssambee_be.Exams.Database.{Exam, Question, Academy}
use ssambee_be.Exams.Repo.{
  QuestionUpsertDto, new_question, changed_question, update_question, create_question, of_exam,
}
use ssambee_be.Exams.Editing.{existing_with, update_or_create, upsert_question}

-- The rows of an exam with a number.
abbrev pub slot : ℕ → ℕ → Question → Bool
slot exam_id n q = of_exam exam_id q && (q.question_number == n)

abbrev pub slot_rows : ℕ → ℕ → List Question → List Question
slot_rows exam_id n = find_many (slot exam_id n)

abbrev pub AtMostOne : List Question → Type 0
AtMostOne [] = Unit
AtMostOne (q ∷ []) = Unit
AtMostOne (q ∷ r ∷ qs) = ⊥

-- The identifiers are distinct, and the next one is new.
pub record IsTidy (s : Academy) : Type 0 where
  pub distinct : HasDistinct (λ (q : Question). q.id) s.questions
  pub fresh : All (λ (q : Question). q.id < s.next_id) s.questions

-- The rows with a number: those left over, if no request has it, the changed one, or a new one.
abbrev pub IsSlot :
    Exam → List Question → List Question → Option QuestionUpsertDto → List Question → Type 0
IsSlot exam left before none after = after ≡ left
IsSlot exam left [] (some dto) after =
    (k : ℕ) × (after ≡ new_question k exam.id exam.lecture_id dto ∷ [])
IsSlot exam left (q ∷ qs) (some dto) after = after ≡ changed_question dto q ∷ []

-- What is left over matters only if no request has the number.
pub IsSlot-left :
    (exam : Exam) (left' left before : List Question) (dto : QuestionUpsertDto)
    (after : List Question)
    → IsSlot exam left' before (some dto) after
    → IsSlot exam left before (some dto) after
IsSlot-left exam left' left [] dto after h = h
IsSlot-left exam left' left (q ∷ qs) dto after h = h

-- Only the questions of the exam and the next identifier change.
pub record IsFramed (exam_id : ℕ) (s s' : Academy) : Type 0 where
  pub tidy : IsTidy s'
  pub frame : s' ≡ record s { questions = s'.questions; next_id = s'.next_id }
  pub others :
      find_many (λ q. not (of_exam exam_id q)) s'.questions
      ≡ find_many (λ q. not (of_exam exam_id q)) s.questions

pub IsFramed-trans : {e : ℕ} {s t u : Academy} → IsFramed e s t → IsFramed e t u → IsFramed e s u
IsFramed-trans {u = u} f g = record {
  tidy = g.tidy;
  frame =
      g.frame
      ∙ ap (λ (v : Academy). record v { questions = u.questions; next_id = u.next_id }) f.frame;
  others = g.others ∙ f.others;
}

pub record IsUpserted (exam : Exam) (dto : QuestionUpsertDto) (s s' : Academy) : Type 0 where
  pub framed : IsFramed exam.id s s'
  pub here :
      IsSlot exam []
        (slot_rows exam.id dto.question_number s.questions)
        (some dto)
        (slot_rows exam.id dto.question_number s'.questions)
  pub elsewhere :
      (n : ℕ)
      → n ≢ dto.question_number
      → slot_rows exam.id n s'.questions ≡ slot_rows exam.id n s.questions

All-update_many :
    (P : Question → Type 0) (p : Question → Bool) (f : Question → Question)
    → ((q : Question) → P q → P (f q))
    → (qs : List Question) → All P qs
    → All P (update_many p f qs)
All-update_many P p f keep [] h = tt
All-update_many P p f keep (q ∷ qs) h = (go (p q), All-update_many P p f keep qs h.1)
  where
    go : (b : Bool) → P (if b then f q else q)
    go true = keep q h.0
    go false = h.0

not_mine : (b : Bool) → b ≡ true → not b ≡ false
not_mine true h = refl
not_mine false h = absurd (false≢true h)

module _ (exam : Exam) (dto : QuestionUpsertDto) (s : Academy) (tidy : IsTidy s) where
  -- A new question.
  created-IsUpserted :
      slot_rows exam.id dto.question_number s.questions ≡ []
      → Returns (λ _ s'. IsUpserted exam dto s s') (create_question exam.id exam.lecture_id dto s)
  created-IsUpserted empty =
      let new : Question = new_question s.next_id exam.id exam.lecture_id dto in
      record {
        framed = record {
          tidy = record {
            distinct =
                HasDistinct-append (λ (q : Question). q.id) s.questions new
                  (All-map (λ (q : Question) (h : q.id < s.next_id). omega arith) s.questions
                    tidy.fresh)
                  tidy.distinct;
            fresh =
                All-append (λ (q : Question). q.id < s.next_id + 1) s.questions (new ∷ [])
                  (All-map (λ (q : Question) (h : q.id < s.next_id). omega arith) s.questions
                    tidy.fresh)
                  (omega arith);
          };
          frame = refl;
          others =
              find_many-append_ne (λ q. not (of_exam exam.id q)) s.questions new
                (not_mine _ (==_self exam.id));
        };
        here =
            subst
              (λ (before : List Question).
                IsSlot exam [] before (some dto)
                  (slot_rows exam.id dto.question_number (s.questions ++ (new ∷ []))))
              (sym empty)
              (
                s.next_id,
                find_many-append (slot exam.id dto.question_number) s.questions new
                    ∙ rw (empty, ==_self exam.id, ==_self dto.question_number) refl,
              );
        elsewhere = λ n other.
            find_many-append_ne (slot exam.id n) s.questions new
              (rw (==_self exam.id) (==_ne dto.question_number n (λ e. other (sym e))));
      }

  -- A question that has the number.
  changed-IsUpserted :
      (q : Question)
      → slot_rows exam.id dto.question_number s.questions ≡ q ∷ []
      → Returns (λ _ s'. IsUpserted exam dto s s') (update_question q.id dto s)
  changed-IsUpserted q one = rw found record {
    framed = record {
      tidy = record {
        distinct =
            HasDistinct-update (λ (q : Question). q.id) q.id (changed_question dto) (λ q. refl)
              s.questions tidy.distinct;
        fresh =
            All-update_many (λ r. r.id < s.next_id) (λ (r : Question). r.id == q.id)
              (changed_question dto) (λ r h. h) s.questions tidy.fresh;
      };
      frame = refl;
      others =
          find_many-update_ne (λ (q : Question). q.id) (λ q. not (of_exam exam.id q)) q.id
            (changed_question dto) s.questions {x = q} tidy.distinct found (not_mine _ mine)
            (not_mine _ mine);
    };
    here =
        subst
          (λ (before : List Question).
            IsSlot exam [] before (some dto) (slot_rows exam.id dto.question_number after))
          (sym one)
          (find_many-update_self (λ (q : Question). q.id) (slot exam.id dto.question_number) q.id
            (changed_question dto) s.questions {x = q} tidy.distinct found in_slot
            (rw (mine, ==_self dto.question_number) refl) one);
    elsewhere = λ n other.
        find_many-update_ne (λ (q : Question). q.id) (slot exam.id n) q.id (changed_question dto)
          s.questions {x = q} tidy.distinct found
          (rw (mine, numbered) (==_ne dto.question_number n (λ e. other (sym e))))
          (rw mine (==_ne dto.question_number n (λ e. other (sym e))));
  }
    where
      after : List Question
      after = update_many (λ (r : Question). r.id == q.id) (changed_question dto) s.questions

      found : find_by (λ (q : Question). q.id) q.id s.questions ≡ some q
      found =
          (subst
            (λ (qs : List Question).
              All (λ (r : Question). find_by (λ (q : Question). q.id) r.id s.questions ≡ some r) qs)
            one
            (All-find_many
              (λ (r : Question). find_by (λ (q : Question). q.id) r.id s.questions ≡ some r)
              (slot exam.id dto.question_number) s.questions
              (find_by_rows (λ (q : Question). q.id) s.questions tidy.distinct))).0

      in_slot : slot exam.id dto.question_number q ≡ true
      in_slot =
          (subst
            (λ (qs : List Question).
              All (λ (r : Question). slot exam.id dto.question_number r ≡ true) qs)
            one (find_many_sound (slot exam.id dto.question_number) s.questions)).0

      mine : of_exam exam.id q ≡ true
      mine = ground (arith, in_slot)

      numbered : q.question_number ≡ dto.question_number
      numbered = ground (arith, in_slot)

  pub upsert-IsUpserted :
      (existing rows : List Question)
      → slot_rows exam.id dto.question_number s.questions ≡ rows
      → AtMostOne rows
      → existing_with existing dto.question_number ≡ head? rows
      → Returns (λ _ s'. IsUpserted exam dto s s') (upsert_question existing exam dto s)
  upsert-IsUpserted existing rows here one known =
      subst (λ o. Returns (λ _ s'. IsUpserted exam dto s s') (update_or_create exam dto o s))
        (sym known) (go rows here one)
    where
      go :
          (rows : List Question)
          → slot_rows exam.id dto.question_number s.questions ≡ rows
          → AtMostOne rows
          → Returns (λ _ s'. IsUpserted exam dto s s') (update_or_create exam dto (head? rows) s)
      go [] here one = created-IsUpserted here
      go (q ∷ []) here one = changed-IsUpserted q here
      go (q ∷ r ∷ rows) here one = absurd one
