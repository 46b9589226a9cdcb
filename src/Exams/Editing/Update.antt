-- ===== src/Exams/Editing/Update.antt =====
-- `updateExam` as a whole: the check of the user, the exam's row, and its questions.
use ssambee_be.Prelude.{
  ℕ, ◌==◌, ◌≡◌, Option, none, some, List, HasDistinct, leb, find_many, update_many,
}
use ssambee_be.Prelude.OrderBy.{OrderBy, order_by}
use ssambee_be.Prelude.Action.{Result, ok, err, not_found, Returns}
use ssambee_be.Permission.{UserType}
use ssambee_be.Exams.Database.{Exam, Question, Academy}
use ssambee_be.Exams.Repo.{QuestionUpsertDto, UpdateExamDto, changed_exam, of_exam}
use ssambee_be.Exams.Access.{verdict}
use ssambee_be.Exams.Editing.{update_exam}
use ssambee_be.Exams.Editing.Questions.{slot_rows, AtMostOne}
use ssambee_be.Exams.Editing.Loop.{number}
use ssambee_be.Exams.Editing.Sync.{IsSynced}

abbrev pub with_exam : ℕ → UpdateExamDto → Academy → Academy
with_exam id dto s = record s {
  exams = update_many (λ (e : Exam). e.id == id) (changed_exam dto) s.exams;
}

-- The questions stay unless the request has some.
abbrev pub AreSynced : Exam → Option (List QuestionUpsertDto) → Academy → Academy → Type 0
AreSynced exam none s s' = s' ≡ s
AreSynced exam (some dtos) s s' = IsSynced exam dtos s s'

abbrev pub AreDistinct : Option (List QuestionUpsertDto) → Type 0
AreDistinct none = Unit
AreDistinct (some dtos) = HasDistinct number dtos

-- No exam has two questions with one number.
abbrev pub HasNumbered : Academy → Type 0
HasNumbered s = (e n : ℕ) → AtMostOne (slot_rows e n s.questions)

module _ ⦃o : OrderBy⦄ (exam_id : ℕ) (dto : UpdateExamDto) (user_type : UserType) (profile_id : ℕ)
    (s : Academy) where
  -- The row of the exam has the fields of the request, its questions are those of the request if it
  -- has any, nothing else changes, and both are returned.
  pub record IsUpdated (exam : Exam) (result : Option (Exam × List Question)) (s' : Academy)
      : Type 0 where
    pub synced : AreSynced exam dto.questions (with_exam exam_id dto s) s'
    pub result_is :
        result
        ≡ some (
          changed_exam dto exam,
          order_by
              (λ (q r : Question). leb q.question_number r.question_number)
              (find_many (of_exam exam_id) s'.questions),
        )

  -- By the exam that is found and what the check of the user says.
  abbrev pub Permitted : Exam → Result (Unit {0}) → Type 0
  Permitted exam (err e) = update_exam exam_id dto user_type profile_id s ≡ (err e, s)
  Permitted exam (ok _) = Returns (IsUpdated exam) (update_exam exam_id dto user_type profile_id s)

  abbrev pub Outcome : Option Exam → Type 0
  Outcome none =
      update_exam exam_id dto user_type profile_id s ≡ (err (not_found "시험을 찾을 수 없습니다."), s)
  Outcome (some exam) = Permitted exam (verdict exam.instructor_id user_type profile_id s)
