-- ===== src/Exams/Editing.antt =====
-- src/services/exams.service.ts: an exam is created, changed with its questions, and deleted.
pub mod Questions
pub mod Loop
pub mod Sync
pub mod Update
use ssambee_be.Prelude.{
  ℕ, ◌+◌, ◌==◌, Bool, true, false, not, Option, none, some, List, [], ◌∷◌, ◌++◌, find_by, find_many,
  map,
}
use ssambee_be.Prelude.Exists.{includes, last_found}
use ssambee_be.Prelude.OrderBy.{OrderBy}
use ssambee_be.Prelude.Action.{
  Action, pure, throw, gets, modify, or_throw, throw_if, for_each, not_found, bad_request, ◌>>=◌,
  ◌>>◌,
}
use ssambee_be.Permission.{UserType, validate_instructor_access}
use ssambee_be.Exams.Database.{
  GradingStatus, Lecture, Exam, Question, Academy, Service, permitted, transaction,
}
use ssambee_be.Exams.Access.{lecture_or_throw, managed_exam}
use ssambee_be.Exams.Repo.{
  QuestionUpsertDto, CreateExamDto, UpdateExamDto, find_exam_by_id, update, delete, create_question,
  update_question, delete_questions, find_questions_by_exam_id, find_by_id_with_questions,
}

-- `existingQuestionMap.get`.
abbrev pub existing_with : List Question → ℕ → Option Question
existing_with existing n = last_found (λ (q : Question). q.question_number == n) existing none

abbrev pub input_numbers : List QuestionUpsertDto → List ℕ
input_numbers = map λ (dto : QuestionUpsertDto). dto.question_number

abbrev pub is_left_out : List QuestionUpsertDto → Question → Bool
is_left_out inputs q = not (includes q.question_number (input_numbers inputs))

-- The identifiers of the questions that the request leaves out.
abbrev pub to_delete : List QuestionUpsertDto → List Question → List ℕ
to_delete inputs existing = map (λ (q : Question). q.id) (find_many (is_left_out inputs) existing)

-- An empty list is not sent to the database.
abbrev pub delete_left_out : List ℕ → Service (Unit {0})
delete_left_out [] = pure tt
delete_left_out (id ∷ ids) = delete_questions (id ∷ ids)

abbrev pub update_or_create : Exam → QuestionUpsertDto → Option Question → Service (Unit {0})
update_or_create exam dto (some q) = update_question q.id dto
update_or_create exam dto none = create_question exam.id exam.lecture_id dto

abbrev pub upsert_question : List Question → Exam → QuestionUpsertDto → Service (Unit {0})
upsert_question existing exam dto =
    update_or_create exam dto (existing_with existing dto.question_number)

module _ ⦃o : OrderBy⦄ where
  pub sync_questions : Exam → List QuestionUpsertDto → Service (Unit {0})
  sync_questions exam inputs = do
    existing ← find_questions_by_exam_id exam.id
    delete_left_out (to_delete inputs existing)
    for_each (upsert_question existing exam) inputs

  abbrev pub sync_given : Exam → Option (List QuestionUpsertDto) → Service (Unit {0})
  sync_given exam none = pure tt
  sync_given exam (some inputs) = sync_questions exam inputs

  abbrev pub update_with : ℕ → UpdateExamDto → Exam → Service (Option (Exam × List Question))
  update_with exam_id dto exam = do
    update exam_id dto
    sync_given exam dto.questions
    find_by_id_with_questions exam_id

  pub update_exam : ℕ → UpdateExamDto → UserType → ℕ → Service (Option (Exam × List Question))
  update_exam exam_id dto user_type profile_id = do
    exam ← managed_exam exam_id user_type profile_id
    transaction (update_with exam_id dto exam)

-- An exam that is graded, or in grading, is not deleted.
abbrev pub is_pending : GradingStatus → Bool
is_pending GradingStatus.pending = true
is_pending GradingStatus.in_progress = false
is_pending GradingStatus.completed = false

pub delete_exam : ℕ → UserType → ℕ → Service (Unit {0})
delete_exam exam_id user_type profile_id = do
  exam ← managed_exam exam_id user_type profile_id
  throw_if (not (is_pending exam.grading_status))
      (bad_request "채점이 시작된 시험은 삭제할 수 없습니다. (Pending 상태만 가능)")
  delete exam_id

-- `createWithQuestions`: the exam and its questions in one nested write.
abbrev pub create_with_questions : ℕ → ℕ → CreateExamDto → Service Exam
create_with_questions lecture_id instructor_id dto = do
  exam ← gets λ s. record {
    id = s.next_id;
    lecture_id = lecture_id;
    instructor_id = instructor_id;
    title = dto.title;
    description = dto.description;
    subject = dto.subject;
    cutoff_score = dto.cutoff_score;
    source = dto.source;
    average_score = none;
    grades_count = 0;
    grading_status = GradingStatus.pending;
    exam_date = dto.exam_date;
    category = dto.category;
    is_auto_clinic = dto.is_auto_clinic;
  }
  modify λ s. record s { exams = s.exams ++ (exam ∷ []); next_id = s.next_id + 1 }
  for_each (create_question exam.id lecture_id) dto.questions
  pure exam

pub create_exam : ℕ → CreateExamDto → UserType → ℕ → Service Exam
create_exam lecture_id dto user_type profile_id = do
  lecture ← lecture_or_throw lecture_id
  permitted (validate_instructor_access lecture.instructor_id user_type profile_id)
  transaction (create_with_questions lecture_id lecture.instructor_id dto)
