-- ===== src/Exams/Repo.antt =====
-- The queries and writes of src/repos/exams.repo.ts that the services use, named as there.
use ssambee_be.Prelude.{
  ℕ, ◌+◌, ◌==◌, leb, Bool, Option, none, some, List, [], ◌∷◌, ◌++◌, String, get_or, find_by,
  find_many, update_many, delete_many, map,
}
use ssambee_be.Prelude.Exists.{includes}
use ssambee_be.Prelude.OrderBy.{OrderBy, order_by}
use ssambee_be.Prelude.Action.{pure, gets, modify, or_throw, record_not_found, ◌>>=◌}
use ssambee_be.Exams.Database.{QuestionType, GradingStatus, Exam, Question, Service}

pub record QuestionUpsertDto : Type 0 where
  pub question_number : ℕ
  pub content : String
  pub type : QuestionType
  pub score : ℕ
  pub choices : Option (List (String × String))
  pub source : Option String
  pub category : Option String
  pub correct_answer : String

pub record CreateExamDto : Type 0 where
  pub title : String
  pub description : Option String
  pub subject : Option String
  pub cutoff_score : ℕ
  pub source : Option String
  pub exam_date : Option String
  pub category : Option String
  pub is_auto_clinic : Bool
  pub questions : List QuestionUpsertDto

-- A field that is none is left out of the request; `source`, `exam_date` and `category` may also
-- be null.
pub record UpdateExamDto : Type 0 where
  pub title : Option String
  pub description : Option String
  pub subject : Option String
  pub cutoff_score : Option ℕ
  pub source : Option (Option String)
  pub exam_date : Option (Option String)
  pub category : Option (Option String)
  pub is_auto_clinic : Option Bool
  pub questions : Option (List QuestionUpsertDto)

-- A field that a request leaves out keeps its value.
abbrev pub or_kept {ℓ} : {A : Type ℓ} → Option A → Option A → Option A
or_kept none old = old
or_kept (some x) old = some x

abbrev pub find_exam_by_id : ℕ → Service (Option Exam)
find_exam_by_id id = gets λ s. find_by (λ (e : Exam). e.id) id s.exams

-- `update` of the client: it throws if there is no such row.
abbrev pub update_exam_row : ℕ → (Exam → Exam) → Service (Unit {0})
update_exam_row id change = do
  found ← find_exam_by_id id
  _ ← or_throw found record_not_found
  modify λ s. record s { exams = update_many (λ (e : Exam). e.id == id) change s.exams }

abbrev pub changed_exam : UpdateExamDto → Exam → Exam
changed_exam dto e = record e {
  title = get_or dto.title e.title;
  description = or_kept dto.description e.description;
  subject = or_kept dto.subject e.subject;
  cutoff_score = get_or dto.cutoff_score e.cutoff_score;
  source = get_or dto.source e.source;
  exam_date = get_or dto.exam_date e.exam_date;
  category = get_or dto.category e.category;
  is_auto_clinic = get_or dto.is_auto_clinic e.is_auto_clinic;
}

abbrev pub update : ℕ → UpdateExamDto → Service (Unit {0})
update id dto = update_exam_row id (changed_exam dto)

abbrev pub update_grading_status : ℕ → GradingStatus → Service (Unit {0})
update_grading_status id status = update_exam_row id λ e. record e { grading_status = status }

abbrev pub update_statistics : ℕ → ℕ → ℕ → Service (Unit {0})
update_statistics id average_score grades_count =
    update_exam_row id
      λ e. record e { average_score = some average_score; grades_count = grades_count }

abbrev pub new_question : ℕ → ℕ → ℕ → QuestionUpsertDto → Question
new_question id exam_id lecture_id dto = record {
  id = id;
  exam_id = exam_id;
  lecture_id = lecture_id;
  question_number = dto.question_number;
  content = dto.content;
  type = dto.type;
  score = dto.score;
  choices = dto.choices;
  source = dto.source;
  category = dto.category;
  correct_answer = dto.correct_answer;
}

abbrev pub create_question : ℕ → ℕ → QuestionUpsertDto → Service (Unit {0})
create_question exam_id lecture_id dto = modify λ s. record s {
  questions = s.questions ++ (new_question s.next_id exam_id lecture_id dto ∷ []);
  next_id = s.next_id + 1;
}

-- `choices` that are left out become null, while `source` and `category` keep their values.
abbrev pub changed_question : QuestionUpsertDto → Question → Question
changed_question dto q = record q {
  question_number = dto.question_number;
  content = dto.content;
  type = dto.type;
  score = dto.score;
  choices = dto.choices;
  source = or_kept dto.source q.source;
  category = or_kept dto.category q.category;
  correct_answer = dto.correct_answer;
}

abbrev pub update_question : ℕ → QuestionUpsertDto → Service (Unit {0})
update_question id dto = do
  found ← gets λ s. find_by (λ (q : Question). q.id) id s.questions
  _ ← or_throw found record_not_found
  modify λ s. record s {
    questions = update_many (λ (q : Question). q.id == id) (changed_question dto) s.questions;
  }

abbrev pub delete_questions : List ℕ → Service (Unit {0})
delete_questions ids =
    modify
      λ s. record s { questions = delete_many (λ (q : Question). includes q.id ids) s.questions }

abbrev pub of_exam : ℕ → Question → Bool
of_exam exam_id q = q.exam_id == exam_id

abbrev pub find_questions_by_exam_id : ⦃o : OrderBy⦄ → ℕ → Service (List Question)
find_questions_by_exam_id exam_id = gets λ s.
    order_by (λ (q r : Question). leb q.question_number r.question_number)
      (find_many (of_exam exam_id) s.questions)

abbrev pub find_by_id_with_questions : ⦃o : OrderBy⦄ → ℕ → Service (Option (Exam × List Question))
find_by_id_with_questions exam_id = do
  found ← find_exam_by_id exam_id
  questions ← find_questions_by_exam_id exam_id
  pure (elim found [ none ↦ none | some e ↦ some (e, questions) ])

-- With the deletion of the rows that refer to the exam, which the database cascades.
abbrev pub delete : ℕ → Service (Unit {0})
delete id = do
  found ← find_exam_by_id id
  _ ← or_throw found record_not_found
  modify λ s.
      let ids = map (λ (q : Question). q.id) (find_many (of_exam id) s.questions) in
      record s {
        exams = delete_many (λ e. e.id == id) s.exams;
        questions = delete_many (of_exam id) s.questions;
        student_answers = delete_many (λ a. includes a.question_id ids) s.student_answers;
        grades = delete_many (λ g. g.exam_id == id) s.grades;
        clinics = delete_many (λ c. c.exam_id == id) s.clinics;
        question_statistics = delete_many (λ t. includes t.question_id ids) s.question_statistics;
      }
