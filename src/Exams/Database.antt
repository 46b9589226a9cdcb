-- ===== src/Exams/Database.antt =====
-- The tables of prisma/schema.prisma on exams, and the state of the services that work on them.
use ssambee_be.Prelude.{ℕ, Bool, true, false, Option, List, String}
use ssambee_be.Prelude.Action.{Action, ok, err}
use ssambee_be.Permission.{School, Access}

pub data QuestionType : Type 0 where
  multiple essay : QuestionType

pub data GradingStatus : Type 0 where
  pending in_progress completed : GradingStatus

pub data ClinicStatus : Type 0 where
  pending sent completed : ClinicStatus

pub record Lecture : Type 0 where
  pub id : ℕ
  pub instructor_id : ℕ
  pub is_deleted : Bool

-- `average_score` is in hundredths.
pub record Exam : Type 0 where
  pub id : ℕ
  pub lecture_id : ℕ
  pub instructor_id : ℕ
  pub title : String
  pub description : Option String
  pub subject : Option String
  pub cutoff_score : ℕ
  pub source : Option String
  pub average_score : Option ℕ
  pub grades_count : ℕ
  pub grading_status : GradingStatus
  pub exam_date : Option String
  pub category : Option String
  pub is_auto_clinic : Bool

-- `choices` pairs the number of a choice with its text.
pub record Question : Type 0 where
  pub id : ℕ
  pub exam_id : ℕ
  pub lecture_id : ℕ
  pub question_number : ℕ
  pub content : String
  pub type : QuestionType
  pub score : ℕ
  pub choices : Option (List (String × String))
  pub source : Option String
  pub category : Option String
  pub correct_answer : String

abbrev pub is_essay : Question → Bool
is_essay q = elim q.type [ QuestionType.essay ↦ true | QuestionType.multiple ↦ false ]

pub record StudentAnswer : Type 0 where
  pub id : ℕ
  pub lecture_id : ℕ
  pub lecture_enrollment_id : ℕ
  pub question_id : ℕ
  pub submitted_answer : String
  pub is_correct : Bool

pub record Grade : Type 0 where
  pub id : ℕ
  pub lecture_id : ℕ
  pub exam_id : ℕ
  pub lecture_enrollment_id : ℕ
  pub score : ℕ
  pub rank : Option ℕ
  pub is_pass : Bool

pub record Clinic : Type 0 where
  pub id : ℕ
  pub lecture_id : ℕ
  pub exam_id : ℕ
  pub lecture_enrollment_id : ℕ
  pub instructor_id : Option ℕ
  pub title : String
  pub deadline : Option ℕ
  pub memo : Option String
  pub status : ClinicStatus

-- The rates are in hundredths of a percent.
pub record QuestionStatistic : Type 0 where
  pub id : ℕ
  pub exam_id : ℕ
  pub question_id : ℕ
  pub total_submissions : ℕ
  pub correct_rate : ℕ
  pub choice_rates : Option (List (String × ℕ))

-- The state: the tables, those that the permissions are read from, and the next identifier.
pub record Academy : Type 0 where
  pub school : School
  pub lectures : List Lecture
  pub exams : List Exam
  pub questions : List Question
  pub student_answers : List StudentAnswer
  pub grades : List Grade
  pub clinics : List Clinic
  pub question_statistics : List QuestionStatistic
  pub next_id : ℕ

abbrev pub Service : Type 0 → Type 0
Service = Action Academy

-- A check of the permission service.
abbrev pub permitted : {A : Type 0} → Access A → Service A
permitted check s = let (r, school) = check s.school in (r, record s { school = school })

-- `$transaction`: what a call wrote before it throws is taken back.
abbrev pub transaction : {A : Type 0} → Service A → Service A
transaction m s = let (r, s') = m s in elim r [ ok a ↦ (ok a, s') | err e ↦ (err e, s) ]
