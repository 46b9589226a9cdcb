-- ===== src/Exams/Samples.antt =====
-- A lecture with one exam.
use ssambee_be.Prelude.{ℕ, leb, none, some, true, false, [], ◌∷◌}
use ssambee_be.Exams.Database.{
  Lecture, QuestionType, GradingStatus, ClinicStatus, Exam, Question, Grade, Clinic, Academy,
}

abbrev pub sample_exam : Exam
sample_exam = record {
  id = 3;
  lecture_id = 5;
  instructor_id = 1;
  title = "1";
  description = none;
  subject = none;
  cutoff_score = 50;
  source = none;
  average_score = none;
  grades_count = 0;
  grading_status = GradingStatus.pending;
  exam_date = none;
  category = none;
  is_auto_clinic = true;
}

abbrev pub sample_lecture : Lecture
sample_lecture = record { id = 5; instructor_id = 1; is_deleted = false }

abbrev pub sample_question : ℕ → ℕ → Question
sample_question id n = record {
  id = id;
  exam_id = 3;
  lecture_id = 5;
  question_number = n;
  content = "...";
  type = QuestionType.multiple;
  score = 50;
  choices = none;
  source = none;
  category = none;
  correct_answer = "1";
}

abbrev pub sample_grade : ℕ → ℕ → ℕ → Grade
sample_grade id student score = record {
  id = id;
  lecture_id = 5;
  exam_id = 3;
  lecture_enrollment_id = student;
  score = score;
  rank = none;
  is_pass = leb 50 score;
}

abbrev pub sample_clinic : ℕ → ℕ → Clinic
sample_clinic id student = record {
  id = id;
  lecture_id = 5;
  exam_id = 3;
  lecture_enrollment_id = student;
  instructor_id = some 1;
  title = "1";
  deadline = none;
  memo = none;
  status = ClinicStatus.pending;
}

abbrev pub sample_academy : Academy
sample_academy = record {
  school = record { assistants = []; child_links = []; enrollments = []; lecture_enrollments = [] };
  lectures = sample_lecture ∷ [];
  exams = sample_exam ∷ [];
  questions = sample_question 10 1 ∷ sample_question 11 2 ∷ [];
  student_answers = [];
  grades = sample_grade 20 60 0 ∷ sample_grade 21 61 100 ∷ sample_grade 22 62 0 ∷ [];
  clinics = sample_clinic 30 61 ∷ sample_clinic 31 62 ∷ [];
  question_statistics = [];
  next_id = 40;
}
