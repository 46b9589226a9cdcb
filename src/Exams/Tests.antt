-- ===== src/Exams/Tests.antt =====
-- The theorems on the exams, at a lecture with one exam.
use ssambee_be.Prelude.{
  true, false, Bool, String, ℕ, ◌+◌, ◌*◌, ◌/◌, length, sum_by, arith, none, some, [], ◌∷◌,
}
use ssambee_be.Prelude.Action.{Returns}
use ssambee_be.Billing.Samples.{sorting, sorting-IsSorting}
use ssambee_be.Permission.{UserType, validate_instructor_access}
use ssambee_be.Exams.Database.{QuestionType, StudentAnswer, Academy}
use ssambee_be.Exams.Repo.{QuestionUpsertDto, UpdateExamDto}
use ssambee_be.Exams.Samples.{sample_exam, sample_academy}
use ssambee_be.Exams.Clinics.{CreateClinicsDto}
use ssambee_be.Exams.Statistics.{Numbers, calculate_and_save_statistics}
use ssambee_be.Exams.Statistics.Outcome.{AreCalculated, calculate-Outcome, questions_in}

-- The second question is left out, the first one is changed, and a third one is new.
abbrev sample_request : ℕ → QuestionUpsertDto
sample_request n = record {
  question_number = n;
  content = "!";
  type = QuestionType.essay;
  score = 20;
  choices = none;
  source = none;
  category = none;
  correct_answer = "2";
}

abbrev sample_update : UpdateExamDto
sample_update = record {
  title = some "2";
  description = none;
  subject = none;
  cutoff_score = none;
  source = none;
  exam_date = none;
  category = some none;
  is_auto_clinic = none;
  questions = some (sample_request 1 ∷ sample_request 3 ∷ []);
}

abbrev to_text : ℕ → String
to_text _ = "?"

abbrev sample_dto : CreateClinicsDto
sample_dto = record { title = some ""; deadline = some 1000; memo = none }

abbrev sample_numbers : Numbers
sample_numbers = record {
  percentage = λ n total. (20000 * n + total) / (2 * total);
  average = λ scores. 100 * sum_by (λ score. score) scores / length scores;
}

abbrev sample_answer : ℕ → ℕ → ℕ → String → Bool → StudentAnswer
sample_answer id student question_id answer is_correct = record {
  id = id;
  lecture_enrollment_id = student;
  lecture_id = 5;
  question_id = question_id;
  submitted_answer = answer;
  is_correct = is_correct;
}

-- The second student has the right answers to both questions.
abbrev answered_academy : Academy
answered_academy = record sample_academy {
  student_answers =
      sample_answer 50 60 10 "2" false
      ∷ sample_answer 51 61 10 "1" true
      ∷ sample_answer 52 61 11 "1" true
      ∷ [];
}

calculate_example :
    Returns
      (λ _ t.
        AreCalculated sample_numbers 3 sample_exam
          (questions_in 3 answered_academy)
          answered_academy
          t)
      (calculate_and_save_statistics sample_numbers 3 UserType.instructor 1 answered_academy)
unfolding validate_instructor_access sorting
calculate_example =
    calculate-Outcome sample_numbers 3 UserType.instructor 1 answered_academy sorting-IsSorting
      (omega arith) (omega arith)
