-- ===== src/Grades/Tests.antt =====
-- The theorems on the grading, at an exam with two questions.
use ssambee_be.Prelude.{ℕ, ◌≡◌, refl, some, none, true, false, List, [], ◌∷◌, String}
use ssambee_be.Prelude.Action.{ok, Returns}
use ssambee_be.Billing.Samples.{sorting}
use ssambee_be.Permission.{UserType, validate_instructor_access}
use ssambee_be.Exams.Database.{Question, QuestionType, Academy}
use ssambee_be.Exams.Samples.{sample_exam, sample_academy}
use ssambee_be.Grades.{Answer, grade_answers, check_answer, grade_submission}
use ssambee_be.Grades.Acceptance.{grade_submission-Returns}
use ssambee_be.Grades.Saving.{SubmitGradingDto, submit_grading}
use ssambee_be.Grades.Saving.Submitted.{IsSubmitted}
use ssambee_be.Grades.Saving.Outcome.{submit_grading-Outcome}
use ssambee_be.Grades.Submission.{IsAccepted, grade_submission-IsAccepted}

abbrev sample_choice : Question
sample_choice = record {
  id = 7;
  exam_id = 3;
  lecture_id = 5;
  question_number = 1;
  type = QuestionType.multiple;
  content = "...";
  choices = none;
  source = none;
  category = none;
  score = 60;
  correct_answer = "3";
}

abbrev sample_essay : Question
sample_essay = record {
  id = 8;
  exam_id = 3;
  lecture_id = 5;
  question_number = 2;
  type = QuestionType.essay;
  content = "...";
  choices = none;
  source = none;
  category = none;
  score = 40;
  correct_answer = "";
}

-- A choice worth 60 and an essay worth 40.
abbrev sample_questions : List Question
sample_questions = sample_choice ∷ sample_essay ∷ []

abbrev sample_answers : List Answer
sample_answers =
    (record {
      question_id = none;
      question_number = some 1;
      submitted_answer = "3";
      is_correct = true;
    })
    ∷ (record {
      question_id = some 8;
      question_number = none;
      submitted_answer = "...";
      is_correct = false;
    })
    ∷ []

abbrev to_text : ℕ → String
to_text _ = "?"

sample_run : (grade_submission sample_questions to_text sample_answers 60 1 50 tt).0 ≡ ok (60, true)
unfolding grade_submission grade_answers check_answer
sample_run = refl

-- Of the submission that is accepted.
submission_example : IsAccepted sample_questions to_text sample_answers 60 1 50 (60, true)
unfolding grade_submission grade_answers check_answer
submission_example = grade_submission-IsAccepted sample_questions to_text sample_answers 60 1 50

acceptance_example :
    Returns {S = Unit {0}}
      (λ r _. r ≡ (60, true))
      (grade_submission sample_questions to_text sample_answers 60 1 50 tt)
acceptance_example =
    grade_submission-Returns sample_questions to_text sample_answers 60 1 50
      (sample_choice, refl, refl, refl, (sample_essay, refl, refl, refl, tt)) refl refl

-- Student 60 attends the lecture and has no grade yet.
abbrev graded_academy : Academy
graded_academy = record sample_academy {
  school = record {
    assistants = [];
    child_links = [];
    enrollments = [];
    lecture_enrollments = (record { id = 60; lecture_id = 5; enrollment_id = 50 }) ∷ [];
  };
  questions = sample_essay ∷ sample_choice ∷ [];
  grades = [];
}

abbrev sample_submission : SubmitGradingDto
sample_submission = record {
  lecture_enrollment_id = 60;
  answers = sample_answers;
  total_score = 60;
  correct_count = 1;
}

submit_grading_example :
    Returns
      (IsSubmitted to_text 3 sample_submission sample_exam
        (record { id = 60; lecture_id = 5; enrollment_id = 50 })
        sample_questions
        graded_academy)
      (submit_grading to_text 3 sample_submission UserType.instructor 1 graded_academy)
unfolding validate_instructor_access sorting grade_submission grade_answers check_answer
submit_grading_example =
    submit_grading-Outcome to_text 3 sample_submission UserType.instructor 1 graded_academy
