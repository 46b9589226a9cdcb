-- ===== src/Grades/Saving.antt =====
-- `submitGrading` of src/services/grades.service.ts as a whole: the reads before the checks of the
-- submission, and the writes after them, with `upsertStudentAnswers` and `upsertGrade` of
-- src/repos/grades.repo.ts.
pub mod Targets
pub mod Answers
pub mod Parts
pub mod Submitted
pub mod Outcome
use ssambee_be.Prelude.{
  ℕ, ◌+◌, ◌==◌, Bool, true, false, not, ◌&&◌, Option, none, some, List, [], ◌∷◌, ◌++◌, String,
  find_by, find_unique, update_many,
}
use ssambee_be.Prelude.OrderBy.{OrderBy}
use ssambee_be.Prelude.Action.{
  Result, ok, err, pure, gets, modify, or_throw, throw_if, for_each, not_found, bad_request, ◌>>=◌,
  ◌>>◌,
}
use ssambee_be.Permission.{UserType, LectureEnrollment, validate_instructor_access}
use ssambee_be.Exams.Database.{
  GradingStatus, Lecture, Exam, Question, StudentAnswer, Grade, Academy, Service, permitted,
  transaction,
}
use ssambee_be.Exams.Repo.{find_questions_by_exam_id, update_grading_status}
use ssambee_be.Exams.Access.{exam_or_throw, lecture_or_throw}
use ssambee_be.Grades.{Answer, Grading, target_of, grade_submission}

pub record SubmitGradingDto : Type 0 where
  pub lecture_enrollment_id : ℕ
  pub answers : List Answer
  pub total_score : ℕ
  pub correct_count : ℕ

-- `findByIdWithDetails`.
abbrev pub lecture_enrollment_id_of : LectureEnrollment → ℕ
lecture_enrollment_id_of l = l.id

abbrev pub enrollment_or_throw : ℕ → Service LectureEnrollment
enrollment_or_throw id = do
  found ← gets λ s. find_by lecture_enrollment_id_of id s.school.lecture_enrollments
  or_throw found (not_found "수강 정보를 찾을 수 없습니다.")

-- The checks of the submission neither read nor write the tables.
abbrev pub checked : {A : Type 0} → Grading A → Service A
checked m s = ((m tt).0, s)

-- An answer with the question that it is for.
pub record SavedAnswer : Type 0 where
  pub question_id : ℕ
  pub answer : Answer

pub answers_to_save : List Question → List Answer → Service (List SavedAnswer)
answers_to_save questions [] = pure []
answers_to_save questions (a ∷ answers) = do
  id ←
      or_throw (target_of questions a.question_id a.question_number)
        (bad_request "문항 정보를 찾을 수 없습니다.")
  rest ← answers_to_save questions answers
  pure (record { question_id = id; answer = a } ∷ rest)

abbrev pub is_answer : ℕ → ℕ → StudentAnswer → Bool
is_answer enrollment_id question_id x =
    (x.lecture_enrollment_id == enrollment_id) && (x.question_id == question_id)

abbrev pub set_answer : Answer → StudentAnswer → StudentAnswer
set_answer a x = record x { submitted_answer = a.submitted_answer; is_correct = a.is_correct }

-- `upsert`: the update of the row that is found, or a new row.
abbrev pub put_answer : ℕ → ℕ → SavedAnswer → Option StudentAnswer → Academy → Academy
put_answer lecture_id enrollment_id saved (some _) s = record s {
  student_answers =
      update_many (is_answer enrollment_id saved.question_id) (set_answer saved.answer)
        s.student_answers;
}
put_answer lecture_id enrollment_id saved none s = record s {
  student_answers =
      s.student_answers
      ++ (record {
        id = s.next_id;
        lecture_id = lecture_id;
        lecture_enrollment_id = enrollment_id;
        question_id = saved.question_id;
        submitted_answer = saved.answer.submitted_answer;
        is_correct = saved.answer.is_correct;
      }
          ∷ []);
  next_id = s.next_id + 1;
}

abbrev pub upsert_student_answer : ℕ → ℕ → SavedAnswer → Service (Unit {0})
upsert_student_answer lecture_id enrollment_id saved = modify λ s.
    put_answer lecture_id enrollment_id saved
      (find_unique (is_answer enrollment_id saved.question_id) s.student_answers) s

abbrev pub upsert_student_answers : ℕ → ℕ → List SavedAnswer → Service (Unit {0})
upsert_student_answers lecture_id enrollment_id answers =
    for_each (upsert_student_answer lecture_id enrollment_id) answers

abbrev pub is_grade : ℕ → ℕ → Grade → Bool
is_grade exam_id enrollment_id g =
    (g.exam_id == exam_id) && (g.lecture_enrollment_id == enrollment_id)

abbrev pub set_grade : ℕ → Bool → Grade → Grade
set_grade score is_pass g = record g { score = score; is_pass = is_pass }

abbrev pub put_grade : ℕ → ℕ → ℕ → ℕ → Bool → Option Grade → Service Grade
put_grade lecture_id exam_id enrollment_id score is_pass (some g) s = (
  ok (set_grade score is_pass g),
  record s {
    grades = update_many (is_grade exam_id enrollment_id) (set_grade score is_pass) s.grades;
  },
)
put_grade lecture_id exam_id enrollment_id score is_pass none s =
    let new : Grade = record {
      id = s.next_id;
      lecture_id = lecture_id;
      exam_id = exam_id;
      lecture_enrollment_id = enrollment_id;
      score = score;
      rank = none;
      is_pass = is_pass;
    } in
    (ok new, record s { grades = s.grades ++ (new ∷ []); next_id = s.next_id + 1 })

abbrev pub upsert_grade : ℕ → ℕ → ℕ → ℕ → Bool → Service Grade
upsert_grade lecture_id exam_id enrollment_id score is_pass s =
    put_grade lecture_id exam_id enrollment_id score is_pass
      (find_unique (is_grade exam_id enrollment_id) s.grades) s

abbrev pub is_in_progress : GradingStatus → Bool
is_in_progress GradingStatus.in_progress = true
is_in_progress status = false

abbrev pub start_if : Bool → ℕ → Service (Unit {0})
start_if true exam_id = pure tt
start_if false exam_id = update_grading_status exam_id GradingStatus.in_progress

-- The transaction, after the checks have found the score and whether it passes.
abbrev pub save_submission :
    ℕ → Exam → LectureEnrollment → List Question → SubmitGradingDto → ℕ × Bool → Service Grade
save_submission exam_id exam enrollment questions dto result = do
  current ← exam_or_throw exam_id
  start_if (is_in_progress current.grading_status) exam_id
  answers ← answers_to_save questions dto.answers
  upsert_student_answers exam.lecture_id enrollment.id answers
  upsert_grade exam.lecture_id exam_id dto.lecture_enrollment_id result.0 result.1

module _ ⦃o : OrderBy⦄ (to_text : ℕ → String) (exam_id : ℕ) (dto : SubmitGradingDto) where
  abbrev pub grade_and_save : Exam → LectureEnrollment → List Question → Service Grade
  grade_and_save exam enrollment questions = do
    result ← checked (
        grade_submission questions to_text dto.answers dto.total_score dto.correct_count
          exam.cutoff_score)
    transaction (save_submission exam_id exam enrollment questions dto result)

  abbrev pub submit_for : Exam → LectureEnrollment → Service Grade
  submit_for exam enrollment = do
    throw_if (not (enrollment.lecture_id == exam.lecture_id))
        (bad_request "해당 시험이 속한 강의의 수강생이 아닙니다.")
    questions ← find_questions_by_exam_id exam_id
    grade_and_save exam enrollment questions

  abbrev pub submit_if_permitted : UserType → ℕ → Exam → Lecture → Service Grade
  submit_if_permitted user_type profile_id exam lecture = do
    permitted (validate_instructor_access lecture.instructor_id user_type profile_id)
    enrollment ← enrollment_or_throw dto.lecture_enrollment_id
    submit_for exam enrollment

  abbrev pub submit_exam : UserType → ℕ → Exam → Service Grade
  submit_exam user_type profile_id exam = do
    lecture ← lecture_or_throw exam.lecture_id
    submit_if_permitted user_type profile_id exam lecture

  pub submit_grading : UserType → ℕ → Service Grade
  submit_grading user_type profile_id = do
    exam ← exam_or_throw exam_id
    submit_exam user_type profile_id exam
