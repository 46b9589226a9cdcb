-- ===== src/Grades/Saving/Outcome.antt =====
-- `submitGrading` as a whole, on every branch.
use ssambee_be.Prelude.{
  ℕ, ◌==◌, ◌≡◌, refl, ap, sym, subst, ◌∙◌, Bool, true, false, not, Option, none, some, List, [],
  String, leb, find_by, find_many,
}
use ssambee_be.Prelude.OrderBy.{OrderBy, order_by}
use ssambee_be.Prelude.Action.{
  Result, ok, err, not_found, bad_request, throw_if, or_throw, Returns, bind_ok, bind_err, ◌>>=◌,
}
use ssambee_be.Permission.{UserType, LectureEnrollment, validate_instructor_access}
use ssambee_be.Exams.Database.{
  Lecture, Exam, Question, Grade, Academy, Service, permitted, transaction,
}
use ssambee_be.Exams.Access.{
  find_exam, find_lecture, exam_or_throw, lecture_or_throw, exam_or_throw_lem, lecture_or_throw_lem,
  verdict, permitted_instructor, transaction-Returns,
}
use ssambee_be.Exams.Repo.{of_exam, find_questions_by_exam_id}
use ssambee_be.Grades.{Grading, grade_submission}
use ssambee_be.Grades.Submission.{IsAccepted, grade_submission-IsAccepted}
use ssambee_be.Grades.Acceptance.{AreGradable}
use ssambee_be.Grades.Saving.{
  SubmitGradingDto, lecture_enrollment_id_of, enrollment_or_throw, checked, save_submission,
  grade_and_save, submit_for, submit_if_permitted, submit_exam, submit_grading,
}
use ssambee_be.Grades.Saving.Parts.{of_ok, accepted-AreGradable}
use ssambee_be.Grades.Saving.Submitted.{IsSubmitted, save-IsSubmitted}

abbrev pub questions_of : ⦃o : OrderBy⦄ → ℕ → Academy → List Question
questions_of exam_id s =
    order_by (λ (q r : Question). leb q.question_number r.question_number)
      (find_many (of_exam exam_id) s.questions)

abbrev pub find_enrollment : ℕ → Academy → Option LectureEnrollment
find_enrollment id s = find_by lecture_enrollment_id_of id s.school.lecture_enrollments

module _ ⦃o : OrderBy⦄ (to_text : ℕ → String) (exam_id : ℕ) (dto : SubmitGradingDto)
    (user_type : UserType) (profile_id : ℕ) (s : Academy) where
  abbrev pub run : Result Grade × Academy
  run = submit_grading to_text exam_id dto user_type profile_id s

  -- What the checks of the submission say.
  abbrev pub graded : Exam → Result (ℕ × Bool)
  graded exam =
      (grade_submission (questions_of exam_id s) to_text dto.answers dto.total_score
        dto.correct_count exam.cutoff_score tt).0

  abbrev pub Graded : Exam → LectureEnrollment → Result (ℕ × Bool) → Type 0
  Graded exam enrollment (err e) = run ≡ (err e, s)
  Graded exam enrollment (ok _) =
      Returns (IsSubmitted to_text exam_id dto exam enrollment (questions_of exam_id s) s) run

  abbrev pub Attending : Exam → LectureEnrollment → Bool → Type 0
  Attending exam enrollment false = run ≡ (err (bad_request "해당 시험이 속한 강의의 수강생이 아닙니다."), s)
  Attending exam enrollment true = Graded exam enrollment (graded exam)

  abbrev pub OfEnrollment : Exam → Option LectureEnrollment → Type 0
  OfEnrollment exam none = run ≡ (err (not_found "수강 정보를 찾을 수 없습니다."), s)
  OfEnrollment exam (some enrollment) =
      Attending exam enrollment (enrollment.lecture_id == exam.lecture_id)

  abbrev pub Permitted : Exam → Result (Unit {0}) → Type 0
  Permitted exam (err e) = run ≡ (err e, s)
  Permitted exam (ok _) = OfEnrollment exam (find_enrollment dto.lecture_enrollment_id s)

  abbrev pub OfLecture : Exam → Option Lecture → Type 0
  OfLecture exam none = run ≡ (err (not_found "강의를 찾을 수 없습니다."), s)
  OfLecture exam (some lecture) =
      Permitted exam (verdict lecture.instructor_id user_type profile_id s)

  abbrev pub Outcome : Option Exam → Type 0
  Outcome none = run ≡ (err (not_found "시험을 찾을 수 없습니다."), s)
  Outcome (some exam) = OfLecture exam (find_lecture exam.lecture_id s)

  abbrev submission : Exam → Grading (ℕ × Bool)
  submission exam =
      grade_submission (questions_of exam_id s) to_text dto.answers dto.total_score
        dto.correct_count exam.cutoff_score

  abbrev save : Exam → LectureEnrollment → ℕ × Bool → Service Grade
  save exam enrollment result =
      transaction (save_submission exam_id exam enrollment (questions_of exam_id s) dto result)

  by_grade :
      (exam : Exam) (enrollment : LectureEnrollment) (r : Result (ℕ × Bool))
      → find_exam exam_id s ≡ some exam
      → graded exam ≡ r
      → run ≡ grade_and_save to_text exam_id dto exam enrollment (questions_of exam_id s) s
      → Graded exam enrollment r
  by_grade exam enrollment (err e) found g p =
      p
      ∙ bind_err (checked (submission exam)) (save exam enrollment) s
          (ap (λ (r : Result (ℕ × Bool)). (r, s)) g)
  by_grade exam enrollment (ok result) found g p =
      subst (Returns (IsSubmitted to_text exam_id dto exam enrollment (questions_of exam_id s) s))
        (sym (
          p
          ∙ bind_ok (checked (submission exam)) (save exam enrollment) s
              (ap (λ (r : Result (ℕ × Bool)). (r, s)) g)))
        (transaction-Returns
          (IsSubmitted to_text exam_id dto exam enrollment (questions_of exam_id s) s)
          (save_submission exam_id exam enrollment (questions_of exam_id s) dto result) s
          (save-IsSubmitted to_text exam_id dto exam enrollment (questions_of exam_id s) result s
            (of_ok
              (IsAccepted (questions_of exam_id s) to_text dto.answers dto.total_score
                dto.correct_count exam.cutoff_score)
              (submission exam tt) g
              (grade_submission-IsAccepted (questions_of exam_id s) to_text dto.answers
                dto.total_score dto.correct_count exam.cutoff_score))
            (of_ok (λ _. AreGradable (questions_of exam_id s) dto.answers []) (submission exam tt) g
              (accepted-AreGradable (questions_of exam_id s) to_text dto.answers dto.total_score
                dto.correct_count exam.cutoff_score))
            found))

  by_lecture_of :
      (exam : Exam) (enrollment : LectureEnrollment) (b : Bool)
      → find_exam exam_id s ≡ some exam
      → (enrollment.lecture_id == exam.lecture_id) ≡ b
      → run ≡ submit_for to_text exam_id dto exam enrollment s
      → Attending exam enrollment b
  by_lecture_of exam enrollment b found same p = go b (
      p
      ∙ ap
          (λ (b : Bool).
            (throw_if {S = Academy} (not b) (bad_request "해당 시험이 속한 강의의 수강생이 아닙니다.") >>= λ _.
            find_questions_by_exam_id exam_id
            >>= grade_and_save to_text exam_id dto exam enrollment)
              s)
          same)
    where
      go :
          (b : Bool)
          → run
            ≡ (throw_if {S = Academy} (not b) (bad_request "해당 시험이 속한 강의의 수강생이 아닙니다.") >>= λ _.
                  find_questions_by_exam_id exam_id
                  >>= grade_and_save to_text exam_id dto exam enrollment)
                s
          → Attending exam enrollment b
      go false q = q
      go true q = by_grade exam enrollment (graded exam) found refl q

  by_enrollment :
      (exam : Exam) (o : Option LectureEnrollment)
      → find_exam exam_id s ≡ some exam
      → find_enrollment dto.lecture_enrollment_id s ≡ o
      → run
        ≡ (enrollment_or_throw dto.lecture_enrollment_id >>= submit_for to_text exam_id dto exam) s
      → OfEnrollment exam o
  by_enrollment exam o found there p = go o (
      p
      ∙ ap
          (λ (o : Option LectureEnrollment).
            (or_throw {S = Academy} o (not_found "수강 정보를 찾을 수 없습니다.")
                >>= submit_for to_text exam_id dto exam)
              s)
          there)
    where
      go :
          (o : Option LectureEnrollment)
          → run
            ≡ (or_throw {S = Academy} o (not_found "수강 정보를 찾을 수 없습니다.")
                  >>= submit_for to_text exam_id dto exam)
                s
          → OfEnrollment exam o
      go none q = q
      go (some enrollment) q = by_lecture_of exam enrollment _ found refl q

  by_verdict :
      (exam : Exam) (lecture : Lecture) (r : Result (Unit {0}))
      → find_exam exam_id s ≡ some exam
      → verdict lecture.instructor_id user_type profile_id s ≡ r
      → run ≡ submit_if_permitted to_text exam_id dto user_type profile_id exam lecture s
      → Permitted exam r
  by_verdict exam lecture (err x) found e p =
      p
      ∙ bind_err (permitted (validate_instructor_access lecture.instructor_id user_type profile_id))
          (λ _.
            enrollment_or_throw dto.lecture_enrollment_id >>= submit_for to_text exam_id dto exam)
          s (permitted_instructor lecture.instructor_id user_type profile_id s (err x) e)
  by_verdict exam lecture (ok t) found e p =
      by_enrollment exam (find_enrollment dto.lecture_enrollment_id s) found refl (
        p
        ∙ bind_ok
            (permitted (validate_instructor_access lecture.instructor_id user_type profile_id))
            (λ _.
              enrollment_or_throw dto.lecture_enrollment_id >>= submit_for to_text exam_id dto exam)
            s (permitted_instructor lecture.instructor_id user_type profile_id s (ok t) e))

  by_lecture :
      (exam : Exam) (o : Option Lecture)
      → find_exam exam_id s ≡ some exam
      → find_lecture exam.lecture_id s ≡ o
      → run ≡ submit_exam to_text exam_id dto user_type profile_id exam s
      → OfLecture exam o
  by_lecture exam none found of p =
      p
      ∙ bind_err (lecture_or_throw exam.lecture_id)
          (submit_if_permitted to_text exam_id dto user_type profile_id exam) s
          (lecture_or_throw_lem exam.lecture_id s none of)
  by_lecture exam (some lecture) found of p =
      by_verdict exam lecture (verdict lecture.instructor_id user_type profile_id s) found refl (
        p
        ∙ bind_ok (lecture_or_throw exam.lecture_id)
            (submit_if_permitted to_text exam_id dto user_type profile_id exam) s
            (lecture_or_throw_lem exam.lecture_id s (some lecture) of))

  -- A submission for an exam, a lecture or an enrollment that is not there, by a user who may not
  -- work on the lecture, of a student of another lecture, or one that the checks refuse, is refused
  -- with nothing changed. Otherwise the call returns: the grade that is returned is the one that is
  -- then read for the student and the exam, with the total that was sent, which is the one of the
  -- correct answers, and whether it passes; each answer is read back under its question as it was
  -- sent; the exam is in progress; and no other grade, answer or exam and nothing else changes.
  pub submit_grading-Outcome : Outcome (find_exam exam_id s)
  unfolding submit_grading
  submit_grading-Outcome = by_exam (find_exam exam_id s) refl
    where
      by_exam : (o : Option Exam) → find_exam exam_id s ≡ o → Outcome o
      by_exam none e =
          bind_err (exam_or_throw exam_id) (submit_exam to_text exam_id dto user_type profile_id) s
            (exam_or_throw_lem exam_id s none e)
      by_exam (some exam) e = by_lecture exam (find_lecture exam.lecture_id s) e refl (
          bind_ok (exam_or_throw exam_id) (submit_exam to_text exam_id dto user_type profile_id) s
            (exam_or_throw_lem exam_id s (some exam) e))
