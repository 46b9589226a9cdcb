-- ===== src/Grades/Saving/Submitted.antt =====
-- The transaction of `submitGrading`.
use ssambee_be.Prelude.{
  ℕ, ◌==◌, ◌≡◌, ◌≢◌, ap, sym, subst, ◌∙◌, Bool, false, ◌&&◌, some, List, [], String, All,
}
use ssambee_be.Prelude.Action.{Returns, Returns-step, Returns-bind, Returns-map, ◌>>=◌, ◌>>◌}
use ssambee_be.Permission.{LectureEnrollment}
use ssambee_be.Exams.Database.{Exam, Question, Grade, Academy, Service}
use ssambee_be.Exams.Access.{find_exam, exam_or_throw, exam_or_throw_lem}
use ssambee_be.Grades.Submission.{IsAccepted}
use ssambee_be.Grades.Acceptance.{AreGradable}
use ssambee_be.Grades.Saving.{
  SubmitGradingDto, SavedAnswer, answers_to_save, upsert_student_answers, upsert_grade,
  is_in_progress, start_if, save_submission,
}
use ssambee_be.Grades.Saving.Targets.{IsFor, ArePrepared, save-ArePrepared}
use ssambee_be.Grades.Saving.Answers.{
  answer_at, AreSaved, upsert-AreSaved, grade_at, IsGradeSaved, upsert-IsGradeSaved,
}
use ssambee_be.Grades.Saving.Parts.{
  started, IsStarted, start_if_lem, IsStored, All-IsStored, IsFree-of_targets,
}

module _ (to_text : ℕ → String) (exam_id : ℕ) (dto : SubmitGradingDto) (exam : Exam)
    (enrollment : LectureEnrollment) (questions : List Question) where
  -- The submission is one that the checks accept, the grade that is returned is the one in the table,
  -- each answer is stored under its question, the exam is in progress, and nothing else changes.
  pub record IsSubmitted (s : Academy) (g : Grade) (t : Academy) : Type 0 where
    pub accepted :
        IsAccepted questions to_text dto.answers dto.total_score dto.correct_count exam.cutoff_score
          (g.score, g.is_pass)
    pub grade_is : grade_at exam_id dto.lecture_enrollment_id t ≡ some g
    pub other_grades :
        (e l : ℕ)
        → ((e == exam_id) && (l == dto.lecture_enrollment_id)) ≡ false
        → grade_at e l t ≡ grade_at e l s
    pub answers_are : All (IsStored questions enrollment.id t) dto.answers
    pub other_answers :
        (k : ℕ)
        → All (λ a. ¬ IsFor questions a k) dto.answers
        → answer_at enrollment.id k t ≡ answer_at enrollment.id k s
    pub exam_is : find_exam exam_id t ≡ some (started exam)
    pub other_exams : (k : ℕ) → k ≢ exam_id → find_exam k t ≡ find_exam k s
    pub frame : t ≡ record s {
      exams = t.exams;
      student_answers = t.student_answers;
      grades = t.grades;
      next_id = t.next_id;
    }

  module _ (result : ℕ × Bool) (s : Academy) where
    submitted :
        (s1 t2 t : Academy) (g : Grade) (saved : List SavedAnswer)
        → IsAccepted questions to_text dto.answers dto.total_score dto.correct_count
            exam.cutoff_score result
        → IsStarted exam_id exam s s1
        → ArePrepared questions dto.answers [] saved
        → AreSaved enrollment.id saved s1 t2
        → IsGradeSaved exam_id dto.lecture_enrollment_id result.0 result.1 t2 g t
        → IsSubmitted s g t
    submitted s1 t2 t g saved accepted start prepared stored graded =
        let whole : t ≡ record s {
          exams = s1.exams;
          student_answers = t2.student_answers;
          grades = t.grades;
          next_id = t.next_id;
        } =
          graded.frame
          ∙ ap (λ (v : Academy). record v { grades = t.grades; next_id = t.next_id }) stored.frame
          ∙ ap
              (λ (v : Academy). record v {
                student_answers = t2.student_answers;
                grades = t.grades;
                next_id = t.next_id;
              })
              start.frame in
        record {
          accepted =
              subst
                (λ r.
                  IsAccepted questions to_text dto.answers dto.total_score dto.correct_count
                    exam.cutoff_score r)
                (sym (λ i. (graded.score_is i, graded.pass_is i))) accepted;
          grade_is = graded.stored;
          other_grades = λ e l other.
              graded.others e l other
              ∙ ap (λ v. grade_at e l v) stored.frame
              ∙ ap (λ v. grade_at e l v) start.frame;
          answers_are =
              subst (λ answers. All (IsStored questions enrollment.id t) answers)
                prepared.answers_are
                (All-IsStored questions enrollment.id saved t2 t
                  (λ k. ap (λ v. answer_at enrollment.id k v) whole) prepared.targets stored.all);
          other_answers = λ k none_for.
              ap (λ v. answer_at enrollment.id k v) whole
              ∙ stored.others k (
                  IsFree-of_targets questions enrollment.id saved k prepared.targets (
                    subst (λ answers. All (λ a. ¬ IsFor questions a k) answers)
                      (sym prepared.answers_are) none_for))
              ∙ ap (λ v. answer_at enrollment.id k v) start.frame;
          exam_is = ap (λ v. find_exam exam_id v) whole ∙ start.this;
          other_exams = λ k other. ap (λ v. find_exam k v) whole ∙ start.others k other;
          frame =
              whole
              ∙ ap
                  (λ (v : Academy). record s {
                    exams = v.exams;
                    student_answers = v.student_answers;
                    grades = t.grades;
                    next_id = t.next_id;
                  })
                  (sym whole);
        }

    pub save-IsSubmitted :
        IsAccepted questions to_text dto.answers dto.total_score dto.correct_count exam.cutoff_score
          result
        → AreGradable questions dto.answers []
        → find_exam exam_id s ≡ some exam
        → Returns (IsSubmitted s) (save_submission exam_id exam enrollment questions dto result s)
    save-IsSubmitted accepted gradable found =
        Returns-step (IsSubmitted s) (exam_or_throw exam_id) after_exam s
          (exam_or_throw_lem exam_id s (some exam) found)
          (Returns-bind (λ _ t. IsStarted exam_id exam s t) (IsSubmitted s)
            (start_if (is_in_progress exam.grading_status) exam_id) (λ _. prepare) s
            (start_if_lem exam_id exam s found)
            (λ _ s1 start.
              let (saved, run, prepared) = save-ArePrepared questions dto.answers [] s1 gradable in
              Returns-step (IsSubmitted s) (answers_to_save questions dto.answers) write s1 run (
                Returns-bind (λ _ t2. AreSaved enrollment.id saved s1 t2) (IsSubmitted s)
                  (upsert_student_answers exam.lecture_id enrollment.id saved) (λ _. grade) s1
                  (upsert-AreSaved exam.lecture_id enrollment.id saved s1 prepared.distinct)
                  (λ _ t2 stored.
                    Returns-map
                      (IsGradeSaved exam_id dto.lecture_enrollment_id result.0 result.1 t2)
                      (IsSubmitted s) (grade t2)
                      (λ g t graded.
                        submitted s1 t2 t g saved accepted start prepared stored graded)
                      (upsert-IsGradeSaved exam.lecture_id exam_id dto.lecture_enrollment_id
                        result.0 result.1 t2)))))
      where
        grade : Service Grade
        grade = upsert_grade exam.lecture_id exam_id dto.lecture_enrollment_id result.0 result.1

        write : List SavedAnswer → Service Grade
        write saved = upsert_student_answers exam.lecture_id enrollment.id saved >> grade

        prepare : Service Grade
        prepare = answers_to_save questions dto.answers >>= write

        after_exam : Exam → Service Grade
        after_exam current = start_if (is_in_progress current.grading_status) exam_id >> prepare
