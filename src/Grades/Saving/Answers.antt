-- ===== src/Grades/Saving/Answers.antt =====
-- The rows that `upsertStudentAnswers` and `upsertGrade` of src/repos/grades.repo.ts leave.
use ssambee_be.Prelude.{
  ℕ, ◌==◌, ==_self, ==_ne, ◌≡◌, ◌≢◌, refl, ap, sym, subst, ◌∙◌, Bool, true, false, ◌&&◌, Option,
  none, some, List, arith, HasDistinct, find_unique, find_unique-append,
}
use ssambee_be.Prelude.Finds.{
  find_unique-update_self, find_unique-update_other, find_unique-append_other,
}
use ssambee_be.Prelude.Keyed.{IsPut, ArePut, put_loop}
use ssambee_be.Prelude.Action.{Returns}
use ssambee_be.Exams.Database.{StudentAnswer, Grade, Academy}
use ssambee_be.Grades.{Answer}
use ssambee_be.Grades.Saving.{
  SavedAnswer, is_answer, set_answer, put_answer, upsert_student_answer, upsert_student_answers,
  is_grade, set_grade, put_grade, upsert_grade,
}
use ssambee_be.Grades.Saving.Targets.{saved_id}

-- The row holds what the answer says.
abbrev pub HoldsAnswer : Answer → Option StudentAnswer → Type 0
HoldsAnswer a o =
    (row : StudentAnswer) × (o ≡ some row)
    × (row.submitted_answer ≡ a.submitted_answer)
    × (row.is_correct ≡ a.is_correct)

abbrev pub Holds : SavedAnswer → Option StudentAnswer → Type 0
Holds x = HoldsAnswer x.answer

abbrev pub OnlyAnswers : Academy → Academy → Type 0
OnlyAnswers s t = t ≡ record s { student_answers = t.student_answers; next_id = t.next_id }

OnlyAnswers-trans : (s t u : Academy) → OnlyAnswers s t → OnlyAnswers t u → OnlyAnswers s u
OnlyAnswers-trans s t u f g =
    g
    ∙ ap (λ (v : Academy). record v { student_answers = u.student_answers; next_id = u.next_id }) f

-- The answer of a student to a question.
abbrev pub answer_at : ℕ → ℕ → Academy → Option StudentAnswer
answer_at enrollment_id question_id s =
    find_unique (is_answer enrollment_id question_id) s.student_answers

abbrev pub AreSaved : ℕ → List SavedAnswer → Academy → Academy → Type 0
AreSaved enrollment_id = ArePut saved_id (answer_at enrollment_id) Holds OnlyAnswers

module _ (lecture_id enrollment_id : ℕ) where
  upsert-IsPut :
      (x : SavedAnswer) (s : Academy)
      → Returns
          (λ _ t. IsPut saved_id (answer_at enrollment_id) Holds OnlyAnswers x s t)
          (upsert_student_answer lecture_id enrollment_id x s)
  upsert-IsPut x s = go (answer_at enrollment_id x.question_id s) refl
    where
      apart : (k : ℕ) → k ≢ x.question_id → (x.question_id == k) ≡ false
      apart k other = ==_ne x.question_id k (λ e. other (sym e))

      go :
          (o : Option StudentAnswer)
          → answer_at enrollment_id x.question_id s ≡ o
          → IsPut saved_id
              (answer_at enrollment_id)
              Holds
              OnlyAnswers
              x
              s
              (put_answer lecture_id enrollment_id x (answer_at enrollment_id x.question_id s) s)
      go none e =
          subst
            (λ o.
              IsPut saved_id (answer_at enrollment_id) Holds OnlyAnswers x s
                (put_answer lecture_id enrollment_id x o s))
            (sym e)
            (let new : StudentAnswer = record {
              id = s.next_id;
              lecture_id = lecture_id;
              lecture_enrollment_id = enrollment_id;
              question_id = x.question_id;
              submitted_answer = x.answer.submitted_answer;
              is_correct = x.answer.is_correct;
            } in
              record {
                frame = refl;
                this = (
                  new,
                  find_unique-append (is_answer enrollment_id x.question_id) s.student_answers new e
                      (rw (==_self enrollment_id, ==_self x.question_id) refl),
                  refl,
                  refl,
                );
                others = λ k other.
                    find_unique-append_other (is_answer enrollment_id k) s.student_answers new
                      (rw (==_self enrollment_id, apart k other) refl);
              })
      go (some row) e =
          subst
            (λ o.
              IsPut saved_id (answer_at enrollment_id) Holds OnlyAnswers x s
                (put_answer lecture_id enrollment_id x o s))
            (sym e)
            (record {
              frame = refl;
              this = (
                set_answer x.answer row,
                find_unique-update_self (is_answer enrollment_id x.question_id)
                    (set_answer x.answer) s.student_answers (λ y. refl) e,
                refl,
                refl,
              );
              others = λ k other.
                  find_unique-update_other (is_answer enrollment_id x.question_id)
                    (is_answer enrollment_id k) (set_answer x.answer) s.student_answers
                    (λ y h. ground (arith, apart k other)) (λ y h. ground (arith, apart k other));
            })

  pub upsert-AreSaved :
      (saved : List SavedAnswer) (s : Academy)
      → HasDistinct saved_id saved
      → Returns
          (λ _ t. AreSaved enrollment_id saved s t)
          (upsert_student_answers lecture_id enrollment_id saved s)
  upsert-AreSaved saved s distinct =
      put_loop saved_id (answer_at enrollment_id) Holds OnlyAnswers (λ s. refl) OnlyAnswers-trans
        (upsert_student_answer lecture_id enrollment_id) upsert-IsPut saved s distinct

-- The grade of a student for an exam.
abbrev pub grade_at : ℕ → ℕ → Academy → Option Grade
grade_at exam_id enrollment_id s = find_unique (is_grade exam_id enrollment_id) s.grades

-- The grade that is returned is the one in the table, with the score and whether it passes; no
-- other grade changes.
pub record IsGradeSaved (exam_id enrollment_id score : ℕ) (is_pass : Bool) (s : Academy) (g : Grade)
    (t : Academy) : Type 0 where
  pub stored : grade_at exam_id enrollment_id t ≡ some g
  pub score_is : g.score ≡ score
  pub pass_is : g.is_pass ≡ is_pass
  pub others :
      (e l : ℕ) → ((e == exam_id) && (l == enrollment_id)) ≡ false → grade_at e l t ≡ grade_at e l s
  pub frame : t ≡ record s { grades = t.grades; next_id = t.next_id }

module _ (lecture_id exam_id enrollment_id score : ℕ) (is_pass : Bool) where
  pub upsert-IsGradeSaved :
      (s : Academy)
      → Returns
          (IsGradeSaved exam_id enrollment_id score is_pass s)
          (upsert_grade lecture_id exam_id enrollment_id score is_pass s)
  upsert-IsGradeSaved s = go (grade_at exam_id enrollment_id s) refl
    where
      apart :
          (e l : ℕ) (g : Grade)
          → ((e == exam_id) && (l == enrollment_id)) ≡ false
          → is_grade exam_id enrollment_id g ≡ true
          → is_grade e l g ≡ false
      apart e l g other h = ground arith

      go :
          (o : Option Grade)
          → grade_at exam_id enrollment_id s ≡ o
          → Returns (IsGradeSaved exam_id enrollment_id score is_pass s) (
              put_grade lecture_id exam_id enrollment_id score is_pass
                (grade_at exam_id enrollment_id s)
                s)
      go none e =
          subst
            (λ o.
              Returns (IsGradeSaved exam_id enrollment_id score is_pass s)
                (put_grade lecture_id exam_id enrollment_id score is_pass o s))
            (sym e)
            (let new : Grade = record {
              id = s.next_id;
              lecture_id = lecture_id;
              exam_id = exam_id;
              lecture_enrollment_id = enrollment_id;
              score = score;
              rank = none;
              is_pass = is_pass;
            } in
              let here : is_grade exam_id enrollment_id new ≡ true =
                rw (==_self exam_id, ==_self enrollment_id) refl in
              record {
                stored = find_unique-append (is_grade exam_id enrollment_id) s.grades new e here;
                score_is = refl;
                pass_is = refl;
                others = λ e l other.
                    find_unique-append_other (is_grade e l) s.grades new (apart e l new other here);
                frame = refl;
              })
      go (some g) e =
          subst
            (λ o.
              Returns (IsGradeSaved exam_id enrollment_id score is_pass s)
                (put_grade lecture_id exam_id enrollment_id score is_pass o s))
            (sym e)
            (record {
              stored =
                  find_unique-update_self (is_grade exam_id enrollment_id) (set_grade score is_pass)
                    s.grades (λ y. refl) e;
              score_is = refl;
              pass_is = refl;
              others = λ e l other.
                  find_unique-update_other (is_grade exam_id enrollment_id) (is_grade e l)
                    (set_grade score is_pass) s.grades (λ y. apart e l y other)
                    (λ y. apart e l y other);
              frame = refl;
            })
