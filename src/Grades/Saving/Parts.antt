-- ===== src/Grades/Saving/Parts.antt =====
-- Parts of the proof about `submitGrading`: the exam that it starts, the answers under their
-- questions, and what an accepted submission has.
use ssambee_be.Prelude.{
  ℕ, ◌==◌, ◌≡◌, ◌≢◌, refl, ap, sym, subst, ◌∙◌, false, Option, some, List, [], ◌∷◌, String, All,
  IsFree, map, update_many, find_by-update_self, find_by-update_ne,
}
use ssambee_be.Prelude.Action.{
  Result, ok, err, record_not_found, or_throw, modify, Ensures, Returns, ◌>>=◌,
}
use ssambee_be.Exams.Database.{GradingStatus, Exam, Question, Academy}
use ssambee_be.Exams.Access.{exam_id_of, find_exam}
use ssambee_be.Grades.{Answer, grade_submission, grade_answers, check_totals}
use ssambee_be.Grades.Scores.{Ensures-bind}
use ssambee_be.Grades.Acceptance.{AreGradable}
use ssambee_be.Grades.Saving.{SavedAnswer, is_in_progress, start_if}
use ssambee_be.Grades.Saving.Targets.{saved_id, grade-AreGradable, IsFor}
use ssambee_be.Grades.Saving.Answers.{HoldsAnswer, Holds, answer_at}

abbrev pub started : Exam → Exam
started exam = record exam { grading_status = GradingStatus.in_progress }

-- The exam is in progress, and no other exam changes.
pub record IsStarted (exam_id : ℕ) (exam : Exam) (s t : Academy) : Type 0 where
  pub this : find_exam exam_id t ≡ some (started exam)
  pub others : (k : ℕ) → k ≢ exam_id → find_exam k t ≡ find_exam k s
  pub frame : t ≡ record s { exams = t.exams }

pub start_if_lem :
    (exam_id : ℕ) (exam : Exam) (s : Academy)
    → find_exam exam_id s ≡ some exam
    → Returns
        (λ _ t. IsStarted exam_id exam s t)
        (start_if (is_in_progress exam.grading_status) exam_id s)
start_if_lem exam_id exam s found = go exam.grading_status refl
  where
    written : Academy → Academy
    written t = record t { exams = update_many (λ (e : Exam). e.id == exam_id) started t.exams }

    wrote : Returns (λ _ t. IsStarted exam_id exam s t) (start_if false exam_id s)
    wrote =
        subst
          (λ (o : Option Exam).
            Returns (λ _ t. IsStarted exam_id exam s t)
              ((or_throw {S = Academy} o record_not_found >>= λ (_ : Exam). modify written) s))
          (sym found)
          (record {
            this = find_by-update_self exam_id_of exam_id started (λ e. refl) s.exams found;
            others =
                λ k other. find_by-update_ne exam_id_of exam_id started (λ e. refl) k s.exams other;
            frame = refl;
          })

    go :
        (status : GradingStatus)
        → exam.grading_status ≡ status
        → Returns (λ _ t. IsStarted exam_id exam s t) (start_if (is_in_progress status) exam_id s)
    go GradingStatus.pending e = wrote
    go GradingStatus.completed e = wrote
    go GradingStatus.in_progress e = record {
      this = found ∙ ap (λ status. some (record exam { grading_status = status })) e;
      others = λ k other. refl;
      frame = refl;
    }

module _ (questions : List Question) (enrollment_id : ℕ) where
  -- The answer is stored under its question.
  abbrev pub IsStored : Academy → Answer → Type 0
  IsStored t a = (id : ℕ) × IsFor questions a id × HoldsAnswer a (answer_at enrollment_id id t)

  pub All-IsStored :
      (saved : List SavedAnswer) (t t' : Academy)
      → ((k : ℕ) → answer_at enrollment_id k t' ≡ answer_at enrollment_id k t)
      → All (λ x. IsFor questions x.answer x.question_id) saved
      → All (λ x. Holds x (answer_at enrollment_id x.question_id t)) saved
      → All (IsStored t') (map (λ (x : SavedAnswer). x.answer) saved)
  All-IsStored [] t t' kept targets h = tt
  All-IsStored (x ∷ saved) t t' kept targets h = (
    (x.question_id, targets.0, subst (HoldsAnswer x.answer) (sym (kept x.question_id)) h.0),
    All-IsStored saved t t' kept targets.1 h.1,
  )

  pub IsFree-of_targets :
      (saved : List SavedAnswer) (k : ℕ)
      → All (λ x. IsFor questions x.answer x.question_id) saved
      → All (λ a. ¬ IsFor questions a k) (map (λ (x : SavedAnswer). x.answer) saved)
      → IsFree saved_id k saved
  IsFree-of_targets [] k targets h = tt
  IsFree-of_targets (x ∷ saved) k targets h =
      ((λ e. h.0 (targets.0 ∙ ap some e)), IsFree-of_targets saved k targets.1 h.1)

-- What follows from any result follows, and what a result ensures.
Ensures-const : {A X : Type 0} (r : Result A × Unit {0}) → X → Ensures (λ _ _. X) r
Ensures-const (ok a, u) x = x
Ensures-const (err e, u) x = tt

pub of_ok :
    {A : Type 0} (P : A → Type 0) (x : Result A × Unit {0}) {r : A}
    → x.0 ≡ ok r
    → Ensures (λ a _. P a) x
    → P r
of_ok {A} P x e h = subst (λ (y : Result A). Ensures (λ a _. P a) (y, x.1)) e h

pub accepted-AreGradable :
    (questions : List Question) (to_text : ℕ → String) (answers : List Answer)
    (total_score correct_count cutoff_score : ℕ)
    → Ensures
        (λ _ _. AreGradable questions answers [])
        (grade_submission questions to_text answers total_score correct_count cutoff_score tt)
unfolding grade_submission
accepted-AreGradable questions to_text answers total_score correct_count cutoff_score =
    Ensures-bind (λ _. AreGradable questions answers []) (λ _. AreGradable questions answers [])
      (grade_answers questions to_text answers [] 0 0)
      (check_totals questions to_text total_score correct_count cutoff_score) tt
      (grade-AreGradable questions to_text answers [] 0 0)
      (λ graded s h.
        Ensures-const
          (check_totals questions to_text total_score correct_count cutoff_score graded s) h)
