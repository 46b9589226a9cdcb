-- ===== src/Grades/Submission.antt =====
-- What `submitGrading` accepts from the client, of src/services/grades.service.ts.
use ssambee_be.Prelude.{
  ℕ, ◌==◌, ==_iff, ◌≡◌, ◌≤◌, refl, ap, Bool, true, false, not, List, [], String, leb, arith, All,
  sum_by,
}
use ssambee_be.Prelude.Action.{Exception, Ensures, throw_if, pure, ◌>>=◌}
use ssambee_be.Exams.Database.{Question}
use ssambee_be.Grades.{
  Answer, Grading, grade_answers, grade_submission, check_totals, wrong_total, wrong_count,
}
use ssambee_be.Grades.Scores.{
  Ensures-bind, question_of, earned, correct_one, IsHonest, IsGraded, grade-IsGraded,
}

-- What follows a test of two numbers may use that they are equal.
throw_if-not :
    {B : Type 0} (Q : B → Type 0) (a b : ℕ) (e : Exception) (m : Grading B) (s : Unit {0})
    → (a ≡ b → Ensures (λ r _. Q r) (m s))
    → Ensures (λ r _. Q r) ((throw_if (not (a == b)) e >>= λ _. m) s)
throw_if-not {B} Q a b e m s k = go (a == b) refl
  where
    go : (c : Bool) → (a == b) ≡ c → Ensures (λ r _. Q r) ((throw_if (not c) e >>= λ _. m) s)
    go true h = k ((==_iff a b).0 h)
    go false h = tt

module _ (questions : List Question) (to_text : ℕ → String) where
  pub record IsAccepted (answers : List Answer) (total_score correct_count cutoff_score : ℕ)
      (r : ℕ × Bool) : Type 0 where
    pub score_is : r.0 ≡ total_score
    pub pass_is : r.1 ≡ leb cutoff_score total_score
    pub total_is : total_score ≡ sum_by (λ a. earned questions (question_of questions a) a) answers
    pub count_is :
        correct_count ≡ sum_by (λ a. correct_one questions (question_of questions a) a) answers
    pub honest : All (λ a. IsHonest questions (question_of questions a) a) answers
    pub bounded : total_score ≤ sum_by (λ q. q.score) questions

  accepted :
      (answers : List Answer) (total_score correct_count cutoff_score : ℕ) (graded : ℕ × ℕ)
      → IsGraded questions to_text answers [] 0 0 graded
      → graded.0 ≡ total_score
      → graded.1 ≡ correct_count
      → IsAccepted answers total_score correct_count cutoff_score
          (graded.0, leb cutoff_score graded.0)
  accepted answers total_score correct_count cutoff_score graded found same_total same_count =
      record {
        score_is = same_total;
        pass_is = ap (leb cutoff_score) same_total;
        total_is = omega (arith, same_total, found.total_is);
        count_is = omega (arith, same_count, found.count_is);
        honest = found.honest;
        bounded = omega (arith, same_total, found.bounded);
      }

  -- Whenever the grading of a submission returns, the total that the client sent is the sum of the
  -- scores of the questions whose answers are correct, its count is the number of them, every mark
  -- of the client is the server's, the total is at most the sum of the scores of all the questions,
  -- and what is returned is that total and whether it reaches the score that passes.
  pub grade_submission-IsAccepted :
      (answers : List Answer) (total_score correct_count cutoff_score : ℕ)
      → Ensures
          (λ r _. IsAccepted answers total_score correct_count cutoff_score r)
          (grade_submission questions to_text answers total_score correct_count cutoff_score tt)
  unfolding grade_submission
  grade_submission-IsAccepted answers total_score correct_count cutoff_score =
      Ensures-bind (IsGraded questions to_text answers [] 0 0)
        (IsAccepted answers total_score correct_count cutoff_score)
        (grade_answers questions to_text answers [] 0 0)
        (check_totals questions to_text total_score correct_count cutoff_score) tt
        (grade-IsGraded questions to_text answers [] 0 0)
        λ graded s found.
          throw_if-not (IsAccepted answers total_score correct_count cutoff_score) graded.0
            total_score (wrong_total questions to_text graded.0 total_score)
            (throw_if (not (graded.1 == correct_count))
                (wrong_count questions to_text graded.1 correct_count)
              >>= λ _. pure (graded.0, leb cutoff_score graded.0))
            s
            λ same_total.
              throw_if-not (IsAccepted answers total_score correct_count cutoff_score) graded.1
                correct_count (wrong_count questions to_text graded.1 correct_count)
                (pure (graded.0, leb cutoff_score graded.0)) s
                λ same_count.
                  accepted answers total_score correct_count cutoff_score graded found same_total
                    same_count
