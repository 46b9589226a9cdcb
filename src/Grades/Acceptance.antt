-- ===== src/Grades/Acceptance.antt =====
-- What a submission must be for `submitGrading` of src/services/grades.service.ts to accept it.
use ssambee_be.Prelude.{
  ℕ, ◌+◌, ◌==◌, ==_iff, ◌≡◌, refl, ap, sym, subst, Bool, true, false, not, ◌&&◌, Option, none, some,
  inl, inr, List, [], ◌∷◌, String, if◌then◌else◌, leb, arith, sum_by,
}
use ssambee_be.Prelude.Exists.{includes, last_found_sound}
use ssambee_be.Prelude.Action.{Result, ok, err, Returns, Returns-step, Returns-bind, Ensures}
use ssambee_be.Exams.Database.{Question, is_essay}
use ssambee_be.Grades.{
  Answer, Grading, target_of, is_actually_correct, same_bool, check_answer, grade_answers,
  grade_submission, check_totals,
}
use ssambee_be.Grades.Scores.{
  question_at, question_of, earned, correct_one, IsGraded, grade-IsGraded,
}

same_self : (b : Bool) → same_bool b b ≡ true
same_self true = refl
same_self false = refl

and_false : (b : Bool) → (b && false) ≡ false
and_false true = refl
and_false false = refl

returned :
    {A : Type 0} (P : A → Type 0) (r : Result A × Unit {0})
    → Returns (λ _ _. Unit) r
    → Ensures (λ a _. P a) r
    → Returns (λ a _. P a) r
returned P (ok a, s) h k = k
returned P (err e, s) h k = absurd h

module _ (questions : List Question) where
  -- Every answer is for a question of the exam that none before it was for, and has the mark that
  -- the server gives it.
  abbrev pub AreGradable : List Answer → List ℕ → Type 0
  AreGradable [] seen = Unit
  AreGradable (a ∷ answers) seen =
      (q : Question) × (question_of questions a ≡ some q)
      × (includes q.id seen ≡ false)
      × (a.is_correct ≡ is_actually_correct questions q a)
      × AreGradable answers (q.id ∷ seen)

  module _ (to_text : ℕ → String) where
    check-passes :
        (seen : List ℕ) (a : Answer) (q : Question) (t : Option ℕ)
        → target_of questions a.question_id a.question_number ≡ t
        → question_at questions t ≡ some q
        → includes q.id seen ≡ false
        → a.is_correct ≡ is_actually_correct questions q a
        → check_answer questions to_text seen a tt ≡ (ok q, tt)
    unfolding check_answer
    check-passes seen a q none target found unseen mark = cc
    check-passes seen a q (some id) target found unseen mark =
        let same : q.id ≡ id =
          elim (last_found_sound (λ (r : Question). r.id == id) questions none {x = q} found) [
            | inl e ↦ cc
            | inr (i, e) ↦ (==_iff q.id id).0 e
          ] in
        let unseen_id : includes id seen ≡ false =
          subst (λ k. includes k seen ≡ false) same unseen in
        let honest : (not (is_essay q)
              && not (same_bool a.is_correct (is_actually_correct questions q a)))
            ≡ false =
          subst
            (λ b.
              (not (is_essay q) && not (same_bool b (is_actually_correct questions q a))) ≡ false)
            (sym mark)
            (rw (same_self (is_actually_correct questions q a)) (and_false (not (is_essay q)))) in
        rw (target, found, unseen_id, honest) refl

    loop-Returns :
        (answers : List Answer) (seen : List ℕ) (total count : ℕ)
        → AreGradable answers seen
        → Returns (λ _ _. Unit) (grade_answers questions to_text answers seen total count tt)
    unfolding grade_answers
    loop-Returns [] seen total count h = tt
    loop-Returns (a ∷ answers) seen total count (q, found, unseen, mark, rest) =
        Returns-step (λ _ _. Unit) (check_answer questions to_text seen a) go_on tt
          (check-passes seen a q _ refl found unseen mark)
          (loop-Returns answers (q.id ∷ seen)
            (if is_actually_correct questions q a then total + q.score else total)
            (if is_actually_correct questions q a then count + 1 else count) rest)
      where
        go_on : Question → Grading (ℕ × ℕ)
        go_on q =
            grade_answers questions to_text answers (q.id ∷ seen)
              (if is_actually_correct questions q a then total + q.score else total)
              (if is_actually_correct questions q a then count + 1 else count)

    totals-pass :
        (total_score correct_count cutoff_score : ℕ) (graded : ℕ × ℕ) (s : Unit {0})
        → graded.0 ≡ total_score
        → graded.1 ≡ correct_count
        → Returns
            (λ r _. r ≡ (total_score, leb cutoff_score total_score))
            (check_totals questions to_text total_score correct_count cutoff_score graded s)
    totals-pass total_score correct_count cutoff_score graded s same_total same_count =
        rw
          ((==_iff graded.0 total_score).1 same_total, (==_iff graded.1 correct_count).1 same_count)
          (ap (λ n. (n, leb cutoff_score n)) same_total)

    -- A submission is accepted when every answer is for a question of the exam that no answer
    -- before it was for and has the mark of the server, and when the total and the count are those
    -- of the correct answers; then what is returned is the total and whether it reaches the score
    -- that passes.
    pub grade_submission-Returns :
        (answers : List Answer) (total_score correct_count cutoff_score : ℕ)
        → AreGradable answers []
        → total_score ≡ sum_by (λ a. earned questions (question_of questions a) a) answers
        → correct_count ≡ sum_by (λ a. correct_one questions (question_of questions a) a) answers
        → Returns
            (λ r _. r ≡ (total_score, leb cutoff_score total_score))
            (grade_submission questions to_text answers total_score correct_count cutoff_score tt)
    unfolding grade_submission
    grade_submission-Returns answers total_score correct_count cutoff_score gradable total count =
        Returns-bind (λ r _. IsGraded questions to_text answers [] 0 0 r)
          (λ r _. r ≡ (total_score, leb cutoff_score total_score))
          (grade_answers questions to_text answers [] 0 0)
          (check_totals questions to_text total_score correct_count cutoff_score) tt
          (returned (IsGraded questions to_text answers [] 0 0)
            (grade_answers questions to_text answers [] 0 0 tt)
            (loop-Returns answers [] 0 0 gradable)
            (grade-IsGraded questions to_text answers [] 0 0))
          λ graded s found.
            totals-pass total_score correct_count cutoff_score graded s
              (omega (arith, total, found.total_is)) (omega (arith, count, found.count_is))
