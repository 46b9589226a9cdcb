-- ===== src/Grades.antt =====
-- The grading of an exam in `submitGrading` of src/services/grades.service.ts: what the client has
-- marked is checked against the questions. Saving has the reads before and the writes after it.
pub mod Scores
pub mod Submission
pub mod Acceptance
pub mod Saving
pub mod Tests
use text.Mathlib.Text.{◌==◌ as str_eq}
use Prim.Native.String.{◌++◌}
use ssambee_be.Prelude.{
  ℕ, ◌+◌, ◌==◌, Bool, true, false, not, ◌&&◌, Option, none, some, List, [], ◌∷◌, String,
  if◌then◌else◌, leb, find_unique,
}
use ssambee_be.Prelude.Exists.{includes, last_found}
use ssambee_be.Exams.Database.{Question, is_essay}
use ssambee_be.Prelude.Action.{
  Action, Exception, pure, throw, or_throw, throw_if, bad_request, ◌>>=◌, ◌>>◌,
}

-- `question_id` is none where the source's is missing or empty.
pub record Answer : Type 0 where
  pub question_id : Option ℕ
  pub question_number : Option ℕ
  pub submitted_answer : String
  pub is_correct : Bool

abbrev pub Grading : Type 0 → Type 0
Grading = Action (Unit {0})

abbrev pub id_of : Option Question → Option ℕ
id_of none = none
id_of (some q) = some q.id

abbrev pub same_bool : Bool → Bool → Bool
same_bool true b = b
same_bool false b = not b

module _ (questions : List Question) where
  -- `questionNumberMap.get`, and `questionMap.get`.
  abbrev pub question_with_number : ℕ → Option Question
  question_with_number n = last_found (λ q. q.question_number == n) questions none

  abbrev pub question_with_id : ℕ → Option Question
  question_with_id id = last_found (λ q. q.id == id) questions none

  abbrev pub by_number : Option ℕ → Option ℕ
  by_number none = none
  by_number (some n) = id_of (question_with_number n)

  abbrev pub target_of : Option ℕ → Option ℕ → Option ℕ
  target_of (some id) number = some id
  target_of none number = by_number number

  abbrev pub is_actually_correct : Question → Answer → Bool
  is_actually_correct q a =
      if is_essay q then a.is_correct else str_eq q.correct_answer a.submitted_answer

  -- `to_text` writes a number in a message.
  module _ (to_text : ℕ → String) where
    abbrev pub duplicate : Question → String
    duplicate q = ("문항 " ++ to_text q.question_number) ++ "번의 답안이 중복 제출되었습니다."

    abbrev pub mismatch : Question → String
    mismatch q = ("문항 " ++ to_text q.question_number) ++ "번의 채점 결과가 올바르지 않습니다."

    -- The checks on one answer: the question that it answers.
    pub check_answer : List ℕ → Answer → Grading Question
    check_answer seen a = do
      target ←
          or_throw (target_of a.question_id a.question_number) (bad_request "유효하지 않은 문항 정보입니다.")
      question ← or_throw (question_with_id target) (bad_request "해당 시험에 존재하지 않는 문항입니다.")
      throw_if (includes target seen) (bad_request (duplicate question))
      throw_if
          (not (is_essay question) && not (same_bool a.is_correct (is_actually_correct question a)))
          (bad_request (mismatch question))
      pure question

    -- The loop, on the identifiers seen, the score and the number of correct answers.
    pub grade_answers : List Answer → List ℕ → ℕ → ℕ → Grading (ℕ × ℕ)
    grade_answers [] seen total count = pure (total, count)
    grade_answers (a ∷ answers) seen total count = do
      question ← check_answer seen a
      let correct = is_actually_correct question a
      grade_answers answers (question.id ∷ seen) (if correct then total + question.score else total)
          (if correct then count + 1 else count)

    abbrev pub wrong_total : ℕ → ℕ → Exception
    wrong_total calculated sent = bad_request (
        ((("총점이 올바르지 않습니다. (Server: " ++ to_text calculated) ++ ", Client: ") ++ to_text sent)
        ++ ")")

    abbrev pub wrong_count : ℕ → ℕ → Exception
    wrong_count calculated sent = bad_request (
        ((("정답 개수가 올바르지 않습니다. (Server: " ++ to_text calculated) ++ ", Client: ") ++ to_text sent)
        ++ ")")

    -- The totals of the client against those of the loop: the score and whether it passes.
    abbrev pub check_totals : ℕ → ℕ → ℕ → ℕ × ℕ → Grading (ℕ × Bool)
    check_totals total_score correct_count cutoff_score graded = do
      throw_if (not (graded.0 == total_score)) (wrong_total graded.0 total_score)
      throw_if (not (graded.1 == correct_count)) (wrong_count graded.1 correct_count)
      pure (graded.0, leb cutoff_score graded.0)

    pub grade_submission : List Answer → ℕ → ℕ → ℕ → Grading (ℕ × Bool)
    grade_submission answers total_score correct_count cutoff_score = do
      graded ← grade_answers answers [] 0 0
      check_totals total_score correct_count cutoff_score graded
