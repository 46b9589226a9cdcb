-- ===== src/Exams/Statistics/Outcome.antt =====
-- `calculateAndSaveStatistics` as a whole, on every branch.
use ssambee_be.Prelude.{
  ℕ, ◌==◌, leb, ◌≡◌, ◌≢◌, refl, sym, ap, subst, ◌∙◌, Option, none, some, List, [], ◌∷◌, All, IsFree,
  HasDistinct, HasDistinct-find_many, find_by, find_many, count_where, find_by-update_self,
  find_by-update_ne, update_many, map,
}
use ssambee_be.Prelude.OrderBy.{OrderBy, order_by, IsSorting, HasDistinct-order_by}
use ssambee_be.Prelude.Action.{
  Result, ok, err, not_found, for_each, modify, or_throw, record_not_found, Returns, Returns-step,
  Returns-bind, Returns-map, bind_ok, bind_err, ◌>>=◌, ◌>>◌,
}
use ssambee_be.Permission.{UserType}
use ssambee_be.Exams.Database.{Exam, Question, Grade, Academy, Service}
use ssambee_be.Exams.Repo.{of_exam, find_questions_by_exam_id, update_statistics}
use ssambee_be.Exams.Access.{
  exam_id_of, find_exam, exam_or_throw, exam_or_throw_lem, if_managed, managed_exam, managed,
  verdict, transaction-Returns,
}
use ssambee_be.Exams.Statistics.{
  Numbers, grade_in, grade_id, calculate_average_by_exam_id, save_statistic, rank_students,
  save_all, save_if_any, calculate_and_save_statistics,
}
use ssambee_be.Exams.Statistics.Students.{RanksAreRight, ranks-AreRight}
use ssambee_be.Exams.Statistics.Rates.{
  question_of, question_id_of, HasStatistic, AreSaved, saved-AreSaved,
}

module _ (numbers : Numbers) (exam_id : ℕ) where
  abbrev pub total_in : Academy → ℕ
  total_in s = count_where (grade_in exam_id) s.grades

  abbrev pub average_in : Academy → ℕ
  average_in t =
      numbers.average (map (λ (g : Grade). g.score) (find_many (grade_in exam_id) t.grades))

  abbrev pub with_statistics : ℕ → ℕ → Exam → Exam
  with_statistics average total e = record e { average_score = some average; grades_count = total }

  -- The row of the exam has the average and the number of its grades, and no other exam changes.
  pub record ExamIsRight (exam : Exam) (s t : Academy) : Type 0 where
    pub this : find_exam exam_id t ≡ some (with_statistics (average_in t) (total_in s) exam)
    pub others : (k : ℕ) → k ≢ exam_id → find_exam k t ≡ find_exam k s

  pub record IsFinished (exam : Exam) (s t : Academy) : Type 0 where
    pub ranks : RanksAreRight exam_id s t
    pub exam_is : ExamIsRight exam s t
    pub frame : t ≡ record s { exams = t.exams; grades = t.grades }

  -- Each question has its statistic, the grades their ranks, the exam its average and its number
  -- of grades, and nothing else changes.
  pub record AreCalculated (exam : Exam) (questions : List Question) (s t : Academy) : Type 0 where
    pub statistics : All (HasStatistic numbers exam_id (total_in s) s.student_answers t) questions
    pub other_statistics :
        (k : ℕ)
        → IsFree question_id_of k questions
        → find_by question_of k t.question_statistics ≡ find_by question_of k s.question_statistics
    pub ranks : RanksAreRight exam_id s t
    pub exam_is : ExamIsRight exam s t
    pub frame : t ≡ record s {
      question_statistics = t.question_statistics;
      next_id = t.next_id;
      exams = t.exams;
      grades = t.grades;
    }

  module _ ⦃o : OrderBy⦄ (sorts : IsSorting o) (exam : Exam) where
    -- What stands after the loop over the questions.
    abbrev finish : ℕ → Service (Unit {0})
    finish total =
        rank_students exam_id
        >> (calculate_average_by_exam_id numbers exam_id >>= λ average.
            update_statistics exam_id average total)

    abbrev written : ℕ → ℕ → Academy → Academy
    written average total t = record t {
      exams = update_many (λ (e : Exam). e.id == exam_id) (with_statistics average total) t.exams;
    }

    finish-Returns :
        (s : Academy)
        → HasDistinct grade_id s.grades
        → find_exam exam_id s ≡ some exam
        → Returns (λ _ t. IsFinished exam s t) (finish (total_in s) s)
    finish-Returns s distinct found =
        Returns-bind (λ _ t. RanksAreRight exam_id s t × (t ≡ record s { grades = t.grades }))
          (λ _ t. IsFinished exam s t) (rank_students exam_id)
          (λ _. calculate_average_by_exam_id numbers exam_id >>= λ average.
            update_statistics exam_id average (total_in s))
          s (ranks-AreRight sorts exam_id s distinct)
          (λ _ t (right, frame).
            let still : find_exam exam_id t ≡ some exam =
              ap (λ v. find_exam exam_id v) frame ∙ found in
            subst
              (λ (o : Option Exam).
                Returns (λ _ t. IsFinished exam s t)
                  ((or_throw {S = Academy} o record_not_found >>= λ (_ : Exam).
                      modify (written (average_in t) (total_in s)))
                    t))
              (sym still)
              (record {
                ranks = right;
                exam_is = record {
                  this =
                      find_by-update_self exam_id_of exam_id
                        (with_statistics (average_in t) (total_in s)) (λ e. refl) t.exams still;
                  others = λ k other.
                      find_by-update_ne exam_id_of exam_id
                        (with_statistics (average_in t) (total_in s)) (λ e. refl) k t.exams other
                      ∙ ap (λ v. find_exam k v) frame;
                };
                frame =
                    ap
                      (λ (v : Academy). record v {
                        exams = (written (average_in t) (total_in s) t).exams;
                      })
                      frame;
              }))

    abbrev saved_as : Academy → Academy → Academy
    saved_as s u = record s { question_statistics = u.question_statistics; next_id = u.next_id }

    calculated :
        (questions : List Question) (s u t : Academy)
        → AreSaved numbers exam_id (total_in s) questions s u
        → IsFinished exam (saved_as s u) t
        → AreCalculated exam questions s t
    calculated questions s u t saved done = record {
      statistics =
          subst (λ v. All (HasStatistic numbers exam_id (total_in s) s.student_answers v) questions)
            (sym done.frame) saved.all;
      other_statistics = λ k free.
          ap (λ (v : Academy). find_by question_of k v.question_statistics) done.frame
          ∙ saved.others k free;
      ranks = done.ranks;
      exam_is = record { this = done.exam_is.this; others = done.exam_is.others };
      frame =
          done.frame
          ∙ ap
              (λ (v : Academy). record s {
                question_statistics = v.question_statistics;
                next_id = v.next_id;
                exams = t.exams;
                grades = t.grades;
              })
              (sym done.frame);
    }

    save_all-Returns :
        (questions : List Question) (s : Academy)
        → HasDistinct question_id_of questions
        → HasDistinct grade_id s.grades
        → find_exam exam_id s ≡ some exam
        → Returns (λ _ t. AreCalculated exam questions s t) (save_all numbers exam_id questions s)
    save_all-Returns questions s apart distinct found =
        Returns-bind (λ _ u. AreSaved numbers exam_id (total_in s) questions s u)
          (λ _ t. AreCalculated exam questions s t)
          (for_each (save_statistic numbers exam_id (total_in s)) questions)
          (λ _. finish (total_in s)) s
          (saved-AreSaved numbers exam_id (total_in s) questions s apart)
          (λ _ u saved.
            subst (λ v. Returns (λ _ t. AreCalculated exam questions s t) (finish (total_in s) v))
              (sym saved.frame)
              (Returns-map (λ _ t. IsFinished exam (saved_as s u) t)
                (λ _ t. AreCalculated exam questions s t) (finish (total_in s) (saved_as s u))
                (λ _ t done. calculated questions s u t saved done)
                (finish-Returns (saved_as s u) distinct found)))

abbrev pub questions_in : ⦃o : OrderBy⦄ → ℕ → Academy → List Question
questions_in exam_id s =
    order_by (λ (q r : Question). leb q.question_number r.question_number)
      (find_many (of_exam exam_id) s.questions)

module _ ⦃o : OrderBy⦄ (numbers : Numbers) (exam_id : ℕ) (user_type : UserType) (profile_id : ℕ)
    (s : Academy) where
  abbrev pub run : Result (Unit {0}) × Academy
  run = calculate_and_save_statistics numbers exam_id user_type profile_id s

  abbrev pub IfAny : Exam → List Question → Type 0
  IfAny exam [] = run ≡ (ok tt, s)
  IfAny exam (q ∷ questions) =
      Returns (λ _ t. AreCalculated numbers exam_id exam (q ∷ questions) s t) run

  abbrev pub Permitted : Exam → Result (Unit {0}) → Type 0
  Permitted exam (err e) = run ≡ (err e, s)
  Permitted exam (ok _) = IfAny exam (questions_in exam_id s)

  abbrev pub Outcome : Option Exam → Type 0
  Outcome none = run ≡ (err (not_found "시험을 찾을 수 없습니다."), s)
  Outcome (some exam) = Permitted exam (verdict exam.instructor_id user_type profile_id s)

  abbrev after_check : Exam → Service (Unit {0})
  after_check _ = find_questions_by_exam_id exam_id >>= save_if_any numbers exam_id

  -- An exam that is not there, or a user who may not work on it, is refused with nothing changed,
  -- and an exam without questions is left as it is. Otherwise, where `orderBy` sorts and
  -- identifiers are distinct, the call returns: each question has its statistic, of the answers
  -- to it and the number of the exam's grades, each grade of the exam has the rank that
  -- `calculateRankByExamId` computes, the exam has its average and its number of grades, and nothing
  -- else changes.
  pub calculate-Outcome :
      IsSorting o
      → HasDistinct question_id_of s.questions
      → HasDistinct grade_id s.grades
      → Outcome (find_exam exam_id s)
  unfolding calculate_and_save_statistics
  calculate-Outcome sorts apart distinct = by_exam (find_exam exam_id s) refl
    where
      by_questions :
          (exam : Exam) (questions : List Question)
          → find_exam exam_id s ≡ some exam
          → HasDistinct question_id_of questions
          → managed_exam exam_id user_type profile_id s ≡ (ok exam, s)
          → questions_in exam_id s ≡ questions
          → IfAny exam questions
      by_questions exam [] found d e is =
          bind_ok (managed_exam exam_id user_type profile_id) after_check s e
          ∙ ap (λ qs. save_if_any numbers exam_id qs s) is
      by_questions exam (q ∷ questions) found d e is =
          Returns-step (λ _ t. AreCalculated numbers exam_id exam (q ∷ questions) s t)
            (managed_exam exam_id user_type profile_id) after_check s e
            (subst
              (λ qs.
                Returns (λ _ t. AreCalculated numbers exam_id exam (q ∷ questions) s t)
                  (save_if_any numbers exam_id qs s))
              (sym is)
              (transaction-Returns (λ _ t. AreCalculated numbers exam_id exam (q ∷ questions) s t)
                (save_all numbers exam_id (q ∷ questions)) s
                (save_all-Returns numbers exam_id sorts exam (q ∷ questions) s d distinct found)))

      by_check :
          (exam : Exam) (r : Result (Unit {0}))
          → find_exam exam_id s ≡ some exam
          → verdict exam.instructor_id user_type profile_id s ≡ r
          → Permitted exam r
      by_check exam (err x) found e =
          bind_err (managed_exam exam_id user_type profile_id) after_check s
            (managed exam_id user_type profile_id s exam found e)
      by_check exam (ok _) found e =
          by_questions exam (questions_in exam_id s) found
            (HasDistinct-order_by (λ (q r : Question). leb q.question_number r.question_number)
              (find_many (of_exam exam_id) s.questions) question_id_of
              (HasDistinct-find_many question_id_of (of_exam exam_id) s.questions apart))
            (managed exam_id user_type profile_id s exam found e) refl

      by_exam : (o : Option Exam) → find_exam exam_id s ≡ o → Outcome o
      by_exam none e = bind_err (managed_exam exam_id user_type profile_id) after_check s (
          bind_err (exam_or_throw exam_id) (if_managed user_type profile_id) s
            (exam_or_throw_lem exam_id s none e))
      by_exam (some exam) e =
          by_check exam (verdict exam.instructor_id user_type profile_id s) e refl
