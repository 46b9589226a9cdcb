-- ===== src/Exams/Statistics.antt =====
-- src/services/statistics.service.ts with the queries of src/repos/statistics.repo.ts and of
-- src/repos/grades.repo.ts that it makes: the rates of the answers and the ranks of the students. The
-- read of the stored statistics that the source returns at the end is left out. The rates of the
-- choices are pairs in the order in which the choices first occur.
pub mod Ranks
pub mod Rates
pub mod Students
pub mod Outcome
use text.Mathlib.Text.{◌==◌ as str_eq}
use ssambee_be.Prelude.{
  ℕ, ◌+◌, ◌==◌, leb, ltb, Bool, true, false, not, ◌&&◌, Option, none, some, List, [], ◌∷◌, ◌++◌,
  String, if◌then◌else◌, get_or, length, map, find_by, find_many, find_unique, update_many,
  count_where, any_where, foldl,
}
use ssambee_be.Prelude.OrderBy.{OrderBy, order_by}
use ssambee_be.Prelude.Action.{
  Action, pure, gets, modify, or_throw, for_each, record_not_found, ◌>>=◌, ◌>>◌,
}
use ssambee_be.Permission.{UserType}
use ssambee_be.Exams.Database.{
  QuestionType, Exam, Question, StudentAnswer, Grade, QuestionStatistic, Academy, Service,
  transaction,
}
use ssambee_be.Exams.Repo.{find_questions_by_exam_id, update_statistics}
use ssambee_be.Exams.Access.{managed_exam}

-- The numbers that are not whole: a part of a total in hundredths of a percent, rounded as
-- `toFixed(2)` does, and the average of the database in hundredths.
pub record Numbers : Type 0 where
  pub percentage : ℕ → ℕ → ℕ
  pub average : List ℕ → ℕ

abbrev pub grade_in : ℕ → Grade → Bool
grade_in exam_id g = g.exam_id == exam_id

abbrev pub count_grades_by_exam_id : ℕ → Service ℕ
count_grades_by_exam_id exam_id = gets λ s. count_where (grade_in exam_id) s.grades

abbrev pub find_student_answers_by_question_id : ℕ → Service (List StudentAnswer)
find_student_answers_by_question_id question_id =
    gets λ s. find_many (λ a. a.question_id == question_id) s.student_answers

-- `choiceCounts[choice] = (choiceCounts[choice] || 0) + 1`
abbrev pub count_choice : List (String × ℕ) → String → List (String × ℕ)
count_choice [] choice = (choice, 1) ∷ []
count_choice ((c, n) ∷ counts) choice =
    let rest = count_choice counts choice in
    if str_eq c choice then (c, n + 1) ∷ counts else (c, n) ∷ rest

abbrev pub choice_counts : List StudentAnswer → List (String × ℕ)
choice_counts answers =
    foldl (λ counts (a : StudentAnswer). count_choice counts a.submitted_answer) [] answers

abbrev pub statistic_of : ℕ → QuestionStatistic → Bool
statistic_of question_id t = t.question_id == question_id

abbrev pub set_statistic :
    ℕ → ℕ → ℕ → Option (List (String × ℕ)) → QuestionStatistic → QuestionStatistic
set_statistic exam_id total_submissions correct_rate choice_rates t = record t {
  exam_id = exam_id;
  total_submissions = total_submissions;
  correct_rate = correct_rate;
  choice_rates = choice_rates;
}

-- The update of the row that is found, or a new row.
abbrev pub put_statistic :
    ℕ → ℕ → ℕ → ℕ → Option (List (String × ℕ)) → Option QuestionStatistic → Academy → Academy
put_statistic exam_id question_id total_submissions correct_rate choice_rates (some _) s =
    record s {
      question_statistics =
          update_many (statistic_of question_id)
            (set_statistic exam_id total_submissions correct_rate choice_rates)
            s.question_statistics;
    }
put_statistic exam_id question_id total_submissions correct_rate choice_rates none s = record s {
  question_statistics =
      s.question_statistics
      ++ (record {
        id = s.next_id;
        exam_id = exam_id;
        question_id = question_id;
        total_submissions = total_submissions;
        correct_rate = correct_rate;
        choice_rates = choice_rates;
      }
          ∷ []);
  next_id = s.next_id + 1;
}

abbrev pub upsert_question_statistic :
    ℕ → ℕ → ℕ → ℕ → Option (List (String × ℕ)) → Service (Unit {0})
upsert_question_statistic exam_id question_id total_submissions correct_rate choice_rates =
    modify λ s.
      put_statistic exam_id question_id total_submissions correct_rate choice_rates
        (find_unique (statistic_of question_id) s.question_statistics) s

-- `updateGradeRank`: it throws if there is no such grade.
abbrev pub set_rank : ℕ → Grade → Grade
set_rank rank g = record g { rank = some rank }

abbrev pub grade_id : Grade → ℕ
grade_id g = g.id

abbrev pub update_grade_rank : ℕ → ℕ → Service (Unit {0})
update_grade_rank id rank = do
  found ← gets λ s. find_by grade_id id s.grades
  _ ← or_throw found record_not_found
  modify λ s. record s { grades = update_many (λ (g : Grade). g.id == id) (set_rank rank) s.grades }

-- The rank of the grade at an index: that of the grade before it, if the scores are equal.
abbrev pub next_rank : ℕ → Option Grade → ℕ → Grade → ℕ
next_rank i none current g = current
next_rank i (some before) current g = if not (before.score == g.score) then i + 1 else current

pub rank_grades : ℕ → Option Grade → ℕ → List Grade → Service (Unit {0})
rank_grades i before current [] = pure tt
rank_grades i before current (g ∷ gs) = do
  update_grade_rank g.id (next_rank i before current g)
  rank_grades (i + 1) (some g) (next_rank i before current g) gs

abbrev pub higher_first : Grade → Grade → Bool
higher_first g h = leb h.score g.score

-- `calculateRankByExamId`: the number of better grades, plus one.
abbrev pub calculate_rank_by_exam_id : ℕ → ℕ → Service ℕ
calculate_rank_by_exam_id exam_id score =
    gets λ s. count_where (λ (g : Grade). grade_in exam_id g && ltb score g.score) s.grades + 1

module _ ⦃o : OrderBy⦄ where
  abbrev pub get_student_grades : ℕ → Service (List Grade)
  get_student_grades exam_id =
      gets λ s. order_by higher_first (find_many (grade_in exam_id) s.grades)

  abbrev pub rank_students : ℕ → Service (Unit {0})
  rank_students exam_id = do grades ← get_student_grades exam_id; rank_grades 0 none 1 grades

module _ (numbers : Numbers) where
  -- A rate is 0 if nobody has submitted.
  abbrev pub rate : ℕ → ℕ → ℕ
  rate count total = if ltb 0 total then numbers.percentage count total else 0

  abbrev pub choice_rates : QuestionType → ℕ → List StudentAnswer → Option (List (String × ℕ))
  choice_rates QuestionType.essay total answers = none
  choice_rates QuestionType.multiple total answers =
      some (map (λ (c : String × ℕ). (c.0, rate c.1 total)) (choice_counts answers))

  abbrev pub save_statistic : ℕ → ℕ → Question → Service (Unit {0})
  save_statistic exam_id total question = do
    answers ← find_student_answers_by_question_id question.id
    upsert_question_statistic exam_id question.id total
        (rate (count_where (λ (a : StudentAnswer). a.is_correct) answers) total)
        (choice_rates question.type total answers)

  abbrev pub calculate_average_by_exam_id : ℕ → Service ℕ
  calculate_average_by_exam_id exam_id =
      gets
        λ s. numbers.average (map (λ (g : Grade). g.score) (find_many (grade_in exam_id) s.grades))

  module _ ⦃o : OrderBy⦄ where
    abbrev pub save_all : ℕ → List Question → Service (Unit {0})
    save_all exam_id questions = do
      total ← count_grades_by_exam_id exam_id
      for_each (save_statistic exam_id total) questions
      rank_students exam_id
      average ← calculate_average_by_exam_id exam_id
      update_statistics exam_id average total

    -- An exam with no questions has no statistics.
    abbrev pub save_if_any : ℕ → List Question → Service (Unit {0})
    save_if_any exam_id [] = pure tt
    save_if_any exam_id (q ∷ questions) = transaction (save_all exam_id (q ∷ questions))

    pub calculate_and_save_statistics : ℕ → UserType → ℕ → Service (Unit {0})
    calculate_and_save_statistics exam_id user_type profile_id = do
      exam ← managed_exam exam_id user_type profile_id
      questions ← find_questions_by_exam_id exam_id
      save_if_any exam_id questions
