-- ===== src/Exams/Statistics/Students.antt =====
-- The ranks of the students after `calculateAndSaveStatistics`, against `calculateRankByExamId`.
use ssambee_be.Prelude.{
  ℕ, ◌+◌, ltb, ◌≡◌, ◌≢◌, refl, sym, ap, ◌∙◌, none, some, List, arith, All, All-map, All-find_many,
  IsFree, HasDistinct, HasDistinct-find_many, find_by, find_many, find_by_rows,
  count_where-find_many,
}
use ssambee_be.Prelude.OrderBy.{
  OrderBy, order_by, IsSorting, IsTotal, IsTransitive, All-order_by, All-of_order_by,
  HasDistinct-order_by, count_where-order_by,
}
use ssambee_be.Prelude.Action.{ok, Returns, Returns-map}
use ssambee_be.Exams.Database.{Grade, Academy}
use ssambee_be.Exams.Statistics.{
  grade_in, grade_id, set_rank, higher_first, calculate_rank_by_exam_id, rank_grades, rank_students,
}
use ssambee_be.Exams.Statistics.Ranks.{
  better, better_in, Stored, IsRanked, AreRanked, rank_grades-AreRanked,
}

higher_first-IsTotal : IsTotal higher_first
higher_first-IsTotal g h = ground arith

higher_first-IsTransitive : IsTransitive higher_first
higher_first-IsTransitive x y z p q = ground arith

Grade-set : IsSet Grade
Grade-set = hlevel

abbrev pub grades_of : ℕ → Academy → List Grade
grades_of exam_id t = find_many (grade_in exam_id) t.grades

module _ (exam_id : ℕ) (s : Academy) where
  -- Each grade of the exam has the rank that `calculateRankByExamId` computes afterwards.
  abbrev pub IsRightlyRanked : Academy → Grade → Type 0
  IsRightlyRanked t g =
      (n : ℕ) × ((calculate_rank_by_exam_id exam_id g.score t).0 ≡ ok n)
      × (find_by grade_id g.id t.grades ≡ some (set_rank n g))

  -- And the other grades are as before.
  abbrev pub RanksAreRight : Academy → Type 0
  RanksAreRight t =
      All (IsRightlyRanked t) (grades_of exam_id s)
      × ((k : ℕ)
          → IsFree grade_id k (grades_of exam_id s)
          → find_by grade_id k t.grades ≡ find_by grade_id k s.grades)

module _ ⦃o : OrderBy⦄ (sorts : IsSorting o) (exam_id : ℕ) (s : Academy)
    (distinct : HasDistinct grade_id s.grades) where
  sorted_grades : List Grade
  sorted_grades = order_by higher_first (grades_of exam_id s)

  rank-IsRight :
      (t : Academy)
      → AreRanked (λ _. 0) sorted_grades s t
      → (g : Grade) → IsRanked (λ _. 0) sorted_grades t g
      → IsRightlyRanked exam_id s t g
  unfolding sorted_grades
  rank-IsRight t ranked g h =
      let same : better_in exam_id g.score t.grades ≡ better g.score sorted_grades =
        ranked.counts exam_id g.score
        ∙ sym
            (count_where-find_many (λ (h : Grade). ltb g.score h.score) (grade_in exam_id) s.grades)
        ∙ sym (
            count_where-order_by higher_first (grades_of exam_id s)
              (λ (h : Grade). ltb g.score h.score)) in
      (
        better_in exam_id g.score t.grades + 1,
        refl,
        h ∙ ap (λ n. some (set_rank n g)) (omega (arith, same)),
      )

  pub ranks-AreRight :
      Returns
        (λ _ t. RanksAreRight exam_id s t × (t ≡ record s { grades = t.grades }))
        (rank_students exam_id s)
  unfolding sorted_grades
  ranks-AreRight =
      Returns-map (λ _ t. AreRanked (λ _. 0) sorted_grades s t)
        (λ _ t. RanksAreRight exam_id s t × (t ≡ record s { grades = t.grades }))
        (rank_grades 0 none 1 sorted_grades s)
        (λ _ t ranked. (
          (
            All-map (rank-IsRight t ranked) (grades_of exam_id s) (
                All-of_order_by higher_first (grades_of exam_id s)
                  (IsRanked (λ _. 0) sorted_grades t) (λ g. hlevel Grade-set) ranked.ranked),
            λ k free. ranked.kept k (
                All-order_by higher_first (grades_of exam_id s) (λ (g : Grade). g.id ≢ k)
                  (λ g. hlevel) free),
          ),
          ranked.frame,
        ))
        (rank_grades-AreRanked 0 none 1 (λ _. 0) sorted_grades s (refl, refl, λ t. refl)
          (sorts Grade higher_first higher_first-IsTotal higher_first-IsTransitive
            (grades_of exam_id s))
          (HasDistinct-order_by higher_first (grades_of exam_id s) grade_id
            (HasDistinct-find_many grade_id (grade_in exam_id) s.grades distinct))
          (All-order_by higher_first (grades_of exam_id s) (Stored s) (λ g. hlevel Grade-set)
            (All-find_many (Stored s) (grade_in exam_id) s.grades
              (find_by_rows grade_id s.grades distinct))))
