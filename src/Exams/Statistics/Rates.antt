-- ===== src/Exams/Statistics/Rates.antt =====
-- The statistics that `calculateAndSaveStatistics` stores for the questions.
use ssambee_be.Prelude.{
  ℕ, ◌==◌, ==_self, ==_ne, ◌≡◌, ◌≢◌, refl, sym, ap, subst, ◌∙◌, Option, none, some, List, [], ◌∷◌,
  String, All, IsFree, HasDistinct, find_by, find_many, find_unique, count_where,
  find_by-update_self, find_by-update_ne, find_unique-append, find_by-append_ne,
}
use ssambee_be.Prelude.Action.{Returns, Returns-map, for_each, for_each-Returns}
use ssambee_be.Exams.Database.{Question, StudentAnswer, QuestionStatistic, Academy}
use ssambee_be.Exams.Statistics.{
  Numbers, statistic_of, set_statistic, put_statistic, rate, choice_rates, save_statistic,
}

abbrev pub question_of : QuestionStatistic → ℕ
question_of t = t.question_id

abbrev pub question_id_of : Question → ℕ
question_id_of q = q.id

-- Only the statistics change.
abbrev pub OnlyStatistics : Academy → Academy → Type 0
OnlyStatistics s t =
    t ≡ record s { question_statistics = t.question_statistics; next_id = t.next_id }

module _ (numbers : Numbers) (exam_id total : ℕ) where
  abbrev pub answers_to : Question → List StudentAnswer → List StudentAnswer
  answers_to q = find_many (λ (a : StudentAnswer). a.question_id == q.id)

  -- The statistic of a question has the number of submissions, the rate of correct answers and the
  -- rates of the choices.
  pub record IsStatistic (answers : List StudentAnswer) (q : Question) (t : QuestionStatistic)
      : Type 0 where
    pub exam_is : t.exam_id ≡ exam_id
    pub total_is : t.total_submissions ≡ total
    pub correct_is :
        t.correct_rate
        ≡ rate numbers
            (count_where (λ (a : StudentAnswer). a.is_correct) (answers_to q answers))
            total
    pub choices_are : t.choice_rates ≡ choice_rates numbers q.type total (answers_to q answers)

  abbrev pub HasStatistic : List StudentAnswer → Academy → Question → Type 0
  HasStatistic answers t q =
      (st : QuestionStatistic) × (find_by question_of q.id t.question_statistics ≡ some st)
      × IsStatistic answers q st

  record IsSaved (q : Question) (s t : Academy) : Type 0 where
    pub frame : OnlyStatistics s t
    pub has : HasStatistic s.student_answers t q
    pub others :
        (k : ℕ)
        → k ≢ q.id
        → find_by question_of k t.question_statistics ≡ find_by question_of k s.question_statistics

  save-IsSaved :
      (q : Question) (s : Academy)
      → Returns (λ _ t. IsSaved q s t) (save_statistic numbers exam_id total q s)
  save-IsSaved q s = go (find_unique (statistic_of q.id) s.question_statistics) refl
    where
      correct_rate : ℕ
      correct_rate =
          rate numbers
            (count_where (λ (a : StudentAnswer). a.is_correct) (answers_to q s.student_answers))
            total

      rates : Option (List (String × ℕ))
      rates = choice_rates numbers q.type total (answers_to q s.student_answers)

      go :
          (o : Option QuestionStatistic)
          → find_unique (statistic_of q.id) s.question_statistics ≡ o
          → IsSaved q s (
              put_statistic exam_id q.id total correct_rate rates
                (find_unique (statistic_of q.id) s.question_statistics)
                s)
      go none e =
          subst (λ o. IsSaved q s (put_statistic exam_id q.id total correct_rate rates o s)) (sym e)
            (let new : QuestionStatistic = record {
              id = s.next_id;
              exam_id = exam_id;
              question_id = q.id;
              total_submissions = total;
              correct_rate = correct_rate;
              choice_rates = rates;
            } in
              record {
                frame = refl;
                has = (
                  new,
                  find_unique-append (statistic_of q.id) s.question_statistics new e (==_self q.id),
                  record { exam_is = refl; total_is = refl; correct_is = refl; choices_are = refl },
                );
                others = λ k other.
                    find_by-append_ne question_of k s.question_statistics new
                      (==_ne q.id k (λ e. other (sym e)));
              })
      go (some st) e =
          subst (λ o. IsSaved q s (put_statistic exam_id q.id total correct_rate rates o s)) (sym e)
            (record {
              frame = refl;
              has = (
                set_statistic exam_id total correct_rate rates st,
                find_by-update_self question_of q.id
                    (set_statistic exam_id total correct_rate rates) (λ t. refl)
                    s.question_statistics e,
                record { exam_is = refl; total_is = refl; correct_is = refl; choices_are = refl },
              );
              others = λ k other.
                  find_by-update_ne question_of q.id
                    (set_statistic exam_id total correct_rate rates) (λ t. refl) k
                    s.question_statistics other;
            })

  pub record AreSaved (qs : List Question) (s t : Academy) : Type 0 where
    pub frame : OnlyStatistics s t
    pub all : All (HasStatistic s.student_answers t) qs
    pub others :
        (k : ℕ)
        → IsFree question_id_of k qs
        → find_by question_of k t.question_statistics ≡ find_by question_of k s.question_statistics

  -- The answers that a later question is judged by are those of the start.
  same_answers :
      (s t u : Academy) (qs : List Question)
      → OnlyStatistics s t
      → All (HasStatistic t.student_answers u) qs
      → All (HasStatistic s.student_answers u) qs
  same_answers s t u [] f h = tt
  same_answers s t u (q ∷ qs) f h = (
    subst (λ answers. HasStatistic answers u q) (ap (λ (v : Academy). v.student_answers) f) h.0,
    same_answers s t u qs f h.1,
  )

  pub saved-AreSaved :
      (qs : List Question) (s : Academy)
      → HasDistinct question_id_of qs
      → Returns (λ _ t. AreSaved qs s t) (for_each (save_statistic numbers exam_id total) qs s)
  saved-AreSaved [] s d = record { frame = refl; all = tt; others = λ k free. refl }
  saved-AreSaved (q ∷ qs) s d =
      for_each-Returns (AreSaved (q ∷ qs) s) (save_statistic numbers exam_id total) q qs s (
        Returns-map (λ _ t. IsSaved q s t)
          (λ _ t.
            Returns (λ _ u. AreSaved (q ∷ qs) s u)
              (for_each (save_statistic numbers exam_id total) qs t))
          (save_statistic numbers exam_id total q s)
          (λ _ t one.
            Returns-map (λ _ u. AreSaved qs t u) (λ _ u. AreSaved (q ∷ qs) s u)
              (for_each (save_statistic numbers exam_id total) qs t)
              (λ _ u rest. record {
                frame =
                    rest.frame
                    ∙ ap
                        (λ (v : Academy). record v {
                          question_statistics = u.question_statistics;
                          next_id = u.next_id;
                        })
                        one.frame;
                all = (
                  (one.has.0, rest.others q.id d.0 ∙ one.has.1, one.has.2),
                  same_answers s t u qs one.frame rest.all,
                );
                others = λ k free. rest.others k free.1 ∙ one.others k (λ e. free.0 (sym e));
              })
              (saved-AreSaved qs t d.1))
          (save-IsSaved q s))
