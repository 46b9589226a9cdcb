-- ===== src/Grades/Saving/Targets.antt =====
-- The answers that `submitGrading` saves: a submission that the loop accepts has one question for
-- each answer.
use ssambee_be.Prelude.{
  ℕ, ◌+◌, ◌==◌, ==_iff, ◌≡◌, refl, ap, sym, ◌∙◌, false, Option, none, some, inl, inr, List, [], ◌∷◌,
  String, if◌then◌else◌, arith, All, All-map, HasDistinct, map,
}
use ssambee_be.Prelude.Exists.{includes, last_found_sound}
use ssambee_be.Prelude.Action.{ok, Ensures, bind_ok, bad_request, pure, or_throw, ◌>>=◌}
use ssambee_be.Exams.Database.{Question, Academy}
use ssambee_be.Grades.{Answer, Grading, target_of, is_actually_correct, check_answer, grade_answers}
use ssambee_be.Grades.Scores.{question_at, IsChecked, check-IsChecked, Ensures-bind, Ensures-map}
use ssambee_be.Grades.Acceptance.{AreGradable}
use ssambee_be.Grades.Saving.{SavedAnswer, answers_to_save}

abbrev pub saved_id : SavedAnswer → ℕ
saved_id x = x.question_id

module _ (questions : List Question) where
  pub grade-AreGradable :
      (to_text : ℕ → String) (answers : List Answer) (seen : List ℕ) (total count : ℕ)
      → Ensures
          (λ _ _. AreGradable questions answers seen)
          (grade_answers questions to_text answers seen total count tt)
  unfolding grade_answers
  grade-AreGradable to_text [] seen total count = tt
  grade-AreGradable to_text (a ∷ answers) seen total count =
      Ensures-bind (IsChecked questions to_text seen a)
        (λ _. AreGradable questions (a ∷ answers) seen) (check_answer questions to_text seen a) rest
        tt (check-IsChecked questions to_text seen a)
        (λ q s checked.
          Ensures-map (λ _. AreGradable questions answers (q.id ∷ seen))
            (λ _. AreGradable questions (a ∷ answers) seen) (rest q tt)
            (grade-AreGradable to_text answers (q.id ∷ seen) _ _)
            (λ _ later. (q, checked.0, checked.2, checked.3, later)))
    where
      rest : Question → Grading (ℕ × ℕ)
      rest q =
          let correct = is_actually_correct questions q a in
          grade_answers questions to_text answers (q.id ∷ seen)
            (if correct then total + q.score else total) (if correct then count + 1 else count)

  -- The question of an answer is the one that it is saved for.
  target_lem :
      (a : Answer) (q : Question) (t : Option ℕ)
      → target_of questions a.question_id a.question_number ≡ t
      → question_at questions t ≡ some q
      → target_of questions a.question_id a.question_number ≡ some q.id
  target_lem a q none target found = cc
  target_lem a q (some id) target found =
      elim (last_found_sound (λ (r : Question). r.id == id) questions none {x = q} found) [
        | inl e ↦ cc
        | inr (i, e) ↦ target ∙ ap some (sym ((==_iff q.id id).0 e))
      ]

  abbrev pub IsFor : Answer → ℕ → Type 0
  IsFor a id = target_of questions a.question_id a.question_number ≡ some id

  pub record ArePrepared (answers : List Answer) (seen : List ℕ) (saved : List SavedAnswer)
      : Type 0 where
    pub answers_are : map (λ (x : SavedAnswer). x.answer) saved ≡ answers
    pub targets : All (λ x. IsFor x.answer x.question_id) saved
    pub unseen : All (λ x. includes x.question_id seen ≡ false) saved
    pub distinct : HasDistinct saved_id saved

  pub save-ArePrepared :
      (answers : List Answer) (seen : List ℕ) (s : Academy)
      → AreGradable questions answers seen
      → (saved : List SavedAnswer) × (answers_to_save questions answers s ≡ (ok saved, s))
        × ArePrepared answers seen saved
  unfolding answers_to_save
  save-ArePrepared [] seen s h =
      ([], refl, record { answers_are = refl; targets = tt; unseen = tt; distinct = tt })
  save-ArePrepared (a ∷ answers) seen s (q, found, unseen, mark, later) =
      let (saved, run, prepared) = save-ArePrepared answers (q.id ∷ seen) s later in
      let target = target_lem a q _ refl found in
      (
        record { question_id = q.id; answer = a } ∷ saved,
        ap
              (λ (o : Option ℕ).
                (or_throw {S = Academy} o (bad_request "문항 정보를 찾을 수 없습니다.") >>= λ (id : ℕ).
                answers_to_save questions answers >>= λ (rest : List SavedAnswer).
                pure (record { question_id = id; answer = a } ∷ rest))
                  s)
              target
            ∙ bind_ok (answers_to_save questions answers)
                (λ (rest : List SavedAnswer).
                  pure (record { question_id = q.id; answer = a } ∷ rest))
                s run,
        record {
          answers_are = ap (λ rest. a ∷ rest) prepared.answers_are;
          targets = (target, prepared.targets);
          unseen = (unseen, All-map (λ (x : SavedAnswer) h. ground arith) saved prepared.unseen);
          distinct = (
            All-map (λ (x : SavedAnswer) h. ground arith) saved prepared.unseen,
            prepared.distinct,
          );
        },
      )
