-- ===== src/Exams/Editing/Loop.antt =====
-- What the whole loop of `updateExam` makes of the questions.
use mathlib.Core.Bool.{false≢true}
use ssambee_be.Prelude.{
  ℕ, ◌==◌, ==_iff, ==_self, ◌≡◌, refl, sym, subst, ◌∙◌, none, some, List, [], ◌∷◌, arith, inl, inr,
  Bool-cases, All, IsFree, HasDistinct, head?, find_by,
}
use ssambee_be.Prelude.Action.{Returns, Returns-map, for_each, for_each-Returns}
use ssambee_be.Exams.Database.{Exam, Question, Academy}
use ssambee_be.Exams.Repo.{QuestionUpsertDto}
use ssambee_be.Exams.Editing.{existing_with, upsert_question}
use ssambee_be.Exams.Editing.Questions.{
  slot_rows, AtMostOne, IsTidy, IsSlot, IsSlot-left, IsFramed, IsFramed-trans, IsUpserted,
  upsert-IsUpserted,
}

abbrev pub number : QuestionUpsertDto → ℕ
number dto = dto.question_number

-- The rows of each number after the loop, by the request that has the number.
abbrev pub AreSlots : Exam → List QuestionUpsertDto → Academy → Academy → Type 0
AreSlots exam dtos s s' =
    (n : ℕ)
    → IsSlot exam (slot_rows exam.id n s.questions) (slot_rows exam.id n s.questions)
        (find_by number n dtos) (slot_rows exam.id n s'.questions)

module _ (exam : Exam) (existing : List Question) where
  -- The rows with the number of a request are those that the service has read before.
  abbrev pub IsKnown : Academy → QuestionUpsertDto → Type 0
  IsKnown s dto =
      AtMostOne (slot_rows exam.id dto.question_number s.questions)
      × (existing_with existing dto.question_number
          ≡ head? (slot_rows exam.id dto.question_number s.questions))

  abbrev IsLooped : List QuestionUpsertDto → Academy → Academy → Type 0
  IsLooped dtos s s' = IsFramed exam.id s s' × AreSlots exam dtos s s'

  IsKnown-step :
      (dto : QuestionUpsertDto) (dtos : List QuestionUpsertDto) (s s' : Academy)
      → IsUpserted exam dto s s'
      → IsFree number dto.question_number dtos
      → All (IsKnown s) dtos
      → All (IsKnown s') dtos
  IsKnown-step dto [] s s' up free h = tt
  IsKnown-step dto (d ∷ dtos) s s' up free h = (
    subst
        (λ (rows : List Question).
          AtMostOne rows × (existing_with existing d.question_number ≡ head? rows))
        (sym (up.elsewhere d.question_number free.0)) h.0,
    IsKnown-step dto dtos s s' up free.1 h.1,
  )

  find_free :
      (n : ℕ) (dtos : List QuestionUpsertDto) → IsFree number n dtos → find_by number n dtos ≡ none
  find_free n [] free = refl
  find_free n (d ∷ dtos) free = ground (arith, find_free n dtos free.1)

  slots-step :
      (dto : QuestionUpsertDto) (dtos : List QuestionUpsertDto) (s t u : Academy)
      → IsUpserted exam dto s t
      → IsFree number dto.question_number dtos
      → AreSlots exam dtos t u
      → AreSlots exam (dto ∷ dtos) s u
  slots-step dto dtos s t u up free slots n = elim (Bool-cases (dto.question_number == n)) [
    | inl e ↦
        let same : dto.question_number ≡ n = (==_iff dto.question_number n).0 e in
        subst
          (λ k.
            IsSlot exam (slot_rows exam.id k s.questions) (slot_rows exam.id k s.questions)
              (find_by number k (dto ∷ dtos)) (slot_rows exam.id k u.questions))
          same
          (rw (==_self dto.question_number) (
            IsSlot-left exam [] (slot_rows exam.id dto.question_number s.questions)
              (slot_rows exam.id dto.question_number s.questions) dto
              (slot_rows exam.id dto.question_number u.questions)
              (subst
                (λ (rows : List Question).
                  IsSlot exam [] (slot_rows exam.id dto.question_number s.questions) (some dto)
                    rows)
                (sym (unchanged (slots dto.question_number))) up.here)))
    | inr e ↦ rw e (
        subst
          (λ (rows : List Question).
            IsSlot exam rows rows (find_by number n dtos) (slot_rows exam.id n u.questions))
          (up.elsewhere n
            (λ same. false≢true (sym e ∙ (==_iff dto.question_number n).1 (sym same))))
          (slots n))
  ]
    where
      unchanged :
          IsSlot exam
            (slot_rows exam.id dto.question_number t.questions)
            (slot_rows exam.id dto.question_number t.questions)
            (find_by number dto.question_number dtos)
            (slot_rows exam.id dto.question_number u.questions)
          → slot_rows exam.id dto.question_number u.questions
            ≡ slot_rows exam.id dto.question_number t.questions
      unchanged h =
          subst
            (λ o.
              IsSlot exam (slot_rows exam.id dto.question_number t.questions)
                (slot_rows exam.id dto.question_number t.questions) o
                (slot_rows exam.id dto.question_number u.questions))
            (find_free dto.question_number dtos free) h

  pub loop-IsLooped :
      (dtos : List QuestionUpsertDto) (s : Academy)
      → IsTidy s
      → HasDistinct number dtos
      → All (IsKnown s) dtos
      → Returns (λ _ s'. IsLooped dtos s s') (for_each (upsert_question existing exam) dtos s)
  loop-IsLooped [] s tidy distinct known =
      (record { tidy = tidy; frame = refl; others = refl }, λ n. refl)
  loop-IsLooped (dto ∷ dtos) s tidy distinct known =
      for_each-Returns (IsLooped (dto ∷ dtos) s) (upsert_question existing exam) dto dtos s (
        Returns-map (λ _ t. IsUpserted exam dto s t)
          (λ _ t.
            Returns (λ _ u. IsLooped (dto ∷ dtos) s u)
              (for_each (upsert_question existing exam) dtos t))
          (upsert_question existing exam dto s)
          (λ _ t up.
            Returns-map (λ _ u. IsLooped dtos t u) (λ _ u. IsLooped (dto ∷ dtos) s u)
              (for_each (upsert_question existing exam) dtos t)
              (λ _ u (framed, slots).
                (IsFramed-trans up.framed framed, slots-step dto dtos s t u up distinct.0 slots))
              (loop-IsLooped dtos t up.framed.tidy distinct.1
                (IsKnown-step dto dtos s t up distinct.0 known.1)))
          (upsert-IsUpserted exam dto s tidy existing _ refl known.0.0 known.0.1))
