-- ===== src/Grades/Scores.antt =====
-- What the grading of `submitGrading` accepts, and the score it gives.
use text.Mathlib.Text.{◌==◌ as str_eq}
use mathlib.Core.Bool.{false≢true}
use ssambee_be.Prelude.{
  ℕ, ◌+◌, ◌==◌, ==_self, ==_iff, ◌≡◌, ◌≤◌, refl, ap, sym, subst, ◌∙◌, Bool, true, false, not, ◌&&◌,
  Option, none, some, List, [], ◌∷◌, String, if◌then◌else◌, arith, inl, inr, All, sum_by,
}
use ssambee_be.Prelude.Exists.{includes, IsIn, last_found_sound}
use ssambee_be.Prelude.Action.{
  Result, ok, err, Ensures, or_throw, throw_if, pure, bad_request, ◌>>=◌,
}
use ssambee_be.Exams.Database.{Question, is_essay}
use ssambee_be.Grades.{
  Answer, Grading, question_with_id, target_of, is_actually_correct, same_bool, duplicate, mismatch,
  check_answer, grade_answers,
}

pub Ensures-bind :
    {A B : Type 0} (P : A → Type 0) (Q : B → Type 0) (m : Grading A) (f : A → Grading B)
    (s : Unit {0})
    → Ensures (λ a _. P a) (m s)
    → ((a : A) (s' : Unit {0}) → P a → Ensures (λ b _. Q b) (f a s'))
    → Ensures (λ b _. Q b) ((m >>= f) s)
Ensures-bind {A} {B} P Q m f s h k = go (m s) h
  where
    go :
        (r : Result A × Unit {0})
        → Ensures (λ a _. P a) r
        → Ensures {S = Unit {0}} {A = B}
            (λ b _. Q b)
            (elim r.0 [ ok a ↦ f a r.1 | err e ↦ (err e, r.1) ])
    go (ok a, s') h = k a s' h
    go (err e, s') h = tt

pub Ensures-map :
    {A : Type 0} (P Q : A → Type 0) (r : Result A × Unit {0})
    → Ensures (λ a _. P a) r
    → ((a : A) → P a → Q a)
    → Ensures (λ a _. Q a) r
Ensures-map P Q (ok a, s) h k = k a h
Ensures-map P Q (err e, s) h k = tt

honest_mark :
    (essay mark key : Bool)
    → (not essay && not (same_bool mark (if essay then mark else key))) ≡ false
    → mark ≡ (if essay then mark else key)
honest_mark true mark key h = refl
honest_mark false true true h = refl
honest_mark false true false h = absurd (false≢true (sym h))
honest_mark false false true h = absurd (false≢true (sym h))
honest_mark false false false h = refl

module _ (questions : List Question) where
  -- The question that an answer is for.
  abbrev pub question_at : Option ℕ → Option Question
  question_at none = none
  question_at (some id) = question_with_id questions id

  abbrev pub question_of : Answer → Option Question
  question_of a = question_at (target_of questions a.question_id a.question_number)

  -- What an answer earns: the score of its question, if it is correct.
  abbrev pub earned : Option Question → Answer → ℕ
  earned none a = 0
  earned (some q) a = if is_actually_correct questions q a then q.score else 0

  abbrev pub correct_one : Option Question → Answer → ℕ
  correct_one none a = 0
  correct_one (some q) a = if is_actually_correct questions q a then 1 else 0

  -- The client's mark is the server's.
  abbrev pub IsHonest : Option Question → Answer → Type 0
  IsHonest none a = ⊥
  IsHonest (some q) a = a.is_correct ≡ is_actually_correct questions q a

  -- The scores of the questions that no answer seen so far was for.
  abbrev open_score : List ℕ → List Question → ℕ
  open_score seen = sum_by λ q. if includes q.id seen then 0 else q.score

  open_mono :
      (id : ℕ) (seen : List ℕ) (qs : List Question) → open_score (id ∷ seen) qs ≤ open_score seen qs
  open_mono id seen [] = omega arith
  open_mono id seen (q ∷ qs) = ground (arith, open_mono id seen qs)

  open_step :
      (q : Question) (seen : List ℕ) (qs : List Question)
      → IsIn q qs
      → includes q.id seen ≡ false
      → open_score (q.id ∷ seen) qs + q.score ≤ open_score seen qs
  open_step q seen [] i h = absurd i
  open_step q seen (x ∷ qs) (inl e) h =
      subst
        (λ (x : Question). open_score (q.id ∷ seen) (x ∷ qs) + q.score ≤ open_score seen (x ∷ qs)) e
        (rw (h, ==_self q.id) (omega (arith, open_mono q.id seen qs)))
  open_step q seen (x ∷ qs) (inr i) h = ground (arith, open_step q seen qs i h)

  module _ (to_text : ℕ → String) where
    abbrev pub IsChecked : List ℕ → Answer → Question → Type 0
    IsChecked seen a q =
        (question_of a ≡ some q)
        × IsIn q questions
        × (includes q.id seen ≡ false)
        × (a.is_correct ≡ is_actually_correct questions q a)

    pub check-IsChecked :
        (seen : List ℕ) (a : Answer)
        → Ensures (λ q _. IsChecked seen a q) (check_answer questions to_text seen a tt)
    unfolding check_answer
    check-IsChecked seen a = targeted (target_of questions a.question_id a.question_number) refl
      where
        wrong : Question → Bool
        wrong q =
            not (is_essay q) && not (same_bool a.is_correct (is_actually_correct questions q a))

        marked :
            (id : ℕ) (q : Question)
            → target_of questions a.question_id a.question_number ≡ some id
            → question_with_id questions id ≡ some q
            → (dup bad : Bool) → includes id seen ≡ dup
            → wrong q ≡ bad
            → Ensures {S = Unit {0}}
                (λ q _. IsChecked seen a q)
                ((throw_if dup (bad_request (duplicate questions to_text q)) >>= λ _.
                    throw_if bad (bad_request (mismatch questions to_text q)) >>= λ _. pure q)
                  tt)
        marked id q target found true bad d b = tt
        marked id q target found false true d b = tt
        marked id q target found false false d b =
            elim (last_found_sound (λ (r : Question). r.id == id) questions none {x = q} found) [
              | inl e ↦ cc
              | inr (i, e) ↦
                  let same : q.id ≡ id = (==_iff q.id id).0 e in
                  (
                    ap question_at target ∙ found,
                    i,
                    ap (λ k. includes k seen) same ∙ d,
                    honest_mark (is_essay q) a.is_correct
                        (str_eq q.correct_answer a.submitted_answer) b,
                  )
            ]

        known :
            (id : ℕ)
            → target_of questions a.question_id a.question_number ≡ some id
            → (o : Option Question) → question_with_id questions id ≡ o
            → Ensures {S = Unit {0}}
                (λ q _. IsChecked seen a q)
                ((or_throw o (bad_request "해당 시험에 존재하지 않는 문항입니다.") >>= λ question.
                    throw_if (includes id seen) (bad_request (duplicate questions to_text question))
                    >>= λ _.
                        throw_if
                          (wrong question)
                          (bad_request (mismatch questions to_text question))
                        >>= λ _. pure question)
                  tt)
        known id target none found = tt
        known id target (some q) found = marked id q target found _ _ refl refl

        targeted :
            (o : Option ℕ)
            → target_of questions a.question_id a.question_number ≡ o
            → Ensures {S = Unit {0}}
                (λ q _. IsChecked seen a q)
                ((or_throw o (bad_request "유효하지 않은 문항 정보입니다.") >>= λ target.
                    or_throw
                      (question_with_id questions target)
                      (bad_request "해당 시험에 존재하지 않는 문항입니다.")
                    >>= λ question.
                        throw_if
                          (includes target seen)
                          (bad_request (duplicate questions to_text question))
                        >>= λ _.
                            throw_if
                              (wrong question)
                              (bad_request (mismatch questions to_text question))
                            >>= λ _. pure question)
                  tt)
        targeted none target = tt
        targeted (some id) target = known id target (question_with_id questions id) refl

    -- What the loop has found when it returns.
    pub record IsGraded (answers : List Answer) (seen : List ℕ) (total count : ℕ) (r : ℕ × ℕ)
        : Type 0 where
      pub total_is : r.0 ≡ total + sum_by (λ a. earned (question_of a) a) answers
      pub count_is : r.1 ≡ count + sum_by (λ a. correct_one (question_of a) a) answers
      pub honest : All (λ a. IsHonest (question_of a) a) answers
      pub bounded : r.0 ≤ total + open_score seen questions

    IsGraded-step :
        (answers : List Answer) (seen : List ℕ) (total count : ℕ) (a : Answer) (q : Question)
        (b : Bool)
        → is_actually_correct questions q a ≡ b
        → IsChecked seen a q
        → (r : ℕ × ℕ)
        → IsGraded answers
            (q.id ∷ seen)
            (if b then total + q.score else total)
            (if b then count + 1 else count)
            r
        → IsGraded (a ∷ answers) seen total count r
    IsGraded-step answers seen total count a q b e (found, i, unseen, mark) r ih = record {
      total_is = ih.total_is ∙ total_lem b e;
      count_is = ih.count_is ∙ count_lem b e;
      honest = (subst (λ o. IsHonest o a) (sym found) mark, ih.honest);
      bounded = bounded_lem b ih.bounded;
    }
      where
        total_lem :
            (b : Bool)
            → is_actually_correct questions q a ≡ b
            → (if b then total + q.score else total)
                + sum_by (λ a. earned (question_of a) a) answers
              ≡ total + sum_by (λ a. earned (question_of a) a) (a ∷ answers)
        total_lem true e = rw (found, e) (omega arith)
        total_lem false e = rw (found, e) (omega arith)

        count_lem :
            (b : Bool)
            → is_actually_correct questions q a ≡ b
            → (if b then count + 1 else count) + sum_by (λ a. correct_one (question_of a) a) answers
              ≡ count + sum_by (λ a. correct_one (question_of a) a) (a ∷ answers)
        count_lem true e = rw (found, e) (omega arith)
        count_lem false e = rw (found, e) (omega arith)

        bounded_lem :
            (b : Bool)
            → r.0 ≤ (if b then total + q.score else total) + open_score (q.id ∷ seen) questions
            → r.0 ≤ total + open_score seen questions
        bounded_lem true h = omega (arith, h, open_step q seen questions i unseen)
        bounded_lem false h = omega (arith, h, open_mono q.id seen questions)

    pub grade-IsGraded :
        (answers : List Answer) (seen : List ℕ) (total count : ℕ)
        → Ensures
            (λ r _. IsGraded answers seen total count r)
            (grade_answers questions to_text answers seen total count tt)
    unfolding grade_answers
    grade-IsGraded [] seen total count = record {
      total_is = omega arith;
      count_is = omega arith;
      honest = tt;
      bounded = omega arith;
    }
    grade-IsGraded (a ∷ answers) seen total count =
        Ensures-bind (IsChecked seen a) (IsGraded (a ∷ answers) seen total count)
          (check_answer questions to_text seen a) rest tt (check-IsChecked seen a)
          λ q s checked.
            Ensures-map (IsGraded answers (q.id ∷ seen) _ _)
              (IsGraded (a ∷ answers) seen total count) _ (grade-IsGraded answers (q.id ∷ seen) _ _)
              (IsGraded-step answers seen total count a q _ refl checked)
      where
        rest : Question → Grading (ℕ × ℕ)
        rest q =
            let correct = is_actually_correct questions q a in
            grade_answers questions to_text answers (q.id ∷ seen)
              (if correct then total + q.score else total) (if correct then count + 1 else count)
