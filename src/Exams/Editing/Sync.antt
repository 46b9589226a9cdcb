-- ===== src/Exams/Editing/Sync.antt =====
-- The questions of an exam after `updateExam`: the deletion of those left out, then the loop.
use mathlib.Core.Path.{fun_ext}
use mathlib.Core.HLevel.{prop→set}
use Prim.Native.Char.{IsScalar}
use text.Mathlib.TextEquality.{IsScalar-prop}
use ssambee_be.Prelude.{
  ℕ, ◌==◌, ◌≡◌, ◌<◌, refl, ap, sym, subst, ◌∙◌, Bool, true, false, not, ◌&&◌, ◌||◌, Option, none,
  some, is_some, List, [], ◌∷◌, arith, inr, All, All-map, HasDistinct, HasDistinct-find_many,
  All-find_many, head?, find_by, find_many, delete_many, any_where, leb, find_many-delete_none,
  find_many-delete_all, find_many-congr, find_many-true, find_many-find_many, any_where-find_many,
  any_where-head?, includes-map, keys_of_query,
}
use ssambee_be.Prelude.Exists.{includes, last_found_none, last_found_only, All-of_find_many}
use ssambee_be.Prelude.OrderBy.{OrderBy, order_by, any_where-order_by, All-order_by}
use ssambee_be.Prelude.Action.{ok, Returns, Returns-step, Returns-map, for_each}
use ssambee_be.Exams.Database.{Exam, Question, Academy}
use ssambee_be.Exams.Repo.{QuestionUpsertDto, of_exam}
use ssambee_be.Exams.Editing.{
  existing_with, upsert_question, is_left_out, input_numbers, to_delete, delete_left_out,
  sync_questions,
}
use ssambee_be.Exams.Editing.Questions.{
  slot, slot_rows, AtMostOne, IsTidy, IsSlot, IsSlot-left, IsFramed, IsFramed-trans,
}
use ssambee_be.Exams.Editing.Loop.{number, AreSlots, IsKnown, loop-IsLooped}

-- The exam has the questions of the request and no others, each under its number: one that had the
-- number keeps its identifier.
pub record IsSynced (exam : Exam) (dtos : List QuestionUpsertDto) (s s' : Academy) : Type 0 where
  pub framed : IsFramed exam.id s s'
  pub slots :
      (n : ℕ)
      → IsSlot exam []
          (slot_rows exam.id n s.questions)
          (find_by number n dtos)
          (slot_rows exam.id n s'.questions)

IsScalar-set : (n : ℕ) → IsSet (IsScalar n)
IsScalar-set n = prop→set (IsScalar-prop n)

Question-set : IsSet Question
Question-set = hlevel IsScalar-set

by_number : Question → Question → Bool
by_number q r = leb q.question_number r.question_number

and_assoc : (a b c : Bool) → (a && (b && c)) ≡ ((a && b) && c)
and_assoc true b c = refl
and_assoc false b c = refl

is_some-find_by :
    (n : ℕ) (dtos : List QuestionUpsertDto)
    → includes n (input_numbers dtos) ≡ is_some (find_by number n dtos)
is_some-find_by n [] = refl
is_some-find_by n (d ∷ dtos) = ground (arith, is_some-find_by n dtos)

or_true : (a : Bool) {b : Bool} → b ≡ true → (a || b) ≡ true
or_true true h = refl
or_true false h = h

includes_own :
    (ds : List QuestionUpsertDto)
    → All (λ (d : QuestionUpsertDto). includes d.question_number (input_numbers ds) ≡ true) ds
includes_own [] = tt
includes_own (d ∷ ds) = (
  ground arith,
  All-map
      (λ (e : QuestionUpsertDto) (h : includes e.question_number (input_numbers ds) ≡ true).
        or_true (d.question_number == e.question_number) h)
      ds (includes_own ds),
)

delete_left_out_lem :
    (ids : List ℕ) (s : Academy)
    → delete_left_out ids s ≡ (
      ok tt,
      record s { questions = delete_many (λ (q : Question). includes q.id ids) s.questions },
    )
delete_left_out_lem [] s =
    ap (λ qs. (ok tt, record s { questions = qs })) (sym (find_many-true s.questions))
delete_left_out_lem (id ∷ ids) s = refl

module _ ⦃o : OrderBy⦄ (exam : Exam) (dtos : List QuestionUpsertDto) (s : Academy) where
  existing : List Question
  existing =
      order_by (λ (q r : Question). leb q.question_number r.question_number)
        (find_many (of_exam exam.id) s.questions)

  abbrev is_deleted : Question → Bool
  is_deleted q = of_exam exam.id q && is_left_out dtos q

  -- The identifiers to delete are those of the questions of the exam that are left out.
  deleted_ids :
      (k : ℕ)
      → includes k (to_delete dtos existing)
        ≡ any_where (λ (q : Question). is_deleted q && (q.id == k)) s.questions
  unfolding existing
  deleted_ids k =
      includes-map (λ (q : Question). q.id) k (find_many (is_left_out dtos) existing)
      ∙ any_where-find_many (λ (q : Question). q.id == k) (is_left_out dtos) existing
      ∙ any_where-order_by (λ (q r : Question). leb q.question_number r.question_number)
          (find_many (of_exam exam.id) s.questions) (λ q. is_left_out dtos q && (q.id == k))
      ∙ any_where-find_many (λ (q : Question). is_left_out dtos q && (q.id == k)) (of_exam exam.id)
          s.questions
      ∙ ap (λ p. any_where p s.questions)
          (fun_ext λ (q : Question). and_assoc (of_exam exam.id q) (is_left_out dtos q) (q.id == k))

  spared :
      IsTidy s
      → delete_many (λ (q : Question). includes q.id (to_delete dtos existing)) s.questions
        ≡ delete_many is_deleted s.questions
  spared tidy =
      find_many-congr (λ (q : Question). not (includes q.id (to_delete dtos existing)))
        (λ q. not (is_deleted q)) s.questions
        (All-map
          (λ (q : Question)
              (h : any_where (λ (r : Question). is_deleted r && (r.id == q.id)) s.questions
                ≡ is_deleted q).
            ap not (deleted_ids q.id ∙ h))
          s.questions (keys_of_query (λ (q : Question). q.id) is_deleted s.questions tidy.distinct))

  -- The map of the questions by number gives the row with the number.
  known :
      (n : ℕ)
      → AtMostOne (slot_rows exam.id n s.questions)
      → existing_with existing n ≡ head? (slot_rows exam.id n s.questions)
  unfolding existing
  known n one = go (slot_rows exam.id n s.questions) refl one
    where
      has_number : Question → Bool
      has_number q = q.question_number == n

      found : any_where has_number existing ≡ is_some (head? (slot_rows exam.id n s.questions))
      found =
          any_where-order_by (λ (q r : Question). leb q.question_number r.question_number)
            (find_many (of_exam exam.id) s.questions) has_number
          ∙ any_where-find_many has_number (of_exam exam.id) s.questions
          ∙ any_where-head? (slot exam.id n) s.questions

      only :
          (q : Question)
          → slot_rows exam.id n s.questions ≡ q ∷ []
          → All (λ r. has_number r ≡ true → r ≡ q) existing
      only q e =
          All-order_by (λ (q r : Question). leb q.question_number r.question_number)
            (find_many (of_exam exam.id) s.questions) (λ r. has_number r ≡ true → r ≡ q)
            (λ r. hlevel Question-set)
            (All-of_find_many has_number (λ r. r ≡ q) (find_many (of_exam exam.id) s.questions)
              (subst (λ qs. All (λ r. r ≡ q) qs)
                (sym (find_many-find_many has_number (of_exam exam.id) s.questions ∙ e))
                (refl, tt)))

      go :
          (rows : List Question)
          → slot_rows exam.id n s.questions ≡ rows
          → AtMostOne rows
          → existing_with existing n ≡ head? rows
      go [] e one =
          last_found_none has_number existing none (found ∙ ap (λ qs. is_some (head? qs)) e)
      go (q ∷ []) e one =
          last_found_only has_number q existing none (only q e)
            (inr (found ∙ ap (λ qs. is_some (head? qs)) e))
      go (q ∷ r ∷ qs) e one = absurd one

  after_deletion : Academy
  after_deletion = record s { questions = delete_many is_deleted s.questions }

  deletion-IsFramed : IsTidy s → IsFramed exam.id s after_deletion
  unfolding after_deletion
  deletion-IsFramed tidy = record {
    tidy = record {
      distinct =
          HasDistinct-find_many (λ (q : Question). q.id) (λ q. not (is_deleted q)) s.questions
            tidy.distinct;
      fresh =
          All-find_many (λ (q : Question). q.id < s.next_id) (λ q. not (is_deleted q)) s.questions
            tidy.fresh;
    };
    frame = refl;
    others =
        find_many-delete_none (λ q. not (of_exam exam.id q)) is_deleted s.questions
          (λ q h. ground arith);
  }

  -- The rows with a number stay if a request has it, and go if not.
  kept_slot :
      (n : ℕ)
      → includes n (input_numbers dtos) ≡ true
      → slot_rows exam.id n after_deletion.questions ≡ slot_rows exam.id n s.questions
  unfolding after_deletion
  kept_slot n h =
      find_many-delete_none (slot exam.id n) is_deleted s.questions (λ q in_slot.
        let same : q.question_number ≡ n = ground arith in rw (same, h) (ground arith))

  gone_slot :
      (n : ℕ)
      → includes n (input_numbers dtos) ≡ false
      → slot_rows exam.id n after_deletion.questions ≡ []
  unfolding after_deletion
  gone_slot n h =
      find_many-delete_all (slot exam.id n) is_deleted s.questions (λ q in_slot.
        let same : q.question_number ≡ n = ground arith in rw (same, h) (ground arith))

  All-IsKnown :
      ((n : ℕ) → AtMostOne (slot_rows exam.id n s.questions))
      → (ds : List QuestionUpsertDto)
      → All (λ (d : QuestionUpsertDto). includes d.question_number (input_numbers dtos) ≡ true) ds
      → All (IsKnown exam existing after_deletion) ds
  All-IsKnown one [] h = tt
  All-IsKnown one (d ∷ ds) h = (
    subst
        (λ (rows : List Question).
          AtMostOne rows × (existing_with existing d.question_number ≡ head? rows))
        (sym (kept_slot d.question_number h.0))
        (one d.question_number, known d.question_number (one d.question_number)),
    All-IsKnown one ds h.1,
  )

  -- The slots after the loop, against those before the deletion.
  slots-IsSlot :
      (s' : Academy) (n : ℕ) (found : Option QuestionUpsertDto)
      → find_by number n dtos ≡ found
      → IsSlot exam
          (slot_rows exam.id n after_deletion.questions)
          (slot_rows exam.id n after_deletion.questions)
          found
          (slot_rows exam.id n s'.questions)
      → IsSlot exam [] (slot_rows exam.id n s.questions) found (slot_rows exam.id n s'.questions)
  slots-IsSlot s' n none e h = h ∙ gone_slot n (is_some-find_by n dtos ∙ ap (λ o. is_some o) e)
  slots-IsSlot s' n (some dto) e h =
      let kept = kept_slot n (is_some-find_by n dtos ∙ ap (λ o. is_some o) e) in
      IsSlot-left exam (slot_rows exam.id n s.questions) [] (slot_rows exam.id n s.questions) dto
        (slot_rows exam.id n s'.questions)
        (subst
          (λ (rows : List Question).
            IsSlot exam rows rows (some dto) (slot_rows exam.id n s'.questions))
          kept h)

  pub sync-IsSynced :
      IsTidy s
      → HasDistinct number dtos
      → ((n : ℕ) → AtMostOne (slot_rows exam.id n s.questions))
      → Returns (λ _ s'. IsSynced exam dtos s s') (sync_questions exam dtos s)
  unfolding sync_questions existing after_deletion
  sync-IsSynced tidy distinct one =
      Returns-step (λ _ s'. IsSynced exam dtos s s') (delete_left_out (to_delete dtos existing))
        (λ _. for_each (upsert_question existing exam) dtos) s
        (delete_left_out_lem (to_delete dtos existing) s
          ∙ ap (λ qs. (ok tt, record s { questions = qs })) (spared tidy))
        (Returns-map
          (λ _ s'. IsFramed exam.id after_deletion s' × AreSlots exam dtos after_deletion s')
          (λ _ s'. IsSynced exam dtos s s')
          (for_each (upsert_question existing exam) dtos after_deletion)
          (λ _ s' (framed, slots). record {
            framed = IsFramed-trans (deletion-IsFramed tidy) framed;
            slots = λ n. slots-IsSlot s' n (find_by number n dtos) refl (slots n);
          })
          (loop-IsLooped exam existing dtos after_deletion (deletion-IsFramed tidy).tidy distinct
            (All-IsKnown one dtos (includes_own dtos))))
