-- ===== src/Exams/Clinics/Complete.antt =====
-- `completeGrading` as a whole, on every branch.
use mathlib.Core.Path.{fun_ext}
use ssambee_be.Prelude.{
  ==_self, ◌&&◌, ℕ, ◌+◌, ◌==◌, ◌≡◌, ◌≢◌, refl, sym, ap, subst, ◌∙◌, Bool, true, false, not, Option,
  some, List, [], ◌∷◌, String, arith, All, length, find_by, find_many, find_by-update_self,
  find_by-update_ne, update_many, delete_many, count_where, map, find_many-true,
  find_many-delete_none,
}
use ssambee_be.Prelude.Exists.{includes}
use ssambee_be.Prelude.Action.{
  ok, pure, modify, or_throw, record_not_found, Returns, Returns-step, Returns-bind, ◌>>=◌,
}
use ssambee_be.Exams.Database.{GradingStatus, Lecture, Exam, Grade, Clinic, Academy, Service}
use ssambee_be.Exams.Access.{exam_id_of, find_exam, transaction-Returns}
use ssambee_be.Exams.Clinics.{
  CreateClinicsDto, clinic_in, is_completed, clinic_for, to_create, delete_passed, create_many,
  insert_new, complete_if, sync_in_transaction, sync_needed,
}
use ssambee_be.Exams.Clinics.Rows.{
  clinic_rows, length-insert_new, insert_new-others, insert_new-frame,
}
use ssambee_be.Exams.Clinics.Sync.{
  failed, existing, has_failed, IsClinicSlot, synced, synced-IsClinicSlot, old_ids, is_passed,
  without_passed, new_rows,
}

abbrev pub completed : Exam → Exam
completed exam = record exam { grading_status = GradingStatus.completed }

-- The exam is completed, and no other exam changes.
pub record IsComplete (exam : Exam) (s s' : Academy) : Type 0 where
  pub this : find_exam exam.id s' ≡ some (completed exam)
  pub others : (k : ℕ) → k ≢ exam.id → find_exam k s' ≡ find_exam k s
  pub frame : s' ≡ record s { exams = s'.exams }

pub complete_if_lem :
    (exam : Exam) (s : Academy)
    → find_exam exam.id s ≡ some exam
    → Returns
        (λ _ s'. IsComplete exam s s')
        (complete_if (not (is_completed exam.grading_status)) exam.id s)
complete_if_lem exam s found = go exam.grading_status refl
  where
    written : Academy → Academy
    written t = record t {
      exams =
          update_many (λ (e : Exam). e.id == exam.id)
            (λ e. record e { grading_status = GradingStatus.completed }) t.exams;
    }

    wrote : Returns (λ _ s'. IsComplete exam s s') (complete_if true exam.id s)
    wrote =
        subst
          (λ (o : Option Exam).
            Returns (λ _ s'. IsComplete exam s s')
              ((or_throw {S = Academy} o record_not_found >>= λ (_ : Exam). modify written) s))
          (sym found)
          (record {
            this =
                find_by-update_self exam_id_of exam.id
                  (λ e. record e { grading_status = GradingStatus.completed }) (λ e. refl) s.exams
                  found;
            others = λ k other.
                find_by-update_ne exam_id_of exam.id
                  (λ e. record e { grading_status = GradingStatus.completed }) (λ e. refl) k s.exams
                  other;
            frame = refl;
          })

    go :
        (status : GradingStatus)
        → exam.grading_status ≡ status
        → Returns (λ _ s'. IsComplete exam s s') (complete_if (not (is_completed status)) exam.id s)
    go GradingStatus.completed e = record {
      this = found ∙ ap (λ st. some (record exam { grading_status = st })) e;
      others = λ k other. refl;
      frame = refl;
    }
    go GradingStatus.pending e = wrote
    go GradingStatus.in_progress e = wrote

length-delete_many :
    (p : Clinic → Bool) (cs : List Clinic)
    → length (delete_many p cs) + count_where p cs ≡ length cs
length-delete_many p [] = omega arith
length-delete_many p (c ∷ cs) = ground (arith, length-delete_many p cs)

and_false : (b : Bool) → (b && false) ≡ false
and_false true = refl
and_false false = refl

count_none : (cs : List Clinic) → count_where (λ _. false) cs ≡ 0
count_none [] = refl
count_none (c ∷ cs) = omega (arith, count_none cs)

delete_passed_lem :
    (exam_id : ℕ) (ids : List ℕ) (s : Academy)
    → delete_passed exam_id ids s ≡ (
      ok (
          count_where
            (λ (c : Clinic). clinic_in exam_id c && includes c.lecture_enrollment_id ids)
            s.clinics),
      record s {
        clinics =
            delete_many
              (λ (c : Clinic). clinic_in exam_id c && includes c.lecture_enrollment_id ids)
              s.clinics;
      },
    )
delete_passed_lem exam_id [] s = λ i. (ok (no_count i), record s { clinics = no_change i })
  where
    never : ◌≡◌ {A = Clinic → Bool} (λ c. clinic_in exam_id c && false) (λ _. false)
    never = fun_ext λ c. and_false (clinic_in exam_id c)

    no_count : 0 ≡ count_where (λ (c : Clinic). clinic_in exam_id c && false) s.clinics
    no_count = sym (ap (λ p. count_where p s.clinics) never ∙ count_none s.clinics)

    no_change : s.clinics ≡ delete_many (λ (c : Clinic). clinic_in exam_id c && false) s.clinics
    no_change = sym (ap (λ p. delete_many p s.clinics) never ∙ find_many-true s.clinics)
delete_passed_lem exam_id (k ∷ ks) s = refl

module _ (to_text : ℕ → String) (dto : CreateClinicsDto) (exam : Exam) (lecture : Lecture)
    (s : Academy) where
  -- Those who failed have one clinic each, as before or new, those who passed have none, the
  -- clinics of other exams stay, and the counts are the numbers of deleted and inserted rows.
  abbrev pub AreSynced : ℕ × ℕ → Academy → Type 0
  AreSynced counts s' =
      ((k : ℕ)
        → IsClinicSlot dto exam lecture s k (has_failed dto exam lecture s k)
            (clinic_rows exam.id k s.clinics) (clinic_rows exam.id k s'.clinics))
      × (find_many (λ c. not (clinic_in exam.id c)) s'.clinics
          ≡ find_many (λ c. not (clinic_in exam.id c)) s.clinics)
      × (length s'.clinics + counts.1 ≡ length s.clinics + counts.0)
      × (s' ≡ record s { exams = s'.exams; clinics = s'.clinics; next_id = s'.next_id })

  abbrev pub IsSynced : ℕ × ℕ → Academy → Type 0
  IsSynced counts s' =
      AreSynced counts s'
      × (find_exam exam.id s' ≡ some (completed exam))
      × ((k : ℕ) → k ≢ exam.id → find_exam k s' ≡ find_exam k s)

  deleted : ℕ
  deleted = count_where (is_passed dto exam lecture s) s.clinics

  All-of_exam :
      (gs : List Grade)
      → All (λ x. (x.exam_id == exam.id) ≡ true) (map (clinic_for dto exam lecture) gs)
  All-of_exam [] = tt
  All-of_exam (g ∷ gs) = (==_self exam.id, All-of_exam gs)

  after_insert : Academy
  after_insert = (synced dto exam lecture s).1

  inserted-AreSynced : AreSynced ((synced dto exam lecture s).0, deleted) after_insert
  unfolding deleted after_insert
  inserted-AreSynced = (
    synced-IsClinicSlot dto exam lecture s,
    insert_new-others exam.id (new_rows dto exam lecture s) (without_passed dto exam lecture s)
          (All-of_exam (to_create (failed dto exam lecture s) (existing dto exam lecture s)))
        ∙ find_many-delete_none (λ c. not (clinic_in exam.id c)) (is_passed dto exam lecture s)
            s.clinics (λ c other. ground arith),
    omega (
      arith,
      length-insert_new (new_rows dto exam lecture s) (without_passed dto exam lecture s),
      length-delete_many (is_passed dto exam lecture s) s.clinics,
    ),
    framed (insert_new-frame (new_rows dto exam lecture s) (without_passed dto exam lecture s)),
  )
    where
      framed :
          after_insert ≡ record s { clinics = after_insert.clinics; next_id = after_insert.next_id }
          → after_insert ≡ record s {
            exams = after_insert.exams;
            clinics = after_insert.clinics;
            next_id = after_insert.next_id;
          }
      framed h =
          h
          ∙ ap
              (λ es. record s {
                exams = es;
                clinics = after_insert.clinics;
                next_id = after_insert.next_id;
              })
              (sym (ap (λ (t : Academy). t.exams) h))

  same_exams : after_insert.exams ≡ s.exams
  unfolding after_insert
  same_exams =
      ap (λ (t : Academy). t.exams)
        (insert_new-frame (new_rows dto exam lecture s) (without_passed dto exam lecture s))

  completed-IsSynced :
      (t : Academy)
      → IsComplete exam after_insert t
      → IsSynced ((synced dto exam lecture s).0, deleted) t
  completed-IsSynced t h = (
    subst (AreSynced ((synced dto exam lecture s).0, deleted)) (sym h.frame) (
      inserted-AreSynced.0,
      inserted-AreSynced.1,
      inserted-AreSynced.2,
      ap (λ (v : Academy). record v { exams = t.exams }) inserted-AreSynced.3,
    ),
    h.this,
    λ k other. h.others k other ∙ ap (λ es. find_by exam_id_of k es) same_exams,
  )

  abbrev pub should_update : Bool
  should_update = not (is_completed exam.grading_status)

  abbrev pub transact : Service (ℕ × ℕ)
  transact =
      sync_in_transaction should_update dto exam lecture
        (to_create (failed dto exam lecture s) (existing dto exam lecture s))
        (old_ids dto exam lecture s)

  pub transact-Returns : find_exam exam.id s ≡ some exam → Returns IsSynced (transact s)
  unfolding after_insert deleted
  transact-Returns found =
      Returns-step IsSynced (delete_passed exam.id (old_ids dto exam lecture s))
        (λ delete_count. create_many (new_rows dto exam lecture s) >>= λ create_count.
          complete_if should_update exam.id >>= λ _. pure (create_count, delete_count))
        s (delete_passed_lem exam.id (old_ids dto exam lecture s) s)
        (Returns-bind (λ _ t. IsComplete exam after_insert t) IsSynced
          (complete_if should_update exam.id) (λ _. pure ((synced dto exam lecture s).0, deleted))
          after_insert
          (complete_if_lem exam after_insert
            (ap (λ es. find_by exam_id_of exam.id es) same_exams ∙ found))
          (λ _ t h. completed-IsSynced t h))

-- With nothing to do, the transaction would change nothing.
pub needed-Returns :
    (P : ℕ × ℕ → Academy → Type 0) (should_update : Bool) (dto : CreateClinicsDto) (exam : Exam)
    (lecture : Lecture) (gs : List Grade) (ids : List ℕ) (s : Academy)
    → Returns P (sync_in_transaction should_update dto exam lecture gs ids s)
    → Returns P (sync_needed should_update dto exam lecture gs ids s)
unfolding insert_new
needed-Returns P false dto exam lecture [] [] s h = h
needed-Returns P true dto exam lecture [] [] s h =
    transaction-Returns P (sync_in_transaction true dto exam lecture [] []) s h
needed-Returns P b dto exam lecture [] (k ∷ ks) s h =
    transaction-Returns P (sync_in_transaction b dto exam lecture [] (k ∷ ks)) s h
needed-Returns P b dto exam lecture (g ∷ gs) ids s h =
    transaction-Returns P (sync_in_transaction b dto exam lecture (g ∷ gs) ids) s h
