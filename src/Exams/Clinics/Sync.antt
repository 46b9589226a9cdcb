-- ===== src/Exams/Clinics/Sync.antt =====
-- The clinics of an exam after `completeGrading` has deleted those of the students who passed and
-- inserted those of the students who failed.
use ssambee_be.Prelude.{
  ℕ, ◌==◌, ==_iff, ==_self, ◌≡◌, refl, sym, ap, subst, ◌∙◌, Bool, true, false, not, ◌&&◌, Option,
  none, some, is_some, List, [], ◌∷◌, arith, inl, inr, Bool-cases, head?, find_many, find_unique,
  delete_many, any_where, map, if◌then◌else◌, find_many-delete_none, find_many-delete_all,
  any_where-find_many, any_where-head?, includes-map,
}
use ssambee_be.Prelude.Exists.{includes}
use ssambee_be.Exams.Database.{Lecture, Exam, Grade, Clinic, Academy}
use ssambee_be.Exams.Clinics.{
  NewClinic, CreateClinicsDto, new_clinic, clinic_of, clinic_in, clinic_student, student_of,
  failed_in, clinic_for, title_or_default, to_create, to_delete_ids, insert_new,
}
use ssambee_be.Exams.Clinics.Rows.{clinic_rows, asks, Inserted, no_rows, insert-Inserted}

module _ (dto : CreateClinicsDto) (exam : Exam) (lecture : Lecture) (s : Academy) where
  abbrev pub failed : List Grade
  failed = find_many (failed_in exam.id) s.grades

  abbrev pub existing : List Clinic
  existing = find_many (clinic_in exam.id) s.clinics

  -- A student has failed the exam.
  abbrev pub has_failed : ℕ → Bool
  has_failed k = includes k (map student_of failed)

  -- The clinic that a student gets.
  abbrev pub clinic_template : ℕ → NewClinic
  clinic_template k = record {
    lecture_id = exam.lecture_id;
    exam_id = exam.id;
    lecture_enrollment_id = k;
    title = title_or_default dto.title exam;
    deadline = dto.deadline;
    memo = dto.memo;
    instructor_id = some lecture.instructor_id;
  }

  -- A student's clinics: none, if the student has not failed; else the one that was there, or a
  -- new one.
  abbrev pub IsClinicSlot : ℕ → Bool → List Clinic → List Clinic → Type 0
  IsClinicSlot k false before after = after ≡ []
  IsClinicSlot k true (c ∷ cs) after = after ≡ c ∷ cs
  IsClinicSlot k true [] after = (id : ℕ) × (after ≡ new_clinic id (clinic_template k) ∷ [])

  abbrev pub old_ids : List ℕ
  old_ids = to_delete_ids failed existing

  abbrev pub is_passed : Clinic → Bool
  is_passed c = clinic_in exam.id c && includes c.lecture_enrollment_id old_ids

  abbrev pub without_passed : Academy
  without_passed = record s { clinics = delete_many is_passed s.clinics }

  -- The students whose clinics are deleted have not failed.
  old-eq :
      (k : ℕ)
      → includes k old_ids
        ≡ any_where
            (λ (c : Clinic).
              clinic_in exam.id c
              && (not (has_failed c.lecture_enrollment_id) && (c.lecture_enrollment_id == k)))
            s.clinics
  old-eq k =
      includes-map clinic_student k
        (find_many (λ (c : Clinic). not (has_failed c.lecture_enrollment_id)) existing)
      ∙ any_where-find_many (λ (c : Clinic). c.lecture_enrollment_id == k)
          (λ (c : Clinic). not (has_failed c.lecture_enrollment_id)) existing
      ∙ any_where-find_many
          (λ (c : Clinic).
            not (has_failed c.lecture_enrollment_id) && (c.lecture_enrollment_id == k))
          (clinic_in exam.id) s.clinics

  failed_stays :
      (k : ℕ)
      → has_failed k ≡ true
      → (cs : List Clinic)
      → any_where
          (λ (c : Clinic).
            clinic_in exam.id c
            && (not (has_failed c.lecture_enrollment_id) && (c.lecture_enrollment_id == k)))
          cs
        ≡ false
  failed_stays k h [] = refl
  failed_stays k h (c ∷ cs) = elim (Bool-cases (c.lecture_enrollment_id == k)) [
    | inl e ↦
        let same : c.lecture_enrollment_id ≡ k = (==_iff c.lecture_enrollment_id k).0 e in
        let kept : has_failed c.lecture_enrollment_id ≡ true = ap has_failed same ∙ h in
        rw kept (ground (arith, failed_stays k h cs))
    | inr e ↦ rw e (ground (arith, failed_stays k h cs))
  ]

  passed_goes :
      (k : ℕ)
      → has_failed k ≡ false
      → (cs : List Clinic)
      → any_where
          (λ (c : Clinic).
            clinic_in exam.id c
            && (not (has_failed c.lecture_enrollment_id) && (c.lecture_enrollment_id == k)))
          cs
        ≡ any_where (clinic_of exam.id k) cs
  passed_goes k h [] = refl
  passed_goes k h (c ∷ cs) = elim (Bool-cases (c.lecture_enrollment_id == k)) [
    | inl e ↦
        let same : c.lecture_enrollment_id ≡ k = (==_iff c.lecture_enrollment_id k).0 e in
        let gone : has_failed c.lecture_enrollment_id ≡ false = ap has_failed same ∙ h in
        rw (gone, e) (ground (arith, passed_goes k h cs))
    | inr e ↦ rw e (ground (arith, passed_goes k h cs))
  ]

  rows_of_failed :
      (k : ℕ)
      → has_failed k ≡ true
      → clinic_rows exam.id k without_passed.clinics ≡ clinic_rows exam.id k s.clinics
  rows_of_failed k h = find_many-delete_none (clinic_of exam.id k) is_passed s.clinics (λ c in_slot.
      let same : c.lecture_enrollment_id ≡ k = ground arith in
      rw (ap (λ j. includes j old_ids) same ∙ old-eq k ∙ failed_stays k h s.clinics) (ground arith))

  rows_of_passed :
      (k : ℕ) → has_failed k ≡ false → clinic_rows exam.id k without_passed.clinics ≡ []
  rows_of_passed k h = elim (Bool-cases (includes k old_ids)) [
    | inl old ↦ find_many-delete_all (clinic_of exam.id k) is_passed s.clinics (λ c in_slot.
        let same : c.lecture_enrollment_id ≡ k = ground arith in
        rw (ap (λ j. includes j old_ids) same ∙ old) (ground arith))
    | inr kept ↦
        find_many-delete_none (clinic_of exam.id k) is_passed s.clinics (λ c in_slot.
          let same : c.lecture_enrollment_id ≡ k = ground arith in
          rw (ap (λ j. includes j old_ids) same ∙ kept) (ground arith))
        ∙ no_rows (clinic_rows exam.id k s.clinics) (
            sym (any_where-head? (clinic_of exam.id k) s.clinics)
            ∙ sym (passed_goes k h s.clinics)
            ∙ sym (old-eq k)
            ∙ kept)
  ]

  -- The row that is asked for a student: one for each student who failed and has no clinic.
  asked :
      (k : ℕ) (gs : List Grade)
      → find_unique (asks exam.id k) (map (clinic_for dto exam lecture) gs)
        ≡ (if includes k (map student_of gs) then some (clinic_template k) else none)
  asked k [] = refl
  asked k (g ∷ gs) = elim (Bool-cases (g.lecture_enrollment_id == k)) [
    | inl e ↦
        rw (==_self exam.id, e)
          (ap (λ j. some (clinic_template j)) ((==_iff g.lecture_enrollment_id k).0 e))
    | inr e ↦ rw (==_self exam.id, e) (asked k gs)
  ]

  created_students :
      (k : ℕ) (has_clinic : ℕ → Bool) (gs : List Grade)
      → includes k
          (map student_of (find_many (λ (g : Grade). not (has_clinic g.lecture_enrollment_id)) gs))
        ≡ (includes k (map student_of gs) && not (has_clinic k))
  created_students k has_clinic [] = refl
  created_students k has_clinic (g ∷ gs) = elim (Bool-cases (g.lecture_enrollment_id == k)) [
    | inl e ↦
        let same : has_clinic g.lecture_enrollment_id ≡ has_clinic k =
          ap has_clinic ((==_iff g.lecture_enrollment_id k).0 e) in
        ground (arith, created_students k has_clinic gs)
    | inr e ↦ ground (arith, created_students k has_clinic gs)
  ]

  has_clinic-eq :
      (k : ℕ)
      → includes k (map clinic_student existing) ≡ is_some (head? (clinic_rows exam.id k s.clinics))
  has_clinic-eq k =
      includes-map clinic_student k existing
      ∙ any_where-find_many (λ (c : Clinic). c.lecture_enrollment_id == k) (clinic_in exam.id)
          s.clinics
      ∙ any_where-head? (clinic_of exam.id k) s.clinics

  abbrev pub new_rows : List NewClinic
  new_rows = map (clinic_for dto exam lecture) (to_create failed existing)

  wanted :
      (k : ℕ)
      → find_unique (asks exam.id k) new_rows ≡ (
          if has_failed k && not (is_some (head? (clinic_rows exam.id k s.clinics)))
          then some (clinic_template k)
          else none)
  wanted k =
      asked k (to_create failed existing)
      ∙ ap (λ b. if b then some (clinic_template k) else none)
          (created_students k (λ j. includes j (map clinic_student existing)) failed
            ∙ ap (λ b. has_failed k && not b) (has_clinic-eq k))

  abbrev pub synced : ℕ × Academy
  synced = insert_new new_rows without_passed

  -- The clinics of a student after both.
  pub synced-IsClinicSlot :
      (k : ℕ)
      → IsClinicSlot k
          (has_failed k)
          (clinic_rows exam.id k s.clinics)
          (clinic_rows exam.id k synced.1.clinics)
  synced-IsClinicSlot k =
      go (has_failed k) refl (clinic_rows exam.id k s.clinics) refl
        (insert-Inserted exam.id k new_rows without_passed)
    where
      Result_of : List Clinic → Option NewClinic → Type 0
      Result_of rows o = Inserted rows o (clinic_rows exam.id k synced.1.clinics)

      go :
          (b : Bool)
          → has_failed k ≡ b
          → (rows : List Clinic) → clinic_rows exam.id k s.clinics ≡ rows
          → Result_of
              (clinic_rows exam.id k without_passed.clinics)
              (find_unique (asks exam.id k) new_rows)
          → IsClinicSlot k b rows (clinic_rows exam.id k synced.1.clinics)
      go false f rows e i =
          subst (λ (p : List Clinic × Option NewClinic). Result_of p.0 p.1)
            (λ j. (
              rows_of_passed k f j,
              (wanted k
                    ∙ ap
                        (λ b.
                          if b && not (is_some (head? (clinic_rows exam.id k s.clinics)))
                          then some (clinic_template k)
                          else none)
                        f)
                  j,
            ))
            i
      go true f [] e i =
          subst (λ (p : List Clinic × Option NewClinic). Result_of p.0 p.1)
            (λ j. (
              (rows_of_failed k f ∙ e) j,
              (wanted k
                    ∙ ap
                        (λ (p : Bool × List Clinic).
                          if p.0 && not (is_some (head? p.1))
                          then some (clinic_template k)
                          else none)
                        (λ l. (f l, e l)))
                  j,
            ))
            i
      go true f (c ∷ cs) e i =
          subst (λ (p : List Clinic × Option NewClinic). Result_of p.0 p.1)
            (λ j. (
              (rows_of_failed k f ∙ e) j,
              (wanted k
                    ∙ ap
                        (λ (p : Bool × List Clinic).
                          if p.0 && not (is_some (head? p.1))
                          then some (clinic_template k)
                          else none)
                        (λ l. (f l, e l)))
                  j,
            ))
            i
