-- ===== src/Exams/Clinics.antt =====
-- src/services/clinics.service.ts with the queries of src/repos/clinics.repo.ts: when the grading of
-- an exam is completed, those who failed get a clinic and those who passed lose theirs.
pub mod Rows
pub mod Sync
pub mod Complete
pub mod Outcome
use Prim.Native.String.{◌++◌ as ◌<>◌}
use text.Mathlib.Text.{◌==◌ as str_eq}
use ssambee_be.Prelude.{
  ℕ, ◌+◌, ◌==◌, Bool, true, false, not, ◌&&◌, ◌||◌, Option, none, some, List, [], ◌∷◌, ◌++◌, String,
  if◌then◌else◌, leb, ltb, get_or, find_by, find_many, update_many, delete_many, count_where,
  any_where, length, map,
}
use ssambee_be.Prelude.Exists.{includes}
use ssambee_be.Prelude.Action.{
  Action, Result, ok, pure, throw, gets, modify, or_throw, throw_if, not_found, ◌>>=◌, ◌>>◌,
}
use ssambee_be.Permission.{UserType, validate_instructor_access}
use ssambee_be.Exams.Database.{
  GradingStatus, ClinicStatus, Lecture, Exam, Grade, Clinic, Academy, Service, permitted,
  transaction,
}
use ssambee_be.Exams.Access.{exam_or_throw, lecture_or_throw}
use ssambee_be.Exams.Repo.{find_exam_by_id, update_grading_status}

-- A row for `createMany`.
pub record NewClinic : Type 0 where
  pub lecture_id : ℕ
  pub exam_id : ℕ
  pub lecture_enrollment_id : ℕ
  pub title : String
  pub deadline : Option ℕ
  pub memo : Option String
  pub instructor_id : Option ℕ

abbrev pub new_clinic : ℕ → NewClinic → Clinic
new_clinic id x = record {
  id = id;
  lecture_id = x.lecture_id;
  exam_id = x.exam_id;
  lecture_enrollment_id = x.lecture_enrollment_id;
  instructor_id = x.instructor_id;
  title = x.title;
  deadline = x.deadline;
  memo = x.memo;
  status = ClinicStatus.pending;
}

-- The clinic of a student for an exam: the unique key of the table.
abbrev pub clinic_of : ℕ → ℕ → Clinic → Bool
clinic_of exam_id lecture_enrollment_id c =
    (c.exam_id == exam_id) && (c.lecture_enrollment_id == lecture_enrollment_id)

abbrev pub with_clinic : NewClinic → Academy → Academy
with_clinic x s = record s {
  clinics = s.clinics ++ (new_clinic s.next_id x ∷ []);
  next_id = s.next_id + 1;
}

-- `createMany` with `skipDuplicates`: the number of rows inserted, and the state.
pub insert_new : List NewClinic → Academy → ℕ × Academy
insert_new [] s = (0, s)
insert_new (x ∷ xs) s = elim (any_where (clinic_of x.exam_id x.lecture_enrollment_id) s.clinics) [
  | true ↦ insert_new xs s
  | false ↦ let (n, s') = insert_new xs (with_clinic x s) in (n + 1, s')
]

abbrev pub create_many : List NewClinic → Service ℕ
create_many xs s = let (n, s') = insert_new xs s in (ok n, s')

abbrev pub failed_in : ℕ → Grade → Bool
failed_in exam_id g = (g.exam_id == exam_id) && not g.is_pass

abbrev pub clinic_in : ℕ → Clinic → Bool
clinic_in exam_id c = c.exam_id == exam_id

abbrev pub student_of : Grade → ℕ
student_of g = g.lecture_enrollment_id

abbrev pub clinic_student : Clinic → ℕ
clinic_student c = c.lecture_enrollment_id

abbrev pub find_failed_grades_by_exam_id : ℕ → Service (List Grade)
find_failed_grades_by_exam_id exam_id = gets λ s. find_many (failed_in exam_id) s.grades

abbrev pub delete_by_exam_and_enrollments : ℕ → List ℕ → Service ℕ
delete_by_exam_and_enrollments exam_id ids = do
  count ← gets λ s.
      count_where (λ (c : Clinic). clinic_in exam_id c && includes c.lecture_enrollment_id ids)
        s.clinics
  modify λ s. record s {
    clinics =
        delete_many (λ (c : Clinic). clinic_in exam_id c && includes c.lecture_enrollment_id ids)
          s.clinics;
  }
  pure count

-- The deadline is the instant that the text of the request stands for.
pub record CreateClinicsDto : Type 0 where
  pub title : Option String
  pub deadline : Option ℕ
  pub memo : Option String

pub record Completion : Type 0 where
  pub create_count : ℕ
  pub delete_count : ℕ
  pub message : String

abbrev pub is_completed : GradingStatus → Bool
is_completed GradingStatus.completed = true
is_completed GradingStatus.pending = false
is_completed GradingStatus.in_progress = false

-- A title that is missing or empty gives way to the default.
abbrev pub title_or_default : Option String → Exam → String
title_or_default none exam = exam.title <> " 클리닉"
title_or_default (some title) exam = if str_eq title "" then exam.title <> " 클리닉" else title

abbrev pub to_create : List Grade → List Clinic → List Grade
to_create failed existing =
    find_many (λ (g : Grade). not (includes g.lecture_enrollment_id (map clinic_student existing)))
      failed

abbrev pub to_delete_ids : List Grade → List Clinic → List ℕ
to_delete_ids failed existing = map clinic_student (
    find_many (λ (c : Clinic). not (includes c.lecture_enrollment_id (map student_of failed)))
      existing)

abbrev pub clinic_for : CreateClinicsDto → Exam → Lecture → Grade → NewClinic
clinic_for dto exam lecture g = record {
  lecture_id = exam.lecture_id;
  exam_id = exam.id;
  lecture_enrollment_id = g.lecture_enrollment_id;
  title = title_or_default dto.title exam;
  deadline = dto.deadline;
  memo = dto.memo;
  instructor_id = some lecture.instructor_id;
}

-- Nothing is sent for an empty list.
abbrev pub delete_passed : ℕ → List ℕ → Service ℕ
delete_passed exam_id [] = pure 0
delete_passed exam_id (k ∷ ks) = delete_by_exam_and_enrollments exam_id (k ∷ ks)

abbrev pub complete_if : Bool → ℕ → Service (Unit {0})
complete_if false exam_id = pure tt
complete_if true exam_id = update_grading_status exam_id GradingStatus.completed

abbrev pub sync_in_transaction :
    Bool → CreateClinicsDto → Exam → Lecture → List Grade → List ℕ → Service (ℕ × ℕ)
sync_in_transaction should_update dto exam lecture new_grades old_ids = do
  delete_count ← delete_passed exam.id old_ids
  create_count ← create_many (map (clinic_for dto exam lecture) new_grades)
  complete_if should_update exam.id
  pure (create_count, delete_count)

-- The transaction is left out if there is nothing to do.
abbrev pub sync_if :
    Bool → Bool → CreateClinicsDto → Exam → Lecture → List Grade → List ℕ → Service (ℕ × ℕ)
sync_if false should_update dto exam lecture new_grades old_ids = pure (0, 0)
sync_if true should_update dto exam lecture new_grades old_ids =
    transaction (sync_in_transaction should_update dto exam lecture new_grades old_ids)

-- `length > 0`.
abbrev pub is_nonempty : {A : Type 0} → List A → Bool
is_nonempty [] = false
is_nonempty (x ∷ xs) = true

abbrev pub sync_needed :
    Bool → CreateClinicsDto → Exam → Lecture → List Grade → List ℕ → Service (ℕ × ℕ)
sync_needed should_update dto exam lecture new_grades old_ids =
    sync_if (is_nonempty new_grades || (is_nonempty old_ids || should_update)) should_update dto
      exam lecture new_grades old_ids

module _ (to_text : ℕ → String) where
  abbrev pub summary : ℕ → ℕ → ℕ → String
  summary create_count delete_count failed_count =
      "채점이 완료되었습니다."
      <> (" (클리닉 생성: "
          <> (to_text create_count
              <> ("건, 삭제: "
                  <> (to_text delete_count <> ("건, 총 불합격자: " <> (to_text failed_count <> "명)"))))))

  abbrev pub complete_with_clinics : CreateClinicsDto → Exam → Lecture → Service Completion
  complete_with_clinics dto exam lecture = do
    failed ← find_failed_grades_by_exam_id exam.id
    existing ← gets λ s. find_many (clinic_in exam.id) s.clinics
    counts ←
        sync_needed (not (is_completed exam.grading_status)) dto exam lecture
          (to_create failed existing) (to_delete_ids failed existing)
    pure (record {
      create_count = counts.0;
      delete_count = counts.1;
      message = summary counts.0 counts.1 (length failed);
    })

  abbrev pub complete_without_clinics : Exam → Service Completion
  complete_without_clinics exam = do
    complete_if (not (is_completed exam.grading_status)) exam.id
    pure (record { create_count = 0; delete_count = 0; message = "채점이 완료되었습니다." })

  abbrev pub complete_as : Bool → CreateClinicsDto → Exam → Lecture → Service Completion
  complete_as true dto exam lecture = complete_with_clinics dto exam lecture
  complete_as false dto exam lecture = complete_without_clinics exam

  abbrev pub complete_exam : CreateClinicsDto → Exam → Lecture → Service Completion
  complete_exam dto exam lecture = complete_as exam.is_auto_clinic dto exam lecture

  abbrev pub complete_if_permitted :
      CreateClinicsDto → UserType → ℕ → Exam → Lecture → Service Completion
  complete_if_permitted dto user_type profile_id exam lecture = do
    permitted (validate_instructor_access lecture.instructor_id user_type profile_id)
    complete_exam dto exam lecture

  abbrev pub complete_found : CreateClinicsDto → UserType → ℕ → Exam → Service Completion
  complete_found dto user_type profile_id exam = do
    lecture ← lecture_or_throw exam.lecture_id
    complete_if_permitted dto user_type profile_id exam lecture

  pub complete_grading : ℕ → CreateClinicsDto → UserType → ℕ → Service Completion
  complete_grading exam_id dto user_type profile_id = do
    exam ← exam_or_throw exam_id
    complete_found dto user_type profile_id exam
