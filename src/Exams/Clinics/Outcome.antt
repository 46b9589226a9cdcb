-- ===== src/Exams/Clinics/Outcome.antt =====
-- `completeGrading` as a whole, on every branch.
use ssambee_be.Prelude.{ℕ, ◌≡◌, Bool, true, false, Option, none, some, String}
use ssambee_be.Prelude.Action.{Result, ok, err, not_found, Returns}
use ssambee_be.Permission.{UserType}
use ssambee_be.Exams.Database.{Lecture, Exam, Academy}
use ssambee_be.Exams.Access.{find_lecture, verdict}
use ssambee_be.Exams.Clinics.{CreateClinicsDto, Completion, complete_grading}
use ssambee_be.Exams.Clinics.Complete.{IsComplete, IsSynced}

module _ (to_text : ℕ → String) (exam_id : ℕ) (dto : CreateClinicsDto) (user_type : UserType)
    (profile_id : ℕ) (s : Academy) where
  -- The exam is completed, with its clinics synchronised if it asks for clinics, else with no
  -- clinic changed.
  abbrev pub IsGraded : Exam → Lecture → Bool → Completion → Academy → Type 0
  IsGraded exam lecture true c s' =
      IsSynced to_text dto exam lecture s (c.create_count, c.delete_count) s'
  IsGraded exam lecture false c s' =
      IsComplete exam s s' × (c.create_count ≡ 0) × (c.delete_count ≡ 0)

  abbrev pub run : Result Completion × Academy
  run = complete_grading to_text exam_id dto user_type profile_id s

  abbrev pub Permitted : Exam → Lecture → Result (Unit {0}) → Type 0
  Permitted exam lecture (err e) = run ≡ (err e, s)
  Permitted exam lecture (ok _) = Returns (IsGraded exam lecture exam.is_auto_clinic) run

  abbrev pub OfLecture : Exam → Option Lecture → Type 0
  OfLecture exam none = run ≡ (err (not_found "강의를 찾을 수 없습니다."), s)
  OfLecture exam (some lecture) =
      Permitted exam lecture (verdict lecture.instructor_id user_type profile_id s)

  abbrev pub Outcome : Option Exam → Type 0
  Outcome none = run ≡ (err (not_found "시험을 찾을 수 없습니다."), s)
  Outcome (some exam) = OfLecture exam (find_lecture exam.lecture_id s)
