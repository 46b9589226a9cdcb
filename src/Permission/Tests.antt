-- ===== src/Permission/Tests.antt =====
-- The theorems on the permissions, at a school with one lecture.
use ssambee_be.Prelude.{◌↔◌, some, true, false, [], ◌∷◌}
use ssambee_be.Permission.{
  UserType, Enrollment, School, validate_lecture_read_access, validate_enrollment_read_access,
}
use ssambee_be.Permission.Single.{MayReadEnrollment, enrollment_read_iff}
use ssambee_be.Permission.Meaning.{MayRead}
use ssambee_be.Permission.Read.{Passes, lecture_read_iff}

-- The enrollment of the child.
abbrev sample_enrollment : Enrollment
sample_enrollment = record {
  id = 50;
  instructor_id = 1;
  app_student_id = some 20;
  app_parent_link_id = some 40;
  is_active = true;
  is_deleted = false;
}

-- Lecture 5 of instructor 1; the child of parent 30 attends it.
abbrev sample_school : School
sample_school = record {
  assistants = (record { id = 2; instructor_id = 1 }) ∷ [];
  child_links = (record { id = 40; app_parent_id = 30 }) ∷ [];
  enrollments = sample_enrollment ∷ [];
  lecture_enrollments = (record { id = 60; lecture_id = 5; enrollment_id = 50 }) ∷ [];
}

lecture_read_example :
    Passes sample_school (validate_lecture_read_access 5 1 UserType.parent 30 sample_school)
    ↔ MayRead sample_school 5 1 UserType.parent 30
lecture_read_example = lecture_read_iff sample_school 5 1 UserType.parent 30

enrollment_read_example :
    Passes sample_school
      (validate_enrollment_read_access sample_enrollment UserType.parent 30 sample_school)
    ↔ MayReadEnrollment sample_school sample_enrollment UserType.parent 30
enrollment_read_example = enrollment_read_iff sample_school sample_enrollment UserType.parent 30
