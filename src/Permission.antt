-- ===== src/Permission.antt =====
-- src/services/permission.service.ts: who may read and change what, over the tables of assistants,
-- of the links of parents to children, and of enrollments. A call returns or throws, and changes
-- nothing. Only the rows and columns that the checks read are modelled.
pub mod Meaning
pub mod Checks
pub mod Read
pub mod Single
pub mod Tests
use ssambee_be.Prelude.{
  ℕ, ◌==◌, Bool, true, false, not, ◌&&◌, Option, none, some, List, [], ◌∷◌, String, length,
  find_unique, find_many, any_where, map,
}
use ssambee_be.Prelude.Exists.{includes}
use ssambee_be.Prelude.Action.{
  Action, pure, throw, gets, or_throw, throw_if, forbidden, not_found, ◌>>=◌, ◌>>◌,
}

pub data UserType : Type 0 where
  admin instructor assistant student parent : UserType

pub record Assistant : Type 0 where
  pub id : ℕ
  pub instructor_id : ℕ

pub record ParentChildLink : Type 0 where
  pub id : ℕ
  pub app_parent_id : ℕ

-- `is_active` and `is_deleted` are `status = 'ACTIVE'` and `deletedAt` other than null.
pub record Enrollment : Type 0 where
  pub id : ℕ
  pub instructor_id : ℕ
  pub app_student_id : Option ℕ
  pub app_parent_link_id : Option ℕ
  pub is_active : Bool
  pub is_deleted : Bool

pub record LectureEnrollment : Type 0 where
  pub id : ℕ
  pub lecture_id : ℕ
  pub enrollment_id : ℕ

pub record School : Type 0 where
  pub assistants : List Assistant
  pub child_links : List ParentChildLink
  pub enrollments : List Enrollment
  pub lecture_enrollments : List LectureEnrollment

abbrev pub Access : Type 0 → Type 0
Access = Action School

abbrev pub is_the : Option ℕ → ℕ → Bool
is_the none k = false
is_the (some j) k = j == k

abbrev pub is_one_of : Option ℕ → List ℕ → Bool
is_one_of none ks = false
is_one_of (some j) ks = includes j ks

-- `count` over the join of the two tables, more than 0.
abbrev pub exists_joined : (LectureEnrollment → Bool) → (Enrollment → Bool) → School → Bool
exists_joined p q s =
    any_where
      (λ (l : LectureEnrollment).
        p l && any_where (λ (e : Enrollment). (e.id == l.enrollment_id) && q e) s.enrollments)
      s.lecture_enrollments

abbrev pub exists_by_lecture_id_and_student_id : ℕ → ℕ → School → Bool
exists_by_lecture_id_and_student_id lecture_id app_student_id =
    exists_joined (λ l. l.lecture_id == lecture_id)
      (λ e. is_the e.app_student_id app_student_id && not e.is_deleted)

abbrev pub exists_by_lecture_id_and_enrollment_ids : ℕ → List ℕ → School → Bool
exists_by_lecture_id_and_enrollment_ids lecture_id enrollment_ids =
    exists_joined (λ l. (l.lecture_id == lecture_id) && includes l.enrollment_id enrollment_ids)
      (λ e. not e.is_deleted && e.is_active)

abbrev is_under_links : List ℕ → Enrollment → Bool
is_under_links link_ids e =
    is_one_of e.app_parent_link_id link_ids && e.is_active && not e.is_deleted

unfoldable pub get_effective_instructor_id : UserType → ℕ → Access ℕ
get_effective_instructor_id UserType.instructor profile_id = pure profile_id
get_effective_instructor_id UserType.assistant profile_id = do
  found ← gets λ s. find_unique (λ a. a.id == profile_id) s.assistants
  row ← or_throw found (forbidden "조교 정보를 찾을 수 없습니다.")
  pure row.instructor_id
get_effective_instructor_id UserType.student profile_id = throw (forbidden "강사 또는 조교만 접근 가능합니다.")
get_effective_instructor_id UserType.parent profile_id = throw (forbidden "강사 또는 조교만 접근 가능합니다.")
get_effective_instructor_id UserType.admin profile_id = throw (forbidden "강사 또는 조교만 접근 가능합니다.")

unfoldable pub validate_instructor_access : ℕ → UserType → ℕ → Access (Unit {0})
unfolding get_effective_instructor_id
validate_instructor_access instructor_id user_type profile_id = do
  effective_id ← get_effective_instructor_id user_type profile_id
  throw_if (not (effective_id == instructor_id)) (forbidden "해당 권한이 없습니다.")

abbrev pub validate_student_access : ℕ → Option ℕ → Access (Unit {0})
validate_student_access profile_id student_id =
    throw_if (not (is_the student_id profile_id)) (forbidden "본인의 정보만 조회할 수 있습니다.")

pub validate_child_access : UserType → ℕ → ℕ → Access ParentChildLink
validate_child_access UserType.parent profile_id child_link_id = do
  found ← gets λ s. find_unique (λ l. l.id == child_link_id) s.child_links
  child_link ← or_throw found (not_found "자녀 정보를 찾을 수 없습니다.")
  throw_if (not (child_link.app_parent_id == profile_id)) (forbidden "본인의 자녀만 조회할 수 있습니다.")
  pure child_link
validate_child_access UserType.admin profile_id child_link_id = throw (forbidden "접근 권한이 없습니다.")
validate_child_access UserType.instructor profile_id child_link_id =
    throw (forbidden "접근 권한이 없습니다.")
validate_child_access UserType.assistant profile_id child_link_id = throw (forbidden "접근 권한이 없습니다.")
validate_child_access UserType.student profile_id child_link_id = throw (forbidden "접근 권한이 없습니다.")

abbrev pub validate_linked_child : ℕ → Option ℕ → Access (Unit {0})
validate_linked_child profile_id none = throw (forbidden "연결된 자녀 정보가 없습니다.")
validate_linked_child profile_id (some link_id) =
    validate_child_access UserType.parent profile_id link_id >> pure tt

pub validate_enrollment_read_access : Enrollment → UserType → ℕ → Access (Unit {0})
validate_enrollment_read_access enrollment UserType.instructor profile_id =
    validate_instructor_access enrollment.instructor_id UserType.instructor profile_id
validate_enrollment_read_access enrollment UserType.assistant profile_id =
    validate_instructor_access enrollment.instructor_id UserType.assistant profile_id
validate_enrollment_read_access enrollment UserType.student profile_id =
    validate_student_access profile_id enrollment.app_student_id
validate_enrollment_read_access enrollment UserType.parent profile_id =
    validate_linked_child profile_id enrollment.app_parent_link_id
validate_enrollment_read_access enrollment UserType.admin profile_id =
    throw (forbidden "접근 권한이 없습니다.")

-- The order of the two lists is left out: only the identifiers are used.
abbrev pub parent_enrollment_ids : ℕ → School → List ℕ
parent_enrollment_ids parent_profile_id s =
    let child_links =
      find_many (λ (l : ParentChildLink). l.app_parent_id == parent_profile_id) s.child_links in
    let link_ids = map (λ (l : ParentChildLink). l.id) child_links in
    map (λ (e : Enrollment). e.id) (find_many (is_under_links link_ids) s.enrollments)

pub validate_parent_lecture_access : ℕ → ℕ → Access (Unit {0})
validate_parent_lecture_access parent_profile_id lecture_id = do
  enrollment_ids ← gets (parent_enrollment_ids parent_profile_id)
  throw_if (length enrollment_ids == 0) (forbidden "등록된 자녀가 없습니다.")
  has_access ← gets (exists_by_lecture_id_and_enrollment_ids lecture_id enrollment_ids)
  throw_if (not has_access) (forbidden "자녀가 수강 중인 강의가 아닙니다.")

-- The lecture is given by its identifier and its instructor.
pub validate_lecture_read_access : ℕ → ℕ → UserType → ℕ → Access (Unit {0})
validate_lecture_read_access lecture_id instructor_id UserType.instructor profile_id =
    validate_instructor_access instructor_id UserType.instructor profile_id
validate_lecture_read_access lecture_id instructor_id UserType.assistant profile_id =
    validate_instructor_access instructor_id UserType.assistant profile_id
validate_lecture_read_access lecture_id instructor_id UserType.student profile_id = do
  is_enrolled ← gets (exists_by_lecture_id_and_student_id lecture_id profile_id)
  throw_if (not is_enrolled) (forbidden "수강 중인 강의가 아닙니다.")
validate_lecture_read_access lecture_id instructor_id UserType.parent profile_id =
    validate_parent_lecture_access profile_id lecture_id
validate_lecture_read_access lecture_id instructor_id UserType.admin profile_id =
    throw (forbidden "접근 권한이 없습니다.")
