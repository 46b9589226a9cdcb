-- ===== src/Permission/Read.antt =====
-- Who may read a lecture: the checks of `validateLectureReadAccess` against what they mean.
use mathlib.Core.Option.{some-injective}
use mathlib.Core.Bool.{false≢true}
use ssambee_be.Prelude.{
  ℕ, ◌==◌, ==_iff, ◌≡◌, ◌↔◌, refl, sym, ap, ◌∙◌, Bool, true, false, not, Option, none, some, List,
  [], ◌∷◌, length, find_unique, arith,
}
use ssambee_be.Prelude.Exists.{IsIn}
use ssambee_be.Prelude.Action.{
  Result, Returns, throw_if, gets, or_throw, pure, forbidden, Exception, ◌>>=◌, ◌>>◌,
}
use ssambee_be.Permission.Meaning.{
  Attends, IsChild, MayRead, student_iff, ids, ids_iff, attended_iff,
}
use ssambee_be.Permission.{
  UserType, Assistant, Enrollment, School, exists_by_lecture_id_and_student_id,
  exists_by_lecture_id_and_enrollment_ids, get_effective_instructor_id, validate_instructor_access,
  validate_parent_lecture_access, validate_lecture_read_access,
}

abbrev pub Passes : {A : Type 0} → School → Result A × School → Type 0
Passes s r = Returns (λ _ s'. s' ≡ s) r

pub guard_iff :
    (b : Bool) (e : Exception) (s : School) → Passes s (throw_if (not b) e s) ↔ (b ≡ true)
guard_iff true e s = (λ _. refl, λ _. refl)
guard_iff false e s = (λ h. absurd h, λ h. absurd (false≢true h))

module _ (s : School) (lecture_id : ℕ) where
  not_empty : (k : ℕ) (ks : List ℕ) → IsIn k ks → (length ks == 0) ≡ false
  not_empty k [] i = absurd i
  not_empty k (j ∷ ks) i = ground arith

  parent_checks :
      (empty : Bool) (attended : School → Bool) (e e' : Exception)
      → (attended s ≡ true → empty ≡ false)
      → Passes s ((throw_if empty e >> (gets attended >>= λ b. throw_if (not b) e')) s)
        ↔ (attended s ≡ true)
  parent_checks true attended e e' h = (λ r. absurd r, λ a. absurd (false≢true (sym (h a))))
  parent_checks false attended e e' h = guard_iff (attended s) e' s

  parent_iff :
      (profile_id : ℕ)
      → Passes s (validate_parent_lecture_access profile_id lecture_id s)
        ↔ ((e : Enrollment) × Attends s lecture_id e × IsChild s profile_id e)
  unfolding validate_parent_lecture_access ids
  parent_iff profile_id =
      let checks =
        parent_checks (length (ids s lecture_id profile_id) == 0)
          (exists_by_lecture_id_and_enrollment_ids lecture_id (ids s lecture_id profile_id))
          (forbidden "등록된 자녀가 없습니다.") (forbidden "자녀가 수강 중인 강의가 아닙니다.")
          (λ a.
            let (e, (ie, attends), child) = (attended_iff s lecture_id profile_id).0 a in
            not_empty e.id (ids s lecture_id profile_id)
              ((ids_iff s lecture_id profile_id e.id).1 (e, ie, child, refl))) in
      (
        λ r. (attended_iff s lecture_id profile_id).0 (checks.0 r),
        λ m. checks.1 ((attended_iff s lecture_id profile_id).1 m),
      )

  pub assistant_iff :
      (instructor_id profile_id : ℕ) (found : Option Assistant)
      → Passes s (
          ((or_throw found (forbidden "조교 정보를 찾을 수 없습니다.") >>= λ (a : Assistant).
          pure a.instructor_id)
              >>= λ effective_id.
                  throw_if (not (effective_id == instructor_id)) (forbidden "해당 권한이 없습니다."))
            s)
        ↔ ((a : Assistant) × (found ≡ some a) × (a.instructor_id ≡ instructor_id))
  assistant_iff instructor_id profile_id none = (λ r. absurd r, λ (a, e, h). cc)
  assistant_iff instructor_id profile_id (some a) =
      let check = guard_iff (a.instructor_id == instructor_id) (forbidden "해당 권한이 없습니다.") s in
      (
        λ r. (a, refl, (==_iff a.instructor_id instructor_id).0 (check.0 r)),
        λ (b, e, h). check.1 (
            (==_iff a.instructor_id instructor_id).1
              (ap (λ (c : Assistant). c.instructor_id) (some-injective _ _ e) ∙ h)),
      )

  -- Reading a lecture is allowed to exactly those that `MayRead` names, whatever the type of the
  -- user, and the check changes nothing.
  pub lecture_read_iff :
      (instructor_id : ℕ) (user_type : UserType) (profile_id : ℕ)
      → Passes s (validate_lecture_read_access lecture_id instructor_id user_type profile_id s)
        ↔ MayRead s lecture_id instructor_id user_type profile_id
  unfolding validate_lecture_read_access validate_instructor_access get_effective_instructor_id
  lecture_read_iff instructor_id UserType.instructor profile_id =
      let check = guard_iff (profile_id == instructor_id) (forbidden "해당 권한이 없습니다.") s in
      (
        λ r. (==_iff profile_id instructor_id).0 (check.0 r),
        λ m. check.1 ((==_iff profile_id instructor_id).1 m),
      )
  lecture_read_iff instructor_id UserType.assistant profile_id =
      assistant_iff instructor_id profile_id
        (find_unique (λ (a : Assistant). a.id == profile_id) s.assistants)
  lecture_read_iff instructor_id UserType.student profile_id =
      let check =
        guard_iff (exists_by_lecture_id_and_student_id lecture_id profile_id s)
          (forbidden "수강 중인 강의가 아닙니다.") s in
      (
        λ r. (student_iff s lecture_id profile_id).0 (check.0 r),
        λ m. check.1 ((student_iff s lecture_id profile_id).1 m),
      )
  lecture_read_iff instructor_id UserType.parent profile_id = parent_iff profile_id
  lecture_read_iff instructor_id UserType.admin profile_id = (λ r. absurd r, λ m. absurd m)
