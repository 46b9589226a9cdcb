-- ===== src/Permission/Checks.antt =====
-- The checks of src/services/permission.service.ts only read.
use ssambee_be.Prelude.{ℕ, ◌==◌, ◌≡◌, refl, Bool, true, false, not, Option, none, some, find_unique}
use ssambee_be.Prelude.Action.{throw_if, or_throw, pure, forbidden, ◌>>=◌}
use ssambee_be.Permission.{
  UserType, Assistant, School, validate_instructor_access, get_effective_instructor_id,
}

throw_if-keeps : (b : Bool) (s : School) → (throw_if b (forbidden "해당 권한이 없습니다.") s).1 ≡ s
throw_if-keeps true s = refl
throw_if-keeps false s = refl

pub validate_instructor_access-keeps :
    (instructor_id : ℕ) (user_type : UserType) (profile_id : ℕ) (s : School)
    → (validate_instructor_access instructor_id user_type profile_id s).1 ≡ s
unfolding validate_instructor_access get_effective_instructor_id
validate_instructor_access-keeps instructor_id UserType.instructor profile_id s = throw_if-keeps _ s
validate_instructor_access-keeps instructor_id UserType.assistant profile_id s =
    go (find_unique (λ (a : Assistant). a.id == profile_id) s.assistants)
  where
    go :
        (found : Option Assistant)
        → (((or_throw found (forbidden "조교 정보를 찾을 수 없습니다.") >>= λ (a : Assistant).
                pure a.instructor_id)
              >>= λ effective_id.
                  throw_if (not (effective_id == instructor_id)) (forbidden "해당 권한이 없습니다."))
            s).1
          ≡ s
    go none = refl
    go (some a) = throw_if-keeps _ s
validate_instructor_access-keeps instructor_id UserType.student profile_id s = refl
validate_instructor_access-keeps instructor_id UserType.parent profile_id s = refl
validate_instructor_access-keeps instructor_id UserType.admin profile_id s = refl
