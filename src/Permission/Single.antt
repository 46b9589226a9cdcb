-- ===== src/Permission/Single.antt =====
-- Who may read one enrollment: the checks of `validateEnrollmentReadAccess` of
-- src/services/permission.service.ts against what they mean.
use mathlib.Core.Option.{some-injective}
use mathlib.Core.Bool.{false≢true}
use ssambee_be.Prelude.{
  ℕ, ◌==◌, ==_iff, ◌≡◌, ◌↔◌, refl, ap, ◌∙◌, Bool, true, false, not, Option, none, some, find_unique,
}
use ssambee_be.Prelude.Action.{Result, throw_if, or_throw, pure, forbidden, not_found, ◌>>=◌}
use ssambee_be.Permission.{
  UserType, Assistant, ParentChildLink, Enrollment, School, is_the, validate_instructor_access,
  get_effective_instructor_id, validate_child_access, validate_linked_child,
  validate_enrollment_read_access,
}
use ssambee_be.Permission.Meaning.{is_the_iff}
use ssambee_be.Permission.Read.{Passes, guard_iff, assistant_iff}

-- The link to a child that an enrollment names.
abbrev pub LinksTo : School → Option ℕ → ℕ → Type 0
LinksTo s link_id parent_id =
    (k : ℕ) × (l : ParentChildLink) × (link_id ≡ some k)
    × (find_unique (λ (l : ParentChildLink). l.id == k) s.child_links ≡ some l)
    × (l.app_parent_id ≡ parent_id)

-- The instructor of the enrollment; an assistant of that instructor; the student who is enrolled;
-- the parent whom the enrollment's link to a child names.
abbrev pub MayReadEnrollment : School → Enrollment → UserType → ℕ → Type 0
MayReadEnrollment s e UserType.instructor profile_id = profile_id ≡ e.instructor_id
MayReadEnrollment s e UserType.assistant profile_id =
    (a : Assistant) × (find_unique (λ (a : Assistant). a.id == profile_id) s.assistants ≡ some a)
    × (a.instructor_id ≡ e.instructor_id)
MayReadEnrollment s e UserType.student profile_id = e.app_student_id ≡ some profile_id
MayReadEnrollment s e UserType.parent profile_id = LinksTo s e.app_parent_link_id profile_id
MayReadEnrollment s e UserType.admin profile_id = ⊥

module _ (s : School) where
  child_iff :
      (k parent_id : ℕ) (found : Option ParentChildLink)
      → Passes s (
          (((or_throw found (not_found "자녀 정보를 찾을 수 없습니다.") >>= λ (l : ParentChildLink).
          throw_if (not (l.app_parent_id == parent_id)) (forbidden "본인의 자녀만 조회할 수 있습니다.") >>= λ _.
          pure l))
              >>= λ _. pure tt)
            s)
        ↔ ((l : ParentChildLink) × (found ≡ some l) × (l.app_parent_id ≡ parent_id))
  child_iff k parent_id none = (λ r. absurd r, λ (l, e, h). cc)
  child_iff k parent_id (some l) = (
    λ r. (l, refl, (==_iff l.app_parent_id parent_id).0 (forth (l.app_parent_id == parent_id) r)),
    λ (m, e, h). back (l.app_parent_id == parent_id) (
        (==_iff l.app_parent_id parent_id).1
          (ap (λ (c : ParentChildLink). c.app_parent_id) (some-injective _ _ e) ∙ h)),
  )
    where
      run : Bool → Result (Unit {0}) × School
      run b =
          ((throw_if (not b) (forbidden "본인의 자녀만 조회할 수 있습니다.") >>= λ _. pure l) >>= λ _. pure tt) s

      forth : (b : Bool) → Passes s (run b) → b ≡ true
      forth true r = refl
      forth false r = absurd r

      back : (b : Bool) → b ≡ true → Passes s (run b)
      back true h = refl
      back false h = absurd (false≢true h)

  linked_iff :
      (link_id : Option ℕ) (parent_id : ℕ)
      → Passes s (validate_linked_child parent_id link_id s) ↔ LinksTo s link_id parent_id
  unfolding validate_child_access
  linked_iff none parent_id = (λ r. absurd r, λ (k, l, e, _, _). cc)
  linked_iff (some k) parent_id =
      let child =
        child_iff k parent_id (find_unique (λ (l : ParentChildLink). l.id == k) s.child_links) in
      (
        λ r. let (l, e, h) = child.0 r in (k, l, refl, e, h),
        λ (j, l, same, e, h). child.1 (
          l,
          ap (λ i. find_unique (λ (l : ParentChildLink). l.id == i) s.child_links)
                (some-injective _ _ same)
              ∙ e,
          h,
        ),
      )

  -- Reading one enrollment is allowed to exactly those that `MayReadEnrollment` names, whatever
  -- the type of the user, and the check changes nothing.
  pub enrollment_read_iff :
      (enrollment : Enrollment) (user_type : UserType) (profile_id : ℕ)
      → Passes s (validate_enrollment_read_access enrollment user_type profile_id s)
        ↔ MayReadEnrollment s enrollment user_type profile_id
  unfolding validate_enrollment_read_access validate_instructor_access get_effective_instructor_id
  enrollment_read_iff e UserType.instructor profile_id =
      let check = guard_iff (profile_id == e.instructor_id) (forbidden "해당 권한이 없습니다.") s in
      (
        λ r. (==_iff profile_id e.instructor_id).0 (check.0 r),
        λ m. check.1 ((==_iff profile_id e.instructor_id).1 m),
      )
  enrollment_read_iff e UserType.assistant profile_id =
      assistant_iff s 0 e.instructor_id profile_id
        (find_unique (λ (a : Assistant). a.id == profile_id) s.assistants)
  enrollment_read_iff e UserType.student profile_id =
      let check =
        guard_iff (is_the e.app_student_id profile_id) (forbidden "본인의 정보만 조회할 수 있습니다.") s in
      (
        λ r. (is_the_iff e.app_student_id profile_id).0 (check.0 r),
        λ m. check.1 ((is_the_iff e.app_student_id profile_id).1 m),
      )
  enrollment_read_iff e UserType.parent profile_id = linked_iff e.app_parent_link_id profile_id
  enrollment_read_iff e UserType.admin profile_id = (λ r. absurd r, λ m. absurd m)
