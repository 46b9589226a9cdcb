-- ===== src/Permission/Meaning.antt =====
-- Who may read a lecture, and what the queries of src/services/permission.service.ts find.
use mathlib.Core.Option.{some-injective}
use mathlib.Core.Bool.{false≢true}
use ssambee_be.Prelude.{
  ℕ, ◌==◌, ==_iff, ◌≡◌, ◌↔◌, refl, sym, ap, subst, Bool, true, false, not, ◌&&◌, Option, none, some,
  List, find_unique, find_many, any_where, map,
}
use ssambee_be.Prelude.Exists.{
  IsIn, includes, any_where_found, any_where-IsIn, find_many-IsIn, IsIn-find_many, map-IsIn,
  IsIn-map, includes-IsIn, includes_found,
}
use ssambee_be.Permission.{
  UserType, Assistant, ParentChildLink, Enrollment, LectureEnrollment, School, is_the, is_one_of,
  is_under_links, exists_joined, exists_by_lecture_id_and_student_id,
  exists_by_lecture_id_and_enrollment_ids, parent_enrollment_ids,
}

-- An enrollment of the table under which the lecture is attended.
abbrev pub Attends : School → ℕ → Enrollment → Type 0
Attends s lecture_id e =
    IsIn e s.enrollments
    × ((l : LectureEnrollment) × IsIn l s.lecture_enrollments
        × (l.lecture_id ≡ lecture_id)
        × (l.enrollment_id ≡ e.id))

-- An enrollment of a child of the parent, active and not deleted.
abbrev pub IsChild : School → ℕ → Enrollment → Type 0
IsChild s profile_id e =
    (e.is_active ≡ true)
    × (e.is_deleted ≡ false)
    × ((k : ParentChildLink) × IsIn k s.child_links
        × (k.app_parent_id ≡ profile_id)
        × (e.app_parent_link_id ≡ some k.id))

-- The instructor of the lecture; an assistant of that instructor; a student who attends the lecture
-- under an enrollment that is not deleted; a parent of whose children one attends it under an
-- enrollment that is active and not deleted.
abbrev pub MayRead : School → ℕ → ℕ → UserType → ℕ → Type 0
MayRead s lecture_id instructor_id UserType.instructor profile_id = profile_id ≡ instructor_id
MayRead s lecture_id instructor_id UserType.assistant profile_id =
    (a : Assistant) × (find_unique (λ (a : Assistant). a.id == profile_id) s.assistants ≡ some a)
    × (a.instructor_id ≡ instructor_id)
MayRead s lecture_id instructor_id UserType.student profile_id =
    (e : Enrollment) × Attends s lecture_id e
    × (e.app_student_id ≡ some profile_id)
    × (e.is_deleted ≡ false)
MayRead s lecture_id instructor_id UserType.parent profile_id =
    (e : Enrollment) × Attends s lecture_id e × IsChild s profile_id e
MayRead s lecture_id instructor_id UserType.admin profile_id = ⊥

and_true : (a b : Bool) → (a && b) ≡ true → (a ≡ true) × (b ≡ true)
and_true true b h = (refl, h)
and_true false b h = absurd (false≢true h)

both_true : {a b : Bool} → a ≡ true → b ≡ true → (a && b) ≡ true
both_true h k = rw (h, k) refl

not-true : (b : Bool) → not b ≡ true → b ≡ false
not-true false h = refl
not-true true h = absurd (false≢true h)

pub is_the_iff : (o : Option ℕ) (k : ℕ) → (is_the o k ≡ true) ↔ (o ≡ some k)
is_the_iff none k = (λ h. absurd (false≢true h), λ h. cc)
is_the_iff (some j) k =
    (λ h. ap some ((==_iff j k).0 h), λ h. (==_iff j k).1 (some-injective _ _ h))

module _ (s : School) (lecture_id : ℕ) where
  joined :
      (p : LectureEnrollment → Bool) (q : Enrollment → Bool)
      → exists_joined p q s ≡ true
      → (l : LectureEnrollment) × (e : Enrollment) × IsIn l s.lecture_enrollments
        × IsIn e s.enrollments
        × (e.id ≡ l.enrollment_id)
        × (p l ≡ true)
        × (q e ≡ true)
  joined p q h =
      let (l, il, hl) =
        any_where_found
          (λ (l : LectureEnrollment).
            p l && any_where (λ (e : Enrollment). (e.id == l.enrollment_id) && q e) s.enrollments)
          s.lecture_enrollments h in
      let (hp, he) = and_true (p l) _ hl in
      let (e, ie, hq) =
        any_where_found (λ (e : Enrollment). (e.id == l.enrollment_id) && q e) s.enrollments he in
      let (same, hq') = and_true (e.id == l.enrollment_id) (q e) hq in
      (l, e, il, ie, (==_iff e.id l.enrollment_id).0 same, hp, hq')

  joins :
      (p : LectureEnrollment → Bool) (q : Enrollment → Bool) (l : LectureEnrollment)
      (e : Enrollment)
      → IsIn l s.lecture_enrollments
      → IsIn e s.enrollments
      → e.id ≡ l.enrollment_id
      → p l ≡ true
      → q e ≡ true
      → exists_joined p q s ≡ true
  joins p q l e il ie same hp hq =
      any_where-IsIn
        (λ (l : LectureEnrollment).
          p l && any_where (λ (e : Enrollment). (e.id == l.enrollment_id) && q e) s.enrollments)
        l s.lecture_enrollments il
        (both_true hp (
          any_where-IsIn (λ (e : Enrollment). (e.id == l.enrollment_id) && q e) e s.enrollments ie
            (both_true ((==_iff e.id l.enrollment_id).1 same) hq)))

  pub student_iff :
      (profile_id : ℕ)
      → (exists_by_lecture_id_and_student_id lecture_id profile_id s ≡ true) ↔ (
          (e : Enrollment) × Attends s lecture_id e
          × (e.app_student_id ≡ some profile_id)
          × (e.is_deleted ≡ false))
  student_iff profile_id = (
    λ h.
        let (l, e, il, ie, same, hp, hq) =
          joined (λ l. l.lecture_id == lecture_id)
            (λ e. is_the e.app_student_id profile_id && not e.is_deleted) h in
        let (mine, kept) = and_true (is_the e.app_student_id profile_id) (not e.is_deleted) hq in
        (
          e,
          (ie, (l, il, (==_iff l.lecture_id lecture_id).0 hp, sym same)),
          (is_the_iff e.app_student_id profile_id).0 mine,
          not-true e.is_deleted kept,
        ),
    λ (e, (ie, (l, il, here, same)), mine, kept).
        joins (λ l. l.lecture_id == lecture_id)
          (λ e. is_the e.app_student_id profile_id && not e.is_deleted) l e il ie (sym same)
          ((==_iff l.lecture_id lecture_id).1 here)
          (both_true ((is_the_iff e.app_student_id profile_id).1 mine) (rw kept refl)),
  )

  link_ids : ℕ → List ℕ
  link_ids profile_id =
      map (λ (l : ParentChildLink). l.id)
        (find_many (λ (l : ParentChildLink). l.app_parent_id == profile_id) s.child_links)

  one_of_links :
      (profile_id : ℕ) (o : Option ℕ)
      → (is_one_of o (link_ids profile_id) ≡ true) ↔ (
          (k : ParentChildLink) × IsIn k s.child_links
          × (k.app_parent_id ≡ profile_id)
          × (o ≡ some k.id))
  unfolding link_ids
  one_of_links profile_id none = (λ h. absurd (false≢true h), λ (k, ik, mine, e). cc)
  one_of_links profile_id (some j) = (
    λ h.
        let (k, ik, same) =
          IsIn-map (λ (l : ParentChildLink). l.id) j
            (find_many (λ (l : ParentChildLink). l.app_parent_id == profile_id) s.child_links)
            (includes_found j _ h) in
        let (ik', mine) =
          IsIn-find_many (λ (l : ParentChildLink). l.app_parent_id == profile_id) k s.child_links
            ik in
        (k, ik', (==_iff k.app_parent_id profile_id).0 mine, ap some same),
    λ (k, ik, mine, e). includes-IsIn j (link_ids profile_id) (
        subst (λ n. IsIn n (link_ids profile_id)) (sym (some-injective _ _ e))
          (map-IsIn (λ (l : ParentChildLink). l.id) k
            (find_many (λ (l : ParentChildLink). l.app_parent_id == profile_id) s.child_links)
            (find_many-IsIn (λ (l : ParentChildLink). l.app_parent_id == profile_id) k s.child_links
              ik ((==_iff k.app_parent_id profile_id).1 mine)))),
  )

  under_links_iff :
      (profile_id : ℕ) (e : Enrollment)
      → (is_under_links (link_ids profile_id) e ≡ true) ↔ IsChild s profile_id e
  under_links_iff profile_id e = (
    λ h.
        let (first, kept) =
          and_true (is_one_of e.app_parent_link_id (link_ids profile_id) && e.is_active)
            (not e.is_deleted) h in
        let (linked, active) =
          and_true (is_one_of e.app_parent_link_id (link_ids profile_id)) e.is_active first in
        (
          active,
          not-true e.is_deleted kept,
          (one_of_links profile_id e.app_parent_link_id).0 linked,
        ),
    λ (active, kept, child).
        both_true (both_true ((one_of_links profile_id e.app_parent_link_id).1 child) active)
          (rw kept refl),
  )

  -- The two checks for a parent: that there are enrollments of children, and that one of them attends.
  unfoldable pub ids : ℕ → List ℕ
  ids profile_id = parent_enrollment_ids profile_id s

  pub ids_iff :
      (profile_id j : ℕ)
      → IsIn j (ids profile_id)
        ↔ ((e : Enrollment) × IsIn e s.enrollments × IsChild s profile_id e × (j ≡ e.id))
  unfolding ids link_ids
  ids_iff profile_id j = (
    λ i.
        let (e, ie, same) =
          IsIn-map (λ (e : Enrollment). e.id) j
            (find_many (is_under_links (link_ids profile_id)) s.enrollments) i in
        let (ie', under) =
          IsIn-find_many (is_under_links (link_ids profile_id)) e s.enrollments ie in
        (e, ie', (under_links_iff profile_id e).0 under, same),
    λ (e, ie, child, same).
        subst (λ n. IsIn n (ids profile_id)) (sym same)
          (map-IsIn (λ (e : Enrollment). e.id) e
            (find_many (is_under_links (link_ids profile_id)) s.enrollments)
            (find_many-IsIn (is_under_links (link_ids profile_id)) e s.enrollments ie
              ((under_links_iff profile_id e).1 child))),
  )

  pub attended_iff :
      (profile_id : ℕ)
      → (exists_by_lecture_id_and_enrollment_ids lecture_id (ids profile_id) s ≡ true)
        ↔ ((e : Enrollment) × Attends s lecture_id e × IsChild s profile_id e)
  attended_iff profile_id = (
    λ h.
        let (l, e', il, ie', same', hp, hq) =
          joined (λ l. (l.lecture_id == lecture_id) && includes l.enrollment_id (ids profile_id))
            (λ e. not e.is_deleted && e.is_active) h in
        let (here, listed) = and_true (l.lecture_id == lecture_id) _ hp in
        let (e, ie, child, same) =
          (ids_iff profile_id l.enrollment_id).0
            (includes_found l.enrollment_id (ids profile_id) listed) in
        (e, (ie, (l, il, (==_iff l.lecture_id lecture_id).0 here, same)), child),
    λ (e, (ie, (l, il, here, same)), child).
        joins (λ l. (l.lecture_id == lecture_id) && includes l.enrollment_id (ids profile_id))
          (λ e. not e.is_deleted && e.is_active) l e il ie (sym same)
          (both_true ((==_iff l.lecture_id lecture_id).1 here) (
            includes-IsIn l.enrollment_id (ids profile_id)
              ((ids_iff profile_id l.enrollment_id).1 (e, ie, child, same))))
          (both_true (rw (child.1) refl) (child.0)),
  )
