-- ===== src/Exams/Access.antt =====
-- A service that checks its user: the check only reads, and the service goes on or throws.
use ssambee_be.Prelude.{ℕ, ◌==◌, ◌≡◌, ◌∙◌, ap, Bool, not, ◌&&◌, some, Option, find_by, find_unique}
use ssambee_be.Prelude.Action.{
  Result, ok, err, Returns, pure, gets, or_throw, not_found, bind_ok, bind_err, ◌>>=◌, ◌>>◌,
}
use ssambee_be.Permission.{UserType, Access, validate_instructor_access}
use ssambee_be.Permission.Checks.{validate_instructor_access-keeps}
use ssambee_be.Exams.Repo.{find_exam_by_id}
use ssambee_be.Exams.Database.{Lecture, Exam, Academy, Service, permitted, transaction}

abbrev pub exam_or_throw : ℕ → Service Exam
exam_or_throw exam_id = do
  found ← find_exam_by_id exam_id
  or_throw found (not_found "시험을 찾을 수 없습니다.")

-- A deleted lecture is not found.
abbrev pub is_live : ℕ → Lecture → Bool
is_live id l = (l.id == id) && not l.is_deleted

abbrev pub lecture_or_throw : ℕ → Service Lecture
lecture_or_throw lecture_id = do
  found ← gets λ s. find_unique (is_live lecture_id) s.lectures
  or_throw found (not_found "강의를 찾을 수 없습니다.")

abbrev pub if_managed : UserType → ℕ → Exam → Service Exam
if_managed user_type profile_id exam = do
  permitted (validate_instructor_access exam.instructor_id user_type profile_id)
  pure exam

-- The exam, if the user may work on it.
abbrev pub managed_exam : ℕ → UserType → ℕ → Service Exam
managed_exam exam_id user_type profile_id = do
  exam ← exam_or_throw exam_id
  if_managed user_type profile_id exam

pub permitted_lem :
    {A : Type 0} (check : Access A) (s : Academy) (r : Result A)
    → (check s.school).0 ≡ r
    → (check s.school).1 ≡ s.school
    → permitted check s ≡ (r, s)
permitted_lem check s r e k = λ i. (e i, record s { school = k i })

-- What the check of an instructor's user says.
abbrev pub verdict : ℕ → UserType → ℕ → Academy → Result (Unit {0})
verdict instructor_id user_type profile_id s =
    (validate_instructor_access instructor_id user_type profile_id s.school).0

pub permitted_instructor :
    (instructor_id : ℕ) (user_type : UserType) (profile_id : ℕ) (s : Academy)
    (r : Result (Unit {0}))
    → verdict instructor_id user_type profile_id s ≡ r
    → permitted (validate_instructor_access instructor_id user_type profile_id) s ≡ (r, s)
permitted_instructor instructor_id user_type profile_id s r e =
    permitted_lem (validate_instructor_access instructor_id user_type profile_id) s r e
      (validate_instructor_access-keeps instructor_id user_type profile_id s.school)

abbrev pub exam_id_of : Exam → ℕ
exam_id_of e = e.id

abbrev pub find_exam : ℕ → Academy → Option Exam
find_exam id s = find_by exam_id_of id s.exams

abbrev pub find_lecture : ℕ → Academy → Option Lecture
find_lecture id s = find_unique (is_live id) s.lectures

pub exam_or_throw_lem :
    (id : ℕ) (s : Academy) (o : Option Exam)
    → find_exam id s ≡ o
    → exam_or_throw id s ≡ or_throw o (not_found "시험을 찾을 수 없습니다.") s
exam_or_throw_lem id s o e = ap (λ o. or_throw o (not_found "시험을 찾을 수 없습니다.") s) e

pub lecture_or_throw_lem :
    (id : ℕ) (s : Academy) (o : Option Lecture)
    → find_lecture id s ≡ o
    → lecture_or_throw id s ≡ or_throw o (not_found "강의를 찾을 수 없습니다.") s
lecture_or_throw_lem id s o e = ap (λ o. or_throw o (not_found "강의를 찾을 수 없습니다.") s) e

pub transaction-Returns :
    {A : Type 0} (P : A → Academy → Type 0) (m : Service A) (s : Academy)
    → Returns P (m s)
    → Returns P (transaction m s)
transaction-Returns {A} P m s h = go (m s) h
  where
    go :
        (r : Result A × Academy)
        → Returns P r
        → Returns P (elim r.0 [ ok a ↦ (ok a, r.1) | err e ↦ (err e, s) ])
    go (ok a, s') h = h
    go (err e, s') h = absurd h

module _ (exam_id : ℕ) (user_type : UserType) (profile_id : ℕ) (s : Academy) where
  -- The service goes on with the exam, or throws what the check throws.
  pub managed :
      (exam : Exam)
      → find_exam exam_id s ≡ some exam
      → {r : Result (Unit {0})} → verdict exam.instructor_id user_type profile_id s ≡ r
      → managed_exam exam_id user_type profile_id s ≡ (elim r [ ok _ ↦ ok exam | err x ↦ err x ], s)
  managed exam found {r = r} e =
      bind_ok (exam_or_throw exam_id) (if_managed user_type profile_id) s
        (exam_or_throw_lem exam_id s (some exam) found)
      ∙ go r e
    where
      check : Service (Unit {0})
      check = permitted (validate_instructor_access exam.instructor_id user_type profile_id)

      go :
          (r : Result (Unit {0}))
          → verdict exam.instructor_id user_type profile_id s ≡ r
          → if_managed user_type profile_id exam s ≡ (elim r [ ok _ ↦ ok exam | err x ↦ err x ], s)
      go (ok t) e =
          bind_ok check (λ _. pure exam) s
            (permitted_instructor exam.instructor_id user_type profile_id s (ok t) e)
      go (err x) e =
          bind_err check (λ _. pure exam) s
            (permitted_instructor exam.instructor_id user_type profile_id s (err x) e)
