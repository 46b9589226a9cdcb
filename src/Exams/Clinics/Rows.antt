-- ===== src/Exams/Clinics/Rows.antt =====
-- The clinics after `createMany` with `skipDuplicates`, for one exam and student at a time.
use ssambee_be.Prelude.{
  ℕ, ◌+◌, ◌==◌, ◌≡◌, refl, sym, ap, subst, ◌∙◌, Bool, true, false, not, ◌&&◌, Option, none, some,
  is_some, List, [], ◌∷◌, arith, inl, inr, Bool-cases, All, head?, length, length-append, find_many,
  find_unique, any_where, find_many-append, find_many-append_ne, any_where-head?, if◌then◌else◌,
}
use ssambee_be.Exams.Database.{Clinic, Academy}
use ssambee_be.Exams.Clinics.{NewClinic, new_clinic, clinic_of, clinic_in, with_clinic, insert_new}

abbrev pub clinic_rows : ℕ → ℕ → List Clinic → List Clinic
clinic_rows e k = find_many (clinic_of e k)

abbrev pub asks : ℕ → ℕ → NewClinic → Bool
asks e k x = (x.exam_id == e) && (x.lecture_enrollment_id == k)

-- A row that is there is kept; else the first one that is asked for is inserted.
abbrev pub Inserted : List Clinic → Option NewClinic → List Clinic → Type 0
Inserted (c ∷ cs) o after = after ≡ c ∷ cs
Inserted [] none after = after ≡ []
Inserted [] (some x) after = (id : ℕ) × (after ≡ new_clinic id x ∷ [])

abbrev is_there : NewClinic → Academy → Bool
is_there x s = any_where (clinic_of x.exam_id x.lecture_enrollment_id) s.clinics

-- One row: it is skipped, or inserted before the others.
insert-skipped :
    (x : NewClinic) (xs : List NewClinic) (s : Academy)
    → is_there x s ≡ true
    → insert_new (x ∷ xs) s ≡ insert_new xs s
unfolding insert_new
insert-skipped x xs s h =
    ap
      (λ b. elim b [
        | true ↦ insert_new xs s
        | false ↦ let (n, s') = insert_new xs (with_clinic x s) in (n + 1, s')
      ])
      h

insert-added :
    (x : NewClinic) (xs : List NewClinic) (s : Academy)
    → is_there x s ≡ false
    → insert_new (x ∷ xs) s
      ≡ ((insert_new xs (with_clinic x s)).0 + 1, (insert_new xs (with_clinic x s)).1)
unfolding insert_new
insert-added x xs s h =
    ap
      (λ b. elim b [
        | true ↦ insert_new xs s
        | false ↦ let (n, s') = insert_new xs (with_clinic x s) in (n + 1, s')
      ])
      h

kept_rows :
    (before : List Clinic) (o o' : Option NewClinic) (after : List Clinic)
    → is_some (head? before) ≡ true
    → Inserted before o after
    → Inserted before o' after
kept_rows [] o o' after h i = cc
kept_rows (c ∷ cs) o o' after h i = i

pub no_rows : (before : List Clinic) → is_some (head? before) ≡ false → before ≡ []
no_rows [] h = refl
no_rows (c ∷ cs) h = cc

module _ (e k : ℕ) where
  pub insert-Inserted :
      (xs : List NewClinic) (s : Academy)
      → Inserted
          (clinic_rows e k s.clinics)
          (find_unique (asks e k) xs)
          (clinic_rows e k (insert_new xs s).1.clinics)
  unfolding insert_new
  insert-Inserted [] s = go (clinic_rows e k s.clinics)
    where
      go : (rows : List Clinic) → Inserted rows none rows
      go [] = refl
      go (c ∷ cs) = refl
  insert-Inserted (x ∷ xs) s = elim (Bool-cases (is_there x s)) [
    | inl there ↦
        subst
          (λ (r : ℕ × Academy).
            Inserted (clinic_rows e k s.clinics) (find_unique (asks e k) (x ∷ xs))
              (clinic_rows e k r.1.clinics))
          (sym (insert-skipped x xs s there))
          (skipped there (asks e k x) refl (insert-Inserted xs s))
    | inr absent ↦
        subst
          (λ (r : ℕ × Academy).
            Inserted (clinic_rows e k s.clinics) (find_unique (asks e k) (x ∷ xs))
              (clinic_rows e k r.1.clinics))
          (sym (insert-added x xs s absent))
          (added absent (asks e k x) refl (insert-Inserted xs (with_clinic x s)))
  ]
    where
      Before : Option NewClinic → List Clinic → Type 0
      Before = Inserted (clinic_rows e k s.clinics)

      same_row : asks e k x ≡ true → clinic_of x.exam_id x.lecture_enrollment_id ≡ clinic_of e k
      same_row h =
          let q : (x.exam_id ≡ e) × (x.lecture_enrollment_id ≡ k) = ground arith in
          λ i c. (c.exam_id == q.0 i) && (c.lecture_enrollment_id == q.1 i)

      skipped :
          is_there x s ≡ true
          → (b : Bool) → asks e k x ≡ b
          → Before (find_unique (asks e k) xs) (clinic_rows e k (insert_new xs s).1.clinics)
          → Before
              (if b then some x else find_unique (asks e k) xs)
              (clinic_rows e k (insert_new xs s).1.clinics)
      skipped there true h i =
          kept_rows (clinic_rows e k s.clinics) (find_unique (asks e k) xs) (some x)
            (clinic_rows e k (insert_new xs s).1.clinics)
            (sym (any_where-head? (clinic_of e k) s.clinics)
              ∙ ap (λ p. any_where p s.clinics) (sym (same_row h))
              ∙ there)
            i
      skipped there false h i = i

      added :
          is_there x s ≡ false
          → (b : Bool) → asks e k x ≡ b
          → Inserted
              (clinic_rows e k (with_clinic x s).clinics)
              (find_unique (asks e k) xs)
              (clinic_rows e k (insert_new xs (with_clinic x s)).1.clinics)
          → Before
              (if b then some x else find_unique (asks e k) xs)
              (clinic_rows e k (insert_new xs (with_clinic x s)).1.clinics)
      added absent true h i =
          let empty : clinic_rows e k s.clinics ≡ [] = no_rows (clinic_rows e k s.clinics) (
            sym (any_where-head? (clinic_of e k) s.clinics)
            ∙ ap (λ p. any_where p s.clinics) (sym (same_row h))
            ∙ absent) in
          let new : clinic_rows e k (with_clinic x s).clinics ≡ new_clinic s.next_id x ∷ [] =
            find_many-append (clinic_of e k) s.clinics (new_clinic s.next_id x)
            ∙ rw (empty, h) refl in
          subst
            (λ rows.
              Inserted rows (some x) (clinic_rows e k (insert_new xs (with_clinic x s)).1.clinics))
            (sym empty)
            (
              s.next_id,
              subst
                  (λ rows.
                    Inserted rows (find_unique (asks e k) xs)
                      (clinic_rows e k (insert_new xs (with_clinic x s)).1.clinics))
                  new i,
            )
      added absent false h i =
          subst
            (λ rows.
              Inserted rows (find_unique (asks e k) xs)
                (clinic_rows e k (insert_new xs (with_clinic x s)).1.clinics))
            (find_many-append_ne (clinic_of e k) s.clinics (new_clinic s.next_id x) h) i

-- As many rows are added as are counted, and only those that are asked for.
pub length-insert_new :
    (xs : List NewClinic) (s : Academy)
    → length (insert_new xs s).1.clinics ≡ length s.clinics + (insert_new xs s).0
unfolding insert_new
length-insert_new [] s = omega arith
length-insert_new (x ∷ xs) s = elim (Bool-cases (is_there x s)) [
  | inl there ↦ rw (insert-skipped x xs s there) (length-insert_new xs s)
  | inr absent ↦ rw (insert-added x xs s absent) (
      omega (
        arith,
        length-insert_new xs (with_clinic x s),
        length-append s.clinics (new_clinic s.next_id x ∷ []),
      ))
]

pub insert_new-others :
    (e : ℕ) (xs : List NewClinic) (s : Academy)
    → All (λ x. (x.exam_id == e) ≡ true) xs
    → find_many (λ c. not (clinic_in e c)) (insert_new xs s).1.clinics
      ≡ find_many (λ c. not (clinic_in e c)) s.clinics
unfolding insert_new
insert_new-others e [] s h = refl
insert_new-others e (x ∷ xs) s h = elim (Bool-cases (is_there x s)) [
  | inl there ↦ rw (insert-skipped x xs s there) (insert_new-others e xs s h.1)
  | inr absent ↦ rw (insert-added x xs s absent) (
      insert_new-others e xs (with_clinic x s) h.1
      ∙ find_many-append_ne (λ c. not (clinic_in e c)) s.clinics (new_clinic s.next_id x)
          (ap not h.0))
]

pub insert_new-frame :
    (xs : List NewClinic) (s : Academy)
    → (insert_new xs s).1
      ≡ record s { clinics = (insert_new xs s).1.clinics; next_id = (insert_new xs s).1.next_id }
unfolding insert_new
insert_new-frame [] s = refl
insert_new-frame (x ∷ xs) s = elim (Bool-cases (is_there x s)) [
  | inl there ↦ rw (insert-skipped x xs s there) (insert_new-frame xs s)
  | inr absent ↦ rw (insert-added x xs s absent) (insert_new-frame xs (with_clinic x s))
]
