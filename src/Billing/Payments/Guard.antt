-- ===== src/Billing/Payments/Guard.antt =====
-- The guarded update of a payment, `updatePaymentWithStatusGuard`, and the transitions it lets pass.
use ssambee_be.Prelude.{
  ℕ, ◌≡◌, ◌≢◌, refl, ap, sym, subst, Bool, true, false, ◌&&◌, Option, some, none, List, [], ◌∷◌,
  arith, ◌==◌, inl, inr, Bool-cases, if◌then◌else◌, find_by, update_many, count_where,
  count_where-found, find_unique_sound,
}
use ssambee_be.Prelude.Action.{Returns, Result, err, ok, conflict, bind_ok, or_throw}
use ssambee_be.Billing.Constants.{PaymentStatus, same_payment_status}
use ssambee_be.Billing.Database.{Payment, World}
use ssambee_be.Billing.Repo.{update_payment_if, set_payments}
use ssambee_be.Billing.Payments.{update_payment_with_status_guard, transition_conflict}

-- The `where` of the guarded update.
abbrev pub matches : ℕ → PaymentStatus → Payment → Bool
matches id expected p = p.id == id && same_payment_status p.status expected

abbrev pub payment_key : Payment → ℕ
payment_key p = p.id

module _ (id : ℕ) (expected : PaymentStatus) (change : Payment → Payment)
    (same_id : (p : Payment) → (change p).id ≡ p.id) where
  pub find_by-guarded :
      (rows : List Payment) {p : Payment}
      → find_by payment_key id rows ≡ some p
      → same_payment_status p.status expected ≡ true
      → find_by payment_key id (update_many (matches id expected) change rows) ≡ some (change p)
  find_by-guarded [] h pending = cc
  find_by-guarded (x ∷ rows) {p = q} h pending =
      ground (arith, same_id x, find_by-guarded rows {p = q})

  pub find_by-guarded_ne :
      (k : ℕ) (rows : List Payment)
      → k ≢ id
      → find_by payment_key k (update_many (matches id expected) change rows)
        ≡ find_by payment_key k rows
  find_by-guarded_ne k [] ne = refl
  find_by-guarded_ne k (x ∷ rows) ne = ground (arith, same_id x, find_by-guarded_ne k rows ne)

  changed_differs :
      ((p : Payment) → same_payment_status (change p).status expected ≡ false)
      → (x : Payment) → matches id expected (change x) ≡ false
  changed_differs away x = rw (away x) (false_right ((change x).id == id))
    where
      false_right : (b : Bool) → (b && false) ≡ false
      false_right true = refl
      false_right false = refl

  none_left :
      ((p : Payment) → same_payment_status (change p).status expected ≡ false)
      → (rows : List Payment)
      → count_where (matches id expected) (update_many (matches id expected) change rows) ≡ 0
  none_left away [] = refl
  none_left away (x ∷ rows) = elim (Bool-cases (matches id expected x)) [
    | inl e ↦ rw (e, changed_differs away x) (omega (arith, none_left away rows))
    | inr e ↦ rw (e, e) (omega (arith, none_left away rows))
  ]

if_false : {A : Type 0} {b : Bool} (x y : A) → b ≡ false → (if b then x else y) ≡ y
if_false x y h = rw h refl

module _ (id : ℕ) (expected : PaymentStatus) (change : Payment → Payment)
    (same_id : (p : Payment) → (change p).id ≡ p.id) (w : World) where
  -- The world after the guarded update has been written.
  abbrev pub guarded : World
  guarded = set_payments (update_many (matches id expected) change w.db.payments) w

  update_passes :
      {p : Payment}
      → find_by payment_key id w.db.payments ≡ some p
      → same_payment_status p.status expected ≡ true
      → update_payment_if id change expected w ≡ (ok (some (change p)), guarded)
  unfolding update_payment_if
  update_passes {p = p} h pending =
      rw
        (if_false _ _ (
          count_where-found payment_key (matches id expected) id w.db.payments h
            (rw (find_unique_sound (λ (q : Payment). q.id == id) w.db.payments h) pending)))
        (ap {B = Result (Option Payment) × World} (λ o. (ok o, guarded))
          (find_by-guarded id expected change same_id w.db.payments {p = p} h pending))

  -- The guarded update of a payment that still has the status.
  pub guard_passes :
      {p : Payment}
      → find_by payment_key id w.db.payments ≡ some p
      → same_payment_status p.status expected ≡ true
      → update_payment_with_status_guard id change expected w ≡ (ok (change p), guarded)
  unfolding update_payment_with_status_guard
  guard_passes {p = p} h pending =
      bind_ok (update_payment_if id change expected)
        (λ updated. or_throw updated (conflict transition_conflict)) w
        (update_passes {p = p} h pending)

update_fails :
    (id : ℕ) (expected : PaymentStatus) (change : Payment → Payment) (w : World)
    → count_where (matches id expected) w.db.payments ≡ 0
    → update_payment_if id change expected w ≡ (ok none, w)
unfolding update_payment_if
update_fails id expected change w h = rw h refl

-- A guarded update that finds no payment with the status throws, and writes nothing.
pub guard_fails :
    (id : ℕ) (expected : PaymentStatus) (change : Payment → Payment) (w : World)
    → count_where (matches id expected) w.db.payments ≡ 0
    → update_payment_with_status_guard id change expected w
      ≡ (err (conflict transition_conflict), w)
unfolding update_payment_with_status_guard
guard_fails id expected change w none_found =
    bind_ok (update_payment_if id change expected)
      (λ updated. or_throw updated (conflict transition_conflict)) w
      (update_fails id expected change w none_found)

-- Two requests have read a payment while it had the status `expected`, and each goes on to a guarded
-- update. If the first update is written, by a change to another status, then the second, whatever
-- it would write, throws the conflict and leaves the payments as the first wrote them.
pub guard_once :
    (id : ℕ) (expected : PaymentStatus) (change change' : Payment → Payment) (w : World)
    {p : Payment}
    → ((q : Payment) → (change q).id ≡ q.id)
    → ((q : Payment) → same_payment_status (change q).status expected ≡ false)
    → find_by payment_key id w.db.payments ≡ some p
    → same_payment_status p.status expected ≡ true
    → Returns
        (λ paid w'.
          (paid ≡ change p)
          × (update_payment_with_status_guard id change' expected w'
              ≡ (err (conflict transition_conflict), w')))
        (update_payment_with_status_guard id change expected w)
guard_once id expected change change' w {p = p} same_id away h pending =
    subst
      (Returns λ paid w'.
        (paid ≡ change p)
        × (update_payment_with_status_guard id change' expected w'
            ≡ (err (conflict transition_conflict), w')))
      (sym (guard_passes id expected change same_id w {p = p} h pending))
      (
        refl,
        guard_fails id expected change' (guarded id expected change same_id w)
            (none_left id expected change same_id away w.db.payments),
      )
