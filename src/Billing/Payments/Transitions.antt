-- ===== src/Billing/Payments/Transitions.antt =====
-- What cancelling, rejecting and approving a payment do, on every branch before the delivery.
use ssambee_be.Prelude.{
  ℕ, suc, ◌≡◌, refl, ap, ◌∙◌, Bool, true, false, not, Option, some, none, ◌==◌, String,
  if◌then◌else◌, find_by,
}
use ssambee_be.Prelude.Action.{
  Returns, Returns-map, bad_request, not_found, forbidden, Exception, or_throw, throw_if, pure,
  ◌>>=◌, ◌>>◌,
}
use ssambee_be.Prelude.OrderBy.{OrderBy}
use ssambee_be.Billing.Constants.{PaymentStatus}
use ssambee_be.Billing.Dates.{DateFns}
use ssambee_be.Billing.Database.{Payment, PaymentStatusHistory, Actor, World, Billing}
use ssambee_be.Billing.Repo.{new_date, find_payment_by_id, create_payment_status_history}
use ssambee_be.Billing.Payments.{
  payment_not_found, not_cancelable, not_rejectable, not_approvable, not_owner, is_pending_deposit,
  cancel_at, reject_at, approve_at, transition, update_payment_with_status_guard,
  cancel_in_transaction, reject_in_transaction, approve_in_transaction, deliver,
  assert_instructor_payment_owner,
}
use ssambee_be.Billing.Payments.Guard.{payment_key}
use ssambee_be.Billing.Payments.Effects.{deliver-Spares}
use ssambee_be.Billing.Books.{SameBooks}
use ssambee_be.Billing.Payments.Moves.{
  IsMoved, Outcome, Allowed, checked, refuse_unless_pending, refuse_cancel, move, written, moves,
}

module _ (id : ℕ) (actor : Actor) (reason : String) where
  -- The payment and the entry that a rejection leaves.
  abbrev pub Rejected : World → Payment → World → Type 0
  Rejected w p =
      IsMoved id (reject_at (w.clock w.reads) p)
        (transition id p.status PaymentStatus.rejected actor (some reason)) w

  rejecting : Option Payment → Billing (Unit {0})
  rejecting found = do
    payment ← or_throw found (not_found payment_not_found)
    throw_if (not (is_pending_deposit payment.status)) (bad_request not_rejectable)
    now ← new_date
    move id (reject_at now) payment.status
        (transition id payment.status PaymentStatus.rejected actor (some reason))

  rejecting-Outcome :
      (w : World) (found : Option Payment)
      → find_by payment_key id w.db.payments ≡ found
      → Outcome (refuse_unless_pending not_rejectable) (Rejected w) w found (rejecting found w)
  unfolding rejecting new_date
  rejecting-Outcome w none h = refl
  rejecting-Outcome w (some p) h =
      checked (Rejected w p) w (is_pending_deposit p.status) (bad_request not_rejectable)
        (new_date >>= λ now. move id (reject_at now) p.status (entry p)) none
        (moves id (reject_at (w.clock w.reads)) (λ q. refl) (entry p) w _
          (record w { reads = suc w.reads }) (pure tt) refl {p = p} h (λ moved. moved))
    where
      entry : Payment → PaymentStatusHistory
      entry p = transition id p.status PaymentStatus.rejected actor (some reason)

  -- Rejecting a payment: an unknown payment is not found, one that is not waiting for its deposit is
  -- refused, both with nothing changed; otherwise the payment is rejected at the time that the clock
  -- shows, no other payment changes, and the histories get one entry.
  pub reject-Outcome :
      (w : World)
      → Outcome
          (refuse_unless_pending not_rejectable)
          (Rejected w)
          w
          (find_by payment_key id w.db.payments)
          (reject_in_transaction id actor reason w)
  unfolding reject_in_transaction find_payment_by_id rejecting create_payment_status_history
  reject-Outcome w = rejecting-Outcome w (find_by payment_key id w.db.payments) refl

module _ (id instructor_id : ℕ) (actor : Actor) where
  -- The payment and the entry that a cancellation leaves.
  abbrev pub Canceled : World → Payment → World → Type 0
  Canceled w p =
      IsMoved id (cancel_at (w.clock w.reads) p)
        (transition id p.status PaymentStatus.canceled actor none) w

  owned : Payment → Billing Payment
  owned payment =
      throw_if (not (payment.instructor_id == instructor_id)) (forbidden not_owner) >> pure payment

  canceling : Payment → Billing (Unit {0})
  canceling payment = do
    throw_if (not (is_pending_deposit payment.status)) (bad_request not_cancelable)
    now ← new_date
    move id (cancel_at now) payment.status
        (transition id payment.status PaymentStatus.canceled actor none)

  after_owned :
      (Moved : World → Type 0) (w : World) (p : Payment) (b : Bool) (refusal : Option Exception)
      → Allowed Moved w refusal (canceling p w)
      → Allowed Moved w
          (if b then refusal else some (forbidden not_owner))
          (((throw_if (not b) (forbidden not_owner) >> pure p) >>= canceling) w)
  after_owned Moved w p true refusal h = h
  after_owned Moved w p false refusal h = refl

  canceling-Outcome :
      (w : World) (found : Option Payment)
      → find_by payment_key id w.db.payments ≡ found
      → Outcome
          (refuse_cancel instructor_id)
          (Canceled w)
          w
          found
          (((or_throw found (not_found payment_not_found) >>= owned) >>= canceling) w)
  unfolding canceling new_date owned
  canceling-Outcome w none h = refl
  canceling-Outcome w (some p) h =
      after_owned (Canceled w p) w p (p.instructor_id == instructor_id)
        (refuse_unless_pending not_cancelable p)
        (checked (Canceled w p) w (is_pending_deposit p.status) (bad_request not_cancelable)
          (new_date >>= λ now. move id (cancel_at now) p.status (entry p)) none
          (moves id (cancel_at (w.clock w.reads)) (λ q. refl) (entry p) w _
            (record w { reads = suc w.reads }) (pure tt) refl {p = p} h (λ moved. moved)))
    where
      entry : Payment → PaymentStatusHistory
      entry p = transition id p.status PaymentStatus.canceled actor none

  -- Canceling a payment: an unknown payment is not found, another instructor's is forbidden, one that
  -- is not waiting for its deposit is refused, each with nothing changed; otherwise the payment is
  -- canceled at the time that the clock shows, no other payment changes, and the histories get one
  -- entry.
  pub cancel-Outcome :
      (w : World)
      → Outcome
          (refuse_cancel instructor_id)
          (Canceled w)
          w
          (find_by payment_key id w.db.payments)
          (cancel_in_transaction id instructor_id actor w)
  unfolding cancel_in_transaction assert_instructor_payment_owner find_payment_by_id canceling owned
      create_payment_status_history
  cancel-Outcome w = canceling-Outcome w (find_by payment_key id w.db.payments) refl

module _ ⦃o : OrderBy⦄ ⦃d : DateFns⦄ (id : ℕ) (actor : Actor) (memo : Option String) where
  approved_entry : Payment → PaymentStatusHistory
  approved_entry p = transition id p.status PaymentStatus.approved actor memo

  -- The payment and the entry that an approval leaves.
  abbrev pub Approved : World → Payment → World → Type 0
  Approved w p =
      IsMoved id (approve_at (w.clock w.reads) p.deposited_at p)
        (transition id p.status PaymentStatus.approved actor memo) w

  Moved-books :
      (p : Payment) (entry : PaymentStatusHistory) (w v v' : World)
      → SameBooks v v'
      → IsMoved id p entry w v
      → IsMoved id p entry w v'
  Moved-books p entry w v v' (payments, histories) h = record {
    moved = ap (find_by payment_key id) payments ∙ h.moved;
    others = λ k ne. ap (find_by payment_key k) payments ∙ h.others k ne;
    logged = histories ∙ h.logged;
  }

  approved_from : Payment → ℕ → Billing (Unit {0})
  approved_from p now =
      update_payment_with_status_guard id (approve_at now p.deposited_at) p.status >>= λ _.
      create_payment_status_history (approved_entry p) >>= λ _. deliver p now

  approved_from-Approved :
      (w v : World) (p : Payment)
      → v.db ≡ w.db
      → find_by payment_key id w.db.payments ≡ some p
      → Returns (λ _. Approved w p) (approved_from p (w.clock w.reads) v)
  unfolding approved_from approved_entry
  approved_from-Approved w v p same h =
      let now = w.clock w.reads in
      let change = approve_at now p.deposited_at in
      moves id change (λ q. refl) (approved_entry p) w (λ _. Approved w p) v (deliver p now) same
        {p = p} h
        λ moved.
          let v₁ = written id change (λ q. refl) (approved_entry p) w p.status v in
          Returns-map (λ _. SameBooks v₁) (λ _. Approved w p) (deliver p now v₁)
            (λ _ v' books. Moved-books (change p) (approved_entry p) w v₁ v' books moved)
            (deliver-Spares p now v₁)

  approving : Option Payment → Billing (Unit {0})
  approving found = do
    payment ← or_throw found (not_found payment_not_found)
    throw_if (not (is_pending_deposit payment.status)) (bad_request not_approvable)
    now ← new_date
    approved_from payment now

  approving-Outcome :
      (w : World) (found : Option Payment)
      → find_by payment_key id w.db.payments ≡ found
      → Outcome (refuse_unless_pending not_approvable) (Approved w) w found (approving found w)
  unfolding approving new_date
  approving-Outcome w none h = refl
  approving-Outcome w (some p) h =
      checked (Approved w p) w (is_pending_deposit p.status) (bad_request not_approvable)
        (new_date >>= approved_from p) none
        (approved_from-Approved w (record w { reads = suc w.reads }) p refl h)

  -- Approving a payment: an unknown payment is not found, one that is not waiting for its deposit is
  -- refused, both with nothing changed; otherwise the call returns, also after the delivery of the
  -- items, the payment is approved at the time that the clock shows, no other payment changes, and
  -- the histories get one entry.
  pub approve-Outcome :
      (w : World)
      → Outcome
          (refuse_unless_pending not_approvable)
          (Approved w)
          w
          (find_by payment_key id w.db.payments)
          (approve_in_transaction id actor memo w)
  unfolding approve_in_transaction find_payment_by_id approving approved_from approved_entry
  approve-Outcome w = approving-Outcome w (find_by payment_key id w.db.payments) refl
