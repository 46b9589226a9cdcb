-- ===== src/Billing/Payments/Moves.antt =====
-- The transitions of a payment: the checks in front, the guarded update, the entry in the history.
use ssambee_be.Prelude.{
  ℕ, ◌≡◌, ◌≢◌, refl, ap, ◌∙◌, Bool, true, false, not, Option, some, none, [], ◌∷◌, ◌++◌, ◌==◌,
  String, ==_self, if◌then◌else◌, find_by,
}
use ssambee_be.Prelude.Action.{
  Result, err, Returns, Returns-step, bad_request, not_found, forbidden, Exception, throw_if, pure,
  ◌>>=◌, ◌>>◌,
}
use ssambee_be.Billing.Constants.{PaymentStatus, payment_status_code}
use ssambee_be.Billing.Database.{Db, Payment, PaymentStatusHistory, World, Billing}
use ssambee_be.Billing.Repo.{create_payment_status_history}
use ssambee_be.Billing.Payments.{
  payment_not_found, not_cancelable, not_owner, is_pending_deposit,
  update_payment_with_status_guard,
}
use ssambee_be.Billing.Payments.Guard.{
  payment_key, guarded, guard_passes, guarded, find_by-guarded, find_by-guarded_ne,
}

-- The payment `id` has become `p'`: every other payment is as it was, and the histories have one
-- entry more.
pub record IsMoved (id : ℕ) (p' : Payment) (entry : PaymentStatusHistory) (w w' : World)
    : Type 0 where
  pub moved : find_by payment_key id w'.db.payments ≡ some p'
  pub others :
      (k : ℕ) → k ≢ id → find_by payment_key k w'.db.payments ≡ find_by payment_key k w.db.payments
  pub logged : w'.db.status_histories ≡ w.db.status_histories ++ (entry ∷ [])

-- The outcome for the payment that was found: not found, refused as `refuse` says with nothing
-- changed, or moved.
abbrev pub Allowed :
    (World → Type 0) → World → Option Exception → Result (Unit {0}) × World → Type 0
Allowed Moved w (some e) r = r ≡ (err e, w)
Allowed Moved w none r = Returns (λ _. Moved) r

abbrev pub Outcome :
    (Payment → Option Exception)
    → (Payment → World → Type 0)
    → World
    → Option Payment
    → Result (Unit {0}) × World
    → Type 0
Outcome refuse Moved w none r = r ≡ (err (not_found payment_not_found), w)
Outcome refuse Moved w (some p) r = Allowed (Moved p) w (refuse p) r

-- A check in front of a call.
pub checked :
    (Moved : World → Type 0) (w : World) (b : Bool) (e : Exception) (k : Billing (Unit {0}))
    (refusal : Option Exception)
    → Allowed Moved w refusal (k w)
    → Allowed Moved w (if b then refusal else some e) ((throw_if (not b) e >> k) w)
checked Moved w true e k refusal h = h
checked Moved w false e k refusal h = refl

abbrev pub refuse_unless_pending : String → Payment → Option Exception
refuse_unless_pending message p =
    if is_pending_deposit p.status then none else some (bad_request message)

abbrev pub refuse_cancel : ℕ → Payment → Option Exception
refuse_cancel instructor_id p =
    if p.instructor_id == instructor_id
    then refuse_unless_pending not_cancelable p
    else some (forbidden not_owner)

-- What follows the checks of a transition, up to the entry in the history.
abbrev pub move :
    ℕ → (Payment → Payment) → PaymentStatus → PaymentStatusHistory → Billing (Unit {0})
move id change expected entry = update_payment_with_status_guard id change expected >>= λ _.
    create_payment_status_history entry >>= λ _. pure tt

module _ (id : ℕ) (change : Payment → Payment) (same_id : (p : Payment) → (change p).id ≡ p.id)
    (entry : PaymentStatusHistory) (w : World) where
  -- The world after the guarded update and the entry.
  abbrev pub written : PaymentStatus → World → World
  written expected v =
      (create_payment_status_history entry (guarded id expected change same_id v)).1

  written-IsMoved :
      (v : World)
      → v.db ≡ w.db
      → {p : Payment} → find_by payment_key id v.db.payments ≡ some p
      → IsMoved id (change p) entry w (written p.status v)
  unfolding create_payment_status_history
  written-IsMoved v same {p = p} h = record {
    moved =
        find_by-guarded id p.status change same_id v.db.payments {p = p} h
          (==_self (payment_status_code p.status));
    others = λ k ne.
        find_by-guarded_ne id p.status change same_id k v.db.payments ne
        ∙ ap (λ (d : Db). find_by payment_key k d.payments) same;
    logged = ap (λ (d : Db). d.status_histories ++ (entry ∷ [])) same;
  }

  -- The guarded update passes, and so a call goes on after it with `next`.
  pub moves :
      (Q : Unit {0} → World → Type 0) (v : World) (next : Billing (Unit {0}))
      → v.db ≡ w.db
      → {p : Payment} → find_by payment_key id w.db.payments ≡ some p
      → (IsMoved id (change p) entry w (written p.status v) → Returns Q (next (written p.status v)))
      → Returns Q (
          (update_payment_with_status_guard id change p.status >>= λ _.
          create_payment_status_history entry >>= λ _. next)
            v)
  unfolding create_payment_status_history
  moves Q v next same {p = p} h k =
      let h' : find_by payment_key id v.db.payments ≡ some p =
        ap (λ (d : Db). find_by payment_key id d.payments) same ∙ h in
      Returns-step Q (update_payment_with_status_guard id change p.status)
        (λ _. create_payment_status_history entry >>= λ _. next) v
        (guard_passes id p.status change same_id v {p = p} h'
          (==_self (payment_status_code p.status)))
        (k (written-IsMoved v same {p = p} h'))
