-- ===== src/Billing/Payments/Request.antt =====
-- `createBankTransferPayment`, on every branch.
use mathlib.Core.List.{append-nil}
use ssambee_be.Prelude.{
  ℕ, suc, ◌*◌, ◌==◌, ==_iff, ◌≡◌, refl, subst, sym, Bool, true, false, not, Option, some, none,
  List, [], ◌∷◌, ◌++◌, if◌then◌else◌, IsFree, find_by, find_unique, find_by-append_self,
}
use ssambee_be.Prelude.Action.{
  Result, ok, err, Exception, Returns, bad_request, forbidden, not_found, or_throw, throw_if, pure,
  ◌>>=◌, ◌>>◌,
}
use ssambee_be.Billing.Constants.{PaymentStatus, is_pass_single, is_credit_pack, is_bank_transfer}
use ssambee_be.Billing.Database.{
  BillingProduct, Payment, PaymentItem, PaymentStatusHistory, PaymentReceiptRequest, ReceiptDetails,
  Actor, World, Billing,
}
use ssambee_be.Billing.Repo.{
  find_product_by_id, find_payment_by_id, create_payment, create_payment_item,
  create_payment_status_history, create_receipt_request,
}
use ssambee_be.Billing.Transactions.{transaction}
use ssambee_be.Billing.Payments.{
  payment_not_found, CreateBankTransferPaymentDto, new_payment, new_payment_item, request_receipt,
  assert_bank_transfer_purchasable, assert_instructor_payment_owner, create_bank_transfer_payment,
}
use ssambee_be.Billing.Payments.Guard.{payment_key}

-- Which products can be bought by a bank transfer.
abbrev pub refuse_product : BillingProduct → Option Exception
refuse_product p =
    if not p.is_active_product
    then some (bad_request "비활성화된 상품입니다.")
    else if not (is_bank_transfer p.payment_method_type)
    then some (bad_request "현재는 무통장 결제만 지원합니다.")
    else if is_pass_single p.product_type
    then none
    else if is_credit_pack p.product_type
    then none
    else some (bad_request "현재 구매할 수 없는 상품입니다.")

abbrev pub receipt_rows : ℕ → Option ReceiptDetails → List PaymentReceiptRequest
receipt_rows payment_id none = []
receipt_rows payment_id (some details) =
    (record { payment_id = payment_id; details = details }) ∷ []

-- A request has been made: one payment that waits for the deposit of the price times the quantity,
-- with one item of that total the first entry of its history, and the receipt that
-- was asked for.
pub record IsRequested (instructor_id : ℕ) (dto : CreateBankTransferPaymentDto)
    (product : BillingProduct) (receipt : Option ReceiptDetails) (w : World) (p : Payment)
    (w' : World) : Type 0 where
  pub inserted : w'.db.payments ≡ w.db.payments ++ (p ∷ [])
  pub owned : p.instructor_id ≡ instructor_id
  pub pending : p.status ≡ PaymentStatus.pending_deposit
  pub amount : p.total_amount ≡ product.price * dto.quantity
  pub item : PaymentItem
  pub item_inserted : w'.db.payment_items ≡ w.db.payment_items ++ (item ∷ [])
  pub item_of : item.payment_id ≡ p.id
  pub item_total : item.total_price ≡ p.total_amount
  pub entry : PaymentStatusHistory
  pub logged : w'.db.status_histories ≡ w.db.status_histories ++ (entry ∷ [])
  pub entry_of : entry.payment_id ≡ p.id
  pub receipts : w'.db.receipt_requests ≡ w.db.receipt_requests ++ receipt_rows w.db.next_id receipt

-- Refused, or returned.
abbrev pub Decided :
    (Payment → World → Type 0) → World → Option Exception → Result Payment × World → Type 0
Decided P w (some e) r = r ≡ (err e, w)
Decided P w none r = Returns P r

decided :
    (P : Payment → World → Type 0) (w : World) (k : Billing Payment)
    (active bank single pack : Bool) (e e' e'' : Exception)
    → Returns P (k w)
    → Decided P w
        (if not active
          then some e
          else if not bank
          then some e'
          else if single
          then none
          else if pack
          then none
          else some e'')
        (((throw_if (not active) e >>= λ _.
              throw_if (not bank) e' >>= λ _. throw_if (if single then false else not pack) e'')
            >>= λ _. k)
          w)
decided P w k false bank single pack e e' e'' h = refl
decided P w k true false single pack e e' e'' h = refl
decided P w k true true true pack e e' e'' h = h
decided P w k true true false true e e' e'' h = h
decided P w k true true false false e e' e'' h = refl

module _ (instructor_id : ℕ) (dto : CreateBankTransferPaymentDto) (actor : Actor) where
  -- The rest of the method, after the checks.
  request : BillingProduct → Option ReceiptDetails → Billing Payment
  request product receipt = do
    payment ← transaction do
      created ← create_payment (new_payment instructor_id dto product)
      create_payment_item (new_payment_item created.id dto product)
      create_payment_status_history (record {
        payment_id = created.id;
        from_status = none;
        to_status = PaymentStatus.pending_deposit;
        actor_user_id = actor.user_id;
        actor_role = actor.role;
        reason = none;
      })
      request_receipt created.id receipt
      pure created
    assert_instructor_payment_owner payment.id instructor_id "본인의 결제만 조회할 수 있습니다."

  owner_found :
      (w : World) (p : Payment)
      → find_by payment_key p.id w.db.payments ≡ some p
      → p.instructor_id ≡ instructor_id
      → assert_instructor_payment_owner p.id instructor_id "본인의 결제만 조회할 수 있습니다." w ≡ (ok p, w)
  unfolding assert_instructor_payment_owner find_payment_by_id
  owner_found w p found mine =
      let checked : Option Payment → Billing Payment = λ o.
        or_throw o (not_found payment_not_found) >>= λ payment.
        throw_if (not (payment.instructor_id == instructor_id)) (forbidden "본인의 결제만 조회할 수 있습니다.")
        >>= λ _. pure payment in
      let same : (p.instructor_id == instructor_id) ≡ true =
        (==_iff p.instructor_id instructor_id).1 mine in
      subst (λ o. ◌≡◌ {A = Result Payment × World} (checked o w) (ok p, w)) (sym found)
        (rw same refl)

  -- The world after the transaction.
  abbrev requested : BillingProduct → List PaymentReceiptRequest → World → World
  requested product receipts w =
      let p = new_payment instructor_id dto product w.db.next_id in
      record w {
        db = record (w.db) {
          payments = w.db.payments ++ (p ∷ []);
          payment_items =
              w.db.payment_items ++ (new_payment_item p.id dto product (suc w.db.next_id) ∷ []);
          status_histories =
              w.db.status_histories
              ++ (record {
                payment_id = p.id;
                from_status = none;
                to_status = PaymentStatus.pending_deposit;
                actor_user_id = actor.user_id;
                actor_role = actor.role;
                reason = none;
              }
                  ∷ []);
          receipt_requests = receipts;
          next_id = suc (suc w.db.next_id);
        };
      }

  requested-IsRequested :
      (product : BillingProduct) (receipt : Option ReceiptDetails)
      (receipts : List PaymentReceiptRequest) (w : World)
      → IsFree payment_key w.db.next_id w.db.payments
      → receipts ≡ w.db.receipt_requests ++ receipt_rows w.db.next_id receipt
      → Returns (IsRequested instructor_id dto product receipt w) (
          assert_instructor_payment_owner w.db.next_id instructor_id "본인의 결제만 조회할 수 있습니다."
            (requested product receipts w))
  unfolding new_payment new_payment_item
  requested-IsRequested product receipt receipts w free h =
      let p = new_payment instructor_id dto product w.db.next_id in
      subst (Returns (IsRequested instructor_id dto product receipt w))
        (sym (
          owner_found (requested product receipts w) p
            (find_by-append_self payment_key w.db.payments p free) refl))
        (record {
          inserted = refl;
          owned = refl;
          pending = refl;
          amount = refl;
          item = _;
          item_inserted = refl;
          item_of = refl;
          item_total = refl;
          entry = _;
          logged = refl;
          entry_of = refl;
          receipts = h;
        })

  request-IsRequested :
      (product : BillingProduct) (receipt : Option ReceiptDetails) (w : World)
      → IsFree payment_key w.db.next_id w.db.payments
      → Returns (IsRequested instructor_id dto product receipt w) (request product receipt w)
  unfolding request create_payment create_payment_item create_payment_status_history
      create_receipt_request new_payment request_receipt
  request-IsRequested product none w free =
      requested-IsRequested product none w.db.receipt_requests w free
        (sym (append-nil w.db.receipt_requests))
  request-IsRequested product (some details) w free =
      requested-IsRequested product (some details) _ w free refl

  -- The outcome for the product that was found: not found, refused, or requested.
  abbrev pub Requested : World → Option BillingProduct → Result Payment × World → Type 0
  Requested w none r = r ≡ (err (not_found "상품을 찾을 수 없습니다."), w)
  Requested w (some p) r =
      Decided (IsRequested instructor_id dto p dto.receipt_request w) w (refuse_product p) r

  checked :
      (w : World) (found : Option BillingProduct)
      → IsFree payment_key w.db.next_id w.db.payments
      → Requested w found (
          (or_throw found (not_found "상품을 찾을 수 없습니다.") >>= λ product.
          assert_bank_transfer_purchasable product >>= λ _. request product dto.receipt_request)
            w)
  unfolding assert_bank_transfer_purchasable
  checked w none free = refl
  checked w (some p) free =
      decided (IsRequested instructor_id dto p dto.receipt_request w) w
        (request p dto.receipt_request) p.is_active_product (is_bank_transfer p.payment_method_type)
        (is_pass_single p.product_type) (is_credit_pack p.product_type) _ _ _
        (request-IsRequested p dto.receipt_request w free)

  -- Requesting a bank transfer, when the identifier of the new payment is new: an unknown product is
  -- not found, and one that is not for sale by bank transfer is refused, both with nothing changed;
  -- otherwise the call returns the payment that it has inserted, as `IsRequested` says.
  pub create-Requested :
      (w : World)
      → IsFree payment_key w.db.next_id w.db.payments
      → Requested w
          (find_unique (λ (p : BillingProduct). p.id == dto.product_id) w.db.products)
          (create_bank_transfer_payment instructor_id dto actor w)
  unfolding create_bank_transfer_payment find_product_by_id request
  create-Requested w free =
      checked w (find_unique (λ (p : BillingProduct). p.id == dto.product_id) w.db.products) free
