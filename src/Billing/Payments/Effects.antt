-- ===== src/Billing/Payments/Effects.antt =====
-- The delivery of an approved payment leaves the payments and their histories alone.
use ssambee_be.Prelude.{ℕ, refl, some, List, if◌then◌else◌}
use ssambee_be.Prelude.Action.{pure, for_each, ◌>>◌}
use ssambee_be.Prelude.OrderBy.{OrderBy}
use ssambee_be.Billing.Constants.{is_pass_single, is_credit_pack}
use ssambee_be.Billing.Dates.{DateFns}
use ssambee_be.Billing.Database.{Payment, PaymentItem}
use ssambee_be.Billing.Repo.{list_payment_items}
use ssambee_be.Billing.Database.{Billing}
use ssambee_be.Billing.Credits.{refresh_credit_wallet, grant_recharge_credits}
use ssambee_be.Billing.Entitlements.{provision_pass_entitlements}
use ssambee_be.Billing.Entitlements.Effects.{provision_pass-Spares}
use ssambee_be.Billing.Books.{
  Spares, Spares-bind, Spares-for_each, Spares-if, Spares-pure, grant_recharge-Spares,
  refresh-Spares,
}
use ssambee_be.Billing.Payments.{provision_item, deliver}

module _ ⦃o : OrderBy⦄ ⦃d : DateFns⦄ (payment : Payment) (approved_at : ℕ) where
  provision_item-Spares : (item : PaymentItem) → Spares (provision_item payment approved_at item)
  unfolding provision_item
  provision_item-Spares item =
      Spares-bind pass (λ _. pack)
        (Spares-if (is_pass_single item.product_type_snapshot)
          (provision_pass_entitlements payment.instructor_id item approved_at) (pure tt)
          (provision_pass-Spares payment.instructor_id item approved_at) (Spares-pure tt))
        (λ _.
          Spares-if (is_credit_pack item.product_type_snapshot) grant (pure tt)
            (Spares-bind (grant_recharge_credits approved item) (λ _. pure tt)
              (grant_recharge-Spares approved item) (λ _. Spares-pure tt))
            (Spares-pure tt))
    where
      approved : Payment
      approved = record payment { approved_at = some approved_at }

      grant : Billing (Unit {0})
      grant = grant_recharge_credits approved item >> pure tt

      pass : Billing (Unit {0})
      pass =
          if is_pass_single item.product_type_snapshot
          then provision_pass_entitlements payment.instructor_id item approved_at
          else pure tt

      pack : Billing (Unit {0})
      pack = if is_credit_pack item.product_type_snapshot then grant else pure tt

  items-Spares : Spares (list_payment_items payment.id)
  unfolding list_payment_items
  items-Spares w = (refl, refl)

  pub deliver-Spares : Spares (deliver payment approved_at)
  unfolding deliver
  deliver-Spares =
      Spares-bind (list_payment_items payment.id) (λ items. each items >> refresh) items-Spares
        (λ items.
          Spares-bind (each items) (λ _. refresh)
            (Spares-for_each (provision_item payment approved_at) items provision_item-Spares)
            (λ _.
              Spares-bind (refresh_credit_wallet payment.instructor_id) (λ _. pure tt)
                (refresh-Spares payment.instructor_id) (λ _. Spares-pure tt)))
    where
      each : List PaymentItem → Billing (Unit {0})
      each = for_each (provision_item payment approved_at)

      refresh : Billing (Unit {0})
      refresh = refresh_credit_wallet payment.instructor_id >> pure tt
