-- ===== src/Billing/Entitlements/Effects.antt =====
-- The provision of a pass leaves the payments and their histories alone.
use ssambee_be.Prelude.{
  ℕ, zero, suc, false, ◌+◌, ◌*◌, refl, Bool, not, if◌then◌else◌, get_or, is_some, Option,
}
use ssambee_be.Prelude.Action.{pure, ◌>>◌}
use ssambee_be.Prelude.OrderBy.{OrderBy}
use ssambee_be.Billing.Dates.{
  DateFns, calculate_monthly_entitlement_end_at, get_next_entitlement_start_at,
}
use ssambee_be.Billing.Database.{PaymentItem, Entitlement, Billing}
use ssambee_be.Billing.Repo.{create_entitlement, find_latest_entitlement}
use ssambee_be.Billing.Credits.{grant_included_credits_for_entitlement}
use ssambee_be.Billing.Books.{Spares, Spares-bind, Spares-if, Spares-pure, grant_included-Spares}
use ssambee_be.Billing.Entitlements.{
  provision_months, new_entitlement, first_start_at, provision_pass_entitlements,
}

module _ ⦃o : OrderBy⦄ ⦃d : DateFns⦄ (instructor_id : ℕ) (item : PaymentItem) (now : ℕ) where
  create-Spares : (row : ℕ → Entitlement) → Spares (create_entitlement row)
  unfolding create_entitlement
  create-Spares row w = (refl, refl)

  latest-Spares : Spares (find_latest_entitlement instructor_id)
  unfolding find_latest_entitlement
  latest-Spares w = (refl, refl)

  provision_months-Spares :
      (rounds sequence_no cursor_start_at : ℕ) (activate : Bool)
      → Spares (provision_months instructor_id item now rounds sequence_no cursor_start_at activate)
  unfolding provision_months
  provision_months-Spares zero sequence_no cursor_start_at activate = Spares-pure tt
  provision_months-Spares (suc rounds) sequence_no cursor_start_at activate =
      Spares-bind
        (create_entitlement
          (new_entitlement instructor_id item now sequence_no cursor_start_at activate))
        (λ e. granting e >> rest)
        (create-Spares
          (new_entitlement instructor_id item now sequence_no cursor_start_at activate))
        (λ e.
          Spares-bind (granting e) (λ _. rest)
            (Spares-if activate (grant_included_credits_for_entitlement e >> pure tt) (pure tt)
              (Spares-bind (grant_included_credits_for_entitlement e) (λ _. pure tt)
                (grant_included-Spares e) (λ _. Spares-pure tt))
              (Spares-pure tt))
            (λ _. provision_months-Spares rounds (sequence_no + 1) next_start_at false))
    where
      next_start_at : ℕ
      next_start_at =
          get_next_entitlement_start_at (calculate_monthly_entitlement_end_at cursor_start_at 1)

      granting : Entitlement → Billing (Unit {0})
      granting e =
          if activate then (grant_included_credits_for_entitlement e >> pure tt) else pure tt

      rest : Billing (Unit {0})
      rest = provision_months instructor_id item now rounds (sequence_no + 1) next_start_at false

  pub provision_pass-Spares : Spares (provision_pass_entitlements instructor_id item now)
  unfolding provision_pass_entitlements
  provision_pass-Spares =
      Spares-bind (find_latest_entitlement instructor_id) from latest-Spares (λ latest.
        provision_months-Spares months 1 (first_start_at instructor_id item now latest)
          (not (is_some latest)))
    where
      months : ℕ
      months = get_or item.duration_months_snapshot 1 * item.quantity

      from : Option Entitlement → Billing (Unit {0})
      from latest =
          provision_months instructor_id item now months 1
            (first_start_at instructor_id item now latest) (not (is_some latest))
