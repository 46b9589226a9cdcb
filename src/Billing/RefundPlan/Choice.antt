-- ===== src/Billing/RefundPlan/Choice.antt =====
-- Which entitlements a refund takes back.
use ssambee_be.Prelude.{
  ℕ, ◌+◌, ◌-◌, ◌≡◌, ◌≤◌, ◌<◌, refl, Bool, true, false, List, ◌++◌, if◌then◌else◌, get_or, ltb,
  length, length-append, take, length-take, take-all, arith, ap, ltb→lt, ◌⊎◌, inl, inr,
}
use ssambee_be.Prelude.Action.{Result, ok, err, bad_request, conflict, throw, pure}
use ssambee_be.Billing.Database.{World}
use ssambee_be.Billing.RefundPlan.{
  UpdatePaymentRefundStatusDto, RefundEntitlementTarget, choose_targets,
}

-- What is chosen when `count` entitlements are asked for: too many are refused; so are active ones
-- without a confirmation; else there are `count`, the first queued ones, and active ones only after
-- all the queued ones.
abbrev pub Choice :
    Bool
    → List RefundEntitlementTarget
    → List RefundEntitlementTarget
    → ℕ
    → World
    → Result (List RefundEntitlementTarget) × World
    → Type 0
Choice confirmed queued active count w (err e, w') =
    (w' ≡ w)
    × (((length queued + length active < count) × (e ≡ bad_request "회수할 수 있는 이용권 수를 초과했습니다."))
        ⊎ ((length queued < count)
            × (confirmed ≡ false)
            × (e ≡ conflict "ACTIVE_REVOKE_CONFIRM_REQUIRED")))
Choice confirmed queued active count w (ok targets, w') =
    (w' ≡ w)
    × (length targets ≡ count)
    × (((count ≤ length queued) × (targets ≡ take count queued))
        ⊎ ((length queued < count)
            × (confirmed ≡ true)
            × (targets ≡ queued ++ take (count - length queued) active)))

module _ (dto : UpdatePaymentRefundStatusDto) (queued active : List RefundEntitlementTarget)
    (w : World) where
  -- The last two branches, on the confirmation.
  with_active :
      (count : ℕ) (confirmed : Bool)
      → length queued < count
      → count ≤ length queued + length active
      → Choice confirmed queued active count w (
          (if confirmed
              then pure (take count queued ++ take (count - length (take count queued)) active)
              else throw (conflict "ACTIVE_REVOKE_CONFIRM_REQUIRED"))
            w)
  with_active count false short room = (refl, inr (short, refl, refl))
  with_active count true short room =
      let all : take count queued ≡ queued = take-all count queued (omega arith) in
      (
        refl,
        omega (
          arith,
          length-append (take count queued) (take (count - length (take count queued)) active),
          length-take count queued,
          length-take (count - length (take count queued)) active,
        ),
        inr (short, refl, ap (λ ts. ts ++ take (count - length ts) active) all),
      )

  chosen :
      (count : ℕ) (confirmed too_many short : Bool)
      → ltb (length queued + length active) count ≡ too_many
      → ltb (length (take count queued)) count ≡ short
      → Choice confirmed queued active count w (
          (if too_many
              then throw (bad_request "회수할 수 있는 이용권 수를 초과했습니다.")
              else if short
              then if confirmed
                then pure (take count queued ++ take (count - length (take count queued)) active)
                else throw (conflict "ACTIVE_REVOKE_CONFIRM_REQUIRED")
              else pure (take count queued))
            w)
  chosen count confirmed true short h k = (refl, inl (ltb→lt _ _ h, refl))
  chosen count confirmed false true h k =
      with_active count confirmed (omega (arith, ltb→lt _ _ k, length-take count queued))
        (ground arith)
  chosen count confirmed false false h k =
      let enough : count ≤ length (take count queued) = ground arith in
      (
        refl,
        omega (arith, length-take count queued, enough),
        inl (omega (arith, length-take count queued, enough), refl),
      )

  pub choose-Choice :
      Choice dto.allow_active_revoke queued active
        (get_or dto.revoke_count (length queued + length active))
        w
        (choose_targets dto queued active w)
  unfolding choose_targets
  choose-Choice =
      chosen (get_or dto.revoke_count (length queued + length active)) dto.allow_active_revoke _ _
        refl refl
