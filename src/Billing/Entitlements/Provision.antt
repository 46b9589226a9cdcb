-- ===== src/Billing/Entitlements/Provision.antt =====
-- `provisionPassEntitlements`: the months of a pass follow one another without a gap.
use mathlib.Core.List.{append-nil, append_assoc}
use ssambee_be.Prelude.{
  ℕ, zero, suc, ◌+◌, ◌*◌, ◌≡◌, refl, ap, sym, ◌∙◌, Bool, true, false, Option, none, some, List, [],
  ◌∷◌, ◌++◌, arith, if◌then◌else◌, inl, inr, get_or, length, ◌≤◌, ◌<◌, All, All-map, not, is_some,
  head?, find_many,
}
use ssambee_be.Prelude.Action.{Returns, Returns-bind, Returns-map, pure, ◌>>◌}
use ssambee_be.Prelude.OrderBy.{OrderBy, order_by}
use ssambee_be.Billing.Constants.{EntitlementStatus}
use ssambee_be.Billing.Dates.{
  DateFns, IsCalendar, le-entitlement_end, calculate_monthly_entitlement_end_at,
  get_next_entitlement_start_at,
}
use ssambee_be.Billing.Database.{PaymentItem, Entitlement, CreditBucket, World, Billing}
use ssambee_be.Billing.Repo.{
  create_entitlement, find_latest_entitlement, is_included_bucket_of, ends_after,
  is_pending_entitlement,
}
use ssambee_be.Billing.Credits.{grant_included_credits_for_entitlement}
use ssambee_be.Billing.Credits.Grants.{Grants, grant_included-Grants}
use ssambee_be.Billing.Entitlements.{
  new_entitlement, provision_months, provision_pass_entitlements, or_monthly_amount, first_start_at,
}

pub Grants-entitlements :
    ⦃o : OrderBy⦄
    → (key : CreditBucket → Bool) (n : ℕ) (w : World) (b : CreditBucket) (w' : World)
    → Grants key n w b w'
    → w'.db.entitlements ≡ w.db.entitlements
Grants-entitlements key n w b w' (inl (old, same)) = ap (λ (v : World). v.db.entitlements) same
Grants-entitlements key n w b w' (inr (fresh, g)) = ap (λ d. d.entitlements) g.kept

module _ ⦃d : DateFns⦄ (instructor_id : ℕ) (item : PaymentItem) (now : ℕ) where
  -- The entitlements of consecutive months: numbered from `sequence_no` on, the first one beginning
  -- at `starts_at` and active if `activate` says so, each further one queued and beginning a
  -- millisecond after the end of the one before it.
  abbrev pub AreMonths : ℕ → ℕ → Bool → List Entitlement → Type 0
  AreMonths sequence_no starts_at activate [] = Unit
  AreMonths sequence_no starts_at activate (e ∷ es) =
      (e.instructor_id ≡ instructor_id)
      × (e.payment_item_id ≡ item.id)
      × (e.sequence_no ≡ sequence_no)
      × (e.starts_at ≡ starts_at)
      × (e.ends_at ≡ calculate_monthly_entitlement_end_at starts_at 1)
      × (e.status ≡ (if activate then EntitlementStatus.active else EntitlementStatus.queued))
      × (e.activated_at ≡ (if activate then some now else none))
      × (e.included_credit_amount ≡ or_monthly_amount item.included_credit_amount_snapshot)
      × AreMonths (sequence_no + 1) (e.ends_at + 1) false es

  -- The rows that a call has appended to the table of entitlements.
  abbrev pub Appends : ℕ → ℕ → ℕ → Bool → World → World → Type 0
  Appends rounds sequence_no starts_at activate w w' =
      (rows : List Entitlement) × (w'.db.entitlements ≡ w.db.entitlements ++ rows)
      × (length rows ≡ rounds)
      × AreMonths sequence_no starts_at activate rows

  module _ ⦃o : OrderBy⦄ where
    granting : Bool → Entitlement → Billing (Unit {0})
    granting activate e =
        if activate then (grant_included_credits_for_entitlement e >> pure tt) else pure tt

    granting-entitlements :
        (activate : Bool) (e : Entitlement) (w : World)
        → Returns (λ _ w'. w'.db.entitlements ≡ w.db.entitlements) (granting activate e w)
    unfolding granting
    granting-entitlements false e w = refl
    granting-entitlements true e w =
        Returns-bind _ _ (grant_included_credits_for_entitlement e) (λ _. pure tt) w
          (grant_included-Grants e w)
          (Grants-entitlements (is_included_bucket_of e.id) e.included_credit_amount w)

    provision_months-Appends :
        (rounds sequence_no starts_at : ℕ) (activate : Bool) (w : World)
        → Returns
            (λ _. Appends rounds sequence_no starts_at activate w)
            (provision_months instructor_id item now rounds sequence_no starts_at activate w)
    unfolding provision_months granting new_entitlement create_entitlement
        get_next_entitlement_start_at
    provision_months-Appends zero k t a w = ([], sym (append-nil _), refl, tt)
    provision_months-Appends (suc rounds) k t a w =
        let e = new_entitlement instructor_id item now k t a w.db.next_id in
        let w₁ : World = (create_entitlement (new_entitlement instructor_id item now k t a) w).1 in
        let next = e.ends_at + 1 in
        Returns-bind (λ _ w₂. w₂.db.entitlements ≡ w₁.db.entitlements) _ (granting a e)
          (λ _. provision_months instructor_id item now rounds (k + 1) next false) w₁
          (granting-entitlements a e w₁)
          λ _ w₂ same.
            Returns-map _ _ (provision_months instructor_id item now rounds (k + 1) next false w₂)
              (λ _ w₃ (rows, appended, count, months). (
                e ∷ rows,
                appended
                    ∙ ap (λ es. es ++ rows) same
                    ∙ append_assoc w.db.entitlements (e ∷ []) rows,
                ap suc count,
                (refl, refl, refl, refl, refl, refl, refl, refl, months),
              ))
              (provision_months-Appends rounds (k + 1) next false w₂)

    -- The entitlement of the instructor that ends last, among those active or queued.
    abbrev pub latest_of : World → Option Entitlement
    latest_of w =
        head?
          (order_by ends_after (find_many (is_pending_entitlement instructor_id) w.db.entitlements))

    -- Paying for a pass appends one entitlement for each month paid for, and touches no other. They
    -- are numbered from 1 and follow one another without a gap. If the instructor has an active or
    -- queued entitlement, the first one begins after the one that ends last, and all are queued;
    -- else the first one begins now and is active.
    pub provision_pass-Appends :
        (w : World)
        → Returns
            (λ _.
              Appends
                (get_or item.duration_months_snapshot 1 * item.quantity)
                1
                (first_start_at instructor_id item now (latest_of w))
                (not (is_some (latest_of w)))
                w)
            (provision_pass_entitlements instructor_id item now w)
    unfolding provision_pass_entitlements find_latest_entitlement
    provision_pass-Appends w =
        provision_months-Appends (get_or item.duration_months_snapshot 1 * item.quantity) 1
          (first_start_at instructor_id item now (latest_of w)) (not (is_some (latest_of w))) w

-- Each entitlement ends no earlier than it starts, and before any later one of the list starts.
abbrev pub AreDisjoint : List Entitlement → Type 0
AreDisjoint [] = Unit
AreDisjoint (e ∷ es) =
    (e.starts_at ≤ e.ends_at) × All (λ f. e.ends_at < f.starts_at) es × AreDisjoint es

module _ ⦃d : DateFns⦄ (instructor_id : ℕ) (item : PaymentItem) (now : ℕ) (c : IsCalendar d) where
  AreMonths-le :
      (k t : ℕ) (a : Bool) (rows : List Entitlement)
      → AreMonths instructor_id item now k t a rows
      → All (λ e. t ≤ e.starts_at) rows
  AreMonths-le k t a [] m = tt
  AreMonths-le k t a (e ∷ es) m =
      let (_, _, _, starts, ends, _, _, _, months) = m in
      (
        omega arith,
        All-map (λ f h. omega (arith, le-entitlement_end c t 1 (omega arith), starts, ends)) es
            (AreMonths-le (k + 1) (e.ends_at + 1) false es months),
      )

  AreMonths-AreDisjoint :
      (k t : ℕ) (a : Bool) (rows : List Entitlement)
      → AreMonths instructor_id item now k t a rows
      → AreDisjoint rows
  AreMonths-AreDisjoint k t a [] m = tt
  AreMonths-AreDisjoint k t a (e ∷ es) m =
      let (_, _, _, starts, ends, _, _, _, months) = m in
      (
        omega (arith, le-entitlement_end c t 1 (omega arith), starts, ends),
        All-map (λ f h. omega (arith, h)) es (AreMonths-le (k + 1) (e.ends_at + 1) false es months),
        AreMonths-AreDisjoint (k + 1) (e.ends_at + 1) false es months,
      )

  -- Under the documented laws of the calendar the periods of the entitlements that a payment for a
  -- pass appends do not overlap.
  pub provision_pass-AreDisjoint :
      ⦃o : OrderBy⦄
      → (w : World)
      → Returns
          (λ _ w'.
            (rows : List Entitlement) × (w'.db.entitlements ≡ w.db.entitlements ++ rows)
            × AreDisjoint rows)
          (provision_pass_entitlements instructor_id item now w)
  provision_pass-AreDisjoint w =
      Returns-map _ _ (provision_pass_entitlements instructor_id item now w)
        (λ _ w' (rows, appended, count, months).
          (rows, appended, AreMonths-AreDisjoint 1 _ _ rows months))
        (provision_pass-Appends instructor_id item now w)
