-- ===== src/Billing/Dates.antt =====
-- The entitlement and credit dates of src/utils/date.util.ts. An instant is a number of milliseconds
-- since the epoch. The packages date-fns and date-fns-tz are parameters.
use ssambee_be.Prelude.{ℕ, ◌+◌, ◌-◌, ◌*◌, ◌≤◌, ◌<◌, ◌≡◌, arith}

-- The functions of date-fns and date-fns-tz that the code calls, the zone being `KST_TIMEZONE`.
pub record DateFns : Type 0 where
  pub to_zoned_time : ℕ → ℕ
  pub from_zoned_time : ℕ → ℕ
  pub start_of_day : ℕ → ℕ
  pub add_months : ℕ → ℕ → ℕ
  pub add_days : ℕ → ℕ → ℕ

abbrev pub day_ms : ℕ
day_ms = 86_400_000

-- What the packages document: the two conversions undo one another and keep the order of instants
-- (Korea has no daylight saving time), a day begins within the last 24 hours, no month has fewer
-- than 28 days, and a day added is 24 hours.
pub record IsCalendar (d : DateFns) : Type 0 where
  pub from-to_zoned_time : (t : ℕ) → d.from_zoned_time (d.to_zoned_time t) ≡ t
  pub from_zoned_time_mono : (s t : ℕ) → s ≤ t → d.from_zoned_time s ≤ d.from_zoned_time t
  pub start_of_day-le : (t : ℕ) → d.start_of_day t ≤ t
  pub lt-start_of_day : (t : ℕ) → t < d.start_of_day t + day_ms
  pub add_months-le : (t m : ℕ) → 1 ≤ m → t + 28 * day_ms ≤ d.add_months t m
  pub add_days_lem : (t n : ℕ) → d.add_days t n ≡ t + n * day_ms

module _ ⦃d : DateFns⦄ where
  pub calculate_monthly_entitlement_end_at : ℕ → ℕ → ℕ
  calculate_monthly_entitlement_end_at start_at months =
      let zoned_start = d.to_zoned_time start_at in
      let zoned_day_start = d.start_of_day zoned_start in
      let next_month_day_start = d.add_months zoned_day_start months in
      let zoned_end = next_month_day_start - 1 in d.from_zoned_time zoned_end

  unfoldable pub get_next_entitlement_start_at : ℕ → ℕ
  get_next_entitlement_start_at previous_ends_at = previous_ends_at + 1

  pub calculate_credit_expiry_at : ℕ → ℕ → ℕ
  calculate_credit_expiry_at base_at days =
      let zoned_start = d.to_zoned_time base_at in
      let zoned_day_start = d.start_of_day zoned_start in
      let zoned_end = d.add_days zoned_day_start days - 1 in d.from_zoned_time zoned_end

  module _ (c : IsCalendar d) where
    open c use {from-to_zoned_time, from_zoned_time_mono}

    -- An entitlement of at least one month does not end before it starts.
    pub le-entitlement_end : (t m : ℕ) → 1 ≤ m → t ≤ calculate_monthly_entitlement_end_at t m
    unfolding calculate_monthly_entitlement_end_at
    le-entitlement_end t m h =
        let z = d.to_zoned_time t in
        let e = d.add_months (d.start_of_day z) m in
        let le : z ≤ e - 1 =
          omega (arith, c.lt-start_of_day z, c.add_months-le (d.start_of_day z) m h) in
        omega (arith, from_zoned_time_mono z (e - 1) le, from-to_zoned_time t)

    -- Credits that last a day or longer do not expire before they are granted.
    pub le-credit_expiry : (t n : ℕ) → 1 ≤ n → t ≤ calculate_credit_expiry_at t n
    unfolding calculate_credit_expiry_at
    le-credit_expiry t n h =
        let z = d.to_zoned_time t in
        let e = d.add_days (d.start_of_day z) n in
        let le : z ≤ e - 1 =
          grind (arith, c.lt-start_of_day z, c.add_days_lem (d.start_of_day z) n) in
        omega (arith, from_zoned_time_mono z (e - 1) le, from-to_zoned_time t)
