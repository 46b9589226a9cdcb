-- ===== src/Billing/Entitlements/Fates.antt =====
-- What `reconcileInstructorState` does to the rows of the entitlements, one at a time.
use native.Mathlib.Decide.{ℕ_discrete}
use mathlib.Core.Option.{some-injective}
use ssambee_be.Prelude.{
  ℕ, ◌+◌, ◌≡◌, ◌⊎◌, refl, ap, sym, ◌∙◌, Bool, true, false, Option, some, List, [], ◌∷◌, arith, ◌==◌,
  if◌then◌else◌, inl, inr, All, HasDistinct, HasDistinct-update, find_by, find_by-update_self,
  find_by-update_ne, any_where, update_many, sum_by, sum_by-update,
}
use ssambee_be.Billing.Constants.{EntitlementStatus}
use ssambee_be.Billing.Database.{Entitlement}
use ssambee_be.Billing.Repo.{is_overdue, is_current, is_ready}

abbrev pub entitlement_id : Entitlement → ℕ
entitlement_id e = e.id

pub Entitlement-set : IsSet Entitlement
Entitlement-set = hlevel

-- The row after `expireEntitlement`, and after `activateEntitlement`.
abbrev pub expired_at_time : ℕ → Entitlement → Entitlement
expired_at_time now e = record e { status = EntitlementStatus.expired; expired_at = some now }

abbrev pub activated_at_time : ℕ → Entitlement → Entitlement
activated_at_time now e = record e { status = EntitlementStatus.active; activated_at = some now }

-- What becomes of a row: an overdue one is expired, and another one stays, or is activated if it is
-- a queued one that is due.
abbrev pub Fate : ℕ → ℕ → Entitlement → Option Entitlement → Type 0
Fate i now e r =
    if is_overdue i now e
    then r ≡ some (expired_at_time now e)
    else ((r ≡ some e) ⊎ ((is_ready i now e ≡ true) × (r ≡ some (activated_at_time now e))))

-- What the loop has done to the entitlements.
pub record IsSettled (i now : ℕ) (rows rows' : List Entitlement) : Type 0 where
  pub distinct : HasDistinct entitlement_id rows'
  pub none_overdue : All (λ e. is_overdue i now e ≡ false) rows'
  pub served :
      (any_where (is_current i now) rows' ≡ true) ⊎ All (λ e. is_ready i now e ≡ false) rows'
  pub fate :
      (k : ℕ) (e : Entitlement)
      → find_by entitlement_id k rows ≡ some e
      → Fate i now e (find_by entitlement_id k rows')

-- How many entitlements of the instructor are overdue.
abbrev pub overdue_count : ℕ → ℕ → List Entitlement → ℕ
overdue_count i now = sum_by λ e. if is_overdue i now e then 1 else 0

pub any_where-update :
    (p : Entitlement → Bool) (j : ℕ) (f : Entitlement → Entitlement) (rows : List Entitlement)
    {e : Entitlement}
    → find_by entitlement_id j rows ≡ some e
    → p (f e) ≡ true
    → any_where p (update_many (λ c. c.id == j) f rows) ≡ true
any_where-update p j f [] h q = cc
any_where-update p j f (x ∷ rows) {e = e} h q = ground (arith, any_where-update p j f rows {e = e})

pub not-All-false :
    (p : Entitlement → Bool) (rows : List Entitlement)
    → All (λ e. p e ≡ false) rows
    → any_where p rows ≡ true
    → ⊥
not-All-false p [] h a = cc
not-All-false p (x ∷ rows) h a = ground (arith, not-All-false p rows h.1)

count-none :
    (i now : ℕ) (rows : List Entitlement)
    → overdue_count i now rows ≡ 0
    → All (λ e. is_overdue i now e ≡ false) rows
count-none i now [] h = tt
count-none i now (x ∷ rows) h = ground (arith, count-none i now rows)

none-count :
    (i now : ℕ) (rows : List Entitlement)
    → All (λ e. is_overdue i now e ≡ false) rows
    → overdue_count i now rows ≡ 0
none-count i now [] h = refl
none-count i now (x ∷ rows) h = ground (arith, none-count i now rows h.1)

pub find-All :
    (p : Entitlement → Bool) (k : ℕ) (rows : List Entitlement) {e : Entitlement}
    → All (λ e. p e ≡ false) rows
    → find_by entitlement_id k rows ≡ some e
    → p e ≡ false
find-All p k [] a h = cc
find-All p k (x ∷ rows) {e = e} a h = ground (arith, find-All p k rows {e = e} a.1)

-- A row that stays has its fate; `expired_at_time` and `activated_at_time` keep the key.
stays : (i now : ℕ) (e : Entitlement) → is_overdue i now e ≡ false → Fate i now e (some e)
stays i now e h = rw h (inl refl)

expired-Fate :
    (i now : ℕ) (e : Entitlement) (r : Option Entitlement)
    → is_overdue i now e ≡ true
    → Fate i now (expired_at_time now e) r
    → Fate i now e r
expired-Fate i now e r h f = rw h (ground arith)

-- One round that expires `e`, and what the rounds after it do.
pub IsSettled-expire :
    (i now : ℕ) (e : Entitlement) (rows rows' : List Entitlement)
    → find_by entitlement_id e.id rows ≡ some e
    → is_overdue i now e ≡ true
    → IsSettled i now (update_many (λ c. c.id == e.id) (expired_at_time now) rows) rows'
    → IsSettled i now rows rows'
IsSettled-expire i now e rows rows' found overdue s = record {
  distinct = s.distinct;
  none_overdue = s.none_overdue;
  served = s.served;
  fate = λ k x h. elim (ℕ_discrete k e.id) [
    | yes same ↦
        let is_e : x ≡ e =
          some-injective _ _ (sym h ∙ ap (λ j. find_by entitlement_id j rows) same ∙ found) in
        let next : find_by entitlement_id k
              (update_many (λ c. c.id == e.id) (expired_at_time now) rows)
            ≡ some (expired_at_time now e) =
          rw same (
            find_by-update_self entitlement_id e.id (expired_at_time now) (λ c. refl) rows found) in
        rw is_e (
          expired-Fate i now e (find_by entitlement_id k rows') overdue
            (s.fate k (expired_at_time now e) next))
    | no other ↦
        s.fate k x
          (find_by-update_ne entitlement_id e.id (expired_at_time now) (λ c. refl) k rows other ∙ h)
  ];
}

-- The rows after `e` was activated, when none was overdue.
pub IsSettled-activate :
    (i now : ℕ) (e : Entitlement) (rows : List Entitlement)
    → HasDistinct entitlement_id rows
    → All (λ e. is_overdue i now e ≡ false) rows
    → find_by entitlement_id e.id rows ≡ some e
    → is_ready i now e ≡ true
    → IsSettled i now rows (update_many (λ c. c.id == e.id) (activated_at_time now) rows)
IsSettled-activate i now e rows d clear found ready =
    let change = activated_at_time now in
    let fresh : is_overdue i now (change e) ≡ false = ground arith in
    record {
      distinct = HasDistinct-update entitlement_id e.id change (λ c. refl) rows d;
      none_overdue = count-none i now (update_many (λ c. c.id == e.id) change rows) (
          ground (
            arith,
            none-count i now rows clear,
            sum_by-update entitlement_id e.id change (λ e. if is_overdue i now e then 1 else 0) rows
                {x = e} d found,
          ));
      served = inl (any_where-update (is_current i now) e.id change rows found (ground arith));
      fate = λ k x h. elim (ℕ_discrete k e.id) [
        | yes same ↦
            let is_e : x ≡ e =
              some-injective _ _ (sym h ∙ ap (λ j. find_by entitlement_id j rows) same ∙ found) in
            let next : find_by entitlement_id k (update_many (λ c. c.id == e.id) change rows)
                ≡ some (change e) =
              rw same (find_by-update_self entitlement_id e.id change (λ c. refl) rows found) in
            rw (is_e, find-All (is_overdue i now) e.id rows clear found) (inr (ready, next))
        | no other ↦
            let next : find_by entitlement_id k (update_many (λ c. c.id == e.id) change rows)
                ≡ some x =
              find_by-update_ne entitlement_id e.id change (λ c. refl) k rows other ∙ h in
            rw (next, find-All (is_overdue i now) k rows clear h) (inl refl)
      ];
    }

-- Nothing is left to do.
pub IsSettled-refl :
    (i now : ℕ) (rows : List Entitlement)
    → HasDistinct entitlement_id rows
    → All (λ e. is_overdue i now e ≡ false) rows
    → (any_where (is_current i now) rows ≡ true) ⊎ All (λ e. is_ready i now e ≡ false) rows
    → IsSettled i now rows rows
IsSettled-refl i now rows d clear served = record {
  distinct = d;
  none_overdue = clear;
  served = served;
  fate = λ k e h. rw (h, find-All (is_overdue i now) k rows clear h) (inl refl);
}

pub any_where-found :
    (p : Entitlement → Bool) (k : ℕ) (rows : List Entitlement) {e : Entitlement}
    → find_by entitlement_id k rows ≡ some e
    → p e ≡ true
    → any_where p rows ≡ true
any_where-found p k [] h q = cc
any_where-found p k (x ∷ rows) {e = e} h q = ground (arith, any_where-found p k rows {e = e})

pub overdue_count-expire :
    (i now : ℕ) (e : Entitlement) (rows : List Entitlement)
    → HasDistinct entitlement_id rows
    → find_by entitlement_id e.id rows ≡ some e
    → is_overdue i now e ≡ true
    → overdue_count i now (update_many (λ c. c.id == e.id) (expired_at_time now) rows) + 1
      ≡ overdue_count i now rows
overdue_count-expire i now e rows d found late = ground (
  arith,
  sum_by-update entitlement_id e.id (expired_at_time now) (λ e. if is_overdue i now e then 1 else 0)
      rows {x = e} d found,
)
