-- ===== src/Billing/Credits/Consume.antt =====
-- The loop of `consumeCredits`: it takes the amount from the buckets in their order, the one that
-- expires first being used up first.
use ssambee_be.Prelude.{
  ℕ, ◌+◌, ◌-◌, ◌≤◌, min, ◌≡◌, refl, ap, sym, subst, ◌∙◌, false, some, List, [], ◌∷◌, arith, leb,
  ◌==◌, if◌then◌else◌, inl, inr, Bool-cases, find_by, find_by-update_self, find_by-update_ne,
  sum_by, sum_by-update, All, HasDistinct, HasDistinct-update, IsFree, update_many,
}
use ssambee_be.Prelude.Int.{ℤ, negate, ◌+ℤ◌, total_by, total_by-append, int_laws}
use ssambee_be.Prelude.Action.{Returns, Returns-step, Returns-bind, Returns-map, ok}
use ssambee_be.Prelude.OrderBy.{OrderBy}
use ssambee_be.Billing.Constants.{CreditBucketStatus}
use ssambee_be.Billing.Database.{CreditBucket, CreditLedger, World, Db}
use ssambee_be.Billing.Repo.{new_date, update_credit_bucket, set_buckets}
use ssambee_be.Billing.Credits.{
  Reference, consume_bucket, consume_buckets, append_credit_ledger, take_from, use_entry,
  refresh_credit_wallet,
}
use ssambee_be.Billing.Credits.Wallet.{remaining}

abbrev pub bucket_id : CreditBucket → ℕ
bucket_id b = b.id

abbrev pub delta : CreditLedger → ℤ
delta l = l.delta_amount

-- The bucket after `n` credits or all that it has, whichever is less, were taken from it.
abbrev pub spend : CreditBucket → ℕ → CreditBucket
spend b n = if leb n 0 then b else record b {
  remaining_amount = b.remaining_amount - n;
  status =
      if b.remaining_amount - n == 0
      then CreditBucketStatus.depleted
      else CreditBucketStatus.active;
}

-- Each bucket of the list has given what the buckets before it, `before` credits in all, left over
-- of the amount.
abbrev pub IsSpent : ℕ → ℕ → List CreditBucket → List CreditBucket → Type 0
IsSpent amount before rows [] = Unit
IsSpent amount before rows (b ∷ bs) =
    (find_by bucket_id b.id rows ≡ some (spend b (amount - before)))
    × IsSpent amount (before + b.remaining_amount) rows bs

-- The buckets that the loop goes through are rows of the table.
abbrev pub AreRows : List CreditBucket → List CreditBucket → Type 0
AreRows rows = All λ b. find_by bucket_id b.id rows ≡ some b

-- What the loop has changed, when it began at `w` and ended at `w'` and used `used` credits.
pub record IsUsed (used : ℕ) (w w' : World) : Type 0 where
  pub distinct : HasDistinct bucket_id w'.db.credit_buckets
  pub taken : sum_by remaining w'.db.credit_buckets + used ≡ sum_by remaining w.db.credit_buckets
  pub recorded : total_by delta w'.db.ledgers ≡ total_by delta w.db.ledgers +ℤ negate used
  pub kept : w'.db ≡ record (w.db) {
    credit_buckets = w'.db.credit_buckets;
    wallets = w'.db.wallets;
    ledgers = w'.db.ledgers;
  }
  pub clock_kept : w'.clock ≡ w.clock

pub update_credit_bucket_found :
    (id : ℕ) (f : CreditBucket → CreditBucket) (w : World) {b : CreditBucket}
    → find_by bucket_id id w.db.credit_buckets ≡ some b
    → update_credit_bucket id f w
      ≡ (ok (f b), set_buckets (update_many (λ c. c.id == id) f w.db.credit_buckets) w)
unfolding update_credit_bucket
update_credit_bucket_found id f w h = ground arith

unused : (n : ℕ) (w : World) → n ≡ 0 → HasDistinct bucket_id w.db.credit_buckets → IsUsed n w w
unused n w e d = rw e (record {
  distinct = d;
  taken = omega arith;
  recorded = omega int_laws;
  kept = refl;
  clock_kept = refl;
})

IsUsed-trans : {m n : ℕ} {w w' w'' : World} → IsUsed m w w' → IsUsed n w' w'' → IsUsed (m + n) w w''
IsUsed-trans {m} {n} {w} {w'} {w''} u v = record {
  distinct = v.distinct;
  taken = omega (arith, u.taken, v.taken);
  recorded = v.recorded ∙ (rw u.recorded (omega int_laws));
  kept =
      v.kept
      ∙ ap {A = Db} {B = Db}
          (λ d. record d {
            credit_buckets = w''.db.credit_buckets;
            wallets = w''.db.wallets;
            ledgers = w''.db.ledgers;
          })
          u.kept;
  clock_kept = v.clock_kept ∙ u.clock_kept;
}

untouched :
    (amount before : ℕ) (rows bs : List CreditBucket)
    → amount ≤ before
    → AreRows rows bs
    → IsSpent amount before rows bs
untouched amount before rows [] h r = tt
untouched amount before rows (b ∷ bs) h r =
    (ground arith, untouched amount (before + b.remaining_amount) rows bs (omega arith) r.1)

AreRows-update :
    (j : ℕ) (f : CreditBucket → CreditBucket) (rows bs : List CreditBucket)
    → ((c : CreditBucket) → bucket_id (f c) ≡ bucket_id c)
    → IsFree bucket_id j bs
    → AreRows rows bs
    → AreRows (update_many (λ c. c.id == j) f rows) bs
AreRows-update j f rows [] same free r = tt
AreRows-update j f rows (b ∷ bs) same free r = (
  find_by-update_ne bucket_id j f same b.id rows free.0 ∙ r.0,
  AreRows-update j f rows bs same free.1 r.1,
)

take_from-eq-spend :
    (b : CreditBucket) (n : ℕ)
    → leb n 0 ≡ false
    → take_from b (min b.remaining_amount n) b ≡ spend b n
take_from-eq-spend b n h =
    let same : b.remaining_amount - min b.remaining_amount n ≡ b.remaining_amount - n =
      omega arith in
    rw (same, h)

module _ ⦃o : OrderBy⦄ (instructor_id : ℕ) (reference : Reference) where
  consume_bucket-IsUsed :
      (b : CreditBucket) (n : ℕ) (w : World)
      → HasDistinct bucket_id w.db.credit_buckets
      → find_by bucket_id b.id w.db.credit_buckets ≡ some b
      → n ≤ b.remaining_amount
      → Returns
          (λ _ w'.
            IsUsed n w w'
            × (w'.db.credit_buckets
                ≡ update_many (λ c. c.id == b.id) (take_from b n) w.db.credit_buckets))
          (consume_bucket instructor_id reference b n w)
  unfolding consume_bucket append_credit_ledger refresh_credit_wallet new_date
  consume_bucket-IsUsed b n w d found le =
      let change = take_from b n in
      let entry = use_entry instructor_id reference b n in
      Returns-step _ (update_credit_bucket b.id change) (λ _. append_credit_ledger entry) w
        (update_credit_bucket_found b.id change w found)
        (
          record {
            distinct = HasDistinct-update bucket_id b.id change (λ c. refl) w.db.credit_buckets d;
            taken =
                omega (
                  arith,
                  sum_by-update bucket_id b.id change remaining w.db.credit_buckets d found,
                );
            recorded = rw (total_by-append delta w.db.ledgers) (omega int_laws);
            kept = refl;
            clock_kept = refl;
          },
          refl,
        )

  -- What the loop does on the buckets that are left, when `before` credits were in those behind it.
  pub record IsLooped (amount before used : ℕ) (bs : List CreditBucket) (w w' : World)
      : Type 0 where
    pub totals : IsUsed used w w'
    pub spent : IsSpent amount before w'.db.credit_buckets bs
    pub others :
        (k : ℕ)
        → IsFree bucket_id k bs
        → find_by bucket_id k w'.db.credit_buckets ≡ find_by bucket_id k w.db.credit_buckets

  IsLooped-cons :
      (b : CreditBucket) (bs : List CreditBucket) (amount before rem : ℕ) {w w₁ w₂ : World}
      → rem ≡ amount - before
      → leb rem 0 ≡ false
      → IsFree bucket_id b.id bs
      → find_by bucket_id b.id w.db.credit_buckets ≡ some b
      → IsUsed (min b.remaining_amount rem) w w₁
      → w₁.db.credit_buckets
        ≡ update_many
            (λ c. c.id == b.id)
            (take_from b (min b.remaining_amount rem))
            w.db.credit_buckets
      → IsLooped amount
          (before + b.remaining_amount)
          (min (rem - min b.remaining_amount rem) (sum_by remaining bs))
          bs
          w₁
          w₂
      → IsLooped amount before (min rem (b.remaining_amount + sum_by remaining bs)) (b ∷ bs) w w₂
  IsLooped-cons b bs amount before rem {w} {w₁} {w₂} e more free row u rows₁ l =
      let n = min b.remaining_amount rem in
      let change = take_from b n in
      let rows = w.db.credit_buckets in
      let total : n + min (rem - n) (sum_by remaining bs)
          ≡ min rem (b.remaining_amount + sum_by remaining bs) =
        omega arith in
      record {
        totals = subst (λ k. IsUsed k w w₂) total (IsUsed-trans u l.totals);
        spent = (
          l.others b.id free
              ∙ ap (find_by bucket_id b.id) rows₁
              ∙ find_by-update_self bucket_id b.id change (λ c. refl) rows row
              ∙ ap some (take_from-eq-spend b rem more ∙ ap (spend b) e),
          l.spent,
        );
        others = λ k f.
            l.others k f.1
            ∙ ap (find_by bucket_id k) rows₁
            ∙ find_by-update_ne bucket_id b.id change (λ c. refl) k rows (λ q. f.0 (sym q));
      }

  pub consume_buckets-IsLooped :
      (bs : List CreditBucket) (amount before rem : ℕ) (w : World)
      → rem ≡ amount - before
      → HasDistinct bucket_id w.db.credit_buckets
      → HasDistinct bucket_id bs
      → AreRows w.db.credit_buckets bs
      → Returns
          (λ _. IsLooped amount before (min rem (sum_by remaining bs)) bs w)
          (consume_buckets instructor_id reference bs rem w)
  unfolding consume_buckets
  consume_buckets-IsLooped [] amount before rem w e d ds rows = record {
    totals = unused (min rem 0) w (omega arith) d;
    spent = tt;
    others = λ k free. refl;
  }
  consume_buckets-IsLooped (b ∷ bs) amount before rem w e d ds rows =
      let n = min b.remaining_amount rem in
      let rest : ℕ = sum_by remaining bs in
      elim (Bool-cases (leb rem 0)) [
        | inl stop ↦
            let zero_rem : rem ≡ 0 = ground arith in
            rw stop (record {
              totals = unused (min rem (b.remaining_amount + rest)) w (omega arith) d;
              spent = untouched amount before w.db.credit_buckets (b ∷ bs) (omega arith) rows;
              others = λ k free. refl;
            })
        | inr more ↦ rw more (
            Returns-bind _ _ (consume_bucket instructor_id reference b n)
              (λ _. consume_buckets instructor_id reference bs (rem - n)) w
              (consume_bucket-IsUsed b n w d rows.0 (omega arith))
              (λ _ w₁ u.
                Returns-map _ _ (consume_buckets instructor_id reference bs (rem - n) w₁)
                  (λ _ w₂ l. IsLooped-cons b bs amount before rem e more ds.0 rows.0 u.0 u.1 l)
                  (consume_buckets-IsLooped bs amount (before + b.remaining_amount) (rem - n) w₁
                    (omega arith) u.0.distinct ds.1
                    (rw u.1 (
                      AreRows-update b.id (take_from b n) w.db.credit_buckets bs (λ c. refl) ds.0
                        rows.1)))))
      ]
