-- ===== src/Billing/Spending/Consumption.antt =====
-- What the transaction of `consumeCredits` takes, from which buckets, and when it refuses.
use ssambee_be.Prelude.{
  ℕ, suc, ◌+◌, ◌≤◌, ◌<◌, ◌≡◌, ◌↔◌, refl, ap, sym, subst, ◌∙◌, true, false, some, List, [], ◌∷◌,
  foldl, arith, ltb, min, HasDistinct, IsFree, find_many, find_by, find_by_rows, All-find_many,
  HasDistinct-find_many, sum_by,
}
use native.Mathlib.Decide.{dec_lt}
use ssambee_be.Prelude.Int.{total_by, negate, ◌+ℤ◌}
use ssambee_be.Prelude.Action.{bad_request, err, Returns, Returns-bind, Returns-map, pure, ◌>>=◌}
use ssambee_be.Prelude.OrderBy.{OrderBy, order_by, All-order_by, HasDistinct-order_by}
use ssambee_be.Billing.Database.{CreditBucket, World, Billing}
use ssambee_be.Billing.Repo.{is_available, bucket_before, list_active_credit_buckets, new_date}
use ssambee_be.Billing.Credits.{Reference, consume_buckets, refresh_credit_wallet, WalletSnapshot}
use ssambee_be.Billing.Credits.Wallet.{
  remaining, available_total, sum-active, IsRefreshed, refresh-IsRefreshed,
}
use ssambee_be.Billing.Credits.Consume.{
  bucket_id, delta, AreRows, IsSpent, IsLooped, consume_buckets-IsLooped,
}
use ssambee_be.Billing.Spending.{Consumed, add_remaining, use_credits}

CreditBucket-set : IsSet CreditBucket
CreditBucket-set = hlevel

foldl-add_remaining :
    (acc : ℕ) (bs : List CreditBucket) → foldl add_remaining acc bs ≡ acc + sum_by remaining bs
foldl-add_remaining acc [] = omega arith
foldl-add_remaining acc (b ∷ bs) = omega (arith, foldl-add_remaining (acc + b.remaining_amount) bs)

module _ ⦃o : OrderBy⦄ (instructor_id : ℕ) (reference : Reference) (w : World) where
  -- The time that the transaction reads, and the buckets that it finds then, in their order.
  abbrev pub read_time : ℕ
  read_time = w.clock w.reads

  abbrev pub active_buckets : List CreditBucket
  active_buckets =
      order_by bucket_before (find_many (is_available instructor_id read_time) w.db.credit_buckets)

  -- What the transaction has done when it returns.
  pub record IsConsumed (amount : ℕ) (c : Consumed) (w' : World) : Type 0 where
    pub amount_taken : c.consumed_amount ≡ amount
    pub taken :
        sum_by remaining w'.db.credit_buckets + amount ≡ sum_by remaining w.db.credit_buckets
    pub spent : IsSpent amount 0 w'.db.credit_buckets active_buckets
    pub others :
        (k : ℕ)
        → IsFree bucket_id k active_buckets
        → find_by bucket_id k w'.db.credit_buckets ≡ find_by bucket_id k w.db.credit_buckets
    pub recorded : total_by delta w'.db.ledgers ≡ total_by delta w.db.ledgers +ℤ negate amount
    pub distinct : HasDistinct bucket_id w'.db.credit_buckets

  active-AreRows :
      HasDistinct bucket_id w.db.credit_buckets → AreRows w.db.credit_buckets active_buckets
  active-AreRows d =
      All-order_by bucket_before
        (find_many (is_available instructor_id read_time) w.db.credit_buckets)
        (λ b. find_by bucket_id b.id w.db.credit_buckets ≡ some b) (λ b. hlevel CreditBucket-set)
        (All-find_many (λ b. find_by bucket_id b.id w.db.credit_buckets ≡ some b)
          (is_available instructor_id read_time) w.db.credit_buckets
          (find_by_rows bucket_id w.db.credit_buckets d))

  active-HasDistinct :
      HasDistinct bucket_id w.db.credit_buckets → HasDistinct bucket_id active_buckets
  active-HasDistinct d =
      HasDistinct-order_by bucket_before
        (find_many (is_available instructor_id read_time) w.db.credit_buckets) bucket_id
        (HasDistinct-find_many bucket_id (is_available instructor_id read_time) w.db.credit_buckets
          d)

  active_total :
      foldl add_remaining 0 active_buckets
      ≡ available_total instructor_id read_time w.db.credit_buckets
  active_total = omega (
    arith,
    foldl-add_remaining 0 active_buckets,
    sum-active instructor_id read_time w.db.credit_buckets,
  )

  finish : ℕ → WalletSnapshot → Billing Consumed
  finish amount wallet = pure (record { consumed_amount = amount; wallet = wallet })

  looped-IsConsumed :
      (amount : ℕ)
      → amount ≤ available_total instructor_id read_time w.db.credit_buckets
      → (s : WalletSnapshot) (w₂ w₃ : World)
      → IsLooped instructor_id reference amount 0
          (min amount (sum_by remaining active_buckets))
          active_buckets
          (record w { reads = suc w.reads })
          w₂
      → IsRefreshed instructor_id w₂ s w₃
      → IsConsumed amount (record { consumed_amount = amount; wallet = s }) w₃
  looped-IsConsumed amount enough s w₂ w₃ l r =
      let all : min amount (sum_by remaining active_buckets) ≡ amount =
        omega (arith, sum-active instructor_id read_time w.db.credit_buckets) in
      let rows : w₃.db.credit_buckets ≡ w₂.db.credit_buckets =
        ap (λ (v : World). v.db.credit_buckets) r.kept in
      let ledgers : w₃.db.ledgers ≡ w₂.db.ledgers = ap (λ (v : World). v.db.ledgers) r.kept in
      record {
        amount_taken = refl;
        taken = rw rows (omega (arith, l.totals.taken, all));
        spent = subst (λ rows. IsSpent amount 0 rows active_buckets) (sym rows) l.spent;
        others = λ k free. ap (find_by bucket_id k) rows ∙ l.others k free;
        recorded =
            ap (total_by delta) ledgers
            ∙ l.totals.recorded
            ∙ ap (λ n. total_by delta w.db.ledgers +ℤ negate n) all;
        distinct = subst (HasDistinct bucket_id) (sym rows) l.totals.distinct;
      }

  -- If the instructor has the credits, the transaction returns. It has taken just the amount: from
  -- the buckets that are available, in the order of their expiry, each being used up before the next
  -- one is touched. The other buckets are as before, and the entries added to the ledger sum to minus
  -- the amount.
  pub use_credits-IsConsumed :
      (amount : ℕ)
      → HasDistinct bucket_id w.db.credit_buckets
      → amount ≤ available_total instructor_id read_time w.db.credit_buckets
      → Returns (IsConsumed amount) (use_credits instructor_id reference amount w)
  unfolding use_credits list_active_credit_buckets new_date finish
  use_credits-IsConsumed amount d enough =
      let w₁ : World = record w { reads = suc w.reads } in
      let goes : ltb (foldl add_remaining 0 active_buckets) amount ≡ false =
        rw active_total (ground arith) in
      rw goes (
        Returns-bind _ _ (consume_buckets instructor_id reference active_buckets amount)
          (λ _. refresh_credit_wallet instructor_id >>= finish amount) w₁
          (consume_buckets-IsLooped instructor_id reference active_buckets amount 0 amount w₁
            (omega arith) d (active-HasDistinct d) (active-AreRows d))
          (λ _ w₂ l.
            Returns-bind _ _ (refresh_credit_wallet instructor_id) (finish amount) w₂
              (refresh-IsRefreshed instructor_id w₂)
              (λ s w₃ r. looped-IsConsumed amount enough s w₂ w₃ l r)))

  -- Without the credits the transaction throws, and writes nothing.
  pub use_credits_short :
      (amount : ℕ)
      → available_total instructor_id read_time w.db.credit_buckets < amount
      → use_credits instructor_id reference amount w
        ≡ (err (bad_request "INSUFFICIENT_CREDITS"), record w { reads = suc w.reads })
  unfolding use_credits list_active_credit_buckets new_date
  use_credits_short amount short =
      let stops : ltb (foldl add_remaining 0 active_buckets) amount ≡ true =
        rw active_total (ground arith) in
      rw stops

  -- The transaction returns exactly if the instructor has the credits.
  pub use_credits_iff :
      (amount : ℕ)
      → HasDistinct bucket_id w.db.credit_buckets
      → Returns (λ _ _. Unit) (use_credits instructor_id reference amount w)
        ↔ (amount ≤ available_total instructor_id read_time w.db.credit_buckets)
  use_credits_iff amount d = (
    λ r. elim (dec_lt (available_total instructor_id read_time w.db.credit_buckets) amount) [
      | yes short ↦ absurd (subst (Returns (λ _ _. Unit)) (use_credits_short amount short) r)
      | no enough ↦ omega arith
    ],
    λ enough.
        Returns-map _ _ (use_credits instructor_id reference amount w) (λ _ _ _. tt)
          (use_credits-IsConsumed amount d enough),
  )
