-- ===== src/Billing/Credits/Wallet.antt =====
-- The wallet is the sum of the available buckets, and every ledger entry records that sum.
use ssambee_be.Prelude.{
  ℕ, suc, ◌+◌, ◌≡◌, refl, ◌≢◌, ◌∙◌, some, List, [], ◌∷◌, ◌++◌, foldl, arith, if◌then◌else◌,
  find_many, find_by, find_by-upsert, sum_by, sum_by-find_many,
}
use ssambee_be.Prelude.Action.{Returns}
use ssambee_be.Prelude.OrderBy.{OrderBy, order_by, sum_by-order_by}
use ssambee_be.Billing.Database.{CreditBucket, CreditWallet, World}
use ssambee_be.Billing.Repo.{is_available, bucket_before, new_date}
use ssambee_be.Billing.Credits.{
  WalletSnapshot, add_bucket, empty_snapshot, CreditMutationInput, refresh_credit_wallet,
  append_credit_ledger,
}

-- What the instructor can spend at a time: the remaining amounts of the buckets that are active and
-- have not expired.
abbrev pub available_amount : ℕ → ℕ → CreditBucket → ℕ
available_amount instructor_id now b =
    if is_available instructor_id now b then b.remaining_amount else 0

abbrev pub available_total : ℕ → ℕ → List CreditBucket → ℕ
available_total instructor_id now = sum_by (available_amount instructor_id now)

-- The unique key of the wallets.
abbrev pub owner : CreditWallet → ℕ
owner v = v.instructor_id

abbrev pub remaining : CreditBucket → ℕ
remaining b = b.remaining_amount

foldl-add_bucket :
    (acc : WalletSnapshot) (bs : List CreditBucket)
    → acc.total_available ≡ acc.included_available + acc.recharge_available
    → let s = foldl add_bucket acc bs in
      (s.total_available ≡ acc.total_available + sum_by remaining bs)
      × (s.total_available ≡ s.included_available + s.recharge_available)
foldl-add_bucket acc [] h = omega arith
foldl-add_bucket acc (b ∷ bs) h = ground (arith, foldl-add_bucket (add_bucket acc b) bs)

module _ ⦃o : OrderBy⦄ where
  pub sum-active :
      (instructor_id now : ℕ) (buckets : List CreditBucket)
      → sum_by remaining
          (order_by bucket_before (find_many (is_available instructor_id now) buckets))
        ≡ available_total instructor_id now buckets
  sum-active instructor_id now buckets =
      sum_by-order_by bucket_before (find_many (is_available instructor_id now) buckets) remaining
      ∙ sum_by-find_many (is_available instructor_id now) remaining buckets

  -- What `refreshCreditWallet` has done when it returns.
  pub record IsRefreshed (i : ℕ) (w : World) (s : WalletSnapshot) (w' : World) : Type 0 where
    pub total : s.total_available ≡ available_total i (w.clock w.reads) w.db.credit_buckets
    pub split : s.total_available ≡ s.included_available + s.recharge_available
    pub stored :
        find_by owner i w'.db.wallets
        ≡ some (record {
          instructor_id = i;
          total_available = s.total_available;
          included_available = s.included_available;
          recharge_available = s.recharge_available;
          last_reconciled_at = w.clock (suc w.reads);
        })
    pub others : (j : ℕ) → j ≢ i → find_by owner j w'.db.wallets ≡ find_by owner j w.db.wallets
    pub kept :
        w' ≡ record w { reads = suc (suc w.reads); db = record (w.db) { wallets = w'.db.wallets } }

  pub refresh-IsRefreshed :
      (i : ℕ) (w : World) → Returns (IsRefreshed i w) (refresh_credit_wallet i w)
  unfolding refresh_credit_wallet new_date
  refresh-IsRefreshed i w =
      let now = w.clock w.reads in
      let found = find_many (is_available i now) w.db.credit_buckets in
      let sums = foldl-add_bucket empty_snapshot (order_by bucket_before found) refl in
      record {
        total = omega (arith, sums.0, sum-active i now w.db.credit_buckets);
        split = sums.1;
        stored = rw (find_by-upsert owner i) (ground arith);
        others = λ j ne. rw (find_by-upsert owner j) (ground arith);
        kept = refl;
      }

  -- What `appendCreditLedger` has done when it returns: it refreshes the wallet, and then adds one
  -- entry whose balances are those of the wallet.
  pub record IsAppended (input : CreditMutationInput) (w w' : World) : Type 0 where
    pub wallet : WalletSnapshot
    pub wallets : List CreditWallet
    pub refreshed :
        IsRefreshed input.instructor_id w wallet
          (record w { reads = suc (suc w.reads); db = record (w.db) { wallets = wallets } })
    pub entry : w' ≡ record w {
      reads = suc (suc w.reads);
      db = record (w.db) {
        wallets = wallets;
        ledgers =
            w.db.ledgers
            ++ (record {
              instructor_id = input.instructor_id;
              credit_bucket_id = input.credit_bucket_id;
              ledger_type = input.ledger_type;
              delta_amount = input.delta_amount;
              balance_after_total = wallet.total_available;
              balance_after_included = wallet.included_available;
              balance_after_recharge = wallet.recharge_available;
              reference_type = input.reference_type;
              reference_id = input.reference_id;
              reason = input.reason;
            }
                ∷ []);
      };
    }

  pub append-IsAppended :
      (input : CreditMutationInput) (w : World)
      → Returns (λ _ w'. IsAppended input w w') (append_credit_ledger input w)
  unfolding append_credit_ledger new_date refresh_credit_wallet
  append-IsAppended input w = record {
    wallet = _;
    wallets = _;
    refreshed = refresh-IsRefreshed input.instructor_id w;
    entry = refl;
  }
