-- ===== src/Billing/Credits/Grants.antt =====
-- The included credits of an entitlement are granted once.
use ssambee_be.Prelude.{
  ℕ, suc, ◌≡◌, ◌⊎◌, refl, ap, ◌∙◌, Bool, Option, some, none, List, [], ◌∷◌, ◌++◌, arith, inl, inr,
  find_unique, find_unique-append,
}
use ssambee_be.Prelude.Action.{Returns, Returns-step, Returns-bind, Returns-map, ok}
use ssambee_be.Prelude.OrderBy.{OrderBy}
use ssambee_be.Billing.Database.{Entitlement, CreditBucket, CreditWallet, CreditLedger, Db, World}
use ssambee_be.Billing.Repo.{
  new_date, find_included_credit_bucket_by_entitlement_id, is_included_bucket_of, insert_bucket,
  upsert_included_credit_bucket,
}
use ssambee_be.Billing.Credits.{
  or_now, create_included_bucket, new_included_bucket, grant_included_credits_for_entitlement,
  append_credit_ledger, refresh_credit_wallet, upsert_included_bucket, record_included_grant,
  keep_or_create_included,
}

pub or_now_db : (t : Option ℕ) (w : World) → Returns (λ _ w'. w'.db ≡ w.db) (or_now t w)
unfolding new_date
or_now_db none w = refl
or_now_db (some t) w = refl

upsert_included_new :
    (id : ℕ) (row : ℕ → CreditBucket) (w : World)
    → find_unique (is_included_bucket_of id) w.db.credit_buckets ≡ none
    → upsert_included_credit_bucket id row w
      ≡ (ok (row w.db.next_id), insert_bucket (row w.db.next_id) w)
unfolding upsert_included_credit_bucket
upsert_included_new id row w h = ground arith

pub replaced :
    {d d' : Db} (bs : List CreditBucket) (ws : List CreditWallet) (ls : List CreditLedger) (n : ℕ)
    → d ≡ d'
    → ◌≡◌ {A = Db}
        (record d { credit_buckets = bs; wallets = ws; ledgers = ls; next_id = n })
        (record d' { credit_buckets = bs; wallets = ws; ledgers = ls; next_id = n })
replaced bs ws ls n h =
    ap {A = Db} {B = Db}
      (λ d. record d { credit_buckets = bs; wallets = ws; ledgers = ls; next_id = n }) h

-- A grant that made the bucket `b`, for the key that `where` tests.
pub record IsGranted (where_key : CreditBucket → Bool) (n : ℕ) (w : World) (b : CreditBucket)
    (w' : World) : Type 0 where
  pub found : find_unique where_key w'.db.credit_buckets ≡ some b
  pub inserted : w'.db.credit_buckets ≡ w.db.credit_buckets ++ (b ∷ [])
  pub fresh : b.id ≡ w.db.next_id
  pub next : w'.db.next_id ≡ suc w.db.next_id
  pub full : b.remaining_amount ≡ b.original_amount
  pub amount : b.original_amount ≡ n
  pub kept : w'.db ≡ record (w.db) {
    credit_buckets = w'.db.credit_buckets;
    wallets = w'.db.wallets;
    ledgers = w'.db.ledgers;
    next_id = w'.db.next_id;
  }

module _ ⦃o : OrderBy⦄ where
  upsert_included-IsGranted :
      (e : Entitlement) (t : ℕ) (w w₁ : World)
      → w₁.db ≡ w.db
      → find_unique (is_included_bucket_of e.id) w.db.credit_buckets ≡ none
      → Returns
          (IsGranted (is_included_bucket_of e.id) e.included_credit_amount w)
          (upsert_included_bucket e t w₁)
  unfolding upsert_included_bucket append_credit_ledger refresh_credit_wallet new_date
  upsert_included-IsGranted e t w w₁ same h =
      let key = is_included_bucket_of e.id in
      let none_yet : find_unique key w₁.db.credit_buckets ≡ none =
        ap (λ d. find_unique key d.credit_buckets) same ∙ h in
      let row = new_included_bucket e t in
      Returns-step _ (upsert_included_credit_bucket e.id row) (record_included_grant e) w₁
        (upsert_included_new e.id row w₁ none_yet)
        (record {
          found =
              find_unique-append key w₁.db.credit_buckets (row w₁.db.next_id) none_yet
                (ground arith);
          inserted = ap (λ d. d.credit_buckets ++ (row w₁.db.next_id ∷ [])) same;
          fresh = ap (λ (d : Db). d.next_id) same;
          next = ap (λ (d : Db). suc d.next_id) same;
          full = refl;
          amount = refl;
          kept = replaced _ _ _ _ same;
        })

  create_included-IsGranted :
      (e : Entitlement) (w : World)
      → find_unique (is_included_bucket_of e.id) w.db.credit_buckets ≡ none
      → Returns
          (IsGranted (is_included_bucket_of e.id) e.included_credit_amount w)
          (create_included_bucket e w)
  unfolding create_included_bucket
  create_included-IsGranted e w h =
      Returns-bind (λ _ w'. w'.db ≡ w.db) _ (or_now e.activated_at) (upsert_included_bucket e) w
        (or_now_db e.activated_at w) λ t w₁ same. upsert_included-IsGranted e t w w₁ same h

  -- What a grant has done: nothing, if there was a bucket, and else it made one.
  abbrev pub Grants : (CreditBucket → Bool) → ℕ → World → CreditBucket → World → Type 0
  Grants where_key n w b w' =
      ((find_unique where_key w.db.credit_buckets ≡ some b) × (w' ≡ w))
      ⊎ ((find_unique where_key w.db.credit_buckets ≡ none) × IsGranted where_key n w b w')

  keep_included-Grants :
      (e : Entitlement) (w : World) (existing : Option CreditBucket)
      → find_unique (is_included_bucket_of e.id) w.db.credit_buckets ≡ existing
      → Returns
          (Grants (is_included_bucket_of e.id) e.included_credit_amount w)
          (keep_or_create_included e existing w)
  unfolding keep_or_create_included
  keep_included-Grants e w (some b) h = inl (h, refl)
  keep_included-Grants e w none h =
      Returns-map _ _ (create_included_bucket e w) (λ b w' g. inr (h, g))
        (create_included-IsGranted e w h)

  pub grant_included-Grants :
      (e : Entitlement) (w : World)
      → Returns
          (Grants (is_included_bucket_of e.id) e.included_credit_amount w)
          (grant_included_credits_for_entitlement e w)
  unfolding grant_included_credits_for_entitlement find_included_credit_bucket_by_entitlement_id
  grant_included-Grants e w = keep_included-Grants e w _ refl

  pub Grants-found :
      (where_key : CreditBucket → Bool) (n : ℕ) (w : World) (b : CreditBucket) (w' : World)
      → Grants where_key n w b w'
      → find_unique where_key w'.db.credit_buckets ≡ some b
  Grants-found where_key n w b w' (inl (old, same)) =
      ap (λ (v : World). find_unique where_key v.db.credit_buckets) same ∙ old
  Grants-found where_key n w b w' (inr (fresh, g)) = g.found
