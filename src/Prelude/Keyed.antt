-- ===== src/Prelude/Keyed.antt =====
-- A loop that writes one row for each element, under the element's key: what a query by key finds
-- after it.
use Prim.Native.Nat.{ℕ}
use mathlib.Core.Path.{◌≡◌, refl, sym, subst, ◌∙◌}
use mathlib.Core.Logic.{◌≢◌}
use mathlib.Core.List.{List, [], ◌∷◌}
use ssambee_be.Prelude.Lists.{All, IsFree, HasDistinct}
use ssambee_be.Prelude.Action.{Action, for_each, Returns, Returns-map, for_each-Returns}

-- `look k s` is what the query for `k` finds, and `Frame s t` what no write changes.
module _ {S A L : Type 0} (key : A → ℕ) (look : ℕ → S → L) (IsGood : A → L → Type 0)
    (Frame : S → S → Type 0) where
  pub record IsPut (x : A) (s t : S) : Type 0 where
    pub frame : Frame s t
    pub this : IsGood x (look (key x) t)
    pub others : (k : ℕ) → k ≢ key x → look k t ≡ look k s

  pub record ArePut (xs : List A) (s t : S) : Type 0 where
    pub frame : Frame s t
    pub all : All (λ x. IsGood x (look (key x) t)) xs
    pub others : (k : ℕ) → IsFree key k xs → look k t ≡ look k s

  module _ (same : (s : S) → Frame s s) (still : (s t u : S) → Frame s t → Frame t u → Frame s u)
      (body : A → Action S (Unit {0})) where
    pub put_loop :
        ((x : A) (s : S) → Returns (λ _ t. IsPut x s t) (body x s))
        → (xs : List A) (s : S) → HasDistinct key xs
        → Returns (λ _ t. ArePut xs s t) (for_each body xs s)
    put_loop one [] s d = record { frame = same s; all = tt; others = λ k free. refl }
    put_loop one (x ∷ xs) s d = for_each-Returns (ArePut (x ∷ xs) s) body x xs s (
        Returns-map (λ _ t. IsPut x s t)
          (λ _ t. Returns (λ _ u. ArePut (x ∷ xs) s u) (for_each body xs t)) (body x s)
          (λ _ t put.
            Returns-map (λ _ u. ArePut xs t u) (λ _ u. ArePut (x ∷ xs) s u) (for_each body xs t)
              (λ _ u rest. record {
                frame = still s t u put.frame rest.frame;
                all = (subst (IsGood x) (sym (rest.others (key x) d.0)) put.this, rest.all);
                others = λ k free. rest.others k free.1 ∙ put.others k (λ e. free.0 (sym e));
              })
              (put_loop one xs t d.1))
          (one x s))
