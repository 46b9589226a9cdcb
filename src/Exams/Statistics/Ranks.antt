-- ===== src/Exams/Statistics/Ranks.antt =====
-- The ranks that the loop of `calculateAndSaveStatistics` stores.
use ssambee_be.Prelude.{
  ℕ, ◌+◌, ◌==◌, ==_iff, ltb, ◌≡◌, ◌≤◌, ◌<◌, refl, sym, ap, ◌∙◌, Bool, true, ◌&&◌, Option, none,
  some, List, [], ◌∷◌, arith, inl, inr, Bool-cases, All, All-map, IsFree, HasDistinct, find_by,
  count_where, update_many, find_by-update_self, find_by-update_ne, if◌then◌else◌,
}
use ssambee_be.Prelude.OrderBy.{IsSortedBy}
use ssambee_be.Prelude.Action.{
  ok, Returns, Returns-step, Returns-map, or_throw, record_not_found, modify, ◌>>=◌,
}
use ssambee_be.Exams.Database.{Grade, Academy}
use ssambee_be.Exams.Statistics.{
  grade_in, grade_id, set_rank, update_grade_rank, next_rank, rank_grades, higher_first,
}

-- The number of grades with more than a score.
abbrev pub better : ℕ → List Grade → ℕ
better score = count_where λ g. ltb score g.score

-- The number of grades of an exam with more than a score.
abbrev pub better_in : ℕ → ℕ → List Grade → ℕ
better_in e score = count_where λ g. grade_in e g && ltb score g.score

better_in-update :
    (e t rank : ℕ) (p : Grade → Bool) (gs : List Grade)
    → better_in e t (update_many p (set_rank rank) gs) ≡ better_in e t gs
better_in-update e t rank p [] = refl
better_in-update e t rank p (g ∷ gs) = ground (arith, better_in-update e t rank p gs)

-- What the loop knows of the grades before an index: how many have more than a score.
abbrev pub IsLoopState : ℕ → Option Grade → ℕ → (ℕ → ℕ) → List Grade → Type 0
IsLoopState i none current before gs = (i ≡ 0) × (current ≡ 1) × ((t : ℕ) → before t ≡ 0)
IsLoopState i (some p) current before gs =
    (current ≡ 1 + before p.score)
    × ((t : ℕ) → t < p.score → before t ≡ i)
    × All (λ g. g.score ≤ p.score) gs

abbrev with_grade : Grade → (ℕ → ℕ) → ℕ → ℕ
with_grade g before t = before t + (if ltb t g.score then 1 else 0)

next_rank_lem :
    (i : ℕ) (prev : Option Grade) (current : ℕ) (before : ℕ → ℕ) (g : Grade) (gs : List Grade)
    → IsLoopState i prev current before (g ∷ gs)
    → next_rank i prev current g ≡ 1 + before g.score
next_rank_lem i none current before g gs (i0, c, b) = omega (arith, c, b g.score)
next_rank_lem i (some p) current before g gs (c, b, le) = elim (Bool-cases (p.score == g.score)) [
  | inl same ↦
      let e : p.score ≡ g.score = (==_iff p.score g.score).0 same in
      rw same (c ∙ ap (λ t. 1 + before t) e)
  | inr other ↦
      let less : g.score < p.score = ground (arith, le.0) in
      rw other (omega (arith, b g.score less))
]

loop-state :
    (i : ℕ) (prev : Option Grade) (current : ℕ) (before : ℕ → ℕ) (g : Grade) (gs : List Grade)
    → IsLoopState i prev current before (g ∷ gs)
    → All (λ h. higher_first g h ≡ true) gs
    → IsLoopState (i + 1) (some g) (next_rank i prev current g) (with_grade g before) gs
loop-state i prev current before g gs st sorted = (
  next_rank_lem i prev current before g gs st ∙ ground arith,
  λ t less. ground (arith, below i prev current before g gs st t less),
  All-map (λ (h : Grade) (e : higher_first g h ≡ true). ground arith) gs sorted,
)
  where
    below :
        (i : ℕ) (prev : Option Grade) (current : ℕ) (before : ℕ → ℕ) (g : Grade) (gs : List Grade)
        → IsLoopState i prev current before (g ∷ gs)
        → (t : ℕ) → t < g.score
        → before t ≡ i
    below i none current before g gs (i0, c, b) t less = b t ∙ sym i0
    below i (some p) current before g gs (c, b, le) t less = b t (omega (arith, le.0))

-- A grade of a sorted list is not better than those in front of it.
better-sorted :
    (g : Grade) (gs : List Grade) → All (λ h. higher_first g h ≡ true) gs → better g.score gs ≡ 0
better-sorted g [] h = refl
better-sorted g (x ∷ gs) h = ground (arith, better-sorted g gs h.1)

-- The grade with its rank is in the table.
abbrev pub IsRanked : (ℕ → ℕ) → List Grade → Academy → Grade → Type 0
IsRanked before gs s g =
    find_by grade_id g.id s.grades ≡ some (set_rank (1 + (before g.score + better g.score gs)) g)

abbrev pub Stored : Academy → Grade → Type 0
Stored s g = find_by grade_id g.id s.grades ≡ some g

-- All grades of the list are ranked, and only the table of grades changes, only in their rows.
pub record AreRanked (before : ℕ → ℕ) (gs : List Grade) (s s' : Academy) : Type 0 where
  pub ranked : All (IsRanked before gs s') gs
  pub kept :
      (k : ℕ) → IsFree grade_id k gs → find_by grade_id k s'.grades ≡ find_by grade_id k s.grades
  pub counts : (e t : ℕ) → better_in e t s'.grades ≡ better_in e t s.grades
  pub frame : s' ≡ record s { grades = s'.grades }

abbrev with_rank : Grade → ℕ → Academy → Academy
with_rank g rank s = record s {
  grades = update_many (λ (h : Grade). h.id == g.id) (set_rank rank) s.grades;
}

update_grade_rank_lem :
    (g : Grade) (rank : ℕ) (s : Academy)
    → Stored s g
    → update_grade_rank g.id rank s ≡ (ok tt, with_rank g rank s)
update_grade_rank_lem g rank s stored =
    ap
      (λ (o : Option Grade).
        (or_throw {S = Academy} o record_not_found >>= λ (_ : Grade).
        modify (λ (t : Academy). with_rank g rank t))
          s)
      stored

still-Stored :
    (g : Grade) (rank : ℕ) (s : Academy) (gs : List Grade)
    → IsFree grade_id g.id gs
    → All (Stored s) gs
    → All (Stored (with_rank g rank s)) gs
still-Stored g rank s [] free h = tt
still-Stored g rank s (x ∷ gs) free h = (
  find_by-update_ne grade_id g.id (set_rank rank) (λ h. refl) x.id s.grades free.0 ∙ h.0,
  still-Stored g rank s gs free.1 h.1,
)

-- The count before a later grade takes in the first one.
move_count :
    (before : ℕ → ℕ) (g : Grade) (gs : List Grade) (s : Academy) (hs : List Grade)
    → All (IsRanked (with_grade g before) gs s) hs
    → All (IsRanked before (g ∷ gs) s) hs
move_count before g gs s [] h = tt
move_count before g gs s (x ∷ hs) h = (
  h.0
      ∙ ap (λ n. some (set_rank n x))
          (let e : 1 + (with_grade g before x.score + better x.score gs)
                ≡ 1 + (before x.score + better x.score (g ∷ gs)) =
              omega arith in
            e),
  move_count before g gs s hs h.1,
)

pub rank_grades-AreRanked :
    (i : ℕ) (prev : Option Grade) (current : ℕ) (before : ℕ → ℕ) (gs : List Grade) (s : Academy)
    → IsLoopState i prev current before gs
    → IsSortedBy higher_first gs
    → HasDistinct grade_id gs
    → All (Stored s) gs
    → Returns (λ _ s'. AreRanked before gs s s') (rank_grades i prev current gs s)
unfolding rank_grades
rank_grades-AreRanked i prev current before [] s st sorted distinct stored = record {
  ranked = tt;
  kept = λ k free. refl;
  counts = λ e t. refl;
  frame = refl;
}
rank_grades-AreRanked i prev current before (g ∷ gs) s st sorted distinct stored =
    Returns-step (λ _ s'. AreRanked before (g ∷ gs) s s')
      (update_grade_rank g.id (next_rank i prev current g))
      (λ _. rank_grades (i + 1) (some g) (next_rank i prev current g) gs) s
      (update_grade_rank_lem g (next_rank i prev current g) s stored.0)
      (Returns-map
        (λ _ s'. AreRanked (with_grade g before) gs (with_rank g (next_rank i prev current g) s) s')
        (λ _ s'. AreRanked before (g ∷ gs) s s')
        (rank_grades (i + 1) (some g) (next_rank i prev current g) gs
          (with_rank g (next_rank i prev current g) s))
        (λ _ s' h. record {
          ranked = (
            h.kept g.id distinct.0
                ∙ find_by-update_self grade_id g.id (set_rank (next_rank i prev current g))
                    (λ h. refl) s.grades stored.0
                ∙ ap (λ n. some (set_rank n g)) (rank_is (better-sorted g gs sorted.0)),
            move_count before g gs s' gs h.ranked,
          );
          kept = λ k free.
              h.kept k free.1
              ∙ find_by-update_ne grade_id g.id (set_rank (next_rank i prev current g)) (λ h. refl)
                  k s.grades (λ e. free.0 (sym e));
          counts = λ e t.
              h.counts e t
              ∙ better_in-update e t (next_rank i prev current g) (λ (h : Grade). h.id == g.id)
                  s.grades;
          frame = h.frame;
        })
        (rank_grades-AreRanked (i + 1) (some g) (next_rank i prev current g) (with_grade g before)
          gs (with_rank g (next_rank i prev current g) s)
          (loop-state i prev current before g gs st sorted.0) sorted.1 distinct.1
          (still-Stored g (next_rank i prev current g) s gs distinct.0 stored.1)))
  where
    rank_is :
        better g.score gs ≡ 0
        → next_rank i prev current g ≡ 1 + (before g.score + better g.score (g ∷ gs))
    rank_is none_better =
        next_rank_lem i prev current before g gs st
        ∙ (let self : better g.score (g ∷ gs) ≡ 0 = ground arith in omega arith)
