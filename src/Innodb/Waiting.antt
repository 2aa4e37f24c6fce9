-- ===== src/Innodb/Waiting.antt =====
-- The waiting loop ends.
use xbench_community.Prelude.{
  ℕ, zero, suc, ◌+◌, ◌-◌, ◌*◌, ◌≤◌, ◌<◌, String, true, false, ◌&&◌, if◌then◌else◌, leb, ltb, ◌==◌,
  ◌≡◌, refl, arith, ◌∙◌, Bool-cases, inl, inr,
}
use xbench_community.Exec.{ok}
use xbench_community.Innodb.{
  MySql, Setting, max_dirty_pages, max_dirty_pages_lwm, wait_for_clear, force_innodb_checkpoint,
}

-- A server that answers, and on which no page becomes dirty: `later` is the state after a pause
-- and a reading, which gives `level`.
pub record IsQuiet {S : Type 0} (db : MySql S) (level : S → ℕ) (later : S → S) : Type 0 where
  pub connects : (s : S) → db.db_connect s ≡ (ok tt, s)
  pub setting : Setting → String
  pub selects : (x : Setting) (s : S) → db.select_setting x s ≡ (ok (setting x), s)
  pub sets : (x : Setting) (v : String) (s : S) → db.set_global x v s ≡ (ok tt, s)
  pub sleeps : (d : ℕ) (s : S) → db.sleep d s ≡ (ok tt, s)
  pub reads : (s : S) → db.dirty_pages s ≡ (ok (level (later s)), later s)
  pub flushes : (s : S) → db.flush_hosts s ≡ (ok tt, s)
  pub falls : (s : S) → level (later s) ≤ level s

module _ {S : Type 0} (db : MySql S) (level : S → ℕ) (later : S → S)
    (q : IsQuiet db level later) where
  one_round :
      (fuel pages pages_old left : ℕ) (s : S)
      → (leb 1000 pages && ltb 0 left) ≡ true
      → wait_for_clear db (suc fuel) pages pages_old left s
        ≡ wait_for_clear db fuel
            (level (later s))
            (level (later s))
            (if level (later s) == pages_old then left - 1 else 6)
            (later s)
  unfolding wait_for_clear
  one_round fuel pages pages_old left s on = rw (on, q.sleeps, q.reads) refl

  stop :
      (fuel pages pages_old left : ℕ) (s : S)
      → (leb 1000 pages && ltb 0 left) ≡ false
      → wait_for_clear db (suc fuel) pages pages_old left s ≡ (ok true, s)
  unfolding wait_for_clear
  stop fuel pages pages_old left s off = rw off refl

  -- The measure falls in each round: fewer pages, or one try less.
  falls_to :
      (now old left fuel : ℕ)
      → now ≤ old
      → 0 < left
      → left ≤ 6
      → old * 7 + left < suc fuel
      → (now * 7 + (if now == old then left - 1 else 6) < fuel)
        × ((if now == old then left - 1 else 6) ≤ 6)
  falls_to now old left fuel h some_left h6 enough = ground arith

  positive : (p left : ℕ) → (leb 1000 p && ltb 0 left) ≡ true → 0 < left
  positive p left h = ground arith

  ends :
      (fuel left : ℕ) (s : S)
      → left ≤ 6
      → level s * 7 + left < fuel
      → (s' : S) × (wait_for_clear db fuel (level s) (level s) left s ≡ (ok true, s'))
  ends zero left s h6 enough = absurd (omega arith)
  ends (suc fuel) left s h6 enough = elim (Bool-cases (leb 1000 (level s) && ltb 0 left)) [
    | inr off ↦ (s, stop fuel (level s) (level s) left s off)
    | inl on ↦
        (let (enough', h6') =
            falls_to (level (later s)) (level s) left fuel (q.falls s) (positive (level s) left on)
              h6 enough in
          let (s', ended) =
            ends fuel (if level (later s) == level s then left - 1 else 6) (later s) h6' enough' in
          (s', one_round fuel (level s) (level s) left s on ∙ ended))
  ]

  first_left : (now : ℕ) → (if now == 0 then 5 else 6) ≤ 6
  first_left now = ground arith

  starts :
      (fuel : ℕ) (s : S)
      → level s * 7 + 7 < fuel
      → (s' : S) × (wait_for_clear db fuel (level s) 0 6 s ≡ (ok true, s'))
  starts zero s enough = absurd (omega arith)
  starts (suc fuel) s enough = elim (Bool-cases (leb 1000 (level s) && ltb 0 6)) [
    | inr off ↦ (s, stop fuel (level s) 0 6 s off)
    | inl on ↦
        (let (s', ended) =
            ends fuel (if level (later s) == 0 then 5 else 6) (later s)
              (first_left (level (later s)))
              (omega (arith, first_left (level (later s)), q.falls s, enough)) in
          (s', one_round fuel (level s) 0 6 s on ∙ ended))
  ]

-- On a server that answers and on which no page becomes dirty any more, force_innodb_checkpoint
-- comes to its end, however slowly the pages are written: seven rounds for each dirty page and
-- eight more are enough.
pub force_innodb_checkpoint-ends :
    {S : Type 0} (db : MySql S) (level : S → ℕ) (later : S → S) (fuel : ℕ) (s : S)
    → IsQuiet db level later
    → level s * 7 + 8 ≤ fuel
    → (s' : S) × (force_innodb_checkpoint db fuel s ≡ (ok true, s'))
unfolding force_innodb_checkpoint
force_innodb_checkpoint-ends db level later fuel s q enough =
    let (s', ended) = starts db level later q fuel (later s) (omega (arith, q.falls s, enough)) in
    (
      s',
      rw (q.connects, q.selects max_dirty_pages, q.selects max_dirty_pages_lwm, q.sets, q.reads)
          (rw ended (rw (q.sets max_dirty_pages, q.sets max_dirty_pages_lwm, q.flushes) refl)),
    )
