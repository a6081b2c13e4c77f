-- ===== src/Clique/DropoutMonitor/Exact.antt =====
-- When the monitor reports a dropout. Code: src/policy/dropoutMonitor.cpp.
use native.Mathlib.Decide.{dec_lt}
use sleep_sync_agent.Base.{
  Bool, Checked, List, [], arith, failed, false, if◌then◌else◌, ltb, ltb-false, lt→ltb, ok, refl,
  replicate, suc, true, zero, ℕ, ◌++◌, ◌+◌, ◌<◌, ◌>>=◌, ◌∷◌, ◌≡◌, ◌≤◌,
}
use sleep_sync_agent.Clique.DropoutMonitor.{is_dropout, reset_dropout}

-- A sync slot, with or without a sync message heard, and the test at its end.
abbrev heard : ℕ → Bool → ℕ
heard count true = reset_dropout
heard count false = count

more : Checked (ℕ × Bool) → (ℕ → Checked (List Bool)) → Checked (List Bool)
more failed rest = failed
more (ok (count, lost)) rest = do later ← rest count; ok (lost ∷ later)

-- The reports of the monitor over a sequence of sync slots.
pub reports : ℕ → List Bool → Checked (List Bool)
unfolding more
reports count [] = ok []
reports count (h ∷ hs) = more (is_dropout (heard count h)) (λ c. reports c hs)

silent : (n count : ℕ) → count + n ≤ 80 → reports count (replicate n false) ≡ ok (replicate n false)
unfolding reports is_dropout
silent zero count h = refl
silent (suc n) count h = ground (arith, silent n (count + 1))

lost :
    (n count : ℕ)
    → count + n ≡ 80
    → reports count (replicate (suc n) false) ≡ ok (replicate n false ++ true ∷ [])
unfolding reports is_dropout
lost zero count h = ground arith
lost (suc n) count h = ground (arith, lost n (count + 1))

heard_early :
    (count n : ℕ)
    → n < 80
    → reports count (true ∷ replicate n false) ≡ ok (false ∷ replicate n false)
unfolding reports is_dropout reset_dropout
heard_early count n h = ground (arith, silent n 1)

heard_last :
    (count n : ℕ)
    → 1 + n ≡ 80
    → reports count (true ∷ replicate (suc n) false) ≡ ok (replicate (suc n) false ++ true ∷ [])
unfolding reports is_dropout reset_dropout
heard_last count n h = ground (arith, lost n 1)

-- After a slot in which a sync message is heard, a dropout is reported in the 80th silent slot in a
-- row and in none before it, whatever the counter was; no assertion fails.
pub reports-heard :
    (count n : ℕ)
    → n ≤ 80
    → reports count (true ∷ replicate n false)
      ≡ ok (if ltb n 80 then false ∷ replicate n false else replicate n false ++ true ∷ [])
reports-heard count zero h = heard_early count 0 (omega arith)
reports-heard count (suc n) h = elim (dec_lt (suc n) 80) [
  | yes early ↦ rw (lt→ltb (suc n) 80 early) (heard_early count (suc n) early)
  | no late ↦ rw (ltb-false (suc n) 80 late) (heard_last count n (omega arith))
]
