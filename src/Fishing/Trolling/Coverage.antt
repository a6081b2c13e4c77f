-- ===== src/Fishing/Trolling/Coverage.antt =====
-- Every sleeping slot is trolled again and again. Code: src/fishPolicy/syncRecoveryfishPolicy.cpp,
-- src/fishPolicy/utils.h.
use native.Mathlib.Decide.{dec_lt, dec_le}
use sleep_sync_agent.Base.{
  Bool-cases, Checked, arith, false, if◌then◌else◌, inl, inr, leb, ltb, ok, refl, suc, true, zero,
  ℕ, ◌+◌, ◌-◌, ◌<◌, ◌>>=◌, ◌≡◌, ◌≤◌,
}
use sleep_sync_agent.Fishing.Trolling.{Trolling, pre_fishing}
use sleep_sync_agent.Fishing.Trolling.InRange.{IsTrolling}
use sleep_sync_agent.Network.SendRepeater.{start}
use sleep_sync_agent.Params.{first_slot_ordinal_to_fish, last_slot_ordinal_should_fish}

-- A session of `d` slots that starts at slot `start` covers slot `s`.
abbrev Within : ℕ → ℕ → ℕ → Type 0
Within d start s = (start ≤ s) × (s < start + d)

-- One move of each counter, without wrap-around.
abbrev up_step : ℕ → ℕ → ℕ
up_step d c = if ltb 1600 (c + d + d) then 2 else c + d

abbrev down_step : ℕ → ℕ → ℕ
down_step d c = if ltb c (2 + d) then 1601 - d else c - d

iterate : ℕ → (ℕ → ℕ) → ℕ → ℕ
iterate zero f c = c
iterate (suc n) f c = iterate n f (f c)

-- After the last move of each kind, the counter is where a session starts that covers `s`.
abbrev Reaches : ℕ → (ℕ → ℕ) → ℕ → ℕ → ℕ → Type 0
Reaches d move bound c s = (n : ℕ) × (n < bound) × Within d (iterate (suc n) move c) s

up-Reaches :
    (fuel d c s : ℕ)
    → 1 ≤ d
    → 2 ≤ c
    → 1600 ≤ c + fuel
    → 2 ≤ s
    → s < 2 + d
    → Reaches d (up_step d) (suc fuel) c s
unfolding iterate
up-Reaches zero d c s pos from enough lo hi = (0, omega arith, ground arith)
up-Reaches (suc fuel) d c s pos from enough lo hi = elim (dec_lt 1600 (c + d + d)) [
  | yes wraps ↦ (0, omega arith, ground arith)
  | no stays ↦
      let (n, less, covered) = up-Reaches fuel d (c + d) s pos (omega arith) (omega arith) lo hi in
      (suc n, omega arith, ground arith)
]

dec_Within : (d start s : ℕ) → Dec (Within d start s)
dec_Within d start s = elim (dec_le start s) [
  | yes lo ↦ elim (dec_lt s (start + d)) [ yes hi ↦ yes (lo, hi) | no out ↦ no (λ w. out w.1) ]
  | no out ↦ no (λ w. out w.0)
]

-- How far the down counter is from covering `s`.
abbrev distance : ℕ → ℕ → ℕ
distance s c = if leb c s then c + 1601 else c

down-Reaches :
    (fuel d c s : ℕ)
    → 1 ≤ d
    → d ≤ 100
    → 2 ≤ c
    → c ≤ 1601
    → distance s c ≤ fuel
    → 2 + d ≤ s
    → s ≤ 1600
    → Reaches d (down_step d) (suc fuel) c s
unfolding iterate
down-Reaches zero d c s pos few from to enough lo hi = absurd (ground arith)
down-Reaches (suc fuel) d c s pos few from to enough lo hi = elim (dec_Within d (down_step d c) s) [
  | yes here ↦ (0, omega arith, here)
  | no later ↦
      let (n, less, covered) =
        down-Reaches fuel d (down_step d c) s pos few (ground arith) (ground arith) (ground arith)
          lo hi in
      (suc n, omega arith, covered)
]

-- `n` fishings in a row.
pub fish : ℕ → Trolling → Checked Trolling
fish zero t = ok t
fish (suc n) t = pre_fishing t >>= λ u. fish n u

abbrev twice : ℕ → ℕ
twice zero = 0
twice (suc n) = suc (suc (twice n))

twice-eq : (n : ℕ) → twice n ≡ n + n
twice-eq zero = omega arith
twice-eq (suc n) = omega (arith, twice-eq n)

abbrev slots : Trolling → ℕ
slots t = t.session.duration_in_slots

-- The state after a fishing of either direction.
abbrev up_next : Trolling → Trolling
up_next t = record t {
  up_counter = up_step (slots t) t.up_counter;
  current_start_slot_ordinal = up_step (slots t) t.up_counter;
  current_end_slot_ordinal = up_step (slots t) t.up_counter + slots t - 1;
  direction = false;
}

abbrev down_next : Trolling → Trolling
down_next t = record t {
  down_counter = down_step (slots t) t.down_counter;
  current_start_slot_ordinal = down_step (slots t) t.down_counter;
  current_end_slot_ordinal = down_step (slots t) t.down_counter + slots t - 1;
  direction = true;
}

pre_fishing_up :
    (t : Trolling)
    → IsTrolling t
    → t.direction ≡ true
    → (pre_fishing t ≡ ok (up_next t)) × IsTrolling (up_next t)
unfolding pre_fishing
pre_fishing_up t v e = ground arith

pre_fishing_down :
    (t : Trolling)
    → IsTrolling t
    → t.direction ≡ false
    → (pre_fishing t ≡ ok (down_next t)) × IsTrolling (down_next t)
unfolding pre_fishing
pre_fishing_down t v e = ground arith

-- What `n` fishings give: a session of as many slots, that starts at `start`.
abbrev Fishes : ℕ → Trolling → ℕ → Type 0
Fishes n t start =
    (u : Trolling) × (fish n t ≡ ok u)
    × (u.current_start_slot_ordinal ≡ start)
    × (u.current_end_slot_ordinal ≡ start + slots t - 1)

one_more :
    (t u : Trolling) (n start : ℕ)
    → pre_fishing t ≡ ok u
    → slots u ≡ slots t
    → Fishes n u start
    → Fishes (suc n) t start
unfolding fish
one_more t u n start e same (w, f, g, h) = (w, rw e f, g, ground arith)

-- One fishing of each direction first.
two_more :
    (t : Trolling) (n start : ℕ)
    → IsTrolling t
    → t.direction ≡ true
    → Fishes n (down_next (up_next t)) start
    → Fishes (suc (suc n)) t start
two_more t n start v e f =
    let (first, w) = pre_fishing_up t v e in
    let (second, _) = pre_fishing_down (up_next t) w refl in
    one_more t (up_next t) (suc n) start first refl
      (one_more (up_next t) (down_next (up_next t)) n start second refl f)

both_next-IsTrolling :
    (t : Trolling) → IsTrolling t → t.direction ≡ true → IsTrolling (down_next (up_next t))
both_next-IsTrolling t v e = (pre_fishing_down (up_next t) (pre_fishing_up t v e).1 refl).1

fish-up :
    (n : ℕ) (t : Trolling)
    → IsTrolling t
    → t.direction ≡ true
    → Fishes (suc (twice n)) t (iterate (suc n) (up_step (slots t)) t.up_counter)
unfolding iterate fish
fish-up zero t v e = let (stepped, _) = pre_fishing_up t v e in (up_next t, rw stepped, refl, refl)
fish-up (suc n) t v e =
    two_more t (suc (twice n))
      (iterate (suc n) (up_step (slots t)) (up_step (slots t) t.up_counter)) v e
      (fish-up n (down_next (up_next t)) (both_next-IsTrolling t v e) refl)

fish-down :
    (n : ℕ) (t : Trolling)
    → IsTrolling t
    → t.direction ≡ true
    → Fishes (suc (suc (twice n))) t (iterate (suc n) (down_step (slots t)) t.down_counter)
unfolding iterate fish
fish-down zero t v e =
    let (first, w) = pre_fishing_up t v e in
    let (second, w') = pre_fishing_down (up_next t) w refl in
    (down_next (up_next t), rw (first, second), refl, refl)
fish-down (suc n) t v e =
    two_more t (suc (suc (twice n)))
      (iterate (suc n) (down_step (slots t)) (down_step (slots t) t.down_counter)) v e
      (fish-down n (down_next (up_next t)) (both_next-IsTrolling t v e) refl)

-- Some fishing within the next `bound` has a session that covers slot `s`.
abbrev pub Covers : ℕ → Trolling → ℕ → Type 0
Covers bound t s =
    (n : ℕ) × (n ≤ bound)
    × (u : Trolling) × (fish n t ≡ ok u)
    × (u.current_start_slot_ordinal ≤ s)
    × (s ≤ u.current_end_slot_ordinal)

from_up :
    (t : Trolling) (s : ℕ) → IsTrolling t → t.direction ≡ true → 2 ≤ s → s ≤ 1600 → Covers 6404 t s
from_up t s v e lo hi = elim (dec_lt s (2 + slots t)) [
  | yes low ↦
      let (n, less, within) =
        up-Reaches 1598 (slots t) t.up_counter s v.some_slots v.up_from (omega arith) lo low in
      let (u, f, g, h) = fish-up n t v e in
      (suc (twice n), omega (arith, twice-eq n), u, f, rw g within.0, omega arith)
  | no high ↦
      let (n, less, within) =
        down-Reaches 3201 (slots t) t.down_counter s v.some_slots v.few_slots v.down_from
          (omega arith) (ground arith) (omega arith) hi in
      let (u, f, g, h) = fish-down n t v e in
      (suc (suc (twice n)), omega (arith, twice-eq n), u, f, rw g within.0, omega arith)
]

-- No slot from the first sleeping one to the last one of the period is left out of the policy's
-- sessions: from any state with its counters in range, whatever the length of the sessions, each of
-- the slots 2 to 1600 is in the session of one of the next 6405 fishings, up to which none fails an
-- assertion.
pub fish-Covers :
    (t : Trolling) (s : ℕ)
    → IsTrolling t
    → first_slot_ordinal_to_fish ≤ s
    → s ≤ last_slot_ordinal_should_fish
    → Covers 6405 t s
fish-Covers t s v lo hi = elim (Bool-cases t.direction) [
  | inl up ↦ let (n, less, u, f, g, h) = from_up t s v up lo hi in (n, omega arith, u, f, g, h)
  | inr down ↦
      let (stepped, w) = pre_fishing_down t v down in
      let (n, less, u, f, g, h) = from_up (down_next t) s w refl lo hi in
      (suc n, omega arith, u, unfold fish in rw stepped f, g, h)
]
