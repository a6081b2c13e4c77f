-- ===== src/Fishing/Trolling/InRange.antt =====
-- The assertion that a trolling session lies within the sleeping slots never fails. Code:
-- src/fishPolicy/syncRecoveryfishPolicy.cpp, utils.h, slottedFishSession.cpp, fishPowerMgr.cpp.

use sleep_sync_agent.Base.{
  Bool, Checked, List, [], arith, failed, false, ok, ◌*◌, ◌>>=◌, ◌∷◌, ◌≡◌, ◌≤◌,
}
use sleep_sync_agent.Fishing.Trolling.{Trolling, initial_trolling, manage, pre_fishing, restart}
use sleep_sync_agent.Params.{
  first_slot_ordinal_to_fish, last_slot_ordinal_should_fish,
  max_trolling_real_fish_session_duration_slots, virtual_slot_duration,
}

pub record IsTrolling (t : Trolling) : Type 0 where
  pub some_slots : 1 ≤ t.session.duration_in_slots
  pub few_slots : t.session.duration_in_slots ≤ max_trolling_real_fish_session_duration_slots
  pub ticks_of_slots :
      t.session.duration_in_ticks ≡ t.session.duration_in_slots * virtual_slot_duration
  pub short_unless_max : t.is_max_fishing ≡ false → t.session.duration_in_slots ≡ 1
  pub up_from : first_slot_ordinal_to_fish ≤ t.up_counter
  pub up_to : t.up_counter ≤ last_slot_ordinal_should_fish
  pub down_from : first_slot_ordinal_to_fish ≤ t.down_counter
  pub down_to : t.down_counter ≤ last_slot_ordinal_should_fish
  pub starts_in_range : first_slot_ordinal_to_fish ≤ t.current_start_slot_ordinal
  pub starts_before_end : t.current_start_slot_ordinal ≤ t.current_end_slot_ordinal
  pub ends_in_range : t.current_end_slot_ordinal ≤ last_slot_ordinal_should_fish

pub initial_trolling-IsTrolling : IsTrolling initial_trolling
initial_trolling-IsTrolling = ground arith

-- What a call gives that fails no assertion and keeps the invariant.
abbrev pub Keeps : Checked Trolling → Type 0
Keeps (ok t) = IsTrolling t
Keeps failed = ⊥

pub pre_fishing-Keeps : (t : Trolling) → IsTrolling t → Keeps (pre_fishing t)
unfolding pre_fishing
pre_fishing-Keeps t v = ground arith

pub restart-Keeps : (t : Trolling) → IsTrolling t → Keeps (restart t)
unfolding restart
restart-Keeps t v = ground arith

pub manage-Keeps : (t : Trolling) (above_2_7 : Bool) → IsTrolling t → Keeps (manage t above_2_7)
unfolding manage
manage-Keeps t above_2_7 v = ground arith

-- What happens to the trolling policy: the mode's `preFishing`, a restart, a measurement of Vcc.
pub data Call : Type 0 where
  fishes restarts : Call
  measures : Bool → Call

pub step : Trolling → Call → Checked Trolling
step t fishes = pre_fishing t
step t restarts = restart t
step t (measures above_2_7) = manage t above_2_7

unfoldable pub run : Trolling → List Call → Checked Trolling
run t [] = ok t
run t (c ∷ cs) = step t c >>= λ u. run u cs

step-Keeps : (t : Trolling) (c : Call) → IsTrolling t → Keeps (step t c)
unfolding step
step-Keeps t fishes v = pre_fishing-Keeps t v
step-Keeps t restarts v = restart-Keeps t v
step-Keeps t (measures above_2_7) v = manage-Keeps t above_2_7 v

Keeps-bind :
    (r : Checked Trolling) (f : Trolling → Checked Trolling)
    → Keeps r
    → ((u : Trolling) → IsTrolling u → Keeps (f u))
    → Keeps (r >>= f)
Keeps-bind (ok u) f v h = h u v
Keeps-bind failed f v h = v

run-Keeps : (t : Trolling) (cs : List Call) → IsTrolling t → Keeps (run t cs)
unfolding run
run-Keeps t [] v = v
run-Keeps t (c ∷ cs) v =
    Keeps-bind (step t c) (λ u. run u cs) (step-Keeps t c v) (λ u w. run-Keeps u cs w)

-- From the state at power on, under any sequence of fishings, restarts and power measurements: no
-- assertion fails, the session stays within the sleeping slots 2 to 1600, it has at least one and
-- at most 100 slots, and its duration in ticks is that of its slots.
pub run_initial-Keeps : (cs : List Call) → Keeps (run initial_trolling cs)
run_initial-Keeps cs = run-Keeps initial_trolling cs initial_trolling-IsTrolling
