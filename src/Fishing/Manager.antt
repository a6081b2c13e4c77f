-- ===== src/Fishing/Manager.antt =====
-- src/slots/fishing/fishingManager.cpp: the two fishing modes and their policies.
use sleep_sync_agent.Fishing.Trolling
use sleep_sync_agent.Fishing.DeepFishing
use sleep_sync_agent.Base.{
  Bool, Checked, Option, false, if◌then◌else◌, none, not, ok, some, true, ℕ, ◌>>=◌,
}
use sleep_sync_agent.Fishing.DeepFishing.{DeepFishing, DoneCallback, initial_deep_fishing}
use sleep_sync_agent.Fishing.Trolling.{Trolling, initial_trolling}
use sleep_sync_agent.Network.SendRepeater.{start}
use sleep_sync_agent.Schedule.{Schedule}

pub data FishingMode : Type 0 where
  trolling deep_fishing : FishingMode

pub record Fishing : Type 0 where
  pub mode : FishingMode
  pub troll : Trolling
  pub deep : DeepFishing

abbrev pub initial_fishing : Fishing
initial_fishing = record { mode = trolling; troll = initial_trolling; deep = initial_deep_fishing }

abbrev pub is_deep_fishing : FishingMode → Bool
is_deep_fishing deep_fishing = true
is_deep_fishing trolling = false

unfoldable pub switch_to_deep_fishing : Fishing → ℕ → DoneCallback → Fishing
switch_to_deep_fishing m delta a_callback =
    if not (is_deep_fishing m.mode)
    then record m { mode = deep_fishing; deep = DeepFishing.restart m.deep delta a_callback }
    else m

unfoldable pub switch_to_trolling : Fishing → Fishing
switch_to_trolling m = record m { mode = trolling }

unfoldable pub restart_trolling_mode : Fishing → Checked Fishing
restart_trolling_mode m = do troll ← Trolling.restart m.troll; ok (record m { troll = troll })

-- The result is also the callback that deep fishing called. It runs before the switch, and touches
-- nothing of the fishing policies.
after_deep : Fishing → Option DoneCallback → Fishing × Option DoneCallback
unfolding switch_to_trolling
after_deep m none = (m, none)
after_deep m (some f) = (switch_to_trolling m, some f)

unfoldable pub check_fishing_done : Fishing → Checked (Fishing × Option DoneCallback)
unfolding after_deep
check_fishing_done m = elim m.mode [
  | trolling ↦ ok (m, none)
  | deep_fishing ↦ (do called ← DeepFishing.check_done m.deep; ok (after_deep m called))
]

unfoldable pub pre_fishing : Fishing → Checked Fishing
pre_fishing m = elim m.mode [
  | trolling ↦ (do troll ← Trolling.pre_fishing m.troll; ok (record m { troll = troll }))
  | deep_fishing ↦ ok m
]

unfoldable pub current_session_start_slot_ordinal : Fishing → ℕ
current_session_start_slot_ordinal m = elim m.mode [
  | trolling ↦ m.troll.current_start_slot_ordinal
  | deep_fishing ↦ DeepFishing.current_session_start_slot_ordinal
]

deep_start : Fishing → DeepFishing × ℕ → Fishing × ℕ
deep_start m (deep, start) = (record m { deep = deep }, start)

unfoldable pub get_start_time_to_fish : Fishing → Schedule → Fishing × ℕ
unfolding deep_start
get_start_time_to_fish m s = elim m.mode [
  | trolling ↦ (m, Trolling.get_start_time_to_fish m.troll s)
  | deep_fishing ↦ deep_start m (DeepFishing.get_start_time_to_fish m.deep s)
]

unfoldable pub get_fish_session_duration_ticks : Fishing → ℕ
get_fish_session_duration_ticks m = elim m.mode [
  | trolling ↦ Trolling.get_fish_session_duration_ticks m.troll
  | deep_fishing ↦ DeepFishing.get_fish_session_duration_ticks
]

unfoldable pub is_fish_slot_start_sync_period : Fishing → Bool
is_fish_slot_start_sync_period m = elim m.mode [
  | trolling ↦ Trolling.is_fish_session_near_start_sync_period m.troll
  | deep_fishing ↦ DeepFishing.is_fish_slot_start_sync_period m.deep
]

unfoldable pub is_fish_slot_end_sync_period : Fishing → Bool
is_fish_slot_end_sync_period m = elim m.mode [
  | trolling ↦ Trolling.is_fish_session_near_end_sync_period m.troll
  | deep_fishing ↦ DeepFishing.is_fish_slot_end_sync_period m.deep
]
