-- ===== src/Fishing/Session.antt =====
-- src/fishPolicy/slottedFishSession.cpp: how long a trolling session is, in ticks and in slots.
-- `incrementFishSessionDuration` restarts the trolling policy, and stands in Fishing/Trolling.antt.

use sleep_sync_agent.Base.{ℕ}
use sleep_sync_agent.Params.{min_trolling_fish_session_duration_ticks}

pub record Session : Type 0 where
  pub duration_in_ticks : ℕ
  pub duration_in_slots : ℕ

abbrev pub initial_session : Session
initial_session = record {
  duration_in_ticks = min_trolling_fish_session_duration_ticks;
  duration_in_slots = 1;
}

-- The body returns before its first statement.
unfoldable pub decrement_fish_session_duration : Session → ℕ → Session
decrement_fish_session_duration session decrement = session

unfoldable pub set_duration_to_min_duration : Session → Session
set_duration_to_min_duration session = record {
  duration_in_ticks = min_trolling_fish_session_duration_ticks;
  duration_in_slots = 1;
}
