-- ===== src/Fishing/Trolling.antt =====
-- src/fishPolicy/syncRecoveryfishPolicy.cpp, utils.h, fishPowerMgr.cpp: which slots are trolled, an
-- up counter and a down counter taking turns.
pub mod InRange
pub mod Coverage
use sleep_sync_agent.Base.{
  Bool, Checked, check, false, if◌then◌else◌, leb, ltb, not, ok, sub32, true, u32, u64, ℕ, ◌&&◌,
  ◌*◌, ◌+◌, ◌-◌, ◌==◌, ◌>>=◌, ◌>>◌, ◌||◌,
}
use sleep_sync_agent.Fishing.Session.{Session, initial_session, set_duration_to_min_duration}
use sleep_sync_agent.Params.{
  first_slot_ordinal_to_fish, last_slot_ordinal_should_fish,
  max_trolling_real_fish_session_duration_slots, min_trolling_fish_session_duration_ticks,
  virtual_slot_duration,
}
use sleep_sync_agent.Schedule.{Schedule}

pub record Trolling : Type 0 where
  pub session : Session
  pub up_counter : ℕ
  pub down_counter : ℕ
  pub current_start_slot_ordinal : ℕ
  pub current_end_slot_ordinal : ℕ
  pub direction : Bool
  pub is_max_fishing : Bool

-- The initial values of the file-level variables.
abbrev pub initial_trolling : Trolling
initial_trolling = record {
  session = initial_session;
  up_counter = first_slot_ordinal_to_fish;
  down_counter = last_slot_ordinal_should_fish;
  current_start_slot_ordinal = first_slot_ordinal_to_fish;
  current_end_slot_ordinal = first_slot_ordinal_to_fish;
  direction = true;
  is_max_fishing = false;
}

abbrev pub get_initial_up_counter : ℕ
get_initial_up_counter = first_slot_ordinal_to_fish

abbrev pub get_initial_down_counter : Session → ℕ
get_initial_down_counter session =
    u32 (sub32 last_slot_ordinal_should_fish session.duration_in_slots + 1)

abbrev pub is_in_range : Trolling → Bool
is_in_range t =
    leb first_slot_ordinal_to_fish t.current_start_slot_ordinal
    && leb t.current_end_slot_ordinal last_slot_ordinal_should_fish

unfoldable pub set_session_for_start_slot : Trolling → ℕ → Checked Trolling
set_session_for_start_slot t start_slot = do
  let next = record t {
    current_start_slot_ordinal = start_slot;
    current_end_slot_ordinal = sub32 (u32 (start_slot + t.session.duration_in_slots)) 1;
  }
  check (is_in_range next)
  ok next

unfoldable pub restart : Trolling → Checked Trolling
unfolding set_session_for_start_slot
restart t = do
  let reset = record t {
    up_counter = get_initial_up_counter;
    down_counter = get_initial_down_counter t.session;
  }
  next ← set_session_for_start_slot reset reset.up_counter
  ok (record next { direction = true })

-- incrementCounterModuloSleepingSlots
unfoldable pub increment_counter : Session → ℕ → ℕ
increment_counter session counter =
    let result = u32 (counter + session.duration_in_slots) in
    if ltb last_slot_ordinal_should_fish (u32 (result + session.duration_in_slots))
    then get_initial_up_counter
    else result

-- decrementCounterModuloSleepingSlots
unfoldable pub decrement_counter : Session → ℕ → ℕ
decrement_counter session counter =
    if ltb counter (u32 (first_slot_ordinal_to_fish + session.duration_in_slots))
    then get_initial_down_counter session
    else sub32 counter session.duration_in_slots

unfoldable pub proceed_to_next_fish_slot_ordinal : Trolling → Checked Trolling
unfolding set_session_for_start_slot increment_counter decrement_counter
proceed_to_next_fish_slot_ordinal t =
    let up = increment_counter t.session t.up_counter in
    let down = decrement_counter t.session t.down_counter in
    if t.direction
    then set_session_for_start_slot (record t { up_counter = up; direction = not t.direction }) up
    else set_session_for_start_slot (record t { down_counter = down; direction = not t.direction })
        down

unfoldable pub pre_fishing : Trolling → Checked Trolling
unfolding proceed_to_next_fish_slot_ordinal
pre_fishing t = proceed_to_next_fish_slot_ordinal t

unfoldable pub check_done : Trolling → Bool
check_done t = false

unfoldable pub get_start_time_to_fish : Trolling → Schedule → ℕ
get_start_time_to_fish t s = u64 (
    s.start_time_of_sync_period
    + u32 (sub32 t.current_start_slot_ordinal 1 * virtual_slot_duration))

unfoldable pub get_fish_session_duration_ticks : Trolling → ℕ
get_fish_session_duration_ticks t = t.session.duration_in_ticks

abbrev is_cover_first_sleeping_slot : Trolling → Bool
is_cover_first_sleeping_slot t = t.current_start_slot_ordinal == first_slot_ordinal_to_fish

abbrev is_abut_first_sleeping_slot : Trolling → Bool
is_abut_first_sleeping_slot t = t.current_start_slot_ordinal == first_slot_ordinal_to_fish + 1

abbrev is_cover_last_sleeping_slot : Trolling → Bool
is_cover_last_sleeping_slot t = leb last_slot_ordinal_should_fish t.current_end_slot_ordinal

abbrev is_abut_last_sleeping_slot : Trolling → Bool
is_abut_last_sleeping_slot t = t.current_end_slot_ordinal == last_slot_ordinal_should_fish - 1

unfoldable pub is_fish_session_near_start_sync_period : Trolling → Bool
is_fish_session_near_start_sync_period t =
    is_cover_first_sleeping_slot t || is_abut_first_sleeping_slot t

unfoldable pub is_fish_session_near_end_sync_period : Trolling → Bool
is_fish_session_near_end_sync_period t =
    is_cover_last_sleeping_slot t || is_abut_last_sleeping_slot t

-- SlottedFishSession::incrementFishSessionDuration
pub increment_fish_session_duration : Trolling → ℕ → Checked Trolling
unfolding restart
increment_fish_session_duration t increment =
    let trial_result = u32 (t.session.duration_in_slots + increment) in
    if ltb max_trolling_real_fish_session_duration_slots trial_result
    then ok t
    else restart (record t {
      session = record {
        duration_in_ticks = u32 (trial_result * min_trolling_fish_session_duration_ticks);
        duration_in_slots = trial_result;
      };
    })

-- FishPowerMgr::manage; `above_2_7` is whether Vcc::measure() is at least Result2_7V.
pub manage : Trolling → Bool → Checked Trolling
unfolding increment_fish_session_duration set_duration_to_min_duration
manage t above_2_7 =
    if above_2_7
    then (if not t.is_max_fishing
        then (do
          longer ← increment_fish_session_duration t 20
          ok (record longer { is_max_fishing = true }))
        else ok t)
    else ok (record t { session = set_duration_to_min_duration t.session; is_max_fishing = false })
