-- ===== src/Network/SendRepeater.antt =====
-- src/network/sendRepeater.cpp: a control message that is sent several times, at random, in lieu of
-- acknowledgements. The callbacks are those of src/network/intraCliqueManager.cpp.
pub mod Repeats
use sleep_sync_agent.Base.{
  Bool, Checked, Option, check, false, if◌then◌else◌, ltb, none, ok, some, true, u32, ℕ, ◌&&◌, ◌+◌,
  ◌>>=◌, ◌>>◌,
}
use sleep_sync_agent.Message.{MessageType}
use sleep_sync_agent.Params.{count_repeats_per_control_sync}

pub data OnDone : Type 0 where
  on_done_granularity_with_action on_done_repeating_upstream on_done_scatter : OnDone

-- `repeater_counter` and the callback are read only while the repeater is active.
pub record SendRepeater : Type 0 where
  pub is_active : Bool
  pub message_type : MessageType
  pub a_value : ℕ
  pub on_done_callback : OnDone
  pub repeater_counter : ℕ

abbrev pub initial_repeater : SendRepeater
initial_repeater = record {
  is_active = false;
  message_type = MessageType.invalid;
  a_value = 0;
  on_done_callback = on_done_repeating_upstream;
  repeater_counter = 0;
}

-- A second request, while one is being repeated, is ignored.
unfoldable pub start : SendRepeater → MessageType → ℕ → OnDone → SendRepeater
start r a_type value callback = if r.is_active then r else record {
  is_active = true;
  message_type = a_type;
  a_value = value;
  on_done_callback = callback;
  repeater_counter = 0;
}

-- `coin` is Random::coinToss().
unfoldable pub should_send : SendRepeater → Bool → SendRepeater × Bool
should_send r coin =
    if r.is_active && coin
    then (record r { repeater_counter = u32 (r.repeater_counter + 1) }, true)
    else (r, false)

-- The result is also the callback that is due, if the repeater is done.
unfoldable pub check_done_and_enact_control : SendRepeater → Checked (SendRepeater × Option OnDone)
check_done_and_enact_control r = do
  check r.is_active
  ok (
      if ltb count_repeats_per_control_sync r.repeater_counter
      then (record r { is_active = false; repeater_counter = 0 }, some r.on_done_callback)
      else (r, none))

unfoldable pub stop : SendRepeater → SendRepeater
stop r = record r { is_active = false }
