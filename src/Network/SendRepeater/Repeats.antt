-- ===== src/Network/SendRepeater/Repeats.antt =====
-- How often a control message is sent. Code: src/network/sendRepeater.cpp, and its use in
-- src/slots/sync/syncSlot.cpp.

use sleep_sync_agent.Base.{
  Bool, Checked, List, Option, [], arith, failed, false, if◌then◌else◌, leb, ltb, none, ok, refl,
  some, suc, true, ℕ, ◌+◌, ◌>>=◌, ◌∷◌, ◌≡◌, ◌≤◌,
}
use sleep_sync_agent.Message.{MessageType}
use sleep_sync_agent.Network.SendRepeater.{
  OnDone, SendRepeater, check_done_and_enact_control, should_send, start,
}
use sleep_sync_agent.Params.{count_repeats_per_control_sync}

-- A sync slot of a unit that repeats: the message is sent if the coin says so, and after a sending
-- the repeater is checked.
checked_slot : SendRepeater × Bool → Checked (SendRepeater × Option OnDone)
checked_slot (r, true) = check_done_and_enact_control r
checked_slot (r, false) = ok (r, none)

pub slot : SendRepeater → Bool → Checked (SendRepeater × Option OnDone)
unfolding checked_slot
slot r coin = checked_slot (should_send r coin)

count_callback : Option OnDone → List OnDone → List OnDone
count_callback none fs = fs
count_callback (some f) fs = f ∷ fs

gather :
    Checked (SendRepeater × Option OnDone)
    → (SendRepeater → Checked (SendRepeater × List OnDone))
    → Checked (SendRepeater × List OnDone)
unfolding count_callback
gather failed more = failed
gather (ok (r, called)) more = do rest ← more r; ok (rest.0, count_callback called rest.1)

-- A sequence of sync slots, and the callbacks that are called in them.
pub slots : SendRepeater → List Bool → Checked (SendRepeater × List OnDone)
unfolding gather
slots r [] = ok (r, [])
slots r (coin ∷ coins) = gather (slot r coin) (λ s. slots s coins)

abbrev pub heads : List Bool → ℕ
heads [] = 0
heads (true ∷ coins) = suc (heads coins)
heads (false ∷ coins) = heads coins

idle_slots :
    (r : SendRepeater) (coins : List Bool) → r.is_active ≡ false → slots r coins ≡ ok (r, [])
unfolding slots slot should_send
idle_slots r [] e = refl
idle_slots r (coin ∷ coins) e = ground (arith, idle_slots r coins e)

active_slots :
    (coins : List Bool) (r : SendRepeater)
    → r.is_active ≡ true
    → r.repeater_counter ≤ count_repeats_per_control_sync
    → slots r coins
      ≡ ok (
          if ltb count_repeats_per_control_sync (r.repeater_counter + heads coins)
          then (record r { is_active = false; repeater_counter = 0 }, r.on_done_callback ∷ [])
          else (record r { repeater_counter = r.repeater_counter + heads coins }, []))
unfolding slots slot should_send check_done_and_enact_control
active_slots [] r e h = ground arith
active_slots (false ∷ coins) r e h = ground (arith, active_slots coins r e h)
active_slots (true ∷ coins) r e h = ground (
  arith,
  idle_slots (record r { is_active = false; repeater_counter = 0 }) coins refl,
  active_slots coins (record r { repeater_counter = r.repeater_counter + 1 }) e,
)

-- Once started, a repeater sends its message on each head of the coin until it has sent it five
-- times; with the fifth sending it calls its callback, exactly once, and is idle from then on.
-- Until then it stays active with the same message. No assertion fails.
pub slots-start :
    (r : SendRepeater) (a_type : MessageType) (value : ℕ) (callback : OnDone) (coins : List Bool)
    → r.is_active ≡ false
    → let begun = start r a_type value callback in
      slots begun coins
      ≡ ok (
          if leb 5 (heads coins)
          then (record begun { is_active = false; repeater_counter = 0 }, callback ∷ [])
          else (record begun { repeater_counter = heads coins }, []))
unfolding start
slots-start r a_type value callback coins e =
    ground (arith, active_slots coins (start r a_type value callback))
