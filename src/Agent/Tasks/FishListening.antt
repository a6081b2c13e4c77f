-- ===== src/Agent/Tasks/FishListening.antt =====
-- What a fisher hears in its fish slot, and what that leaves alone. Code:
-- src/slots/fish/fishSlot.cpp, src/receiver/receiver.cpp, src/messageHandler/fishSlotMsgHandler.cpp.

use sleep_sync_agent.Agent.{Agent, Platform, fish_slot_end, is_fisher}
use sleep_sync_agent.Agent.Behaviour.FishSlotHandler.{do_fished_sync_msg, handle_in_fish_slot}
use sleep_sync_agent.Agent.Behaviour.SyncSlotHandler.{
  HandlingResult, stop_listening_heard_master_sync,
}
use sleep_sync_agent.Agent.Mastership.{update_by_sync_message, update_mastership}
use sleep_sync_agent.Agent.Merging.{
  init_from_msg, init_merge_my_clique, init_merge_other_clique, set_period_time,
  to_merger_from_fisher,
}
use sleep_sync_agent.Agent.Receiver.{dispatch, handle_unserialized}
use sleep_sync_agent.Agent.Receiver.Answered.{IsTimely}
use sleep_sync_agent.Agent.Receiver.Slot.{
  Arrival, fish_slot_handler, heard, on_msg_received, receive,
}
use sleep_sync_agent.Agent.Receiver.Slot.Answered.{IsCatchable, handled_fished-Heard}
use sleep_sync_agent.Agent.Receiver.Slot.Listening.{AllArrivals, Heard, receive-Succeeds}
use sleep_sync_agent.Agent.Roles.{to_merger}
use sleep_sync_agent.Agent.Tasks.FishSlot.{IsFishing}
use sleep_sync_agent.Base.{
  Checked, List, Succeeds, arith, failed, inl, ok, refl, subst, sym, true, ℕ, ◌>>=◌, ◌≡◌,
}
use sleep_sync_agent.Fishing.Manager.{trolling}
use sleep_sync_agent.Message.{SyncMessage}
use sleep_sync_agent.Message.Serializer.{
  unserialize, unserialize_fields, unserialize_offset, unserialize_type,
}
use sleep_sync_agent.Schedule.{adjust_by_sync_msg}

-- The unit is as ready for the end of its fish slot as the other, in the same session.
abbrev pub EndsFishing : Platform → Agent → Agent → Type 0
EndsFishing p a b =
    IsFishing p fish_slot_end b
    × (b.schedule.start_time_of_sync_period ≡ a.schedule.start_time_of_sync_period)
    × (b.fish_times ≡ a.fish_times)
    × (b.fishing ≡ a.fishing)

-- What a message leaves alone in a fish slot.
abbrev KeptIfOk : Agent → Checked (Agent × HandlingResult) → Type 0
KeptIfOk a (ok (b, result)) =
    (b.mode ≡ a.mode)
    × (b.fishing ≡ a.fishing)
    × (b.fish_times ≡ a.fish_times)
    × (b.scheduled ≡ a.scheduled)
    × (b.is_prelude_started ≡ a.is_prelude_started)
    × (b.schedule.start_time_of_sync_period ≡ a.schedule.start_time_of_sync_period)
KeptIfOk a failed = Unit {0}

to_merger_from_fisher-KeptIfOk :
    (p : Platform) (a : Agent) (msg : SyncMessage) (toa : ℕ)
    → KeptIfOk a
        (to_merger_from_fisher p a msg toa >>= λ b. ok (b, stop_listening_heard_master_sync))
unfolding to_merger_from_fisher to_merger init_from_msg init_merge_my_clique init_merge_other_clique
    set_period_time update_by_sync_message update_mastership adjust_by_sync_msg
to_merger_from_fisher-KeptIfOk p a msg toa = ground arith

handle_in_fish_slot-KeptIfOk :
    (p : Platform) (a : Agent) (msg : SyncMessage) (toa : ℕ)
    → a.fishing.mode ≡ trolling
    → KeptIfOk a (handle_in_fish_slot p a msg toa)
unfolding handle_in_fish_slot do_fished_sync_msg
handle_in_fish_slot-KeptIfOk p a msg toa t =
    ground (arith, to_merger_from_fisher-KeptIfOk p a msg toa)

fished-Heard :
    (p : Platform) (a : Agent) (msg : SyncMessage) (toa : ℕ)
    → IsFishing p fish_slot_end a
    → is_fisher a.role ≡ true
    → IsTimely a msg toa
    → Heard (λ b. b ≡ a) (EndsFishing p a) (handle_in_fish_slot p a msg toa)
fished-Heard p a msg toa v r h = ground (
  arith,
  handle_in_fish_slot-KeptIfOk p a msg toa v.trolls,
  handled_fished-Heard p a msg toa v.ready (inl r) h,
)

received-Heard :
    (p : Platform) (a : Agent) (x : Arrival)
    → IsFishing p fish_slot_end a
    → is_fisher a.role ≡ true
    → IsCatchable a.schedule x
    → Heard (λ b. b ≡ a) (EndsFishing p a) (on_msg_received (fish_slot_handler p) a x)
unfolding on_msg_received dispatch handle_unserialized unserialize unserialize_fields
    unserialize_type unserialize_offset
received-Heard p a x v r h =
    ground (arith, λ (t : IsTimely a (heard x) x.toa). fished-Heard p a (heard x) x.toa v r t)

pub receive-EndsFishing :
    (p : Platform) (a : Agent) (xs : List Arrival)
    → IsFishing p fish_slot_end a
    → is_fisher a.role ≡ true
    → AllArrivals (IsCatchable a.schedule) xs
    → Succeeds (λ r. EndsFishing p a r.0) (receive (fish_slot_handler p) a xs)
receive-EndsFishing p a xs v r h =
    receive-Succeeds (fish_slot_handler p) (λ b. b ≡ a) (EndsFishing p a) (IsCatchable a.schedule)
      (λ b x e g.
        subst
          (λ c. Heard (λ d. d ≡ a) (EndsFishing p a) (on_msg_received (fish_slot_handler p) c x))
          (sym e) (received-Heard p a x v r g))
      (λ b e. subst (EndsFishing p a) (sym e) (v, refl, refl, refl)) a xs refl h
