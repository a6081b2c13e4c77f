-- ===== src/Former/Listening.antt =====
-- The former sleep with the radio on, and the present receiver. Code:
-- src/sleepers/cruft/syncSleeperObs.cpp, oversleepMonitor.cpp, src/sleepingSlots/syncSlotKinds.cpp,
-- src/receiver/receiver.cpp.

use sleep_sync_agent.Agent.{Agent, Platform, listen}
use sleep_sync_agent.Agent.Behaviour.SyncSlotHandler.{
  HandlingResult, keep_listening, stop_listening_heard_master_sync, stop_listening_heard_merge_sync,
  stop_listening_heard_work_sync,
}
use sleep_sync_agent.Agent.Receiver.Slot.{
  Arrival, Handler, is_keep_listening, on_msg_received, receive, sync_slot_handler,
}
use sleep_sync_agent.Agent.SyncSchedule.{delta_to_this_sync_slot_end}
use sleep_sync_agent.Agent.SyncSlot.{decide_kind, end_listen}
use sleep_sync_agent.Base.{
  Bool, Checked, List, [], ap, arith, failed, false, if◌then◌else◌, ok, refl, true, ℕ, ◌<◌, ◌>>=◌,
  ◌∙◌, ◌∷◌, ◌≡◌,
}
use sleep_sync_agent.Former.{
  ReasonForWake, Slept, Wake, accepted, brownout_warning, cleared,
  counter_overflow_or_other_timer_expired, hf_clock_started, lf_clock_started, msg_received,
  sleep_timer_expired, timed_out, unknown,
}
use sleep_sync_agent.Former.Sleeper.{
  check_overslept, determine_handling_result, is_done, mark_start_sleep, sleep_on,
  sleep_until_msg_accepted_or_timeout,
}
use sleep_sync_agent.Former.SyncSlot.{
  Slot, do_slave_sync_work_slot, former_dispatch, former_end_listen, perform_sync_slot,
}
use sleep_sync_agent.Params.{max_sane_timeout}

-- The packets that come before the timer expires.
abbrev pub packet_of : ReasonForWake → List Arrival → List Arrival
packet_of (msg_received x) xs = x ∷ xs
packet_of sleep_timer_expired xs = []
packet_of _ xs = xs

abbrev pub packets : List Wake → List Arrival
packets [] = []
packets (w ∷ ws) = packet_of w.reason (packets ws)

-- No wake comes so late that the sleep counts as an oversleep.
abbrev pub AreInTime : ℕ → List Wake → Type 0
AreInTime intended [] = Unit {0}
AreInTime intended (w ∷ ws) = (check_overslept intended w.elapsed ≡ false) × AreInTime intended ws

-- Whether the radio would still receive, had the time not been over.
abbrev pub would_receive : Slept → Bool
would_receive timed_out = true
would_receive (accepted keep_listening) = true
would_receive _ = false

abbrev pub as_received : Agent × Slept → Checked (Agent × Bool)
as_received (a, r) = ok (a, would_receive r)

-- After one packet.
accepted-as_received :
    (handler : Handler) (intended : ℕ) (w : Wake) (ws : List Wake) (xs : List Arrival)
    (r : Checked (Agent × HandlingResult))
    → check_overslept intended w.elapsed ≡ false
    → ((b : Agent) → (sleep_on handler b intended ws >>= as_received) ≡ receive handler b xs)
    → ((r >>= λ h. ok (h.0, accepted h.1)) >>= λ h.
          (if check_overslept intended w.elapsed
            then ok h
            else if is_done h.1
            then ok h
            else sleep_on handler h.0 intended ws))
        >>= as_received
      ≡ (r >>= λ h. if is_keep_listening h.1 then receive handler h.0 xs else ok (h.0, false))
accepted-as_received handler intended w ws xs (ok (b, keep_listening)) k f = ground (arith, f b)
accepted-as_received handler intended w ws xs (ok (b, stop_listening_heard_master_sync)) k f =
    ground arith
accepted-as_received handler intended w ws xs (ok (b, stop_listening_heard_work_sync)) k f =
    ground arith
accepted-as_received handler intended w ws xs (ok (b, stop_listening_heard_merge_sync)) k f =
    ground arith
accepted-as_received handler intended w ws xs failed k f = refl

wake-receive :
    (handler : Handler) (a : Agent) (intended : ℕ) (w : Wake) (ws : List Wake)
    (reason : ReasonForWake)
    → check_overslept intended w.elapsed ≡ false
    → ((b : Agent)
        → (sleep_on handler b intended ws >>= as_received) ≡ receive handler b (packets ws))
    → ((determine_handling_result handler a reason >>= λ h.
          (if check_overslept intended w.elapsed
            then ok h
            else if is_done h.1
            then ok h
            else sleep_on handler h.0 intended ws))
        >>= as_received)
      ≡ receive handler a (packet_of reason (packets ws))
unfolding determine_handling_result receive
wake-receive handler a intended w ws (msg_received x) k f =
    accepted-as_received handler intended w ws (packets ws) (on_msg_received handler a x) k f
wake-receive handler a intended w ws sleep_timer_expired k f = ground arith
wake-receive handler a intended w ws counter_overflow_or_other_timer_expired k f =
    ground (arith, f a)
wake-receive handler a intended w ws cleared k f = ground (arith, f a)
wake-receive handler a intended w ws unknown k f = ground (arith, f a)
wake-receive handler a intended w ws brownout_warning k f = ground (arith, f a)
wake-receive handler a intended w ws hf_clock_started k f = ground (arith, f a)
wake-receive handler a intended w ws lf_clock_started k f = ground (arith, f a)

-- A sleep of the former design, whatever wakes it, does to the unit what the present receiver does
-- with the packets that come before the timer expires, where no wake is so late that it counts as
-- an oversleep: the same assertions fail, the unit is the same afterwards, and a message was
-- accepted just where the receiver has stopped to listen.
pub sleep_on-receive :
    (handler : Handler) (a : Agent) (intended : ℕ) (ws : List Wake)
    → AreInTime intended ws
    → (sleep_on handler a intended ws >>= as_received) ≡ receive handler a (packets ws)
unfolding sleep_on receive
sleep_on-receive handler a intended [] h = refl
sleep_on-receive handler a intended (w ∷ ws) (k, h) =
    wake-receive handler a intended w ws (w.reason) k
      (λ b. sleep_on-receive handler b intended ws h)

slept-receive :
    (r : Checked (Agent × Slept)) (f : Agent → Checked Agent)
    → (r >>= λ h. f h.0) ≡ ((r >>= as_received) >>= λ h. f h.0)
slept-receive (ok h) f = refl
slept-receive failed f = refl

do_slave_sync_work_slot-receive :
    (p : Platform) (c : Agent) (s : Slot)
    → delta_to_this_sync_slot_end p c s.first_half.now < max_sane_timeout
    → AreInTime (delta_to_this_sync_slot_end p c s.first_half.now) s.first_half.wakes
    → do_slave_sync_work_slot p c s
      ≡ (receive (sync_slot_handler p) c (packets s.first_half.wakes) >>= λ r. ok r.0)
unfolding do_slave_sync_work_slot sleep_until_msg_accepted_or_timeout mark_start_sleep
do_slave_sync_work_slot-receive p c s sane h =
    let intended = delta_to_this_sync_slot_end p c s.first_half.now in
    let slept = sleep_on (sync_slot_handler p) c intended s.first_half.wakes in
    ground (
      arith,
      slept-receive slept (λ b. ok b),
      sleep_on-receive (sync_slot_handler p) c intended s.first_half.wakes h,
    )

former_dispatch-listen :
    (p : Platform) (a b : Agent) (s : Slot)
    → decide_kind p a s.at_start ≡ (b, listen)
    → former_dispatch p a s ≡ do_slave_sync_work_slot p (record b { sync_slot_kind = listen }) s
unfolding former_dispatch
former_dispatch-listen p a b s e = ground arith

forget_result-bind :
    (r : Checked (Agent × Bool)) (f : Agent → Checked Agent)
    → ((r >>= λ h. ok h.0) >>= f) ≡ (r >>= λ h. f h.0)
forget_result-bind (ok h) f = refl
forget_result-bind failed f = refl

-- The former sync slot of a unit that is not to send has the effect of the present receiver on the
-- packets that come before the timer expires, followed by that of the present end of a listening
-- slot. This is so where the time to the end of the slot is sane and no wake is so late that it
-- counts as an oversleep.
pub perform_sync_slot-receive :
    (p : Platform) (a b : Agent) (s : Slot)
    → decide_kind p a s.at_start ≡ (b, listen)
    → delta_to_this_sync_slot_end p b s.first_half.now < max_sane_timeout
    → AreInTime (delta_to_this_sync_slot_end p b s.first_half.now) s.first_half.wakes
    → perform_sync_slot p a s ≡ (
        receive
          (sync_slot_handler p)
          (record b { sync_slot_kind = listen })
          (packets s.first_half.wakes)
        >>= λ r. end_listen p r.0 s.now_at_end)
unfolding perform_sync_slot former_end_listen end_listen delta_to_this_sync_slot_end
perform_sync_slot-receive p a b s e sane h =
    let c = record b { sync_slot_kind = listen } in
    ap (λ r. r >>= λ d. end_listen p d s.now_at_end)
      (former_dispatch-listen p a b s e ∙ do_slave_sync_work_slot-receive p c s sane h)
    ∙ forget_result-bind (receive (sync_slot_handler p) c (packets s.first_half.wakes))
        (λ d. end_listen p d s.now_at_end)
