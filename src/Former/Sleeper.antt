-- ===== src/Former/Sleeper.antt =====
-- src/sleepers/cruft/syncSleeperObs.cpp and oversleepMonitor.cpp: sleeping with the radio on, until
-- a handler accepts a message or the time is over. NDEBUG is not defined.

use sleep_sync_agent.Agent.{Agent}
use sleep_sync_agent.Agent.Behaviour.SyncSlotHandler.{keep_listening}
use sleep_sync_agent.Agent.Receiver.Slot.{Handler, on_msg_received}
use sleep_sync_agent.Base.{
  Bool, Checked, List, [], check, false, if◌then◌else◌, ltb, ok, true, u32, ℕ, ◌+◌, ◌>>=◌, ◌∷◌,
}
use sleep_sync_agent.Former.{
  ReasonForWake, Slept, Wake, accepted, msg_received, sleep_timer_expired, timed_out,
}
use sleep_sync_agent.Params.{max_sane_timeout, oversleep_margin}

-- SyncSleeper's determineHandlingResult
unfoldable pub determine_handling_result : Handler → Agent → ReasonForWake → Checked (Agent × Slept)
determine_handling_result handler a (msg_received x) = do
  r ← on_msg_received handler a x
  ok (r.0, accepted r.1)
determine_handling_result handler a sleep_timer_expired = ok (a, timed_out)
determine_handling_result handler a _ = ok (a, accepted keep_listening)

-- OverSleepMonitor
unfoldable pub mark_start_sleep : ℕ → Checked (Unit {0})
mark_start_sleep intended = check (ltb intended max_sane_timeout)

unfoldable pub check_overslept : ℕ → ℕ → Bool
check_overslept intended elapsed = ltb (u32 (intended + oversleep_margin)) elapsed

-- The condition of the loop.
abbrev pub is_done : Slept → Bool
is_done (accepted keep_listening) = false
is_done _ = true

-- The loop, over what wakes the unit before the timer expires. An oversleep ends it too, with the
-- result that there is.
unfoldable pub sleep_on : Handler → Agent → ℕ → List Wake → Checked (Agent × Slept)
sleep_on handler a intended [] = ok (a, timed_out)
sleep_on handler a intended (w ∷ ws) = do
  r ← determine_handling_result handler a w.reason
  if check_overslept intended w.elapsed
      then ok r
      else if is_done r.1
      then ok r
      else sleep_on handler r.0 intended ws

-- SyncSleeper::sleepUntilMsgAcceptedOrTimeout; `intended` is what the function of the timeout
-- answers at the start.
unfoldable pub sleep_until_msg_accepted_or_timeout :
    Handler → Agent → ℕ → List Wake → Checked (Agent × Slept)
unfolding mark_start_sleep
sleep_until_msg_accepted_or_timeout handler a intended ws = do
  u ← mark_start_sleep intended
  sleep_on handler a intended ws

-- SyncSleeper::sleepUntilTimeout sleeps on, whatever wakes the unit, until its timer expires, and
-- ignores whether it overslept: only the assertion on the time touches the unit.
unfoldable pub sleep_until_timeout : ℕ → Checked (Unit {0})
unfolding mark_start_sleep
sleep_until_timeout intended = mark_start_sleep intended
