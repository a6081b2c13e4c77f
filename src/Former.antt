-- ===== src/Former.antt =====
-- The former design, in which one thread sleeps from one act of a sync period to the next:
-- src/sleepingSlots and src/sleepers/cruft. The tasks of Agent/Tasks have taken its place.
pub mod Sleeper
pub mod SyncSlot
pub mod Period
pub mod Listening
use sleep_sync_agent.Agent.Behaviour.SyncSlotHandler.{HandlingResult}
use sleep_sync_agent.Agent.Receiver.Slot.{Arrival}
use sleep_sync_agent.Base.{ℕ}

-- What woke the unit, with the packet where there is one.
pub data ReasonForWake : Type 0 where
  msg_received : Arrival → ReasonForWake
  sleep_timer_expired counter_overflow_or_other_timer_expired : ReasonForWake
  cleared unknown brownout_warning : ReasonForWake
  hf_clock_started lf_clock_started : ReasonForWake

-- The time since the sleep began is what ClockDuration::elapsed answers.
pub record Wake : Type 0 where
  pub reason : ReasonForWake
  pub elapsed : ℕ

-- How a sleep ends, or that it goes on: an accepted `keep_listening`.
pub data Slept : Type 0 where
  timed_out : Slept
  accepted : HandlingResult → Slept
