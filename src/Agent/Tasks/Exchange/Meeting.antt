-- ===== src/Agent/Tasks/Exchange/Meeting.antt =====
-- A unit meets a master, in whatever phase. Code: src/task/task.cpp, src/slots/sync/syncSlot.cpp,
-- src/modules/syncSender.cpp, src/receiver/receiver.cpp, src/messageHandler,
-- src/clique/schedule.cpp.

use sleep_sync_agent.Agent.{Agent, Platform, prelude_w_sync}
use sleep_sync_agent.Agent.Receiver.Slot.{Arrival}
use sleep_sync_agent.Agent.Tasks.Exchange.{exchange}
use sleep_sync_agent.Agent.Tasks.Exchange.Answering.{IsAnswering, IsQuiet}
use sleep_sync_agent.Agent.Tasks.Exchange.Called.{IsCalling}
use sleep_sync_agent.Agent.Tasks.Exchange.Joined.{
  HaveMet, IsPhased, exchange-valid, offset-exact, rolled_fresh, synced, synced-IsPhased,
}
use sleep_sync_agent.Agent.Tasks.SyncPeriod.{Meetings}
use sleep_sync_agent.Agent.Tasks.Syncing.{IsSyncing}
use sleep_sync_agent.Base.{Succeeds, true, ℕ, ◌+◌, ◌<◌, ◌^◌, ◌≡◌, ◌≤◌}
use sleep_sync_agent.Params.{send_latency}
use sleep_sync_agent.Schedule.{Schedule, roll_period_forward}
use sleep_sync_agent.Schedule.Adjusting.{clock_limit, roll_period_forward-IsScheduled}
use sleep_sync_agent.Schedule.SyncOffset.{calculate}
use sleep_sync_agent.TimeMath.{TimeLaws}

-- Two units meet, each with its whole period from one radio prelude to the next. The first is its
-- own master, its policy lets it send and it does so in time; the second is in a clique that is the
-- same or a worse one, does not send in this period, and gets the packet, whose CRC is valid, one
-- send latency later, within its normal period, whatever the phase. Their clocks differ by
-- `ahead_b` and `ahead_a`. Under the laws of clock arithmetic, far from the end of the clock, with a
-- system ID of the first that fits six bytes, where both only sync, have power to sync but not to
-- fish, no control message to repeat and nothing to send from an app, and end their slots a prelude
-- before the end of the period: no assertion fails in either unit, both are at the prelude to their
-- next period, the second in the clique of the first with one silent slot at most, and its period
-- ends when that of the first does, or one normal period after.
pub exchange-HaveMet_in_phase :
    (p q : Platform) (a b : Agent) (e f : Meetings) (x : Arrival) (ahead_a ahead_b : ℕ)
    → TimeLaws p.time
    → TimeLaws q.time
    → p.system_id < 2 ^ 48
    → IsSyncing p prelude_w_sync a
    → a.clique_master_id ≡ p.system_id
    → a.schedule.end_time_of_sync_period < clock_limit
    → IsCalling p (roll_period_forward a.schedule) e
    → IsSyncing q prelude_w_sync b
    → p.system_id ≤ b.clique_master_id
    → b.schedule.end_time_of_sync_period < clock_limit
    → IsQuiet q b.clique_master_id f
    → IsAnswering (roll_period_forward b.schedule) f x
    → x.crc_valid ≡ true
    → x.toa < clock_limit
    → e.at_send.now + send_latency p.chip + ahead_b ≡ x.toa + ahead_a
    → (t : Schedule) × IsPhased (roll_period_forward a.schedule) t ahead_a ahead_b
      × Succeeds (HaveMet p q (roll_period_forward a.schedule) t 1) (exchange p q (a, b) e f x)
exchange-HaveMet_in_phase p q a b e f x ahead_a ahead_b laws laws' fits v own far calling w better
      far' quiet o valid near same =
    let s = roll_period_forward a.schedule in
    let u = roll_period_forward b.schedule in
    let delta = calculate p.time p.chip s e.at_send.now in
    let exact =
      offset-exact p s e laws (roll_period_forward-IsScheduled a.schedule far)
        (rolled_fresh a.schedule) calling in
    let n = roll_period_forward-IsScheduled b.schedule far' in
    (
      synced u x.toa delta,
      synced-IsPhased s u x.toa delta (e.at_send.now + send_latency p.chip) ahead_a ahead_b n
          (rolled_fresh b.schedule) o.comes_after o.comes_before exact.1 same,
      exchange-valid p q a b e f x laws laws' fits v own far calling w better far' quiet o valid
          near,
    )
