-- ===== src/Agent/Tasks/Exchange/Round.antt =====
-- Periods of a master and its slave, one after the other. Code: src/task/task.cpp,
-- src/slots/sync/syncSlot.cpp, src/clique/schedule.cpp.

use sleep_sync_agent.Agent.{Agent, Platform, prelude_w_sync}
use sleep_sync_agent.Agent.Receiver.Slot.{Arrival}
use sleep_sync_agent.Agent.Tasks.Exchange.{exchange, quiet_exchange}
use sleep_sync_agent.Agent.Tasks.Exchange.Answering.{IsAnswering, IsListening}
use sleep_sync_agent.Agent.Tasks.Exchange.Called.{IsCalling}
use sleep_sync_agent.Agent.Tasks.SyncPeriod.{Meetings}
use sleep_sync_agent.Agent.Tasks.Syncing.{IsSyncing}
use sleep_sync_agent.Base.{
  Bool, Checked, List, [], arith, false, if◌then◌else◌, ok, true, ℕ, ◌&&◌, ◌+◌, ◌<◌, ◌>>=◌, ◌∷◌,
  ◌≡◌, ◌⊎◌,
}
use sleep_sync_agent.Params.{
  max_missing_syncs_per_dropout, normal_sync_period_duration, send_latency,
}
use sleep_sync_agent.Schedule.{Schedule, roll_period_forward}
use sleep_sync_agent.Schedule.Adjusting.{clock_limit}

-- What the master and the slave meet in a period, whether the master sends, and what becomes of the
-- packet from the one to the other.
pub record Round : Type 0 where
  pub sends : Bool
  pub sender : Meetings
  pub receiver : Meetings
  pub packet : Arrival

unfoldable pub round : Platform → Platform → Agent × Agent → Round → Checked (Agent × Agent)
round p q pair r =
    if r.sends
    then exchange p q pair r.sender r.receiver r.packet
    else quiet_exchange p q pair r.sender r.receiver

unfoldable pub rounds : Platform → Platform → Agent × Agent → List Round → Checked (Agent × Agent)
rounds p q pair [] = ok pair
rounds p q pair (r ∷ rs) = do met ← round p q pair r; rounds p q met rs

-- The silent sync slots after a round, at most: a valid packet resets the count, which the end of
-- the slot advances in any case.
abbrev pub count_after : Round → ℕ → ℕ
count_after r count = if r.sends && r.packet.crc_valid then 1 else count + 1

-- The master sends in time by its schedule `s` and the slave listens by its `u`; the packet comes
-- one send latency later, or garbled, and is then not the last that may be missed.
pub record IsCallRound (p q : Platform) (s u : Schedule) (count ahead_a ahead_b : ℕ) (r : Round)
    : Type 0 where
  pub calling : IsCalling p s r.sender
  pub answering : IsAnswering u r.receiver r.packet
  pub early : r.packet.toa < clock_limit
  pub latency : r.sender.at_send.now + send_latency p.chip + ahead_b ≡ r.packet.toa + ahead_a
  pub few : (r.packet.crc_valid ≡ true) ⊎ (count < max_missing_syncs_per_dropout)

-- The policy does not let the master send, and a sync may still be missed.
pub record IsSilentRound (s u : Schedule) (count : ℕ) (r : Round) : Type 0 where
  pub alarm : r.sender.at_start.alarm ≡ false
  pub toss : r.sender.at_start.sync_toss ≡ false
  pub sender : IsListening s r.sender
  pub receiver : IsListening u r.receiver
  pub few : count < max_missing_syncs_per_dropout

abbrev pub IsRound : Platform → Platform → Schedule → Schedule → ℕ → ℕ → ℕ → Round → Type 0
IsRound p q s u count ahead_a ahead_b r = elim r.sends [
  | true ↦ IsCallRound p q s u count ahead_a ahead_b r
  | false ↦ IsSilentRound s u count r
]

-- Any number of rounds, each by the schedules that the last one leaves.
abbrev pub AreRounds : Platform → Platform → Schedule → Schedule → ℕ → ℕ → ℕ → List Round → Type 0
AreRounds p q s u count ahead_a ahead_b [] = Unit {0}
AreRounds p q s u count ahead_a ahead_b (r ∷ rs) =
    (s.end_time_of_sync_period < clock_limit)
    × (u.end_time_of_sync_period < clock_limit)
    × IsRound p q (roll_period_forward s) (roll_period_forward u) count ahead_a ahead_b r
    × AreRounds p q (roll_period_forward s) (roll_period_forward u) (count_after r count) ahead_a
        ahead_b rs

-- The clocks differ by `ahead_b` and `ahead_a`, and both periods end at the same instant.
abbrev pub IsSameEnd : Schedule → Schedule → ℕ → ℕ → Type 0
IsSameEnd s u ahead_a ahead_b =
    u.end_time_of_sync_period + ahead_a ≡ s.end_time_of_sync_period + ahead_b

pub rolled_end :
    (s : Schedule)
    → s.end_time_of_sync_period < clock_limit
    → (roll_period_forward s).end_time_of_sync_period
      ≡ s.end_time_of_sync_period + normal_sync_period_duration
unfolding roll_period_forward
rolled_end s far = omega arith

pub rolled-IsSameEnd :
    (s u : Schedule) (ahead_a ahead_b : ℕ)
    → s.end_time_of_sync_period < clock_limit
    → u.end_time_of_sync_period < clock_limit
    → IsSameEnd s u ahead_a ahead_b
    → IsSameEnd (roll_period_forward s) (roll_period_forward u) ahead_a ahead_b
unfolding roll_period_forward
rolled-IsSameEnd s u ahead_a ahead_b far far' same = omega arith

-- Both at their next preludes, in one clique and in step, that many periods on.
abbrev pub AreInStep : Platform → Platform → ℕ → ℕ → ℕ → Agent × Agent → Type 0
AreInStep p q ahead_a ahead_b end (c, d) =
    IsSyncing p prelude_w_sync c
    × IsSyncing q prelude_w_sync d
    × (c.clique_master_id ≡ p.system_id)
    × (d.clique_master_id ≡ p.system_id)
    × IsSameEnd c.schedule d.schedule ahead_a ahead_b
    × (c.schedule.end_time_of_sync_period ≡ end)
