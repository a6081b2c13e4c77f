-- ===== src/Agent/Merging.antt =====
-- src/cliqueMerger/cliqueMerger.cpp, src/clique/periodTime.cpp, src/slots/merge and
-- src/syncAgentImp/syncAgentRole.cpp: how a unit that has fished another clique merges it with its
-- own. Readings of the clock and of Radio::timeOfArrival() are arguments.
pub mod Aligned
use native.Mathlib.Omega.{arith}
use sleep_sync_agent.Agent.{Agent, CliqueMerger, Platform, is_fisher, is_merger}
use sleep_sync_agent.Agent.Mastership.{
  is_other_clique_better, is_self_master, update_by_sync_message,
}
use sleep_sync_agent.Agent.Roles.{to_fisher, to_merger, to_no_fishing}
use sleep_sync_agent.Base.{
  Bool, Checked, check, false, if◌then◌else◌, leb, ltb, not, ok, sub32, sub64, true, u32, u64, ℕ,
  ◌%◌, ◌*◌, ◌+◌, ◌>>=◌, ◌>>◌,
}
use sleep_sync_agent.Fishing.Manager.{is_deep_fishing}
use sleep_sync_agent.Message.{
  SyncMessage, does_carry_sync, merge_my_master_depart, merge_my_slave_depart, merge_other,
  time_of_transmittal,
}
use sleep_sync_agent.Message.MessageFactory.{init_merge_sync_message}
use sleep_sync_agent.Params.{
  count_syncs_per_merger, delta_sync_point_to_sync_slot_middle, normal_sync_period_duration,
  preflight_delta, send_duration, three_slot_duration, two_slot_duration, virtual_slot_duration,
}
use sleep_sync_agent.Schedule.{delta_now_to_next_unadjusted_sync_point, time_of_next_sync_point}

pub middle_of_next_sync_slot_of_fisher : Platform → Agent → ℕ
middle_of_next_sync_slot_of_fisher p a =
    u64 (time_of_next_sync_point a.schedule + delta_sync_point_to_sync_slot_middle p.chip)

unfoldable pub next_sync_point_of_fisher : Agent → ℕ
next_sync_point_of_fisher a = time_of_next_sync_point a.schedule

unfoldable pub middle_of_next_sync_slot_of_catch : ℕ → ℕ
middle_of_next_sync_slot_of_catch toa = u64 (time_of_transmittal toa + normal_sync_period_duration)

pub past_sync_point_of_catch : Platform → ℕ → ℕ
past_sync_point_of_catch p toa =
    sub64 (time_of_transmittal toa) (delta_sync_point_to_sync_slot_middle p.chip)

-- EarliestMergeTime
abbrev pub earliest_merge_time : Platform → ℕ
earliest_merge_time p = 2 * virtual_slot_duration + preflight_delta p.chip

unfoldable pub adjusted_raw_time_to_merge_clique : Platform → ℕ → ℕ
adjusted_raw_time_to_merge_clique p raw_time =
    if ltb (earliest_merge_time p) raw_time
    then sub32 raw_time (preflight_delta p.chip)
    else earliest_merge_time p

unfoldable pub period_time_to_merge_my_clique : Platform → Agent → ℕ → ℕ
unfolding middle_of_next_sync_slot_of_fisher past_sync_point_of_catch
    adjusted_raw_time_to_merge_clique time_of_transmittal
period_time_to_merge_my_clique p a toa =
    let raw_time =
      p.time.clamped_time_difference (middle_of_next_sync_slot_of_fisher p a)
        (past_sync_point_of_catch p toa)
      % normal_sync_period_duration in
    adjusted_raw_time_to_merge_clique p raw_time

unfoldable pub period_time_to_merge_other_clique : Platform → Agent → ℕ → ℕ
unfolding middle_of_next_sync_slot_of_catch next_sync_point_of_fisher
    adjusted_raw_time_to_merge_clique time_of_transmittal
period_time_to_merge_other_clique p a toa =
    let raw_time =
      p.time.clamped_time_difference (middle_of_next_sync_slot_of_catch toa)
        (next_sync_point_of_fisher a)
      % normal_sync_period_duration in
    adjusted_raw_time_to_merge_clique p raw_time

-- PeriodTime::set, with its test isValidValue.
unfoldable pub set_period_time : CliqueMerger → ℕ → Checked CliqueMerger
set_period_time m value = do
  check (leb value normal_sync_period_duration)
  ok (record m { period_time_to_merge_slot_start = value })

unfoldable pub init_merge_my_clique : Platform → Agent → SyncMessage → ℕ → Checked Agent
unfolding set_period_time period_time_to_merge_my_clique update_by_sync_message
init_merge_my_clique p a msg toa = do
  timed ← set_period_time a.clique_merger (period_time_to_merge_my_clique p a toa)
  let m = record timed {
    superior_master_id = msg.master_id;
    inferior_master_id = a.clique_master_id;
    kind_of_merger = if is_self_master p a then merge_my_master_depart else merge_my_slave_depart;
  }
  b ← update_by_sync_message (record a { clique_merger = m }) msg toa
  check (not (is_self_master p b))
  ok b

unfoldable pub init_merge_other_clique : Platform → Agent → SyncMessage → ℕ → Checked Agent
unfolding set_period_time period_time_to_merge_other_clique
init_merge_other_clique p a msg toa = do
  timed ← set_period_time a.clique_merger (period_time_to_merge_other_clique p a toa)
  ok (record a {
    clique_merger = record timed {
      kind_of_merger = merge_other;
      superior_master_id = a.clique_master_id;
      inferior_master_id = msg.master_id;
    };
  })

-- CliqueMerger::deactivate
unfoldable pub deactivate : Agent → Agent
deactivate a = record a { clique_merger = record a.clique_merger { is_merging = false } }

-- CliqueMerger::initFromMsg
unfoldable pub init_from_msg : Platform → Agent → SyncMessage → ℕ → Checked Agent
unfolding init_merge_my_clique init_merge_other_clique
init_from_msg p a msg toa = do
  check (not (is_deep_fishing a.fishing.mode))
  check (does_carry_sync msg.type)
  b ←
      if is_other_clique_better a msg.master_id
      then init_merge_my_clique p a msg toa
      else init_merge_other_clique p a msg toa
  ok (record b { clique_merger = record b.clique_merger { is_merging = true } })

-- CliqueMerger::makeMergeMsg, in the factory's reused instance; `now` is the reading of the clock.
unfoldable pub make_merge_msg : Platform → Agent → SyncMessage → ℕ → Checked SyncMessage
unfolding delta_now_to_next_unadjusted_sync_point init_merge_sync_message
make_merge_msg p a message now = do
  check a.clique_merger.is_merging
  let m = a.clique_merger
  init_merge_sync_message message m.kind_of_merger
      (delta_now_to_next_unadjusted_sync_point p.time a.schedule now) m.superior_master_id
      m.inferior_master_id

unfoldable pub delta_merge_slot_end_to_sync_point : Platform → Agent → ℕ
delta_merge_slot_end_to_sync_point p a =
    p.time.clamped_subtraction normal_sync_period_duration
      (u32 (a.clique_merger.period_time_to_merge_slot_start + send_duration p.chip))

-- MergeSchedule
pub time_of_this_merge_start : Agent → ℕ → Checked ℕ
time_of_this_merge_start a offset = do
  let result = u64 (a.schedule.start_time_of_sync_period + offset)
  check (ltb result a.schedule.end_time_of_sync_period)
  ok result

unfoldable pub delta_to_this_merge_start : Platform → Agent → ℕ → Checked ℕ
unfolding time_of_this_merge_start
delta_to_this_merge_start p a now = do
  t ← time_of_this_merge_start a a.clique_merger.period_time_to_merge_slot_start
  ok (p.time.clamped_time_difference t now)

unfoldable pub is_merger_start_sync_period : Agent → Bool
is_merger_start_sync_period a =
    ltb a.clique_merger.period_time_to_merge_slot_start three_slot_duration

unfoldable pub is_merger_end_sync_period : Platform → Agent → Bool
unfolding delta_merge_slot_end_to_sync_point
is_merger_end_sync_period p a = ltb (delta_merge_slot_end_to_sync_point p a) two_slot_duration

-- MergePolicy
unfoldable pub restart_merge_policy : Agent → Agent
restart_merge_policy a = record a { count_sent_merge_syncs = 0 }

unfoldable pub check_completion_of_merger_role : Agent → Checked (Agent × Bool)
check_completion_of_merger_role a = do
  check (leb a.count_sent_merge_syncs count_syncs_per_merger)
  let b = record a { count_sent_merge_syncs = a.count_sent_merge_syncs + 1 }
  ok (b, ltb count_syncs_per_merger b.count_sent_merge_syncs)

-- SyncAgentImp's transitions of the role, with what they do to the merger.
unfoldable pub to_fisher_from_no_fishing : Agent → Agent
unfolding to_fisher
to_fisher_from_no_fishing a = to_fisher a

unfoldable pub to_no_fishing_from_other : Agent → Agent
unfolding deactivate to_no_fishing
to_no_fishing_from_other a = to_no_fishing (if is_merger a.role then deactivate a else a)

unfoldable pub to_merger_from_fisher : Platform → Agent → SyncMessage → ℕ → Checked Agent
unfolding init_from_msg to_merger
to_merger_from_fisher p a msg toa = do
  check (does_carry_sync msg.type)
  check (is_fisher a.role)
  b ← to_merger a
  c ← init_from_msg p b msg toa
  check (is_merger c.role)
  ok c

unfoldable pub to_fisher_from_merger : Agent → Agent
unfolding deactivate to_fisher
to_fisher_from_merger a = deactivate (to_fisher a)

unfoldable pub stop_merger : Agent → Checked Agent
unfolding restart_merge_policy to_fisher_from_merger
stop_merger a = do
  let b = to_fisher_from_merger (restart_merge_policy a)
  check (is_fisher b.role)
  ok b
