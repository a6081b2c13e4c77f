-- ===== src/Agent/Tasks/MergeSlot.antt =====
-- The merge slots of a merger, none of which fails an assertion. Code: src/task/mergerTask.cpp,
-- src/slots/merge/mergePolicy.cpp, src/cliqueMerger/cliqueMerger.cpp,
-- src/schedule/syncSchedule.cpp.

use sleep_sync_agent.Agent.{Agent, Platform, fisher, merger, merger_start_and_end}
use sleep_sync_agent.Agent.Merging.{
  check_completion_of_merger_role, deactivate, make_merge_msg, restart_merge_policy, stop_merger,
  to_fisher_from_merger,
}
use sleep_sync_agent.Agent.Receiver.Total.{IsReady}
use sleep_sync_agent.Agent.Roles.{to_fisher}
use sleep_sync_agent.Agent.Sender.{send_merge_sync}
use sleep_sync_agent.Agent.SyncSchedule.{
  now_til_prelude_w_sync, radio_prelude_task_w_sync, start_sync_slot_with_prelude_done,
  sync_slot_after_merging, undo_prelude,
}
use sleep_sync_agent.Agent.SyncSlot.{Answers}
use sleep_sync_agent.Agent.Tasks.{run, run_merger_start_and_end, stop_merger_if}
use sleep_sync_agent.Base.{
  List, Succeeds, Succeeds-bind, Succeeds-map, arith, u8, ℕ, ◌+◌, ◌-◌, ◌<◌, ◌>>=◌, ◌∷◌, ◌≡◌, ◌≤◌,
  ◌⊎◌,
}
use sleep_sync_agent.Message.{SyncMessage}
use sleep_sync_agent.Message.MessageFactory.{init_merge_sync_message}
use sleep_sync_agent.Params.{count_syncs_per_merger, virtual_slot_duration}
use sleep_sync_agent.Schedule.{
  delta_now_to_next_sync_point, delta_now_to_next_unadjusted_sync_point,
}
use sleep_sync_agent.TimeMath.{TimeLaws}

-- The message is the merger's, and it holds the time from its sending to the end of the period as
-- it was before an adjustment.
abbrev pub IsMergeSync : Agent → ℕ → SyncMessage → Type 0
IsMergeSync a now m =
    (m.type ≡ a.clique_merger.kind_of_merger)
    × (m.master_id ≡ a.clique_merger.superior_master_id)
    × (m.work ≡ u8 a.clique_merger.inferior_master_id)
    × (m.delta_to_next_sync_point ≡ a.schedule.unadjusted_end_time_of_sync_period - now)

-- The merger goes on, one message further, or has sent its last and is a fisher again.
abbrev pub HasCounted : Platform → Agent → Agent → Type 0
HasCounted p a b =
    IsReady p b
    × (b.schedule ≡ a.schedule)
    × (b.sent ≡ a.sent)
    × ((a.count_sent_merge_syncs < count_syncs_per_merger)
          × (b.role ≡ merger)
          × (b.count_sent_merge_syncs ≡ a.count_sent_merge_syncs + 1)
        ⊎ (a.count_sent_merge_syncs ≡ count_syncs_per_merger)
          × (b.role ≡ fisher)
          × (b.count_sent_merge_syncs ≡ 0))

-- The merger has sent one more message, and has counted it.
abbrev pub HasMerged : Platform → Agent → ℕ → Agent → Type 0
HasMerged p a now b =
    (m : SyncMessage) × IsMergeSync a now m × HasCounted p (record a { sent = m ∷ a.sent }) b

send_merge_sync-Succeeds :
    (p : Platform) (a : Agent) (message : SyncMessage) (now : ℕ)
    → TimeLaws p.time
    → IsReady p a
    → a.role ≡ merger
    → a.schedule.start_time_of_sync_period ≤ now
    → Succeeds (IsMergeSync a now) (send_merge_sync p a message now)
unfolding send_merge_sync make_merge_msg init_merge_sync_message
    delta_now_to_next_unadjusted_sync_point
send_merge_sync-Succeeds p a message now laws v r late =
    let end = a.schedule.unadjusted_end_time_of_sync_period in
    ground (
      arith,
      v.sound.consistent.active_iff_merger,
      v.scheduled.normal,
      laws.time_exact end now,
      laws.time_zero end now,
    )

counted-Succeeds :
    (p : Platform) (a : Agent)
    → IsReady p a
    → a.role ≡ merger
    → a.count_sent_merge_syncs ≤ count_syncs_per_merger
    → Succeeds
        (λ counted. Succeeds (HasCounted p a) (stop_merger_if counted))
        (check_completion_of_merger_role a)
unfolding check_completion_of_merger_role stop_merger_if stop_merger restart_merge_policy
    to_fisher_from_merger deactivate to_fisher
counted-Succeeds p a v r k = ground arith

sent-IsReady :
    (p : Platform) (a : Agent) (messages : List SyncMessage)
    → IsReady p a
    → IsReady p (record a { sent = messages })
sent-IsReady p a messages v = ground arith

after_merging-HasCounted :
    (p : Platform) (a b : Agent) (now : ℕ)
    → TimeLaws p.time
    → HasCounted p a b
    → a.schedule.start_time_of_sync_period ≤ now
    → now + virtual_slot_duration ≤ a.schedule.end_time_of_sync_period
    → Succeeds (HasCounted p a) (sync_slot_after_merging p b now)
unfolding sync_slot_after_merging undo_prelude radio_prelude_task_w_sync now_til_prelude_w_sync
    delta_now_to_next_sync_point start_sync_slot_with_prelude_done
after_merging-HasCounted p a b now laws h late early =
    let end = a.schedule.end_time_of_sync_period in
    ground (
      arith,
      h.0.scheduled.normal,
      h.0.scheduled.not_too_long,
      laws.time_exact end now,
      laws.delta_exact (end - now) virtual_slot_duration,
    )

counted-HasCounted :
    (p : Platform) (a : Agent) (now : ℕ)
    → TimeLaws p.time
    → IsReady p a
    → a.role ≡ merger
    → a.count_sent_merge_syncs ≤ count_syncs_per_merger
    → a.schedule.start_time_of_sync_period ≤ now
    → now + virtual_slot_duration ≤ a.schedule.end_time_of_sync_period
    → Succeeds (HasCounted p a) (do
      counted ← check_completion_of_merger_role a
      b ← stop_merger_if counted
      sync_slot_after_merging p b now)
counted-HasCounted p a now laws r m k late early =
    Succeeds-bind (λ counted. Succeeds (HasCounted p a) (stop_merger_if counted)) (HasCounted p a)
      (check_completion_of_merger_role a)
      (λ counted. stop_merger_if counted >>= λ b. sync_slot_after_merging p b now)
      (counted-Succeeds p a r m k)
      (λ counted h.
        Succeeds-bind (HasCounted p a) (HasCounted p a) (stop_merger_if counted)
          (λ b. sync_slot_after_merging p b now) h
          (λ b w. after_merging-HasCounted p a b now laws w late early))

-- A merge slot: a ready merger that has not sent more than its messages sends the next one, of the
-- kind and for the cliques that it merges, with the time to the end of its period as it was before
-- an adjustment, and no assertion fails. It is ready afterwards on the same schedule, and is a
-- fisher again just if that was the last one. This is so under the laws of clock arithmetic, where
-- the slot lies in the period and a prelude before its end.
pub run_merger-HasMerged :
    (p : Platform) (a : Agent) (v : Answers)
    → TimeLaws p.time
    → IsReady p a
    → a.role ≡ merger
    → a.count_sent_merge_syncs ≤ count_syncs_per_merger
    → a.schedule.start_time_of_sync_period ≤ v.now
    → v.now + virtual_slot_duration ≤ a.schedule.end_time_of_sync_period
    → Succeeds (HasMerged p a v.now) (run p a v merger_start_and_end)
unfolding run run_merger_start_and_end
run_merger-HasMerged p a v laws r m k late early =
    Succeeds-bind (IsMergeSync a v.now) (HasMerged p a v.now) (send_merge_sync p a v.message v.now)
      (λ s. do
        counted ← check_completion_of_merger_role (record a { sent = s ∷ a.sent })
        b ← stop_merger_if counted
        sync_slot_after_merging p b v.now)
      (send_merge_sync-Succeeds p a v.message v.now laws r m late)
      (λ s e.
        Succeeds-map (HasCounted p (record a { sent = s ∷ a.sent })) (HasMerged p a v.now)
          (do
            counted ← check_completion_of_merger_role (record a { sent = s ∷ a.sent })
            b ← stop_merger_if counted
            sync_slot_after_merging p b v.now)
          (counted-HasCounted p (record a { sent = s ∷ a.sent }) v.now laws
            (sent-IsReady p a (s ∷ a.sent) r) m k late early)
          (λ b h. (s, e, h)))
