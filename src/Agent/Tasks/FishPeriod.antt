-- ===== src/Agent/Tasks/FishPeriod.antt =====
-- A fisher from the end of its sync slot to the end of its fish slot. Code: src/task/fishTask.cpp,
-- src/schedule/syncSchedule.cpp, src/slots/fish/fishSlot.cpp, src/receiver/receiver.cpp.

use sleep_sync_agent.Fishing.Trolling
use sleep_sync_agent.Agent.{
  Agent, Platform, end_sync_slot_listen, end_sync_slot_send, fish_slot_end, fish_slot_start, fisher,
  is_fisher, prelude_w_fish, sync_and_fish_merge,
}
use sleep_sync_agent.Agent.Modes.{is_power_for_fish_slot}
use sleep_sync_agent.Agent.Receiver.Slot.{Arrival, fish_slot_handler, receive}
use sleep_sync_agent.Agent.Receiver.Slot.Answered.{IsCatchable}
use sleep_sync_agent.Agent.Receiver.Slot.Listening.{AllArrivals}
use sleep_sync_agent.Agent.Receiver.Total.{IsReady}
use sleep_sync_agent.Agent.Reversion.{check_master_dropped_out}
use sleep_sync_agent.Agent.SyncSlot.{Answers, end_listen}
use sleep_sync_agent.Agent.Tasks.{run, schedule_non_sync_task}
use sleep_sync_agent.Agent.Tasks.FishListening.{EndsFishing, receive-EndsFishing}
use sleep_sync_agent.Agent.Tasks.FishSlot.{
  Chosen, FishesOn, IsFished, IsFishing, fish_slot_end-IsFished, fish_slot_start-FishesOn,
  prelude_w_fish-FishesOn, schedule_non_sync_task-Chosen,
}
use sleep_sync_agent.Agent.Tasks.OneNext.{next_task}
use sleep_sync_agent.Agent.Tasks.SyncPeriod.{run_next, run_next-Succeeds}
use sleep_sync_agent.Base.{
  Checked, List, Succeeds, Succeeds-bind, ap, arith, if◌then◌else◌, inl, inr, ok, some, subst, sym,
  true, ℕ, ◌*◌, ◌+◌, ◌<◌, ◌>>=◌, ◌∙◌, ◌≡◌, ◌≤◌, ◌⊎◌,
}
use sleep_sync_agent.Clique.DropoutMonitor.{is_dropout}
use sleep_sync_agent.Fishing.Manager.{trolling}
use sleep_sync_agent.Fishing.Trolling.{Trolling}
use sleep_sync_agent.Fishing.Trolling.Coverage.{fish}
use sleep_sync_agent.Network.SendRepeater.{start}
use sleep_sync_agent.Params.{max_missing_syncs_per_dropout, virtual_slot_duration}
use sleep_sync_agent.Schedule.{Schedule}
use sleep_sync_agent.TimeMath.{TimeLaws}

-- What a unit meets from the end of its sync slot to the end of its fish slot: what its tasks read,
-- and the packets that arrive while it fishes.
pub record Fishings : Type 0 where
  pub at_slot_end : Answers
  pub at_prelude : Answers
  pub at_start : Answers
  pub at_end : Answers
  pub arrivals : List Arrival

-- The prelude to the fish slot is a task of its own where the one of the sync slot was undone.
to_fish_slot : Platform → Agent → Answers → Checked Agent
to_fish_slot p a v = if a.is_prelude_started then ok a else run_next p a v

pub fish_period : Platform → Agent → Fishings → Checked Agent
unfolding to_fish_slot
fish_period p a e = do
  b ← run_next p a e.at_slot_end
  c ← to_fish_slot p b e.at_prelude
  d ← run_next p c e.at_start
  r ← receive (fish_slot_handler p) d e.arrivals
  run_next p r.0 e.at_end

-- A ready fisher that trolls, at the end of its sync slot, and has not missed its last tolerated
-- sync.
pub record HasSynced (p : Platform) (a : Agent) : Type 0 where
  pub ready : IsReady p a
  pub fishes : a.mode ≡ sync_and_fish_merge
  pub is_fishing : a.role ≡ fisher
  pub trolls : a.fishing.mode ≡ trolling
  pub prelude : a.is_prelude_started ≡ true
  pub few_missed : a.count_sync_slots_without_sync_msg < max_missing_syncs_per_dropout
  pub comes_next :
      (next_task a ≡ some end_sync_slot_listen) ⊎ (next_task a ≡ some end_sync_slot_send)

-- There is power to fish, the sync slot ends less than a slot late, the fish slot too, after its
-- last slot, and what is heard in it can be caught.
pub record IsFishable (s : Schedule) (last_slot : ℕ) (e : Fishings) : Type 0 where
  pub power : is_power_for_fish_slot e.at_slot_end.power ≡ true
  pub slot_ends_after : s.start_time_of_sync_period ≤ e.at_slot_end.now
  pub slot_ends_before : e.at_slot_end.now ≤ s.start_time_of_sync_period + 2 * virtual_slot_duration
  pub ends_after : s.start_time_of_sync_period ≤ e.at_end.now
  pub ends_before :
      e.at_end.now ≤ s.start_time_of_sync_period + (last_slot + 1) * virtual_slot_duration
  pub catchable : AllArrivals (IsCatchable s) e.arrivals

-- The end of a sync slot that was not the last tolerated one changes only a count.
end_listen-HasSynced :
    (p : Platform) (a : Agent) (now : ℕ)
    → HasSynced p a
    → Succeeds
        (λ b.
          IsReady p b
          × (b.mode ≡ sync_and_fish_merge)
          × (b.role ≡ fisher)
          × (b.fishing ≡ a.fishing)
          × (b.is_prelude_started ≡ true)
          × (b.schedule ≡ a.schedule))
        (end_listen p a now)
unfolding end_listen check_master_dropped_out is_dropout
end_listen-HasSynced p a now v = ground arith

listened-Chosen :
    (p : Platform) (t : Trolling) (a : Agent) (v : Answers)
    → TimeLaws p.time
    → Trolling.pre_fishing a.fishing.troll ≡ ok t
    → HasSynced p a
    → is_power_for_fish_slot v.power ≡ true
    → a.schedule.start_time_of_sync_period ≤ v.now
    → v.now ≤ a.schedule.start_time_of_sync_period + 2 * virtual_slot_duration
    → Succeeds (Chosen p a.schedule t) (end_listen p a v.now >>= λ b. schedule_non_sync_task p b v)
listened-Chosen p t a v laws e h k late early =
    Succeeds-bind
      (λ b.
        IsReady p b
        × (b.mode ≡ sync_and_fish_merge)
        × (b.role ≡ fisher)
        × (b.fishing ≡ a.fishing)
        × (b.is_prelude_started ≡ true)
        × (b.schedule ≡ a.schedule))
      (Chosen p a.schedule t) (end_listen p a v.now) (λ b. schedule_non_sync_task p b v)
      (end_listen-HasSynced p a v.now h)
      (λ b (r, m, o, f, d, s).
        subst (λ u. Succeeds (Chosen p u t) (schedule_non_sync_task p b v)) s
          (schedule_non_sync_task-Chosen p t b v laws (ap (λ g. Trolling.pre_fishing g.troll) f ∙ e)
            r m o (ap (λ g. g.mode) f ∙ h.trolls) d k (rw s late) (rw s early)))

slot_end-Chosen :
    (p : Platform) (t : Trolling) (a : Agent) (v : Answers)
    → TimeLaws p.time
    → Trolling.pre_fishing a.fishing.troll ≡ ok t
    → HasSynced p a
    → is_power_for_fish_slot v.power ≡ true
    → a.schedule.start_time_of_sync_period ≤ v.now
    → v.now ≤ a.schedule.start_time_of_sync_period + 2 * virtual_slot_duration
    → Succeeds (Chosen p a.schedule t) (run_next p a v)
unfolding run
slot_end-Chosen p t a v laws e h k late early = elim h.comes_next [
  | inl listens ↦
      run_next-Succeeds (Chosen p a.schedule t) p a v end_sync_slot_listen listens
        (listened-Chosen p t a v laws e h k late early)
  | inr sends ↦ run_next-Succeeds (Chosen p a.schedule t) p a v end_sync_slot_send sends (
      ground (
        arith,
        schedule_non_sync_task-Chosen p t a v laws e h.ready h.fishes h.is_fishing h.trolls
            h.prelude k late early,
      ))
]

-- The fish slot's prelude was left on, or is a task of its own.
prepared-FishesOn :
    (p : Platform) (a : Agent) (v : Answers)
    → IsFishing p fish_slot_start a ⊎ IsFishing p prelude_w_fish a
    → Succeeds (FishesOn p fish_slot_start a) (to_fish_slot p a v)
unfolding to_fish_slot
prepared-FishesOn p a v (inl h) = ground (arith, h.prelude)
prepared-FishesOn p a v (inr h) = ground (
  arith,
  h.prelude,
  run_next-Succeeds (FishesOn p fish_slot_start a) p a v prelude_w_fish h.comes_next
      (prelude_w_fish-FishesOn p a v h),
)

ending-IsFished :
    (p : Platform) (s : Schedule) (t : Trolling) (a : Agent) (e : Fishings)
    → TimeLaws p.time
    → IsFishable s t.current_end_slot_ordinal e
    → IsFishing p fish_slot_end a
    → a.schedule.start_time_of_sync_period ≡ s.start_time_of_sync_period
    → a.fishing.troll ≡ t
    → Succeeds (IsFished p s.start_time_of_sync_period) (run_next p a e.at_end)
ending-IsFished p s t a e laws f h begin chosen =
    let last_slot = ap (λ u. u.current_end_slot_ordinal) chosen in
    run_next-Succeeds (IsFished p s.start_time_of_sync_period) p a e.at_end fish_slot_end
      h.comes_next
      (subst (λ n. Succeeds (IsFished p n) (run p a e.at_end fish_slot_end)) begin
        (fish_slot_end-IsFished p a e.at_end laws h (omega (arith, begin, f.ends_after))
          (omega (arith, begin, last_slot, h.session, f.ends_before))))

-- From the fish slot on, for a fisher in a session that has been chosen.
in_session-IsFished :
    (p : Platform) (s : Schedule) (t : Trolling) (a : Agent) (e : Fishings)
    → TimeLaws p.time
    → IsFishable s t.current_end_slot_ordinal e
    → IsFishing p fish_slot_start a
    → a.role ≡ fisher
    → a.schedule ≡ s
    → a.fishing.troll ≡ t
    → Succeeds (IsFished p s.start_time_of_sync_period) (do
      d ← run_next p a e.at_start
      r ← receive (fish_slot_handler p) d e.arrivals
      run_next p r.0 e.at_end)
in_session-IsFished p s t a e laws f h o on chosen =
    Succeeds-bind (FishesOn p fish_slot_end a) (IsFished p s.start_time_of_sync_period)
      (run_next p a e.at_start)
      (λ d. receive (fish_slot_handler p) d e.arrivals >>= λ r. run_next p r.0 e.at_end)
      (run_next-Succeeds (FishesOn p fish_slot_end a) p a e.at_start fish_slot_start h.comes_next
        (fish_slot_start-FishesOn p a e.at_start h))
      (λ d (g, role, schedule, times, fish).
        Succeeds-bind (λ r. EndsFishing p d r.0) (IsFished p s.start_time_of_sync_period)
          (receive (fish_slot_handler p) d e.arrivals) (λ r. run_next p r.0 e.at_end)
          (receive-EndsFishing p d e.arrivals g (ap is_fisher (role ∙ o))
            (subst (λ u. AllArrivals (IsCatchable u) e.arrivals) (sym (schedule ∙ on)) f.catchable))
          (λ r (w, start, times', fish').
            ending-IsFished p s t r.0 e laws f w
              (start ∙ ap (λ u. u.start_time_of_sync_period) (schedule ∙ on))
              (ap (λ g. g.troll) (fish' ∙ fish) ∙ chosen)))

-- A fisher's session: a ready fisher that trolls, at the end of its sync slot, goes through its
-- next session, the one that its policy proceeds to, without a failed assertion, whether it catches
-- something or not; it is ready afterwards, in the same period, with the next sync slot scheduled,
-- and the prelude on just if the slot is scheduled to start with it. This is so under the laws of
-- clock arithmetic, where the last tolerated sync was not missed, there is power to fish, both
-- slots end less than a slot late, and what is heard can be caught.
pub fish_period-IsFished :
    (p : Platform) (t : Trolling) (a : Agent) (e : Fishings)
    → TimeLaws p.time
    → HasSynced p a
    → Trolling.pre_fishing a.fishing.troll ≡ ok t
    → IsFishable a.schedule t.current_end_slot_ordinal e
    → Succeeds (IsFished p a.schedule.start_time_of_sync_period) (fish_period p a e)
unfolding fish_period
fish_period-IsFished p t a e laws h n f =
    let Q = IsFished p a.schedule.start_time_of_sync_period in
    Succeeds-bind (Chosen p a.schedule t) Q (run_next p a e.at_slot_end)
      (λ b. do
        c ← to_fish_slot p b e.at_prelude
        d ← run_next p c e.at_start
        r ← receive (fish_slot_handler p) d e.arrivals
        run_next p r.0 e.at_end)
      (slot_end-Chosen p t a e.at_slot_end laws n h f.power f.slot_ends_after f.slot_ends_before)
      (λ b (next, role, on, chosen).
        Succeeds-bind (FishesOn p fish_slot_start b) Q (to_fish_slot p b e.at_prelude)
          (λ c. do
            d ← run_next p c e.at_start
            r ← receive (fish_slot_handler p) d e.arrivals
            run_next p r.0 e.at_end)
          (prepared-FishesOn p b e.at_prelude next)
          (λ c (w, role', on', times, fish).
            in_session-IsFished p a.schedule t c e laws f w (role' ∙ role) (on' ∙ on)
              (ap (λ g. g.troll) fish ∙ chosen)))
