-- ===== src/Agent/Provisioning/Published.antt =====
-- What a provisioning comes to. Code: src/provisioning, src/network/topologyProvisioner.cpp,
-- src/schedule/syncSchedule.cpp.

use sleep_sync_agent.Agent.{Agent, Platform}
use sleep_sync_agent.Agent.Control.{
  do_downstream_clique_size_change, do_downstream_scatter, do_upstream_clique_size_change,
  do_upstream_scatter, do_upstream_work_cycle, do_upstream_work_time,
  handle_net_granularity_provisioning, handle_scatter_provisioning, provision_work_cycle,
  provision_work_time,
}
use sleep_sync_agent.Agent.Provisioning.{
  ProvisionedValue, Publisher, calculate_elapsed_sync_periods, fail, mangle_provisioned_value,
  notify, ppi_from_raw_ppi, subscribe_to_provisionings, succeed,
}
use sleep_sync_agent.Agent.SyncSchedule.{schedule_provision_end}
use sleep_sync_agent.Agent.Tasks.OneNext.{OneNext}
use sleep_sync_agent.Base.{
  Checked, Option, arith, failed, if◌then◌else◌, none, ok, refl, some, true, ℕ, ◌*◌, ◌+◌, ◌<◌, ◌==◌,
  ◌^◌, ◌≡◌, ◌≤◌,
}
use sleep_sync_agent.Params.{normal_sync_period_duration, ticks_per_second}

-- The periods that have elapsed are those of a time that is a fraction, of 255 parts, of ten
-- seconds: at most four.
calculate_elapsed_sync_periods-bounds :
    (offset : ℕ)
    → offset < 2 ^ 8
    → let elapsed = calculate_elapsed_sync_periods offset in
      (elapsed ≤ 4)
      × (elapsed * normal_sync_period_duration * 255 ≤ offset * (10 * ticks_per_second))
      × (offset * (10 * ticks_per_second) < (elapsed + 1) * normal_sync_period_duration * 255)
unfolding calculate_elapsed_sync_periods
calculate_elapsed_sync_periods-bounds offset h = ground arith

-- What a provisioned property asks for.
abbrev pub asked_for : Platform → (ℕ → ℕ) → Agent → ProvisionedValue → Option Agent
asked_for p convert a v =
    if v.index == 0
    then some (provision_work_time p convert a (calculate_elapsed_sync_periods v.offset))
    else if v.index == 1
    then some (handle_scatter_provisioning p a)
    else if v.index == 2
    then some (provision_work_cycle p a v.value)
    else if v.index == 3
    then some (handle_net_granularity_provisioning p a v.value)
    else if v.index == 4
    then some a
    else none

abbrev then_ends : Option Agent → Checked Agent
then_ends (some b) = ok (schedule_provision_end b)
then_ends none = failed

-- Over any table of callbacks, once the two provisioners have subscribed: no subscription fails an
-- assertion, and what the provisioner then reports is handled by the handler of its property, after
-- which the end of the provisioning is scheduled. The first index behind the four properties only
-- does the latter, a greater one fails an assertion.
pub succeed_lem :
    (p : Platform) (convert : ℕ → ℕ) (before : Publisher) (a : Agent) (v : ProvisionedValue)
    (rssi : ℕ)
    → (publisher : Publisher) × (subscribe_to_provisionings before ≡ ok publisher)
      × (succeed p convert publisher a v rssi ≡ then_ends (asked_for p convert a v))
unfolding subscribe_to_provisionings succeed ppi_from_raw_ppi mangle_provisioned_value notify
succeed_lem p convert before a v rssi = (_, refl, ground arith)

-- However a provisioning that was started ends, over any table of callbacks: where no assertion
-- fails, one more task is scheduled, and the prelude is left as it needs it.
pub provisioned-OneNext :
    (p : Platform) (convert : ℕ → ℕ) (publisher : Publisher) (a : Agent) (v : ProvisionedValue)
    (rssi : ℕ)
    → a.is_prelude_started ≡ true
    → OneNext a (succeed p convert publisher a v rssi) × OneNext a (ok (fail a))
unfolding succeed notify fail provision_work_time provision_work_cycle
    handle_net_granularity_provisioning handle_scatter_provisioning do_downstream_clique_size_change
    do_upstream_clique_size_change do_downstream_scatter do_upstream_scatter do_upstream_work_time
    do_upstream_work_cycle schedule_provision_end
provisioned-OneNext p convert publisher a v rssi h = ground arith
