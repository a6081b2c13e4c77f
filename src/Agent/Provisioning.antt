-- ===== src/Agent/Provisioning.antt =====
-- src/provisioning/provisioningPublisher.cpp, provisionerCallback.cpp, provisionSchedule.cpp,
-- workProvisioner.cpp and src/network/topologyProvisioner.cpp: from what the provisioner reports to
-- the handler that has subscribed to it. `convert` is the app's converter of elapsed periods.

pub mod Published
use sleep_sync_agent.Agent.{Agent, Platform}
use sleep_sync_agent.Agent.Control.{
  handle_net_granularity_provisioning, handle_scatter_provisioning, provision_work_cycle,
  provision_work_time,
}
use sleep_sync_agent.Agent.SyncSchedule.{schedule_provision_end}
use sleep_sync_agent.Base.{
  Bool, Checked, Option, check, failed, false, if◌then◌else◌, ltb, none, ok, some, u32, ℕ, ◌*◌, ◌/◌,
  ◌==◌, ◌>>=◌, ◌>>◌,
}
use sleep_sync_agent.Params.{normal_sync_period_duration, ticks_per_second}

-- What the provisioner has received: single bytes.
pub record ProvisionedValue : Type 0 where
  pub index : ℕ
  pub value : ℕ
  pub offset : ℕ

-- A raw index is cast, so that the type also has the numbers behind its last name.
pub data ProvisionablePropertyIndex : Type 0 where
  work_time_property scatter_property : ProvisionablePropertyIndex
  work_cycle_property net_granularity_property : ProvisionablePropertyIndex
  invalid_property : ProvisionablePropertyIndex
  garbled_property : ℕ → ProvisionablePropertyIndex

pub ppi_from_raw_ppi : ℕ → ProvisionablePropertyIndex
ppi_from_raw_ppi n =
    if n == 0
    then work_time_property
    else if n == 1
    then scatter_property
    else if n == 2
    then work_cycle_property
    else if n == 3
    then net_granularity_property
    else if n == 4
    then invalid_property
    else garbled_property n

abbrev pub raw_property_index : ProvisionablePropertyIndex → ℕ
raw_property_index work_time_property = 0
raw_property_index scatter_property = 1
raw_property_index work_cycle_property = 2
raw_property_index net_granularity_property = 3
raw_property_index invalid_property = 4
raw_property_index (garbled_property n) = n

-- The functions that are given to the publisher.
pub data ProvisionCallback : Type 0 where
  provision_work_time_callback provision_work_cycle_callback : ProvisionCallback
  handle_net_granularity_callback handle_scatter_callback : ProvisionCallback

-- provisioningCallbacks; `none` is the null pointer.
abbrev pub Publisher : Type 0
Publisher = ℕ → Option ProvisionCallback

abbrev pub initial_publisher : Publisher
initial_publisher = λ index. none

pub calculate_elapsed_sync_periods : ℕ → ℕ
calculate_elapsed_sync_periods offset_time =
    let ticks_elapsed = u32 (10 * offset_time * ticks_per_second) / 255 in
    ticks_elapsed / normal_sync_period_duration

abbrev should_filter : ℕ → Bool
should_filter rssi = false

pub mangle_provisioned_value : ProvisionablePropertyIndex → ProvisionedValue → Checked ℕ
unfolding calculate_elapsed_sync_periods
mangle_provisioned_value work_time_property v = ok (calculate_elapsed_sync_periods v.offset)
mangle_provisioned_value scatter_property v = ok v.value
mangle_provisioned_value work_cycle_property v = ok v.value
mangle_provisioned_value net_granularity_property v = ok v.value
mangle_provisioned_value _ v = failed

pub subscribe : Publisher → ProvisionablePropertyIndex → ProvisionCallback → Checked Publisher
subscribe publisher property callback = do
  check (ltb (raw_property_index property) 4)
  ok (λ index. if index == raw_property_index property then some callback else publisher index)

-- NetTopologyProvisioner::subscribeToProvisionings
pub subscribe_topology : Publisher → Checked Publisher
unfolding subscribe
subscribe_topology publisher = do
  q ← subscribe publisher net_granularity_property handle_net_granularity_callback
  subscribe q scatter_property handle_scatter_callback

-- WorkProvisioner::subscribeToProvisionings
pub subscribe_work : Publisher → Checked Publisher
unfolding subscribe
subscribe_work publisher = do
  q ← subscribe publisher work_time_property provision_work_time_callback
  subscribe q work_cycle_property provision_work_cycle_callback

-- The part of SyncAgentImp::init under SOFTDEVICE_PRESENT.
pub subscribe_to_provisionings : Publisher → Checked Publisher
unfolding subscribe_topology subscribe_work
subscribe_to_provisionings publisher = do q ← subscribe_topology publisher; subscribe_work q

call_callback : Platform → (ℕ → ℕ) → Agent → ProvisionCallback → ℕ → Agent
call_callback p convert a provision_work_time_callback value = provision_work_time p convert a value
call_callback p convert a provision_work_cycle_callback value = provision_work_cycle p a value
call_callback p convert a handle_net_granularity_callback value =
    handle_net_granularity_provisioning p a value
call_callback p convert a handle_scatter_callback value = handle_scatter_provisioning p a

-- A null pointer fails an assertion.
call_if : Platform → (ℕ → ℕ) → Agent → Option ProvisionCallback → ℕ → Checked Agent
unfolding call_callback
call_if p convert a none value = failed
call_if p convert a (some callback) value = ok (call_callback p convert a callback value)

-- ProvisioningPublisher::notify
pub notify :
    Platform
    → (ℕ → ℕ)
    → Publisher
    → Agent
    → ProvisionablePropertyIndex
    → ProvisionedValue
    → ℕ
    → Checked Agent
unfolding call_if
notify p convert publisher a property v rssi = if should_filter rssi then ok a else (do
  converted ← mangle_provisioned_value property v
  call_if p convert a (publisher (raw_property_index property)) converted)

-- ProvisionerCallback::succeed
pub succeed : Platform → (ℕ → ℕ) → Publisher → Agent → ProvisionedValue → ℕ → Checked Agent
unfolding notify schedule_provision_end
succeed p convert publisher a v rssi = do
  b ← elim (ppi_from_raw_ppi v.index) [
    | invalid_property ↦ ok a
    | property ↦ notify p convert publisher a property v rssi
  ]
  ok (schedule_provision_end b)

-- ProvisionerCallback::fail
pub fail : Agent → Agent
unfolding schedule_provision_end
fail a = schedule_provision_end a
