-- ===== src/Lib.antt =====
-- SleepSyncAgent: a library by which units with a radio that sleeps most of the time keep their
-- sync slots at the same time, in cliques that each follow one master.
--
-- A unit lives through sync periods of 80000 ticks. At the start of each is a sync slot, in which a
-- master sends, or any unit listens for, the offset to the next sync point. In the rest of the period
-- a unit with enough power fishes one session for other cliques, merges a clique that it caught, or
-- is provisioned. The clique with the lesser master ID is the better one.
--
-- How the files follow the code (paths are those of the repository):
--   Base          Boolean tests, machine words, and `Checked`, the result of code with assertions:
--                 `failed` is an assertion that did not hold, `Succeeds P` says that none failed.
--   Params        the constants of src/scheduleParameters.h, src/physicalParameters.h,
--                 src/policy/policyParameters.h and src/fishPolicy/fishingParameters.h.
--   TimeMath      the clock arithmetic of embeddedMath and radioSoC, which are other repositories: a
--                 record of functions, with their documented laws as the hypothesis `TimeLaws`.
--   Schedule      src/clique/schedule.cpp: start, unadjusted end and end of the period as a record;
--                 `SyncOffset` is src/modules/syncOffset.cpp.
--   Network       src/network/granularity.cpp and sendRepeater.cpp.
--   Message       src/message: types, fields, factory and serializer. A buffer is a function from
--                 indices to bytes.
--   Fishing       src/fishPolicy and src/slots/fishing: session, trolling, deep fishing, the manager
--                 and the times of a session.
--   Clique        src/cliqueHistory, src/policy/dropoutMonitor.cpp and src/policy/syncPolicy.
--   Agent         the state of a whole unit, one record for the file-level variables of all parts.
--     Mastership, Reversion   src/clique: who is master, dropout, reversion, scatter.
--     Roles, Merging          src/cliqueMerger, src/slots/merge, src/syncAgentImp/syncAgentRole.cpp.
--     Modes                   src/syncAgentImp/state/syncMode.cpp and the power it depends on.
--     Control                 src/network/intraCliqueManager.cpp, topology.cpp, provisioners.
--     Behaviour               src/modules/syncBehaviour.cpp and the handlers of src/messageHandler.
--     Sender                  src/modules/syncSender.cpp.
--     Receiver                src/receiver/receiver.cpp, src/messageHandler/messageDispatcher.cpp. What
--                             arrives in one slot is a list of packets, each with what the radio, the
--                             clock and Random hold when it is dispatched.
--     Provisioning            src/provisioning, src/network/topologyProvisioner.cpp: the table of
--                             callbacks is a function from indices.
--     SyncSchedule, SyncSlot  src/schedule, src/slots/sync, src/slots/syncing.
--     Tasks                   src/task: a function per task; what TaskTimer::schedule is given is
--                             recorded, newest first. `Graph` and `Chain` are about which task
--                             follows which; `SyncPeriod` and `FishPeriod` run the tasks, and what is
--                             heard between them, one after the other as they schedule each other;
--                             `Exchange` runs the periods of two units, the packet of the one being
--                             what the other one hears.
--     Life                    tasks, packets and provisionings of one unit, in any order.
--   Former        src/sleepingSlots and src/sleepers/cruft, the design that the tasks replaced: one
--                 thread that sleeps from one act to the next. A sleep is given what wakes the unit
--                 before its timer expires.
--   Examples      concrete units, and one application of each property.
-- A function has the name of the source's function in snake case. It takes the part of the state
-- that the source's function touches and returns it changed, with the result beside it. The readings
-- of the clock, times of arrival, random numbers, power levels, alarms and the app's mail are
-- arguments; within one task or handler the clock is read once.
--
-- Numbers: LongTime is 64 bits wide, DeltaTime and counters 32, IDs on the air 48; the wrap is
-- written out, and times near its end (from 2^63 on) are excluded by hypotheses where it would
-- matter. The build modelled defines LEAST_ID_IS_BETTER_CLIQUE and LOW_PRIORITY_WORK_Voc3_6, and not
-- RANGE_FILTERING; the chip and the presence of a softdevice are parameters. Loops over slots and
-- periods are by recursion on the list or number of them, so that no fuel is needed.
--
-- Not modelled: the radio, timers and the softdevice (other libraries), logging, the facade, and
-- of the former design the period that provisions and the slots that nothing calls. Of the alarming
-- clock of the transmit policy only the calls are recorded, of the app's callbacks those
-- for work.
pub mod Base
pub mod Params
pub mod TimeMath
pub mod Schedule
pub mod Network
pub mod Message
pub mod Fishing
pub mod Former
pub mod Clique
pub mod Agent
pub mod Examples
