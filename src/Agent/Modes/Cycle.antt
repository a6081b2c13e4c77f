-- ===== src/Agent/Modes/Cycle.antt =====
-- How a unit goes through its modes while the power stays, and when it is lost. Code:
-- src/syncAgentImp/state/syncMode.cpp, src/provisioning/provisionManager.cpp.
use native.Mathlib.Nat.{zero-add}
use native.Mathlib.Omega.{arith}
use Prim.Native.Nat.{zero, suc}
use sleep_sync_agent.Agent.{
  Agent, Platform, SyncMode, maintain, sync_and_fish_merge, sync_and_provision, sync_only,
}
use sleep_sync_agent.Agent.Merging.{deactivate, to_no_fishing_from_other}
use sleep_sync_agent.Agent.Modes.{
  PowerReading, check_power_and_try_mode_transitions, should_provision,
}
use sleep_sync_agent.Agent.Roles.{to_fisher, to_no_fishing}
use sleep_sync_agent.Base.{ap, false, subst, sym, true, ℕ, ◌*◌, ◌+◌, ◌≡◌, ◌≤◌, ◌⊎◌}

-- The modes in a line: a transition goes from one to the next, or stays.
abbrev pub rank : SyncMode → ℕ
rank maintain = 0
rank sync_only = 1
rank sync_and_fish_merge = 2
rank sync_and_provision = 3

-- At any power, a transition changes the rank of the mode by at most one, except that the
-- provisioning mode may drop to syncing only.
pub transition-adjacent :
    (p : Platform) (a : Agent) (v : PowerReading)
    → let b = check_power_and_try_mode_transitions p a v in
      (rank b.mode ≤ rank a.mode + 1)
      × ((rank a.mode ≤ rank b.mode + 1) ⊎ ((a.mode ≡ sync_and_provision) × (b.mode ≡ sync_only)))
unfolding check_power_and_try_mode_transitions to_no_fishing_from_other to_fisher deactivate
    to_no_fishing
transition-adjacent p a v = ground arith

-- What n calls of the check in a row do, at the same power. The preludes of sync slots call it, but
-- a period that starts with the prelude of the slot before it does not.
pub transitions : Platform → PowerReading → ℕ → Agent → Agent
transitions p v zero a = a
transitions p v (suc n) a = transitions p v n (check_power_and_try_mode_transitions p a v)

maintain-stays :
    (p : Platform) (a : Agent) (v : PowerReading) (n : ℕ)
    → v.is_above_ultra_low ≡ false
    → a.mode ≡ maintain
    → (transitions p v n a).mode ≡ maintain
unfolding transitions check_power_and_try_mode_transitions
maintain-stays p a v zero l m = m
maintain-stays p a v (suc n) l m =
    maintain-stays p (check_power_and_try_mode_transitions p a v) v n l (ground arith)

down_twice :
    (p : Platform) (a : Agent) (v : PowerReading)
    → v.is_above_ultra_low ≡ false
    → v.is_above_medium ≡ false
    → (transitions p v 2 a).mode ≡ maintain
unfolding transitions check_power_and_try_mode_transitions to_no_fishing_from_other deactivate
    to_no_fishing
down_twice p a v l h = ground arith

suc_shift : (m n : ℕ) → suc (m + n) ≡ suc m + n
suc_shift m n = omega arith

transitions-+ :
    (p : Platform) (v : PowerReading) (m n : ℕ) (a : Agent)
    → transitions p v (m + n) a ≡ transitions p v n (transitions p v m a)
unfolding transitions
transitions-+ p v zero n a = ap (λ k. transitions p v k a) (zero-add n)
transitions-+ p v (suc m) n a =
    subst (λ k. transitions p v k a ≡ transitions p v n (transitions p v (suc m) a)) (suc_shift m n)
      (transitions-+ p v m n (check_power_and_try_mode_transitions p a v))

-- While there is no power for syncing or fishing, a unit in any mode is in the mode that only
-- maintains its schedule from the second call of the check of power on. Where the prelude is already done, a
-- period has no such call.
pub power_loss-maintain :
    (p : Platform) (a : Agent) (v : PowerReading) (n : ℕ)
    → v.is_above_ultra_low ≡ false
    → v.is_above_medium ≡ false
    → (transitions p v (2 + n) a).mode ≡ maintain
power_loss-maintain p a v n l h =
    subst (λ b. b.mode ≡ maintain) (sym (transitions-+ p v 2 n a))
      (maintain-stays p (transitions p v 2 a) v n l (down_twice p a v l h))

seven_checks :
    (p : Platform) (a : Agent) (v : PowerReading)
    → p.softdevice_present ≡ true
    → v.is_above_medium ≡ true
    → a.mode ≡ sync_and_fish_merge
    → a.provision_counter ≡ 0
    → transitions p v 7 a ≡ a
unfolding transitions check_power_and_try_mode_transitions should_provision
seven_checks p a v s m f z = ground arith

sixth :
    (p : Platform) (a : Agent) (v : PowerReading)
    → p.softdevice_present ≡ true
    → v.is_above_medium ≡ true
    → a.mode ≡ sync_and_fish_merge
    → a.provision_counter ≡ 0
    → (transitions p v 6 a).mode ≡ sync_and_provision
unfolding transitions check_power_and_try_mode_transitions should_provision
sixth p a v s m f z = ground arith

-- While there is power to fish, and with a softdevice, a fishing unit whose provisioning counter is
-- at its start is in the provisioning mode after six calls of the check of power, and again after
-- every seven more. Where the prelude is already done, a period has no such call.
pub provisions_every_seventh :
    (p : Platform) (a : Agent) (v : PowerReading) (k : ℕ)
    → p.softdevice_present ≡ true
    → v.is_above_medium ≡ true
    → a.mode ≡ sync_and_fish_merge
    → a.provision_counter ≡ 0
    → (transitions p v (7 * k + 6) a).mode ≡ sync_and_provision
provisions_every_seventh p a v zero s m f z = sixth p a v s m f z
provisions_every_seventh p a v (suc k) s m f z =
    subst (λ n. (transitions p v n a).mode ≡ sync_and_provision) (omega arith)
      (subst (λ b. b.mode ≡ sync_and_provision) (sym (transitions-+ p v 7 (7 * k + 6) a))
        (subst (λ b. (transitions p v (7 * k + 6) b).mode ≡ sync_and_provision)
          (sym (seven_checks p a v s m f z)) (provisions_every_seventh p a v k s m f z)))
