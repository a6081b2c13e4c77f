-- ===== src/Agent/Behaviour/Agreement.antt =====
-- Which clique a unit is in, by all the sync messages that it has heard. Code: src/messageHandler,
-- src/task, src/modules/syncBehaviour.cpp, src/clique/cliqueRoles.cpp, cliqueReversion.cpp and
-- cliqueScatter.cpp.
use mathlib.Core.List.{Mem, Mem-prop, mem-cons, mem-cons_of_mem, mem-cons_self, not-mem-nil}
use mathlib.Core.Logic.Or
use mathlib.Mathlib.Data.Multiset.Defs.{Multiset, of_list}
use mathlib.Mathlib.Data.Multiset.Fold as Multiset
use native.Mathlib.Bridge.{le_prop}
use native.Mathlib.Nat.{ℕ_set}
use sleep_sync_agent.Agent.{Agent, Platform, Task, power_reserve_check}
use sleep_sync_agent.Agent.Behaviour.FishSlotHandler.{handle_in_fish_slot}
use sleep_sync_agent.Agent.Behaviour.Lesser.{
  handle_in_fish_slot-lesser, handle_in_sync_slot-lesser, lesser, missed-keeps, told-KeepsOrOwns,
}
use sleep_sync_agent.Agent.Behaviour.SyncSlotHandler.{HandlingResult, handle_in_sync_slot}
use sleep_sync_agent.Agent.Receiver.Invariant.{
  handle_in_fish_slot-HandledSoundly, handle_in_sync_slot-HandledSoundly,
}
use sleep_sync_agent.Agent.Receiver.Steps.{HandledSoundly, IsSound, SoundIfOk}
use sleep_sync_agent.Agent.SyncSlot.{Answers}
use sleep_sync_agent.Agent.Tasks.{run}
use sleep_sync_agent.Agent.Tasks.Sound.Master.{KeepsOrOwns, run-KeepsOrOwns}
use sleep_sync_agent.Agent.Tasks.Sound.Running.{run-SoundIfOk}
use sleep_sync_agent.Base.{
  Bool, List, [], ap, arith, false, if◌then◌else◌, inl, ltb, ok, refl, subst, true, ℕ, ◌↔◌, ◌∙◌,
  ◌∷◌, ◌≡◌, ◌≢◌, ◌≤◌, ◌⊎◌,
}
use sleep_sync_agent.Message.{SyncMessage, master_sync, work_sync}

-- A task of the loop, or a message that is no master or work sync.
pub data Step (p : Platform) (a b : Agent) : Type 0 where
  ran :
      (v : Answers) (task : Task) → task ≢ power_reserve_check → run p a v task ≡ ok b → Step p a b
  told :
      (msg : SyncMessage) (toa now random_offset : ℕ) (result : HandlingResult)
      → msg.type ≢ master_sync
      → msg.type ≢ work_sync
      → handle_in_sync_slot p a msg toa now random_offset ≡ ok (b, result)
      → Step p a b
  missed :
      (msg : SyncMessage) (toa : ℕ) (result : HandlingResult)
      → msg.type ≢ master_sync
      → msg.type ≢ work_sync
      → handle_in_fish_slot p a msg toa ≡ ok (b, result)
      → Step p a b

-- What a unit knows after any tasks and messages: the clique that it was in at first, and the master
-- IDs of the master and work syncs that it has heard since, in sync and fish slots. It forgets them,
-- and starts from its own ID, where another step takes it out of its clique.
pub data Hears (p : Platform) (a : Agent) : ℕ → List ℕ → Agent → Type 0 where
  silence : Hears p a a.clique_master_id [] a
  sync :
      {b c : Agent} {first : ℕ} {ids : List ℕ} (msg : SyncMessage) (toa now random_offset : ℕ)
      (result : HandlingResult)
      → (msg.type ≡ master_sync) ⊎ (msg.type ≡ work_sync)
      → Hears p a first ids b
      → handle_in_sync_slot p b msg toa now random_offset ≡ ok (c, result)
      → Hears p a first (msg.master_id ∷ ids) c
  caught :
      {b c : Agent} {first : ℕ} {ids : List ℕ} (msg : SyncMessage) (toa : ℕ)
      (result : HandlingResult)
      → (msg.type ≡ master_sync) ⊎ (msg.type ≡ work_sync)
      → Hears p a first ids b
      → handle_in_fish_slot p b msg toa ≡ ok (c, result)
      → Hears p a first (msg.master_id ∷ ids) c
  stayed :
      {b c : Agent} {first : ℕ} {ids : List ℕ}
      → Hears p a first ids b
      → Step p b c
      → c.clique_master_id ≡ b.clique_master_id
      → Hears p a first ids c
  left :
      {b c : Agent} {first : ℕ} {ids : List ℕ}
      → Hears p a first ids b
      → Step p b c
      → c.clique_master_id ≢ b.clique_master_id
      → Hears p a p.system_id [] c

pub lesser_comm : (x y z : ℕ) → lesser x (lesser y z) ≡ lesser y (lesser x z)
lesser_comm x y z = ground arith

-- The abstract view of a unit: the master IDs that it has heard, in no order, and the first one. The
-- best is the least.
pub best : ℕ → Multiset ℕ → ℕ
best = Multiset.foldr ℕ_set lesser lesser_comm

Step-KeepsOrOwns : {p : Platform} {a b : Agent} → IsSound p a → Step p a b → KeepsOrOwns p a (ok b)
Step-KeepsOrOwns {p} {a} w (ran v task n e) =
    subst (KeepsOrOwns p a) e (run-KeepsOrOwns p a v task w n)
Step-KeepsOrOwns {p} {a} {b} w (told msg toa now random_offset result m k e) =
    told-KeepsOrOwns p a b msg toa now random_offset result m k e
Step-KeepsOrOwns {p} {a} {b} w (missed msg toa result m k e) =
    inl (ap (λ c. c.clique_master_id) (missed-keeps p a b msg toa result m k e))

Step-IsSound : {p : Platform} {a b : Agent} → IsSound p a → Step p a b → IsSound p b
Step-IsSound {p} {a} w (ran v task n e) = subst (SoundIfOk p) e (run-SoundIfOk p a v task w n)
Step-IsSound {p} {a} w (told msg toa now random_offset result m k e) =
    subst (HandledSoundly p) e (handle_in_sync_slot-HandledSoundly p a msg toa now random_offset w)
Step-IsSound {p} {a} w (missed msg toa result m k e) =
    subst (HandledSoundly p) e (handle_in_fish_slot-HandledSoundly p a msg toa w)

-- A sound unit stays sound.
Hears-IsSound :
    {p : Platform} {a c : Agent} {first : ℕ} {ids : List ℕ}
    → IsSound p a
    → Hears p a first ids c
    → IsSound p c
Hears-IsSound v silence = v
Hears-IsSound {p} v (sync {b = b} msg toa now random_offset result t h e) =
    subst (HandledSoundly p) e
      (handle_in_sync_slot-HandledSoundly p b msg toa now random_offset (Hears-IsSound v h))
Hears-IsSound {p} v (caught {b = b} msg toa result t h e) =
    subst (HandledSoundly p) e (handle_in_fish_slot-HandledSoundly p b msg toa (Hears-IsSound v h))
Hears-IsSound v (stayed h s e) = Step-IsSound (Hears-IsSound v h) s
Hears-IsSound v (left h s n) = Step-IsSound (Hears-IsSound v h) s

-- Over any tasks of the loop and any messages, a sound unit is in the clique of the least of the
-- master IDs of the master and work syncs that it has heard, in its sync and fish slots and in any
-- order, and of the clique that it was in at first: no more is needed than the multiset of the IDs.
-- Where a task or another message takes it out of its clique, it starts again from its own ID.
pub Hears-best :
    {p : Platform} {a c : Agent} {first : ℕ} {ids : List ℕ}
    → IsSound p a
    → Hears p a first ids c
    → c.clique_master_id ≡ best first (of_list ids)
unfolding best Multiset.foldr
Hears-best v silence = refl
Hears-best {p} {c = c} v (sync {b = b} msg toa now random_offset result t h e) =
    ground
      (arith, handle_in_sync_slot-lesser p b c msg toa now random_offset result t e, Hears-best v h)
Hears-best {p} {c = c} v (caught {b = b} msg toa result t h e) =
    ground (arith, handle_in_fish_slot-lesser p b c msg toa result t e, Hears-best v h)
Hears-best v (stayed h s e) = e ∙ Hears-best v h
Hears-best v (left h s n) = ground (arith, Step-KeepsOrOwns (Hears-IsSound v h) s)

best-own : (x : ℕ) (ids : List ℕ) → best x (of_list ids) ≤ x
unfolding best Multiset.foldr
best-own x [] = omega arith
best-own x (y ∷ ids) = ground (arith, best-own x ids)

best-heard : (x y : ℕ) (ids : List ℕ) → Mem y ids → best x (of_list ids) ≤ y
unfolding best Multiset.foldr
best-heard x y [] m = absurd (not-mem-nil m)
best-heard x y (z ∷ ids) m =
    Or.elim le_prop (mem-cons.0 m) (λ e. ground arith) (λ m'. ground (arith, best-heard x y ids m'))

best-known : (x y : ℕ) (ids : List ℕ) → Mem y (x ∷ ids) → best x (of_list ids) ≤ y
best-known x y ids m =
    Or.elim le_prop (mem-cons.0 m) (λ e. ground (arith, best-own x ids)) (best-heard x y ids)

inserted-Mem : (x y z : ℕ) (ids : List ℕ) → Mem z (x ∷ ids) → Mem z (x ∷ y ∷ ids)
inserted-Mem x y z ids m =
    Or.elim Mem-prop (mem-cons.0 m) (λ e. mem-cons.1 ∣ inl e ∣₁)
      (λ m'. mem-cons_of_mem x (mem-cons_of_mem y m'))

chosen-Mem :
    (x y z : ℕ) (ids : List ℕ) (choice : Bool)
    → Mem z (x ∷ ids)
    → Mem (if choice then y else z) (x ∷ y ∷ ids)
chosen-Mem x y z ids true m = mem-cons_of_mem x mem-cons_self
chosen-Mem x y z ids false m = inserted-Mem x y z ids m

best-Mem : (x : ℕ) (ids : List ℕ) → Mem (best x (of_list ids)) (x ∷ ids)
unfolding best Multiset.foldr
best-Mem x [] = mem-cons_self
best-Mem x (y ∷ ids) =
    let z = best x (of_list ids) in chosen-Mem x y z ids (ltb y z) (best-Mem x ids)

-- Two sound units that know the same master IDs are in the same clique: those that they have heard
-- in sync and fish slots, in whatever order and however often, since the start or since they last
-- started again from their own, and the one that they had then.
pub Hears-agree :
    {p q : Platform} {a b c d : Agent} {first other : ℕ} {ids others : List ℕ}
    → IsSound p a
    → IsSound q b
    → Hears p a first ids c
    → Hears q b other others d
    → ((id : ℕ) → Mem id (first ∷ ids) ↔ Mem id (other ∷ others))
    → c.clique_master_id ≡ d.clique_master_id
Hears-agree {first = first} {other = other} {ids = ids} {others = others} v w h k same =
    let x = best first (of_list ids) in
    let y = best other (of_list others) in
    ground (
      arith,
      Hears-best v h,
      Hears-best w k,
      best-known other x others ((same x).0 (best-Mem first ids)),
      best-known first y ids ((same y).1 (best-Mem other others)),
    )
