-- ===== src/Fishing/DeepFishing/Termination.antt =====
-- How long deep fishing lasts. Code: src/fishPolicy/deepFishingPolicy.cpp.

use sleep_sync_agent.Base.{Checked, List, Option, [], failed, none, ok, some, ◌>>=◌, ◌∷◌}
use sleep_sync_agent.Fishing.DeepFishing.{
  DeepFishing, DoneCallback, check_done, get_start_time_to_fish,
}
use sleep_sync_agent.Schedule.{Schedule}

-- What one sync period of deep fishing does to the policy: the start time is asked for, the slot
-- is fished without a catch, and the end of the slot checks whether fishing is done.
pub fish_once : DeepFishing → Schedule → Checked (DeepFishing × Option DoneCallback)
fish_once d s = do
  let (fished, _) = get_start_time_to_fish d s
  done ← check_done fished
  ok (fished, done)

or_else :
    Checked (DeepFishing × Option DoneCallback)
    → (DeepFishing → Checked (Option DoneCallback))
    → Checked (Option DoneCallback)
or_else failed more = failed
or_else (ok (d, some f)) more = ok (some f)
or_else (ok (d, none)) more = more d

-- The callback that is called within these periods, if any is.
pub fish_periods : List Schedule → DeepFishing → Checked (Option DoneCallback)
unfolding or_else
fish_periods [] d = ok none
fish_periods (s ∷ rest) d = or_else (fish_once d s) (λ fished. fish_periods rest fished)
