-- ===== src/Android/State/Examples.antt =====
-- Changes of the state at concrete values.
use soundwave.Base.{◌≡◌, arith, true, false}
use soundwave.Base.Int.{pos, negsuc, ◌+ℤ◌, ◌≤ℤ◌}
use soundwave.Android.Device.{reset}
use soundwave.Android.State.{
  connected, failed, raw, SharedState, fresh, set, add_volume_adjustment, clamp,
}
use soundwave.Android.State.Updates.{set_lem, add_volume_adjustment_lem}

abbrev active : SharedState
active = record fresh {
  state = connected;
  audio_active = true;
  revision = 4;
  volume_adjustment = negsuc 94;
}

set_lem_example : set failed active ≡ record active {
  state = failed;
  audio_active = false;
  volume_adjustment = pos 0;
  device = reset active.device;
  revision = 6;
}
unfolding raw
set_lem_example = set_lem failed active (omega arith)

add_volume_adjustment_lem_example :
    let s' = add_volume_adjustment (negsuc 9) active in
    (s'.volume_adjustment ≡ clamp (negsuc 99) (pos 100) (negsuc 94 +ℤ negsuc 9))
    × (negsuc 99 ≤ℤ s'.volume_adjustment)
    × (s'.volume_adjustment ≤ℤ pos 100)
    × (s'.revision ≡ 5)
add_volume_adjustment_lem_example =
    add_volume_adjustment_lem (negsuc 9) active (omega arith) (omega arith) (omega arith)
      (omega arith)
