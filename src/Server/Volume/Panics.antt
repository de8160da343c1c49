-- ===== src/Server/Volume/Panics.antt =====
-- windows-server/src/application/volume_control.rs: whether `tick` panics.
use soundwave.Base.{
  ℕ, ◌≡◌, refl, arith, List, [], ◌∷◌, Bool, true, false, not, ◌&&◌, ◌||◌, Option, none, some,
  is_some, map, filter_by, if◌then◌else◌, All,
}
use soundwave.Base.BTreeMap
use soundwave.Base.BTreeMap.{BTreeMap}
use soundwave.Protocol.Control.{DeviceStatus}
use soundwave.Server.Registry.{Controls, Registry, ReceiverSnapshot, snapshots}
use soundwave.Server.Registry.Device.{has_panel_barrier, take_unsolicited_volume}
use soundwave.Server.Profiles.{
  Profile, current, participating, nearest, is_shared, master_range, abs_diff, available,
}
use soundwave.Server.Profiles.Nearest.{IsLeast, min_by_key-IsLeast}
use soundwave.Server.Volume.{Disk, Controller, matches_snapshot, devices_of}
use soundwave.Server.Volume.Asking.{denied}
use soundwave.Server.Volume.Driving.{seen_device, fence_at}
use soundwave.Server.Volume.Ticking.{
  follow, with_master, with_masters, with_profile, retain_ids, after_review, tick, requested_volume,
}
use soundwave.Server.Registry.Step.{Reached}
use soundwave.Server.Registry.Safety.{Reached-IsAscending}
use soundwave.Server.Volume.Reviewing.{reviewed, review}
use soundwave.Server.Volume.Total.{
  IsShared, find-filter_by, matching-seen, matching-device, follow_at-total,
}

All-same : (xs : List ℕ) → All (λ (x : ℕ). x ≡ x) xs
All-same [] = tt
All-same (x ∷ xs) = (refl, All-same xs)

least-IsShared :
    (p : Profile) (part : List (List ℕ)) (f : ℕ → ℕ) (xs : List ℕ) (o : Option ℕ)
    → IsLeast (is_shared p part) f (λ x. x ≡ x) xs o
    → IsShared p part o
least-IsShared p part f xs none h = tt
least-IsShared p part f xs (some index) h = h.1

nearest-IsShared :
    (p : Profile) (requested : ℕ) (part : List (List ℕ))
    → IsShared p part (nearest p requested part)
unfolding nearest available
nearest-IsShared p requested part =
    least-IsShared p part (λ index. abs_diff index requested) (master_range p) _
      (min_by_key-IsLeast (is_shared p part) (λ index. abs_diff index requested) (λ x. x ≡ x)
        (master_range p) (All-same (master_range p)))

module _ (c : Controls) where
  if-total :
      (b : Bool) (x y : Option (Controller c))
      → is_some x ≡ true
      → is_some y ≡ true
      → is_some (if b then x else y) ≡ true
  if-total true x y h k = h
  if-total false x y h k = k

  follow-total :
      (disk : Disk) (now : ℕ) (profile : Profile) (g : Registry c) (part : List (List ℕ))
      (master : ReceiverSnapshot c) (volume : ℕ) (w : Controller c) (x : Registry c × Option ℕ)
      → BTreeMap.IsAscending g.receivers
      → is_some (seen_device c (snapshots c g) master.id) ≡ true
      → is_some (follow c disk now profile (snapshots c g) part master volume w x) ≡ true
  follow-total disk now profile g part master volume w (g', unsolicited) a m =
      let requested = requested_volume c w.state.master_seen master.id profile.volume unsolicited in
      follow_at-total c disk now requested profile g part master.id _
        (nearest profile requested part) a m (nearest-IsShared profile requested part)

  with_master-total :
      (disk : Disk) (now : ℕ) (profile : Profile) (g : Registry c) (master : ReceiverSnapshot c)
      (w : Controller c) (o : Option DeviceStatus)
      → BTreeMap.IsAscending g.receivers
      → is_some (seen_device c (snapshots c g) master.id) ≡ true
      → is_some o ≡ true
      → is_some (with_master c disk now profile (snapshots c g) master w o) ≡ true
  with_master-total disk now profile g master w none a m h = h
  with_master-total disk now profile g master w (some device) a m h =
      let part = participating (devices_of c (snapshots c g)) profile in
      if-total
        ((w.state.needs_fence || has_panel_barrier c master.id w.registry)
          && not (BTreeMap.contains_key master.id w.state.pending))
        (some (
          fence_at c now master.id device.volume (denied c w)
            (nearest profile profile.volume part)))
        (follow c disk now profile (snapshots c g) part master device.volume w
          (take_unsolicited_volume c master.id w.registry))
        refl
        (follow-total disk now profile g (participating (devices_of c (snapshots c g)) profile)
          master device.volume w (take_unsolicited_volume c master.id w.registry) a m)

  with_masters-total :
      (disk : Disk) (now : ℕ) (profile : Profile) (g : Registry c) (w : Controller c)
      (masters : List (ReceiverSnapshot c))
      → BTreeMap.IsAscending g.receivers
      → filter_by (matches_snapshot c profile.master) (snapshots c g) ≡ masters
      → is_some (with_masters c disk now profile (snapshots c g) w masters) ≡ true
  with_masters-total disk now profile g w [] a e = refl
  with_masters-total disk now profile g w (master ∷ []) a e =
      let there = find-filter_by (matches_snapshot c profile.master) (snapshots c g) master [] e in
      with_master-total disk now profile g master w master.device a
        (matching-seen c profile.master g master a there)
        (matching-device c profile.master g master there)
  with_masters-total disk now profile g w (master ∷ other ∷ more) a e = refl

  with_profile-total :
      (disk : Disk) (now : ℕ) (g : Registry c) (w : Controller c) (o : Option Profile)
      → BTreeMap.IsAscending g.receivers
      → is_some (with_profile c disk now (snapshots c g) w o) ≡ true
  with_profile-total disk now g w none a = refl
  with_profile-total disk now g w (some profile) a =
      with_masters-total disk now profile g w
        (filter_by (matches_snapshot c profile.master) (snapshots c g)) a refl

  some_of : (o : Option (Controller c)) → is_some o ≡ true → (w : Controller c) × (o ≡ some w)
  some_of none h = absurd (ground arith)
  some_of (some w) h = (w, refl)

  -- Over a reachable registry `tick` does not panic: every receiver it drives was seen with a
  -- device, and every mapping has a point at the volume it looks up.
  pub tick_total :
      (disk : Disk) (now : ℕ) (w : Controller c)
      → Reached c w.registry
      → (w' : Controller c) × (tick c disk now w ≡ some w')
  unfolding tick
  tick_total disk now w h =
      let ids = map (λ s. s.id) (snapshots c w.registry) in
      let retained : Controller c = record w {
        state = record w.state { blocked = retain_ids c ids w.state.blocked };
      } in
      let next = reviewed c retained (review c now ids w.registry w.state.pending) in
      some_of _ (
        if-total w.state.editing (some (denied c w))
          (after_review c disk now (snapshots c w.registry) next) refl
          (with_profile-total disk now w.registry next (current next.state.library)
            (Reached-IsAscending c w.registry h)))
