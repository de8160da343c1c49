-- ===== src/Server/Volume/Tick.antt =====
-- windows-server/src/application/volume_control.rs: playback after `tick`, stage by stage.
use soundwave.Base.{
  ℕ, ◌≡◌, refl, arith, List, [], ◌∷◌, Bool, true, false, not, ◌&&◌, ◌||◌, Option, none, some, map,
  filter_by, if◌then◌else◌,
}
use soundwave.Base.BTreeMap
use soundwave.Base.BTreeMap.{BTreeMap}
use soundwave.Protocol.Control.{DeviceStatus}
use soundwave.Server.Registry.{Controls, Receiver, ReceiverSnapshot, snapshots}
use soundwave.Server.Registry.Device.{has_panel_barrier, take_unsolicited_volume}
use soundwave.Server.Registry.Step.{perform, Reached, after, takes_unsolicited_volume}
use soundwave.Server.Profiles.{Profile, current, participating, nearest}
use soundwave.Server.Volume.{Disk, Controller, matches_snapshot, devices_of}
use soundwave.Server.Volume.Asking.{denied}
use soundwave.Server.Volume.Reviewing.{review, reviewed}
use soundwave.Server.Volume.Driving.{fence_at, drive, follower_targets}
use soundwave.Server.Volume.Ticking.{
  drive_targets, follow_at, follow, requested_volume, with_master, with_masters, with_profile, tick,
  commit, retain_ids,
}
use soundwave.Server.Volume.Plays.{Confirmed, not_denied, settle-Confirmed}
use soundwave.Server.Volume.Settled.{drive-Settled}
use soundwave.Server.Volume.Review.{review-Reached, reviewed-library}
use soundwave.Server.Volume.Fenced.{denied-Everywhere, fence_at-Quiet, not-Quiet}

module _ (c : Controls) where
  -- The volume that the targets follow, and the targets of the followers.
  abbrev pub Follows :
      List (ReceiverSnapshot c) → Profile → ℕ → Controller c → ℕ → Receiver c → Type 0
  Follows seen profile master w id r =
      (requested : ℕ) × (index : ℕ) × (targets : List (ℕ × ℕ)) × (nearest profile requested
          (participating (devices_of c seen) profile)
        ≡ some index)
      × (follower_targets c seen (participating (devices_of c seen) profile) index profile.followers
          ≡ some targets)
      × Confirmed c profile.id index ((master, index) ∷ targets) w id r

  targets-Confirmed :
      (disk : Disk) (now profile index : ℕ) (seen : List (ReceiverSnapshot c)) (w : Controller c)
      (master : ℕ) (o : Option (List (ℕ × ℕ))) (w' : Controller c) (id : ℕ) (r : Receiver c)
      → Reached c w.registry
      → drive_targets c disk now profile index seen w master o ≡ some w'
      → BTreeMap.get id w'.registry.receivers ≡ some r
      → r.playback ≡ true
      → (targets : List (ℕ × ℕ)) × (o ≡ some targets)
        × Confirmed c profile index ((master, index) ∷ targets) w' id r
  targets-Confirmed disk now profile index seen w master none w' id r g h e p =
      absurd (ground arith)
  targets-Confirmed disk now profile index seen w master (some targets) w' id r g h e p =
      let all_targets = (master, index) ∷ targets in
      (
        targets,
        refl,
        settle-Confirmed c disk now profile index seen all_targets w w'
            (drive c now seen all_targets w) id r g
            (λ w1 d. drive-Settled c now seen all_targets w w1 d) h e p,
      )

  follow_at-Follows :
      (disk : Disk) (now requested : ℕ) (profile : Profile) (seen : List (ReceiverSnapshot c))
      (master : ℕ) (w : Controller c) (o : Option ℕ) (w' : Controller c) (id : ℕ) (r : Receiver c)
      → Reached c w.registry
      → nearest profile requested (participating (devices_of c seen) profile) ≡ o
      → follow_at c disk now profile seen (participating (devices_of c seen) profile) master w o
        ≡ some w'
      → BTreeMap.get id w'.registry.receivers ≡ some r
      → r.playback ≡ true
      → Follows seen profile master w' id r
  follow_at-Follows disk now requested profile seen master w none w' id r g n h e p =
      absurd (ground (arith, not_denied c w w' id r h e p))
  follow_at-Follows disk now requested profile seen master w (some index) w' id r g n h e p =
      let (targets, are, sure) =
        targets-Confirmed disk now profile.id index seen
          (record w { state = commit c now profile index w.state }) master
          (follower_targets c seen (participating (devices_of c seen) profile) index
            profile.followers)
          w' id r g h e p in
      (requested, index, targets, n, are, sure)

  -- The one master of the profile, and that its volume is followed.
  abbrev pub Led :
      List (ReceiverSnapshot c) → Option Profile → Controller c → ℕ → Receiver c → Type 0
  Led seen current w id r =
      (profile : Profile) × (master : ReceiverSnapshot c) × (current ≡ some profile)
      × (filter_by (matches_snapshot c profile.master) seen ≡ master ∷ [])
      × Follows seen profile master.id w id r

  if_case :
      (b : Bool) (x y : Option (Controller c)) (w' : Controller c) (P : Type 0)
      → (if b then x else y) ≡ some w'
      → (x ≡ some w' → P)
      → (y ≡ some w' → P)
      → P
  if_case true x y w' P h f g = f h
  if_case false x y w' P h f g = g h

  follow-Follows :
      (disk : Disk) (now volume : ℕ) (profile : Profile) (seen : List (ReceiverSnapshot c))
      (master : ReceiverSnapshot c) (w w' : Controller c) (id : ℕ) (r : Receiver c)
      → Reached c w.registry
      → follow c disk now profile seen
          (participating (devices_of c seen) profile)
          master
          volume
          w
          (take_unsolicited_volume c master.id w.registry)
        ≡ some w'
      → BTreeMap.get id w'.registry.receivers ≡ some r
      → r.playback ≡ true
      → Follows seen profile master.id w' id r
  unfolding perform
  follow-Follows disk now volume profile seen master w w' id r g h e p =
      let (g', unsolicited) = take_unsolicited_volume c master.id w.registry in
      follow_at-Follows disk now
        (requested_volume c w.state.master_seen master.id profile.volume unsolicited) profile seen
        master.id
        (record w {
          registry = g';
          state = record w.state { master_seen = some (master.id, volume) };
        })
        _ w' id r (after (takes_unsolicited_volume master.id) g) refl h e p

  with_master-Follows :
      (disk : Disk) (now : ℕ) (profile : Profile) (seen : List (ReceiverSnapshot c))
      (master : ReceiverSnapshot c) (w w' : Controller c) (o : Option DeviceStatus) (id : ℕ)
      (r : Receiver c)
      → Reached c w.registry
      → with_master c disk now profile seen master w o ≡ some w'
      → BTreeMap.get id w'.registry.receivers ≡ some r
      → r.playback ≡ true
      → Follows seen profile master.id w' id r
  with_master-Follows disk now profile seen master w w' none id r g h e p = absurd (ground arith)
  with_master-Follows disk now profile seen master w w' (some device) id r g h e p =
      let part = participating (devices_of c seen) profile in
      if_case
        ((w.state.needs_fence || has_panel_barrier c master.id w.registry)
          && not (BTreeMap.contains_key master.id w.state.pending))
        _ _ w' (Follows seen profile master.id w' id r) h
        (λ h. absurd (
          ground (
            arith,
            not-Quiet c
                (fence_at c now master.id device.volume (denied c w)
                  (nearest profile profile.volume part))
                w' id r
                (fence_at-Quiet c now master.id device.volume (denied c w)
                  (nearest profile profile.volume part) (denied-Everywhere c w g))
                h e p,
          )))
        (λ h. follow-Follows disk now device.volume profile seen master w w' id r g h e p)

  with_masters-Led :
      (disk : Disk) (now : ℕ) (profile : Profile) (seen : List (ReceiverSnapshot c))
      (w w' : Controller c) (masters : List (ReceiverSnapshot c)) (id : ℕ) (r : Receiver c)
      → Reached c w.registry
      → with_masters c disk now profile seen w masters ≡ some w'
      → BTreeMap.get id w'.registry.receivers ≡ some r
      → r.playback ≡ true
      → (master : ReceiverSnapshot c) × (masters ≡ master ∷ [])
        × Follows seen profile master.id w' id r
  with_masters-Led disk now profile seen w w' [] id r g h e p =
      absurd (ground (arith, not-Quiet c _ w' id r (denied-Everywhere c w g) h e p))
  with_masters-Led disk now profile seen w w' (master ∷ []) id r g h e p = (
    master,
    refl,
    with_master-Follows disk now profile seen master w w' master.device id r g h e p,
  )
  with_masters-Led disk now profile seen w w' (master ∷ other ∷ more) id r g h e p =
      absurd (ground (arith, not-Quiet c _ w' id r (denied-Everywhere c w g) h e p))

  with_profile-Led :
      (disk : Disk) (now : ℕ) (seen : List (ReceiverSnapshot c)) (w w' : Controller c)
      (o : Option Profile) (id : ℕ) (r : Receiver c)
      → Reached c w.registry
      → with_profile c disk now seen w o ≡ some w'
      → BTreeMap.get id w'.registry.receivers ≡ some r
      → r.playback ≡ true
      → Led seen o w' id r
  with_profile-Led disk now seen w w' none id r g h e p =
      absurd (ground (arith, not_denied c w w' id r h e p))
  with_profile-Led disk now seen w w' (some profile) id r g h e p =
      let (master, only, follows) =
        with_masters-Led disk now profile seen w w'
          (filter_by (matches_snapshot c profile.master) seen) id r g h e p in
      (profile, master, refl, only, follows)

  -- After a tick over a reachable registry a receiver that plays does so because exactly one
  -- connected device is the master of the current profile, and the volume that is now confirmed for
  -- the profile is the nearest available one to some requested volume: the device last stored of
  -- the receiver has the volume of its target, and nothing of the receiver is pending or blocked.
  pub tick_plays :
      (disk : Disk) (now : ℕ) (w w' : Controller c) (id : ℕ) (r : Receiver c)
      → Reached c w.registry
      → tick c disk now w ≡ some w'
      → BTreeMap.get id w'.registry.receivers ≡ some r
      → r.playback ≡ true
      → Led (snapshots c w.registry) (current w.state.library) w' id r
  unfolding tick
  tick_plays disk now w w' id r g h e p =
      let seen = snapshots c w.registry in
      let ids = map (λ s. s.id) seen in
      let retained : Controller c = record w {
        state = record w.state { blocked = retain_ids c ids w.state.blocked };
      } in
      let outcome = review c now ids w.registry w.state.pending in
      if_case w.state.editing _ _ w' (Led seen (current w.state.library) w' id r) h
        (λ h. absurd (ground (arith, not_denied c w w' id r h e p)))
        (λ h.
          with_profile-Led disk now seen (reviewed c retained outcome) w' (current w.state.library)
            id r (review-Reached c now ids w.registry w.state.pending g)
            (reviewed-library c disk now seen retained outcome w' h) e p)
