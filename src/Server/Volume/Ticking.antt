-- ===== src/Server/Volume/Ticking.antt =====
-- windows-server/src/application/volume_control.rs: `tick`.
use soundwave.Base.{
  ℕ, ◌+◌, ◌*◌, List, [], ◌∷◌, Bool, true, false, not, ◌&&◌, ◌||◌, Option, none, some, map, any,
  filter_by, leb, ◌==◌, if◌then◌else◌,
}
use soundwave.Base.BTreeMap
use soundwave.Base.BTreeMap.{BTreeMap}
use soundwave.Protocol.Control.{DeviceStatus}
use soundwave.Server.Registry.{
  Controls, Registry, ReceiverSnapshot, snapshots, is_some_and, approve,
}
use soundwave.Server.Registry.Device.{has_panel_barrier, take_unsolicited_volume}
use soundwave.Server.Profiles.{Profile, current, participating, nearest}
use soundwave.Server.Volume.{
  not_saved, State, Disk, Controller, persisted, set_volume_of, matches_snapshot, devices_of,
}
use soundwave.Server.Volume.Asking.{millisecond, denied}
use soundwave.Server.Volume.Reviewing.{review, reviewed}
use soundwave.Server.Volume.Driving.{fence_at, follower_targets, drive, expected}

module _ (c : Controls) where
  -- A volume that is confirmed is written half a second after the last change.
  abbrev pub write_confirmed : Disk → ℕ → Controller c → Controller c
  write_confirmed disk now w =
      let s = w.state in
      if not (s.dirty && leb (s.changed + 500 * millisecond) now)
      then w
      else if not s.load_error && disk.save (persisted s)
      then record w { file = persisted s; state = record s { dirty = false } }
      else record w { state = record s { message = not_saved; changed = now + 4000 * millisecond } }

  abbrev pub settle :
      Disk
      → ℕ
      → ℕ
      → ℕ
      → List (ReceiverSnapshot c)
      → List (ℕ × ℕ)
      → Option (Controller c × Bool)
      → Option (Controller c)
  settle disk now profile index seen targets none = none
  settle disk now profile index seen targets (some (w, false)) = some (denied c w)
  settle disk now profile index seen targets (some (w, true)) = some (
      write_confirmed disk now (record w {
        registry = approve c (expected c seen targets) w.registry;
        state = record w.state { confirmed = some (profile, index) };
      }))

  abbrev pub drive_targets :
      Disk
      → ℕ
      → ℕ
      → ℕ
      → List (ReceiverSnapshot c)
      → Controller c
      → ℕ
      → Option (List (ℕ × ℕ))
      → Option (Controller c)
  drive_targets disk now profile index seen w master none = none
  drive_targets disk now profile index seen w master (some targets) =
      settle disk now profile index seen ((master, index) ∷ targets)
        (drive c now seen ((master, index) ∷ targets) w)

  -- The volume of the profile follows the index.
  abbrev pub commit : ℕ → Profile → ℕ → State → State
  commit now profile index s =
      if is_some_and (current s.library) (λ p. not (p.volume == index))
      then record s {
        library = record s.library { profiles = set_volume_of profile.id index s.library.profiles };
        dirty = true;
        changed = now;
      }
      else s

  abbrev pub follow_at :
      Disk
      → ℕ
      → Profile
      → List (ReceiverSnapshot c)
      → List (List ℕ)
      → ℕ
      → Controller c
      → Option ℕ
      → Option (Controller c)
  follow_at disk now profile seen part master w none = some (denied c w)
  follow_at disk now profile seen part master w (some index) =
      drive_targets disk now profile.id index seen
        (record w { state = commit now profile index w.state }) master
        (follower_targets c seen part index profile.followers)

  -- The volume that is asked for: that of the profile, or that of the master where it was changed
  -- there and the master has been seen before.
  abbrev pub requested_volume : Option (ℕ × ℕ) → ℕ → ℕ → Option ℕ → ℕ
  requested_volume (some (seen, volume)) master own (some index) =
      if seen == master then index else own
  requested_volume _ master own _ = own

  abbrev pub follow :
      Disk
      → ℕ
      → Profile
      → List (ReceiverSnapshot c)
      → List (List ℕ)
      → ReceiverSnapshot c
      → ℕ
      → Controller c
      → Registry c × Option ℕ
      → Option (Controller c)
  follow disk now profile seen part master volume w (g, unsolicited) =
      follow_at disk now profile seen part master.id
        (record w {
          registry = g;
          state = record w.state { master_seen = some (master.id, volume) };
        })
        (nearest profile (requested_volume w.state.master_seen master.id profile.volume unsolicited)
          part)

  abbrev pub with_master :
      Disk
      → ℕ
      → Profile
      → List (ReceiverSnapshot c)
      → ReceiverSnapshot c
      → Controller c
      → Option DeviceStatus
      → Option (Controller c)
  with_master disk now profile seen master w none = none
  with_master disk now profile seen master w (some device) =
      let part = participating (devices_of c seen) profile in
      if (w.state.needs_fence || has_panel_barrier c master.id w.registry)
        && not (BTreeMap.contains_key master.id w.state.pending)
      then some (
          fence_at c now master.id device.volume (denied c w) (nearest profile profile.volume part))
      else follow disk now profile seen part master device.volume w
          (take_unsolicited_volume c master.id w.registry)

  abbrev pub with_masters :
      Disk
      → ℕ
      → Profile
      → List (ReceiverSnapshot c)
      → Controller c
      → List (ReceiverSnapshot c)
      → Option (Controller c)
  with_masters disk now profile seen w (master ∷ []) =
      with_master disk now profile seen master w master.device
  with_masters disk now profile seen w _ =
      some (record (denied c w) { state = record w.state { master_seen = none } })

  abbrev pub with_profile :
      Disk → ℕ → List (ReceiverSnapshot c) → Controller c → Option Profile → Option (Controller c)
  with_profile disk now seen w none = some (denied c w)
  with_profile disk now seen w (some profile) =
      with_masters disk now profile seen w (filter_by (matches_snapshot c profile.master) seen)

  -- `state.blocked.retain`
  abbrev pub retain_ids : List ℕ → BTreeMap (Unit {0}) → BTreeMap (Unit {0})
  retain_ids ids m = filter_by (λ e. any (λ i. i == e.0) ids) m

  abbrev pub after_review :
      Disk → ℕ → List (ReceiverSnapshot c) → Controller c → Option (Controller c)
  after_review disk now seen w = with_profile disk now seen w (current w.state.library)

  unfoldable pub tick : Disk → ℕ → Controller c → Option (Controller c)
  tick disk now w =
      let seen = snapshots c w.registry in
      let ids = map (λ r. r.id) seen in
      if w.state.editing
      then some (denied c w)
      else after_review disk now seen (
          reviewed c
            (record w { state = record w.state { blocked = retain_ids ids w.state.blocked } })
            (review c now ids w.registry w.state.pending))
