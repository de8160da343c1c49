-- ===== src/Server/Volume/Asking.antt =====
-- windows-server/src/application/volume_control.rs: `set_volume`.
use soundwave.Base.{
  ℕ, List, [], ◌∷◌, true, false, not, Option, none, some, length, filter_by, find, ◌==◌,
  if◌then◌else◌, Result, ok, err,
}
use soundwave.Base.BTreeMap
use soundwave.Base.BTreeMap.{BTreeMap}
use soundwave.Server.Registry.{
  Controls, Registry, RegistryError, ReceiverSnapshot, snapshots, deny_all,
}
use soundwave.Server.Registry.Requests.{panel_volume_request}
use soundwave.Server.Profiles.{Profile, current, participating, nearest, is_active}
use soundwave.Server.Volume.{
  Pending, empty, VolumeError, Controller, matches_snapshot, devices_of, is_editing, no_profile,
  master_missing, no_common_volume, registry_error,
}

abbrev pub millisecond : ℕ
millisecond = 1000000

module _ (c : Controls) where
  abbrev pub denied : Controller c → Controller c
  denied w = record w { registry = deny_all c w.registry }

  abbrev pub awaiting : ℕ → ℕ → ℕ → Pending
  awaiting now request index = record { request = request; index = index; at = now }

  -- The profile of `library.active` gets the volume.
  unfoldable pub activate_volume : Option ℕ → ℕ → List Profile → List Profile
  activate_volume active index [] = []
  activate_volume active index (p ∷ ps) =
      if is_active active p
      then record p { volume = index } ∷ ps
      else p ∷ activate_volume active index ps

  -- `set_volume` once the request is sent, or was not.
  abbrev pub volume_asked :
      ℕ
      → ℕ
      → ℕ
      → Controller c
      → Registry c × Result ℕ RegistryError
      → Controller c × Result (Unit {0}) VolumeError
  volume_asked now master index w (g, err e) = (record w { registry = g }, err (registry_error e))
  volume_asked now master index w (g, ok request) =
      let s = w.state in
      (
        record w {
          registry = deny_all c g;
          state = record s {
            library = record s.library {
              profiles = activate_volume s.library.active index s.library.profiles;
            };
            needs_fence = false;
            pending = BTreeMap.insert master (awaiting now request index) s.pending;
            message = empty;
            blocked = [];
            dirty = true;
            changed = now;
          };
        },
        ok tt,
      )

  -- The master is looked up again, and `unwrap` panics where there is none: that is `none`.
  abbrev pub ask_volume :
      ℕ
      → Controller c
      → ℕ
      → Option (ReceiverSnapshot c)
      → Option (Controller c × Result (Unit {0}) VolumeError)
  ask_volume now w index none = none
  ask_volume now w index (some master) =
      some (volume_asked now master.id index w (panel_volume_request c master.id index w.registry))

  abbrev pub volume_at :
      ℕ
      → Profile
      → List (ReceiverSnapshot c)
      → Controller c
      → Option ℕ
      → Option (Controller c × Result (Unit {0}) VolumeError)
  volume_at now profile seen w none = some (w, err no_common_volume)
  volume_at now profile seen w (some index) =
      ask_volume now w index (find (matches_snapshot c profile.master) seen)

  abbrev pub set_profile_volume :
      ℕ → ℕ → Controller c → Option Profile → Option (Controller c × Result (Unit {0}) VolumeError)
  set_profile_volume now requested w none = some (w, err no_profile)
  set_profile_volume now requested w (some profile) =
      let seen = snapshots c w.registry in
      if not (length (filter_by (matches_snapshot c profile.master) seen) == 1)
      then some (w, err master_missing)
      else volume_at now profile seen w
          (nearest profile requested (participating (devices_of c seen) profile))

  unfoldable pub set_volume :
      ℕ → ℕ → Controller c → Option (Controller c × Result (Unit {0}) VolumeError)
  set_volume now requested w =
      if w.state.editing
      then some (w, err is_editing)
      else set_profile_volume now requested w (current w.state.library)
