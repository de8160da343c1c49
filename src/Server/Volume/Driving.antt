-- ===== src/Server/Volume/Driving.antt =====
-- windows-server/src/application/volume_control.rs: how `tick` asks the devices for their
-- volumes.
use soundwave.Base.{
  ℕ, List, [], ◌∷◌, Bool, true, false, not, ◌&&◌, ◌||◌, Option, none, some, any, find, ◌==◌,
  if◌then◌else◌, Result, ok, err,
}
use soundwave.Base.BTreeMap
use soundwave.Base.BTreeMap.{BTreeMap}
use soundwave.Base.Text.{text_eq}
use soundwave.Protocol.Control.{DeviceStatus}
use soundwave.Server.Registry.{Controls, Registry, RegistryError, ReceiverSnapshot}
use soundwave.Server.Registry.Requests.{panel_volume_request, restore_volume_request}
use soundwave.Server.Profiles.{Follower}
use soundwave.Server.Volume.{refused, State, Controller, matches_snapshot}
use soundwave.Server.Volume.Asking.{awaiting}

module _ (c : Controls) where
  -- A request for a volume, and what is remembered of it.
  abbrev pub asked : ℕ → ℕ → ℕ → Controller c → Registry c × Result ℕ RegistryError → Controller c
  asked now id index w (g, ok request) = record w {
    registry = g;
    state = record w.state {
      pending = BTreeMap.insert id (awaiting c now request index) w.state.pending;
    };
  }
  asked now id index w (g, err e) = record w {
    registry = g;
    state = record w.state { message = refused e; blocked = BTreeMap.insert id tt w.state.blocked };
  }

  -- The fence: the master is set anew before anything plays.
  abbrev pub fence_asked :
      ℕ → ℕ → ℕ → ℕ → Controller c → Registry c × Result ℕ RegistryError → Controller c
  fence_asked now id volume index w (g, ok request) =
      asked now id index
        (record w {
          state = record w.state { master_seen = some (id, volume); needs_fence = false };
        })
        (g, ok request)
  fence_asked now id volume index w (g, err e) = asked now id index w (g, err e)

  abbrev pub fence_at : ℕ → ℕ → ℕ → Controller c → Option ℕ → Controller c
  fence_at now id volume w none = w
  fence_at now id volume w (some index) =
      if BTreeMap.contains_key id w.state.blocked
      then w
      else fence_asked now id volume index w (panel_volume_request c id index w.registry)

  -- Who is to have which volume; `none` where a mapping is missing.
  abbrev pub also_target : ℕ → Option ℕ → Option (List (ℕ × ℕ)) → Option (List (ℕ × ℕ))
  also_target id (some target) (some rest) = some ((id, target) ∷ rest)
  also_target id _ _ = none

  abbrev pub target_at :
      ℕ → Follower → Option (ReceiverSnapshot c) → Option (List (ℕ × ℕ)) → Option (List (ℕ × ℕ))
  target_at index f none rest = rest
  target_at index f (some r) rest = also_target r.id (BTreeMap.get index f.mapping) rest

  unfoldable pub follower_targets :
      List (ReceiverSnapshot c) → List (List ℕ) → ℕ → List Follower → Option (List (ℕ × ℕ))
  follower_targets seen part index [] = some []
  follower_targets seen part index (f ∷ fs) =
      let rest = follower_targets seen part index fs in
      if any (text_eq f.device.id) part
      then target_at index f (find (matches_snapshot c f.device) seen) rest
      else rest

  -- `snapshots.iter().find(|r| r.id == id).and_then(|r| r.device)`
  abbrev pub device_of : Option (ReceiverSnapshot c) → Option DeviceStatus
  device_of none = none
  device_of (some r) = r.device

  abbrev pub seen_device : List (ReceiverSnapshot c) → ℕ → Option DeviceStatus
  seen_device seen id = device_of (find (λ r. r.id == id) seen)

  abbrev pub waits : ℕ → State → Bool
  waits id s = BTreeMap.contains_key id s.pending || BTreeMap.contains_key id s.blocked

  -- One target, with the device that was seen: the controller, and whether nothing is left to do.
  abbrev pub drive_one : ℕ → ℕ → ℕ → DeviceStatus → Controller c → Controller c × Bool
  drive_one now id target actual w =
      let settled = actual.volume == target && not (waits id w.state) in
      (
        (if settled || waits id w.state
            then w
            else asked now id target w (restore_volume_request c id target w.registry)),
        settled,
      )

  abbrev pub and_ready : Bool → Option (Controller c × Bool) → Option (Controller c × Bool)
  and_ready ready none = none
  and_ready ready (some (w, rest)) = some (w, ready && rest)

  abbrev pub drive_seen :
      ℕ
      → ℕ
      → ℕ
      → Controller c
      → Option DeviceStatus
      → (Controller c → Option (Controller c × Bool))
      → Option (Controller c × Bool)
  drive_seen now id target w none rest = none
  drive_seen now id target w (some actual) rest =
      let (w', settled) = drive_one now id target actual w in and_ready settled (rest w')

  unfoldable pub drive :
      ℕ → List (ReceiverSnapshot c) → List (ℕ × ℕ) → Controller c → Option (Controller c × Bool)
  drive now seen [] w = some (w, true)
  drive now seen ((id, target) ∷ targets) w =
      drive_seen now id target w (seen_device seen id) (drive now seen targets)

  abbrev pub expect : ℕ → Option DeviceStatus → List (ℕ × DeviceStatus) → List (ℕ × DeviceStatus)
  expect id none rest = rest
  expect id (some device) rest = (id, device) ∷ rest

  unfoldable pub expected : List (ReceiverSnapshot c) → List (ℕ × ℕ) → List (ℕ × DeviceStatus)
  expected seen [] = []
  expected seen ((id, target) ∷ targets) = expect id (seen_device seen id) (expected seen targets)
