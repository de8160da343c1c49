-- ===== src/Server/Volume/Examples.antt =====
-- windows-server/src/application/volume_control.rs: concrete runs with a master, one follower and
-- their profile.
use soundwave.Base.{◌≡◌, refl, List, [], ◌∷◌, Bool, true, false, Option, none, some, min_by_key}
use soundwave.Base.BTreeMap
use soundwave.Base.BTreeMap.{BTreeMap}
use soundwave.Protocol.Control.{DeviceStatus}
use soundwave.Server.Registry.{Registry, Receiver, snapshots, register, modify, approve}
use soundwave.Server.Registry.Device.{observe, store, update_device, take_unsolicited_volume}
use soundwave.Server.Registry.Step.{
  registers, updates_device, Reached, at_start, after, perform, empty,
}
use soundwave.Server.Registry.Queue.{queue, speaker_at}
use soundwave.Server.Profiles.{
  DeviceRange, Profile, Library, current, participating, nearest, available, is_shared,
}
use soundwave.Server.Volume.{Disk, Controller, initial}
use soundwave.Server.Volume.Reviewing.{review}
use soundwave.Server.Volume.Driving.{follower_targets, drive, expected}
use soundwave.Server.Volume.Ticking.{tick}
use soundwave.Server.Volume.Calls.{
  Call, run, ticks, sets_volume, opens, saves_draft, finishes, operates,
}
use soundwave.Server.Silence.{enabled_gate}
use soundwave.Server.Volume.Tick.{tick_plays, Led}
use soundwave.Server.Volume.Runs.{unreadable_never_written, run_total}

abbrev follower_device : DeviceStatus
follower_device = record (speaker_at 0 2) { device_id = b'b' ∷ [] }

abbrev joined : Registry queue
joined = perform queue (registers 8 []) (perform queue (registers 9 []) (empty queue))

abbrev reported : Registry queue
reported =
    perform queue (updates_device 1 follower_device)
      (perform queue (updates_device 0 (speaker_at 0 4)) joined)

reported-Reached : Reached queue reported
reported-Reached = after (updates_device 1 follower_device) (
    after (updates_device 0 (speaker_at 0 4))
      (after (registers 8 []) (after (registers 9 []) at_start)))

abbrev range_of : DeviceStatus → DeviceRange
range_of device = record {
  id = device.device_id;
  name = device.name;
  minimum = device.minimum;
  maximum = device.maximum;
}

abbrev profile : Profile
profile = record {
  id = 1;
  name = b'p' ∷ [];
  master = range_of (speaker_at 0 4);
  followers = record { device = range_of follower_device; mapping = (4, 2) ∷ (6, 3) ∷ [] } ∷ [];
  volume = 4;
}

abbrev library : Library
library = record { version = 1; active = some 1; profiles = profile ∷ [] }

abbrev disk : Disk
disk = record { save = λ library. true }

abbrev controller : Bool → Controller queue
controller load_error = record {
  state = initial library load_error 0;
  registry = reported;
  file = library;
}

abbrev or_else : Controller queue → Option (Controller queue) → Controller queue
or_else w none = w
or_else w (some w') = w'

abbrev ticked : Controller queue
ticked = or_else (controller false) (tick queue disk 5 (controller false))

abbrev follower : Receiver queue
follower = record {
  peer = 8;
  controls = [];
  device = some follower_device;
  replies = [];
  tone_replies = [];
  playback = true;
  unsolicited_volume = none;
  observed_volume = some 2;
  volume_requests = [];
  panel_barrier = none;
}

ticked_is : tick queue disk 5 (controller false) ≡ some ticked
unfolding tick snapshots review perform register update_device modify observe store approve
    BTreeMap.get BTreeMap.insert current participating nearest available is_shared follower_targets
    drive expected take_unsolicited_volume min_by_key
ticked_is = refl

follower_is : BTreeMap.get 1 ticked.registry.receivers ≡ some follower
unfolding tick snapshots review perform register update_device modify observe store approve
    BTreeMap.get BTreeMap.insert current participating nearest available is_shared follower_targets
    drive expected take_unsolicited_volume min_by_key
follower_is = refl

tick_plays_example : Led queue (snapshots queue reported) (current library) ticked 1 follower
tick_plays_example =
    tick_plays queue disk 5 (controller false) ticked 1 follower reported-Reached ticked_is
      follower_is refl

-- The volume is set, confirmed by the device and written, and then a profile is saved.
abbrev calls : List (Call queue)
calls =
    ticks 5
    ∷ sets_volume 6 4
    ∷ operates (updates_device 0 (speaker_at 1 4))
    ∷ ticks 7
    ∷ opens enabled_gate
    ∷ saves_draft (b'n' ∷ []) true
    ∷ finishes
    ∷ []

run_total_example : (w : Controller queue) × (run queue disk calls (controller false) ≡ some w)
run_total_example = run_total queue disk calls (controller false) reported-Reached

-- The same calls where the file could not be read.
unread : (w : Controller queue) × (run queue disk calls (controller true) ≡ some w)
unread = run_total queue disk calls (controller true) reported-Reached

unreadable_never_written_example : unread.0.file ≡ library
unreadable_never_written_example =
    unreadable_never_written queue disk calls (controller true) unread.0 refl unread.1

-- A volume is asked for and the server is shut down before the device confirms it.
abbrev asks : List (Call queue)
asks = sets_volume 6 6 ∷ operates (updates_device 1 follower_device) ∷ finishes ∷ []
