-- ===== src/Server/Volume.antt =====
-- windows-server/src/application/volume_control.rs: the controller that keeps the devices of a
-- profile at their volumes and lets them play. The files of the library are the parameter `Disk`;
-- the readings of the clock within a call are one argument, in nanoseconds; a call holds its lock,
-- and what other threads do to the registry meanwhile comes before or after it. A message is a
-- case instead of its text. What would panic is `none`.
pub mod Editing
pub mod Window
pub mod Asking
pub mod Reviewing
pub mod Driving
pub mod Ticking
mod Settled
mod Plays
mod Review
mod Fenced
pub mod Tick
pub mod Calls
mod Steady
mod SteadyTick
mod SteadyWindow
mod SteadyRun
mod Total
pub mod Panics
mod Saves
pub mod Runs
pub mod Unconfirmed
mod Examples
use soundwave.Base.{
  ℕ, ◌+◌, ◌*◌, List, [], ◌∷◌, ◌++◌, Bool, true, false, not, ◌&&◌, ◌||◌, Option, none, some, length,
  map, all, any, filter_by, find, ltb, leb, ◌==◌, if◌then◌else◌, is_some, Result, ok, err,
}
use soundwave.Base.BTreeMap
use soundwave.Base.BTreeMap.{BTreeMap}
use soundwave.Protocol.Control.{DeviceStatus}
use soundwave.Server.Registry.{
  Controls, Registry, RegistryError, ReceiverSnapshot, snapshots, is_some_and,
}
use soundwave.Server.Profiles.{
  DeviceRange, range_matches, Follower, Profile, Library, ProfileError, current,
}

pub record Pending : Type 0 where
  pub request : ℕ
  pub index : ℕ
  pub at : ℕ

pub data Message : Type 0 where
  empty no_confirmation not_saved unreadable : Message
  not_applied not_restored : List ℕ → Message
  refused : RegistryError → Message

pub data VolumeError : Type 0 where
  already_open not_open still_pending not_writable no_master bad_master no_mapping no_common_volume
        no_profile master_missing is_editing write_failed :
      VolumeError
  profile_error : ProfileError → VolumeError
  registry_error : RegistryError → VolumeError

pub record State : Type 0 where
  pub library : Library
  pub draft : Option Profile
  pub editing : Bool
  pub originals : List (ℕ × DeviceStatus)
  pub pending : BTreeMap Pending
  pub blocked : BTreeMap (Unit {0})
  pub master_seen : Option (ℕ × ℕ)
  pub message : Message
  pub dirty : Bool
  pub changed : ℕ
  pub confirmed : Option (ℕ × ℕ)
  pub load_error : Bool
  pub needs_fence : Bool

-- `library.current().map(|p| (p.id, p.volume))`
abbrev pub volume_of : Option Profile → Option (ℕ × ℕ)
volume_of none = none
volume_of (some p) = some (p.id, p.volume)

-- `State::new`, and the load error of `VolumeController::new`: a library that cannot be read leaves
-- the default one, which may not be written.
abbrev pub initial : Library → Bool → ℕ → State
initial library load_error now = record {
  library = library;
  draft = none;
  editing = false;
  originals = [];
  pending = [];
  blocked = [];
  master_seen = none;
  message = if load_error then unreadable else empty;
  dirty = false;
  changed = now;
  confirmed = volume_of (current library);
  load_error = load_error;
  needs_fence = false;
}

-- The first profile of the identifier gets the volume.
unfoldable pub set_volume_of : ℕ → ℕ → List Profile → List Profile
set_volume_of id index [] = []
set_volume_of id index (p ∷ ps) =
    if p.id == id then record p { volume = index } ∷ ps else p ∷ set_volume_of id index ps

-- The library as it may be written: with the volume that was last confirmed.
abbrev pub with_confirmed : Option (ℕ × ℕ) → Library → Library
with_confirmed none library = library
with_confirmed (some (id, index)) library = record library {
  profiles = set_volume_of id index library.profiles;
}

unfoldable pub persisted : State → Library
persisted s = with_confirmed s.confirmed s.library

-- `Library::save`: the library that the file then holds, or an error.
pub record Disk : Type 0 where
  pub save : Library → Bool

-- The controller with the registry it drives and the library in its file.
module _ (c : Controls) where
  pub record Controller : Type 0 where
    pub state : State
    pub registry : Registry c
    pub file : Library

  abbrev pub matches_snapshot : DeviceRange → ReceiverSnapshot c → Bool
  matches_snapshot range r = is_some_and r.device (range_matches range)

  -- `filter_map(|r| r.device.as_ref())`
  abbrev pub with_device : Option DeviceStatus → List DeviceStatus → List DeviceStatus
  with_device none rest = rest
  with_device (some d) rest = d ∷ rest

  abbrev pub devices_of : List (ReceiverSnapshot c) → List DeviceStatus
  devices_of [] = []
  devices_of (r ∷ rs) = with_device r.device (devices_of rs)

  -- `finish`, once the worker has stopped.
  unfoldable pub finish : Disk → Controller → Result Controller VolumeError
  finish disk w =
      if not w.state.dirty
      then ok w
      else if w.state.load_error
      then err not_writable
      else if disk.save (persisted w.state)
      then ok (record w { file = persisted w.state; state = record w.state { dirty = false } })
      else err write_failed
