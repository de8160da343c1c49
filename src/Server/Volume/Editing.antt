-- ===== src/Server/Volume/Editing.antt =====
-- windows-server/src/application/volume_control.rs: what the operations of the calibration window
-- compute: the draft of a profile, and the library that holds it.
use soundwave.Base.{
  ℕ, List, [], ◌∷◌, Bool, true, false, not, ◌&&◌, Option, none, some, length, map, any, filter_by,
  ltb, ◌==◌, if◌then◌else◌, Result, ok, err, ◌>>=◌, ◌>>◌,
}
use soundwave.Base.Text.{text_eq, trim}
use soundwave.Protocol.Control.{DeviceStatus}
use soundwave.Server.Profiles.{
  Follower, Profile, ProfileError, Library, from_status, range_matches, nearest, put,
}
use soundwave.Server.Registry.{is_some_and}
use soundwave.Server.Volume.{
  VolumeError, not_open, not_writable, no_master, no_mapping, no_common_volume, profile_error,
  State, persisted,
}

abbrev pub ok_or : {A : Type 0} → Option A → VolumeError → Result A VolumeError
ok_or none e = err e
ok_or (some a) e = ok a

abbrev pub of_profile : {A : Type 0} → Result A ProfileError → Result A VolumeError
of_profile (ok a) = ok a
of_profile (err e) = err (profile_error e)

abbrev pub require : Bool → VolumeError → Result (Unit {0}) VolumeError
require true e = ok tt
require false e = err e

abbrev pub has_points : Follower → Bool
has_points f = not (length f.mapping == 0)

-- The loop of `set_master` for one device that may follow.
unfoldable pub with_follower : DeviceStatus → List Follower → List Follower
with_follower device [] = record { device = from_status device; mapping = [] } ∷ []
with_follower device (f ∷ fs) =
    if text_eq f.device.id device.device_id
    then (if range_matches f.device device
        then f
        else record { device = from_status device; mapping = [] })
      ∷ fs
    else f ∷ with_follower device fs

abbrev pub may_follow : List ℕ → DeviceStatus → Bool
may_follow master device =
    not (text_eq device.device_id master)
    && (not (length device.device_id == 0)
        && (device.speaker
            && (not device.fixed && (not device.failed && ltb device.minimum device.maximum))))

unfoldable pub with_followers : List ℕ → List DeviceStatus → List Follower → List Follower
with_followers master [] fs = fs
with_followers master (device ∷ devices) fs =
    with_followers master devices (if may_follow master device then with_follower device fs else fs)

-- The draft that `set_master` starts from; its default name has three characters.
abbrev pub new_profile : DeviceStatus → Profile
new_profile master = record {
  id = 0;
  name = 26032 ∷ 37197 ∷ 32622 ∷ [];
  master = from_status master;
  followers = [];
  volume = master.volume;
}

abbrev pub same_master : DeviceStatus → Option Profile → Bool
same_master master old = is_some_and old λ p. range_matches p.master master

-- `old.unwrap()` panics where there is no old draft: that is `none`.
abbrev pub drafted : DeviceStatus → Option Profile → Option Profile
drafted master old = if same_master master old then old else some (new_profile master)

-- `set_master` takes this device.
abbrev pub may_lead : DeviceStatus → Bool
may_lead master =
    not master.fixed
    && (not master.failed
        && (master.speaker
            && (not (length master.device_id == 0) && ltb master.minimum master.maximum)))

-- `save_draft` up to the new library and the draft as it is then stored; nothing has changed yet.
unfoldable pub prepared : List ℕ → Bool → State → Result (Library × Profile) VolumeError
prepared name copy s = do
  require s.editing not_open
  require (not s.load_error) not_writable
  draft ← ok_or s.draft no_master
  let named : Profile = record draft { name = trim name; id = if copy then 0 else draft.id }
  require (any has_points named.followers) no_mapping
  volume ←
      ok_or
        (nearest named named.volume (map (λ f. f.device.id) (filter_by has_points named.followers)))
        no_common_volume
  let at_volume : Profile = record named { volume = volume }
  (library, id) ← of_profile (put (persisted s) at_volume)
  ok (library, record at_volume { id = id })

abbrev pub drop_active : ℕ → Option ℕ → Option ℕ
drop_active id none = none
drop_active id (some active) = if active == id then none else some active

abbrev pub without_profile : ℕ → Library → Library
without_profile id library = record library {
  profiles = filter_by (λ p. not (p.id == id)) library.profiles;
  active = drop_active id library.active;
}
