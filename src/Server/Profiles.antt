-- ===== src/Server/Profiles.antt =====
-- windows-server/src/volume_profiles.rs: a profile maps the volume of a master device to that of
-- the devices that follow it. A text is the list of its code points. The files are left out:
-- `check_library` is what `Library::load` demands of the library that it has decoded.
pub mod Nearest
pub mod Stored
mod Examples
use soundwave.Base.{
  ℕ, zero, suc, ◌+◌, ◌-◌, ◌*◌, ◌^◌, ◌≡◌, List, [], ◌∷◌, ◌++◌, Bool, true, false, not, ◌&&◌, ◌||◌,
  Option, none, some, max, length, map, take, all, any, filter_by, find, min_by_key, ltb, leb, ◌==◌,
  if◌then◌else◌, is_some, Result, ok, err, ◌>>=◌, ◌>>◌,
}
use soundwave.Base.BTreeMap
use soundwave.Base.BTreeMap.{BTreeMap}
use soundwave.Base.Text.{text_eq, is_ascii_alphanumeric, trim, byte_length}
use soundwave.Protocol.Control.{DeviceStatus}

pub record DeviceRange : Type 0 where
  pub id : List ℕ
  pub name : List ℕ
  pub minimum : ℕ
  pub maximum : ℕ

abbrev pub from_status : DeviceStatus → DeviceRange
from_status device = record {
  id = device.device_id;
  name = device.name;
  minimum = device.minimum;
  maximum = device.maximum;
}

abbrev pub range_matches : DeviceRange → DeviceStatus → Bool
range_matches r device =
    text_eq r.id device.device_id
    && (r.minimum == device.minimum
        && (r.maximum == device.maximum
            && (device.speaker && (not device.fixed && not device.failed))))

pub record Follower : Type 0 where
  pub device : DeviceRange
  pub mapping : BTreeMap ℕ

pub record Profile : Type 0 where
  pub id : ℕ
  pub name : List ℕ
  pub master : DeviceRange
  pub followers : List Follower
  pub volume : ℕ

pub data ProfileError : Type 0 where
  bad_name bad_device duplicate_device bad_range volume_out_of_range mapping_out_of_range :
      ProfileError
  unsupported_format too_many_profiles duplicate_profile no_active_profile ids_exhausted :
      ProfileError

-- `anyhow::ensure!`
abbrev pub ensure : Bool → ProfileError → Result (Unit {0}) ProfileError
ensure true error = ok tt
ensure false error = err error

-- `(range.minimum..=range.maximum).contains(index)`
abbrev pub in_range : DeviceRange → ℕ → Bool
in_range r index = leb r.minimum index && leb index r.maximum

abbrev pub has_id : DeviceRange → Bool
has_id device =
    not (length device.id == 0)
    && (leb (byte_length device.id) 80 && all (λ c. is_ascii_alphanumeric c || c == b'-') device.id)

-- The loop over the devices; `ids` are the identifiers before.
unfoldable pub check_devices : List (List ℕ) → List DeviceRange → Result (Unit {0}) ProfileError
check_devices ids [] = ok tt
check_devices ids (device ∷ devices) =
    ensure (has_id device) bad_device
    >> (ensure (not (any (text_eq device.id) ids)) duplicate_device
        >> (ensure (ltb device.minimum device.maximum && leb device.maximum 512) bad_range
            >> check_devices (device.id ∷ ids) devices))

abbrev pub maps_within : DeviceRange → Follower → Bool
maps_within master follower =
    all (λ e. in_range master e.0 && in_range follower.device e.1) follower.mapping

unfoldable pub validate : Profile → Result (Unit {0}) ProfileError
validate p =
    ensure (not (length (trim p.name) == 0) && leb (length p.name) 80) bad_name
    >> (check_devices [] (p.master ∷ map (λ f. f.device) p.followers)
        >> (ensure (in_range p.master p.volume) volume_out_of_range
            >> ensure (all (maps_within p.master) p.followers) mapping_out_of_range))

unfoldable pub participating : List DeviceStatus → Profile → List (List ℕ)
participating devices p =
    map (λ f. f.device.id)
      (filter_by
        (λ f.
          not (length f.mapping == 0) && length (filter_by (range_matches f.device) devices) == 1)
        p.followers)

-- The numbers `n`, `n + 1` and so on, `count` of them.
abbrev pub counting : ℕ → ℕ → List ℕ
counting n zero = []
counting n (suc count) = n ∷ counting (n + 1) count

-- `minimum..=maximum`
abbrev pub master_range : Profile → List ℕ
master_range p = counting p.master.minimum (p.master.maximum + 1 - p.master.minimum)

-- Every follower that takes part has a point for this volume of the master.
unfoldable pub is_shared : Profile → List (List ℕ) → ℕ → Bool
is_shared p participating index =
    all (λ f. BTreeMap.contains_key index f.mapping)
      (filter_by (λ f. any (text_eq f.device.id) participating) p.followers)

unfoldable pub available : Profile → List (List ℕ) → List ℕ
available p participating = filter_by (is_shared p participating) (master_range p)

abbrev pub abs_diff : ℕ → ℕ → ℕ
abs_diff a b = (a - b) + (b - a)

unfoldable pub nearest : Profile → ℕ → List (List ℕ) → Option ℕ
nearest p requested participating =
    min_by_key (λ index. abs_diff index requested) (available p participating)

pub record Library : Type 0 where
  pub version : ℕ
  pub active : Option ℕ
  pub profiles : List Profile

abbrev pub default_library : Library
default_library = record { version = 1; active = none; profiles = [] }

-- The loop over the profiles; `ids` are the identifiers before.
unfoldable pub check_profiles : List ℕ → List Profile → Result (List ℕ) ProfileError
check_profiles ids [] = ok ids
check_profiles ids (profile ∷ profiles) =
    validate profile
    >> (ensure (not (any (λ id. id == profile.id) ids)) duplicate_profile
        >> check_profiles (profile.id ∷ ids) profiles)

abbrev pub is_known : Option ℕ → List ℕ → Bool
is_known none ids = true
is_known (some active) ids = any (λ id. id == active) ids

unfoldable pub check_library : Library → Result (Unit {0}) ProfileError
check_library library =
    ensure (library.version == 1) unsupported_format
    >> (ensure (leb (length library.profiles) 128) too_many_profiles
        >> (check_profiles [] library.profiles >>= λ ids.
            ensure (is_known library.active ids) no_active_profile))

abbrev pub is_active : Option ℕ → Profile → Bool
is_active none p = false
is_active (some active) p = p.id == active

unfoldable pub current : Library → Option Profile
current library = find (is_active library.active) library.profiles

abbrev pub highest_id : List Profile → ℕ
highest_id [] = 0
highest_id (p ∷ ps) = max p.id (highest_id ps)

-- The identifier under which `put` stores a profile.
unfoldable pub stored_id : Library → Profile → Result ℕ ProfileError
stored_id library profile =
    if profile.id == 0
    then ensure (ltb (length library.profiles) 128) too_many_profiles
      >> (ensure (ltb (highest_id library.profiles + 1) (2 ^ 64)) ids_exhausted
          >> ok (highest_id library.profiles + 1))
    else ok profile.id

-- The first profile with the same identifier is replaced; where there is none the profile is
-- appended.
unfoldable pub store_profile : Profile → List Profile → List Profile
store_profile profile [] = profile ∷ []
store_profile profile (p ∷ ps) =
    if p.id == profile.id then profile ∷ ps else p ∷ store_profile profile ps

unfoldable pub put : Library → Profile → Result (Library × ℕ) ProfileError
put library given =
    let profile : Profile = record given { name = trim given.name } in
    validate profile
    >> (stored_id library profile >>= λ id. ok (
      record library {
        profiles = store_profile (record profile { id = id }) library.profiles;
        active = some id;
      },
      id,
    ))
