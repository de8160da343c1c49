-- ===== src/Server/Profiles/Examples.antt =====
-- The profiles of the source's own tests.
use soundwave.Base.{min_by_key, ℕ, ◌≡◌, ◌≢◌, inl, refl, List, [], ◌∷◌, some, ok}
use soundwave.Base.BTreeMap
use soundwave.Server.Profiles.{
  DeviceRange, Profile, Library, default_library, validate, check_devices, is_shared, available,
  nearest, put, current, check_library, check_profiles, stored_id, store_profile,
}
use soundwave.Server.Profiles.Nearest.{IsNearest, nearest-IsNearest}
use soundwave.Server.Profiles.Stored.{put-check_library, stored_as}

abbrev device : List ℕ → ℕ → DeviceRange
device id maximum = record { id = id; name = b'N' ∷ []; minimum = 0; maximum = maximum }

abbrev slave : List ℕ
slave = b's' ∷ b'-' ∷ b'1' ∷ []

abbrev room : Profile
room = record {
  id = 0;
  name = b' ' ∷ b'R' ∷ b' ' ∷ [];
  master = device (b'm' ∷ []) 15;
  followers = record { device = device slave 30; mapping = (2, 5) ∷ (4, 9) ∷ [] } ∷ [];
  volume = 2;
}

-- `participating_followers_restrict_master_to_explicit_points`
restricted : (available room (slave ∷ []) ≡ 2 ∷ 4 ∷ []) × (nearest room 3 (slave ∷ []) ≡ some 2)
unfolding available is_shared nearest BTreeMap.get min_by_key
restricted = (refl, refl)

nearest-IsNearest_example : IsNearest room 3 (slave ∷ []) 4 (nearest room 3 (slave ∷ []))
nearest-IsNearest_example = nearest-IsNearest room 3 (slave ∷ []) 4

abbrev with_room : Library
with_room = record { version = 1; active = some 1; profiles = stored_as 1 room ∷ [] }

put-room : put default_library room ≡ ok (with_room, 1)
unfolding put validate check_devices stored_id store_profile
put-room = refl

default_loads : check_library default_library ≡ ok tt
unfolding check_library check_profiles
default_loads = refl

put-check_library_example :
    (check_library with_room ≡ ok tt)
    × (current with_room ≡ some (stored_as 1 room))
    × (◌≢◌ {A = ℕ} 1 0)
put-check_library_example =
    put-check_library default_library with_room room 1 default_loads (inl refl) put-room
