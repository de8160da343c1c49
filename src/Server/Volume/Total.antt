-- ===== src/Server/Volume/Total.antt =====
-- windows-server/src/application/volume_control.rs: the receivers that `tick` looks up.
use soundwave.Base.{
  ◌⊎◌, ◌<◌, ℕ, ◌≡◌, refl, subst, arith, List, [], ◌∷◌, Bool, true, false, ◌&&◌, Option, none, some,
  is_some, map, all, any, filter_by, find, ◌==◌, ==_refl, Bool-cases, inl, inr,
}
use soundwave.Base.BTreeMap
use soundwave.Base.BTreeMap.{BTreeMap}
use soundwave.Base.BTreeMap.Laws.{IsAscending-of_Above, Above-weaken}
use soundwave.Base.Text.{text_eq}
use soundwave.Protocol.Control.{DeviceStatus}
use soundwave.Server.Registry.{
  Controls, Registry, Receiver, ReceiverSnapshot, snapshots, is_some_and,
}
use soundwave.Server.Profiles.{DeviceRange, Profile, Follower, is_shared, range_matches}
use soundwave.Server.Volume.{Disk, Controller, matches_snapshot}
use soundwave.Server.Volume.Settled.{and-left, and-right}
use soundwave.Server.Volume.Driving.{
  seen_device, drive_one, and_ready, drive_seen, drive, also_target, target_at, follower_targets,
}
use soundwave.Server.Volume.Ticking.{settle, drive_targets, follow_at}

find-cons :
    {A : Type 0} (q : A → Bool) (x : A) (xs : List A) (r : A)
    → find q (x ∷ xs) ≡ some r
    → ((q x ≡ true) × (x ≡ r)) ⊎ ((q x ≡ false) × (find q xs ≡ some r))
find-cons q x xs r e = elim (Bool-cases (q x)) [
  | inl here ↦ inl (here, ground arith)
  | inr gone ↦ inr (gone, ground arith)
]

find-holds : {A : Type 0} (q : A → Bool) (xs : List A) (r : A) → find q xs ≡ some r → q r ≡ true
find-holds q [] r e = absurd (ground arith)
find-holds q (x ∷ xs) r e = elim (find-cons q x xs r e) [
  | inl (here, is) ↦ subst (λ x. q x ≡ true) is here
  | inr (gone, later) ↦ find-holds q xs r later
]

pub find-filter_by :
    {A : Type 0} (q : A → Bool) (xs : List A) (r : A) (rs : List A)
    → filter_by q xs ≡ r ∷ rs
    → find q xs ≡ some r
find-filter_by q [] r rs e = absurd (ground arith)
find-filter_by q (x ∷ xs) r rs e = ground (arith, find-filter_by q xs r rs)

-- What the volume that `nearest` gives is good for.
abbrev pub IsShared : Profile → List (List ℕ) → Option ℕ → Type 0
IsShared p part none = Unit
IsShared p part (some index) = is_shared p part index ≡ true

module _ (c : Controls) where
  abbrev pub snapshot : ℕ × Receiver c → ReceiverSnapshot c
  snapshot e = record { id = e.0; peer = e.1.peer; device = e.1.device; playing = e.1.playback }

  found-Above :
      (q : ReceiverSnapshot c → Bool) (lo : ℕ) (m : BTreeMap (Receiver c)) (r : ReceiverSnapshot c)
      → BTreeMap.Above lo m
      → find q (map snapshot m) ≡ some r
      → lo < r.id
  found-Above q lo [] r a e = absurd (ground arith)
  found-Above q lo ((id, s) ∷ m) r a e =
      elim (find-cons q (snapshot (id, s)) (map snapshot m) r e) [
        | inl (here, is) ↦ subst (λ (r : ReceiverSnapshot c). lo < r.id) is a.0
        | inr (gone, later) ↦ found-Above q lo m r (Above-weaken lo id m (omega arith) a.1) later
      ]

  -- The receiver that is found by a test is the one found by its identifier.
  find-id :
      (q : ReceiverSnapshot c → Bool) (m : BTreeMap (Receiver c)) (r : ReceiverSnapshot c)
      → BTreeMap.IsAscending m
      → find q (map snapshot m) ≡ some r
      → find (λ s. s.id == r.id) (map snapshot m) ≡ some r
  find-id q [] r a e = e
  find-id q ((id, s) ∷ m) r a e = elim (find-cons q (snapshot (id, s)) (map snapshot m) r e) [
    | inl (here, is) ↦
        subst
          (λ (r : ReceiverSnapshot c).
            find (λ s. s.id == r.id) (map snapshot ((id, s) ∷ m)) ≡ some r)
          is (rw (==_refl id) refl)
    | inr (gone, later) ↦
        ground
          (arith, found-Above q id m r a later, find-id q m r (IsAscending-of_Above id m a) later)
  ]

  has_device :
      (range : DeviceRange) (o : Option DeviceStatus)
      → is_some_and o (range_matches range) ≡ true
      → is_some o ≡ true
  has_device range none h = absurd (ground arith)
  has_device range (some d) h = refl

  pub matching-device :
      (range : DeviceRange) (g : Registry c) (r : ReceiverSnapshot c)
      → find (matches_snapshot c range) (snapshots c g) ≡ some r
      → is_some r.device ≡ true
  matching-device range g r e =
      has_device range r.device (find-holds (matches_snapshot c range) (snapshots c g) r e)

  pub matching-seen :
      (range : DeviceRange) (g : Registry c) (r : ReceiverSnapshot c)
      → BTreeMap.IsAscending g.receivers
      → find (matches_snapshot c range) (snapshots c g) ≡ some r
      → is_some (seen_device c (snapshots c g) r.id) ≡ true
  unfolding snapshots
  matching-seen range g r a e =
      rw (find-id (matches_snapshot c range) g.receivers r a e)
        (has_device range r.device (find-holds (matches_snapshot c range) (snapshots c g) r e))

  -- Every target is of a receiver that was seen with a device.
  abbrev are_seen : List (ReceiverSnapshot c) → List (ℕ × ℕ) → Bool
  are_seen seen targets = all (λ e. is_some (seen_device c seen e.0)) targets

  abbrev Targets : List (ReceiverSnapshot c) → Option (List (ℕ × ℕ)) → Type 0
  Targets seen none = true ≡ false
  Targets seen (some targets) = are_seen seen targets ≡ true

  also-Targets :
      (seen : List (ReceiverSnapshot c)) (id : ℕ) (o : Option ℕ) (rest : Option (List (ℕ × ℕ)))
      → is_some (seen_device c seen id) ≡ true
      → is_some o ≡ true
      → Targets seen rest
      → Targets seen (also_target c id o rest)
  also-Targets seen id none rest e f h = absurd (ground arith)
  also-Targets seen id (some target) none e f h = h
  also-Targets seen id (some target) (some targets) e f h = ground arith

  target_at-Targets :
      (g : Registry c) (index : ℕ) (f : Follower) (o : Option (ReceiverSnapshot c))
      (rest : Option (List (ℕ × ℕ)))
      → BTreeMap.IsAscending g.receivers
      → find (matches_snapshot c f.device) (snapshots c g) ≡ o
      → BTreeMap.contains_key index f.mapping ≡ true
      → Targets (snapshots c g) rest
      → Targets (snapshots c g) (target_at c index f o rest)
  target_at-Targets g index f none rest a e k h = h
  target_at-Targets g index f (some r) rest a e k h =
      also-Targets (snapshots c g) r.id (BTreeMap.get index f.mapping) rest
        (matching-seen f.device g r a e) k h

  follower-Targets :
      (g : Registry c) (part : List (List ℕ)) (index : ℕ) (fs : List Follower)
      → BTreeMap.IsAscending g.receivers
      → all
          (λ f. BTreeMap.contains_key index f.mapping)
          (filter_by (λ f. any (text_eq f.device.id) part) fs)
        ≡ true
      → Targets (snapshots c g) (follower_targets c (snapshots c g) part index fs)
  unfolding follower_targets
  follower-Targets g part index [] a h = refl
  follower-Targets g part index (f ∷ fs) a h = elim (Bool-cases (any (text_eq f.device.id) part)) [
    | inl in_part ↦
        let both : (BTreeMap.contains_key index f.mapping
              && all (λ f. BTreeMap.contains_key index f.mapping)
                  (filter_by (λ f. any (text_eq f.device.id) part) fs))
            ≡ true =
          ground arith in
        rw in_part (
          target_at-Targets g index f (find (matches_snapshot c f.device) (snapshots c g)) _ a refl
            (and-left _ _ both) (follower-Targets g part index fs a (and-right _ _ both)))
    | inr apart ↦ rw apart (follower-Targets g part index fs a (ground arith))
  ]

  and_ready-total :
      (ready : Bool) (o : Option (Controller c × Bool))
      → is_some o ≡ true
      → is_some (and_ready c ready o) ≡ true
  and_ready-total ready none h = h
  and_ready-total ready (some (w, b)) h = refl

  drive_seen-total :
      (now id target : ℕ) (w : Controller c) (o : Option DeviceStatus)
      (rest : Controller c → Option (Controller c × Bool))
      → ((w : Controller c) → is_some (rest w) ≡ true)
      → is_some o ≡ true
      → is_some (drive_seen c now id target w o rest) ≡ true
  drive_seen-total now id target w none rest h e = e
  drive_seen-total now id target w (some device) rest h e =
      and_ready-total _ (rest (drive_one c now id target device w).0)
        (h (drive_one c now id target device w).0)

  drive-total :
      (now : ℕ) (seen : List (ReceiverSnapshot c)) (targets : List (ℕ × ℕ)) (w : Controller c)
      → are_seen seen targets ≡ true
      → is_some (drive c now seen targets w) ≡ true
  unfolding drive
  drive-total now seen [] w h = refl
  drive-total now seen ((id, target) ∷ targets) w h =
      drive_seen-total now id target w (seen_device c seen id) (drive c now seen targets)
        (λ w. drive-total now seen targets w (and-right _ _ h)) (and-left _ _ h)

  settle-total :
      (disk : Disk) (now profile index : ℕ) (seen : List (ReceiverSnapshot c))
      (targets : List (ℕ × ℕ)) (o : Option (Controller c × Bool))
      → is_some o ≡ true
      → is_some (settle c disk now profile index seen targets o) ≡ true
  settle-total disk now profile index seen targets none h = h
  settle-total disk now profile index seen targets (some (w, false)) h = refl
  settle-total disk now profile index seen targets (some (w, true)) h = refl

  drive_targets-total :
      (disk : Disk) (now profile index : ℕ) (seen : List (ReceiverSnapshot c)) (w : Controller c)
      (master : ℕ) (o : Option (List (ℕ × ℕ)))
      → is_some (seen_device c seen master) ≡ true
      → Targets seen o
      → is_some (drive_targets c disk now profile index seen w master o) ≡ true
  drive_targets-total disk now profile index seen w master none m h = absurd (ground arith)
  drive_targets-total disk now profile index seen w master (some targets) m h =
      let all_targets = (master, index) ∷ targets in
      settle-total disk now profile index seen all_targets (drive c now seen all_targets w)
        (drive-total now seen all_targets w (ground arith))

  pub follow_at-total :
      (disk : Disk) (now requested : ℕ) (profile : Profile) (g : Registry c) (part : List (List ℕ))
      (master : ℕ) (w : Controller c) (o : Option ℕ)
      → BTreeMap.IsAscending g.receivers
      → is_some (seen_device c (snapshots c g) master) ≡ true
      → IsShared profile part o
      → is_some (follow_at c disk now profile (snapshots c g) part master w o) ≡ true
  unfolding is_shared
  follow_at-total disk now requested profile g part master w none a m h = refl
  follow_at-total disk now requested profile g part master w (some index) a m h =
      drive_targets-total disk now profile.id index (snapshots c g) _ master _ m
        (follower-Targets g part index profile.followers a h)
