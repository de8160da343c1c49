-- ===== src/Server/Volume/Saves.antt =====
-- windows-server/src/application/volume_control.rs: what `tick` writes.
use soundwave.Base.{
  ℕ, ◌≡◌, refl, subst, List, [], ◌∷◌, Bool, true, false, not, ◌&&◌, ◌||◌, Option, none, some, map,
  filter_by, ◌⊎◌, inl, inr, all, leb, ◌+◌, ◌*◌, arith, if◌then◌else◌,
}
use soundwave.Base.BTreeMap
use soundwave.Base.BTreeMap.{BTreeMap}
use soundwave.Protocol.Control.{DeviceStatus}
use soundwave.Server.Registry.{Controls, Registry, ReceiverSnapshot, snapshots}
use soundwave.Server.Registry.Device.{has_panel_barrier, take_unsolicited_volume}
use soundwave.Server.Profiles.{Profile, current, participating, nearest, Library}
use soundwave.Server.Volume.{
  State, Disk, Controller, matches_snapshot, devices_of, persisted, not_saved,
}
use soundwave.Server.Volume.Asking.{denied, millisecond}
use soundwave.Server.Volume.Reviewing.{review, reviewed, Reviewed}
use soundwave.Server.Volume.Driving.{fence_at, drive, follower_targets}
use soundwave.Server.Volume.Ticking.{
  follow, requested_volume, with_master, with_masters, with_profile, after_review, tick, retain_ids,
  follow_at, settle, drive_targets, write_confirmed,
}
use soundwave.Server.Volume.Steady.{Steady, fence_at-P, Driven, drive-Driven}
use soundwave.Server.Volume.Settled.{Settled, drive-Settled, is_settled}

module _ (c : Controls) where
  -- A disk that takes nothing.
  abbrev full : Disk
  full = record { save = λ library. false }

  file_steady : (file : Library) → Steady c full (λ w. w.file ≡ file)
  file_steady file = record {
    driving = λ o w h. h;
    noting = λ s w e h. h;
    storing = λ library s w readable saved e h. absurd (ground arith);
  }

  -- The volume that is confirmed is backed: the devices that were seen have their targets, that of
  -- the master among them, and nothing of theirs is pending or has failed.
  abbrev pub Backed : List (ReceiverSnapshot c) → State → Type 0
  Backed seen s =
      (profile : ℕ) × (index : ℕ) × (master : ℕ) × (targets : List (ℕ × ℕ)) × (s.confirmed
        ≡ some (profile, index))
      × (all (is_settled c seen s) ((master, index) ∷ targets) ≡ true)

  -- The file is as it was, or holds the library with the volume that is confirmed, which is backed.
  abbrev pub Saves : List (ReceiverSnapshot c) → Library → Option (Controller c) → Type 0
  Saves seen file none = Unit
  Saves seen file (some w) = (w.file ≡ file) ⊎ ((w.file ≡ persisted w.state) × Backed seen w.state)

  module _ (disk : Disk) (now : ℕ) (seen : List (ReceiverSnapshot c)) (file : Library) where
    if-Saves :
        (b : Bool) (x y : Option (Controller c))
        → Saves seen file x
        → Saves seen file y
        → Saves seen file (if b then x else y)
    if-Saves true x y h k = h
    if-Saves false x y h k = k

    if_some-Saves :
        (b : Bool) (x y : Controller c)
        → Saves seen file (some x)
        → Saves seen file (some y)
        → Saves seen file (some (if b then x else y))
    if_some-Saves true x y h k = h
    if_some-Saves false x y h k = k

    write_confirmed-Saves :
        (w : Controller c)
        → w.file ≡ file
        → Backed seen w.state
        → Saves seen file (some (write_confirmed c disk now w))
    unfolding persisted
    write_confirmed-Saves w h b =
        let s = w.state in
        let written : Controller c = record w {
          file = persisted s;
          state = record s { dirty = false };
        } in
        let unwritten : Controller c = record w {
          state = record s { message = not_saved; changed = now + 4000 * millisecond };
        } in
        if_some-Saves (not (s.dirty && leb (s.changed + 500 * millisecond) now)) w
          (if not s.load_error && disk.save (persisted s) then written else unwritten) (inl h)
          (if_some-Saves (not s.load_error && disk.save (persisted s)) written unwritten
            (inr (refl, b)) (inl h))

    settle-Saves :
        (profile index master : ℕ) (targets : List (ℕ × ℕ)) (w : Controller c)
        (o : Option (Controller c × Bool))
        → Driven c full (λ w. w.file ≡ file) (file_steady file) o
        → ((w1 : Controller c)
            → o ≡ some (w1, true)
            → Settled c seen ((master, index) ∷ targets) w w1)
        → Saves seen file (settle c disk now profile index seen ((master, index) ∷ targets) o)
    settle-Saves profile index master targets w none h k = tt
    settle-Saves profile index master targets w (some (w1, false)) h k = inl h
    settle-Saves profile index master targets w (some (w1, true)) h k =
        let (same, fits) = k w1 refl in
        write_confirmed-Saves _ h (
          profile,
          index,
          master,
          targets,
          refl,
          subst
              (λ (w : Controller c).
                all (is_settled c seen w.state) ((master, index) ∷ targets) ≡ true)
              same fits,
        )

    drive_targets-Saves :
        (profile index master : ℕ) (w : Controller c) (o : Option (List (ℕ × ℕ)))
        → w.file ≡ file
        → Saves seen file (drive_targets c disk now profile index seen w master o)
    drive_targets-Saves profile index master w none h = tt
    drive_targets-Saves profile index master w (some targets) h =
        let all_targets = (master, index) ∷ targets in
        settle-Saves profile index master targets w (drive c now seen all_targets w)
          (drive-Driven c full (λ w. w.file ≡ file) (file_steady file) now seen all_targets w h)
          (λ w1 e. drive-Settled c now seen all_targets w w1 e)

    follow_at-Saves :
        (profile : Profile) (part : List (List ℕ)) (master : ℕ) (w : Controller c) (o : Option ℕ)
        → w.file ≡ file
        → Saves seen file (follow_at c disk now profile seen part master w o)
    follow_at-Saves profile part master w none h = inl h
    follow_at-Saves profile part master w (some index) h =
        drive_targets-Saves profile.id index master _
          (follower_targets c seen part index profile.followers) h

    follow-Saves :
        (profile : Profile) (part : List (List ℕ)) (master : ReceiverSnapshot c) (volume : ℕ)
        (w : Controller c) (x : Registry c × Option ℕ)
        → w.file ≡ file
        → Saves seen file (follow c disk now profile seen part master volume w x)
    follow-Saves profile part master volume w (g, unsolicited) h =
        follow_at-Saves profile part master.id _
          (nearest profile
            (requested_volume c w.state.master_seen master.id profile.volume unsolicited) part)
          h

    with_master-Saves :
        (profile : Profile) (master : ReceiverSnapshot c) (w : Controller c)
        (o : Option DeviceStatus)
        → w.file ≡ file
        → Saves seen file (with_master c disk now profile seen master w o)
    with_master-Saves profile master w none h = tt
    with_master-Saves profile master w (some device) h =
        let part = participating (devices_of c seen) profile in
        if-Saves
          ((w.state.needs_fence || has_panel_barrier c master.id w.registry)
            && not (BTreeMap.contains_key master.id w.state.pending))
          (some (
            fence_at c now master.id device.volume (denied c w)
              (nearest profile profile.volume part)))
          (follow c disk now profile seen part master device.volume w
            (take_unsolicited_volume c master.id w.registry))
          (inl (
            fence_at-P c full (λ w. w.file ≡ file) (file_steady file) now master.id device.volume
              (denied c w) (nearest profile profile.volume part) h))
          (follow-Saves profile part master device.volume w
            (take_unsolicited_volume c master.id w.registry) h)

    with_masters-Saves :
        (profile : Profile) (w : Controller c) (masters : List (ReceiverSnapshot c))
        → w.file ≡ file
        → Saves seen file (with_masters c disk now profile seen w masters)
    with_masters-Saves profile w [] h = inl h
    with_masters-Saves profile w (master ∷ []) h =
        with_master-Saves profile master w master.device h
    with_masters-Saves profile w (master ∷ other ∷ more) h = inl h

    with_profile-Saves :
        (w : Controller c) (o : Option Profile)
        → w.file ≡ file
        → Saves seen file (with_profile c disk now seen w o)
    with_profile-Saves w none h = inl h
    with_profile-Saves w (some profile) h =
        with_masters-Saves profile w (filter_by (matches_snapshot c profile.master) seen) h

  reviewed_file : (w : Controller c) (outcome : Reviewed c) → (reviewed c w outcome).file ≡ w.file
  reviewed_file w (g, kept, failures) = refl

  pub tick-Saves :
      (disk : Disk) (now : ℕ) (w : Controller c)
      → Saves (snapshots c w.registry) w.file (tick c disk now w)
  unfolding tick
  tick-Saves disk now w =
      let seen = snapshots c w.registry in
      let ids = map (λ s. s.id) seen in
      let s : State = record w.state { blocked = retain_ids c ids w.state.blocked } in
      let retained : Controller c = record w { state = s } in
      let outcome = review c now ids w.registry w.state.pending in
      let next = reviewed c retained outcome in
      if-Saves disk now seen w.file w.state.editing (some (denied c w))
        (after_review c disk now seen next) (inl refl)
        (with_profile-Saves disk now seen w.file next (current next.state.library)
          (reviewed_file retained outcome))
