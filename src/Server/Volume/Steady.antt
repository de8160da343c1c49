-- ===== src/Server/Volume/Steady.antt =====
-- windows-server/src/application/volume_control.rs: laws of a property of the controller, and the
-- stages of `tick` that drive devices.
use soundwave.Base.{
  ℕ, ◌+◌, ◌*◌, ◌≡◌, refl, arith, List, [], ◌∷◌, Bool, true, false, not, ◌&&◌, ◌||◌, Option, none,
  some, leb, ◌==◌, if◌then◌else◌, Result, ok, err, Bool-cases, inl, inr,
}
use soundwave.Base.BTreeMap
use soundwave.Base.BTreeMap.{BTreeMap}
use soundwave.Protocol.Control.{DeviceStatus, restore_speaker}
use soundwave.Server.Registry.{Controls, Registry, RegistryError, ReceiverSnapshot}
use soundwave.Server.Registry.Requests.{
  panel_volume_request, restore_volume_request, volume_request_with_barrier,
}
use soundwave.Server.Registry.Step.{Operation, perform, denies_all, requests_volume, approves}
use soundwave.Server.Profiles.{Profile, Library}
use soundwave.Server.Volume.{not_saved, State, Disk, Controller, persisted}
use soundwave.Server.Volume.Asking.{millisecond, denied}
use soundwave.Server.Volume.Driving.{
  asked, fence_asked, fence_at, waits, seen_device, drive_one, and_ready, drive_seen, drive,
  expected, follower_targets,
}
use soundwave.Server.Volume.Ticking.{write_confirmed, settle, drive_targets, follow_at, commit}

module _ (c : Controls) where
  -- A property of the controller that an operation on the registry, a change of the state that
  -- keeps the load error, and the writing of a library where there was none and the disk takes it preserve.
  pub record Steady (disk : Disk) (P : Controller c → Type 0) : Type 0 where
    pub driving :
        (o : Operation c) (w : Controller c)
        → P w
        → P (record w { registry = perform c o w.registry })
    pub noting :
        (s : State) (w : Controller c)
        → s.load_error ≡ w.state.load_error
        → P w
        → P (record w { state = s })
    pub storing :
        (library : Library) (s : State) (w : Controller c)
        → w.state.load_error ≡ false
        → disk.save library ≡ true
        → s.load_error ≡ w.state.load_error
        → P w
        → P (record w { file = library; state = s })

  module _ (disk : Disk) (P : Controller c → Type 0) (steady : Steady disk P) where
    abbrev pub All-of : Option (Controller c) → Type 0
    All-of none = Unit
    All-of (some w) = P w

    pub asked-P :
        (now id index : ℕ) (w : Controller c) (x : Registry c × Result ℕ RegistryError)
        → P (record w { registry = x.0 })
        → P (asked c now id index w x)
    asked-P now id index w (g, ok request) h = steady.noting _ (record w { registry = g }) refl h
    asked-P now id index w (g, err e) h = steady.noting _ (record w { registry = g }) refl h

    fence_asked-P :
        (now id volume index : ℕ) (w : Controller c) (x : Registry c × Result ℕ RegistryError)
        → P (record w { registry = x.0 })
        → P (fence_asked c now id volume index w x)
    fence_asked-P now id volume index w (g, ok request) h =
        steady.noting _ (record w { registry = g }) refl h
    fence_asked-P now id volume index w (g, err e) h =
        steady.noting _ (record w { registry = g }) refl h

    pub requested-P :
        (id index : ℕ) (barrier : Bool) (w : Controller c)
        → P w
        → P (record w {
          registry = (volume_request_with_barrier c id index restore_speaker barrier w.registry).0;
        })
    unfolding perform
    requested-P id index barrier w h =
        steady.driving (requests_volume id index restore_speaker barrier) w h

    pub denied-P : (w : Controller c) → P w → P (denied c w)
    unfolding perform
    denied-P w h = steady.driving denies_all w h

    pub if-P : (b : Bool) (x y : Controller c) → P x → P y → P (if b then x else y)
    if-P true x y h k = h
    if-P false x y h k = k

    pub fence_at-P :
        (now id volume : ℕ) (w : Controller c) (o : Option ℕ)
        → P w
        → P (fence_at c now id volume w o)
    fence_at-P now id volume w none h = h
    fence_at-P now id volume w (some index) h =
        let x = panel_volume_request c id index w.registry in
        if-P (BTreeMap.contains_key id w.state.blocked) w (fence_asked c now id volume index w x) h
          (fence_asked-P now id volume index w x (requested-P id index true w h))

    drive_one-P :
        (now id target : ℕ) (actual : DeviceStatus) (w : Controller c)
        → P w
        → P (drive_one c now id target actual w).0
    drive_one-P now id target actual w h =
        let x = restore_volume_request c id target w.registry in
        let settled = actual.volume == target && not (waits c id w.state) in
        if-P (settled || waits c id w.state) w (asked c now id target w x) h
          (asked-P now id target w x (requested-P id target false w h))

    write_confirmed-P : (now : ℕ) (w : Controller c) → P w → P (write_confirmed c disk now w)
    write_confirmed-P now w h =
        let s = w.state in
        let written : Controller c = record w {
          file = persisted s;
          state = record s { dirty = false };
        } in
        let unwritten : Controller c = record w {
          state = record s { message = not_saved; changed = now + 4000 * millisecond };
        } in
        if-P (not (s.dirty && leb (s.changed + 500 * millisecond) now)) w
          (if not s.load_error && disk.save (persisted s) then written else unwritten) h
          (elim (Bool-cases (not s.load_error && disk.save (persisted s))) [
            | inl saved ↦ rw saved (
                steady.storing (persisted s) (record s { dirty = false }) w (ground arith)
                  (ground arith) refl h)
            | inr failed ↦ rw failed (steady.noting unwritten.state w refl h)
          ])

    abbrev pub Driven : Option (Controller c × Bool) → Type 0
    Driven none = Unit
    Driven (some (w, ready)) = P w

    and_ready-Driven :
        (ready : Bool) (o : Option (Controller c × Bool)) → Driven o → Driven (and_ready c ready o)
    and_ready-Driven ready none h = h
    and_ready-Driven ready (some (w, rest)) h = h

    drive_seen-Driven :
        (now id target : ℕ) (w : Controller c) (o : Option DeviceStatus)
        (rest : Controller c → Option (Controller c × Bool))
        → ((w : Controller c) → P w → Driven (rest w))
        → P w
        → Driven (drive_seen c now id target w o rest)
    drive_seen-Driven now id target w none rest k h = tt
    drive_seen-Driven now id target w (some actual) rest k h =
        let one = drive_one c now id target actual w in
        and_ready-Driven one.1 (rest one.0) (k one.0 (drive_one-P now id target actual w h))

    pub drive-Driven :
        (now : ℕ) (seen : List (ReceiverSnapshot c)) (targets : List (ℕ × ℕ)) (w : Controller c)
        → P w
        → Driven (drive c now seen targets w)
    unfolding drive
    drive-Driven now seen [] w h = h
    drive-Driven now seen ((id, target) ∷ targets) w h =
        drive_seen-Driven now id target w (seen_device c seen id) (drive c now seen targets)
          (drive-Driven now seen targets) h

    settle-P :
        (now profile index : ℕ) (seen : List (ReceiverSnapshot c)) (targets : List (ℕ × ℕ))
        (o : Option (Controller c × Bool))
        → Driven o
        → All-of (settle c disk now profile index seen targets o)
    unfolding perform
    settle-P now profile index seen targets none h = tt
    settle-P now profile index seen targets (some (w, false)) h = denied-P w h
    settle-P now profile index seen targets (some (w, true)) h =
        let s : State = record w.state { confirmed = some (profile, index) } in
        write_confirmed-P now _
          (steady.noting s _ refl (steady.driving (approves (expected c seen targets)) w h))

    drive_targets-P :
        (now profile index : ℕ) (seen : List (ReceiverSnapshot c)) (w : Controller c) (master : ℕ)
        (o : Option (List (ℕ × ℕ)))
        → P w
        → All-of (drive_targets c disk now profile index seen w master o)
    drive_targets-P now profile index seen w master none h = tt
    drive_targets-P now profile index seen w master (some targets) h =
        let all_targets = (master, index) ∷ targets in
        settle-P now profile index seen all_targets (drive c now seen all_targets w)
          (drive-Driven now seen all_targets w h)

    pub follow_at-P :
        (now : ℕ) (profile : Profile) (seen : List (ReceiverSnapshot c)) (part : List (List ℕ))
        (master : ℕ) (w : Controller c) (o : Option ℕ)
        → P w
        → All-of (follow_at c disk now profile seen part master w o)
    follow_at-P now profile seen part master w none h = denied-P w h
    follow_at-P now profile seen part master w (some index) h =
        drive_targets-P now profile.id index seen _ master
          (follower_targets c seen part index profile.followers)
          (steady.noting (commit c now profile index w.state) w (ground arith) h)

    pub if-All-of :
        (b : Bool) (x y : Option (Controller c)) → All-of x → All-of y → All-of (if b then x else y)
    if-All-of true x y h k = h
    if-All-of false x y h k = k
