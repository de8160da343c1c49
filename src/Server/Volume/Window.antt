-- ===== src/Server/Volume/Window.antt =====
-- windows-server/src/application/volume_control.rs: the operations of the calibration window. Where
-- a call gives an error, the state is the one at which the call stopped.
use soundwave.Base.{
  ℕ, List, [], ◌∷◌, ◌++◌, Bool, true, false, not, ◌&&◌, Option, none, some, length, any, find, ◌==◌,
  if◌then◌else◌, Result, ok, err,
}
use soundwave.Base.BTreeMap
use soundwave.Protocol.Control.{DeviceStatus, calibration_session, calibration_tone, cancel}
use soundwave.Server.Silence.{AudioTransmissionGate, set_calibrating}
use soundwave.Server.Registry.{
  Controls, Registry, RegistryError, ReceiverSnapshot, snapshots, broadcast, deny_all,
}
use soundwave.Server.Registry.Requests.{restore_volume_request}
use soundwave.Server.Profiles.{Profile, ProfileError, Library, current, validate}
use soundwave.Server.Volume.{
  empty, not_restored, VolumeError, already_open, not_open, still_pending, not_writable, no_master,
  bad_master, no_profile, write_failed, profile_error, Disk, Controller, persisted, volume_of,
  devices_of,
}
use soundwave.Server.Volume.Editing.{with_followers, drafted, prepared, may_lead, without_profile}

module _ (c : Controls) where
  abbrev pub Outcome : Type 0
  Outcome = Controller c × Result (Unit {0}) VolumeError

  abbrev with_original : ℕ → Option DeviceStatus → List (ℕ × DeviceStatus) → List (ℕ × DeviceStatus)
  with_original id none rest = rest
  with_original id (some device) rest = (id, device) ∷ rest

  -- `filter_map(|r| r.device.map(|d| (r.id, d)))`
  abbrev pub originals_of : List (ReceiverSnapshot c) → List (ℕ × DeviceStatus)
  originals_of [] = []
  originals_of (r ∷ rs) = with_original r.id r.device (originals_of rs)

  abbrev pub opened : Controller c → Controller c
  opened w = record w {
    state = record w.state {
      editing = true;
      draft = current w.state.library;
      originals = originals_of (snapshots c w.registry);
      blocked = [];
    };
    registry = deny_all c w.registry;
  }

  -- `open`
  unfoldable pub open_window :
      AudioTransmissionGate
      → Controller c
      → Controller c × AudioTransmissionGate × Result (Unit {0}) VolumeError
  open_window gate w =
      if w.state.editing
      then (w, gate, err already_open)
      else if not (length w.state.pending == 0)
      then (w, gate, err still_pending)
      else (opened w, set_calibrating true gate, ok tt)

  -- One device gets its volume back.
  abbrev pub restoring :
      ℕ → ℕ → DeviceStatus → Controller c → Registry c × Result ℕ RegistryError → Controller c
  restoring now id original w (g, ok request) = record w {
    registry = g;
    state = record w.state {
      pending =
          BTreeMap.insert id (record { request = request; index = original.volume; at = now })
            w.state.pending;
    };
  }
  restoring now id original w (g, err e) = record w {
    registry = g;
    state = record w.state { message = not_restored original.name };
  }

  unfoldable pub restore_all : ℕ → List (ℕ × DeviceStatus) → Controller c → Controller c
  restore_all now [] w = w
  restore_all now ((id, original) ∷ originals) w =
      restore_all now originals
        (restoring now id original w (restore_volume_request c id original.volume w.registry))

  abbrev pub cancelled : Registry c → Registry c
  cancelled g =
      broadcast c (calibration_session 0 cancel) (broadcast c (calibration_tone 0 false) g)

  abbrev pub closing : Controller c → Controller c
  closing w = record w {
    state = record w.state { editing = false; draft = none; master_seen = none; blocked = [] };
  }

  unfoldable pub close :
      ℕ → AudioTransmissionGate → Controller c → Controller c × AudioTransmissionGate
  close now gate w = (
    closing (
        restore_all now w.state.originals (record w {
          registry = cancelled w.registry;
          state = record w.state { pending = []; originals = [] };
        })),
    set_calibrating false gate,
  )

  -- What the worker of `new` does once it is shut down.
  unfoldable pub shut_down : AudioTransmissionGate → Registry c → Registry c × AudioTransmissionGate
  shut_down gate g = (
    broadcast c (calibration_tone 0 false)
        (broadcast c (calibration_session 0 cancel) (deny_all c g)),
    set_calibrating false gate,
  )

  abbrev pub draft_master : Profile → Controller c → Controller c
  draft_master draft w = record w {
    state = record w.state {
      draft = some (record draft {
        followers =
            with_followers draft.master.id (devices_of c (snapshots c w.registry)) draft.followers;
      });
    };
  }

  abbrev pub draft_chosen : Controller c → Option Profile → Option Outcome
  draft_chosen w none = none
  draft_chosen w (some draft) = some (draft_master draft w, ok tt)

  abbrev pub choose_master : DeviceStatus → Controller c → Option Outcome
  choose_master master w =
      if not w.state.editing
      then some (w, err not_open)
      else draft_chosen w (drafted master w.state.draft)

  unfoldable pub set_master : DeviceStatus → Controller c → Option Outcome
  set_master master w =
      if not (may_lead master) then some (w, err bad_master) else choose_master master w

  unfoldable pub remember : ℕ → DeviceStatus → Controller c → Controller c
  remember id device w =
      if w.state.editing && not (any (λ e. e.0 == id) w.state.originals)
      then record w {
        state = record w.state { originals = w.state.originals ++ (id, device) ∷ [] };
      }
      else w

  unfoldable pub new_draft : Controller c → Outcome
  new_draft w =
      if not w.state.editing
      then (w, err not_open)
      else (record w { state = record w.state { draft = none } }, ok tt)

  abbrev pub edit_draft :
      (Profile → Profile × Result (Unit {0}) VolumeError) → Controller c → Option Profile → Outcome
  edit_draft change w none = (w, err no_master)
  edit_draft change w (some draft) =
      let (changed, result) = change draft in
      (record w { state = record w.state { draft = some changed } }, result)

  -- `change` gives the draft as it leaves it, an error included.
  unfoldable pub edit : (Profile → Profile × Result (Unit {0}) VolumeError) → Controller c → Outcome
  edit change w =
      if not w.state.editing then (w, err not_open) else edit_draft change w w.state.draft

  abbrev pub validated : Profile → Controller c → Result (Unit {0}) ProfileError → Outcome
  validated draft w (err e) = (w, err (profile_error e))
  validated draft w (ok valid) =
      if not w.state.editing
      then (w, err not_open)
      else (record w { state = record w.state { draft = some draft } }, ok tt)

  unfoldable pub set_draft : Profile → Controller c → Outcome
  set_draft draft w = validated draft w (validate draft)

  abbrev pub saved_draft : Disk → Controller c → Result (Library × Profile) VolumeError → Outcome
  saved_draft disk w (err e) = (w, err e)
  saved_draft disk w (ok (library, draft)) =
      if not (disk.save library) then (w, err write_failed) else (
        record w {
          file = library;
          state = record w.state {
            library = library;
            confirmed = some (draft.id, draft.volume);
            draft = some draft;
            dirty = false;
            master_seen = none;
            message = empty;
          };
        },
        ok tt,
      )

  unfoldable pub save_draft : Disk → List ℕ → Bool → Controller c → Outcome
  save_draft disk name copy w = saved_draft disk w (prepared name copy w.state)

  abbrev pub select_library : Disk → Library → Controller c → Outcome
  select_library disk library w = if not (disk.save library) then (w, err write_failed) else (
    record w {
      file = library;
      registry = deny_all c w.registry;
      state = record w.state {
        confirmed = volume_of (current library);
        library = library;
        pending = [];
        blocked = [];
        master_seen = none;
        needs_fence = true;
        dirty = false;
        message = empty;
      };
    },
    ok tt,
  )

  unfoldable pub select : Disk → ℕ → Controller c → Outcome
  select disk id w =
      if not (length w.state.pending == 0)
      then (w, err still_pending)
      else if not (any (λ p. p.id == id) w.state.library.profiles)
      then (w, err no_profile)
      else if w.state.editing
      then (
        record w {
          state = record w.state { draft = find (λ p. p.id == id) w.state.library.profiles };
        },
        ok tt,
      )
      else if w.state.load_error
      then (w, err not_writable)
      else select_library disk (record (persisted w.state) { active = some id }) w

  abbrev pub delete_library : Disk → Library → Controller c → Outcome
  delete_library disk library w = if not (disk.save library) then (w, err write_failed) else (
    record w {
      file = library;
      state = record w.state {
        confirmed = volume_of (current library);
        library = library;
        draft = current library;
        dirty = false;
      };
    },
    ok tt,
  )

  unfoldable pub delete : Disk → ℕ → Controller c → Outcome
  delete disk id w =
      if not w.state.editing
      then (w, err not_open)
      else if w.state.load_error
      then (w, err not_writable)
      else delete_library disk (without_profile id (persisted w.state)) w
