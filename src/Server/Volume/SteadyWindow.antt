-- ===== src/Server/Volume/SteadyWindow.antt =====
-- windows-server/src/application/volume_control.rs: such a property through the calls of the
-- calibration window.
use soundwave.Base.{
  ℕ, refl, List, [], ◌∷◌, ◌++◌, Bool, true, false, not, ◌&&◌, Option, none, some, any, ◌==◌,
  if◌then◌else◌, Result, ok, err, length,
}
use soundwave.Protocol.Control.{DeviceStatus, calibration_session, calibration_tone, cancel}
use soundwave.Server.Registry.{Controls, Registry, RegistryError}
use soundwave.Server.Registry.Requests.{restore_volume_request}
use soundwave.Server.Registry.Step.{perform, broadcasts}
use soundwave.Server.Profiles.{Profile, ProfileError, validate}
use soundwave.Server.Volume.{
  State, Disk, Controller, VolumeError, already_open, still_pending, bad_master, not_open,
}
use soundwave.Server.Volume.Asking.{denied}
use soundwave.Server.Silence.{set_calibrating, AudioTransmissionGate}
use soundwave.Server.Volume.Editing.{may_lead, drafted}
use soundwave.Server.Volume.Window.{
  open_window, opened, draft_master, draft_chosen, Outcome, choose_master, restoring, restore_all,
  cancelled, closing, close, set_master, remember, new_draft, edit_draft, edit, validated,
  set_draft,
}
use soundwave.Server.Volume.Steady.{Steady, if-P, denied-P, requested-P}

module _ (c : Controls) (disk : Disk) (P : Controller c → Type 0) (steady : Steady c disk P) where
  -- A call that ends with the controller it began with, or with another.
  pub if_fst-P :
      {B : Type 0} (b : Bool) (x y : Controller c × B) → P x.0 → P y.0 → P (if b then x else y).0
  if_fst-P true x y h k = h
  if_fst-P false x y h k = k

  if_first-P :
      {A B : Type 0} (b : Bool) (x y : Controller c × A × B)
      → P x.0
      → P y.0
      → P (if b then x else y).0
  if_first-P true x y h k = h
  if_first-P false x y h k = k

  broadcast-P : (w : Controller c) → P w → P (record w { registry = cancelled c w.registry })
  unfolding perform
  broadcast-P w h =
      let toned = perform c (broadcasts (calibration_tone 0 false)) w.registry in
      steady.driving (broadcasts (calibration_session 0 cancel)) (record w { registry = toned })
        (steady.driving (broadcasts (calibration_tone 0 false)) w h)

  restoring-P :
      (now id : ℕ) (original : DeviceStatus) (w : Controller c)
      (x : Registry c × Result ℕ RegistryError)
      → P (record w { registry = x.0 })
      → P (restoring c now id original w x)
  restoring-P now id original w (g, ok request) h =
      steady.noting _ (record w { registry = g }) refl h
  restoring-P now id original w (g, err e) h = steady.noting _ (record w { registry = g }) refl h

  restore_all-P :
      (now : ℕ) (originals : List (ℕ × DeviceStatus)) (w : Controller c)
      → P w
      → P (restore_all c now originals w)
  unfolding restore_all
  restore_all-P now [] w h = h
  restore_all-P now ((id, original) ∷ originals) w h = restore_all-P now originals _ (
      restoring-P now id original w (restore_volume_request c id original.volume w.registry)
        (requested-P c disk P steady id original.volume false w h))

  pub close-P :
      (now : ℕ) (gate : AudioTransmissionGate) (w : Controller c) → P w → P (close c now gate w).0
  unfolding close
  close-P now gate w h =
      let s : State = record w.state { pending = []; originals = [] } in
      let cleared : Controller c = record w { registry = cancelled c w.registry; state = s } in
      let restored = restore_all c now w.state.originals cleared in
      steady.noting (closing c restored).state restored refl (
        restore_all-P now w.state.originals cleared
          (steady.noting s (record w { registry = cancelled c w.registry }) refl (broadcast-P w h)))

  pub open-P : (gate : AudioTransmissionGate) (w : Controller c) → P w → P (open_window c gate w).0
  unfolding open_window
  open-P gate w h =
      let fine =
        steady.noting (opened c w).state (denied c w) refl (denied-P c disk P steady w h) in
      let rest : Controller c × AudioTransmissionGate × Result (Unit {0}) VolumeError =
        (opened c w, set_calibrating true gate, ok tt) in
      if_first-P w.state.editing (w, gate, err already_open)
        (if not (length w.state.pending == 0) then (w, gate, err still_pending) else rest) h
        (if_first-P (not (length w.state.pending == 0)) (w, gate, err still_pending) rest h fine)

  -- What a call leaves that may panic.
  abbrev pub Leaves : Option (Outcome c) → Type 0
  Leaves none = Unit
  Leaves (some (w, result)) = P w

  pub if-Leaves :
      (b : Bool) (x y : Option (Outcome c)) → Leaves x → Leaves y → Leaves (if b then x else y)
  if-Leaves true x y h k = h
  if-Leaves false x y h k = k

  draft_chosen-Leaves : (w : Controller c) (o : Option Profile) → P w → Leaves (draft_chosen c w o)
  draft_chosen-Leaves w none h = tt
  draft_chosen-Leaves w (some draft) h = steady.noting (draft_master c draft w).state w refl h

  pub set_master-P :
      (master : DeviceStatus) (w : Controller c) → P w → Leaves (set_master c master w)
  unfolding set_master
  set_master-P master w h =
      let drafting = draft_chosen c w (drafted master w.state.draft) in
      if-Leaves (not (may_lead master)) (some (w, err bad_master)) (choose_master c master w) h (
        if-Leaves (not w.state.editing) (some (w, err not_open)) drafting h
          (draft_chosen-Leaves w (drafted master w.state.draft) h))

  pub remember-P :
      (id : ℕ) (device : DeviceStatus) (w : Controller c) → P w → P (remember c id device w)
  unfolding remember
  remember-P id device w h =
      if-P c disk P steady (w.state.editing && not (any (λ e. e.0 == id) w.state.originals))
        (record w { state = record w.state { originals = w.state.originals ++ (id, device) ∷ [] } })
        w
        (steady.noting (record w.state { originals = w.state.originals ++ (id, device) ∷ [] }) w
          refl h)
        h

  pub new_draft-P : (w : Controller c) → P w → P (new_draft c w).0
  unfolding new_draft
  new_draft-P w h =
      if_fst-P (not w.state.editing) (w, err not_open)
        (record w { state = record w.state { draft = none } }, ok tt) h
        (steady.noting (record w.state { draft = none }) w refl h)

  edit_draft-P :
      (change : Profile → Profile × Result (Unit {0}) VolumeError) (w : Controller c)
      (o : Option Profile)
      → P w
      → P (edit_draft c change w o).0
  edit_draft-P change w none h = h
  edit_draft-P change w (some draft) h = steady.noting _ w refl h

  pub edit-P :
      (change : Profile → Profile × Result (Unit {0}) VolumeError) (w : Controller c)
      → P w
      → P (edit c change w).0
  unfolding edit
  edit-P change w h =
      if_fst-P (not w.state.editing) (w, err not_open) (edit_draft c change w w.state.draft) h
        (edit_draft-P change w w.state.draft h)

  validated-P :
      (draft : Profile) (w : Controller c) (o : Result (Unit {0}) ProfileError)
      → P w
      → P (validated c draft w o).0
  validated-P draft w (ok valid) h =
      if_fst-P (not w.state.editing) (w, err not_open)
        (record w { state = record w.state { draft = some draft } }, ok tt) h
        (steady.noting (record w.state { draft = some draft }) w refl h)
  validated-P draft w (err e) h = h

  pub set_draft-P : (draft : Profile) (w : Controller c) → P w → P (set_draft c draft w).0
  unfolding set_draft
  set_draft-P draft w h = validated-P draft w (validate draft) h
