-- ===== src/Server/Volume/Calls.antt =====
-- windows-server/src/application/volume_control.rs: its calls as data, with operations on the
-- registry in between.
use soundwave.Base.{ℕ, List, [], ◌∷◌, Bool, Option, none, some, Result, ok, err}
use soundwave.Protocol.Control.{DeviceStatus}
use soundwave.Server.Silence.{AudioTransmissionGate}
use soundwave.Server.Registry.{Controls}
use soundwave.Server.Registry.Step.{Operation, perform}
use soundwave.Server.Profiles.{Profile}
use soundwave.Server.Volume.{VolumeError, Disk, Controller, finish}
use soundwave.Server.Volume.Window.{
  open_window, close, set_master, remember, new_draft, edit, set_draft, save_draft, select, delete,
}
use soundwave.Server.Volume.Asking.{set_volume}
use soundwave.Server.Volume.Ticking.{tick}

module _ (c : Controls) where
  pub data Call : Type 0 where
    opens : AudioTransmissionGate → Call
    closes : ℕ → AudioTransmissionGate → Call
    sets_master : DeviceStatus → Call
    remembers : ℕ → DeviceStatus → Call
    starts_draft : Call
    edits : (Profile → Profile × Result (Unit {0}) VolumeError) → Call
    sets_draft : Profile → Call
    saves_draft : List ℕ → Bool → Call
    selects deletes : ℕ → Call
    sets_volume : ℕ → ℕ → Call
    ticks : ℕ → Call
    finishes : Call
    operates : Operation c → Call

  abbrev pub finished : Controller c → Result (Controller c) VolumeError → Controller c
  finished w (ok w') = w'
  finished w (err e) = w

  -- The controller that a call leaves, unless it panics.
  abbrev pub left : Option (Controller c × Result (Unit {0}) VolumeError) → Option (Controller c)
  left none = none
  left (some (w, result)) = some w

  unfoldable pub call : Disk → Call → Controller c → Option (Controller c)
  call disk (opens gate) w = some (open_window c gate w).0
  call disk (closes now gate) w = some (close c now gate w).0
  call disk (sets_master master) w = left (set_master c master w)
  call disk (remembers id device) w = some (remember c id device w)
  call disk starts_draft w = some (new_draft c w).0
  call disk (edits change) w = some (edit c change w).0
  call disk (sets_draft draft) w = some (set_draft c draft w).0
  call disk (saves_draft name copy) w = some (save_draft c disk name copy w).0
  call disk (selects id) w = some (select c disk id w).0
  call disk (deletes id) w = some (delete c disk id w).0
  call disk (sets_volume now requested) w = left (set_volume c now requested w)
  call disk (ticks now) w = tick c disk now w
  call disk finishes w = some (finished w (finish c disk w))
  call disk (operates o) w = some (record w { registry = perform c o w.registry })

  abbrev pub and_then_call :
      Option (Controller c) → (Controller c → Option (Controller c)) → Option (Controller c)
  and_then_call none rest = none
  and_then_call (some w) rest = rest w

  unfoldable pub run : Disk → List Call → Controller c → Option (Controller c)
  run disk [] w = some w
  run disk (o ∷ os) w = and_then_call (call disk o w) (run disk os)
