-- ===== src/Server/Registry/Step.antt =====
-- The steps of the registry, and the laws by which a property of every receiver outlasts them.
use soundwave.Base.{ℕ, ◌≡◌, List, [], ◌∷◌, Bool, true, false, none, Result, ok, err}
use soundwave.Base.BTreeMap
use soundwave.Base.BTreeMap.{BTreeMap}
use soundwave.Protocol.Control.{ControlMessage, DeviceStatus, VolumePurpose, CalibrationAction}
use soundwave.Server.Registry.{
  Controls, RegistryError, Receiver, Registry, joining, register, broadcast, deny_all, approve,
  send, remove,
}
use soundwave.Server.Registry.Requests.{
  note_request, volume_request_with_barrier, request, calibration_request, tone_request,
}
use soundwave.Server.Registry.Device.{
  tone_noted, update_tone, take_tone_reply, take_reply, take_unsolicited_volume, observe, store,
  sanitized, is_malformed, update_device,
}

module _ (c : Controls) where
  -- One operation on the registry. The four kinds of volume request are one.
  pub data Operation : Type 0 where
    registers : ℕ → c.Sender → Operation
    broadcasts : ControlMessage → Operation
    denies_all : Operation
    approves : List (ℕ × DeviceStatus) → Operation
    sends : ℕ → ControlMessage → Operation
    queries : ℕ → Operation
    requests_volume : ℕ → ℕ → VolumePurpose → Bool → Operation
    requests_calibration : ℕ → CalibrationAction → Operation
    requests_tone : ℕ → Bool → Operation
    updates_tone : ℕ → ℕ → Bool → Bool → Operation
    takes_tone_reply : ℕ → ℕ → Operation
    takes_reply : ℕ → ℕ → Operation
    takes_unsolicited_volume : ℕ → Operation
    updates_device : ℕ → DeviceStatus → Operation
    removes : ℕ → Operation

  -- The registry after a send, which is the one before where the send fails.
  abbrev pub kept : Registry c → Result (Registry c) RegistryError → Registry c
  kept g (ok g') = g'
  kept g (err error) = g

  unfoldable pub perform : Operation → Registry c → Registry c
  perform (registers peer controls) g = (register c peer controls g).0
  perform (broadcasts message) g = broadcast c message g
  perform denies_all g = deny_all c g
  perform (approves expected) g = approve c expected g
  perform (sends id message) g = kept g (send c id message g)
  perform (queries id) g = (request c id none g).0
  perform (requests_volume id index purpose barrier) g =
      (volume_request_with_barrier c id index purpose barrier g).0
  perform (requests_calibration id action) g = (calibration_request c id action g).0
  perform (requests_tone id enabled) g = (tone_request c id enabled g).0
  perform (updates_tone id request_id playing failed) g =
      update_tone c id request_id playing failed g
  perform (takes_tone_reply id request_id) g = (take_tone_reply c id request_id g).0
  perform (takes_reply id request_id) g = (take_reply c id request_id g).0
  perform (takes_unsolicited_volume id) g = (take_unsolicited_volume c id g).0
  perform (updates_device id status) g = update_device c id status g
  perform (removes id) g = remove c id g

  -- `ReceiverRegistry::default` and what follows from it.
  abbrev pub empty : Registry c
  empty = record { next_id = 0; receivers = []; airtime_warned = false; next_request = 1 }

  pub data Reached : Registry c → Type 0 where
    at_start : Reached empty
    after : {g : Registry c} (o : Operation) → Reached g → Reached (perform o g)

  -- A property of a receiver under its id that every change of a receiver preserves, where
  -- `allowed` is what may become of its flag in `approve`.
  pub record Stable (Approved : ℕ → Receiver c → Type 0) (P : ℕ → Receiver c → Type 0)
      : Type 0 where
    pub joins : (id peer : ℕ) (s : c.Sender) → P id (joining c peer s)
    pub sending :
        (id : ℕ) (s : c.Sender) (r : Receiver c) → P id r → P id (record r { controls = s })
    pub denied : (id : ℕ) (r : Receiver c) → P id r → P id (record r { playback = false })
    pub allowed :
        (id : ℕ) (r : Receiver c) → P id r → Approved id r → P id (record r { playback = true })
    pub noting :
        (id request_id : ℕ) (barrier : Bool) (s : c.Sender) (r : Receiver c)
        → P id r
        → P id (note_request c request_id barrier s r)
    pub toned :
        (id request_id : ℕ) (state : Bool × Bool) (r : Receiver c)
        → P id r
        → P id (tone_noted c request_id state r)
    pub tone_taken :
        (id request_id : ℕ) (r : Receiver c)
        → P id r
        → P id (record r { tone_replies = BTreeMap.remove request_id r.tone_replies })
    pub reply_taken :
        (id request_id : ℕ) (r : Receiver c)
        → P id r
        → P id (record r { replies = BTreeMap.remove request_id r.replies })
    pub volume_taken :
        (id : ℕ) (r : Receiver c) → P id r → P id (record r { unsolicited_volume = none })
    pub updated :
        (id : ℕ) (status : DeviceStatus) (r : Receiver c)
        → P id r
        → is_malformed status ≡ false
        → P id (store c (sanitized status) (observe c (sanitized status) r))

  -- The property of every receiver, under its id.
  abbrev pub Holds : (ℕ → Receiver c → Type 0) → BTreeMap (Receiver c) → Type 0
  Holds P [] = Unit
  Holds P ((id, r) ∷ m) = P id r × Holds P m

  -- It holds of every receiver of an ordered map.
  abbrev pub Everywhere : (ℕ → Receiver c → Type 0) → BTreeMap (Receiver c) → Type 0
  Everywhere P m = BTreeMap.IsAscending m × Holds P m
