-- ===== src/Server/Registry/Requests.antt =====
-- windows-server/src/application/registry.rs: the requests to a receiver.
use soundwave.Base.{
  ℕ, Bool, true, false, Option, none, some, max, length, leb, if◌then◌else◌, Result, ok, err,
}
use soundwave.Base.Words.{wrapping_add32}
use soundwave.Base.BTreeMap
use soundwave.Base.BTreeMap.{BTreeMap}
use soundwave.Protocol.Control.{
  ControlMessage, VolumePurpose, user, calibration, restore_speaker, CalibrationAction,
  query_device, set_volume, calibration_session, calibration_tone,
}
use soundwave.Server.Registry.{
  Controls, RegistryError, disconnected, cannot_send, Receiver, Registry, send,
}

-- A map of replies or requests that keeps 32 at most: the smallest goes.
abbrev pub make_room {ℓ} : {V : Type ℓ} → BTreeMap V → BTreeMap V
make_room m = if leb 32 (length m) then BTreeMap.pop_first m else m

module _ (c : Controls) where
  -- `NEXT_REQUEST.fetch_add(1).max(1)`: the id, and the registry with the counter moved on.
  abbrev pub next_request_id : Registry c → ℕ × Registry c
  next_request_id g =
      (max g.next_request 1, record g { next_request = wrapping_add32 g.next_request 1 })

  abbrev pub note_request : ℕ → Bool → c.Sender → Receiver c → Receiver c
  note_request request_id barrier controls r =
      let noted : Receiver c = record r {
        controls = controls;
        volume_requests = BTreeMap.insert request_id tt (make_room r.volume_requests);
      } in
      if barrier
      then record noted { panel_barrier = some request_id; unsolicited_volume = none }
      else noted

  -- What becomes of a volume request with this id, by what `try_send` says.
  abbrev pub volume_requested :
      ℕ → ℕ → Bool → Registry c → Receiver c → Option c.Sender → Registry c × Result ℕ RegistryError
  volume_requested id request_id barrier g r none = (g, err cannot_send)
  volume_requested id request_id barrier g r (some controls) = (
    record g {
      receivers = BTreeMap.insert id (note_request request_id barrier controls r) g.receivers;
    },
    ok request_id,
  )

  abbrev pub request_volume_of :
      ℕ
      → ℕ
      → VolumePurpose
      → Bool
      → ℕ × Registry c
      → Option (Receiver c)
      → Registry c × Result ℕ RegistryError
  request_volume_of id index purpose barrier (request_id, g) none = (g, err disconnected)
  request_volume_of id index purpose barrier (request_id, g) (some r) =
      volume_requested id request_id barrier g r
        (c.try_send r.controls (set_volume request_id index purpose))

  -- The result is the registry, which has counted the request also where it fails, and the id of
  -- the request.
  unfoldable pub volume_request_with_barrier :
      ℕ → ℕ → VolumePurpose → Bool → Registry c → Registry c × Result ℕ RegistryError
  volume_request_with_barrier id index purpose barrier g =
      request_volume_of id index purpose barrier (next_request_id g) (BTreeMap.get id g.receivers)

  -- A request that is only sent.
  abbrev pub requested :
      ℕ → Registry c → Result (Registry c) RegistryError → Registry c × Result ℕ RegistryError
  requested request_id g (ok g') = (g', ok request_id)
  requested request_id g (err error) = (g, err error)

  abbrev pub send_request :
      ℕ → (ℕ → ControlMessage) → Registry c → Registry c × Result ℕ RegistryError
  send_request id message g =
      let (request_id, g') = next_request_id g in
      requested request_id g' (send c id (message request_id) g')

  unfoldable pub request : ℕ → Option ℕ → Registry c → Registry c × Result ℕ RegistryError
  request id (some index) g = volume_request_with_barrier id index user false g
  request id none g = send_request id query_device g

  abbrev pub calibration_volume_request : ℕ → ℕ → Registry c → Registry c × Result ℕ RegistryError
  calibration_volume_request id index = volume_request_with_barrier id index calibration false

  abbrev pub restore_volume_request : ℕ → ℕ → Registry c → Registry c × Result ℕ RegistryError
  restore_volume_request id index = volume_request_with_barrier id index restore_speaker false

  abbrev pub panel_volume_request : ℕ → ℕ → Registry c → Registry c × Result ℕ RegistryError
  panel_volume_request id index = volume_request_with_barrier id index restore_speaker true

  abbrev pub calibration_request :
      ℕ → CalibrationAction → Registry c → Registry c × Result ℕ RegistryError
  calibration_request id action =
      send_request id (λ request_id. calibration_session request_id action)

  abbrev pub tone_request : ℕ → Bool → Registry c → Registry c × Result ℕ RegistryError
  tone_request id enabled = send_request id (λ request_id. calibration_tone request_id enabled)
