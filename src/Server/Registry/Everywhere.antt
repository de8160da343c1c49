-- ===== src/Server/Registry/Everywhere.antt =====
-- A property of every receiver outlasts every step of the registry.
use soundwave.Base.{
  ℕ, ◌≡◌, refl, arith, [], ◌∷◌, Bool, true, false, ◌&&◌, Option, none, some, any, all, ◌==◌,
  if◌then◌else◌, is_some, Result, ok, err,
}
use soundwave.Base.BTreeMap
use soundwave.Base.BTreeMap.{BTreeMap}
use soundwave.Base.BTreeMap.Laws.{IsAscending-insert, IsAscending-remove}
use soundwave.Protocol.Control.{
  ControlMessage, VolumePurpose, query_device, calibration_session, calibration_tone,
}
use soundwave.Server.Registry.{
  Controls, RegistryError, Receiver, Registry, joining, register, modify, changed, offered, sent_by,
  send_to, for_each, broadcast, deny_all, is_ready, approve, send, remove,
}
use soundwave.Server.Registry.Requests.{
  note_request, volume_requested, request_volume_of, requested, volume_request_with_barrier,
  send_request, request, next_request_id,
}
use soundwave.Server.Registry.Device.{
  update_tone, take_tone_reply, take_reply, take_unsolicited_volume, is_malformed, update_device,
}
use soundwave.Server.Registry.Step.{
  Operation, registers, broadcasts, denies_all, approves, sends, queries, requests_volume,
  requests_calibration, requests_tone, updates_tone, takes_tone_reply, takes_reply,
  takes_unsolicited_volume, updates_device, removes, kept, perform, Stable, Holds, Everywhere,
}

module _ (c : Controls) (P : ℕ → Receiver c → Type 0) where
  pub Holds-get :
      (id : ℕ) (r : Receiver c) (m : BTreeMap (Receiver c))
      → Holds c P m
      → BTreeMap.get id m ≡ some r
      → P id r
  unfolding BTreeMap.get
  Holds-get id r [] h e = absurd (ground arith)
  Holds-get id r ((j, s) ∷ m) h e = ground (arith, Holds-get id r m)

  Holds-insert :
      (id : ℕ) (r : Receiver c) (m : BTreeMap (Receiver c))
      → P id r
      → Holds c P m
      → Holds c P (BTreeMap.insert id r m)
  unfolding BTreeMap.insert
  Holds-insert id r [] p h = (p, tt)
  Holds-insert id r ((j, s) ∷ m) p h = ground (arith, Holds-insert id r m)

  Holds-remove :
      (id : ℕ) (m : BTreeMap (Receiver c)) → Holds c P m → Holds c P (BTreeMap.remove id m)
  unfolding BTreeMap.remove
  Holds-remove id [] h = tt
  Holds-remove id ((j, s) ∷ m) h = ground (arith, Holds-remove id m)

  pub Holds-for_each :
      (change : ℕ → Receiver c → Receiver c) (m : BTreeMap (Receiver c))
      → ((id : ℕ) (r : Receiver c) → P id r → P id (change id r))
      → Holds c P m
      → Holds c P (for_each c change m)
  Holds-for_each change [] k h = tt
  Holds-for_each change ((j, s) ∷ m) k h = (k j s h.0, Holds-for_each change m k h.1)

  Above-for_each :
      (lo : ℕ) (change : ℕ → Receiver c → Receiver c) (m : BTreeMap (Receiver c))
      → BTreeMap.Above lo m
      → BTreeMap.Above lo (for_each c change m)
  Above-for_each lo change [] a = tt
  Above-for_each lo change ((j, s) ∷ m) a = (a.0, Above-for_each j change m a.1)

  IsAscending-for_each :
      (change : ℕ → Receiver c → Receiver c) (m : BTreeMap (Receiver c))
      → BTreeMap.IsAscending m
      → BTreeMap.IsAscending (for_each c change m)
  IsAscending-for_each change [] a = tt
  IsAscending-for_each change ((j, s) ∷ m) a = Above-for_each j change m a

  pub Everywhere-get :
      (id : ℕ) (r : Receiver c) (m : BTreeMap (Receiver c))
      → Everywhere c P m
      → BTreeMap.get id m ≡ some r
      → P id r
  Everywhere-get id r m h e = Holds-get id r m h.1 e

  Everywhere-insert :
      (id : ℕ) (r : Receiver c) (m : BTreeMap (Receiver c))
      → P id r
      → Everywhere c P m
      → Everywhere c P (BTreeMap.insert id r m)
  Everywhere-insert id r m p h = (IsAscending-insert id r m h.0, Holds-insert id r m p h.1)

  Everywhere-remove :
      (id : ℕ) (m : BTreeMap (Receiver c))
      → Everywhere c P m
      → Everywhere c P (BTreeMap.remove id m)
  Everywhere-remove id m h = (IsAscending-remove id m h.0, Holds-remove id m h.1)

  Everywhere-for_each :
      (change : ℕ → Receiver c → Receiver c) (m : BTreeMap (Receiver c))
      → ((id : ℕ) (r : Receiver c) → P id r → P id (change id r))
      → Everywhere c P m
      → Everywhere c P (for_each c change m)
  Everywhere-for_each change m k h =
      (IsAscending-for_each change m h.0, Holds-for_each change m k h.1)

  changed-Everywhere :
      (id : ℕ) (change : Receiver c → Receiver c) (g : Registry c) (o : Option (Receiver c))
      → ((r : Receiver c) → P id r → P id (change r))
      → Everywhere c P g.receivers
      → BTreeMap.get id g.receivers ≡ o
      → Everywhere c P (changed c id change g o).receivers
  changed-Everywhere id change g none k h e = h
  changed-Everywhere id change g (some r) k h e =
      Everywhere-insert id (change r) g.receivers (k r (Everywhere-get id r g.receivers h e)) h

  pub modify-Everywhere :
      (id : ℕ) (change : Receiver c → Receiver c) (g : Registry c)
      → ((r : Receiver c) → P id r → P id (change r))
      → Everywhere c P g.receivers
      → Everywhere c P (modify c id change g).receivers
  unfolding modify
  modify-Everywhere id change g k h =
      changed-Everywhere id change g (BTreeMap.get id g.receivers) k h refl

module _ (c : Controls) (A P : ℕ → Receiver c → Type 0) (k : Stable c A P) where
  offer-P : (id : ℕ) (r : Receiver c) (o : Option c.Sender) → P id r → P id (offered c r o)
  offer-P id r none h = h
  offer-P id r (some s) h = k.sending id s r h

  sent_by-Everywhere :
      (id : ℕ) (g : Registry c) (r : Receiver c) (o : Option c.Sender)
      → Everywhere c P g.receivers
      → P id r
      → Everywhere c P (kept c g (sent_by c id g r o)).receivers
  sent_by-Everywhere id g r none h p = h
  sent_by-Everywhere id g r (some s) h p =
      Everywhere-insert c P id (record r { controls = s }) g.receivers (k.sending id s r p) h

  send_to-Everywhere :
      (id : ℕ) (message : ControlMessage) (g : Registry c) (o : Option (Receiver c))
      → Everywhere c P g.receivers
      → BTreeMap.get id g.receivers ≡ o
      → Everywhere c P (kept c g (send_to c id message g o)).receivers
  send_to-Everywhere id message g none h e = h
  send_to-Everywhere id message g (some r) h e =
      sent_by-Everywhere id g r (c.try_send r.controls message) h
        (Everywhere-get c P id r g.receivers h e)

  send-Everywhere :
      (id : ℕ) (message : ControlMessage) (g : Registry c)
      → Everywhere c P g.receivers
      → Everywhere c P (kept c g (send c id message g)).receivers
  unfolding send
  send-Everywhere id message g h =
      send_to-Everywhere id message g (BTreeMap.get id g.receivers) h refl

  requested-Everywhere :
      (request_id : ℕ) (g : Registry c) (o : Result (Registry c) RegistryError)
      → Everywhere c P (kept c g o).receivers
      → Everywhere c P (requested c request_id g o).0.receivers
  requested-Everywhere request_id g (ok g') h = h
  requested-Everywhere request_id g (err error) h = h

  send_request-Everywhere :
      (id : ℕ) (message : ℕ → ControlMessage) (g : Registry c)
      → Everywhere c P g.receivers
      → Everywhere c P (send_request c id message g).0.receivers
  send_request-Everywhere id message g h =
      let g' = (next_request_id c g).1 in
      let sent = send c id (message (next_request_id c g).0) g' in
      requested-Everywhere (next_request_id c g).0 g' sent
        (send-Everywhere id (message (next_request_id c g).0) g' h)

  volume_requested-Everywhere :
      (id request_id : ℕ) (barrier : Bool) (g : Registry c) (r : Receiver c) (o : Option c.Sender)
      → Everywhere c P g.receivers
      → P id r
      → Everywhere c P (volume_requested c id request_id barrier g r o).0.receivers
  volume_requested-Everywhere id request_id barrier g r none h p = h
  volume_requested-Everywhere id request_id barrier g r (some s) h p =
      Everywhere-insert c P id (note_request c request_id barrier s r) g.receivers
        (k.noting id request_id barrier s r p) h

  request_volume_of-Everywhere :
      (id index : ℕ) (purpose : VolumePurpose) (barrier : Bool) (n : ℕ) (g : Registry c)
      (o : Option (Receiver c))
      → Everywhere c P g.receivers
      → BTreeMap.get id g.receivers ≡ o
      → Everywhere c P (request_volume_of c id index purpose barrier (n, g) o).0.receivers
  request_volume_of-Everywhere id index purpose barrier n g none h e = h
  request_volume_of-Everywhere id index purpose barrier n g (some r) h e =
      volume_requested-Everywhere id n barrier g r _ h (Everywhere-get c P id r g.receivers h e)

  volume_request-Everywhere :
      (id index : ℕ) (purpose : VolumePurpose) (barrier : Bool) (g : Registry c)
      → Everywhere c P g.receivers
      → Everywhere c P (volume_request_with_barrier c id index purpose barrier g).0.receivers
  unfolding volume_request_with_barrier
  volume_request-Everywhere id index purpose barrier g h =
      request_volume_of-Everywhere id index purpose barrier (next_request_id c g).0
        (next_request_id c g).1 (BTreeMap.get id g.receivers) h refl

  -- What `approve` asks for holds of each receiver that it lets play.
  abbrev pub Permitted : Operation c → Registry c → Type 0
  Permitted (approves expected) g =
      Holds c
        (λ id r. (all (is_ready c g) expected && any (λ e. e.0 == id) expected) ≡ true → A id r)
        g.receivers
  Permitted _ g = Unit

  abbrev approved : Bool → Receiver c → Receiver c
  approved ready r = record r { playback = ready }

  approved-P :
      (id : ℕ) (ready : Bool) (r : Receiver c)
      → P id r
      → (ready ≡ true → A id r)
      → P id (approved ready r)
  approved-P id true r h may = k.allowed id r h (may refl)
  approved-P id false r h may = k.denied id r h

  approve-Holds :
      (ready : ℕ → Bool) (m : BTreeMap (Receiver c))
      → Holds c P m
      → Holds c (λ id r. ready id ≡ true → A id r) m
      → Holds c P (for_each c (λ id. approved (ready id)) m)
  approve-Holds ready [] h may = tt
  approve-Holds ready ((id, r) ∷ m) h may =
      (approved-P id (ready id) r h.0 may.0, approve-Holds ready m h.1 may.1)

  remove-Everywhere :
      (there : Bool) (m : BTreeMap (Receiver c))
      → Everywhere c P m
      → Everywhere c P (if there then for_each c (λ i r. record r { playback = false }) m else m)
  remove-Everywhere true m h = Everywhere-for_each c P _ m (λ id r p. k.denied id r p) h
  remove-Everywhere false m h = h

  if-Everywhere :
      (skipped : Bool) (g g' : Registry c)
      → Everywhere c P g.receivers
      → (skipped ≡ false → Everywhere c P g'.receivers)
      → Everywhere c P (if skipped then g else g').receivers
  if-Everywhere true g g' h h' = h
  if-Everywhere false g g' h h' = h' refl

  pub perform-Everywhere :
      (o : Operation c) (g : Registry c)
      → Everywhere c P g.receivers
      → Permitted o g
      → Everywhere c P (perform c o g).receivers
  unfolding perform register broadcast deny_all approve remove request update_tone take_tone_reply
      take_reply take_unsolicited_volume update_device
  perform-Everywhere (registers peer s) g h may =
      Everywhere-insert c P g.next_id (joining c peer s) g.receivers (k.joins g.next_id peer s) h
  perform-Everywhere (broadcasts message) g h may =
      Everywhere-for_each c P _ g.receivers (λ id r p. offer-P id r _ p) h
  perform-Everywhere denies_all g h may =
      Everywhere-for_each c P _ g.receivers (λ id r p. k.denied id r p) h
  perform-Everywhere (approves expected) g h may =
      let ready = λ (id : ℕ). all (is_ready c g) expected && any (λ e. e.0 == id) expected in
      (
        IsAscending-for_each c P (λ id. approved (ready id)) g.receivers h.0,
        approve-Holds ready g.receivers h.1 may,
      )
  perform-Everywhere (sends id message) g h may = send-Everywhere id message g h
  perform-Everywhere (queries id) g h may = send_request-Everywhere id query_device g h
  perform-Everywhere (requests_volume id index purpose barrier) g h may =
      volume_request-Everywhere id index purpose barrier g h
  perform-Everywhere (requests_calibration id action) g h may =
      send_request-Everywhere id (λ request_id. calibration_session request_id action) g h
  perform-Everywhere (requests_tone id enabled) g h may =
      send_request-Everywhere id (λ request_id. calibration_tone request_id enabled) g h
  perform-Everywhere (updates_tone id request_id playing failed) g h may =
      if-Everywhere (request_id == 0) g _ h λ asked.
        (modify-Everywhere c P id _ g (λ r p. k.toned id request_id (playing, failed) r p) h)
  perform-Everywhere (takes_tone_reply id request_id) g h may =
      modify-Everywhere c P id _ g (λ r p. k.tone_taken id request_id r p) h
  perform-Everywhere (takes_reply id request_id) g h may =
      modify-Everywhere c P id _ g (λ r p. k.reply_taken id request_id r p) h
  perform-Everywhere (takes_unsolicited_volume id) g h may =
      modify-Everywhere c P id _ g (λ r p. k.volume_taken id r p) h
  perform-Everywhere (updates_device id status) g h may =
      if-Everywhere (is_malformed status) g _ h
        λ fine. (modify-Everywhere c P id _ g (λ r p. k.updated id status r p fine) h)
  perform-Everywhere (removes id) g h may =
      remove-Everywhere (is_some (BTreeMap.get id g.receivers)) _
        (Everywhere-remove c P id g.receivers h)
