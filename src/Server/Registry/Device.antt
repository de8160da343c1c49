-- ===== src/Server/Registry/Device.antt =====
-- windows-server/src/application/registry.rs: what a receiver reports of its device, and the replies.
use soundwave.Base.{
  ℕ, Bool, not, ◌&&◌, ◌||◌, Option, none, some, take, filter_by, ltb, ◌==◌, if◌then◌else◌, is_some,
}
use soundwave.Base.BTreeMap
use soundwave.Base.BTreeMap.{BTreeMap}
use soundwave.Base.Text.{text_eq, bool_eq, is_control, is_ascii_alphanumeric}
use soundwave.Protocol.Control.{DeviceStatus}
use soundwave.Server.Registry.{Controls, Receiver, Registry, modify, is_some_and, and_then}
use soundwave.Server.Registry.Requests.{make_room}

-- The status as it is stored: the name without control characters and the identifier without
-- anything but letters, digits and dashes, 80 characters of each at most.
abbrev pub sanitized : DeviceStatus → DeviceStatus
sanitized status = record status {
  name = take 80 (filter_by (λ c. not (is_control c)) status.name);
  device_id = take 80 (filter_by (λ c. is_ascii_alphanumeric c || c == b'-') status.device_id);
}

abbrev pub is_malformed : DeviceStatus → Bool
is_malformed status =
    ltb status.maximum status.minimum
    || (ltb status.maximum status.volume
        || (ltb status.volume status.minimum || ltb 512 status.maximum))

-- The same device with the same range.
abbrev pub same_device : DeviceStatus → DeviceStatus → Bool
same_device old status =
    text_eq old.device_id status.device_id
    && (old.minimum == status.minimum && old.maximum == status.maximum)

-- Nothing that playback was approved for has changed.
abbrev pub unchanged : DeviceStatus → DeviceStatus → Bool
unchanged old status =
    old.volume == status.volume
    && (text_eq old.device_id status.device_id
        && (old.minimum == status.minimum
            && (old.maximum == status.maximum
                && (bool_eq old.speaker status.speaker
                    && (bool_eq old.failed status.failed && bool_eq old.fixed status.fixed)))))

abbrev pub differs : ℕ → ℕ → Bool
differs a b = not (a == b)

module _ (c : Controls) where
  -- `update_tone` on the receiver it finds.
  abbrev pub tone_noted : ℕ → Bool × Bool → Receiver c → Receiver c
  tone_noted request_id state r = record r {
    tone_replies = BTreeMap.insert request_id state (make_room r.tone_replies);
  }

  unfoldable pub update_tone : ℕ → ℕ → Bool → Bool → Registry c → Registry c
  update_tone id request_id playing failed g =
      if request_id == 0 then g else modify c id (tone_noted request_id (playing, failed)) g

  unfoldable pub take_tone_reply : ℕ → ℕ → Registry c → Registry c × Option (Bool × Bool)
  take_tone_reply id request_id g = (
    modify c id (λ r. record r { tone_replies = BTreeMap.remove request_id r.tone_replies }) g,
    and_then (BTreeMap.get id g.receivers) λ r. BTreeMap.get request_id r.tone_replies,
  )

  unfoldable pub take_reply : ℕ → ℕ → Registry c → Registry c × Option DeviceStatus
  take_reply id request_id g = (
    modify c id (λ r. record r { replies = BTreeMap.remove request_id r.replies }) g,
    and_then (BTreeMap.get id g.receivers) λ r. BTreeMap.get request_id r.replies,
  )

  abbrev pub has_panel_barrier : ℕ → Registry c → Bool
  has_panel_barrier id g = is_some_and (BTreeMap.get id g.receivers) λ r. is_some r.panel_barrier

  unfoldable pub take_unsolicited_volume : ℕ → Registry c → Registry c × Option ℕ
  take_unsolicited_volume id g = (
    modify c id (λ r. record r { unsolicited_volume = none }) g,
    and_then (BTreeMap.get id g.receivers) λ r. r.unsolicited_volume,
  )

  -- What `update_device` makes of the volume: a change that nobody asked for is noted.
  unfoldable pub observe : DeviceStatus → Receiver c → Receiver c
  observe status r =
      if not (is_some_and r.device λ old. same_device old status)
      then record r { observed_volume = some status.volume; unsolicited_volume = none }
      else if status.request_id == 0 && (not status.failed && (not status.fixed && status.speaker))
      then record r {
        unsolicited_volume =
            if not (is_some r.panel_barrier)
              && is_some_and r.observed_volume (λ volume. differs volume status.volume)
            then some status.volume
            else r.unsolicited_volume;
        observed_volume = some status.volume;
      }
      else record r {
        volume_requests = BTreeMap.remove status.request_id r.volume_requests;
        observed_volume =
            if is_some (BTreeMap.get status.request_id r.volume_requests)
              && (not status.failed || (not status.fixed && status.speaker))
            then some status.volume
            else r.observed_volume;
      }

  -- The rest of `update_device`: the barrier is lifted by the reply to its request, playback stops
  -- where anything it was approved for differs, and a reply is kept for `take_reply`.
  unfoldable pub store : DeviceStatus → Receiver c → Receiver c
  store status r = record r {
    panel_barrier =
        if is_some_and r.panel_barrier (λ request_id. request_id == status.request_id)
        then none
        else r.panel_barrier;
    playback = is_some_and r.device (λ old. unchanged old status) && r.playback;
    device = some status;
    replies =
        if status.request_id == 0
        then r.replies
        else BTreeMap.insert status.request_id status (make_room r.replies);
  }

  unfoldable pub update_device : ℕ → DeviceStatus → Registry c → Registry c
  update_device id status g =
      if is_malformed status
      then g
      else modify c id (λ r. store (sanitized status) (observe (sanitized status) r)) g
