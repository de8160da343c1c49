-- ===== src/Server/Registry.antt =====
-- windows-server/src/application/registry.rs: the connected receivers and what is known of each.
-- Each call holds the lock from its first read to its last write, so a call is one step; the
-- exceptions are said where they stand. The queue of control messages, `tokio::sync::mpsc`, is a
-- parameter. A playback gate is a flag of its receiver.
pub mod Requests
pub mod Device
pub mod Step
pub mod Everywhere
pub mod Approval
pub mod Safety
pub mod Replies
mod Examples
pub mod Queue
use soundwave.Base.{
  ℕ, ◌+◌, ◌%◌, ◌^◌, ◌≡◌, List, [], ◌∷◌, ◌++◌, Bool, true, false, not, ◌&&◌, ◌||◌, Option, none,
  some, max, length, map, take, all, any, filter_by, ltb, leb, ◌==◌, if◌then◌else◌, is_some, Result,
  ok, err,
}
use soundwave.Base.Words.{wrapping_add32, wrapping_add64}
use soundwave.Base.BTreeMap
use soundwave.Base.BTreeMap.{BTreeMap}
use soundwave.Base.Text.{text_eq, bool_eq, is_control, is_ascii_alphanumeric}
use soundwave.Protocol.Control.{
  ControlMessage, DeviceStatus, VolumePurpose, user, calibration, restore_speaker,
  CalibrationAction, query_device, set_volume, calibration_session, calibration_tone,
}

-- `mpsc::Sender::try_send` on a queue with a reader: it queues the message behind the others, or
-- fails because the queue is full or closed.
pub record Controls : Type 1 where
  pub Sender : Type 0
  pub try_send : Sender → ControlMessage → Option Sender
  pub queued : Sender → List ControlMessage
  pub queued-try_send :
      (s s' : Sender) (m : ControlMessage) → try_send s m ≡ some s' → queued s' ≡ queued s ++ m ∷ []

pub data RegistryError : Type 0 where
  disconnected : RegistryError
  cannot_send : RegistryError

abbrev pub airtime_warning_receivers : ℕ
airtime_warning_receivers = 4

-- `actual` is still what playback is approved for, and may play.
abbrev pub matches_approval : DeviceStatus → DeviceStatus → Bool
matches_approval expected actual =
    text_eq actual.device_id expected.device_id
    && (actual.minimum == expected.minimum
        && (actual.maximum == expected.maximum
            && (actual.volume == expected.volume
                && (actual.speaker && (not actual.fixed && not actual.failed)))))

-- `old.as_ref().is_some_and(test)`
abbrev pub is_some_and {ℓ} : {A : Type ℓ} → Option A → (A → Bool) → Bool
is_some_and none test = false
is_some_and (some a) test = test a

-- `map.get(id)?.part`
abbrev pub and_then {ℓ κ} : {A : Type ℓ} → {B : Type κ} → Option A → (A → Option B) → Option B
and_then none f = none
and_then (some a) f = f a

module _ (c : Controls) where
  pub record Receiver : Type 0 where
    pub peer : ℕ
    pub controls : c.Sender
    pub device : Option DeviceStatus
    pub replies : BTreeMap DeviceStatus
    pub tone_replies : BTreeMap (Bool × Bool)
    pub playback : Bool
    pub unsolicited_volume : Option ℕ
    pub observed_volume : Option ℕ
    pub volume_requests : BTreeMap (Unit {0})
    pub panel_barrier : Option ℕ

  -- `next_request` is the static counter `NEXT_REQUEST`.
  pub record Registry : Type 0 where
    pub next_id : ℕ
    pub receivers : BTreeMap Receiver
    pub airtime_warned : Bool
    pub next_request : ℕ

  abbrev pub joining : ℕ → c.Sender → Receiver
  joining peer controls = record {
    peer = peer;
    controls = controls;
    device = none;
    replies = [];
    tone_replies = [];
    playback = false;
    unsolicited_volume = none;
    observed_volume = none;
    volume_requests = [];
    panel_barrier = none;
  }

  -- `register`: the new registry and the receiver's id. The lock is taken a second time for the
  -- warning; nothing between the two reads what the first wrote but the count.
  unfoldable pub register : ℕ → c.Sender → Registry → Registry × ℕ
  register peer controls g =
      let receivers = BTreeMap.insert g.next_id (joining peer controls) g.receivers in
      (
        record g {
          next_id = wrapping_add64 g.next_id 1;
          receivers = receivers;
          airtime_warned = g.airtime_warned || ltb airtime_warning_receivers (length receivers);
        },
        g.next_id,
      )

  abbrev pub changed : ℕ → (Receiver → Receiver) → Registry → Option Receiver → Registry
  changed id change g none = g
  changed id change g (some r) = record g { receivers = BTreeMap.insert id (change r) g.receivers }

  -- `receivers.get_mut(&id)` and a change of what it finds.
  unfoldable pub modify : ℕ → (Receiver → Receiver) → Registry → Registry
  modify id change g = changed id change g (BTreeMap.get id g.receivers)

  -- A change of every receiver.
  abbrev pub for_each : (ℕ → Receiver → Receiver) → BTreeMap Receiver → BTreeMap Receiver
  for_each change [] = []
  for_each change ((id, r) ∷ m) = (id, change id r) ∷ for_each change m

  -- `try_send` whose failure is only logged.
  abbrev pub offered : Receiver → Option c.Sender → Receiver
  offered r none = r
  offered r (some controls) = record r { controls = controls }

  abbrev pub offer : ControlMessage → Receiver → Receiver
  offer message r = offered r (c.try_send r.controls message)

  unfoldable pub broadcast : ControlMessage → Registry → Registry
  broadcast message g = record g { receivers = for_each (λ id. offer message) g.receivers }

  pub record ReceiverSnapshot : Type 0 where
    pub id : ℕ
    pub peer : ℕ
    pub device : Option DeviceStatus
    pub playing : Bool

  unfoldable pub snapshots : Registry → List ReceiverSnapshot
  snapshots g =
      map (λ e. record { id = e.0; peer = e.1.peer; device = e.1.device; playing = e.1.playback })
        g.receivers

  -- The flag that a stream reads before it sends: that of the receiver, or one that stays false.
  abbrev pub playback_gate : ℕ → Registry → Bool
  playback_gate id g = is_some_and (BTreeMap.get id g.receivers) λ r. r.playback

  unfoldable pub deny_all : Registry → Registry
  deny_all g = record g { receivers = for_each (λ id r. record r { playback = false }) g.receivers }

  -- Whether receiver `id` reports the status that playback was approved for.
  abbrev pub is_ready : Registry → ℕ × DeviceStatus → Bool
  is_ready g (id, expected) =
      is_some_and (BTreeMap.get id g.receivers)
        λ r. is_some_and r.device λ actual. matches_approval expected actual

  unfoldable pub approve : List (ℕ × DeviceStatus) → Registry → Registry
  approve expected g =
      let ready = all (is_ready g) expected in
      record g {
        receivers =
            for_each (λ id r. record r { playback = ready && any (λ e. e.0 == id) expected })
              g.receivers;
      }

  abbrev pub sent_by : ℕ → Registry → Receiver → Option c.Sender → Result Registry RegistryError
  sent_by id g r none = err cannot_send
  sent_by id g r (some controls) =
      ok
        (record g { receivers = BTreeMap.insert id (record r { controls = controls }) g.receivers })

  abbrev pub send_to :
      ℕ → ControlMessage → Registry → Option Receiver → Result Registry RegistryError
  send_to id message g none = err disconnected
  send_to id message g (some r) = sent_by id g r (c.try_send r.controls message)

  unfoldable pub send : ℕ → ControlMessage → Registry → Result Registry RegistryError
  send id message g = send_to id message g (BTreeMap.get id g.receivers)

  -- `ReceiverGuard::drop`, which calls `remove`.
  unfoldable pub remove : ℕ → Registry → Registry
  remove id g =
      let receivers = BTreeMap.remove id g.receivers in
      record g {
        receivers =
            if is_some (BTreeMap.get id g.receivers)
            then for_each (λ i r. record r { playback = false }) receivers
            else receivers;
        airtime_warned = g.airtime_warned && ltb airtime_warning_receivers (length receivers);
      }
