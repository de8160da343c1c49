-- ===== src/Server/Registry/Queue.antt =====
-- A queue of two messages in place of the channel to a receiver, for concrete runs.
use soundwave.Base.{
  ℕ, ◌≡◌, arith, List, [], ◌∷◌, ◌++◌, true, false, Option, none, some, if◌then◌else◌, length, ltb,
}
use soundwave.Protocol.Control.{ControlMessage, DeviceStatus}
use soundwave.Server.Registry.{Controls}

-- A queue of two messages.
unfoldable pub try_queue : List ControlMessage → ControlMessage → Option (List ControlMessage)
try_queue q m = if ltb (length q) 2 then some (q ++ m ∷ []) else none

pub queued_try :
    (q q' : List ControlMessage) (m : ControlMessage) → try_queue q m ≡ some q' → q' ≡ q ++ m ∷ []
unfolding try_queue
queued_try q q' m h = ground arith

abbrev pub queue : Controls
queue = record {
  Sender = List ControlMessage;
  try_send = try_queue;
  queued = λ q. q;
  queued-try_send = queued_try;
}

abbrev pub speaker_at : ℕ → ℕ → DeviceStatus
speaker_at request_id volume = record {
  request_id = request_id;
  device_id = b'a' ∷ b'-' ∷ b'7' ∷ [];
  name = b'x' ∷ [];
  volume = volume;
  minimum = 0;
  maximum = 15;
  fixed = false;
  speaker = true;
  failed = false;
}
