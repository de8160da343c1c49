-- ===== src/Android/State.antt =====
-- android/app/src/main/rust/src/state.rs: what the application sees of the client. The atomics and
-- the contents of the locks are fields, and each call is one step. Waiting for a new revision is
-- left out.
pub mod Updates
mod Examples
use soundwave.Base.{
  ℕ, ◌+◌, ◌-◌, ◌%◌, ◌^◌, List, [], ◌∷◌, Bool, true, false, not, ◌&&◌, ◌==◌, if◌then◌else◌,
}
use soundwave.Base.Int.{ℤ, pos, negsuc, ◌+ℤ◌, lebℤ}
use soundwave.Base.Text.{bool_eq}
use soundwave.Base.Words.{wrapping_add64}
use soundwave.Android.Device.{DeviceControl, idle, reset}

pub data ClientState : Type 0 where
  at_rest connecting connected disconnected failed : ClientState

-- The `i32` of a state, and back.
unfoldable pub raw : ClientState → ℕ
raw at_rest = 0
raw connecting = 1
raw connected = 2
raw disconnected = 3
raw failed = 4

unfoldable pub from_raw : ℤ → ClientState
from_raw (pos value) =
    if value == 1
    then connecting
    else if value == 2
    then connected
    else if value == 3
    then disconnected
    else if value == 4
    then failed
    else at_rest
from_raw (negsuc n) = at_rest

pub record SharedState : Type 0 where
  pub state : ClientState
  pub audio_active : Bool
  pub revision : ℕ
  pub received_packets : ℕ
  pub lost_packets : ℕ
  pub late_packets : ℕ
  pub rtt_ms : ℕ
  pub jitter_buffer_ms : ℕ
  pub volume_adjustment : ℤ
  pub device : DeviceControl
  pub last_error : List ℕ

-- `SharedState::default`
abbrev pub fresh : SharedState
fresh = record {
  state = at_rest;
  audio_active = false;
  revision = 0;
  received_packets = 0;
  lost_packets = 0;
  late_packets = 0;
  rtt_ms = 0;
  jitter_buffer_ms = 0;
  volume_adjustment = pos 0;
  device = idle;
  last_error = [];
}

abbrev pub notify_changed : SharedState → SharedState
notify_changed s = record s { revision = wrapping_add64 s.revision 1 }

abbrev pub notify_if : Bool → SharedState → SharedState
notify_if true s = notify_changed s
notify_if false s = s

unfoldable pub set_audio_active : Bool → SharedState → SharedState
set_audio_active active s =
    notify_if (not (bool_eq s.audio_active active)) (record s { audio_active = active })

-- The state after `take_volume_adjustment`; what it returns is the field before.
abbrev pub take_volume_adjustment : SharedState → SharedState
take_volume_adjustment s = record s { volume_adjustment = pos 0 }

abbrev pub max_pending_volume_steps : ℕ
max_pending_volume_steps = 100

-- `clamp`, and `i32::saturating_add`.
abbrev pub clamp : ℤ → ℤ → ℤ → ℤ
clamp low high x = if lebℤ high x then high else if lebℤ x low then low else x

abbrev pub saturating_add_i32 : ℤ → ℤ → ℤ
saturating_add_i32 a b = clamp (negsuc (2 ^ 31 - 1)) (pos (2 ^ 31 - 1)) (a +ℤ b)

unfoldable pub add_volume_adjustment : ℤ → SharedState → SharedState
add_volume_adjustment steps s = notify_changed (record s {
  volume_adjustment =
      clamp (negsuc 99) (pos max_pending_volume_steps)
        (saturating_add_i32 s.volume_adjustment steps);
})

abbrev pub is_connected : ClientState → Bool
is_connected connected = true
is_connected _ = false

-- What a client that is not connected gives up.
abbrev pub disconnect : SharedState → SharedState
disconnect s =
    let quiet : SharedState = take_volume_adjustment (set_audio_active false s) in
    record quiet { device = reset quiet.device }

unfoldable pub set : ClientState → SharedState → SharedState
set state s =
    let left : SharedState = if is_connected state then s else disconnect s in
    notify_if (not (raw left.state == raw state)) (record left { state = state })

unfoldable pub begin_connecting : SharedState → SharedState
begin_connecting s = set connecting (
    take_volume_adjustment (record s {
      received_packets = 0;
      lost_packets = 0;
      late_packets = 0;
      rtt_ms = 0;
      jitter_buffer_ms = 0;
      last_error = [];
    }))

unfoldable pub set_error : List ℕ → SharedState → SharedState
set_error error s = set failed (record s { last_error = error })

abbrev pub add_received : SharedState → SharedState
add_received s = record s { received_packets = wrapping_add64 s.received_packets 1 }

abbrev pub add_lost : ℕ → SharedState → SharedState
add_lost count s = record s { lost_packets = wrapping_add64 s.lost_packets count }

abbrev pub add_late : ℕ → SharedState → SharedState
add_late count s = record s { late_packets = wrapping_add64 s.late_packets count }

abbrev pub set_rtt_ms : ℕ → SharedState → SharedState
set_rtt_ms value s = record s { rtt_ms = value }

abbrev pub set_jitter_buffer_ms : ℕ → SharedState → SharedState
set_jitter_buffer_ms value s = record s { jitter_buffer_ms = value }
