-- ===== src/Android/Device.antt =====
-- android/app/src/main/rust/src/device_control.rs: the commands for the application, its reports,
-- and the calibration tone. An `Instant` is a number of nanoseconds, and each reading of the clock
-- is an argument. The locks and atomics are fields, and a call is one step. Of `report_ready` the
-- number of calls of `notify_one` is kept. The parts of a word of bits do not overlap, so `|` is a
-- sum.
pub mod Commands
pub mod Reach
pub mod Tones
mod Examples
use soundwave.Base.{
  ℕ, zero, suc, ◌+◌, ◌*◌, ◌/◌, ◌%◌, ◌^◌, List, [], ◌∷◌, ◌++◌, Bool, true, false, not, ◌&&◌, ◌||◌,
  Option, none, some, min, length, drop, ltb, leb, ◌==◌, if◌then◌else◌, is_some,
}
use soundwave.Base.Words.{wrapping_add64}
use soundwave.Protocol.Control.{ControlMessage, DeviceStatus, device_status, tone_state}

abbrev pub second : ℕ
second = 1000000000

pub record PendingCommand : Type 0 where
  pub value : ℕ
  pub expires : Option ℕ

pub record Tone : Type 0 where
  pub token : ℕ
  pub until : Option ℕ
  pub responded : Bool

pub record DeviceControl : Type 0 where
  pub commands : List PendingCommand
  pub reports : List ControlMessage
  pub tone : Tone
  pub position : ℕ
  pub speaker : Bool
  pub notified : ℕ

abbrev pub silent : Tone
silent = record { token = 0; until = none; responded = false }

-- `DeviceControl::default`
abbrev pub idle : DeviceControl
idle = record {
  commands = [];
  reports = [];
  tone = silent;
  position = 0;
  speaker = false;
  notified = 0;
}

abbrev pub passed : Option ℕ → ℕ → Bool
passed none now = false
passed (some t) now = leb t now

abbrev pub bit : Bool → ℕ
bit true = 1
bit false = 0

abbrev pub packed : ℕ → ℕ → ℕ → ℕ
packed request_id operation value = request_id * 2 ^ 24 + operation * 2 ^ 16 + value

unfoldable pub enqueue_operation : ℕ → ℕ → ℕ → ℕ → DeviceControl → DeviceControl × Bool
enqueue_operation now request_id operation value d =
    if leb 32 (length d.commands) then (d, false) else (
      record d {
        commands =
            d.commands
            ++ record {
              value = packed request_id operation value;
              expires = if operation == 4 then none else some (now + 2 * second);
            }
              ∷ [];
      },
      true,
    )

abbrev pub or_zero : Option ℕ → ℕ
or_zero none = 0
or_zero (some index) = index

abbrev pub enqueue : ℕ → ℕ → Option ℕ → DeviceControl → DeviceControl × Bool
enqueue now request_id index =
    enqueue_operation now request_id (if is_some index then 2 else 1) (or_zero index)

-- A command that has waited too long keeps its request alone, with operation 8.
abbrev pub delivered : ℕ → PendingCommand → ℕ
delivered now command =
    if passed command.expires now
    then command.value / 2 ^ 24 * 2 ^ 24 + 8 * 2 ^ 16
    else command.value

-- `pop_front`, with 0 for an empty queue.
abbrev pub popped : ℕ → DeviceControl → List PendingCommand → DeviceControl × ℕ
popped now d [] = (d, 0)
popped now d (command ∷ commands) = (record d { commands = commands }, delivered now command)

unfoldable pub take_command_at : ℕ → DeviceControl → DeviceControl × ℕ
take_command_at now d = popped now d d.commands

unfoldable pub push_report : ControlMessage → DeviceControl → DeviceControl
push_report report d = record d {
  reports = (if leb 32 (length d.reports) then drop 1 d.reports else d.reports) ++ report ∷ [];
  notified = d.notified + 1;
}

-- The report that a tone has ended on its own, for a request that waits for one.
abbrev pub report_failed : Bool → ℕ → DeviceControl → DeviceControl
report_failed waits request_id d =
    if waits && not (request_id == 0) then push_report (tone_state request_id false true) d else d

abbrev pub request_of : ℕ → ℕ
request_of token = token / 2 % 2 ^ 32

unfoldable pub request_tone : ℕ → ℕ → Bool → DeviceControl → DeviceControl
request_tone now request_id enabled d =
    let allowed = not enabled || d.speaker in
    let requested : DeviceControl = record d {
      tone = record {
        token = request_id * 2 + bit enabled;
        until = if enabled && allowed then some (now + 5 * second) else none;
        responded = request_id == 0 || not allowed;
      };
      position = 0;
    } in
    report_failed (not allowed) request_id requested

unfoldable pub stop_tone : DeviceControl → DeviceControl
stop_tone d =
    let was_active = is_some d.tone.until in
    let stopped : DeviceControl = record d {
      tone = record {
        token = d.tone.token / 2 * 2;
        until = none;
        responded = d.tone.responded || was_active;
      };
    } in
    record (report_failed was_active (request_of d.tone.token) stopped) { position = 0 }

unfoldable pub set_tone : ℕ → Bool → DeviceControl → DeviceControl
set_tone now true = request_tone now 0 true
set_tone now false = stop_tone

unfoldable pub report : DeviceStatus → DeviceControl → DeviceControl
report status d =
    let heard : DeviceControl = record d { speaker = status.speaker && not status.failed } in
    push_report (device_status status)
      (if not status.speaker || status.failed then stop_tone heard else heard)

abbrev pub popped_report :
    DeviceControl → List ControlMessage → DeviceControl × Option ControlMessage
popped_report d [] = (d, none)
popped_report d (r ∷ rs) = (record d { reports = rs }, some r)

unfoldable pub take_report : DeviceControl → DeviceControl × Option ControlMessage
take_report d = popped_report d d.reports

unfoldable pub expire_tone : ℕ → DeviceControl → DeviceControl
expire_tone now d =
    if passed d.tone.until now
    then report_failed true (request_of d.tone.token) (record d {
      tone = record { token = d.tone.token / 2 * 2; until = none; responded = true };
    })
    else d

unfoldable pub playback_request : ℕ → DeviceControl → DeviceControl × ℕ
playback_request now d = let d' = expire_tone now d in (d', d'.tone.token)

-- `tone.until.is_some_and(|until| now < until)`
abbrev pub is_active : ℕ → Tone → Bool
is_active now tone = is_some tone.until && not (passed tone.until now)

-- What becomes of the tone in `report_playback`, and the report: whether it plays, and whether it
-- has failed.
abbrev pub answered : ℕ → ℕ → Bool → Tone → Tone × Option (Bool × Bool)
answered now later playing tone =
    let enabled = tone.token % 2 == 1 in
    let active = is_active now tone in
    if enabled && (playing && (active && not tone.responded))
    then (record tone { until = some (later + 5 * second); responded = true }, some (true, false))
    else if not enabled && (not playing && not tone.responded)
    then (record tone { responded = true }, some (false, false))
    else if enabled && (not playing && not active)
    then (if is_some tone.until || not tone.responded
        then (
          record { token = tone.token / 2 * 2; until = none; responded = true },
          some (false, true),
        )
        else (record tone { until = none }, none))
    else (tone, none)

abbrev pub report_answer : ℕ → DeviceControl → Tone × Option (Bool × Bool) → DeviceControl
report_answer request_id d (tone, none) = record d { tone = tone }
report_answer request_id d (tone, some (playing, failed)) =
    push_report (tone_state request_id playing failed) (record d { tone = tone })

-- The clock is read up to three times.
unfoldable pub report_playback : ℕ → ℕ → ℕ → ℕ → Bool → DeviceControl → DeviceControl
report_playback now later latest token playing d =
    let d' = expire_tone now d in
    if token / 2 == 0 || not (token == d'.tone.token)
    then d'
    else report_answer (request_of token) d' (answered later latest playing d'.tone)

unfoldable pub tone_active : ℕ → ℕ → DeviceControl → DeviceControl × Bool
tone_active now later d = let d' = expire_tone now d in (d', is_active later d'.tone)

-- The samples of the tone: each frame of two has the same sample twice, and an odd last sample
-- stays. `wave` stands for the sum of sines, in floating point, of a position within the second
-- and within the first 960 frames.
abbrev pub tone_frames : (ℕ → ℕ → ℕ) → ℕ → List ℕ → List ℕ
tone_frames wave position [] = []
tone_frames wave position (a ∷ []) = a ∷ []
tone_frames wave position (a ∷ b ∷ output) =
    let value = wave (position % 48000) (min position 960) in
    value ∷ value ∷ tone_frames wave (wrapping_add64 position 1) output

unfoldable pub read_tone :
    (ℕ → ℕ → ℕ) → ℕ → ℕ → List ℕ → DeviceControl → DeviceControl × List ℕ × Bool
read_tone wave now later output d =
    let (d', active) = tone_active now later d in
    if not active then (d', output, false) else (
      record d' { position = wrapping_add64 d'.position (length output / 2) },
      tone_frames wave d'.position output,
      true,
    )

unfoldable pub reset : DeviceControl → DeviceControl
reset d = record d { tone = silent; position = 0; speaker = false; commands = []; reports = [] }
