-- ===== src/Android/Device/Examples.antt =====
-- Runs of the device control, some of them the source's own tests.
use soundwave.Base.{
  ◌≡◌, ◌*◌, ◌+◌, ◌/◌, ◌%◌, ◌^◌, ◌≤◌, refl, arith, [], ◌∷◌, true, false, not, ◌&&◌, length, ◌==◌,
  if◌then◌else◌,
}
use soundwave.Protocol.Control.{DeviceStatus, tone_state}
use soundwave.Android.Device.{
  DeviceControl, idle, second, enqueue_operation, take_command_at, request_tone, report,
  report_playback, tone_active, push_report, expire_tone,
}
use soundwave.Android.Device.Commands.{take_at, is_late, take_command_at-enqueue_operation}
use soundwave.Android.Device.Reach.{perform, Reached, at_start, after, reports, requests_tone}
use soundwave.Android.Device.Tones.{tone_active-speaker}

abbrev phone : DeviceStatus
phone = record {
  request_id = 0;
  device_id = b't' ∷ [];
  name = b'P' ∷ [];
  volume = 5;
  minimum = 0;
  maximum = 15;
  fixed = false;
  speaker = true;
  failed = false;
}

abbrev with_speaker : DeviceControl
with_speaker = record idle { speaker = true }

-- A queue of one command, in front of a volume of 7 for request 42.
abbrev one_waits : DeviceControl
one_waits = (enqueue_operation 0 1 1 0 idle).0

one_waiting : length one_waits.commands ≡ 1
unfolding enqueue_operation
one_waiting = refl

take_command_at-enqueue_operation_example :
    let (d', accepted) = enqueue_operation 5 42 2 7 one_waits in
    let code = (take_command_at 9 (take_at (6 ∷ []) d')).1 in
    (accepted ≡ true)
    × (code / 2 ^ 24 ≡ 42)
    × (code / 2 ^ 16 % 2 ^ 8 ≡ (if is_late 5 2 9 then 8 else 2))
    × (code % 2 ^ 16 ≡ (if is_late 5 2 9 then 0 else 7))
take_command_at-enqueue_operation_example =
    take_command_at-enqueue_operation 5 9 42 2 7 (omega arith) (omega arith) (omega arith) one_waits
      (6 ∷ []) (omega (arith, one_waiting)) (omega (arith, one_waiting))

-- `commands` expire, and keep their request.
expired_command :
    (take_command_at (3 * second) (enqueue_operation 0 42 2 7 idle).0).1 ≡ 42 * 2 ^ 24 + 8 * 2 ^ 16
unfolding enqueue_operation take_command_at
expired_command = refl

abbrev toned : DeviceControl
toned = perform (requests_tone 0 3 true) (perform (reports phone) idle)

toned-Reached : Reached toned
toned-Reached = after (requests_tone 0 3 true) (after (reports phone) at_start)

toned_sounds : (tone_active 1 2 toned).1 ≡ true
unfolding perform report request_tone push_report tone_active expire_tone
toned_sounds = refl

tone_active-speaker_example :
    (length toned.commands ≤ 32)
    × (length toned.reports ≤ 32)
    × (((tone_active 1 2 toned).1 && not (toned.tone.token % 2 == 1 && toned.speaker)) ≡ false)
tone_active-speaker_example = tone_active-speaker toned 1 2 toned-Reached

-- An answer in time is reported, and a second one is not.
answered_once :
    let playing = report_playback 1 1 1 7 true (request_tone 0 3 true with_speaker) in
    (playing.reports ≡ tone_state 3 true false ∷ [])
    × (report_playback 2 2 2 7 true playing ≡ playing)
unfolding request_tone report_playback expire_tone push_report
answered_once = (refl, refl)
