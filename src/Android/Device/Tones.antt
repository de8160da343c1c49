-- ===== src/Android/Device/Tones.antt =====
-- The calibration tone: where it may sound, and how its requests are answered.
use soundwave.Base.{
  ℕ, ◌+◌, ◌*◌, ◌/◌, ◌%◌, ◌≡◌, ◌≤◌, refl, arith, List, [], ◌∷◌, Bool, true, false, not, ◌&&◌, none,
  some, drop, length, leb, ◌==◌, if◌then◌else◌, is_some, Bool-cases, inl, inr,
}
use soundwave.Protocol.Control.{ControlMessage, tone_state}
use soundwave.Android.Device.{
  DeviceControl, Tone, passed, push_report, report_failed, request_of, expire_tone,
  playback_request, is_active, tone_active,
}
use soundwave.Android.Device.Reach.{Reached, Reached-IsSound}

report_failed-tone :
    (waits : Bool) (request_id : ℕ) (d : DeviceControl)
    → (report_failed waits request_id d).tone ≡ d.tone
unfolding push_report
report_failed-tone waits request_id d = ground arith

expire_tone-tone :
    (now : ℕ) (d : DeviceControl)
    → (expire_tone now d).tone ≡ (
        if passed d.tone.until now
        then record { token = d.tone.token / 2 * 2; until = none; responded = true }
        else d.tone)
unfolding expire_tone
expire_tone-tone now d = elim (Bool-cases (passed d.tone.until now)) [
  | inl over ↦ rw over (report_failed-tone true (request_of d.tone.token) _)
  | inr still ↦ rw still refl
]

active_tone :
    (later : ℕ) (over : Bool) (tone : Tone) (speaker : Bool)
    → (is_some tone.until && not (tone.token % 2 == 1)) ≡ false
    → (is_some tone.until && not speaker) ≡ false
    → (is_active later (
          if over
          then record { token = tone.token / 2 * 2; until = none; responded = true }
          else tone)
        && not (tone.token % 2 == 1 && speaker))
      ≡ false
active_tone later true tone speaker e h = refl
active_tone later false tone speaker e h = ground arith

-- In every state that the calls lead to, at most 32 commands and at most 32 reports wait, and a
-- calibration tone is active only if its token has the bit that asks for sound and the device
-- counts as a speaker that works.
pub tone_active-speaker :
    (d : DeviceControl) (now later : ℕ)
    → Reached d
    → (length d.commands ≤ 32)
      × (length d.reports ≤ 32)
      × (((tone_active now later d).1 && not (d.tone.token % 2 == 1 && d.speaker)) ≡ false)
unfolding tone_active
tone_active-speaker d now later r =
    let s = Reached-IsSound r in
    (
      s.commands_le,
      s.reports_le,
      rw (expire_tone-tone now d)
          (active_tone later (passed d.tone.until now) d.tone d.speaker s.enabled s.heard),
    )

-- The application asks for its request at these times.
abbrev pub polled : List ℕ → DeviceControl → DeviceControl
polled [] d = d
polled (t ∷ ts) d = polled ts (playback_request t d).0

-- The reports that stay when one is added.
abbrev pub room_for_one : List ControlMessage → List ControlMessage
room_for_one rs = if leb 32 (length rs) then drop 1 rs else rs

-- The tone of a request that is allowed.
abbrev pub sounding : ℕ → ℕ → DeviceControl → DeviceControl
sounding request_id u d = record d {
  tone = record { token = request_id * 2 + 1; until = some u; responded = false };
  position = 0;
}

-- Its end.
abbrev pub ended : ℕ → DeviceControl → DeviceControl
ended request_id d = push_report (tone_state request_id false true) (record d {
  tone = record { token = request_id * 2; until = none; responded = true };
  position = 0;
})
