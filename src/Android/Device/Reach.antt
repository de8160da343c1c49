-- ===== src/Android/Device/Reach.antt =====
-- The states that the calls of the device control lead to, and what holds in all of them.
use soundwave.Base.{
  ℕ, ◌/◌, ◌%◌, ◌≡◌, ◌≤◌, ◌<◌, refl, ap, arith, List, [], ◌∷◌, ◌++◌, Bool, true, false, not, ◌&&◌,
  ◌||◌, Option, none, some, drop, length, length-append, length-drop, leb, ◌==◌, if◌then◌else◌,
  is_some, Bool-cases, inl, inr,
}
use soundwave.Protocol.Control.{ControlMessage, DeviceStatus, device_status, tone_state}
use soundwave.Android.Device.{
  DeviceControl, PendingCommand, Tone, idle, passed, enqueue_operation, take_command_at,
  push_report, report_failed, request_of, popped, popped_report, request_tone, stop_tone, set_tone,
  report, take_report, expire_tone, playback_request, is_active, answered, report_answer,
  report_playback, tone_active, read_tone, reset,
}

-- One call on the device control; the numbers before the last ones of a call are readings of the
-- clock. `enqueue` is the operation it queues.
pub data Operation : Type 0 where
  enqueues : ℕ → ℕ → ℕ → ℕ → Operation
  takes_command takes_request : ℕ → Operation
  reports : DeviceStatus → Operation
  takes_report resets : Operation
  requests_tone : ℕ → ℕ → Bool → Operation
  sets_tone : ℕ → Bool → Operation
  reports_playback : ℕ → ℕ → ℕ → ℕ → Bool → Operation
  asks_active : ℕ → ℕ → Operation
  reads_tone : (ℕ → ℕ → ℕ) → ℕ → ℕ → List ℕ → Operation

unfoldable pub perform : Operation → DeviceControl → DeviceControl
perform (enqueues now request_id operation value) d =
    (enqueue_operation now request_id operation value d).0
perform (takes_command now) d = (take_command_at now d).0
perform (takes_request now) d = (playback_request now d).0
perform (reports status) d = report status d
perform takes_report d = (take_report d).0
perform resets d = reset d
perform (requests_tone now request_id enabled) d = request_tone now request_id enabled d
perform (sets_tone now enabled) d = set_tone now enabled d
perform (reports_playback now later latest token playing) d =
    report_playback now later latest token playing d
perform (asks_active now later) d = (tone_active now later d).0
perform (reads_tone wave now later output) d = (read_tone wave now later output d).0

pub data Reached : DeviceControl → Type 0 where
  at_start : Reached idle
  after : {d : DeviceControl} (o : Operation) → Reached d → Reached (perform o d)

-- The queues are bounded, and a tone that sounds was asked for and has a speaker.
pub record IsSound (d : DeviceControl) : Type 0 where
  pub commands_le : length d.commands ≤ 32
  pub reports_le : length d.reports ≤ 32
  pub enabled : (is_some d.tone.until && not (d.tone.token % 2 == 1)) ≡ false
  pub heard : (is_some d.tone.until && not d.speaker) ≡ false

length-kept :
    (r : ControlMessage) (rs : List ControlMessage)
    → length rs ≤ 32
    → length ((if leb 32 (length rs) then drop 1 rs else rs) ++ r ∷ []) ≤ 32
length-kept r rs h = elim (Bool-cases (leb 32 (length rs))) [
  | inl full ↦ rw full (omega (arith, length-append (drop 1 rs) (r ∷ []), length-drop 1 rs, h))
  | inr room ↦
      let few : length rs < 32 = ground arith in
      rw room (omega (arith, length-append rs (r ∷ []), few))
]

push_report-IsSound :
    (r : ControlMessage) (d : DeviceControl) → IsSound d → IsSound (push_report r d)
unfolding push_report
push_report-IsSound r d s = record {
  commands_le = s.commands_le;
  reports_le = length-kept r d.reports s.reports_le;
  enabled = s.enabled;
  heard = s.heard;
}

report_failed-IsSound :
    (waits : Bool) (request_id : ℕ) (d : DeviceControl)
    → IsSound d
    → IsSound (report_failed waits request_id d)
report_failed-IsSound waits request_id d s = elim (Bool-cases (waits && not (request_id == 0))) [
  | inl yields ↦ rw yields (push_report-IsSound (tone_state request_id false true) d s)
  | inr nothing ↦ rw nothing s
]

request_tone-IsSound :
    (now request_id : ℕ) (on : Bool) (d : DeviceControl)
    → IsSound d
    → IsSound (request_tone now request_id on d)
unfolding request_tone
request_tone-IsSound now request_id on d s =
    report_failed-IsSound (not (not on || d.speaker)) request_id _ (record {
      commands_le = s.commands_le;
      reports_le = s.reports_le;
      enabled = ground arith;
      heard = ground arith;
    })

-- No tone, whatever else.
quiet-IsSound :
    (d : DeviceControl)
    → length d.commands ≤ 32
    → length d.reports ≤ 32
    → d.tone.until ≡ none
    → IsSound d
quiet-IsSound d c r q = record {
  commands_le = c;
  reports_le = r;
  enabled = rw q refl;
  heard = rw q refl;
}

moved-IsSound : (n : ℕ) (d : DeviceControl) → IsSound d → IsSound (record d { position = n })
moved-IsSound n d s = record {
  commands_le = s.commands_le;
  reports_le = s.reports_le;
  enabled = s.enabled;
  heard = s.heard;
}

stop_tone-IsSound :
    (d : DeviceControl) → length d.commands ≤ 32 → length d.reports ≤ 32 → IsSound (stop_tone d)
unfolding stop_tone
stop_tone-IsSound d c r = moved-IsSound 0 _ (
    report_failed-IsSound (is_some d.tone.until) (request_of d.tone.token) _
      (quiet-IsSound _ c r refl))

set_tone-IsSound :
    (now : ℕ) (on : Bool) (d : DeviceControl) → IsSound d → IsSound (set_tone now on d)
unfolding set_tone
set_tone-IsSound now true d s = request_tone-IsSound now 0 true d s
set_tone-IsSound now false d s = stop_tone-IsSound d s.commands_le s.reports_le

report-IsSound : (status : DeviceStatus) (d : DeviceControl) → IsSound d → IsSound (report status d)
unfolding report
report-IsSound status d s =
    push_report-IsSound (device_status status) _
      (elim (Bool-cases (not status.speaker || status.failed)) [
        | inl mute ↦ rw mute (stop_tone-IsSound _ s.commands_le s.reports_le)
        | inr loud ↦ rw loud (record {
          commands_le = s.commands_le;
          reports_le = s.reports_le;
          enabled = s.enabled;
          heard = ground arith;
        })
      ])

expire_tone-IsSound : (now : ℕ) (d : DeviceControl) → IsSound d → IsSound (expire_tone now d)
unfolding expire_tone
expire_tone-IsSound now d s = elim (Bool-cases (passed d.tone.until now)) [
  | inl over ↦ rw over (
      report_failed-IsSound true (request_of d.tone.token) _
        (quiet-IsSound _ s.commands_le s.reports_le refl))
  | inr still ↦ rw still s
]

-- An answer leaves a tone that still sounds as it was asked for.
answered_until :
    (now later : ℕ) (playing : Bool) (tone : Tone)
    → (is_some tone.until && not (tone.token % 2 == 1)) ≡ false
    → let tone' = (answered now later playing tone).0 in
      ((is_some tone'.until && not (tone'.token % 2 == 1)) ≡ false)
      × ((is_some tone'.until && not (is_some tone.until)) ≡ false)
answered_until now later playing tone e = ground arith

retuned-IsSound :
    (d : DeviceControl) (tone : Tone)
    → IsSound d
    → (is_some tone.until && not (tone.token % 2 == 1)) ≡ false
    → (is_some tone.until && not (is_some d.tone.until)) ≡ false
    → IsSound (record d { tone = tone })
retuned-IsSound d tone s e h = record {
  commands_le = s.commands_le;
  reports_le = s.reports_le;
  enabled = e;
  heard = ground (arith, s.heard);
}

report_answer-IsSound :
    (request_id : ℕ) (d : DeviceControl) (a : Tone × Option (Bool × Bool))
    → IsSound (record d { tone = a.0 })
    → IsSound (report_answer request_id d a)
report_answer-IsSound request_id d (tone, none) s = s
report_answer-IsSound request_id d (tone, some (playing, failed)) s =
    push_report-IsSound (tone_state request_id playing failed) (record d { tone = tone }) s

report_playback-IsSound :
    (now later latest token : ℕ) (playing : Bool) (d : DeviceControl)
    → IsSound d
    → IsSound (report_playback now later latest token playing d)
unfolding report_playback
report_playback-IsSound now later latest token playing d s =
    let d' = expire_tone now d in
    let s' = expire_tone-IsSound now d s in
    elim (Bool-cases (token / 2 == 0 || not (token == d'.tone.token))) [
      | inl other ↦ rw other s'
      | inr mine ↦
          let kept = answered_until later latest playing d'.tone s'.enabled in
          rw mine (
            report_answer-IsSound (request_of token) d' (answered later latest playing d'.tone)
              (retuned-IsSound d' (answered later latest playing d'.tone).0 s' kept.0 kept.1))
    ]

popped-IsSound :
    (now : ℕ) (d : DeviceControl) (cs : List PendingCommand)
    → d.commands ≡ cs
    → IsSound d
    → IsSound (popped now d cs).0
popped-IsSound now d [] e s = s
popped-IsSound now d (c ∷ cs) e s = record {
  commands_le = omega (arith, ap length e, s.commands_le);
  reports_le = s.reports_le;
  enabled = s.enabled;
  heard = s.heard;
}

popped_report-IsSound :
    (d : DeviceControl) (rs : List ControlMessage)
    → d.reports ≡ rs
    → IsSound d
    → IsSound (popped_report d rs).0
popped_report-IsSound d [] e s = s
popped_report-IsSound d (r ∷ rs) e s = record {
  commands_le = s.commands_le;
  reports_le = omega (arith, ap length e, s.reports_le);
  enabled = s.enabled;
  heard = s.heard;
}

enqueue_operation-IsSound :
    (now request_id operation value : ℕ) (d : DeviceControl)
    → IsSound d
    → IsSound (enqueue_operation now request_id operation value d).0
unfolding enqueue_operation
enqueue_operation-IsSound now request_id operation value d s =
    elim (Bool-cases (leb 32 (length d.commands))) [
      | inl full ↦ rw full s
      | inr room ↦
          let few : length d.commands < 32 = ground arith in
          rw room (record {
            commands_le = omega (arith, length-append d.commands, few);
            reports_le = s.reports_le;
            enabled = s.enabled;
            heard = s.heard;
          })
    ]

read_tone-IsSound :
    (wave : ℕ → ℕ → ℕ) (now later : ℕ) (output : List ℕ) (d : DeviceControl)
    → IsSound d
    → IsSound (read_tone wave now later output d).0
unfolding read_tone tone_active
read_tone-IsSound wave now later output d s =
    elim (Bool-cases (is_active later (expire_tone now d).tone)) [
      | inl on ↦ rw on (moved-IsSound _ (expire_tone now d) (expire_tone-IsSound now d s))
      | inr off ↦ rw off (expire_tone-IsSound now d s)
    ]

perform-IsSound : (o : Operation) (d : DeviceControl) → IsSound d → IsSound (perform o d)
unfolding perform playback_request tone_active take_command_at take_report reset
perform-IsSound (enqueues now request_id operation value) d s =
    enqueue_operation-IsSound now request_id operation value d s
perform-IsSound (takes_command now) d s = popped-IsSound now d d.commands refl s
perform-IsSound (takes_request now) d s = expire_tone-IsSound now d s
perform-IsSound (reports status) d s = report-IsSound status d s
perform-IsSound takes_report d s = popped_report-IsSound d d.reports refl s
perform-IsSound resets d s = quiet-IsSound _ (omega arith) (omega arith) refl
perform-IsSound (requests_tone now request_id on) d s = request_tone-IsSound now request_id on d s
perform-IsSound (sets_tone now on) d s = set_tone-IsSound now on d s
perform-IsSound (reports_playback now later latest token playing) d s =
    report_playback-IsSound now later latest token playing d s
perform-IsSound (asks_active now later) d s = expire_tone-IsSound now d s
perform-IsSound (reads_tone wave now later output) d s = read_tone-IsSound wave now later output d s

pub Reached-IsSound : {d : DeviceControl} → Reached d → IsSound d
Reached-IsSound at_start = quiet-IsSound idle (omega arith) (omega arith) refl
Reached-IsSound (after {d} o r) = perform-IsSound o d (Reached-IsSound r)
