-- ===== src/Server/Silence.antt =====
-- windows-server/src/network/silence.rs: when a stream is put to sleep. The gate of
-- audio/transmission.rs, which enables it, is two flags.
mod Examples
pub mod Grace
use soundwave.Base.{
  ℕ, ◌*◌, ◌/◌, Bool, true, false, not, ◌&&◌, ◌||◌, Option, none, some, leb, if◌then◌else◌,
}
use soundwave.Base.Words.{wrapping_sub64}

pub record SilenceDetector : Type 0 where
  pub silent_since : Option ℕ
  pub idle : Bool

unfoldable pub new : SilenceDetector
new = record { silent_since = none; idle = false }

-- `u64::from(SAMPLE_RATE) * 300 / 1_000` samples.
abbrev pub grace : ℕ
grace = 48000 * 300 / 1000

-- `get_or_insert`
abbrev pub or_now : Option ℕ → ℕ → ℕ
or_now none timestamp = timestamp
or_now (some since) timestamp = since

-- The detector after `update`.
unfoldable pub advance : SilenceDetector → ℕ → Bool → Bool → SilenceDetector
advance d timestamp silent enabled =
    if not enabled
    then record { silent_since = none; idle = true }
    else if silent
    then (let since = or_now d.silent_since timestamp in
        record {
          silent_since = some since;
          idle = d.idle || leb grace (wrapping_sub64 timestamp since);
        })
    else record { silent_since = none; idle = false }

-- The result says whether the block is sent, and whether the stream has just become idle.
unfoldable pub update : SilenceDetector → ℕ → Bool → Bool → SilenceDetector × Bool × Bool
update d timestamp silent enabled =
    let d' = advance d timestamp silent enabled in (d', not d'.idle, d'.idle && not d.idle)

-- `AudioTransmissionGate`, as another thread sees it at one moment.
pub record AudioTransmissionGate : Type 0 where
  pub enabled : Bool
  pub calibrating : Bool

unfoldable pub enabled_gate : AudioTransmissionGate
enabled_gate = record { enabled = true; calibrating = false }

abbrev pub is_enabled : AudioTransmissionGate → Bool
is_enabled g = g.enabled && not g.calibrating

abbrev pub set_calibrating : Bool → AudioTransmissionGate → AudioTransmissionGate
set_calibrating calibrating g = record g { calibrating = calibrating }

abbrev pub set_enabled : Bool → AudioTransmissionGate → AudioTransmissionGate
set_enabled enabled g = record g { enabled = enabled }
