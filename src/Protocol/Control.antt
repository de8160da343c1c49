-- ===== src/Protocol/Control.antt =====
-- crates/protocol/src/control.rs: the constants and the messages of the control stream. A text is
-- the list of its code points, and an `i8` is an integer.
use soundwave.Base.{ℕ, List, Bool}
use soundwave.Base.Int.{ℤ}

abbrev pub protocol_version : ℕ
protocol_version = 8

abbrev pub sample_rate : ℕ
sample_rate = 48000

abbrev pub channels : ℕ
channels = 2

pub data SampleFormat : Type 0 where
  i16_le : SampleFormat

pub record StreamInfo : Type 0 where
  pub sample_rate : ℕ
  pub channels : ℕ
  pub sample_format : SampleFormat
  pub frame_duration_ms : ℕ

pub data VolumePurpose : Type 0 where
  user calibration restore_speaker : VolumePurpose

pub data CalibrationAction : Type 0 where
  begin cancel : CalibrationAction
  commit : ℕ → CalibrationAction

pub record DeviceStatus : Type 0 where
  pub request_id : ℕ
  pub device_id : List ℕ
  pub name : List ℕ
  pub volume : ℕ
  pub minimum : ℕ
  pub maximum : ℕ
  pub fixed : Bool
  pub speaker : Bool
  pub failed : Bool

-- The fields of a variant are its arguments, in the order of the source.
pub data ControlMessage : Type 0 where
  hello : ℕ → ControlMessage
  stream_info : StreamInfo → ControlMessage
  start stop : ControlMessage
  adjust_volume : ℤ → ControlMessage
  audio_idle : ℕ → ControlMessage
  query_device : ℕ → ControlMessage
  set_volume : ℕ → ℕ → VolumePurpose → ControlMessage
  device_status : DeviceStatus → ControlMessage
  calibration_tone : ℕ → Bool → ControlMessage
  tone_state : ℕ → Bool → Bool → ControlMessage
  calibration_session : ℕ → CalibrationAction → ControlMessage
