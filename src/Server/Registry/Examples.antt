-- ===== src/Server/Registry/Examples.antt =====
-- Concrete runs of the registry, over a queue of two messages.
use soundwave.Base.{ℕ, ◌≡◌, refl, arith, List, [], ◌∷◌, Bool, true, false, some, ◌≤◌}
use soundwave.Base.BTreeMap
use soundwave.Protocol.Control.{DeviceStatus}
use soundwave.Server.Registry.{
  Receiver, Registry, joining, register, modify, approve, playback_gate,
}
use soundwave.Server.Registry.Device.{observe, store, sanitized, update_device, take_reply}
use soundwave.Server.Registry.Step.{
  Operation, registers, approves, updates_device, Reached, at_start, after, perform, empty,
}
use soundwave.Server.Registry.Queue.{queue, speaker_at}
use soundwave.Server.Registry.Approval.{as_expected}
use soundwave.Server.Registry.Safety.{perform_all, playing_has_speaker, plays_only_as_approved}
use soundwave.Server.Registry.Replies.{replies-bounded, take_reply-update_device}

-- Receiver 0 joins and reports its device in reply to request 3.
abbrev joined : Registry queue
joined = perform queue (registers 9 []) (empty queue)

abbrev reported : Registry queue
reported = perform queue (updates_device 0 (speaker_at 3 4)) joined

reported-Reached : Reached queue reported
reported-Reached = after (updates_device 0 (speaker_at 3 4)) (after (registers 9 []) at_start)

abbrev expected : List (ℕ × DeviceStatus)
expected = (0, speaker_at 0 4) ∷ []

abbrev playing : Registry queue
playing = perform queue (approves expected) reported

playing-Reached : Reached queue playing
playing-Reached = after (approves expected) reported-Reached

abbrev in_reply : ℕ → Bool → Receiver queue
in_reply volume plays = record (joining queue 9 []) {
  device = some (speaker_at 3 volume);
  replies = (3, speaker_at 3 volume) ∷ [];
  observed_volume = some volume;
  playback = plays;
}

playing_is : BTreeMap.get 0 playing.receivers ≡ some (in_reply 4 true)
unfolding perform register update_device modify observe store approve BTreeMap.get BTreeMap.insert
playing_is = refl

playing_has_speaker_example :
    (status : DeviceStatus) × ((in_reply 4 true).device ≡ some status)
    × (status.speaker ≡ true)
    × (status.fixed ≡ false)
    × (status.failed ≡ false)
playing_has_speaker_example =
    playing_has_speaker queue playing 0 (in_reply 4 true) playing-Reached playing_is refl

-- The same status again changes nothing; another volume stops playback.
abbrev repeated : List (Operation queue)
repeated = updates_device 0 (speaker_at 3 4) ∷ []

repeated_is : BTreeMap.get 0 (perform_all queue repeated playing).receivers ≡ some (in_reply 4 true)
unfolding perform register update_device modify observe store approve BTreeMap.get BTreeMap.insert
    BTreeMap.remove
repeated_is = refl

plays_only_as_approved_example : as_expected expected 0 (some (speaker_at 3 4)) ≡ true
plays_only_as_approved_example =
    plays_only_as_approved queue expected repeated reported 0 (in_reply 4 true) reported-Reached
      refl repeated_is refl

louder : playback_gate queue 0 (perform queue (updates_device 0 (speaker_at 0 5)) playing) ≡ false
unfolding perform register update_device modify observe store approve BTreeMap.get BTreeMap.insert
    BTreeMap.remove
louder = refl

replies-bounded_example : (1 ≤ 32) × (0 ≤ 32) × (0 ≤ 32)
replies-bounded_example =
    replies-bounded queue playing 0 (in_reply 4 true) playing-Reached playing_is

joined_is : BTreeMap.get 0 joined.receivers ≡ some (joining queue 9 [])
unfolding perform register BTreeMap.get BTreeMap.insert
joined_is = refl

take_reply-update_device_example :
    (take_reply queue 0 3 (update_device queue 0 (speaker_at 3 4) joined)).1
    ≡ some (sanitized (speaker_at 3 4))
take_reply-update_device_example =
    take_reply-update_device queue 0 (speaker_at 3 4) joined (joining queue 9 []) joined_is refl
      (ground arith)
