-- ===== src/Android/Jitter.antt =====
-- android/app/src/main/rust/src/jitter.rs: the jitter buffer, which reorders datagrams by their
-- 32-bit sequence numbers and turns what is lost into silence. Numbers wrap as in the source. The
-- loop of `drain_ready` runs on fuel; `Android.Jitter.Drain` shows that `drain_fuel` is enough.
pub mod Serial
pub mod Invariant
pub mod Drain
pub mod Output
pub mod Order
pub mod Push
pub mod Reach
mod Examples
use soundwave.Base.{
  ℕ, zero, suc, ◌+◌, ◌-◌, ◌*◌, ◌^◌, List, [], ◌∷◌, ◌++◌, Bool, true, false, not, ◌&&◌, Option, none,
  some, max, min, length, filter_by, min_by_key, ltb, leb, ◌==◌, if◌then◌else◌,
}
use soundwave.Base.Words.{wrapping_add32, wrapping_sub32, saturating_add64}
use soundwave.Base.BTreeMap
use soundwave.Base.BTreeMap.{BTreeMap}
use soundwave.Protocol.Packet.{AudioPacket}

pub data JitterOutput : Type 0 where
  audio : AudioPacket → JitterOutput
  silence : JitterOutput

pub record JitterBuffer : Type 0 where
  pub expected_sequence : Option ℕ
  pub packets : BTreeMap AudioPacket
  pub target_packets : ℕ
  pub max_packets : ℕ
  pub started : Bool
  pub lost_packets : ℕ
  pub late_packets : ℕ

-- `target.saturating_mul(3).max(4)`
abbrev pub max_for_target : ℕ → ℕ
max_for_target target = max (min (target * 3) (2 ^ 64 - 1)) 4

unfoldable pub new : ℕ → JitterBuffer
new target_packets = record {
  expected_sequence = none;
  packets = [];
  target_packets = max target_packets 1;
  max_packets = max_for_target (max target_packets 1);
  started = false;
  lost_packets = 0;
  late_packets = 0;
}

unfoldable pub restart : ℕ → JitterBuffer → JitterBuffer
restart next_sequence j = record j {
  packets = [];
  expected_sequence = some next_sequence;
  started = false;
}

abbrev pub sequence_is_before : ℕ → ℕ → Bool
sequence_is_before sequence reference =
    let distance = wrapping_sub32 sequence reference in not (distance == 0) && leb (2 ^ 31) distance

abbrev pub sequence_is_after : ℕ → ℕ → Bool
sequence_is_after sequence reference =
    let distance = wrapping_sub32 sequence reference in not (distance == 0) && ltb distance (2 ^ 31)

unfoldable pub next_buffered_sequence : ℕ → BTreeMap AudioPacket → Option ℕ
next_buffered_sequence expected packets =
    min_by_key (λ sequence. wrapping_sub32 sequence expected)
      (filter_by (λ sequence. sequence_is_after sequence expected) (BTreeMap.keys packets))

-- One round of the loop of `drain_ready` when nothing is buffered at `expected` and `next` is the
-- nearest sequence number that is: `none` is `break`, and the list is what the round outputs.
unfoldable pub fill_gap : ℕ → ℕ → JitterBuffer → Option (JitterBuffer × List JitterOutput)
fill_gap expected next j =
    let missing = wrapping_sub32 next expected in
    if ltb j.max_packets missing
    then some (
      record j {
        lost_packets = saturating_add64 j.lost_packets missing;
        expected_sequence = some next;
      },
      [],
    )
    else if ltb (length j.packets) j.target_packets && ltb (length j.packets) j.max_packets
    then none
    else some (
      record j {
        expected_sequence = some (wrapping_add32 expected 1);
        lost_packets = saturating_add64 j.lost_packets 1;
      },
      silence ∷ [],
    )

-- One round of the loop.
unfoldable pub drain_round : ℕ → JitterBuffer → Option (JitterBuffer × List JitterOutput)
drain_round expected j = elim (BTreeMap.get expected j.packets) [
  | some packet ↦ some (
    record j {
      packets = BTreeMap.remove expected j.packets;
      expected_sequence = some (wrapping_add32 expected 1);
    },
    audio packet ∷ [],
  )
  | none ↦ elim (next_buffered_sequence expected j.packets) [
    | none ↦ none
    | some next ↦ fill_gap expected next j
  ]
]

-- What earlier rounds output stands in front. `none` means that the fuel ran out.
abbrev pub emit :
    List JitterOutput
    → Option (JitterBuffer × List JitterOutput)
    → Option (JitterBuffer × List JitterOutput)
emit out none = none
emit out (some (j, rest)) = some (j, out ++ rest)

unfoldable pub drain_loop : ℕ → JitterBuffer → Option (JitterBuffer × List JitterOutput)
drain_loop zero j = none
drain_loop (suc fuel) j = elim j.expected_sequence [
  | none ↦ some (j, [])
  | some expected ↦ elim (drain_round expected j) [
    | none ↦ some (j, [])
    | some (j', out) ↦ emit out (drain_loop fuel j')
  ]
]

-- Each buffered packet costs at most the rounds of the gap before it and its own.
abbrev pub drain_fuel : JitterBuffer → ℕ
drain_fuel j = length j.packets * (j.max_packets + 3) + j.max_packets + 2

unfoldable pub drain_ready : JitterBuffer → Option (JitterBuffer × List JitterOutput)
drain_ready j =
    if not j.started && ltb (length j.packets) j.target_packets
    then some (j, [])
    else drain_loop (drain_fuel j) (record j { started = true })

-- `push` once `expected_sequence` is known to be `expected`.
unfoldable pub push_at : ℕ → AudioPacket → JitterBuffer → Option (JitterBuffer × List JitterOutput)
push_at expected packet j =
    if BTreeMap.contains_key packet.sequence j.packets
    then some (j, [])
    else if sequence_is_before packet.sequence expected
    then some (record j { late_packets = saturating_add64 j.late_packets 1 }, [])
    else drain_ready (record j { packets = BTreeMap.insert packet.sequence packet j.packets })

-- `get_or_insert` stores the packet's sequence number where nothing is expected yet.
unfoldable pub push : AudioPacket → JitterBuffer → Option (JitterBuffer × List JitterOutput)
push packet j = elim j.expected_sequence [
  | some expected ↦ push_at expected packet j
  | none ↦ push_at packet.sequence packet (record j { expected_sequence = some packet.sequence })
]

unfoldable pub increase_target : ℕ → ℕ → JitterBuffer → JitterBuffer × Bool
increase_target additional_packets maximum_packets j =
    let cap = max maximum_packets 1 in
    if leb cap j.target_packets
    then (j, false)
    else let target = min (saturating_add64 j.target_packets (max additional_packets 1)) cap in
      (
        record j { target_packets = target; max_packets = max_for_target target; started = false },
        true,
      )
