-- ===== src/Android/Jitter/Examples.antt =====
-- Runs of the jitter buffer on the packets of the source's tests.
use soundwave.Base.{
  Perm, ◌++◌, ℕ, List, [], ◌∷◌, ◌*◌, ◌%◌, ◌^◌, ◌<◌, ◌+◌, ◌-◌, ◌≤◌, ◌≡◌, ◌↔◌, refl, some, arith,
  true, false, if◌then◌else◌, min_by_key,
}
use soundwave.Base.Words.{saturating_add64}
use soundwave.Base.BTreeMap.{get, insert, remove}
use soundwave.Protocol.Packet.{AudioPacket}
use soundwave.Android.Jitter.{
  JitterBuffer, JitterOutput, audio, silence, new, push, push_at, drain_ready, drain_loop,
  drain_round, fill_gap, next_buffered_sequence, increase_target,
}
use soundwave.Android.Jitter.Output.{played_packets}
use soundwave.Android.Jitter.Order.{Schedule}
use soundwave.Android.Jitter.Push.{is_late}
use soundwave.Android.Jitter.Reach.{
  Reached, created, received, Reached-bounded, push_total, push_conserves, push_accounts,
  push_in_order, increase_target_lem,
}

abbrev packet : ℕ → AudioPacket
packet n = record { sequence = n; timestamp = n * 480; payload = 0 ∷ 0 ∷ [] }

program : Unit {0}
unfolding new push push_at drain_ready drain_loop drain_round fill_gap next_buffered_sequence
    increase_target get insert remove min_by_key
program = tt

-- Packets 1 and 2 have been played, and 4 is buffered behind the gap at 3.
abbrev playing : JitterBuffer
playing = record {
  expected_sequence = some 3;
  packets = (4, packet 4) ∷ [];
  target_packets = 2;
  max_packets = 6;
  started = true;
  lost_packets = 0;
  late_packets = 0;
}

abbrev after_gap : JitterBuffer
after_gap = record playing { expected_sequence = some 6; packets = []; lost_packets = 1 }

run_1 :
    push (packet 1) (new 2)
    ≡ some (
      record playing { expected_sequence = some 1; packets = (1, packet 1) ∷ []; started = false },
      [],
    )
unfolding program
run_1 = refl

run_2 :
    push
      (packet 2)
      (record playing { expected_sequence = some 1; packets = (1, packet 1) ∷ []; started = false })
    ≡ some (record playing { packets = [] }, audio (packet 1) ∷ audio (packet 2) ∷ [])
unfolding program
run_2 = refl

run_4 : push (packet 4) (record playing { packets = [] }) ≡ some (playing, [])
unfolding program
run_4 = refl

run_5 :
    push (packet 5) playing ≡ some (after_gap, silence ∷ audio (packet 4) ∷ audio (packet 5) ∷ [])
unfolding program
run_5 = refl

far_gap :
    push (packet 10000) (record playing { packets = [] })
    ≡ some (
      record playing { expected_sequence = some 10001; packets = []; lost_packets = 9997 },
      audio (packet 10000) ∷ [],
    )
unfolding program
far_gap = refl

playing-Reached : Reached playing
playing-Reached = received (packet 4) [] (omega arith) run_4 (
    received (packet 2) _ (omega arith) run_2
      (received (packet 1) [] (omega arith) run_1 (created 2 (omega arith))))

Reached-bounded_example : (1 < 2) × (2 ≤ 6)
Reached-bounded_example = Reached-bounded playing-Reached

push_total_example :
    (j' : JitterBuffer) × (out : List JitterOutput) × (push (packet 5) playing ≡ some (j', out))
    × Reached j'
push_total_example = push_total (packet 5) (omega arith) playing-Reached

push_conserves_example :
    Perm
      (played_packets (silence ∷ audio (packet 4) ∷ audio (packet 5) ∷ []) ++ [])
      (packet 5 ∷ packet 4 ∷ [])
    × (◌≡◌ {A = List JitterOutput} [] [])
    × (0 ≡ (if is_late (packet 5) playing then saturating_add64 0 1 else 0))
unfolding get
push_conserves_example = push_conserves (packet 5) _ (omega arith) playing-Reached run_5

push_accounts_example : some 6 ≡ some ((3 + 2 + (1 - 0)) % 2 ^ 32)
push_accounts_example = push_accounts (packet 5) _ (omega arith) playing-Reached run_5 (omega arith)

push_in_order_example : Schedule 3 0 (silence ∷ audio (packet 4) ∷ audio (packet 5) ∷ [])
push_in_order_example = push_in_order (packet 5) _ (omega arith) playing-Reached run_5

increase_target_lem_example :
    let (j', grew) = increase_target 2 5 playing in
    (2 ≤ j'.target_packets)
    × (j'.target_packets ≤ 5)
    × ((grew ≡ true) ↔ (2 < j'.target_packets))
    × (j'.packets ≡ playing.packets)
    × (j'.started ≡ (if grew then false else true))
increase_target_lem_example = increase_target_lem 2 5 playing (omega arith)
