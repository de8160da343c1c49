-- ===== src/Android/Jitter/Push.antt =====
-- What a call of `push` does, on each of its branches.
use soundwave.Base.{
  Perm, ◌∷◌, ◌++◌, ℕ, ◌+◌, ◌-◌, ◌%◌, ◌^◌, ◌<◌, List, [], Bool, true, false, not, ◌&&◌, ◌||◌, none,
  some, ◌≡◌, refl, subst, arith, length, Bool-cases, Option-cases, inl, inr, if◌then◌else◌, ltb,
}
use soundwave.Base.Words.{saturating_add64}
use soundwave.Base.BTreeMap.{insert, contains_key, values}
use soundwave.Base.BTreeMap.Laws.{IsAscending-insert, values_insert-Perm}
use mathlib.Core.List.Perm
use soundwave.Protocol.Packet.{AudioPacket}
use soundwave.Android.Jitter.{
  JitterBuffer, JitterOutput, drain_ready, drain_fuel, push, push_at, sequence_is_before, new,
}
use soundwave.Android.Jitter.Serial.{Waiting-insert}
use soundwave.Android.Jitter.Drain.{drain_loop_total, rounds_left-lt-drain_fuel}
use soundwave.Android.Jitter.Invariant.{IsValid, Waiting-at}
use soundwave.Android.Jitter.Output.{count_audio, played_packets, Settled, loop-Settled}
use soundwave.Android.Jitter.Order.{Schedule, loop-Schedule}

-- What holds between two calls: the invariant, and fewer buffered packets than the target.
pub record IsReady (j : JitterBuffer) : Type 0 where
  pub valid : IsValid j
  pub few : length j.packets < j.target_packets

-- A run of the buffer from `j`, which expects `e`: the state it settles in, and the order of the
-- output.
pub record Ran (e : ℕ) (j : JitterBuffer) (r : JitterBuffer × List JitterOutput) : Type 0 where
  pub settled : Settled e j r.0 r.1
  pub schedule : Schedule e 0 r.1

start-IsValid : {j : JitterBuffer} → IsValid j → IsValid (record j { started = true })
start-IsValid v = record {
  ascending = v.ascending;
  waiting = v.waiting;
  target_pos = v.target_pos;
  target_le = v.target_le;
  lost_word = v.lost_word;
}

Settled-start :
    {e : ℕ} {j j' : JitterBuffer} {out : List JitterOutput}
    → Settled e (record j { started = true }) j' out
    → Settled e j j' out
Settled-start s = record {
  drained = record {
    end = s.drained.end;
    expected = s.drained.expected;
    conserved = s.drained.conserved;
    lost_mono = s.drained.lost_mono;
    accounted = s.drained.accounted;
    same_target = s.drained.same_target;
    same_max = s.drained.same_max;
    same_late = s.drained.same_late;
  };
  valid = s.valid;
  few = s.few;
}

idle-Ran : {e : ℕ} {j : JitterBuffer} → j.expected_sequence ≡ some e → IsReady j → Ran e j (j, [])
idle-Ran {e} {j} x r = record {
  settled = record {
    drained = record {
      end = e;
      expected = x;
      conserved = Perm.refl (values j.packets);
      lost_mono = omega arith;
      accounted = λ h. omega (arith, (Waiting-at x r.valid).0);
      same_target = refl;
      same_max = refl;
      same_late = refl;
    };
    valid = r.valid;
    few = r.few;
  };
  schedule = tt;
}

pub drain_ready-Ran :
    (e : ℕ) (j : JitterBuffer)
    → j.expected_sequence ≡ some e
    → IsValid j
    → (r : JitterBuffer × List JitterOutput) × (drain_ready j ≡ some r) × Ran e j r
unfolding drain_ready
drain_ready-Ran e j x v =
    elim (Bool-cases (not j.started && ltb (length j.packets) j.target_packets)) [
      | inl waits ↦ ((j, []), rw waits, idle-Ran x (record { valid = v; few = ground arith }))
      | inr runs ↦
          let j0 : JitterBuffer = record j { started = true } in
          let v0 = start-IsValid v in
          let ((j', out), done) =
            drain_loop_total (drain_fuel j) e j0 x v0 (rounds_left-lt-drain_fuel e j0) in
          (
            (j', out),
            rw runs done,
            record {
              settled = Settled-start (loop-Settled (drain_fuel j) e j0 j' out x v0 done);
              schedule = loop-Schedule (drain_fuel j) e j0 j' out x v0 done;
            },
          )
    ]

-- The number that the buffer expects when `packet` arrives.
abbrev pub expected_at : AudioPacket → JitterBuffer → ℕ
expected_at packet j = elim j.expected_sequence [ none ↦ packet.sequence | some e ↦ e ]

-- The two kinds of packet that `push` drops: a copy of a buffered one, and one whose turn is over.
abbrev pub is_duplicate : AudioPacket → JitterBuffer → Bool
is_duplicate packet j = contains_key packet.sequence j.packets

abbrev pub is_late : AudioPacket → JitterBuffer → Bool
is_late packet j =
    not (is_duplicate packet j) && sequence_is_before packet.sequence (expected_at packet j)

-- What a call of `push` has done.
pub record Pushed (p : AudioPacket) (j j' : JitterBuffer) (out : List JitterOutput) : Type 0 where
  pub ready : IsReady j'
  pub end : ℕ
  pub expected : j'.expected_sequence ≡ some end
  pub conserved :
      Perm
        (played_packets out ++ values j'.packets)
        ((if is_duplicate p j || is_late p j then [] else p ∷ []) ++ values j.packets)
  pub dropped : (if is_duplicate p j || is_late p j then out else []) ≡ []
  pub accounted :
      j'.lost_packets < 2 ^ 64 - 1
      → end ≡ (expected_at p j + count_audio out + (j'.lost_packets - j.lost_packets)) % 2 ^ 32
  pub late :
      j'.late_packets ≡ (if is_late p j then saturating_add64 j.late_packets 1 else j.late_packets)
  pub schedule : Schedule (expected_at p j) 0 out
  pub same_target : j'.target_packets ≡ j.target_packets

module _ (p : AudioPacket) (e : ℕ) (j : JitterBuffer) (word : p.sequence < 2 ^ 32)
    (x : j.expected_sequence ≡ some e) (r : IsReady j) where
  insert-IsValid :
      contains_key p.sequence j.packets ≡ false
      → sequence_is_before p.sequence e ≡ false
      → IsValid (record j { packets = insert p.sequence p j.packets })
  insert-IsValid new on_time = record {
    ascending = IsAscending-insert p.sequence p j.packets r.valid.ascending;
    waiting = rw x (
      (Waiting-at x r.valid).0,
      Waiting-insert e (Waiting-at x r.valid).0 p j.packets word (ground arith)
          (Waiting-at x r.valid).1,
    );
    target_pos = r.valid.target_pos;
    target_le = r.valid.target_le;
    lost_word = r.valid.lost_word;
  }

  idle-Pushed :
      (late_packets' : ℕ)
      → is_duplicate p j || is_late p j ≡ true
      → late_packets' ≡ (if is_late p j then saturating_add64 j.late_packets 1 else j.late_packets)
      → Pushed p j (record j { late_packets = late_packets' }) []
  idle-Pushed late_packets' dropped late = record {
    ready = record {
      valid = record {
        ascending = r.valid.ascending;
        waiting = r.valid.waiting;
        target_pos = r.valid.target_pos;
        target_le = r.valid.target_le;
        lost_word = r.valid.lost_word;
      };
      few = r.few;
    };
    end = e;
    expected = x;
    conserved = rw dropped (Perm.refl (values j.packets));
    dropped = rw dropped;
    accounted = λ h. rw x (omega (arith, (Waiting-at x r.valid).0));
    late = late;
    schedule = tt;
    same_target = refl;
  }

  inserted-Pushed :
      (j' : JitterBuffer) (out : List JitterOutput)
      → contains_key p.sequence j.packets ≡ false
      → sequence_is_before p.sequence e ≡ false
      → Ran e (record j { packets = insert p.sequence p j.packets }) (j', out)
      → Pushed p j j' out
  inserted-Pushed j' out new on_time ran = record {
    ready = record { valid = ran.settled.valid; few = ran.settled.few };
    end = ran.settled.drained.end;
    expected = ran.settled.drained.expected;
    conserved =
        rw (new, x, on_time)
          (Perm.trans ran.settled.drained.conserved
            (values_insert-Perm p.sequence p j.packets new));
    dropped = rw (new, x, on_time);
    accounted = rw x (ran.settled.drained.accounted);
    late = rw (new, x, on_time) (ran.settled.drained.same_late);
    schedule = rw x (ran.schedule);
    same_target = ran.settled.drained.same_target;
  }

  push_at-Pushed :
      (q : JitterBuffer × List JitterOutput) × (push_at e p j ≡ some q) × Pushed p j q.0 q.1
  unfolding push_at
  push_at-Pushed = elim (Bool-cases (contains_key p.sequence j.packets)) [
    | inl copy ↦ ((j, []), rw copy, idle-Pushed j.late_packets (rw copy) (rw copy))
    | inr new ↦ elim (Bool-cases (sequence_is_before p.sequence e)) [
      | inl before ↦ (
        (record j { late_packets = saturating_add64 j.late_packets 1 }, []),
        rw (new, before),
        idle-Pushed (saturating_add64 j.late_packets 1) (rw (new, x, before)) (rw (new, x, before)),
      )
      | inr on_time ↦
          let j1 : JitterBuffer = record j { packets = insert p.sequence p j.packets } in
          let (q, done, ran) = drain_ready-Ran e j1 x (insert-IsValid new on_time) in
          (q, rw (new, on_time) done, inserted-Pushed q.0 q.1 new on_time ran)
    ]
  ]

-- The first packet makes its own sequence number the expected one.
first-IsReady :
    (p : AudioPacket) (j : JitterBuffer)
    → p.sequence < 2 ^ 32
    → j.expected_sequence ≡ none
    → IsReady j
    → IsReady (record j { expected_sequence = some p.sequence })
first-IsReady p j word x r = record {
  valid = record {
    ascending = r.valid.ascending;
    waiting = let nothing : j.packets ≡ [] = rw x at (r.valid.waiting) in (word, rw nothing tt);
    target_pos = r.valid.target_pos;
    target_le = r.valid.target_le;
    lost_word = r.valid.lost_word;
  };
  few = r.few;
}

first-Pushed :
    {p : AudioPacket} {j j' : JitterBuffer} {out : List JitterOutput}
    → j.expected_sequence ≡ none
    → Pushed p (record j { expected_sequence = some p.sequence }) j' out
    → Pushed p j j' out
first-Pushed x d = record {
  ready = d.ready;
  end = d.end;
  expected = d.expected;
  conserved = rw x (d.conserved);
  dropped = rw x (d.dropped);
  accounted = rw x (d.accounted);
  late = rw x (d.late);
  schedule = rw x (d.schedule);
  same_target = d.same_target;
}

pub push-Pushed :
    (p : AudioPacket) (j : JitterBuffer)
    → p.sequence < 2 ^ 32
    → IsReady j
    → (q : JitterBuffer × List JitterOutput) × (push p j ≡ some q) × Pushed p j q.0 q.1
unfolding push
push-Pushed p j word r = elim (Option-cases j.expected_sequence) [
  | inr (e, x) ↦ let (q, done, d) = push_at-Pushed p e j word x r in (q, ground arith, d)
  | inl x ↦
      let j1 : JitterBuffer = record j { expected_sequence = some p.sequence } in
      let (q, done, d) = push_at-Pushed p p.sequence j1 word refl (first-IsReady p j word x r) in
      (q, ground arith, first-Pushed x d)
]

pub pushed :
    {p : AudioPacket} {j j' : JitterBuffer} {out : List JitterOutput}
    → p.sequence < 2 ^ 32
    → IsReady j
    → push p j ≡ some (j', out)
    → Pushed p j j' out
pushed {p} {j} {j'} {out} word r h =
    let (q, done, d) = push-Pushed p j word r in
    let same : q ≡ (j', out) = cc in
    subst (λ (t : JitterBuffer × List JitterOutput). Pushed p j t.0 t.1) same d
