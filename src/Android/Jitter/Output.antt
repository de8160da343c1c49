-- ===== src/Android/Jitter/Output.antt =====
-- What the loop of `drain_ready` outputs: how many packets and how much silence, and in which order.
use soundwave.Base.{
  Perm, append_assoc, ap, ℕ, zero, suc, ◌+◌, ◌-◌, ◌%◌, ◌^◌, ◌≤◌, ◌<◌, List, [], ◌∷◌, ◌++◌, Option,
  none, some, ◌≡◌, refl, sym, subst, ◌∙◌, arith, length, Option-cases, inl, inr,
}
use soundwave.Base.Words.{wrapping_add32}
use soundwave.Base.BTreeMap.Laws.{values_remove-Perm}
use soundwave.Base.BTreeMap.{values}
use soundwave.Protocol.Packet.{AudioPacket}
use mathlib.Core.List.Perm
use soundwave.Android.Jitter.{
  JitterBuffer, JitterOutput, audio, silence, drain_round, drain_loop, emit,
}
use soundwave.Android.Jitter.Drain.{loop_stop, loop_go, Round-expected, some_eq}
use soundwave.Android.Jitter.Invariant.{
  IsValid, Round, played, skipped, silenced, drain_round-Round, drain_round_stop, Round-IsValid,
  Waiting-at,
}

abbrev pub count_audio : List JitterOutput → ℕ
count_audio [] = 0
count_audio (audio p ∷ out) = suc (count_audio out)
count_audio (silence ∷ out) = count_audio out

abbrev pub count_silence : List JitterOutput → ℕ
count_silence [] = 0
count_silence (audio p ∷ out) = count_silence out
count_silence (silence ∷ out) = suc (count_silence out)

-- The packets that are played, in order.
abbrev pub played_packets : List JitterOutput → List AudioPacket
played_packets [] = []
played_packets (audio p ∷ out) = p ∷ played_packets out
played_packets (silence ∷ out) = played_packets out

played_packets-append :
    (xs ys : List JitterOutput) → played_packets (xs ++ ys) ≡ played_packets xs ++ played_packets ys
played_packets-append [] ys = refl
played_packets-append (audio p ∷ xs) ys = ap (◌∷◌ p) (played_packets-append xs ys)
played_packets-append (silence ∷ xs) ys = played_packets-append xs ys

count_audio-append :
    (xs ys : List JitterOutput) → count_audio (xs ++ ys) ≡ count_audio xs + count_audio ys
count_audio-append [] ys = omega arith
count_audio-append (audio p ∷ xs) ys = omega (arith, count_audio-append xs ys)
count_audio-append (silence ∷ xs) ys = count_audio-append xs ys

-- What a run of the loop from `j`, which expects `e`, leaves behind in `j'` and has output. The
-- number expected in the end is `e` moved on by one for each packet played and by one for each
-- sequence number counted as lost, unless that counter has reached its greatest value.
pub record Drained (e : ℕ) (j j' : JitterBuffer) (out : List JitterOutput) : Type 0 where
  pub end : ℕ
  pub expected : j'.expected_sequence ≡ some end
  pub conserved : Perm (played_packets out ++ values j'.packets) (values j.packets)
  pub lost_mono : j.lost_packets ≤ j'.lost_packets
  pub accounted :
      j'.lost_packets < 2 ^ 64 - 1
      → end ≡ (e + count_audio out + (j'.lost_packets - j.lost_packets)) % 2 ^ 32
  pub same_target : j'.target_packets ≡ j.target_packets
  pub same_max : j'.max_packets ≡ j.max_packets
  pub same_late : j'.late_packets ≡ j.late_packets

Round-Drained :
    {e : ℕ} {j j' : JitterBuffer} {out : List JitterOutput}
    → j.expected_sequence ≡ some e
    → IsValid j
    → Round e j j' out
    → Drained e j j' out
Round-Drained {e} {j} x v (played p g s o) =
    rw (s, o)
      (record {
        end = wrapping_add32 e 1;
        expected = refl;
        conserved = values_remove-Perm e p j.packets g;
        lost_mono = omega arith;
        accounted = λ h. omega (arith, (Waiting-at x v).0);
        same_target = refl;
        same_max = refl;
        same_late = refl;
      })
Round-Drained {e} {j} x v (skipped n g near far s o) =
    rw (s, o)
      (record {
        end = n;
        expected = refl;
        conserved = Perm.refl (values j.packets);
        lost_mono = omega arith;
        accounted = λ h. omega (arith, near.1, near.2, (Waiting-at x v).0);
        same_target = refl;
        same_max = refl;
        same_late = refl;
      })
Round-Drained {e} {j} x v (silenced g close pos s o) =
    rw (s, o)
      (record {
        end = wrapping_add32 e 1;
        expected = refl;
        conserved = Perm.refl (values j.packets);
        lost_mono = omega arith;
        accounted = λ h. omega (arith, (Waiting-at x v).0);
        same_target = refl;
        same_max = refl;
        same_late = refl;
      })

Drained-trans :
    {e : ℕ} {j j1 j' : JitterBuffer} {out rest : List JitterOutput}
    → (d : Drained e j j1 out) → Drained d.end j1 j' rest
    → Drained e j j' (out ++ rest)
Drained-trans {out} {rest} d d' = record {
  end = d'.end;
  expected = d'.expected;
  conserved =
      rw (played_packets-append, append_assoc)
        (Perm.trans (Perm.append_left (played_packets out) d'.conserved) d.conserved);
  lost_mono = omega (arith, d.lost_mono, d'.lost_mono);
  accounted = λ h.
      let first = d.accounted (omega (arith, d'.lost_mono)) in
      let second = d'.accounted h in
      omega (arith, count_audio-append out rest, first, second, d.lost_mono, d'.lost_mono);
  same_target = d'.same_target ∙ d.same_target;
  same_max = d'.same_max ∙ d.same_max;
  same_late = d'.same_late ∙ d.same_late;
}

emit-some :
    (out : List JitterOutput) {out' : List JitterOutput} {j' : JitterBuffer}
    (o : Option (JitterBuffer × List JitterOutput))
    → emit out o ≡ some (j', out')
    → (rest : List JitterOutput) × (o ≡ some (j', rest)) × (out' ≡ out ++ rest)
emit-some out none h = absurd (cc)
emit-some out (some (j1, rest)) h = (rest, ground arith, ground arith)

-- A statement about runs of the loop follows from the case of a round that stops and the case of a
-- round before a run.
module _ (P : ℕ → JitterBuffer → JitterBuffer → List JitterOutput → Type 0)
    (stops : (e : ℕ) (j : JitterBuffer)
      → j.expected_sequence ≡ some e
      → IsValid j
      → drain_round e j ≡ none
      → P e j j [])
    (goes : (e e1 : ℕ) (j j1 j' : JitterBuffer) (out rest : List JitterOutput)
      → j.expected_sequence ≡ some e
      → IsValid j
      → Round e j j1 out
      → j1.expected_sequence ≡ some e1
      → P e1 j1 j' rest
      → P e j j' (out ++ rest)) where
  pub loop_induction :
      (fuel e : ℕ) (j j' : JitterBuffer) (out : List JitterOutput)
      → j.expected_sequence ≡ some e
      → IsValid j
      → drain_loop fuel j ≡ some (j', out)
      → P e j j' out
  unfolding drain_loop
  loop_induction zero e j j' out x v h = absurd (cc)
  loop_induction (suc fuel) e j j' out x v h = elim (Option-cases (drain_round e j)) [
    | inl stop ↦
        let same = sym (loop_stop fuel e j x stop) ∙ h in
        let eqj : j ≡ j' = cc in
        let eqo : [] ≡ out = cc in
        subst (λ q. P e j q out) eqj (subst (λ q. P e j j q) eqo (stops e j x v stop))
    | inr ((j1, o), go) ↦
        let round = drain_round-Round e j (Waiting-at x v).0 (Waiting-at x v).1 j1 o go in
        let (e1, x1) = Round-expected round in
        let (rest, run, eqo) =
          emit-some o (drain_loop fuel j1) (sym (loop_go fuel e j x j1 o go) ∙ h) in
        rw eqo (
          goes e e1 j j1 j' o rest x v round x1
            (loop_induction fuel e1 j1 j' rest x1 (Round-IsValid x v round) run))
  ]

-- The loop keeps the invariant, stops with fewer packets than the target, and accounts for every
-- sequence number that it passes.
pub record Settled (e : ℕ) (j j' : JitterBuffer) (out : List JitterOutput) : Type 0 where
  pub drained : Drained e j j' out
  pub valid : IsValid j'
  pub few : length j'.packets < j'.target_packets

pub loop-Settled :
    (fuel e : ℕ) (j j' : JitterBuffer) (out : List JitterOutput)
    → j.expected_sequence ≡ some e
    → IsValid j
    → drain_loop fuel j ≡ some (j', out)
    → Settled e j j' out
loop-Settled = loop_induction Settled stops goes
  where
    stops :
        (e : ℕ) (j : JitterBuffer)
        → j.expected_sequence ≡ some e
        → IsValid j
        → drain_round e j ≡ none
        → Settled e j j []
    stops e j x v stop = record {
      drained = record {
        end = e;
        expected = x;
        conserved = Perm.refl (values j.packets);
        lost_mono = omega arith;
        accounted = λ h. omega (arith, (Waiting-at x v).0);
        same_target = refl;
        same_max = refl;
        same_late = refl;
      };
      valid = v;
      few =
          drain_round_stop e j (Waiting-at x v).0 (Waiting-at x v).1 v.target_pos v.target_le stop;
    }

    goes :
        (e e1 : ℕ) (j j1 j' : JitterBuffer) (out rest : List JitterOutput)
        → j.expected_sequence ≡ some e
        → IsValid j
        → Round e j j1 out
        → j1.expected_sequence ≡ some e1
        → Settled e1 j1 j' rest
        → Settled e j j' (out ++ rest)
    goes e e1 j j1 j' out rest x v round x1 s =
        let d = Round-Drained x v round in
        let same : e1 ≡ d.end = some_eq x1 d.expected in
        record {
          drained = Drained-trans d (subst (λ q. Drained q j1 j' rest) same s.drained);
          valid = s.valid;
          few = s.few;
        }
