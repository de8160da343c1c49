-- ===== src/Android/Jitter/Order.antt =====
-- The order in which `drain_ready` plays packets.
use soundwave.Base.{
  ℕ, ◌+◌, ◌%◌, ◌^◌, ◌≤◌, ◌<◌, List, [], ◌∷◌, ◌++◌, true, none, some, ◌≡◌, ◌≢◌, ap, arith, length,
  Bool-cases, Option-cases, inl, inr, ◌==◌,
}
use soundwave.Base.Words.{wrapping_add32, wrapping_sub32}
use soundwave.Base.BTreeMap.{BTreeMap, get, contains_key}
use soundwave.Protocol.Packet.{AudioPacket}
use soundwave.Android.Jitter.{JitterBuffer, JitterOutput, audio, silence, drain_loop}
use soundwave.Android.Jitter.Serial.{Waiting, Waiting-remove}
use soundwave.Android.Jitter.Drain.{some_eq}
use soundwave.Android.Jitter.Invariant.{IsValid, Round, played, skipped, silenced, Waiting-at}
use soundwave.Android.Jitter.Output.{loop_induction}

-- Counted from sequence number `e`, the output fills positions from `lo` on, each later than the
-- one before: a packet stands at its own distance from `e`, which is less than half the number
-- space, and silence takes one position.
abbrev pub Schedule : ℕ → ℕ → List JitterOutput → Type 0
Schedule e lo [] = Unit
Schedule e lo (silence ∷ out) = Schedule e (lo + 1) out
Schedule e lo (audio p ∷ out) =
    (lo ≤ wrapping_sub32 p.sequence e)
    × (wrapping_sub32 p.sequence e < 2 ^ 31)
    × Schedule e (wrapping_sub32 p.sequence e + 1) out

Schedule-earlier :
    (e lo lo' : ℕ) (out : List JitterOutput) → lo ≤ lo' → Schedule e lo' out → Schedule e lo out
Schedule-earlier e lo lo' [] h s = tt
Schedule-earlier e lo lo' (silence ∷ out) h s =
    Schedule-earlier e (lo + 1) (lo' + 1) out (omega arith) s
Schedule-earlier e lo lo' (audio p ∷ out) h s = (omega (arith, s.0), s.1, s.2)

Waiting-distance :
    (e k : ℕ) (p : AudioPacket) (m : BTreeMap AudioPacket)
    → get k m ≡ some p
    → Waiting e m
    → (k < 2 ^ 32) × (wrapping_sub32 k e < 2 ^ 31) × (p.sequence ≡ k)
unfolding get
Waiting-distance e k p [] h w = absurd (cc)
Waiting-distance e k p ((j, q) ∷ m) h w = elim (Bool-cases (j == k)) [
  | inl same ↦ ground arith
  | inr other ↦ Waiting-distance e k p m (ground arith) w.1
]

nearest_distance :
    (e k : ℕ) (m : BTreeMap AudioPacket)
    → contains_key k m ≡ true
    → Waiting e m
    → wrapping_sub32 k e < 2 ^ 31
nearest_distance e k m c w = elim (Option-cases (get k m)) [
  | inl gone ↦ absurd (ground arith)
  | inr (p, g) ↦ (Waiting-distance e k p m g w).1
]

-- Where something is buffered, and nothing under `c`, a packet stands under another number.
not_buffered :
    (c : ℕ) (m : BTreeMap AudioPacket)
    → get c m ≡ none
    → 0 < length m
    → (k : ℕ) × (p : AudioPacket) × (get k m ≡ some p) × (k ≢ c)
unfolding get
not_buffered c [] g pos = absurd (omega arith)
not_buffered c ((k, p) ∷ m) g pos = (k, p, ground arith, ground arith)

-- The statement about a run that `loop_induction` proves: `c` is `lo` positions after `e`.
abbrev Scheduled : ℕ → JitterBuffer → JitterBuffer → List JitterOutput → Type 0
Scheduled c j j' out =
    (e lo : ℕ)
    → e < 2 ^ 32
    → lo ≤ 2 ^ 31
    → c ≡ (e + lo) % 2 ^ 32
    → Waiting e j.packets
    → Schedule e lo out

Round-Schedule :
    (c c1 : ℕ) (j j1 j' : JitterBuffer) (out rest : List JitterOutput)
    → j.expected_sequence ≡ some c
    → IsValid j
    → Round c j j1 out
    → j1.expected_sequence ≡ some c1
    → Scheduled c1 j1 j' rest
    → Scheduled c j j' (out ++ rest)
Round-Schedule c c1 j j1 j' out rest x v (played p g s o) x1 ih e lo we hlo at w =
    let d = Waiting-distance e c p j.packets g w in
    let same : c1 ≡ wrapping_add32 c 1 =
      some_eq x1 (ap (λ (q : JitterBuffer). q.expected_sequence) s) in
    let left : Waiting e j1.packets = rw s (Waiting-remove e we c j.packets w) in
    let here : wrapping_sub32 p.sequence e ≡ lo = omega arith in
    let later : Schedule e (lo + 1) rest = ih e (lo + 1) we (omega arith) (omega arith) left in
    rw o (rw here (omega arith, omega arith, later))
Round-Schedule c c1 j j1 j' out rest x v (skipped n g near far s o) x1 ih e lo we hlo at w =
    let same : c1 ≡ n = some_eq x1 (ap (λ (q : JitterBuffer). q.expected_sequence) s) in
    let half = nearest_distance e n j.packets near.0 w in
    let close = nearest_distance c n j.packets near.0 (Waiting-at x v).1 in
    let left : Waiting e j1.packets = rw s w in
    let later : Schedule e (wrapping_sub32 n e) rest =
      ih e (wrapping_sub32 n e) we (omega arith) (omega (arith, near.2)) left in
    rw o (Schedule-earlier e lo (wrapping_sub32 n e) rest (omega (arith, near.2)) later)
Round-Schedule c c1 j j1 j' out rest x v (silenced g close pos s o) x1 ih e lo we hlo at w =
    let same : c1 ≡ wrapping_add32 c 1 =
      some_eq x1 (ap (λ (q : JitterBuffer). q.expected_sequence) s) in
    let left : Waiting e j1.packets = rw s w in
    let (k, p, found, other) = not_buffered c j.packets g pos in
    let de = Waiting-distance e k p j.packets found w in
    let dc = Waiting-distance c k p j.packets found (Waiting-at x v).1 in
    rw o (ih e (lo + 1) we (omega (arith, (Waiting-at x v).0)) (omega arith) left)

-- A run from `e` outputs its packets in the order of their sequence numbers, each once, with
-- silence in places of their own.
pub loop-Schedule :
    (fuel e : ℕ) (j j' : JitterBuffer) (out : List JitterOutput)
    → j.expected_sequence ≡ some e
    → IsValid j
    → drain_loop fuel j ≡ some (j', out)
    → Schedule e 0 out
loop-Schedule fuel e j j' out x v h =
    let (word, w) = Waiting-at x v in
    loop_induction Scheduled (λ c q x v stop e lo we hlo at w. tt) Round-Schedule fuel e j j' out x
      v h e 0 word (omega arith) (omega arith) w
