-- ===== src/Android/Ring/Examples.antt =====
-- The ring on a queue that is a list with its capacity, and the runs of the source's tests.
use soundwave.Base.{
  ℕ, zero, suc, List, [], ◌∷◌, ◌++◌, ◌≡◌, ◌≤◌, ◌-◌, ◌+◌, refl, ap, true, false, arith, length,
  length-append, length-take, length-drop, take, drop, head?, ltb, ltb→lt, if◌then◌else◌,
  Bool-cases, inl, inr,
}
use soundwave.Android.Ring.Queue.{ArrayQueue}
use soundwave.Android.Ring.{
  PcmRingBuffer, push_latest, write_samples, write_pcm_le, write_silence, pop_samples, read_now,
  read_into, clear,
}
use soundwave.Android.Ring.Writes.{write_pcm_le_lem, write_silence_lem}
use soundwave.Android.Ring.Reads.{read_into_lem, clear_lem}

-- A capacity of at least one, less one, and a list of which the queue holds what fits.
pub record ListQueue : Type 0 where
  pub less_one : ℕ
  pub listed : List ℕ

abbrev pub held : ListQueue → List ℕ
held q = take (suc q.less_one) q.listed

take_whole : (xs : List ℕ) (n k : ℕ) → n ≡ length xs + k → take n xs ≡ xs
take_whole [] zero k h = refl
take_whole [] (suc n) k h = refl
take_whole (x ∷ xs) zero k h = absurd (omega arith)
take_whole (x ∷ xs) (suc n) k h = ap (◌∷◌ x) (take_whole xs n k (omega arith))

pub take_fits : (xs : List ℕ) (n : ℕ) → length xs ≤ n → take n xs ≡ xs
take_fits xs n h = take_whole xs n (n - length xs) (omega arith)

pub held-le : (q : ListQueue) → length (held q) ≤ suc q.less_one
held-le q = omega (arith, length-take (suc q.less_one) q.listed)

pub list_push : ListQueue → ℕ → ListQueue
list_push q x = record q {
  listed = if ltb (length (held q)) (suc q.less_one) then held q ++ x ∷ [] else held q;
}

pub held-push :
    (q : ListQueue) (x : ℕ)
    → held (list_push q x)
      ≡ (if ltb (length (held q)) (suc q.less_one) then held q ++ x ∷ [] else held q)
unfolding list_push
held-push q x = elim (Bool-cases (ltb (length (held q)) (suc q.less_one))) [
  | inl room ↦ rw room (
      take_fits (held q ++ x ∷ []) (suc q.less_one)
        (omega (arith, length-append (held q) (x ∷ []), ltb→lt _ _ room)))
  | inr full ↦ rw full (take_fits (held q) (suc q.less_one) (held-le q))
]

pub list_push_capacity : (q : ListQueue) (x : ℕ) → suc (list_push q x).less_one ≡ suc q.less_one
unfolding list_push
list_push_capacity q x = refl

abbrev pub list_queue : ArrayQueue
list_queue = record {
  Queue = ListQueue;
  new = λ n. record { less_one = n - 1; listed = [] };
  push = λ q x. (list_push q x, ltb (length (held q)) (suc q.less_one));
  pop = λ q. (record q { listed = drop 1 (held q) }, head? (held q));
  len = λ q. length (held q);
  capacity = λ q. suc q.less_one;
  contents = held;
  contents-new = λ n. refl;
  capacity-new = λ n h. omega arith;
  capacity_pos = λ q. omega arith;
  len_lem = λ q. refl;
  bounded = held-le;
  contents-push = held-push;
  push_taken = λ q x. refl;
  contents-pop = λ q.
      take_fits (drop 1 (held q)) (suc q.less_one)
        (omega (arith, length-drop 1 (held q), held-le q));
  pop_oldest = λ q. refl;
  capacity-push = list_push_capacity;
  capacity-pop = λ q. refl;
}

abbrev pub Ring : Type 0
Ring = PcmRingBuffer list_queue

abbrev pub ring_of : List ℕ → Ring
ring_of l = record {
  queue = record { less_one = 2; listed = l };
  underruns = 0;
  playback_target_samples = 2;
  buffering = false;
}

-- `ring_overwrites_oldest_and_silences_underrun`
overwrites_oldest :
    write_pcm_le list_queue (1 ∷ 0 ∷ 2 ∷ 0 ∷ 3 ∷ 0 ∷ 4 ∷ 0 ∷ []) (ring_of [])
    ≡ ring_of (2 ∷ 3 ∷ 4 ∷ [])
unfolding write_pcm_le write_samples push_latest list_push
overwrites_oldest = refl

underrun :
    let (r, output, actual) = read_into list_queue 5 (ring_of (2 ∷ 3 ∷ 4 ∷ [])) in
    (output ≡ 2 ∷ 3 ∷ 4 ∷ 0 ∷ 0 ∷ []) × (actual ≡ 3) × (r.underruns ≡ 1) × (r.buffering ≡ true)
unfolding read_into read_now pop_samples
underrun = (refl, refl, refl, refl)

write_pcm_le_lem_example :
    let r = ring_of (7 ∷ 8 ∷ []) in
    let r' = write_pcm_le list_queue (1 ∷ 0 ∷ 2 ∷ 1 ∷ 9 ∷ []) r in
    (held r'.queue ≡ 8 ∷ 1 ∷ 258 ∷ [])
    × (suc r'.queue.less_one ≡ 3)
    × (r' ≡ record r { queue = r'.queue })
write_pcm_le_lem_example =
    write_pcm_le_lem list_queue (1 ∷ 258 ∷ []) (9 ∷ []) (ring_of (7 ∷ 8 ∷ []))
      (omega arith, (omega arith, tt)) (omega arith)

write_silence_lem_example :
    let r = ring_of (7 ∷ 8 ∷ []) in
    let r' = write_silence list_queue 2 r in
    (held r'.queue ≡ 8 ∷ 0 ∷ 0 ∷ [])
    × (suc r'.queue.less_one ≡ 3)
    × (r' ≡ record r { queue = r'.queue })
write_silence_lem_example = write_silence_lem list_queue 2 (ring_of (7 ∷ 8 ∷ []))

read_into_lem_example :
    let (r', output, actual) = read_into list_queue 5 (ring_of (2 ∷ 3 ∷ 4 ∷ [])) in
    (output ≡ 2 ∷ 3 ∷ 4 ∷ 0 ∷ 0 ∷ [])
    × (actual ≡ 3)
    × (held r'.queue ≡ [])
    × (r'.underruns ≡ 1)
    × (r'.buffering ≡ true)
    × (r'.playback_target_samples ≡ 2)
    × (suc r'.queue.less_one ≡ 3)
read_into_lem_example = read_into_lem list_queue 5 (ring_of (2 ∷ 3 ∷ 4 ∷ []))

clear_lem_example :
    let r = ring_of (2 ∷ 3 ∷ []) in
    (held (clear list_queue r).queue ≡ [])
    × (suc (clear list_queue r).queue.less_one ≡ 3)
    × (clear list_queue r ≡ record r { queue = (clear list_queue r).queue })
clear_lem_example = clear_lem list_queue (ring_of (2 ∷ 3 ∷ []))
