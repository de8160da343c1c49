-- ===== src/Android/Ring/Reads.antt =====
-- What `read_into` and `clear` do.
use soundwave.Base.{
  ℕ, zero, suc, ◌-◌, ◌<◌, List, [], ◌∷◌, ◌++◌, true, false, not, max, min, ◌≡◌, refl, ap, sym, ◌∙◌,
  arith, length, take, drop, replicate, ltb, if◌then◌else◌, ◌&&◌, head?,
}
use soundwave.Base.Words.{wrapping_add64}
use soundwave.Android.Ring.Queue.{ArrayQueue}
use soundwave.Android.Ring.{PcmRingBuffer, pop_samples, read_now, read_into, clear_loop, clear}

-- What a callback of `n` samples gets from the samples `c`: the oldest, and silence after them.
abbrev pub delivered : ℕ → List ℕ → List ℕ
delivered n c = take n c ++ replicate (n - length c) 0

drop_nil : (n : ℕ) → drop {A = ℕ} n [] ≡ []
drop_nil zero = refl
drop_nil (suc n) = refl

delivered_nil : (n : ℕ) → delivered n [] ≡ replicate n 0
delivered_nil zero = refl
delivered_nil (suc n) = let e : suc n - 0 ≡ suc n = omega arith in rw e

module _ (a : ArrayQueue) where
  record Popped (c : List ℕ) (cap n : ℕ) (r : a.Queue × List ℕ × ℕ) : Type 0 where
    contents : a.contents r.0 ≡ drop n c
    capacity : a.capacity r.0 ≡ cap
    output : r.1 ≡ delivered n c
    actual : r.2 ≡ min n (length c)

  pop_samples-Popped :
      (n : ℕ) (q : a.Queue) (c : List ℕ)
      → a.contents q ≡ c
      → Popped c (a.capacity q) n (pop_samples a q n)
  unfolding pop_samples
  pop_samples-Popped zero q c h = record {
    contents = h;
    capacity = refl;
    output = let none_left : 0 - length c ≡ 0 = omega arith in rw none_left;
    actual = omega arith;
  }
  pop_samples-Popped (suc n) q [] h =
      let ih = pop_samples-Popped n (a.pop q).0 [] (a.contents-pop q ∙ ap (drop 1) h) in
      rw (a.pop_oldest q ∙ ap head? h, pop_samples)
        (record {
          contents = ih.contents ∙ drop_nil n;
          capacity = ih.capacity ∙ a.capacity-pop q;
          output = ap (◌∷◌ 0) (ih.output ∙ delivered_nil n) ∙ sym (delivered_nil (suc n));
          actual = ih.actual ∙ omega arith;
        })
  pop_samples-Popped (suc n) q (x ∷ c) h =
      let ih = pop_samples-Popped n (a.pop q).0 c (a.contents-pop q ∙ ap (drop 1) h) in
      rw (a.pop_oldest q ∙ ap head? h, pop_samples)
        (record {
          contents = ih.contents;
          capacity = ih.capacity ∙ a.capacity-pop q;
          output =
              ap (◌∷◌ x) ih.output ∙ ap (λ (k : ℕ). x ∷ take n c ++ replicate k 0) (omega arith);
          actual = omega (arith, ih.actual);
        })

  -- `read_into` fills the output with the oldest samples in order and then with silence, and says
  -- how many samples it took, unless it is buffering and fewer than the target or the output are
  -- there: then the output is silence and nothing changes. A read that comes up short counts one
  -- underrun, and starts buffering again where there is a target.
  pub read_into_lem :
      (n : ℕ) (r : PcmRingBuffer a)
      → let c = a.contents r.queue in
        let waits = r.buffering && ltb (length c) (max r.playback_target_samples n) in
        let short = not waits && ltb (length c) n in
        let (r', output, actual) = read_into a n r in
        (output ≡ (if waits then replicate n 0 else delivered n c))
        × (actual ≡ (if waits then 0 else min n (length c)))
        × (a.contents r'.queue ≡ (if waits then c else drop n c))
        × (r'.underruns ≡ (if short then wrapping_add64 r.underruns 1 else r.underruns))
        × (r'.buffering ≡ (
            if waits
            then true
            else if short && ltb 0 r.playback_target_samples
            then true
            else false))
        × (r'.playback_target_samples ≡ r.playback_target_samples)
        × (a.capacity r'.queue ≡ a.capacity r.queue)
  unfolding read_into read_now
  read_into_lem n r =
      let p = pop_samples-Popped n r.queue (a.contents r.queue) refl in
      ground (arith, p, a.len_lem r.queue)

  clear_loop_lem :
      (fuel : ℕ) (q : a.Queue) (c : List ℕ)
      → a.contents q ≡ c
      → length c < fuel
      → (a.contents (clear_loop a fuel q) ≡ []) × (a.capacity (clear_loop a fuel q) ≡ a.capacity q)
  unfolding clear_loop
  clear_loop_lem zero q c h lt = absurd (omega arith)
  clear_loop_lem (suc fuel) q [] h lt =
      rw (a.pop_oldest q ∙ ap head? h, clear_loop)
        (a.contents-pop q ∙ ap (drop 1) h, a.capacity-pop q)
  clear_loop_lem (suc fuel) q (x ∷ c) h lt =
      let (gone, cap) =
        clear_loop_lem fuel (a.pop q).0 c (a.contents-pop q ∙ ap (drop 1) h) (omega arith) in
      rw (a.pop_oldest q ∙ ap head? h, clear_loop) (gone, cap ∙ a.capacity-pop q)

  -- `clear` ends with an empty ring, and changes nothing but its samples.
  pub clear_lem :
      (r : PcmRingBuffer a)
      → (a.contents (clear a r).queue ≡ [])
        × (a.capacity (clear a r).queue ≡ a.capacity r.queue)
        × (clear a r ≡ record r { queue = (clear a r).queue })
  unfolding clear
  clear_lem r =
      let (gone, cap) =
        clear_loop_lem (suc (a.len r.queue)) r.queue (a.contents r.queue) refl
          (omega (arith, a.len_lem r.queue)) in
      (gone, cap, refl)
