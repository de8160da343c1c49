-- ===== src/Android/State/Updates.antt =====
-- What a change of the state does.
use soundwave.Base.{
  ◌+◌, ◌%◌, ◌^◌, ◌≡◌, ◌<◌, refl, ap, arith, ◌-◌, false, not, ◌&&◌, ◌==◌, if◌then◌else◌, Bool-cases,
  inl, inr,
}
use soundwave.Base.Int.{ℤ, pos, negsuc, ◌+ℤ◌, ◌≤ℤ◌, lebℤ}
use soundwave.Android.Device.{reset, bit}
use soundwave.Android.State.{
  ClientState, raw, SharedState, set_audio_active, add_volume_adjustment, is_connected, set, clamp,
  saturating_add_i32,
}

-- `set` stores the state. Any state but `connected` stops the audio, forgets the volume steps and
-- resets the device control; the state `connected` leaves them. Whoever watches sees one new
-- revision if the audio stops and one if the state is another, modulo 2 ^ 64, and nothing else
-- changes.
pub set_lem :
    (state : ClientState) (s : SharedState)
    → s.revision < 2 ^ 64
    → let keeps = is_connected state in
      set state s ≡ record s {
        state = state;
        audio_active = keeps && s.audio_active;
        volume_adjustment = if keeps then s.volume_adjustment else pos 0;
        device = if keeps then s.device else reset s.device;
        revision =
            (s.revision + bit (not keeps && s.audio_active) + bit (not (raw s.state == raw state)))
            % 2 ^ 64;
      }
unfolding set set_audio_active raw
set_lem state s h = ground arith

clamp_bounds :
    (low high x : ℤ) → low ≤ℤ high → (low ≤ℤ clamp low high x) × (clamp low high x ≤ℤ high)
clamp_bounds low high x h = elim (Bool-cases (lebℤ high x)) [
  | inl above ↦ rw above (h, omega arith)
  | inr under ↦ elim (Bool-cases (lebℤ x low)) [
    | inl below ↦ rw (under, below) (omega arith, h)
    | inr inside ↦ rw (under, inside) (ground arith, ground arith)
  ]
]

clamp-inside : (low high x : ℤ) → lebℤ high x ≡ false → lebℤ x low ≡ false → clamp low high x ≡ x
clamp-inside low high x a b = rw (a, b) refl

sum_small :
    (a b : ℤ)
    → negsuc 99 ≤ℤ a
    → a ≤ℤ pos 100
    → negsuc 127 ≤ℤ b
    → b ≤ℤ pos 127
    → (lebℤ (pos (2 ^ 31 - 1)) (a +ℤ b) ≡ false) × (lebℤ (a +ℤ b) (negsuc (2 ^ 31 - 1)) ≡ false)
unfolding ◌+ℤ◌
sum_small a b al ah bl bh = (ground arith, ground arith)

-- The volume steps that wait are the sum of those before and the new ones, cut off at -100 and at
-- 100, if there were from -100 to 100 before and the new ones are from -128 to 127; the 32-bit
-- addition does not saturate. They stay in that range, and one new revision is shown.
pub add_volume_adjustment_lem :
    (steps : ℤ) (s : SharedState)
    → negsuc 99 ≤ℤ s.volume_adjustment
    → s.volume_adjustment ≤ℤ pos 100
    → negsuc 127 ≤ℤ steps
    → steps ≤ℤ pos 127
    → let s' = add_volume_adjustment steps s in
      (s'.volume_adjustment ≡ clamp (negsuc 99) (pos 100) (s.volume_adjustment +ℤ steps))
      × (negsuc 99 ≤ℤ s'.volume_adjustment)
      × (s'.volume_adjustment ≤ℤ pos 100)
      × (s'.revision ≡ (s.revision + 1) % 2 ^ 64)
unfolding add_volume_adjustment
add_volume_adjustment_lem steps s al ah bl bh =
    let (high, low) = sum_small s.volume_adjustment steps al ah bl bh in
    let exact =
      clamp-inside (negsuc (2 ^ 31 - 1)) (pos (2 ^ 31 - 1)) (s.volume_adjustment +ℤ steps) high
        low in
    let bounds =
      clamp_bounds (negsuc 99) (pos 100) (saturating_add_i32 s.volume_adjustment steps)
        (omega arith) in
    (ap (clamp (negsuc 99) (pos 100)) exact, bounds.0, bounds.1, refl)
