-- ===== src/Android/Jitter/Serial.antt =====
-- Serial distances: how far a buffered sequence number lies ahead of the expected one, and what
-- `next_buffered_sequence` finds.
use soundwave.Base.{
  ℕ, ◌+◌, ◌^◌, ◌≤◌, ◌<◌, [], ◌∷◌, true, Option, none, some, min, ◌≡◌, ◌≢◌, refl, arith, min_by_key,
  first_min, leb, ◌==◌, Bool-cases, inl, inr, ◌⊎◌,
}
use soundwave.Base.Words.{wrapping_add32, wrapping_sub32}
use soundwave.Base.BTreeMap.{BTreeMap, get, remove, insert, contains_key}
use soundwave.Protocol.Packet.{AudioPacket}
use soundwave.Android.Jitter.{next_buffered_sequence, sequence_is_after}

-- Every buffered packet stands under its own sequence number, a 32-bit word that lies less than
-- half the number space ahead of `e`.
abbrev pub Waiting : ℕ → BTreeMap AudioPacket → Type 0
Waiting e [] = Unit
Waiting e ((k, p) ∷ m) =
    ((k < 2 ^ 32) × (wrapping_sub32 k e < 2 ^ 31) × (p.sequence ≡ k)) × Waiting e m

-- The least distance of a buffered number from `e`, and 2 ^ 32 if there is none.
pub gap : ℕ → BTreeMap AudioPacket → ℕ
gap e [] = 2 ^ 32
gap e ((k, p) ∷ m) = min (wrapping_sub32 k e) (gap e m)

module _ (e : ℕ) (word : e < 2 ^ 32) where
  pub Waiting-remove : (k : ℕ) (m : BTreeMap AudioPacket) → Waiting e m → Waiting e (remove k m)
  unfolding remove
  Waiting-remove k [] w = tt
  Waiting-remove k ((j, p) ∷ m) w = ground (arith, Waiting-remove k m)

  pub Waiting-insert :
      (p : AudioPacket) (m : BTreeMap AudioPacket)
      → p.sequence < 2 ^ 32
      → wrapping_sub32 p.sequence e < 2 ^ 31
      → Waiting e m
      → Waiting e (insert p.sequence p m)
  unfolding insert
  Waiting-insert p [] h d w = ((h, d, refl), tt)
  Waiting-insert p ((j, q) ∷ m) h d w = ground (arith, Waiting-insert p m h d)

  -- The expected number moves on by one where nothing is buffered under it.
  pub Waiting-shift :
      (m : BTreeMap AudioPacket) → get e m ≡ none → Waiting e m → Waiting (wrapping_add32 e 1) m
  unfolding get
  Waiting-shift [] g w = tt
  Waiting-shift ((j, p) ∷ m) g w = elim (Bool-cases (j == e)) [
    | inl same ↦ absurd (ground arith)
    | inr other ↦ ((w.0.0, ground arith, w.0.2), Waiting-shift m (ground arith) w.1)
  ]

  pub gap-shift :
      (m : BTreeMap AudioPacket)
      → get e m ≡ none
      → Waiting e m
      → (gap (wrapping_add32 e 1) m + 1 ≡ gap e m) ⊎ (m ≡ [])
  unfolding get gap
  gap-shift [] g w = inr refl
  gap-shift ((j, p) ∷ m) g w = elim (Bool-cases (j == e)) [
    | inl same ↦ absurd (ground arith)
    | inr other ↦ inl (ground (arith, gap-shift m))
  ]

  next-cons :
      (j : ℕ) (p : AudioPacket) (m : BTreeMap AudioPacket)
      → get e ((j, p) ∷ m) ≡ none
      → Waiting e ((j, p) ∷ m)
      → next_buffered_sequence e ((j, p) ∷ m)
        ≡ first_min (λ s. wrapping_sub32 s e) j (next_buffered_sequence e m)
  unfolding get next_buffered_sequence min_by_key
  next-cons j p m g w = elim (Bool-cases (j == e)) [
    | inl same ↦ absurd (ground arith)
    | inr other ↦ rw (after (ground arith)) refl
  ]
    where
      after : j ≢ e → sequence_is_after j e ≡ true
      after h = ground arith

-- What `next_buffered_sequence` may answer: nothing where nothing is buffered, and else a buffered
-- number at the least distance.
abbrev pub Nearest : ℕ → BTreeMap AudioPacket → Option ℕ → Type 0
Nearest e m none = m ≡ []
Nearest e m (some n) = (contains_key n m ≡ true) × (wrapping_sub32 n e ≡ gap e m) × (n < 2 ^ 32)

pub next-Nearest :
    (e : ℕ) (m : BTreeMap AudioPacket)
    → e < 2 ^ 32
    → get e m ≡ none
    → Waiting e m
    → Nearest e m (next_buffered_sequence e m)
unfolding get next_buffered_sequence min_by_key gap
next-Nearest e [] h g w = refl
next-Nearest e ((j, p) ∷ m) h g w =
    rw (next-cons e h j p m g w)
      (nearer (next_buffered_sequence e m) (next-Nearest e m h (ground arith) w.1))
  where
    nearer :
        (o : Option ℕ)
        → Nearest e m o
        → Nearest e ((j, p) ∷ m) (first_min (λ s. wrapping_sub32 s e) j o)
    nearer none x = rw x (ground arith)
    nearer (some n) x = elim (Bool-cases (leb (wrapping_sub32 j e) (wrapping_sub32 n e))) [
      | inl near ↦ rw near (ground arith)
      | inr far ↦ rw far (ground arith)
    ]

-- The expected number jumps to the nearest buffered one.
pub Waiting-jump :
    (e n : ℕ) (m : BTreeMap AudioPacket)
    → e < 2 ^ 32
    → n < 2 ^ 32
    → wrapping_sub32 n e ≤ gap e m
    → Waiting e m
    → Waiting n m
unfolding gap
Waiting-jump e n [] h k le w = tt
Waiting-jump e n ((j, p) ∷ m) h k le w =
    ((w.0.0, ground arith, w.0.2), Waiting-jump e n m h k (omega arith) w.1)

pub gap_of_contains :
    (n : ℕ) (m : BTreeMap AudioPacket) → n < 2 ^ 32 → contains_key n m ≡ true → gap n m ≡ 0
unfolding get gap
gap_of_contains n [] h c = absurd (cc)
gap_of_contains n ((j, p) ∷ m) h c = ground (arith, gap_of_contains n m h)

pub gap-pos :
    (e : ℕ) (m : BTreeMap AudioPacket) → e < 2 ^ 32 → get e m ≡ none → Waiting e m → 0 < gap e m
unfolding get gap
gap-pos e [] h g w = omega arith
gap-pos e ((j, p) ∷ m) h g w = ground (arith, gap-pos e m h)
