-- ===== src/Server/Silence/Grace.antt =====
-- The silence detector over a run of blocks.
use soundwave.Base.{
  ℕ, ◌≡◌, arith, ◌-◌, ◌^◌, ◌≤◌, ◌<◌, List, [], ◌∷◌, Bool, true, false, not, ◌&&◌, ◌||◌, none, some,
  leb,
}
use soundwave.Base.Words.{wrapping_sub64}
use soundwave.Server.Silence.{SilenceDetector, grace, advance, update}

-- One call of `update`.
pub record Block : Type 0 where
  pub timestamp : ℕ
  pub silent : Bool
  pub enabled : Bool

abbrev pub run : SilenceDetector → List Block → SilenceDetector
run d [] = d
run d (b ∷ bs) = run (update d b.timestamp b.silent b.enabled).0 bs

-- Blocks of silence on an enabled stream, with these timestamps.
abbrev pub silent_blocks : List ℕ → List Block
silent_blocks [] = []
silent_blocks (t ∷ ts) = record { timestamp = t; silent = true; enabled = true } ∷ silent_blocks ts

-- The timestamps do not go back and stay below 2 ^ 64, starting at `t`.
abbrev pub IsClock : ℕ → List ℕ → Type 0
IsClock t [] = t < 2 ^ 64
IsClock t (u ∷ ts) = (t ≤ u) × IsClock u ts

abbrev pub last_from : ℕ → List ℕ → ℕ
last_from t [] = t
last_from t (u ∷ ts) = last_from u ts

IsClock-le : (t : ℕ) (ts : List ℕ) → IsClock t ts → t < 2 ^ 64
IsClock-le t [] c = c
IsClock-le t (u ∷ ts) c = omega (arith, IsClock-le u ts)

run_since :
    (start t : ℕ) (idle : Bool) (ts : List ℕ)
    → idle ≡ leb grace (t - start)
    → start ≤ t
    → IsClock t ts
    → (run (record { silent_since = some start; idle = idle }) (silent_blocks ts)).idle
      ≡ leb grace (last_from t ts - start)
unfolding update advance
run_since start t idle [] e h c = e
run_since start t idle (u ∷ ts) e h c =
    run_since start u (idle || leb grace (wrapping_sub64 u start)) ts
      (ground (arith, IsClock-le u ts c.1)) (omega arith) c.1

-- A stream that is sending falls asleep in a run of silence exactly when the run has lasted the
-- grace period of 300 ms: after silent blocks from timestamp `t` on, whose timestamps do not go
-- back, the stream is idle if and only if the last one is at least 14400 samples after `t`.
pub idle_after_grace :
    (d : SilenceDetector) (t : ℕ) (ts : List ℕ)
    → d.idle ≡ false
    → d.silent_since ≡ none
    → IsClock t ts
    → (run d (silent_blocks (t ∷ ts))).idle ≡ leb 14400 (last_from t ts - t)
unfolding update advance
idle_after_grace d t ts active fresh c =
    rw (active, fresh)
      (run_since t t (leb grace (wrapping_sub64 t t)) ts (ground (arith, IsClock-le t ts c))
        (omega arith) c)

-- The block wakes a sleeping stream.
abbrev pub has_sound : Block → Bool
has_sound b = b.enabled && not b.silent
