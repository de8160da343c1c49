-- ===== src/Server/Silence/Examples.antt =====
-- The runs of the source's tests.
use soundwave.Base.{ℕ, ◌≡◌, refl, arith, [], ◌∷◌, true, false, none}
use soundwave.Server.Silence.{new, update, advance}
use soundwave.Server.Silence.Grace.{Block, run, silent_blocks, idle_after_grace}

abbrev sound : ℕ → Block
sound t = record { timestamp = t; silent = false; enabled = true }

sleeps_after_grace :
    ((update (run new (sound 0 ∷ silent_blocks (480 ∷ []))) 14400 true true).1 ≡ true)
    × ((update (run new (sound 0 ∷ silent_blocks (480 ∷ 14400 ∷ []))) 14880 true true).2 ≡ true)
    × ((update (run new (sound 0 ∷ silent_blocks (480 ∷ 14400 ∷ 14880 ∷ []))) 15840 false true).1
        ≡ true)
unfolding new update advance
sleeps_after_grace = (refl, refl, refl)

idle_after_grace_example :
    (run
      (record { silent_since = none; idle = false })
      (silent_blocks (480 ∷ 14400 ∷ 14880 ∷ []))).idle
    ≡ true
idle_after_grace_example =
    idle_after_grace (record { silent_since = none; idle = false }) 480 (14400 ∷ 14880 ∷ []) refl
      refl (omega arith)
