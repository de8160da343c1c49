-- ===== src/Server/Packetizer/Duration.antt =====
-- `choose_packet_duration_ms`.
use soundwave.Base.{
  ℕ, ◌≡◌, ◌⊎◌, inl, inr, arith, ◌*◌, ◌≤◌, ◌<◌, List, [], ◌∷◌, Result, ok, err, All, Bool-cases, leb,
}
use soundwave.Server.Packetizer.{choose_packet_duration_ms}

-- The durations on offer.
abbrev pub durations : List ℕ
durations = 10 ∷ 5 ∷ 4 ∷ 2 ∷ 1 ∷ []

-- The answer for a payload of at most `limit` bytes: a duration on offer whose packet, of 192 bytes
-- for each millisecond, fits, where no longer one on offer does; or an error that says the limit
-- where not even one millisecond fits.
abbrev pub IsBest : ℕ → Result ℕ ℕ → Type 0
IsBest limit (ok d) =
    (192 * d ≤ limit)
    × (All (λ d'. (d' ≤ d) ⊎ (limit < 192 * d')) durations)
    × (10 ≡ d ⊎ (5 ≡ d ⊎ (4 ≡ d ⊎ (2 ≡ d ⊎ 1 ≡ d))))
IsBest limit (err e) = (limit < 192) × (e ≡ limit)

-- The packet duration is the longest of 10, 5, 4, 2 and 1 ms whose samples fit the payload that the
-- connection permits, and the choice fails exactly where 192 bytes, 1 ms of stereo, do not fit.
pub choose_packet_duration_ms-IsBest : (limit : ℕ) → IsBest limit (choose_packet_duration_ms limit)
unfolding choose_packet_duration_ms
choose_packet_duration_ms-IsBest limit = elim (Bool-cases (leb 1920 limit)) [
  | inl fits ↦ rw (fits) (ground arith)
  | inr no10 ↦ elim (Bool-cases (leb 960 limit)) [
    | inl fits ↦ rw (no10, fits) (ground arith)
    | inr no5 ↦ elim (Bool-cases (leb 768 limit)) [
      | inl fits ↦ rw (no10, no5, fits) (ground arith)
      | inr no4 ↦ elim (Bool-cases (leb 384 limit)) [
        | inl fits ↦ rw (no10, no5, no4, fits) (ground arith)
        | inr no2 ↦ elim (Bool-cases (leb 192 limit)) [
          | inl fits ↦ rw (no10, no5, no4, no2, fits) (ground arith)
          | inr no1 ↦ rw (no10, no5, no4, no2, no1) (ground arith)
        ]
      ]
    ]
  ]
]
