-- ===== src/Android/Ring/Queue.antt =====
-- What the ring uses of `crossbeam_queue::ArrayQueue`: a bounded FIFO. `push` gives back whether the
-- sample was taken, and `pop` the oldest sample.
use soundwave.Base.{
  ℕ, ◌≤◌, ◌<◌, ◌≡◌, List, [], ◌∷◌, ◌++◌, Bool, Option, length, drop, head?, ltb, if◌then◌else◌,
}

pub record ArrayQueue : Type 1 where
  pub Queue : Type 0
  pub new : ℕ → Queue
  pub push : Queue → ℕ → Queue × Bool
  pub pop : Queue → Queue × Option ℕ
  pub len : Queue → ℕ
  pub capacity : Queue → ℕ
  pub contents : Queue → List ℕ
  pub contents-new : (n : ℕ) → contents (new n) ≡ []
  pub capacity-new : (n : ℕ) → 0 < n → capacity (new n) ≡ n
  pub capacity_pos : (q : Queue) → 0 < capacity q
  pub len_lem : (q : Queue) → len q ≡ length (contents q)
  pub bounded : (q : Queue) → length (contents q) ≤ capacity q
  pub contents-push :
      (q : Queue) (x : ℕ)
      → contents (push q x).0
        ≡ (if ltb (length (contents q)) (capacity q) then contents q ++ x ∷ [] else contents q)
  pub push_taken : (q : Queue) (x : ℕ) → (push q x).1 ≡ ltb (length (contents q)) (capacity q)
  pub contents-pop : (q : Queue) → contents (pop q).0 ≡ drop 1 (contents q)
  pub pop_oldest : (q : Queue) → (pop q).1 ≡ head? (contents q)
  pub capacity-push : (q : Queue) (x : ℕ) → capacity (push q x).0 ≡ capacity q
  pub capacity-pop : (q : Queue) → capacity (pop q).0 ≡ capacity q
