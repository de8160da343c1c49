-- ===== src/Server/Profiles/Nearest.antt =====
-- The volume of the master that stands nearest to the one requested.
use soundwave.Base.{
  ◌<◌, ◌≢◌, ◌==◌, ◌&&◌, ==→eq, ==→ne, leb→le, subst, refl, any, all, Option-cases, ℕ, zero, suc,
  ◌+◌, ◌-◌, ◌≡◌, ◌≤◌, ◌⊎◌, inl, inr, arith, List, [], ◌∷◌, Bool, true, false, Option, none, some,
  All, filter_by, min_by_key, first_min, leb, Bool-cases,
}
use soundwave.Base.BTreeMap
use soundwave.Base.Text.{text_eq, text_eq→eq, text_eq_refl}
use soundwave.Server.Profiles.{
  Follower, Profile, counting, master_range, is_shared, available, abs_diff, nearest,
}

-- Among the elements of the list that pass the test, the value is one at which `f` is least, and
-- has the property that all have; `none` stands for no such element.
abbrev pub IsLeast : (ℕ → Bool) → (ℕ → ℕ) → (ℕ → Type 0) → List ℕ → Option ℕ → Type 0
IsLeast q f R xs none = All (λ x. q x ≡ false) xs
IsLeast q f R xs (some i) = R i × (q i ≡ true) × All (λ j. (q j ≡ false) ⊎ (f i ≤ f j)) xs

module _ (q : ℕ → Bool) (f : ℕ → ℕ) (R : ℕ → Type 0) where
  All-none :
      (i : ℕ) (xs : List ℕ) → All (λ x. q x ≡ false) xs → All (λ j. (q j ≡ false) ⊎ (f i ≤ f j)) xs
  All-none i [] h = tt
  All-none i (x ∷ xs) h = (inl h.0, All-none i xs h.1)

  below : (i k x : ℕ) → f i ≤ f k → ((q x ≡ false) ⊎ (f k ≤ f x)) → (q x ≡ false) ⊎ (f i ≤ f x)
  below i k x le (inl e) = inl e
  below i k x le (inr m) = inr (omega arith)

  All-below :
      (i k : ℕ) (xs : List ℕ)
      → f i ≤ f k
      → All (λ j. (q j ≡ false) ⊎ (f k ≤ f j)) xs
      → All (λ j. (q j ≡ false) ⊎ (f i ≤ f j)) xs
  All-below i k [] le h = tt
  All-below i k (x ∷ xs) le h = (below i k x le h.0, All-below i k xs le h.1)

  first_min-IsLeast :
      (x : ℕ) (xs : List ℕ) (o : Option ℕ)
      → R x
      → q x ≡ true
      → IsLeast q f R xs o
      → IsLeast q f R (x ∷ xs) (first_min f x o)
  first_min-IsLeast x xs none r e h = (r, e, (inr (omega arith), All-none x xs h))
  first_min-IsLeast x xs (some y) r e h = elim (Bool-cases (leb (f x) (f y))) [
    | inl le ↦ rw le (r, e, (inr (omega arith), All-below x y xs (ground arith) h.2))
    | inr gt ↦ rw gt (h.0, h.1, (inr (ground arith), h.2))
  ]

  skip-IsLeast :
      (x : ℕ) (xs : List ℕ) (o : Option ℕ)
      → q x ≡ false
      → IsLeast q f R xs o
      → IsLeast q f R (x ∷ xs) o
  skip-IsLeast x xs none e h = (e, h)
  skip-IsLeast x xs (some y) e h = (h.0, h.1, (inl e, h.2))

  pub min_by_key-IsLeast :
      (xs : List ℕ) → All R xs → IsLeast q f R xs (min_by_key f (filter_by q xs))
  unfolding min_by_key
  min_by_key-IsLeast [] r = tt
  min_by_key-IsLeast (x ∷ xs) r =
      let rest = min_by_key-IsLeast xs r.1 in
      elim (Bool-cases (q x)) [
        | inl e ↦ rw e (first_min-IsLeast x xs (min_by_key f (filter_by q xs)) r.0 e rest)
        | inr e ↦ rw e (skip-IsLeast x xs (min_by_key f (filter_by q xs)) e rest)
      ]

counting-bounds :
    (lo hi n count : ℕ)
    → lo ≤ n
    → n + count ≤ hi + 1
    → All (λ i. (lo ≤ i) × (i ≤ hi)) (counting n count)
counting-bounds lo hi n zero l h = tt
counting-bounds lo hi n (suc count) l h =
    ((l, omega arith), counting-bounds lo hi (n + 1) count (omega arith) (omega arith))

-- The range of the source, `minimum..=maximum`.
range-bounds : (lo hi : ℕ) → All (λ i. (lo ≤ i) × (i ≤ hi)) (counting lo (hi + 1 - lo))
range-bounds lo hi = elim (Bool-cases (leb lo (hi + 1))) [
  | inl ordered ↦
      counting-bounds lo hi lo (hi + 1 - lo) (omega arith)
        (omega (arith, leb→le lo (hi + 1) ordered))
  | inr reversed ↦ let nothing : hi + 1 - lo ≡ 0 = ground arith in rw nothing tt
]

counting_at :
    (R : ℕ → Type 0) (n count j : ℕ) → All R (counting n count) → n ≤ j → j < n + count → R j
counting_at R n zero j h l u = absurd (omega arith)
counting_at R n (suc count) j h l u = elim (Bool-cases (n == j)) [
  | inl here ↦ subst R (==→eq n j here) h.0
  | inr later ↦ counting_at R (n + 1) count j h.1 (omega (arith, ==→ne n j later)) (omega arith)
]

absent : (id : List ℕ) (ids : List (List ℕ)) → any (text_eq id) ids ≡ false → All (λ i. id ≢ i) ids
absent id [] h = tt
absent id (i ∷ ids) h = (
  (λ e.
      let here : text_eq id i ≡ true = subst (λ t. text_eq id t ≡ true) e (text_eq_refl id) in
      absurd (ground arith)),
  absent id ids (ground arith),
)

not_absent :
    (id : List ℕ) (ids : List (List ℕ)) → All (λ i. id ≢ i) ids → any (text_eq id) ids ≡ false
not_absent id [] h = refl
not_absent id (i ∷ ids) h = elim (Bool-cases (text_eq id i)) [
  | inl same ↦ absurd (h.0 (text_eq→eq id i same))
  | inr other ↦ ground (arith, not_absent id ids h.1)
]

-- Each follower takes no part, or has a point for this volume of the master.
abbrev pub HasPoints : List (List ℕ) → ℕ → List Follower → Type 0
HasPoints participating index followers =
    All
      (λ f.
        All (λ id. f.device.id ≢ id) participating
        ⊎ ((volume : ℕ) × (BTreeMap.get index f.mapping ≡ some volume)))
      followers

module _ (part : List (List ℕ)) (index : ℕ) where
  abbrev shared : List Follower → Bool
  shared fs =
      all (λ f. BTreeMap.contains_key index f.mapping)
        (filter_by (λ f. any (text_eq f.device.id) part) fs)

  shared-HasPoints : (fs : List Follower) → shared fs ≡ true → HasPoints part index fs
  shared-HasPoints [] h = tt
  shared-HasPoints (f ∷ fs) h = elim (Bool-cases (any (text_eq f.device.id) part)) [
    | inr apart ↦ (inl (absent f.device.id part apart), shared-HasPoints fs (ground arith))
    | inl in_part ↦ elim (Option-cases (BTreeMap.get index f.mapping)) [
      | inl gone ↦ absurd (ground arith)
      | inr there ↦ (inr there, shared-HasPoints fs (ground arith))
    ]
  ]

  HasPoints-shared : (fs : List Follower) → HasPoints part index fs → shared fs ≡ true
  HasPoints-shared [] h = refl
  HasPoints-shared (f ∷ fs) (inl apart, h) =
      ground (arith, not_absent f.device.id part apart, HasPoints-shared fs h)
  HasPoints-shared (f ∷ fs) (inr (volume, there), h) = ground (arith, there, HasPoints-shared fs h)

-- A volume of the master that `nearest` may give.
abbrev pub MayBe : Profile → List (List ℕ) → ℕ → Type 0
MayBe p participating index =
    (p.master.minimum ≤ index)
    × (index ≤ p.master.maximum)
    × HasPoints participating index p.followers

-- Against a volume `j`: what is given may be given and is no farther from the one requested, unless
-- `j` may not be given.
abbrev pub IsNearest : Profile → ℕ → List (List ℕ) → ℕ → Option ℕ → Type 0
IsNearest p requested participating j none = ¬ MayBe p participating j
IsNearest p requested participating j (some i) =
    MayBe p participating i
    × ((¬ MayBe p participating j) ⊎ (abs_diff i requested ≤ abs_diff j requested))

module _ (p : Profile) (requested : ℕ) (part : List (List ℕ)) (j : ℕ) where
  not_shared : is_shared p part j ≡ false → ¬ MayBe p part j
  unfolding is_shared
  not_shared e (l, u, h) = absurd (ground (arith, HasPoints-shared part j p.followers h))

  no_farther :
      (i : ℕ)
      → All
          (λ j. (is_shared p part j ≡ false) ⊎ (abs_diff i requested ≤ abs_diff j requested))
          (master_range p)
      → (¬ MayBe p part j) ⊎ (abs_diff i requested ≤ abs_diff j requested)
  no_farther i h = elim (Bool-cases (leb p.master.minimum j && leb j p.master.maximum)) [
    | inr outside ↦ inl (λ m. absurd (ground (arith, m.0, m.1)))
    | inl inside ↦
        elim (counting_at
          (λ j. (is_shared p part j ≡ false) ⊎ (abs_diff i requested ≤ abs_diff j requested))
          p.master.minimum (p.master.maximum + 1 - p.master.minimum) j h (ground arith)
          (ground arith)) [ inl e ↦ inl (not_shared e) | inr le ↦ inr le ]
  ]

  least-IsNearest :
      (o : Option ℕ)
      → IsLeast
          (is_shared p part)
          (λ index. abs_diff index requested)
          (λ index. (p.master.minimum ≤ index) × (index ≤ p.master.maximum))
          (master_range p)
          o
      → IsNearest p requested part j o
  unfolding is_shared
  least-IsNearest none h = λ m.
      not_shared
        (counting_at (λ j. is_shared p part j ≡ false) p.master.minimum
          (p.master.maximum + 1 - p.master.minimum) j h m.0 (omega (arith, m.1)))
        m
  least-IsNearest (some i) h =
      ((h.0.0, h.0.1, shared-HasPoints part i p.followers h.1), no_farther i h.2)

  -- A volume that `nearest` gives lies from the minimum to the maximum of the master, both
  -- included, and at it every follower has a point whose identifier is among those that take part;
  -- and no volume `j` of this kind is nearer to the one requested. Where `nearest` gives none, there is
  -- no such `j`.
  pub nearest-IsNearest : IsNearest p requested part j (nearest p requested part)
  unfolding nearest available
  nearest-IsNearest = least-IsNearest _ (
      min_by_key-IsLeast (is_shared p part) (λ index. abs_diff index requested)
        (λ index. (p.master.minimum ≤ index) × (index ≤ p.master.maximum)) (master_range p)
        (range-bounds p.master.minimum p.master.maximum))
