-- ===== src/Base/BTreeMap.antt =====
-- `std::collections::BTreeMap` with integer keys: the entries in ascending order of their keys.
-- A `BTreeSet` is a map to `Unit`.
pub mod Laws
use Prim.Native.Nat.{ℕ, ◌<◌}
use mathlib.Core.Bool.{Bool}
use mathlib.Core.List.{List, [], ◌∷◌, map}
use mathlib.Core.Option.{Option, none, some}
use soundwave.Base.Tests.{ltb, ◌==◌, if◌then◌else◌, is_some}

abbrev pub BTreeMap {ℓ} : Type ℓ → Type ℓ
BTreeMap V = List (ℕ × V)

module _ {ℓ} {V : Type ℓ} where
  unfoldable pub get : ℕ → BTreeMap V → Option V
  get k [] = none
  get k ((j, v) ∷ m) = if j == k then some v else get k m

  abbrev pub contains_key : ℕ → BTreeMap V → Bool
  contains_key k m = is_some (get k m)

  -- `insert` replaces the value of a key that is there.
  unfoldable pub insert : ℕ → V → BTreeMap V → BTreeMap V
  insert k v [] = (k, v) ∷ []
  insert k v ((j, w) ∷ m) =
      if ltb k j then (k, v) ∷ (j, w) ∷ m else if j == k then (k, v) ∷ m else (j, w) ∷ insert k v m

  -- The map after `remove`; the value removed is `get k m`.
  unfoldable pub remove : ℕ → BTreeMap V → BTreeMap V
  remove k [] = []
  remove k ((j, v) ∷ m) = if j == k then m else (j, v) ∷ remove k m

  -- `pop_first` without its result: the smallest key goes.
  abbrev pub pop_first : BTreeMap V → BTreeMap V
  pop_first [] = []
  pop_first (e ∷ m) = m

  abbrev pub keys : BTreeMap V → List ℕ
  keys = map (λ e. e.0)

  abbrev pub values : BTreeMap V → List V
  values = map (λ e. e.1)

  -- Every key is above `lo`, and the keys ascend.
  abbrev pub Above : ℕ → BTreeMap V → Type 0
  Above lo [] = Unit
  Above lo ((k, v) ∷ m) = (lo < k) × Above k m

  abbrev pub IsAscending : BTreeMap V → Type 0
  IsAscending [] = Unit
  IsAscending ((k, v) ∷ m) = Above k m
