-- ===== src/Base/BTreeMap/Laws.antt =====
-- The laws of the ordered map: what is read after `insert` and `remove`, the order of the keys,
-- and the number of entries.
use Prim.Native.Nat.{ℕ, suc, ◌≤◌, ◌<◌}
use mathlib.Core.Path.{◌≡◌, refl}
use mathlib.Core.Bool.{false}
use mathlib.Core.Logic.{inl, inr}
use mathlib.Core.List.{[], ◌∷◌, Perm}
use mathlib.Core.List.Perm
use mathlib.Core.Option.{none, some}
use native.Mathlib.Omega.{arith}
use soundwave.Base.Tests.{◌==◌, ltb, if◌then◌else◌, Bool-cases}
use soundwave.Base.Lists.{length}
use soundwave.Base.BTreeMap.{
  BTreeMap, get, insert, remove, contains_key, values, Above, IsAscending,
}

module _ {ℓ} {V : Type ℓ} where
  pub get_of_Above : (k lo : ℕ) (m : BTreeMap V) → k ≤ lo → Above lo m → get k m ≡ none
  unfolding get
  get_of_Above k lo [] h a = refl
  get_of_Above k lo ((j, v) ∷ m) h a = ground (arith, get_of_Above k j m)

  pub Above-weaken : (lo hi : ℕ) (m : BTreeMap V) → lo ≤ hi → Above hi m → Above lo m
  Above-weaken lo hi [] h a = tt
  Above-weaken lo hi ((k, v) ∷ m) h a = (omega arith, a.1)

  pub IsAscending-of_Above : (lo : ℕ) (m : BTreeMap V) → Above lo m → IsAscending m
  IsAscending-of_Above lo [] a = tt
  IsAscending-of_Above lo ((k, v) ∷ m) a = a.1

  -- A map reads back what was inserted, and every other key as before.
  pub get-insert :
      (q k : ℕ) (v : V) (m : BTreeMap V)
      → get q (insert k v m) ≡ (if k == q then some v else get q m)
  unfolding get insert
  get-insert q k v [] = refl
  get-insert q k v ((j, w) ∷ m) = ground (arith, get-insert q k v m)

  pub Above-insert :
      (lo k : ℕ) (v : V) (m : BTreeMap V) → lo < k → Above lo m → Above lo (insert k v m)
  unfolding insert
  Above-insert lo k v [] h a = (h, tt)
  Above-insert lo k v ((j, w) ∷ m) h a = ground (arith, Above-insert j k v m, Above-weaken k j m)

  pub IsAscending-insert :
      (k : ℕ) (v : V) (m : BTreeMap V) → IsAscending m → IsAscending (insert k v m)
  unfolding insert
  IsAscending-insert k v [] a = tt
  IsAscending-insert k v ((j, w) ∷ m) a = ground (arith, Above-insert j k v m, Above-weaken k j m)

  pub Above-remove : (lo k : ℕ) (m : BTreeMap V) → Above lo m → Above lo (remove k m)
  unfolding remove
  Above-remove lo k [] a = tt
  Above-remove lo k ((j, w) ∷ m) a = ground (arith, Above-remove j k m, Above-weaken lo j m)

  pub IsAscending-remove : (k : ℕ) (m : BTreeMap V) → IsAscending m → IsAscending (remove k m)
  unfolding remove
  IsAscending-remove k [] a = tt
  IsAscending-remove k ((j, w) ∷ m) a = ground (arith, Above-remove j k m, IsAscending-of_Above j m)

  -- After `remove` the key is gone, and every other key reads as before.
  pub get-remove :
      (q k : ℕ) (m : BTreeMap V)
      → IsAscending m
      → get q (remove k m) ≡ (if k == q then none else get q m)
  unfolding get remove
  get-remove q k [] a = ground arith
  get-remove q k ((j, w) ∷ m) a =
      ground (arith, get-remove q k m (IsAscending-of_Above j m a), get_of_Above q j m)

  pub length-insert :
      (k : ℕ) (v : V) (m : BTreeMap V)
      → IsAscending m
      → length (insert k v m) ≡ (if contains_key k m then length m else suc (length m))
  unfolding get insert
  length-insert k v [] a = refl
  length-insert k v ((j, w) ∷ m) a =
      ground (arith, length-insert k v m (IsAscending-of_Above j m a), get_of_Above k j m)

  pub length-insert-le : (k : ℕ) (v : V) (m : BTreeMap V) → length (insert k v m) ≤ suc (length m)
  unfolding insert
  length-insert-le k v [] = omega arith
  length-insert-le k v ((j, w) ∷ m) = ground (arith, length-insert-le k v m)

  pub length-remove :
      (k : ℕ) (v : V) (m : BTreeMap V) → get k m ≡ some v → suc (length (remove k m)) ≡ length m
  unfolding get remove
  length-remove k v [] h = absurd (ground arith)
  length-remove k v ((j, w) ∷ m) h = ground (arith, length-remove k v m)

  pub length-remove-le : (k : ℕ) (m : BTreeMap V) → length (remove k m) ≤ length m
  unfolding remove
  length-remove-le k [] = omega arith
  length-remove-le k ((j, w) ∷ m) = ground (arith, length-remove-le k m)

  -- The values, with the one that goes or comes in front.
  pub values_remove-Perm :
      (k : ℕ) (v : V) (m : BTreeMap V)
      → get k m ≡ some v
      → Perm (v ∷ values (remove k m)) (values m)
  unfolding get remove
  values_remove-Perm k v [] h = absurd (ground arith)
  values_remove-Perm k v ((j, w) ∷ m) h = elim (Bool-cases (j == k)) [
    | inl here ↦ let same : w ≡ v = ground arith in rw (here, same) (Perm.refl (v ∷ values m))
    | inr other ↦ rw other (
        Perm.trans (Perm.swap w v (values (remove k m)))
          (Perm.cons w (values_remove-Perm k v m (ground arith))))
  ]

  pub values_insert-Perm :
      (k : ℕ) (v : V) (m : BTreeMap V)
      → contains_key k m ≡ false
      → Perm (values (insert k v m)) (v ∷ values m)
  unfolding get insert
  values_insert-Perm k v [] h = Perm.refl (v ∷ [])
  values_insert-Perm k v ((j, w) ∷ m) h = elim (Bool-cases (ltb k j)) [
    | inl before ↦ rw before (Perm.refl (v ∷ w ∷ values m))
    | inr behind ↦
        let other : (j == k) ≡ false = ground arith in
        rw (behind, other)
          (Perm.trans (Perm.cons w (values_insert-Perm k v m (ground arith)))
            (Perm.swap v w (values m)))
  ]
