-- ===== src/Server/Registry/Approval.antt =====
-- What `approve` asks for, receiver by receiver.
use soundwave.Base.{
  ℕ, ◌≡◌, arith, List, [], ◌∷◌, Bool, true, not, ◌&&◌, Option, some, any, all, ◌==◌, ◌≤◌, ==_refl,
}
use soundwave.Base.BTreeMap
use soundwave.Base.BTreeMap.{BTreeMap}
use soundwave.Base.BTreeMap.Laws.{IsAscending-of_Above}
use soundwave.Protocol.Control.{DeviceStatus}
use soundwave.Server.Registry.{
  Controls, Receiver, Registry, is_some_and, is_ready, matches_approval,
}
use soundwave.Server.Registry.Step.{Holds}

-- A device that may play.
abbrev pub is_usable : DeviceStatus → Bool
is_usable status = status.speaker && (not status.fixed && not status.failed)

-- The device has the status that `expected` asks of this id.
abbrev pub as_expected : List (ℕ × DeviceStatus) → ℕ → Option DeviceStatus → Bool
as_expected expected id device =
    any (λ e. e.0 == id && is_some_and device (λ actual. matches_approval e.1 actual)) expected

module _ (c : Controls) where
  abbrev pub Found : BTreeMap (Receiver c) → ℕ → Receiver c → Type 0
  Found m id r = BTreeMap.get id m ≡ some r

  Holds-tail :
      (lo j : ℕ) (s : Receiver c) (m' m : BTreeMap (Receiver c))
      → j ≤ lo
      → BTreeMap.Above lo m
      → Holds c (Found m') m
      → Holds c (Found ((j, s) ∷ m')) m
  unfolding BTreeMap.get
  Holds-tail lo j s m' [] l a h = tt
  Holds-tail lo j s m' ((id, r) ∷ m) l a h =
      (ground (arith, h.0), Holds-tail id j s m' m (ground arith) a.1 h.1)

  -- In an ordered map every entry is the one that `get` finds.
  pub entries-Found : (m : BTreeMap (Receiver c)) → BTreeMap.IsAscending m → Holds c (Found m) m
  unfolding BTreeMap.get
  entries-Found [] a = tt
  entries-Found ((j, s) ∷ m) a = (
    ground (arith, ==_refl j),
    Holds-tail j j s m m (ground arith) a (entries-Found m (IsAscending-of_Above j m a)),
  )

  pub ready-as_expected :
      (expected : List (ℕ × DeviceStatus)) (g : Registry c) (id : ℕ) (r : Receiver c)
      → Found g.receivers id r
      → all (is_ready c g) expected ≡ true
      → any (λ e. e.0 == id) expected ≡ true
      → as_expected expected id r.device ≡ true
  ready-as_expected [] g id r f a e = absurd (ground arith)
  ready-as_expected ((i, status) ∷ es) g id r f a e = ground (arith, ready-as_expected es g id r f)

  pub as_expected-is_usable :
      (expected : List (ℕ × DeviceStatus)) (id : ℕ) (device : Option DeviceStatus)
      → as_expected expected id device ≡ true
      → is_some_and device is_usable ≡ true
  as_expected-is_usable [] id device h = absurd (ground arith)
  as_expected-is_usable ((i, status) ∷ es) id device h =
      ground (arith, as_expected-is_usable es id device)
