-- ===== src/Server/Volume/Plays.antt =====
-- windows-server/src/application/volume_control.rs: playback after the last stage of `tick`.
use soundwave.Base.{
  ℕ, ◌≡◌, refl, sym, ◌∙◌, subst, arith, List, [], Bool, true, false, not, ◌&&◌, Option, none, some,
  all,
}
use soundwave.Base.BTreeMap
use soundwave.Base.BTreeMap.{BTreeMap}
use soundwave.Protocol.Control.{DeviceStatus}
use soundwave.Server.Registry.{Controls, Registry, Receiver, ReceiverSnapshot, approve}
use soundwave.Server.Registry.Step.{perform, Reached}
use soundwave.Server.Registry.Approval.{as_expected, as_expected-is_usable}
use soundwave.Server.Registry.Safety.{plays_only_as_approved}
use soundwave.Server.Volume.{State, Disk, Controller}
use soundwave.Server.Volume.Asking.{denied}
use soundwave.Server.Volume.Driving.{waits, expected}
use soundwave.Server.Volume.Ticking.{write_confirmed, settle}
use soundwave.Server.Volume.Settled.{
  denied-quiet, Settled, is_settled, at_target, expected-at_target,
}

module _ (c : Controls) where
  -- The receiver may play: the volume of the targets is confirmed, and it has its own.
  abbrev pub Confirmed : ℕ → ℕ → List (ℕ × ℕ) → Controller c → ℕ → Receiver c → Type 0
  Confirmed profile index targets w id r =
      (w.state.confirmed ≡ some (profile, index))
      × ((at_target c targets id r.device && not (waits c id w.state)) ≡ true)

  written-state :
      (disk : Disk) (now id : ℕ) (w : Controller c)
      → ((write_confirmed c disk now w).registry ≡ w.registry)
        × ((write_confirmed c disk now w).state.confirmed ≡ w.state.confirmed)
        × (waits c id (write_confirmed c disk now w).state ≡ waits c id w.state)
  written-state disk now id w = (ground arith, ground arith, ground arith)

  device_at_target :
      (seen : List (ReceiverSnapshot c)) (s : State) (targets : List (ℕ × ℕ)) (id : ℕ)
      (device : Option DeviceStatus)
      → all (is_settled c seen s) targets ≡ true
      → as_expected (expected c seen targets) id device ≡ true
      → (at_target c targets id device && not (waits c id s)) ≡ true
  device_at_target seen s targets id none a h =
      absurd (ground (arith, as_expected-is_usable c (expected c seen targets) id none h))
  device_at_target seen s targets id (some device) a h =
      expected-at_target c seen s targets id device a h

  approved-Confirmed :
      (disk : Disk) (now profile index : ℕ) (seen : List (ReceiverSnapshot c))
      (targets : List (ℕ × ℕ)) (w w' : Controller c) (id : ℕ) (r : Receiver c)
      → Reached c w.registry
      → all (is_settled c seen w.state) targets ≡ true
      → settle c disk now profile index seen targets (some (w, true)) ≡ some w'
      → BTreeMap.get id w'.registry.receivers ≡ some r
      → r.playback ≡ true
      → Confirmed profile index targets w' id r
  unfolding perform
  approved-Confirmed disk now profile index seen targets w w' id r g a h e p =
      let asked : Controller c = record w {
        registry = approve c (expected c seen targets) w.registry;
        state = record w.state { confirmed = some (profile, index) };
      } in
      let (same, sure, free) = written-state disk now id asked in
      let is : write_confirmed c disk now asked ≡ w' = ground arith in
      let there : BTreeMap.get id asked.registry.receivers ≡ some r =
        subst (λ (g : Registry c). BTreeMap.get id g.receivers ≡ some r) same
          (subst (λ (w : Controller c). BTreeMap.get id w.registry.receivers ≡ some r) (sym is)
            e) in
      subst (λ (w : Controller c). Confirmed profile index targets w id r) is
        (
          sure,
          rw free (
              device_at_target seen w.state targets id r.device a (
                plays_only_as_approved c (expected c seen targets) [] w.registry id r g refl there
                  p)),
        )

  pub not_denied :
      (w w' : Controller c) (id : ℕ) (r : Receiver c)
      → some (denied c w) ≡ some w'
      → BTreeMap.get id w'.registry.receivers ≡ some r
      → r.playback ≡ true
      → true ≡ false
  not_denied w w' id r h e p =
      let is : denied c w ≡ w' = ground arith in
      sym p
      ∙ denied-quiet c id r w.registry
          (subst (λ (w : Controller c). BTreeMap.get id w.registry.receivers ≡ some r) (sym is) e)

  pub settle-Confirmed :
      (disk : Disk) (now profile index : ℕ) (seen : List (ReceiverSnapshot c))
      (targets : List (ℕ × ℕ)) (w w' : Controller c) (o : Option (Controller c × Bool)) (id : ℕ)
      (r : Receiver c)
      → Reached c w.registry
      → ((w1 : Controller c) → o ≡ some (w1, true) → Settled c seen targets w w1)
      → settle c disk now profile index seen targets o ≡ some w'
      → BTreeMap.get id w'.registry.receivers ≡ some r
      → r.playback ≡ true
      → Confirmed profile index targets w' id r
  settle-Confirmed disk now profile index seen targets w w' none id r g k h e p =
      absurd (ground arith)
  settle-Confirmed disk now profile index seen targets w w' (some (w1, false)) id r g k h e p =
      absurd (ground (arith, not_denied w1 w' id r h e p))
  settle-Confirmed disk now profile index seen targets w w' (some (w1, true)) id r g k h e p =
      let (same, all_settled) = k w1 refl in
      approved-Confirmed disk now profile index seen targets w w' id r g all_settled (rw same h) e p
