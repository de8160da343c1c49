-- ===== src/Server/Volume/Settled.antt =====
-- windows-server/src/application/volume_control.rs: the targets for which `tick` is ready.
use soundwave.Base.{
  ℕ, ◌≡◌, refl, ap, sym, ◌∙◌, subst, arith, List, [], ◌∷◌, Bool, true, false, not, ◌&&◌, ◌||◌,
  Option, none, some, all, any, ◌==◌, Bool-cases, Option-cases, inl, inr, ==→eq, eq→==,
}
use soundwave.Base.BTreeMap
use soundwave.Base.BTreeMap.{BTreeMap}
use soundwave.Protocol.Control.{DeviceStatus}
use soundwave.Server.Registry.{
  Controls, Registry, Receiver, ReceiverSnapshot, is_some_and, deny_all, for_each, matches_approval,
}
use soundwave.Server.Registry.Device.{store, observe, sanitized}
use soundwave.Server.Registry.Step.{Holds, Stable}
use soundwave.Server.Registry.Everywhere.{Holds-get}
use soundwave.Server.Registry.Approval.{as_expected}
use soundwave.Server.Registry.Safety.{updated_playback}
use soundwave.Server.Volume.{State, Controller}
use soundwave.Server.Volume.Driving.{
  waits, seen_device, drive_one, and_ready, drive_seen, drive, expect, expected,
}

pub and-left : (a b : Bool) → (a && b) ≡ true → a ≡ true
and-left a b h = ground arith

pub and-right : (a b : Bool) → (a && b) ≡ true → b ≡ true
and-right a b h = ground arith

not_here : (a b : Bool) → a ≡ false → (a || b) ≡ true → b ≡ true
not_here a b e h = ground arith

later : (a b d : Bool) → (b && d) ≡ true → ((a || b) && d) ≡ true
later a b d h = ground arith

same_volume :
    (actual device : DeviceStatus) (target : ℕ)
    → matches_approval actual device ≡ true
    → (actual.volume == target) ≡ true
    → (device.volume == target) ≡ true
same_volume actual device target m h = ground arith

module _ (c : Controls) where
  -- Nothing plays.
  abbrev pub Quiet : ℕ → Receiver c → Type 0
  Quiet id r = r.playback ≡ false

  updates-Quiet :
      (status : DeviceStatus) (r : Receiver c)
      → r.playback ≡ false
      → (store c status (observe c status r)).playback ≡ false
  updates-Quiet status r h = ground (arith, updated_playback c status r)

  pub Quiet-stable : Stable c (λ id r. true ≡ false) Quiet
  Quiet-stable = record {
    joins = λ id peer s. refl;
    sending = λ id s r h. h;
    denied = λ id r h. refl;
    allowed = λ id r h a. absurd (ground arith);
    noting = λ id request_id barrier s r h. ground arith;
    toned = λ id request_id state r h. h;
    tone_taken = λ id request_id r h. h;
    reply_taken = λ id request_id r h. h;
    volume_taken = λ id r h. h;
    updated = λ id status r h fine. updates-Quiet (sanitized status) r h;
  }

  pub Holds-denied :
      (m : BTreeMap (Receiver c))
      → Holds c Quiet (for_each c (λ id r. record r { playback = false }) m)
  Holds-denied [] = tt
  Holds-denied ((id, r) ∷ m) = (refl, Holds-denied m)

  pub denied-quiet :
      (id : ℕ) (r : Receiver c) (g : Registry c)
      → BTreeMap.get id (deny_all c g).receivers ≡ some r
      → r.playback ≡ false
  unfolding deny_all
  denied-quiet id r g e =
      Holds-get c Quiet id r (deny_all c g).receivers (Holds-denied g.receivers) e

  abbrev fst_or : Controller c → Option (Controller c × Bool) → Controller c
  fst_or w none = w
  fst_or w (some (w', ready)) = w'

  and_ready-true :
      (ready : Bool) (o : Option (Controller c × Bool)) (w' : Controller c)
      → and_ready c ready o ≡ some (w', true)
      → (ready ≡ true) × (o ≡ some (w', true))
  and_ready-true ready none w' h = absurd (ground arith)
  and_ready-true true (some (w, rest)) w' h = (refl, h)
  and_ready-true false (some (w, rest)) w' h = absurd (ground arith)

  -- The device that was seen has its target, and nothing is pending.
  abbrev pub is_settled : List (ReceiverSnapshot c) → State → ℕ × ℕ → Bool
  is_settled seen s e =
      is_some_and (seen_device c seen e.0) (λ d. d.volume == e.1) && not (waits c e.0 s)

  abbrev pub Settled :
      List (ReceiverSnapshot c) → List (ℕ × ℕ) → Controller c → Controller c → Type 0
  Settled seen targets w w' = (w ≡ w') × (all (is_settled seen w.state) targets ≡ true)

  drive_one-settled :
      (now id target : ℕ) (actual : DeviceStatus) (w : Controller c)
      → (drive_one c now id target actual w).1 ≡ true
      → ((drive_one c now id target actual w).0 ≡ w)
        × ((actual.volume == target && not (waits c id w.state)) ≡ true)
  drive_one-settled now id target actual w h = (rw h refl, h)

  drive_seen-Settled :
      (now id target : ℕ) (seen : List (ReceiverSnapshot c)) (targets : List (ℕ × ℕ))
      (w w' : Controller c) (o : Option DeviceStatus)
      (rest : Controller c → Option (Controller c × Bool))
      → ((w1 : Controller c) → rest w1 ≡ some (w', true) → Settled seen targets w1 w')
      → seen_device c seen id ≡ o
      → drive_seen c now id target w o rest ≡ some (w', true)
      → Settled seen ((id, target) ∷ targets) w w'
  drive_seen-Settled now id target seen targets w w' none rest ih e h = absurd (ground arith)
  drive_seen-Settled now id target seen targets w w' (some actual) rest ih e h =
      let one = drive_one c now id target actual w in
      let (settled, went) = and_ready-true one.1 (rest one.0) w' h in
      let (same, fits) = drive_one-settled now id target actual w settled in
      let (equal, all_fit) = ih w (ap rest (sym same) ∙ went) in (equal, rw (e, fits) all_fit)

  pub drive-Settled :
      (now : ℕ) (seen : List (ReceiverSnapshot c)) (targets : List (ℕ × ℕ)) (w w' : Controller c)
      → drive c now seen targets w ≡ some (w', true)
      → Settled seen targets w w'
  unfolding drive
  drive-Settled now seen [] w w' h = (ap (fst_or w) h, refl)
  drive-Settled now seen ((id, target) ∷ targets) w w' h =
      drive_seen-Settled now id target seen targets w w' (seen_device c seen id)
        (drive c now seen targets) (λ w1 h1. drive-Settled now seen targets w1 w' h1) refl h

  -- The device has the volume of its target.
  abbrev pub at_target : List (ℕ × ℕ) → ℕ → Option DeviceStatus → Bool
  at_target targets id device =
      any (λ e. e.0 == id && is_some_and device (λ d. d.volume == e.1)) targets

  -- One target: either it is the receiver, or the receiver is among the others.
  expect-at_target :
      (i target id : ℕ) (actual device : DeviceStatus) (targets : List (ℕ × ℕ))
      (others : List (ℕ × DeviceStatus)) (s : State)
      → (actual.volume == target && not (waits c i s)) ≡ true
      → (as_expected others id (some device) ≡ true
          → (at_target targets id (some device) && not (waits c id s)) ≡ true)
      → as_expected ((i, actual) ∷ others) id (some device) ≡ true
      → (at_target ((i, target) ∷ targets) id (some device) && not (waits c id s)) ≡ true
  expect-at_target i target id actual device targets others s fits ih h =
      elim (Bool-cases (i == id && matches_approval actual device)) [
        | inl here ↦
            let same : i ≡ id = ==→eq i id (and-left _ _ here) in
            let free : not (waits c id s) ≡ true =
              subst (λ k. not (waits c k s) ≡ true) same (and-right _ _ fits) in
            let volume =
              same_volume actual device target (and-right _ _ here) (and-left _ _ fits) in
            rw (eq→== i id same, volume, free) refl
        | inr elsewhere ↦
            later (i == id && device.volume == target) (at_target targets id (some device))
              (not (waits c id s))
              (ih (
                not_here (i == id && matches_approval actual device)
                  (as_expected others id (some device)) elsewhere h))
      ]

  seen_at :
      (target i : ℕ) (s : State) (o : Option DeviceStatus) (actual : DeviceStatus)
      → o ≡ some actual
      → (is_some_and o (λ d. d.volume == target) && not (waits c i s)) ≡ true
      → (actual.volume == target && not (waits c i s)) ≡ true
  seen_at target i s o actual e h = ground arith

  pub expected-at_target :
      (seen : List (ReceiverSnapshot c)) (s : State) (targets : List (ℕ × ℕ)) (id : ℕ)
      (device : DeviceStatus)
      → all (is_settled seen s) targets ≡ true
      → as_expected (expected c seen targets) id (some device) ≡ true
      → (at_target targets id (some device) && not (waits c id s)) ≡ true
  unfolding expected
  expected-at_target seen s [] id device a h = absurd (ground arith)
  expected-at_target seen s ((i, target) ∷ targets) id device a h =
      elim (Option-cases (seen_device c seen i)) [
        | inl gone ↦ absurd (ground arith)
        | inr (actual, there) ↦
            expect-at_target i target id actual device targets (expected c seen targets) s
              (seen_at target i s (seen_device c seen i) actual there (and-left _ _ a))
              (expected-at_target seen s targets id device (and-right _ _ a))
              (subst
                (λ (o : Option DeviceStatus).
                  as_expected (expect c i o (expected c seen targets)) id (some device) ≡ true)
                there h)
      ]
