-- ===== src/Server/Volume/Review.antt =====
-- windows-server/src/application/volume_control.rs: the registry and the library after the review
-- of requests.
use soundwave.Base.{
  ℕ, ◌≡◌, refl, sym, subst, arith, List, [], ◌∷◌, Bool, true, false, Option, none, some, any, ◌==◌,
}
use soundwave.Base.BTreeMap
use soundwave.Base.BTreeMap.{BTreeMap}
use soundwave.Protocol.Control.{DeviceStatus}
use soundwave.Server.Registry.{Controls, Registry, ReceiverSnapshot}
use soundwave.Server.Registry.Device.{take_reply}
use soundwave.Server.Registry.Step.{perform, Reached, after, takes_reply}
use soundwave.Server.Profiles.{current}
use soundwave.Server.Volume.{Pending, Message, State, Disk, Controller}
use soundwave.Server.Volume.Reviewing.{review, replied, fail, reviewed, Reviewed, note_failures}
use soundwave.Server.Volume.Ticking.{with_profile, after_review}

module _ (c : Controls) where
  fail-registry :
      (id : ℕ) (message : Message) (b : Bool) (rest : Reviewed c)
      → (fail c id message b rest).0 ≡ rest.0
  fail-registry id message false rest = refl
  fail-registry id message true rest = refl

  pub replied-registry :
      (now : ℕ) (e : ℕ × Pending) (o : Option DeviceStatus) (rest : Reviewed c)
      → (replied c now e o rest).0 ≡ rest.0
  replied-registry now (id, pending) (some reply) rest = fail-registry id _ _ rest
  replied-registry now (id, pending) none rest = ground arith

  reviewed_one-Reached :
      (now : ℕ) (e : ℕ × Pending) (there : Bool) (o : Option DeviceStatus) (taken left : Reviewed c)
      → Reached c taken.0
      → Reached c left.0
      → Reached c
          (elim there as (λ b. Reviewed c) [ true ↦ replied c now e o taken | false ↦ left ]).0
  reviewed_one-Reached now e true o taken left h k =
      subst (Reached c) (sym (replied-registry now e o taken)) h
  reviewed_one-Reached now e false o taken left h k = k

  pub review-Reached :
      (now : ℕ) (ids : List ℕ) (g : Registry c) (m : BTreeMap Pending)
      → Reached c g
      → Reached c (review c now ids g m).0
  unfolding review perform
  review-Reached now ids g [] h = h
  review-Reached now ids g ((id, pending) ∷ rest) h =
      let g' = (take_reply c id pending.request g).0 in
      reviewed_one-Reached now (id, pending) (any (λ i. i == id) ids)
        (take_reply c id pending.request g).1 (review c now ids g' rest) (review c now ids g rest)
        (review-Reached now ids g' rest (after (takes_reply id pending.request) h))
        (review-Reached now ids g rest h)

  note_failures-library :
      (failures : List (ℕ × Message)) (s : State) → (note_failures c failures s).library ≡ s.library
  note_failures-library [] s = refl
  note_failures-library ((id, message) ∷ failures) s =
      note_failures-library failures
        (record s { blocked = BTreeMap.insert id tt s.blocked; message = message })

  pub note_failures-load_error :
      (failures : List (ℕ × Message)) (s : State)
      → (note_failures c failures s).load_error ≡ s.load_error
  note_failures-load_error [] s = refl
  note_failures-load_error ((id, message) ∷ failures) s =
      note_failures-load_error failures
        (record s { blocked = BTreeMap.insert id tt s.blocked; message = message })

  pub reviewed-library :
      (disk : Disk) (now : ℕ) (seen : List (ReceiverSnapshot c)) (w : Controller c)
      (outcome : Reviewed c) (w' : Controller c)
      → after_review c disk now seen (reviewed c w outcome) ≡ some w'
      → with_profile c disk now seen (reviewed c w outcome) (current w.state.library) ≡ some w'
  reviewed-library disk now seen w (g, kept, failures) w' h =
      subst
        (λ library.
          with_profile c disk now seen (reviewed c w (g, kept, failures)) (current library)
          ≡ some w')
        (note_failures-library failures (record w.state { pending = kept })) h
