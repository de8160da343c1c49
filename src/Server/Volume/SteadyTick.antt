-- ===== src/Server/Volume/SteadyTick.antt =====
-- windows-server/src/application/volume_control.rs: such a property through `tick`.
use soundwave.Base.{
  ℕ, ◌≡◌, refl, sym, subst, List, [], ◌∷◌, Bool, true, false, not, ◌&&◌, ◌||◌, Option, none, some,
  map, any, filter_by, ◌==◌,
}
use soundwave.Base.BTreeMap
use soundwave.Base.BTreeMap.{BTreeMap}
use soundwave.Protocol.Control.{DeviceStatus}
use soundwave.Server.Registry.{Controls, Registry, ReceiverSnapshot, snapshots}
use soundwave.Server.Registry.Device.{take_reply, has_panel_barrier, take_unsolicited_volume}
use soundwave.Server.Registry.Step.{perform, takes_reply, takes_unsolicited_volume}
use soundwave.Server.Profiles.{Profile, current, participating, nearest}
use soundwave.Server.Volume.{Pending, State, Disk, Controller, matches_snapshot, devices_of}
use soundwave.Server.Volume.Asking.{denied}
use soundwave.Server.Volume.Reviewing.{review, replied, reviewed, Reviewed}
use soundwave.Server.Volume.Driving.{fence_at}
use soundwave.Server.Volume.Ticking.{
  follow, requested_volume, with_master, with_masters, with_profile, after_review, tick, retain_ids,
}
use soundwave.Server.Volume.Review.{replied-registry, note_failures-load_error}
use soundwave.Server.Volume.Steady.{Steady, All-of, follow_at-P, if-All-of, fence_at-P, denied-P}

module _ (c : Controls) (disk : Disk) (P : Controller c → Type 0) (steady : Steady c disk P) where
  abbrev Outlasts : Option (Controller c) → Type 0
  Outlasts o = All-of c disk P steady o

  follow-P :
      (now : ℕ) (profile : Profile) (seen : List (ReceiverSnapshot c)) (part : List (List ℕ))
      (master : ReceiverSnapshot c) (volume : ℕ) (w : Controller c)
      → P w
      → Outlasts (
          follow c disk now profile seen part master volume w
            (take_unsolicited_volume c master.id w.registry))
  unfolding perform
  follow-P now profile seen part master volume w h =
      let (g, unsolicited) = take_unsolicited_volume c master.id w.registry in
      let s : State = record w.state { master_seen = some (master.id, volume) } in
      follow_at-P c disk P steady now profile seen part master.id
        (record w { registry = g; state = s })
        (nearest profile
          (requested_volume c w.state.master_seen master.id profile.volume unsolicited) part)
        (steady.noting s _ refl (steady.driving (takes_unsolicited_volume master.id) w h))

  with_master-P :
      (now : ℕ) (profile : Profile) (seen : List (ReceiverSnapshot c)) (master : ReceiverSnapshot c)
      (w : Controller c) (o : Option DeviceStatus)
      → P w
      → Outlasts (with_master c disk now profile seen master w o)
  with_master-P now profile seen master w none h = tt
  with_master-P now profile seen master w (some device) h =
      let part = participating (devices_of c seen) profile in
      if-All-of c disk P steady
        ((w.state.needs_fence || has_panel_barrier c master.id w.registry)
          && not (BTreeMap.contains_key master.id w.state.pending))
        (some (
          fence_at c now master.id device.volume (denied c w)
            (nearest profile profile.volume part)))
        (follow c disk now profile seen part master device.volume w
          (take_unsolicited_volume c master.id w.registry))
        (fence_at-P c disk P steady now master.id device.volume (denied c w)
          (nearest profile profile.volume part) (denied-P c disk P steady w h))
        (follow-P now profile seen part master device.volume w h)

  forgotten-P :
      (w : Controller c)
      → P w
      → P (record (denied c w) { state = record w.state { master_seen = none } })
  forgotten-P w h =
      steady.noting (record w.state { master_seen = none }) (denied c w) refl
        (denied-P c disk P steady w h)

  with_masters-P :
      (now : ℕ) (profile : Profile) (seen : List (ReceiverSnapshot c)) (w : Controller c)
      (masters : List (ReceiverSnapshot c))
      → P w
      → Outlasts (with_masters c disk now profile seen w masters)
  with_masters-P now profile seen w [] h = forgotten-P w h
  with_masters-P now profile seen w (master ∷ []) h =
      with_master-P now profile seen master w master.device h
  with_masters-P now profile seen w (master ∷ other ∷ more) h = forgotten-P w h

  with_profile-P :
      (now : ℕ) (seen : List (ReceiverSnapshot c)) (w : Controller c) (o : Option Profile)
      → P w
      → Outlasts (with_profile c disk now seen w o)
  with_profile-P now seen w none h = denied-P c disk P steady w h
  with_profile-P now seen w (some profile) h =
      with_masters-P now profile seen w (filter_by (matches_snapshot c profile.master) seen) h

  reviewed_one-P :
      (now : ℕ) (e : ℕ × Pending) (there : Bool) (o : Option DeviceStatus) (taken left : Reviewed c)
      (w : Controller c)
      → P (record w { registry = taken.0 })
      → P (record w { registry = left.0 })
      → P (record w {
        registry =
            (elim there as (λ b. Reviewed c) [ true ↦ replied c now e o taken | false ↦ left ]).0;
      })
  reviewed_one-P now e true o taken left w h k =
      subst (λ (g : Registry c). P (record w { registry = g }))
        (sym (replied-registry c now e o taken)) h
  reviewed_one-P now e false o taken left w h k = k

  review-P :
      (now : ℕ) (ids : List ℕ) (w : Controller c) (m : BTreeMap Pending)
      → P w
      → P (record w { registry = (review c now ids w.registry m).0 })
  unfolding review perform
  review-P now ids w [] h = h
  review-P now ids w ((id, pending) ∷ rest) h =
      let taken : Controller c = record w {
        registry = (take_reply c id pending.request w.registry).0;
      } in
      reviewed_one-P now (id, pending) (any (λ i. i == id) ids)
        (take_reply c id pending.request w.registry).1 (review c now ids taken.registry rest)
        (review c now ids w.registry rest) w
        (review-P now ids taken rest (steady.driving (takes_reply id pending.request) w h))
        (review-P now ids w rest h)

  reviewed-P :
      (w : Controller c) (outcome : Reviewed c)
      → P (record w { registry = outcome.0 })
      → P (reviewed c w outcome)
  reviewed-P w (g, kept, failures) h =
      steady.noting _ (record w { registry = g })
        (note_failures-load_error c failures (record w.state { pending = kept })) h

  pub tick-P : (now : ℕ) (w : Controller c) → P w → Outlasts (tick c disk now w)
  unfolding tick
  tick-P now w h =
      let seen = snapshots c w.registry in
      let ids = map (λ s. s.id) seen in
      let s : State = record w.state { blocked = retain_ids c ids w.state.blocked } in
      let retained : Controller c = record w { state = s } in
      let next = reviewed c retained (review c now ids w.registry w.state.pending) in
      if-All-of c disk P steady w.state.editing (some (denied c w))
        (after_review c disk now seen next) (denied-P c disk P steady w h)
        (with_profile-P now seen next (current next.state.library) (
          reviewed-P retained (review c now ids w.registry w.state.pending)
            (review-P now ids retained w.state.pending (steady.noting s w refl h))))

  pub tick_keeps : (now : ℕ) (w w' : Controller c) → P w → tick c disk now w ≡ some w' → P w'
  tick_keeps now w w' h e = subst Outlasts e (tick-P now w h)
