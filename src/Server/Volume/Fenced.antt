-- ===== src/Server/Volume/Fenced.antt =====
-- windows-server/src/application/volume_control.rs: playback after a fence.
use soundwave.Base.{
  ℕ, ◌≡◌, refl, sym, ◌∙◌, subst, arith, true, false, Option, none, some, Result, ok, err,
  Bool-cases, inl, inr,
}
use soundwave.Base.BTreeMap
use soundwave.Base.BTreeMap.{BTreeMap}
use soundwave.Protocol.Control.{restore_speaker}
use soundwave.Server.Registry.{Controls, Registry, RegistryError, Receiver, deny_all}
use soundwave.Server.Registry.Requests.{panel_volume_request}
use soundwave.Server.Registry.Step.{
  perform, Reached, after, denies_all, requests_volume, Everywhere,
}
use soundwave.Server.Registry.Everywhere.{perform-Everywhere, Everywhere-get}
use soundwave.Server.Registry.Safety.{Reached-IsAscending}
use soundwave.Server.Volume.{Controller}
use soundwave.Server.Volume.Asking.{denied}
use soundwave.Server.Volume.Driving.{fence_asked, fence_at}
use soundwave.Server.Volume.Settled.{Holds-denied, Quiet, Quiet-stable}

module _ (c : Controls) where
  fence_asked-registry :
      (now id volume index : ℕ) (w : Controller c) (x : Registry c × Result ℕ RegistryError)
      → (fence_asked c now id volume index w x).registry ≡ x.0
  fence_asked-registry now id volume index w (g, ok request) = refl
  fence_asked-registry now id volume index w (g, err e) = refl

  pub denied-Everywhere :
      (w : Controller c)
      → Reached c w.registry
      → Everywhere c (Quiet c) (denied c w).registry.receivers
  unfolding perform deny_all
  denied-Everywhere w h = (
    Reached-IsAscending c (deny_all c w.registry) (after denies_all h),
    Holds-denied c w.registry.receivers,
  )

  pub fence_at-Quiet :
      (now id volume : ℕ) (w : Controller c) (o : Option ℕ)
      → Everywhere c (Quiet c) w.registry.receivers
      → Everywhere c (Quiet c) (fence_at c now id volume w o).registry.receivers
  unfolding perform
  fence_at-Quiet now id volume w none h = h
  fence_at-Quiet now id volume w (some index) h =
      elim (Bool-cases (BTreeMap.contains_key id w.state.blocked)) [
        | inl blocked ↦ rw blocked h
        | inr free ↦
            rw
              (
                free,
                fence_asked-registry now id volume index w
                    (panel_volume_request c id index w.registry),
              )
              (perform-Everywhere c (λ id r. true ≡ false) (Quiet c) (Quiet-stable c)
                (requests_volume id index restore_speaker true) w.registry h tt)
      ]

  pub not-Quiet :
      (w w' : Controller c) (id : ℕ) (r : Receiver c)
      → Everywhere c (Quiet c) w.registry.receivers
      → some w ≡ some w'
      → BTreeMap.get id w'.registry.receivers ≡ some r
      → r.playback ≡ true
      → true ≡ false
  not-Quiet w w' id r q h e p =
      let is : w ≡ w' = ground arith in
      sym p
      ∙ Everywhere-get c (Quiet c) id r w.registry.receivers q
          (subst (λ (w : Controller c). BTreeMap.get id w.registry.receivers ≡ some r) (sym is) e)
