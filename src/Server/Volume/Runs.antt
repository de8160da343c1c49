-- ===== src/Server/Volume/Runs.antt =====
-- windows-server/src/application/volume_control.rs: sequences of calls.
use soundwave.Base.{
  ◌≡◌, refl, ap, ◌∙◌, arith, List, [], ◌∷◌, true, some, ℕ, Option, Bool, none, length, filter_by,
  find, is_some, ◌==◌, Bool-cases, inl, inr,
}
use soundwave.Server.Registry.{Controls, ReceiverSnapshot, snapshots}
use soundwave.Server.Registry.Step.{Reached, after}
use soundwave.Server.Profiles.{Library, Profile, current, nearest, participating}
use soundwave.Server.Volume.{Disk, Controller, matches_snapshot, devices_of}
use soundwave.Server.Volume.Calls.{
  run, and_then_call, Call, opens, closes, sets_master, remembers, starts_draft, edits, sets_draft,
  saves_draft, selects, deletes, sets_volume, ticks, finishes, operates, call, left,
}
use soundwave.Server.Volume.Steady.{Steady}
use soundwave.Server.Volume.SteadyRun.{call_keeps, run_keeps}
use soundwave.Server.Volume.Panics.{tick_total}
use soundwave.Protocol.Control.{DeviceStatus}
use soundwave.Server.Volume.Asking.{ask_volume, volume_at, set_profile_volume, set_volume}
use soundwave.Server.Volume.Editing.{drafted}
use soundwave.Server.Volume.Window.{Outcome, draft_chosen, set_master}

module _ (c : Controls) (disk : Disk) where
  -- The file is as it was, and the library in memory may not replace it.
  abbrev Untouched : Library → Controller c → Type 0
  Untouched file w = (w.file ≡ file) × (w.state.load_error ≡ true)

  Untouched-steady : (file : Library) → Steady c disk (Untouched file)
  Untouched-steady file = record {
    driving = λ o w h. h;
    noting = λ s w e h. (h.0, e ∙ h.1);
    storing = λ library s w readable saved e h. absurd (ground arith);
  }

  -- Where the controller has a load error, its library file being unreadable, no sequence of
  -- calls and of operations on the registry that runs to its end changes the file.
  pub unreadable_never_written :
      (os : List (Call c)) (w w' : Controller c)
      → w.state.load_error ≡ true
      → run c disk os w ≡ some w'
      → w'.file ≡ w.file
  unreadable_never_written os w w' unreadable e =
      (run_keeps c disk (Untouched w.file) (Untouched-steady w.file) os w w' (refl, unreadable) e).0

  Reached-steady : Steady c disk (λ w. Reached c w.registry)
  Reached-steady = record {
    driving = λ o w h. after o h;
    noting = λ s w e h. h;
    storing = λ library s w readable saved e h. h;
  }

  pub run-Reached :
      (os : List (Call c)) (w w' : Controller c)
      → Reached c w.registry
      → run c disk os w ≡ some w'
      → Reached c w'.registry
  run-Reached = run_keeps c disk (λ w. Reached c w.registry) Reached-steady

  left_total :
      (o : Option (Outcome c)) → is_some o ≡ true → (w' : Controller c) × (left c o ≡ some w')
  left_total none h = absurd (ground arith)
  left_total (some (w, result)) h = (w, refl)

  draft_chosen_total :
      (master : DeviceStatus) (w : Controller c) (old : Option Profile)
      → is_some (draft_chosen c w (drafted master old)) ≡ true
  draft_chosen_total master w none = refl
  draft_chosen_total master w (some old) = ground arith

  set_master_total :
      (master : DeviceStatus) (w : Controller c) → is_some (set_master c master w) ≡ true
  unfolding set_master
  set_master_total master w = ground (arith, draft_chosen_total master w w.state.draft)

  -- Exactly one receiver has the device of the master, so it is found.
  found_one :
      (q : ReceiverSnapshot c → Bool) (seen : List (ReceiverSnapshot c))
      → (length (filter_by q seen) == 1) ≡ true
      → is_some (find q seen) ≡ true
  found_one q [] h = absurd (ground arith)
  found_one q (r ∷ seen) h = ground (arith, found_one q seen)

  ask_volume_total :
      (now index : ℕ) (w : Controller c) (o : Option (ReceiverSnapshot c))
      → is_some o ≡ true
      → is_some (ask_volume c now w index o) ≡ true
  ask_volume_total now index w none h = h
  ask_volume_total now index w (some master) h = refl

  volume_at_total :
      (now : ℕ) (profile : Profile) (seen : List (ReceiverSnapshot c)) (w : Controller c)
      (o : Option ℕ)
      → is_some (find (matches_snapshot c profile.master) seen) ≡ true
      → is_some (volume_at c now profile seen w o) ≡ true
  volume_at_total now profile seen w none h = refl
  volume_at_total now profile seen w (some index) h =
      ask_volume_total now index w (find (matches_snapshot c profile.master) seen) h

  set_profile_volume_total :
      (now requested : ℕ) (w : Controller c) (o : Option Profile)
      → is_some (set_profile_volume c now requested w o) ≡ true
  set_profile_volume_total now requested w none = refl
  set_profile_volume_total now requested w (some profile) =
      let seen = snapshots c w.registry in
      elim (Bool-cases (length (filter_by (matches_snapshot c profile.master) seen) == 1)) [
        | inl one ↦ rw one (
            volume_at_total now profile seen w
              (nearest profile requested (participating (devices_of c seen) profile))
              (found_one (matches_snapshot c profile.master) seen one))
        | inr other ↦ rw other refl
      ]

  set_volume_total :
      (now requested : ℕ) (w : Controller c) → is_some (set_volume c now requested w) ≡ true
  unfolding set_volume
  set_volume_total now requested w =
      ground (arith, set_profile_volume_total now requested w (current w.state.library))

  call_total :
      (o : Call c) (w : Controller c)
      → Reached c w.registry
      → (w' : Controller c) × (call c disk o w ≡ some w')
  unfolding call
  call_total (ticks now) w h = tick_total c disk now w h
  call_total (opens gate) w h = (_, refl)
  call_total (closes now gate) w h = (_, refl)
  call_total (sets_master master) w h = left_total _ (set_master_total master w)
  call_total (remembers id device) w h = (_, refl)
  call_total starts_draft w h = (_, refl)
  call_total (edits change) w h = (_, refl)
  call_total (sets_draft draft) w h = (_, refl)
  call_total (saves_draft name copy) w h = (_, refl)
  call_total (selects id) w h = (_, refl)
  call_total (deletes id) w h = (_, refl)
  call_total (sets_volume now requested) w h = left_total _ (set_volume_total now requested w)
  call_total finishes w h = (_, refl)
  call_total (operates o) w h = (_, refl)

  -- Over a reachable registry every sequence of calls, with any operations on the registry in
  -- between, runs to its end: what the code unwraps or indexes is always there, which is the device
  -- and the point of each target of `tick`, the master that `set_volume` looks up again and the old
  -- draft of `set_master`.
  pub run_total :
      (os : List (Call c)) (w : Controller c)
      → Reached c w.registry
      → (w' : Controller c) × (run c disk os w ≡ some w')
  unfolding run
  run_total [] w h = (w, refl)
  run_total (o ∷ os) w h =
      let (w1, called) = call_total o w h in
      let (w', ran) =
        run_total os w1
          (call_keeps c disk (λ w. Reached c w.registry) Reached-steady o w w1 h called) in
      (w', ap (λ x. and_then_call c x (run c disk os)) called ∙ ran)
