-- ===== src/Server/Volume/SteadyRun.antt =====
-- windows-server/src/application/volume_control.rs: such a property through the calls that write
-- and through sequences of calls.
use soundwave.Base.{
  find, ℕ, ◌≡◌, refl, subst, arith, List, [], ◌∷◌, Bool, true, false, not, Option, none, some, any,
  filter_by, ◌==◌, if◌then◌else◌, Result, ok, err, Bool-cases, inl, inr, length,
}
use soundwave.Server.Registry.{Controls, Registry, RegistryError, ReceiverSnapshot, snapshots}
use soundwave.Server.Registry.Requests.{panel_volume_request}
use soundwave.Server.Profiles.{Profile, Library, current, participating, nearest}
use soundwave.Server.Volume.{
  State, Disk, Controller, persisted, matches_snapshot, devices_of, VolumeError, master_missing,
  is_editing, still_pending, no_profile, not_open, not_writable, write_failed, finish,
}
use soundwave.Server.Volume.Asking.{
  denied, volume_asked, ask_volume, volume_at, set_profile_volume, set_volume,
}
use soundwave.Server.Volume.Editing.{prepared, without_profile}
use soundwave.Server.Volume.Window.{
  Outcome, saved_draft, save_draft, select_library, select, delete_library, delete, set_master,
}
use soundwave.Server.Volume.Calls.{
  left, run, and_then_call, Call, opens, closes, sets_master, remembers, starts_draft, edits,
  sets_draft, saves_draft, selects, deletes, sets_volume, ticks, finishes, operates, finished, call,
}
use soundwave.Server.Volume.Steady.{Steady, denied-P, requested-P}
use soundwave.Server.Volume.SteadyTick.{tick_keeps}
use soundwave.Server.Volume.SteadyWindow.{
  Leaves, if-Leaves, if_fst-P, close-P, open-P, set_master-P, remember-P, new_draft-P, edit-P,
  set_draft-P,
}

module _ (c : Controls) (disk : Disk) (P : Controller c → Type 0) (steady : Steady c disk P) where
  asked_volume-P :
      (now master index : ℕ) (w : Controller c) (x : Registry c × Result ℕ RegistryError)
      → P (record w { registry = x.0 })
      → P (volume_asked c now master index w x).0
  asked_volume-P now master index w (g, err e) h = h
  asked_volume-P now master index w (g, ok request) h =
      steady.noting _ (denied c (record w { registry = g })) refl
        (denied-P c disk P steady (record w { registry = g }) h)

  left_by : (x : Outcome c) → P x.0 → Leaves c disk P steady (some x)
  left_by (w, result) h = h

  ask_volume-P :
      (now index : ℕ) (w : Controller c) (o : Option (ReceiverSnapshot c))
      → P w
      → Leaves c disk P steady (ask_volume c now w index o)
  ask_volume-P now index w none h = tt
  ask_volume-P now index w (some master) h =
      left_by
        (volume_asked c now master.id index w (panel_volume_request c master.id index w.registry))
        (asked_volume-P now master.id index w (panel_volume_request c master.id index w.registry)
          (requested-P c disk P steady master.id index true w h))

  volume_at-P :
      (now : ℕ) (profile : Profile) (seen : List (ReceiverSnapshot c)) (w : Controller c)
      (o : Option ℕ)
      → P w
      → Leaves c disk P steady (volume_at c now profile seen w o)
  volume_at-P now profile seen w none h = h
  volume_at-P now profile seen w (some index) h =
      ask_volume-P now index w (find (matches_snapshot c profile.master) seen) h

  set_profile_volume-P :
      (now requested : ℕ) (w : Controller c) (o : Option Profile)
      → P w
      → Leaves c disk P steady (set_profile_volume c now requested w o)
  set_profile_volume-P now requested w none h = h
  set_profile_volume-P now requested w (some profile) h =
      let seen = snapshots c w.registry in
      let o = nearest profile requested (participating (devices_of c seen) profile) in
      if-Leaves c disk P steady
        (not (length (filter_by (matches_snapshot c profile.master) seen) == 1))
        (some (w, err master_missing)) (volume_at c now profile seen w o) h
        (volume_at-P now profile seen w o h)

  set_volume-P :
      (now requested : ℕ) (w : Controller c)
      → P w
      → Leaves c disk P steady (set_volume c now requested w)
  unfolding set_volume
  set_volume-P now requested w h =
      if-Leaves c disk P steady w.state.editing (some (w, err is_editing))
        (set_profile_volume c now requested w (current w.state.library)) h
        (set_profile_volume-P now requested w (current w.state.library) h)

  left_keeps :
      (o : Option (Outcome c)) (w' : Controller c)
      → Leaves c disk P steady o
      → left c o ≡ some w'
      → P w'
  left_keeps none w' h e = absurd (ground arith)
  left_keeps (some (w, result)) w' h e = subst P (ground arith) h

  -- The three ways to write a library.
  saved_draft-P :
      (w : Controller c) (o : Result (Library × Profile) VolumeError)
      → ((x : Library × Profile) → o ≡ ok x → w.state.load_error ≡ false)
      → P w
      → P (saved_draft c disk w o).0
  saved_draft-P w (err e) k h = h
  saved_draft-P w (ok (library, draft)) k h = elim (Bool-cases (disk.save library)) [
    | inl saved ↦ rw saved (steady.storing library _ w (k (library, draft) refl) saved refl h)
    | inr failed ↦ rw failed h
  ]

  prepared-writable :
      (name : List ℕ) (copy : Bool) (s : State) (x : Library × Profile)
      → prepared name copy s ≡ ok x
      → s.load_error ≡ false
  unfolding prepared
  prepared-writable name copy s x e = elim (Bool-cases s.load_error) [
    | inl unreadable ↦ absurd (ground (arith, unreadable))
    | inr readable ↦ readable
  ]

  save_draft-P :
      (name : List ℕ) (copy : Bool) (w : Controller c) → P w → P (save_draft c disk name copy w).0
  unfolding save_draft
  save_draft-P name copy w h =
      saved_draft-P w (prepared name copy w.state) (prepared-writable name copy w.state) h

  select_library-P :
      (library : Library) (w : Controller c)
      → w.state.load_error ≡ false
      → P w
      → P (select_library c disk library w).0
  select_library-P library w readable h = elim (Bool-cases (disk.save library)) [
    | inl saved ↦
        rw saved
          (steady.storing library _ (denied c w) readable saved refl (denied-P c disk P steady w h))
    | inr failed ↦ rw failed h
  ]

  delete_library-P :
      (library : Library) (w : Controller c)
      → w.state.load_error ≡ false
      → P w
      → P (delete_library c disk library w).0
  delete_library-P library w readable h = elim (Bool-cases (disk.save library)) [
    | inl saved ↦ rw saved (steady.storing library _ w readable saved refl h)
    | inr failed ↦ rw failed h
  ]

  -- A call that is refused where the library could not be read.
  if_writable-P :
      (unreadable : Bool) (w : Controller c) (x : Outcome c)
      → P w
      → (unreadable ≡ false → P x.0)
      → P (if unreadable then (w, err not_writable) else x).0
  if_writable-P true w x h k = h
  if_writable-P false w x h k = k refl

  select-P : (id : ℕ) (w : Controller c) → P w → P (select c disk id w).0
  unfolding select
  select-P id w h =
      let s : State = record w.state { draft = find (λ p. p.id == id) w.state.library.profiles } in
      let library : Library = record (persisted w.state) { active = some id } in
      let write : Outcome c =
        if w.state.load_error then (w, err not_writable) else select_library c disk library w in
      let choose : Outcome c = if w.state.editing then (record w { state = s }, ok tt) else write in
      let known = any (λ p. p.id == id) w.state.library.profiles in
      if_fst-P c disk P steady (not (length w.state.pending == 0)) (w, err still_pending)
        (if not known then (w, err no_profile) else choose) h
        (if_fst-P c disk P steady (not known) (w, err no_profile) choose h
          (if_fst-P c disk P steady w.state.editing (record w { state = s }, ok tt) write
            (steady.noting s w refl h)
            (if_writable-P w.state.load_error w (select_library c disk library w) h
              (λ readable. select_library-P library w readable h))))

  delete-P : (id : ℕ) (w : Controller c) → P w → P (delete c disk id w).0
  unfolding delete
  delete-P id w h =
      let library = without_profile id (persisted w.state) in
      let write : Outcome c =
        if w.state.load_error then (w, err not_writable) else delete_library c disk library w in
      if_fst-P c disk P steady (not w.state.editing) (w, err not_open) write h
        (if_writable-P w.state.load_error w (delete_library c disk library w) h
          (λ readable. delete_library-P library w readable h))

  finished-P :
      (dirty unreadable saved : Bool) (w written : Controller c)
      → P w
      → (unreadable ≡ false → saved ≡ true → P written)
      → P (
          finished c w (
            if not dirty
            then ok w
            else if unreadable
            then err not_writable
            else if saved
            then ok written
            else err write_failed))
  finished-P false unreadable saved w written h k = h
  finished-P true true saved w written h k = h
  finished-P true false true w written h k = k refl refl
  finished-P true false false w written h k = h

  finish-P : (w : Controller c) → P w → P (finished c w (finish c disk w))
  unfolding finish
  finish-P w h =
      let s : State = record w.state { dirty = false } in
      let written : Controller c = record w { file = persisted w.state; state = s } in
      finished-P w.state.dirty w.state.load_error (disk.save (persisted w.state)) w written h
        (λ readable saved. steady.storing (persisted w.state) s w readable saved refl h)

  some_is : (w w' : Controller c) → P w → some w ≡ some w' → P w'
  some_is w w' h e = subst P (ground arith) h

  pub call_keeps : (o : Call c) (w w' : Controller c) → P w → call c disk o w ≡ some w' → P w'
  unfolding call
  call_keeps (opens gate) w w' h e = some_is _ w' (open-P c disk P steady gate w h) e
  call_keeps (closes now gate) w w' h e = some_is _ w' (close-P c disk P steady now gate w h) e
  call_keeps (sets_master master) w w' h e =
      left_keeps (set_master c master w) w' (set_master-P c disk P steady master w h) e
  call_keeps (remembers id device) w w' h e =
      some_is _ w' (remember-P c disk P steady id device w h) e
  call_keeps starts_draft w w' h e = some_is _ w' (new_draft-P c disk P steady w h) e
  call_keeps (edits change) w w' h e = some_is _ w' (edit-P c disk P steady change w h) e
  call_keeps (sets_draft draft) w w' h e = some_is _ w' (set_draft-P c disk P steady draft w h) e
  call_keeps (saves_draft name copy) w w' h e = some_is _ w' (save_draft-P name copy w h) e
  call_keeps (selects id) w w' h e = some_is _ w' (select-P id w h) e
  call_keeps (deletes id) w w' h e = some_is _ w' (delete-P id w h) e
  call_keeps (sets_volume now requested) w w' h e =
      left_keeps (set_volume c now requested w) w' (set_volume-P now requested w h) e
  call_keeps (ticks now) w w' h e = tick_keeps c disk P steady now w w' h e
  call_keeps finishes w w' h e = some_is _ w' (finish-P w h) e
  call_keeps (operates o) w w' h e = some_is _ w' (steady.driving o w h) e

  next_keeps :
      (os : List (Call c)) (o : Option (Controller c)) (w' : Controller c)
      → ((w : Controller c) → o ≡ some w → P w)
      → ((w : Controller c) → P w → run c disk os w ≡ some w' → P w')
      → and_then_call c o (run c disk os) ≡ some w'
      → P w'
  next_keeps os none w' h k e = absurd (ground arith)
  next_keeps os (some w) w' h k e = k w (h w refl) e

  pub run_keeps :
      (os : List (Call c)) (w w' : Controller c) → P w → run c disk os w ≡ some w' → P w'
  unfolding run
  run_keeps [] w w' h e = some_is w w' h e
  run_keeps (o ∷ os) w w' h e =
      next_keeps os (call c disk o w) w' (λ w1 e1. call_keeps o w w1 h e1)
        (λ w1 h1 e1. run_keeps os w1 w' h1 e1) e
