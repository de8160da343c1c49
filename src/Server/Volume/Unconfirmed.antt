-- ===== src/Server/Volume/Unconfirmed.antt =====
-- windows-server/src/application/volume_control.rs: the library to write, around `set_volume`.
use soundwave.Base.{
  ◌∙◌, subst, ◌⊎◌, find, all, ℕ, ◌≡◌, refl, ap, arith, List, [], ◌∷◌, Bool, true, false, not,
  Option, none, some, length, filter_by, ◌==◌, if◌then◌else◌, Result, ok, err, Bool-cases, inl, inr,
}
use soundwave.Server.Registry.{Controls, Registry, RegistryError, ReceiverSnapshot, snapshots}
use soundwave.Server.Profiles.{Profile, Library, current, nearest, participating, is_active}
use soundwave.Server.Volume.{
  VolumeError, Disk, not_writable, write_failed, finish, Controller, persisted, with_confirmed,
  set_volume_of, matches_snapshot, devices_of, master_missing, is_editing,
}
use soundwave.Server.Volume.Asking.{
  volume_at, activate_volume, volume_asked, ask_volume, set_profile_volume, set_volume,
}
use soundwave.Server.Registry.Requests.{panel_volume_request}
use soundwave.Server.Registry.Step.{perform}
use soundwave.Server.Volume.Calls.{
  run, and_then_call, Call, opens, closes, sets_master, remembers, starts_draft, edits, sets_draft,
  saves_draft, selects, deletes, sets_volume, ticks, finishes, operates, call, left, finished,
}
use soundwave.Server.Volume.Settled.{and-left, and-right}

module _ (c : Controls) where
  activate-ignored :
      (id index v : ℕ) (ps : List Profile)
      → set_volume_of id v (activate_volume c (some id) index ps) ≡ set_volume_of id v ps
  unfolding set_volume_of activate_volume
  activate-ignored id index v [] = refl
  activate-ignored id index v (q ∷ ps) = elim (Bool-cases (q.id == id)) [
    | inl here ↦ ground arith
    | inr gone ↦ ground (arith, activate-ignored id index v ps)
  ]

  -- The active profile in the library as it may be written.
  pub find-set_volume_of :
      (id v : ℕ) (ps : List Profile) (p : Profile)
      → find (is_active (some id)) ps ≡ some p
      → find (is_active (some id)) (set_volume_of id v ps) ≡ some (record p { volume = v })
  unfolding set_volume_of
  find-set_volume_of id v [] p h = absurd (ground arith)
  find-set_volume_of id v (q ∷ ps) p h = elim (Bool-cases (q.id == id)) [
    | inl here ↦ ground arith
    | inr gone ↦ ground (arith, find-set_volume_of id v ps p (ground arith))
  ]

  pub current-persisted :
      (w : Controller c) (profile : Profile) (id v : ℕ)
      → w.state.library.active ≡ some id
      → w.state.confirmed ≡ some (id, v)
      → current w.state.library ≡ some profile
      → current (persisted w.state) ≡ some (record profile { volume = v })
  unfolding persisted current
  current-persisted w profile id v a e h =
      rw (e, a)
        (find-set_volume_of id v w.state.library.profiles profile (
          subst (λ (o : Option ℕ). find (is_active o) w.state.library.profiles ≡ some profile) a h))

  rewritten :
      (id index v : ℕ) (confirmed : Option (ℕ × ℕ)) (library : Library)
      → library.active ≡ some id
      → confirmed ≡ some (id, v)
      → with_confirmed confirmed
          (record library { profiles = activate_volume c library.active index library.profiles })
        ≡ with_confirmed confirmed library
  rewritten id index v confirmed library a e =
      rw (e, a)
        (ap (λ (ps : List Profile). record library { active = some id; profiles = ps })
          (activate-ignored id index v library.profiles))

  -- The calls in question; the others are those of the calibration window, of the selection of a
  -- profile and of the worker.
  abbrev pub is_asking : Call c → Bool
  is_asking (sets_volume now requested) = true
  is_asking finishes = true
  is_asking (operates o) = true
  is_asking _ = false

  module _ (disk : Disk) (id v : ℕ) (before to_write : Library) where
    -- The volume `v` of the active profile is the confirmed one, the library that would be written is
    -- `to_write`, and the file holds that or what it held before.
    pub record Waits (w : Controller c) : Type 0 where
      pub active : w.state.library.active ≡ some id
      pub confirmed : w.state.confirmed ≡ some (id, v)
      pub writes : persisted w.state ≡ to_write
      pub file : (w.file ≡ before) ⊎ (w.file ≡ to_write)

    volume_asked-Waits :
        (now master index : ℕ) (w : Controller c) (x : Registry c × Result ℕ RegistryError)
        → Waits w
        → Waits (volume_asked c now master index w x).0
    unfolding persisted
    volume_asked-Waits now master index w (g, err e) h = record {
      active = h.active;
      confirmed = h.confirmed;
      writes = h.writes;
      file = h.file;
    }
    volume_asked-Waits now master index w (g, ok request) h = record {
      active = h.active;
      confirmed = h.confirmed;
      writes =
          rewritten id index v w.state.confirmed w.state.library h.active h.confirmed ∙ h.writes;
      file = h.file;
    }

    abbrev LeavesWaiting : Option (Controller c × Result (Unit {0}) VolumeError) → Type 0
    LeavesWaiting none = Unit
    LeavesWaiting (some (w, result)) = Waits w

    leaves_by :
        (x : Controller c × Result (Unit {0}) VolumeError) → Waits x.0 → LeavesWaiting (some x)
    leaves_by (w, result) h = h

    if-Waits :
        (b : Bool) (x y : Option (Controller c × Result (Unit {0}) VolumeError))
        → LeavesWaiting x
        → LeavesWaiting y
        → LeavesWaiting (if b then x else y)
    if-Waits true x y h k = h
    if-Waits false x y h k = k

    ask_volume-Waits :
        (now index : ℕ) (w : Controller c) (o : Option (ReceiverSnapshot c))
        → Waits w
        → LeavesWaiting (ask_volume c now w index o)
    ask_volume-Waits now index w none h = tt
    ask_volume-Waits now index w (some master) h =
        let x = panel_volume_request c master.id index w.registry in
        leaves_by (volume_asked c now master.id index w x)
          (volume_asked-Waits now master.id index w x h)

    volume_at-Waits :
        (now : ℕ) (profile : Profile) (seen : List (ReceiverSnapshot c)) (w : Controller c)
        (o : Option ℕ)
        → Waits w
        → LeavesWaiting (volume_at c now profile seen w o)
    volume_at-Waits now profile seen w none h = h
    volume_at-Waits now profile seen w (some index) h =
        ask_volume-Waits now index w (find (matches_snapshot c profile.master) seen) h

    set_profile_volume-Waits :
        (now requested : ℕ) (w : Controller c) (o : Option Profile)
        → Waits w
        → LeavesWaiting (set_profile_volume c now requested w o)
    set_profile_volume-Waits now requested w none h = h
    set_profile_volume-Waits now requested w (some profile) h =
        let seen = snapshots c w.registry in
        let o = nearest profile requested (participating (devices_of c seen) profile) in
        if-Waits (not (length (filter_by (matches_snapshot c profile.master) seen) == 1))
          (some (w, err master_missing)) (volume_at c now profile seen w o) h
          (volume_at-Waits now profile seen w o h)

    set_volume-Waits :
        (now requested : ℕ) (w : Controller c)
        → Waits w
        → LeavesWaiting (set_volume c now requested w)
    unfolding set_volume
    set_volume-Waits now requested w h =
        if-Waits w.state.editing (some (w, err is_editing))
          (set_profile_volume c now requested w (current w.state.library)) h
          (set_profile_volume-Waits now requested w (current w.state.library) h)

    finished-Waits :
        (dirty unreadable saved : Bool) (w : Controller c)
        → Waits w
        → Waits (
            finished c w (
              if not dirty
              then ok w
              else if unreadable
              then err not_writable
              else if saved
              then ok
                  (record w { file = persisted w.state; state = record w.state { dirty = false } })
              else err write_failed))
    unfolding persisted
    finished-Waits false unreadable saved w h = h
    finished-Waits true true saved w h = h
    finished-Waits true false true w h = record {
      active = h.active;
      confirmed = h.confirmed;
      writes = h.writes;
      file = inr h.writes;
    }
    finished-Waits true false false w h = h

    left-Waits :
        (o : Option (Controller c × Result (Unit {0}) VolumeError)) (w' : Controller c)
        → LeavesWaiting o
        → left c o ≡ some w'
        → Waits w'
    left-Waits none w' h e = absurd (ground arith)
    left-Waits (some (w, result)) w' h e = subst Waits (ground arith) h

    some-Waits : (w w' : Controller c) → Waits w → some w ≡ some w' → Waits w'
    some-Waits w w' h e = subst Waits (ground arith) h

    call-Waits :
        (o : Call c) (w w' : Controller c)
        → is_asking o ≡ true
        → Waits w
        → call c disk o w ≡ some w'
        → Waits w'
    unfolding call finish
    call-Waits (sets_volume now requested) w w' a h e =
        left-Waits (set_volume c now requested w) w' (set_volume-Waits now requested w h) e
    call-Waits finishes w w' a h e =
        some-Waits _ w'
          (finished-Waits w.state.dirty w.state.load_error (disk.save (persisted w.state)) w h) e
    call-Waits (operates o) w w' a h e =
        some-Waits (record w { registry = perform c o w.registry }) w'
          (record { active = h.active; confirmed = h.confirmed; writes = h.writes; file = h.file })
          e
    call-Waits (opens gate) w w' a h e = absurd (ground arith)
    call-Waits (closes now gate) w w' a h e = absurd (ground arith)
    call-Waits (sets_master master) w w' a h e = absurd (ground arith)
    call-Waits (remembers i device) w w' a h e = absurd (ground arith)
    call-Waits starts_draft w w' a h e = absurd (ground arith)
    call-Waits (edits change) w w' a h e = absurd (ground arith)
    call-Waits (sets_draft draft) w w' a h e = absurd (ground arith)
    call-Waits (saves_draft name copy) w w' a h e = absurd (ground arith)
    call-Waits (selects i) w w' a h e = absurd (ground arith)
    call-Waits (deletes i) w w' a h e = absurd (ground arith)
    call-Waits (ticks now) w w' a h e = absurd (ground arith)

    next-Waits :
        (os : List (Call c)) (o : Option (Controller c)) (w' : Controller c)
        → ((w : Controller c) → o ≡ some w → Waits w)
        → ((w : Controller c) → Waits w → run c disk os w ≡ some w' → Waits w')
        → and_then_call c o (run c disk os) ≡ some w'
        → Waits w'
    next-Waits os none w' h k e = absurd (ground arith)
    next-Waits os (some w) w' h k e = k w (h w refl) e

    pub run-Waits :
        (os : List (Call c)) (w w' : Controller c)
        → all is_asking os ≡ true
        → Waits w
        → run c disk os w ≡ some w'
        → Waits w'
    unfolding run
    run-Waits [] w w' a h e = some-Waits w w' h e
    run-Waits (o ∷ os) w w' a h e =
        next-Waits os (call c disk o w) w'
          (λ w1 e1. call-Waits o w w1 (and-left (is_asking o) (all is_asking os) a) h e1)
          (λ w1 h1 e1. run-Waits os w1 w' (and-right (is_asking o) (all is_asking os) a) h1 e1) e
