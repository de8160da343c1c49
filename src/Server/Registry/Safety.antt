-- ===== src/Server/Registry/Safety.antt =====
-- Which receivers may play.
use soundwave.Base.{
  ℕ, ◌≡◌, refl, arith, List, [], ◌∷◌, Bool, true, false, not, ◌&&◌, ◌||◌, Option, none, some, any,
  all, ◌==◌,
}
use soundwave.Base.BTreeMap
use soundwave.Base.BTreeMap.{BTreeMap}
use soundwave.Base.Text.{text_eq→eq}
use soundwave.Protocol.Control.{DeviceStatus}
use soundwave.Server.Registry.{
  Controls, Receiver, Registry, is_some_and, is_ready, matches_approval, for_each, approve,
}
use soundwave.Server.Registry.Requests.{note_request}
use soundwave.Server.Registry.Device.{observe, store, sanitized, unchanged}
use soundwave.Server.Registry.Step.{
  Operation, approves, Holds, Everywhere, Stable, Reached, at_start, after, perform,
}
use soundwave.Server.Registry.Everywhere.{perform-Everywhere, Permitted, Everywhere-get}
use soundwave.Server.Registry.Approval.{
  is_usable, as_expected, Found, entries-Found, ready-as_expected, as_expected-is_usable,
}

module _ (c : Controls) where
  pub updated_playback :
      (status : DeviceStatus) (r : Receiver c)
      → (store c status (observe c status r)).playback
        ≡ (is_some_and r.device (λ old. unchanged old status) && r.playback)
  unfolding store observe
  updated_playback status r = ground arith

  unchanged-is_usable :
      (old status : DeviceStatus) → unchanged old status ≡ true → is_usable old ≡ is_usable status
  unchanged-is_usable old status h = ground arith

  unchanged-matches_approval :
      (e old status : DeviceStatus)
      → unchanged old status ≡ true
      → matches_approval e old ≡ true
      → matches_approval e status ≡ true
  unchanged-matches_approval e old status h m =
      ground (arith, text_eq→eq old.device_id status.device_id)

  -- A receiver that plays has a device that may.
  abbrev Usable : ℕ → Receiver c → Type 0
  Usable id r = (r.playback && not (is_some_and r.device is_usable)) ≡ false

  updated_usable :
      (status : DeviceStatus) (old : Option DeviceStatus) (playing : Bool)
      → (playing && not (is_some_and old is_usable)) ≡ false
      → (is_some_and old (λ old. unchanged old status) && (playing && not (is_usable status)))
        ≡ false
  updated_usable status none playing h = refl
  updated_usable status (some old) playing h = ground (arith, unchanged-is_usable old status)

  updates-Usable :
      (id : ℕ) (status : DeviceStatus) (r : Receiver c)
      → Usable id r
      → Usable id (store c status (observe c status r))
  unfolding store
  updates-Usable id status r h =
      ground (arith, updated_playback status r, updated_usable status r.device r.playback h)

  usable_stable : Stable c (λ id r. is_some_and r.device is_usable ≡ true) Usable
  usable_stable = record {
    joins = λ id peer s. refl;
    sending = λ id s r h. h;
    denied = λ id r h. refl;
    allowed = λ id r h a. ground arith;
    noting = λ id request_id barrier s r h. ground arith;
    toned = λ id request_id state r h. h;
    tone_taken = λ id request_id r h. h;
    reply_taken = λ id request_id r h. h;
    volume_taken = λ id r h. h;
    updated = λ id status r h fine. updates-Usable id (sanitized status) r h;
  }

  permits_usable :
      (expected : List (ℕ × DeviceStatus)) (g : Registry c) (m : BTreeMap (Receiver c))
      → Holds c (Found c g.receivers) m
      → Holds c
          (λ id r.
            (all (is_ready c g) expected && any (λ e. e.0 == id) expected) ≡ true
            → is_some_and r.device is_usable ≡ true)
          m
  permits_usable expected g [] h = tt
  permits_usable expected g ((id, r) ∷ m) h = (
    (λ e.
        as_expected-is_usable c expected id r.device
          (ready-as_expected c expected g id r h.0 (ground arith) (ground arith))),
    permits_usable expected g m h.1,
  )

  Permitted-usable :
      (o : Operation c) (g : Registry c)
      → BTreeMap.IsAscending g.receivers
      → Permitted c (λ id r. is_some_and r.device is_usable ≡ true) Usable usable_stable o g
  Permitted-usable (approves expected) g a =
      permits_usable expected g g.receivers (entries-Found c g.receivers a)
  Permitted-usable _ g a = tt

  Reached-Usable : (g : Registry c) → Reached c g → Everywhere c Usable g.receivers
  Reached-Usable _ at_start = (tt, tt)
  Reached-Usable _ (after {g} o h) =
      let before = Reached-Usable g h in
      perform-Everywhere c (λ id r. is_some_and r.device is_usable ≡ true) Usable usable_stable o g
        before (Permitted-usable o g before.0)

  pub Reached-IsAscending : (g : Registry c) → Reached c g → BTreeMap.IsAscending g.receivers
  Reached-IsAscending g h = (Reached-Usable g h).0

  pub playing_unusable :
      (id : ℕ) (r : Receiver c)
      → Usable id r
      → r.playback ≡ true
      → is_some_and r.device is_usable ≡ true
  playing_unusable id r h p = ground arith

  usable_fields :
      (d : Option DeviceStatus)
      → is_some_and d is_usable ≡ true
      → (status : DeviceStatus) × (d ≡ some status)
        × (status.speaker ≡ true)
        × (status.fixed ≡ false)
        × (status.failed ≡ false)
  usable_fields none h = absurd (ground arith)
  usable_fields (some status) h = (status, refl, ground arith, ground arith, ground arith)

  -- A receiver of a reachable registry that plays has reported a device, and the last status that
  -- was stored of it is that of a speaker that is neither fixed nor failed.
  pub playing_has_speaker :
      (g : Registry c) (id : ℕ) (r : Receiver c)
      → Reached c g
      → BTreeMap.get id g.receivers ≡ some r
      → r.playback ≡ true
      → (status : DeviceStatus) × (r.device ≡ some status)
        × (status.speaker ≡ true)
        × (status.fixed ≡ false)
        × (status.failed ≡ false)
  playing_has_speaker g id r h e p =
      usable_fields r.device
        (playing_unusable id r (Everywhere-get c Usable id r g.receivers (Reached-Usable g h) e) p)

  abbrev pub perform_all : List (Operation c) → Registry c → Registry c
  perform_all [] g = g
  perform_all (o ∷ os) g = perform_all os (perform c o g)

  abbrev pub is_approves : Operation c → Bool
  is_approves (approves expected) = true
  is_approves _ = false

  -- A receiver that plays reports what was expected of it.
  abbrev AsExpected : List (ℕ × DeviceStatus) → ℕ → Receiver c → Type 0
  AsExpected expected id r = (r.playback && not (as_expected expected id r.device)) ≡ false

  either_as_expected :
      (here m m' rest rest' : Bool)
      → (rest ≡ true → rest' ≡ true)
      → (m ≡ true → m' ≡ true)
      → ((here && m) || rest) ≡ true
      → ((here && m') || rest') ≡ true
  either_as_expected here m m' rest rest' f g h = ground arith

  chained :
      (u playing x y : Bool)
      → (playing && not x) ≡ false
      → (u ≡ true → x ≡ true → y ≡ true)
      → ((u && playing) && not y) ≡ false
  chained u playing x y h f = ground arith

  unchanged-as_expected :
      (expected : List (ℕ × DeviceStatus)) (id : ℕ) (old status : DeviceStatus)
      → unchanged old status ≡ true
      → as_expected expected id (some old) ≡ true
      → as_expected expected id (some status) ≡ true
  unchanged-as_expected [] id old status u h = absurd (ground arith)
  unchanged-as_expected ((i, e) ∷ es) id old status u h =
      either_as_expected (i == id) (matches_approval e old) (matches_approval e status)
        (as_expected es id (some old)) (as_expected es id (some status))
        (unchanged-as_expected es id old status u) (unchanged-matches_approval e old status u) h

  updated_as_expected :
      (expected : List (ℕ × DeviceStatus)) (id : ℕ) (status : DeviceStatus)
      (old : Option DeviceStatus) (playing : Bool)
      → (playing && not (as_expected expected id old)) ≡ false
      → ((is_some_and old (λ old. unchanged old status) && playing)
          && not (as_expected expected id (some status)))
        ≡ false
  updated_as_expected expected id status none playing h = refl
  updated_as_expected expected id status (some old) playing h =
      chained (unchanged old status) playing (as_expected expected id (some old))
        (as_expected expected id (some status)) h (unchanged-as_expected expected id old status)

  notes-AsExpected :
      (expected : List (ℕ × DeviceStatus)) (id request_id : ℕ) (barrier : Bool) (s : c.Sender)
      (r : Receiver c)
      → AsExpected expected id r
      → AsExpected expected id (note_request c request_id barrier s r)
  notes-AsExpected expected id request_id true s r h = h
  notes-AsExpected expected id request_id false s r h = h

  updates-AsExpected :
      (expected : List (ℕ × DeviceStatus)) (id : ℕ) (status : DeviceStatus) (r : Receiver c)
      → AsExpected expected id r
      → AsExpected expected id (store c status (observe c status r))
  unfolding store
  updates-AsExpected expected id status r h =
      rw (updated_playback status r) (updated_as_expected expected id status r.device r.playback h)

  as_expected_stable :
      (expected : List (ℕ × DeviceStatus)) → Stable c (λ id r. true ≡ false) (AsExpected expected)
  as_expected_stable expected = record {
    joins = λ id peer s. refl;
    sending = λ id s r h. h;
    denied = λ id r h. refl;
    allowed = λ id r h a. absurd (ground arith);
    noting = λ id request_id barrier s r h. notes-AsExpected expected id request_id barrier s r h;
    toned = λ id request_id state r h. h;
    tone_taken = λ id request_id r h. h;
    reply_taken = λ id request_id r h. h;
    volume_taken = λ id r h. h;
    updated = λ id status r h fine. updates-AsExpected expected id (sanitized status) r h;
  }

  approved-AsExpected :
      (expected : List (ℕ × DeviceStatus)) (g : Registry c) (id : ℕ) (r : Receiver c)
      → Found c g.receivers id r
      → ((all (is_ready c g) expected && any (λ e. e.0 == id) expected)
          && not (as_expected expected id r.device))
        ≡ false
  approved-AsExpected expected g id r f = ground (arith, ready-as_expected c expected g id r f)

  approve-AsExpected :
      (expected : List (ℕ × DeviceStatus)) (g : Registry c) (m : BTreeMap (Receiver c))
      → Holds c (Found c g.receivers) m
      → Holds c (AsExpected expected) (
          for_each c
            (λ id r. record r {
              playback = all (is_ready c g) expected && any (λ e. e.0 == id) expected;
            })
            m)
  approve-AsExpected expected g [] h = tt
  approve-AsExpected expected g ((id, r) ∷ m) h =
      (approved-AsExpected expected g id r h.0, approve-AsExpected expected g m h.1)

  not-Permitted :
      (expected : List (ℕ × DeviceStatus)) (o : Operation c) (g : Registry c)
      → is_approves o ≡ false
      → Permitted c (λ id r. true ≡ false) (AsExpected expected) (as_expected_stable expected) o g
  not-Permitted expected (approves expected') g h = absurd (ground arith)
  not-Permitted expected _ g h = tt

  perform_all-AsExpected :
      (expected : List (ℕ × DeviceStatus)) (os : List (Operation c)) (g : Registry c)
      → any is_approves os ≡ false
      → Everywhere c (AsExpected expected) g.receivers
      → Everywhere c (AsExpected expected) (perform_all os g).receivers
  perform_all-AsExpected expected [] g n h = h
  perform_all-AsExpected expected (o ∷ os) g n h =
      perform_all-AsExpected expected os (perform c o g) (ground arith) (
        perform-Everywhere c (λ id r. true ≡ false) (AsExpected expected)
          (as_expected_stable expected) o g h (not-Permitted expected o g (ground arith)))

  perform-IsAscending :
      (o : Operation c) (g : Registry c)
      → Reached c g
      → BTreeMap.IsAscending (perform c o g).receivers
  perform-IsAscending o g h = (Reached-Usable (perform c o g) (after o h)).0

  approve-Everywhere :
      (expected : List (ℕ × DeviceStatus)) (g : Registry c)
      → Reached c g
      → Everywhere c (AsExpected expected) (perform c (approves expected) g).receivers
  unfolding perform approve
  approve-Everywhere expected g h = (
    perform-IsAscending (approves expected) g h,
    approve-AsExpected expected g g.receivers (entries-Found c g.receivers (Reached-Usable g h).0),
  )

  playing-as_expected :
      (expected : List (ℕ × DeviceStatus)) (id : ℕ) (r : Receiver c)
      → AsExpected expected id r
      → r.playback ≡ true
      → as_expected expected id r.device ≡ true
  playing-as_expected expected id r h p = ground arith

  -- After `approve expected` on a reachable registry and any operations other than `approve`, a
  -- receiver that plays is one of those listed in `expected`, and its last stored status still has
  -- the identifier, the range and the volume listed there, on a speaker neither fixed nor failed.
  pub plays_only_as_approved :
      (expected : List (ℕ × DeviceStatus)) (os : List (Operation c)) (g : Registry c) (id : ℕ)
      (r : Receiver c)
      → Reached c g
      → any is_approves os ≡ false
      → BTreeMap.get id (perform_all os (perform c (approves expected) g)).receivers ≡ some r
      → r.playback ≡ true
      → as_expected expected id r.device ≡ true
  plays_only_as_approved expected os g id r h n e p =
      playing-as_expected expected id r
        (Everywhere-get c (AsExpected expected) id r _
          (perform_all-AsExpected expected os (perform c (approves expected) g) n
            (approve-Everywhere expected g h))
          e)
        p
