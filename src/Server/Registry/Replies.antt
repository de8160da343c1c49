-- ===== src/Server/Registry/Replies.antt =====
-- What the registry remembers of requests and replies.
use soundwave.Base.{
  ℕ, ◌≡◌, ◌≢◌, arith, [], ◌∷◌, Bool, true, false, ◌&&◌, some, ◌==◌, ◌≤◌, ◌<◌, ==_refl, length, all,
  any, ne→==,
}
use soundwave.Base.BTreeMap
use soundwave.Base.BTreeMap.{BTreeMap}
use soundwave.Base.BTreeMap.Laws.{get-insert, length-insert-le, length-remove-le}
use soundwave.Protocol.Control.{DeviceStatus}
use soundwave.Server.Registry.{Controls, Receiver, Registry, is_ready, modify}
use soundwave.Server.Registry.Requests.{note_request, make_room}
use soundwave.Server.Registry.Device.{
  observe, store, sanitized, is_malformed, update_device, take_reply,
}
use soundwave.Server.Registry.Step.{
  Operation, approves, Holds, Everywhere, Stable, Reached, at_start, after,
}
use soundwave.Server.Registry.Everywhere.{perform-Everywhere, Permitted, Everywhere-get}

length-make_room {ℓ} : {V : Type ℓ} (m : BTreeMap V) → length m ≤ 32 → length (make_room m) < 32
length-make_room [] h = omega arith
length-make_room (e ∷ m) h = ground arith

length-insert_room {ℓ} :
    {V : Type ℓ} (k : ℕ) (v : V) (m : BTreeMap V)
    → length m ≤ 32
    → length (BTreeMap.insert k v (make_room m)) ≤ 32
length-insert_room k v m h = omega (arith, length-insert-le k v (make_room m), length-make_room m h)

module _ (c : Controls) where
  -- At most 32 entries of each kind.
  abbrev pub Bounded : ℕ → Receiver c → Type 0
  Bounded id r =
      (length r.replies ≤ 32) × (length r.tone_replies ≤ 32) × (length r.volume_requests ≤ 32)

  notes-Bounded :
      (id request_id : ℕ) (barrier : Bool) (s : c.Sender) (r : Receiver c)
      → Bounded id r
      → Bounded id (note_request c request_id barrier s r)
  notes-Bounded id request_id true s r h =
      (h.0, h.1, length-insert_room request_id tt r.volume_requests h.2)
  notes-Bounded id request_id false s r h =
      (h.0, h.1, length-insert_room request_id tt r.volume_requests h.2)

  observe-Bounded :
      (status : DeviceStatus) (r : Receiver c) → Bounded 0 r → Bounded 0 (observe c status r)
  unfolding observe
  observe-Bounded status r h = ground (arith, length-remove-le status.request_id r.volume_requests)

  store-Bounded :
      (status : DeviceStatus) (r : Receiver c) → Bounded 0 r → Bounded 0 (store c status r)
  unfolding store
  store-Bounded status r h =
      ground (arith, length-insert_room status.request_id status r.replies h.0)

  bounded_stable : Stable c (λ id r. Unit) Bounded
  bounded_stable = record {
    joins = λ id peer s. (omega arith, omega arith, omega arith);
    sending = λ id s r h. h;
    denied = λ id r h. h;
    allowed = λ id r h a. h;
    noting = notes-Bounded;
    toned = λ id request_id state r h.
        (h.0, length-insert_room request_id state r.tone_replies h.1, h.2);
    tone_taken = λ id request_id r h.
        (h.0, omega (arith, length-remove-le request_id r.tone_replies, h.1), h.2);
    reply_taken =
        λ id request_id r h. (omega (arith, length-remove-le request_id r.replies, h.0), h.1, h.2);
    volume_taken = λ id r h. h;
    updated = λ id status r h fine.
        store-Bounded (sanitized status) (observe c (sanitized status) r)
          (observe-Bounded (sanitized status) r h);
  }

  permits_all :
      (ready : ℕ → Bool) (m : BTreeMap (Receiver c))
      → Holds c (λ id r. ready id ≡ true → Unit {0}) m
  permits_all ready [] = tt
  permits_all ready ((id, r) ∷ m) = ((λ e. tt), permits_all ready m)

  Permitted-all :
      (o : Operation c) (g : Registry c) → Permitted c (λ id r. Unit) Bounded bounded_stable o g
  Permitted-all (approves expected) g =
      permits_all (λ id. all (is_ready c g) expected && any (λ e. e.0 == id) expected) g.receivers
  Permitted-all _ g = tt

  Reached-Bounded : (g : Registry c) → Reached c g → Everywhere c Bounded g.receivers
  Reached-Bounded _ at_start = (tt, tt)
  Reached-Bounded _ (after {g} o h) =
      perform-Everywhere c (λ id r. Unit) Bounded bounded_stable o g (Reached-Bounded g h)
        (Permitted-all o g)

  -- In a reachable registry a receiver has at most 32 replies that nobody has taken, at most 32
  -- such replies to tones, and at most 32 volume requests whose reply is awaited.
  pub replies-bounded :
      (g : Registry c) (id : ℕ) (r : Receiver c)
      → Reached c g
      → BTreeMap.get id g.receivers ≡ some r
      → (length r.replies ≤ 32) × (length r.tone_replies ≤ 32) × (length r.volume_requests ≤ 32)
  replies-bounded g id r h e = Everywhere-get c Bounded id r g.receivers (Reached-Bounded g h) e

  get-modify :
      (id : ℕ) (change : Receiver c → Receiver c) (g : Registry c) (r : Receiver c)
      → BTreeMap.get id g.receivers ≡ some r
      → BTreeMap.get id (modify c id change g).receivers ≡ some (change r)
  unfolding modify
  get-modify id change g r e =
      rw e (ground (arith, get-insert id id (change r) g.receivers, ==_refl id))

  store-reply :
      (status : DeviceStatus) (r : Receiver c)
      → status.request_id ≢ 0
      → BTreeMap.get status.request_id (store c status r).replies ≡ some status
  unfolding store
  store-reply status r h = ground (
    arith,
    get-insert status.request_id status.request_id status (make_room r.replies),
    ==_refl status.request_id,
    ne→== status.request_id 0,
  )

  -- A status that answers a request (its identifier is not 0) and has a range in order is what
  -- `take_reply` then finds of that receiver, in the form in which it is stored.
  pub take_reply-update_device :
      (id : ℕ) (status : DeviceStatus) (g : Registry c) (r : Receiver c)
      → BTreeMap.get id g.receivers ≡ some r
      → is_malformed status ≡ false
      → status.request_id ≢ 0
      → (take_reply c id status.request_id (update_device c id status g)).1
        ≡ some (sanitized status)
  unfolding take_reply update_device
  take_reply-update_device id status g r e fine asked = rw fine (
      ground (
        arith,
        get-modify id (λ r. store c (sanitized status) (observe c (sanitized status) r)) g r e,
        store-reply (sanitized status) (observe c (sanitized status) r) asked,
      ))
