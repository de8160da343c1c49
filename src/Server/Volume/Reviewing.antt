-- ===== src/Server/Volume/Reviewing.antt =====
-- windows-server/src/application/volume_control.rs: what `tick` makes of the requests that
-- are pending.
use soundwave.Base.{
  ℕ, ◌+◌, ◌*◌, List, [], ◌∷◌, Bool, true, false, not, ◌||◌, Option, none, some, any, leb, ◌==◌,
  if◌then◌else◌,
}
use soundwave.Base.BTreeMap
use soundwave.Base.BTreeMap.{BTreeMap}
use soundwave.Protocol.Control.{DeviceStatus}
use soundwave.Server.Registry.{Controls, Registry}
use soundwave.Server.Registry.Device.{take_reply}
use soundwave.Server.Volume.{Pending, Message, no_confirmation, not_applied, State, Controller}
use soundwave.Server.Volume.Asking.{millisecond}

module _ (c : Controls) where
  -- What a reply makes of a request: whether it has failed.
  abbrev pub has_failed : Pending → DeviceStatus → Bool
  has_failed pending reply =
      reply.failed || (not (reply.volume == pending.index) || (not reply.speaker || reply.fixed))

  -- The registry, the requests that are still pending, and those that have failed, in order.
  abbrev pub Reviewed : Type 0
  Reviewed = Registry c × BTreeMap Pending × List (ℕ × Message)

  abbrev pub keep : ℕ × Pending → Reviewed → Reviewed
  keep e (g, kept, failures) = (g, e ∷ kept, failures)

  abbrev pub fail : ℕ → Message → Bool → Reviewed → Reviewed
  fail id message false rest = rest
  fail id message true (g, kept, failures) = (g, kept, (id, message) ∷ failures)

  abbrev pub replied : ℕ → ℕ × Pending → Option DeviceStatus → Reviewed → Reviewed
  replied now (id, pending) (some reply) rest =
      fail id (not_applied reply.name) (has_failed pending reply) rest
  replied now (id, pending) none rest =
      if leb (pending.at + 4000 * millisecond) now
      then fail id no_confirmation true rest
      else keep (id, pending) rest

  -- `pending.retain`, which takes the replies of the receivers that are still there.
  unfoldable pub review : ℕ → List ℕ → Registry c → BTreeMap Pending → Reviewed
  review now ids g [] = (g, [], [])
  review now ids g ((id, pending) ∷ rest) =
      let there = any (λ i. i == id) ids in
      let (g', reply) = take_reply c id pending.request g in
      elim there [
        | true ↦ replied now (id, pending) reply (review now ids g' rest)
        | false ↦ review now ids g rest
      ]

  abbrev pub note_failures : List (ℕ × Message) → State → State
  note_failures [] s = s
  note_failures ((id, message) ∷ failures) s =
      note_failures failures
        (record s { blocked = BTreeMap.insert id tt s.blocked; message = message })

  abbrev pub reviewed : Controller c → Reviewed → Controller c
  reviewed w (g, kept, failures) = record w {
    registry = g;
    state = note_failures failures (record w.state { pending = kept });
  }
