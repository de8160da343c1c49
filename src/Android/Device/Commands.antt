-- ===== src/Android/Device/Commands.antt =====
-- The queue of commands.
use soundwave.Base.{
  ℕ, ◌+◌, ◌*◌, ◌/◌, ◌%◌, ◌^◌, ◌≡◌, ◌<◌, refl, sym, subst, ◌∙◌, arith, List, [], ◌∷◌, ◌++◌, Bool,
  true, false, not, ◌&&◌, none, some, length, leb, ◌==◌, if◌then◌else◌,
}
use soundwave.Android.Device.{
  DeviceControl, PendingCommand, enqueue_operation, take_command_at, delivered, packed, second,
}

-- The commands that are taken at these times, one after the other.
abbrev pub take_at : List ℕ → DeviceControl → DeviceControl
take_at [] d = d
take_at (t ∷ ts) d = take_at ts (take_command_at t d).0

take_at-last :
    (ts : List ℕ) (d : DeviceControl) (cs : List PendingCommand) (c : PendingCommand) (t : ℕ)
    → d.commands ≡ cs ++ c ∷ []
    → length ts ≡ length cs
    → (take_command_at t (take_at ts d)).1 ≡ delivered t c
unfolding take_command_at
take_at-last [] d [] c t e l = rw (e, take_command_at) refl
take_at-last [] d (x ∷ cs) c t e l = absurd (omega arith)
take_at-last (u ∷ ts) d [] c t e l = absurd (omega arith)
take_at-last (u ∷ ts) d (x ∷ cs) c t e l =
    take_at-last ts (take_command_at u d).0 cs c t (rw (e, take_command_at) refl) (omega arith)

-- The command is too old at `t`: all but operation 4 expire 2 seconds after `now`.
abbrev pub is_late : ℕ → ℕ → ℕ → Bool
is_late now operation t = not (operation == 4) && leb (now + 2 * second) t

module _ (now t request_id operation value : ℕ) (request_word : request_id < 2 ^ 32)
    (operation_byte : operation < 2 ^ 8) (value_word : value < 2 ^ 16) where
  unpacked :
      let code = packed request_id operation value in
      (code / 2 ^ 24 ≡ request_id) × (code / 2 ^ 16 % 2 ^ 8 ≡ operation) × (code % 2 ^ 16 ≡ value)
  unpacked = (omega arith, omega arith, omega arith)

  unpacked_late :
      let code = packed request_id operation value / 2 ^ 24 * 2 ^ 24 + 8 * 2 ^ 16 in
      (code / 2 ^ 24 ≡ request_id) × (code / 2 ^ 16 % 2 ^ 8 ≡ 8) × (code % 2 ^ 16 ≡ 0)
  unpacked_late = (omega arith, omega arith, omega arith)

  -- What the word says.
  abbrev Says : ℕ → Bool → Type 0
  Says code late =
      (code / 2 ^ 24 ≡ request_id)
      × (code / 2 ^ 16 % 2 ^ 8 ≡ (if late then 8 else operation))
      × (code % 2 ^ 16 ≡ (if late then 0 else value))

  either :
      (late : Bool)
      → Says
          (if late
            then packed request_id operation value / 2 ^ 24 * 2 ^ 24 + 8 * 2 ^ 16
            else packed request_id operation value)
          late
  either true = unpacked_late
  either false = unpacked

  sent : PendingCommand
  sent = record {
    value = packed request_id operation value;
    expires = if operation == 4 then none else some (now + 2 * second);
  }

  delivered-sent : delivered t sent ≡ (
      if is_late now operation t
      then packed request_id operation value / 2 ^ 24 * 2 ^ 24 + 8 * 2 ^ 16
      else packed request_id operation value)
  unfolding sent
  delivered-sent = ground arith

  -- A command of a 32-bit request, an 8-bit operation and a 16-bit value that is queued behind
  -- fewer than 32 others is accepted, and taken after exactly those, whenever they are taken. The
  -- word taken then names the request in its upper 40 bits, the operation in the next 8 and the
  -- value in the last 16; a command taken 2 seconds after it was queued or later has operation 8
  -- and value 0 in their place, unless its operation is 4.
  pub take_command_at-enqueue_operation :
      (d : DeviceControl) (ts : List ℕ)
      → length d.commands < 32
      → length ts ≡ length d.commands
      → let (d', accepted) = enqueue_operation now request_id operation value d in
        let code = (take_command_at t (take_at ts d')).1 in
        (accepted ≡ true)
        × (code / 2 ^ 24 ≡ request_id)
        × (code / 2 ^ 16 % 2 ^ 8 ≡ (if is_late now operation t then 8 else operation))
        × (code % 2 ^ 16 ≡ (if is_late now operation t then 0 else value))
  unfolding enqueue_operation sent
  take_command_at-enqueue_operation d ts room l =
      let free : leb 32 (length d.commands) ≡ false = ground arith in
      let taken =
        take_at-last ts (record d { commands = d.commands ++ sent ∷ [] }) d.commands sent t refl
          l in
      let says : Says _ (is_late now operation t) =
        subst (λ code. Says code (is_late now operation t)) (sym (taken ∙ delivered-sent))
          (either (is_late now operation t)) in
      rw free (refl, says.0, says.1, says.2)
