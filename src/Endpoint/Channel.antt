-- ===== src/Endpoint/Channel.antt =====
-- What an endpoint promises, without its ring: a queue of at most 16 messages, a mailbox for a message
-- that was handed to a waiting receiver, and that receiver.
use moonlight_os.Prelude.{
  ℕ, ◌&&◌, not, Bool, List, [], ◌∷◌, ◌++◌, Option, none, some, leb, if◌then◌else◌, suc,
}
use moonlight_os.Types.{KError, ok, invalid_arg, overflow, IpcMsg, ipc_msg_max, ipc_caps_max}

pub record Channel : Type 0 where
  pub queue : List (ℕ × IpcMsg)
  pub mailbox : Option IpcMsg
  pub waiting : Option ℕ

abbrev pub length {ℓ} : {A : Type ℓ} → List A → ℕ
length [] = 0
length (x ∷ xs) = suc (length xs)

abbrev pub fits : IpcMsg → Bool
fits msg = leb msg.length ipc_msg_max && leb msg.caps ipc_caps_max

-- A message goes to the receiver that waits, or to the end of the queue. A message that is queued
-- replaces one that is still in the mailbox.
unfoldable pub send : Channel → ℕ → IpcMsg → KError × Channel
send c sender msg = if not (fits msg) then (invalid_arg, c) else elim c.waiting [
  | some r ↦ (ok, record c { mailbox = some msg; waiting = none })
  | none ↦
      if leb 16 (length c.queue)
      then (overflow, c)
      else (ok, record c { queue = c.queue ++ (sender, msg) ∷ []; mailbox = none })
]

-- A receiver takes the oldest queued message, else the one in the mailbox, else it waits.
unfoldable pub recv : Channel → ℕ → Option IpcMsg × Channel
recv c receiver = elim c.queue [
  | (s, m) ∷ rest ↦ (some m, record c { queue = rest })
  | [] ↦ elim c.mailbox [
    | some m ↦ (some m, record c { mailbox = none; waiting = none })
    | none ↦ (none, record c { waiting = some receiver })
  ]
]
