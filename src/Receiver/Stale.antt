-- ===== src/Receiver/Stale.antt =====
-- The threads of the ports work on objects that Recevie's stack no longer holds.
use windows_verifyserver.Prelude.{
  ℕ, ◌+◌, ◌<◌, ◌≡◌, List, some, Bool, false, ltb, if◌then◌else◌, length,
}
use windows_verifyserver.Prelude.Counts.{count}
use windows_verifyserver.Prelude.Results.{ok}
use windows_verifyserver.CompletePort.{Pool}
use windows_verifyserver.CompletePort.Threads.{Turn, thread_step}
use windows_verifyserver.CompletePort.Threads.Balance.{seen}
use windows_verifyserver.Receiver.{
  Receiver, new_receiver, text_of, post_object, advance_port, end_call, served_at,
}

-- The states of a receiver, from its constructor on. The calls of Recevie, which the threads of the TCP
-- server make, and the threads of the ports go on in any order; `returned` is the end of a call.
pub data Reach : Receiver → Type 0 where
  created :
      (made made_again : Bool) (processors : ℕ) (begins begins_again : ℕ → Bool)
      → Reach (new_receiver made made_again processors begins begins_again)
  received :
      (s : Receiver) (posted : Bool) (socket : ℕ) (buf text : List ℕ)
      → Reach s
      → text_of buf ≡ ok text
      → Reach (post_object posted s socket text)
  advanced : (s : Receiver) → Reach s → Reach (advance_port s)
  returned : (s : Receiver) (o : ℕ) → Reach s → 0 < count o s.calls → Reach (end_call s o)
  worked :
      (s : Receiver) (i t : ℕ) (turn : Turn) (port : Pool)
      → Reach s
      → thread_step (λ ol. false) (s.ports i) t turn ≡ some port
      → Reach (served_at s i port)

-- Whether a number is that of an object that has been made.
abbrev known : ℕ → ℕ → ℕ
known o n = if ltb o n then 1 else 0

-- Each object that was made belongs to one call, which is in progress or has ended, and the ports know
-- no others.
record IsKept (s : Receiver) : Type 0 where
  pub one_call : (o : ℕ) → count o s.calls + count o s.ended ≡ known o (length s.objects)
  pub made : (i o : ℕ) → 0 < seen (s.ports i) o → o < length s.objects
