-- ===== src/Receiver.antt =====
-- CThreadSocketRecevier (VerifyServer/VerifyServer/ThreadSocketRecevier.cpp), which hands the payloads
-- that the TCP server delivers to the threads of two completion ports in turn, as objects of class
-- CStringIOCompletePortOverlapped (StringIOCompletePortOverlapped.cpp). The objects are named by the
-- order of their creation; Recevie creates each on its stack, where it ends with the call.
pub mod Turns
pub mod Stale
use windows_verifyserver.Prelude.{
  ℕ, zero, suc, ◌+◌, ◌*◌, ◌-◌, ◌≡◌, List, [], ◌∷◌, ◌++◌, none, some, Bool, true, false, ◌==◌, ltb,
  if◌then◌else◌, length,
}
use windows_verifyserver.Prelude.Counts.{erase_first}
use windows_verifyserver.Prelude.Results.{Result, ok, err, ◌>>=◌, out_of_bounds}
use windows_verifyserver.CompletePort.{Pool, new_port, create_complete_port, io_complete_port_post}

-- m_nsocket and m_string of a CStringIOCompletePortOverlapped.
pub record Message : Type 0 where
  pub nsocket : ℕ
  pub string : List ℕ

-- CThreadSocketRecevier; `objects` are those that calls of Recevie have made, `calls` those whose call
-- is in progress, and `ended` those whose lifetime is over.
pub record Receiver : Type 0 where
  pub ports : ℕ → Pool
  pub cur_port : ℕ
  pub objects : List Message
  pub calls : List ℕ
  pub ended : List ℕ

-- nPortCount
abbrev pub port_count : ℕ
port_count = 2

-- The constructor: each port has started 20 threads when CreateCompletePort is called for it again.
-- What Windows answers is the same for both ports: `made` and `begins` when they are constructed,
-- `made_again` and `begins_again` at the second call.
unfoldable pub new_receiver : Bool → Bool → ℕ → (ℕ → Bool) → (ℕ → Bool) → Receiver
new_receiver made made_again processors begins begins_again = record {
  ports = λ i.
      let port = new_port made processors begins in
      (create_complete_port made_again processors begins_again port 0).0;
  cur_port = 0;
  objects = [];
  calls = [];
  ended = [];
}

-- `MyString strData(pUnicodeBuf)`: the characters before the first 0. A character is two bytes of the
-- payload, the lower one first.
unfoldable pub text_of : List ℕ → Result (List ℕ)
text_of [] = err out_of_bounds
text_of (x ∷ []) = err out_of_bounds
text_of (x ∷ y ∷ bytes) =
    let rest = text_of bytes in
    let c = x + 256 * y in if c == 0 then ok [] else (rest >>= λ text. ok (c ∷ text))

-- The port after this one.
abbrev pub next_port : ℕ → ℕ
next_port i = if ltb i (port_count - 1) then i + 1 else 0

-- What Recevie does in its order: it makes and posts the object, it goes to the next port, and the
-- object ends with the call.
abbrev pub post_object : Bool → Receiver → ℕ → List ℕ → Receiver
post_object posted s socket text =
    let object = length s.objects in
    let port = (io_complete_port_post posted (s.ports s.cur_port) 0 object).0 in
    record s {
      ports = λ i. if i == s.cur_port then port else s.ports i;
      objects = s.objects ++ (record { nsocket = socket; string = text }) ∷ [];
      calls = s.calls ++ object ∷ [];
    }

abbrev pub advance_port : Receiver → Receiver
advance_port s = record s { cur_port = next_port s.cur_port }

abbrev pub end_call : Receiver → ℕ → Receiver
end_call s object = record s { calls = erase_first object s.calls; ended = s.ended ++ object ∷ [] }

-- CThreadSocketRecevier::Recevie for a receiver that has its CAppEntity, without a step of another
-- thread in between; `posted` is what PostQueuedCompletionStatus answers. rev_len is not used.
unfoldable pub recevie : Bool → Receiver → ℕ → List ℕ → Result Receiver
recevie posted s socket buf = text_of buf >>= λ text.
    ok (end_call (advance_port (post_object posted s socket text)) (length s.objects))

-- Recevie for one payload after another.
unfoldable pub recevie_all : Receiver → List (ℕ × List ℕ) → Result Receiver
recevie_all s [] = ok s
recevie_all s ((socket, buf) ∷ later) = recevie true s socket buf >>= λ t. recevie_all t later

-- A thread of one of the ports has made a step, which has made this of the port.
abbrev pub served_at : Receiver → ℕ → Pool → Receiver
served_at s i port = record s { ports = λ j. if j == i then port else s.ports j }
