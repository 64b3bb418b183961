-- ===== src/CompletePort.antt =====
-- CIOCompletePort (VerifyServer/IOCompletePort/IOCompletePort.cpp): a completion port, the threads
-- that serve it, and the overlapped objects that are posted to it. Threads and objects are numbers.
pub mod Order
pub mod Threads
pub mod Ending
pub mod Deadlock
pub mod Handles
use windows_verifyserver.Prelude.{
  ℕ, zero, suc, ◌+◌, ◌-◌, ◌*◌, ◌≡◌, List, [], ◌∷◌, ◌++◌, Option, none, some, Bool, true, false,
  ◌||◌, ltb, ◌==◌, if◌then◌else◌, length, take, drop, replicate, min,
}
use windows_verifyserver.Prelude.Counts.{count, erase_first}
use windows_verifyserver.Prelude.Word.{is_pos}

-- What PostQueuedCompletionStatus puts into the queue: the bytes, with NULL or with an object.
pub data Packet : Type 0 where
  nothing : ℕ → Packet
  object : ℕ → ℕ → Packet

-- What a thread has in hand: the packet's bytes and its object.
pub record Task : Type 0 where
  pub thread : ℕ
  pub bytes : ℕ
  pub ol : ℕ

-- CIOCompletePort, with the world around it: `threads` is m_hVecThread and `listed` is
-- m_listOverlapped; `alive` are the threads that run, `queue` what the port holds, `held` the
-- packets that threads have taken and `worked` those of them whose OverLappedOparete has run,
-- `operated` the objects whose OverLappedOparete ran, `deleted` what was deleted, `closed` the handles that were
-- closed, and `started` how many threads there have been.
pub record Pool : Type 0 where
  pub opened : Bool
  pub threads : List ℕ
  pub listed : List ℕ
  pub alive : List ℕ
  pub queue : List Packet
  pub held : List Task
  pub worked : List Task
  pub operated : List ℕ
  pub deleted : List ℕ
  pub closed : List ℕ
  pub started : ℕ

-- A CIOCompletePort without a port.
abbrev pub no_port : Pool
no_port = record {
  opened = false;
  threads = [];
  listed = [];
  alive = [];
  queue = [];
  held = [];
  worked = [];
  operated = [];
  deleted = [];
  closed = [];
  started = 0;
}

-- IOCOMPLETEPORT_EXIT
abbrev pub exit_code : ℕ
exit_code = 0x0fff_ffff

-- MAXIMUM_WAIT_OBJECTS
abbrev pub max_wait : ℕ
max_wait = 64

-- The loop that starts `n` threads; `begins` answers for the one that has so many behind it.
unfoldable pub start_threads : ℕ → (ℕ → Bool) → Pool → Pool × Bool
start_threads zero begins s = (s, true)
start_threads (suc n) begins s = elim (begins n) [
  | true ↦ start_threads n begins (record s {
    threads = s.threads ++ s.started ∷ [];
    alive = s.alive ++ s.started ∷ [];
    started = s.started + 1;
  })
  | false ↦ ((start_threads n begins s).0, false)
]

-- CIOCompletePort::CreateCompletePort. The count is an `int`; `made` tells whether the port could be
-- made, and `processors` is what GetSystemInfo counts.
unfoldable pub create_complete_port : Bool → ℕ → (ℕ → Bool) → Pool → ℕ → Pool × Bool
create_complete_port made processors begins s count =
    if s.opened || made
    then start_threads (if is_pos count then count else processors * 2 + 2) begins
        (record s { opened = true })
    else (s, false)

-- CIOCompletePort::CIOCompletePort
unfoldable pub new_port : Bool → ℕ → (ℕ → Bool) → Pool
new_port made processors begins = (create_complete_port made processors begins no_port 20).0

-- CIOCompletePort::IOCompletePortPost
unfoldable pub io_complete_port_post : Bool → Pool → ℕ → ℕ → Pool × Bool
io_complete_port_post posted s bytes ol = elim s.opened [
  | true ↦
      if posted then (record s { queue = s.queue ++ object bytes ol ∷ [] }, true) else (s, false)
  | false ↦ (s, false)
]

-- Whether WorkerThreadProc leaves its loop behind a packet; `is_exit` is the object's IsExit.
abbrev pub leaves : (ℕ → Bool) → Packet → Bool
leaves is_exit (nothing bytes) = true
leaves is_exit (object bytes ol) = is_exit ol || bytes == exit_code

-- What it does with the packet.
abbrev pub serve : Pool → Packet → Pool
serve s (nothing bytes) = s
serve s (object bytes ol) = record s {
  operated = s.operated ++ ol ∷ [];
  deleted = s.deleted ++ ol ∷ [];
}

-- One pass of WorkerThreadProc in the thread `t`, its steps without a step of another thread between
-- them: `none` where it waits, or does not run.
-- `answered` is false where GetQueuedCompletionStatus fails.
unfoldable pub pass : (ℕ → Bool) → Pool → ℕ × Bool → Option Pool
pass is_exit s (t, answered) = elim (ltb 0 (count t s.alive)) [
  | false ↦ none
  | true ↦ elim answered [
    | false ↦ some (record s { alive = erase_first t s.alive })
    | true ↦ elim s.queue [
      | [] ↦ none
      | (x ∷ queue) ↦
          let s' = serve (record s { queue = queue }) x in
          some (if leaves is_exit x then record s' { alive = erase_first t s'.alive } else s')
    ]
  ]
]

-- The passes of the threads, in the order in which they get their packets.
unfoldable pub run : (ℕ → Bool) → Pool → List (ℕ × Bool) → Option Pool
run is_exit s [] = some s
run is_exit s (x ∷ passes) = elim (pass is_exit s x) [ none ↦ none | some t ↦ run is_exit t passes ]

-- The exit packets for a batch of threads; nothing is posted to a port that is closed.
unfoldable pub post_exits : Pool → ℕ → Pool
post_exits s n =
    if s.opened then record s { queue = s.queue ++ replicate n (nothing exit_code) } else s

-- What one round of DestroyCompletePort's loop posts before it waits for a batch of the handles that
-- remain.
unfoldable pub post_batch : Pool → List ℕ → Pool
post_batch s handles = post_exits s (min (length handles) max_wait)

-- None of the threads runs, so that WaitForMultipleObjects returns.
abbrev pub AllEnded : Pool → List ℕ → Type 0
AllEnded s [] = Unit
AllEnded s (t ∷ ts) = (count t s.alive ≡ 0) × AllEnded s ts

-- The loop of DestroyCompletePort over the handles that remain, in batches of 64.
pub data Waits (is_exit : ℕ → Bool) : Pool → List ℕ → Pool → Type 0 where
  over : (s : Pool) → Waits is_exit s [] s
  batch :
      (s t u : Pool) (handle : ℕ) (handles : List ℕ) (passes : List (ℕ × Bool))
      → run is_exit (post_batch s (handle ∷ handles)) passes ≡ some t
      → AllEnded t (take max_wait (handle ∷ handles))
      → Waits is_exit
          (record t { closed = t.closed ++ take max_wait (handle ∷ handles) })
          (drop max_wait (handle ∷ handles))
          u
      → Waits is_exit s (handle ∷ handles) u

-- CIOCompletePort::_GetOverlapped
unfoldable pub get_overlapped : Pool → Pool × Option ℕ
get_overlapped s = elim s.listed [
  | [] ↦ (s, none)
  | (x ∷ rest) ↦ (record s { listed = rest }, some x)
]

-- CIOCompletePort::_PushOverlappedList
unfoldable pub push_overlapped_list : Pool → ℕ → Pool
push_overlapped_list s ol = record s { listed = s.listed ++ ol ∷ [] }

-- CIOCompletePort::_PopOverlappedList
unfoldable pub pop_overlapped_list : Pool → Pool
pop_overlapped_list s = record s { listed = take (length s.listed - 1) s.listed }

-- `std::list::remove`
abbrev pub without : ℕ → List ℕ → List ℕ
without a [] = []
without a (x ∷ xs) = let rest = without a xs in if a == x then rest else x ∷ rest

-- CIOCompletePort::_RemoveOverlapped
unfoldable pub remove_overlapped : Pool → ℕ → Pool
remove_overlapped s ol = record s { listed = without ol s.listed }

-- CIOCompletePort::_ClearOverlappedList, which leaves the list as it is.
unfoldable pub clear_overlapped_list : Pool → Pool
clear_overlapped_list s = record s { deleted = s.deleted ++ s.listed }

-- The end of DestroyCompletePort.
unfoldable pub close_port : Pool → Pool × Bool
close_port s = (clear_overlapped_list (record s { opened = false }), s.opened)

-- CIOCompletePort::DestroyCompletePort
pub data Destroys (is_exit : ℕ → Bool) (s : Pool) : Pool × Bool → Type 0 where
  destroys : (t : Pool) → Waits is_exit s s.threads t → Destroys is_exit s (close_port t)
