-- ===== src/CompletePort/Threads.antt =====
-- WorkerThreadProc (IOCompletePort.cpp) step by step: between the steps of one thread the others make
-- theirs, and objects are posted.
pub mod Balance
use windows_verifyserver.Prelude.{
  ℕ, List, [], ◌∷◌, ◌++◌, Option, none, some, Bool, true, false, ◌&&◌, not, ◌==◌, ltb,
  if◌then◌else◌,
}
use windows_verifyserver.Prelude.Counts.{count, erase_first}
use windows_verifyserver.CompletePort.{
  Packet, nothing, object, Task, Pool, leaves, io_complete_port_post,
}

-- What a thread can do next: GetQueuedCompletionStatus fails in it, or gets it a packet;
-- OverLappedOparete of the object that it holds; `delete` of it.
pub data Turn : Type 0 where
  fails : Turn
  takes : Turn
  operates : Turn
  deletes : Turn

-- The task of a thread, and the tasks without it.
unfoldable pub task_of : ℕ → List Task → Option (Task × List Task)
task_of t [] = none
task_of t (k ∷ tasks) =
    let later = task_of t tasks in
    if k.thread == t
    then some (k, tasks)
    else elim later [ none ↦ none | some (found, rest) ↦ some (found, k ∷ rest) ]

abbrev pub has_task : ℕ → List Task → Bool
has_task t tasks = elim (task_of t tasks) [ none ↦ false | some k ↦ true ]

-- The thread runs and waits at GetQueuedCompletionStatus.
abbrev pub is_waiting : Pool → ℕ → Bool
is_waiting s t = ltb 0 (count t s.alive) && not (has_task t s.held) && not (has_task t s.worked)

abbrev pub take_up : Pool → ℕ → Packet → Pool
take_up s t (nothing bytes) = record s { alive = erase_first t s.alive }
take_up s t (object bytes ol) = record s {
  held = s.held ++ (record { thread = t; bytes = bytes; ol = ol }) ∷ [];
}

-- GetQueuedCompletionStatus, where it gives a packet.
unfoldable pub take_packet : Pool → ℕ → Option Pool
take_packet s t = elim (is_waiting s t) [
  | false ↦ none
  | true ↦ elim s.queue [
    | [] ↦ none
    | (x ∷ queue) ↦ some (take_up (record s { queue = queue }) t x)
  ]
]

-- GetQueuedCompletionStatus, where it fails.
unfoldable pub fail_thread : Pool → ℕ → Option Pool
fail_thread s t = if is_waiting s t then some (record s { alive = erase_first t s.alive }) else none

-- `pol->OverLappedOparete()`
unfoldable pub operate : Pool → ℕ → Option Pool
operate s t = elim (task_of t s.held) [
  | none ↦ none
  | some (k, rest) ↦
      some
        (record s { held = rest; worked = s.worked ++ k ∷ []; operated = s.operated ++ k.ol ∷ [] })
]

-- `delete pol`, and the end of the loop where it follows.
unfoldable pub delete_object : (ℕ → Bool) → Pool → ℕ → Option Pool
delete_object is_exit s t = elim (task_of t s.worked) [
  | none ↦ none
  | some (k, rest) ↦ some (record s {
    worked = rest;
    deleted = s.deleted ++ k.ol ∷ [];
    alive = if leaves is_exit (object k.bytes k.ol) then erase_first t s.alive else s.alive;
  })
]

abbrev pub thread_step : (ℕ → Bool) → Pool → ℕ → Turn → Option Pool
thread_step is_exit s t fails = fail_thread s t
thread_step is_exit s t takes = take_packet s t
thread_step is_exit s t operates = operate s t
thread_step is_exit s t deletes = delete_object is_exit s t

-- What happens to a port: IOCompletePortPost, or a step of one of its threads.
pub data PortEvent : Type 0 where
  posts : ℕ → ℕ → PortEvent
  steps : ℕ → Turn → PortEvent

abbrev pub happens : (ℕ → Bool) → Pool → PortEvent → Option Pool
happens is_exit s (posts bytes ol) = some (io_complete_port_post true s bytes ol).0
happens is_exit s (steps t turn) = thread_step is_exit s t turn

-- One event after another, in any order in which each can happen.
unfoldable pub play : (ℕ → Bool) → Pool → List PortEvent → Option Pool
play is_exit s [] = some s
play is_exit s (x ∷ events) = elim (happens is_exit s x) [
  | none ↦ none
  | some t ↦ play is_exit t events
]
