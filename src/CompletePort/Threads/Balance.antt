-- ===== src/CompletePort/Threads/Balance.antt =====
-- What becomes of the objects that are posted to the completion port, whatever its threads do.
use mathlib.Core.Option.{some-injective}
use windows_verifyserver.Prelude.{
  ℕ, zero, suc, ◌+◌, ◌≡◌, refl, sym, ap, ◌∙◌, List, [], ◌∷◌, ◌++◌, none, some, Bool, true, ◌==◌,
  if◌then◌else◌, Bool-cases, Option-cases, inl, inr, arith,
}
use windows_verifyserver.Prelude.Counts.{count, count-append, same, erase_first}
use windows_verifyserver.CompletePort.{
  Packet, nothing, object, Task, Pool, leaves, io_complete_port_post, start_threads,
  create_complete_port, new_port, no_port,
}
use windows_verifyserver.CompletePort.Threads.{
  fails, takes, operates, deletes, Turn, task_of, is_waiting, take_up, take_packet, fail_thread,
  operate, delete_object, thread_step, PortEvent, posts, steps, play,
}

-- The objects of the packets, in their order.
abbrev pub objects : List Packet → List ℕ
objects [] = []
objects (nothing bytes ∷ queue) = objects queue
objects (object bytes ol ∷ queue) = ol ∷ objects queue

abbrev pub task_objects : List Task → List ℕ
task_objects [] = []
task_objects (k ∷ tasks) = k.ol ∷ task_objects tasks

-- How often an object waits, is held by a thread or has been worked on.
abbrev pub seen : Pool → ℕ → ℕ
seen s o = count o (objects s.queue) + count o (task_objects s.held) + count o s.operated

-- How often it is about to be deleted or has been deleted.
abbrev pub spent : Pool → ℕ → ℕ
spent s o = count o (task_objects s.worked) + count o s.deleted

pub objects-push :
    (o bytes ol : ℕ) (queue : List Packet)
    → count o (objects (queue ++ object bytes ol ∷ [])) ≡ count o (objects queue) + same o ol
unfolding count
objects-push o bytes ol [] = omega arith
objects-push o bytes ol (nothing b ∷ queue) = objects-push o bytes ol queue
objects-push o bytes ol (object b x ∷ queue) = omega (arith, objects-push o bytes ol queue)

task_objects-push :
    (o : ℕ) (tasks : List Task) (k : Task)
    → count o (task_objects (tasks ++ k ∷ [])) ≡ count o (task_objects tasks) + same o k.ol
unfolding count
task_objects-push o [] k = omega arith
task_objects-push o (x ∷ tasks) k = omega (arith, task_objects-push o tasks k)

-- Taking a task out of a list takes its object out of it once.
task_of-count :
    (o t : ℕ) (tasks : List Task) (k : Task) (rest : List Task)
    → task_of t tasks ≡ some (k, rest)
    → count o (task_objects tasks) ≡ same o k.ol + count o (task_objects rest)
unfolding task_of count
task_of-count o t [] k rest e = absurd cc
task_of-count o t (x ∷ tasks) k rest e = elim (Bool-cases (x.thread == t)) [
  | inl y ↦
      let f : task_of t (x ∷ tasks) ≡ some (x, tasks) = rw (task_of, y) refl in
      let g = some-injective _ _ (sym f ∙ e) in
      ap (λ r. same o r.0.ol + count o (task_objects r.1)) g
  | inr n ↦ elim (Option-cases (task_of t tasks)) [
    | inl m ↦ let f : task_of t (x ∷ tasks) ≡ none = rw (task_of, n, m) refl in absurd cc
    | inr ((found, later), m) ↦
        let f : task_of t (x ∷ tasks) ≡ some (found, x ∷ later) = rw (task_of, n, m) refl in
        let g = some-injective _ _ (sym f ∙ e) in
        let h = ap (λ r. same o r.0.ol + count o (task_objects r.1)) g in
        omega (arith, task_of-count o t tasks found later m, h)
  ]
]

-- What a step keeps.
abbrev pub Keeps : Pool → Pool → ℕ → Type 0
Keeps s u o =
    (seen u o ≡ seen s o)
    × (spent u o + count o s.operated ≡ spent s o + count o u.operated)
    × (u.opened ≡ s.opened)

take_up-Keeps :
    (s : Pool) (t : ℕ) (x : Packet) (queue : List Packet) (o : ℕ)
    → s.queue ≡ x ∷ queue
    → Keeps s (take_up (record s { queue = queue }) t x) o
unfolding count
take_up-Keeps s t (nothing bytes) queue o e = (
  ap (λ q. count o (objects q) + count o (task_objects s.held) + count o s.operated) (sym e),
  refl,
  refl,
)
take_up-Keeps s t (object bytes ol) queue o e =
    let m : count o (objects s.queue) ≡ same o ol + count o (objects queue) =
      ap (λ q. count o (objects q)) e in
    (
      omega (arith, m, task_objects-push o s.held (record { thread = t; bytes = bytes; ol = ol })),
      refl,
      refl,
    )

taken-Keeps :
    (s u : Pool) (t o : ℕ) (queue : List Packet)
    → is_waiting s t ≡ true
    → s.queue ≡ queue
    → take_packet s t ≡ some u
    → Keeps s u o
unfolding take_packet
taken-Keeps s u t o [] w q e =
    let stuck : take_packet s t ≡ none = rw (take_packet, w, q) refl in absurd cc
taken-Keeps s u t o (x ∷ queue) w q e =
    let f : take_packet s t ≡ some (take_up (record s { queue = queue }) t x) =
      rw (take_packet, w, q) refl in
    rw (sym (some-injective _ _ (sym f ∙ e))) (take_up-Keeps s t x queue o q)

take_packet-Keeps : (s u : Pool) (t o : ℕ) → take_packet s t ≡ some u → Keeps s u o
unfolding take_packet
take_packet-Keeps s u t o e = elim (Bool-cases (is_waiting s t)) [
  | inl y ↦ taken-Keeps s u t o s.queue y refl e
  | inr n ↦ let stuck : take_packet s t ≡ none = rw (take_packet, n) refl in absurd cc
]

fail_thread-Keeps : (s u : Pool) (t o : ℕ) → fail_thread s t ≡ some u → Keeps s u o
unfolding fail_thread
fail_thread-Keeps s u t o e = elim (Bool-cases (is_waiting s t)) [
  | inr n ↦ let stuck : fail_thread s t ≡ none = rw (fail_thread, n) refl in absurd cc
  | inl y ↦
      let u' = record s { alive = erase_first t s.alive } in
      let f : fail_thread s t ≡ some u' = rw (fail_thread, y) refl in
      rw (sym (some-injective u' u (sym f ∙ e))) (refl, refl, refl)
]

operate-Keeps : (s u : Pool) (t o : ℕ) → operate s t ≡ some u → Keeps s u o
unfolding operate count
operate-Keeps s u t o e = elim (Option-cases (task_of t s.held)) [
  | inl n ↦ let stuck : operate s t ≡ none = rw (operate, n) refl in absurd cc
  | inr ((k, rest), y) ↦
      let u' : Pool = record s {
        held = rest;
        worked = s.worked ++ k ∷ [];
        operated = s.operated ++ k.ol ∷ [];
      } in
      let f : operate s t ≡ some u' = rw (operate, y) refl in
      let more = count-append o s.operated (k.ol ∷ []) in
      rw (sym (some-injective u' u (sym f ∙ e))) (
        omega (arith, task_of-count o t s.held k rest y, more),
        omega (arith, task_objects-push o s.worked k, more),
        refl,
      )
]

delete_object-Keeps :
    (is_exit : ℕ → Bool) (s u : Pool) (t o : ℕ) → delete_object is_exit s t ≡ some u → Keeps s u o
unfolding delete_object count
delete_object-Keeps is_exit s u t o e = elim (Option-cases (task_of t s.worked)) [
  | inl n ↦ let stuck : delete_object is_exit s t ≡ none = rw (delete_object, n) refl in absurd cc
  | inr ((k, rest), y) ↦
      let u' : Pool = record s {
        worked = rest;
        deleted = s.deleted ++ k.ol ∷ [];
        alive = if leaves is_exit (object k.bytes k.ol) then erase_first t s.alive else s.alive;
      } in
      let f : delete_object is_exit s t ≡ some u' = rw (delete_object, y) refl in
      let more = count-append o s.deleted (k.ol ∷ []) in
      rw (sym (some-injective u' u (sym f ∙ e)))
        (refl, omega (arith, task_of-count o t s.worked k rest y, more), refl)
]

-- No step of a thread loses an object or has it twice.
pub thread_step-Keeps :
    (is_exit : ℕ → Bool) (s u : Pool) (t : ℕ) (turn : Turn) (o : ℕ)
    → thread_step is_exit s t turn ≡ some u
    → Keeps s u o
thread_step-Keeps is_exit s u t fails o e = fail_thread-Keeps s u t o e
thread_step-Keeps is_exit s u t takes o e = take_packet-Keeps s u t o e
thread_step-Keeps is_exit s u t operates o e = operate-Keeps s u t o e
thread_step-Keeps is_exit s u t deletes o e = delete_object-Keeps is_exit s u t o e

-- How often an object is posted.
abbrev pub postings : ℕ → List PortEvent → ℕ
postings o [] = 0
postings o (posts bytes ol ∷ events) = same o ol + postings o events
postings o (steps t turn ∷ events) = postings o events

post_opened-queue :
    (s : Pool) (bytes ol : ℕ)
    → s.opened ≡ true
    → (io_complete_port_post true s bytes ol).0
      ≡ record s { queue = s.queue ++ object bytes ol ∷ [] }
unfolding io_complete_port_post
post_opened-queue s bytes ol o = simp (io_complete_port_post, o) refl

play-balance :
    (is_exit : ℕ → Bool) (events : List PortEvent) (s u : Pool) (o : ℕ)
    → s.opened ≡ true
    → play is_exit s events ≡ some u
    → (seen u o ≡ seen s o + postings o events)
      × (spent u o + count o s.operated ≡ spent s o + count o u.operated)
unfolding play
play-balance is_exit [] s u o h e = rw (sym (some-injective s u e)) (omega arith, refl)
play-balance is_exit (posts bytes ol ∷ events) s u o h e =
    let p = post_opened-queue s bytes ol h in
    let later : play is_exit (record s { queue = s.queue ++ object bytes ol ∷ [] }) events
        ≡ some u =
      ap (λ x. play is_exit x events) (sym p) ∙ e in
    let (a, b) =
      play-balance is_exit events (record s { queue = s.queue ++ object bytes ol ∷ [] }) u o h
        later in
    (omega (arith, a, objects-push o bytes ol s.queue), b)
play-balance is_exit (steps t turn ∷ events) s u o h e =
    elim (Option-cases (thread_step is_exit s t turn)) [
      | inl n ↦
          let stuck : play is_exit s (steps t turn ∷ events) ≡ none = rw (play, n) refl in absurd cc
      | inr (v, f) ↦
          let later : play is_exit v events ≡ some u = sym (rw (play, f) refl) ∙ e in
          let (a, b, c) = thread_step-Keeps is_exit s v t turn o f in
          let (x, y) = play-balance is_exit events v u o (c ∙ h) later in
          (omega (arith, a, x), omega (arith, b, y))
    ]

pub start_threads-Keeps :
    (n : ℕ) (begins : ℕ → Bool) (s : Pool) (o : ℕ) → Keeps s (start_threads n begins s).0 o
unfolding start_threads
start_threads-Keeps zero begins s o = (refl, refl, refl)
start_threads-Keeps (suc n) begins s o = elim (Bool-cases (begins n)) [
  | inl y ↦ simp (start_threads, y) (start_threads-Keeps n begins _ o)
  | inr f ↦ simp (start_threads, f) (start_threads-Keeps n begins s o)
]

pub new_port-Keeps :
    (processors : ℕ) (begins : ℕ → Bool) (o : ℕ)
    → Keeps (record no_port { opened = true }) (new_port true processors begins) o
unfolding new_port create_complete_port
new_port-Keeps processors begins o =
    start_threads-Keeps 20 begins (record no_port { opened = true }) o

-- From the constructor of a CIOCompletePort on, with objects posted and its threads going on in any
-- order: an object waits, is held by a thread or has been operated as often in all as it was posted,
-- and it has been operated as often as it is about to be deleted or has been deleted. So no object is
-- lost or served twice for one post, none is deleted before OverLappedOparete has run, and where no
-- thread has a task, what was operated is what was deleted.
pub play-Balanced :
    (is_exit : ℕ → Bool) (processors : ℕ) (begins : ℕ → Bool) (events : List PortEvent) (u : Pool)
    (o : ℕ)
    → play is_exit (new_port true processors begins) events ≡ some u
    → (postings o events
        ≡ count o (objects u.queue) + count o (task_objects u.held) + count o u.operated)
      × (count o u.operated ≡ count o (task_objects u.worked) + count o u.deleted)
unfolding count
play-Balanced is_exit processors begins events u o e =
    let (a, b, c) = new_port-Keeps processors begins o in
    let (x, y) = play-balance is_exit events (new_port true processors begins) u o c e in
    (omega (arith, a, x), omega (arith, a, b, y))
