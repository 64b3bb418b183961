-- ===== src/Tcp/Ownership.antt =====
-- Who holds the contexts of the server: an IO_CONTEXT is with Windows, on the free list or with the
-- code that runs, a SOCKET_CONTEXT is in the map of clients, on the free list or with that code.
pub mod Ios
pub mod Sockets
use windows_verifyserver.Prelude.{ℕ, ◌+◌, ◌≤◌, List, [], ◌∷◌, ltb, if◌then◌else◌, length}
use windows_verifyserver.Prelude.Counts.{count}
use windows_verifyserver.Tcp.Connections.{Server}

-- The contexts in the map.
abbrev pub contexts_of : List (ℕ × ℕ) → List ℕ
contexts_of [] = []
contexts_of ((key, context) ∷ clients) = context ∷ contexts_of clients

-- 1 for the place of a context that exists, 0 for any other number.
abbrev pub slot : ℕ → ℕ → ℕ
slot n i = if ltb i n then 1 else 0

-- Each IO_CONTEXT is in one place at most, and the code holds `held`.
abbrev pub IosOwned : List ℕ → Server → Type 0
IosOwned held s =
    (i : ℕ) → count i held + (count i s.in_flight + count i s.free_ios) ≤ slot (length s.io_store) i

-- The same of the SOCKET_CONTEXTs.
abbrev pub SocketsOwned : List ℕ → Server → Type 0
SocketsOwned held s =
    (i : ℕ)
    → count i held + (count i (contexts_of s.clients) + count i s.free_sockets)
      ≤ slot (length s.contexts) i
