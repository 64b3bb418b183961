-- ===== src/Tcp/Ownership/Ios.antt =====
-- The places of the IO_CONTEXTs.
use windows_verifyserver.Prelude.{
  ℕ, ◌+◌, ◌≤◌, ◌≡◌, refl, List, [], ◌∷◌, ◌++◌, Bool, true, false, if◌then◌else◌, length, get_elem?,
  length-set, length-append, Option-cases, inl, inr, arith,
}
use windows_verifyserver.Prelude.Counts.{count, same, count-append, count-drop}
use windows_verifyserver.Tcp.Connections.{
  Server, Io, writing, add_free_io_context, get_free_io_context, free_io_hold, free_io_pool,
  give_back,
}
use windows_verifyserver.Tcp.Connections.Trim.{give_back_lem}
use windows_verifyserver.Tcp.Posting.{set_io, post, post_accept, post_send, post_receive, outgoing}
use windows_verifyserver.Tcp.Ownership.{IosOwned, slot}

-- A context that comes back is counted once more at most.
pub count-give_back :
    (i hold pool : ℕ) (free : List ℕ) (x : ℕ)
    → pool ≤ hold
    → count i (give_back hold pool free x) ≤ same i x + count i free
unfolding count
count-give_back i hold pool free x h =
    let g = give_back_lem hold pool free x h in
    rw g.1 (omega (arith, count-drop i g.0 (free ++ x ∷ []), count-append i free (x ∷ [])))

pub add_free-IosOwned :
    (held : List ℕ) (s : Server) (io : ℕ)
    → IosOwned (io ∷ held) s
    → IosOwned held (add_free_io_context s io)
unfolding add_free_io_context count
add_free-IosOwned held s io o i =
    omega (arith, o i, count-give_back i free_io_hold free_io_pool s.free_ios io (omega arith))

pub set_io-IosOwned :
    (held : List ℕ) (s : Server) (io : ℕ) (f : Io → Io)
    → IosOwned held s
    → IosOwned held (set_io s io f)
unfolding set_io
set_io-IosOwned held s io f o i = elim (Option-cases (get_elem? s.io_store io)) [
  | inl e ↦ rw (set_io, e) (o i)
  | inr (c, e) ↦ rw (set_io, e, length-set s.io_store io (f c)) (o i)
]

-- A new place is counted nowhere yet.
pub slot_push : (n i : ℕ) → same i n + slot n i ≤ slot (n + 1) i
slot_push n i = ground arith

get_free_with :
    (held : List ℕ) (s : Server) (free : List ℕ)
    → s.free_ios ≡ free
    → IosOwned held s
    → IosOwned ((get_free_io_context s).1 ∷ held) (get_free_io_context s).0
unfolding get_free_io_context count
get_free_with held s [] e o i =
    simp (get_free_io_context, e, length-append)
      (omega (arith, o i, slot_push (length s.io_store) i))
get_free_with held s (x ∷ free) e o i =
    simp (get_free_io_context, e)
      (let q : count i s.free_ios ≡ same i x + count i free = rw e in omega (arith, o i, q))

pub get_free-IosOwned :
    (held : List ℕ) (s : Server)
    → IosOwned held s
    → IosOwned ((get_free_io_context s).1 ∷ held) (get_free_io_context s).0
get_free-IosOwned held s = get_free_with held s s.free_ios refl

-- What the code holds after it has tried to hand an IO_CONTEXT to Windows.
abbrev pub kept : Bool → ℕ → List ℕ → List ℕ
kept started io held = if started then held else io ∷ held

pub post-IosOwned :
    (started : Bool) (held : List ℕ) (s : Server) (io : ℕ)
    → IosOwned (io ∷ held) s
    → IosOwned (kept started io held) (post started s io).0
unfolding count
post-IosOwned true held s io o i = omega (arith, o i)
post-IosOwned false held s io o i = o i

pub post_accept-IosOwned :
    (started : Bool) (held : List ℕ) (s : Server) (io sock : ℕ)
    → IosOwned (io ∷ held) s
    → IosOwned (kept started io held) (post_accept started s io sock).0
unfolding post_accept
post_accept-IosOwned started held s io sock o =
    post-IosOwned started held (set_io s io _) io (set_io-IosOwned (io ∷ held) s io _ o)

pub post_receive-IosOwned :
    (started : Bool) (held : List ℕ) (s : Server) (io : ℕ)
    → IosOwned (io ∷ held) s
    → IosOwned (kept started io held) (post_receive started s io).0
unfolding post_receive
post_receive-IosOwned started held s io o =
    post-IosOwned started held (set_io s io _) io (set_io-IosOwned (io ∷ held) s io _ o)

pub post_send-IosOwned :
    (started : Bool) (held : List ℕ) (s : Server) (io : ℕ)
    → IosOwned (io ∷ held) s
    → IosOwned (kept started io held) (post_send started s io).0
unfolding post_send
post_send-IosOwned true held s io o =
    let s' = set_io s io (λ c. record c { so = writing }) in
    post-IosOwned true held (record s' { sent = s'.sent ++ outgoing s' io }) io
      (set_io-IosOwned (io ∷ held) s io _ o)
post_send-IosOwned false held s io o =
    post-IosOwned false held (set_io s io (λ c. record c { so = writing })) io
      (set_io-IosOwned (io ∷ held) s io _ o)
