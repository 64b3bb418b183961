-- ===== src/Tcp/Receive/Session.antt =====
-- The reads of a connection from its start on.
use mathlib.Core.List.{flatten, map-append}
use windows_verifyserver.Prelude.{
  ℕ, ◌+◌, ◌≤◌, ◌<◌, ◌^◌, ◌≡◌, ◌∙◌, sym, refl, ap, true, List, [], ◌∷◌, ◌++◌, length, arith,
  length-append, append-nil, inr,
}
use windows_verifyserver.Prelude.Results.{ok}
use windows_verifyserver.Tcp.Platform.{Platform, IsSound, Allocates}
use windows_verifyserver.Tcp.Packet.Layout.{Frame, bytes, length-bytes}
use windows_verifyserver.Tcp.Receive.{Assembly, Delivery, receive, receive_all, rounds, clean}
use windows_verifyserver.Tcp.Receive.States.{Waiting}
use windows_verifyserver.Tcp.Receive.Position.{
  stream, AllFit, deliveries, Position, between, within,
}
use windows_verifyserver.Tcp.Receive.Stream.{Progress, chunk-Progress, need}

-- Chunks that a block of `limit` bytes can hold behind ten bytes of an earlier one.
abbrev pub AllShort : ℕ → List (List ℕ) → Type 0
AllShort limit [] = Unit
AllShort limit (c ∷ cs) = (length c + 10 ≤ limit) × AllShort limit cs

abbrev named : ℕ → Assembly → Assembly
named conn_id io = record io { conn_id = conn_id }

named-Position :
    (conn_id : ℕ) (io : Assembly) (pre : List ℕ) (fs : List Frame)
    → Position io pre fs
    → Position (named conn_id io) pre fs
named-Position conn_id io pre fs (between w) = between (record {
  idle = w.idle;
  small = w.small;
  stored = w.stored;
  head_len = w.head_len;
  short = w.short;
})
named-Position conn_id io pre fs (within f left rest e g l) =
    within f left rest e
      (record {
        block = g.block;
        received = g.received;
        total = g.total;
        more = g.more;
        framed = g.framed;
        small = g.small;
        no_head = g.no_head;
      })
      l

Position-head :
    (io : Assembly) (pre : List ℕ) (fs : List Frame) → Position io pre fs → io.tmp_head_buf.len ≤ 10
Position-head io pre fs (between w) = omega (arith, w.head_len, w.short)
Position-head io pre fs (within f left rest e g l) = omega (arith, g.no_head)

need-rounds :
    (io : Assembly) (pre chunk : List ℕ) (fs : List Frame) (at : Position io pre fs)
    → need io pre fs chunk at < rounds io chunk
unfolding need
need-rounds io pre chunk fs (between w) = omega (arith, w.head_len)
need-rounds io pre chunk fs (within f left rest e g l) = omega arith

AllFit-append : (limit : ℕ) (fs gs : List Frame) → AllFit limit (fs ++ gs) → AllFit limit gs
AllFit-append limit [] gs h = h
AllFit-append limit (f ∷ fs) gs h = AllFit-append limit fs gs h.1

-- Where all bytes have come, no packet is in progress.
Position-end :
    (limit : ℕ) (io : Assembly) (pre : List ℕ) (fs : List Frame)
    → AllFit limit fs
    → Position io pre fs
    → pre ≡ stream fs
    → (fs ≡ []) × Waiting io []
Position-end limit io pre [] fit (between w) e = (refl, rw e at w)
Position-end limit io pre (f ∷ fs) fit (between w) e = absurd (
    omega
      (arith, ap length e, w.short, length-append (bytes f) (stream fs), length-bytes f fit.0.0))
Position-end limit io pre fs fit (within f left rest e' g l) e = absurd (
    omega (
      arith,
      ap length (e ∙ ap stream e'),
      length-append (bytes f) (stream left),
      g.total,
      g.more,
      l,
    ))

-- A chunk, and then the other chunks.
receive_all-cons :
    (p : Platform) (conn_id : ℕ) (io io' : Assembly) (c : List ℕ) (chunks : List (List ℕ))
    (fs : List Frame) (g : Progress p conn_id fs (flatten chunks) (receive p true conn_id io c))
    → receive_all p true conn_id g.io chunks ≡ ok (io', deliveries p conn_id g.left)
    → receive_all p true conn_id io (c ∷ chunks) ≡ ok (io', deliveries p conn_id fs)
unfolding receive_all
receive_all-cons p conn_id io io' c chunks fs g later =
    rw (g.result, later)
      (ap (λ (out : List Delivery). ok (io', out))
        (sym (map-append _ g.done g.left) ∙ ap (deliveries p conn_id) (sym g.split)))

module _ (p : Platform) (sound : IsSound p) (limit : ℕ) (small : limit < 2 ^ 31) (ten : 10 ≤ limit)
    (room : Allocates p limit) where
  receive_all-Position :
      (conn_id : ℕ) (chunks : List (List ℕ)) (io : Assembly) (pre : List ℕ) (fs : List Frame)
      → Position io pre fs
      → AllFit limit fs
      → AllShort limit chunks
      → pre ++ flatten chunks ≡ stream fs
      → (io' : Assembly) × (receive_all p true conn_id io chunks
          ≡ ok (io', deliveries p conn_id fs))
        × Waiting io' []
  unfolding receive_all receive flatten
  receive_all-Position conn_id [] io pre fs at fit short e =
      let z = Position-end limit io pre fs fit at (sym (append-nil pre) ∙ e) in (io, rw z.0, z.1)
  receive_all-Position conn_id (c ∷ chunks) io pre fs at fit short e =
      let at' = named-Position conn_id io pre fs at in
      let g =
        chunk-Progress p sound limit small ten room (rounds (named conn_id io) c) conn_id
          (named conn_id io) pre c (flatten chunks) fs at' refl fit
          (omega (arith, Position-head io pre fs at)) e
          (need-rounds (named conn_id io) pre c fs at') in
      let (io', later, w) =
        receive_all-Position conn_id chunks g.io g.pre g.left g.position
          (AllFit-append limit g.done g.left (rw g.split at fit)) short.1 g.rest in
      (io', receive_all-cons p conn_id io io' c chunks fs g later, w)

  -- A connection whose chunks, put together, are a sequence of packets hands over the payload of
  -- each packet, in order and with nothing else, and waits for a new packet at the end.
  pub receive_all-stream :
      (conn_id : ℕ) (fs : List Frame) (chunks : List (List ℕ))
      → AllFit limit fs
      → AllShort limit chunks
      → flatten chunks ≡ stream fs
      → (io : Assembly) × (receive_all p true conn_id clean chunks
          ≡ ok (io, deliveries p conn_id fs))
        × Waiting io []
  receive_all-stream conn_id fs chunks = receive_all-Position conn_id chunks clean [] fs (
      between (record {
        idle = refl;
        small = omega arith;
        stored = inr refl;
        head_len = refl;
        short = omega arith;
      }))
