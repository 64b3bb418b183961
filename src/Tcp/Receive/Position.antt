-- ===== src/Tcp/Receive/Position.antt =====
-- A place in a stream of packets, and the lengths that the receiver reads there.
use windows_verifyserver.Prelude.{ℕ, ◌-◌, ◌≤◌, ◌≡◌, true, List, [], ◌∷◌, ◌++◌, map, length, arith}
use windows_verifyserver.Prelude.Memory.{take-append}
use windows_verifyserver.Prelude.Word.{is_pos_lem}
use windows_verifyserver.Tcp.Platform.{Platform, IsSound}
use windows_verifyserver.Tcp.Packet.Layout.{Frame, IsFrame, bytes, length-bytes}
use windows_verifyserver.Tcp.Receive.{Assembly, Delivery}
use windows_verifyserver.Tcp.Receive.Parts.{call, payload_of}
use windows_verifyserver.Tcp.Receive.States.{Waiting, Filling}

-- The bytes of a sequence of packets.
abbrev pub stream : List Frame → List ℕ
stream [] = []
stream (f ∷ fs) = bytes f ++ stream fs

-- Packets that blocks of up to `limit` bytes can hold.
abbrev pub AllFit : ℕ → List Frame → Type 0
AllFit limit [] = Unit
AllFit limit (f ∷ fs) = (IsFrame f × (length (bytes f) ≤ limit)) × AllFit limit fs

-- What the receiver is to be told of the packets: each payload with a NUL behind it.
abbrev pub deliveries : Platform → ℕ → List Frame → List Delivery
deliveries p conn_id = map λ f. record {
  conn_id = conn_id;
  text = f.payload ++ 0 ∷ [];
  len = p.wide_len (f.payload ++ 0 ∷ []);
}

-- `pre` has been received of the packets `fs`: too little for a header, or a part of the first.
pub data Position (io : Assembly) (pre : List ℕ) (fs : List Frame) : Type 0 where
  between : Waiting io pre → Position io pre fs
  within :
      (f : Frame) (later : List Frame) (rest : List ℕ)
      → fs ≡ f ∷ later
      → Filling io pre rest
      → io.tmp_buf.des_len ≡ length (bytes f)
      → Position io pre fs

pub payload_of-bytes : (f : Frame) → IsFrame f → payload_of (bytes f) ≡ f.payload
payload_of-bytes f v =
    take-append (length (bytes f) - 15) f.payload f.trailer (omega (arith, length-bytes f v))

pub call-deliveries :
    (p : Platform) (conn_id : ℕ) (f : Frame)
    → IsSound p
    → IsFrame f
    → call p true conn_id f.payload ≡ deliveries p conn_id (f ∷ [])
call-deliveries p conn_id f sound v = rw (
    is_pos_lem (p.wide_len (f.payload ++ 0 ∷ [])) (sound.wide_pos f.payload)
      (omega (arith, sound.wide_le f.payload, v.short)))
