-- ===== src/Tcp/Packet.antt =====
-- The packets of the TCP protocol, VerifyServer/socket/tcpserver/TcpServer.cpp (the build does not
-- define REV_UNICODE): 'S' ':', a parameter, the length of the whole packet, the payload, the sum
-- of all bytes so far, 'E'. A pointer and a length that go together are one list of bytes.
pub mod Layout
use windows_verifyserver.Prelude.{
  ℕ, ◌+◌, List, [], ◌∷◌, ◌++◌, ◌&&◌, ltb, leb, ◌==◌, if◌then◌else◌, length, take, get_or,
}
use windows_verifyserver.Prelude.Memory.{copy_at}
use windows_verifyserver.Prelude.Word.{add32, word, le32, read_le32}
use windows_verifyserver.Prelude.Results.{Result, ok, ◌>>=◌, or_fault, out_of_bounds}

-- 0xffffffff, the answer of `GetPacketLen` where no packet begins.
abbrev pub no_packet : ℕ
no_packet = 0xffff_ffff

-- CTcpServer::GetPacketLen. The bytes are read at indices below 10, which the first test covers.
unfoldable pub get_packet_len : List ℕ → ℕ
get_packet_len buf =
    if leb (length buf) 10
    then no_packet
    else if get_or buf 0 0 == b'S' && get_or buf 1 0 == b':'
    then (if leb 15 (read_le32 buf 6) then read_le32 buf 6 else no_packet)
    else no_packet

-- `for (...) nSum += p[i]` over a DWORD.
unfoldable pub sum_bytes : ℕ → List ℕ → ℕ
sum_bytes sum [] = sum
sum_bytes sum (b ∷ bs) = sum_bytes (add32 sum b) bs

-- CTcpServer::PrepareSendBuf: what `des` holds afterwards, and the length that is returned. The
-- fault is a write behind the end of `des`, which the function cannot see.
unfoldable pub prepare_send_buf : List ℕ → List ℕ → ℕ → Result (List ℕ × ℕ)
prepare_send_buf des src param = do
  let len = length src
  let index : ℕ = 10
  d ← or_fault (copy_at des 0 (b'S' ∷ [])) out_of_bounds
  d ← or_fault (copy_at d 1 (b':' ∷ [])) out_of_bounds
  d ← or_fault (copy_at d 2 (le32 param)) out_of_bounds
  d ← or_fault (copy_at d 6 (le32 (word (len + 15)))) out_of_bounds
  d ← or_fault (copy_at d index src) out_of_bounds
  let sum = sum_bytes 0 (take (index + len) d)
  d ← or_fault (copy_at d (index + len) (le32 sum)) out_of_bounds
  let last = index + len + 4
  d ← or_fault (copy_at d last (b'E' ∷ [])) out_of_bounds
  ok (d, last + 1)
