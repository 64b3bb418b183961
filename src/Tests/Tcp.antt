-- ===== src/Tests/Tcp.antt =====
-- Packets and their reassembly at concrete inputs, with a runtime that always finds memory and
-- counts a wide character for each byte.
mod Receive
mod Connections
mod Worker
mod Sending
mod Table
mod Lifecycle
use windows_verifyserver.Prelude.{
  ℕ, ◌+◌, ◌≡◌, refl, List, [], ◌∷◌, ◌++◌, length, drop, length-append, replicate, some, arith,
  length-replicate, ◌∙◌, ap, sym,
}
use windows_verifyserver.Prelude.Memory.{copy_at}
use windows_verifyserver.Prelude.Results.{ok, err, out_of_bounds}
use windows_verifyserver.Tcp.Platform.{Platform, IsSound}
use windows_verifyserver.Tcp.Packet.{prepare_send_buf, get_packet_len, sum_bytes}
use windows_verifyserver.Tcp.Packet.Layout.{Frame, packet, bytes, prepare_send_buf-packet}

abbrev pub machine : Platform
machine = record { new_bytes = λ n. some (replicate n 0xcd); wide_len = λ s. length s }

pub machine-IsSound : IsSound machine
machine-IsSound = record {
  new_size = λ n b e.
      let same : replicate n 0xcd ≡ b = cc in ap length (sym same) ∙ length-replicate n 0xcd;
  wide_pos = λ s. omega (arith, length-append s (0 ∷ []));
  wide_le = λ s. omega (arith, length-append s (0 ∷ []));
}

-- "hi" and "you"
abbrev pub hi : List ℕ
hi = b'h' ∷ b'i' ∷ []

abbrev pub you : List ℕ
you = b'y' ∷ b'o' ∷ b'u' ∷ []

packed :
    prepare_send_buf (replicate 20 0) hi 50
    ≡ ok (
      b'S' ∷ b':' ∷ 50 ∷ 0 ∷ 0 ∷ 0 ∷ 17 ∷ 0 ∷ 0 ∷ 0 ∷ b'h' ∷ b'i' ∷ 161 ∷ 1 ∷ 0 ∷ 0 ∷ b'E' ∷ 0 ∷ 0
          ∷ 0 ∷ [],
      17,
    )
unfolding prepare_send_buf copy_at sum_bytes
packed = refl

prepare_send_buf-packet_example :
    prepare_send_buf (replicate 20 0) hi 50
    ≡ ok (bytes (packet 50 hi) ++ drop 17 (replicate 20 0), 17)
prepare_send_buf-packet_example = prepare_send_buf-packet (replicate 20 0) hi 50 (omega arith)
