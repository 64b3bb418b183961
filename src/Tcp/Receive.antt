-- ===== src/Tcp/Receive.antt =====
-- CTcpServer::SaveData (VerifyServer/socket/tcpserver/TcpServer.cpp): the received chunks of a
-- connection are put together to packets, and the payload of each goes to the receiver.
pub mod Parts
pub mod States
pub mod Moves
pub mod Complete
pub mod Position
pub mod Stream
pub mod Session
pub mod Negative
pub mod Safety
use windows_verifyserver.Prelude.{
  ℕ, zero, suc, ◌+◌, ◌*◌, Bool, true, false, ◌&&◌, List, [], ◌∷◌, ◌++◌, Option, none, some, ltb,
  leb, ◌==◌, if◌then◌else◌, length, take, drop,
}
use windows_verifyserver.Prelude.Memory.{copy_at, slice}
use windows_verifyserver.Prelude.Word.{add32, sub32, is_pos}
use windows_verifyserver.Prelude.Results.{
  Result, ok, err, ◌>>=◌, or_fault, out_of_bounds, bad_alloc, null_pointer, out_of_fuel,
}
use windows_verifyserver.Tcp.Platform.{Platform}
use windows_verifyserver.Tcp.Packet.{get_packet_len, no_packet}

-- RCV_BUF: the bytes of a chunk that was too short to hold a header.
pub record RecvBuf : Type 0 where
  pub buf : Option (List ℕ)
  pub len : ℕ

-- RCV_TMPBUF: a packet that is being received, `cur_len` of its `des_len` bytes so far.
pub record RecvTmpBuf : Type 0 where
  pub buf : Option (List ℕ)
  pub des_len : ℕ
  pub cur_len : ℕ

-- What `SaveData` uses of IO_CONTEXT.
pub record Assembly : Type 0 where
  pub conn_id : ℕ
  pub tmp_buf : RecvTmpBuf
  pub tmp_head_buf : RecvBuf

-- A call of `m_pRecevier->Recevie(conn_id, text, len)`.
pub record Delivery : Type 0 where
  pub conn_id : ℕ
  pub text : List ℕ
  pub len : ℕ

abbrev pub no_head : RecvBuf
no_head = record { buf = none; len = 0 }

abbrev pub no_tmp : RecvTmpBuf
no_tmp = record { buf = none; des_len = 0; cur_len = 0 }

-- The state that _IO_CONTEXT::clean leaves.
abbrev pub clean : Assembly
clean = record { conn_id = 0; tmp_buf = no_tmp; tmp_head_buf = no_head }

abbrev pub Saved : Type 0
Saved = Result (Assembly × List Delivery)

abbrev pub deliver_first : List Delivery → Assembly × List Delivery → Saved
deliver_first out (io, later) = ok (io, out ++ later)

-- Calls of itself that suffice for a chunk, as the modules below show.
abbrev pub rounds : Assembly → List ℕ → ℕ
rounds io bytes = 2 * length bytes + 3 * io.tmp_head_buf.len + 2

-- The server's receiver may be null, `receiver` tells.
module _ (p : Platform) (receiver : Bool) where
  -- The stored head and the new data, one behind the other in a new block.
  unfoldable pub join_head : RecvBuf → List ℕ → Result (List ℕ)
  join_head head bytes = do
    block ← or_fault (p.new_bytes (add32 head.len (length bytes))) bad_alloc
    stored ← or_fault head.buf null_pointer
    stored ← or_fault (slice stored 0 head.len) out_of_bounds
    block ← or_fault (copy_at block 0 stored) out_of_bounds
    or_fault (copy_at block head.len bytes) out_of_bounds

  -- Ten bytes or fewer where a packet is to begin.
  unfoldable pub keep_head : Assembly → List ℕ → Saved
  keep_head io bytes = do
    block ← or_fault (p.new_bytes (length bytes)) bad_alloc
    block ← or_fault (copy_at block 0 bytes) out_of_bounds
    ok (record io { tmp_head_buf = record { buf = some block; len = length bytes } }, [])

  -- A header: room for the packet that it announces.
  unfoldable pub begin_packet : Assembly → ℕ → Result Assembly
  begin_packet io len = do
    block ← or_fault (p.new_bytes len) bad_alloc
    ok (record io { tmp_buf = record { buf = some block; des_len = len; cur_len = 0 } })

  -- The payload of a complete packet, between the ten bytes of header and the five at the end, goes
  -- to the receiver with a NUL behind it, and with its length in wide characters.
  unfoldable pub finish_packet : Assembly → List ℕ → ℕ → Result (List Delivery)
  finish_packet io block des_len = do
    let n = sub32 des_len 15
    room ← or_fault (p.new_bytes (add32 n 1)) bad_alloc
    payload ← or_fault (slice block 10 n) out_of_bounds
    tmp ← or_fault (copy_at room 0 payload) out_of_bounds
    tmp ← or_fault (copy_at tmp n (0 ∷ [])) out_of_bounds
    let len = p.wide_len tmp
    ok (
        if is_pos len && receiver
        then record { conn_id = io.conn_id; text = tmp; len = len } ∷ []
        else [])

  -- The bytes of the packet that is being received.
  unfoldable pub collect : RecvTmpBuf → List ℕ → Result (List ℕ)
  collect tmp bytes = do
    block ← or_fault tmp.buf null_pointer
    or_fault (copy_at block tmp.cur_len bytes) out_of_bounds

  -- The data completes the packet, with `leave` of its bytes; behind them may be a new packet.
  unfoldable pub complete : (Assembly → List ℕ → Saved) → Assembly → List ℕ → ℕ → Saved
  complete again io bytes leave = do
    block ← collect io.tmp_buf (take leave bytes)
    out ← finish_packet io block io.tmp_buf.des_len
    let io' : Assembly = record io { tmp_buf = no_tmp }
    elim (is_pos (sub32 (length bytes) leave)) [
      | true ↦ again io' (drop leave bytes) >>= deliver_first out
      | false ↦ ok (io', out)
    ]

  -- Where no packet is in progress.
  unfoldable pub next_packet : (Assembly → List ℕ → Saved) → Assembly → List ℕ → Saved
  next_packet again io bytes = elim (ltb 10 (length bytes)) [
    | true ↦ elim (get_packet_len bytes == no_packet) [
      | true ↦ ok (io, [])
      | false ↦ begin_packet io (get_packet_len bytes) >>= λ io'. again io' bytes
    ]
    | false ↦ keep_head io bytes
  ]

  -- Where `leave` bytes of a packet are missing and fewer have come.
  unfoldable pub extend : Assembly → List ℕ → Saved
  extend io bytes = do
    block ← collect io.tmp_buf bytes
    let tmp : RecvTmpBuf = record {
      buf = some block;
      des_len = io.tmp_buf.des_len;
      cur_len = add32 io.tmp_buf.cur_len (length bytes);
    }
    ok (record io { tmp_buf = tmp }, [])

  -- `leave` is `nDesLeave`, an `int`.
  unfoldable pub save_rest : (Assembly → List ℕ → Saved) → Assembly → List ℕ → ℕ → Saved
  save_rest again io bytes leave = elim (leave == 0) [
    | true ↦ next_packet again io bytes
    | false ↦ elim (is_pos leave) [
      | true ↦ elim (leb leave (length bytes)) [
        | true ↦ complete again io bytes leave
        | false ↦ extend io bytes
      ]
      | false ↦ ok (io, [])
    ]
  ]

  -- One call of `SaveData`; `again` is its call of itself.
  unfoldable pub save_step : (Assembly → List ℕ → Saved) → Assembly → List ℕ → Saved
  save_step again io bytes = elim (is_pos io.tmp_head_buf.len) [
    | true ↦ join_head io.tmp_head_buf bytes >>= again (record io { tmp_head_buf = no_head })
    | false ↦ save_rest again io bytes (sub32 io.tmp_buf.des_len io.tmp_buf.cur_len)
  ]

  -- `SaveData`, with at most `fuel` calls of itself, one in the other.
  unfoldable pub save_data : ℕ → Assembly → List ℕ → Saved
  save_data zero io bytes = err out_of_fuel
  save_data (suc fuel) io bytes = save_step (save_data fuel) io bytes

  -- What CTcpServer::ProcessReceive does with the bytes of a completed read.
  unfoldable pub receive : ℕ → Assembly → List ℕ → Saved
  receive conn_id io bytes =
      let io' : Assembly = record io { conn_id = conn_id } in save_data (rounds io' bytes) io' bytes

  -- The reads of a connection, one after the other.
  unfoldable pub receive_all : ℕ → Assembly → List (List ℕ) → Saved
  receive_all conn_id io [] = ok (io, [])
  receive_all conn_id io (bytes ∷ chunks) = do
    (io', out) ← receive conn_id io bytes
    receive_all conn_id io' chunks >>= deliver_first out
