-- ===== src/Tcp/Receive/Complete.antt =====
-- The branch of `SaveData` that completes a packet: what it hands over, and how it goes on.
use windows_verifyserver.Prelude.{
  ℕ, ◌<◌, ◌^◌, ◌≡◌, ◌∙◌, Bool, List, ◌++◌, none, some, length, arith, length-append, append-nil,
}
use windows_verifyserver.Prelude.Memory.{drop_all, take_all, take-append, drop-append}
use windows_verifyserver.Prelude.Word.{add32, sub32, is_pos_lem, is_pos_zero}
use windows_verifyserver.Prelude.Results.{ok, err, ◌>>=◌, bad_alloc}
use windows_verifyserver.Tcp.Platform.{Platform, IsSound}
use windows_verifyserver.Tcp.Receive.{
  Assembly, Saved, deliver_first, finish_packet, collect, complete,
}
use windows_verifyserver.Tcp.Receive.Parts.{
  emptied, payload_of, call, collect_lem, finish_packet_lem, finish_packet_no_memory,
}
use windows_verifyserver.Tcp.Receive.States.{Filling}

-- The packet's last bytes come as `bytes`, alone or with `after` behind them.
module _ (p : Platform) (sound : IsSound p) (receiver : Bool) (again : Assembly → List ℕ → Saved)
    (io : Assembly) (written rest bytes : List ℕ) (f : Filling io written rest)
    (filled : length bytes ≡ length rest) where
  total : length (written ++ bytes) ≡ io.tmp_buf.des_len
  total = omega (arith, length-append written bytes, f.total)

  collected : collect p receiver io.tmp_buf bytes ≡ ok (written ++ bytes)
  collected =
      collect_lem p sound receiver io.tmp_buf written rest bytes f.block f.received (omega arith)
      ∙ rw (drop_all (length bytes) rest (omega arith), append-nil)

  pub complete_no_memory :
      (after : List ℕ)
      → p.new_bytes (add32 (sub32 io.tmp_buf.des_len 15) 1) ≡ none
      → complete p receiver again io (bytes ++ after) (length rest) ≡ err bad_alloc
  unfolding complete
  complete_no_memory after a =
      rw (take-append (length rest) bytes after (omega arith), collected)
        (rw (finish_packet_no_memory p sound receiver io (written ++ bytes) io.tmp_buf.des_len a))

  module _ (room : List ℕ)
      (got : p.new_bytes (add32 (sub32 io.tmp_buf.des_len 15) 1) ≡ some room) where
    finished :
        finish_packet p receiver io (written ++ bytes) io.tmp_buf.des_len
        ≡ ok (call p receiver io.conn_id (payload_of (written ++ bytes)))
    finished = rw total (
        finish_packet_lem p sound receiver io (written ++ bytes) room io.tmp_buf.des_len total
          f.framed (omega (arith, f.small)) got)

    pub complete_last :
        complete p receiver again io bytes (length rest)
        ≡ ok (emptied io, call p receiver io.conn_id (payload_of (written ++ bytes)))
    unfolding complete
    complete_last =
        rw (take_all (length rest) bytes (omega arith), collected)
          (rw finished (
            rw
              (is_pos_zero (sub32 (length bytes) (length rest)) (omega (arith, f.total, f.small)))))

    pub complete_more :
        (after : List ℕ)
        → 0 < length after
        → length (bytes ++ after) < 2 ^ 31
        → complete p receiver again io (bytes ++ after) (length rest) ≡ (
            again (emptied io) after
            >>= deliver_first (call p receiver io.conn_id (payload_of (written ++ bytes))))
    unfolding complete
    complete_more after h k =
        rw (take-append (length rest) bytes after (omega arith), collected)
          (rw finished (
            rw (
              is_pos_lem (sub32 (length (bytes ++ after)) (length rest))
                  (omega (arith, length-append bytes after))
                  (omega (arith, length-append bytes after)),
              drop-append (length rest) (length rest) 0 bytes after (omega arith) (omega arith),
            )))
