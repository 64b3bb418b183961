-- ===== src/Tcp/Receive/Stream.antt =====
-- However a stream of packets is cut into chunks, `SaveData` hands over each payload once, in order.
use windows_verifyserver.Prelude.{
  ℕ, zero, suc, ◌+◌, ◌*◌, ◌≤◌, ◌<◌, ◌^◌, ◌≡◌, ◌∙◌, sym, refl, ap, true, List, [], ◌∷◌, ◌++◌, length,
  take, drop, arith, length-append, length-take, length-drop, append_assoc, append-nil,
  take-append-drop,
}
use native.Mathlib.Decide.{dec_le, dec_lt}
use windows_verifyserver.Prelude.Memory.{append-injective}
use windows_verifyserver.Prelude.Word.{add32, sub32}
use windows_verifyserver.Prelude.Results.{ok, ◌>>=◌}
use windows_verifyserver.Tcp.Platform.{Platform, IsSound, Allocates}
use windows_verifyserver.Tcp.Packet.Layout.{
  Frame, IsFrame, bytes, length-bytes, get_packet_len-stream,
}
use windows_verifyserver.Tcp.Receive.{
  Assembly, Saved, keep_head, complete, extend, save_data, deliver_first,
}
use windows_verifyserver.Tcp.Receive.Parts.{join_head_lem, keep_head_lem, call, emptied, payload_of}
use windows_verifyserver.Tcp.Receive.Complete.{complete_last, complete_more}
use windows_verifyserver.Tcp.Receive.Moves.{
  kept, begin_packet_lem, kept-Waiting, joined, joined-Waiting, begun, begun-Filling,
  emptied-Waiting, extended, extended-Filling, extend_lem,
}
use windows_verifyserver.Tcp.Receive.States.{
  Waiting, Filling, Waiting-stored, step_join, step_begin, step_keep, step_complete, step_extend,
}
use windows_verifyserver.Tcp.Receive.Position.{
  stream, AllFit, deliveries, Position, between, within, payload_of-bytes, call-deliveries,
}

-- After a chunk, with the bytes `later` still to come: the packets `done` have been handed over,
-- and of the packets `left` the bytes `pre` have been received.
pub record Progress (p : Platform) (conn_id : ℕ) (fs : List Frame) (later : List ℕ) (r : Saved)
    : Type 0 where
  pub io : Assembly
  pub done : List Frame
  pub left : List Frame
  pub pre : List ℕ
  pub result : r ≡ ok (io, deliveries p conn_id done)
  pub split : fs ≡ done ++ left
  pub position : Position io pre left
  pub rest : pre ++ later ≡ stream left
  pub conn : io.conn_id ≡ conn_id

-- The same calls, told of from another view.
Progress-≡ :
    (p : Platform) (conn_id : ℕ) (fs : List Frame) (later : List ℕ) (r s : Saved)
    → r ≡ s
    → Progress p conn_id fs later s
    → Progress p conn_id fs later r
Progress-≡ p conn_id fs later r s e g = record {
  io = g.io;
  done = g.done;
  left = g.left;
  pre = g.pre;
  result = e ∙ g.result;
  split = g.split;
  position = g.position;
  rest = g.rest;
  conn = g.conn;
}

unfoldable pub need :
    (io : Assembly) (pre : List ℕ) (fs : List Frame) → List ℕ → Position io pre fs → ℕ
need io pre fs chunk (between w) = 2 * length chunk + 3 * length pre + 1
need io pre fs chunk (within f later rest e g l) = 2 * length chunk

module _ (p : Platform) (sound : IsSound p) (limit : ℕ) (small : limit < 2 ^ 31) (ten : 10 ≤ limit)
    (room : Allocates p limit) where
  module _ (again : Assembly → List ℕ → Saved) (conn_id : ℕ) (io : Assembly)
      (conn : io.conn_id ≡ conn_id) (later chunk : List ℕ) where
    keep-Progress :
        (fs : List Frame)
        → Waiting io []
        → length chunk ≤ 10
        → chunk ++ later ≡ stream fs
        → Progress p conn_id fs later (keep_head p true io chunk)
    keep-Progress fs w h e = record {
      io = kept io chunk;
      done = [];
      left = fs;
      pre = chunk;
      result =
          keep_head_lem p sound true io chunk (room (length chunk) (omega arith)).0
            (room (length chunk) (omega arith)).1;
      split = refl;
      position = between (kept-Waiting io chunk w h);
      rest = e;
      conn = conn;
    }

    extend-Progress :
        (pre rest : List ℕ) (f : Frame) (fs : List Frame)
        → (g : Filling io pre rest) → io.tmp_buf.des_len ≡ length (bytes f)
        → pre ++ (chunk ++ later) ≡ stream (f ∷ fs)
        → length chunk < length rest
        → Progress p conn_id (f ∷ fs) later (extend p true io chunk)
    extend-Progress pre rest f fs g l e h = record {
      io = extended io pre rest chunk;
      done = [];
      left = f ∷ fs;
      pre = pre ++ chunk;
      result = extend_lem io pre rest chunk g h p sound true;
      split = refl;
      position =
          within f fs (drop (length chunk) rest) refl (extended-Filling io pre rest chunk g h) l;
      rest = append_assoc pre chunk later ∙ e;
      conn = conn;
    }

    -- A packet's last bytes, then those of the packets behind it.
    after-Progress :
        (f : Frame) (fs : List Frame)
        → IsFrame f
        → Progress p conn_id fs later (again (emptied io) chunk)
        → Progress p conn_id
            (f ∷ fs)
            later
            (again (emptied io) chunk >>= deliver_first (call p true io.conn_id f.payload))
    after-Progress f fs v g = record {
      io = g.io;
      done = f ∷ g.done;
      left = g.left;
      pre = g.pre;
      result = rw (g.result, conn, call-deliveries p conn_id f sound v);
      split = ap (◌∷◌ f) g.split;
      position = g.position;
      rest = g.rest;
      conn = g.conn;
    }

  module _ (again : Assembly → List ℕ → Saved) (conn_id : ℕ) (io : Assembly)
      (conn : io.conn_id ≡ conn_id) (later pre rest last : List ℕ) (f : Frame) (fs : List Frame)
      (g : Filling io pre rest) (len : io.tmp_buf.des_len ≡ length (bytes f))
      (fit : AllFit limit (f ∷ fs)) (filled : length last ≡ length rest) where
    whole :
        (after : List ℕ)
        → pre ++ ((last ++ after) ++ later) ≡ stream (f ∷ fs)
        → (pre ++ last ≡ bytes f) × (after ++ later ≡ stream fs)
    whole after e =
        append-injective (pre ++ last) (after ++ later) (bytes f) (stream fs)
          (omega (arith, length-append pre last, g.total, len))
          (append_assoc pre last (after ++ later)
            ∙ ap (◌++◌ pre) (sym (append_assoc last after later))
            ∙ e)

    payload : pre ++ last ≡ bytes f → payload_of (pre ++ last) ≡ f.payload
    payload e = ap payload_of e ∙ payload_of-bytes f fit.0.0

    -- The end of the packet, and then the packets of `after`.
    complete-Progress :
        (after : List ℕ)
        → length (last ++ after) < 2 ^ 31
        → pre ++ ((last ++ after) ++ later) ≡ stream (f ∷ fs)
        → (after ++ later ≡ stream fs → Progress p conn_id fs later (again (emptied io) after))
        → Progress p conn_id (f ∷ fs) later (complete p true again io (last ++ after) (length rest))
    complete-Progress [] k e next =
        let block =
          room (add32 (sub32 io.tmp_buf.des_len 15) 1)
            (omega (arith, g.small, g.framed, len, fit.0.1)) in
        record {
          io = emptied io;
          done = f ∷ [];
          left = fs;
          pre = [];
          result = rw (append-nil last) (
              complete_last p sound true again io pre rest last g filled block.0 block.1
              ∙ rw (payload (whole [] e).0, conn, call-deliveries p conn_id f sound fit.0.0));
          split = refl;
          position = between (emptied-Waiting io pre rest g);
          rest = (whole [] e).1;
          conn = conn;
        }
    complete-Progress (x ∷ xs) k e next =
        let block =
          room (add32 (sub32 io.tmp_buf.des_len 15) 1)
            (omega (arith, g.small, g.framed, len, fit.0.1)) in
        Progress-≡ p conn_id (f ∷ fs) later _ _
          (complete_more p sound true again io pre rest last g filled block.0 block.1 (x ∷ xs)
              (omega arith) k
            ∙ rw (payload (whole (x ∷ xs) e).0))
          (after-Progress again conn_id io conn later (x ∷ xs) f fs fit.0.0
            (next (whole (x ∷ xs) e).1))

  pub chunk-Progress :
      (fuel conn_id : ℕ) (io : Assembly) (pre chunk later : List ℕ) (fs : List Frame)
      (at : Position io pre fs)
      → io.conn_id ≡ conn_id
      → AllFit limit fs
      → length chunk + io.tmp_head_buf.len ≤ limit
      → pre ++ (chunk ++ later) ≡ stream fs
      → need io pre fs chunk at < fuel
      → Progress p conn_id fs later (save_data p true fuel io chunk)
  unfolding save_data need
  chunk-Progress zero conn_id io pre chunk later fs at c fit l e n = absurd (omega arith)
  chunk-Progress (suc fuel) conn_id io [] chunk later [] (between w) c fit l e n =
      let empty : length (chunk ++ later) ≡ 0 = ap length e in
      Progress-≡ p conn_id [] later _ _
        (step_keep p true (save_data p true fuel) io chunk w
          (omega (arith, length-append chunk later)))
        (keep-Progress (save_data p true fuel) conn_id io c later chunk [] w
          (omega (arith, length-append chunk later)) e)
  chunk-Progress (suc fuel) conn_id io [] chunk later (f ∷ fs) (between w) c fit l e n =
      elim (dec_lt 10 (length chunk)) [
        | yes h ↦
            let len = length (bytes f) in
            let told = get_packet_len-stream chunk later f (stream fs) fit.0.0 h e in
            let short : len < 2 ^ 31 = omega (arith, fit.0.1) in
            let block = (room len fit.0.1).0 in
            let got = (room len fit.0.1).1 in
            let next = begun io block len in
            let g =
              begun-Filling io block len w (sound.new_size len block got)
                (omega (arith, length-bytes f fit.0.0)) short in
            Progress-≡ p conn_id (f ∷ fs) later _ (save_data p true fuel next chunk)
              (step_begin p true (save_data p true fuel) io chunk w h (omega (arith, told))
                ∙ rw told (rw (begin_packet_lem p true io block len got)))
              (chunk-Progress fuel conn_id next [] chunk later (f ∷ fs)
                (within f fs block refl g refl) c fit l e (omega arith))
        | no h ↦
            Progress-≡ p conn_id (f ∷ fs) later _ _
              (step_keep p true (save_data p true fuel) io chunk w (omega arith))
              (keep-Progress (save_data p true fuel) conn_id io c later chunk (f ∷ fs) w
                (omega arith) e)
      ]
  chunk-Progress (suc fuel) conn_id io (x ∷ xs) chunk later fs (between w) c fit l e n =
      let size = room (add32 io.tmp_head_buf.len (length chunk)) (omega arith) in
      Progress-≡ p conn_id fs later _ (save_data p true fuel (joined io) ((x ∷ xs) ++ chunk))
        (step_join p true (save_data p true fuel) io chunk (x ∷ xs) w (omega arith)
          ∙ ap (λ r. r >>= save_data p true fuel (joined io))
              (join_head_lem p sound true io.tmp_head_buf chunk (x ∷ xs) size.0
                (Waiting-stored io (x ∷ xs) w (omega arith)) (omega (arith, w.head_len))
                (omega arith) size.1))
        (chunk-Progress fuel conn_id (joined io) [] ((x ∷ xs) ++ chunk) later fs
          (between (joined-Waiting io (x ∷ xs) w)) c fit
          (omega (arith, w.head_len, length-append xs chunk))
          (append_assoc (x ∷ xs) chunk later ∙ e) (omega (arith, length-append xs chunk)))
  chunk-Progress (suc fuel) conn_id io pre chunk later fs (within f left rest e' g l') c fit l e n =
      let fit' : AllFit limit (f ∷ left) = rw e' at fit in
      let s : pre ++ (chunk ++ later) ≡ stream (f ∷ left) = e ∙ ap stream e' in
      rw e' (elim (dec_le (length rest) (length chunk)) [
        | yes h ↦
            let parts = take-append-drop (length rest) chunk in
            let size = length-drop (length rest) chunk in
            Progress-≡ p conn_id (f ∷ left) later _ _
              (step_complete p true (save_data p true fuel) io chunk pre rest g h)
              (rw (← parts) (
                complete-Progress (save_data p true fuel) conn_id io c later pre rest
                  (take (length rest) chunk) f left g l' fit'
                  (omega (arith, length-take (length rest) chunk)) (drop (length rest) chunk)
                  (rw parts (omega arith)) (rw parts s)
                  λ e''.
                    chunk-Progress fuel conn_id (emptied io) [] (drop (length rest) chunk) later
                      left (between (emptied-Waiting io pre rest g)) c fit'.1 (omega (arith, size))
                      e'' (omega (arith, size, g.more))))
        | no h ↦
            Progress-≡ p conn_id (f ∷ left) later _ _
              (step_extend p true (save_data p true fuel) io chunk pre rest g (omega arith))
              (extend-Progress (save_data p true fuel) conn_id io c later chunk pre rest f left g l'
                s (omega arith))
      ])
