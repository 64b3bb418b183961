-- ===== src/Tcp/Receive/Parts.antt =====
-- The parts of `SaveData`, each where the allocations it makes succeed.
use windows_verifyserver.Prelude.{
  ℕ, ◌+◌, ◌-◌, ◌≤◌, ◌<◌, ◌^◌, ◌≡◌, refl, ◌∙◌, Bool, ◌&&◌, List, [], ◌∷◌, ◌++◌, none, some,
  if◌then◌else◌, length, take, drop, arith, length-take, length-drop,
}
use windows_verifyserver.Prelude.Memory.{
  copy_behind, copy_whole, copy_rest, slice_whole, slice_within,
}
use windows_verifyserver.Prelude.Word.{add32, sub32, is_pos}
use windows_verifyserver.Prelude.Results.{ok, err, bad_alloc}
use windows_verifyserver.Tcp.Platform.{Platform, IsSound}
use windows_verifyserver.Tcp.Receive.{
  Assembly, RecvBuf, RecvTmpBuf, Delivery, join_head, keep_head, finish_packet, collect, no_tmp,
}

-- What `complete` leaves, and the packet that it hands over.
abbrev pub emptied : Assembly → Assembly
emptied io = record io { tmp_buf = no_tmp }

abbrev pub payload_of : List ℕ → List ℕ
payload_of block = take (length block - 15) (drop 10 block)

-- The call that hands a payload over.
abbrev pub call : Platform → Bool → ℕ → List ℕ → List Delivery
call p receiver conn_id payload =
    if is_pos (p.wide_len (payload ++ 0 ∷ [])) && receiver
    then record {
      conn_id = conn_id;
      text = payload ++ 0 ∷ [];
      len = p.wide_len (payload ++ 0 ∷ []);
    }
      ∷ []
    else []

module _ (p : Platform) (sound : IsSound p) (receiver : Bool) where
  pub join_head_lem :
      (head : RecvBuf) (bytes stored block : List ℕ)
      → head.buf ≡ some stored
      → length stored ≡ head.len
      → head.len + length bytes < 2 ^ 32
      → p.new_bytes (add32 head.len (length bytes)) ≡ some block
      → join_head p receiver head bytes ≡ ok (stored ++ bytes)
  unfolding join_head
  join_head_lem head bytes stored block b l h a =
      let size : length block ≡ head.len + length bytes = sound.new_size _ block a ∙ omega arith in
      rw (a, b, slice_whole stored head.len (omega arith))
        (rw (copy_behind 0 [] block stored refl (omega arith))
          (rw (copy_rest head.len block stored bytes (omega arith) (omega arith))))

  pub keep_head_lem :
      (io : Assembly) (bytes block : List ℕ)
      → p.new_bytes (length bytes) ≡ some block
      → keep_head p receiver io bytes
        ≡ ok (record io { tmp_head_buf = record { buf = some bytes; len = length bytes } }, [])
  unfolding keep_head
  keep_head_lem io bytes block a = rw (a, copy_whole block bytes (sound.new_size _ block a))

  pub finish_packet_lem :
      (io : Assembly) (block room : List ℕ) (des_len : ℕ)
      → length block ≡ des_len
      → 15 ≤ des_len
      → des_len < 2 ^ 32
      → p.new_bytes (add32 (sub32 des_len 15) 1) ≡ some room
      → finish_packet p receiver io block des_len
        ≡ ok (call p receiver io.conn_id (take (des_len - 15) (drop 10 block)))
  unfolding finish_packet
  finish_packet_lem io block room des_len l h k a =
      let payload = take (des_len - 15) (drop 10 block) in
      let n : sub32 des_len 15 ≡ des_len - 15 = omega arith in
      let n' : add32 (des_len - 15) 1 ≡ des_len - 15 + 1 = omega arith in
      let a' : p.new_bytes (des_len - 15 + 1) ≡ some room = rw (n, n') at a in
      let size : length payload ≡ des_len - 15 =
        omega (arith, length-take (des_len - 15) (drop 10 block), length-drop 10 block) in
      rw (n, n', a', slice_within block 10 (des_len - 15) (omega arith))
        (rw (copy_behind 0 [] room payload refl (omega (arith, size, sound.new_size _ room a'))) (
          rw (
            copy_rest (des_len - 15) room payload (0 ∷ []) (omega (arith, size))
              (omega (arith, size, sound.new_size _ room a')))))

  pub finish_packet_no_memory :
      (io : Assembly) (block : List ℕ) (des_len : ℕ)
      → p.new_bytes (add32 (sub32 des_len 15) 1) ≡ none
      → finish_packet p receiver io block des_len ≡ err bad_alloc
  unfolding finish_packet
  finish_packet_no_memory io block des_len a = rw a

  pub collect_lem :
      (tmp : RecvTmpBuf) (written rest bytes : List ℕ)
      → tmp.buf ≡ some (written ++ rest)
      → length written ≡ tmp.cur_len
      → length bytes ≤ length rest
      → collect p receiver tmp bytes ≡ ok (written ++ (bytes ++ drop (length bytes) rest))
  unfolding collect
  collect_lem tmp written rest bytes b l h =
      rw (b, copy_behind tmp.cur_len written rest bytes (omega arith) h)
