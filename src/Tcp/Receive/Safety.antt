-- ===== src/Tcp/Receive/Safety.antt =====
-- Whatever bytes arrive, `SaveData` ends, and no access of it leaves its block: only `new` can fail.
use windows_verifyserver.Prelude.{
  ℕ, zero, suc, ◌+◌, ◌-◌, ◌*◌, ◌≤◌, ◌<◌, ◌^◌, ◌≡◌, ◌∙◌, ap, Bool, List, [], ◌∷◌, ◌++◌, some, length,
  take, drop, arith, length-append, length-take, length-drop, append-nil, inl, inr, Option-cases,
  take-append-drop,
}
use windows_verifyserver.Prelude.Word.{add32, sub32}
use windows_verifyserver.Prelude.Results.{ok, err, ◌>>=◌, bad_alloc}
use native.Mathlib.Decide.{dec_le, dec_lt, ℕ_discrete}
use windows_verifyserver.Tcp.Platform.{Platform, IsSound}
use windows_verifyserver.Tcp.Packet.{get_packet_len, no_packet}
use windows_verifyserver.Tcp.Packet.Layout.{get_packet_len_bounds}
use windows_verifyserver.Tcp.Receive.{
  Assembly, Delivery, Saved, join_head, keep_head, begin_packet, complete, extend, save_data,
  rounds, deliver_first,
}
use windows_verifyserver.Tcp.Receive.Parts.{join_head_lem, keep_head_lem, emptied}
use windows_verifyserver.Tcp.Receive.Complete.{complete_no_memory, complete_last, complete_more}
use windows_verifyserver.Tcp.Receive.Moves.{
  kept, kept-Waiting, joined, joined-Waiting, begun, begun-Filling, begun-Stuck, emptied-Waiting,
  extended, extended-Filling, extend_lem,
}
use windows_verifyserver.Tcp.Receive.States.{
  State, Waiting-stored, waiting, filling, stuck, Waiting, Filling, step_join, step_skip,
  step_begin, step_keep, step_complete, step_extend, step-Stuck,
}

-- The code's own end, or the exception of `new`.
pub data IsSafe (r : Saved) : Type 0 where
  saved : (io : Assembly) (out : List Delivery) → State io → r ≡ ok (io, out) → IsSafe r
  no_memory : r ≡ err bad_alloc → IsSafe r

IsSafe-≡ : (r s : Saved) → r ≡ s → IsSafe s → IsSafe r
IsSafe-≡ r s e (saved io out st f) = saved io out st (e ∙ f)
IsSafe-≡ r s e (no_memory f) = no_memory (e ∙ f)

IsSafe->>= : (r : Saved) (out : List Delivery) → IsSafe r → IsSafe (r >>= deliver_first out)
IsSafe->>= r out (saved io later st e) = saved io (out ++ later) st (rw e)
IsSafe->>= r out (no_memory e) = no_memory (rw e)

-- What bounds the calls of `SaveData` that a chunk takes.
need : (io : Assembly) → List ℕ → State io → ℕ
need io bytes (waiting head w) = 2 * length bytes + 3 * length head + 1
need io bytes (filling written rest f) = 2 * length bytes
need io bytes (stuck s) = 0

need-begun :
    (io : Assembly) (bytes block : List ℕ) (len : ℕ) (st : State (begun io block len))
    → 15 ≤ len
    → need (begun io block len) bytes st ≤ 2 * length bytes
unfolding need
need-begun io bytes block len (waiting head w) h = absurd (omega (arith, w.idle))
need-begun io bytes block len (filling written rest f) h = omega arith
need-begun io bytes block len (stuck s) h = omega arith

begun-State :
    (io : Assembly) (block : List ℕ) (len : ℕ)
    → Waiting io []
    → length block ≡ len
    → 15 ≤ len
    → len < 2 ^ 32
    → State (begun io block len)
begun-State io block len w e h k = elim (dec_lt len (2 ^ 31)) [
  | yes l ↦ filling [] block (begun-Filling io block len w e h l)
  | no g ↦ stuck (begun-Stuck io block len w (omega arith) k)
]

module _ (p : Platform) (sound : IsSound p) (receiver : Bool) where
  keep-IsSafe :
      (io : Assembly) (bytes : List ℕ)
      → Waiting io []
      → length bytes ≤ 10
      → IsSafe (keep_head p receiver io bytes)
  unfolding keep_head
  keep-IsSafe io bytes w h = elim (Option-cases (p.new_bytes (length bytes))) [
    | inl e ↦ no_memory (rw e)
    | inr (block, e) ↦
        saved (kept io bytes) [] (waiting bytes (kept-Waiting io bytes w h))
          (keep_head_lem p sound receiver io bytes block e)
  ]

  extend-IsSafe :
      (io : Assembly) (bytes written rest : List ℕ)
      → Filling io written rest
      → length bytes < length rest
      → IsSafe (extend p receiver io bytes)
  extend-IsSafe io bytes written rest f h =
      saved (extended io written rest bytes) []
        (filling (written ++ bytes) (drop (length bytes) rest)
          (extended-Filling io written rest bytes f h))
        (extend_lem io written rest bytes f h p sound receiver)

  -- What holds of the calls with less fuel.
  module _ (again : Assembly → List ℕ → Saved) where
    join-IsSafe :
        (io : Assembly) (bytes head : List ℕ)
        → Waiting io head
        → 0 < length head
        → length bytes + length head < 2 ^ 31
        → IsSafe (again (joined io) (head ++ bytes))
        → IsSafe (join_head p receiver io.tmp_head_buf bytes >>= again (joined io))
    unfolding join_head
    join-IsSafe io bytes head w h k safe =
        elim (Option-cases (p.new_bytes (add32 io.tmp_head_buf.len (length bytes)))) [
          | inl e ↦ no_memory (rw e)
          | inr (block, e) ↦
              IsSafe-≡ _ _
                (ap (λ r. r >>= again (joined io))
                  (join_head_lem p sound receiver io.tmp_head_buf bytes head block
                    (Waiting-stored io head w h) (omega (arith, w.head_len))
                    (omega (arith, w.head_len)) e))
                safe
        ]

    begin-IsSafe :
        (io : Assembly) (bytes : List ℕ) (len : ℕ)
        → Waiting io []
        → 15 ≤ len
        → len < 2 ^ 32
        → ((block : List ℕ)
            → State (begun io block len)
            → IsSafe (again (begun io block len) bytes))
        → IsSafe (begin_packet p receiver io len >>= λ io'. again io' bytes)
    unfolding begin_packet
    begin-IsSafe io bytes len w h k safe = elim (Option-cases (p.new_bytes len)) [
      | inl e ↦ no_memory (rw e)
      | inr (block, e) ↦
          rw e (safe block (begun-State io block len w (sound.new_size len block e) h k))
    ]

    -- The packet's bytes come first, then perhaps more.
    complete-IsSafe :
        (io : Assembly) (written rest bytes after : List ℕ)
        → Filling io written rest
        → length bytes ≡ length rest
        → length (bytes ++ after) < 2 ^ 31
        → (0 < length after → IsSafe (again (emptied io) after))
        → IsSafe (complete p receiver again io (bytes ++ after) (length rest))
    complete-IsSafe io written rest bytes after f e k safe =
        elim (Option-cases (p.new_bytes (add32 (sub32 io.tmp_buf.des_len 15) 1))) [
          | inl a ↦
              no_memory
                (complete_no_memory p sound receiver again io written rest bytes f e after a)
          | inr (room, a) ↦ ends after room a safe k
        ]
      where
        ends :
            (after room : List ℕ)
            → p.new_bytes (add32 (sub32 io.tmp_buf.des_len 15) 1) ≡ some room
            → (0 < length after → IsSafe (again (emptied io) after))
            → length (bytes ++ after) < 2 ^ 31
            → IsSafe (complete p receiver again io (bytes ++ after) (length rest))
        ends [] room a safe k = rw (append-nil bytes) (
            saved (emptied io) _ (waiting [] (emptied-Waiting io written rest f))
              (complete_last p sound receiver again io written rest bytes f e room a))
        ends (x ∷ xs) room a safe k =
            IsSafe-≡ _ _
              (complete_more p sound receiver again io written rest bytes f e room a (x ∷ xs)
                (omega arith) k)
              (IsSafe->>= _ _ (safe (omega arith)))

  need-IsSafe :
      (fuel : ℕ) (io : Assembly) (bytes : List ℕ) (st : State io)
      → length bytes + io.tmp_head_buf.len < 2 ^ 31
      → need io bytes st < fuel
      → IsSafe (save_data p receiver fuel io bytes)
  unfolding save_data need
  need-IsSafe zero io bytes st b n = absurd (omega arith)
  need-IsSafe (suc fuel) io bytes (waiting [] w) b n = elim (dec_lt 10 (length bytes)) [
    | yes h ↦ elim (ℕ_discrete (get_packet_len bytes) no_packet) [
      | yes e ↦
          saved io [] (waiting [] w)
            (step_skip p receiver (save_data p receiver fuel) io bytes w h e)
      | no e ↦ IsSafe-≡ _ _ (step_begin p receiver (save_data p receiver fuel) io bytes w h e) (
          begin-IsSafe (save_data p receiver fuel) io bytes (get_packet_len bytes) w
            (get_packet_len_bounds bytes e).0 (get_packet_len_bounds bytes e).1
            λ block st. need-IsSafe fuel (begun io block (get_packet_len bytes)) bytes st b (
              omega (
                arith,
                need-begun io bytes block (get_packet_len bytes) st
                    (get_packet_len_bounds bytes e).0,
              )))
    ]
    | no h ↦
        IsSafe-≡ _ _ (step_keep p receiver (save_data p receiver fuel) io bytes w (omega arith))
          (keep-IsSafe io bytes w (omega arith))
  ]
  need-IsSafe (suc fuel) io bytes (waiting (x ∷ xs) w) b n =
      IsSafe-≡ _ _
        (step_join p receiver (save_data p receiver fuel) io bytes (x ∷ xs) w (omega arith))
        (join-IsSafe (save_data p receiver fuel) io bytes (x ∷ xs) w (omega arith)
          (omega (arith, w.head_len))
          (need-IsSafe fuel (joined io) ((x ∷ xs) ++ bytes)
            (waiting [] (joined-Waiting io (x ∷ xs) w))
            (omega (arith, w.head_len, length-append xs bytes))
            (omega (arith, length-append xs bytes))))
  need-IsSafe (suc fuel) io bytes (filling written rest f) b n =
      elim (dec_le (length rest) (length bytes)) [
        | yes h ↦
            let parts = take-append-drop (length rest) bytes in
            let size : length (drop (length rest) bytes) ≡ length bytes - length rest =
              length-drop (length rest) bytes in
            IsSafe-≡ _ _
              (step_complete p receiver (save_data p receiver fuel) io bytes written rest f h)
              (rw (← parts) (
                complete-IsSafe (save_data p receiver fuel) io written rest
                  (take (length rest) bytes) (drop (length rest) bytes) f
                  (omega (arith, length-take (length rest) bytes)) (rw parts (omega arith))
                  λ _.
                    need-IsSafe fuel (emptied io) (drop (length rest) bytes)
                      (waiting [] (emptied-Waiting io written rest f))
                      (omega (arith, f.no_head, size)) (omega (arith, f.more, size))))
        | no h ↦
            IsSafe-≡ _ _
              (step_extend p receiver (save_data p receiver fuel) io bytes written rest f
                (omega arith))
              (extend-IsSafe io bytes written rest f (omega arith))
      ]
  need-IsSafe (suc fuel) io bytes (stuck s) b n =
      saved io [] (stuck s) (step-Stuck p receiver (save_data p receiver fuel) io bytes s)

  need-rounds :
      (io : Assembly) (bytes : List ℕ) (st : State io) → need io bytes st < rounds io bytes
  unfolding need
  need-rounds io bytes (waiting head w) = omega (arith, w.head_len)
  need-rounds io bytes (filling written rest f) = omega arith
  need-rounds io bytes (stuck s) = omega arith

  -- From every state of the reassembly and for every chunk that an `int` can count, `SaveData` ends
  -- within `rounds` calls of itself, in a state of the reassembly or with the exception of `new`:
  -- it reads and writes no byte outside a block, and follows no null pointer.
  pub save_data-IsSafe :
      (io : Assembly) (bytes : List ℕ)
      → State io
      → length bytes + io.tmp_head_buf.len < 2 ^ 31
      → IsSafe (save_data p receiver (rounds io bytes) io bytes)
  save_data-IsSafe io bytes st b =
      need-IsSafe (rounds io bytes) io bytes st b (need-rounds io bytes st)
