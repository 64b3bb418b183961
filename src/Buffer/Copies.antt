-- ===== src/Buffer/Copies.antt =====
-- CBuffer::ClearBuffer and Copy.
use windows_verifyserver.Prelude.{
  ℕ, ◌+◌, ◌≤◌, ◌≡◌, refl, ap, List, [], ◌++◌, length, drop, length-append, length-drop, arith, some,
}
use windows_verifyserver.Prelude.Memory.{copy_behind, take_all}
use windows_verifyserver.Prelude.Results.{Result, ok, err, bad_alloc}
use windows_verifyserver.Tcp.Platform.{Platform, IsSound}
use windows_verifyserver.Buffer.{Buffer, clear_buffer, copy}
use windows_verifyserver.Buffer.Contents.{Contents, unallocated, holds, pack_lem, max_size}
use windows_verifyserver.Buffer.Moves.{
  room, full, re_allocate_buffer-Room, kept, lost, de_allocate_buffer-Kept,
}
use windows_verifyserver.Buffer.Remove.{front-Contents}
use windows_verifyserver.Buffer.Append.{get_buffer_len-Contents}

-- A buffer that holds `content` is left, or bad_alloc is thrown.
pub data Leaves (r : Result Buffer) (content : List ℕ) : Type 0 where
  leaves : (b : Buffer) → Contents b content → r ≡ ok b → Leaves r content
  gives_up : r ≡ err bad_alloc → Leaves r content

emptied-Contents :
    (b : Buffer) (content : List ℕ) → Contents b content → Contents (record b { used = 0 }) []
emptied-Contents b content (unallocated e f) = unallocated (rw e refl) refl
emptied-Contents b content (holds spare e l) =
    holds (content ++ spare)
      (rw e (
        pack_lem (content ++ spare) [] (content ++ spare) 0 (length content + length spare) refl
          refl (omega (arith, length-append content spare))))
      (omega (arith, length-append content spare))

-- The copy of the contents that Copy makes in a block with room for them.
copied-Contents :
    (content spare : List ℕ) (size : ℕ)
    → length content ≤ length spare
    → length spare ≤ max_size
    → size ≡ length spare
    → Contents
        (record {
          base = some (content ++ drop (length content) spare);
          used = length content;
          size = size;
        })
        content
copied-Contents content spare size h l e =
    holds (drop (length content) spare)
      (pack_lem (content ++ drop (length content) spare) content (drop (length content) spare)
        (length content) size refl refl (omega (arith, length-drop (length content) spare)))
      (omega (arith, length-drop (length content) spare))

size-Contents :
    (b : Buffer) (content : List ℕ)
    → Contents b content
    → (length content ≤ b.size) × (b.size ≤ max_size)
size-Contents b content (unallocated e f) =
    (omega (arith, ap length f), omega (arith, ap (λ x. x.size) e))
size-Contents b content (holds spare e l) =
    (omega (arith, ap (λ x. x.size) e), omega (arith, ap (λ x. x.size) e))

module _ (p : Platform) where
  -- ClearBuffer leaves an empty buffer, or throws bad_alloc.
  pub clear_buffer-empty :
      (b : Buffer) (content : List ℕ)
      → IsSound p
      → Contents b content
      → Leaves (clear_buffer p b) []
  unfolding clear_buffer
  clear_buffer-empty b content sound c =
      elim (de_allocate_buffer-Kept p (record b { used = 0 }) [] 1024 sound
        (emptied-Contents b content c) (omega arith) (omega arith)) [
          | kept b' n e c' ↦ leaves b' c' (rw (clear_buffer, e) refl)
          | lost e ↦ gives_up (rw (clear_buffer, e) refl)
        ]

  -- After Copy a buffer holds what the other one holds, unless bad_alloc is thrown.
  copy-same :
      (b other : Buffer) (content bytes : List ℕ)
      → IsSound p
      → Contents b content
      → Contents other bytes
      → Leaves (copy p b other) bytes
  unfolding copy
  copy-same b other content bytes sound c d = elim (clear_buffer-empty b content sound c) [
    | gives_up e ↦ gives_up (rw (copy, e) refl)
    | leaves b' c' e ↦
        elim (re_allocate_buffer-Room p b' [] other.size sound c' (omega arith)
          (size-Contents other bytes d).1) [
            | full e' ↦ gives_up (rw (copy, e, e') refl)
            | room spare a e' k l ↦
                leaves
                  (record {
                    base = some (bytes ++ drop (length bytes) spare);
                    used = length bytes;
                    size = 0 + length spare;
                  })
                  (copied-Contents bytes spare (0 + length spare)
                    (omega (arith, (size-Contents other bytes d).0)) (omega arith) (omega arith))
                  (rw
                    (
                      copy,
                      e,
                      e',
                      get_buffer_len-Contents other bytes d,
                      front-Contents other bytes (length bytes) d (omega arith),
                      take_all (length bytes) bytes (omega arith),
                      copy_behind 0 [] spare bytes refl
                          (omega (arith, (size-Contents other bytes d).0)),
                    )
                    refl)
          ]
  ]
