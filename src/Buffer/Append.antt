-- ===== src/Buffer/Append.antt =====
-- CBuffer::Write and CBuffer::Insert.
use windows_verifyserver.Prelude.{
  ℕ, ◌+◌, ◌-◌, ◌≤◌, ◌≡◌, refl, ap, sym, List, [], ◌++◌, length, take, drop, length-append,
  length-take, length-drop, append_assoc, append-nil, arith,
}
use windows_verifyserver.Prelude.Memory.{copy_behind, slice_within, drop-append, drop_all}
use windows_verifyserver.Prelude.Results.{ok}
use windows_verifyserver.Tcp.Platform.{Platform, IsSound}
use windows_verifyserver.Buffer.{Buffer, get_buffer_len, write, insert, shift_up}
use windows_verifyserver.Buffer.Contents.{
  Contents, unallocated, holds, pack, pack_lem, max_size, Outcome, done, no_memory, take_over,
  copy_within,
}
use windows_verifyserver.Buffer.Moves.{small, sub32_lem, room, full, re_allocate_buffer-Room}

pub get_buffer_len-Contents :
    (b : Buffer) (content : List ℕ) → Contents b content → get_buffer_len b ≡ length content
get_buffer_len-Contents b content (unallocated e f) = rw (e, f) refl
get_buffer_len-Contents b content (holds spare e l) = rw e refl

pub length-Contents :
    (b : Buffer) (content : List ℕ) → Contents b content → length content ≤ max_size
length-Contents b content (unallocated e f) = rw f (omega arith)
length-Contents b content (holds spare e l) = omega arith

module _ (p : Platform) where
  -- Write appends the bytes to what the buffer holds and returns their number, or throws
  -- bad_alloc, as long as the new contents fit in the largest block.
  pub write-append :
      (b : Buffer) (content bytes : List ℕ)
      → IsSound p
      → Contents b content
      → length bytes + length content ≤ max_size
      → Outcome (write p b bytes) (content ++ bytes) (length bytes)
  unfolding write
  write-append b content bytes sound c h =
      elim (re_allocate_buffer-Room p b content (length bytes + length content) sound c
        (omega arith) h) [
          | full e ↦ no_memory (
              rw
                (
                  write,
                  get_buffer_len-Contents b content c,
                  small (length bytes + length content) h,
                  e,
                )
                refl)
          | room spare a e k l ↦
              done (pack (content ++ bytes) (drop (length bytes) spare))
                (holds (drop (length bytes) spare) refl
                  (omega (arith, length-append content bytes, length-drop (length bytes) spare)))
                (rw
                  (
                    write,
                    get_buffer_len-Contents b content c,
                    small (length bytes + length content) h,
                    e,
                    copy_behind (length content) content spare bytes refl (omega arith),
                  )
                  (ap (λ b'. ok (b', length bytes))
                    (pack_lem (content ++ (bytes ++ drop (length bytes) spare)) (content ++ bytes)
                      (drop (length bytes) spare) (length content + length bytes)
                      (length content + length spare)
                      (sym (append_assoc content bytes (drop (length bytes) spare)))
                      (sym (length-append content bytes))
                      (omega
                        (arith, length-append content bytes, length-drop (length bytes) spare)))))
        ]

  shift_up-prepend :
      (content spare bytes : List ℕ)
      → length bytes ≤ length spare
      → length content + length spare ≤ max_size
      → shift_up p (pack content spare) bytes
        ≡ ok (pack (bytes ++ content) (take (length spare - length bytes) spare), length bytes)
  unfolding shift_up
  shift_up-prepend content spare bytes h l =
      let k = length spare - length bytes in
      let block = content ++ spare in
      let old = content ++ take k spare in
      let n = length content + length spare - length bytes in
      rw
        (
          shift_up,
          sub32_lem (length content + length spare) (length bytes) (omega arith) l,
          slice_within block 0 n (omega (arith, length-append content spare)),
          take_over n k content spare (omega arith),
          copy_within block (length bytes) old (
              omega (
                arith,
                length-append content spare,
                length-append content (take k spare),
                length-take k spare,
              )),
          drop_all (length bytes + length old) block (
              omega (
                arith,
                length-append content spare,
                length-append content (take k spare),
                length-take k spare,
              )),
          copy_behind 0 [] (take (length bytes) block ++ (old ++ [])) bytes refl (
              omega (
                arith,
                length-append (take (length bytes) block) (old ++ []),
                length-take (length bytes) block,
                length-append content spare,
              )),
          drop-append (length bytes) (length bytes) 0 (take (length bytes) block) (old ++ [])
              (omega (arith, length-take (length bytes) block, length-append content spare))
              (omega arith),
          append-nil,
        )
        (ap (λ b. ok (b, length bytes))
          (pack_lem (bytes ++ old) (bytes ++ content) (take k spare) (length content + length bytes)
            (length content + length spare) (sym (append_assoc bytes content (take k spare)))
            (omega (arith, length-append bytes content))
            (omega (arith, length-append bytes content, length-take k spare))))

  -- Insert puts the bytes in front of what the buffer holds and returns their number, or throws
  -- bad_alloc, as long as the new contents fit in the largest block.
  insert-prepend :
      (b : Buffer) (content bytes : List ℕ)
      → IsSound p
      → Contents b content
      → length bytes + length content ≤ max_size
      → Outcome (insert p b bytes) (bytes ++ content) (length bytes)
  unfolding insert
  insert-prepend b content bytes sound c h =
      elim (re_allocate_buffer-Room p b content (length bytes + length content) sound c
        (omega arith) h) [
          | full e ↦ no_memory (
              rw
                (
                  insert,
                  get_buffer_len-Contents b content c,
                  small (length bytes + length content) h,
                  e,
                )
                refl)
          | room spare a e k l ↦
              done (pack (bytes ++ content) (take (length spare - length bytes) spare))
                (holds (take (length spare - length bytes) spare) refl (
                  omega (
                    arith,
                    length-append bytes content,
                    length-take (length spare - length bytes) spare,
                  )))
                (rw
                  (
                    insert,
                    get_buffer_len-Contents b content c,
                    small (length bytes + length content) h,
                    e,
                  )
                  (shift_up-prepend content spare bytes (omega arith) l))
        ]
