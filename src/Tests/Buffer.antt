-- ===== src/Tests/Buffer.antt =====
-- The growing buffer at concrete inputs.
use windows_verifyserver.Prelude.{◌≡◌, refl, [], ◌∷◌, ◌++◌, replicate, arith}
use windows_verifyserver.Prelude.Results.{ok}
use windows_verifyserver.Prelude.Memory.{copy_at, slice}
use windows_verifyserver.Buffer.{
  Buffer, fresh, write, insert, read, shift_up, re_allocate_buffer, de_allocate_buffer, move_to,
}
use windows_verifyserver.Buffer.Contents.{Contents, unallocated, holds, pack, Outcome}
use windows_verifyserver.Buffer.Append.{write-append}
use windows_verifyserver.Buffer.Remove.{Taken, read-take}
use windows_verifyserver.Tests.Tcp.{machine, machine-IsSound, hi, you}

abbrev stored : Buffer
stored = pack hi (replicate 6 0)

stored-Contents : Contents stored hi
stored-Contents = holds (replicate 6 0) refl (omega arith)

-- A small block, filled exactly.
abbrev packed_full : Buffer
packed_full = pack you []

inserted : insert machine stored you ≡ ok (pack (you ++ hi) (0 ∷ 0 ∷ 0 ∷ []), 3)
unfolding insert re_allocate_buffer shift_up copy_at slice
inserted = refl

write-append_example : Outcome (write machine fresh hi) ([] ++ hi) 2
write-append_example =
    write-append machine fresh [] hi machine-IsSound (unallocated refl refl) (omega arith)

read-take_example : Taken (read machine stored 1) (b'h' ∷ []) (b'i' ∷ [])
read-take_example = read-take machine stored hi 1 machine-IsSound stored-Contents (omega arith)

-- Two bytes in a block of eight move to a block of a kilobyte.
moved : de_allocate_buffer machine stored 2 ≡ ok (pack hi (replicate 1022 0xcd), 1024)
unfolding de_allocate_buffer move_to copy_at slice
moved = refl
