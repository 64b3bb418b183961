-- ===== src/Buffer.antt =====
-- CBuffer (VerifyServer/socket/tcpserver/Buffer.cpp), a growing block of bytes. Sizes are UINTs.
pub mod Contents
pub mod Moves
pub mod Append
pub mod Remove
pub mod Copies
use windows_verifyserver.Prelude.{
  ℕ, ◌+◌, ◌-◌, ◌*◌, ◌/◌, List, [], ◌++◌, Option, none, some, ltb, ◌==◌, if◌then◌else◌, length, Bool,
  true, false,
}
use windows_verifyserver.Prelude.Memory.{copy_at, slice}
use windows_verifyserver.Prelude.Word.{add32, sub32, word}
use windows_verifyserver.Prelude.Results.{
  Result, ok, ◌>>=◌, or_fault, out_of_bounds, bad_alloc, null_pointer,
}
use windows_verifyserver.Tcp.Platform.{Platform}

-- `used` is m_pData - m_pBase.
pub record Buffer : Type 0 where
  pub base : Option (List ℕ)
  pub used : ℕ
  pub size : ℕ

-- CBuffer::CBuffer
abbrev pub fresh : Buffer
fresh = record { base = none; used = 0; size = 0 }

-- CBuffer::GetBufferLen
abbrev pub get_buffer_len : Buffer → ℕ
get_buffer_len b = elim b.base [ none ↦ 0 | some block ↦ b.used ]

-- `(UINT)ceil(n / 1024.0) * 1024`
abbrev pub round_up : ℕ → ℕ
round_up n = word ((n + 1023) / 1024 * 1024)

-- The first `n` bytes at m_pBase; none are read through a null pointer.
abbrev pub front : Option (List ℕ) → ℕ → Result (List ℕ)
front none n = if n == 0 then ok [] else or_fault none null_pointer
front (some block) n = or_fault (slice block 0 n) out_of_bounds

module _ (p : Platform) where
  -- The common end of ReAllocateBuffer and DeAllocateBuffer: a new block takes over the data.
  unfoldable pub move_to : Buffer → ℕ → Result (Buffer × ℕ)
  move_to b size = do
    block ← or_fault (p.new_bytes size) bad_alloc
    kept ← front b.base (get_buffer_len b)
    block ← or_fault (copy_at block 0 kept) out_of_bounds
    ok (record { base = some block; used = get_buffer_len b; size = size }, size)

  -- CBuffer::ReAllocateBuffer
  unfoldable pub re_allocate_buffer : Buffer → ℕ → Result (Buffer × ℕ)
  re_allocate_buffer b request = elim (ltb request b.size) [
    | true ↦ ok (b, 0)
    | false ↦ move_to b (round_up request)
  ]

  -- CBuffer::DeAllocateBuffer
  unfoldable pub de_allocate_buffer : Buffer → ℕ → Result (Buffer × ℕ)
  de_allocate_buffer b request = elim (ltb request (get_buffer_len b)) [
    | true ↦ ok (b, 0)
    | false ↦ elim (ltb (round_up request) b.size) [
      | true ↦ ok (b, 0)
      | false ↦ move_to b (round_up request)
    ]
  ]

  -- CBuffer::Write
  unfoldable pub write : Buffer → List ℕ → Result (Buffer × ℕ)
  write b bytes = do
    (b, _) ← re_allocate_buffer b (add32 (length bytes) (get_buffer_len b))
    block ← or_fault b.base null_pointer
    block ← or_fault (copy_at block b.used bytes) out_of_bounds
    ok (record b { base = some block; used = b.used + length bytes }, length bytes)

  -- The bytes go in front of the data, which moves up.
  unfoldable pub shift_up : Buffer → List ℕ → Result (Buffer × ℕ)
  shift_up b bytes = do
    block ← or_fault b.base null_pointer
    old ← or_fault (slice block 0 (sub32 b.size (length bytes))) out_of_bounds
    block ← or_fault (copy_at block (length bytes) old) out_of_bounds
    block ← or_fault (copy_at block 0 bytes) out_of_bounds
    ok (record b { base = some block; used = b.used + length bytes }, length bytes)

  -- CBuffer::Insert
  unfoldable pub insert : Buffer → List ℕ → Result (Buffer × ℕ)
  insert b bytes = do
    (b, _) ← re_allocate_buffer b (add32 (length bytes) (get_buffer_len b))
    shift_up b bytes

  -- The data behind the first `n` bytes moves to the front.
  unfoldable pub shift_down : Buffer → ℕ → Result Buffer
  shift_down b n = do
    block ← or_fault b.base null_pointer
    rest ← or_fault (slice block n (sub32 b.size n)) out_of_bounds
    block ← or_fault (copy_at block 0 rest) out_of_bounds
    ok (record b { base = some block; used = b.used - n })

  -- What Read and Delete do once they know how many bytes to take.
  unfoldable pub take_front : Buffer → ℕ → Result (Buffer × ℕ)
  take_front b n = do
    b ← elim (n == 0) [ true ↦ ok b | false ↦ shift_down b n ]
    (b, _) ← de_allocate_buffer b (get_buffer_len b)
    ok (b, n)

  -- CBuffer::Delete
  unfoldable pub delete : Buffer → ℕ → Result (Buffer × ℕ)
  delete b n = elim (ltb b.size n) [
    | true ↦ ok (b, 0)
    | false ↦ take_front b (if ltb (get_buffer_len b) n then get_buffer_len b else n)
  ]

  -- CBuffer::Read: the bytes that go to `pData` come first.
  unfoldable pub read : Buffer → ℕ → Result (List ℕ × (Buffer × ℕ))
  read b n = elim (ltb b.size n) [
    | true ↦ ok ([], (b, 0))
    | false ↦ do
      let n' = if ltb (get_buffer_len b) n then get_buffer_len b else n
      out ← front b.base n'
      r ← take_front b n'
      ok (out, r)
  ]

  -- CBuffer::ClearBuffer
  unfoldable pub clear_buffer : Buffer → Result Buffer
  clear_buffer b = do (b, _) ← de_allocate_buffer (record b { used = 0 }) 1024; ok b

  -- CBuffer::Copy
  unfoldable pub copy : Buffer → Buffer → Result Buffer
  copy b other = do
    b ← clear_buffer b
    (b, _) ← re_allocate_buffer b other.size
    block ← or_fault b.base null_pointer
    bytes ← front other.base (get_buffer_len other)
    block ← or_fault (copy_at block 0 bytes) out_of_bounds
    ok (record b { base = some block; used = get_buffer_len other })
