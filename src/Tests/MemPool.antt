-- ===== src/Tests/MemPool.antt =====
-- The block pool at concrete inputs.
use windows_verifyserver.Prelude.{
  ℕ, ◌≡◌, refl, List, [], ◌∷◌, replicate, arith, true, false, length-replicate, sym,
}
use mathlib.Core.Bool.{true≢false}
use windows_verifyserver.Prelude.Results.{err, out_of_bounds}
use windows_verifyserver.Prelude.Counts.{count}
use windows_verifyserver.Prelude.Memory.{copy_at}
use windows_verifyserver.MemPool.Ending.{there, created, clear_mem_buf-once}
use windows_verifyserver.MemPool.{
  Mem, init_mem_buf, create_mem, clear_bytes, clear_mem_buf, Pool, ten_kb, new_mem, delete_mem,
}
use windows_verifyserver.MemPool.Invariant.{IsBlock, IsPool}
use windows_verifyserver.MemPool.Grants.{Grant, new_mem-Grant}
use windows_verifyserver.MemPool.Returns.{Return, delete_mem-Return}
use windows_verifyserver.MemPool.Oversize.{new_mem-overrun}
use windows_verifyserver.Tests.Tcp.{machine, machine-IsSound}

abbrev block : List ℕ
block = replicate ten_kb 0

-- The first block is in use and the second is free.
abbrev two_blocks : Pool
two_blocks = record {
  store =
      (record { bytes = block; free = false; size = ten_kb })
      ∷ (record { bytes = block; free = true; size = ten_kb })
      ∷ [];
  mem_buf = 0 ∷ 1 ∷ [];
  other_mem_buf = [];
  free = 1 ∷ [];
  busy = 0 ∷ [];
}

first-IsBlock : IsBlock two_blocks.store false 0
first-IsBlock = record {
  mem = record { bytes = block; free = false; size = ten_kb };
  found = refl;
  flag = refl;
  size_eq = refl;
  bytes_size = length-replicate {A = ℕ} ten_kb 0;
  zeros = λ q. absurd (true≢false (sym q));
}

second-IsBlock : IsBlock two_blocks.store true 1
second-IsBlock = record {
  mem = record { bytes = block; free = true; size = ten_kb };
  found = refl;
  flag = refl;
  size_eq = refl;
  bytes_size = length-replicate {A = ℕ} ten_kb 0;
  zeros = λ q. refl;
}

two_blocks-IsPool : IsPool two_blocks
two_blocks-IsPool = record {
  all_free = (second-IsBlock, tt);
  all_busy = (first-IsBlock, tt);
  distinct = (tt, tt);
}

new_mem-Grant_example : Grant two_blocks 60 (new_mem machine two_blocks 60)
new_mem-Grant_example =
    new_mem-Grant machine two_blocks 60 machine-IsSound (omega arith) two_blocks-IsPool

delete_mem-Return_example : Return two_blocks 0 (delete_mem two_blocks 0)
delete_mem-Return_example = delete_mem-Return two_blocks 0 two_blocks-IsPool first-IsBlock

new_mem-overrun_example : new_mem machine two_blocks 10241 ≡ err out_of_bounds
new_mem-overrun_example =
    new_mem-overrun machine two_blocks 10241 machine-IsSound (λ n h. (replicate n 0xcd, refl))
      two_blocks-IsPool (omega arith)

abbrev zero_block : Mem
zero_block = record { bytes = replicate 10240 0; free = true; size = 10240 }

-- The pool of one block.
abbrev one_block : Pool
one_block = record {
  store = zero_block ∷ [];
  mem_buf = 0 ∷ [];
  other_mem_buf = [];
  free = 0 ∷ [];
  busy = [];
}

clear_mem_buf-once_example :
    ((id : ℕ) → count id (clear_mem_buf one_block).1 ≡ there id 1)
    × ((clear_mem_buf one_block).0.free ≡ 0 ∷ [])
    × ((clear_mem_buf one_block).0.busy ≡ [])
unfolding init_mem_buf create_mem clear_bytes copy_at
clear_mem_buf-once_example = clear_mem_buf-once machine one_block (created 1 one_block refl)
