-- ===== src/MemPool.antt =====
-- CMemPool (VerifyServer/IOCompletePort/MemAlloctor.cpp and .h), the pool of fixed blocks behind the
-- operator new of the completion port's packets. A CMem is named by its place in the order of
-- creation; the pool's lock is held through each operation.
pub mod Invariant
pub mod Grants
pub mod Returns
pub mod Oversize
pub mod Start
pub mod Ending
use windows_verifyserver.Prelude.{
  ℕ, zero, suc, ◌+◌, List, [], ◌∷◌, ◌++◌, Option, none, some, Bool, true, false, leb, ◌==◌,
  if◌then◌else◌, length, get_elem?, set, replicate,
}
use windows_verifyserver.Prelude.Memory.{copy_at}
use windows_verifyserver.Prelude.Results.{
  Result, ok, err, ◌>>=◌, or_fault, out_of_bounds, bad_alloc, null_pointer,
}
use windows_verifyserver.Tcp.Platform.{Platform}

-- CMem
pub record Mem : Type 0 where
  pub bytes : List ℕ
  pub free : Bool
  pub size : ℕ

-- CMemPool; `store` is the heap of the CMem objects.
pub record Pool : Type 0 where
  pub store : List Mem
  pub mem_buf : List ℕ
  pub other_mem_buf : List ℕ
  pub free : List ℕ
  pub busy : List ℕ

-- CMem::nTenKB, CMemPool::nTenKB
abbrev pub ten_kb : ℕ
ten_kb = 10240

-- CMemPool::nInitMaxCount
abbrev pub init_max_count : ℕ
init_max_count = 100

abbrev pub no_pool : Pool
no_pool = record { store = []; mem_buf = []; other_mem_buf = []; free = []; busy = [] }

-- `memset(m_byte, 0, n)`
unfoldable pub clear_bytes : List ℕ → ℕ → Result (List ℕ)
clear_bytes bytes n = or_fault (copy_at bytes 0 (replicate n 0)) out_of_bounds

-- CMem::_UseMem, without its result, which the pool does not look at
abbrev pub use_mem : ℕ → Mem → Mem
use_mem n m = if leb n m.size then record m { free = false } else m

-- CMem::_UnUseMem
unfoldable pub un_use_mem : Mem → Result Mem
un_use_mem m = elim m.free [
  | true ↦ ok m
  | false ↦ clear_bytes m.bytes m.size >>= λ bytes.
      ok (record { bytes = bytes; free = true; size = m.size })
]

-- The first free CMem that is large enough, and the free list without it.
unfoldable pub first_fit : List Mem → ℕ → List ℕ → Option (ℕ × List ℕ)
first_fit store n [] = none
first_fit store n (id ∷ ids) =
    let later = first_fit store n ids in
    let skipped : Option (ℕ × List ℕ) = elim later [
      | none ↦ none
      | some (found, rest) ↦ some (found, id ∷ rest)
    ] in
    elim (get_elem? store id) [
      | none ↦ skipped
      | some m ↦ if leb n m.size then some (id, ids) else skipped
    ]

-- CMemPool::DeleteMem's `m_listBusyMem.remove(pMem)`
unfoldable pub remove : ℕ → List ℕ → List ℕ
remove id [] = []
remove id (x ∷ xs) = let rest = remove id xs in if x == id then rest else x ∷ rest

-- What NewMem does with a free CMem.
unfoldable pub take_free : Pool → ℕ → ℕ × List ℕ → Result (Pool × ℕ)
take_free pool n (id, rest) = elim (get_elem? pool.store id) [
  | none ↦ err null_pointer
  | some m ↦ ok (
    (let pool' : Pool = record pool {
      store = set pool.store id (use_mem n m);
      free = rest;
      busy = pool.busy ++ id ∷ [];
    } in
        pool'),
    id,
  )
]

-- CMemPool::DeleteMem
unfoldable pub delete_mem : Pool → ℕ → Result Pool
delete_mem pool id = do
  m ← or_fault (get_elem? pool.store id) null_pointer
  m ← un_use_mem m
  ok (record pool {
    store = set pool.store id m;
    busy = remove id pool.busy;
    free = pool.free ++ id ∷ [];
  })

module _ (p : Platform) where
  -- CMem::CMem(size_t); CMem::CMem() is `create_mem ten_kb`.
  unfoldable pub create_mem : ℕ → Result Mem
  create_mem n = do
    let size = if n == 0 then 1 else n
    block ← or_fault (p.new_bytes ten_kb) bad_alloc
    bytes ← clear_bytes block size
    ok (record { bytes = bytes; free = true; size = size })

  -- CMemPool::_initMemBuf, with the number of rounds that are left
  unfoldable pub init_mem_buf : ℕ → Pool → Result Pool
  init_mem_buf zero pool = ok pool
  init_mem_buf (suc rounds) pool = do
    m ← create_mem ten_kb
    init_mem_buf rounds (record pool {
      store = pool.store ++ m ∷ [];
      mem_buf = pool.mem_buf ++ length pool.store ∷ [];
      free = pool.free ++ length pool.store ∷ [];
    })

  -- What NewMem does when no free CMem is large enough.
  unfoldable pub add_mem : Pool → ℕ → Result (Pool × ℕ)
  add_mem pool n = do
    let id = length pool.store
    m ← create_mem (if leb n ten_kb then ten_kb else n)
    let pool' : Pool = record pool {
      store = pool.store ++ use_mem n m ∷ [];
      mem_buf = if leb n ten_kb then pool.mem_buf ++ id ∷ [] else pool.mem_buf;
      other_mem_buf = if leb n ten_kb then pool.other_mem_buf else pool.other_mem_buf ++ id ∷ [];
      busy = pool.busy ++ id ∷ [];
    }
    ok (pool', id)

  -- CMemPool::NewMem; the CMem stands for its `m_byte`.
  unfoldable pub new_mem : Pool → ℕ → Result (Pool × ℕ)
  new_mem pool n = elim (first_fit pool.store n pool.free) [
    | none ↦ add_mem pool n
    | some found ↦ take_free pool n found
  ]

-- One of the loops of CMemPool::_clearMemBuf: what it deletes, behind what has been deleted.
unfoldable pub delete_each : List ℕ → List ℕ → List ℕ
delete_each [] deleted = deleted
delete_each (id ∷ ids) deleted = delete_each ids (deleted ++ id ∷ [])

-- CMemPool::_clearMemBuf, which the destructor calls: the pool, which keeps its lists of free and busy
-- blocks, and the CMem objects that are deleted.
unfoldable pub clear_mem_buf : Pool → Pool × List ℕ
clear_mem_buf pool = (
  record pool { mem_buf = []; other_mem_buf = [] },
  delete_each pool.other_mem_buf (delete_each pool.mem_buf []),
)
