-- ===== src/MemPool/Start.antt =====
-- CMemPool::_initMemBuf.
use windows_verifyserver.Prelude.{
  ℕ, zero, suc, ◌+◌, ◌≡◌, refl, ◌∙◌, [], ◌∷◌, ◌++◌, true, false, length, replicate, length-append,
  length-replicate, inl, inr, arith,
}
use windows_verifyserver.Prelude.Results.{Result, ok, err, bad_alloc}
use windows_verifyserver.Tcp.Platform.{Platform, IsSound}
use windows_verifyserver.MemPool.{Mem, Pool, ten_kb, init_mem_buf, no_pool}
use windows_verifyserver.MemPool.Invariant.{
  IsBlock, IsPool, All-map, All-snoc, Distinct-snoc, IsBlock-push, new≢block, get_elem?-last,
}
use windows_verifyserver.MemPool.Grants.{create_mem-zeros}

-- `n` more blocks are free, or bad_alloc is thrown.
pub data Filled (pool : Pool) (n : ℕ) (r : Result Pool) : Type 0 where
  filled :
      (pool' : Pool)
      → r ≡ ok pool'
      → IsPool pool'
      → length pool'.free ≡ length pool.free + n
      → pool'.busy ≡ pool.busy
      → Filled pool n r
  no_memory : r ≡ err bad_alloc → Filled pool n r

one_more :
    {r : Result Pool} (pool pool' : Pool) (n : ℕ)
    → length pool'.free ≡ length pool.free + 1
    → pool'.busy ≡ pool.busy
    → Filled pool' n r
    → Filled pool (suc n) r
one_more pool pool' n e f (filled q h v k l) = filled q h v (omega arith) (l ∙ f)
one_more pool pool' n e f (no_memory h) = no_memory h

pub no_pool-IsPool : IsPool no_pool
no_pool-IsPool = record { all_free = tt; all_busy = tt; distinct = tt }

module _ (p : Platform) where
  -- _initMemBuf adds its blocks to the free list of a pool, keeping the invariant, or throws
  -- bad_alloc.
  pub init_mem_buf-IsPool :
      (rounds : ℕ) (pool : Pool)
      → IsSound p
      → IsPool pool
      → Filled pool rounds (init_mem_buf p rounds pool)
  unfolding init_mem_buf
  init_mem_buf-IsPool zero pool sound v = filled pool refl v (omega arith) refl
  init_mem_buf-IsPool (suc rounds) pool sound v = elim (create_mem-zeros p sound) [
    | inl e ↦ no_memory (rw (init_mem_buf, e) refl)
    | inr e ↦
        let m : Mem = record { bytes = replicate ten_kb 0; free = true; size = ten_kb } in
        let id = length pool.store in
        let others = All-map pool.free (λ y c. new≢block pool.store true y c) v.all_free in
        let pool' : Pool = record pool {
          store = pool.store ++ m ∷ [];
          mem_buf = pool.mem_buf ++ id ∷ [];
          free = pool.free ++ id ∷ [];
        } in
        let next = init_mem_buf-IsPool rounds pool' sound (record {
          all_free =
              All-snoc (IsBlock (pool.store ++ m ∷ []) true) pool.free id
                (All-map pool.free (λ y. IsBlock-push pool.store true y m) v.all_free)
                (record {
                  mem = m;
                  found = get_elem?-last pool.store m;
                  flag = refl;
                  size_eq = refl;
                  bytes_size = length-replicate {A = ℕ} ten_kb 0;
                  zeros = λ q. refl;
                });
          all_busy = All-map pool.busy (λ y. IsBlock-push pool.store false y m) v.all_busy;
          distinct = Distinct-snoc pool.free id v.distinct others;
        }) in
        rw e
          (one_more pool pool' rounds (omega (arith, length-append pool.free (id ∷ []))) refl next)
  ]
