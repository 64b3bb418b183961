-- ===== src/MemPool/Oversize.antt =====
-- NewMem of more than ten kilobytes: the buffer of a CMem does not grow with its size.
use windows_verifyserver.Prelude.{
  ℕ, ◌<◌, ◌≡◌, refl, List, [], ◌∷◌, none, true, length, replicate, lt→leb, length-replicate, ne→==,
  arith,
}
use windows_verifyserver.Prelude.Memory.{copy_out_of_range}
use windows_verifyserver.Prelude.Results.{err, out_of_bounds}
use windows_verifyserver.Tcp.Platform.{Platform, IsSound, Allocates}
use windows_verifyserver.MemPool.{
  Mem, Pool, ten_kb, clear_bytes, first_fit, create_mem, add_mem, new_mem,
}
use windows_verifyserver.MemPool.Invariant.{All, IsBlock, IsPool}

first_fit-none :
    (store : List Mem) (n : ℕ) (ids : List ℕ)
    → ten_kb < n
    → All (IsBlock store true) ids
    → first_fit store n ids ≡ none
unfolding first_fit
first_fit-none store n [] h a = refl
first_fit-none store n (id ∷ ids) h a =
    rw
      (
        first_fit,
        a.0.found,
        lt→leb n a.0.mem.size (omega (arith, a.0.size_eq)),
        first_fit-none store n ids h a.1,
      )
      refl

clear_bytes-overrun :
    (bytes : List ℕ) (n : ℕ) → length bytes < n → clear_bytes bytes n ≡ err out_of_bounds
unfolding clear_bytes
clear_bytes-overrun bytes n h =
    rw
      (
        clear_bytes,
        copy_out_of_range bytes 0 (replicate n 0) (omega (arith, length-replicate {A = ℕ} n 0)),
      )
      refl

module _ (p : Platform) where
  create_mem-overrun :
      (n : ℕ) → IsSound p → Allocates p ten_kb → ten_kb < n → create_mem p n ≡ err out_of_bounds
  unfolding create_mem
  create_mem-overrun n sound ready h =
      let b = ready ten_kb (omega arith) in
      rw
        (
          create_mem,
          ne→== n 0 (omega arith),
          b.1,
          clear_bytes-overrun b.0 n (omega (arith, sound.new_size ten_kb b.0 b.1)),
        )
        refl

  -- NewMem of more than ten kilobytes writes behind the buffer of the CMem that it creates, if there
  -- is memory for one.
  pub new_mem-overrun :
      (pool : Pool) (n : ℕ)
      → IsSound p
      → Allocates p ten_kb
      → IsPool pool
      → ten_kb < n
      → new_mem p pool n ≡ err out_of_bounds
  unfolding new_mem add_mem
  new_mem-overrun pool n sound ready v h =
      rw
        (
          new_mem,
          first_fit-none pool.store n pool.free h v.all_free,
          add_mem,
          lt→leb n ten_kb h,
          create_mem-overrun n sound ready h,
        )
        refl
