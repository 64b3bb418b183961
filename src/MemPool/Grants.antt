-- ===== src/MemPool/Grants.antt =====
-- What NewMem and DeleteMem do to the pool, for blocks of up to ten kilobytes.
use windows_verifyserver.Prelude.{
  ℕ, ◌<◌, ◌≤◌, ◌≡◌, ◌≢◌, refl, sym, ◌∙◌, List, [], ◌∷◌, ◌++◌, some, true, false, length, get_elem?,
  set, replicate, get_elem?-set_ne, get_elem?-set_self, arith, inl, inr, ◌⊎◌, Option-cases,
  length-replicate, le→leb,
}
use windows_verifyserver.Prelude.Memory.{copy_whole}
use windows_verifyserver.Prelude.Results.{Result, ok, err, bad_alloc}
use mathlib.Core.Bool.{true≢false}
use windows_verifyserver.Tcp.Platform.{Platform, IsSound}
use windows_verifyserver.MemPool.{
  Mem, Pool, ten_kb, clear_bytes, use_mem, first_fit, take_free, create_mem, add_mem, new_mem,
}
use windows_verifyserver.MemPool.Invariant.{
  All, Distinct, IsBlock, IsPool, All-map, All-both, All-snoc, free≢busy, IsBlock-set,
  get_elem?-push, get_elem?-last, IsBlock-push, id_lt, new≢block,
}

-- NewMem hands out a block of zeros that was not in use, or throws bad_alloc.
pub data Grant (pool : Pool) (n : ℕ) (r : Result (Pool × ℕ)) : Type 0 where
  granted :
      (pool' : Pool) (id : ℕ) (m : Mem)
      → r ≡ ok (pool', id)
      → IsPool pool'
      → pool'.busy ≡ pool.busy ++ id ∷ []
      → All (λ y. id ≢ y) pool.busy
      → get_elem? pool'.store id ≡ some m
      → m.bytes ≡ replicate ten_kb 0
      → n ≤ m.size
      → ((other : ℕ) (m' : Mem)
          → id ≢ other
          → get_elem? pool.store other ≡ some m'
          → get_elem? pool'.store other ≡ some m')
      → Grant pool n r
  no_memory : r ≡ err bad_alloc → Grant pool n r

pub clear_bytes-zeros :
    (bytes : List ℕ) → length bytes ≡ ten_kb → clear_bytes bytes ten_kb ≡ ok (replicate ten_kb 0)
unfolding clear_bytes
clear_bytes-zeros bytes e =
    rw
      (
        clear_bytes,
        copy_whole bytes (replicate ten_kb 0) (omega (arith, length-replicate {A = ℕ} ten_kb 0)),
      )
      refl

module _ (p : Platform) where
  pub create_mem-zeros :
      IsSound p
      → (create_mem p ten_kb ≡ err bad_alloc)
        ⊎ (create_mem p ten_kb
            ≡ ok (record { bytes = replicate ten_kb 0; free = true; size = ten_kb }))
  unfolding create_mem
  create_mem-zeros sound = elim (Option-cases (p.new_bytes ten_kb)) [
    | inl e ↦ inl (rw (create_mem, e) refl)
    | inr (b, e) ↦ inr (rw (create_mem, e, clear_bytes-zeros b (sound.new_size ten_kb b e)) refl)
  ]

  first_fit_lem :
      (pool : Pool) (n : ℕ) (id : ℕ) (ids : List ℕ)
      → n ≤ ten_kb
      → IsBlock pool.store true id
      → first_fit pool.store n (id ∷ ids) ≡ some (id, ids)
  unfolding first_fit
  first_fit_lem pool n id ids h b =
      rw (first_fit, b.found, le→leb n b.mem.size (omega (arith, b.size_eq))) refl

  -- A block that is marked as in use.
  marked :
      (n : ℕ) (m : Mem) → n ≤ ten_kb → m.size ≡ ten_kb → use_mem n m ≡ record m { free = false }
  marked n m h e = rw (le→leb n m.size (omega arith)) refl

  taken :
      (store : List Mem) (id : ℕ) (m : Mem)
      → id < length store
      → length m.bytes ≡ ten_kb
      → m.size ≡ ten_kb
      → IsBlock (set store id (record m { free = false })) false id
  taken store id m h e f = record {
    mem = record m { free = false };
    found = get_elem?-set_self store id (record m { free = false }) h;
    flag = refl;
    size_eq = f;
    bytes_size = e;
    zeros = λ q. absurd (true≢false (sym q));
  }

  take_free-Grant :
      (pool : Pool) (n : ℕ) (id : ℕ) (ids : List ℕ)
      → n ≤ ten_kb
      → All (IsBlock pool.store true) (id ∷ ids)
      → All (IsBlock pool.store false) pool.busy
      → Distinct (id ∷ ids)
      → Grant pool n (take_free pool n (id, ids))
  unfolding take_free
  take_free-Grant pool n id ids h a b d =
      let m = a.0.mem in
      let m' : Mem = record m { free = false } in
      let others = All-map pool.busy (λ y c. free≢busy pool.store id y a.0 c) b in
      granted
        (record pool { store = set pool.store id m'; free = ids; busy = pool.busy ++ id ∷ [] }) id
        m' (rw (take_free, a.0.found, marked n m h a.0.size_eq) refl)
        (record {
          all_free = All-both ids (λ y. IsBlock-set pool.store true id y m') d.0 a.1;
          all_busy =
              All-snoc (IsBlock (set pool.store id m') false) pool.busy id
                (All-both pool.busy (λ y. IsBlock-set pool.store false id y m') others b)
                (taken pool.store id m (id_lt pool.store true id a.0) a.0.bytes_size a.0.size_eq);
          distinct = d.1;
        })
        refl others (get_elem?-set_self pool.store id m' (id_lt pool.store true id a.0))
        (a.0.zeros refl) (omega (arith, a.0.size_eq))
        (λ other m'' ne e. get_elem?-set_ne pool.store m' ne ∙ e)

  add_mem-Grant :
      (pool : Pool) (n : ℕ) → IsSound p → n ≤ ten_kb → IsPool pool → Grant pool n (add_mem p pool n)
  unfolding add_mem
  add_mem-Grant pool n sound h v = elim (create_mem-zeros sound) [
    | inl e ↦ no_memory (rw (add_mem, le→leb n ten_kb h, e) refl)
    | inr e ↦
        let m : Mem = record { bytes = replicate ten_kb 0; free = false; size = ten_kb } in
        let id = length pool.store in
        let others = All-map pool.busy (λ y c. new≢block pool.store false y c) v.all_busy in
        granted
          (record pool {
            store = pool.store ++ m ∷ [];
            mem_buf = pool.mem_buf ++ id ∷ [];
            busy = pool.busy ++ id ∷ [];
          })
          id m (rw (add_mem, le→leb n ten_kb h, e, marked n (record m { free = true }) h refl) refl)
          (record {
            all_free = All-map pool.free (λ y. IsBlock-push pool.store true y m) v.all_free;
            all_busy =
                All-snoc (IsBlock (pool.store ++ m ∷ []) false) pool.busy id
                  (All-map pool.busy (λ y. IsBlock-push pool.store false y m) v.all_busy)
                  (record {
                    mem = m;
                    found = get_elem?-last pool.store m;
                    flag = refl;
                    size_eq = refl;
                    bytes_size = length-replicate {A = ℕ} ten_kb 0;
                    zeros = λ q. absurd (true≢false (sym q));
                  });
            distinct = v.distinct;
          })
          refl others (get_elem?-last pool.store m) refl h
          (λ other m' ne e'. get_elem?-push pool.store other m' m e')
  ]

  with_free :
      (pool : Pool) (n : ℕ) (free : List ℕ)
      → IsSound p
      → n ≤ ten_kb
      → IsPool pool
      → pool.free ≡ free
      → All (IsBlock pool.store true) free
      → Distinct free
      → Grant pool n (new_mem p pool n)
  unfolding new_mem first_fit
  with_free pool n [] sound h v e a d = simp (new_mem, e) (add_mem-Grant pool n sound h v)
  with_free pool n (id ∷ ids) sound h v e a d =
      simp (new_mem, e, first_fit_lem pool n id ids h a.0)
        (take_free-Grant pool n id ids h a v.all_busy d)

  -- NewMem of up to ten kilobytes hands out a block of zeros of at least that size that was not in
  -- use, keeps the pool's invariant and all other blocks, or throws bad_alloc.
  pub new_mem-Grant :
      (pool : Pool) (n : ℕ) → IsSound p → n ≤ ten_kb → IsPool pool → Grant pool n (new_mem p pool n)
  new_mem-Grant pool n sound h v = with_free pool n pool.free sound h v refl v.all_free v.distinct
