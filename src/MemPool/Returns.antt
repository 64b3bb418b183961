-- ===== src/MemPool/Returns.antt =====
-- What DeleteMem does to the pool.
use windows_verifyserver.Prelude.{
  ℕ, ◌≡◌, ◌≢◌, ◌==◌, ==_iff, refl, sym, ◌∙◌, List, [], ◌∷◌, ◌++◌, true, false, replicate, length,
  get_elem?, set, get_elem?-set_ne, get_elem?-set_self, length-replicate, inl, inr, Bool-cases,
}
use mathlib.Core.Bool.{true≢false}
use windows_verifyserver.Prelude.Results.{Result, ok}
use windows_verifyserver.MemPool.{Mem, Pool, ten_kb, un_use_mem, remove, delete_mem}
use windows_verifyserver.MemPool.Invariant.{
  All, IsBlock, IsPool, All-map, All-both, All-snoc, Distinct-snoc, free≢busy, IsBlock-set, id_lt,
}
use windows_verifyserver.MemPool.Grants.{clear_bytes-zeros}

-- The block `id` becomes free and holds zeros; no other changes.
pub data Return (pool : Pool) (id : ℕ) (r : Result Pool) : Type 0 where
  returned :
      (pool' : Pool)
      → r ≡ ok pool'
      → IsPool pool'
      → pool'.free ≡ pool.free ++ id ∷ []
      → All (λ y. id ≢ y) pool'.busy
      → ((other : ℕ) → id ≢ other → get_elem? pool'.store other ≡ get_elem? pool.store other)
      → Return pool id r

remove-All :
    (P : ℕ → Type 0) (id : ℕ) (xs : List ℕ) → All P xs → All (λ y. P y × (id ≢ y)) (remove id xs)
unfolding remove
remove-All P id [] a = tt
remove-All P id (x ∷ xs) a = elim (Bool-cases (x == id)) [
  | inl t ↦ rw t (remove-All P id xs a.1)
  | inr f ↦
      rw f ((a.0, λ e. true≢false (sym ((==_iff x id).1 (sym e)) ∙ f)), remove-All P id xs a.1)
]

un_use_mem-zeros :
    (m : Mem)
    → m.free ≡ false
    → m.size ≡ ten_kb
    → length m.bytes ≡ ten_kb
    → un_use_mem m ≡ ok (record { bytes = replicate ten_kb 0; free = true; size = ten_kb })
unfolding un_use_mem
un_use_mem-zeros m e f g = rw (un_use_mem, e, f, clear_bytes-zeros m.bytes g) refl

-- DeleteMem of a block that is in use makes it free and fills it with zeros, takes it off the busy
-- list, and keeps the pool's invariant and all other blocks.
pub delete_mem-Return :
    (pool : Pool) (id : ℕ)
    → IsPool pool
    → IsBlock pool.store false id
    → Return pool id (delete_mem pool id)
unfolding delete_mem
delete_mem-Return pool id v b =
    let m : Mem = record { bytes = replicate ten_kb 0; free = true; size = ten_kb } in
    let kept = remove-All (IsBlock pool.store false) id pool.busy v.all_busy in
    let others = All-map pool.free (λ y a e. free≢busy pool.store y id a b (sym e)) v.all_free in
    returned
      (record pool {
        store = set pool.store id m;
        busy = remove id pool.busy;
        free = pool.free ++ id ∷ [];
      })
      (rw (delete_mem, b.found, un_use_mem-zeros b.mem b.flag b.size_eq b.bytes_size) refl)
      (record {
        all_free =
            All-snoc (IsBlock (set pool.store id m) true) pool.free id
              (All-both pool.free (λ y. IsBlock-set pool.store true id y m) others v.all_free)
              (record {
                mem = m;
                found = get_elem?-set_self pool.store id m (id_lt pool.store false id b);
                flag = refl;
                size_eq = refl;
                bytes_size = length-replicate {A = ℕ} ten_kb 0;
                zeros = λ q. refl;
              });
        all_busy =
            All-map (remove id pool.busy) (λ y c. IsBlock-set pool.store false id y m c.1 c.0) kept;
        distinct = Distinct-snoc pool.free id v.distinct others;
      })
      refl (All-map (remove id pool.busy) (λ y c. c.1) kept)
      (λ other ne. get_elem?-set_ne pool.store m ne)
