-- ===== src/MemPool/Ending.antt =====
-- What _clearMemBuf deletes at the end of a pool.
use windows_verifyserver.Prelude.{
  ℕ, zero, suc, ◌+◌, ◌≡◌, refl, sym, ap, ◌∙◌, subst, List, [], ◌∷◌, ◌++◌, leb, ltb, if◌then◌else◌,
  length, length-append, length-set, set, get_elem?, Bool-cases, Option-cases, inl, inr, arith,
}
use windows_verifyserver.Prelude.Counts.{count, count-append, same}
use windows_verifyserver.Prelude.Results.{
  Result, ok, err, or_fault, null_pointer, bind-ok, ok-injective,
}
use windows_verifyserver.Tcp.Platform.{Platform}
use windows_verifyserver.MemPool.{
  Mem, Pool, no_pool, ten_kb, create_mem, init_mem_buf, first_fit, take_free, add_mem, new_mem,
  un_use_mem, delete_mem, use_mem, delete_each, clear_mem_buf,
}

-- 1 for a CMem that there is among so many, 0 for any other number.
abbrev pub there : ℕ → ℕ → ℕ
there id n = if ltb id n then 1 else 0

-- Each CMem that there is stands once in one of the two vectors.
abbrev IsListed : Pool → Type 0
IsListed pool =
    (id : ℕ) → count id pool.mem_buf + count id pool.other_mem_buf ≡ there id (length pool.store)

one_more : (id n : ℕ) → there id (n + 1) ≡ there id n + same id n
one_more id n = ground arith

count_one_more : (o : ℕ) (xs : List ℕ) (k : ℕ) → count o (xs ++ k ∷ []) ≡ count o xs + same o k
unfolding count
count_one_more o xs k = omega (arith, count-append o xs (k ∷ []))

IsListed-kept :
    (s t : Pool)
    → IsListed s
    → t.mem_buf ≡ s.mem_buf
    → t.other_mem_buf ≡ s.other_mem_buf
    → length t.store ≡ length s.store
    → IsListed t
IsListed-kept s t v a b l id =
    omega (arith, ap (count id) a, ap (count id) b, v id, ap (there id) l)

count-none : (id : ℕ) → count id [] ≡ 0
unfolding count
count-none id = refl

delete_each-count :
    (id : ℕ) (ids deleted : List ℕ)
    → count id (delete_each ids deleted) ≡ count id ids + count id deleted
unfolding delete_each count
delete_each-count id [] deleted = omega arith
delete_each-count id (x ∷ ids) deleted =
    omega (arith, delete_each-count id ids (deleted ++ x ∷ []), count_one_more id deleted x)

-- The life of a pool, for any number of blocks that its constructor makes.
module _ (p : Platform) where
  pub data Reach : Pool → Type 0 where
    created : (rounds : ℕ) (t : Pool) → init_mem_buf p rounds no_pool ≡ ok t → Reach t
    grants : (s t : Pool) (n id : ℕ) → Reach s → new_mem p s n ≡ ok (t, id) → Reach t
    returns : (s t : Pool) (id : ℕ) → Reach s → delete_mem s id ≡ ok t → Reach t

  IsListed-push :
      (s t : Pool) (m : Mem)
      → IsListed s
      → t.store ≡ s.store ++ m ∷ []
      → ((id : ℕ)
          → count id t.mem_buf + count id t.other_mem_buf
            ≡ (count id s.mem_buf + count id s.other_mem_buf) + same id (length s.store))
      → IsListed t
  IsListed-push s t m v e c id =
      let l : length t.store ≡ length s.store + 1 = ap length e ∙ length-append s.store (m ∷ []) in
      omega (arith, c id, v id, one_more id (length s.store), ap (there id) l)

  init_mem_buf-IsListed :
      (rounds : ℕ) (s t : Pool) → init_mem_buf p rounds s ≡ ok t → IsListed s → IsListed t
  unfolding init_mem_buf
  init_mem_buf-IsListed zero s t e v = subst IsListed (ok-injective s t e) v
  init_mem_buf-IsListed (suc rounds) s t e v =
      let (m, k, g) = bind-ok (create_mem p ten_kb) _ t e in
      let s' : Pool = record s {
        store = s.store ++ m ∷ [];
        mem_buf = s.mem_buf ++ length s.store ∷ [];
        free = s.free ++ length s.store ∷ [];
      } in
      init_mem_buf-IsListed rounds s' t g (
        IsListed-push s s' m v refl
          (λ id. omega (arith, count_one_more id s.mem_buf (length s.store))))

  take_free-IsListed :
      (s t : Pool) (n id : ℕ) (found : ℕ × List ℕ)
      → take_free s n found ≡ ok (t, id)
      → IsListed s
      → IsListed t
  unfolding take_free
  take_free-IsListed s t n id (x, rest) e v = elim (Option-cases (get_elem? s.store x)) [
    | inl k ↦
        let g : (let e' : Result (Pool × ℕ) = err null_pointer in e') ≡ ok (t, id) =
          sym (rw (take_free, k) refl) ∙ e in
        absurd cc
    | inr (m, k) ↦
        let s' : Pool = record s {
          store = set s.store x (use_mem n m);
          free = rest;
          busy = s.busy ++ x ∷ [];
        } in
        let g : ok (s', x) ≡ ok (t, id) = sym (rw (take_free, k) refl) ∙ e in
        let q : s' ≡ t = ap (λ r. r.0) (ok-injective (s', x) (t, id) g) in
        subst IsListed q (IsListed-kept s s' v refl refl (length-set s.store x (use_mem n m)))
  ]

  add_mem-IsListed : (s t : Pool) (n id : ℕ) → add_mem p s n ≡ ok (t, id) → IsListed s → IsListed t
  unfolding add_mem
  add_mem-IsListed s t n id e v =
      let (m, k, g) = bind-ok (create_mem p (if leb n ten_kb then ten_kb else n)) _ (t, id) e in
      let q = ap (λ r. r.0) (ok-injective _ (t, id) g) in
      let x = length s.store in
      IsListed-push s t (use_mem n m) v (ap (λ r. r.store) (sym q)) (λ i.
        elim (Bool-cases (leb n ten_kb)) [
          | inl y ↦
              let a : t.mem_buf ≡ s.mem_buf ++ x ∷ [] = ap (λ r. r.mem_buf) (sym q) ∙ rw y refl in
              let b : t.other_mem_buf ≡ s.other_mem_buf =
                ap (λ r. r.other_mem_buf) (sym q) ∙ rw y refl in
              omega (arith, ap (count i) a, ap (count i) b, count_one_more i s.mem_buf x)
          | inr z ↦
              let a : t.mem_buf ≡ s.mem_buf = ap (λ r. r.mem_buf) (sym q) ∙ rw z refl in
              let b : t.other_mem_buf ≡ s.other_mem_buf ++ x ∷ [] =
                ap (λ r. r.other_mem_buf) (sym q) ∙ rw z refl in
              omega (arith, ap (count i) a, ap (count i) b, count_one_more i s.other_mem_buf x)
        ])

  new_mem-IsListed : (s t : Pool) (n id : ℕ) → new_mem p s n ≡ ok (t, id) → IsListed s → IsListed t
  unfolding new_mem
  new_mem-IsListed s t n id e v = elim (Option-cases (first_fit s.store n s.free)) [
    | inl k ↦ add_mem-IsListed s t n id (sym (rw (new_mem, k) refl) ∙ e) v
    | inr (found, k) ↦ take_free-IsListed s t n id found (sym (rw (new_mem, k) refl) ∙ e) v
  ]

  delete_mem-IsListed : (s t : Pool) (id : ℕ) → delete_mem s id ≡ ok t → IsListed s → IsListed t
  unfolding delete_mem
  delete_mem-IsListed s t id e v =
      let (m, k, g) = bind-ok (or_fault (get_elem? s.store id) null_pointer) _ t e in
      let (m', k', g') = bind-ok (un_use_mem m) _ t g in
      let q = ok-injective _ t g' in
      IsListed-kept s t v (ap (λ r. r.mem_buf) (sym q)) (ap (λ r. r.other_mem_buf) (sym q))
        (ap (λ r. length r.store) (sym q) ∙ length-set s.store id m')

  no_pool-IsListed : IsListed no_pool
  unfolding count
  no_pool-IsListed id = ground arith

  pub Reach-IsListed : (s : Pool) → Reach s → IsListed s
  Reach-IsListed _ (created rounds t e) = init_mem_buf-IsListed rounds no_pool t e no_pool-IsListed
  Reach-IsListed _ (grants s t n id r e) = new_mem-IsListed s t n id e (Reach-IsListed s r)
  Reach-IsListed _ (returns s t id r e) = delete_mem-IsListed s t id e (Reach-IsListed s r)

  -- Whatever a pool has been through from its constructor on, by NewMem and DeleteMem, _clearMemBuf
  -- deletes each CMem that there is exactly once, and nothing else, those in use included, and leaves
  -- the lists of free and busy blocks as they are.
  pub clear_mem_buf-once :
      (s : Pool)
      → Reach s
      → ((id : ℕ) → count id (clear_mem_buf s).1 ≡ there id (length s.store))
        × ((clear_mem_buf s).0.free ≡ s.free)
        × ((clear_mem_buf s).0.busy ≡ s.busy)
  unfolding clear_mem_buf
  clear_mem_buf-once s r = (
    λ id.
        delete_each-count id s.other_mem_buf (delete_each s.mem_buf [])
        ∙ omega (arith, delete_each-count id s.mem_buf [], count-none id, Reach-IsListed s r id),
    refl,
    refl,
  )
