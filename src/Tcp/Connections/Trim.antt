-- ===== src/Tcp/Connections/Trim.antt =====
-- The free lists of contexts and the bound on their lengths.
use windows_verifyserver.Prelude.{
  ℕ, ◌-◌, ◌≤◌, ◌<◌, ◌≡◌, refl, sym, ap, ◌∙◌, List, [], ◌∷◌, ◌++◌, length, drop, ltb, if◌then◌else◌,
  ltb→lt, ltb→le, length-drop, inl, inr, Bool-cases, suc, arith,
}
use windows_verifyserver.Prelude.Memory.{drop_all}
use windows_verifyserver.Tcp.Connections.{
  Server, pop_to, give_back, add_free_io_context, free_io_hold, free_io_pool,
}

drop_suc :
    (k : ℕ) (x : ℕ) (xs : List ℕ)
    → k ≤ length xs
    → drop (length (x ∷ xs) - k) (x ∷ xs) ≡ drop (length xs - k) xs
drop_suc k x xs h =
    ap (λ n. drop n (x ∷ xs)) (let e : length (x ∷ xs) - k ≡ suc (length xs - k) = omega arith in e)

none_over :
    (k : ℕ) (x : ℕ) (xs : List ℕ) → length xs < k → drop (length (x ∷ xs) - k) (x ∷ xs) ≡ x ∷ xs
none_over k x xs h = ap (λ n. drop n (x ∷ xs)) (let e : length (x ∷ xs) - k ≡ 0 = omega arith in e)

pub pop_to_lem : (k : ℕ) (xs : List ℕ) → pop_to k xs ≡ drop (length xs - k) xs
pop_to_lem k [] = sym (drop_all {A = ℕ} (0 - k) [] (omega arith))
pop_to_lem k (x ∷ xs) = elim (Bool-cases (ltb k (length (x ∷ xs)))) [
  | inl t ↦
      rw t (pop_to_lem k xs ∙ sym (drop_suc k x xs (omega (arith, ltb→lt k (length (x ∷ xs)) t))))
  | inr f ↦ rw f (
      sym (
        none_over k x xs
          (let l : length (x ∷ xs) ≤ k = ltb→le k (length (x ∷ xs)) f in omega arith)))
]

-- The newest contexts are kept, at most `hold` of them.
pub give_back_lem :
    (hold pool : ℕ) (free : List ℕ) (x : ℕ)
    → pool ≤ hold
    → (n : ℕ) × (give_back hold pool free x ≡ drop n (free ++ x ∷ []))
      × (length (free ++ x ∷ []) - n ≤ hold)
give_back_lem hold pool free x h = elim (Bool-cases (ltb hold (length (free ++ x ∷ [])))) [
  | inl t ↦ (length (free ++ x ∷ []) - pool, rw t (pop_to_lem pool (free ++ x ∷ [])), omega arith)
  | inr f ↦ (0, rw f refl, (let l = ltb→le hold (length (free ++ x ∷ [])) f in omega arith))
]

give_back-drop :
    (hold pool : ℕ) (free : List ℕ) (x : ℕ)
    → let behind = free ++ x ∷ [] in
      give_back hold pool free x
      ≡ (if ltb hold (length behind) then drop (length behind - pool) behind else behind)
give_back-drop hold pool free x = elim (Bool-cases (ltb hold (length (free ++ x ∷ [])))) [
  | inl t ↦ rw (give_back, t) (pop_to_lem pool (free ++ x ∷ []))
  | inr f ↦ rw (give_back, f) refl
]

-- AddFreeIOContext puts the context behind the free ones; where these are then more than 900, the
-- oldest are deleted until 300 are left, and otherwise none. So never more than 900 are held.
pub add_free_io_context-newest :
    (s : Server) (io : ℕ)
    → let behind = s.free_ios ++ io ∷ [] in
      let after = (add_free_io_context s io).free_ios in
      (after ≡ (if ltb 900 (length behind) then drop (length behind - 300) behind else behind))
      × (length after ≤ 900)
unfolding add_free_io_context
add_free_io_context-newest s io =
    let behind = s.free_ios ++ io ∷ [] in
    let g = give_back_lem free_io_hold free_io_pool s.free_ios io (omega arith) in
    let exact = give_back-drop 900 300 s.free_ios io in
    (exact, rw g.1 (omega (arith, length-drop g.0 behind, g.2)))
