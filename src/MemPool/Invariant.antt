-- ===== src/MemPool/Invariant.antt =====
-- The state of CMemPool: which blocks are free, which are in use, and what the free ones hold.
use windows_verifyserver.Prelude.{
  ℕ, zero, suc, ◌<◌, ◌≤◌, ◌≡◌, ◌≢◌, refl, sym, ap, ◌∙◌, List, [], ◌∷◌, ◌++◌, inl, inr, Bool-cases,
  ltb, ltb→lt, none, some, Bool, true, false, length, get_elem?, set, replicate, get_elem?-set_ne,
  arith,
}
use mathlib.Core.Bool.{true≢false}
use mathlib.Core.Option.{some-injective, none-ne-some}
use windows_verifyserver.MemPool.{Mem, Pool, ten_kb}

-- All elements of a list have a property.
abbrev pub All : (ℕ → Type 0) → List ℕ → Type 0
All P [] = Unit
All P (x ∷ xs) = P x × All P xs

abbrev pub Distinct : List ℕ → Type 0
Distinct [] = Unit
Distinct (x ∷ xs) = All (λ y. x ≢ y) xs × Distinct xs

-- A block of ten kilobytes; a free one holds zeros.
pub record IsBlock (store : List Mem) (free : Bool) (id : ℕ) : Type 0 where
  pub mem : Mem
  pub found : get_elem? store id ≡ some mem
  pub flag : mem.free ≡ free
  pub size_eq : mem.size ≡ ten_kb
  pub bytes_size : length mem.bytes ≡ ten_kb
  pub zeros : free ≡ true → mem.bytes ≡ replicate ten_kb 0

pub record IsPool (pool : Pool) : Type 0 where
  pub all_free : All (IsBlock pool.store true) pool.free
  pub all_busy : All (IsBlock pool.store false) pool.busy
  pub distinct : Distinct pool.free

pub All-map : {P Q : ℕ → Type 0} (xs : List ℕ) → ((x : ℕ) → P x → Q x) → All P xs → All Q xs
All-map [] f a = tt
All-map (x ∷ xs) f a = (f x a.0, All-map xs f a.1)

pub All-both :
    {P Q R : ℕ → Type 0} (xs : List ℕ)
    → ((x : ℕ) → P x → Q x → R x)
    → All P xs
    → All Q xs
    → All R xs
All-both [] f a b = tt
All-both (x ∷ xs) f a b = (f x a.0 b.0, All-both xs f a.1 b.1)

pub All-snoc : (P : ℕ → Type 0) (xs : List ℕ) (x : ℕ) → All P xs → P x → All P (xs ++ x ∷ [])
All-snoc P [] x a b = (b, tt)
All-snoc P (y ∷ xs) x a b = (a.0, All-snoc P xs x a.1 b)

pub Distinct-snoc :
    (xs : List ℕ) (x : ℕ) → Distinct xs → All (λ y. x ≢ y) xs → Distinct (xs ++ x ∷ [])
Distinct-snoc [] x d a = (tt, tt)
Distinct-snoc (y ∷ xs) x d a =
    (All-snoc (λ z. y ≢ z) xs x d.0 (λ e. a.0 (sym e)), Distinct-snoc xs x d.1 a.1)

-- A free block is none of those in use.
pub free≢busy : (store : List Mem) (i j : ℕ) → IsBlock store true i → IsBlock store false j → i ≢ j
free≢busy store i j a b e =
    let same : a.mem ≡ b.mem =
      some-injective a.mem b.mem (sym a.found ∙ ap (get_elem? store) e ∙ b.found) in
    true≢false (sym a.flag ∙ ap (λ m. m.free) same ∙ b.flag)

-- A block that changes is no other.
pub IsBlock-set :
    (store : List Mem) (free : Bool) (id other : ℕ) (m : Mem)
    → id ≢ other
    → IsBlock store free other
    → IsBlock (set store id m) free other
IsBlock-set store free id other m h b = record {
  mem = b.mem;
  found = get_elem?-set_ne store m h ∙ b.found;
  flag = b.flag;
  size_eq = b.size_eq;
  bytes_size = b.bytes_size;
  zeros = b.zeros;
}

pub get_elem?-push :
    (store : List Mem) (i : ℕ) (m m' : Mem)
    → get_elem? store i ≡ some m
    → get_elem? (store ++ m' ∷ []) i ≡ some m
get_elem?-push [] i m m' h = absurd (none-ne-some m h)
get_elem?-push (x ∷ store) zero m m' h = h
get_elem?-push (x ∷ store) (suc i) m m' h = get_elem?-push store i m m' h

pub get_elem?-last :
    (store : List Mem) (m : Mem) → get_elem? (store ++ m ∷ []) (length store) ≡ some m
get_elem?-last [] m = refl
get_elem?-last (x ∷ store) m = get_elem?-last store m

pub IsBlock-push :
    (store : List Mem) (free : Bool) (id : ℕ) (m : Mem)
    → IsBlock store free id
    → IsBlock (store ++ m ∷ []) free id
IsBlock-push store free id m b = record {
  mem = b.mem;
  found = get_elem?-push store id b.mem m b.found;
  flag = b.flag;
  size_eq = b.size_eq;
  bytes_size = b.bytes_size;
  zeros = b.zeros;
}

get_elem?-past : (store : List Mem) (i : ℕ) → length store ≤ i → get_elem? store i ≡ none
get_elem?-past [] i h = refl
get_elem?-past (x ∷ store) zero h = absurd (omega arith)
get_elem?-past (x ∷ store) (suc i) h = get_elem?-past store i (omega arith)

-- A new place is none of those that hold a block.
pub new≢block :
    (store : List Mem) (free : Bool) (id : ℕ) → IsBlock store free id → length store ≢ id
new≢block store free id b e =
    absurd (none-ne-some b.mem (sym (get_elem?-past store id (omega arith)) ∙ b.found))

pub id_lt : (store : List Mem) (free : Bool) (id : ℕ) → IsBlock store free id → id < length store
id_lt store free id b = elim (Bool-cases (ltb id (length store))) [
  | inl t ↦ ltb→lt id (length store) t
  | inr f ↦ absurd (none-ne-some b.mem (sym (get_elem?-past store id (ground arith)) ∙ b.found))
]
