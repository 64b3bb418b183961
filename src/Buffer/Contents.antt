-- ===== src/Buffer/Contents.antt =====
-- What a CBuffer holds: the bytes between m_pBase and m_pData, and the spare bytes behind them.
use windows_verifyserver.Prelude.{
  ℕ, zero, suc, ◌+◌, ◌≤◌, ◌≡◌, refl, ap, List, [], ◌∷◌, ◌++◌, some, length, take, drop, arith,
  le→leb,
}
use windows_verifyserver.Prelude.Memory.{copy_at}
use windows_verifyserver.Prelude.Results.{Result, ok, err, bad_alloc}
use windows_verifyserver.Buffer.{Buffer, fresh}

-- The largest size that `round_up` reaches without wrapping around.
abbrev pub max_size : ℕ
max_size = 4294966272

abbrev pub pack : List ℕ → List ℕ → Buffer
pack content spare = record {
  base = some (content ++ spare);
  used = length content;
  size = length content + length spare;
}

-- `b` holds the bytes `content`.
pub data Contents (b : Buffer) (content : List ℕ) : Type 0 where
  unallocated : b ≡ fresh → content ≡ [] → Contents b content
  holds :
      (spare : List ℕ)
      → b ≡ pack content spare
      → length content + length spare ≤ max_size
      → Contents b content

-- An operation ends with a buffer that holds `content` and with the result `a`, or it throws.
pub data Outcome (r : Result (Buffer × ℕ)) (content : List ℕ) (a : ℕ) : Type 0 where
  done : (b : Buffer) → Contents b content → r ≡ ok (b, a) → Outcome r content a
  no_memory : r ≡ err bad_alloc → Outcome r content a

pub pack_lem :
    (block content spare : List ℕ) (used size : ℕ)
    → block ≡ content ++ spare
    → used ≡ length content
    → size ≡ length content + length spare
    → (let b : Buffer = record { base = some block; used = used; size = size } in b)
      ≡ pack content spare
pack_lem block content spare used size e f g = rw (e, f, g)

pub drop_within : (n : ℕ) (xs ys : List ℕ) → n ≤ length xs → drop n (xs ++ ys) ≡ drop n xs ++ ys
drop_within zero xs ys h = refl
drop_within (suc n) [] ys h = absurd (omega arith)
drop_within (suc n) (x ∷ xs) ys h = drop_within n xs ys (omega arith)

pub take_over : (n m : ℕ) (xs ys : List ℕ) → n ≡ length xs + m → take n (xs ++ ys) ≡ xs ++ take m ys
take_over n m [] ys e = ap (λ k. take k ys) (omega arith)
take_over zero m (x ∷ xs) ys e = absurd (omega arith)
take_over (suc n) m (x ∷ xs) ys e = ap (◌∷◌ x) (take_over n m xs ys (omega arith))

pub take_under : (n : ℕ) (xs ys : List ℕ) → n ≤ length xs → take n (xs ++ ys) ≡ take n xs
take_under zero xs ys h = refl
take_under (suc n) [] ys h = absurd (omega arith)
take_under (suc n) (x ∷ xs) ys h = ap (◌∷◌ x) (take_under n xs ys (omega arith))

pub copy_within :
    (block : List ℕ) (i : ℕ) (bytes : List ℕ)
    → i + length bytes ≤ length block
    → copy_at block i bytes ≡ some (take i block ++ (bytes ++ drop (i + length bytes) block))
unfolding copy_at
copy_within block i bytes h = rw (le→leb (i + length bytes) (length block) h) refl
