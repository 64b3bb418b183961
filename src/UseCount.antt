-- ===== src/UseCount.antt =====
-- CUseCount (VerifyServer/common/UseCount.cpp): handles that share a count of themselves.
pub mod Cells
pub mod Counted
pub mod Operations
pub mod Calls
use windows_verifyserver.Prelude.{
  ℕ, ◌+◌, List, [], ◌∷◌, ◌++◌, Option, none, some, Bool, true, false, ◌==◌, if◌then◌else◌, length,
  get_elem?, set,
}
use windows_verifyserver.Prelude.Word.{add32, sub32, is_pos}
use windows_verifyserver.Prelude.Results.{Result, ok, err, ◌>>=◌, use_after_free}

-- The counters that were allocated, `none` for one that was deleted, and for each CUseCount where its
-- m_pCount points, `none` for one that was destroyed. A counter is named by its place.
pub record Counts : Type 0 where
  pub cells : List (Option ℕ)
  pub handles : List (Option ℕ)

-- What stands at a place, and `none` where nothing does.
abbrev pub at : List (Option ℕ) → ℕ → Option ℕ
at xs i = elim (get_elem? xs i) [ none ↦ none | some c ↦ c ]

abbrev pub valid : Option ℕ → Result ℕ
valid none = err use_after_free
valid (some n) = ok n

-- `*m_pCount` of the counter `a`
abbrev pub value : Counts → ℕ → Result ℕ
value s a = valid (at s.cells a)

-- `m_pCount` of the CUseCount `i`
abbrev pub pointer : Counts → ℕ → Result ℕ
pointer s i = valid (at s.handles i)

abbrev pub store : Counts → ℕ → Option ℕ → Counts
store s a c = record s { cells = set s.cells a c }

abbrev pub repoint : Counts → ℕ → Option ℕ → Counts
repoint s i h = record s { handles = set s.handles i h }

-- `atomic_inc`
unfoldable pub atomic_inc : Counts → ℕ → Result Counts
atomic_inc s a = value s a >>= λ n. ok (store s a (some (add32 n 1)))

-- `atomic_dec`
unfoldable pub atomic_dec : Counts → ℕ → Result Counts
atomic_dec s a = value s a >>= λ n. ok (store s a (some (sub32 n 1)))

-- CUseCount::CUseCount(), where `memory` tells whether `new` finds memory; `true` where it throws.
unfoldable pub create : Bool → Counts → Counts × Bool
create true s = (
  record { cells = s.cells ++ some 1 ∷ []; handles = s.handles ++ some (length s.cells) ∷ [] },
  false,
)
create false s = (s, true)

-- CUseCount::CUseCount(const CUseCount &)
unfoldable pub copy : Counts → ℕ → Result Counts
copy s i = do
  a ← pointer s i
  s' ← atomic_inc s a
  ok (record s' { handles = s'.handles ++ some a ∷ [] })

-- What the destructor does of the CUseCount `i` once it has counted down the counter `a`: another
-- thread can come in between.
abbrev pub delete_unused : Counts → ℕ → ℕ → Result Counts
delete_unused s i a =
    value s a >>= λ n. ok (repoint (if is_pos n then s else store s a none) i none)

-- CUseCount::~CUseCount, without a step of another thread in between.
unfoldable pub destroy : Counts → ℕ → Result Counts
destroy s i = do a ← pointer s i; s' ← atomic_dec s a; delete_unused s' i a

-- CUseCount::Only
unfoldable pub only : Counts → ℕ → Result Bool
only s i = do a ← pointer s i; n ← value s a; ok (n == 1)

-- CUseCount::Reattach
unfoldable pub reattach : Counts → ℕ → ℕ → Result (Counts × Bool)
reattach s i j = do
  a ← pointer s i
  b ← pointer s j
  s' ← atomic_inc s b
  s' ← atomic_dec s' a
  n ← value s' a
  ok (
      if n == 0
      then (repoint (store s' a none) i (some b), true)
      else (repoint s' i (some b), false))

-- CUseCount::Makeonly; `none` where `new` throws, behind the count down.
unfoldable pub make_only : Bool → Counts → ℕ → Result (Counts × Option Bool)
make_only memory s i = do
  a ← pointer s i
  n ← value s a
  elim (n == 1) [
    | true ↦ ok (s, some false)
    | false ↦ do
      s' ← atomic_dec s a
      ok (
          if memory
          then (
            record {
              cells = s'.cells ++ some 1 ∷ [];
              handles = set s'.handles i (some (length s'.cells));
            },
            some true,
          )
          else (s', none))
  ]

-- CUseCount::operator=, which is private and has no caller.
unfoldable pub assign : Counts → ℕ → ℕ → Result Counts
assign s i j = do
  b ← pointer s j
  s' ← atomic_inc s b
  s' ← atomic_dec s' b
  a ← pointer s' i
  n ← value s' a
  ok (repoint (if is_pos n then s' else store s' a none) i (some b))

-- What can be done with CUseCounts from outside the class. Where the call allocates, the Boolean tells
-- whether there is memory.
pub data Call : Type 0 where
  creates : Bool → Call
  copies : ℕ → Call
  destroys : ℕ → Call
  reattaches : ℕ → ℕ → Call
  makes_only : Bool → ℕ → Call

-- The counters behind a call, and whether it has thrown.
abbrev pub perform : Counts → Call → Result (Counts × Bool)
perform s (creates memory) = ok (create memory s)
perform s (copies i) = copy s i >>= λ t. ok (t, false)
perform s (destroys i) = destroy s i >>= λ t. ok (t, false)
perform s (reattaches i j) = reattach s i j >>= λ r. ok (r.0, false)
perform s (makes_only memory i) =
    make_only memory s i >>= λ r. ok (r.0, elim r.1 [ none ↦ true | some b ↦ false ])
