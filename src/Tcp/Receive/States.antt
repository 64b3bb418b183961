-- ===== src/Tcp/Receive/States.antt =====
-- The states of the reassembly of packets, and which branch of `SaveData` each of them takes.
use windows_verifyserver.Prelude.{
  ℕ, ◌+◌, ◌≤◌, ◌<◌, ◌^◌, ◌≡◌, ◌≢◌, ◌∙◌, refl, Bool, List, [], ◌++◌, some, length, arith, ◌⊎◌, inl,
  inr, lt→ltb, lt→leb, le→leb, le→ltb, eq→==, ne→==,
}
use windows_verifyserver.Prelude.Word.{sub32, is_pos_lem, is_pos_zero, is_pos_negative}
use windows_verifyserver.Prelude.Results.{ok, ◌>>=◌}
use windows_verifyserver.Tcp.Platform.{Platform}
use windows_verifyserver.Tcp.Packet.{get_packet_len, no_packet}
use windows_verifyserver.Tcp.Receive.{
  Assembly, Saved, join_head, keep_head, begin_packet, complete, extend, next_packet, save_step,
  save_rest, no_head,
}

-- Between two packets. `head` is what has been stored of the next one.
pub record Waiting (io : Assembly) (head : List ℕ) : Type 0 where
  pub idle : io.tmp_buf.des_len ≡ io.tmp_buf.cur_len
  pub small : io.tmp_buf.des_len < 2 ^ 32
  pub stored : (io.tmp_head_buf.buf ≡ some head) ⊎ (length head ≡ 0)
  pub head_len : io.tmp_head_buf.len ≡ length head
  pub short : length head ≤ 10

pub Waiting-stored :
    (io : Assembly) (head : List ℕ)
    → Waiting io head
    → 0 < length head
    → io.tmp_head_buf.buf ≡ some head
Waiting-stored io head w h = elim w.stored [ inl e ↦ e | inr z ↦ absurd (omega arith) ]

-- Inside a packet. `written` is what has been received of it, `rest` the rest of its block.
pub record Filling (io : Assembly) (written rest : List ℕ) : Type 0 where
  pub block : io.tmp_buf.buf ≡ some (written ++ rest)
  pub received : length written ≡ io.tmp_buf.cur_len
  pub total : length written + length rest ≡ io.tmp_buf.des_len
  pub more : 0 < length rest
  pub framed : 15 ≤ io.tmp_buf.des_len
  pub small : io.tmp_buf.des_len < 2 ^ 31
  pub no_head : io.tmp_head_buf.len ≡ 0

-- Inside a packet whose announced length is a negative `int`.
pub record Stuck (io : Assembly) : Type 0 where
  pub negative : 2 ^ 31 ≤ io.tmp_buf.des_len
  pub word : io.tmp_buf.des_len < 2 ^ 32
  pub nothing : io.tmp_buf.cur_len ≡ 0
  pub no_head : io.tmp_head_buf.len ≡ 0

pub data State (io : Assembly) : Type 0 where
  waiting : (head : List ℕ) → Waiting io head → State io
  filling : (written rest : List ℕ) → Filling io written rest → State io
  stuck : Stuck io → State io

module _ (p : Platform) (receiver : Bool) (again : Assembly → List ℕ → Saved) (io : Assembly)
    (bytes : List ℕ) where
  step_rest :
      (leave : ℕ)
      → io.tmp_head_buf.len ≡ 0
      → sub32 io.tmp_buf.des_len io.tmp_buf.cur_len ≡ leave
      → save_step p receiver again io bytes ≡ save_rest p receiver again io bytes leave
  unfolding save_step
  step_rest leave h e = rw (is_pos_zero io.tmp_head_buf.len h, save_step, e)

  rest_zero : save_rest p receiver again io bytes 0 ≡ next_packet p receiver again io bytes
  unfolding save_rest
  rest_zero = refl

  rest_complete :
      (leave : ℕ)
      → 0 < leave
      → leave < 2 ^ 31
      → leave ≤ length bytes
      → save_rest p receiver again io bytes leave ≡ complete p receiver again io bytes leave
  unfolding save_rest
  rest_complete leave h k l =
      rw (
        ne→== leave 0 (omega arith),
        save_rest,
        is_pos_lem leave h k,
        le→leb leave (length bytes) l,
      )

  rest_extend :
      (leave : ℕ)
      → 0 < leave
      → leave < 2 ^ 31
      → length bytes < leave
      → save_rest p receiver again io bytes leave ≡ extend p receiver io bytes
  unfolding save_rest
  rest_extend leave h k l =
      rw (
        ne→== leave 0 (omega arith),
        save_rest,
        is_pos_lem leave h k,
        lt→leb leave (length bytes) l,
      )

  rest_negative :
      (leave : ℕ) → 2 ^ 31 ≤ leave → save_rest p receiver again io bytes leave ≡ ok (io, [])
  unfolding save_rest
  rest_negative leave h = rw (ne→== leave 0 (omega arith), save_rest, is_pos_negative leave h)

  pub step_join :
      (head : List ℕ)
      → Waiting io head
      → 0 < length head
      → save_step p receiver again io bytes ≡ (
          join_head p receiver io.tmp_head_buf bytes
          >>= again (record io { tmp_head_buf = no_head }))
  unfolding save_step
  step_join head w h = rw (
    is_pos_lem io.tmp_head_buf.len (omega (arith, w.head_len)) (omega (arith, w.head_len, w.short)),
    save_step,
  )

  module _ (w : Waiting io []) where
    step_between : save_step p receiver again io bytes ≡ next_packet p receiver again io bytes
    step_between = step_rest 0 w.head_len (omega (arith, w.idle, w.small)) ∙ rest_zero

    pub step_skip :
        10 < length bytes
        → get_packet_len bytes ≡ no_packet
        → save_step p receiver again io bytes ≡ ok (io, [])
    unfolding next_packet
    step_skip h e =
        step_between
        ∙ rw (lt→ltb 10 (length bytes) h, next_packet, eq→== (get_packet_len bytes) no_packet e)

    pub step_begin :
        10 < length bytes
        → get_packet_len bytes ≢ no_packet
        → save_step p receiver again io bytes
          ≡ (begin_packet p receiver io (get_packet_len bytes) >>= λ io'. again io' bytes)
    unfolding next_packet
    step_begin h e =
        step_between
        ∙ rw (lt→ltb 10 (length bytes) h, next_packet, ne→== (get_packet_len bytes) no_packet e)

    pub step_keep :
        length bytes ≤ 10 → save_step p receiver again io bytes ≡ keep_head p receiver io bytes
    unfolding next_packet
    step_keep h = step_between ∙ rw (le→ltb 10 (length bytes) h, next_packet)

  module _ (written rest : List ℕ) (f : Filling io written rest) where
    step_inside :
        save_step p receiver again io bytes ≡ save_rest p receiver again io bytes (length rest)
    step_inside = step_rest (length rest) f.no_head (omega (arith, f.received, f.total, f.small))

    inside : length rest < 2 ^ 31
    inside = omega (arith, f.total, f.small)

    pub step_complete :
        length rest ≤ length bytes
        → save_step p receiver again io bytes ≡ complete p receiver again io bytes (length rest)
    step_complete h = step_inside ∙ rest_complete (length rest) f.more inside h

    pub step_extend :
        length bytes < length rest
        → save_step p receiver again io bytes ≡ extend p receiver io bytes
    step_extend h = step_inside ∙ rest_extend (length rest) f.more inside h

  -- A connection that has been told a negative length drops whatever comes.
  pub step-Stuck : Stuck io → save_step p receiver again io bytes ≡ ok (io, [])
  step-Stuck s =
      step_rest io.tmp_buf.des_len s.no_head (omega (arith, s.word, s.nothing))
      ∙ rest_negative io.tmp_buf.des_len s.negative
