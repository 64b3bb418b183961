-- ===== src/Tcp/Receive/Moves.antt =====
-- Where the branches of `SaveData` lead: the next state of the reassembly.
use windows_verifyserver.Prelude.{
  ℕ, ◌≤◌, ◌<◌, ◌^◌, ◌≡◌, refl, ap, sym, Bool, List, [], ◌++◌, some, length, drop, arith,
  length-append, length-drop, inl, inr, append_assoc,
}
use windows_verifyserver.Prelude.Word.{add32}
use windows_verifyserver.Prelude.Results.{ok}
use windows_verifyserver.Tcp.Platform.{Platform, IsSound}
use windows_verifyserver.Tcp.Receive.{Assembly, begin_packet, extend, no_head}
use windows_verifyserver.Tcp.Receive.Parts.{collect_lem, emptied}
use windows_verifyserver.Tcp.Receive.States.{Waiting, Filling, Stuck}

abbrev pub kept : Assembly → List ℕ → Assembly
kept io bytes = record io { tmp_head_buf = record { buf = some bytes; len = length bytes } }

pub kept-Waiting :
    (io : Assembly) (bytes : List ℕ)
    → Waiting io []
    → length bytes ≤ 10
    → Waiting (kept io bytes) bytes
kept-Waiting io bytes w h = record {
  idle = w.idle;
  small = w.small;
  stored = inl refl;
  head_len = refl;
  short = h;
}

abbrev pub joined : Assembly → Assembly
joined io = record io { tmp_head_buf = no_head }

pub joined-Waiting : (io : Assembly) (head : List ℕ) → Waiting io head → Waiting (joined io) []
joined-Waiting io head w = record {
  idle = w.idle;
  small = w.small;
  stored = inr refl;
  head_len = refl;
  short = omega arith;
}

abbrev pub begun : Assembly → List ℕ → ℕ → Assembly
begun io block len = record io { tmp_buf = record { buf = some block; des_len = len; cur_len = 0 } }

pub begin_packet_lem :
    (p : Platform) (receiver : Bool) (io : Assembly) (block : List ℕ) (len : ℕ)
    → p.new_bytes len ≡ some block
    → begin_packet p receiver io len ≡ ok (begun io block len)
unfolding begin_packet
begin_packet_lem p receiver io block len a = rw a

pub begun-Filling :
    (io : Assembly) (block : List ℕ) (len : ℕ)
    → Waiting io []
    → length block ≡ len
    → 15 ≤ len
    → len < 2 ^ 31
    → Filling (begun io block len) [] block
begun-Filling io block len w e h k = record {
  block = refl;
  received = refl;
  total = omega arith;
  more = omega arith;
  framed = h;
  small = k;
  no_head = w.head_len;
}

pub begun-Stuck :
    (io : Assembly) (block : List ℕ) (len : ℕ)
    → Waiting io []
    → 2 ^ 31 ≤ len
    → len < 2 ^ 32
    → Stuck (begun io block len)
begun-Stuck io block len w h k = record {
  negative = h;
  word = k;
  nothing = refl;
  no_head = w.head_len;
}

pub emptied-Waiting :
    (io : Assembly) (written rest : List ℕ) → Filling io written rest → Waiting (emptied io) []
emptied-Waiting io written rest f = record {
  idle = refl;
  small = omega arith;
  stored = inr refl;
  head_len = f.no_head;
  short = omega arith;
}

abbrev pub extended : Assembly → List ℕ → List ℕ → List ℕ → Assembly
extended io written rest bytes = record io {
  tmp_buf = record {
    buf = some (written ++ (bytes ++ drop (length bytes) rest));
    des_len = io.tmp_buf.des_len;
    cur_len = add32 io.tmp_buf.cur_len (length bytes);
  };
}

module _ (io : Assembly) (written rest bytes : List ℕ) (f : Filling io written rest)
    (h : length bytes < length rest) where
  pub extended-Filling :
      Filling (extended io written rest bytes) (written ++ bytes) (drop (length bytes) rest)
  extended-Filling = record {
    block = ap some (sym (append_assoc written bytes (drop (length bytes) rest)));
    received = omega (arith, length-append written bytes, f.received, f.total, f.small);
    total = omega (arith, length-append written bytes, length-drop (length bytes) rest, f.total);
    more = omega (arith, length-drop (length bytes) rest);
    framed = f.framed;
    small = f.small;
    no_head = f.no_head;
  }

  pub extend_lem :
      (p : Platform) (sound : IsSound p) (receiver : Bool)
      → extend p receiver io bytes ≡ ok (extended io written rest bytes, [])
  unfolding extend
  extend_lem p sound receiver =
      rw (
        collect_lem p sound receiver io.tmp_buf written rest bytes f.block f.received (omega arith))
