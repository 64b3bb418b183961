-- ===== src/Tcp/Packet/Layout.antt =====
-- What `PrepareSendBuf` writes and what `GetPacketLen` reads of it.
use windows_verifyserver.Prelude.{
  ℕ, ◌+◌, ◌≤◌, ◌<◌, ◌^◌, ◌≡◌, ◌≢◌, refl, sym, List, [], ◌∷◌, ◌++◌, length, drop, arith,
  length-append, le→leb, lt→leb, append_assoc, ◌∙◌, ap,
}
use windows_verifyserver.Prelude.Memory.{
  copy_next, take-append, copy_then_fault, copy_out_of_range, get_or-append,
}
use windows_verifyserver.Prelude.Word.{word, le32, of_bytes-le32}
use windows_verifyserver.Prelude.Results.{ok, err, out_of_bounds}
use windows_verifyserver.Tcp.Packet.{prepare_send_buf, get_packet_len, no_packet, sum_bytes}

-- The first ten bytes of a packet of `len` bytes.
abbrev pub header : ℕ → ℕ → List ℕ
header param len = b'S' ∷ b':' ∷ le32 param ++ le32 len

-- A packet, as the protocol describes it.
abbrev pub body : ℕ → List ℕ → List ℕ
body param payload = header param (word (length payload + 15)) ++ payload

-- What the receiver needs of a packet: the header with the right length. It looks neither at the
-- parameter nor at the five bytes behind the payload.
pub record Frame : Type 0 where
  pub param : ℕ
  pub payload : List ℕ
  pub trailer : List ℕ

abbrev pub bytes : Frame → List ℕ
bytes f = body f.param f.payload ++ f.trailer

-- A frame that a 32-bit length describes.
pub record IsFrame (f : Frame) : Type 0 where
  pub trailer_len : length f.trailer ≡ 5
  pub short : length f.payload + 15 < 2 ^ 31

-- A packet, as the protocol describes it: the sum of the bytes before it, and 'E'.
abbrev pub packet : ℕ → List ℕ → Frame
packet param payload = record {
  param = param;
  payload = payload;
  trailer = le32 (sum_bytes 0 (body param payload)) ++ b'E' ∷ [];
}

pub length-bytes : (f : Frame) → IsFrame f → length (bytes f) ≡ length f.payload + 15
length-bytes f v = omega (arith, length-append f.payload f.trailer)

length-sealed :
    (param : ℕ) (src sum : List ℕ)
    → length sum ≡ 4
    → 10 + length src + 4 ≡ length (body param src ++ sum)
length-sealed param src sum e = omega (arith, length-append src sum)

-- Into a buffer that has room for it, `PrepareSendBuf` writes the packet of the payload, returns
-- the packet's length, and leaves the rest of the buffer as it was.
pub prepare_send_buf-packet :
    (des src : List ℕ) (param : ℕ)
    → length src + 15 ≤ length des
    → prepare_send_buf des src param
      ≡ ok (bytes (packet param src) ++ drop (length src + 15) des, length src + 15)
unfolding prepare_send_buf
prepare_send_buf-packet des src param h =
    let len = length src in
    let b = body param src in
    let sum = le32 (sum_bytes 0 b) in
    let last : 10 + len + 4 + 1 ≡ len + 15 = omega arith in
    rw (
      copy_next 0 [] des (b'S' ∷ []) refl (omega arith),
      copy_next 1 (b'S' ∷ []) des (b':' ∷ []) refl (omega arith),
      copy_next 2 (b'S' ∷ b':' ∷ []) des (le32 param) refl (omega arith),
      copy_next 6 (b'S' ∷ b':' ∷ le32 param) des (le32 (word (len + 15))) refl (omega arith),
      copy_next 10 (header param (word (len + 15))) des src refl (omega arith),
      take-append (10 + len) b (drop (10 + len) des) (omega arith),
      copy_next (10 + len) b des sum (omega arith) (omega arith),
      copy_next (10 + len + 4) (b ++ sum) des (b'E' ∷ []) (length-sealed param src sum refl)
          (omega arith),
      last,
      append_assoc src sum (b'E' ∷ []),
    )

-- A buffer that is too small for the packet is overrun: nothing in `PrepareSendBuf` looks at its size.
pub prepare_send_buf-overrun :
    (des src : List ℕ) (param : ℕ)
    → length des < length src + 15
    → prepare_send_buf des src param ≡ err out_of_bounds
unfolding prepare_send_buf
prepare_send_buf-overrun des src param h = copy_then_fault des _ _ _ λ d₁ e₁.
    copy_then_fault d₁ _ _ _ λ d₂ e₂. copy_then_fault d₂ _ _ _ λ d₃ e₃.
      copy_then_fault d₃ _ _ _ λ d₄ e₄. copy_then_fault d₄ _ _ _ λ d₅ e₅.
        copy_then_fault d₅ _ _ _
          λ d₆ e₆. rw (copy_out_of_range d₆ (10 + length src + 4) (b'E' ∷ []) (omega arith))

-- An answer other than `no_packet` is a DWORD of at least 15.
pub get_packet_len_bounds :
    (buf : List ℕ)
    → get_packet_len buf ≢ no_packet
    → (15 ≤ get_packet_len buf) × (get_packet_len buf < 2 ^ 32)
unfolding get_packet_len
get_packet_len_bounds buf h = ground arith

-- `GetPacketLen` reads the length out of a header, if more than the header is there.
pub get_packet_len-header :
    (param len : ℕ) (rest : List ℕ)
    → len < 2 ^ 32
    → 15 ≤ len
    → 0 < length rest
    → get_packet_len (header param len ++ rest) ≡ len
unfolding get_packet_len
get_packet_len-header param len rest h k r = rw (
  lt→leb (length (header param len ++ rest)) 10 (omega arith),
  of_bytes-le32 len h,
  le→leb 15 len k,
)

-- `GetPacketLen` reads from the front of a frame the length of the frame.
pub get_packet_len-bytes :
    (f : Frame) (rest : List ℕ) → IsFrame f → get_packet_len (bytes f ++ rest) ≡ length (bytes f)
get_packet_len-bytes f rest v =
    rw
      (
        append_assoc (body f.param f.payload) f.trailer rest,
        append_assoc (header f.param (word (length f.payload + 15))) f.payload (f.trailer ++ rest),
        get_packet_len-header f.param (word (length f.payload + 15))
            (f.payload ++ (f.trailer ++ rest)) (omega arith) (omega (arith, v.short))
            (omega (
              arith,
              length-append f.payload (f.trailer ++ rest),
              length-append f.trailer rest,
              v.trailer_len,
            )),
        length-bytes f v,
      )
      (omega (arith, v.short))

-- The answer for more than ten bytes depends on the first ten.
pub get_packet_len-prefix :
    (xs ys : List ℕ) → 10 < length xs → get_packet_len (xs ++ ys) ≡ get_packet_len xs
unfolding get_packet_len
get_packet_len-prefix xs ys h = rw (
  lt→leb (length (xs ++ ys)) 10 (omega (arith, length-append xs ys)),
  lt→leb (length xs) 10 h,
  get_or-append xs ys 0 0 (omega arith),
  get_or-append xs ys 1 0 (omega arith),
  get_or-append xs ys 6 0 (omega arith),
  get_or-append xs ys 7 0 (omega arith),
  get_or-append xs ys 8 0 (omega arith),
  get_or-append xs ys 9 0 (omega arith),
)

-- More than ten bytes from the start of a packet on tell its length.
pub get_packet_len-stream :
    (xs later : List ℕ) (f : Frame) (rest : List ℕ)
    → IsFrame f
    → 10 < length xs
    → xs ++ later ≡ bytes f ++ rest
    → get_packet_len xs ≡ length (bytes f)
get_packet_len-stream xs later f rest v h e =
    sym (get_packet_len-prefix xs later h) ∙ ap get_packet_len e ∙ get_packet_len-bytes f rest v
