-- ===== src/UnixSocket/RingBuffer.antt =====
-- `unix_ring_t` of src/kernel/net/unix_socket.c: the receive buffer of a socket. A source buffer is
-- the list of the bytes that are copied; a read returns the bytes that it copies out.
use blackmount.Common.{
  ℕ, zero, suc, ◌+◌, ◌-◌, ◌%◌, ◌^◌, Bool, true, false, List, [], ◌∷◌, length, get_or, set,
  replicate, ltb, if◌then◌else◌,
}

abbrev pub unix_buf_size : ℕ
unix_buf_size = 8192

abbrev pub u32_mod : ℕ
u32_mod = 2 ^ 32

pub record Ring : Type 0 where
  pub bytes : List ℕ
  pub head : ℕ
  pub tail : ℕ
  pub count : ℕ

-- The loop of `rb_write`: the buffer and the tail behind it.
unfoldable pub put_bytes : List ℕ → ℕ → List ℕ → List ℕ × ℕ
put_bytes buf tail [] = (buf, tail)
put_bytes buf tail (b ∷ src) = put_bytes (set buf tail b) ((tail + 1) % unix_buf_size) src

-- The loop of `rb_read`: the bytes copied out and the head behind it.
unfoldable pub get_bytes : List ℕ → ℕ → ℕ → List ℕ × ℕ
get_bytes buf head zero = ([], head)
get_bytes buf head (suc n) =
    let (out, head') = get_bytes buf ((head + 1) % unix_buf_size) n in
    (get_or buf head 0 ∷ out, head')

unfoldable pub rb_write : Ring → List ℕ → Bool × Ring
unfolding put_bytes
rb_write r src = if ltb unix_buf_size ((r.count + length src) % u32_mod) then (false, r) else (
  true,
  record r {
    bytes = (put_bytes r.bytes r.tail src).0;
    tail = (put_bytes r.bytes r.tail src).1;
    count = (r.count + length src) % u32_mod;
  },
)

abbrev pub read_count : Ring → ℕ → ℕ
read_count r want = if ltb want r.count then want else r.count

unfoldable pub rb_read : Ring → ℕ → List ℕ × Ring
unfolding get_bytes
rb_read r want =
    let n = read_count r want in
    (
      (get_bytes r.bytes r.head n).0,
      record r { head = (get_bytes r.bytes r.head n).1; count = r.count - n },
    )

-- After the `memset` of the socket.
abbrev pub empty_ring : Ring
empty_ring = record { bytes = replicate unix_buf_size 0; head = 0; tail = 0; count = 0 }
