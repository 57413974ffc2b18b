-- ===== src/UnixSocket/Fifo.antt =====
-- The receive buffer as a queue.
use blackmount.Common.{
  ℕ, zero, suc, ◌+◌, ◌-◌, ◌%◌, ◌^◌, ◌≤◌, ◌<◌, ◌≡◌, refl, sym, ap, ap₂, ◌∙◌, true, false, List, [],
  ◌∷◌, ◌++◌, append_assoc, append-nil, length, length-set, length-replicate, get_or,
  get_or-set_self, get_or-set_ne, set, min, ltb, if◌then◌else◌, Bool-cases, inl, inr, arith,
}
use blackmount.UnixSocket.RingBuffer.{
  Ring, unix_buf_size, u32_mod, put_bytes, get_bytes, rb_write, read_count, rb_read, empty_ring,
}

pub record IsValid (r : Ring) : Type 0 where
  pub room : length r.bytes ≡ unix_buf_size
  pub head_in : r.head < unix_buf_size
  pub count_in : r.count ≤ unix_buf_size
  pub tail_at : r.tail ≡ (r.head + r.count) % unix_buf_size

-- The bytes that wait to be read, oldest first.
abbrev pub contents : Ring → List ℕ
contents r = (get_bytes r.bytes r.head r.count).0

pub length-get_bytes : (buf : List ℕ) (n head : ℕ) → length (get_bytes buf head n).0 ≡ n
unfolding get_bytes
length-get_bytes buf zero head = refl
length-get_bytes buf (suc n) head = ap suc (length-get_bytes buf n ((head + 1) % unix_buf_size))

get_bytes-head :
    (buf : List ℕ) (n head : ℕ)
    → head < unix_buf_size
    → (get_bytes buf head n).1 ≡ (head + n) % unix_buf_size
unfolding get_bytes
get_bytes-head buf zero head h = omega arith
get_bytes-head buf (suc n) head h =
    omega (arith, get_bytes-head buf n ((head + 1) % unix_buf_size) (omega arith))

get_bytes-congr :
    (buf : List ℕ) (h h' n n' : ℕ)
    → h ≡ h'
    → n ≡ n'
    → (get_bytes buf h n).0 ≡ (get_bytes buf h' n').0
get_bytes-congr buf h h' n n' p q = rw (p, q)

-- A long read is a short one and the rest.
get_bytes-add :
    (buf : List ℕ) (m n head : ℕ)
    → head < unix_buf_size
    → (get_bytes buf head (m + n)).0
      ≡ (get_bytes buf head m).0 ++ (get_bytes buf ((head + m) % unix_buf_size) n).0
unfolding get_bytes
get_bytes-add buf zero n head h =
    get_bytes-congr buf head ((head + zero) % unix_buf_size) (zero + n) n (omega arith)
      (omega arith)
get_bytes-add buf (suc m) n head h =
    let next : ℕ = (head + 1) % unix_buf_size in
    get_bytes-congr buf head head (suc m + n) (suc (m + n)) refl (omega arith)
    ∙ ap (λ (l : List ℕ). get_or buf head 0 ∷ l)
        (get_bytes-add buf m n next (omega arith)
          ∙ ap (λ (l : List ℕ). (get_bytes buf next m).0 ++ l)
              (get_bytes-congr buf ((next + m) % unix_buf_size) ((head + suc m) % unix_buf_size) n n
                (omega arith) refl))

-- A byte written just behind the window extends it.
get_bytes-set :
    (buf : List ℕ) (b c head i : ℕ)
    → length buf ≡ unix_buf_size
    → head < unix_buf_size
    → c < unix_buf_size
    → i ≡ (head + c) % unix_buf_size
    → (get_bytes (set buf i b) head (suc c)).0 ≡ (get_bytes buf head c).0 ++ b ∷ []
unfolding get_bytes
get_bytes-set buf b zero head i len h small e =
    let at : i ≡ head = omega arith in
    ap (λ (x : ℕ). x ∷ []) (rw at (get_or-set_self buf head b 0 (omega arith)))
get_bytes-set buf b (suc c) head i len h small e =
    ap₂ ◌∷◌ (get_or-set_ne buf i head b 0 (omega arith)) (
      get_bytes-set buf b c ((head + 1) % unix_buf_size) i len (omega arith) (omega arith)
        (omega arith))

put_bytes_lem :
    (src buf : List ℕ) (c head i : ℕ)
    → length buf ≡ unix_buf_size
    → head < unix_buf_size
    → c + length src ≤ unix_buf_size
    → i ≡ (head + c) % unix_buf_size
    → ((get_bytes (put_bytes buf i src).0 head (c + length src)).0
        ≡ (get_bytes buf head c).0 ++ src)
      × (length (put_bytes buf i src).0 ≡ unix_buf_size)
      × ((put_bytes buf i src).1 ≡ (head + (c + length src)) % unix_buf_size)
unfolding put_bytes
put_bytes_lem [] buf c head i len h fits e = (
  get_bytes-congr buf head head (c + 0) c refl (omega arith)
      ∙ sym (append-nil ((get_bytes buf head c).0)),
  len,
  omega arith,
)
put_bytes_lem (b ∷ src) buf c head i len h fits e =
    let next : ℕ = (i + 1) % unix_buf_size in
    let (bytes, len', tail) =
      put_bytes_lem src (set buf i b) (suc c) head ((i + 1) % unix_buf_size)
        (length-set buf i b ∙ len) h (omega arith) (omega arith) in
    (
      get_bytes-congr (put_bytes (set buf i b) next src).0 head head (c + suc (length src))
            (suc c + length src) refl (omega arith)
          ∙ bytes
          ∙ ap (λ (l : List ℕ). l ++ src) (get_bytes-set buf b c head i len h (omega arith) e)
          ∙ append_assoc ((get_bytes buf head c).0) (b ∷ []) src,
      len',
      omega arith,
    )

-- `rb_write` of fewer than 2^31 bytes appends them all to the waiting bytes if they fit, and
-- otherwise refuses and changes nothing.
pub rb_write_lem :
    (r : Ring) (src : List ℕ)
    → IsValid r
    → length src < 2 ^ 31
    → let (ok, r') = rb_write r src in
      (ok ≡ (if ltb unix_buf_size (r.count + length src) then false else true))
      × (contents r' ≡ (if ok then contents r ++ src else contents r))
      × (r'.count ≡ (if ok then r.count + length src else r.count))
      × IsValid r'
unfolding rb_write
rb_write_lem r src v short =
    elim (Bool-cases (ltb unix_buf_size ((r.count + length src) % u32_mod))) [
      | inl full ↦ rw full (ground (arith, v.count_in), refl, refl, v)
      | inr room ↦
          let fits : r.count + length src ≤ unix_buf_size = ground (arith, v.count_in) in
          let small : (r.count + length src) % u32_mod ≡ r.count + length src = omega arith in
          let (bytes, len, tail) =
            put_bytes_lem src r.bytes r.count r.head r.tail v.room v.head_in fits v.tail_at in
          rw (room, small)
            (
              ground arith,
              bytes,
              refl,
              record { room = len; head_in = v.head_in; count_in = fits; tail_at = tail },
            )
    ]

-- `rb_read` hands out the oldest bytes, as many as were asked for or as there are, and keeps the rest.
pub rb_read_lem :
    (r : Ring) (want : ℕ)
    → IsValid r
    → let (out, r') = rb_read r want in
      (contents r ≡ out ++ contents r')
      × (length out ≡ min want r.count)
      × (r'.count ≡ r.count - want)
      × IsValid r'
unfolding rb_read
rb_read_lem r want v =
    let n : ℕ = read_count r want in
    let le : n ≤ r.count = ground arith in
    let head = get_bytes-head r.bytes n r.head v.head_in in
    (
      get_bytes-congr r.bytes r.head r.head r.count (n + (r.count - n)) refl (omega arith)
          ∙ get_bytes-add r.bytes n (r.count - n) r.head v.head_in
          ∙ ap (λ (l : List ℕ). (get_bytes r.bytes r.head n).0 ++ l)
              (get_bytes-congr r.bytes ((r.head + n) % unix_buf_size) (get_bytes r.bytes r.head n).1
                (r.count - n) (r.count - n) (sym head) refl),
      length-get_bytes r.bytes n r.head ∙ ground arith,
      ground arith,
      record {
        room = v.room;
        head_in = omega (arith, head);
        count_in = omega (arith, v.count_in);
        tail_at = omega (arith, head, v.tail_at, le);
      },
    )

pub empty_ring-IsValid : IsValid empty_ring
empty_ring-IsValid = record {
  room = length-replicate {A = ℕ} unix_buf_size 0;
  head_in = omega arith;
  count_in = omega arith;
  tail_at = omega arith;
}
