-- ===== src/Procs/Directory.antt =====
-- The working directory of the current process in proc.c. A C string that a caller hands in is the list
-- of its bytes before the null; the array of the process and the caller's buffer are their bytes from
-- the start on, with what follows them in memory.
use blackmount.Common.{
  ℕ, zero, suc, ◌+◌, ◌<◌, ◌≤◌, ◌≡◌, refl, ap, sym, ◌∙◌, true, false, List, [], ◌∷◌, Option, none,
  some, length, get_or, get_or-set_self, get_or-past, ltb, leb, ◌==◌, if◌then◌else◌, ◌⊎◌, inl, inr,
  Bool-cases, All, arith,
}
use blackmount.Common.Int.{ℤ, pos, negsuc, minus_one}
use blackmount.Procs.{Procs, Pcb, pcb_at, put_pcb, unused_pcb}

abbrev pub cwd_size : ℕ
cwd_size = 256

-- The bytes of a C string, with the null behind them.
abbrev pub text : List ℕ → ℕ → ℕ
text path i = get_or path i 0

-- `memcpy` of `n` bytes from one array to another.
abbrev pub copy_bytes : (ℕ → ℕ) → (ℕ → ℕ) → ℕ → ℕ → ℕ
copy_bytes dst src n i = if ltb i n then src i else dst i

-- `strlen` from `i` on, or `none` if none of the next `rounds` bytes is null.
unfoldable pub str_len : ℕ → (ℕ → ℕ) → ℕ → Option ℕ
str_len zero s i = none
str_len (suc rounds) s i =
    let rest : Option ℕ = str_len rounds s (i + 1) in if s i == 0 then some i else rest

unfoldable pub change_cwd : Procs → List ℕ → ℤ → ℤ × Procs
change_cwd procs path (negsuc n) = (minus_one, procs)
change_cwd procs path (pos c) = if leb cwd_size (length path) then (minus_one, procs) else (
  pos 0,
  put_pcb procs c (record (pcb_at procs c) {
    cwd = copy_bytes (pcb_at procs c).cwd (text path) (length path + 1);
  }),
)

-- `none` is the null pointer.
unfoldable pub proc_chdir : Procs → Option (List ℕ) → ℤ × Procs
proc_chdir procs none = (minus_one, procs)
proc_chdir procs (some path) = change_cwd procs path procs.current_proc

-- The end of `proc_getcwd`, for the length that `strlen` found.
abbrev pub copy_out : (ℕ → ℕ) → (ℕ → ℕ) → ℕ → Option ℕ → Option (ℤ × (ℕ → ℕ))
copy_out cwd buf size none = none
copy_out cwd buf size (some len) =
    some (if ltb size (len + 1) then (minus_one, buf) else (pos 0, copy_bytes buf cwd (len + 1)))

unfoldable pub copy_cwd : Procs → (ℕ → ℕ) → ℕ → ℤ → Option (ℤ × (ℕ → ℕ))
unfolding str_len
copy_cwd procs buf size (negsuc n) = some (minus_one, buf)
copy_cwd procs buf size (pos c) =
    copy_out (pcb_at procs c).cwd buf size (str_len cwd_size (pcb_at procs c).cwd 0)

-- The result and the buffer after the call, for a buffer that is not the null pointer. There is no
-- result when `strlen` runs past the array.
unfoldable pub proc_getcwd : Procs → (ℕ → ℕ) → ℕ → Option (ℤ × (ℕ → ℕ))
proc_getcwd procs buf size =
    if size == 0 then some (minus_one, buf) else copy_cwd procs buf size procs.current_proc

abbrev pub NoNull : List ℕ → Type 0
NoNull path = All (λ b. (b == 0) ≡ false) path

-- The length of a text is found where an array has it and a null behind.
str_len_at :
    (path : List ℕ) (s : ℕ → ℕ) (i rounds : ℕ)
    → NoNull path
    → ((j : ℕ) → j < length path + 1 → s (i + j) ≡ text path j)
    → length path < rounds
    → str_len rounds s i ≡ some (i + length path)
unfolding str_len
str_len_at path s i zero text_only same room = absurd (omega (arith, room))
str_len_at [] s i (suc rounds) text_only same room =
    let here : i + 0 ≡ i = omega arith in
    let null : s i ≡ 0 = ap s (sym here) ∙ same 0 (omega arith) in rw null (ap some (sym here))
str_len_at (b ∷ path) s i (suc rounds) text_only same room =
    let here : i + 0 ≡ i = omega arith in
    let first : s i ≡ b = ap s (sym here) ∙ same 0 (omega arith) in
    let next : i + 1 + length path ≡ i + suc (length path) = omega arith in
    rw (first, text_only.0)
      (str_len_at path s (i + 1) rounds text_only.1
          (λ j near.
            let there : i + 1 + j ≡ i + suc j = omega arith in
            ap s there ∙ same (suc j) (omega (arith, near)))
          (omega (arith, room))
        ∙ ap some next)

-- What a change to `path` and then a read into a buffer of `size` bytes do. The path is too long for
-- the array, and the change fails and changes nothing. Or the change succeeds, leaves the bytes behind
-- the array, and the read fails and leaves the buffer if the path and a null do not fit into it, and
-- otherwise succeeds and puts the path and a null at its start, leaving the bytes behind these.
abbrev pub ReadsBack : Procs → ℕ → List ℕ → (ℕ → ℕ) → ℕ → ℕ → ℤ × Procs → Type 0
ReadsBack procs c path buf size i (code, procs') =
    ((cwd_size ≤ length path) × (code ≡ minus_one) × (procs' ≡ procs))
    ⊎ ((length path < cwd_size)
        × (code ≡ pos 0)
        × ((pcb_at procs' c).cwd (cwd_size + i) ≡ (pcb_at procs c).cwd (cwd_size + i))
        × (((size ≤ length path) × (proc_getcwd procs' buf size ≡ some (minus_one, buf)))
            ⊎ ((length path < size)
                × (buf' : ℕ → ℕ) × (proc_getcwd procs' buf size ≡ some (pos 0, buf'))
                × (buf' i ≡ (
                    if ltb i (length path)
                    then text path i
                    else if i == length path
                    then 0
                    else buf i)))))

fits : (len size : ℕ) → len < size → ((size == 0) ≡ false) × (ltb size (len + 1) ≡ false)
fits len size room = (ground (arith, room), ground (arith, room))

in_copy : (dst src : ℕ → ℕ) (n j : ℕ) → j < n → copy_bytes dst src n j ≡ src j
in_copy dst src n j near = let test : ltb j n ≡ true = ground (arith, near) in rw test refl

read_fails :
    (procs : Procs) (c len size : ℕ) (buf : ℕ → ℕ)
    → procs.current_proc ≡ pos c
    → str_len cwd_size (pcb_at procs c).cwd 0 ≡ some len
    → size ≤ len
    → proc_getcwd procs buf size ≡ some (minus_one, buf)
unfolding proc_getcwd copy_cwd
read_fails procs c len size buf current found small = elim (Bool-cases (size == 0)) [
  | inl nothing ↦ rw nothing refl
  | inr some_room ↦
      let test : ltb size (len + 1) ≡ true = ground (arith, small) in
      rw some_room (
        ap (copy_cwd procs buf size) current
        ∙ ap (copy_out (pcb_at procs c).cwd buf size) found
        ∙ rw test refl)
]

read_copies :
    (procs : Procs) (c len size : ℕ) (buf : ℕ → ℕ)
    → procs.current_proc ≡ pos c
    → str_len cwd_size (pcb_at procs c).cwd 0 ≡ some len
    → len < size
    → proc_getcwd procs buf size ≡ some (pos 0, copy_bytes buf (pcb_at procs c).cwd (len + 1))
unfolding proc_getcwd copy_cwd
read_copies procs c len size buf current found room =
    let (some_room, test) = fits len size room in
    rw some_room (
      ap (copy_cwd procs buf size) current
      ∙ ap (copy_out (pcb_at procs c).cwd buf size) found
      ∙ rw test refl)

-- The array of the process after a path is copied to it.
abbrev stored : (ℕ → ℕ) → List ℕ → ℕ → ℕ
stored cwd path = copy_bytes cwd (text path) (length path + 1)

stored-str_len :
    (cwd : ℕ → ℕ) (path : List ℕ)
    → NoNull path
    → length path < cwd_size
    → str_len cwd_size (stored cwd path) 0 ≡ some (length path)
stored-str_len cwd path text_only short =
    str_len_at path (stored cwd path) 0 cwd_size text_only
      (λ j near.
        ap (stored cwd path) {y = j} (omega arith)
        ∙ in_copy cwd (text path) (length path + 1) j near)
      short
    ∙ ap some {y = length path} (omega arith)

copied_text :
    (cwd buf : ℕ → ℕ) (path : List ℕ) (i : ℕ)
    → copy_bytes buf (stored cwd path) (length path + 1) i
      ≡ (if ltb i (length path) then text path i else if i == length path then 0 else buf i)
copied_text cwd buf path i = ground (arith, get_or-past path i 0)

after_change :
    (procs : Procs) (c size i : ℕ) (path : List ℕ) (buf : ℕ → ℕ)
    → procs.current_proc ≡ pos c
    → c < length procs.proc_table
    → NoNull path
    → length path < cwd_size
    → ReadsBack procs c path buf size i (
      pos 0,
      put_pcb procs c (record (pcb_at procs c) { cwd = stored (pcb_at procs c).cwd path }),
    )
after_change procs c size i path buf current near text_only short =
    let p : Pcb = record (pcb_at procs c) { cwd = stored (pcb_at procs c).cwd path } in
    let after : Procs = put_pcb procs c p in
    let now : (pcb_at after c).cwd ≡ stored (pcb_at procs c).cwd path =
      ap (λ (q : Pcb). q.cwd) (get_or-set_self procs.proc_table c p unused_pcb near) in
    let found : str_len cwd_size (pcb_at after c).cwd 0 ≡ some (length path) =
      ap (λ s. str_len cwd_size s 0) now
      ∙ stored-str_len (pcb_at procs c).cwd path text_only short in
    let behind : ltb (cwd_size + i) (length path + 1) ≡ false = ground (arith, short) in
    inr (
      short,
      refl,
      ap (λ (s : ℕ → ℕ). s (cwd_size + i)) now ∙ rw behind refl,
      elim (Bool-cases (leb size (length path))) [
        | inl small ↦
            let le : size ≤ length path = ground (arith, small) in
            inl (le, read_fails after c (length path) size buf current found le)
        | inr room ↦
            let lt : length path < size = ground (arith, room) in
            inr (
              lt,
              copy_bytes buf (pcb_at after c).cwd (length path + 1),
              read_copies after c (length path) size buf current found lt,
              ap (λ s. copy_bytes buf s (length path + 1) i) now
                  ∙ copied_text (pcb_at procs c).cwd buf path i,
            )
      ],
    )

-- A change of the directory to a path without null bytes and then a read into a buffer. A path of 256
-- bytes or more is refused and changes nothing. A shorter one is stored, and no byte behind the array
-- of 256 changes; a buffer of `size` bytes that is too small for the path and a null is then refused
-- and stays as it is, and a larger one has the path, a null, and behind these the bytes it had.
pub proc_getcwd-proc_chdir :
    (procs : Procs) (c size i : ℕ) (path : List ℕ) (buf : ℕ → ℕ)
    → procs.current_proc ≡ pos c
    → c < length procs.proc_table
    → NoNull path
    → ReadsBack procs c path buf size i (proc_chdir procs (some path))
unfolding proc_chdir change_cwd
proc_getcwd-proc_chdir procs c size i path buf current near text_only =
    rw (ap (change_cwd procs path) current) (elim (Bool-cases (leb cwd_size (length path))) [
      | inl long ↦ rw long (inl (ground (arith, long), refl, refl))
      | inr short ↦
          rw short
            (after_change procs c size i path buf current near text_only (ground (arith, short)))
    ])
