-- ===== src/Vfs/Descriptors.antt =====
-- Each socket has one descriptor, in vfs.c.
use blackmount.Common.{
  ℕ, suc, ◌+◌, ◌<◌, ◌≡◌, ◌≢◌, refl, sym, ap, subst, ◌∙◌, Bool, true, false, List, [], ◌∷◌, Option,
  none, some, length, length-set, get_or-set_self, get_or-set_ne, bit_and, leb, ◌==◌, ◌&&◌, not,
  if◌then◌else◌, ◌⊎◌, inl, inr, Bool-cases, Option-cases, arith,
}
use blackmount.Common.Int.{ℤ, pos, negsuc, pos_inj, is_negative}
use blackmount.UnixSocket.{Net, sock_stream, sock_dgram, unix_sock_create, unix_sock_destroy}
use blackmount.UnixSocket.Used.{used, used-unix_sock_destroy, Creates, unix_sock_create-Creates}
use blackmount.Procs.Identity.{same_id}
use blackmount.Vfs.{
  Vfs, File, Released, Caller, error, max_open_files, zero_file, file_at, put_file,
}
use blackmount.Vfs.Files.{
  close_socket, handle_of, give_back, closed_file, close_file, close_at, vfs_close,
}
use blackmount.Vfs.Sockets.{
  set_net, find_fd, socket_file, vfs_alloc_socket_fd, give_fd, af_unix, vfs_socket,
}

abbrev pub is_sock : File → Bool
is_sock f = f.present && f.is_socket

-- The table is full size, the socket of each open descriptor is in use, and it has no other one.
pub record IsOwned (vfs : Vfs) : Type 0 where
  pub slots : length vfs.open_files ≡ max_open_files
  pub held :
      (fd : ℕ)
      → is_sock (file_at vfs fd) ≡ true
      → (i : ℕ) × ((file_at vfs fd).unix_sock_id ≡ pos i) × (used vfs.net i ≡ true)
  pub once :
      (fd gd : ℕ)
      → is_sock (file_at vfs fd) ≡ true
      → is_sock (file_at vfs gd) ≡ true
      → (file_at vfs fd).unix_sock_id ≡ (file_at vfs gd).unix_sock_id
      → fd ≡ gd

-- A slot is written.
file_at-put_file :
    (vfs : Vfs) (fd : ℕ) (f : File) (gd : ℕ)
    → fd < length vfs.open_files
    → ((fd ≡ gd) × (file_at (put_file vfs fd f) gd ≡ f))
      ⊎ ((fd ≢ gd) × (file_at (put_file vfs fd f) gd ≡ file_at vfs gd))
file_at-put_file vfs fd f gd near = elim (Bool-cases (fd == gd)) [
  | inl same ↦
      let here : fd ≡ gd = ground (arith, same) in
      inl (
        here,
        subst (λ k. file_at (put_file vfs fd f) k ≡ f) here
            (get_or-set_self vfs.open_files fd f zero_file near),
      )
  | inr other ↦
      let apart : fd ≢ gd = λ e. ground (arith, other, e) in
      inr (apart, get_or-set_ne vfs.open_files fd gd f zero_file apart)
]

sock_of : (f g : File) → f ≡ g → is_sock f ≡ true → is_sock g ≡ true
sock_of f g e is = subst (λ h. is_sock h ≡ true) e is

-- A slot that holds no socket any more.
put_file-IsOwned :
    (vfs : Vfs) (fd : ℕ) (f : File)
    → IsOwned vfs
    → fd < max_open_files
    → is_sock f ≡ false
    → IsOwned (put_file vfs fd f)
put_file-IsOwned vfs fd f h near gone = record {
  slots = length-set vfs.open_files fd f ∙ h.slots;
  held = λ gd is.
      let (e, was) = before gd is in
      let (i, id, busy) = h.held gd was in (i, ap (λ (g : File). g.unix_sock_id) e ∙ id, busy);
  once = λ gd kd is_g is_k same.
      let (eg, was_g) = before gd is_g in
      let (ek, was_k) = before kd is_k in
      h.once gd kd was_g was_k
        (sym (ap (λ (g : File). g.unix_sock_id) eg) ∙ same ∙ ap (λ (g : File). g.unix_sock_id) ek);
}
  where
    before :
        (gd : ℕ)
        → is_sock (file_at (put_file vfs fd f) gd) ≡ true
        → (file_at (put_file vfs fd f) gd ≡ file_at vfs gd) × (is_sock (file_at vfs gd) ≡ true)
    before gd is = elim (file_at-put_file vfs fd f gd (omega (arith, near, h.slots))) [
      | inl (here, e) ↦ absurd (ground (arith, gone, sock_of _ _ e is))
      | inr (other, e) ↦ (e, sock_of _ _ e is)
    ]

-- The socket table changes, but what is held stays in use.
set_net-IsOwned :
    (vfs : Vfs) (net' : Net)
    → IsOwned vfs
    → ((fd i : ℕ)
        → is_sock (file_at vfs fd) ≡ true
        → (file_at vfs fd).unix_sock_id ≡ pos i
        → used vfs.net i ≡ true
        → used net' i ≡ true)
    → IsOwned (set_net vfs net')
set_net-IsOwned vfs net' h still = record {
  slots = h.slots;
  held = λ fd is. let (i, id, busy) = h.held fd is in (i, id, still fd i is id busy);
  once = h.once;
}

-- A slot gets a socket that no descriptor has.
new_socket-IsOwned :
    (vfs : Vfs) (caller : Caller) (fd i : ℕ)
    → IsOwned vfs
    → fd < max_open_files
    → used vfs.net i ≡ true
    → ((gd : ℕ) → is_sock (file_at vfs gd) ≡ true → (file_at vfs gd).unix_sock_id ≢ pos i)
    → IsOwned (put_file vfs fd (socket_file caller (pos i)))
new_socket-IsOwned vfs caller fd i h near busy fresh = record {
  slots = length-set vfs.open_files fd (socket_file caller (pos i)) ∙ h.slots;
  held = λ gd is. elim (at_gd gd) [
    | inl (here, e) ↦ (i, ap (λ (g : File). g.unix_sock_id) e, busy)
    | inr (other, e) ↦
        let (k, id, k_busy) = h.held gd (sock_of _ _ e is) in
        (k, ap (λ (g : File). g.unix_sock_id) e ∙ id, k_busy)
  ];
  once = λ gd kd is_g is_k same. elim (at_gd gd) [
    | inl (g_here, eg) ↦ elim (at_gd kd) [
      | inl (k_here, ek) ↦ sym g_here ∙ k_here
      | inr (k_other, ek) ↦ absurd (
          fresh kd (sock_of _ _ ek is_k) (
            sym (ap (λ (g : File). g.unix_sock_id) ek)
            ∙ sym same
            ∙ ap (λ (g : File). g.unix_sock_id) eg))
    ]
    | inr (g_other, eg) ↦ elim (at_gd kd) [
      | inl (k_here, ek) ↦ absurd (
          fresh gd (sock_of _ _ eg is_g) (
            sym (ap (λ (g : File). g.unix_sock_id) eg)
            ∙ same
            ∙ ap (λ (g : File). g.unix_sock_id) ek))
      | inr (k_other, ek) ↦
          h.once gd kd (sock_of _ _ eg is_g) (sock_of _ _ ek is_k) (
            sym (ap (λ (g : File). g.unix_sock_id) eg)
            ∙ same
            ∙ ap (λ (g : File). g.unix_sock_id) ek)
    ]
  ];
}
  where
    at_gd :
        (gd : ℕ)
        → ((fd ≡ gd)
            × (file_at (put_file vfs fd (socket_file caller (pos i))) gd
                ≡ socket_file caller (pos i)))
          ⊎ ((fd ≢ gd)
              × (file_at (put_file vfs fd (socket_file caller (pos i))) gd ≡ file_at vfs gd))
    at_gd gd =
        file_at-put_file vfs fd (socket_file caller (pos i)) gd (omega (arith, near, h.slots))

find_fd-near :
    (fs : List File) (i k : ℕ) → find_fd fs i ≡ some k → (i < suc k) × (k < i + length fs)
unfolding find_fd
find_fd-near [] i k e = absurd (ground (arith, e))
find_fd-near (f ∷ fs) i k e = elim (Bool-cases (leb 4 i && not f.present)) [
  | inl here ↦ (ground (arith, e, here), ground (arith, e, here))
  | inr other ↦
      let (low, high) = find_fd-near fs (i + 1) k (ground (arith, e, other)) in
      (omega (arith, low), omega (arith, high))
]

abbrev Unheld : Vfs → ℕ → Type 0
Unheld vfs i = (gd : ℕ) → is_sock (file_at vfs gd) ≡ true → (file_at vfs gd).unix_sock_id ≢ pos i

-- A socket that no descriptor has is destroyed.
destroyed-IsOwned :
    (vfs : Vfs) (i : ℕ)
    → IsOwned vfs
    → Unheld vfs i
    → IsOwned (set_net vfs (unix_sock_destroy vfs.net (pos i)))
destroyed-IsOwned vfs i h fresh =
    set_net-IsOwned vfs (unix_sock_destroy vfs.net (pos i)) h (λ fd k is id busy.
      used-unix_sock_destroy vfs.net (pos i) k (λ e. fresh fd is (id ∙ sym e)) ∙ busy)

-- A descriptor for a new socket, or the socket is destroyed.
give_fd-IsOwned :
    (caller : Caller) (vfs : Vfs) (i : ℕ)
    → IsOwned vfs
    → used vfs.net i ≡ true
    → Unheld vfs i
    → IsOwned (give_fd caller vfs (pos i)).1
unfolding give_fd vfs_alloc_socket_fd
give_fd-IsOwned caller vfs i h busy fresh = elim (Option-cases (find_fd vfs.open_files 0)) [
  | inl full ↦ rw (full, give_fd) (destroyed-IsOwned vfs i h fresh)
  | inr (fd, found) ↦
      let (low, high) = find_fd-near vfs.open_files 0 fd found in
      rw (found, give_fd)
        (new_socket-IsOwned vfs caller fd i h (omega (arith, high, h.slots)) busy fresh)
]

-- What creating a socket leaves, by what unix_sock_create says.
abbrev socket_with : Caller → Vfs → ℤ × Net → ℤ × Vfs
socket_with caller vfs made =
    if is_negative made.0
    then (error 23, set_net vfs made.1)
    else give_fd caller (set_net vfs made.1) made.0

socket_with-IsOwned :
    (caller : Caller) (vfs : Vfs) (made : ℤ × Net)
    → IsOwned vfs
    → Creates vfs.net made
    → IsOwned (socket_with caller vfs made).1
socket_with-IsOwned caller vfs (r, net') h (inl (failed, same)) =
    rw (failed, same) (record { slots = h.slots; held = h.held; once = h.once })
socket_with-IsOwned caller vfs (r, net') h (inr (i, id, free, busy, others)) =
    let fresh : Unheld vfs i = λ gd is same.
      let (k, id_k, k_busy) = h.held gd is in
      let i_k : k ≡ i = pos_inj k i (sym id_k ∙ same) in
      absurd (ground (arith, free, k_busy, ap (used vfs.net) i_k)) in
    let kept : IsOwned (set_net vfs net') =
      set_net-IsOwned vfs net' h
        (λ fd k is id_k k_busy. others k (λ e. fresh fd is (id_k ∙ ap pos (sym e))) ∙ k_busy) in
    rw id (give_fd-IsOwned caller (set_net vfs net') i kept busy fresh)

vfs_socket-IsOwned :
    (caller : Caller) (vfs : Vfs) (domain kind : ℕ)
    → IsOwned vfs
    → IsOwned (vfs_socket caller vfs domain kind).1
unfolding vfs_socket
vfs_socket-IsOwned caller vfs domain kind h = elim (Bool-cases (domain == af_unix)) [
  | inr other ↦ rw other h
  | inl unix ↦ elim (Bool-cases (not (kind == sock_stream) && not (kind == sock_dgram))) [
    | inl wrong ↦ rw (unix, wrong) h
    | inr known ↦
        rw (unix, known)
          (socket_with-IsOwned caller vfs (unix_sock_create vfs.net kind) h
            (unix_sock_create-Creates vfs.net kind))
  ]
]

close_socket-IsOwned :
    (caller : Caller) (vfs : Vfs) (fd : ℕ) (privileged : Bool)
    → IsOwned vfs
    → fd < max_open_files
    → is_sock (file_at vfs fd) ≡ true
    → IsOwned (close_socket caller vfs fd privileged).1
unfolding close_socket
close_socket-IsOwned caller vfs fd privileged h near is =
    elim (Bool-cases (not privileged && not (same_id (file_at vfs fd).pid caller.pid))) [
      | inl refused ↦ rw refused h
      | inr allowed ↦
          let f : File = record (file_at vfs fd) { present = false; is_socket = false } in
          let cleared_slot : Vfs = put_file vfs fd f in
          rw allowed (
            set_net-IsOwned cleared_slot (unix_sock_destroy vfs.net (file_at vfs fd).unix_sock_id)
              (put_file-IsOwned vfs fd f h near refl)
              (λ gd k is_g id busy.
                elim (file_at-put_file vfs fd f gd (omega (arith, near, h.slots))) [
                  | inl (at_fd, e) ↦ absurd (ground (arith, sock_of _ _ e is_g))
                  | inr (other, e) ↦
                      let was = ap (λ (g : File). g.unix_sock_id) (sym e) ∙ id in
                      used-unix_sock_destroy vfs.net (file_at vfs fd).unix_sock_id k
                        (λ same. other (h.once fd gd is (sock_of _ _ e is_g) (same ∙ sym was)))
                      ∙ busy
                ]))
    ]

-- Giving back a handle touches neither descriptors nor sockets.
give_back-IsOwned : (o : Option Released) (vfs : Vfs) → IsOwned vfs → IsOwned (give_back o vfs)
unfolding give_back
give_back-IsOwned none vfs h = h
give_back-IsOwned (some r) vfs h = record { slots = h.slots; held = h.held; once = h.once }

close_file-IsOwned :
    (caller : Caller) (vfs : Vfs) (fd : ℕ) (privileged : Bool)
    → IsOwned vfs
    → fd < max_open_files
    → IsOwned (close_file caller vfs fd privileged).1
unfolding close_file
close_file-IsOwned caller vfs fd privileged h near =
    let f : File = file_at vfs fd in
    elim (Bool-cases (not privileged && not (bit_and f.flags 1 == 0))) [
      | inl kernel ↦ rw kernel h
      | inr user ↦ elim (Bool-cases (not privileged && not (same_id f.pid caller.pid))) [
        | inl refused ↦ rw (user, refused) h
        | inr allowed ↦
            let handle = handle_of f.dir_iter f.is_dir f.file in
            rw (user, allowed)
              (put_file-IsOwned (give_back handle vfs) fd (closed_file f)
                (give_back-IsOwned handle vfs h) near refl)
      ]
    ]

-- A descriptor is closed.
close_at-IsOwned :
    (caller : Caller) (vfs : Vfs) (fd : ℕ) (privileged : Bool)
    → IsOwned vfs
    → fd < max_open_files
    → (file_at vfs fd).present ≡ true
    → IsOwned (close_at caller vfs fd privileged).1
unfolding close_at
close_at-IsOwned caller vfs fd privileged h near here =
    let kind_of : Bool → ℤ × Vfs = λ b.
      if b then close_socket caller vfs fd privileged else close_file caller vfs fd privileged in
    elim (Bool-cases (file_at vfs fd).is_socket) [
      | inl is ↦
          subst (λ b. IsOwned (kind_of b).1) (sym is)
            (close_socket-IsOwned caller vfs fd privileged h near (ground (arith, here, is)))
      | inr plain ↦
          subst (λ b. IsOwned (kind_of b).1) (sym plain)
            (close_file-IsOwned caller vfs fd privileged h near)
    ]

vfs_close-IsOwned :
    (caller : Caller) (vfs : Vfs) (fd : ℤ) (privileged : Bool)
    → IsOwned vfs
    → IsOwned (vfs_close caller vfs fd privileged).1
unfolding vfs_close
vfs_close-IsOwned caller vfs (negsuc n) privileged h = h
vfs_close-IsOwned caller vfs (pos fd) privileged h = elim (Bool-cases (leb max_open_files fd)) [
  | inl far ↦ rw far h
  | inr near ↦ elim (Bool-cases (file_at vfs fd).present) [
    | inr gone ↦ rw (near, gone) h
    | inl here ↦
        rw (near, here) (close_at-IsOwned caller vfs fd privileged h (ground (arith, near)) here)
  ]
]

-- Where the socket of each open descriptor is in use and has no other descriptor, this stays so when
-- any process makes a socket, whether or not a descriptor is left for it, and when it closes any
-- descriptor, with or without privilege.
pub vfs_sockets_lem :
    (caller : Caller) (vfs : Vfs)
    → IsOwned vfs
    → ((domain kind : ℕ) → IsOwned (vfs_socket caller vfs domain kind).1)
      × ((fd : ℤ) (privileged : Bool) → IsOwned (vfs_close caller vfs fd privileged).1)
vfs_sockets_lem caller vfs h = (
  λ domain kind. vfs_socket-IsOwned caller vfs domain kind h,
  λ fd privileged. vfs_close-IsOwned caller vfs fd privileged h,
)
