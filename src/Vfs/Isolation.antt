-- ===== src/Vfs/Isolation.antt =====
-- What a process can do with descriptors of another one, in vfs.c.
use blackmount.Common.{
  bit_and, ◌∙◌, ℕ, ◌<◌, ◌≡◌, refl, Bool, true, false, List, Option, Option-cases, leb, ◌==◌,
  if◌then◌else◌, ◌⊎◌, inl, inr, Bool-cases, arith,
}
use blackmount.Common.Int.{ℤ, pos, minus_one}
use blackmount.Users.{Accounts}
use blackmount.Procs.Identity.{same_id}
use blackmount.Vfs.{Vfs, File, Ext2, Caller, error, max_open_files, file_at}
use blackmount.Vfs.Files.{
  fails, by_fd, write_target, vfs_write, read_target, vfs_read, vfs_ioctl, close_socket, close_file,
  close_at, vfs_close, seek_target, vfs_set_pos,
}
use blackmount.Vfs.Sockets.{
  Address, replies, sent, on_socket, vfs_bind, vfs_listen, vfs_accept, vfs_connect, vfs_sendto,
}

-- The error of a call on a socket.
abbrev pub refusal : File → ℤ
refusal f = if f.is_socket then error 13 else error 88

-- Every call on a descriptor without privilege fails and changes nothing, but that anyone may write
-- where `write_all` is set, and read what the kernel has opened.
pub record Refuses (ext : Ext2) (acc : Accounts) (caller : Caller) (has_call : ℕ → Bool)
    (create : Vfs → List ℕ → Vfs) (vfs : Vfs) (fd : ℕ) : Type 0 where
  pub on_close : vfs_close caller vfs (pos fd) false ≡ (error 13, vfs)
  pub on_write :
      ((file_at vfs fd).is_socket ≡ true) ⊎ ((file_at vfs fd).write_all ≡ false)
      → vfs_write ext acc caller has_call vfs (pos fd) false ≡ fails (error 13)
  pub on_read :
      ((file_at vfs fd).is_socket ≡ true) ⊎ (same_id (file_at vfs fd).pid minus_one ≡ false)
      → vfs_read caller has_call vfs (pos fd) ≡ fails (error 13)
  pub on_seek :
      (position : ℕ)
      → (vfs_set_pos ext caller vfs (pos fd) position false ≡ error 9)
        ⊎ (vfs_set_pos ext caller vfs (pos fd) position false ≡ error 13)
  pub on_ioctl : vfs_ioctl caller vfs fd ≡ fails (error 9)
  pub on_bind :
      (addr : Option Address)
      → vfs_bind caller create vfs (pos fd) addr ≡ (refusal (file_at vfs fd), vfs)
  pub on_listen : vfs_listen caller vfs (pos fd) ≡ (refusal (file_at vfs fd), vfs)
  pub on_accept : vfs_accept caller vfs (pos fd) ≡ replies (refusal (file_at vfs fd)) vfs
  pub on_connect :
      (addr : Option Address)
      → vfs_connect caller vfs (pos fd) addr ≡ replies (refusal (file_at vfs fd)) vfs
  pub on_send :
      (buf : List ℕ) (addr : Option Address)
      → vfs_sendto caller vfs (pos fd) buf addr ≡ sent (refusal (file_at vfs fd)) vfs

module _ (caller : Caller) (vfs : Vfs) (fd : ℕ) (near : fd < max_open_files)
    (here : (file_at vfs fd).present ≡ true)
    (foreign : same_id (file_at vfs fd).pid caller.pid ≡ false) where
  inside : leb max_open_files fd ≡ false
  inside = ground (arith, near)

  -- The descriptor is good.
  by_fd_good {ℓ} : {A : Type ℓ} (failed : A) (act : ℕ → A) → by_fd vfs (pos fd) failed act ≡ act fd
  by_fd_good failed act = rw (inside, here) refl

  on_socket_refused {ℓ} :
      {A : Type ℓ} (failed : ℤ → A) (act : ℕ → A)
      → on_socket caller vfs (pos fd) failed act ≡ failed (refusal (file_at vfs fd))
  unfolding on_socket
  on_socket_refused failed act = elim (Bool-cases (file_at vfs fd).is_socket) [
    | inl is ↦ rw (inside, here, is, foreign) refl
    | inr not_one ↦ rw (inside, here, not_one) refl
  ]

  close_at_refused : close_at caller vfs fd false ≡ (error 13, vfs)
  unfolding close_at close_socket close_file
  close_at_refused = elim (Bool-cases (file_at vfs fd).is_socket) [
    | inl is ↦ rw (is, foreign) refl
    | inr not_one ↦ elim (Bool-cases (bit_and (file_at vfs fd).flags 1 == 0)) [
      | inl plain ↦ rw (not_one, plain, foreign) refl
      | inr kernel ↦ rw (not_one, kernel) refl
    ]
  ]

  close_refused : vfs_close caller vfs (pos fd) false ≡ (error 13, vfs)
  unfolding vfs_close
  close_refused = by_fd_good (error 9, vfs) (λ i. close_at caller vfs i false) ∙ close_at_refused

  seek_refused :
      (ext : Ext2) (position : ℕ)
      → (vfs_set_pos ext caller vfs (pos fd) position false ≡ error 9)
        ⊎ (vfs_set_pos ext caller vfs (pos fd) position false ≡ error 13)
  unfolding vfs_set_pos seek_target
  seek_refused ext position = elim (Option-cases (file_at vfs fd).file) [
    | inl nothing ↦ inl (rw (inside, here, nothing) refl)
    | inr (file, has) ↦ elim (Bool-cases (bit_and (file_at vfs fd).flags 1 == 0)) [
      | inl plain ↦ inr (rw (inside, here, has, plain, foreign) refl)
      | inr kernel ↦ elim (Bool-cases (bit_and (file_at vfs fd).flags 0 == 0)) [
        | inl user ↦ inr (rw (inside, here, has, kernel, user) refl)
        | inr other ↦ inr (rw (inside, here, has, kernel, other, foreign) refl)
      ]
    ]
  ]

  write_refused :
      (ext : Ext2) (acc : Accounts) (has_call : ℕ → Bool)
      → ((file_at vfs fd).is_socket ≡ true) ⊎ ((file_at vfs fd).write_all ≡ false)
      → vfs_write ext acc caller has_call vfs (pos fd) false ≡ fails (error 13)
  unfolding vfs_write write_target
  write_refused ext acc has_call (inl is) = rw (inside, here, is, foreign) refl
  write_refused ext acc has_call (inr own) = elim (Bool-cases (file_at vfs fd).is_socket) [
    | inl is ↦ rw (inside, here, is, foreign) refl
    | inr not_one ↦ rw (inside, here, not_one, foreign, own) refl
  ]

  read_refused :
      (has_call : ℕ → Bool)
      → ((file_at vfs fd).is_socket ≡ true) ⊎ (same_id (file_at vfs fd).pid minus_one ≡ false)
      → vfs_read caller has_call vfs (pos fd) ≡ fails (error 13)
  unfolding vfs_read read_target
  read_refused has_call (inl is) = rw (inside, here, is, foreign) refl
  read_refused has_call (inr own) = elim (Bool-cases (file_at vfs fd).is_socket) [
    | inl is ↦ rw (inside, here, is, foreign) refl
    | inr not_one ↦ rw (inside, here, not_one, own, foreign) refl
  ]

  ioctl_refused : vfs_ioctl caller vfs fd ≡ fails (error 9)
  unfolding vfs_ioctl
  ioctl_refused = elim (Bool-cases (file_at vfs fd).is_dev) [
    | inl is ↦ rw (here, is, foreign) refl
    | inr not_one ↦ rw (here, not_one) refl
  ]

  -- A process without privilege cannot close, seek, control, bind, listen on, accept from, connect or
  -- send through an open descriptor that another process holds: each call fails with the error that
  -- its kind has for it, and changes nothing. It can write through it only if the descriptor is open
  -- for writing by all, and read it only if the kernel holds it, and neither if it is a socket.
  pub vfs_foreign_lem :
      (ext : Ext2) (acc : Accounts) (has_call : ℕ → Bool) (create : Vfs → List ℕ → Vfs)
      → Refuses ext acc caller has_call create vfs fd
  unfolding vfs_bind vfs_listen vfs_accept vfs_connect vfs_sendto
  vfs_foreign_lem ext acc has_call create = record {
    on_close = close_refused;
    on_write = write_refused ext acc has_call;
    on_read = read_refused has_call;
    on_seek = seek_refused ext;
    on_ioctl = ioctl_refused;
    on_bind = λ addr. on_socket_refused (λ e. (e, vfs)) _;
    on_listen = on_socket_refused (λ e. (e, vfs)) _;
    on_accept = on_socket_refused (λ e. replies e vfs) _;
    on_connect = λ addr. on_socket_refused (λ e. replies e vfs) _;
    on_send = λ buf addr. on_socket_refused (λ e. sent e vfs) _;
  }
