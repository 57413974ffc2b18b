-- ===== src/Vfs/Sockets.antt =====
-- The calls of vfs.c on sockets, over the socket table of unix_socket.c. An address that is not null
-- is its family, its length and its path.
use blackmount.Common.{
  ℕ, ◌+◌, true, List, [], ◌∷◌, Option, none, some, ltb, leb, ◌==◌, ◌&&◌, ◌||◌, not, if◌then◌else◌,
}
use blackmount.Common.Int.{ℤ, pos, negsuc, is_negative}
use blackmount.UnixSocket.{
  Net, at, sock_stream, sock_dgram, unix_sock_get, unix_sock_create, unix_sock_destroy,
  unix_sock_bind, unix_sock_listen,
}
use blackmount.UnixSocket.Connect.{Reply, done, waits, unix_sock_accept, unix_sock_connect}
use blackmount.UnixSocket.Transfer.{unix_sock_sendto}
use blackmount.Procs.Identity.{same_id}
use blackmount.Vfs.{Vfs, File, Caller, error, max_open_files, zero_file, file_at, put_file}

abbrev pub set_net : Vfs → Net → Vfs
set_net vfs net' = record vfs { net = net' }

-- The first unused slot of the table from the slot 4 on, for slots that stand from `i` on.
unfoldable pub find_fd : List File → ℕ → Option ℕ
find_fd [] i = none
find_fd (f ∷ fs) i = if leb 4 i && not f.present then some i else find_fd fs (i + 1)

abbrev pub socket_file : Caller → ℤ → File
socket_file caller sock_id = record zero_file {
  present = true;
  is_socket = true;
  unix_sock_id = sock_id;
  pid = caller.pid;
}

unfoldable pub vfs_alloc_socket_fd : Caller → Vfs → ℤ → Option (ℕ × Vfs)
unfolding find_fd
vfs_alloc_socket_fd caller vfs sock_id = elim (find_fd vfs.open_files 0) [
  | none ↦ none
  | some i ↦ some (i, put_file vfs i (socket_file caller sock_id))
]

-- A descriptor for a new socket, or the socket is destroyed.
unfoldable pub give_fd : Caller → Vfs → ℤ → ℤ × Vfs
unfolding vfs_alloc_socket_fd
give_fd caller vfs sock_id = elim (vfs_alloc_socket_fd caller vfs sock_id) [
  | none ↦ (error 24, set_net vfs (unix_sock_destroy vfs.net sock_id))
  | some (fd, vfs') ↦ (pos fd, vfs')
]

abbrev pub af_unix : ℕ
af_unix = 1

unfoldable pub vfs_socket : Caller → Vfs → ℕ → ℕ → ℤ × Vfs
unfolding give_fd
vfs_socket caller vfs domain kind =
    if not (domain == af_unix)
    then (error 97, vfs)
    else if not (kind == sock_stream) && not (kind == sock_dgram)
    then (error 94, vfs)
    else let made = unix_sock_create vfs.net kind in
      if is_negative made.0
      then (error 23, set_net vfs made.1)
      else give_fd caller (set_net vfs made.1) made.0

-- The checks that every call on a socket starts with: a call of `act` on the descriptor, or an error.
unfoldable pub on_socket {ℓ} : {A : Type ℓ} → Caller → Vfs → ℤ → (ℤ → A) → (ℕ → A) → A
on_socket caller vfs (negsuc n) failed act = failed (error 9)
on_socket caller vfs (pos fd) failed act =
    if leb max_open_files fd
    then failed (error 9)
    else if not (file_at vfs fd).present || not (file_at vfs fd).is_socket
    then failed (error 88)
    else if not (same_id (file_at vfs fd).pid caller.pid)
    then failed (error 13)
    else act fd

-- `struct sockaddr_un`
pub record Address : Type 0 where
  pub family : ℕ
  pub addrlen : ℕ
  pub sun_path : List ℕ

-- `!addr || addrlen < sizeof(uint16_t)` and the family.
abbrev pub by_address {ℓ} : {A : Type ℓ} → Option Address → (ℤ → A) → (List ℕ → A) → A
by_address none failed act = failed (error 22)
by_address (some a) failed act =
    if ltb a.addrlen 2
    then failed (error 22)
    else if not (a.family == af_unix)
    then failed (error 97)
    else act a.sun_path

-- `create` is the call of VFS_Create, whose result is not looked at.
unfoldable pub bind_fd : Vfs → ℕ → List ℕ → ℤ × Vfs
bind_fd vfs fd path =
    let r = unix_sock_bind vfs.net (file_at vfs fd).unix_sock_id path in
    if is_negative r.0
    then (error 98, set_net vfs r.1)
    else (pos 0, put_file (set_net vfs r.1) fd (record (file_at vfs fd) { path = path }))

unfoldable pub vfs_bind : Caller → (Vfs → List ℕ → Vfs) → Vfs → ℤ → Option Address → ℤ × Vfs
unfolding bind_fd
vfs_bind caller create vfs fd addr =
    on_socket caller vfs fd (λ e. (e, vfs))
      (λ i. by_address addr (λ e. (e, vfs)) (λ path. bind_fd (create vfs path) i path))

unfoldable pub vfs_listen : Caller → Vfs → ℤ → ℤ × Vfs
vfs_listen caller vfs fd =
    on_socket caller vfs fd (λ e. (e, vfs))
      (λ i.
        let r = unix_sock_listen vfs.net (file_at vfs i).unix_sock_id in
        (if is_negative r.0 then error 95 else pos 0, set_net vfs r.1))

-- A call is done, or waits with its state so far.
pub data FdReply : Type 0 where
  replies : ℤ → Vfs → FdReply
  waiting : Vfs → FdReply

unfoldable pub accepted_fd : Caller → Vfs → Reply → FdReply
unfolding give_fd
accepted_fd caller vfs (waits net') = waiting (set_net vfs net')
accepted_fd caller vfs (done id net') =
    if is_negative id
    then replies (error 22) (set_net vfs net')
    else let r = give_fd caller (set_net vfs net') id in replies r.0 r.1

-- The address of the peer is left out.
unfoldable pub vfs_accept : Caller → Vfs → ℤ → FdReply
unfolding accepted_fd
vfs_accept caller vfs fd =
    on_socket caller vfs fd (λ e. replies e vfs)
      (λ i. accepted_fd caller vfs (unix_sock_accept vfs.net (file_at vfs i).unix_sock_id))

unfoldable pub connected_fd : Vfs → Reply → FdReply
connected_fd vfs (waits net') = waiting (set_net vfs net')
connected_fd vfs (done id net') =
    replies (if is_negative id then error 111 else pos 0) (set_net vfs net')

unfoldable pub vfs_connect : Caller → Vfs → ℤ → Option Address → FdReply
unfolding connected_fd
vfs_connect caller vfs fd addr =
    on_socket caller vfs fd (λ e. replies e vfs)
      (λ i.
        by_address addr (λ e. replies e vfs)
          (λ path. connected_fd vfs (unix_sock_connect vfs.net (file_at vfs i).unix_sock_id path)))

-- What serves a sent message: the stream, or a datagram that is sent at once.
pub data Sent : Type 0 where
  to_stream : ℤ → Sent
  sent : ℤ → Vfs → Sent

unfoldable pub send_datagram : Vfs → ℤ → List ℕ → Option Address → Sent
send_datagram vfs id buf none = sent (error 89) vfs
send_datagram vfs id buf (some a) =
    if not (a.family == af_unix)
    then sent (error 97) vfs
    else let r = unix_sock_sendto vfs.net id buf a.sun_path in
      sent (if is_negative r.0 then error 2 else r.0) (set_net vfs r.1)

unfoldable pub vfs_sendto : Caller → Vfs → ℤ → List ℕ → Option Address → Sent
unfolding send_datagram
vfs_sendto caller vfs fd buf dest =
    on_socket caller vfs fd (λ e. sent e vfs)
      (λ i.
        let id = (file_at vfs i).unix_sock_id in
        elim (unix_sock_get vfs.net id) [
          | none ↦ sent (error 9) vfs
          | some j ↦
              if (at vfs.net j).kind == sock_stream
              then to_stream id
              else send_datagram vfs id buf dest
        ])
