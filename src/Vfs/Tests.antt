-- ===== src/Vfs/Tests.antt =====
-- Runs of vfs.c, and its theorems at an input.
use blackmount.Common.{
  ℕ, ◌<◌, ◌≡◌, refl, Bool, true, false, List, [], ◌∷◌, none, some, length, length-replicate,
  replicate, All-get_or, All-replicate, ◌⊎◌, arith,
}
use blackmount.Common.Int.{ℤ, pos}
use blackmount.Users.{Accounts}
use blackmount.UnixSocket.{cleared}
use blackmount.Vfs.{
  Vfs, File, Ext2, Caller, zero_mount, zero_file, mount_at, file_at, starts_with, resolve_step,
  resolve_from, resolve_fs,
}
use blackmount.Vfs.Files.{vfs_close}
use blackmount.Vfs.Sockets.{vfs_socket}
use blackmount.Vfs.Resolve.{IsOf, NoneLonger, resolve_fs_lem}
use blackmount.Vfs.Isolation.{Refuses, vfs_foreign_lem}
use blackmount.Vfs.Descriptors.{is_sock, IsOwned, vfs_sockets_lem}

-- "/dev"
abbrev dev_path : List ℕ
dev_path = 47 ∷ 100 ∷ 101 ∷ 118 ∷ []

abbrev booted : Vfs
booted = record {
  mount_table =
      record { mountpoint = dev_path; fs = 3; dev = 1; active = true } ∷ replicate 15 zero_mount;
  open_files = replicate 100 zero_file;
  root_fs = 2;
  net = record { sock_table = replicate 64 cleared; current_pid = pos 7; calls = [] };
  released = [];
}

abbrev caller : Caller
caller = record { pid = pos 7; owner = pos 5 }

-- "/dev/a" is the file "/a" of the file system 3, and "/devices" is on the root.
under_dev :
    resolve_fs booted (47 ∷ 100 ∷ 101 ∷ 118 ∷ 47 ∷ 97 ∷ [])
    ≡ record { fs = 3; rel = 47 ∷ 97 ∷ []; len = 4 }
unfolding resolve_fs resolve_from resolve_step starts_with
under_dev = refl

beside_dev : (resolve_fs booted (47 ∷ 100 ∷ 101 ∷ 118 ∷ 105 ∷ 99 ∷ 101 ∷ 115 ∷ [])).fs ≡ 2
unfolding resolve_fs resolve_from resolve_step starts_with
beside_dev = refl

resolve_fs_lem_example :
    let b = resolve_fs booted (47 ∷ 100 ∷ 101 ∷ 118 ∷ 47 ∷ 97 ∷ []) in
    ((b ≡ record { fs = 2; rel = 47 ∷ 100 ∷ 101 ∷ 118 ∷ 47 ∷ 97 ∷ []; len = 0 })
      ⊎ ((i : ℕ) × (i < length booted.mount_table)
          × IsOf (47 ∷ 100 ∷ 101 ∷ 118 ∷ 47 ∷ 97 ∷ []) b (mount_at booted i)))
    × NoneLonger (47 ∷ 100 ∷ 101 ∷ 118 ∷ 47 ∷ 97 ∷ []) b.len booted.mount_table
resolve_fs_lem_example = resolve_fs_lem booted (47 ∷ 100 ∷ 101 ∷ 118 ∷ 47 ∷ 97 ∷ [])

abbrev NoSocket : File → Type 0
NoSocket f = is_sock f ≡ false

no_socket : (fd : ℕ) → is_sock (file_at booted fd) ≡ false
no_socket fd =
    All-get_or NoSocket booted.open_files fd zero_file (All-replicate NoSocket 100 zero_file refl)
      refl

booted-IsOwned : IsOwned booted
booted-IsOwned = record {
  slots = length-replicate {A = File} 100 zero_file;
  held = λ fd is. absurd (ground (arith, no_socket fd, is));
  once = λ fd gd is_f is_g same. absurd (ground (arith, no_socket fd, is_f));
}

-- After one process has made a socket.
abbrev with_socket : Vfs
with_socket = (vfs_socket caller booted 1 1).1

with_socket-IsOwned : IsOwned with_socket
with_socket-IsOwned = (vfs_sockets_lem caller booted booted-IsOwned).0 1 1

vfs_sockets_lem_example :
    ((domain kind : ℕ) → IsOwned (vfs_socket caller with_socket domain kind).1)
    × ((fd : ℤ) (privileged : Bool) → IsOwned (vfs_close caller with_socket fd privileged).1)
vfs_sockets_lem_example = vfs_sockets_lem caller with_socket with_socket-IsOwned

-- A file of process 7, and a process 9 that has no business with it.
abbrev one_file : Vfs
one_file = record booted {
  open_files =
      record zero_file { present = true; pid = pos 7; file = some 4 } ∷ replicate 99 zero_file;
}

abbrev stranger : Caller
stranger = record { pid = pos 9; owner = pos 6 }

abbrev no_ext2 : Ext2
no_ext2 = record {
  block_get = λ name. none;
  mount = λ dev. none;
  access = λ fs path uid mask. true;
  is_directory = λ fs path. false;
  open_dir = λ fs path. none;
  open_file = λ fs path. none;
  device_get = λ path. none;
  seek = λ file position. true;
}

abbrev no_accounts : Accounts
no_accounts = record { groups = []; users = []; salt_state = 1 }

vfs_foreign_lem_example :
    Refuses no_ext2 no_accounts stranger (λ d. true) (λ vfs path. vfs) one_file 0
vfs_foreign_lem_example =
    vfs_foreign_lem stranger one_file 0 (omega arith) refl refl no_ext2 no_accounts (λ d. true)
      (λ vfs path. vfs)
