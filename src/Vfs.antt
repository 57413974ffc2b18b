-- ===== src/Vfs.antt =====
-- src/kernel/hal/vfs.c: the mounted file systems and the table of open files. A file system, an open
-- file, an open directory and a device are numbers; what ext2.c and device.c answer is an argument,
-- and what is given back to them is recorded, newest first. A path is its characters before the
-- null. The calls of log are left out.
pub mod Files
pub mod Sockets
pub mod Resolve
pub mod Isolation
pub mod Descriptors
mod Tests
use blackmount.Common.{
  ℕ, zero, suc, ◌+◌, ◌-◌, Bool, true, false, List, [], ◌∷◌, Option, none, some, length, get_or, set,
  take, drop, ltb, leb, ◌==◌, ◌&&◌, ◌||◌, not, if◌then◌else◌, bit_and,
}
use blackmount.Common.Int.{ℤ, pos, negsuc, minus_one, is_negative}
use blackmount.Users.{Accounts, user_exists, user_is_root}
use blackmount.UnixSocket.{Net, path_eq}

abbrev pub max_open_files : ℕ
max_open_files = 100

abbrev pub max_mounts : ℕ
max_mounts = 16

abbrev pub slash : ℕ
slash = 47

-- `(int)serror(err)`
abbrev pub error : ℕ → ℤ
error err = negsuc (err - 1)

-- `vfs_mount_t`
pub record Mount : Type 0 where
  pub mountpoint : List ℕ
  pub fs : ℕ
  pub dev : ℕ
  pub active : Bool

-- `VFS_File_t`, but for `disk_type`, which is not used.
pub record File : Type 0 where
  pub path : List ℕ
  pub file : Option ℕ
  pub dir_iter : Option ℕ
  pub fs : ℕ
  pub flags : ℕ
  pub pid : ℤ
  pub owner : ℤ
  pub present : Bool
  pub is_dir : Bool
  pub dev : ℕ
  pub is_dev : Bool
  pub write_all : Bool
  pub is_socket : Bool
  pub unix_sock_id : ℤ

-- What is given back to ext2.c.
pub data Released : Type 0 where
  closes closes_dir unmounts : ℕ → Released

pub record Vfs : Type 0 where
  pub mount_table : List Mount
  pub open_files : List File
  pub root_fs : ℕ
  pub net : Net
  pub released : List Released

-- What ext2.c, block.c and device.c answer: the device of a name, mounting it, the rights of a user,
-- and what stands at a path.
pub record Ext2 : Type 0 where
  pub block_get : List ℕ → Option ℕ
  pub mount : ℕ → Option ℕ
  pub access : ℕ → List ℕ → ℤ → ℕ → Bool
  pub is_directory : ℕ → List ℕ → Bool
  pub open_dir : ℕ → List ℕ → Option ℕ
  pub open_file : ℕ → List ℕ → Option ℕ
  pub device_get : List ℕ → Option ℕ
  pub seek : ℕ → ℕ → Bool

-- The current process's number and its owner.
pub record Caller : Type 0 where
  pub pid : ℤ
  pub owner : ℤ

abbrev pub zero_mount : Mount
zero_mount = record { mountpoint = []; fs = 0; dev = 0; active = false }

abbrev pub zero_file : File
zero_file = record {
  path = [];
  file = none;
  dir_iter = none;
  fs = 0;
  flags = 0;
  pid = pos 0;
  owner = pos 0;
  present = false;
  is_dir = false;
  dev = 0;
  is_dev = false;
  write_all = false;
  is_socket = false;
  unix_sock_id = pos 0;
}

abbrev pub mount_at : Vfs → ℕ → Mount
mount_at vfs i = get_or vfs.mount_table i zero_mount

abbrev pub file_at : Vfs → ℕ → File
file_at vfs i = get_or vfs.open_files i zero_file

abbrev pub put_file : Vfs → ℕ → File → Vfs
put_file vfs i f = record vfs { open_files = set vfs.open_files i f }

abbrev pub release : Released → Vfs → Vfs
release r vfs = record vfs { released = r ∷ vfs.released }

-- `strncmp(path, mountpoint, strlen(mountpoint)) == 0`
unfoldable pub starts_with : List ℕ → List ℕ → Bool
starts_with [] path = true
starts_with (x ∷ xs) [] = false
starts_with (x ∷ xs) (y ∷ ys) = x == y && starts_with xs ys

-- `best_fs`, `best_rel` and `best_len` of `resolve_fs`.
pub record Best : Type 0 where
  pub fs : ℕ
  pub rel : List ℕ
  pub len : ℕ

-- `path[mplen]`
abbrev pub char_at : List ℕ → ℕ → ℕ
char_at path i = get_or path i 0

-- Does the path name something under a mount point?
abbrev pub covers : Mount → List ℕ → Bool
covers m path =
    starts_with m.mountpoint path
    && (char_at path (length m.mountpoint) == slash || char_at path (length m.mountpoint) == 0)

abbrev pub rest_of : Mount → List ℕ → List ℕ
rest_of m path =
    if char_at path (length m.mountpoint) == slash
    then drop (length m.mountpoint) path
    else slash ∷ []

unfoldable pub resolve_step : List ℕ → Best → Mount → Best
unfolding starts_with
resolve_step path best m =
    if not m.active
    then best
    else if leb (length m.mountpoint) best.len
    then best
    else if covers m path
    then record { fs = m.fs; rel = rest_of m path; len = length m.mountpoint }
    else best

unfoldable pub resolve_from : List ℕ → Best → List Mount → Best
unfolding resolve_step
resolve_from path best [] = best
resolve_from path best (m ∷ ms) = resolve_from path (resolve_step path best m) ms

unfoldable pub resolve_fs : Vfs → List ℕ → Best
unfolding resolve_from
resolve_fs vfs path =
    resolve_from path (record { fs = vfs.root_fs; rel = path; len = 0 }) vfs.mount_table

unfoldable pub vfs_caller_uid : Accounts → Caller → ℤ
vfs_caller_uid acc caller =
    if is_negative caller.pid
    then pos 0
    else if not (user_exists acc caller.owner)
    then pos 0
    else caller.owner

unfoldable pub vfs_access_ok : Ext2 → Accounts → Caller → ℕ → List ℕ → ℕ → Bool → Bool
unfolding vfs_caller_uid
vfs_access_ok ext acc caller fs path mask privileged =
    if privileged
    then true
    else let uid = vfs_caller_uid acc caller in
      if user_is_root acc uid then true else ext.access fs path uid mask

-- The first mount that passes a test, from `i` on.
unfoldable pub find_mount : (Mount → Bool) → List Mount → ℕ → Option ℕ
find_mount test [] i = none
find_mount test (m ∷ ms) i = if test m then some i else find_mount test ms (i + 1)

abbrev pub put_mount : Vfs → ℕ → Mount → Vfs
put_mount vfs i m = record vfs { mount_table = set vfs.mount_table i m }

-- `strncpy` into 256 bytes, the last of them 0; a path is short of its null.
unfoldable pub vfs_mount : Ext2 → Vfs → List ℕ → List ℕ → ℤ × Vfs
unfolding find_mount
vfs_mount ext vfs source target = elim (ext.block_get source) [
  | none ↦ (error 19, vfs)
  | some dev ↦ elim (ext.mount dev) [
    | none ↦ (error 5, vfs)
    | some fs ↦ elim (find_mount (λ m. not m.active) vfs.mount_table 0) [
      | none ↦ (error 23, release (unmounts fs) vfs)
      | some i ↦ (
        pos 0,
        put_mount vfs i
            (record { mountpoint = take 255 target; fs = fs; dev = dev; active = true }),
      )
    ]
  ]
]

unfoldable pub vfs_unmount_path : Vfs → List ℕ → ℤ × Vfs
unfolding find_mount
vfs_unmount_path vfs target =
    elim (find_mount (λ m. m.active && path_eq m.mountpoint target) vfs.mount_table 0) [
      | none ↦ (error 2, vfs)
      | some i ↦ (
        pos 0,
        release (unmounts (mount_at vfs i).fs)
            (put_mount vfs i (record (mount_at vfs i) { active = false })),
      )
    ]
