-- ===== src/Vfs/Files.antt =====
-- The calls of vfs.c on open files. A read or a write names the part of the kernel that serves it, or
-- fails; what that part does is not looked at here.
use blackmount.Common.{
  ℕ, ◌+◌, Bool, true, false, List, [], ◌∷◌, Option, none, some, leb, ◌==◌, ◌&&◌, ◌||◌, not,
  if◌then◌else◌, bit_and,
}
use blackmount.Common.Int.{ℤ, pos, negsuc, minus_one}
use blackmount.Users.{Accounts}
use blackmount.UnixSocket.{path_eq, unix_sock_destroy}
use blackmount.Procs.Identity.{same_id}
use blackmount.Vfs.{
  Vfs, File, Ext2, Caller, Best, Released, closes, closes_dir, error, max_open_files, file_at,
  put_file, release, resolve_fs, vfs_access_ok, vfs_caller_uid,
}

abbrev pub access_read : ℕ
access_read = 4

abbrev pub access_write : ℕ
access_write = 2

-- The position of a path among `special_paths`, from `i` on.
unfoldable pub special_index : List (List ℕ) → List ℕ → ℕ → Option ℕ
special_index [] path i = none
special_index (s ∷ ss) path i = if path_eq path s then some i else special_index ss path (i + 1)

-- "/dev/std"
abbrev pub dev_std : List ℕ → List ℕ
dev_std name = 47 ∷ 100 ∷ 101 ∷ 118 ∷ 47 ∷ 115 ∷ 116 ∷ 100 ∷ name

-- "in", "out", "err" and "dbg"
abbrev pub special_paths : List (List ℕ)
special_paths =
    dev_std (105 ∷ 110 ∷ [])
    ∷ dev_std (111 ∷ 117 ∷ 116 ∷ [])
    ∷ dev_std (101 ∷ 114 ∷ 114 ∷ [])
    ∷ dev_std (100 ∷ 98 ∷ 103 ∷ [])
    ∷ []

unfoldable pub check_path : List ℕ → Option ℕ
unfolding special_index
check_path path = special_index special_paths path 0

-- The first slot of the table that is not used, for slots that stand from `i` on.
unfoldable pub find_closed : List File → ℕ → Option ℕ
find_closed [] i = none
find_closed (f ∷ fs) i = if not f.present then some i else find_closed fs (i + 1)

-- The fields that `VFS_Open` sets in a slot for a directory and for a file; the others stay.
abbrev pub opened_dir : Caller → ℤ → List ℕ → ℕ → ℕ → Bool → File → File
opened_dir caller uid path fs iter privileged f = record f {
  path = path;
  file = none;
  dir_iter = some iter;
  fs = fs;
  is_dir = true;
  present = true;
  is_dev = false;
  is_socket = false;
  owner = uid;
  pid = if privileged then minus_one else caller.pid;
  write_all = false;
  flags = if privileged then 1 else f.flags;
}

abbrev pub with_device : Option ℕ → File → File
with_device none f = f
with_device (some dev) f = record f { is_dev = true; dev = dev }

abbrev pub opened_file : Caller → ℤ → List ℕ → ℕ → ℕ → Bool → File → File
opened_file caller uid path fs file privileged f = record f {
  path = path;
  file = some file;
  dir_iter = none;
  fs = fs;
  is_dir = false;
  present = true;
  owner = uid;
  pid = if privileged then minus_one else caller.pid;
  write_all = false;
  is_socket = false;
  flags = if privileged then 1 else f.flags;
}

-- A slot is taken, or the handle is given back.
unfoldable pub take_slot : (File → File) → Released → Vfs → ℤ × Vfs
unfolding find_closed
take_slot fill handle vfs = elim (find_closed vfs.open_files 0) [
  | none ↦ (error 24, release handle vfs)
  | some i ↦ (pos i, put_file vfs i (fill (file_at vfs i)))
]

unfoldable pub open_resolved : Ext2 → Caller → ℤ → Vfs → List ℕ → Bool → Best → ℤ × Vfs
unfolding take_slot
open_resolved ext caller uid vfs path privileged best =
    if ext.is_directory best.fs best.rel
    then elim (ext.open_dir best.fs best.rel) [
      | none ↦ (error 20, vfs)
      | some iter ↦
          take_slot (opened_dir caller uid path best.fs iter privileged) (closes_dir iter) vfs
    ]
    else elim (ext.open_file best.fs best.rel) [
      | none ↦ (error 2, vfs)
      | some file ↦
          take_slot
            (λ f.
              with_device (ext.device_get path)
                (opened_file caller uid path best.fs file privileged f))
            (closes file) vfs
    ]

unfoldable pub open_ordinary : Ext2 → Accounts → Caller → Vfs → List ℕ → Bool → ℤ × Vfs
unfolding open_resolved
open_ordinary ext acc caller vfs path privileged =
    let best = resolve_fs vfs path in
    if not (vfs_access_ok ext acc caller best.fs best.rel access_read privileged)
    then (error 1, vfs)
    else open_resolved ext caller (if privileged then pos 0 else vfs_caller_uid acc caller) vfs path
        privileged best

unfoldable pub vfs_open : Ext2 → Accounts → Caller → Vfs → List ℕ → Bool → ℤ × Vfs
unfolding open_ordinary check_path
vfs_open ext acc caller vfs path privileged = elim (check_path path) [
  | none ↦ open_ordinary ext acc caller vfs path privileged
  | some i ↦ if privileged then open_ordinary ext acc caller vfs path privileged else (pos i, vfs)
]

-- What serves a read, a write or a control call.
pub data Target : Type 0 where
  fails : ℤ → Target
  to_socket : ℤ → Target
  to_device to_file : ℕ → Target

-- `fd < 0 || fd >= MAX_OPEN_FILES`, and a slot that is not used.
abbrev pub by_fd {ℓ} : {A : Type ℓ} → Vfs → ℤ → A → (ℕ → A) → A
by_fd vfs (negsuc n) failed act = failed
by_fd vfs (pos fd) failed act =
    if leb max_open_files fd
    then failed
    else if not (file_at vfs fd).present
    then failed
    else act fd

abbrev pub file_target : File → Bool → Target
file_target f has_call = elim f.file [
  | none ↦ fails (error 9)
  | some file ↦ if f.is_dev && has_call then to_device f.dev else to_file file
]

-- `can_write` and `can_read` say whether a device has the call.
unfoldable pub write_target : Ext2 → Accounts → Caller → (ℕ → Bool) → Vfs → ℕ → Bool → Target
write_target ext acc caller can_write vfs fd privileged =
    let f : File = file_at vfs fd in
    if f.is_socket
    then (if not (same_id f.pid caller.pid) then fails (error 13) else to_socket f.unix_sock_id)
    else if not privileged && not (same_id f.pid caller.pid) && not f.write_all
    then fails (error 13)
    else if not f.is_dev
        && not
            (vfs_access_ok ext acc caller f.fs (resolve_fs vfs f.path).rel access_write privileged)
    then fails (error 13)
    else file_target f (can_write f.dev)

unfoldable pub vfs_write : Ext2 → Accounts → Caller → (ℕ → Bool) → Vfs → ℤ → Bool → Target
unfolding write_target
vfs_write ext acc caller can_write vfs fd privileged =
    by_fd vfs fd (fails (error 9)) (λ i. write_target ext acc caller can_write vfs i privileged)

unfoldable pub read_target : Caller → (ℕ → Bool) → Vfs → ℕ → Target
read_target caller can_read vfs fd =
    let f : File = file_at vfs fd in
    if f.is_socket
    then (if not (same_id f.pid caller.pid) then fails (error 13) else to_socket f.unix_sock_id)
    else if not (same_id f.pid minus_one) && not (same_id f.pid caller.pid)
    then fails (error 13)
    else file_target f (can_read f.dev)

unfoldable pub vfs_read : Caller → (ℕ → Bool) → Vfs → ℤ → Target
unfolding read_target
vfs_read caller can_read vfs fd =
    by_fd vfs fd (fails (error 9)) (λ i. read_target caller can_read vfs i)

-- There is no check of the descriptor's range here.
unfoldable pub vfs_ioctl : Caller → Vfs → ℕ → Target
vfs_ioctl caller vfs fd =
    let f : File = file_at vfs fd in
    if not f.present || not f.is_dev || not (same_id f.pid caller.pid)
    then fails (error 9)
    else to_device f.dev

-- What a close gives back: the open directory of a directory, or else the open file.
abbrev pub handle_of : Option ℕ → Bool → Option ℕ → Option Released
handle_of (some iter) true file = some (closes_dir iter)
handle_of (some iter) false (some file) = some (closes file)
handle_of (some iter) false none = none
handle_of none is_dir (some file) = some (closes file)
handle_of none is_dir none = none

unfoldable pub give_back : Option Released → Vfs → Vfs
give_back none vfs = vfs
give_back (some r) vfs = release r vfs

abbrev pub closed_file : File → File
closed_file f = record f {
  dir_iter = elim f.dir_iter [ none ↦ none | some iter ↦ if f.is_dir then none else some iter ];
  file = elim f.dir_iter [ none ↦ none | some iter ↦ if f.is_dir then f.file else none ];
  present = false;
  is_dir = false;
}

unfoldable pub close_socket : Caller → Vfs → ℕ → Bool → ℤ × Vfs
close_socket caller vfs fd privileged =
    let f : File = file_at vfs fd in
    if not privileged && not (same_id f.pid caller.pid) then (error 13, vfs) else (
      pos 0,
      put_file (record vfs { net = unix_sock_destroy vfs.net f.unix_sock_id }) fd
          (record f { present = false; is_socket = false }),
    )

unfoldable pub close_file : Caller → Vfs → ℕ → Bool → ℤ × Vfs
unfolding give_back
close_file caller vfs fd privileged =
    let f : File = file_at vfs fd in
    if not privileged && not (bit_and f.flags 1 == 0)
    then (error 13, vfs)
    else if not privileged && not (same_id f.pid caller.pid)
    then (error 13, vfs)
    else (pos 0, put_file (give_back (handle_of f.dir_iter f.is_dir f.file) vfs) fd (closed_file f))

unfoldable pub close_at : Caller → Vfs → ℕ → Bool → ℤ × Vfs
unfolding close_socket close_file
close_at caller vfs fd privileged =
    if (file_at vfs fd).is_socket
    then close_socket caller vfs fd privileged
    else close_file caller vfs fd privileged

unfoldable pub vfs_close : Caller → Vfs → ℤ → Bool → ℤ × Vfs
unfolding close_at
vfs_close caller vfs fd privileged =
    by_fd vfs fd (error 9, vfs) (λ i. close_at caller vfs i privileged)

-- Where a position is set: the file to seek in, or why there is none.
unfoldable pub seek_target : Caller → Vfs → ℕ → Bool → Target
seek_target caller vfs fd privileged =
    let f : File = file_at vfs fd in
    elim f.file [
      | none ↦ fails (error 9)
      | some file ↦
          if not privileged && not (bit_and f.flags 1 == 0) && (bit_and f.flags 0 == 0)
          then fails (error 13)
          else if not privileged && not (same_id f.pid caller.pid)
          then fails (error 13)
          else to_file file
    ]

unfoldable pub vfs_set_pos : Ext2 → Caller → Vfs → ℤ → ℕ → Bool → ℤ
unfolding seek_target
vfs_set_pos ext caller vfs fd position privileged = by_fd vfs fd (error 9) (λ i.
    elim (seek_target caller vfs i privileged) [
      | to_file file ↦ if ext.seek file position then pos 0 else error 29
      | fails e ↦ e
      | to_socket s ↦ error 29
      | to_device d ↦ error 29
    ])
