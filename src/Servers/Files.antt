-- ===== src/Servers/Files.antt =====
-- userspace/vfs_server/server.c: the file server, in the build without CHERI hardware.
pub mod Names
pub mod Descriptors
pub mod Contents
pub mod Answers
pub mod Requests
use moonlight_os.Prelude.{
  ℕ, zero, suc, ◌+◌, ◌*◌, ◌/◌, ◌%◌, ◌-◌, ◌^◌, ◌&&◌, ◌||◌, Bool, true, false, not, Array, set, ◌==◌,
  ◌!=◌, ltb, leb, if◌then◌else◌, add32, add64, sub32, byte_at, first, Option, none, some, fill,
  List, [], ◌∷◌,
}
use mathlib.Core.Option
use moonlight_os.Types.{IpcMsg}
use moonlight_os.Servers.Files.Names.{streq, strncpy}

abbrev pub max_files : ℕ
max_files = 64

abbrev pub max_fd : ℕ
max_fd = 32

-- `vfs_file_t`
pub record File : Type 0 where
  pub cap : ℕ
  pub size : ℕ
  pub used : ℕ
  pub color : ℕ
  pub name : Array ℕ
  pub valid : Bool

-- `vfs_fd_t`
pub record Descriptor : Type 0 where
  pub file_id : ℕ
  pub offset : ℕ
  pub rights : ℕ
  pub valid : Bool

-- The variables of the file, without `next_fd`, which nothing uses.
pub record FileServer : Type 0 where
  pub files : Array File
  pub fds : Array Descriptor

-- The static variables at the start.
abbrev pub start : FileServer
start = record {
  files = fill (record { cap = 0; size = 0; used = 0; color = 0; name = fill 0; valid = false });
  fds = fill (record { file_id = 0; offset = 0; rights = 0; valid = false });
}

-- `frame_cap_is_valid`
unfoldable pub frame_cap_is_valid : ℕ → ℕ → Bool
frame_cap_is_valid cptr len = (cptr != 0) && ltb len 0x100000

abbrev pub new_file : File → Array ℕ → ℕ → ℕ → ℕ → File
new_file f name cap size color = record {
  cap = cap;
  size = size;
  used = 0;
  color = color;
  name = strncpy name 32 0 f.name;
  valid = true;
}

-- `vfs_create`: whether it returns 0, or -1.
unfoldable pub create : FileServer → Array ℕ → ℕ → ℕ → ℕ → Bool × FileServer
create s name cap size color = elim (first (λ i. not (s.files i).valid) max_files 0) [
  | none ↦ (false, s)
  | some i ↦
      if not (frame_cap_is_valid cap size)
      then (false, s)
      else (true, record s { files = set s.files i (new_file (s.files i) name cap size color) })
]

abbrev pub new_fd : ℕ → ℕ → Descriptor
new_fd file_id rights = record { file_id = file_id; offset = 0; rights = rights; valid = true }

-- `files[i].valid && strcmp(files[i].name,name)==0`; `none` is a comparison past the end of a name.
unfoldable pub is_named : File → Array ℕ → Option Bool
is_named f name = if f.valid then streq f.name name 32 0 else some false

-- `vfs_open`, from the file `i` for `n` rounds: the descriptor, or -1 as `none`.
unfoldable pub open_from : FileServer → Array ℕ → ℕ → ℕ → ℕ → Option (Option ℕ × FileServer)
open_from s name rights zero i = some (none, s)
open_from s name rights (suc n) i = elim (is_named (s.files i) name) [
  | none ↦ none
  | some false ↦ open_from s name rights n (i + 1)
  | some true ↦ elim (first (λ fd. not (s.fds fd).valid) max_fd 0) [
    | none ↦ open_from s name rights n (i + 1)
    | some fd ↦ some (some fd, record s { fds = set s.fds fd (new_fd i rights) })
  ]
]

-- `vfs_open`
unfoldable pub open_file : FileServer → Array ℕ → ℕ → Option (Option ℕ × FileServer)
open_file s name rights = open_from s name rights max_files 0

-- What `vfs_read` does: it returns -1, or copies so many bytes from an address.
pub data Read : Type 0 where
  refused : Read
  copied : ℕ → ℕ → Read

-- The length of `vfs_read` after its third line.
abbrev pub clamped : File → Descriptor → ℕ → ℕ
clamped f d len = if ltb f.used (add64 d.offset len) then sub32 f.used d.offset else len

-- `vfs_read` on an open descriptor, from its fourth line.
unfoldable pub read_open : FileServer → ℕ → ℕ → Read × FileServer
read_open s fd len =
    let d = s.fds fd in
    let f = s.files d.file_id in
    if not (frame_cap_is_valid f.cap len)
    then (refused, s)
    else if ltb f.size (add64 d.offset len)
    then (refused, s)
    else (
      copied (add64 f.cap d.offset) len,
      record s { fds = set s.fds fd (record d { offset = add32 d.offset (len % 2 ^ 32) }) },
    )

-- `vfs_read`, with `fd` an `int` in two's complement.
unfoldable pub read : FileServer → ℕ → ℕ → Read × FileServer
read s fd len =
    if leb (2 ^ 31) fd || leb max_fd fd || not (s.fds fd).valid
    then (refused, s)
    else read_open s fd (clamped (s.files (s.fds fd).file_id) (s.fds fd) len)

-- `char name[32]; memcpy(name, msg.words, 32);`
abbrev pub name_of : IpcMsg → Array ℕ
name_of msg i = byte_at (8 * (i % 8)) (msg.words (i / 8))

-- `msg.words[0] = r; msg.length = 1;`
abbrev pub reply : IpcMsg → ℕ → IpcMsg
reply msg r = record msg { words = set msg.words 0 r; length = 1 }

abbrev pub fd_word : Option ℕ → ℕ
fd_word none = 2 ^ 64 - 1
fd_word (some fd) = fd

-- The body of the loop of `vfs_server_run`: the reply, if one is sent, and the state. `none` is a
-- comparison past the end of a name. The label 2 answers the length and reads nothing.
unfoldable pub handle : FileServer → IpcMsg → Option (Option IpcMsg × FileServer)
handle s msg =
    if msg.label == 1
    then Option.map (λ r. (some (reply msg (fd_word r.0)), r.1))
        (open_file s (name_of msg) (msg.words 4 % 2 ^ 32))
    else if msg.label == 2
    then some (some (reply msg (msg.words 1)), s)
    else if msg.label == 3
    then some (
      some (reply msg 0),
      (create s (name_of msg) (msg.cap_ptrs 0) (msg.words 4 % 2 ^ 32) (msg.words 5 % 2 ^ 16)).1,
    )
    else some (none, s)

-- The state after a series of requests; `none` is a comparison past the end of a name.
unfoldable pub run : FileServer → List IpcMsg → Option FileServer
run s [] = some s
run s (msg ∷ rest) = elim (handle s msg) [ none ↦ none | some (_, s') ↦ run s' rest ]
