-- ===== src/Servers/Files/Contents.antt =====
-- Descriptors of userspace/vfs_server/server.c stay inside their files, and so do reads.
use native.Mathlib.Decide.{ℕ_discrete}
use moonlight_os.Prelude.{
  ℕ, ◌+◌, ◌%◌, ◌^◌, ◌≤◌, ◌<◌, ◌≡◌, ◌≢◌, ◌⊎◌, inl, inr, refl, ◌∙◌, arith, Bool, true, false, not,
  Array, set, set_ne, set_self, ◌||◌, ltb, leb, Bool-cases, Option, none, some, add32, add64,
  ltb→lt,
}
use moonlight_os.Servers.Files.{
  File, Descriptor, FileServer, Read, refused, copied, max_files, max_fd, new_file, new_fd,
  is_named, frame_cap_is_valid, clamped, read_open, read,
}
use moonlight_os.Servers.Files.Descriptors.{Explains, IsCreated}

-- An open descriptor stands in a valid file, not behind what the file holds; a file holds at most its
-- size, which has 32 bits.
pub record IsConsistent (s : FileServer) : Type 0 where
  pub stored : (i : ℕ) → ((s.files i).used ≤ (s.files i).size) × ((s.files i).size < 2 ^ 32)
  pub held :
      (fd : ℕ)
      → (s.fds fd).valid ≡ true
      → ((s.fds fd).file_id < max_files)
        × ((s.files (s.fds fd).file_id).valid ≡ true)
        × ((s.fds fd).offset ≤ (s.files (s.fds fd).file_id).used)

-- What a read copies: bytes of the file of the descriptor, from its offset, as many as asked for or up to the
-- end; the offset moves past them.
pub record IsWithin (s : FileServer) (fd len : ℕ) (s' : FileServer) (addr n : ℕ) : Type 0 where
  pub start_at : addr ≡ add64 (s.files (s.fds fd).file_id).cap (s.fds fd).offset
  pub short : n ≤ len
  pub inside : (s.fds fd).offset + n ≤ (s.files (s.fds fd).file_id).used
  pub as_many : (n ≡ len) ⊎ ((s.fds fd).offset + n ≡ (s.files (s.fds fd).file_id).used)
  pub moved :
      s' ≡ record s { fds = set s.fds fd (record (s.fds fd) { offset = (s.fds fd).offset + n }) }

abbrev pub ReadExplains : FileServer → ℕ → ℕ → Read × FileServer → Type 0
ReadExplains s fd len (refused, s') = s' ≡ s
ReadExplains s fd len (copied addr n, s') = ((s.fds fd).valid ≡ true) × IsWithin s fd len s' addr n

clamped-lem :
    (f : File) (d : Descriptor) (len : ℕ)
    → d.offset ≤ f.used
    → f.used < 2 ^ 32
    → clamped f d len < 0x100000
    → (clamped f d len ≤ len)
      × (d.offset + clamped f d len ≤ f.used)
      × ((clamped f d len ≡ len) ⊎ (d.offset + clamped f d len ≡ f.used))
clamped-lem f d len low small short = elim (Bool-cases (ltb f.used (add64 d.offset len))) [
  | inl cut ↦
      let past : f.used < (d.offset + len) % 2 ^ 64 = ltb→lt _ _ cut in
      let exact : clamped f d len + d.offset ≡ f.used = rw cut (omega arith) in
      (omega arith, omega arith, inr (omega arith))
  | inr whole ↦
      let exact : clamped f d len ≡ len = rw whole refl in
      let inside : add64 d.offset len ≤ f.used = ground arith in
      (omega arith, omega arith, inl exact)
]

frame_cap-short : (cap len : ℕ) → frame_cap_is_valid cap len ≡ true → len < 0x100000
unfolding frame_cap_is_valid
frame_cap-short cap len e = ground arith

read_open-copied :
    (s s' : FileServer) (fd len addr n : ℕ)
    → read_open s fd len ≡ (copied addr n, s')
    → (frame_cap_is_valid (s.files (s.fds fd).file_id).cap len ≡ true)
      × (addr ≡ add64 (s.files (s.fds fd).file_id).cap (s.fds fd).offset)
      × (n ≡ len)
      × (s' ≡ record s {
        fds = set s.fds fd (record (s.fds fd) { offset = add32 (s.fds fd).offset (len % 2 ^ 32) });
      })
unfolding read_open
read_open-copied s s' fd len addr n e = ground arith

read_open-refused : (s s' : FileServer) (fd len : ℕ) → read_open s fd len ≡ (refused, s') → s' ≡ s
unfolding read_open
read_open-refused s s' fd len e = ground arith

abbrev allowed : FileServer → ℕ → ℕ → ℕ
allowed s fd len = clamped (s.files (s.fds fd).file_id) (s.fds fd) len

opened-Explains :
    (s : FileServer) (fd len : ℕ) (r : Read × FileServer)
    → IsConsistent s
    → (s.fds fd).valid ≡ true
    → read_open s fd (allowed s fd len) ≡ r
    → ReadExplains s fd len r
opened-Explains s fd len (refused, s') c valid e = read_open-refused s s' fd _ e
opened-Explains s fd len (copied addr n, s') c valid e =
    let (known, inside, low) = c.held fd valid in
    let (full, small) = c.stored (s.fds fd).file_id in
    let (good, at, count, moved) = read_open-copied s s' fd (allowed s fd len) addr n e in
    let (short, below, many) =
      clamped-lem (s.files (s.fds fd).file_id) (s.fds fd) len low (omega arith)
        (frame_cap-short _ (allowed s fd len) good) in
    let exact : add32 (s.fds fd).offset (allowed s fd len % 2 ^ 32)
        ≡ (s.fds fd).offset + allowed s fd len =
      omega arith in
    (
      valid,
      record {
        start_at = at;
        short = rw count short;
        inside = rw count below;
        as_many = rw count many;
        moved = moved ∙ rw (exact, count) refl;
      },
    )

-- A read of a consistent server returns -1 and changes nothing, or copies from the descriptor's place in its
-- file as many bytes as were asked for, or those up to the end of what the file holds, and moves the
-- descriptor past them.
pub read-Explains :
    (s : FileServer) (fd len : ℕ) → IsConsistent s → ReadExplains s fd len (read s fd len)
unfolding read
read-Explains s fd len c =
    elim (Bool-cases (leb (2 ^ 31) fd || leb max_fd fd || not (s.fds fd).valid)) [
      | inl bad ↦ rw bad refl
      | inr good ↦ rw good (opened-Explains s fd len _ c (ground arith) refl)
    ]

-- Moving a descriptor inside its file, opening one, and creating a file keep the server consistent.
module _ (s : FileServer) (c : IsConsistent s) where
  fd-IsConsistent :
      (fd : ℕ) (d : Descriptor)
      → (d.valid ≡ true
          → (d.file_id < max_files)
            × ((s.files d.file_id).valid ≡ true)
            × (d.offset ≤ (s.files d.file_id).used))
      → IsConsistent (record s { fds = set s.fds fd d })
  fd-IsConsistent fd d good = record {
    stored = c.stored;
    held = λ i. elim (ℕ_discrete fd i) [
      | yes here ↦ rw (← here, set_self s.fds fd d) good
      | no other ↦ rw (set_ne s.fds fd i d other) (c.held i)
    ];
  }

  file-IsConsistent :
      (k : ℕ) (name : Array ℕ) (cap size color : ℕ)
      → size < 2 ^ 32
      → (s.files k).valid ≡ false
      → IsConsistent (record s { files = set s.files k (new_file (s.files k) name cap size color) })
  file-IsConsistent k name cap size color small unused = record {
    stored = λ i. elim (ℕ_discrete k i) [
      | yes here ↦
          rw (← here, set_self s.files k (new_file (s.files k) name cap size color))
            (omega arith, small)
      | no other ↦
          rw (set_ne s.files k i (new_file (s.files k) name cap size color) other) (c.stored i)
    ];
    held = λ i v.
        let (known, valid, low) = c.held i v in
        let other : k ≢ (s.fds i).file_id = λ e. absurd (ground arith) in
        rw (set_ne s.files k (s.fds i).file_id (new_file (s.files k) name cap size color) other)
          (known, valid, low);
  }

  pub create-IsConsistent :
      (name : Array ℕ) (cap size color : ℕ) (r : Bool × FileServer)
      → size < 2 ^ 32
      → IsCreated s name cap size color r
      → IsConsistent r.1
  create-IsConsistent name cap size color (false, s') small e = rw e c
  create-IsConsistent name cap size color (true, s') small (k, _, unused, _, e) =
      rw e (file-IsConsistent k name cap size color small unused)

  is_named-valid :
      (k : ℕ) (name : Array ℕ) → is_named (s.files k) name ≡ some true → (s.files k).valid ≡ true
  unfolding is_named
  is_named-valid k name e = ground arith

  abbrev pub AfterOpen : Option (Option ℕ × FileServer) → Type 0
  AfterOpen none = Unit {0}
  AfterOpen (some (_, s')) = IsConsistent s'

  pub open-IsConsistent :
      (name : Array ℕ) (rights : ℕ) (r : Option (Option ℕ × FileServer))
      → Explains s name rights 0 max_files r
      → AfterOpen r
  open-IsConsistent name rights none e = tt
  open-IsConsistent name rights (some (none, s')) (e, _) = rw e c
  open-IsConsistent name rights (some (some fd, s')) (k, _, h, named, _, _, e) = rw e (
      fd-IsConsistent fd (new_fd k rights)
        (λ _. (omega arith, is_named-valid k name named, omega arith)))

  pub read-IsConsistent :
      (fd len : ℕ) (r : Read × FileServer) → ReadExplains s fd len r → IsConsistent r.1
  read-IsConsistent fd len (refused, s') e = rw e c
  read-IsConsistent fd len (copied addr n, s') (valid, w) =
      let (known, exists, _) = c.held fd valid in
      rw w.moved (fd-IsConsistent fd _ (λ _. (known, exists, w.inside)))
