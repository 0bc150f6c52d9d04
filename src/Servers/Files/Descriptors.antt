-- ===== src/Servers/Files/Descriptors.antt =====
-- Opening files of userspace/vfs_server/server.c.
use native.Mathlib.Decide.{ℕ_discrete}
use mathlib.Core.Path.{subst}
use moonlight_os.Prelude.{
  ℕ, zero, suc, ◌+◌, ◌≤◌, ◌<◌, ◌≡◌, ◌≢◌, ◌⊎◌, inl, inr, refl, sym, arith, Bool, true, false, not,
  Array, set, set_ne, set_self, Bool-cases, Option-cases, lt_or_eq, Option, none, some, first,
  first-some,
}
use moonlight_os.Servers.Files.{
  File, FileServer, max_files, max_fd, new_file, new_fd, create, open_from, open_file, is_named,
  frame_cap_is_valid,
}
use moonlight_os.Servers.Files.Names.{IsTerminated, streq-strncpy}

-- The descriptor that `vfs_open` would take.
abbrev pub free_fd : FileServer → Option ℕ
free_fd s = first (λ fd. not (s.fds fd).valid) max_fd 0

-- No file from `i` up to `k` has the name.
abbrev pub NoneNamed : FileServer → Array ℕ → ℕ → ℕ → Type 0
NoneNamed s name i k = (j : ℕ) → i ≤ j → j < k → is_named (s.files j) name ≡ some false

NoneNamed-cons :
    (s : FileServer) (name : Array ℕ) (i k : ℕ)
    → is_named (s.files i) name ≡ some false
    → NoneNamed s name (i + 1) k
    → NoneNamed s name i k
NoneNamed-cons s name i k here rest j lo hi = elim (lt_or_eq i j (omega arith)) [
  | inl same ↦ rw (← same) here
  | inr less ↦ rest j (omega arith) hi
]

-- What a result of the loop from the file `i` for `n` rounds says.
abbrev pub Explains : FileServer → Array ℕ → ℕ → ℕ → ℕ → Option (Option ℕ × FileServer) → Type 0
Explains s name rights i n none =
    (j : ℕ) × (i ≤ j) × (j < i + n) × (is_named (s.files j) name ≡ none)
Explains s name rights i n (some (none, s')) =
    (s' ≡ s) × ((free_fd s ≡ none) ⊎ NoneNamed s name i (i + n))
Explains s name rights i n (some (some fd, s')) =
    (k : ℕ) × (i ≤ k)
    × (k < i + n)
    × (is_named (s.files k) name ≡ some true)
    × NoneNamed s name i k
    × (free_fd s ≡ some fd)
    × (s' ≡ record s { fds = set s.fds fd (new_fd k rights) })

Explains-skip :
    (s : FileServer) (name : Array ℕ) (rights i n : ℕ) (r : Option (Option ℕ × FileServer))
    → is_named (s.files i) name ≡ some false
    → Explains s name rights (i + 1) n r
    → Explains s name rights i (suc n) r
Explains-skip s name rights i n none here (j, lo, hi, e) = (j, omega arith, omega arith, e)
Explains-skip s name rights i n (some (none, s')) here (e, inl full) = (e, inl full)
Explains-skip s name rights i n (some (none, s')) here (e, inr absent) =
    (e, inr (λ j lo hi. NoneNamed-cons s name i (i + 1 + n) here absent j lo (omega arith)))
Explains-skip s name rights i n (some (some fd, s')) here (k, lo, hi, named, before, free, e) =
    (k, omega arith, omega arith, named, NoneNamed-cons s name i k here before, free, e)

-- Without a free descriptor the result is -1, or the access out of bounds.
Explains-full :
    (s : FileServer) (name : Array ℕ) (rights i n : ℕ) (r : Option (Option ℕ × FileServer))
    → free_fd s ≡ none
    → Explains s name rights (i + 1) n r
    → Explains s name rights i (suc n) r
Explains-full s name rights i n none full (j, lo, hi, e) = (j, omega arith, omega arith, e)
Explains-full s name rights i n (some (none, s')) full (e, _) = (e, inl full)
Explains-full s name rights i n (some (some fd, s')) full (k, lo, hi, named, before, free, e) =
    absurd (ground arith)

module _ (s : FileServer) (name : Array ℕ) (rights n i : ℕ) where
  open-none : is_named (s.files i) name ≡ none → open_from s name rights (suc n) i ≡ none
  unfolding open_from
  open-none e = rw (e, open_from) refl

  open-false :
      is_named (s.files i) name ≡ some false
      → open_from s name rights (suc n) i ≡ open_from s name rights n (i + 1)
  unfolding open_from
  open-false e = rw (e, open_from) refl

  open-full :
      is_named (s.files i) name ≡ some true
      → free_fd s ≡ none
      → open_from s name rights (suc n) i ≡ open_from s name rights n (i + 1)
  unfolding open_from
  open-full e full = rw (e, open_from) (rw (full, open_from) refl)

  open-free :
      (fd : ℕ)
      → is_named (s.files i) name ≡ some true
      → free_fd s ≡ some fd
      → open_from s name rights (suc n) i
        ≡ some (some fd, record s { fds = set s.fds fd (new_fd i rights) })
  unfolding open_from
  open-free fd e free = rw (e, open_from) (rw (free, open_from) refl)

open_from-Explains :
    (s : FileServer) (name : Array ℕ) (rights n i : ℕ)
    → Explains s name rights i n (open_from s name rights n i)
unfolding open_from
open_from-Explains s name rights zero i = (refl, inr (λ j lo hi. absurd (omega arith)))
open_from-Explains s name rights (suc n) i = elim (Option-cases (is_named (s.files i) name)) [
  | inl out ↦ rw (open-none s name rights n i out) (i, omega arith, omega arith, out)
  | inr (false, differ) ↦
      rw (open-false s name rights n i differ)
        (Explains-skip s name rights i n _ differ (open_from-Explains s name rights n (i + 1)))
  | inr (true, same) ↦ elim (Option-cases (free_fd s)) [
    | inl full ↦
        rw (open-full s name rights n i same full)
          (Explains-full s name rights i n _ full (open_from-Explains s name rights n (i + 1)))
    | inr (fd, free) ↦
        rw (open-free s name rights n i fd same free)
          (i, omega arith, omega arith, same, λ j lo hi. absurd (omega arith), free, refl)
  ]
]

-- An open reads past a name in the table; or it returns -1 and changes nothing, because no descriptor is free
-- or no valid file has the name; or it returns the first free descriptor, which now stands at the start of
-- the first valid file with that name.
pub open_file-Explains :
    (s : FileServer) (name : Array ℕ) (rights : ℕ)
    → Explains s name rights 0 max_files (open_file s name rights)
unfolding open_file
open_file-Explains s name rights = open_from-Explains s name rights max_files 0

-- A creation that was refused changes nothing; one that succeeded filled the first free entry.
abbrev pub IsCreated : FileServer → Array ℕ → ℕ → ℕ → ℕ → Bool × FileServer → Type 0
IsCreated s name cap size color (false, s') = s' ≡ s
IsCreated s name cap size color (true, s') =
    (k : ℕ) × (k < max_files)
    × ((s.files k).valid ≡ false)
    × (frame_cap_is_valid cap size ≡ true)
    × (s' ≡ record s { files = set s.files k (new_file (s.files k) name cap size color) })

pub create-IsCreated :
    (s : FileServer) (name : Array ℕ) (cap size color : ℕ)
    → IsCreated s name cap size color (create s name cap size color)
unfolding create
create-IsCreated s name cap size color =
    elim (Option-cases (first (λ i. not (s.files i).valid) max_files 0)) [
      | inl full ↦ rw (full, create) refl
      | inr (k, found) ↦
          let f = first-some (λ i. not (s.files i).valid) max_files 0 k found in
          elim (Bool-cases (frame_cap_is_valid cap size)) [
            | inl good ↦
                rw (found, create)
                  (rw good (k, f.high, not-true (s.files k).valid f.hit, good, refl))
            | inr bad ↦ rw (found, create) (rw bad refl)
          ]
    ]
  where
    not-true : (b : Bool) → not b ≡ true → b ≡ false
    not-true true e = cc
    not-true false e = refl

is_named-new :
    (f : File) (name : Array ℕ) (cap size color : ℕ)
    → IsTerminated name
    → is_named (new_file f name cap size color) name ≡ some true
unfolding is_named
is_named-new f name cap size color ends = streq-strncpy name f.name ends

module _ (s : FileServer) (name : Array ℕ) (cap size color rights k fd : ℕ)
    (ends : IsTerminated name)
    (new : (j : ℕ) → j < max_files → is_named (s.files j) name ≡ some false) (below : k < max_files)
    (free : free_fd s ≡ some fd) where
  abbrev filled : FileServer
  filled = record s { files = set s.files k (new_file (s.files k) name cap size color) }

  named-k : is_named (filled.files k) name ≡ some true
  named-k =
      rw (set_self s.files k (new_file (s.files k) name cap size color))
        (is_named-new (s.files k) name cap size color ends)

  named-other : (j : ℕ) → j < max_files → k ≢ j → is_named (filled.files j) name ≡ some false
  named-other j h ne =
      rw (set_ne s.files k j (new_file (s.files k) name cap size color) ne) (new j h)

  named-only : (j : ℕ) → j < max_files → is_named (filled.files j) name ≡ some true → j ≡ k
  named-only j h e = elim (ℕ_discrete k j) [
    | yes here ↦ sym here
    | no other ↦ let differ = named-other j h other in absurd (ground arith)
  ]

  named-total : (j : ℕ) → j < max_files → is_named (filled.files j) name ≢ none
  named-total j h e = elim (ℕ_discrete k j) [
    | yes here ↦ let same = named-k in absurd (ground arith)
    | no other ↦ let differ = named-other j h other in absurd (ground arith)
  ]

  Explains-found :
      (r : Option (Option ℕ × FileServer))
      → Explains filled name rights 0 max_files r
      → r ≡ some (some fd, record filled { fds = set s.fds fd (new_fd k rights) })
  Explains-found none (j, _, h, e) = absurd (named-total j (omega arith) e)
  Explains-found (some (none, s')) (e, inl full) = absurd (ground arith)
  Explains-found (some (none, s')) (e, inr absent) =
      let differ = absent k (omega arith) (omega arith) in
      let same = named-k in absurd (ground arith)
  Explains-found (some (some fd', s')) (j, _, h, named, _, free', e) =
      let first_k : j ≡ k = named-only j (omega arith) named in
      let same : fd' ≡ fd = ground arith in rw (e, same, first_k) refl

-- After a file was created under a name that ends within its 32 bytes and that no file had, an open of that
-- name returns the first free descriptor, at the start of that file.
pub create-open_file :
    (s s' : FileServer) (name : Array ℕ) (cap size color rights fd : ℕ)
    → IsTerminated name
    → ((j : ℕ) → j < max_files → is_named (s.files j) name ≡ some false)
    → free_fd s ≡ some fd
    → create s name cap size color ≡ (true, s')
    → (k : ℕ) × (k < max_files)
      × ((s.files k).valid ≡ false)
      × (s'.files k ≡ new_file (s.files k) name cap size color)
      × (open_file s' name rights
          ≡ some (some fd, record s' { fds = set s'.fds fd (new_fd k rights) }))
create-open_file s s' name cap size color rights fd ends new free e =
    let (k, below, unused, _, filled') =
      subst (λ r. IsCreated s name cap size color r) (e) (create-IsCreated s name cap size color) in
    (
      k,
      below,
      unused,
      rw filled' (set_self s.files k (new_file (s.files k) name cap size color)),
      rw filled' (
          Explains-found s name cap size color rights k fd ends new below free _ (
            open_file-Explains (filled s name cap size color rights k fd ends new below free) name
              rights)),
    )
