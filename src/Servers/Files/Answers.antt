-- ===== src/Servers/Files/Answers.antt =====
-- Requests to userspace/vfs_server/server.c that name files by strings are answered.
use mathlib.Core.Option
use moonlight_os.Prelude.{
  ◌≢◌, ◌⊎◌, ◌+◌, ◌≤◌, ◌<◌, ap, ◌∙◌, suc, zero, first, set, not, ne→==, ℕ, ◌%◌, ◌^◌, ◌≡◌, inl, inr,
  refl, arith, Bool, true, false, Array, ◌==◌, Bool-cases, Option-cases, Option, none, some, List,
  [], ◌∷◌,
}
use moonlight_os.Types.{IpcMsg}
use moonlight_os.Servers.Files.{
  File, is_named, open_from, open_file, new_fd, max_fd, FileServer, max_files, handle, name_of,
  create, run, reply, fd_word,
}
use moonlight_os.Servers.Files.Names.{streq, IsTerminated}

-- A comparison with a name that ends ends there at the latest.
streq-ends :
    (a b : Array ℕ) (n i k : ℕ)
    → i ≤ k
    → k < i + n
    → b k ≡ 0
    → (r : Bool) × (streq a b n i ≡ some r)
unfolding streq
streq-ends a b zero i k low high ends = absurd (omega arith)
streq-ends a b (suc n) i k low high ends = elim (Bool-cases (a i == b i)) [
  | inr differ ↦ (false, rw (differ, streq) refl)
  | inl same ↦ elim (Bool-cases (a i == 0)) [
    | inl done ↦ (true, rw (same, streq) (rw (done, streq) refl))
    | inr more ↦
        let later : i ≢ k = λ e. ends_here a b i k e ends same more in
        let (r, run) = streq-ends a b n (i + 1) k (omega arith) (omega arith) ends in
        (r, rw (same, streq) (rw (more, streq) run))
  ]
]
  where
    ends_here :
        (a b : Array ℕ) (i k : ℕ) → i ≡ k → b k ≡ 0 → (a i == b i) ≡ true → (a i == 0) ≡ false → ⊥
    ends_here a b i k e ends same more = let at : b i ≡ 0 = ap b e ∙ ends in absurd (ground arith)

is_named-ends :
    (f : File) (name : Array ℕ) → IsTerminated name → (r : Bool) × (is_named f name ≡ some r)
unfolding is_named
is_named-ends f name (k, small, ends) = elim (Bool-cases f.valid) [
  | inl valid ↦
      let (r, run) = streq-ends f.name name 32 0 k (omega arith) (omega arith) ends in
      (r, rw (valid, is_named) run)
  | inr free ↦ (false, rw (free, is_named) refl)
]

open_from-ends :
    (s : FileServer) (name : Array ℕ) (rights n i : ℕ)
    → IsTerminated name
    → (r : Option ℕ × FileServer) × (open_from s name rights n i ≡ some r)
unfolding open_from
open_from-ends s name rights zero i t = ((none, s), refl)
open_from-ends s name rights (suc n) i t =
    let (rest, runs) = open_from-ends s name rights n (i + 1) t in
    let (named, e) = is_named-ends (s.files i) name t in
    elim (Bool-cases named) [
      | inr other ↦ (rest, rw (e ∙ ap (λ (b : Bool). some b) other, open_from) runs)
      | inl hit ↦ elim (Option-cases (first (λ fd. not (s.fds fd).valid) max_fd 0)) [
        | inl full ↦
            (rest, rw (e ∙ ap (λ (b : Bool). some b) hit, open_from) (rw (full, open_from) runs))
        | inr (fd, found) ↦ (
          (some fd, record s { fds = set s.fds fd (new_fd i rights) }),
          rw (e ∙ ap (λ (b : Bool). some b) hit, open_from) (rw (found, open_from) refl),
        )
      ]
    ]

-- The requests to open a file name it by a string of at most 31 bytes.
abbrev pub AllTerminated : List IpcMsg → Type 0
AllTerminated [] = Unit {0}
AllTerminated (msg ∷ rest) = ((msg.label ≢ 1) ⊎ IsTerminated (name_of msg)) × AllTerminated rest

-- A request that opens no file compares no name.
handle-other :
    (s : FileServer) (msg : IpcMsg)
    → (msg.label == 1) ≡ false
    → (r : Option IpcMsg × FileServer) × (handle s msg ≡ some r)
unfolding handle
handle-other s msg one = elim (Bool-cases (msg.label == 2)) [
  | inl two ↦ ((some (reply msg (msg.words 1)), s), rw (one, handle) (rw two refl))
  | inr b ↦ elim (Bool-cases (msg.label == 3)) [
    | inl three ↦ (
      (
        some (reply msg 0),
        (create s (name_of msg) (msg.cap_ptrs 0) (msg.words 4 % 2 ^ 32) (msg.words 5 % 2 ^ 16)).1,
      ),
      rw (one, handle) (rw b (rw three refl)),
    )
    | inr d ↦ ((none, s), rw (one, handle) (rw b (rw d refl)))
  ]
]

handle-ends :
    (s : FileServer) (msg : IpcMsg)
    → (msg.label ≢ 1) ⊎ IsTerminated (name_of msg)
    → (r : Option IpcMsg × FileServer) × (handle s msg ≡ some r)
unfolding handle open_file
handle-ends s msg (inl other) = handle-other s msg (ne→== msg.label 1 other)
handle-ends s msg (inr t) = elim (Bool-cases (msg.label == 1)) [
  | inl one ↦
      let (r, run) = open_from-ends s (name_of msg) (msg.words 4 % 2 ^ 32) max_files 0 t in
      (
        (some (reply msg (fd_word r.0)), r.1),
        rw (one, handle)
            (ap (Option.map (λ (a : Option ℕ × FileServer). (some (reply msg (fd_word a.0)), a.1)))
              run),
      )
  | inr other ↦ handle-other s msg other
]

pub run-ends :
    (s : FileServer) (msgs : List IpcMsg)
    → AllTerminated msgs
    → (s' : FileServer) × (run s msgs ≡ some s')
unfolding run
run-ends s [] all = (s, refl)
run-ends s (msg ∷ rest) (named, all) =
    let ((reply_to, s'), e) = handle-ends s msg named in
    let (s'', runs) = run-ends s' rest all in (s'', rw (e, run) runs)
