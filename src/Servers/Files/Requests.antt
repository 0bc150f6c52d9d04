-- ===== src/Servers/Files/Requests.antt =====
-- Series of requests to userspace/vfs_server/server.c.
use native.Mathlib.Decide.{ℕ_discrete}
use mathlib.Core.Path.{subst}
use mathlib.Core.Option
use moonlight_os.Prelude.{
  ℕ, ◌%◌, ◌^◌, ◌≡◌, inl, inr, refl, arith, Bool, true, false, Array, set_ne, set_self, ◌==◌,
  Bool-cases, Option-cases, Option, none, some, List, [], ◌∷◌,
}
use moonlight_os.Types.{IpcMsg}
use moonlight_os.Servers.Files.{
  FileServer, copied, max_files, new_file, read, handle, name_of, start, run, reply, fd_word,
}
use moonlight_os.Servers.Files.Answers.{AllTerminated, run-ends}
use moonlight_os.Servers.Files.Descriptors.{
  Explains, open_file-Explains, IsCreated, create-IsCreated,
}
use moonlight_os.Servers.Files.Contents.{
  IsConsistent, create-IsConsistent, open-IsConsistent, ReadExplains, read-Explains,
}

-- No file holds anything.
abbrev IsEmpty : FileServer → Type 0
IsEmpty s = (i : ℕ) → (s.files i).used ≡ 0

create-IsEmpty :
    (s : FileServer) (name : Array ℕ) (cap size color : ℕ) (r : Bool × FileServer)
    → IsEmpty s
    → IsCreated s name cap size color r
    → IsEmpty r.1
create-IsEmpty s name cap size color (false, s') empty e = rw e empty
create-IsEmpty s name cap size color (true, s') empty (k, _, _, _, e) = rw e (λ i.
    elim (ℕ_discrete k i) [
      | yes here ↦ rw (← here, set_self s.files k (new_file (s.files k) name cap size color)) refl
      | no other ↦
          rw (set_ne s.files k i (new_file (s.files k) name cap size color) other) (empty i)
    ])

abbrev Holds : FileServer → Type 0
Holds s = IsConsistent s × IsEmpty s

abbrev AfterHandle : Option (Option IpcMsg × FileServer) → Type 0
AfterHandle none = Unit {0}
AfterHandle (some (_, s')) = Holds s'

opened-Holds :
    (s : FileServer) (msg : IpcMsg) (name : Array ℕ) (rights : ℕ)
    (r : Option (Option ℕ × FileServer))
    → Holds s
    → Explains s name rights 0 max_files r
    → AfterHandle (Option.map (λ a. (some (reply msg (fd_word a.0)), a.1)) r)
opened-Holds s msg name rights none h e = tt
opened-Holds s msg name rights (some (none, s')) h (e, _) = rw e h
opened-Holds s msg name rights (some (some fd, s')) (c, empty)
      (k, low, high, named, before, free, e) =
    (
      open-IsConsistent s c name rights (some (some fd, s')) (k, low, high, named, before, free, e),
      rw e empty,
    )

handle-Holds : (s : FileServer) (msg : IpcMsg) → Holds s → AfterHandle (handle s msg)
unfolding handle
handle-Holds s msg h = elim (Bool-cases (msg.label == 1)) [
  | inl one ↦ rw one (
      opened-Holds s msg (name_of msg) (msg.words 4 % 2 ^ 32) _ h
        (open_file-Explains s (name_of msg) (msg.words 4 % 2 ^ 32)))
  | inr a ↦ rw a (elim (Bool-cases (msg.label == 2)) [
    | inl two ↦ rw two h
    | inr b ↦ rw b (elim (Bool-cases (msg.label == 3)) [
      | inl three ↦
          let e =
            create-IsCreated s (name_of msg) (msg.cap_ptrs 0) (msg.words 4 % 2 ^ 32)
              (msg.words 5 % 2 ^ 16) in
          rw three (
            create-IsConsistent s h.0 (name_of msg) (msg.cap_ptrs 0) (msg.words 4 % 2 ^ 32) _ _
                (omega arith) e,
            create-IsEmpty s (name_of msg) (msg.cap_ptrs 0) (msg.words 4 % 2 ^ 32) _ _ h.1 e,
          )
      | inr d ↦ rw d h
    ])
  ])
]

abbrev AfterRun : Option FileServer → Type 0
AfterRun none = Unit {0}
AfterRun (some s) = Holds s

run-Holds : (s : FileServer) (msgs : List IpcMsg) → Holds s → AfterRun (run s msgs)
unfolding run
run-Holds s [] h = h
run-Holds s (msg ∷ rest) h = elim (Option-cases (handle s msg)) [
  | inl out ↦ rw (out, run) tt
  | inr ((r, s'), e) ↦
      rw (e, run) (run-Holds s' rest (subst (λ x. AfterHandle x) (e) (handle-Holds s msg h)))
]

start-Holds : Holds start
start-Holds =
    (record { stored = λ i. omega arith; held = λ fd e. absurd (ground arith) }, λ i. refl)

-- A series of requests from the start, in which each name that is to be opened is a string of at most 31 bytes,
-- makes no comparison past the end of a name. The server is then consistent: descriptors stand inside valid
-- files, and no file holds more than its size.
pub run-IsConsistent :
    (msgs : List IpcMsg)
    → AllTerminated msgs
    → (s : FileServer) × (run start msgs ≡ some s) × IsConsistent s
run-IsConsistent msgs all =
    let (s, e) = run-ends start msgs all in
    (s, e, (subst (λ x. AfterRun x) e (run-Holds start msgs start-Holds)).0)

-- No request ever fills a file: whatever was requested before, a read that succeeds copies no byte.
pub run-read-empty :
    (msgs : List IpcMsg) (s s' : FileServer) (fd len addr n : ℕ)
    → run start msgs ≡ some s
    → read s fd len ≡ (copied addr n, s')
    → n ≡ 0
run-read-empty msgs s s' fd len addr n e r =
    let h = subst (λ x. AfterRun x) (e) (run-Holds start msgs start-Holds) in
    let (valid, w) = subst (λ x. ReadExplains s fd len x) (r) (read-Explains s fd len h.0) in
    let hollow = h.1 (s.fds fd).file_id in let inside = w.inside in omega arith
