-- ===== src/Tests/Servers.antt =====
-- Examples for the servers of userspace.
use moonlight_os.Prelude.{
  inl, inr, ℕ, ◌+◌, ◌-◌, ◌*◌, ◌<◌, ◌≡◌, ◌≢◌, ◌^◌, zero, suc, not, refl, first, arith, Bool, true,
  false, some, List, set, fill, [], ◌∷◌, leb,
}
use moonlight_os.Types.{IpcMsg, zero_msg}
use moonlight_os.Sched
use moonlight_os.Sched.{SchedState, zero_context}
use moonlight_os.Servers.Mem
use moonlight_os.Servers.Mem.{Untyped, MemServer, alloc, fits}
use moonlight_os.Servers.Mem.Grants.{Explains, alloc-Explains, first_fit, alloc-first_fit}
use moonlight_os.Servers.Mem.Holders.{AllFresh, events, init-events-AllFresh}
use moonlight_os.Servers.Policy
use moonlight_os.Servers.Policy.{PolicyServer, TaskCfg}
use moonlight_os.Servers.Policy.Admission.{AllSchedulable, run-is_admissible}
use moonlight_os.Servers.Policy.Kernel.{IsMirror, run-is_schedulable}
use moonlight_os.Servers.Policy.Sums.{demand, exact_share, is_schedulable-demand}
use moonlight_os.Servers.Files
use moonlight_os.Servers.Files.{
  FileServer, new_file, new_fd, create, open_file, is_named, max_files,
}
use moonlight_os.Servers.Files.Descriptors.{create-open_file}
use moonlight_os.Servers.Files.Contents.{ReadExplains, read-Explains, IsConsistent}
use moonlight_os.Servers.Files.Requests.{run-IsConsistent}

-- A kernel that accepts every retype, and counts them.
abbrev accepting : ℕ → ℕ → ℕ → ℕ → ℕ → ℕ × ℕ
accepting calls c t z d = (calls + 1, 0)

abbrev region : Untyped
region = record { paddr = 0x9000_0000; size = 0x10000; cptr = 0; free = true; color = 2 }

-- Two regions of the colour of partition 1, of which the first is in use.
abbrev table : MemServer
table = record {
  untypeds =
      set (fill (record region { paddr = 0x9001_0000; cptr = 1 })) 0
        (record region { free = false });
  untyped_count = 2;
  next_frame_slot = 10;
}

alloc-Explains_example : Explains accepting 1 0x1000 table (alloc accepting 1 0x1000 table 0)
alloc-Explains_example = alloc-Explains accepting 1 0x1000 table 0

-- A kernel that refuses the first retype and accepts the others, and counts them.
abbrev accepting_later : ℕ → ℕ → ℕ → ℕ → ℕ → ℕ × ℕ
accepting_later calls c t z d = (calls + 1, 1 - calls)

alloc-first_fit_example :
    alloc accepting_later 1 0x1000 table 0 ≡ first_fit accepting_later 1 0x1000 table 0 2 0
alloc-first_fit_example = alloc-first_fit accepting_later 1 0x1000 table 0 (omega arith)

-- Two requests for partition 1, a release, and a third request.
abbrev request : IpcMsg
request = record zero_msg { label = 1; length = 2; words = set (set (fill 0) 0 1) 1 0x1000 }

abbrev release_request : IpcMsg
release_request = record zero_msg { label = 2; length = 1; words = set (fill 0) 0 0x9000_0000 }

abbrev clients : List (IpcMsg × (ℕ × ℕ))
clients = (request, (0, 0)) ∷ (request, (0, 0)) ∷ (release_request, (0, 0)) ∷ (request, (0, 0)) ∷ []

init-events-AllFresh_example : AllFresh (fill false) (
    events accepting
      (Mem.init table (λ i. 0x9000_0000 + i * 0x10000) (fill 0x10000) (fill 2) 2)
      0
      clients)
init-events-AllFresh_example =
    init-events-AllFresh accepting table (λ i. 0x9000_0000 + i * 0x10000) (fill 0x10000) (fill 2) 2
      0 clients (omega arith) (λ i j hi hj e. omega arith)

-- An admission of 2 of 10 milliseconds for partition 1.
abbrev admission : IpcMsg
admission = record zero_msg {
  label = 1;
  length = 5;
  words = set (set (set (fill 0) 1 1) 2 2000) 3 10000;
}

abbrev admissions : List (IpcMsg × Bool)
admissions = (admission, false) ∷ (admission, false) ∷ []

run-is_admissible_example :
    (s : PolicyServer) × (Policy.run Policy.start admissions ≡ some s)
    × AllSchedulable s
    × (Policy.is_admissible s ≡ some true)
run-is_admissible_example = run-is_admissible admissions (λ _. omega arith, (λ _. omega arith, tt))

abbrev task : TaskCfg
task = record { id = 0; partition = 1; budget = 2000; period = 10000; prio = 0; rt = false }

abbrev one_task : PolicyServer
one_task = record Policy.start { tasks = set Policy.start.tasks 0 task; task_count = 1 }

abbrev mirror : SchedState
mirror = record Sched.init {
  contexts =
      set (fill zero_context) 0 (record zero_context {
        bound = true;
        partition_id = 1;
        budget_us = 2000;
        period_us = 10000;
      });
  num_partitions = 2;
}

one_task-small :
    (i : ℕ) → i < 1 → ((one_task.tasks i).period ≢ 0) × ((one_task.tasks i).budget < 2 ^ 57)
one_task-small zero h = (omega arith, omega arith)
one_task-small (suc i) h = absurd (omega arith)

admitted : Policy.run Policy.start ((admission, false) ∷ []) ≡ some one_task
unfolding Policy.run Policy.handle Policy.admit Policy.is_schedulable Policy.sum_tasks
    Policy.add_share
admitted = refl

mirror-IsMirror : IsMirror one_task mirror
mirror-IsMirror = record {
  small = omega arith;
  bound = λ i h. ground arith;
  partition = λ i h. ground arith;
  budget = λ i h. ground arith;
  period = λ i h. ground arith;
}

is_schedulable-demand_example :
    Policy.is_schedulable one_task 1 (some task)
    ≡ some (leb (demand one_task.tasks 1 1 + exact_share 1 task) 99)
is_schedulable-demand_example = is_schedulable-demand one_task 1 task one_task-small (omega arith)

run-is_schedulable_example : Sched.is_schedulable mirror ≡ true
run-is_schedulable_example =
    run-is_schedulable ((admission, false) ∷ []) one_task mirror (λ _. omega arith, tt) admitted
      mirror-IsMirror

-- A file named "a".
abbrev name_a : ℕ → ℕ
name_a i = set (fill 0) 0 97 i

abbrev created : Bool × FileServer
created = (
  true,
  record Files.start {
    files = set Files.start.files 0 (new_file (Files.start.files 0) name_a 7 4096 2);
  },
)

create_a : create Files.start name_a 7 4096 2 ≡ created
unfolding create Files.frame_cap_is_valid first
create_a = refl

unnamed : (j : ℕ) → j < max_files → is_named (Files.start.files j) name_a ≡ some false
unfolding is_named
unnamed j h = refl

first_fd : first (λ fd. not (Files.start.fds fd).valid) 32 0 ≡ some 0
unfolding first
first_fd = refl

create-open_file_example :
    (k : ℕ) × (k < max_files)
    × ((Files.start.files k).valid ≡ false)
    × (created.1.files k ≡ new_file (Files.start.files k) name_a 7 4096 2)
    × (open_file created.1 name_a 1
        ≡ some (some 0, record created.1 { fds = set created.1.fds 0 (new_fd k 1) }))
create-open_file_example =
    create-open_file Files.start created.1 name_a 7 4096 2 1 0 (1, omega arith, refl) unnamed
      first_fd create_a

-- A file of 100 bytes, and a descriptor in its middle.
abbrev half_read : FileServer
half_read = record {
  files =
      set Files.start.files 0
        (record (Files.start.files 0) { cap = 7; size = 4096; used = 100; valid = true });
  fds = set Files.start.fds 3 (record { file_id = 0; offset = 40; rights = 1; valid = true });
}

half_read-IsConsistent : IsConsistent half_read
half_read-IsConsistent = record { stored = λ i. ground arith; held = λ fd e. ground arith }

read-Explains_example : ReadExplains half_read 3 1000 (Files.read half_read 3 1000)
read-Explains_example = read-Explains half_read 3 1000 half_read-IsConsistent

-- A request to create a file.
abbrev creation : IpcMsg
creation = record zero_msg { label = 3; words = set (set (fill 0) 0 97) 4 4096; cap_ptrs = fill 7 }

abbrev opening : IpcMsg
opening = record creation { label = 1 }

run-IsConsistent_example :
    (s : FileServer) × (Files.run Files.start (creation ∷ opening ∷ []) ≡ some s) × IsConsistent s
run-IsConsistent_example =
    run-IsConsistent (creation ∷ opening ∷ [])
      (inl (λ e. absurd (omega arith)), (inr (1, omega arith, refl), record {}))
