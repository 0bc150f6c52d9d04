-- ===== src/Boot/Schedule.antt =====
-- The time windows that kernel/src/boot.c sets up.
use moonlight_os.Prelude.{
  ℕ, ◌%◌, ◌^◌, ◌<◌, ◌≡◌, refl, ap, ◌∙◌, arith, Option, none, some, ltb, if◌then◌else◌, sub64, first,
  List, [], ◌∷◌, ◌!=◌,
}
use moonlight_os.Sched
use moonlight_os.Sched.{SchedState, major_frame_us, partition_create, frame_offset, window_at, tick}
use moonlight_os.Boot.{boot_sched}

-- The partition of a time in the major frame.
abbrev pub owner_at : ℕ → ℕ
owner_at at = if ltb at 6000 then 0 else if ltb at 8000 then 1 else 2

-- The partition of a time, which is a word of 64 bits.
abbrev pub owner : ℕ → ℕ
owner now = owner_at (now % 2 ^ 64 % 10_000)

-- The ticks at some times, with the partition whose traces each of them flushes.
abbrev pub ticks : SchedState → List ℕ → List (Option ℕ)
ticks s [] = []
ticks s (now ∷ times) = let r = tick s now in r.1 ∷ ticks r.0 times

-- The partitions that are left, from the partition `p` on.
abbrev pub leaves : ℕ → List ℕ → List (Option ℕ)
leaves p [] = []
leaves p (now ∷ times) = (if owner now != p then some p else none) ∷ leaves (owner now) times

-- A state with the windows of the boot.
pub record IsBooted (s : SchedState) : Type 0 where
  pub partitions : s.partitions ≡ boot_sched.partitions
  pub count : s.num_partitions ≡ boot_sched.num_partitions
  pub start : s.major_frame_start ≡ 0

window : (s : SchedState) (at : ℕ) → IsBooted s → at < 10_000 → window_at s at ≡ owner_at at
unfolding boot_sched partition_create Sched.init first window_at
window s at b h = rw (b.partitions, b.count) (ground arith)

tick-owner : (s : SchedState) (now : ℕ) → IsBooted s → window_at s (frame_offset s now) ≡ owner now
tick-owner s now b =
    let since : frame_offset s now ≡ now % 2 ^ 64 % 10_000 =
      ap (λ (m : ℕ). sub64 now m % major_frame_us) b.start ∙ omega arith in
    ap (window_at s) since ∙ window s (now % 2 ^ 64 % 10_000) b (omega arith)

tick-IsBooted : (s : SchedState) (now : ℕ) → IsBooted s → IsBooted (tick s now).0
unfolding tick
tick-IsBooted s now b = record { partitions = b.partitions; count = b.count; start = b.start }

tick-leaves :
    (s : SchedState) (now : ℕ)
    → IsBooted s
    → ((tick s now).0.current_partition ≡ owner now)
      × ((tick s now).1
          ≡ (if owner now != s.current_partition then some s.current_partition else none))
unfolding tick
tick-leaves s now b = (
  tick-owner s now b,
  ap (λ (p : ℕ). if p != s.current_partition then some s.current_partition else none)
      (tick-owner s now b),
)

pub ticks-booted :
    (times : List ℕ) (s : SchedState)
    → IsBooted s
    → ticks s times ≡ leaves s.current_partition times
ticks-booted [] s b = refl
ticks-booted (now ∷ times) s b =
    let (here, left) = tick-leaves s now b in
    let rest =
      ticks-booted times (tick s now).0 (tick-IsBooted s now b)
      ∙ ap (λ (p : ℕ). leaves p times) here in
    cc

-- The ticks of the scheduler that the boot sets up, at any times: partition 0 runs for the first 6000
-- microseconds of each 10000, partition 1 for the next 2000, partition 2 for the last 2000, and each tick that
-- changes the partition flushes the one that is left. The scheduler starts in partition 0.
pub boot_sched-ticks : (times : List ℕ) → ticks boot_sched times ≡ leaves 0 times
unfolding boot_sched partition_create Sched.init first
boot_sched-ticks times =
    ticks-booted times boot_sched record { partitions = refl; count = refl; start = refl }
