-- ===== src/Servers/Mem.antt =====
-- userspace/mem_server/server.c: the server that hands out untyped regions as frames.
pub mod Grants
pub mod Holders
use moonlight_os.Prelude.{
  ℕ, zero, suc, ◌+◌, ◌*◌, ◌%◌, ◌-◌, ◌^◌, ◌&&◌, ◌||◌, Bool, true, false, not, Array, set, ◌==◌, ◌!=◌,
  ltb, leb, if◌then◌else◌, add32, sub32, update_all, Option, none, some,
}
use mathlib.Core.Option
use moonlight_os.Types.{IpcMsg}

abbrev pub max_untyped : ℕ
max_untyped = 32

-- `untyped_t`
pub record Untyped : Type 0 where
  pub paddr : ℕ
  pub size : ℕ
  pub cptr : ℕ
  pub free : Bool
  pub color : ℕ

-- The variables of the file.
pub record MemServer : Type 0 where
  pub untypeds : Array Untyped
  pub untyped_count : ℕ
  pub next_frame_slot : ℕ

-- The first `n` rounds of the loop of `mem_server_init`.
unfoldable pub init_regions : Array ℕ → Array ℕ → Array ℕ → ℕ → Array Untyped → Array Untyped
init_regions bases sizes colors zero us = us
init_regions bases sizes colors (suc i) us =
    set (init_regions bases sizes colors i us) i
      (record { paddr = bases i; size = sizes i; cptr = i; free = true; color = colors i })

-- `mem_server_init`. The count is not limited to the table.
unfoldable pub init : MemServer → Array ℕ → Array ℕ → Array ℕ → ℕ → MemServer
init s bases sizes colors n = record {
  untypeds =
      init_regions bases sizes colors (if ltb n max_untyped then n else max_untyped) s.untypeds;
  untyped_count = n;
  next_frame_slot = 10;
}

-- `(partition * 2) % 16`
unfoldable pub expected_color : ℕ → ℕ
expected_color partition = partition * 2 % 2 ^ 32 % 16

-- The three tests of the loop of `mem_alloc` before the call.
unfoldable pub fits : ℕ → ℕ → Untyped → Bool
unfolding expected_color
fits partition size u =
    u.free
    && leb size u.size
    && (u.color == expected_color partition || u.color == expected_color partition + 1)

-- What `mem_alloc` does: it reads outside the table, returns -1, or returns 0 with an address and a
-- colour.
pub data Outcome : Type 0 where
  fault : Outcome
  failed : Outcome
  granted : ℕ → ℕ → Outcome

-- The end of a round whose call succeeded.
abbrev pub take_region : MemServer → ℕ → MemServer
take_region s i = record s {
  untypeds = set s.untypeds i (record (s.untypeds i) { free = false });
  next_frame_slot = add32 s.next_frame_slot 1;
}

-- The loop of the label 2 over the table: every region at the address becomes free.
abbrev pub release : ℕ → Untyped → Untyped
release p u = if u.paddr == p then record u { free = true } else u

module _ {W : Type 0} where
  -- The reply of `mem_server_run` to the label 1, from the result of `mem_alloc`. After a refusal it sends
  -- two variables that were never written, here `junk`.
  unfoldable pub alloc_reply :
      IpcMsg → ℕ × ℕ → Outcome × MemServer × W → Option (IpcMsg × MemServer × W)
  alloc_reply msg junk (fault, s, w) = none
  alloc_reply msg junk (failed, s, w) = some (
    record msg { words = set (set (set msg.words 0 (2 ^ 64 - 1)) 1 junk.0) 2 junk.1; length = 3 },
    s,
    w,
  )
  alloc_reply msg junk (granted paddr color, s, w) = some (
    record msg {
      words = set (set (set msg.words 0 0) 1 paddr) 2 color;
      cap_ptrs = set msg.cap_ptrs 0 (sub32 s.next_frame_slot 1);
      caps = 1;
      length = 3;
    },
    s,
    w,
  )

  -- The body of the loop of `mem_server_run` for the label 2. No test asks who holds the region.
  unfoldable pub handle_free : MemServer → W → IpcMsg → Option (IpcMsg × MemServer × W)
  handle_free s w msg =
      if leb s.untyped_count max_untyped
      then some (
        record msg { words = set msg.words 0 0; length = 1 },
        record s { untypeds = update_all s.untyped_count (release (msg.words 0)) s.untypeds },
        w,
      )
      else none

-- `moonlight_retype` of the library: what it is called with, the state of the rest of the system before
-- and after, and its result.
module _ {W : Type 0} (moonlight_retype : W → ℕ → ℕ → ℕ → ℕ → W × ℕ) where
  -- The call in a round: 5 is CAP_FRAME.
  abbrev pub retype_at : MemServer → W → ℕ → ℕ → W × ℕ
  retype_at s w size i = moonlight_retype w (s.untypeds i).cptr 5 size s.next_frame_slot

  -- `mem_alloc`, from the region `i` for `n` rounds.
  unfoldable pub alloc_from : ℕ → ℕ → ℕ → MemServer → W → ℕ → Outcome × MemServer × W
  alloc_from partition size zero s w i = (failed, s, w)
  alloc_from partition size (suc n) s w i = elim (ltb i max_untyped) [
    | false ↦ (fault, s, w)
    | true ↦ elim (fits partition size (s.untypeds i)) [
      | false ↦ alloc_from partition size n s w (i + 1)
      | true ↦ elim ((retype_at s w size i).1 == 0) [
        | false ↦ alloc_from partition size n s (retype_at s w size i).0 (i + 1)
        | true ↦ (
          granted (s.untypeds i).paddr (s.untypeds i).color,
          take_region s i,
          (retype_at s w size i).0,
        )
      ]
    ]
  ]

  -- `mem_alloc`
  unfoldable pub alloc : ℕ → ℕ → MemServer → W → Outcome × MemServer × W
  alloc partition size s w = alloc_from partition size s.untyped_count s w 0

  -- The body of the loop of `mem_server_run` for the label 1.
  unfoldable pub handle_alloc : MemServer → W → IpcMsg → ℕ × ℕ → Option (IpcMsg × MemServer × W)
  handle_alloc s w msg junk = alloc_reply msg junk (alloc (msg.words 0 % 2 ^ 32) (msg.words 1) s w)

  -- The body of the loop of `mem_server_run`: the reply, if one is sent, and the state. `none` is an
  -- access outside the table.
  unfoldable pub handle : MemServer → W → IpcMsg → ℕ × ℕ → Option (Option IpcMsg × MemServer × W)
  handle s w msg junk =
      if msg.label == 1
      then Option.map (λ r. (some r.0, r.1, r.2)) (handle_alloc s w msg junk)
      else if msg.label == 2
      then Option.map (λ r. (some r.0, r.1, r.2)) (handle_free s w msg)
      else some (none, s, w)
