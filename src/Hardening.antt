-- ===== src/Hardening.antt =====
-- kernel/include/hardening.h and kernel/src/hardening.c: the stack canary and the test of addresses. Guard pages
-- and the panic change machine state only.
use moonlight_os.Prelude.{
  ℕ, ◌-◌, ◌/◌, ◌^◌, ◌≤◌, ◌<◌, ◌≡◌, ◌≢◌, ◌↔◌, ◌⊎◌, arith, Bool, true, false, ◌||◌, ◌==◌, bit_or,
  bit_xor, ap,
}
use moonlight_os.Prelude.BitOr.{bit_or-digit}
use moonlight_os.Prelude.BitXor.{bit_xor-zero, bit_xor_self}

abbrev pub stack_canary : ℕ
stack_canary = 0xDEAD_BEEF_CAFE_BABE

-- `hardening_init` of the target build: the value of `g_canary` for what the two counters read.
unfoldable pub init : ℕ → ℕ → ℕ
init rnd cycle = bit_or (bit_xor (bit_xor rnd cycle) stack_canary) 1

-- `canary_check`, with `g_canary`
unfoldable pub canary_check : ℕ → ℕ → Bool
canary_check g_canary canary = bit_xor canary g_canary == 0

-- `is_canonical_addr`
unfoldable pub is_canonical_addr : ℕ → Bool
is_canonical_addr addr = let top = addr / 2 ^ 38 in top == 0 || top == 0x1FF_FFFF

-- Whatever the counters read, the canary is not zero, and the check accepts it and no other value.
pub canary_check-init_iff :
    (rnd cycle canary : ℕ)
    → (init rnd cycle ≢ 0)
      × ((canary_check (init rnd cycle) canary ≡ true) ↔ (canary ≡ init rnd cycle))
unfolding canary_check init
canary_check-init_iff rnd cycle canary =
    let g = bit_or (bit_xor (bit_xor rnd cycle) stack_canary) 1 in
    (
      λ z. omega (arith, bit_or-digit (bit_xor (bit_xor rnd cycle) stack_canary) 1),
      (
        λ e. bit_xor-zero canary g (ground arith),
        λ e. ground (arith, ap (λ (c : ℕ). bit_xor c g) e, bit_xor_self g),
      ),
    )

-- Bits 63 to 39 of an address repeat bit 38.
abbrev pub IsSignExtended : ℕ → Type 0
IsSignExtended addr = (addr < 2 ^ 38) ⊎ ((2 ^ 64 - 2 ^ 38 ≤ addr) × (addr < 2 ^ 64))

-- The test accepts the lower half, and of the rest the 2^38 bytes below 2^63, none of which is sign extended:
-- it refuses the whole upper half.
pub is_canonical_addr_iff :
    (addr : ℕ)
    → addr < 2 ^ 64
    → (is_canonical_addr addr ≡ true)
      ↔ ((addr < 2 ^ 38) ⊎ ((2 ^ 63 - 2 ^ 38 ≤ addr) × (addr < 2 ^ 63)))
unfolding is_canonical_addr
is_canonical_addr_iff addr word = ground arith

pub is_canonical_addr-upper :
    (addr : ℕ)
    → addr < 2 ^ 64
    → 2 ^ 38 ≤ addr
    → IsSignExtended addr
    → is_canonical_addr addr ≡ false
unfolding is_canonical_addr
is_canonical_addr-upper addr word high sign = ground arith
