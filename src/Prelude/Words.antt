-- ===== src/Prelude/Words.antt =====
-- Unsigned machine words: numbers below `2 ^ w`, with the wrap-around of each operation written out.
use Prim.Native.Nat.{ℕ, ◌+◌, ◌-◌, ◌/◌, ◌%◌, ◌^◌}

-- `uint64_t`, and `size_t` and `uintptr_t` on rv64.
abbrev pub add64 : ℕ → ℕ → ℕ
add64 a b = (a + b) % 2 ^ 64

abbrev pub sub64 : ℕ → ℕ → ℕ
sub64 a b = (a + 2 ^ 64 - b) % 2 ^ 64

-- `uint32_t`
abbrev pub add32 : ℕ → ℕ → ℕ
add32 a b = (a + b) % 2 ^ 32

abbrev pub sub32 : ℕ → ℕ → ℕ
sub32 a b = (a + 2 ^ 32 - b) % 2 ^ 32

-- `(a >> k) & 0xFF`
abbrev pub byte_at : ℕ → ℕ → ℕ
byte_at k a = (a / 2 ^ k) % 256
