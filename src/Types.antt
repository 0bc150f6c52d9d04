-- ===== src/Types.antt =====
-- kernel/include/types.h: error codes, limits and the IPC message.
use moonlight_os.Prelude.{ℕ, Bool, true, false, ◌≡◌, refl, ◌⊎◌, inl, inr, Array, fill}

-- `kerror_t`, in the order of its values.
pub data KError : Type 0 where
  ok invalid_cap no_rights invalid_arg no_mem revoke_needed overflow : KError
  partition_denied wcet_exceeded : KError

-- The value of an error, as it is returned in a register.
pub code : KError → ℕ
code ok = 0
code invalid_cap = 1
code no_rights = 2
code invalid_arg = 3
code no_mem = 4
code revoke_needed = 5
code overflow = 6
code partition_denied = 7
code wcet_exceeded = 8

abbrev pub page_size : ℕ
page_size = 4096

abbrev pub max_partitions : ℕ
max_partitions = 8

abbrev pub ipc_msg_max : ℕ
ipc_msg_max = 30

abbrev pub ipc_caps_max : ℕ
ipc_caps_max = 3

-- `ipc_msg_t`
pub record IpcMsg : Type 0 where
  pub label : ℕ
  pub length : ℕ
  pub caps : ℕ
  pub words : Array ℕ
  pub cap_ptrs : Array ℕ

-- `ipc_msg_t msg = {0}`
abbrev pub zero_msg : IpcMsg
zero_msg = record { label = 0; length = 0; caps = 0; words = fill 0; cap_ptrs = fill 0 }

abbrev pub is_ok : KError → Bool
is_ok ok = true
is_ok _ = false

-- A result is a success with its value, or no success.
pub ok-cases {ℓ} : {A : Type ℓ} (r : KError × A) → (r ≡ (ok, r.1)) ⊎ (is_ok r.0 ≡ false)
ok-cases (ok, a) = inl refl
ok-cases (_, a) = inr refl

pub error-cases : (e : KError) → (e ≡ ok) ⊎ (is_ok e ≡ false)
error-cases ok = inl refl
error-cases _ = inr refl
