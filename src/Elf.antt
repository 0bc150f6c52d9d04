-- ===== src/Elf.antt =====
-- kernel/include/elf.h and kernel/src/elf.c: the check of an ELF file.
pub mod Load
use moonlight_os.Prelude.{
  ℕ, zero, suc, ◌+◌, ◌-◌, ◌*◌, ◌%◌, ◌^◌, ◌||◌, Bool, true, false, not, Array, ◌==◌, ◌!=◌, ltb,
  if◌then◌else◌, add64, Option, none, some,
}

-- `n` bytes from `at`, lowest first.
unfoldable pub little_endian : ℕ → Array ℕ → ℕ → ℕ
little_endian zero b at = 0
little_endian (suc n) b at = b at + 256 * little_endian n b (at + 1)

abbrev pub header_size : ℕ
header_size = 64

abbrev pub phdr_size : ℕ
phdr_size = 56

-- `elf64_hdr_t`, the fields that the code reads.
pub record Header : Type 0 where
  pub magic : ℕ
  pub cls : ℕ
  pub type : ℕ
  pub entry : ℕ
  pub phoff : ℕ
  pub phnum : ℕ

unfoldable pub header : Array ℕ → Header
header b = record {
  magic = little_endian 4 b 0;
  cls = b 4;
  type = little_endian 2 b 16;
  entry = little_endian 8 b 24;
  phoff = little_endian 8 b 32;
  phnum = little_endian 2 b 56;
}

-- `elf64_phdr_t`, the fields that the code reads.
pub record Phdr : Type 0 where
  pub type : ℕ
  pub vaddr : ℕ
  pub paddr : ℕ
  pub memsz : ℕ

unfoldable pub phdr : Array ℕ → ℕ → Phdr
phdr b at = record {
  type = little_endian 4 b at;
  vaddr = little_endian 8 b (at + 16);
  paddr = little_endian 8 b (at + 24);
  memsz = little_endian 8 b (at + 40);
}

-- `elf_is_valid` of data that is not NULL.
unfoldable pub is_valid : Array ℕ → ℕ → Bool
is_valid b size =
    if ltb size header_size
    then false
    else if (header b).magic != 0x464C457F
    then false
    else if (header b).cls != 2
    then false
    else if (header b).type != 2
    then false
    else true

-- Where the header `i` of the table stands in the data.
abbrev pub at_phdr : ℕ → ℕ → ℕ
at_phdr phoff i = add64 phoff (i * phdr_size)

-- What `elf_load` returns: a read outside the data, ERR_INVALID_ARG, or ERR_OK with the entry and the lowest
-- address.
pub data Loaded : Type 0 where
  fault : Loaded
  rejected : Loaded
  loaded : ℕ → ℕ → Loaded

abbrev pub lower : Phdr → ℕ → ℕ
lower p first = if ltb p.vaddr first then p.vaddr else first

-- The loop of `elf_load` from the header `i` for `n` rounds, with the lowest address so far.
unfoldable pub scan : Array ℕ → ℕ → Header → ℕ → ℕ → ℕ → Loaded
scan b size h zero i first = loaded h.entry first
scan b size h (suc n) i first = elim (ltb size (at_phdr h.phoff i + phdr_size)) [
  | true ↦ fault
  | false ↦ elim ((phdr b (at_phdr h.phoff i)).type == 1) [
    | false ↦ scan b size h n (i + 1) first
    | true ↦
        elim (ltb 0x9000_0000
          (add64 (phdr b (at_phdr h.phoff i)).paddr (phdr b (at_phdr h.phoff i)).memsz)) [
            | true ↦ rejected
            | false ↦ scan b size h n (i + 1) (lower (phdr b (at_phdr h.phoff i)) first)
          ]
  ]
]

-- `elf_load` of pointers that are not NULL.
unfoldable pub load : Array ℕ → ℕ → Loaded
load b size =
    if not (is_valid b size)
    then rejected
    else if ltb size (add64 (header b).phoff ((header b).phnum * phdr_size))
    then rejected
    else scan b size (header b) (header b).phnum 0 (2 ^ 64 - 1)
