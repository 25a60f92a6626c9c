-- ===== src/Tool/Elf.antt =====
-- `load_elf`: tools/acheron.cpp, lines 121 to 184. A file is the list of its bytes, and
-- `stale` what the 64 bytes of the local buffer hold before the read, which leaves them where the
-- file is shorter. The machine is little-endian.
use acheron_arm.Base.{
  ℕ, zero, suc, ◌+◌, ◌-◌, ◌*◌, ◌^◌, Bool, true, false, not, ◌==◌, ◌||◌, leb, Option, none, some,
  List, if◌then◌else◌, length, get_elem?,
}

pub record ElfInfo : Type 0 where
  pub valid : Bool
  pub is_arm64 : Bool
  pub entry_point : ℕ
  pub base_address : ℕ
  pub file_size : ℕ

abbrev pub blank_info : ElfInfo
blank_info = record {
  valid = false;
  is_arm64 = false;
  entry_point = 0;
  base_address = 0;
  file_size = 0;
}

-- `header[i]` after `file.read(header, 64)`
abbrev pub header : (ℕ → ℕ) → List ℕ → ℕ → ℕ
header stale bytes i = elim (get_elem? bytes i) [ some b ↦ b | none ↦ stale i ]

-- The little-endian number of some bytes from an offset on.
unfoldable pub read_le : ℕ → (ℕ → ℕ) → ℕ → ℕ
read_le zero h offset = 0
read_le (suc count) h offset = h offset + 2 ^ 8 * read_le count h (offset + 1)

-- `tellg` at the end; it fails, with -1, after a read of a shorter file.
abbrev pub size_of : List ℕ → ℕ
size_of bytes = if leb 64 (length bytes) then length bytes else 2 ^ 64 - 1

unfoldable pub load_elf : (ℕ → ℕ) → Option (List ℕ) → ElfInfo
unfolding read_le
load_elf stale none = blank_info
load_elf stale (some bytes) =
    let h = header stale bytes in
    let machine = read_le 2 h 18 in
    let sized = record blank_info { file_size = size_of bytes } in
    if not (h 0 == 0x7f) || not (h 1 == 69) || not (h 2 == 76) || not (h 3 == 70)
    then blank_info
    else if not (h 4 == 2)
    then blank_info
    else if not (h 5 == 1)
    then blank_info
    else if machine == 0xB7
    then record sized { is_arm64 = true; entry_point = read_le 8 h 24; valid = true }
    else sized
