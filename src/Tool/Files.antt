-- ===== src/Tool/Files.antt =====
-- Which files `load_elf` takes.
use acheron_arm.Base.{
  ℕ, zero, suc, ◌+◌, ◌*◌, ◌/◌, ◌%◌, ◌^◌, ◌<◌, ◌≤◌, ◌≡◌, ◌↔◌, true, some, List, [], ◌∷◌, ◌++◌,
  if◌then◌else◌, length, arith,
}
use acheron_arm.Tool.Elf.{header, read_le, load_elf}

-- A file is taken exactly if its buffer begins with the magic number, the class of 64 bits and the
-- little-endian encoding, and names the machine 0xB7, AArch64. Then the entry point is the number
-- in the eight bytes from 24 on.
pub load_elf_iff :
    (stale : ℕ → ℕ) (bytes : List ℕ)
    → let h = header stale bytes in
      let info = load_elf stale (some bytes) in
      ((info.valid ≡ true) ↔ (
        (h 0 ≡ 0x7f)
        × (h 1 ≡ 69)
        × (h 2 ≡ 76)
        × (h 3 ≡ 70)
        × (h 4 ≡ 2)
        × (h 5 ≡ 1)
        × (h 18 + 2 ^ 8 * h 19 ≡ 0xB7)))
      × (info.is_arm64 ≡ info.valid)
      × (info.entry_point ≡ (if info.valid then read_le 8 h 24 else 0))
unfolding load_elf
load_elf_iff stale bytes =
    let h = header stale bytes in
    let machine : read_le 2 h 18 ≡ h 18 + 2 ^ 8 * h 19 = unfold read_le in omega arith in
    (ground (arith, machine), ground (arith, machine), ground (arith, machine))

-- The eight bytes of an entry point.
unfoldable pub bytes_of : ℕ → ℕ → List ℕ
bytes_of zero n = []
bytes_of (suc count) n = (n % 2 ^ 8) ∷ bytes_of count (n / 2 ^ 8)

-- The header that the format gives an AArch64 executable, up to its first 32 bytes, then the rest
-- of the file.
unfoldable pub executable : ℕ → List ℕ → List ℕ
executable entry rest =
    0x7f
    ∷ 69
    ∷ 76
    ∷ 70
    ∷ 2
    ∷ 1
    ∷ 1
    ∷ 0
    ∷ 0
    ∷ 0
    ∷ 0
    ∷ 0
    ∷ 0
    ∷ 0
    ∷ 0
    ∷ 0
    ∷ 2
    ∷ 0
    ∷ 0xB7
    ∷ 0
    ∷ 1
    ∷ 0
    ∷ 0
    ∷ 0
    ∷ (bytes_of 8 entry ++ rest)

-- A file that starts with the header of an AArch64 executable, with its entry point, and has at
-- least 32 further bytes is taken, with that entry point and its own size, whatever the buffer held.
pub load_elf-executable :
    (stale : ℕ → ℕ) (entry : ℕ) (rest : List ℕ)
    → entry < 2 ^ 64
    → 32 ≤ length rest
    → load_elf stale (some (executable entry rest)) ≡ record {
      valid = true;
      is_arm64 = true;
      entry_point = entry;
      base_address = 0;
      file_size = 32 + length rest;
    }
unfolding load_elf read_le executable bytes_of
load_elf-executable stale entry rest e l = ground arith
