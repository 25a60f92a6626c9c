-- ===== src/Mmu/Descriptor.antt =====
-- `PageTableDescriptor`: MMUEmulator.hpp, lines 104 to 143. The widths are those of the
-- declaration. `ap` has three bits where its comment gives it two, so each field from `ns` on
-- starts one bit above its comment, and `reserved2`, which the code does not use, no longer fits
-- the 64-bit unit.
use acheron_arm.Base.{
  ℕ, ◌+◌, ◌*◌, ◌/◌, ◌%◌, ◌^◌, ◌<◌, ◌≡◌, ◌↔◌, refl, if◌then◌else◌, Bool, ◌&&◌, ◌==◌, List, [], ◌∷◌,
  ◌++◌, arith, bit_and, ◌>>>◌, ◌<<<◌,
}
use acheron_arm.Base.Bits.{bit_and-low}
use acheron_arm.Registers.Bitfields.{
  bit_field, set_bit_field, bit_field-set_self, bit_field-set_ne, total_width, first_bits,
}

-- valid table sh ng ap ns attr_index reserved1 output_addr
abbrev pub descriptor_layout : List ℕ
descriptor_layout = 1 ∷ 1 ∷ 2 ∷ 1 ∷ 3 ∷ 1 ∷ 3 ∷ 1 ∷ 36 ∷ []

-- The fields of the first struct of the union.
abbrev pub valid_bit : ℕ → ℕ
valid_bit = bit_field descriptor_layout 0

abbrev pub table_bit : ℕ → ℕ
table_bit = bit_field descriptor_layout 1

abbrev pub sh : ℕ → ℕ
sh = bit_field descriptor_layout 2

abbrev pub ap_bits : ℕ → ℕ
ap_bits = bit_field descriptor_layout 4

abbrev pub attr_index : ℕ → ℕ
attr_index = bit_field descriptor_layout 6

abbrev pub output_addr : ℕ → ℕ
output_addr = bit_field descriptor_layout 8

unfoldable pub is_valid : ℕ → Bool
is_valid desc = valid_bit desc == 1

unfoldable pub is_table : ℕ → Bool
is_table desc = table_bit desc == 1

-- `is_block` and `is_page` have one body.
pub is_block : ℕ → Bool
is_block desc = valid_bit desc == 1 && table_bit desc == 0

pub is_page : ℕ → Bool
is_page desc = valid_bit desc == 1 && table_bit desc == 0

unfoldable pub get_output_address : ℕ → ℕ
get_output_address desc = output_addr desc <<< 12

pub set_output_address : ℕ → ℕ → ℕ
set_output_address desc pa =
    set_bit_field descriptor_layout 8 (bit_and (pa >>> 12) 0xFFFFFFFFF) desc

-- With `reserved2` the fields take 65 bits.
descriptor_width : total_width (descriptor_layout ++ 16 ∷ []) ≡ 65
descriptor_width = refl

descriptor_first_bits : first_bits 0 descriptor_layout ≡ 0 ∷ 1 ∷ 2 ∷ 4 ∷ 5 ∷ 8 ∷ 9 ∷ 12 ∷ 13 ∷ []
descriptor_first_bits = refl

-- Setting an output address and getting it back rounds it down to a multiple of 4096 and cuts it
-- to 48 bits. Each field of the descriptor but the output address, field 8, stays.
pub get-set_output_address :
    (desc pa : ℕ)
    → (get_output_address (set_output_address desc pa) ≡ pa / 2 ^ 12 % 2 ^ 36 * 2 ^ 12)
      × ((i : ℕ)
          → bit_field descriptor_layout i (set_output_address desc pa)
            ≡ (if i == 8 then pa / 2 ^ 12 % 2 ^ 36 else bit_field descriptor_layout i desc))
unfolding get_output_address set_output_address
get-set_output_address desc pa =
    let page = bit_and (pa >>> 12) 0xFFFFFFFFF in
    let self = bit_field-set_self descriptor_layout 8 page desc in
    let low = bit_and-low 36 (pa >>> 12) in
    (
      omega (arith, self, low),
      λ i. ground (arith, self, low, bit_field-set_ne descriptor_layout 8 i page desc),
    )

-- The word that the comments of the struct describe: attributes in the bits up to 11, and the
-- number of the output page in bits 12 to 47.
abbrev pub commented_word : ℕ → ℕ → ℕ
commented_word page attributes = page * 2 ^ 12 + attributes

-- Of a word laid out by the comments, `get_output_address` gives the page whose number is half of
-- the page number, rounded down, and so the right page only for page 0.
pub get_output_address-commented_word :
    (page attributes : ℕ)
    → page < 2 ^ 36
    → attributes < 2 ^ 12
    → (get_output_address (commented_word page attributes) ≡ page / 2 * 2 ^ 12)
      × ((get_output_address (commented_word page attributes) ≡ page * 2 ^ 12) ↔ (page ≡ 0))
unfolding get_output_address
get_output_address-commented_word page attributes hp ha = omega arith
