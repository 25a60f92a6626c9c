-- ===== src/Emulator/RegisterFile.antt =====
-- The abstract view of the emulator: a file of ten named registers, and what `readSystemRegister`
-- and `writeSystemRegister` do to it.
use acheron_arm.Base.{
  ℕ, ◌≡◌, refl, ◌∙◌, ap, Bool, true, false, Option, none, some, arith, Bool-cases, ◌&&◌, ◌↔◌, inl,
  inr, Option-cases, if◌then◌else◌, List, [], ◌∷◌,
}
use mathlib.Core.Option
use acheron_arm.Registers.{SystemRegisterState}
use acheron_arm.Emulator.{Encoding, names, read_system_register, write_system_register}

pub data Reg : Type 0 where
  sctlr tcr ttbr0 ttbr1 esr far elr vbar mpidr midr : Reg

-- The architectural encodings, as the comments of the source state them.
abbrev pub encode : Reg → Encoding
encode sctlr = record { op0 = 3; op1 = 0; crn = 1; crm = 0; op2 = 0 }
encode tcr = record { op0 = 3; op1 = 0; crn = 2; crm = 0; op2 = 2 }
encode ttbr0 = record { op0 = 3; op1 = 0; crn = 2; crm = 0; op2 = 0 }
encode ttbr1 = record { op0 = 3; op1 = 0; crn = 2; crm = 0; op2 = 1 }
encode esr = record { op0 = 3; op1 = 0; crn = 5; crm = 2; op2 = 0 }
encode far = record { op0 = 3; op1 = 0; crn = 6; crm = 0; op2 = 0 }
encode elr = record { op0 = 3; op1 = 0; crn = 4; crm = 0; op2 = 1 }
encode vbar = record { op0 = 3; op1 = 0; crn = 12; crm = 0; op2 = 0 }
encode mpidr = record { op0 = 3; op1 = 0; crn = 0; crm = 0; op2 = 5 }
encode midr = record { op0 = 3; op1 = 0; crn = 0; crm = 0; op2 = 0 }

abbrev pub view : SystemRegisterState → Reg → ℕ
view s sctlr = s.sctlr_el1
view s tcr = s.tcr_el1
view s ttbr0 = s.ttbr0_el1
view s ttbr1 = s.ttbr1_el1
view s esr = s.esr_el1
view s far = s.far_el1
view s elr = s.elr_el1
view s vbar = s.vbar_el1
view s mpidr = s.mpidr_el1
view s midr = s.midr_el1

-- The identification registers are read-only.
abbrev pub is_writable : Reg → Bool
is_writable mpidr = false
is_writable midr = false
is_writable _ = true

-- A test of the source succeeds exactly at its own encoding.
names_iff :
    (x : Encoding) (a b c d e : ℕ)
    → names x a b c d e ≡ true
    → x ≡ record { op0 = a; op1 = b; crn = c; crm = d; op2 = e }
unfolding names
names_iff x a b c d e h = ground arith

names_self : (x : Encoding) → names x x.op0 x.op1 x.crn x.crm x.op2 ≡ true
unfolding names
names_self x = ground arith

-- Equality of encodings.
abbrev pub same : Encoding → Encoding → Bool
same x y = names x y.op0 y.op1 y.crn y.crm y.op2

pub same_iff : (x y : Encoding) → (same x y ≡ true) ↔ (x ≡ y)
same_iff x y = (names_iff x y.op0 y.op1 y.crn y.crm y.op2, λ e. rw e (names_self y))

abbrev all_regs : List Reg
all_regs = sctlr ∷ tcr ∷ ttbr0 ∷ ttbr1 ∷ esr ∷ far ∷ elr ∷ vbar ∷ mpidr ∷ midr ∷ []

abbrev search_reg : Encoding → List Reg → Option Reg
search_reg x [] = none
search_reg x (r ∷ rs) = if same x (encode r) then some r else search_reg x rs

-- The register that an encoding names, searched in the table of encodings.
pub reg_of : Encoding → Option Reg
reg_of x = search_reg x all_regs

reg_of-encode : (r : Reg) → reg_of (encode r) ≡ some r
unfolding reg_of names
reg_of-encode sctlr = refl
reg_of-encode _ = refl

search_reg-eq_some :
    (x : Encoding) (rs : List Reg) {r : Reg} → search_reg x rs ≡ some r → x ≡ encode r
search_reg-eq_some x [] e = cc
search_reg-eq_some x (t ∷ rs) {r} e = elim (Bool-cases (same x (encode t))) [
  | inl hit ↦ (same_iff x (encode t)).0 hit ∙ ap encode (ground arith)
  | inr miss ↦ search_reg-eq_some x rs (ground arith)
]

pub reg_of_iff : (x : Encoding) (r : Reg) → (reg_of x ≡ some r) ↔ (x ≡ encode r)
unfolding reg_of
reg_of_iff x r = (search_reg-eq_some x all_regs, λ e. rw e (reg_of-encode r))

-- Reading by encoding is reading the file at the register that the encoding names, and fails
-- exactly when it names none.
pub read-view :
    (s : SystemRegisterState) (x : Encoding)
    → read_system_register s x ≡ Option.map (view s) (reg_of x)
unfolding read_system_register reg_of
read-view s x = ground arith

-- A read gives `v` exactly when the encoding is that of one of the ten registers and the register
-- holds `v`.
pub read-eq_some_iff :
    (s : SystemRegisterState) (x : Encoding) (v : ℕ)
    → (read_system_register s x ≡ some v) ↔ ((r : Reg) × (x ≡ encode r) × (view s r ≡ v))
read-eq_some_iff s x v = (there, back)
  where
    there : read_system_register s x ≡ some v → (r : Reg) × (x ≡ encode r) × (view s r ≡ v)
    there e = elim (Option-cases (reg_of x)) [
      | inl none_named ↦ absurd (ground (arith, read-view s x))
      | inr (r, named) ↦ (r, (reg_of_iff x r).0 named, ground (arith, read-view s x))
    ]

    back : (r : Reg) × (x ≡ encode r) × (view s r ≡ v) → read_system_register s x ≡ some v
    back (r, e, held) = ground (arith, read-view s x, (reg_of_iff x r).1 e)

write_hit :
    (s : SystemRegisterState) (v : ℕ) (r : Reg)
    → view (write_system_register s (encode r) v).0 r ≡ (if is_writable r then v else view s r)
unfolding write_system_register names
write_hit s v sctlr = refl
write_hit s v _ = refl

write_miss :
    (s : SystemRegisterState) (x : Encoding) (v : ℕ) (r : Reg)
    → same x (encode r) ≡ false
    → view (write_system_register s x v).0 r ≡ view s r
unfolding write_system_register
write_miss s x v sctlr h = ground arith
write_miss s x v _ h = ground arith

write-succeeds :
    (s : SystemRegisterState) (x : Encoding) (v : ℕ) → (write_system_register s x v).1 ≡ true
unfolding write_system_register
write-succeeds s x v = ground arith

view-write :
    (s : SystemRegisterState) (x : Encoding) (v : ℕ) (r : Reg)
    → view (write_system_register s x v).0 r
      ≡ (if is_writable r && same x (encode r) then v else view s r)
view-write s x v r = elim (Bool-cases (same x (encode r))) [
  | inl hit ↦
      rw ((same_iff x (encode r)).0 hit, names_self (encode r)) (ground (arith, write_hit s v r))
  | inr miss ↦ ground (arith, write_miss s x v r miss)
]

-- A write always succeeds. Afterwards a register holds `v` if it is writable and the encoding is
-- its own, and else what it held: a write to MPIDR_EL1, MIDR_EL1 or an unknown register is
-- accepted and changes nothing.
pub write-view :
    (s : SystemRegisterState) (x : Encoding) (v : ℕ)
    → ((write_system_register s x v).1 ≡ true)
      × ((r : Reg)
          → view (write_system_register s x v).0 r
            ≡ (if is_writable r && same x (encode r) then v else view s r))
write-view s x v = (write-succeeds s x v, view-write s x v)

-- The encodings of the eight registers that a write changes.
pub writable_encoding : Encoding → Bool
writable_encoding x = elim (reg_of x) [ some r ↦ is_writable r | none ↦ false ]

read_written :
    (s : SystemRegisterState) (x : Encoding) (v : ℕ)
    → read_system_register (write_system_register s x v).0 x
      ≡ (if writable_encoding x then some v else read_system_register s x)
unfolding writable_encoding
read_written s x v = elim (Option-cases (reg_of x)) [
  | inl unnamed ↦ ground (arith, read-view s x, read-view (write_system_register s x v).0 x)
  | inr (r, named) ↦ ground (
    arith,
    read-view s x,
    read-view (write_system_register s x v).0 x,
    view-write s x v r,
    (same_iff x (encode r)).1 ((reg_of_iff x r).0 named),
  )
]

read_other :
    (s : SystemRegisterState) (x y : Encoding) (v : ℕ)
    → same x y ≡ false
    → read_system_register (write_system_register s x v).0 y ≡ read_system_register s y
read_other s x y v other = elim (Option-cases (reg_of y)) [
  | inl unnamed ↦ ground (arith, read-view s y, read-view (write_system_register s x v).0 y)
  | inr (r, named) ↦ ground (
    arith,
    read-view s y,
    read-view (write_system_register s x v).0 y,
    write_miss s x v r (rw ((reg_of_iff y r).0 named) at other),
  )
]

-- Reading after a write, at any two encodings: the written value if they are the same encoding of
-- a writable register, and else what a read gave before the write.
pub read-write :
    (s : SystemRegisterState) (x y : Encoding) (v : ℕ)
    → read_system_register (write_system_register s x v).0 y
      ≡ (if same x y && writable_encoding x then some v else read_system_register s y)
read-write s x y v = elim (Bool-cases (same x y)) [
  | inl equal ↦ rw (← (same_iff x y).0 equal, names_self x) (read_written s x v)
  | inr other ↦ rw other (read_other s x y v other)
]
