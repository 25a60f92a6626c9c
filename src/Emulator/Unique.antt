-- ===== src/Emulator/Unique.antt =====
-- The names that `getSystemRegisterName` gives, compared.
use acheron_arm.Base.{
  ℕ, ◌<◌, ◌≡◌, ◌≢◌, ◌↔◌, Option, none, some, List, [], ◌∷◌, ◌++◌, if◌then◌else◌, ap, sym, ◌∙◌,
  arith, Bool-cases, Option-cases, inl, inr, refl,
}
use acheron_arm.Emulator.{Encoding}
use acheron_arm.Emulator.RegisterFile.{same, same_iff}
use acheron_arm.Emulator.Names.{
  decimal, generic_name, get_system_register_name, sctlr_el1_name, tcr_el1_name, ttbr0_el1_name,
  ttbr1_el1_name, esr_el1_name, far_el1_name, elr_el1_name, vbar_el1_name, mpidr_el1_name,
  midr_el1_name, sctlr_el2_name, hcr_el2_name,
}

-- The fields are `uint8_t`.
pub record IsByteEncoding (x : Encoding) : Type 0 where
  pub op0_byte : x.op0 < 256
  pub op1_byte : x.op1 < 256
  pub crn_byte : x.crn < 256
  pub crm_byte : x.crm < 256
  pub op2_byte : x.op2 < 256

-- A decimal number ends before an underscore.
decimal-inj :
    (m n : ℕ) (s t : List ℕ)
    → m < 256
    → n < 256
    → decimal m ++ (95 ∷ s) ≡ decimal n ++ (95 ∷ t)
    → (m ≡ n) × (s ≡ t)
unfolding decimal
decimal-inj m n s t hm hn e = ground arith

decimal-inj_last : (m n : ℕ) → m < 256 → n < 256 → decimal m ≡ decimal n → m ≡ n
unfolding decimal
decimal-inj_last m n hm hn e = ground arith

generic_name-inj :
    (x y : Encoding) → IsByteEncoding x → IsByteEncoding y → generic_name x ≡ generic_name y → x ≡ y
unfolding generic_name
generic_name-inj x y hx hy e =
    let a = decimal-inj x.op0 y.op0 _ _ hx.op0_byte hy.op0_byte (ap (λ s. drop_one s) e) in
    let b = decimal-inj x.op1 y.op1 _ _ hx.op1_byte hy.op1_byte a.1 in
    let c = decimal-inj x.crn y.crn _ _ hx.crn_byte hy.crn_byte (ap (λ s. drop_one s) b.1) in
    let d = decimal-inj x.crm y.crm _ _ hx.crm_byte hy.crm_byte (ap (λ s. drop_one s) c.1) in
    let f = decimal-inj_last x.op2 y.op2 hx.op2_byte hy.op2_byte d.1 in cc
  where
    drop_one : List ℕ → List ℕ
    drop_one [] = []
    drop_one (c ∷ s) = s

-- The registers with a name of their own.
data Named : Type 0 where
  sctlr_el1 tcr_el1 ttbr0_el1 ttbr1_el1 esr_el1 far_el1 elr_el1 vbar_el1 mpidr_el1 : Named
  midr_el1 sctlr_el2 hcr_el2 : Named

abbrev label : Named → List ℕ
label sctlr_el1 = sctlr_el1_name
label tcr_el1 = tcr_el1_name
label ttbr0_el1 = ttbr0_el1_name
label ttbr1_el1 = ttbr1_el1_name
label esr_el1 = esr_el1_name
label far_el1 = far_el1_name
label elr_el1 = elr_el1_name
label vbar_el1 = vbar_el1_name
label mpidr_el1 = mpidr_el1_name
label midr_el1 = midr_el1_name
label sctlr_el2 = sctlr_el2_name
label hcr_el2 = hcr_el2_name

abbrev encoded : Named → Encoding
encoded sctlr_el1 = record { op0 = 3; op1 = 0; crn = 1; crm = 0; op2 = 0 }
encoded tcr_el1 = record { op0 = 3; op1 = 0; crn = 2; crm = 0; op2 = 2 }
encoded ttbr0_el1 = record { op0 = 3; op1 = 0; crn = 2; crm = 0; op2 = 0 }
encoded ttbr1_el1 = record { op0 = 3; op1 = 0; crn = 2; crm = 0; op2 = 1 }
encoded esr_el1 = record { op0 = 3; op1 = 0; crn = 5; crm = 2; op2 = 0 }
encoded far_el1 = record { op0 = 3; op1 = 0; crn = 6; crm = 0; op2 = 0 }
encoded elr_el1 = record { op0 = 3; op1 = 0; crn = 4; crm = 0; op2 = 1 }
encoded vbar_el1 = record { op0 = 3; op1 = 0; crn = 12; crm = 0; op2 = 0 }
encoded mpidr_el1 = record { op0 = 3; op1 = 0; crn = 0; crm = 0; op2 = 5 }
encoded midr_el1 = record { op0 = 3; op1 = 0; crn = 0; crm = 0; op2 = 0 }
encoded sctlr_el2 = record { op0 = 3; op1 = 4; crn = 1; crm = 0; op2 = 0 }
encoded hcr_el2 = record { op0 = 3; op1 = 4; crn = 1; crm = 1; op2 = 0 }

abbrev all_named : List Named
all_named =
    sctlr_el1 ∷ tcr_el1 ∷ ttbr0_el1 ∷ ttbr1_el1 ∷ esr_el1 ∷ far_el1 ∷ elr_el1 ∷ vbar_el1 ∷ mpidr_el1
    ∷ midr_el1 ∷ sctlr_el2 ∷ hcr_el2 ∷ []

abbrev search_named : Encoding → List Named → Option Named
search_named x [] = none
search_named x (n ∷ ns) = if same x (encoded n) then some n else search_named x ns

search_named-eq_some :
    (x : Encoding) (ns : List Named) (n : Named) → search_named x ns ≡ some n → x ≡ encoded n
search_named-eq_some x [] n e = cc
search_named-eq_some x (m ∷ ns) n e = elim (Bool-cases (same x (encoded m))) [
  | inl hit ↦ (same_iff x (encoded m)).0 hit ∙ ap encoded (ground arith)
  | inr miss ↦ search_named-eq_some x ns n (ground arith)
]

named_or_generic : Encoding → Option Named → List ℕ
named_or_generic x (some n) = label n
named_or_generic x none = generic_name x

name-search :
    (x : Encoding) → get_system_register_name x ≡ named_or_generic x (search_named x all_named)
unfolding get_system_register_name named_or_generic
name-search x = ground arith

label-inj : (m n : Named) → label m ≡ label n → m ≡ n
label-inj sctlr_el1 sctlr_el1 e = refl
label-inj tcr_el1 tcr_el1 e = refl
label-inj ttbr0_el1 ttbr0_el1 e = refl
label-inj ttbr1_el1 ttbr1_el1 e = refl
label-inj esr_el1 esr_el1 e = refl
label-inj far_el1 far_el1 e = refl
label-inj elr_el1 elr_el1 e = refl
label-inj vbar_el1 vbar_el1 e = refl
label-inj mpidr_el1 mpidr_el1 e = refl
label-inj midr_el1 midr_el1 e = refl
label-inj sctlr_el2 sctlr_el2 e = refl
label-inj hcr_el2 hcr_el2 e = refl
label-inj _ _ e = absurd (ground arith)

label-ne-generic : (n : Named) (x : Encoding) → x.op0 < 256 → label n ≢ generic_name x
unfolding generic_name decimal
label-ne-generic sctlr_el1 x h e = ground arith
label-ne-generic _ x h e = ground arith

get_system_register_name-inj :
    (x y : Encoding)
    → IsByteEncoding x
    → IsByteEncoding y
    → get_system_register_name x ≡ get_system_register_name y
    → x ≡ y
unfolding named_or_generic
get_system_register_name-inj x y hx hy e =
    let ex = name-search x in
    let ey = name-search y in
    elim (Option-cases (search_named x all_named)) [
      | inl gx ↦ elim (Option-cases (search_named y all_named)) [
        | inl gy ↦ generic_name-inj x y hx hy (ground arith)
        | inr (n, dy) ↦ absurd (label-ne-generic n x hx.op0_byte (ground arith))
      ]
      | inr (m, dx) ↦ elim (Option-cases (search_named y all_named)) [
        | inl gy ↦ absurd (label-ne-generic m y hy.op0_byte (ground arith))
        | inr (n, dy) ↦
            let one : m ≡ n = label-inj m n (ground arith) in
            search_named-eq_some x all_named m dx
            ∙ (ap encoded one ∙ sym (search_named-eq_some y all_named n dy))
      ]
    ]

-- `getSystemRegisterName` gives two encodings by bytes one name exactly if they are the same: the
-- names of the known registers and those made of the five numbers never clash.
pub get_system_register_name_iff :
    (x y : Encoding)
    → IsByteEncoding x
    → IsByteEncoding y
    → (get_system_register_name x ≡ get_system_register_name y) ↔ (x ≡ y)
get_system_register_name_iff x y hx hy =
    (get_system_register_name-inj x y hx hy, ap get_system_register_name)
