-- ===== src/Emulator/Machine.antt =====
-- The emulator with the general-purpose registers of its host, as one machine, against two register
-- files.
use acheron_arm.Base.{
  ℕ, ◌≡◌, refl, ap, ◌∙◌, inl, inr, Bool, true, false, ◌&&◌, ◌==◌, Option, none, some, List, [], ◌∷◌,
  arith, if◌then◌else◌, Bool-cases,
}
use mathlib.Core.Option
use acheron_arm.Registers.{SystemRegisterState}
use acheron_arm.Instruction.{SystemInstruction}
use acheron_arm.Emulator.{
  Encoding, is_mrs_reg, encoding_of, read_system_register, write_system_register, emulate_msr,
  emulate_mrs, handle_exception_entry, handle_exception_return,
}
use acheron_arm.Emulator.RegisterFile.{
  Reg, sctlr, esr, far, elr, encode, view, is_writable, same, reg_of, read-view, write-view,
}
use acheron_arm.Emulator.Moves.{
  operand, is_msr, source_value, emulate_msr-view, emulate_mrs-source_value,
}

-- The two callbacks of a host, with the law of a register file.
pub record Callbacks (G : Type 0) : Type 0 where
  pub get_reg_value : G → ℕ → ℕ
  pub set_reg_value : ℕ → ℕ → G → G
  pub get-set :
      (r v : ℕ) (g : G) (i : ℕ)
      → get_reg_value (set_reg_value r v g) i ≡ (if i == r then v else get_reg_value g i)

-- The public methods of `SystemRegisterEmulator`, with their arguments.
pub data Operation : Type 0 where
  msr mrs : SystemInstruction → Operation
  enters : ℕ → ℕ → ℕ → Operation
  leaves : Operation
  reads : Encoding → Operation
  writes : Encoding → ℕ → Operation

pub data Answer : Type 0 where
  nothing : Answer
  succeeded : Bool → Answer
  address : ℕ → Answer
  value : Option ℕ → Answer

-- Two register files, and what the operations mean for them.
pub record Files : Type 0 where
  pub system : Reg → ℕ
  pub general : ℕ → ℕ

-- A register keeps its value unless it is writable and the encoding is its own.
abbrev assign : Encoding → ℕ → (Reg → ℕ) → Reg → ℕ
assign x v f r = if is_writable r && same x (encode r) then v else f r

abbrev record_exception : ℕ → ℕ → ℕ → (Reg → ℕ) → Reg → ℕ
record_exception pc syndrome fault f elr = pc
record_exception pc syndrome fault f esr = syndrome
record_exception pc syndrome fault f far = fault
record_exception pc syndrome fault f r = f r

abbrev or_zero : Option ℕ → ℕ
or_zero none = 0
or_zero (some v) = v

unfoldable pub ideal : Files → Operation → Files × Answer
ideal f (msr i) =
    if is_msr i.type
    then (
      record f { system = assign (encoding_of i) (operand f.general i) f.system },
      succeeded true,
    )
    else (f, succeeded false)
ideal f (mrs i) =
    let moved = or_zero (Option.map f.system (reg_of (encoding_of i))) in
    if is_mrs_reg i.type
    then (record f { general = λ n. if n == i.rt then moved else f.general n }, succeeded true)
    else (f, succeeded false)
ideal f (enters pc syndrome fault) =
    (record f { system = record_exception pc syndrome fault f.system }, nothing)
ideal f leaves = (f, address (f.system elr))
ideal f (reads x) = (f, value (Option.map f.system (reg_of x)))
ideal f (writes x v) = (record f { system = assign x v f.system }, succeeded true)

unfoldable pub ideal_run : Files → List Operation → Files × List Answer
ideal_run f [] = (f, [])
ideal_run f (o ∷ os) =
    let first = ideal f o in let rest = ideal_run first.0 os in (rest.0, first.1 ∷ rest.1)

abbrev outcome : (Reg → ℕ) → (ℕ → ℕ) → Answer → Files × Answer
outcome f g a = (record { system = f; general = g }, a)

files_path :
    (f f' : Reg → ℕ) (g g' : ℕ → ℕ) (a a' : Answer)
    → ((r : Reg) → f r ≡ f' r)
    → ((n : ℕ) → g n ≡ g' n)
    → a ≡ a'
    → outcome f g a ≡ outcome f' g' a'
files_path f f' g g' a a' p q e = λ j. outcome (λ r. p r j) (λ n. q n j) (e j)

enters-view :
    (s : SystemRegisterState) (pc syndrome fault : ℕ) (r : Reg)
    → view (handle_exception_entry s pc syndrome fault) r
      ≡ record_exception pc syndrome fault (view s) r
unfolding handle_exception_entry
enters-view s pc syndrome fault sctlr = refl
enters-view s pc syndrome fault _ = refl

module _ {G : Type 0} (host : Callbacks G) where
  -- The methods, on the state of the emulator and the host's registers.
  unfoldable pub perform : SystemRegisterState × G → Operation → (SystemRegisterState × G) × Answer
  perform (s, g) (msr i) =
      let moved = emulate_msr (host.get_reg_value g) s i in ((moved.0, g), succeeded moved.1)
  perform (s, g) (mrs i) =
      let moved = emulate_mrs host.set_reg_value s i g in ((s, moved.0), succeeded moved.1)
  perform (s, g) (enters pc syndrome fault) =
      ((handle_exception_entry s pc syndrome fault, g), nothing)
  perform (s, g) leaves = ((s, g), address (handle_exception_return s))
  perform (s, g) (reads x) = ((s, g), value (read_system_register s x))
  perform (s, g) (writes x v) =
      let written = write_system_register s x v in ((written.0, g), succeeded written.1)

  pub perform_all :
      SystemRegisterState × G → List Operation → (SystemRegisterState × G) × List Answer
  perform_all st [] = (st, [])
  perform_all st (o ∷ os) =
      let first = perform st o in let rest = perform_all first.0 os in (rest.0, first.1 ∷ rest.1)

  -- The two register files of a state.
  abbrev pub files_of : SystemRegisterState × G → Files
  files_of (s, g) = record { system = view s; general = host.get_reg_value g }

  -- A method's answer, and the files that it leaves, are the ideal ones.
  pub perform-ideal :
      (st : SystemRegisterState × G) (o : Operation)
      → (files_of (perform st o).0, (perform st o).1) ≡ ideal (files_of st) o
  unfolding perform ideal handle_exception_return
  perform-ideal (s, g) (msr i) =
      let (same_flag, after) = emulate_msr-view (host.get_reg_value g) s i in
      elim (Bool-cases (is_msr i.type)) [
        | inl moves ↦
            rw moves
              (files_path _ _ _ _ _ _ (λ r. ground (arith, after r)) (λ n. refl) (ground arith))
        | inr other ↦
            rw other
              (files_path _ _ _ _ _ _ (λ r. ground (arith, after r)) (λ n. refl) (ground arith))
      ]
  perform-ideal (s, g) (mrs i) =
      let after = emulate_mrs-source_value host.set_reg_value s i g in
      let moved : source_value s i ≡ or_zero (Option.map (view s) (reg_of (encoding_of i))) =
        ground arith in
      elim (Bool-cases (is_mrs_reg i.type)) [
        | inl moves ↦ rw moves (
            files_path _ _ _ _ _ _ (λ r. refl)
              (λ n. ground (arith, after, host.get-set i.rt (source_value s i) g n))
              (ground (arith, after)))
        | inr other ↦ rw other (
            files_path _ _ _ _ _ _ (λ r. refl) (λ n. ground (arith, after)) (ground (arith, after)))
      ]
  perform-ideal (s, g) (enters pc syndrome fault) =
      files_path _ _ _ _ _ _ (enters-view s pc syndrome fault) (λ n. refl) refl
  perform-ideal (s, g) leaves = refl
  perform-ideal (s, g) (reads x) = ap (λ v. (files_of (s, g), value v)) (read-view s x)
  perform-ideal (s, g) (writes x v) =
      let (flag, after) = write-view s x v in
      files_path _ _ _ _ _ _ after (λ n. refl) (ap succeeded flag)

  -- The emulator refines two register files. Let the callbacks be those of a register file. Then
  -- any calls of the public methods give the answers, and leave the ten system registers and the
  -- general-purpose registers, that the files give: an MSR assigns to the register that its fields
  -- name if it is writable, an MRS moves the register that they name, or 0.
  pub perform_all-ideal_run :
      (st : SystemRegisterState × G) (os : List Operation)
      → (files_of (perform_all st os).0, (perform_all st os).1) ≡ ideal_run (files_of st) os
  unfolding perform_all ideal_run
  perform_all-ideal_run st [] = refl
  perform_all-ideal_run st (o ∷ os) =
      let next = (perform st o).0 in
      ap (λ (w : Files × List Answer). (w.0, (perform st o).1 ∷ w.1))
        (perform_all-ideal_run next os)
      ∙ ap (λ (x : Files × Answer). let rest = ideal_run x.0 os in (rest.0, x.1 ∷ rest.1))
          (perform-ideal st o)
