-- ===== src/Emulator/Exceptions.antt =====
-- Exception entry and return.
use acheron_arm.Base.{ℕ, ◌≡◌, refl, List, [], ◌∷◌}
use acheron_arm.Registers.{SystemRegisterState}
use acheron_arm.Emulator.{handle_exception_entry, handle_exception_return}
use acheron_arm.Emulator.RegisterFile.{Reg, sctlr, esr, far, elr, view}

-- The arguments of one `handleExceptionEntry`.
pub record Entry : Type 0 where
  pub current_pc : ℕ
  pub esr_value : ℕ
  pub far_value : ℕ

-- Entries with no return between them.
pub enter_all : SystemRegisterState → List Entry → SystemRegisterState
enter_all s [] = s
enter_all s (e ∷ es) = enter_all (handle_exception_entry s e.current_pc e.esr_value e.far_value) es

pub last_pc : ℕ → List Entry → ℕ
last_pc pc [] = pc
last_pc pc (e ∷ es) = last_pc e.current_pc es

-- The registers after an entry: the three that record the exception, and the rest as before.
pub entered : SystemRegisterState → Entry → Reg → ℕ
entered s e elr = e.current_pc
entered s e esr = e.esr_value
entered s e far = e.far_value
entered s e r = view s r

-- An exception entry records PC, syndrome and fault address in ELR_EL1, ESR_EL1 and FAR_EL1, and
-- keeps the other seven registers, VBAR_EL1 among them.
pub view-entry :
    (s : SystemRegisterState) (e : Entry) (r : Reg)
    → view (handle_exception_entry s e.current_pc e.esr_value e.far_value) r ≡ entered s e r
unfolding handle_exception_entry entered
view-entry s e sctlr = refl
view-entry s e _ = refl

-- A return after any number of entries gives the PC of the last of them, so that of an outer
-- exception is lost under a nested one; with no entry it gives what ELR_EL1 held.
pub return-enter_all :
    (s : SystemRegisterState) (es : List Entry)
    → handle_exception_return (enter_all s es) ≡ last_pc s.elr_el1 es
unfolding handle_exception_entry handle_exception_return enter_all last_pc
return-enter_all s [] = refl
return-enter_all s (e ∷ es) =
    return-enter_all (handle_exception_entry s e.current_pc e.esr_value e.far_value) es
