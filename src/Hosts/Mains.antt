-- ===== src/Hosts/Mains.antt =====
-- The `main` of the three integrations, up to its exit: `initialize`, and the destructor, which runs
-- on both ways out. A result is the exit code with what the cleanup closes or destroys, in order.
use acheron_arm.Base.{ℕ, ◌≡◌, ◌⊎◌, ◌&&◌, Bool, not, ◌==◌, List, [], ◌∷◌, if◌then◌else◌, arith}
use acheron_arm.Hosts.Lifecycle.{
  KvmAnswers, kvm_initialize, kvm_cleanup, obtained, is_whole, kvm_lifecycle, Handle, machine,
  processor, HvfAnswers, hvf_initialize, hvf_cleanup, hvf_lifecycle, WhpAnswers, whp_initialize,
  whp_cleanup,
}

abbrev exit_code : Bool → ℕ
exit_code initialized = if not initialized then 1 else 0

unfoldable pub kvm_main : KvmAnswers → ℕ × List ℕ
kvm_main a = let r = kvm_initialize a in (exit_code r.1, kvm_cleanup r.0)

pub hvf_main : HvfAnswers → ℕ × List Handle
hvf_main a = let r = hvf_initialize a in (exit_code r.1, hvf_cleanup a.hv_vcpu_null r.0)

pub whp_main : WhpAnswers → ℕ × List Handle
whp_main a = let r = whp_initialize a in (exit_code r.1, whp_cleanup r.0)

-- KVM: whichever system call fails, the program leaks no descriptor. It closes those that the calls
-- gave, the last one first, each once, and exits with 0 exactly if they are three.
pub kvm_main_lem :
    (a : KvmAnswers) → kvm_main a ≡ (if is_whole (obtained a) then 0 else 1, obtained a)
unfolding kvm_main
kvm_main_lem a = ground (arith, kvm_lifecycle a)

-- HVF: let a successful `hv_vcpu_create` leave a handle that is not null, and a failed one leave it
-- null. Then the program exits with 0 exactly if it destroys a virtual CPU, and it destroys the
-- virtual machine whatever happened, also one that was not created.
pub hvf_main_lem :
    (a : HvfAnswers)
    → a.vcpu_created ≡ not (a.vcpu == a.hv_vcpu_null)
    → (hvf_main a ≡ (0, processor ∷ machine ∷ [])) ⊎ (hvf_main a ≡ (1, machine ∷ []))
unfolding hvf_main
hvf_main_lem a h = ground (arith, hvf_lifecycle a h)

-- WHP: let each create call that succeeds leave a handle that is not null, and one that fails leave
-- it null. Then the program exits with 0 exactly if it destroys a processor and then a partition,
-- and it destroys exactly what it created.
pub whp_main_lem :
    (a : WhpAnswers)
    → a.partition ≡ a.partition_created
    → a.processor_handle ≡ a.processor_created
    → whp_main a ≡ (
        if a.present && a.partition_created
        then (if a.processor_created then (0, processor ∷ machine ∷ []) else (1, machine ∷ []))
        else (1, []))
unfolding whp_main whp_initialize whp_cleanup
whp_main_lem a p q = ground arith
