-- ===== src/Hosts/Lifecycle.antt =====
-- The `initialize` and `cleanup` of the three integrations. A call's result is an argument: `none`
-- for a negative descriptor, and a Boolean for the success of a call. The destructor is `cleanup`.
use acheron_arm.Base.{
  ℕ, ◌≡◌, Bool, true, false, not, ◌==◌, Option, none, some, List, [], ◌∷◌, ◌++◌, if◌then◌else◌,
  arith,
}

-- KVM: the descriptors that the object holds; `none` where one is negative.
pub record KvmFds : Type 0 where
  pub kvm_fd : Option ℕ
  pub vm_fd : Option ℕ
  pub vcpu_fd : Option ℕ

abbrev new_kvm_fds : KvmFds
new_kvm_fds = record { kvm_fd = none; vm_fd = none; vcpu_fd = none }

-- What the four system calls of `initialize` return, each if it is made, with the version that the
-- program is built for.
pub record KvmAnswers : Type 0 where
  pub device : Option ℕ
  pub api_version : ℕ
  pub kvm_api_version : ℕ
  pub vm : Option ℕ
  pub vcpu : Option ℕ

unfoldable pub kvm_initialize : KvmAnswers → KvmFds × Bool
kvm_initialize a =
    let opened = record new_kvm_fds { kvm_fd = a.device } in
    let created = record opened { vm_fd = a.vm } in
    let ready = record created { vcpu_fd = a.vcpu } in
    elim a.device [
      | none ↦ (opened, false)
      | some device ↦
          if not (a.api_version == a.kvm_api_version) then (opened, false) else elim a.vm [
            | none ↦ (created, false)
            | some vm ↦ elim a.vcpu [ none ↦ (ready, false) | some vcpu ↦ (ready, true) ]
          ]
    ]

abbrev close : Option ℕ → List ℕ
close none = []
close (some fd) = fd ∷ []

-- The descriptors closed, in order.
unfoldable pub kvm_cleanup : KvmFds → List ℕ
kvm_cleanup k = close k.vcpu_fd ++ (close k.vm_fd ++ close k.kvm_fd)

-- HVF and WHP: the resources of a virtual machine and its processor.
pub data Handle : Type 0 where
  machine processor : Handle

-- `vcpu` is what `hv_vcpu_create` leaves in the field that is null before it.
pub record HvfAnswers : Type 0 where
  pub vm_created : Bool
  pub vcpu_created : Bool
  pub vcpu : ℕ
  pub hv_vcpu_null : ℕ

-- The field `vcpu`, and the result.
pub hvf_initialize : HvfAnswers → ℕ × Bool
hvf_initialize a =
    if not a.vm_created
    then (a.hv_vcpu_null, false)
    else if not a.vcpu_created
    then (a.vcpu, false)
    else (a.vcpu, true)

-- The handles destroyed, in order.
pub hvf_cleanup : ℕ → ℕ → List Handle
hvf_cleanup hv_vcpu_null vcpu =
    (if not (vcpu == hv_vcpu_null) then processor ∷ [] else []) ++ (machine ∷ [])

-- The fields that `WHvCreatePartition` and `WHvCreateProcessor` leave, null before them; `true` for
-- a handle that is not null. The result of `WHvSetPartitionProperty` is not looked at.
pub record WhpAnswers : Type 0 where
  pub present : Bool
  pub partition_created : Bool
  pub partition : Bool
  pub processor_created : Bool
  pub processor_handle : Bool

pub record WhpHandles : Type 0 where
  pub has_partition : Bool
  pub has_processor : Bool

unfoldable pub whp_initialize : WhpAnswers → WhpHandles × Bool
whp_initialize a =
    if not a.present
    then (record { has_partition = false; has_processor = false }, false)
    else if not a.partition_created
    then (record { has_partition = a.partition; has_processor = false }, false)
    else (
      record { has_partition = a.partition; has_processor = a.processor_handle },
      if not a.processor_created then false else true,
    )

-- The handles destroyed, in order.
unfoldable pub whp_cleanup : WhpHandles → List Handle
whp_cleanup h =
    (if h.has_processor then processor ∷ [] else [])
    ++ (if h.has_partition then machine ∷ [] else [])

-- The descriptors that the system calls give, last one first.
pub obtained : KvmAnswers → List ℕ
obtained a =
    let matching = a.api_version == a.kvm_api_version in
    elim a.device [
      | none ↦ []
      | some device ↦
          (if matching then elim a.vm [ none ↦ [] | some vm ↦ close a.vcpu ++ (vm ∷ []) ] else [])
          ++ (device ∷ [])
    ]

pub is_whole : List ℕ → Bool
is_whole (a ∷ b ∷ c ∷ []) = true
is_whole _ = false

-- KVM: whichever call fails, the cleanup closes exactly the descriptors that the calls gave, the
-- last one first, each once. The initialisation succeeds exactly if they are three.
pub kvm_lifecycle :
    (a : KvmAnswers)
    → (kvm_cleanup (kvm_initialize a).0 ≡ obtained a)
      × ((kvm_initialize a).1 ≡ is_whole (obtained a))
unfolding kvm_cleanup kvm_initialize obtained is_whole
kvm_lifecycle a = (ground arith, ground arith)

-- HVF: let a successful `hv_vcpu_create` leave a handle that is not null, and a failed one leave it
-- null. Then the cleanup destroys the virtual CPU exactly if `initialize` succeeds, and the virtual
-- machine always, also one that was not created.
pub hvf_lifecycle :
    (a : HvfAnswers)
    → a.vcpu_created ≡ not (a.vcpu == a.hv_vcpu_null)
    → hvf_cleanup a.hv_vcpu_null (hvf_initialize a).0
      ≡ (if (hvf_initialize a).1 then processor ∷ machine ∷ [] else machine ∷ [])
unfolding hvf_cleanup hvf_initialize
hvf_lifecycle a h = ground arith
