-- ===== src/Mmu/Tlb.antt =====
-- The TLB, a `std::unordered_map<uint64_t, TLBEntry>`, as a list of entries with distinct keys.
-- The order of the list is the order of iteration, which C++ leaves open: what a new key's place
-- and `begin()` are is a parameter of the operations that depend on it.
use acheron_arm.Base.{
  ℕ, zero, suc, ◌+◌, ◌≤◌, ◌<◌, ◌≡◌, refl, ◌&&◌, ◌||◌, ◌==◌, ◌↔◌, false, Option, none, some, List,
  [], ◌∷◌, if◌then◌else◌, length, arith, bit_and, bit_or, not64, ◌<<<◌,
}
use Prim.Native.Nat.{max}
use acheron_arm.Mmu.Types.{TlbEntry}

abbrev pub Tlb : Type 0
Tlb = List (ℕ × TlbEntry)

-- `tlb_.find(key)`
unfoldable pub find : ℕ → Tlb → Option TlbEntry
find key [] = none
find key ((k, e) ∷ t) = if k == key then some e else find key t

-- `tlb_.erase(key)`
unfoldable pub erase : ℕ → Tlb → Tlb
erase key [] = []
erase key ((k, e) ∷ t) = if k == key then t else (k, e) ∷ erase key t

-- `tlb_.erase(it)` for the iterator at a position
unfoldable pub erase_at : ℕ → Tlb → Tlb
erase_at i [] = []
erase_at zero (p ∷ t) = t
erase_at (suc i) (p ∷ t) = p ∷ erase_at i t

-- `tlb_[key] = entry`
unfoldable pub insert : ℕ → TlbEntry → Tlb → Tlb
insert key entry [] = (key, entry) ∷ []
insert key entry ((k, e) ∷ t) = if k == key then (key, entry) ∷ t else (k, e) ∷ insert key entry t

-- `TLB_SIZE`
abbrev pub tlb_size : ℕ
tlb_size = 1024

-- `(va & ~0xFFFULL) | (static_cast<uint64_t>(asid) << 48)`
unfoldable pub tlb_key : ℕ → ℕ → ℕ
tlb_key va asid = bit_or (bit_and va (not64 0xFFF)) (asid <<< 48)

-- No key stands twice.
unfoldable pub key_count : ℕ → Tlb → ℕ
key_count key [] = 0
key_count key ((k, e) ∷ t) = if k == key then suc (key_count key t) else key_count key t

abbrev pub HasDistinctKeys : Tlb → Type 0
HasDistinctKeys t = (key : ℕ) → key_count key t ≤ 1

pub find-eq-none : (key : ℕ) (t : Tlb) → key_count key t ≡ 0 → find key t ≡ none
unfolding key_count find
find-eq-none key [] h = refl
find-eq-none key ((k, e) ∷ t) h = ground (arith, find-eq-none key t)

pub find-insert :
    (key j : ℕ) (entry : TlbEntry) (t : Tlb)
    → find j (insert key entry t) ≡ (if key == j then some entry else find j t)
unfolding find insert
find-insert key j entry [] = refl
find-insert key j entry ((k, e) ∷ t) = ground (arith, find-insert key j entry t)

pub key_count-insert :
    (key j : ℕ) (entry : TlbEntry) (t : Tlb)
    → key_count j (insert key entry t) ≡ (if key == j then max 1 (key_count j t) else key_count j t)
unfolding key_count insert
key_count-insert key j entry [] = ground arith
key_count-insert key j entry ((k, e) ∷ t) = ground (arith, key_count-insert key j entry t)

pub length-insert :
    (key : ℕ) (entry : TlbEntry) (t : Tlb) → length (insert key entry t) ≤ length t + 1
unfolding insert
length-insert key entry [] = omega arith
length-insert key entry ((k, e) ∷ t) = ground (arith, length-insert key entry t)

pub find-erase :
    (key j : ℕ) (t : Tlb)
    → key_count j t ≤ 1
    → find j (erase key t) ≡ (if key == j then none else find j t)
unfolding find erase key_count
find-erase key j [] h = ground arith
find-erase key j ((k, e) ∷ t) h = ground (arith, find-erase key j t, find-eq-none j t)

pub key_count-erase-le : (key j : ℕ) (t : Tlb) → key_count j (erase key t) ≤ key_count j t
unfolding erase key_count
key_count-erase-le key j [] = omega arith
key_count-erase-le key j ((k, e) ∷ t) = ground (arith, key_count-erase-le key j t)

pub length-erase-le : (key : ℕ) (t : Tlb) → length (erase key t) ≤ length t
unfolding erase
length-erase-le key [] = omega arith
length-erase-le key ((k, e) ∷ t) = ground (arith, length-erase-le key t)

pub key_count-erase_at-le : (i j : ℕ) (t : Tlb) → key_count j (erase_at i t) ≤ key_count j t
unfolding erase_at key_count
key_count-erase_at-le i j [] = omega arith
key_count-erase_at-le zero j ((k, e) ∷ t) = ground arith
key_count-erase_at-le (suc i) j ((k, e) ∷ t) = ground (arith, key_count-erase_at-le i j t)

pub length-erase_at : (i : ℕ) (t : Tlb) → i < length t → length (erase_at i t) + 1 ≡ length t
unfolding erase_at
length-erase_at i [] h = absurd (omega arith)
length-erase_at zero (p ∷ t) h = omega arith
length-erase_at (suc i) (p ∷ t) h = omega (arith, length-erase_at i t)

-- What is found after an eviction was there before it.
pub find-erase_at :
    (i j : ℕ) (t : Tlb) (e : TlbEntry)
    → key_count j t ≤ 1
    → find j (erase_at i t) ≡ some e
    → find j t ≡ some e
unfolding find erase_at key_count
find-erase_at i j [] f h e = e
find-erase_at zero j ((k, e) ∷ t) f h g = ground (arith, find-eq-none j t)
find-erase_at (suc i) j ((k, e) ∷ t) f h g = ground (arith, find-erase_at i j t f)

-- The loop of `tlb_invalidate_asid`, which erases through the iterator.
unfoldable pub drop_asid : ℕ → Tlb → Tlb
drop_asid asid [] = []
drop_asid asid ((k, e) ∷ t) =
    if (e.asid == asid || asid == 0xFFFF) && e.valid
    then drop_asid asid t
    else (k, e) ∷ drop_asid asid t

pub length-drop_asid-le : (asid : ℕ) (t : Tlb) → length (drop_asid asid t) ≤ length t
unfolding drop_asid
length-drop_asid-le asid [] = omega arith
length-drop_asid-le asid ((k, e) ∷ t) = ground (arith, length-drop_asid-le asid t)

pub key_count-drop_asid-le : (asid j : ℕ) (t : Tlb) → key_count j (drop_asid asid t) ≤ key_count j t
unfolding drop_asid key_count
key_count-drop_asid-le asid j [] = omega arith
key_count-drop_asid-le asid j ((k, e) ∷ t) = ground (arith, key_count-drop_asid-le asid j t)

-- An entry survives the loop exactly when it is not valid, or has another ASID and the argument is
-- not 0xFFFF.
pub find-drop_asid :
    (asid j : ℕ) (t : Tlb) (e : TlbEntry)
    → key_count j t ≤ 1
    → (find j (drop_asid asid t) ≡ some e)
      ↔ ((find j t ≡ some e) × (((e.asid == asid || asid == 0xFFFF) && e.valid) ≡ false))
unfolding find drop_asid key_count
find-drop_asid asid j [] f h = ground arith
find-drop_asid asid j ((k, e) ∷ t) f h = ground (arith, find-drop_asid asid j t f, find-eq-none j t)
