-- ===== src/RMemory/Zeroed.antt =====
-- r_mem_calloc of src/memory.cpp when the debugger answers and there is memory.
use ruminate.Base.{
  ℕ, zero, suc, ◌+◌, ◌*◌, ◌%◌, ◌^◌, ◌≤◌, ◌<◌, ◌≡◌, refl, ◌∙◌, inl, inr, false, none, List, ◌∷◌,
  arith, ◌==◌, Bool-cases, Bool, leb, ltb, ◌&&◌, if◌then◌else◌,
}
use ruminate.Backend.{TypeId, Backend}
use ruminate.RType.New.{pointee-new_object}
use ruminate.RMemory.{
  clear, r_mem_calloc_sized_fn, of_pointee, r_mem_calloc_sized, of_type, r_mem_calloc, with_arp,
  with_heap,
}
use ruminate.RMemory.Fresh.{Serves, made, new_block, got_type, sized_fn}
use ruminate.Words.{Outside}
use ruminate.World.{Addr, Memory, Block, World, done, put, take_type}

abbrev zeroed : ℕ → Addr → Memory → Memory
zeroed zero a m = m
zeroed (suc n) a m = zeroed n (a + 1) (put a 0 m)

clear-zeroed :
    (n : ℕ) (a : Addr) (w : World)
    → clear n a w ≡ done tt none (record w { memory = zeroed n a w.memory })
unfolding clear
clear-zeroed zero a w = refl
clear-zeroed (suc n) a w = rw (clear-zeroed n (a + 1) (record w { memory = put a 0 w.memory })) refl

zeroed-Outside : (n : ℕ) (a x : Addr) (m : Memory) → Outside n a x → zeroed n a m x ≡ m x
zeroed-Outside zero a x m h = refl
zeroed-Outside (suc n) a x m h = elim h [
  | inl l ↦
      let other : (x == a) ≡ false = ground arith in
      zeroed-Outside n (a + 1) x (put a 0 m) (inl (omega arith)) ∙ rw other refl
  | inr r ↦
      let other : (x == a) ≡ false = ground arith in
      zeroed-Outside n (a + 1) x (put a 0 m) (inr (omega arith)) ∙ rw other refl
]

zeroed-inside : (n : ℕ) (a x : Addr) (m : Memory) → a ≤ x → x < a + n → zeroed n a m x ≡ 0
zeroed-inside zero a x m low high = absurd (omega arith)
zeroed-inside (suc n) a x m low high = elim (Bool-cases (x == a)) [
  | inl same ↦
      let is : x ≡ a = ground arith in
      zeroed-Outside n (a + 1) x (put a 0 m) (inl (omega (arith, is))) ∙ rw same refl
  | inr other ↦
      let above : a + 1 ≤ x = ground arith in
      zeroed-inside n (a + 1) x (put a 0 m) above (omega arith)
]

outside : (n : ℕ) (a x : Addr) → (leb a x && ltb x (a + n)) ≡ false → Outside n a x
outside n a x h = elim (Bool-cases (leb a x)) [
  | inl low ↦ inr (ground arith)
  | inr below ↦ inl (ground arith)
]

zeroed-within :
    (n : ℕ) (a x : Addr) (m : Memory)
    → zeroed n a m x ≡ (if leb a x && ltb x (a + n) then 0 else m x)
zeroed-within n a x m = elim (Bool-cases (leb a x && ltb x (a + n))) [
  | inl y ↦ rw y (zeroed-inside n a x m (ground arith) (ground arith))
  | inr o ↦ rw o (zeroed-Outside n a x m (outside n a x o))
]

module _ (B : Backend) (tid : ℕ) (malloc : List Block → ℕ → Addr) (t : TypeId) (size nmemb : ℕ)
    (w : World) where
  -- The number of bytes as a size_t.
  abbrev pub real_size : ℕ
  real_size = size * nmemb % 2 ^ 64

  abbrev pub within : Addr → Addr → Bool
  within a x = leb a x && ltb x (a + real_size)

  -- Where the debugger answers for the C type, whose size is at most the product of the two numbers
  -- modulo 2 ^ 64, and there is memory for so many bytes, which do not wrap around with the size of
  -- an RMemory: r_mem_calloc gives a block of that many bytes, made as r_mem_malloc makes one, in
  -- which every byte is zero; a byte outside it is as it was.
  pub r_mem_calloc-zeroed :
      (s : Serves B tid malloc t real_size w) (x : Addr)
      → (v : World) × (r_mem_calloc malloc B tid t size nmemb w
          ≡ done (malloc w.heap real_size) none v)
        × (v ≡ record (made B tid malloc t real_size w s) { memory = v.memory })
        × (v.memory x ≡ (if within (malloc w.heap real_size) x then 0 else w.memory x))
  unfolding r_mem_calloc of_type r_mem_calloc_sized of_pointee r_mem_calloc_sized_fn
  r_mem_calloc-zeroed s x = (
    record (made B tid malloc t real_size w s) {
      memory = zeroed real_size (malloc w.heap real_size) w.memory;
    },
    rw (got_type B tid malloc t real_size w s) (
        rw (pointee-new_object B s.pointer s.type 1 none t TypeId.pointer s.pointee s.is_type) (
          rw (sized_fn B tid malloc t real_size w s (take_type (take_type (with_arp 0 w))) refl) (
            rw s.not_null (
              rw
                (clear-zeroed real_size (malloc w.heap real_size) (
                  take_type (
                    with_heap (new_block B tid malloc t real_size w s ∷ w.heap)
                      (take_type (take_type (with_arp 0 w))))))
                (rw s.not_null refl))))),
    refl,
    zeroed-within real_size (malloc w.heap real_size) x w.memory,
  )
