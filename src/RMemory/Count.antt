-- ===== src/RMemory/Count.antt =====
-- The references of a block of src/memory.cpp.
use ruminate.Base.{
  ℕ, ◌+◌, ◌-◌, ◌^◌, ◌<◌, ltb, ◌≡◌, refl, sym, ap, true, false, none, some, List, [], ◌∷◌, arith,
  ◌==◌, Bool-cases, inl, inr, if◌then◌else◌,
}
use mathlib.Core.Path.{subst}
use ruminate.Glib.{Glib}
use ruminate.RType.{RType}
use ruminate.RMemory.{
  has_room, with_heap, find_block, replace_block, remove_block, r_mem_ref, release_block,
  r_mem_unref, r_memory_new,
}
use ruminate.World.{Addr, Block, World, done, segfault, take_type}

pub find-new : (b : Block) (h : List Block) → find_block (b ∷ h) b.data_address ≡ some b
find-new b h = ground arith

pub remove-new : (b : Block) (h : List Block) → remove_block (b ∷ h) b.data_address ≡ h
remove-new b h = ground arith

==_refl : (a : ℕ) → (a == a) ≡ true
==_refl a = ground arith

-- A block that is found is the first one, or is found behind it.
found-here :
    (c b : Block) (h : List Block)
    → (c.data_address == b.data_address) ≡ true
    → find_block (c ∷ h) b.data_address ≡ some b
    → c ≡ b
found-here c b h y found =
    let same : some c ≡ some b =
      subst (λ x. (if x then some c else find_block h b.data_address) ≡ some b) y found in
    cc

found-there :
    (c b : Block) (h : List Block)
    → (c.data_address == b.data_address) ≡ false
    → find_block (c ∷ h) b.data_address ≡ some b
    → find_block h b.data_address ≡ some b
found-there c b h n found =
    subst (λ x. (if x then some c else find_block h b.data_address) ≡ some b) n found

find-replace :
    (h : List Block) (b : Block) (n : ℕ)
    → find_block h b.data_address ≡ some b
    → find_block (replace_block h (record b { refcnt = n })) b.data_address
      ≡ some (record b { refcnt = n })
find-replace [] b n found = cc
find-replace (c ∷ h) b n found = elim (Bool-cases (c.data_address == b.data_address)) [
  | inl y ↦ rw y (find-new (record b { refcnt = n }) h)
  | inr ne ↦ rw ne (rw ne (find-replace h b n (found-there c b h ne found)))
]

replace-back :
    (h : List Block) (b : Block) (n : ℕ)
    → find_block h b.data_address ≡ some b
    → replace_block (replace_block h (record b { refcnt = n })) b ≡ h
replace-back [] b n found = refl
replace-back (c ∷ h) b n found = elim (Bool-cases (c.data_address == b.data_address)) [
  | inl y ↦ rw y (rw (==_refl b.data_address) (ap (λ d. d ∷ h) (sym (found-here c b h y found))))
  | inr ne ↦ rw ne (rw ne (ap (λ u. c ∷ u) (replace-back h b n (found-there c b h ne found))))
]

has_room-ltb : (size : ℕ) → size < 2 ^ 64 → has_room size ≡ ltb size (2 ^ 64 - 24)
has_room-ltb size is_size = ground arith

module _ (G : Glib) (malloc : List Block → ℕ → Addr) where
  -- A new block of fewer than 2 ^ 64 - 24 bytes has one reference: giving that back frees the block
  -- and the reference to the type that it took, and leaves all as it was before. For any more bytes
  -- that a size_t can say, the sum with the size of an RMemory wraps around, and r_memory_new
  -- writes to memory that is not there.
  pub r_mem_unref-r_memory_new :
      (rt : RType) (size : ℕ) (w : World)
      → size < 2 ^ 64
      → (v : World) × (r_memory_new malloc rt size w
          ≡ (if ltb size (2 ^ 64 - 24) then done (malloc w.heap size) none v else segfault))
        × (r_mem_unref G (malloc w.heap size) v ≡ done tt none w)
  unfolding r_memory_new r_mem_unref release_block
  r_mem_unref-r_memory_new rt size w is_size =
      let a = malloc w.heap size in
      let b : Block = record { data_address = a; type = rt; refcnt = 1; size = size } in
      let v = take_type (with_heap (b ∷ w.heap) w) in
      (
        v,
        ap (λ c. if c then done a none v else segfault) (has_room-ltb size is_size),
        rw (find-new b w.heap)
            (rw (G.dec_subtracts 1 (omega arith) (omega arith)) (rw (remove-new b w.heap) refl)),
      )

module _ (G : Glib) where
  abbrev pub only_reference : Addr → RType → ℕ → Block
  only_reference a rt size = record { data_address = a; type = rt; refcnt = 1; size = size }

  -- A block with one reference is freed.
  pub r_mem_unref-only :
      (a : Addr) (rt : RType) (size : ℕ) (h : List Block) (w : World)
      → r_mem_unref G a (take_type (with_heap (only_reference a rt size ∷ h) w))
        ≡ done tt none (with_heap h w)
  unfolding r_mem_unref release_block
  r_mem_unref-only a rt size h w =
      let b = only_reference a rt size in
      rw (find-new b h)
        (rw (G.dec_subtracts 1 (omega arith) (omega arith)) (rw (remove-new b h) refl))

module _ (G : Glib) where
  -- A reference that is taken to a block and given back leaves all as it was, where there are fewer
  -- than 2 ^ 31 - 1 references and one at least.
  pub r_mem_unref-r_mem_ref :
      (b : Block) (w : World)
      → find_block w.heap b.data_address ≡ some b
      → 0 < b.refcnt
      → b.refcnt + 1 < 2 ^ 31
      → (v : World) × (r_mem_ref G b.data_address w ≡ done b.data_address none v)
        × (r_mem_unref G b.data_address v ≡ done tt none w)
  unfolding r_mem_unref r_mem_ref release_block
  r_mem_unref-r_mem_ref b w found pos less =
      let more = replace_block w.heap (record b { refcnt = b.refcnt + 1 }) in
      let left : b.refcnt + 1 - 1 ≡ b.refcnt = omega arith in
      let kept : (b.refcnt == 0) ≡ false = ground arith in
      (
        with_heap more w,
        rw found (rw (G.inc_adds b.refcnt less) refl),
        rw (find-replace w.heap b (b.refcnt + 1) found) (
            rw (G.dec_subtracts (b.refcnt + 1) (omega arith) less) (
              rw left (
                rw kept (
                  ap (λ h. done tt none (with_heap h w))
                    (replace-back w.heap b (b.refcnt + 1) found))))),
      )
