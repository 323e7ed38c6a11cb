-- ===== src/RMemory/Typed.antt =====
-- r_mem_malloc_fn of src/memory.cpp for an object that has not told its size before.
use ruminate.Base.{ℕ, ◌≡◌, refl, true, Option, none, some, List, ◌∷◌, arith, leb}
use ruminate.Base.Int.{ℤ, to_unsigned}
use ruminate.Errors.{returned, ok}
use ruminate.Backend.{TypePrx, TypeId, Backend}
use ruminate.RString.{RString}
use ruminate.RType.{RType}
use ruminate.RType.New.{new_object}
use ruminate.RType.Query.{r_type_size}
use ruminate.RMemory.{has_room, with_heap, r_memory_new, r_mem_malloc_sized_fn, r_mem_malloc_fn}
use ruminate.World.{Addr, Block, World, done, take_type}

leb_refl : (n : ℕ) → leb n n ≡ true
leb_refl n = ground arith

module _ (malloc : List Block → ℕ → Addr) (p : TypePrx) (t : TypeId) (r : ℕ) (name : Option RString)
    (size : ℤ) (w : World) where
  abbrev pub bytes : ℕ
  bytes = to_unsigned 64 size

  -- The type when it has told its size.
  abbrev pub sized : RType
  sized = record (new_object p t r name) { size = some bytes }

  abbrev pub typed_block : Block
  typed_block = record {
    data_address = malloc w.heap bytes;
    type = sized;
    refcnt = 1;
    size = bytes;
  }

  abbrev pub with_block_typed : World
  with_block_typed = take_type (with_heap (typed_block ∷ w.heap) w)

  module _ (B : Backend) (told : B.get_size p ≡ returned size) where
    size-told : r_type_size B (new_object p t r name) ≡ (sized, ok bytes)
    unfolding r_type_size new_object
    size-told = rw told refl

    size-known : r_type_size B sized ≡ (sized, ok bytes)
    unfolding r_type_size new_object
    size-known = refl

    pub r_mem_malloc_fn-made :
        has_room bytes ≡ true
        → (r_mem_malloc_fn malloc B (new_object p t r name)).1 w
          ≡ done (malloc w.heap bytes) none with_block_typed
    unfolding r_mem_malloc_fn r_mem_malloc_sized_fn r_memory_new
    r_mem_malloc_fn-made room = rw size-told (rw size-known (rw (leb_refl bytes) (rw room refl)))

    -- The type that r_mem_malloc_fn leaves.
    pub r_mem_malloc_fn-sized : (r_mem_malloc_fn malloc B (new_object p t r name)).0 ≡ sized
    unfolding r_mem_malloc_fn
    r_mem_malloc_fn-sized = rw size-told refl

-- r_mem_malloc_sized_fn for an object that has told its size, of at most what is asked for.
module _ (malloc : List Block → ℕ → Addr) (B : Backend) (rt : RType) (type_size size : ℕ)
    (known : r_type_size B rt ≡ (rt, ok type_size)) where
  pub r_mem_malloc_sized_fn-same : (r_mem_malloc_sized_fn malloc B rt size).0 ≡ rt
  unfolding r_mem_malloc_sized_fn
  r_mem_malloc_sized_fn-same = rw known refl

  pub r_mem_malloc_sized_fn-made :
      (w : World)
      → leb type_size size ≡ true
      → has_room size ≡ true
      → (r_mem_malloc_sized_fn malloc B rt size).1 w
        ≡ done (malloc w.heap size) none (
            take_type (
              with_heap
                (record { data_address = malloc w.heap size; type = rt; refcnt = 1; size = size }
                  ∷ w.heap)
                w))
  unfolding r_mem_malloc_sized_fn r_memory_new
  r_mem_malloc_sized_fn-made w fits room = rw known (rw fits (rw room refl))
