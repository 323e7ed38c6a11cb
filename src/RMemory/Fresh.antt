-- ===== src/RMemory/Fresh.antt =====
-- r_mem_malloc of src/memory.cpp when the debugger answers and there is memory.
use ruminate.Base.{ℕ, suc, ◌≡◌, refl, true, false, none, some, ◌∷◌, List, ◌==◌, leb}
use ruminate.Base.Int.{ℤ, to_unsigned}
use ruminate.Errors.{returned, ok, gxx_call}
use ruminate.Backend.{TypePrx, TypeId, Backend}
use ruminate.RType.{RType}
use ruminate.RType.New.{new_object, r_type_new-new_object, pointee-new_object}
use ruminate.RType.Query.{r_type_size}
use ruminate.RMemory.{
  has_room, r_memory_new, r_mem_malloc_sized_fn, of_pointee, r_mem_malloc_sized, end_type,
  ruminate_get_type_by_variable_name, ruminate_get_type, of_type, r_mem_malloc, with_heap, with_arp,
}
use ruminate.World.{Addr, Block, World, done, take_type}

-- The debugger knows the C type `t`, as the pointee of the type of the macro's variable, and its size
-- is at most what is asked for; nothing is waited for, the size of the block does not wrap around, and
-- the memory is not at NULL.
pub record Serves (B : Backend) (tid : ℕ) (malloc : List Block → ℕ → Addr) (t : TypeId) (bytes : ℕ)
    (w : World) : Type 0 where
  pub idle : (w.arp == 0) ≡ true
  pub arp : ℕ
  pub begun : B.begin_get_type_by_variable_name "_expr" tid ≡ returned arp
  pub pointer : TypePrx
  pub ended : B.end_get_type_by_variable_name arp t ≡ returned pointer
  pub is_pointer : B.get_id pointer ≡ returned TypeId.pointer
  pub type : TypePrx
  pub pointee : B.get_pointee_type pointer ≡ returned type
  pub is_type : B.get_id type ≡ returned t
  pub size : ℤ
  pub sized : B.get_size type ≡ returned size
  pub fits : leb (to_unsigned 64 size) bytes ≡ true
  pub room : has_room bytes ≡ true
  pub not_null : (malloc w.heap bytes == 0) ≡ false

-- The same where the heap is the same and nothing is waited for.
pub Serves-heap :
    {B : Backend} {tid : ℕ} {malloc : List Block → ℕ → Addr} {t : TypeId} {bytes : ℕ} {w : World}
    (v : World)
    → v.heap ≡ w.heap
    → (v.arp == 0) ≡ true
    → Serves B tid malloc t bytes w
    → Serves B tid malloc t bytes v
Serves-heap v same idle s = record {
  idle = idle;
  arp = s.arp;
  begun = s.begun;
  pointer = s.pointer;
  ended = s.ended;
  is_pointer = s.is_pointer;
  type = s.type;
  pointee = s.pointee;
  is_type = s.is_type;
  size = s.size;
  sized = s.sized;
  fits = s.fits;
  room = s.room;
  not_null = rw same s.not_null;
}

module _ (B : Backend) (tid : ℕ) (malloc : List Block → ℕ → Addr) (t : TypeId) (bytes : ℕ)
    (w : World) (s : Serves B tid malloc t bytes w) where
  -- The type of the new block, which has told its size.
  abbrev pub sized_type : RType
  sized_type = record (new_object s.type t 1 none) { size = some (to_unsigned 64 s.size) }

  abbrev pub new_block : Block
  new_block = record {
    data_address = malloc w.heap bytes;
    type = sized_type;
    refcnt = 1;
    size = bytes;
  }

  abbrev pub made : World
  made = record w { types = suc (suc w.types); heap = new_block ∷ w.heap; arp = 0 }

  pub size-new_object :
      r_type_size B (new_object s.type t 1 none) ≡ (sized_type, ok (to_unsigned 64 s.size))
  unfolding r_type_size new_object
  size-new_object = rw s.sized refl

  pub got_type :
      ruminate_get_type malloc B tid t w
      ≡ done (some (new_object s.pointer TypeId.pointer 1 none)) none (take_type (with_arp 0 w))
  unfolding ruminate_get_type ruminate_get_type_by_variable_name end_type gxx_call
  got_type = rw s.idle (
      rw s.begun
        (rw s.ended (rw (r_type_new-new_object B s.pointer TypeId.pointer s.is_pointer) refl)))

  pub sized_fn :
      (v : World)
      → v.heap ≡ w.heap
      → (r_mem_malloc_sized_fn malloc B (new_object s.type t 1 none) bytes).1 v
        ≡ done (malloc w.heap bytes) none (take_type (with_heap (new_block ∷ w.heap) v))
  unfolding r_mem_malloc_sized_fn r_memory_new
  sized_fn v h = rw size-new_object (rw s.fits (rw s.room (rw h refl)))

  -- Where the debugger answers for the C type, and there is memory for the size, which does not
  -- wrap around with that of an RMemory, r_mem_malloc gives a block of the size and the C type
  -- asked for, with one reference, and two references to the type are left taken, the block's own
  -- and one more.
  pub r_mem_malloc-made : r_mem_malloc malloc B tid t bytes w ≡ done (malloc w.heap bytes) none made
  unfolding r_mem_malloc of_type r_mem_malloc_sized of_pointee
  r_mem_malloc-made = rw got_type (
      rw (pointee-new_object B s.pointer s.type 1 none t TypeId.pointer s.pointee s.is_type)
        (rw (sized_fn (take_type (take_type (with_arp 0 w))) refl) (rw s.not_null refl)))
