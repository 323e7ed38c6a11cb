-- ===== src/RMemory.antt =====
-- src/memory.cpp: memory that knows its type, its size and its references, with
-- ruminate_get_type_by_variable_name of src/ruminate.cpp, which the macro r_mem_malloc calls.
--
-- A block stands in the state by the address of its data: r_memory_to_opaque and
-- r_memory_from_opaque lead from one to the other. Its bytes are those of the process.
pub mod Fresh
pub mod Count
pub mod Typed
pub mod Zeroed
pub mod Pending
use ruminate.Base.{
  ℕ, zero, suc, ◌+◌, String, ◌-◌, ◌*◌, ◌%◌, ◌^◌, Bool, Option, none, some, List, [], ◌∷◌, ◌==◌, leb,
  if◌then◌else◌,
}
use ruminate.Glib.{Glib}
use ruminate.Errors.{ok, gxx_call}
use ruminate.Backend.{TypeId, Backend}
use ruminate.RType.{RType, r_type_new}
use ruminate.RType.Query.{r_type_size, r_pointer_type_pointee}
use ruminate.World.{
  Addr, Block, World, Run, done, assertion_failed, segfault, Cmd, pure, fail, modify, assert_false,
  use_null, ◌>>=◌, ◌>>◌, attempt, take_type, drop_type, put,
}

abbrev pub with_heap : List Block → World → World
with_heap h w = record w { heap = h }

abbrev pub with_arp : ℕ → World → World
with_arp n w = record w { arp = n }

abbrev pub find_block : List Block → Addr → Option Block
find_block [] mem = none
find_block (b ∷ h) mem = if b.data_address == mem then some b else find_block h mem

abbrev pub replace_block : List Block → Block → List Block
replace_block [] b = []
replace_block (c ∷ h) b = if c.data_address == b.data_address then b ∷ h else c ∷ replace_block h b

abbrev pub remove_block : List Block → Addr → List Block
remove_block [] mem = []
remove_block (b ∷ h) mem = if b.data_address == mem then h else b ∷ remove_block h mem

-- r_memory_from_opaque, of what is not the data of a block a use of what is not there.
abbrev with_found : {A : Type 0} → (Block → Cmd A) → Option Block → Cmd A
with_found k none = use_null
with_found k (some b) = k b

abbrev with_block : {A : Type 0} → (Block → Cmd A) → Addr → Cmd A
with_block k mem w = with_found k (find_block w.heap mem) w

-- The bytes of an RMemory before its data, and those that r_memory_new asks g_malloc for, as a size_t.
abbrev pub sizeof_rmemory : ℕ
sizeof_rmemory = 24

abbrev pub allocated : ℕ → ℕ
allocated size = (sizeof_rmemory + size) % 2 ^ 64

abbrev pub has_room : ℕ → Bool
has_room size = leb sizeof_rmemory (allocated size)

-- memset to 0.
unfoldable clear : ℕ → Addr → Cmd (Unit {0})
clear zero a = pure tt
clear (suc n) a = do modify (λ w. record w { memory = put a 0 w.memory }); clear n (a + 1)

module _ (G : Glib) where
  pub r_mem_ref : Addr → Cmd Addr
  r_mem_ref mem =
      with_block
        (λ b. do
          modify (λ w.
              with_heap (replace_block w.heap (record b { refcnt = G.atomic_int_inc b.refcnt })) w)
          pure mem)
        mem

  -- The last reference gives back that to the type, too, and frees the block.
  release_block : Addr → Block → Cmd (Unit {0})
  release_block mem b =
      let (n, last) = G.atomic_int_dec_and_test b.refcnt in
      if last
      then (do drop_type; modify (λ w. with_heap (remove_block w.heap mem) w))
      else modify (λ w. with_heap (replace_block w.heap (record b { refcnt = n })) w)

  pub r_mem_unref : Addr → Cmd (Unit {0})
  unfolding release_block
  r_mem_unref mem = with_block (release_block mem) mem

unfoldable r_mem_size : Addr → Cmd ℕ
r_mem_size mem = with_block (λ b. pure b.size) mem

unfoldable r_mem_type : Addr → Cmd RType
r_mem_type mem = with_block (λ b. do modify take_type; pure b.type) mem

module _ (malloc : List Block → ℕ → Addr) where
  -- g_malloc ends the program rather than return NULL. Where the sum wraps around, it is asked for
  -- fewer bytes than the members of an RMemory take, which are then written to memory that is not there.
  pub r_memory_new : RType → ℕ → Cmd Addr
  r_memory_new rt size w =
      let a = malloc w.heap size in
      let rm : Block = record { data_address = a; type = rt; refcnt = 1; size = size } in
      if has_room size then done a none (take_type (with_heap (rm ∷ w.heap) w)) else segfault

  module _ (B : Backend) where
    -- NULL is the address 0. These return the type object as the question for its size leaves it.
    pub r_mem_malloc_sized_fn : RType → ℕ → RType × Cmd Addr
    unfolding r_memory_new
    r_mem_malloc_sized_fn rt size =
        let (rt', answer) = r_type_size B rt in
        (
          rt',
          attempt answer
              (λ type_size. if leb type_size size then r_memory_new rt' size else assert_false)
              (λ e. fail e 0),
        )

    pub r_mem_malloc_fn : RType → RType × Cmd Addr
    unfolding r_mem_malloc_sized_fn
    r_mem_malloc_fn rt =
        let (rt', answer) = r_type_size B rt in
        (rt', attempt answer (λ size. (r_mem_malloc_sized_fn rt' size).1) (λ e. fail e 0))

    -- `size * nmemb` is a size_t.
    r_mem_calloc_sized_fn : RType → ℕ → ℕ → RType × Cmd Addr
    unfolding r_mem_malloc_sized_fn
    r_mem_calloc_sized_fn rt size nmemb =
        let real_size = size * nmemb % 2 ^ 64 in
        let (rt', allocate) = r_mem_malloc_sized_fn rt real_size in
        (rt', do ret ← allocate; if ret == 0 then pure 0 else (do clear real_size ret; pure ret))

    unfoldable r_mem_calloc_fn : RType → ℕ → RType × Cmd Addr
    unfolding r_mem_calloc_sized_fn
    r_mem_calloc_fn rt nmemb =
        let (rt', answer) = r_type_size B rt in
        (rt', attempt answer (λ size. (r_mem_calloc_sized_fn rt' size nmemb).1) (λ e. fail e 0))

    -- The pointee of a pointer type, allocated; the reference to the pointee stays taken unless the
    -- allocation fails.
    of_pointee : RType → (RType → Cmd Addr) → Cmd Addr
    of_pointee ptrtype allocate =
        attempt (r_pointer_type_pointee B ptrtype)
          (λ type. do
            modify take_type
            ret ← allocate type
            if ret == 0 then (do drop_type; drop_type; pure 0) else (do drop_type; pure ret))
          (λ e. do drop_type; fail e 0)

    r_mem_malloc_sized : RType → ℕ → Cmd Addr
    unfolding of_pointee
    r_mem_malloc_sized ptrtype size =
        of_pointee ptrtype (λ type. (r_mem_malloc_sized_fn type size).1)

    unfoldable r_mem_calloc_sized : RType → ℕ → ℕ → Cmd Addr
    unfolding of_pointee
    r_mem_calloc_sized ptrtype size nmemb =
        of_pointee ptrtype (λ type. (r_mem_calloc_sized_fn type size nmemb).1)

    module _ (tid : ℕ) where
      -- After an error of the second half, ruminate->arp stays set.
      end_type : TypeId → ℕ → Cmd (Option RType)
      end_type place arp =
          attempt (gxx_call (B.end_get_type_by_variable_name arp place))
            (λ t. do
              modify (with_arp 0)
              attempt (r_type_new B t) (λ rt. do modify take_type; pure (some rt))
                  (λ e. fail e none))
            (λ e. fail e none)

      pub ruminate_get_type_by_variable_name : String → TypeId → Cmd (Option RType)
      unfolding end_type
      ruminate_get_type_by_variable_name varname place w =
          if w.arp == 0
          then attempt (gxx_call (B.begin_get_type_by_variable_name varname tid))
              (λ arp. do modify (with_arp arp); end_type place arp) (λ e. fail e none) w
          else assertion_failed

      -- The macro ruminate_get_type, for an expression of a pointer type, and what the macros do where it
      -- does not return NULL.
      unfoldable ruminate_get_type : TypeId → Cmd (Option RType)
      unfolding ruminate_get_type_by_variable_name
      ruminate_get_type type = ruminate_get_type_by_variable_name "_expr" type

      of_type : TypeId → (RType → Cmd Addr) → Cmd Addr
      unfolding ruminate_get_type
      of_type type allocate = do
        rt ← ruminate_get_type type
        elim rt [ none ↦ pure 0 | some ptrtype ↦ allocate ptrtype ]

      -- The macros, for a C type of so many bytes, or for the size that is given.
      pub r_mem_malloc : TypeId → (type_size : ℕ) → Cmd Addr
      unfolding of_type
      r_mem_malloc type type_size = of_type type (λ rt. r_mem_malloc_sized rt type_size)

      unfoldable pub r_mem_malloc_sized_macro : TypeId → (size : ℕ) → Cmd Addr
      unfolding of_type r_mem_malloc_sized
      r_mem_malloc_sized_macro type size = of_type type (λ rt. r_mem_malloc_sized rt size)

      pub r_mem_calloc : TypeId → (type_size nmemb : ℕ) → Cmd Addr
      unfolding of_type
      r_mem_calloc type type_size nmemb = of_type type (λ rt. r_mem_calloc_sized rt type_size nmemb)

      pub r_mem_calloc_sized_macro : TypeId → (size nmemb : ℕ) → Cmd Addr
      unfolding of_type
      r_mem_calloc_sized_macro type size nmemb =
          of_type type (λ rt. r_mem_calloc_sized rt size nmemb)
