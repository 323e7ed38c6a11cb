-- ===== src/RMemory/Pending.antt =====
-- ruminate_get_type_by_variable_name of src/ruminate.cpp after its second half has failed.
use ruminate.Base.{ℕ, String, ◌≡◌, refl, true, false, none, some, List, ◌==◌}
use ruminate.Errors.{GError, returned, raised, gxx_call}
use ruminate.Backend.{TypeId, Backend}
use ruminate.RMemory.{end_type, ruminate_get_type_by_variable_name, with_arp}
use ruminate.World.{Addr, Block, World, done, assertion_failed}

-- Where nothing is waited for, the first half of the question is answered by a result that is not NULL,
-- and the second half by an exception: the question returns NULL with the error of the exception, and
-- from then on every such question fails an assertion, whatever it is for.
pub ruminate_get_type-pending :
    (malloc : List Block → ℕ → Addr) (B later : Backend) (tid tid' : ℕ) (varname varname' : String)
    (place place' : TypeId) (w : World) (arp : ℕ) (e : GError)
    → (w.arp == 0) ≡ true
    → B.begin_get_type_by_variable_name varname tid ≡ returned arp
    → (arp == 0) ≡ false
    → gxx_call (B.end_get_type_by_variable_name arp place) ≡ raised e
    → (ruminate_get_type_by_variable_name malloc B tid varname place w
        ≡ done none (some e) (with_arp arp w))
      × (ruminate_get_type_by_variable_name malloc later tid' varname' place' (with_arp arp w)
          ≡ assertion_failed)
unfolding ruminate_get_type_by_variable_name end_type gxx_call
ruminate_get_type-pending malloc B later tid tid' varname varname' place place' w arp e idle begun
      set failed =
    (rw idle (rw begun (rw failed refl)), rw set refl)
