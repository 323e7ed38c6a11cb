-- ===== src/Member/ByName.antt =====
-- r_aggregate_type_member_by_name of src/aggregate_type.cpp.
pub mod Finds
use ruminate.Base.{ℕ, zero, suc, ◌+◌, String, Option, none, some, ◌==◌, if◌then◌else◌}
use ruminate.Glib.{Glib}
use ruminate.Errors.{Call, ok, ◌>>=◌}
use ruminate.Backend.{Backend}
use ruminate.RString.{r_string_quark}
use ruminate.RType.{RType}
use ruminate.RType.Query.{r_aggregate_type_nmembers}
use ruminate.Member.{RTypeMember, r_aggregate_type_member_at, r_aggregate_member_name}

module _ (G : Glib) (B : Backend) where
  -- The rounds left, and the index: `none` is a NULL with no error, for a name that is not there.
  by_name_loop : ℕ → RType → ℕ → ℕ → Call (Option RTypeMember)
  by_name_loop zero rat name_quark i = ok none
  by_name_loop (suc rounds) rat name_quark i =
      let (rat', at) = r_aggregate_type_member_at B rat i in
      let rest = by_name_loop rounds rat' name_quark (i + 1) in
      at >>= λ member.
      let (member', name) = r_aggregate_member_name G B member in
      name >>= λ member_name.
      if (r_string_quark G member_name).1 == name_quark then ok (some member') else rest

  pub r_aggregate_type_member_by_name : RType → String → Call (Option RTypeMember)
  unfolding by_name_loop
  r_aggregate_type_member_by_name rat name =
      let name_quark = G.quark_from_string name in
      let (rat', count) = r_aggregate_type_nmembers B rat in
      count >>= λ nmembers. by_name_loop nmembers rat' name_quark 0
