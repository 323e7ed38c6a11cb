-- ===== src/Backend.antt =====
-- The debugger process behind Ice, as a parameter: the interfaces Type, TypeMember and
-- Debugger of ice/type.ice, ice/type_member.ice and ice/debugger.ice. A proxy is the number of the remote object that it names. A
-- question put twice to one proxy has one answer, as the library's own caches suppose.
use ruminate.Base.{ℕ, String, Bool, List}
use ruminate.Base.Int.{ℤ}
use ruminate.Errors.{Reply}

abbrev pub TypePrx : Type 0
TypePrx = ℕ

abbrev pub TypeMemberPrx : Type 0
TypeMemberPrx = ℕ

pub data TypeId : Type 0 where
  structure enum union function typedef pointer array : TypeId
  int long double short char void bool : TypeId
  unknown : TypeId

-- Frame of ice/frame.ice.
pub record Frame : Type 0 where
  pub function_name : String
  pub module_name : String
  pub compile_unit_name : String
  pub function_type : TypePrx
  pub line : ℤ

abbrev pub FrameList : Type 0
FrameList = List Frame

pub record Backend : Type 0 where
  pub get_id : TypePrx → Reply TypeId
  pub get_name : TypePrx → Reply String
  pub get_size : TypePrx → Reply ℤ
  pub get_pointee_type : TypePrx → Reply TypePrx
  pub get_pointer_type : TypePrx → Reply TypePrx
  pub get_canonical_type : TypePrx → Reply TypePrx
  pub get_return_type : TypePrx → Reply TypePrx
  pub get_members : TypePrx → Reply (List TypeMemberPrx)
  -- The two halves of getMembers for an array, whose length may depend on the calling thread.
  pub begin_get_members : TypePrx → (tid : ℕ) → Reply ℕ
  pub end_get_members : TypePrx → (result : ℕ) → Reply (List TypeMemberPrx)
  pub is_signed : TypePrx → Reply Bool
  pub is_unsigned : TypePrx → Reply Bool
  pub member_type : TypeMemberPrx → Reply TypePrx
  pub member_name : TypeMemberPrx → Reply String
  pub member_offset : TypeMemberPrx → Reply ℤ
  pub member_is_bitfield : TypeMemberPrx → Reply Bool
  pub member_value_signed : TypeMemberPrx → Reply ℤ
  -- Debugger of ice/debugger.ice. The type of a variable is asked for in two halves, around a
  -- breakpoint: it depends on the place that the thread is stopped at, here on the C type that
  -- r_mem_malloc is called for.
  pub begin_get_type_by_variable_name : String → (tid : ℕ) → Reply ℕ
  pub end_get_type_by_variable_name : (arp : ℕ) → (place : TypeId) → Reply TypePrx
  pub get_types_by_name : String → Reply (List TypePrx)
  -- The two halves of getBacktrace, and the name of the function at an address.
  pub begin_get_backtrace : (tid : ℕ) → Reply ℕ
  pub end_get_backtrace : (arp : ℕ) → Reply FrameList
  pub get_function_name : ℤ → Reply String
