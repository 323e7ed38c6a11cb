-- ===== src/Json/Encoding/Spending.antt =====
-- References that add up.
use ruminate.Base.{ℕ, suc, ◌+◌, ◌≡◌, arith}
use ruminate.World.{World, take_type, take_member, take_json}
use ruminate.Json.Shape.{Cost, cost, add_cost, spend}

pub spend-zero : (w : World) → spend (cost 0 0 0) w ≡ w
spend-zero w = ground arith

pub spend-spend : (c d : Cost) (w : World) → spend d (spend c w) ≡ spend (add_cost c d) w
spend-spend c d w = ground arith

-- A reference taken first and kept.
pub spend-take_json :
    (c : Cost) (w : World) → spend c (take_json w) ≡ spend (add_cost c (cost 0 0 1)) w
spend-take_json c w = ground arith

pub spend-add_nothing : (c : Cost) (w : World) → spend c w ≡ spend (add_cost c (cost 0 0 0)) w
spend-add_nothing c w = ground arith

pub take_json-spend :
    (c : Cost) (w : World) → take_json (spend c w) ≡ spend (add_cost c (cost 0 0 1)) w
take_json-spend c w = ground arith

-- The references of an enumeration, enumerator by enumerator.
pub spend-hit : (w : World) → take_type (take_type (take_member w)) ≡ spend (cost (0 + 2) 1 0) w
spend-hit w = ground arith

pub spend-miss :
    (n : ℕ) (w : World) → spend (cost (n + 2) 1 0) (take_type w) ≡ spend (cost (suc n + 2) 1 0) w
spend-miss n w = ground arith

pub take_json-spend_enum :
    (n : ℕ) (w : World) → take_json (spend (cost n 1 0) w) ≡ spend (cost n 1 1) w
take_json-spend_enum n w = ground arith

pub spend-new_json : (w : World) → take_json w ≡ spend (cost 0 0 1) w
spend-new_json w = ground arith

pub spend-between :
    (c d k : Cost) (w : World)
    → spend (add_cost d k) (spend c w) ≡ spend (add_cost (add_cost c d) k) w
spend-between c d k w = ground arith
