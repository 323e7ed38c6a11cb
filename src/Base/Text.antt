-- ===== src/Base/Text.antt =====
-- The length of a text in native numbers, and its beginning. A text stands for the bytes of a string, a
-- character for each byte.
use Prim.Native.Nat.{ℕ, zero, suc}
use Prim.Native.String.{String}

-- The number of bytes, and so many from the front.
unfoldable pub size : String → ℕ
size String.[] = 0
size (String.◌∷◌ c s) = suc (size s)

unfoldable pub front : ℕ → String → String
front zero s = ""
front (suc n) String.[] = ""
front (suc n) (String.◌∷◌ c s) = String.◌∷◌ c (front n s)
