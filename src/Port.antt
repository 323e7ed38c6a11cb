-- ===== src/Port.antt =====
-- read_child_port of src/ruminate.cpp: the debugger's port, an int, from the pipe to it.
use ruminate.Base.{
  ℕ, zero, suc, ◌+◌, ◌-◌, ◌*◌, ◌<◌, ◌≤◌, String, ◌≡◌, refl, sym, ap, true, false, some, List, [],
  ◌∷◌, arith, ◌==◌, leb, if◌then◌else◌, length, ◌++◌, length-append,
}
use mathlib.Core.Path.{subst}
use ruminate.Base.Int.{ℤ, to_signed}
use ruminate.Errors.{GError, RuminateError, ruminate_error, r_perror}

-- A result of read(2): an errno, or the bytes that were read, none at the end of the file.
pub data Read : Type 0 where
  failed : ℕ → Read
  got : List ℕ → Read

-- The end of read_child_port, if it ends in so many rounds.
pub data PortRun : Type 0 where
  port : ℤ → PortRun
  raised : GError → PortRun
  assertion_failed out_of_fuel : PortRun

-- The int with these bytes, little-endian.
abbrev pub from_bytes : List ℕ → ℕ
from_bytes [] = 0
from_bytes (b ∷ bs) = b + 256 * from_bytes bs

abbrev pub short_read : GError
short_read = ruminate_error RuminateError.short_read "Couldn't read listening port from child"

-- The bytes of `port` that are read, and after a read those with its bytes.
after_read : (List ℕ → PortRun) → List ℕ → PortRun
after_read again port_bytes =
    let nb_read = length port_bytes in
    let rest = again port_bytes in
    if nb_read == 0
    then raised short_read
    else if leb nb_read 4
    then if nb_read == 4 then port (to_signed 32 (from_bytes port_bytes)) else rest
    else assertion_failed

module _ (strerror : ℕ → String) (read : (call count : ℕ) → Read) where
  on_read : Read → (List ℕ → PortRun) → List ℕ → PortRun
  on_read (failed errno) again port_bytes = raised (r_perror strerror errno (some "read"))
  on_read (got bytes) again port_bytes = after_read again (port_bytes ++ bytes)

  -- The rounds, and the number of the next read. sizeof(int) is 4.
  unfoldable pub read_rounds : ℕ → ℕ → List ℕ → PortRun
  unfolding on_read after_read
  read_rounds zero k port_bytes = out_of_fuel
  read_rounds (suc rounds) k port_bytes =
      on_read (read k (4 - length port_bytes)) (read_rounds rounds (k + 1)) port_bytes

  unfoldable pub read_child_port : ℕ → PortRun
  read_child_port rounds = read_rounds rounds 0 []

  -- The reads from the `k`th on give these bytes, none of them at the end of the file, until four are
  -- there beside the `n` that were.
  abbrev pub Arrives : ℕ → ℕ → List (List ℕ) → Type 0
  Arrives k n [] = n ≡ 4
  Arrives k n (c ∷ cs) =
      (read k (4 - n) ≡ got c)
      × (0 < length c)
      × (n < 4)
      × (n + length c ≤ 4)
      × Arrives (k + 1) (n + length c) cs

  abbrev pub joined : List ℕ → List (List ℕ) → List ℕ
  joined acc [] = acc
  joined acc (c ∷ cs) = joined (acc ++ c) cs

  append_nil : (xs : List ℕ) → xs ++ [] ≡ xs
  append_nil [] = refl
  append_nil (x ∷ xs) = ap (λ ys. x ∷ ys) (append_nil xs)

  more :
      (again : List ℕ → PortRun) (bs : List ℕ)
      → 0 < length bs
      → length bs < 4
      → after_read again bs ≡ again bs
  unfolding after_read
  more again bs low high =
      let some_read : (length bs == 0) ≡ false = ground arith in
      let within : leb (length bs) 4 ≡ true = ground arith in
      let unfinished : (length bs == 4) ≡ false = ground arith in
      rw some_read (rw within (rw unfinished refl))

  whole :
      (again : List ℕ → PortRun) (bs : List ℕ)
      → length bs ≡ 4
      → after_read again bs ≡ port (to_signed 32 (from_bytes bs))
  unfolding after_read
  whole again bs h =
      let some_read : (length bs == 0) ≡ false = ground arith in
      let within : leb (length bs) 4 ≡ true = ground arith in
      let finished : (length bs == 4) ≡ true = ground arith in
      rw some_read (rw within (rw finished refl))

  -- Where fewer than four bytes of the debugger's port are there and the rest arrive without an error or
  -- an end of the file, the int is read whole, in whatever pieces they arrive, with one round for each
  -- piece.
  pub read_rounds-joined :
      (cs : List (List ℕ)) (k : ℕ) (acc : List ℕ)
      → length acc < 4
      → Arrives k (length acc) cs
      → read_rounds (length cs) k acc ≡ port (to_signed 32 (from_bytes (joined acc cs)))
  unfolding read_rounds on_read
  read_rounds-joined [] k acc less done = absurd (omega arith)
  read_rounds-joined (c ∷ []) k acc less (now, some_bytes, short, fits, end) =
      let count : length (acc ++ c) ≡ length acc + length c = length-append acc c in
      rw now (whole (read_rounds 0 (k + 1)) (acc ++ c) (rw count end))
  read_rounds-joined (c ∷ d ∷ ds) k acc less (now, some_bytes, short, fits, later) =
      let count : length (acc ++ c) ≡ length acc + length c = length-append acc c in
      let left : Arrives (k + 1) (length (acc ++ c)) (d ∷ ds) =
        subst (λ n. Arrives (k + 1) n (d ∷ ds)) (sym count) later in
      rw now (
        rw (more (read_rounds (length (d ∷ ds)) (k + 1)) (acc ++ c) (omega (arith, count)) left.2)
          (read_rounds-joined (d ∷ ds) (k + 1) (acc ++ c) left.2 left))

  -- If the pipe is closed when some of the four bytes have arrived, but not all, read_child_port never
  -- ends: however many rounds it is given, it goes on reading.
  pub read_rounds-closed :
      (rounds k : ℕ) (acc : List ℕ)
      → 0 < length acc
      → length acc < 4
      → ((j : ℕ) → k ≤ j → read j (4 - length acc) ≡ got [])
      → read_rounds rounds k acc ≡ out_of_fuel
  unfolding read_rounds on_read
  read_rounds-closed zero k acc low high closed = refl
  read_rounds-closed (suc rounds) k acc low high closed = rw (closed k (omega arith)) (
      rw (append_nil acc) (
        rw (more (read_rounds rounds (k + 1)) acc low high)
          (read_rounds-closed rounds (k + 1) acc low high (λ j h. closed j (omega arith)))))
