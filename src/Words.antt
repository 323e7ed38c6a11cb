-- ===== src/Words.antt =====
-- The bytes of a number in memory, as World.antt stores and loads them.
pub mod Copy
use native.Mathlib.Nat.{
  mul_assoc, div-add-mod, mod-lt, mod-eq_of_lt, add-mul-mod_self_left, mod-mod, pow-succ',
}
use ruminate.Base.{
  ℕ, zero, suc, ◌+◌, ◌*◌, ◌/◌, ◌%◌, ◌^◌, ◌<◌, ◌≤◌, ◌≡◌, refl, sym, ap, ◌⊎◌, inl, inr, false, arith,
  ◌==◌,
}
use ruminate.World.{Addr, Memory, put, load, store}

regroup : (v r q s t : ℕ) → v ≡ r + 256 * q → q ≡ t + s → v ≡ r + 256 * s + 256 * t
regroup v r q s t h k = omega arith

split-mod : (v k : ℕ) → 0 < k → v % 256 + 256 * (v / 256 % k) ≡ v % (256 * k)
split-mod v k pos =
    let q = v / 256 in
    let r = v % 256 in
    let s = q % k in
    let whole : v ≡ r + 256 * s + 256 * (k * (q / k)) =
      regroup v r q s (k * (q / k)) (omega arith) (sym (div-add-mod q k)) in
    let grouped : v ≡ r + 256 * s + 256 * k * (q / k) = rw (mul_assoc 256 k (q / k)) whole in
    let low : v % (256 * k) ≡ (r + 256 * s) % (256 * k) =
      rw (ap (λ x. x % (256 * k)) grouped)
        (add-mul-mod_self_left (r + 256 * s) (256 * k) (q / k)) in
    let small : r + 256 * s < 256 * k = omega (arith, mod-lt q pos) in
    rw low (sym (mod-eq_of_lt small))

put_other : (a b x : ℕ) (m : Memory) → (x == a) ≡ false → put a b m x ≡ m x
put_other a b x m h = rw h refl

put_self : (a b : ℕ) (m : Memory) → put a b m a ≡ b
put_self a b m = ground arith

-- The bytes below and those behind the `n` bytes at `a`.
abbrev pub Outside : ℕ → Addr → Addr → Type 0
Outside n a x = (x < a) ⊎ (a + n ≤ x)

pub store-Outside : (n a v x : ℕ) (m : Memory) → Outside n a x → store n a v m x ≡ m x
unfolding store
store-Outside zero a v x m h = refl
store-Outside (suc n) a v x m h =
    let rest : Outside n (a + 1) x = elim h [
      | inl l ↦ inl (omega arith)
      | inr r ↦ inr (omega arith)
    ] in
    rw (store-Outside n (a + 1) (v / 256) x (put a (v % 256) m) rest)
      (put_other a (v % 256) x m (elim h [ inl l ↦ ground arith | inr r ↦ ground arith ]))

pow_pos : (n : ℕ) → 0 < 256 ^ n
pow_pos zero = omega arith
pow_pos (suc n) = rw (pow-succ' 256 n) (omega (arith, pow_pos n))

-- A number stored in `n` bytes is loaded from them again, modulo 256 ^ n.
pub load-store : (n a v : ℕ) (m : Memory) → load n (store n a v m) a ≡ v % 256 ^ n
unfolding load store
load-store zero a v m = omega arith
load-store (suc n) a v m =
    let kept : store n (a + 1) (v / 256) (put a (v % 256) m) a ≡ put a (v % 256) m a =
      store-Outside n (a + 1) (v / 256) a (put a (v % 256) m) (inl (omega arith)) in
    rw kept (
      rw (put_self a (v % 256) m) (
        rw (load-store n (a + 1) (v / 256) (put a (v % 256) m))
          (rw (mod-mod v 256) (rw (pow-succ' 256 n) (split-mod v (256 ^ n) (pow_pos n))))))

pub load-lt : (n a : ℕ) (m : Memory) → load n m a < 256 ^ n
unfolding load
load-lt zero a m = pow_pos 0
load-lt (suc n) a m =
    rw (pow-succ' 256 n) (omega (arith, load-lt n (a + 1) m, mod-lt (m a) (pow_pos 1)))
