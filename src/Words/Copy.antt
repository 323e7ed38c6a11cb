-- ===== src/Words/Copy.antt =====
-- Bytes that memcpy copies, and numbers in memory that a write elsewhere leaves as they are.
use ruminate.Base.{ℕ, zero, suc, ◌+◌, ◌≤◌, ◌<◌, ◌≡◌, refl, ◌∙◌, ◌⊎◌, inl, inr, arith}
use ruminate.World.{Addr, Memory, put, load, store, copy}
use ruminate.Words.{Outside, put_other, put_self, store-Outside}

-- Bytes of two places, none of them of both.
abbrev pub Apart : ℕ → Addr → ℕ → Addr → Type 0
Apart n a k b = (a + n ≤ b) ⊎ (b + k ≤ a)

Apart-Outside : (n a k b x : ℕ) → Apart n a k b → a ≤ x → x < a + n → Outside k b x
Apart-Outside n a k b x (inl h) low high = inl (omega arith)
Apart-Outside n a k b x (inr h) low high = inr (omega arith)

pub copy-Outside : (n to from x : ℕ) (m : Memory) → Outside n to x → copy n to from m x ≡ m x
unfolding copy
copy-Outside zero to from x m h = refl
copy-Outside (suc n) to from x m h =
    let rest : Outside n (to + 1) x = elim h [
      | inl l ↦ inl (omega arith)
      | inr r ↦ inr (omega arith)
    ] in
    copy-Outside n (to + 1) (from + 1) x (put to (m from) m) rest
    ∙ put_other to (m from) x m (elim h [ inl l ↦ ground arith | inr r ↦ ground arith ])

-- A number is read from its own bytes only.
load-same :
    (n a : ℕ) (m m' : Memory)
    → ((x : Addr) → a ≤ x → x < a + n → m x ≡ m' x)
    → load n m a ≡ load n m' a
unfolding load
load-same zero a m m' h = refl
load-same (suc n) a m m' h =
    let first : m a ≡ m' a = h a (omega arith) (omega arith) in
    let rest : load n m (a + 1) ≡ load n m' (a + 1) =
      load-same n (a + 1) m m' (λ x low high. h x (omega arith) (omega arith)) in
    rw (first, rest) refl

pub load-store-Apart :
    (n a k b v : ℕ) (m : Memory) → Apart n a k b → load n (store k b v m) a ≡ load n m a
load-store-Apart n a k b v m apart =
    load-same n a (store k b v m) m
      (λ x low high. store-Outside k b v x m (Apart-Outside n a k b x apart low high))

pub load-copy-Apart :
    (n a k to from : ℕ) (m : Memory) → Apart n a k to → load n (copy k to from m) a ≡ load n m a
load-copy-Apart n a k to from m apart =
    load-same n a (copy k to from m) m
      (λ x low high. copy-Outside k to from x m (Apart-Outside n a k to x apart low high))

-- What is copied is what is read at its new place.
pub load-copy :
    (n to from : ℕ) (m : Memory) → Apart n from n to → load n (copy n to from m) to ≡ load n m from
unfolding copy load
load-copy zero to from m apart = refl
load-copy (suc n) to from m apart =
    let m' = put to (m from) m in
    let first : copy n (to + 1) (from + 1) m' to ≡ m from =
      copy-Outside n (to + 1) (from + 1) to m' (inl (omega arith)) ∙ put_self to (m from) m in
    let next : Apart n (from + 1) n (to + 1) = elim apart [
      | inl h ↦ inl (omega arith)
      | inr h ↦ inr (omega arith)
    ] in
    let unread : load n m' (from + 1) ≡ load n m (from + 1) =
      load-same n (from + 1) m' m (λ x low high.
        put_other to (m from) x m (elim apart [ inl h ↦ ground arith | inr h ↦ ground arith ])) in
    rw first (rw (load-copy n (to + 1) (from + 1) m' next) (rw unread refl))
