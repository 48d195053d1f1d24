-- ===== src/Gc/State/Laws.antt =====
-- Reading a word after a write, a `memset` or a `memmove`.
use lama_rv_workshop.Base.{ℕ, ◌≡◌, ◌≢◌, arith, ◌+◌, ◌-◌, ◌≤◌, ◌<◌, ◌⊎◌, true, leb, ltb, refl}
use lama_rv_workshop.Gc.State.{Mem, write, clear, move}

pub write_self : (m : Mem) (a v : ℕ) → write m a v a ≡ v
write_self m a v = ground arith

pub write_ne : (m : Mem) (a v b : ℕ) → b ≢ a → write m a v b ≡ m b
write_ne m a v b h = ground arith

-- Writing the word that is there changes nothing.
pub write_same : (m : Mem) (a v : ℕ) → m a ≡ v → write m a v ≡ m
write_same m a v e i b = same b i
  where
    same : (b : ℕ) → write m a v b ≡ m b
    same b = ground arith

module _ (m : Mem) where
  pub clear_outside : (p n b : ℕ) → (b < p) ⊎ (p + n ≤ b) → clear m p n b ≡ m b
  clear_outside p n b h = ground arith

  pub move_outside : (to from n b : ℕ) → (b < to) ⊎ (to + n ≤ b) → move m to from n b ≡ m b
  move_outside to from n b h = ground arith

  pub move_inside :
      (to from n b : ℕ) → from ≤ b → b + 8 ≤ from + n → move m to from n (to + (b - from)) ≡ m b
  move_inside to from n b h k =
      let e : from + (to + (b - from) - to) ≡ b = omega arith in
      let lo : leb to (to + (b - from)) ≡ true = ground arith in
      let hi : ltb (to + (b - from)) (to + n) ≡ true = ground arith in
      let full : leb (to + (b - from) + 8) (to + n) ≡ true = ground arith in
      rw (lo, hi, full, e) refl
