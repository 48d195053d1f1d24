-- ===== src/Gc/Layout.antt =====
-- Heaps that are a row of objects.
use mathlib.Core.List.{◌++◌}
use lama_rv_workshop.Base.{
  ℕ, ◌+◌, ◌≤◌, ◌<◌, ◌≡◌, refl, Bool, arith, List, [], ◌∷◌, if◌then◌else◌, ◌∙◌,
}
use lama_rv_workshop.Base.Word.{word_mod}
use lama_rv_workshop.Base.Outcome.{ok}
use lama_rv_workshop.Gc.State.{Mem, write}
use lama_rv_workshop.Gc.Object.{obj_size_header_ptr, get_mark_bit}
use lama_rv_workshop.Gc.Object.Laws.{block, obj_size_of_header}

-- From `a` to `end` memory holds objects of the sizes `ns`, one after the other.
abbrev pub Layout : Mem → ℕ → List ℕ → ℕ → Type 0
Layout m a [] end = a ≡ end
Layout m a (n ∷ ns) end =
    (obj_size_header_ptr m a ≡ ok n) × (16 ≤ n) × (n < word_mod) × Layout m (a + block n) ns end

-- The mark of the object at `a`.
abbrev pub marked_at : Mem → ℕ → Bool
marked_at m a = get_mark_bit (m (a + 8))

abbrev pub live_block : Mem → ℕ → ℕ → ℕ
live_block m a n = if marked_at m a then block n else 0

-- The bytes of the marked objects.
abbrev pub live_bytes : Mem → ℕ → List ℕ → ℕ
live_bytes m a [] = 0
live_bytes m a (n ∷ ns) = live_block m a n + live_bytes m (a + block n) ns

pub block_ge : (n : ℕ) → 16 ≤ n → n < word_mod → (16 ≤ block n) × (n ≤ block n)
block_ge n h k = omega arith

pub Layout-le : (m : Mem) (a : ℕ) (ns : List ℕ) (end : ℕ) → Layout m a ns end → a ≤ end
Layout-le m a [] end l = omega arith
Layout-le m a (n ∷ ns) end l = omega (arith, Layout-le m (a + block n) ns end l.3)

-- A write below the objects does not touch them.
module _ (m : Mem) (b v : ℕ) where
  pub Layout-write :
      (a : ℕ) (ns : List ℕ) (end : ℕ) → b < a → Layout m a ns end → Layout (write m b v) a ns end
  Layout-write a [] end h l = l
  Layout-write a (n ∷ ns) end h l = (
    obj_size_of_header m (write m b v) a (ground arith) ∙ l.0,
    l.1,
    l.2,
    Layout-write (a + block n) ns end (omega arith) l.3,
  )

  pub marked_at-write : (a : ℕ) → b < a → marked_at (write m b v) a ≡ marked_at m a
  marked_at-write a h = ground arith

  pub live_bytes-write :
      (a : ℕ) (ns : List ℕ) → b < a → live_bytes (write m b v) a ns ≡ live_bytes m a ns
  live_bytes-write a [] h = refl
  live_bytes-write a (n ∷ ns) h =
      rw (marked_at-write a h, live_bytes-write (a + block n) ns (omega arith)) refl

-- Two rows, one behind the other.
pub Layout-append :
    (m : Mem) (a : ℕ) (ns : List ℕ) (mid : ℕ) (ks : List ℕ) (end : ℕ)
    → Layout m a ns mid
    → Layout m mid ks end
    → Layout m a (ns ++ ks) end
Layout-append m a [] mid ks end l r = rw l r
Layout-append m a (n ∷ ns) mid ks end l r =
    (l.0, l.1, l.2, Layout-append m (a + block n) ns mid ks end l.3 r)

-- Only the words below the end of a row matter to it.
pub Layout-frame :
    (m m' : Mem) (a : ℕ) (ns : List ℕ) (end : ℕ)
    → ((b : ℕ) → b < end → m' b ≡ m b)
    → Layout m a ns end
    → Layout m' a ns end
Layout-frame m m' a [] end same l = l
Layout-frame m m' a (n ∷ ns) end same l =
    let le = Layout-le m (a + block n) ns end l.3 in
    (
      obj_size_of_header m m' a (same a (omega arith)) ∙ l.0,
      l.1,
      l.2,
      Layout-frame m m' (a + block n) ns end same l.3,
    )

-- In a row with one more object behind `mid`, only the words up to `mid` hold headers.
pub Layout-keep :
    (m₀ m m' : Mem) (a : ℕ) (ns : List ℕ) (mid n end : ℕ)
    → Layout m₀ a ns mid
    → ((b : ℕ) → b ≤ mid → m' b ≡ m b)
    → Layout m a (ns ++ n ∷ []) end
    → Layout m' a (ns ++ n ∷ []) end
Layout-keep m₀ m m' a [] mid n end l₀ same l =
    (obj_size_of_header m m' a (same a (omega arith)) ∙ l.0, l.1, l.2, l.3)
Layout-keep m₀ m m' a (k ∷ ns) mid n end l₀ same l =
    let le = Layout-le m₀ (a + block k) ns mid l₀.3 in
    (
      obj_size_of_header m m' a (same a (omega arith)) ∙ l.0,
      l.1,
      l.2,
      Layout-keep m₀ m m' (a + block k) ns mid n end l₀.3 same l.3,
    )
