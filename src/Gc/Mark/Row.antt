-- ===== src/Gc/Mark/Row.antt =====
-- The objects of a row and their two bits, for the mark phase of runtime/gc.c.
use lama_rv_workshop.Base.{
  ℕ, suc, ◌+◌, ◌%◌, ◌≤◌, ◌<◌, ◌≡◌, refl, ◌≢◌, ◌⊎◌, Bool, true, false, not, ◌&&◌, arith, List, [],
  ◌∷◌, if◌then◌else◌, inl, inr, Bool-cases,
}
use lama_rv_workshop.Base.Word.{word_mod}
use lama_rv_workshop.Base.Outcome.{ok}
use lama_rv_workshop.Gc.State.{Mem}
use lama_rv_workshop.Gc.Object.{obj_size_header_ptr, enqueued_bit}
use lama_rv_workshop.Gc.Object.Laws.{block}
use lama_rv_workshop.Gc.Layout.{Layout, marked_at, Layout-le}
use lama_rv_workshop.Gc.Compact.Locations.{OffSlots}

-- An object of the row stands at `o`.
abbrev pub At : ℕ → List ℕ → ℕ → Type 0
At a [] o = ⊥
At a (n ∷ ns) o = (o ≡ a) ⊎ At (a + block n) ns o

abbrev pub enqueued_at : Mem → ℕ → Bool
enqueued_at m o = enqueued_bit (m (o + 8))

-- Neither marked nor in the queue.
abbrev pub is_white : Mem → ℕ → Bool
is_white m o = not (marked_at m o) && not (enqueued_at m o)

abbrev pub whites : Mem → ℕ → List ℕ → ℕ
whites m a [] = 0
whites m a (n ∷ ns) =
    let rest = whites m (a + block n) ns in if is_white m a then suc rest else rest

abbrev pub count : List ℕ → ℕ
count [] = 0
count (n ∷ ns) = suc (count ns)

pub At-ge : (a : ℕ) (ns : List ℕ) (o : ℕ) → At a ns o → a ≤ o
At-ge a [] o at = elim at [ ]
At-ge a (n ∷ ns) o (inl e) = omega arith
At-ge a (n ∷ ns) o (inr at) = omega (arith, At-ge (a + block n) ns o at)

pub At-aligned : (a : ℕ) (ns : List ℕ) (o : ℕ) → a % 8 ≡ 0 → At a ns o → o % 8 ≡ 0
At-aligned a [] o e at = elim at [ ]
At-aligned a (n ∷ ns) o e (inl same) = omega arith
At-aligned a (n ∷ ns) o e (inr at) = At-aligned (a + block n) ns o (omega arith) at

pub At-sized :
    (m : Mem) (a : ℕ) (ns : List ℕ) (end o : ℕ)
    → Layout m a ns end
    → At a ns o
    → (n : ℕ) × (obj_size_header_ptr m o ≡ ok n) × (16 ≤ n) × (n < word_mod) × (o + block n ≤ end)
At-sized m a [] end o l at = elim at [ ]
At-sized m a (n ∷ ns) end o l (inl e) =
    let le = Layout-le m (a + block n) ns end l.3 in (n, rw e l.0, l.1, l.2, rw e le)
At-sized m a (n ∷ ns) end o l (inr at) = At-sized m (a + block n) ns end o l.3 at

-- A word that is no forward address is none of a given object.
pub OffSlots-At : (a : ℕ) (ns : List ℕ) (b o : ℕ) → OffSlots a ns b → At a ns o → b ≢ o + 8
OffSlots-At a [] b o off at = elim at [ ]
OffSlots-At a (n ∷ ns) b o off (inl e) = rw e off.0
OffSlots-At a (n ∷ ns) b o off (inr at) = OffSlots-At (a + block n) ns b o off.1 at

-- Where no object turns white there are not more white ones, and where one of them turns dark
-- there are less.
module _ (m m' : Mem) where
  pub whites-le :
      (a : ℕ) (ns : List ℕ)
      → ((o : ℕ) → At a ns o → is_white m' o ≡ true → is_white m o ≡ true)
      → whites m' a ns ≤ whites m a ns
  whites-le a [] h = omega arith
  whites-le a (n ∷ ns) h =
      let r = whites-le (a + block n) ns (λ o at. h o (inr at)) in
      elim (Bool-cases (is_white m' a)) [
        | inl e ↦ rw (e, h a (inl refl) e) (omega arith)
        | inr e ↦ elim (Bool-cases (is_white m a)) [
          | inl f ↦ rw (e, f) (omega arith)
          | inr f ↦ rw (e, f) r
        ]
      ]

  pub whites_less :
      (a : ℕ) (ns : List ℕ) (o : ℕ)
      → ((p : ℕ) → At a ns p → is_white m' p ≡ true → is_white m p ≡ true)
      → At a ns o
      → is_white m o ≡ true
      → is_white m' o ≡ false
      → whites m' a ns < whites m a ns
  whites_less a [] o h at e f = elim at [ ]
  whites_less a (n ∷ ns) o h (inl same) e f =
      let r = whites-le (a + block n) ns (λ p at. h p (inr at)) in
      let e2 : is_white m a ≡ true = rw (← same) e in
      let f2 : is_white m' a ≡ false = rw (← same) f in rw (e2, f2) (omega arith)
  whites_less a (n ∷ ns) o h (inr at) e f =
      let r = whites_less (a + block n) ns o (λ p at. h p (inr at)) at e f in
      elim (Bool-cases (is_white m' a)) [
        | inl e2 ↦ rw (e2, h a (inl refl) e2) (omega arith)
        | inr e2 ↦ elim (Bool-cases (is_white m a)) [
          | inl f2 ↦ rw (e2, f2) (omega arith)
          | inr f2 ↦ rw (e2, f2) r
        ]
      ]

pub whites-count : (m : Mem) (a : ℕ) (ns : List ℕ) → whites m a ns ≤ count ns
whites-count m a [] = omega arith
whites-count m a (n ∷ ns) = ground (arith, whites-count m (a + block n) ns)

pub whites_some :
    (m : Mem) (a : ℕ) (ns : List ℕ) (o : ℕ) → At a ns o → is_white m o ≡ true → 0 < whites m a ns
whites_some m a [] o at e = elim at [ ]
whites_some m a (n ∷ ns) o (inl same) e =
    let f : is_white m a ≡ true = rw (← same) e in rw f (omega arith)
whites_some m a (n ∷ ns) o (inr at) e =
    let r = whites_some m (a + block n) ns o at e in
    elim (Bool-cases (is_white m a)) [ inl f ↦ rw f (omega arith) | inr f ↦ rw f r ]
