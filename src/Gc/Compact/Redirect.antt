-- ===== src/Gc/Compact/Redirect.antt =====
-- Where a reference into the old heap is redirected to, in runtime/gc.c.
use lama_rv_workshop.Base.{
  ℕ, ◌+◌, ◌-◌, ◌≤◌, ◌≡◌, refl, ◌≢◌, ◌⊎◌, Bool, true, ◌&&◌, arith, List, [], ◌∷◌, if◌then◌else◌, inl,
  inr,
}
use lama_rv_workshop.Base.Outcome.{ok, >>=-eq-ok}
use lama_rv_workshop.Gc.State.{Mem, write, Chunk}
use lama_rv_workshop.Gc.Object.{
  LamaType, get_type_row_ptr, get_type_header_ptr, obj_size_header_ptr, get_forward_address,
  is_valid_pointer,
}
use lama_rv_workshop.Gc.Object.Laws.{block}
use lama_rv_workshop.Gc.Layout.{Layout, marked_at, Layout-le, block_ge}
use lama_rv_workshop.Gc.Compact.{in_old_heap, new_reference}
use lama_rv_workshop.Gc.Compact.Relocate.{When, place}

-- A marked object of the row stands at `o`.
abbrev pub Live : Mem → ℕ → List ℕ → ℕ → Type 0
Live m a [] o = ⊥
Live m a (n ∷ ns) o = ((o ≡ a) × (marked_at m a ≡ true)) ⊎ Live m (a + block n) ns o

pub Live-ge : (m : Mem) (a : ℕ) (ns : List ℕ) (o : ℕ) → Live m a ns o → a ≤ o
Live-ge m a [] o l = elim l [ ]
Live-ge m a (n ∷ ns) o (inl (e, marked)) = omega arith
Live-ge m a (n ∷ ns) o (inr l) = omega (arith, Live-ge m (a + block n) ns o l)

pub Live-sized :
    (m : Mem) (a : ℕ) (ns : List ℕ) (end o : ℕ)
    → Layout m a ns end
    → Live m a ns o
    → (n : ℕ) × (obj_size_header_ptr m o ≡ ok n) × (o + block n ≤ end) × (16 ≤ block n)
Live-sized m a [] end o l r = elim r [ ]
Live-sized m a (n ∷ ns) end o l (inl (e, marked)) =
    let le = Layout-le m (a + block n) ns end l.3 in (n, rw e l.0, rw e le, (block_ge n l.1 l.2).0)
Live-sized m a (n ∷ ns) end o l (inr r) = Live-sized m (a + block n) ns end o l.3 r

pub same_type :
    (m m' : Mem) (a b : ℕ) → m' b ≡ m a → get_type_header_ptr m' b ≡ get_type_header_ptr m a
unfolding get_type_header_ptr
same_type m m' a b e = rw e refl

-- A header that has a size has a type.
pub type_of_size :
    (m : Mem) (a n : ℕ)
    → obj_size_header_ptr m a ≡ ok n
    → (t : LamaType) × (get_type_header_ptr m a ≡ ok t)
unfolding obj_size_header_ptr
type_of_size m a n sized = let r = >>=-eq-ok (get_type_header_ptr m a) _ sized in (r.0, r.1)

module _ (old_heap heap : Chunk) where
  -- The header, in the new mapping, of the object that `w` points to.
  abbrev pub target : ℕ → ℕ
  target w = heap.begin + (w - old_heap.begin) - 16

  abbrev pub is_reference : ℕ → Bool
  is_reference w = is_valid_pointer w && in_old_heap old_heap heap w

  -- A reference becomes a reference to the place of its object, and other words stay.
  abbrev pub redirect : Mem → ℕ → ℕ
  redirect m w = if is_reference w then place old_heap heap m (target w) + 16 else w

  module _ (m : Mem) (ns : List ℕ) where
    -- If `w` is a reference then to a marked object.
    abbrev pub Resolves : ℕ → Type 0
    Resolves w = When (is_reference w) (Live m heap.begin ns (target w))

    -- Headers and forward addresses of the marked objects are those of `m`.
    abbrev pub Heads : Mem → Type 0
    Heads m' = (o : ℕ) → Live m heap.begin ns o → (m' o ≡ m o) × (m' (o + 8) ≡ m (o + 8))

    -- No such word is at `b`.
    abbrev pub OffHeads : ℕ → Type 0
    OffHeads b = (o : ℕ) → Live m heap.begin ns o → (b ≢ o) × (b ≢ o + 8)

    pub Heads-write : (m' : Mem) (b v : ℕ) → OffHeads b → Heads m' → Heads (write m' b v)
    Heads-write m' b v off heads o live = ground (arith, off o live, heads o live)

    pub new_reference_lem :
        (m' : Mem) (w : ℕ)
        → Layout m heap.begin ns heap.current
        → Heads m'
        → Live m heap.begin ns (target w)
        → new_reference old_heap heap m' w ≡ ok (place old_heap heap m (target w) + 16)
    unfolding new_reference get_type_row_ptr get_forward_address
    new_reference_lem m' w l heads live =
        let o = target w in
        let sized = Live-sized m heap.begin ns heap.current o l live in
        let typed = type_of_size m o sized.0 sized.1 in
        let same = heads o live in rw (same.1, same_type m m' o o same.0, typed.1) refl
