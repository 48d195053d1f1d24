-- ===== src/Gc/Compact/Spec.antt =====
-- What `compact_phase` of runtime/gc.c is given, and what it results in.
use lama_rv_workshop.Base.{ℕ, ◌+◌, ◌*◌, ◌%◌, ◌≤◌, ◌<◌, ◌≡◌, ◌⊎◌, true, List, if◌then◌else◌}
use lama_rv_workshop.Base.Word.{word_mod}
use lama_rv_workshop.Gc.State.{Chunk, State}
use lama_rv_workshop.Gc.Layout.{Layout}
use lama_rv_workshop.Gc.Compact.Relocate.{live_sizes}
use lama_rv_workshop.Gc.Compact.Objects.{is_live_field}
use lama_rv_workshop.Gc.Compact.References.{is_root}
use lama_rv_workshop.Gc.Compact.Preserved.{follow, PointsLive, Preserved}

-- What `compact_phase` is given: a heap that is a row of objects, a new mapping apart from the old
-- one, roots outside both, and references to marked objects alone.
pub record Compactable (s : State) (ns : List ℕ) (old heap : Chunk) : Type 0 where
  pub row : Layout s.mem old.begin ns old.current
  pub fits : old.current ≤ old.begin + old.size * 8
  pub aligned : old.begin % 8 ≡ 0
  pub positive : 0 < old.begin
  pub words : (old.begin < word_mod) × (heap.begin + heap.size * 8 < word_mod)
  pub apart : (old.begin + old.size * 8 ≤ heap.begin) ⊎ (heap.begin + heap.size * 8 < old.begin)
  pub old_roots : (b : ℕ) → is_root old heap s b ≡ true → (b < old.begin) ⊎ (old.current ≤ b)
  pub new_roots :
      (b : ℕ) → is_root old heap s b ≡ true → (b < heap.begin) ⊎ (heap.begin + heap.size * 8 ≤ b)
  pub fields :
      (b : ℕ) → is_live_field s.mem old.begin ns b ≡ true → PointsLive old heap s.mem ns (s.mem b)
  pub roots : (b : ℕ) → is_root old heap s b ≡ true → PointsLive old heap s.mem ns (s.mem b)

-- What it results in: the marked objects survive, in a row at the new heap's begin and up to its
-- end, and the roots follow their references; other words outside the two heaps are the same.
pub record Compacts (s : State) (ns : List ℕ) (old heap : Chunk) (s' : State) : Type 0 where
  pub survivors : Preserved old heap s.mem ns s'.mem old.begin ns heap.begin
  pub row : Layout s'.mem heap.begin (live_sizes s.mem old.begin ns) s'.heap.current
  pub begins : s'.heap.begin ≡ heap.begin
  pub elsewhere :
      (b : ℕ)
      → (b < old.begin) ⊎ (old.current ≤ b)
      → (b < heap.begin) ⊎ (heap.begin + heap.size * 8 ≤ b)
      → s'.mem b ≡ (if is_root old heap s b then follow old heap s.mem ns (s.mem b) else s.mem b)
