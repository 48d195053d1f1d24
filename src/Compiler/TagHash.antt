-- ===== src/Compiler/TagHash.antt =====
-- The compiler's own copy of the hash of constructors' names, comp/src/runtime.cpp. `LOG(FATAL)`
-- ends the process.
pub mod Same
use lama_rv_workshop.Base.{
  ℕ, zero, suc, ◌+◌, ◌*◌, ◌%◌, ◌^◌, ◌==◌, if◌then◌else◌, Option, none, some, List, [], ◌∷◌, get_or,
}
use lama_rv_workshop.Base.Outcome.{Outcome, ok, exited, fault, ◌>>=◌}
use lama_rv_workshop.Base.Word.{word_mod}
use lama_rv_workshop.Runtime.TagHash.{chars, char_pos, sar6, shift_in, strncmp_eq}

-- The `while` of `LtagHash`, over the alphabet that both copies spell out.
unfoldable pub static_hash_loop : ℕ → List ℕ → ℕ → Outcome ℕ
static_hash_loop zero p h = ok h
static_hash_loop (suc left) [] h = ok h
static_hash_loop (suc left) (c ∷ p) h = elim (char_pos chars c 0) [
  | none ↦ exited
  | some pos ↦ static_hash_loop left p (shift_in h pos)
]

-- The `while` of `de_hash`, with the places left in its buffer.
unfoldable pub static_de_hash_loop : ℕ → ℕ → List ℕ → Outcome (List ℕ)
static_de_hash_loop zero n acc = if n == 0 then ok acc else fault
static_de_hash_loop (suc room) n acc =
    let rest = static_de_hash_loop room (sar6 n) (get_or chars (n % 64) 0 ∷ acc) in
    if n == 0 then ok acc else rest

-- `LtagHash`, with `BOX` as `2 * x + 1`.
unfoldable pub static_tag_hash : List ℕ → Outcome ℕ
static_tag_hash s = do
  h ← static_hash_loop 10 s 0
  name ← static_de_hash_loop 10 h []
  if strncmp_eq 10 s name then ok ((2 * h + 1) % word_mod) else exited
