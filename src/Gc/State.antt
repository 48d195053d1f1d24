-- ===== src/Gc/State.antt =====
-- Memory and the collector's global variables.
-- Memory is a word for each address that is a multiple of 8. All of the collector's words are
-- aligned, so two of them overlap only if they are the same. Addresses are byte addresses. Pointer
-- arithmetic is written without wrap-around: that of the source stays inside a mapping.
pub mod Laws
use lama_rv_workshop.Base.{
  ℕ, ◌+◌, ◌-◌, ◌*◌, ◌/◌, ◌%◌, ◌^◌, ◌&&◌, ◌==◌, ltb, leb, if◌then◌else◌, List,
}

abbrev pub Mem : Type 0
Mem = ℕ → ℕ

abbrev pub write : Mem → ℕ → ℕ → Mem
write m a v b = if a == b then v else m b

-- The byte at any address; words are little-endian.
abbrev pub byte_at : Mem → ℕ → ℕ
byte_at m a = m (a - a % 8) / 2 ^ (8 * (a % 8)) % 256

-- `*(char *)a = v`
abbrev pub write_byte : Mem → ℕ → ℕ → Mem
write_byte m a v =
    let unit : ℕ = 2 ^ (8 * (a % 8)) in
    let w : ℕ = m (a - a % 8) in
    write m (a - a % 8) (w / (unit * 256) * (unit * 256) + v % 256 * unit + w % unit)

-- `memset(p, 0, n)` for `n` a multiple of 8.
abbrev pub clear : Mem → ℕ → ℕ → Mem
clear m p n b = if leb p b && ltb b (p + n) then 0 else m b

-- `memmove(to, from, n)` of aligned blocks. Of the last word only `n % 8` bytes are copied.
abbrev pub move : Mem → ℕ → ℕ → ℕ → Mem
move m to from n b =
    if leb to b && ltb b (to + n)
    then (if leb (b + 8) (to + n)
        then m (from + (b - to))
        else (let unit : ℕ = 2 ^ (8 * (n % 8)) in m (from + (b - to)) % unit + m b / unit * unit))
    else m b

-- `memory_chunk`: `begin`, `end` and `current` are addresses, `size` counts words.
pub record Chunk : Type 0 where
  pub begin : ℕ
  pub end : ℕ
  pub current : ℕ
  pub size : ℕ

-- The state of the process that the collector reads and writes.
-- `roots` is `extra_roots.roots[0 .. current_free)`, the last one pushed at the head. The words
-- from `globals_start` to `globals_stop` are the section custom_data.
pub record State : Type 0 where
  pub mem : Mem
  pub heap : Chunk
  pub roots : List ℕ
  pub stack_top : ℕ
  pub stack_bottom : ℕ
  pub globals_start : ℕ
  pub globals_stop : ℕ
