-- ===== src/Compiler/Call/Moves.antt =====
-- How far lines move the stack pointer: `emit_addi` of comp/include/compiler.h.
use lama_rv_workshop.Base.{
  ℕ, zero, suc, ◌+◌, ◌*◌, ◌≡◌, refl, ◌==◌, Bool, false, List, [], ◌∷◌, ◌++◌, arith, ap, ◌∙◌, sym,
  if◌then◌else◌,
}
use mathlib.Core.List.{append_assoc, append-nil}
use lama_rv_workshop.Base.Int.{ℤ, pos, negsuc}
use lama_rv_workshop.Base.Outcome.{Outcome, Post, Post-weaken}
use lama_rv_workshop.Compiler.Asm.{Asm, IOp, Register, i_type, addi, sp}
use lama_rv_workshop.Compiler.Stack.{Loc, Stack, reg, memory}
use lama_rv_workshop.Compiler.Buffer.{to_reg, slot_offset, symb_emit_mv_to, symb_emit_mv_from}
use lama_rv_workshop.Compiler.State.{Compiler, emit}
use lama_rv_workshop.Compiler.Call.{load_args, push_loc, push_args}
use lama_rv_workshop.Compiler.CallExtends.{Post-pop}

-- The bytes that `addi sp, sp, n` moves the stack pointer up and down.
abbrev pub up_by : ℤ → ℕ
up_by (pos n) = n
up_by (negsuc n) = 0

abbrev pub down_by : ℤ → ℕ
down_by (pos n) = 0
down_by (negsuc n) = suc n

abbrev pub moves_sp : IOp → Register → Register → Bool
moves_sp addi dst src = if dst == sp then src == sp else false
moves_sp _ dst src = false

abbrev pub rise : Asm → ℕ
rise (i_type op dst src imm) = if moves_sp op dst src then up_by imm else 0
rise _ = 0

abbrev pub fall : Asm → ℕ
fall (i_type op dst src imm) = if moves_sp op dst src then down_by imm else 0
fall _ = 0

abbrev pub rises : List Asm → ℕ
rises [] = 0
rises (line ∷ rest) = rise line + rises rest

abbrev pub falls : List Asm → ℕ
falls [] = 0
falls (line ∷ rest) = fall line + falls rest

pub rises-append : (xs ys : List Asm) → rises (xs ++ ys) ≡ rises xs + rises ys
rises-append [] ys = omega arith
rises-append (x ∷ xs) ys = rw (rises-append xs ys) (omega arith)

pub falls-append : (xs ys : List Asm) → falls (xs ++ ys) ≡ falls xs + falls ys
falls-append [] ys = omega arith
falls-append (x ∷ xs) ys = rw (falls-append xs ys) (omega arith)

-- The lines from `c` to `c'` move the stack pointer `up` bytes up and `down` bytes down.
pub record Moves (up down : ℕ) (c c' : Compiler) : Type 0 where
  pub lines : List Asm
  pub written : c'.out ≡ c.out ++ lines
  pub ups : rises lines ≡ up
  pub downs : falls lines ≡ down

pub Moves-trans :
    (a b d e : ℕ) (c c1 c2 : Compiler)
    → Moves a d c c1
    → Moves b e c1 c2
    → Moves (a + b) (d + e) c c2
Moves-trans a b d e c c1 c2 m n = record {
  lines = m.lines ++ n.lines;
  written = n.written ∙ ap (λ o. o ++ n.lines) m.written ∙ append_assoc c.out m.lines n.lines;
  ups = rw (rises-append m.lines n.lines, m.ups, n.ups) refl;
  downs = rw (falls-append m.lines n.lines, m.downs, n.downs) refl;
}

pub Moves-then :
    (P : Compiler → Type 0) (a b d e : ℕ) (c c1 : Compiler) (m : Outcome Compiler)
    → Moves a d c c1
    → Post (λ c2. Moves b e c1 c2 × P c2) m
    → Post (λ c2. Moves (a + b) (d + e) c c2 × P c2) m
Moves-then P a b d e c c1 m h = Post-weaken _ _ m (λ c2 k. (Moves-trans a b d e c c1 c2 h k.0, k.1))

pub slot_fall : (n : ℕ) → (up_by (slot_offset n) ≡ 0) × (down_by (slot_offset n) ≡ n * 8)
slot_fall n = ground arith

-- Lines of which none adds to the stack pointer.
pub record IsLevel (lines : List Asm) : Type 0 where
  pub no_ups : rises lines ≡ 0
  pub no_downs : falls lines ≡ 0

pub Moves-emit :
    (c : Compiler) (top : Stack) (lines : List Asm)
    → Moves (rises lines) (falls lines) c (emit lines (record c { top = top }))
Moves-emit c top lines = record { lines = lines; written = refl; ups = refl; downs = refl }

pub Moves-level :
    (c : Compiler) (top : Stack) (lines : List Asm)
    → IsLevel lines
    → Moves 0 0 c (emit lines (record c { top = top }))
Moves-level c top lines l = record {
  lines = lines;
  written = refl;
  ups = l.no_ups;
  downs = l.no_downs;
}

pub IsLevel-mv_to : (dst : Register) (loc : Loc) → IsLevel (symb_emit_mv_to dst loc)
unfolding symb_emit_mv_to to_reg
IsLevel-mv_to dst (reg r) = record { no_ups = refl; no_downs = refl }
IsLevel-mv_to dst (memory k) = record { no_ups = refl; no_downs = refl }

pub IsLevel-mv_from : (loc : Loc) (src : Register) → IsLevel (symb_emit_mv_from loc src)
unfolding symb_emit_mv_from to_reg
IsLevel-mv_from (reg r) src = record { no_ups = refl; no_downs = refl }
IsLevel-mv_from (memory k) src = record { no_ups = refl; no_downs = refl }

pub Moves-refl : (c : Compiler) → Moves 0 0 c c
Moves-refl c = record { lines = []; written = sym (append-nil c.out); ups = refl; downs = refl }

pub load_args-Moves : (lowest n : ℕ) (c : Compiler) → Post (Moves 0 0 c) (load_args lowest n c)
unfolding load_args
load_args-Moves lowest zero c = Moves-refl c
load_args-Moves lowest (suc n) c = Post-pop (Moves 0 0 c) c.top _ (λ r.
    Post-weaken _ _ (load_args lowest n _)
      (λ c2 m. Moves-trans 0 0 0 0 c _ c2 (Moves-level c r.1 _ (IsLevel-mv_to _ r.0)) m)
      (load_args-Moves lowest n _))

pub push_loc_moves : (loc : Loc) → (rises (push_loc loc) ≡ 0) × (falls (push_loc loc) ≡ 8)
unfolding to_reg
push_loc_moves (reg r) = (refl, refl)
push_loc_moves (memory k) = (refl, refl)

pub push_args-Moves : (n : ℕ) (c : Compiler) → Post (Moves 0 (n * 8) c) (push_args n c)
unfolding push_args
push_args-Moves zero c = Moves-refl c
push_args-Moves (suc n) c = Post-pop (Moves 0 (suc n * 8) c) c.top _ (λ r.
    Post-weaken _ _ (push_args n _)
      (λ c2 m. pushed r c2 (Moves-trans 0 0 8 (n * 8) c _ c2 (step r) m)) (push_args-Moves n _))
  where
    step : (r : Loc × Stack) → Moves 0 8 c (emit (push_loc r.0) (record c { top = r.1 }))
    step r = record {
      lines = push_loc r.0;
      written = refl;
      ups = (push_loc_moves r.0).0;
      downs = (push_loc_moves r.0).1;
    }

    pushed : (r : Loc × Stack) (c2 : Compiler) → Moves 0 (8 + n * 8) c c2 → Moves 0 (suc n * 8) c c2
    pushed r c2 m = record {
      lines = m.lines;
      written = m.written;
      ups = m.ups;
      downs = m.downs ∙ (omega arith);
    }
