-- ===== src/Compiler/Driver/Weight.antt =====
-- What is left of the program while `emit` of comp/src/lama_rv.cpp runs.
use lama_rv_workshop.Base.{
  ℕ, zero, suc, ◌+◌, ◌≡◌, ◌≤◌, ◌<◌, refl, ◌==◌, if◌then◌else◌, Bool, true, false, Bool-cases, [],
  ◌∷◌, length, arith, ◌⊎◌, inl, inr, ==_iff, sym, ap, ◌∙◌,
}
use lama_rv_workshop.Compiler.Instruction.{Inst}
use lama_rv_workshop.Compiler.State.{Heights, find}
use lama_rv_workshop.Compiler.Extends.{has, has_self, has-cons}
use lama_rv_workshop.Compiler.Driver.{Program, from_offset, take_nth}

-- Whether an instruction stands at the address.
abbrev pub has_inst : ℕ → Program → Bool
has_inst t [] = false
has_inst t ((offset, inst) ∷ rest) = if offset == t then true else has_inst t rest

abbrev left_bit : Bool → ℕ
left_bit true = 0
left_bit false = 1

-- The instructions without a label yet.
abbrev pub undone : Program → Heights → ℕ
undone [] done = 0
undone ((offset, inst) ∷ rest) done = left_bit (has offset done) + undone rest done

left_bit_le : (a b : Bool) → (a ≡ true → b ≡ true) → left_bit b ≤ left_bit a
left_bit_le true b h = rw (h refl) (omega arith)
left_bit_le false true h = omega arith
left_bit_le false false h = omega arith

pub undone_le :
    (p : Program) (d e : Heights)
    → ((t : ℕ) → has t d ≡ true → has t e ≡ true)
    → undone p e ≤ undone p d
undone_le [] d e h = omega arith
undone_le ((offset, inst) ∷ rest) d e h =
    omega (arith, left_bit_le (has offset d) (has offset e) (h offset), undone_le rest d e h)

left_bit_small : (b : Bool) → left_bit b ≤ 1
left_bit_small true = omega arith
left_bit_small false = omega arith

pub undone-length : (p : Program) (d : Heights) → undone p d ≤ length p
undone-length [] d = omega arith
undone-length ((offset, inst) ∷ rest) d =
    omega (arith, left_bit_small (has offset d), undone-length rest d)

has_inst_skip :
    (t offset : ℕ) (inst : Inst) (rest : Program)
    → (offset == t) ≡ false
    → has_inst t ((offset, inst) ∷ rest) ≡ has_inst t rest
has_inst_skip t offset inst rest other = rw other refl

has_inst_here :
    (t offset : ℕ) (inst : Inst) (rest : Program)
    → (offset == t) ≡ true
    → has_inst t ((offset, inst) ∷ rest) ≡ true
has_inst_here t offset inst rest same = rw same refl

from_offset_skip :
    (t offset : ℕ) (inst : Inst) (rest : Program)
    → (offset == t) ≡ false
    → from_offset t ((offset, inst) ∷ rest) ≡ from_offset t rest
from_offset_skip t offset inst rest other = rw other refl

pub undone_lt :
    (p : Program) (t : ℕ) (d e : Heights)
    → ((u : ℕ) → has u d ≡ true → has u e ≡ true)
    → has_inst t p ≡ true
    → has t d ≡ false
    → has t e ≡ true
    → undone p e < undone p d
undone_lt [] t d e h present old new = cc
undone_lt ((offset, inst) ∷ rest) t d e h present old new = elim (Bool-cases (offset == t)) [
  | inl same ↦
      let here : offset ≡ t = (==_iff offset t).0 same in
      let old' : has offset d ≡ false = rw here old in
      let new' : has offset e ≡ true = rw here new in
      rw (old', new') (omega (arith, undone_le rest d e h))
  | inr other ↦ omega (
    arith,
    left_bit_le (has offset d) (has offset e) (h offset),
    undone_lt rest t d e h (elsewhere other) old new,
  )
]
  where
    elsewhere : (offset == t) ≡ false → has_inst t rest ≡ true
    elsewhere other = sym (has_inst_skip t offset inst rest other) ∙ present

-- Where the iterator starts: at the end, or at the instruction of the address.
abbrev pub Starts : ℕ → Program → Type 0
Starts t p =
    ((from_offset t p ≡ []) × (has_inst t p ≡ false))
    ⊎ ((inst : Inst) × (rest : Program) × (from_offset t p ≡ (t, inst) ∷ rest)
        × (has_inst t p ≡ true)
        × (length rest < length p))

pub from_offset_cases : (t : ℕ) (p : Program) → Starts t p
from_offset_cases t [] = inl (refl, refl)
from_offset_cases t ((offset, inst) ∷ rest) = elim (Bool-cases (offset == t)) [
  | inl same ↦ first same
  | inr other ↦ later other (from_offset_cases t rest)
]
  where
    first : (offset == t) ≡ true → Starts t ((offset, inst) ∷ rest)
    first same =
        let here : from_offset t ((offset, inst) ∷ rest) ≡ (offset, inst) ∷ rest = rw same refl in
        inr (
          inst,
          rest,
          here ∙ ap (λ o. (o, inst) ∷ rest) ((==_iff offset t).0 same),
          has_inst_here t offset inst rest same,
          omega arith,
        )

    later : (offset == t) ≡ false → Starts t rest → Starts t ((offset, inst) ∷ rest)
    later other (inl (nothing, absent)) = inl (
      from_offset_skip t offset inst rest other ∙ nothing,
      has_inst_skip t offset inst rest other ∙ absent,
    )
    later other (inr (found, tail, here, present, shorter)) = inr (
      found,
      tail,
      from_offset_skip t offset inst rest other ∙ here,
      has_inst_skip t offset inst rest other ∙ present,
      omega (arith, shorter),
    )

-- The entry that is taken out, and the others.
pub length-take_nth : (n : ℕ) (x : ℕ × ℕ) (xs : Heights) → length (take_nth n x xs).1 ≡ length xs
length-take_nth n x [] = refl
length-take_nth zero x (y ∷ ys) = refl
length-take_nth (suc n) x (y ∷ ys) = rw (length-take_nth n y ys) refl

has_split : (t a h : ℕ) (m : Heights) → has t ((a, h) ∷ m) ≡ true → (t ≡ a) ⊎ (has t m ≡ true)
has_split t a h m e = elim (Bool-cases (a == t)) [
  | inl same ↦ inl (sym ((==_iff a t).0 same))
  | inr other ↦ inr (sym (skip other) ∙ e)
]
  where
    skip : (a == t) ≡ false → has t ((a, h) ∷ m) ≡ has t m
    skip other = rw (other, has, find) refl

pub take_nth-has :
    (n : ℕ) (x : ℕ × ℕ) (xs : Heights) (t : ℕ)
    → has t (x ∷ xs) ≡ true
    → (t ≡ (take_nth n x xs).0.0) ⊎ (has t (take_nth n x xs).1 ≡ true)
take_nth-has n x [] t h = has_split t x.0 x.1 [] h
take_nth-has zero x (y ∷ ys) t h = has_split t x.0 x.1 (y ∷ ys) h
take_nth-has (suc n) x (y ∷ ys) t h = elim (has_split t x.0 x.1 (y ∷ ys) h) [
  | inl e ↦ inr (rw e (has_self x.0 x.1 (take_nth n y ys).1))
  | inr later ↦ elim (take_nth-has n y ys t later) [
    | inl e ↦ inl e
    | inr others ↦ inr (has-cons t x.0 x.1 (take_nth n y ys).1 others)
  ]
]
