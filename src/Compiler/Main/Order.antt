-- ===== src/Compiler/Main/Order.antt =====
-- The map of the instructions holds them in the order of the file: `main` of comp/src/lama_rv.cpp.
use lama_rv_workshop.Base.{
  ℕ, zero, suc, ◌-◌, ◌%◌, ◌^◌, ◌≡◌, ◌≤◌, ◌<◌, refl, Option, none, some, [], ◌∷◌, ◌++◌, All, arith,
  ap, ◌∙◌, ne→==_false, le→ltb_false, lt→ltb,
}
use native.Mathlib.Nat.{mod-eq_of_lt}
use lama_rv_workshop.Base.Int.{pos_part}
use lama_rv_workshop.Base.Word.{to_word}
use lama_rv_workshop.Base.Outcome.{Outcome, ok, exited, fault, failure, out_of_fuel, ◌>>=◌, Post}
use lama_rv_workshop.Compiler.Instruction.{Inst, to_int}
use lama_rv_workshop.Compiler.Bytefile.{Bytefile}
use lama_rv_workshop.Compiler.Reader.{InstReader, get_offset, read_inst}
use lama_rv_workshop.Compiler.Reader.Forward.{Fits}
use lama_rv_workshop.Compiler.Reader.Bounds.{read_inst-Reads}
use lama_rv_workshop.Compiler.Extends.{All-map, All-append}
use lama_rv_workshop.Compiler.Driver.{Program}
use lama_rv_workshop.Compiler.Main.{emplace, read_program}

-- The instructions one after the other, each with its place behind the start of the code.
abbrev pub read_list : ℕ → Bytefile → InstReader → Program → Outcome Program
read_list zero file r before = out_of_fuel
read_list (suc fuel) file r before = do
  (inst, r1) ← read_inst file r
  elim inst [
    | none ↦ ok before
    | some i ↦ read_list fuel file r1 (before ++ ((r.ip - file.code_ptr, i) ∷ []))
  ]

bind-Post {ℓ κ} :
    {X : Type ℓ} {Y : Type κ} (P : X → Type 0) (m : Outcome X) (k k' : X → Outcome Y)
    → Post P m
    → ((x : X) → P x → k x ≡ k' x)
    → (m >>= k) ≡ (m >>= k')
bind-Post P (ok x) k k' h e = e x h
bind-Post P (failure f) k k' h e = refl
bind-Post P exited k k' h e = refl
bind-Post P fault k k' h e = refl
bind-Post P out_of_fuel k k' h e = refl

abbrev pub Below : ℕ → Program → Type 0
Below n p = All (λ entry. entry.0 < n) p

emplace_last :
    (offset : ℕ) (inst : Inst) (p : Program)
    → Below offset p
    → emplace offset inst p ≡ ok (p ++ ((offset, inst) ∷ []))
unfolding emplace
emplace_last offset inst [] h = refl
emplace_last offset inst ((at, other) ∷ rest) h =
    rw
      (
        ne→==_false at offset (λ e. absurd (omega (arith, h.0, e))),
        le→ltb_false offset at (omega (arith, h.0)),
        emplace_last offset inst rest h.1,
      )
      refl

small_offset : (n : ℕ) → n < 2 ^ 31 → to_word (to_int n) ≡ n
small_offset n h = rw (low, lt→ltb n (2 ^ 31) h, to_int) (mod-eq_of_lt (omega (arith, h)))
  where
    low : n % 2 ^ 32 ≡ n
    low = mod-eq_of_lt (omega (arith, h))

-- For a file of less than 2 ^ 31 bytes, a reader in its code and a map whose addresses all lie
-- before it, the loop of main, which puts the instructions into an ordered map by their offsets as
-- int, comes to what reading them one after the other into a list does, each with its distance
-- from the start of the code: no address is there twice, and the map has the order of the file.
pub read_program-read_list :
    (fuel : ℕ) (file : Bytefile) (r : InstReader) (p : Program)
    → pos_part file.size < 2 ^ 31
    → file.code_ptr ≤ r.ip
    → Below (r.ip - file.code_ptr) p
    → read_program fuel file r p ≡ read_list fuel file r p
unfolding read_program
read_program-read_list zero file r p small above below = refl
read_program-read_list (suc fuel) file r p small above below =
    bind-Post (λ q. (r.ip < q.1.ip) × Fits file q.1) (read_inst file r) _ _ (read_inst-Reads file r)
      (λ q h. go q.0 q.1 h.0 h.1 (λ i.
        read_program-read_list fuel file q.1 (p ++ ((place, i) ∷ [])) small
          (omega (arith, above, h.0)) (grown i q.1 h.0)))
  where
    place : ℕ
    place = r.ip - file.code_ptr

    grown :
        (i : Inst) (r1 : InstReader)
        → r.ip < r1.ip
        → Below (r1.ip - file.code_ptr) (p ++ ((place, i) ∷ []))
    grown i r1 further =
        All-append (λ entry. entry.0 < r1.ip - file.code_ptr) p ((place, i) ∷ [])
          (All-map (λ entry. entry.0 < place) (λ entry. entry.0 < r1.ip - file.code_ptr) p
            (λ entry h. omega (arith, h, further, above)) below)
          (omega (arith, further, above), tt)

    go :
        (inst : Option Inst) (r1 : InstReader)
        → r.ip < r1.ip
        → Fits file r1
        → ((i : Inst)
            → read_program fuel file r1 (p ++ ((place, i) ∷ []))
              ≡ read_list fuel file r1 (p ++ ((place, i) ∷ [])))
        → elim inst [
          | none ↦ ok p
          | some i ↦ (emplace (get_offset file r) i p >>= read_program fuel file r1)
        ]
          ≡ elim inst [ none ↦ ok p | some i ↦ read_list fuel file r1 (p ++ ((place, i) ∷ [])) ]
    go none r1 further fits next = refl
    go (some i) r1 further fits next =
        ap (λ o. emplace o i p >>= read_program fuel file r1)
          (small_offset place (omega (arith, further, fits, small)))
        ∙ (ap (λ m. m >>= read_program fuel file r1) (emplace_last place i p below) ∙ next i)
