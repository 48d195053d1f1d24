-- ===== src/Compiler/TagHash/Same.antt =====
-- The compiler and the runtime give constructors the same tags.
use lama_rv_workshop.Base.{
  ℕ, zero, suc, ◌+◌, ◌*◌, ◌%◌, ◌≡◌, refl, ◌==◌, if◌then◌else◌, none, some, List, [], ◌∷◌, get_or,
  true, false, arith, Bool, Bool-cases, inl, inr, ap,
}
use lama_rv_workshop.Base.Outcome.{Outcome, ok, exited, failure, message, fault, out_of_fuel, ◌>>=◌}
use lama_rv_workshop.Base.Word.{word_mod}
use lama_rv_workshop.Runtime.Value.{box}
use lama_rv_workshop.Runtime.TagHash.{
  chars, char_pos, sar6, shift_in, strncmp_eq, hash_loop, de_hash_loop, de_hash, tag_hash,
}
use lama_rv_workshop.Compiler.TagHash.{static_hash_loop, static_de_hash_loop, static_tag_hash}

-- A failure of the runtime is an end of the process in the compiler.
abbrev pub as_static {ℓ} : {A : Type ℓ} → Outcome A → Outcome A
as_static (failure e) = exited
as_static (ok x) = ok x
as_static exited = exited
as_static fault = fault
as_static out_of_fuel = out_of_fuel

bind-as_static {ℓ κ} :
    {A : Type ℓ} {B : Type κ} (m : Outcome A) (k k' : A → Outcome B)
    → ((x : A) → k x ≡ as_static (k' x))
    → (as_static m >>= k) ≡ as_static (m >>= k')
bind-as_static (failure e) k k' h = refl
bind-as_static (ok x) k k' h = h x
bind-as_static exited k k' h = refl
bind-as_static fault k k' h = refl
bind-as_static out_of_fuel k k' h = refl

static_hash_loop-eq :
    (left : ℕ) (p : List ℕ) (h : ℕ) → static_hash_loop left p h ≡ as_static (hash_loop left p h)
unfolding static_hash_loop hash_loop
static_hash_loop-eq zero p h = refl
static_hash_loop-eq (suc left) [] h = refl
static_hash_loop-eq (suc left) (c ∷ p) h =
    elim (char_pos chars c 0)
      as (λ r.
        (elim r [ none ↦ exited | some pos ↦ static_hash_loop left p (shift_in h pos) ])
        ≡ as_static (elim r [
          | none ↦ failure (message "tagHash: character not found")
          | some pos ↦ hash_loop left p (shift_in h pos)
        ])) [ none ↦ refl | some pos ↦ static_hash_loop-eq left p (shift_in h pos) ]

static_de_hash_loop-eq :
    (room n : ℕ) (acc : List ℕ)
    → static_de_hash_loop room n acc ≡ as_static (de_hash_loop room n acc)
unfolding static_de_hash_loop de_hash_loop
static_de_hash_loop-eq zero n acc = elim (Bool-cases (n == 0)) [
  | inl e ↦ rw e refl
  | inr e ↦ rw e refl
]
static_de_hash_loop-eq (suc room) n acc = elim (Bool-cases (n == 0)) [
  | inl e ↦ rw e refl
  | inr e ↦ rw e (static_de_hash_loop-eq room (sar6 n) (get_or chars (n % 64) 0 ∷ acc))
]

verdict-eq :
    (h : ℕ) (same : Bool)
    → (if same then ok ((2 * h + 1) % word_mod) else exited)
      ≡ as_static (if same then ok (box h) else failure (message "tagHash"))
verdict-eq h true = ap ok (omega arith)
verdict-eq h false = refl

-- The hash that the compiler computes for a name is the one that the runtime computes, and it ends
-- the process where the runtime fails.
pub static_tag_hash_lem : (s : List ℕ) → static_tag_hash s ≡ as_static (tag_hash s)
unfolding static_tag_hash tag_hash de_hash
static_tag_hash_lem s = rw (static_hash_loop-eq 10 s 0) (
    bind-as_static (hash_loop 10 s 0) _ _ (λ h.
      rw (static_de_hash_loop-eq 10 h []) (
        bind-as_static (de_hash_loop 10 h []) _ _ (λ found. verdict-eq h (strncmp_eq 10 s found)))))
