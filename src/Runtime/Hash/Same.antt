-- ===== src/Runtime/Hash/Same.antt =====
-- `Lhash` of runtime/runtime.c on equal values.
use lama_rv_workshop.Base.{ℕ, zero, suc, ◌+◌, ◌-◌, ◌≡◌, refl, ◌⊎◌, inl, inr, true, false}
use lama_rv_workshop.Base.Outcome.{Outcome, ok, failure, exited, fault, out_of_fuel, ◌>>=◌}
use lama_rv_workshop.Runtime.Value.{is_unboxed, string_tag, array_tag, sexp_tag, closure_tag}
use lama_rv_workshop.Runtime.Access.{tag_at, len_at}
use lama_rv_workshop.Runtime.Pattern.{c_string}
use lama_rv_workshop.Runtime.Hash.{hash_calls, hash_fields, hash_object, inner_hash, lhash}
use lama_rv_workshop.Gc.State.{Mem, Chunk}
use lama_rv_workshop.Gc.Object.{is_valid_heap_pointer}

>>=-congr {ℓ κ} :
    {X : Type ℓ} {Y : Type κ} (m : Outcome X) (f g : X → Outcome Y)
    → ((x : X) → f x ≡ g x)
    → (m >>= f) ≡ (m >>= g)
>>=-congr (ok x) f g same = same x
>>=-congr (failure e) f g same = refl
>>=-congr exited f g same = refl
>>=-congr fault f g same = refl
>>=-congr out_of_fuel f g same = refl

module _ (fuel fuel' : ℕ) (heap heap' : Chunk) (m m' : Mem) where
  -- The fields of two objects, from `a` and from `b` on.
  abbrev pub SameFields : (ℕ → ℕ → Type 0) → ℕ → ℕ → ℕ → Type 0
  SameFields R zero a b = Unit
  SameFields R (suc left) a b = R (m a) (m' b) × SameFields R left (a + 8) (b + 8)

  -- Two objects of the tag `t` and the length `l`, with their contents at `p` and at `q`. The first
  -- word of a closure is its code, that of an S-expression its tag.
  pub data SameContents (R : ℕ → ℕ → Type 0) (t l p q : ℕ) : Type 0 where
    texts : t ≡ string_tag → c_string fuel m p ≡ c_string fuel' m' q → SameContents R t l p q
    closures :
        t ≡ closure_tag → m p ≡ m' q → SameFields R (l - 1) (p + 8) (q + 8) → SameContents R t l p q
    arrays : t ≡ array_tag → SameFields R l p q → SameContents R t l p q
    sexps : t ≡ sexp_tag → m p ≡ m' q → SameFields R l (p + 8) (q + 8) → SameContents R t l p q

  -- Objects in the two heaps that have the same form, with fields that `R` relates.
  pub record SameObjects (R : ℕ → ℕ → Type 0) (p q : ℕ) : Type 0 where
    pub boxed : (is_unboxed p ≡ false) × (is_unboxed q ≡ false)
    pub inside : (is_valid_heap_pointer heap p ≡ true) × (is_valid_heap_pointer heap' q ≡ true)
    pub tags : tag_at m p ≡ tag_at m' q
    pub lengths : len_at m p ≡ len_at m' q
    pub contents : SameContents R (tag_at m p) (len_at m p) p q

  -- A word in one memory and a word in the other that stand for the same value, as far as `depth`
  -- levels down: equal integers, equal pointers out of the heaps, or objects of the same form.
  abbrev pub Alike : ℕ → ℕ → ℕ → Type 0
  Alike zero p q = Unit
  Alike (suc depth) p q =
      ((is_unboxed p ≡ true) × (p ≡ q))
      ⊎ ((is_unboxed p ≡ false)
          × (is_valid_heap_pointer heap p ≡ false)
          × (is_valid_heap_pointer heap' q ≡ false)
          × (p ≡ q))
      ⊎ SameObjects (Alike depth) p q

  hash_fields-same :
      (R : ℕ → ℕ → Type 0) (inner inner' : ℕ → ℕ → Outcome ℕ)
      → ((acc p q : ℕ) → R p q → inner acc p ≡ inner' acc q)
      → (left a b acc : ℕ) → SameFields R left a b
      → hash_fields fuel heap m inner left a acc ≡ hash_fields fuel' heap' m' inner' left b acc
  unfolding hash_fields
  hash_fields-same R inner inner' same zero a b acc alike = refl
  hash_fields-same R inner inner' same (suc left) a b acc alike =
      rw (same acc (m a) (m' b) alike.0) (
        >>=-congr (inner' acc (m' b)) _ _
          (λ next. hash_fields-same R inner inner' same left (a + 8) (b + 8) next alike.1))

  hash_object-same :
      (R : ℕ → ℕ → Type 0) (inner inner' : ℕ → ℕ → Outcome ℕ)
      → ((acc p q : ℕ) → R p q → inner acc p ≡ inner' acc q)
      → (t l p q acc : ℕ) → SameContents R t l p q
      → hash_object fuel heap m inner t l p acc ≡ hash_object fuel' heap' m' inner' t l q acc
  unfolding hash_object
  hash_object-same R inner inner' same t l p q acc (texts e s) = rw (e, s) refl
  hash_object-same R inner inner' same t l p q acc (closures e first rest) =
      rw (e, first) (hash_fields-same R inner inner' same (l - 1) (p + 8) (q + 8) _ rest)
  hash_object-same R inner inner' same t l p q acc (arrays e rest) =
      rw e (hash_fields-same R inner inner' same l p q acc rest)
  hash_object-same R inner inner' same t l p q acc (sexps e first rest) =
      rw (e, first) (hash_fields-same R inner inner' same l (p + 8) (q + 8) _ rest)

  inner_hash-Alike :
      (depth acc p q : ℕ)
      → Alike depth p q
      → inner_hash fuel heap m depth acc p ≡ inner_hash fuel' heap' m' depth acc q
  unfolding inner_hash
  inner_hash-Alike zero acc p q alike = refl
  inner_hash-Alike (suc depth) acc p q (inl (odd, e)) =
      let odd' : is_unboxed q ≡ true = rw e at odd in rw (odd, odd', e) refl
  inner_hash-Alike (suc depth) acc p q (inr (inl (even, none, none', e))) =
      let even' : is_unboxed q ≡ false = rw e at even in rw (even, even', none, none', e) refl
  inner_hash-Alike (suc depth) acc p q (inr (inr o)) =
      rw (o.boxed.0, o.boxed.1, o.inside.0, o.inside.1, ← o.tags, ← o.lengths)
        (hash_object-same (Alike depth) (inner_hash fuel heap m depth)
          (inner_hash fuel' heap' m' depth) (inner_hash-Alike depth) (tag_at m p) (len_at m p) p q _
          o.contents)

  -- Two values in two heaps that agree as far as HASH_DEPTH and one more level down have the same
  -- hash, wherever their objects lie: integers and pointers out of the heaps are equal, and
  -- objects have the same tag, length and text, code address or constructor, with fields that
  -- agree.
  pub lhash-Alike : (p q : ℕ) → Alike hash_calls p q → lhash fuel heap m p ≡ lhash fuel' heap' m' q
  unfolding lhash
  lhash-Alike p q alike = rw (inner_hash-Alike hash_calls 0 p q alike) refl
