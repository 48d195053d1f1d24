-- ===== src/Runtime/TagHash/Underscore.antt =====
-- Names that begin with `_`: the digit 0 at the front of a number leaves no trace in it.
use lama_rv_workshop.Base.{
  ℕ, zero, suc, ◌/◌, ◌%◌, ◌^◌, ◌<◌, ◌≡◌, refl, ◌≢◌, Bool, true, false, not, arith, ◌==◌, ◌&&◌, ◌||◌,
  List, [], ◌∷◌, ◌∙◌, get_or, inl, inr, Bool-cases, sym,
}
use lama_rv_workshop.Base.Outcome.{ok, >>=-eq-ok}
use lama_rv_workshop.Runtime.TagHash.{
  chars, sar6, de_hash_loop, de_hash, hash_loop, strncmp_eq, tag_hash,
}
use lama_rv_workshop.Runtime.TagHash.Laws.{
  starts_with_underscore, hash_loop-lt, start, de_hash_loop-zero,
}

digit_tests : ℕ → Bool
digit_tests zero = true
digit_tests (suc n) = (n == 0 || not (get_or chars n 0 == b'_')) && digit_tests n

digit_of_tests :
    (n i : ℕ) → digit_tests n ≡ true → i < n → i ≢ 0 → (get_or chars i 0 == b'_') ≡ false
unfolding digit_tests
digit_of_tests zero i t h ne = absurd (omega arith)
digit_of_tests (suc n) i t h ne = ground (arith, digit_of_tests n i)

all_digits : digit_tests 64 ≡ true
unfolding digit_tests
all_digits = refl

-- What `de_hash` returns does not begin with `_`.
de_hash_loop-front :
    (room n : ℕ) (acc name : List ℕ)
    → n < 2 ^ 60
    → n ≢ 0
    → de_hash_loop room n acc ≡ ok name
    → starts_with_underscore name ≡ false
unfolding de_hash_loop
de_hash_loop-front zero n acc name small ne e =
    let more : (n == 0) ≡ false = ground arith in absurd (cc (rw (more, de_hash_loop) at e))
de_hash_loop-front (suc room) n acc name small ne e =
    let more : (n == 0) ≡ false = ground arith in
    let next : sar6 n ≡ n / 64 = ground arith in
    let c : ℕ = get_or chars (n % 64) 0 in
    let e' : de_hash_loop room (n / 64) (c ∷ acc) ≡ ok name = rw (more, next, de_hash_loop) at e in
    elim (Bool-cases (n / 64 == 0)) [
      | inl last ↦
          let gone : n / 64 ≡ 0 = ground arith in
          let e'' : de_hash_loop room 0 (c ∷ acc) ≡ ok name = rw gone at e' in
          let same : ok (c ∷ acc) ≡ ok name = sym (de_hash_loop-zero room (c ∷ acc)) ∙ e'' in
          let name_eq : name ≡ c ∷ acc = cc in
          rw name_eq (digit_of_tests 64 (n % 64) all_digits (omega arith) (omega arith))
      | inr more_left ↦
          de_hash_loop-front room (n / 64) (c ∷ acc) name (omega arith) (ground arith) e'
    ]

de_hash-front :
    (n : ℕ) (name : List ℕ) → n < 2 ^ 60 → de_hash n ≡ ok name → starts_with_underscore name ≡ false
unfolding de_hash
de_hash-front zero name small e =
    let same : ok [] ≡ ok name = sym (de_hash_loop-zero 10 []) ∙ e in
    let name_eq : name ≡ [] = cc in rw name_eq refl
de_hash-front (suc n) name small e = de_hash_loop-front 10 (suc n) [] name small (omega arith) e

front_differs :
    (s name : List ℕ)
    → starts_with_underscore s ≡ true
    → starts_with_underscore name ≡ false
    → strncmp_eq 10 s name ≡ false
unfolding strncmp_eq
front_differs [] name h k = cc
front_differs (c ∷ s) [] h k = refl
front_differs (c ∷ s) (d ∷ name) h k = ground arith

-- A name that begins with an underscore is never given a hash, though the underscore is in the
-- alphabet.
pub tag_hash-underscore : (s : List ℕ) (v : ℕ) → starts_with_underscore s ≡ true → tag_hash s ≢ ok v
unfolding tag_hash
tag_hash-underscore s v h e =
    let a = >>=-eq-ok (hash_loop 10 s 0) _ e in
    let b = >>=-eq-ok (de_hash a.0) _ a.2 in
    let small = hash_loop-lt 10 s 0 a.0 start a.1 in
    let differ = front_differs s b.0 h (de_hash-front a.0 b.0 small b.1) in cc (rw differ at b.2)
