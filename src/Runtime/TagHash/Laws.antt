-- ===== src/Runtime/TagHash/Laws.antt =====
-- Hashing a name and reading it back.
use mathlib.Core.List.{append-nil}
use native.Mathlib.Nat.{pow-suc, one-le-pow}
use lama_rv_workshop.Base.{
  ℕ, zero, suc, ◌+◌, ◌-◌, ◌*◌, ◌%◌, ◌^◌, ◌≤◌, ◌<◌, ◌≡◌, refl, ◌≢◌, Bool, true, false, arith, ◌==◌,
  List, [], ◌∷◌, ◌++◌, some, ◌∙◌, get_or, take, length, inl, inr, Bool-cases, Option-cases, All, ap,
  sym, ==_refl, length-take,
}
use lama_rv_workshop.Base.Outcome.{ok, >>=-eq-ok}
use lama_rv_workshop.Runtime.Value.{box}
use lama_rv_workshop.Runtime.TagHash.{
  chars, char_pos, sar6, de_hash_loop, de_hash, shift_in, hash_loop, strncmp_eq, tag_hash,
}

-- What `char_pos` finds is the place of the character.
char_pos-get :
    (qs : List ℕ) (c pos r : ℕ)
    → char_pos qs c pos ≡ some r
    → (pos ≤ r) × (r < pos + length qs) × (get_or qs (r - pos) 0 ≡ c)
unfolding char_pos
char_pos-get [] c pos r h = cc
char_pos-get (q ∷ qs) c pos r h = elim (Bool-cases (q == c)) [
  | inl e ↦ ground arith
  | inr e ↦
      let rest = char_pos-get qs c (pos + 1) r (rw e at h) in
      let there : r - pos ≡ suc (r - (pos + 1)) = omega arith in
      (omega arith, omega arith, rw there rest.2)
]

abbrev pub InAlphabet : ℕ → Type 0
InAlphabet c = (pos : ℕ) × (char_pos chars c 0 ≡ some pos)

pos_lem : (c pos : ℕ) → char_pos chars c 0 ≡ some pos → (pos < 64) × (get_or chars pos 0 ≡ c)
pos_lem c pos h =
    let r = char_pos-get chars c 0 pos h in
    let e : pos - 0 ≡ pos = omega arith in (r.1, rw e at r.2)

-- One round of `de_hash` undoes one round of `LtagHash`.
de_hash-shift_in :
    (room h c pos : ℕ) (acc : List ℕ)
    → h < 2 ^ 54
    → char_pos chars c 0 ≡ some pos
    → shift_in h pos ≢ 0
    → de_hash_loop (suc room) (shift_in h pos) acc ≡ de_hash_loop room h (c ∷ acc)
unfolding de_hash_loop
de_hash-shift_in room h c pos acc small found ne =
    let p = pos_lem c pos found in
    let more : (shift_in h pos == 0) ≡ false = ground arith in
    let low : shift_in h pos % 64 ≡ pos = omega arith in
    let high : sar6 (shift_in h pos) ≡ h = ground arith in rw (more, low, high, p.1) refl

mul_mono : (a b x : ℕ) → a ≤ b → a * x ≤ b * x
mul_mono a b x h = grind arith

room-step :
    (left h pos : ℕ)
    → pos < 64
    → (h + 1) * 64 ^ suc left ≤ 64 ^ 10
    → (h < 2 ^ 54) × ((h * 64 + pos + 1) * 64 ^ left ≤ 64 ^ 10)
room-step left h pos p fits =
    let x : ℕ = 64 ^ left in
    let e : 64 ^ suc left ≡ x * 64 = pow-suc 64 left in
    let one : 1 ≤ x = one-le-pow left 64 (omega arith) in
    let whole : (h + 1) * (x * 64) ≤ 64 ^ 10 = rw e at fits in
    let a = mul_mono (h * 64 + pos + 1) ((h + 1) * 64) x (omega arith) in
    let b = mul_mono 1 x ((h + 1) * 64) one in (omega arith, omega arith)

-- From a hash that is not zero on, `de_hash` undoes the rounds that `LtagHash` makes.
de_hash-hash_loop :
    (left room : ℕ) (s : List ℕ) (h v : ℕ) (acc : List ℕ)
    → (h + 1) * 64 ^ left ≤ 64 ^ 10
    → h ≢ 0
    → hash_loop left s h ≡ ok v
    → (v ≢ 0)
      × (de_hash_loop (room + length (take left s)) v acc
          ≡ de_hash_loop room h (take left s ++ acc))
unfolding hash_loop
de_hash-hash_loop zero room s h v acc fits ne e =
    let same : v ≡ h = cc in
    let none_left : room + 0 ≡ room = omega arith in (rw same ne, rw (same, none_left) refl)
de_hash-hash_loop (suc left) room [] h v acc fits ne e =
    let same : v ≡ h = cc in
    let none_left : room + 0 ≡ room = omega arith in (rw same ne, rw (same, none_left) refl)
de_hash-hash_loop (suc left) room (c ∷ s) h v acc fits ne e =
    elim (Option-cases (char_pos chars c 0)) [
      | inl missing ↦ absurd (cc (rw (missing, hash_loop) at e))
      | inr (pos, found) ↦
          let p = pos_lem c pos found in
          let step = room-step left h pos p.0 fits in
          let plain : shift_in h pos ≡ h * 64 + pos = omega arith in
          let ne' : shift_in h pos ≢ 0 = omega arith in
          let rest =
            de_hash-hash_loop left (suc room) s (shift_in h pos) v acc (rw plain step.1) ne'
              (rw (found, hash_loop) at e) in
          let moved : room + suc (length (take left s)) ≡ suc room + length (take left s) =
            omega arith in
          (
            rest.0,
            rw (moved, rest.1)
                (de_hash-shift_in room h c pos (take left s ++ acc) step.0 found ne'),
          )
    ]

hash_loop-ok :
    (left : ℕ) (s : List ℕ) (h : ℕ)
    → (h + 1) * 64 ^ left ≤ 64 ^ 10
    → All InAlphabet (take left s)
    → (v : ℕ) × (hash_loop left s h ≡ ok v)
unfolding hash_loop
hash_loop-ok zero s h fits a = (h, refl)
hash_loop-ok (suc left) [] h fits a = (h, refl)
hash_loop-ok (suc left) (c ∷ s) h fits ((pos, found), rest) =
    let step = room-step left h pos (pos_lem c pos found).0 fits in
    let plain : shift_in h pos ≡ h * 64 + pos = omega arith in
    let r = hash_loop-ok left s (shift_in h pos) (rw plain step.1) rest in
    (r.0, rw (found, hash_loop) r.1)

pub hash_loop-lt :
    (left : ℕ) (s : List ℕ) (h v : ℕ)
    → (h + 1) * 64 ^ left ≤ 64 ^ 10
    → hash_loop left s h ≡ ok v
    → v < 2 ^ 60
unfolding hash_loop
hash_loop-lt zero s h v fits e =
    let same : v ≡ h = cc in let bound : (h + 1) * 1 ≤ 64 ^ 10 = fits in omega arith
hash_loop-lt (suc left) [] h v fits e =
    let same : v ≡ h = cc in
    let one : 1 ≤ 64 ^ suc left = one-le-pow (suc left) 64 (omega arith) in
    let b = mul_mono 1 (64 ^ suc left) (h + 1) one in omega arith
hash_loop-lt (suc left) (c ∷ s) h v fits e = elim (Option-cases (char_pos chars c 0)) [
  | inl missing ↦ absurd (cc (rw (missing, hash_loop) at e))
  | inr (pos, found) ↦
      let step = room-step left h pos (pos_lem c pos found).0 fits in
      let plain : shift_in h pos ≡ h * 64 + pos = omega arith in
      hash_loop-lt left s (shift_in h pos) v (rw plain step.1) (rw (found, hash_loop) at e)
]

pub de_hash_loop-zero : (room : ℕ) (acc : List ℕ) → de_hash_loop room 0 acc ≡ ok acc
unfolding de_hash_loop
de_hash_loop-zero zero acc = refl
de_hash_loop-zero (suc room) acc = refl

strncmp_eq-take : (n : ℕ) (s : List ℕ) → strncmp_eq n s (take n s) ≡ true
unfolding strncmp_eq
strncmp_eq-take zero s = refl
strncmp_eq-take (suc n) [] = refl
strncmp_eq-take (suc n) (x ∷ s) = rw (==_refl x) (strncmp_eq-take n s)

take_of_strncmp_eq : (n : ℕ) (a b : List ℕ) → strncmp_eq n a b ≡ true → take n a ≡ take n b
unfolding strncmp_eq
take_of_strncmp_eq zero a b h = refl
take_of_strncmp_eq (suc n) [] [] h = refl
take_of_strncmp_eq (suc n) [] (y ∷ b) h = cc
take_of_strncmp_eq (suc n) (x ∷ a) [] h = cc
take_of_strncmp_eq (suc n) (x ∷ a) (y ∷ b) h = ground (arith, take_of_strncmp_eq n a b)

-- The name begins with `_`, the character of the digit 0.
abbrev pub starts_with_underscore : List ℕ → Bool
starts_with_underscore [] = false
starts_with_underscore (c ∷ s) = c == b'_'

pub start : (0 + 1) * 64 ^ 10 ≤ 64 ^ 10
start = omega arith

de_hash-hash :
    (s : List ℕ) (v : ℕ)
    → starts_with_underscore s ≡ false
    → hash_loop 10 s 0 ≡ ok v
    → de_hash v ≡ ok (take 10 s)
unfolding de_hash hash_loop
de_hash-hash [] v h e = let same : v ≡ 0 = cc in rw same (de_hash_loop-zero 10 [])
de_hash-hash (c ∷ s) v h e = elim (Option-cases (char_pos chars c 0)) [
  | inl missing ↦ absurd (cc (rw (missing, hash_loop) at e))
  | inr (pos, found) ↦
      let p = pos_lem c pos found in
      let ne : pos ≢ 0 = λ z. cc (h, p.1, z) in
      let plain : shift_in 0 pos ≡ pos = omega arith in
      let ne' : shift_in 0 pos ≢ 0 = rw plain ne in
      let fits : (shift_in 0 pos + 1) * 64 ^ 9 ≤ 64 ^ 10 = omega arith in
      let rest : List ℕ = take 9 s in
      let k : ℕ = 9 - length rest in
      let short : length rest ≤ 9 = omega (arith, length-take 9 s) in
      let room : 10 ≡ suc k + length rest = omega arith in
      let back =
        de_hash-hash_loop 9 (suc k) s (shift_in 0 pos) v [] fits ne' (rw (found, hash_loop) at e) in
      let last = de_hash-shift_in k 0 c pos (rest ++ []) (omega arith) found ne' in
      ap (λ r. de_hash_loop r v []) room
      ∙ back.1
      ∙ last
      ∙ de_hash_loop-zero k (c ∷ (rest ++ []))
      ∙ ap (λ r. ok (c ∷ r)) (append-nil rest)
]

module _ (s : List ℕ) where
  -- A name whose first ten characters are in the alphabet and that does not begin with an
  -- underscore has a hash below 2 ^ 60, which de_hash turns back into those characters.
  pub tag_hash_total :
      All InAlphabet (take 10 s)
      → starts_with_underscore s ≡ false
      → (h : ℕ) × (h < 2 ^ 60) × (tag_hash s ≡ ok (box h)) × (de_hash h ≡ ok (take 10 s))
  unfolding tag_hash
  tag_hash_total a h =
      let v = hash_loop-ok 10 s 0 start a in
      let back = de_hash-hash s v.0 h v.1 in
      (v.0, hash_loop-lt 10 s 0 v.0 start v.1, rw (v.1, back, strncmp_eq-take 10 s) refl, back)

  -- What a hash that was accepted says of the name.
  tag_hash-eq-ok :
      {w : ℕ}
      → tag_hash s ≡ ok w
      → (h : ℕ) × (name : List ℕ) × (h < 2 ^ 60)
        × (w ≡ box h)
        × (de_hash h ≡ ok name)
        × (take 10 s ≡ take 10 name)
  unfolding tag_hash
  tag_hash-eq-ok {w} e =
      let a = >>=-eq-ok (hash_loop 10 s 0) _ e in
      let b = >>=-eq-ok (de_hash a.0) _ a.2 in
      elim (Bool-cases (strncmp_eq 10 s b.0)) [
        | inl same ↦
            let w_eq : w ≡ box a.0 = cc (rw same at b.2) in
            (
              a.0,
              b.0,
              hash_loop-lt 10 s 0 a.0 start a.1,
              w_eq,
              b.1,
              take_of_strncmp_eq 10 s b.0 same,
            )
        | inr differ ↦ absurd (cc (rw differ at b.2))
      ]

-- Two names with the same hash have the same first ten characters.
pub tag_hash-injective :
    (s t : List ℕ) {w : ℕ} → tag_hash s ≡ ok w → tag_hash t ≡ ok w → take 10 s ≡ take 10 t
tag_hash-injective s t hs ht =
    let a = tag_hash-eq-ok s hs in
    let b = tag_hash-eq-ok t ht in
    let same : a.0 ≡ b.0 = omega (arith, a.2, b.2, sym a.3 ∙ b.3) in
    let names : a.1 ≡ b.1 = cc (a.4, b.4, same) in a.5 ∙ ap (take 10) names ∙ sym b.5
