-- ===== src/Compiler/Reader/Forward.antt =====
-- The reader of instructions goes forward and stays in the file.
use lama_rv_workshop.Base.{
  ℕ, zero, suc, ◌+◌, ◌≡◌, ◌≤◌, refl, ltb, if◌then◌else◌, true, Bool-cases, List, arith, inl, inr,
  drop,
}
use lama_rv_workshop.Base.Int.{ℤ, pos, negsuc, pos_part, eqb_ℤ}
use lama_rv_workshop.Base.Word.{to_word}
use lama_rv_workshop.Base.Outcome.{
  Outcome, ok, exited, fault, ◌>>=◌, Post, Post-bind, Post-weaken, Post-if, Post-any,
}
use lama_rv_workshop.Compiler.Asm.{Label}
use lama_rv_workshop.Compiler.Instruction.{Inst}
use lama_rv_workshop.Compiler.Bytefile.{
  Bytefile, buffer_offset, int_at, get_string, c_string, get_public_name, get_public_offset,
  text_of,
}
use lama_rv_workshop.Base.{◌==◌}
use lama_rv_workshop.Compiler.Reader.{
  InstReader, byte_of, can_read, read_byte, read_int, read_string_at, read_string, read_loc,
  read_locs, read_begin, with_int, with_ints, with_name, read_string_inst, read_closure,
}
use lama_rv_workshop.Compiler.Reader.Ends.{
  int_of_ends, byte_of_ends, c_string_ends, get_string_ends, get_public_name_ends,
  get_public_offset_ends,
}

module _ (file : Bytefile) where
  -- The reader has not passed the file's end.
  abbrev pub Fits : InstReader → Type 0
  Fits r = buffer_offset + r.ip ≤ pos_part file.size

  -- From one reader to another `k` bytes or more further on.
  pub record Forward (k : ℕ) (r r' : InstReader) : Type 0 where
    pub further : r.ip + k ≤ r'.ip
    pub fits : Fits r → Fits r'

  can_read-Fits :
      (n : ℕ) (r : InstReader)
      → can_read file n r ≡ true
      → buffer_offset + (r.ip + n) ≤ pos_part file.size
  can_read-Fits n r h = ground arith

  -- What was read, and the reader behind it.
  abbrev pub Reads {ℓ} : {A : Type ℓ} → ℕ → InstReader → Outcome (A × InstReader) → Type 0
  Reads k r m = Post (λ q. Forward k r q.1) m

  read_int-Reads : (r : InstReader) → Reads 0 r (read_int file r)
  unfolding read_int
  read_int-Reads r = elim (Bool-cases (can_read file 4 r)) [
    | inl e ↦
        rw (e, read_int)
          (Post-any _ (int_at file.buffer r.ip) _ (int_of_ends _)
            (λ n. record { further = omega arith; fits = λ _. can_read-Fits 4 r e }))
    | inr e ↦ rw (e, read_int) tt
  ]

  pub read_byte-Reads : (r : InstReader) → Post (λ q. Forward 1 r q.1 × Fits q.1) (read_byte file r)
  unfolding read_byte
  read_byte-Reads r = elim (Bool-cases (can_read file 1 r)) [
    | inl e ↦
        rw (e, read_byte)
          (Post-any _ (byte_of (drop r.ip file.buffer)) _ (byte_of_ends _) (λ n. (
            record { further = omega arith; fits = λ _. can_read-Fits 1 r e },
            can_read-Fits 1 r e,
          )))
    | inr e ↦ rw (e, read_byte) tt
  ]

  read_byte-Reads' : (r : InstReader) → Reads 0 r (read_byte file r)
  read_byte-Reads' r =
      Post-weaken (λ q. Forward 1 r q.1 × Fits q.1) (λ q. Forward 0 r q.1) (read_byte file r)
        (λ q h. record { further = omega (arith, h.0.further); fits = h.0.fits })
        (read_byte-Reads r)

  Forward-trans :
      (a b : ℕ) (r r1 r2 : InstReader) → Forward a r r1 → Forward b r1 r2 → Forward (a + b) r r2
  Forward-trans a b r r1 r2 e f = record {
    further = omega (arith, e.further, f.further);
    fits = λ h. f.fits (e.fits h);
  }

  Forward-stay : (r r' : InstReader) → r'.ip ≡ r.ip → Forward 0 r r'
  Forward-stay r r' e = record { further = rw e (omega arith); fits = λ h. rw e h }

  pub Reads-bind {ℓ κ} :
      {A : Type ℓ} {B : Type κ} (a b : ℕ) (r : InstReader) (m : Outcome (A × InstReader))
      (next : A × InstReader → Outcome (B × InstReader))
      → Reads a r m
      → ((q : A × InstReader) → Reads b q.1 (next q))
      → Reads (a + b) r (m >>= next)
  Reads-bind a b r m next h k =
      Post-bind (λ q. Forward (a + b) r q.1) m next
        (Post-weaken (λ q. Forward a r q.1) _ m
          (λ q e.
            Post-weaken (λ p. Forward b q.1 p.1) _ (next q) (λ p f. Forward-trans a b r q.1 p.1 e f)
              (k q))
          h)

  pub Forward-refl : (r : InstReader) → Forward 0 r r
  Forward-refl r = Forward-stay r r refl

  read_string_at-Reads : (place : ℤ) (r : InstReader) → Reads 0 r (read_string_at file place r)
  unfolding read_string_at
  read_string_at-Reads place r =
      Post-if (λ q. Forward 0 r q.1) (eqb_ℤ place (negsuc 0)) _ _
        (Reads-bind 0 0 r _ _ (read_int-Reads r) (λ q.
          Post-any _ (get_string file q.0) _ (get_string_ends file q.0) (λ s. Forward-refl q.1)))
        (Post-any _ (get_string file place) _ (get_string_ends file place) (λ s. Forward-refl r))

  read_string-Reads : (r : InstReader) → Reads 0 r (read_string file r)
  read_string-Reads r =
      Reads-bind 0 0 r _ _ (read_string_at-Reads _ r)
        (λ q. Post-any _ (c_string file q.0) _ (c_string_ends file q.0) (λ name. Forward-refl q.1))

  read_loc-Reads : (r : InstReader) → Reads 0 r (read_loc file r)
  unfolding read_loc
  read_loc-Reads r =
      Reads-bind 0 0 r _ _ (read_byte-Reads' r)
        (λ q. Reads-bind 0 0 q.1 _ _ (read_int-Reads q.1) (λ p. Forward-refl p.1))

  read_locs-Reads : (n : ℕ) (r : InstReader) → Reads 0 r (read_locs file n r)
  unfolding read_locs
  read_locs-Reads zero r = Forward-refl r
  read_locs-Reads (suc n) r =
      Reads-bind 0 0 r _ _ (read_loc-Reads r)
        (λ q. Reads-bind 0 0 q.1 _ _ (read_locs-Reads n q.1) (λ p. Forward-refl p.1))

  pub with_int-Reads : (make : ℤ → Inst) (r : InstReader) → Reads 0 r (with_int file make r)
  with_int-Reads make r = Reads-bind 0 0 r _ _ (read_int-Reads r) (λ q. Forward-refl q.1)

  pub with_ints-Reads : (make : ℤ → ℤ → Inst) (r : InstReader) → Reads 0 r (with_ints file make r)
  with_ints-Reads make r =
      Reads-bind 0 0 r _ _ (read_int-Reads r)
        (λ q. Reads-bind 0 0 q.1 _ _ (read_int-Reads q.1) (λ p. Forward-refl p.1))

  pub with_name-Reads :
      (make : List ℕ → ℤ → Inst) (r : InstReader) → Reads 0 r (with_name file make r)
  with_name-Reads make r =
      Reads-bind 0 0 r _ _ (read_string-Reads r)
        (λ q. Reads-bind 0 0 q.1 _ _ (read_int-Reads q.1) (λ p. Forward-refl p.1))

  pub read_string_inst-Reads : (r : InstReader) → Reads 0 r (read_string_inst file r)
  unfolding read_string_inst
  read_string_inst-Reads r = Reads-bind 0 0 r _ _ (read_int-Reads r) (λ q.
      Reads-bind 0 0 q.1 _ _ (read_string_at-Reads q.0 q.1) (λ p.
        Post-any _ (c_string file p.0) _ (c_string_ends file p.0)
          (λ text. Forward-stay p.1 _ refl)))

  pub read_closure-Reads : (r : InstReader) → Reads 0 r (read_closure file r)
  unfolding read_closure
  read_closure-Reads r =
      Reads-bind 0 0 r _ _ (read_int-Reads r)
        (λ q. Reads-bind 0 0 q.1 _ _ (read_int-Reads q.1) (λ p. captured q.0 p.0 p.1))
    where
      captured :
          (entry n : ℤ) (r2 : InstReader)
          → Reads 0 r2 (elim n [
            | negsuc k ↦ fault
            | pos k ↦ (do
              (locs, r3) ← read_locs file k r2
              ok (Inst.closure (to_word entry) locs, r3))
          ])
      captured entry (negsuc k) r2 = tt
      captured entry (pos k) r2 =
          Reads-bind 0 0 r2 _ _ (read_locs-Reads k r2) (λ q. Forward-refl q.1)

  pub read_begin-Reads : (start : ℕ) (r : InstReader) → Reads 0 r (read_begin file start r)
  unfolding read_begin
  read_begin-Reads start r =
      Post-weaken (λ q. Forward 0 (record r { function_index = r.function_index + 1 }) q.1)
        (λ q. Forward 0 r q.1) _ (λ q f. record { further = f.further; fits = f.fits })
        (Reads-bind 0 0 (record r { function_index = r.function_index + 1 }) _ _ (read_int-Reads _)
          (λ q. Reads-bind 0 0 q.1 _ _ (read_int-Reads q.1) (λ p.
            Post-if (λ x. Forward 0 p.1 x.1) (ltb r.function_index file.public_symbols_number) _ _
              (named p.1 (to_word q.0) (to_word p.0)) (Forward-refl p.1))))
    where
      named :
          (r2 : InstReader) (argc locc : ℕ)
          → Reads 0 r2 (do
            offset ← get_public_offset file (pos r.function_index)
            let rest = (do
              s ← get_public_name file (pos r.function_index)
              name ← c_string file s
              ok (Inst.begin (Label.function (text_of name)) argc locc, r2))
            if to_word offset == start then rest else exited)
      named r2 argc locc =
          Post-any _ (get_public_offset file (pos r.function_index)) _
            (get_public_offset_ends file _)
            (λ offset.
              Post-if (λ x. Forward 0 r2 x.1) (to_word offset == start) _ _
                (Post-any _ (get_public_name file (pos r.function_index)) _
                  (get_public_name_ends file _)
                  (λ s.
                    Post-any _ (c_string file s) _ (c_string_ends file s)
                      (λ name. Forward-refl r2)))
                tt)
