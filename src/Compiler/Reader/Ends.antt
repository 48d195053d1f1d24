-- ===== src/Compiler/Reader/Ends.antt =====
-- Every check of the file's sections comes to an end: comp/src/bytefile.cpp.
use lama_rv_workshop.Base.{ℕ, ◌+◌, ◌*◌, ltb, List, [], ◌∷◌, drop}
use lama_rv_workshop.Base.Int.{ℤ, pos, negsuc, ltb_ℤ}
use lama_rv_workshop.Base.Outcome.{ok, ◌>>=◌, Post, Post-if, Post-any}
use lama_rv_workshop.Compiler.Bytefile.{
  Bytefile, int_of, int_at, get_string, c_string, until_nul, check_index, get_public_name,
  get_public_offset,
}
use lama_rv_workshop.Base.{◌==◌}
use lama_rv_workshop.Compiler.Reader.{byte_of}

pub int_of_ends : (bytes : List ℕ) → Post (λ _. Unit) (int_of bytes)
int_of_ends [] = tt
int_of_ends (a ∷ []) = tt
int_of_ends (a ∷ b ∷ []) = tt
int_of_ends (a ∷ b ∷ c ∷ []) = tt
int_of_ends (a ∷ b ∷ c ∷ d ∷ rest) = tt

pub byte_of_ends : (bytes : List ℕ) → Post (λ _. Unit) (byte_of bytes)
byte_of_ends [] = tt
byte_of_ends (b ∷ rest) = tt

pub check_index_ends : (i : ℤ) (n : ℕ) → Post (λ _. Unit) (check_index i n)
check_index_ends (pos i) n = Post-if _ (ltb i n) _ _ tt tt
check_index_ends (negsuc i) n = tt

pub until_nul_ends : (bytes : List ℕ) → Post (λ _. Unit) (until_nul bytes)
until_nul_ends [] = tt
until_nul_ends (b ∷ bytes) =
    Post-if (λ _. Unit) (b == 0) (ok []) (until_nul bytes >>= (λ rest. ok (b ∷ rest))) tt
      (Post-any (λ _. Unit) (until_nul bytes) (λ rest. ok (b ∷ rest)) (until_nul_ends bytes)
        (λ rest. tt))

pub c_string_ends : (f : Bytefile) (place : ℕ) → Post (λ _. Unit) (c_string f place)
c_string_ends f place = until_nul_ends (drop place f.buffer)

pub get_string_ends : (f : Bytefile) (place : ℤ) → Post (λ _. Unit) (get_string f place)
unfolding get_string
get_string_ends f place = Post-any _ _ _ (check_index_ends place _) (λ n. tt)

pub get_public_name_ends : (f : Bytefile) (i : ℤ) → Post (λ _. Unit) (get_public_name f i)
unfolding get_public_name
get_public_name_ends f i = Post-any _ _ _ (check_index_ends i _) (λ n.
    Post-any _ (int_at f.buffer (4 * (n * 2))) _ (int_of_ends _) (λ name. get_string_ends f name))

pub get_public_offset_ends : (f : Bytefile) (i : ℤ) → Post (λ _. Unit) (get_public_offset f i)
unfolding get_public_offset
get_public_offset_ends f i = Post-any _ _ _ (check_index_ends i _) (λ n.
    Post-any _ (int_at f.buffer (4 * (n * 2 + 1))) _ (int_of_ends _)
      (λ offset. Post-if _ (ltb_ℤ f.size offset) _ _ tt tt))
