-- ===== src/Files/Read.antt =====
-- The loops over read(2) and pread(2) that want a number of bytes: zc_image_read_fd of
-- src/client/media.c and zr_random of src/platform.c.
use zimbr.Prelude.{
  ℕ, zero, suc, ◌-◌, ◌≤◌, min, ◌≡◌, refl, sym, ◌∙◌, ap, Option, none, some, List, [], ◌∷◌, ◌++◌,
  length, take, drop, length-drop, arith, Bool, ◌==◌, true, false,
}
use mathlib.Core.List.{append_assoc, append-nil}
use zimbr.Files.Kernel.{Bytes}

-- an answer of read(2): at most `suc k` bytes, which are none only at the end of the file; or an
-- error
pub data Fetch : Type 0 where
  gives : ℕ → Fetch
  interrupted : Fetch
  failed : Fetch

-- the bytes of a read after its first
abbrev pub got : (k n : ℕ) → Bytes → ℕ
got k n cs = min k (min n (length cs))

-- the bytes that are wanted yet, those that the file has from the position on, and those that were
-- read; a kernel with no answer left has failed
unfoldable pub read_all : List Fetch → ℕ → Bytes → Bytes → Option (Bytes × List Fetch)
read_all answers zero source buffer = some (buffer, answers)
read_all [] (suc n) source buffer = none
read_all (gives k ∷ answers) (suc n) [] buffer = none
read_all (gives k ∷ answers) (suc n) (c ∷ cs) buffer =
    read_all answers (n - got k n cs) (drop (got k n cs) cs) (buffer ++ c ∷ take (got k n cs) cs)
read_all (interrupted ∷ answers) (suc n) source buffer = read_all answers (suc n) source buffer
read_all (failed ∷ answers) (suc n) source buffer = none

sub-zero : (n : ℕ) → n - 0 ≡ n
sub-zero n = omega arith

sub-suc : (n k : ℕ) → suc n - suc k ≡ n - k
sub-suc n k = omega arith

take-empty : (n : ℕ) → ◌≡◌ {A = Bytes} (take n []) []
take-empty zero = refl
take-empty (suc n) = refl

take_after : (k n : ℕ) (b : Bytes) → k ≤ n → take k b ++ take (n - k) (drop k b) ≡ take n b
take_after zero n b h = ap (λ m. take m b) (sub-zero n)
take_after (suc k) zero b h = absurd (omega arith)
take_after (suc k) (suc n) [] h = take-empty (suc n - suc k)
take_after (suc k) (suc n) (c ∷ b) h =
    ap (λ r. c ∷ r)
      (ap (λ m. take k b ++ take m (drop k b)) (sub-suc n k) ∙ take_after k n b (omega arith))

length-take : (n : ℕ) (b : Bytes) → n ≤ length b → length (take n b) ≡ n
length-take zero b h = refl
length-take (suc n) [] h = absurd (omega arith)
length-take (suc n) (c ∷ b) h = ap suc (length-take n b (omega arith))

-- What a run that succeeds has read: the first n bytes of the source, after what the buffer held.
abbrev pub IsRead : ℕ → Bytes → Bytes → Option (Bytes × List Fetch) → Type 0
IsRead n source buffer none = Unit
IsRead n source buffer (some (b, left)) = (b ≡ buffer ++ take n source) × (n ≤ length source)

add_chunk :
    (k n c : ℕ) (cs buffer : Bytes) (r : Option (Bytes × List Fetch))
    → IsRead (n - got k n cs) (drop (got k n cs) cs) (buffer ++ c ∷ take (got k n cs) cs) r
    → IsRead (suc n) (c ∷ cs) buffer r
add_chunk k n c cs buffer none h = tt
add_chunk k n c cs buffer (some (b, left)) h = (
  h.0
      ∙ append_assoc buffer (c ∷ take (got k n cs) cs)
          (take (n - got k n cs) (drop (got k n cs) cs))
      ∙ ap (λ r. buffer ++ c ∷ r) (take_after (got k n cs) n cs (omega arith)),
  omega (arith, h.1, length-drop (got k n cs) cs),
)

pub read_all-IsRead :
    (answers : List Fetch) (n : ℕ) (source buffer : Bytes)
    → IsRead n source buffer (read_all answers n source buffer)
unfolding read_all
read_all-IsRead answers zero source buffer = (sym (append-nil buffer), omega arith)
read_all-IsRead [] (suc n) source buffer = tt
read_all-IsRead (gives k ∷ answers) (suc n) [] buffer = tt
read_all-IsRead (gives k ∷ answers) (suc n) (c ∷ cs) buffer =
    add_chunk k n c cs buffer
      (read_all answers (n - got k n cs) (drop (got k n cs) cs)
        (buffer ++ c ∷ take (got k n cs) cs))
      (read_all-IsRead answers (n - got k n cs) (drop (got k n cs) cs)
        (buffer ++ c ∷ take (got k n cs) cs))
read_all-IsRead (interrupted ∷ answers) (suc n) source buffer =
    read_all-IsRead answers (suc n) source buffer
read_all-IsRead (failed ∷ answers) (suc n) source buffer = tt

-- the answers that give bytes, and that there is no error among the answers
abbrev pub gives_count : List Fetch → ℕ
gives_count [] = 0
gives_count (gives k ∷ answers) = suc (gives_count answers)
gives_count (interrupted ∷ answers) = gives_count answers
gives_count (failed ∷ answers) = gives_count answers

abbrev pub IsFine : List Fetch → Type 0
IsFine [] = Unit
IsFine (gives k ∷ answers) = IsFine answers
IsFine (interrupted ∷ answers) = IsFine answers
IsFine (failed ∷ answers) = ⊥

abbrev pub IsDone : Option (Bytes × List Fetch) → Type 0
IsDone none = ⊥
IsDone (some r) = Unit

-- as many answers with bytes as bytes are wanted are enough for the loop to end
pub read_all-IsDone :
    (answers : List Fetch) (n : ℕ) (source buffer : Bytes)
    → n ≤ length source
    → n ≤ gives_count answers
    → IsFine answers
    → IsDone (read_all answers n source buffer)
unfolding read_all
read_all-IsDone answers zero source buffer l g f = tt
read_all-IsDone [] (suc n) source buffer l g f = absurd (omega arith)
read_all-IsDone (gives k ∷ answers) (suc n) [] buffer l g f = absurd (omega arith)
read_all-IsDone (gives k ∷ answers) (suc n) (c ∷ cs) buffer l g f =
    read_all-IsDone answers (n - got k n cs) (drop (got k n cs) cs)
      (buffer ++ c ∷ take (got k n cs) cs) (omega (arith, length-drop (got k n cs) cs))
      (omega arith) f
read_all-IsDone (interrupted ∷ answers) (suc n) source buffer l g f =
    read_all-IsDone answers (suc n) source buffer l g f
read_all-IsDone (failed ∷ answers) (suc n) source buffer l g f = elim f [ ]

-- one more read, of one byte, finds the end of the file
unfoldable pub at_end : List Fetch → Bytes → Bool
at_end [] rest = false
at_end (gives k ∷ answers) rest = length rest == 0
at_end (interrupted ∷ answers) rest = false
at_end (failed ∷ answers) rest = false

pub take_whole : (n : ℕ) (b : Bytes) → n ≤ length b → (length (drop n b) == 0) ≡ true → take n b ≡ b
take_whole zero [] h e = refl
take_whole zero (c ∷ b) h e = absurd (ground arith)
take_whole (suc n) [] h e = refl
take_whole (suc n) (c ∷ b) h e = ap (λ r. c ∷ r) (take_whole n b (omega arith) e)

pub ended :
    (answers : List Fetch) (rest : Bytes) → at_end answers rest ≡ true → (length rest == 0) ≡ true
unfolding at_end
ended [] rest h = cc
ended (gives k ∷ answers) rest h = h
ended (interrupted ∷ answers) rest h = cc
ended (failed ∷ answers) rest h = cc
