-- ===== src/Cache/Names.antt =====
-- zc_cache_temp and zc_cache_install of src/client/media.c: the names that they use.
use zimbr.Prelude.{
  ℕ, ◌*◌, ◌/◌, ◌%◌, ◌<◌, ◌≡◌, refl, sym, ◌∙◌, ap, true, not, ◌||◌, some, [], ◌∷◌, ◌++◌, ltb, length,
  All, Bool-cases, inl, inr, arith, ◌==◌, ◌≤◌, ltb→le, or_first, ==_iff, true_of_not, or_second,
}
use zimbr.Files.Kernel.{Bytes, Kernel, open_call, create_at}
use zimbr.Cache.{
  temporary_prefix, all_name_bytes, cache_name, digit, digits, cache_temp, is_name_byte,
}

digit-is_name_byte : (d : ℕ) → d < 16 → is_name_byte (digit d) ≡ true
digit-is_name_byte d h = ground arith

length-digits : (random : Bytes) → length (digits random) ≡ 2 * length random
unfolding digits
length-digits [] = refl
length-digits (r ∷ random) = omega (arith, length-digits random)

digits-are_name_bytes :
    (random : Bytes) → All (λ r. r < 256) random → all_name_bytes (digits random) ≡ true
unfolding digits all_name_bytes
digits-are_name_bytes [] h = refl
digits-are_name_bytes (r ∷ random) h =
    rw (digit-is_name_byte (r / 16) (omega arith), digit-is_name_byte (r % 16) (omega arith))
      (digits-are_name_bytes random h.1)

-- a name of 16 bytes
abbrev pub temporary_name : Bytes → Bytes
temporary_name random = temporary_prefix ++ digits random

digit_inj : (a b : ℕ) → digit a ≡ digit b → a < 16 → b < 16 → a ≡ b
digit_inj a b h k l = ground arith

digits_inj :
    (a b : Bytes) → All (λ r. r < 256) a → All (λ r. r < 256) b → digits a ≡ digits b → a ≡ b
unfolding digits
digits_inj [] [] h k e = refl
digits_inj [] (y ∷ b) h k e = cc
digits_inj (x ∷ a) [] h k e = cc
digits_inj (x ∷ a) (y ∷ b) h k e =
    let high : digit (x / 16) ≡ digit (y / 16) = cc in
    let low : digit (x % 16) ≡ digit (y % 16) = cc in
    let rest : digits a ≡ digits b = cc in
    let tail = digits_inj a b h.1 k.1 rest in
    let quotient = digit_inj (x / 16) (y / 16) high (omega arith) (omega arith) in
    let remainder = digit_inj (x % 16) (y % 16) low (omega arith) (omega arith) in
    let head : x ≡ y = omega arith in cc

-- a temporary name is one of the cache, by its length
temporary_name-cache_name :
    (random : Bytes)
    → length random ≡ 16
    → All (λ r. r < 256) random
    → (cache_name (temporary_name random) ≡ true) × (length (temporary_name random) ≡ 36)
unfolding cache_name
temporary_name-cache_name random n h =
    let m : length (digits random) ≡ 32 = omega (arith, length-digits random) in
    (rw m (digits-are_name_bytes random h), omega (arith, m))

-- A call that gives a file had room for the name and its NUL, and 16 random bytes.
pub record IsTemporary (dir size : ℕ) (random name : Bytes) (k : Kernel) (fd : ℕ) : Type 0 where
  pub room : 37 ≤ size
  pub bytes : length random ≡ 16
  pub named : name ≡ temporary_name random
  pub created : (open_call (create_at dir name) k).0 ≡ some fd

prefix_inj : (a b : Bytes) → temporary_prefix ++ a ≡ temporary_prefix ++ b → a ≡ b
prefix_inj a b h = cc

cache_temp-IsTemporary :
    (dir size : ℕ) (random name : Bytes) (k : Kernel) (fd : ℕ)
    → (cache_temp dir size random k).0 ≡ (some fd, name)
    → IsTemporary dir size random name k fd
unfolding cache_temp
cache_temp-IsTemporary dir size random name k fd e =
    elim (Bool-cases (ltb size 37 || not (length random == 16))) [
      | inl o ↦ let e' = rw o at e in cc
      | inr o ↦
          let e' = rw o at e in
          record {
            room = ltb→le size 37 (or_first (ltb size 37) (not (length random == 16)) o);
            bytes = (==_iff (length random) 16).0 (
                true_of_not (length random == 16)
                  (or_second (ltb size 37) (not (length random == 16)) o));
            named = cc;
            created = cc;
          }
    ]

-- Where a call gives a file, whatever the random bytes are, its name is one that the cache accepts
-- and it fits the buffer with its NUL, and a second call that gives the same name had the same
-- random bytes.
pub cache_temp-cache_name :
    (dir size : ℕ) (random name : Bytes) (k : Kernel) (fd : ℕ) (dir' size' : ℕ) (random' : Bytes)
    (k' : Kernel) (fd' : ℕ)
    → All (λ r. r < 256) random
    → All (λ r. r < 256) random'
    → (cache_temp dir size random k).0 ≡ (some fd, name)
    → (cache_temp dir' size' random' k').0 ≡ (some fd', name)
    → (cache_name name ≡ true) × (length name < size) × (random ≡ random')
cache_temp-cache_name dir size random name k fd dir' size' random' k' fd' h h' e e' =
    let t = cache_temp-IsTemporary dir size random name k fd e in
    let t' = cache_temp-IsTemporary dir' size' random' name k' fd' e' in
    let n = temporary_name-cache_name random t.bytes h in
    let same : digits random ≡ digits random' =
      prefix_inj (digits random) (digits random') (sym t.named ∙ t'.named) in
    (
      ap cache_name t.named ∙ n.0,
      omega (arith, ap length t.named, n.1, t.room),
      digits_inj random random' h h' same,
    )
