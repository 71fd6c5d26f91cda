-- ===== src/Drop/Bounds.antt =====
-- What zc_drop_parse lets through: at most sixteen absolute paths, each below PATH_MAX and free of
-- control bytes, whether these were written plainly or escaped.
use zimbr.Prelude.{
  ℕ, zero, suc, ◌+◌, ◌*◌, ◌-◌, ◌≤◌, ◌<◌, ◌≡◌, ◌≢◌, refl, sym, ◌∙◌, subst, ap, Bool, true, false,
  not, ◌||◌, Option, none, some, List, [], ◌∷◌, ltb, leb, ◌==◌, if◌then◌else◌, ◌>>=◌, >>=-eq-some,
  some_inj, else-eq-some, else_false, length, get_or, drop, starts_with, All, arith, ltb→le,
}
use zimbr.Drop.{
  Bytes, drop_files, drop_path, drop_bytes, has_nul, put_byte, decode, hex, path_start, parse_uri,
  parse, file_scheme,
}
use zimbr.Drop.Decode.{decode-plain}
use zimbr.Drop.Lines.{lines, uris, parse_all, parse-eq-parse_all}

abbrev pub IsPrintable : ℕ → Type 0
IsPrintable c = (32 ≤ c) × (c ≢ 127)

-- A path that a send can use.
pub record IsSafePath (path : Bytes) : Type 0 where
  pub absolute : get_or path 0 0 ≡ b'/'
  pub short : length path < drop_path
  pub printable : All IsPrintable path

put_byte-eq-some :
    (used c : ℕ) (rest : Option Bytes) (p : Bytes)
    → put_byte used c rest ≡ some p
    → (q : Bytes) × (rest ≡ some q) × (p ≡ c ∷ q) × IsPrintable c × (used ≢ drop_path - 1)
put_byte-eq-some used c none p h = ground arith
put_byte-eq-some used c (some q) p h = (q, refl, ground arith, ground arith, ground arith)

abbrev Fits : ℕ → Bytes → Type 0
Fits used p = (used + length p ≤ drop_path - 1) × All IsPrintable p

put_byte-Fits :
    (used c : ℕ) (rest : Option Bytes)
    → used ≤ drop_path - 1
    → ((q : Bytes) → used + 1 ≤ drop_path - 1 → rest ≡ some q → Fits (used + 1) q)
    → (p : Bytes) → put_byte used c rest ≡ some p
    → Fits used p
put_byte-Fits used c rest le ih p h =
    let (q, e, ep, pr, ne) = put_byte-eq-some used c rest p h in
    let (sz, al) = ih q (omega arith) e in subst (λ x. Fits used x) (sym ep) (omega arith, (pr, al))

escaped-Fits :
    (used : ℕ) (high low : Option ℕ) (rest : Option Bytes)
    → used ≤ drop_path - 1
    → ((q : Bytes) → used + 1 ≤ drop_path - 1 → rest ≡ some q → Fits (used + 1) q)
    → (p : Bytes) → (high >>= λ a. low >>= λ b. put_byte used (a * 16 + b) rest) ≡ some p
    → Fits used p
escaped-Fits used none low rest le ih p h = cc
escaped-Fits used (some a) none rest le ih p h = cc
escaped-Fits used (some a) (some b) rest le ih p h = put_byte-Fits used (a * 16 + b) rest le ih p h

-- The three ways of a byte with two more behind it.
triple-Fits :
    (used c : ℕ) (high low : Option ℕ) (plain rest : Option Bytes)
    → used ≤ drop_path - 1
    → ((q : Bytes) → used + 1 ≤ drop_path - 1 → plain ≡ some q → Fits (used + 1) q)
    → ((q : Bytes) → used + 1 ≤ drop_path - 1 → rest ≡ some q → Fits (used + 1) q)
    → (b : Bool) (p : Bytes)
    → (if b
        then (high >>= λ a. low >>= λ x. put_byte used (a * 16 + x) rest)
        else if (c == b'?') || (c == b'#')
        then none
        else put_byte used c plain)
      ≡ some p
    → Fits used p
triple-Fits used c high low plain rest le ih₁ ih₂ true p h =
    escaped-Fits used high low rest le ih₂ p h
triple-Fits used c high low plain rest le ih₁ ih₂ false p h =
    put_byte-Fits used c plain le ih₁ p (else-eq-some ((c == b'?') || (c == b'#')) _ h)

decode-Fits :
    (used : ℕ) (s : Bytes)
    → used ≤ drop_path - 1
    → (p : Bytes) → decode used s ≡ some p
    → Fits used p
unfolding decode
decode-Fits used [] le p h = subst (λ x. Fits used x) (some_inj h) (omega arith, tt)
decode-Fits used (c ∷ []) le p h =
    put_byte-Fits used c (some []) le
      (λ q lt e. subst (λ x. Fits (used + 1) x) (some_inj e) (omega arith, tt)) p
      (else-eq-some ((c == b'?') || (c == b'#')) _ (else-eq-some (c == b'%') _ h))
decode-Fits used (c ∷ d ∷ []) le p h =
    put_byte-Fits used c (decode (used + 1) (d ∷ [])) le
      (λ q lt e. decode-Fits (used + 1) (d ∷ []) lt q e) p
      (else-eq-some ((c == b'?') || (c == b'#')) _ (else-eq-some (c == b'%') _ h))
decode-Fits used (c ∷ d ∷ e ∷ cs) le p h =
    triple-Fits used c (hex d) (hex e) (decode (used + 1) (d ∷ e ∷ cs)) (decode (used + 1) cs) le
      (λ q lt k. decode-Fits (used + 1) (d ∷ e ∷ cs) lt q k)
      (λ q lt k. decode-Fits (used + 1) cs lt q k) (c == b'%') p h

-- The byte that a path starts with is written plainly.
decode-slash : (s p : Bytes) → decode 0 (b'/' ∷ s) ≡ some p → get_or p 0 0 ≡ b'/'
decode-slash s p h =
    let (q, e, ep, pr, ne) =
      put_byte-eq-some 0 b'/' (decode (0 + 1) s) p (sym (decode-plain 0 b'/' s refl refl) ∙ h) in
    subst (λ x. get_or x 0 0 ≡ b'/') (sym ep) refl

decode_at-IsSafePath :
    (s p : Bytes) → not (get_or s 0 0 == b'/') ≡ false → decode 0 s ≡ some p → IsSafePath p
decode_at-IsSafePath [] p slash h = ground arith
decode_at-IsSafePath (c ∷ s) p slash h =
    let e : c ≡ b'/' = ground arith in
    let fits : Fits 0 p = decode-Fits 0 (c ∷ s) (omega arith) p h in
    record {
      absolute = decode-slash s p (subst (λ x. decode 0 (x ∷ s) ≡ some p) e h);
      short = omega arith;
      printable = fits.1;
    }

get_or-drop : (n : ℕ) (s : Bytes) → get_or (drop n s) 0 0 ≡ get_or s n 0
get_or-drop zero s = refl
get_or-drop (suc n) [] = refl
get_or-drop (suc n) (c ∷ s) = get_or-drop n s

parse_uri-IsSafePath : (line p : Bytes) → parse_uri line ≡ some p → IsSafePath p
unfolding parse_uri
parse_uri-IsSafePath line p h =
    let start = path_start line in
    let at_start =
      else-eq-some (leb (length line) start || not (get_or line start 0 == b'/'))
        (decode 0 (drop start line))
        (else-eq-some (ltb (length line) 6 || not (starts_with file_scheme line)) _ h) in
    decode_at-IsSafePath (drop start line) p
      (rw (get_or-drop start line) (slash start (else_false _ _ (else-eq-some _ _ h)))) at_start
  where
    slash :
        (start : ℕ)
        → (leb (length line) start || not (get_or line start 0 == b'/')) ≡ false
        → not (get_or line start 0 == b'/') ≡ false
    slash start k = ground arith

parse_all-IsSafePath :
    (ls ps : List Bytes) → parse_all ls ≡ some ps → (length ps ≡ length ls) × All IsSafePath ps
unfolding parse_all
parse_all-IsSafePath [] ps h =
    subst (λ x. (length x ≡ 0) × All IsSafePath x) (some_inj h) (refl, tt)
parse_all-IsSafePath (l ∷ ls) ps h =
    let (p, ep, k) = >>=-eq-some (parse_uri l) _ h in
    let (qs, eq, k') = >>=-eq-some (parse_all ls) _ k in
    let (len, safe) = parse_all-IsSafePath ls qs eq in
    subst (λ x. (length x ≡ suc (length ls)) × All IsSafePath x) (some_inj k')
      (ap suc len, (parse_uri-IsSafePath l p ep, safe))

-- Whatever text is offered, an accepted drop holds at most sixteen paths, and each is absolute, is
-- shorter than the path buffer, and holds no control byte.
pub parse-IsSafePath :
    (text : Bytes) (ps : List Bytes)
    → parse text ≡ some ps
    → (length ps ≤ drop_files) × All IsSafePath ps
parse-IsSafePath text ps h =
    let k = sym (parse-eq-parse_all text) ∙ h in
    let k₁ = else-eq-some (ltb drop_bytes (length text) || has_nul text) _ k in
    let few = else_false (ltb drop_files (length (uris (lines text)))) _ k₁ in
    let (len, safe) =
      parse_all-IsSafePath (uris (lines text)) ps
        (else-eq-some (ltb drop_files (length (uris (lines text)))) _ k₁) in
    (rw len (ltb→le _ _ few), safe)
