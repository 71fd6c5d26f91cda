-- ===== src/Drop/RoundTrip.antt =====
-- A sender that writes its paths as escaped `file:` URIs has them back from zc_drop_parse.
use zimbr.Prelude.{
  ℕ, suc, ◌+◌, ◌*◌, ◌-◌, ◌/◌, ◌%◌, ◌≤◌, ◌<◌, ◌≡◌, ◌≢◌, refl, ◌∙◌, subst, ap, inl, inr, Bool, false,
  ◌&&◌, ◌||◌, some, List, [], ◌∷◌, ◌++◌, map, leb, ◌==◌, if◌then◌else◌, Bool-cases, length,
  length-append, get_or, All, arith,
}
use zimbr.Drop.{Bytes, drop_files, drop_path, has_nul, is_break, put_byte, decode, parse_uri, parse}
use zimbr.Drop.Hex.{digit, hex-digit}
use zimbr.Drop.Decode.{decode-plain, decode-escape}
use zimbr.Drop.Lines.{keep, lines, uris, lines-break, lines-other, parse_all, parse-eq-parse_all}
use zimbr.Drop.Bounds.{IsPrintable}

-- The bytes that RFC 3986 leaves as they are in a path; all others are escaped.
abbrev pub is_unreserved : ℕ → Bool
is_unreserved c =
    (leb b'a' c && leb c b'z')
    || (leb b'A' c && leb c b'Z')
    || (leb b'-' c && leb c b'9')
    || (c == b'_')
    || (c == b'~')

pub encode_byte : ℕ → Bytes → Bytes
encode_byte c rest =
    if is_unreserved c then c ∷ rest else b'%' ∷ digit (c / 16) ∷ digit (c % 16) ∷ rest

pub encode : Bytes → Bytes
unfolding encode_byte
encode [] = []
encode (c ∷ cs) = encode_byte c (encode cs)

abbrev pub uri : Bytes → Bytes
uri path = b'f' ∷ b'i' ∷ b'l' ∷ b'e' ∷ b':' ∷ b'/' ∷ b'/' ∷ encode path

pub render : List Bytes → Bytes
render [] = []
render (p ∷ ps) = uri p ++ (b'\r' ∷ b'\n' ∷ render ps)

-- A byte of a path: printable, and a byte.
abbrev pub IsPathByte : ℕ → Type 0
IsPathByte c = IsPrintable c × (c < 256)

put_byte-some :
    (used c : ℕ) (p : Bytes)
    → IsPathByte c
    → used < drop_path - 1
    → put_byte used c (some p) ≡ some (c ∷ p)
put_byte-some used c p h lt = ground arith

digits_value : (c : ℕ) → c / 16 * 16 + c % 16 ≡ c
digits_value c = omega arith

decode-encode_byte :
    (used c : ℕ) (rest p : Bytes)
    → IsPathByte c
    → used < drop_path - 1
    → decode (used + 1) rest ≡ some p
    → decode used (encode_byte c rest) ≡ some (c ∷ p)
unfolding encode_byte
decode-encode_byte used c rest p h lt e = elim (Bool-cases (is_unreserved c)) [
  | inl u ↦
      rw (u, decode-plain used c rest (ground arith) (ground arith), e)
        (put_byte-some used c p h lt)
  | inr u ↦
      rw
        (
          u,
          decode-escape used (digit (c / 16)) (digit (c % 16)) rest
              (hex-digit (c / 16) (omega arith)) (hex-digit (c % 16) (omega arith)),
          digits_value c,
          e,
        )
        (put_byte-some used c p h lt)
]

decode-encode :
    (used : ℕ) (path : Bytes)
    → All IsPathByte path
    → used + length path ≤ drop_path - 1
    → decode used (encode path) ≡ some path
unfolding encode
decode-encode used [] h le = unfold decode in refl
decode-encode used (c ∷ cs) h le =
    decode-encode_byte used c (encode cs) cs h.0 (omega arith)
      (decode-encode (used + 1) cs h.1 (omega arith))

abbrev IsLineByte : ℕ → Type 0
IsLineByte c = (is_break c ≡ false) × (c ≢ 0)

encode-IsLineByte : (path : Bytes) → All IsPathByte path → All IsLineByte (encode path)
unfolding encode encode_byte is_break
encode-IsLineByte [] h = tt
encode-IsLineByte (c ∷ cs) h = elim (Bool-cases (is_unreserved c)) [
  | inl u ↦ rw u ((ground arith, ground arith), encode-IsLineByte cs h.1)
  | inr u ↦ rw u (
    (ground arith, ground arith),
    ((ground arith, ground arith), ((ground arith, ground arith), encode-IsLineByte cs h.1)),
  )
]

length-encode : (path : Bytes) → length (encode path) ≤ 3 * length path
unfolding encode encode_byte
length-encode [] = omega arith
length-encode (c ∷ cs) = ground (arith, length-encode cs)

-- the names of a path, as the protocol counts them
abbrev pub IsPath : Bytes → Type 0
IsPath path = (get_or path 0 0 ≡ b'/') × (length path < drop_path) × All IsPathByte path

encode-slash : (cs : Bytes) → encode (b'/' ∷ cs) ≡ b'/' ∷ encode cs
unfolding encode encode_byte
encode-slash cs = refl

parse_uri-authority :
    (rest : Bytes)
    → parse_uri (b'f' ∷ b'i' ∷ b'l' ∷ b'e' ∷ b':' ∷ b'/' ∷ b'/' ∷ b'/' ∷ rest)
      ≡ decode 0 (b'/' ∷ rest)
unfolding parse_uri
parse_uri-authority rest = ground arith

parse_uri-uri : (path : Bytes) → IsPath path → parse_uri (uri path) ≡ some path
parse_uri-uri [] h = absurd (omega (arith, h.0))
parse_uri-uri (c ∷ cs) h =
    let e : c ≡ b'/' = h.0 in
    rw e (
      rw encode-slash (
        parse_uri-authority (encode cs)
        ∙ (rw (← encode-slash cs) (
            decode-encode 0 (b'/' ∷ cs) (subst (λ x. All IsPathByte (x ∷ cs)) e h.2)
              (omega (arith, h.1))))))

keep-uri : (p : Bytes) (ls : List Bytes) → keep (uri p) (keep [] ls) ≡ uri p ∷ ls
keep-uri p ls = ground arith

lines-line :
    (l rest : Bytes) → All IsLineByte l → lines (l ++ (b'\r' ∷ b'\n' ∷ rest)) ≡ l ∷ [] ∷ lines rest
lines-line [] rest h =
    rw
      (
        lines-break b'\r' (b'\n' ∷ rest) (unfold is_break in refl),
        lines-break b'\n' rest (unfold is_break in refl),
      )
      refl
lines-line (c ∷ l) rest h =
    rw (lines-other c (l ++ (b'\r' ∷ b'\n' ∷ rest)) h.0.0, lines-line l rest h.1) refl

uri-IsLineByte : (path : Bytes) → All IsPathByte path → All IsLineByte (uri path)
unfolding is_break
uri-IsLineByte path h = (
  (refl, omega arith),
  (
    (refl, omega arith),
    (
      (refl, omega arith),
      (
        (refl, omega arith),
        (
          (refl, omega arith),
          ((refl, omega arith), ((refl, omega arith), encode-IsLineByte path h)),
        ),
      ),
    ),
  ),
)

uris-lines-render : (ps : List Bytes) → All IsPath ps → uris (lines (render ps)) ≡ map uri ps
unfolding render uris
uris-lines-render [] h = unfold lines in refl
uris-lines-render (p ∷ ps) h =
    rw (lines-line (uri p) (render ps) (uri-IsLineByte p h.0.2))
      (keep-uri p (uris (lines (render ps))) ∙ ap (λ x. uri p ∷ x) (uris-lines-render ps h.1))

parse_all-uris : (ps : List Bytes) → All IsPath ps → parse_all (map uri ps) ≡ some ps
unfolding parse_all
parse_all-uris [] h = refl
parse_all-uris (p ∷ ps) h = rw (parse_uri-uri p h.0, parse_all-uris ps h.1) refl

length-map-uri : (ps : List Bytes) → length (map uri ps) ≡ length ps
length-map-uri [] = refl
length-map-uri (p ∷ ps) = ap suc (length-map-uri ps)

length-render : (ps : List Bytes) → All IsPath ps → length (render ps) ≤ length ps * 12294
unfolding render
length-render [] h = omega arith
length-render (p ∷ ps) h = omega (
  arith,
  length-append (uri p) (b'\r' ∷ b'\n' ∷ render ps),
  length-encode p,
  length-render ps h.1,
)

has_nul-line : (l rest : Bytes) → All IsLineByte l → has_nul (l ++ rest) ≡ has_nul rest
unfolding has_nul
has_nul-line [] rest h = refl
has_nul-line (c ∷ l) rest h = ground (arith, has_nul-line l rest)

has_nul-break : (s : Bytes) → has_nul (b'\r' ∷ b'\n' ∷ s) ≡ has_nul s
unfolding has_nul
has_nul-break s = refl

has_nul-render : (ps : List Bytes) → All IsPath ps → has_nul (render ps) ≡ false
unfolding render
has_nul-render [] h = unfold has_nul in refl
has_nul-render (p ∷ ps) h =
    has_nul-line (uri p) (b'\r' ∷ b'\n' ∷ render ps) (uri-IsLineByte p h.0.2)
    ∙ has_nul-break (render ps)
    ∙ has_nul-render ps h.1

-- At most sixteen paths, each absolute, without control bytes and short enough for the path buffer,
-- written as escaped URIs one to a line, are accepted and come back as they were: the 256 KiB bound
-- on a drop has room for every full drop.
pub parse-render :
    (ps : List Bytes) → length ps ≤ drop_files → All IsPath ps → parse (render ps) ≡ some ps
parse-render ps few h =
    parse-eq-parse_all (render ps)
    ∙ rw (has_nul-render ps h, uris-lines-render ps h, length-map-uri ps, parse_all-uris ps h)
        (ground (arith, length-render ps h))
