-- ===== src/Net/Header/Fields.antt =====
-- The header fields that are copied fit their buffers, and the media type is read as it was sent.
use zimbr.Prelude.{
  ℕ, ◌<◌, ◌≡◌, refl, subst, Bool, true, false, ◌&&◌, ◌||◌, List, [], ◌∷◌, ◌++◌, ◌==◌, leb, length,
  drop, starts_with, All, Bool-cases, inl, inr, arith,
}
use zimbr.Net.Slot.{Bytes, Slot, empty}
use zimbr.Net.Header.{
  mime_size, extensions_size, lower, starts_word, http_word, type_word, extensions_word, is_blank,
  ends_type, ends_extensions, trim_front, trim_back, value, status_line, type_line, extensions_line,
  receive_header, receive_headers,
}

-- with the NUL that follows, both strings fit
abbrev pub IsSized : Slot → Type 0
IsSized s = (length s.mime < mime_size) × (length s.extensions < extensions_size)

status_line-IsSized : (line : Bytes) (s : Slot) → IsSized s → IsSized (status_line line s)
status_line-IsSized line s h = elim (Bool-cases (starts_with http_word line)) [
  | inl e ↦ rw e (omega arith, omega arith)
  | inr e ↦ rw e h
]

type_line-IsSized : (line : Bytes) (s : Slot) → IsSized s → IsSized (type_line line s).1
unfolding type_line
type_line-IsSized line s h = elim (Bool-cases (starts_word type_word line)) [
  | inl e ↦ elim (Bool-cases (leb mime_size (length (value ends_type type_word line)))) [
    | inl f ↦ rw (e, f) h
    | inr f ↦ rw (e, f) (ground arith, h.1)
  ]
  | inr e ↦ rw e h
]

extensions_line-IsSized : (line : Bytes) (s : Slot) → IsSized s → IsSized (extensions_line line s).1
unfolding extensions_line
extensions_line-IsSized line s h =
    let n = leb extensions_size (length (value ends_extensions extensions_word line)) in
    elim (Bool-cases (starts_word extensions_word line)) [
      | inl e ↦ elim (Bool-cases (n || s.extension_seen)) [
        | inl f ↦ rw (e, f) h
        | inr f ↦ rw (e, f) (h.0, ground arith)
      ]
      | inr e ↦ rw e h
    ]

receive_header-IsSized : (line : Bytes) (s : Slot) → IsSized s → IsSized (receive_header line s).1
unfolding receive_header
receive_header-IsSized line s h =
    let r = type_line line (status_line line s) in
    let one : IsSized r.1 =
      type_line-IsSized line (status_line line s) (status_line-IsSized line s h) in
    elim (Bool-cases r.0) [ inl e ↦ rw e (extensions_line-IsSized line r.1 one) | inr e ↦ rw e one ]

keep_sizes : (lines : List Bytes) (s : Slot) → IsSized s → IsSized (receive_headers lines s).1
unfolding receive_headers
keep_sizes [] s h = h
keep_sizes (line ∷ lines) s h =
    let r = receive_header line s in
    let one : IsSized r.1 = receive_header-IsSized line s h in
    elim (Bool-cases r.0) [ inl e ↦ rw e (keep_sizes lines r.1 one) | inr e ↦ rw e one ]

-- Whatever header lines a transfer brings to a new slot, the media type and the extensions that are
-- copied, with the NUL behind them, fit their 64 and 128 bytes.
pub receive_headers-IsSized :
    (lines : List Bytes) (index : ℕ) → IsSized (receive_headers lines (empty index)).1
receive_headers-IsSized lines index = keep_sizes lines (empty index) (omega arith, omega arith)

-- a byte that neither loop cuts
abbrev pub IsTokenByte : ℕ → Type 0
IsTokenByte c = (is_blank c ≡ false) × (ends_type c ≡ false)

abbrev pub IsBlank : ℕ → Type 0
IsBlank c = is_blank c ≡ true

abbrev pub IsEnd : ℕ → Type 0
IsEnd c = ends_type c ≡ true

trim_back-ends : (tail : Bytes) → All IsEnd tail → trim_back ends_type tail ≡ []
unfolding trim_back
trim_back-ends [] h = refl
trim_back-ends (c ∷ cs) h = rw (trim_back-ends cs h.1, h.0) refl

and_false : (b : Bool) → b && false ≡ false
and_false true = refl
and_false false = refl

trim_back-token :
    (v tail : Bytes) → All IsTokenByte v → All IsEnd tail → trim_back ends_type (v ++ tail) ≡ v
unfolding trim_back
trim_back-token [] tail h k = trim_back-ends tail k
trim_back-token (c ∷ cs) tail h k =
    rw (trim_back-token cs tail h.1 k, h.0.1, and_false (length cs == 0)) refl

trim_front-pad :
    (pad v : Bytes) (c : ℕ)
    → All IsBlank pad
    → is_blank c ≡ false
    → trim_front (pad ++ (c ∷ v)) ≡ c ∷ v
unfolding trim_front
trim_front-pad [] v c h k = rw k refl
trim_front-pad (p ∷ ps) v c h k = rw h.0 (trim_front-pad ps v c h.1 k)

drop-append : (a b : Bytes) → drop (length a) (a ++ b) ≡ b
drop-append [] b = refl
drop-append (x ∷ a) b = drop-append a b

starts_word-append : (w a b : Bytes) → starts_word w a ≡ true → starts_word w (a ++ b) ≡ true
unfolding starts_word
starts_word-append [] a b h = refl
starts_word-append (x ∷ w) [] b h = cc
starts_word-append (x ∷ w) (c ∷ a) b h = ground (arith, starts_word-append w a b)

and_left : (a b : Bool) → a && b ≡ true → a ≡ true
and_left true b h = refl
and_left false b h = h

-- a line that names the media type is no status line and names nothing else
not_status :
    (name rest : Bytes)
    → starts_word type_word name ≡ true
    → starts_with http_word (name ++ rest) ≡ false
unfolding starts_word lower
not_status [] rest h = cc
not_status (c ∷ cs) rest h =
    let first : (b'c' == lower c) ≡ true = and_left _ (starts_word (drop 1 type_word) cs) h in
    ground arith

not_extensions :
    (name rest : Bytes)
    → starts_word type_word name ≡ true
    → starts_word extensions_word (name ++ rest) ≡ false
unfolding starts_word lower
not_extensions [] rest h = cc
not_extensions (c ∷ cs) rest h =
    let first : (b'c' == lower c) ≡ true = and_left _ (starts_word (drop 1 type_word) cs) h in
    ground arith

leb-false : (a b : ℕ) → b < a → leb a b ≡ false
leb-false a b h = ground arith

-- A header line for the media type, in any case of letters, with spaces or tabs in front of the
-- type and spaces or the line's end behind it, sets the media type to exactly the bytes that were
-- sent, if they are fewer than 64 and none is a space, a tab or a byte of a line's end; nothing
-- else changes.
pub receive_header-type :
    (name pad v tail : Bytes) (c : ℕ) (s : Slot)
    → starts_word type_word name ≡ true
    → length name ≡ 13
    → All IsBlank pad
    → All IsTokenByte (c ∷ v)
    → All IsEnd tail
    → length (c ∷ v) < mime_size
    → receive_header (name ++ (pad ++ ((c ∷ v) ++ tail))) s ≡ (true, record s { mime = c ∷ v })
unfolding receive_header type_line extensions_line
receive_header-type name pad v tail c s h n p k e l =
    let text = pad ++ ((c ∷ v) ++ tail) in
    let line = name ++ text in
    let cut : drop 13 line ≡ text = subst (λ m. drop m line ≡ text) n (drop-append name text) in
    let front : trim_front text ≡ (c ∷ v) ++ tail = trim_front-pad pad (v ++ tail) c p k.0.0 in
    let back : trim_back ends_type ((c ∷ v) ++ tail) ≡ c ∷ v = trim_back-token (c ∷ v) tail k e in
    let small : leb mime_size (length (c ∷ v)) ≡ false = leb-false mime_size (length (c ∷ v)) l in
    rw
      (
        not_status name text h,
        starts_word-append type_word name text h,
        cut,
        front,
        back,
        small,
        not_extensions name text h,
      )
      refl
