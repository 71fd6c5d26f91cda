-- ===== src/Drop/Lines.antt =====
-- The loop of zc_drop_parse against its meaning: the lines of a text that are neither empty nor
-- comments, each parsed by itself.
use mathlib.Core.List.{append-nil}
use native.Mathlib.Nat.{zero-add}
use zimbr.Prelude.{
  ℕ, zero, suc, ◌+◌, ◌≤◌, ◌≡◌, refl, ap, ◌∙◌, ◌⊎◌, inl, inr, Bool, true, false, ◌||◌, Option, none,
  some, List, [], ◌∷◌, ◌++◌, ltb, ◌==◌, if◌then◌else◌, ◌>>=◌, Bool-cases, length, get_or, arith,
}
use zimbr.Drop.{
  Bytes, drop_files, drop_bytes, has_nul, is_break, split_line, skip_breaks, parse_uri, parse_lines,
  parse,
}

-- The lines of a text, split at each break.
abbrev pub cons_head : ℕ → List Bytes → List Bytes
cons_head c [] = (c ∷ []) ∷ []
cons_head c (l ∷ ls) = (c ∷ l) ∷ ls

unfoldable pub lines : Bytes → List Bytes
lines [] = []
lines (c ∷ cs) = let rest = lines cs in if is_break c then [] ∷ rest else cons_head c rest

-- the lines that hold a URI
abbrev pub is_ignored : Bytes → Bool
is_ignored line = (length line == 0) || (get_or line 0 0 == b'#')

abbrev pub keep : Bytes → List Bytes → List Bytes
keep l ls = if is_ignored l then ls else l ∷ ls

unfoldable pub uris : List Bytes → List Bytes
uris [] = []
uris (l ∷ ls) = keep l (uris ls)

-- every line parses, in order
unfoldable pub parse_all : List Bytes → Option (List Bytes)
parse_all [] = some []
parse_all (l ∷ ls) = parse_uri l >>= λ p. parse_all ls >>= λ ps. some (p ∷ ps)

-- The scans of the loop find the first line.
prepend : Bytes → List Bytes → List Bytes
prepend [] [] = []
prepend (c ∷ l) [] = (c ∷ l) ∷ []
prepend l (k ∷ ks) = (l ++ k) ∷ ks

cons_head-prepend :
    (c : ℕ) (l : Bytes) (ks : List Bytes) → cons_head c (prepend l ks) ≡ prepend (c ∷ l) ks
unfolding prepend
cons_head-prepend c [] [] = refl
cons_head-prepend c (d ∷ l) [] = refl
cons_head-prepend c [] (k ∷ ks) = refl
cons_head-prepend c (d ∷ l) (k ∷ ks) = refl

module _ (c : ℕ) (cs : Bytes) where
  pub split_line-break : is_break c ≡ true → split_line (c ∷ cs) ≡ ([], c ∷ cs)
  unfolding split_line
  split_line-break e = rw e refl

  pub split_line-other :
      is_break c ≡ false → split_line (c ∷ cs) ≡ (c ∷ (split_line cs).0, (split_line cs).1)
  unfolding split_line
  split_line-other e = rw e refl

  pub skip_breaks-break : is_break c ≡ true → skip_breaks (c ∷ cs) ≡ skip_breaks cs
  unfolding skip_breaks
  skip_breaks-break e = rw e refl

  pub skip_breaks-other : is_break c ≡ false → skip_breaks (c ∷ cs) ≡ c ∷ cs
  unfolding skip_breaks
  skip_breaks-other e = rw e refl

  pub lines-break : is_break c ≡ true → lines (c ∷ cs) ≡ [] ∷ lines cs
  unfolding lines
  lines-break e = rw e refl

  pub lines-other : is_break c ≡ false → lines (c ∷ cs) ≡ cons_head c (lines cs)
  unfolding lines
  lines-other e = rw e refl

lines-split_line : (s : Bytes) → lines s ≡ prepend (split_line s).0 (lines (split_line s).1)
lines-split_line [] = unfold lines split_line prepend in refl
lines-split_line (c ∷ cs) = elim (Bool-cases (is_break c)) [
  | inl e ↦ rw (split_line-break c cs e, lines-break c cs e) (unfold prepend in refl)
  | inr e ↦
      rw (split_line-other c cs e, lines-other c cs e)
        (ap (cons_head c) (lines-split_line cs) ∙ cons_head-prepend c _ _)
]

-- What a scan leaves begins with a break, and passing the breaks loses no URI.
uris-cons : (l : Bytes) (ls : List Bytes) → uris (l ∷ ls) ≡ keep l (uris ls)
unfolding uris
uris-cons l ls = refl

prepend-nil : (l : Bytes) (ls : List Bytes) → prepend l ([] ∷ ls) ≡ l ∷ ls
unfolding prepend
prepend-nil [] ls = refl
prepend-nil (d ∷ l) ls = ap (λ k. (d ∷ k) ∷ ls) (append-nil l)

uris-prepend_break :
    (l : Bytes) (c : ℕ) (cs : Bytes)
    → is_break c ≡ true
    → uris (prepend l (lines (c ∷ cs))) ≡ keep l (uris (lines cs))
uris-prepend_break l c cs e = rw (lines-break c cs e, prepend-nil) (uris-cons l (lines cs))

uris-skip_breaks : (s : Bytes) → uris (lines (skip_breaks s)) ≡ uris (lines s)
uris-skip_breaks [] = unfold skip_breaks in refl
uris-skip_breaks (c ∷ cs) = elim (Bool-cases (is_break c)) [
  | inl e ↦ rw (skip_breaks-break c cs e, lines-break c cs e, uris-cons) (uris-skip_breaks cs)
  | inr e ↦ rw (skip_breaks-other c cs e) refl
]

split_line-rest :
    (s : Bytes)
    → ((split_line s).1 ≡ [])
      ⊎ ((c : ℕ) × (cs : Bytes) × ((split_line s).1 ≡ c ∷ cs) × (is_break c ≡ true))
unfolding split_line
split_line-rest [] = inl refl
split_line-rest (c ∷ cs) = elim (Bool-cases (is_break c)) [
  | inl e ↦ inr (c, cs, rw e refl, e)
  | inr e ↦ rw e (split_line-rest cs)
]

uris-prepend_end : (l : Bytes) → uris (prepend l []) ≡ keep l []
unfolding uris prepend
uris-prepend_end [] = refl
uris-prepend_end (c ∷ l) = refl

-- One round of the loop takes the first line off.
pub uris-split_line :
    (s : Bytes)
    → uris (lines s) ≡ keep (split_line s).0 (uris (lines (skip_breaks (split_line s).1)))
uris-split_line s = lines-split_line' s (split_line-rest s)
  where
    lines-split_line' :
        (s : Bytes)
        → ((split_line s).1 ≡ [])
          ⊎ ((c : ℕ) × (cs : Bytes) × ((split_line s).1 ≡ c ∷ cs) × (is_break c ≡ true))
        → uris (lines s) ≡ keep (split_line s).0 (uris (lines (skip_breaks (split_line s).1)))
    lines-split_line' s (inl e) =
        rw (lines-split_line s, e)
          (unfold skip_breaks lines uris in uris-prepend_end (split_line s).0)
    lines-split_line' s (inr (c, cs, e, b)) = rw (
      lines-split_line s,
      e,
      uris-prepend_break (split_line s).0 c cs b,
      skip_breaks-break c cs b,
      uris-skip_breaks cs,
    )

length-split_line : (s : Bytes) → length (split_line s).1 ≤ length s
unfolding split_line
length-split_line [] = omega arith
length-split_line (c ∷ cs) = ground (arith, length-split_line cs)

length-skip_breaks : (s : Bytes) → length (skip_breaks s) ≤ length s
unfolding skip_breaks
length-skip_breaks [] = omega arith
length-skip_breaks (c ∷ cs) = ground (arith, length-skip_breaks cs)

pub progress : (c : ℕ) (cs : Bytes) → length (skip_breaks (split_line (c ∷ cs)).1) ≤ length cs
progress c cs = elim (Bool-cases (is_break c)) [
  | inl e ↦ rw (split_line-break c cs e, skip_breaks-break c cs e) (length-skip_breaks cs)
  | inr e ↦
      rw (split_line-other c cs e)
        (omega (arith, length-skip_breaks (split_line cs).1, length-split_line cs))
]

-- The loop stops at the seventeenth URI.
collect : ℕ → List Bytes → Option (List Bytes)
collect count [] = some []
collect count (l ∷ ls) =
    if count == drop_files
    then none
    else (parse_uri l >>= λ p. collect (count + 1) ls >>= λ ps. some (p ∷ ps))

collect-cons :
    (count : ℕ) (l : Bytes) (ls : List Bytes)
    → collect count (l ∷ ls) ≡ (
        if count == drop_files
        then none
        else (parse_uri l >>= λ p. collect (count + 1) ls >>= λ ps. some (p ∷ ps)))
unfolding collect
collect-cons count l ls = refl

collect-keep :
    (count : ℕ) (l : Bytes) (ls : List Bytes)
    → collect count (keep l ls)
      ≡ (if is_ignored l then collect count ls else collect count (l ∷ ls))
collect-keep count l ls = elim (Bool-cases (is_ignored l)) [ inl e ↦ rw e refl | inr e ↦ rw e refl ]

parse_lines-eq-collect :
    (fuel count : ℕ) (s : Bytes)
    → length s ≤ fuel
    → parse_lines fuel count s ≡ collect count (uris (lines s))
unfolding parse_lines
parse_lines-eq-collect fuel count [] h = unfold collect uris lines in refl
parse_lines-eq-collect zero count (c ∷ cs) h = absurd (omega arith)
parse_lines-eq-collect (suc fuel) count (c ∷ cs) h =
    rw (uris-split_line (c ∷ cs), collect-keep)
      (rw
        (
          ← parse_lines-eq-collect fuel count (skip_breaks (split_line (c ∷ cs)).1) fits,
          collect-cons,
          ← parse_lines-eq-collect fuel (count + 1) (skip_breaks (split_line (c ∷ cs)).1) fits,
        )
        refl)
  where
    fits : length (skip_breaks (split_line (c ∷ cs)).1) ≤ fuel
    fits = omega (arith, progress c cs)

collect-parse_all :
    (count : ℕ) (ls : List Bytes)
    → count ≤ drop_files
    → collect count ls ≡ (if ltb drop_files (count + length ls) then none else parse_all ls)
unfolding collect parse_all
collect-parse_all count [] h = ground arith
collect-parse_all count (l ∷ ls) h = ground (arith, collect-parse_all (count + 1) ls)

-- A drop is accepted exactly when it has at most 256 KiB and no NUL byte, at most sixteen of its
-- lines are neither empty nor comments, and each of those parses; the paths come in their order.
pub parse-eq-parse_all :
    (text : Bytes)
    → parse text ≡ (
        if ltb drop_bytes (length text) || has_nul text
        then none
        else if ltb drop_files (length (uris (lines text)))
        then none
        else parse_all (uris (lines text)))
unfolding parse
parse-eq-parse_all text =
    rw
      (
        parse_lines-eq-collect (length text) 0 text (omega arith),
        collect-parse_all 0 (uris (lines text)) (omega arith),
      )
      (rw zero-add refl)
