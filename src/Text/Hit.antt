-- ===== src/Text/Hit.antt =====
-- src/client/bridge.c, text_hit: the displayed line that a point lies on, by binary search.
pub mod First
use zimbr.Prelude.Int.{ℤ, pos, negsuc, ◌+ℤ◌, ◌-ℤ◌, ltb_ℤ}
use zimbr.Prelude.{
  ℕ, zero, suc, ◌+◌, ◌-◌, ◌/◌, Bool, true, false, List, if◌then◌else◌, ltb, length, get_or,
}
use zimbr.Text.Measure.{TextLine}

-- `spacing / 2`, which rounds towards 0 in C
unfoldable pub half : ℤ → ℤ
half (pos n) = pos (n / 2)
half (negsuc n) = pos 0 -ℤ pos (suc n / 2)

unfoldable pub middle : ℕ → ℕ → ℕ
middle lo hi = lo + (hi - lo) / 2

-- the loop `while (lo < hi)`, on fuel
unfoldable pub search : (ℕ → Bool) → ℕ → ℕ → ℕ → ℕ
search holds zero lo hi = lo
search holds (suc fuel) lo hi =
    let mid = middle lo hi in
    let found = holds mid in
    let rest = search holds fuel (if found then lo else suc mid) (if found then mid else hi) in
    if ltb lo hi then rest else lo

-- whether the point at py is above the end of a line's part of the gap that follows it
unfoldable pub reaches : ℤ → ℤ → TextLine → Bool
reaches spacing py line = ltb_ℤ py (line.logical.y +ℤ line.logical.height +ℤ half spacing)

abbrev pub blank : TextLine
blank = record {
  ink = record { y = pos 0; height = pos 0 };
  logical = record { y = pos 0; height = pos 0 };
  baseline = pos 0;
}

-- the index of the line; the search starts with all of them
unfoldable pub hit_line : ℤ → List TextLine → ℤ → ℕ
hit_line spacing lines py =
    let last = length lines - 1 in
    search (λ i. reaches spacing py (get_or lines i blank)) last 0 last
