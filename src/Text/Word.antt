-- ===== src/Text/Word.antt =====
-- src/client/bridge.c, zc_text_word_hit: the word, or the run of blanks, around a character.
pub mod Steps
pub mod Run
use zimbr.Prelude.{
  ℕ, zero, suc, ◌+◌, ◌-◌, Bool, true, false, not, ◌&&◌, ◌||◌, List, [], ◌∷◌, ◌==◌, ltb, leb,
  if◌then◌else◌, length, get_or,
}

-- what GLib says of a character
pub record Unicode : Type 0 where
  pub is_alnum : ℕ → Bool
  pub is_mark : ℕ → Bool
  pub is_space : ℕ → Bool

abbrev pub word_character : Unicode → ℕ → Bool
word_character u c = u.is_alnum c || u.is_mark c || (c == b'_')

-- ' and the typographic apostrophe, and the three hyphens
abbrev pub is_joiner : ℕ → Bool
is_joiner c = (c == 39) || (c == 8217) || (c == b'-') || (c == 8208) || (c == 8209)

abbrev pub ends_line : ℕ → Bool
ends_line c = (c == 13) || (c == 10) || (c == 8232) || (c == 8233)

-- The text is the list of its characters; the character after the last is the terminating 0.
abbrev pub char_at : List ℕ → ℕ → ℕ
char_at text i = get_or text i 0

abbrev pub is_joined : Unicode → List ℕ → ℕ → Bool
is_joined u text zero = false
is_joined u text (suc i) =
    is_joiner (char_at text (suc i))
    && (ltb (i + 2) (length text)
        && word_character u (char_at text i)
        && word_character u (char_at text (i + 2)))

unfoldable pub selection_class : Unicode → List ℕ → ℕ → ℕ
selection_class u text i =
    if word_character u (char_at text i) || is_joined u text i
    then 1
    else if u.is_space (char_at text i) && not (ends_line (char_at text i))
    then 2
    else 0

-- the steps to the cursor position at or before an index, and to the one after an index, which are
-- at least at 0 and at the end; `cursor` is is_cursor_position
unfoldable pub back_to : (ℕ → Bool) → ℕ → ℕ
back_to cursor zero = zero
back_to cursor (suc i) = if cursor (suc i) then suc i else back_to cursor i

unfoldable pub next_from : (ℕ → Bool) → ℕ → ℕ → ℕ
next_from cursor zero i = i
next_from cursor (suc left) i =
    let rest = next_from cursor left (suc i) in if cursor (suc i) then suc i else rest

-- a step at least, of the `size - i` that are left
unfoldable pub step_right : (ℕ → Bool) → ℕ → ℕ → ℕ
unfolding next_from
step_right cursor size i = next_from cursor (size - i) i

-- the two loops over characters of the same class, on fuel
unfoldable pub extend_left : (ℕ → Bool) → (ℕ → Bool) → ℕ → ℕ → ℕ
unfolding back_to
extend_left cursor same zero left = left
extend_left cursor same (suc fuel) zero = zero
extend_left cursor same (suc fuel) (suc left) =
    let at = back_to cursor left in
    let rest = extend_left cursor same fuel at in if same at then rest else suc left

unfoldable pub extend_right : (ℕ → Bool) → (ℕ → Bool) → ℕ → ℕ → ℕ → ℕ
unfolding step_right
extend_right cursor same size zero right = right
extend_right cursor same size (suc fuel) right =
    let rest = extend_right cursor same size fuel (step_right cursor size right) in
    if ltb right size && same right then rest else right

-- The characters from the first to before the second, for a text that is not empty and the index of
-- the character that was hit; a hit of the end is one of the last character.
unfoldable pub word_hit : Unicode → List ℕ → (ℕ → Bool) → ℕ → ℕ × ℕ
unfolding selection_class back_to step_right extend_left extend_right
word_hit u text cursor hit =
    let size = length text in
    let first = if ltb hit size then hit else size - 1 in
    let left = back_to cursor first in
    let right = step_right cursor size left in
    let kind = selection_class u text left in
    let same = λ (i : ℕ). selection_class u text i == kind in
    if kind == 0
    then (left, right)
    else (extend_left cursor same left left, extend_right cursor same size (size - right) right)
