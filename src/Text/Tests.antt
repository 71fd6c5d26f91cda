-- ===== src/Text/Tests.antt =====
-- Two lines, one with tall ink, and a click on the second.
use zimbr.Prelude.Int.{ℤ, pos, negsuc}
use zimbr.Prelude.{
  ℕ, Bool, leb, not, ◌&&◌, ◌==◌, ◌-◌, ◌≡◌, refl, true, false, Option, some, List, [], ◌∷◌, length,
  get_or, arith,
}
use zimbr.Text.Boundary.{Stop, boundary}
use zimbr.Text.Boundary.Nearest.{IsRight, boundary-IsRight}
use zimbr.Text.Word.{Unicode, selection_class, word_hit}
use zimbr.Text.Word.Run.{hit_char, class_at, Covers, IsRun, word_hit-Covers, word_hit-IsRun}
use zimbr.Text.Measure.{Extent, Shaped, TextLine, Font, measure}
use zimbr.Text.Measure.Stacked.{IsFont, IsLayout, measure-IsLayout}
use zimbr.Text.Hit.{reaches, blank, hit_line}
use zimbr.Text.Hit.First.{IsFirst, hit_line-IsFirst}

abbrev font : Font
font = record { ascent = pos 10; descent = pos 3; spacing = pos 2 }

abbrev shaped : List Shaped
shaped =
    record { ink = record { y = negsuc 3; height = pos 20 }; baseline = pos 12 }
    ∷ record { ink = record { y = pos 20; height = pos 0 }; baseline = pos 30 }
    ∷ []

abbrev lines : List TextLine
lines =
    record {
      ink = record { y = pos 0; height = pos 20 };
      logical = record { y = pos 0; height = pos 20 };
      baseline = pos 16;
    }
    ∷ record {
      ink = record { y = pos 22; height = pos 0 };
      logical = record { y = pos 22; height = pos 13 };
      baseline = pos 32;
    }
    ∷ []

font-IsFont : IsFont font
font-IsFont = record { ascent = omega arith; descent = omega arith; spacing = omega arith }

measured : measure font shaped (pos 0) ≡ some (lines, pos 35)
unfolding measure zimbr.Text.Measure.place zimbr.Text.Measure.next_y zimbr.Text.Measure.above
    zimbr.Text.Measure.below zimbr.Text.Measure.max_ℤ zimbr.Prelude.Int.◌+ℤ◌ zimbr.Prelude.Int.◌-ℤ◌
measured = refl

measure-IsLayout_example : IsLayout font 2 (pos 0) lines (pos 35)
measure-IsLayout_example = measure-IsLayout font font-IsFont shaped (pos 0) lines (pos 35) measured

hit_line-IsFirst_example :
    IsFirst
      (λ i. reaches font.spacing (pos 25) (get_or lines i blank))
      (length lines - 1)
      (hit_line font.spacing lines (pos 25))
hit_line-IsFirst_example =
    hit_line-IsFirst font shaped (pos 0) (pos 25) lines (pos 35) font-IsFont measured

second_line : hit_line font.spacing lines (pos 25) ≡ 1
unfolding hit_line reaches zimbr.Text.Hit.search zimbr.Text.Hit.middle zimbr.Text.Hit.half
    zimbr.Prelude.Int.◌+ℤ◌
second_line = refl

-- "a", an accent that joins it, "b", and the end
abbrev stops : List Stop
stops =
    record { is_cursor_position = true; width = 1 }
    ∷ record { is_cursor_position = false; width = 2 }
    ∷ record { is_cursor_position = true; width = 1 }
    ∷ record { is_cursor_position = true; width = 0 }
    ∷ []

boundary-IsRight_example : IsRight 1 4 (some stops) (boundary (some stops) 4 1 (pos 1))
boundary-IsRight_example = boundary-IsRight (some stops) 4 1 0

after_accent : boundary (some stops) 4 1 (pos 1) ≡ 3
unfolding boundary zimbr.Text.Boundary.scan
after_accent = refl

before_b : boundary (some stops) 4 3 (negsuc 0) ≡ 0
unfolding boundary zimbr.Text.Boundary.scan
before_b = refl

-- "it's a", with an ASCII view of characters
abbrev ascii : Unicode
ascii = record {
  is_alnum = λ c. leb b'0' c && not (c == 39);
  is_mark = λ c. false;
  is_space = λ c. c == b' ';
}

abbrev prose : List ℕ
prose = b'i' ∷ b't' ∷ 39 ∷ b's' ∷ b' ' ∷ b'a' ∷ []

abbrev everywhere : ℕ → Bool
everywhere i = true

word_hit-Covers_example : Covers everywhere 6 (hit_char prose 1) (word_hit ascii prose everywhere 1)
word_hit-Covers_example = word_hit-Covers ascii prose everywhere 1 (omega arith)

is_word : (class_at ascii prose everywhere 1 == 0) ≡ false
unfolding selection_class zimbr.Text.Word.back_to
is_word = refl

word_hit-IsRun_example :
    IsRun everywhere
      (λ j. selection_class ascii prose j == class_at ascii prose everywhere 1)
      6
      (word_hit ascii prose everywhere 1)
word_hit-IsRun_example = word_hit-IsRun ascii prose everywhere 1 (omega arith) is_word

contraction : word_hit ascii prose everywhere 1 ≡ (0, 4)
unfolding word_hit selection_class zimbr.Text.Word.back_to zimbr.Text.Word.step_right
    zimbr.Text.Word.next_from zimbr.Text.Word.extend_left zimbr.Text.Word.extend_right
contraction = refl
