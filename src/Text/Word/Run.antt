-- ===== src/Text/Word/Run.antt =====
-- The selection covers the character that was hit, and ends at cursor positions, where the run
-- ends.
use zimbr.Prelude.{
  ==_refl, ℕ, ◌-◌, ◌≤◌, ◌<◌, ◌≡◌, Bool, true, false, List, ◌==◌, ltb, ltb→lt, leb, if◌then◌else◌,
  length, Bool-cases, inl, inr, arith,
}
use zimbr.Text.Word.{
  Unicode, selection_class, back_to, step_right, extend_left, extend_right, word_hit,
}
use zimbr.Text.Word.Steps.{
  extend_left-IsStart, extend_right-IsStop, extend_left-AreSame, extend_right-AreSame, at_most,
  IsStart, IsStop, back_to-IsStart, back_to-none, step_right-IsStop, next_from-none, AreSame,
  AreSame-cluster, AreSame-append, IsLeftEnd, IsRightEnd,
}

if_holds {ℓ κ} :
    {A : Type ℓ} (P : A → Type κ) (b : Bool) (x y : A) → P x → P y → P (if b then x else y)
if_holds P true x y hx hy = hx
if_holds P false x y hx hy = hy

-- the character that the selection is about
abbrev pub hit_char : List ℕ → ℕ → ℕ
hit_char text hit = if ltb hit (length text) then hit else length text - 1

-- the run of a class around it, where the class is one that extends: it is of this class, and ends
-- where the class does
abbrev pub IsRun : (ℕ → Bool) → (ℕ → Bool) → ℕ → ℕ × ℕ → Type 0
IsRun cursor same size r =
    AreSame cursor same r × IsLeftEnd cursor same r.0 × IsRightEnd cursor same size r.1

hit_inside : (text : List ℕ) (hit : ℕ) → 1 ≤ length text → hit_char text hit < length text
hit_inside text hit h = elim (Bool-cases (ltb hit (length text))) [
  | inl e ↦ rw e (ltb→lt hit (length text) e)
  | inr e ↦ rw e (omega arith)
]

-- the next position after the one at or before an index is after the index
step_past :
    (cursor : ℕ → Bool) (size i : ℕ) → i < size → i < step_right cursor size (back_to cursor i)
step_past cursor size i h =
    let b = back_to-IsStart cursor i in
    let s = step_right-IsStop cursor size (back_to cursor i) (omega (arith, b.0)) in
    elim (Bool-cases (leb (step_right cursor size (back_to cursor i)) i)) [
      | inl e ↦
          let le = at_most (step_right cursor size (back_to cursor i)) i e in
          let none = back_to-none cursor i (step_right cursor size (back_to cursor i)) s.0 le in
          elim s.2 [ inl f ↦ absurd (omega (arith, f, le)) | inr f ↦ absurd (clash _ f none) ]
      | inr e ↦ below (step_right cursor size (back_to cursor i)) i e
    ]
  where
    clash : (b : Bool) → b ≡ true → b ≡ false → ⊥
    clash b f g = cc

    below : (a b : ℕ) → leb a b ≡ false → b < a
    below a b g = ground arith

-- a selection around an index
abbrev pub Covers : (ℕ → Bool) → ℕ → ℕ → ℕ × ℕ → Type 0
Covers cursor size i r =
    (r.0 ≤ i) × (i < r.1) × (r.1 ≤ size) × IsStart cursor r.0 × IsStop cursor size r.1

ends_around :
    (cursor same : ℕ → Bool) (size i : ℕ)
    → i < size
    → same (back_to cursor i) ≡ true
    → Covers cursor size i (back_to cursor i, step_right cursor size (back_to cursor i))
      × Covers cursor size i (
        extend_left cursor same (back_to cursor i) (back_to cursor i),
        extend_right cursor same size
            (size - step_right cursor size (back_to cursor i))
            (step_right cursor size (back_to cursor i)),
      )
      × IsRun cursor same size (
        extend_left cursor same (back_to cursor i) (back_to cursor i),
        extend_right cursor same size
            (size - step_right cursor size (back_to cursor i))
            (step_right cursor size (back_to cursor i)),
      )
unfolding step_right
ends_around cursor same size i h k =
    let b = back_to-IsStart cursor i in
    let right = step_right cursor size (back_to cursor i) in
    let r_end = extend_right cursor same size (size - right) right in
    let s = step_right-IsStop cursor size (back_to cursor i) (omega (arith, b.0)) in
    let past = step_past cursor size i h in
    let l =
      extend_left-IsStart cursor same (back_to cursor i) (back_to cursor i) (omega arith) b.1 in
    let r =
      extend_right-IsStop cursor same size (size - right) right s.1 (omega (arith, s.1)) s.2 in
    (
      (b.0, past, s.1, b.1, s.2),
      (omega (arith, l.0, b.0), omega (arith, r.0, past), r.1, l.1, r.2),
      (
        AreSame-append cursor same (extend_left cursor same (back_to cursor i) (back_to cursor i))
            (back_to cursor i) r_end
            (extend_left-AreSame cursor same (back_to cursor i) (back_to cursor i))
            (AreSame-append cursor same (back_to cursor i) right r_end
              (AreSame-cluster cursor same (back_to cursor i) right k
                (next_from-none cursor (size - back_to cursor i) (back_to cursor i)))
              (extend_right-AreSame cursor same size (size - right) right)),
        l.2,
        r.3,
      ),
    )

abbrev pub class_at : Unicode → List ℕ → (ℕ → Bool) → ℕ → ℕ
class_at u text cursor hit = selection_class u text (back_to cursor (hit_char text hit))

-- In a text that is not empty, the selection around any hit covers the character that was hit, or
-- the last one for a hit of the end; it lies in the text, starts at a cursor position or at the
-- start of the text, and ends at a cursor position or at its end.
pub word_hit-Covers :
    (u : Unicode) (text : List ℕ) (cursor : ℕ → Bool) (hit : ℕ)
    → 1 ≤ length text
    → Covers cursor (length text) (hit_char text hit) (word_hit u text cursor hit)
unfolding word_hit
word_hit-Covers u text cursor hit h =
    let i = hit_char text hit in
    let same : ℕ → Bool = λ j. selection_class u text j == class_at u text cursor hit in
    let run =
      ends_around cursor same (length text) i (hit_inside text hit h)
        (==_refl (class_at u text cursor hit)) in
    if_holds (Covers cursor (length text) i) (class_at u text cursor hit == 0) _ _ run.0 run.1

-- In a text that is not empty, where the start of the cluster that was hit has a class that
-- extends, the selection is the whole run of that class: every cluster in it is of the class, and
-- nothing more of it follows on either side, so that the selection starts at the start of the text
-- or behind a cluster of another class, and ends at its end or in front of a character of another
-- class.
pub word_hit-IsRun :
    (u : Unicode) (text : List ℕ) (cursor : ℕ → Bool) (hit : ℕ)
    → 1 ≤ length text
    → (class_at u text cursor hit == 0) ≡ false
    → IsRun cursor
        (λ j. selection_class u text j == class_at u text cursor hit)
        (length text)
        (word_hit u text cursor hit)
unfolding word_hit
word_hit-IsRun u text cursor hit h k =
    let same : ℕ → Bool = λ j. selection_class u text j == class_at u text cursor hit in
    let run =
      ends_around cursor same (length text) (hit_char text hit) (hit_inside text hit h)
        (==_refl (class_at u text cursor hit)) in
    rw k run.2
