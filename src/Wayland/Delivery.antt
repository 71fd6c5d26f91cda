-- ===== src/Wayland/Delivery.antt =====
-- A transfer that reaches the end of its pipe hands over what was written, whole or not at all.
use zimbr.Drop.{Bytes, DropState, drop_bytes, has_nul, offer}
use zimbr.Drop as Drop
use zimbr.Prelude.{
  ℕ, zero, suc, ◌+◌, ◌-◌, ◌≤◌, ◌<◌, ◌≡◌, refl, ◌∙◌, ap, subst, Bool, true, false, ◌&&◌, ◌||◌, not,
  Option, none, some, List, [], ◌∷◌, ◌++◌, ◌==◌, if◌then◌else◌, ◌>>=◌, >>=-eq-some, some_inj, ltb,
  leb, ltb→lt, ltb→le, lt→ltb, length, length-append, take, Bool-cases, inl, inr, arith,
}
use mathlib.Core.List.{append_assoc, append-nil}
use zimbr.Wayland.State.{Transfer, State}
use zimbr.Wayland.Device.{
  Answer, bytes, interrupted, again, failed, Pumped, waiting, finished, end_transfer,
  finish_transfer, pump, pumped, poll,
}

-- all that a pipe gives before its end, through any interruptions; `none` if it fails or waits
unfoldable pub contents : List Answer → Option Bytes
contents [] = none
contents (bytes [] ∷ answers) = some []
contents (bytes (c ∷ cs) ∷ answers) = (contents answers >>= λ rest. some (c ∷ cs ++ rest))
contents (interrupted ∷ answers) = contents answers
contents (again ∷ answers) = none
contents (failed ∷ answers) = none

-- whether the loop is done, and the text that it hands over then
abbrev outcome : Pumped → Option (Option Bytes)
outcome (waiting text) = none
outcome (finished true text) = some (some text)
outcome (finished false text) = some none

-- a text that is handed over
abbrev pub is_whole : Bytes → Bytes → Bool
is_whole text content = leb (length (text ++ content)) drop_bytes && not (has_nul content)

has_nul-append : (a b : Bytes) → has_nul (a ++ b) ≡ (has_nul a || has_nul b)
unfolding has_nul
has_nul-append [] b = refl
has_nul-append (x ∷ a) b = ground (arith, has_nul-append a b)

has_nul-take : (n : ℕ) (b : Bytes) → has_nul (take n b) ≡ true → has_nul b ≡ true
unfolding has_nul
has_nul-take zero b h = cc
has_nul-take (suc n) [] h = h
has_nul-take (suc n) (x ∷ b) h = ground (arith, has_nul-take n b)

take-all : (n : ℕ) (b : Bytes) → length b ≤ n → take n b ≡ b
take-all zero [] h = refl
take-all zero (x ∷ b) h = absurd (omega arith)
take-all (suc n) [] h = refl
take-all (suc n) (x ∷ b) h = ap (λ r. x ∷ r) (take-all n b (omega arith))

length-take_short : (n : ℕ) (b : Bytes) → n ≤ length b → length (take n b) ≡ n
length-take_short zero b h = refl
length-take_short (suc n) [] h = absurd (omega arith)
length-take_short (suc n) (x ∷ b) h = ap suc (length-take_short n b (omega arith))

take_nil : (n : ℕ) → take {A = ℕ} n [] ≡ []
take_nil zero = refl
take_nil (suc n) = refl

take_some : (n c : ℕ) (cs : Bytes) → 1 ≤ n → (length (take n (c ∷ cs)) == 0) ≡ false
take_some zero c cs h = absurd (omega arith)
take_some (suc n) c cs h = ground arith

-- a full buffer ends the loop
pump_full :
    (answers : List Answer) (text : Bytes)
    → drop_bytes < length text
    → pump answers text ≡ finished false text
unfolding pump
pump_full [] text h = ground arith
pump_full (bytes b ∷ answers) text h = rw (lt→ltb drop_bytes (length text) h) refl
pump_full (interrupted ∷ answers) text h = rw (lt→ltb drop_bytes (length text) h) refl
pump_full (again ∷ answers) text h = rw (lt→ltb drop_bytes (length text) h) refl
pump_full (failed ∷ answers) text h = refl

-- more than the limit is not whole
too_long :
    (text content : Bytes)
    → drop_bytes < length text + length content
    → is_whole text content ≡ false
too_long text content h = ground (arith, length-append text content)

-- The proof's cases for a piece of data: `c ∷ cs` read after `text`, with `rest` to follow.
module _ (answers : List Answer) (text : Bytes) (c : ℕ) (cs rest : Bytes)
    (more : (t : Bytes)
      → length t ≤ drop_bytes + 1
      → outcome (pump answers t) ≡ some (if is_whole t rest then some (t ++ rest) else none))
    (short : length text ≤ drop_bytes) where
  abbrev chunk : Bytes
  chunk = take (drop_bytes + 1 - length text) (c ∷ cs)

  -- a NUL in the piece
  nul_rejected : has_nul chunk ≡ true → is_whole text (c ∷ cs ++ rest) ≡ false
  nul_rejected h =
      let k = has_nul-take (drop_bytes + 1 - length text) (c ∷ cs) h in
      let e = has_nul-append (c ∷ cs) rest in ground arith

  -- a piece that fits the buffer
  fits :
      length (c ∷ cs) ≤ drop_bytes + 1 - length text
      → has_nul chunk ≡ false
      → outcome (pump answers (text ++ chunk))
        ≡ some (if is_whole text (c ∷ cs ++ rest) then some (text ++ (c ∷ cs ++ rest)) else none)
  fits h k =
      let whole : chunk ≡ c ∷ cs = take-all (drop_bytes + 1 - length text) (c ∷ cs) h in
      let clean : has_nul (c ∷ cs) ≡ false = subst (λ b. has_nul b ≡ false) whole k in
      let next = more (text ++ (c ∷ cs)) (omega (arith, length-append text (c ∷ cs), h, short)) in
      let joined = append_assoc text (c ∷ cs) rest in
      let nul : has_nul (c ∷ cs ++ rest) ≡ has_nul rest =
        has_nul-append (c ∷ cs) rest ∙ ap (λ b. b || has_nul rest) clean in
      rw (whole, nul, ← joined) next

  -- a piece that does not
  overflows :
      drop_bytes + 1 - length text < length (c ∷ cs)
      → outcome (pump answers (text ++ chunk))
        ≡ some (if is_whole text (c ∷ cs ++ rest) then some (text ++ (c ∷ cs ++ rest)) else none)
  overflows h =
      let size = length-take_short (drop_bytes + 1 - length text) (c ∷ cs) (omega arith) in
      let full =
        pump_full answers (text ++ chunk) (omega (arith, length-append text chunk, size, short)) in
      let long = too_long text (c ∷ cs ++ rest) (omega (arith, length-append (c ∷ cs) rest, h)) in
      rw (full, long) refl

  piece :
      outcome (pump (bytes (c ∷ cs) ∷ answers) text)
      ≡ some (if is_whole text (c ∷ cs ++ rest) then some (text ++ (c ∷ cs ++ rest)) else none)
  unfolding pump
  piece =
      let room : ltb drop_bytes (length text) ≡ false = ground arith in
      let some_read = take_some (drop_bytes + 1 - length text) c cs (omega (arith, short)) in
      elim (Bool-cases (has_nul chunk)) [
        | inl h ↦ rw (room, some_read, h, nul_rejected h) refl
        | inr h ↦ elim (Bool-cases (leb (length (c ∷ cs)) (drop_bytes + 1 - length text))) [
          | inl k ↦ rw (room, some_read, h) (fits (ground arith) h)
          | inr k ↦ rw (room, some_read, h) (overflows (ground arith))
        ]
      ]

full_outcome :
    (answers : List Answer) (text content : Bytes)
    → drop_bytes < length text
    → outcome (pump answers text)
      ≡ some (if is_whole text content then some (text ++ content) else none)
full_outcome answers text content h =
    rw (pump_full answers text h, too_long text content (omega (arith, h))) refl

pump_end :
    (answers : List Answer) (text : Bytes)
    → length text ≤ drop_bytes
    → outcome (pump (bytes [] ∷ answers) text)
      ≡ some (if is_whole text [] then some (text ++ []) else none)
unfolding pump has_nul
pump_end answers text h =
    let room : ltb drop_bytes (length text) ≡ false = ground arith in
    let fits_all : leb (length text) drop_bytes ≡ true = ground arith in
    rw (room, take_nil (drop_bytes + 1 - length text), append-nil text, fits_all) refl

pump_interrupted :
    (answers : List Answer) (text : Bytes)
    → ltb drop_bytes (length text) ≡ false
    → pump (interrupted ∷ answers) text ≡ pump answers text
unfolding pump
pump_interrupted answers text e = rw e refl

pump-outcome :
    (answers : List Answer) (content text : Bytes)
    → contents answers ≡ some content
    → length text ≤ drop_bytes + 1
    → outcome (pump answers text)
      ≡ some (if is_whole text content then some (text ++ content) else none)
unfolding contents
pump-outcome [] content text h k = cc
pump-outcome (bytes [] ∷ answers) content text h k =
    elim (Bool-cases (ltb drop_bytes (length text))) [
      | inl e ↦ full_outcome (bytes [] ∷ answers) text content (ltb→lt drop_bytes (length text) e)
      | inr e ↦
          subst
            (λ r.
              outcome (pump (bytes [] ∷ answers) text)
              ≡ some (if is_whole text r then some (text ++ r) else none))
            (some_inj h) (pump_end answers text (ltb→le drop_bytes (length text) e))
    ]
pump-outcome (bytes (c ∷ cs) ∷ answers) content text h k =
    let (rest, e, m) = >>=-eq-some (contents answers) _ h in
    elim (Bool-cases (ltb drop_bytes (length text))) [
      | inl f ↦
          full_outcome (bytes (c ∷ cs) ∷ answers) text content (ltb→lt drop_bytes (length text) f)
      | inr f ↦
          subst
            (λ r.
              outcome (pump (bytes (c ∷ cs) ∷ answers) text)
              ≡ some (if is_whole text r then some (text ++ r) else none))
            (some_inj m)
            (piece answers text c cs rest (λ t l. pump-outcome answers rest t e l)
              (ltb→le drop_bytes (length text) f))
    ]
pump-outcome (interrupted ∷ answers) content text h k =
    elim (Bool-cases (ltb drop_bytes (length text))) [
      | inl e ↦
          full_outcome (interrupted ∷ answers) text content (ltb→lt drop_bytes (length text) e)
      | inr e ↦ ap outcome (pump_interrupted answers text e) ∙ pump-outcome answers content text h k
    ]
pump-outcome (again ∷ answers) content text h k = cc
pump-outcome (failed ∷ answers) content text h k = cc

-- what the outcome does to the batch
abbrev settle : Option Bytes → DropState → DropState
settle none d = Drop.reject d
settle (some text) d = offer text d

settle_if :
    (b : Bool) (text : Bytes) (d : DropState)
    → settle (if b then some text else none) d ≡ (if b then offer text d else Drop.reject d)
settle_if true text d = refl
settle_if false text d = refl

pumped_drop :
    (t : Transfer) (r : Pumped) (o : Option Bytes) (s : State)
    → outcome r ≡ some o
    → ((pumped t r s).drop ≡ settle o s.drop) × ((pumped t r s).transfer ≡ none)
unfolding finish_transfer end_transfer zimbr.Wayland.State.destroy_offer Drop.reject
pumped_drop t (waiting text) o s h = cc
pumped_drop t (finished true text) o s h = (ap (λ x. settle x s.drop) (some_inj h), refl)
pumped_drop t (finished false text) o s h = (ap (λ x. settle x s.drop) (some_inj h), refl)

-- A transfer before its deadline, whose pipe gives `content` and then ends, through any
-- interruptions, is over after the poll. The text that it had with the content behind it was
-- offered to the composer if it is at most ZC_DROP_BYTES long and the content has no NUL, and was
-- rejected otherwise.
pub poll-drop :
    (s : State) (t : Transfer) (now : ℕ) (answers : List Answer) (content : Bytes)
    → s.transfer ≡ some t
    → now < t.deadline
    → length t.text ≤ drop_bytes
    → contents answers ≡ some content
    → ((poll now answers s).drop ≡ (
        if is_whole t.text content then offer (t.text ++ content) s.drop else Drop.reject s.drop))
      × ((poll now answers s).transfer ≡ none)
unfolding poll
poll-drop s t now answers content e early short h =
    let before : leb t.deadline now ≡ false = ground arith in
    let out = pump-outcome answers content t.text h (omega (arith, short)) in
    let u : State = record s { transfer = some t } in
    let done = pumped_drop t (pump answers t.text) _ u out in
    rw (e, before) (done.0 ∙ settle_if (is_whole t.text content) (t.text ++ content) s.drop, done.1)
