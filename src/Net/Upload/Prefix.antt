-- ===== src/Net/Upload/Prefix.antt =====
-- An upload sends the file from its start, in order, and never past the promised length.
use zimbr.Prelude.{
  ℕ, zero, suc, ◌+◌, ◌-◌, ◌%◌, ◌^◌, ◌≤◌, ◌<◌, ◌≡◌, refl, sym, ◌∙◌, ap, subst, Option, none, some,
  some_inj, List, [], ◌∷◌, ◌++◌, ◌==◌, length, take, drop, ==_iff, Bool-cases, inl, inr, arith,
}
use mathlib.Core.List.{append_assoc, append-nil}
use zimbr.Net.Slot.{Bytes, Slot, sub64_le}
use zimbr.Net.Upload.{
  Answer, gives, interrupted, failed, stored, wanted, pread, store, upload_read, given, upload,
}

take_more :
    (n m : ℕ) (content : Bytes) → take (n + m) content ≡ take n content ++ take m (drop n content)
take_more zero m content = ap (λ k. take k content) (omega arith)
take_more (suc n) m [] = take_none (suc n + m) ∙ sym (take_none m)
  where
    take_none : (k : ℕ) → take {A = ℕ} k [] ≡ []
    take_none zero = refl
    take_none (suc k) = refl
take_more (suc n) m (x ∷ content) =
    let e : suc n + m ≡ suc (n + m) = omega arith in rw e (ap (λ r. x ∷ r) (take_more n m content))

-- a piece of a piece is as long as it is, and no longer than its bounds
take_nested :
    (k count : ℕ) (d : Bytes)
    → (take (length (take k (take count d))) d ≡ take k (take count d))
      × (length (take k (take count d)) ≤ count)
take_nested zero count d = (refl, omega arith)
take_nested (suc k) zero d = (refl, omega arith)
take_nested (suc k) (suc count) [] = (refl, omega arith)
take_nested (suc k) (suc count) (x ∷ d) =
    let h = take_nested k count d in (ap (λ r. x ∷ r) h.0, omega (arith, h.1))

-- What was stored is a piece of the file at the offset, of at most the count.
abbrev IsPiece : ℕ → ℕ → Bytes → Bytes → Type 0
IsPiece count offset content b =
    (length b ≤ count) × (take (offset + length b) content ≡ take offset content ++ b)

pread-IsPiece :
    (answers : List Answer) (count offset : ℕ) (content b : Bytes)
    → pread answers count offset content ≡ some b
    → IsPiece count offset content b
unfolding pread
pread-IsPiece [] count offset content b h = cc
pread-IsPiece (gives k ∷ answers) count offset content b h =
    let n = take_nested k count (drop offset content) in
    subst (IsPiece count offset content) (some_inj h) (
      n.1,
      take_more offset (length (take k (take count (drop offset content)))) content
          ∙ ap (λ r. take offset content ++ r) n.0,
    )
pread-IsPiece (interrupted ∷ answers) count offset content b h =
    pread-IsPiece answers count offset content b h
pread-IsPiece (failed ∷ answers) count offset content b h = cc

-- the offset is within the promised length, which 64 bits hold
pub record IsPlaced (s : Slot) : Type 0 where
  pub inside : s.read_offset ≤ s.upload_length
  pub small : s.upload_length < 2 ^ 64

wanted_within : (room : ℕ) (s : Slot) → IsPlaced s → wanted room s ≤ s.upload_length - s.read_offset
unfolding wanted
wanted_within room s h =
    let e = sub64_le s.upload_length s.read_offset h.inside h.small in rw e (ground arith)

wanted_none :
    (room : ℕ) (s : Slot)
    → IsPlaced s
    → 1 ≤ room
    → wanted room s ≡ 0
    → s.read_offset ≡ s.upload_length
unfolding wanted
wanted_none room s h k e =
    let m = sub64_le s.upload_length s.read_offset h.inside h.small in
    let i = h.inside in ground arith

-- a call moves the offset by what it stored
abbrev IsMoved : Bytes → Slot → Bytes → Slot → Type 0
IsMoved content s b t =
    IsPlaced t
    × (t.upload_length ≡ s.upload_length)
    × (take t.read_offset content ≡ take s.read_offset content ++ b)

stay : (content : Bytes) (s : Slot) → IsPlaced s → IsMoved content s [] s
stay content s h = (h, refl, sym (append-nil (take s.read_offset content)))

offset_step :
    (b content : Bytes) (s : Slot)
    → IsPlaced s
    → s.read_offset + length b ≤ s.upload_length
    → take (s.read_offset + length b) content ≡ take s.read_offset content ++ b
    → IsMoved content s b (record s { read_offset = (s.read_offset + length b) % 2 ^ 64 })
offset_step b content s h k piece =
    let small = h.small in
    let e : (s.read_offset + length b) % 2 ^ 64 ≡ s.read_offset + length b = omega arith in
    (record { inside = omega (arith, e, k); small = small }, refl, rw e piece)

store-IsMoved :
    (o : Option Bytes) (content : Bytes) (s : Slot) (count : ℕ)
    → IsPlaced s
    → count ≤ s.upload_length - s.read_offset
    → ((b : Bytes) → o ≡ some b → IsPiece count s.read_offset content b)
    → IsMoved content s (given (store o s).0) (store o s).1
store-IsMoved none content s count h k piece = stay content s h
store-IsMoved (some b) content s count h k piece = elim (Bool-cases (length b == 0)) [
  | inl e ↦ rw e (stay content s h)
  | inr e ↦ rw e (offset_step b content s h (omega (arith, (piece b refl).0, k)) (piece b refl).1)
]

upload_read-IsMoved :
    (room : ℕ) (answers : List Answer) (content : Bytes) (s : Slot)
    → IsPlaced s
    → IsMoved content s
        (given (upload_read room answers content s).0)
        (upload_read room answers content s).1
unfolding upload_read
upload_read-IsMoved room answers content s h = elim (Bool-cases (wanted room s == 0)) [
  | inl e ↦ rw e (stay content s h)
  | inr e ↦ rw e (
      store-IsMoved (pread answers (wanted room s) s.read_offset content) content s (wanted room s)
        h (wanted_within room s h)
        (λ b. pread-IsPiece answers (wanted room s) s.read_offset content b))
]

upload-IsMoved :
    (calls : List (ℕ × List Answer)) (content : Bytes) (s : Slot)
    → IsPlaced s
    → IsMoved content s (upload calls content s).0 (upload calls content s).1
unfolding upload
upload-IsMoved [] content s h = stay content s h
upload-IsMoved ((room, answers) ∷ calls) content s h =
    let r = upload_read room answers content s in
    let one = upload_read-IsMoved room answers content s h in
    let rest = upload-IsMoved calls content r.1 one.0 in
    (
      rest.0,
      rest.1 ∙ one.1,
      rest.2
          ∙ ap (λ x. x ++ (upload calls content r.1).0) one.2
          ∙ append_assoc (take s.read_offset content) (given r.0) (upload calls content r.1).0,
    )

-- an empty answer that is no error comes from a count of 0
store_not_nil : (o : Option Bytes) (s : Slot) → (store o s).0 ≡ stored [] → ⊥
store_not_nil none s h = cc
store_not_nil (some []) s h = cc
store_not_nil (some (x ∷ b)) s h = ground arith

no_more :
    (room : ℕ) (answers : List Answer) (content : Bytes) (s : Slot)
    → IsPlaced s
    → 1 ≤ room
    → (upload_read room answers content s).0 ≡ stored []
    → s.read_offset ≡ s.upload_length
unfolding upload_read
no_more room answers content s h k e = elim (Bool-cases (wanted room s == 0)) [
  | inl z ↦ wanted_none room s h k ((==_iff (wanted room s) 0).0 z)
  | inr z ↦
      absurd (store_not_nil (pread answers (wanted room s) s.read_offset content) s (rw z at e))
]

-- From offset 0, with a length below 2 ^ 64 and whatever the kernel answers: all that libcurl got
-- is the file up to the offset, and the offset is within the promised length.
pub upload-IsPrefix :
    (calls : List (ℕ × List Answer)) (content : Bytes) (s : Slot)
    → s.read_offset ≡ 0
    → s.upload_length < 2 ^ 64
    → ((upload calls content s).0 ≡ take (upload calls content s).1.read_offset content)
      × ((upload calls content s).1.read_offset ≤ s.upload_length)
upload-IsPrefix calls content s z small =
    let m = upload-IsMoved calls content s (record { inside = omega (arith, z); small = small }) in
    let e : take s.read_offset content ≡ [] = rw z refl in
    (sym (m.2 ∙ ap (λ r. r ++ (upload calls content s).0) e), omega (arith, m.1, m.0.inside))

-- An upload from offset 0, with a length below 2 ^ 64, is ended by an answer of no bytes to a call
-- that has room only when all that libcurl got is the file up to the promised length.
pub upload_complete :
    (calls : List (ℕ × List Answer)) (content : Bytes) (s : Slot) (room : ℕ) (answers : List Answer)
    → s.read_offset ≡ 0
    → s.upload_length < 2 ^ 64
    → 1 ≤ room
    → (upload_read room answers content (upload calls content s).1).0 ≡ stored []
    → (upload calls content s).0 ≡ take s.upload_length content
upload_complete calls content s room answers z small k e =
    let m = upload-IsMoved calls content s (record { inside = omega (arith, z); small = small }) in
    let end = no_more room answers content (upload calls content s).1 m.0 k e in
    (upload-IsPrefix calls content s z small).0 ∙ ap (λ n. take n content) (end ∙ m.1)
