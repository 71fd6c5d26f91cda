-- ===== src/Net/Receive/Caps.antt =====
-- A response that is accepted is kept whole, and within the cap of its lane.
use zimbr.Prelude.{
  ℕ, ◌+◌, ◌^◌, ◌≤◌, ◌<◌, ◌≡◌, refl, sym, ◌∙◌, ap, subst, Bool, true, false, ◌&&◌, ◌||◌, not, List,
  [], ◌∷◌, ◌++◌, ◌==◌, ltb, ltb→le, if◌then◌else◌, length, length-append, take, drop, take-drop,
  Bool-cases, inl, inr, arith,
}
use mathlib.Core.List.{append_assoc, append-nil}
use zimbr.Net.Slot.{Bytes, Slot, sub64, sub64_le}
use zimbr.Net.Receive.{
  is_stream, is_media, media_limit, media_error_limit, body_limit, Answer, takes, interrupted,
  failed, write_all, written, append, receive, cap, Call, receive_all,
}

-- the bytes of a response, where they are kept
abbrev pub kept : ℕ → Slot → Bytes
kept status s = if is_media s && (status == 200) then s.file else s.body

abbrev pub whole : List Call → Bytes
whole [] = []
whole (c ∷ calls) = c.chunk ++ whole calls

-- an outcome that is not a refusal comes from the other branch
if_true {ℓ} :
    {A : Type ℓ} (b : Bool) (s : A) {t : A} {x : Bool × A}
    → (if b then (false, s) else x) ≡ (true, t)
    → (b ≡ false) × (x ≡ (true, t))
if_true true s h = cc
if_true false s h = (refl, h)

write_all-true :
    (answers : List Answer) (b file after : Bytes)
    → write_all answers b file ≡ (true, after)
    → after ≡ file ++ b
unfolding write_all
write_all-true answers [] file after h = let e = append-nil file in cc
write_all-true [] (c ∷ cs) file after h = cc
write_all-true (takes k ∷ answers) (c ∷ cs) file after h =
    let r = if_true (k == 0) file h in
    write_all-true answers (drop k (c ∷ cs)) (file ++ take k (c ∷ cs)) after r.1
    ∙ append_assoc file (take k (c ∷ cs)) (drop k (c ∷ cs))
    ∙ ap (λ d. file ++ d) (take-drop k (c ∷ cs))
write_all-true (interrupted ∷ answers) (c ∷ cs) file after h =
    write_all-true answers (c ∷ cs) file after h
write_all-true (failed ∷ answers) (c ∷ cs) file after h = cc

-- what is kept is counted, and within the cap
pub record IsCounted (status : ℕ) (s : Slot) : Type 0 where
  pub counted : s.len ≡ length (kept status s)
  pub within : s.len ≤ cap status s

-- One accepted piece.
abbrev pub IsGrown : ℕ → Slot → Bytes → Slot → Type 0
IsGrown status s chunk t =
    (t.index ≡ s.index) × IsCounted status t × (kept status t ≡ kept status s ++ chunk)

cap_index : (status : ℕ) (s t : Slot) → t.index ≡ s.index → cap status t ≡ cap status s
unfolding cap body_limit
cap_index status s t e = rw e refl

grown :
    (status : ℕ) (s t : Slot) (chunk : Bytes)
    → IsCounted status s
    → t.index ≡ s.index
    → t.len ≡ s.len + length chunk
    → kept status t ≡ kept status s ++ chunk
    → s.len + length chunk ≤ cap status s
    → IsGrown status s chunk t
grown status s t chunk c i e k w =
    let n : length (kept status t) ≡ length (kept status s) + length chunk =
      ap length k ∙ length-append (kept status s) chunk in
    (
      i,
      record {
        counted = omega (arith, c.counted, e, n);
        within = omega (arith, cap_index status s t i, e, w);
      },
      k,
    )

module _ (status : ℕ) (s : Slot) (c : IsCounted status s) where
  written-IsGrown :
      (chunk : Bytes) (p : Bool × Bytes) (t : Slot)
      → is_media s && (status == 200) ≡ true
      → s.len + length chunk ≤ cap status s
      → ((file : Bytes) → p ≡ (true, file) → file ≡ s.file ++ chunk)
      → written (length chunk) p s ≡ (true, t)
      → IsGrown status s chunk t
  written-IsGrown chunk (false, file) t m w f h = cc
  written-IsGrown chunk (true, file) t m w f h =
      let u : Slot = record s { file = file; len = s.len + length chunk } in
      let k : kept status u ≡ kept status s ++ chunk = rw m (f file refl) in
      subst (IsGrown status s chunk) (ap (λ r. r.1) h) (grown status s u chunk c refl refl k w)

  append-IsGrown :
      (limit : ℕ) (chunk : Bytes) (allocated : Bool) (t : Slot)
      → is_media s && (status == 200) ≡ false
      → s.len + length chunk ≤ cap status s
      → append limit chunk allocated s ≡ (true, t)
      → IsGrown status s chunk t
  append-IsGrown limit chunk allocated t m w h =
      let u : Slot = record s { body = s.body ++ chunk; len = s.len + length chunk } in
      let k : kept status u ≡ kept status s ++ chunk = rw m refl in
      let r = if_true (ltb (sub64 limit s.len) (length chunk) || not allocated) s h in
      subst (IsGrown status s chunk) (ap (λ q. q.1) r.1) (grown status s u chunk c refl refl k w)

-- the tests of the limits, in 64 bits
room_left :
    (limit len n : ℕ)
    → len ≤ limit
    → limit < 2 ^ 64
    → ltb (sub64 limit len) n ≡ false
    → len + n ≤ limit
room_left limit len n h k e =
    let d = sub64_le limit len h k in let l = ltb→le (sub64 limit len) n e in omega (arith, d, l)

cap_media :
    (status : ℕ) (s : Slot) → is_media s && (status == 200) ≡ true → cap status s ≡ media_limit
unfolding cap
cap_media status s m = ground arith

cap_error :
    (status : ℕ) (s : Slot)
    → is_media s && (status == 200) ≡ false
    → is_media s ≡ true
    → cap status s ≡ media_error_limit
unfolding cap
cap_error status s m i = ground arith

cap_body : (status : ℕ) (s : Slot) → is_media s ≡ false → cap status s ≡ body_limit s
unfolding cap
cap_body status s i = rw i refl

body_limit_small : (s : Slot) → body_limit s < 2 ^ 64
unfolding body_limit
body_limit_small s = ground arith

-- the room for a body, whichever of the limits holds
body_room :
    (chunk : Bytes) (status : ℕ) (allocated : Bool) (s : Slot)
    → IsCounted status s
    → is_media s && (status == 200) ≡ false
    → is_media s && ltb (sub64 media_error_limit s.len) (length chunk) ≡ false
    → ltb (sub64 (body_limit s) s.len) (length chunk) || not allocated ≡ false
    → s.len + length chunk ≤ cap status s
body_room chunk status allocated s c m a b = elim (Bool-cases (is_media s)) [
  | inl i ↦
      let e = cap_error status s m i in
      let l : ltb (sub64 media_error_limit s.len) (length chunk) ≡ false = (rw i at a) in
      omega (
        arith,
        e,
        room_left media_error_limit s.len (length chunk) (omega (arith, c.within, e)) (omega arith)
            l,
      )
  | inr i ↦
      let e = cap_body status s i in
      let l : ltb (sub64 (body_limit s) s.len) (length chunk) ≡ false =
        first_false _ (not allocated) b in
      omega (
        arith,
        e,
        room_left (body_limit s) s.len (length chunk) (omega (arith, c.within, e))
            (body_limit_small s) l,
      )
]
  where
    first_false : (x y : Bool) → x || y ≡ false → x ≡ false
    first_false true y h = h
    first_false false y h = refl

receive-IsGrown :
    (chunk : Bytes) (status now : ℕ) (answers : List Answer) (taken allocated : Bool) (s t : Slot)
    → is_stream s ≡ false
    → IsCounted status s
    → receive chunk status now answers taken allocated s ≡ (true, t)
    → IsGrown status s chunk t
unfolding receive
receive-IsGrown chunk status now answers taken allocated s t q c h =
    let u : Slot = record s { last_rx = now } in
    let cu : IsCounted status u = record {
      counted = c.counted;
      within = (unfold cap in c.within);
    } in
    elim (Bool-cases (is_media s && (status == 200))) [
      | inl m ↦
          let r = if_true (ltb (sub64 media_limit s.len) (length chunk)) u (rw m at h) in
          let e = cap_media status s m in
          let w =
            room_left media_limit s.len (length chunk) (omega (arith, c.within, e)) (omega arith)
              r.0 in
          written-IsGrown status u cu chunk (write_all answers chunk s.file) t m
            (omega (arith, cap_index status s u refl, e, w)) (write_all-true answers chunk s.file)
            r.1
      | inr m ↦
          let r =
            if_true (is_media s && ltb (sub64 media_error_limit s.len) (length chunk)) u
              (rw m at h) in
          let a : append (body_limit u) chunk allocated u ≡ (true, t) = (rw q at r.1) in
          let b = if_true (ltb (sub64 (body_limit u) s.len) (length chunk) || not allocated) u a in
          append-IsGrown status u cu (body_limit u) chunk allocated t m
            (body_room chunk status allocated u cu m r.0 b.0) a
    ]

refused {ℓ} : {A : Type ℓ} (s t : A) → ◌≡◌ {A = Bool × A} (false, s) (true, t) → ⊥
refused s t h = cc

stream_index : (s t : Slot) → t.index ≡ s.index → is_stream s ≡ false → is_stream t ≡ false
stream_index s t e q = rw e q

-- In a lane that is not the event stream, whose bytes so far are counted and within its cap, the
-- calls of one transfer that are all accepted keep every byte in order, in the file of an image
-- or in the body of anything else, and what is kept is at most the lane's cap: 8 MiB for an image,
-- 8 KiB for an image's error, 512 KiB for the answer to an upload and 64 MiB for other bodies.
pub receive_all-IsGrown :
    (status : ℕ) (calls : List Call) (s t : Slot)
    → is_stream s ≡ false
    → IsCounted status s
    → receive_all status calls s ≡ (true, t)
    → IsGrown status s (whole calls) t
unfolding receive_all
receive_all-IsGrown status [] s t q c h =
    subst (IsGrown status s []) (ap (λ r. r.1) h) (refl, c, sym (append-nil (kept status s)))
receive_all-IsGrown status (k ∷ calls) s t q c h =
    let r = receive k.chunk status k.now k.answers k.taken k.allocated s in
    elim (Bool-cases r.0) [
      | inl e ↦
          let one : IsGrown status s k.chunk r.1 =
            receive-IsGrown k.chunk status k.now k.answers k.taken k.allocated s r.1 q c
              (ap (λ b. (b, r.1)) e) in
          let rest : IsGrown status r.1 (whole calls) t =
            receive_all-IsGrown status calls r.1 t (stream_index s r.1 one.0 q) one.1 (rw e at h) in
          (
            rest.0 ∙ one.0,
            rest.1,
            rest.2
                ∙ ap (λ b. b ++ whole calls) one.2
                ∙ append_assoc (kept status s) k.chunk (whole calls),
          )
      | inr e ↦ absurd (refused r.1 t (rw e at h))
    ]
