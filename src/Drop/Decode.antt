-- ===== src/Drop/Decode.antt =====
-- One step of the decoding loop of zc_drop_parse, at a plain byte and at an escape.
use zimbr.Prelude.{ℕ, ◌+◌, ◌*◌, ◌≡◌, refl, false, ◌||◌, some, [], ◌∷◌, ◌==◌}
use zimbr.Drop.{Bytes, put_byte, decode, hex}

pub decode-plain :
    (used c : ℕ) (cs : Bytes)
    → (c == b'%') ≡ false
    → ((c == b'?') || (c == b'#')) ≡ false
    → decode used (c ∷ cs) ≡ put_byte used c (decode (used + 1) cs)
unfolding decode
decode-plain used c [] p q = rw (p, q) refl
decode-plain used c (d ∷ []) p q = rw (p, q) refl
decode-plain used c (d ∷ e ∷ cs) p q = rw (p, q) refl

pub decode-escape :
    (used d e : ℕ) {high low : ℕ} (cs : Bytes)
    → hex d ≡ some high
    → hex e ≡ some low
    → decode used (b'%' ∷ d ∷ e ∷ cs) ≡ put_byte used (high * 16 + low) (decode (used + 1) cs)
unfolding decode
decode-escape used d e cs p q = rw (p, q) refl
