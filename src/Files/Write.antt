-- ===== src/Files/Write.antt =====
-- zr_upload_write of src/relay/uploads.c and zc_outgoing_write of src/client/outgoing.c: the same
-- loop over write(2) that the transport has.
use zimbr.Prelude.{
  ℕ, ◌≡◌, refl, sym, ◌∙◌, ap, Bool, true, false, List, [], ◌∷◌, ◌++◌, ◌==◌, take, drop, take-drop,
  Bool-cases, inl, inr,
}
use mathlib.Core.List.{append_assoc, append-nil}
use zimbr.Files.Kernel.{Bytes}
use zimbr.Net.Receive.{Answer, takes, interrupted, failed, write_all}

unfoldable pub upload_write : List Answer → Bytes → Bytes → Bool × Bytes
upload_write answers content file = write_all answers content file

unfoldable pub outgoing_write : List Answer → Bytes → Bytes → Bool × Bytes
outgoing_write answers content file = write_all answers content file

abbrev pub is_empty : Bytes → Bool
is_empty [] = true
is_empty (c ∷ cs) = false

-- a part was written, from the start, and success is that nothing is left
abbrev pub IsWritten : Bytes → Bytes → Bool × Bytes → Type 0
IsWritten content file r =
    (sent : Bytes) × (left : Bytes) × (content ≡ sent ++ left)
    × (r.1 ≡ file ++ sent)
    × (r.0 ≡ is_empty left)

nothing : (content file : Bytes) (c : ℕ) → IsWritten (c ∷ content) file (false, file)
nothing content file c = ([], c ∷ content, refl, sym (append-nil file), refl)

-- the first k bytes, and then a part of the rest
add_piece :
    (k : ℕ) (content file : Bytes) (r : Bool × Bytes)
    → IsWritten (drop k content) (file ++ take k content) r
    → IsWritten content file r
add_piece k content file r (sent, left, e, f, g) = (
  take k content ++ sent,
  left,
  sym (take-drop k content)
      ∙ ap (λ d. take k content ++ d) e
      ∙ sym (append_assoc (take k content) sent left),
  f ∙ append_assoc file (take k content) sent,
  g,
)

pub write_all-IsWritten :
    (answers : List Answer) (content file : Bytes)
    → IsWritten content file (write_all answers content file)
unfolding write_all
write_all-IsWritten answers [] file = ([], [], refl, sym (append-nil file), refl)
write_all-IsWritten [] (c ∷ cs) file = nothing cs file c
write_all-IsWritten (takes k ∷ answers) (c ∷ cs) file = elim (Bool-cases (k == 0)) [
  | inl e ↦ rw e (nothing cs file c)
  | inr e ↦ rw e (
      add_piece k (c ∷ cs) file (write_all answers (drop k (c ∷ cs)) (file ++ take k (c ∷ cs)))
        (write_all-IsWritten answers (drop k (c ∷ cs)) (file ++ take k (c ∷ cs))))
]
write_all-IsWritten (interrupted ∷ answers) (c ∷ cs) file =
    write_all-IsWritten answers (c ∷ cs) file
write_all-IsWritten (failed ∷ answers) (c ∷ cs) file = nothing cs file c

-- Whatever the kernel answers, with any short writes and interruptions, both loops add a part of
-- the content to the file, from its start, and report success exactly when all of it was added.
pub writes-IsWritten :
    (answers : List Answer) (content file : Bytes)
    → IsWritten content file (upload_write answers content file)
      × IsWritten content file (outgoing_write answers content file)
unfolding upload_write outgoing_write
writes-IsWritten answers content file =
    (write_all-IsWritten answers content file, write_all-IsWritten answers content file)
