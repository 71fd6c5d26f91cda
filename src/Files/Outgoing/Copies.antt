-- ===== src/Files/Outgoing/Copies.antt =====
-- The client's copies of src/client/outgoing.c: the descriptors after each operation, and the names
-- of a scan.
use zimbr.Prelude.{
  ℕ, ◌≡◌, ◌<◌, subst, true, false, Option, none, some, List, [], ◌∷◌, leb, length, Bool-cases, inl,
  inr, arith,
}
use zimbr.Files.Kernel.{
  Bytes, Stat, Answer, Kernel, made, descriptor, success, status, entry, finished, failure,
  read_entry,
}
use zimbr.Files.Outgoing.{valid_id, Next, named, broken, outgoing_next}

-- the descriptor of a source that was opened with its fingerprint
abbrev pub source_fd : Option (ℕ × Stat) × Kernel → Option ℕ × Kernel
source_fd (none, k) = (none, k)
source_fd (some (fd, st), k) = (some fd, k)

not_named : (s t : Kernel) (name : Bytes) → ◌≡◌ {A = Next × Kernel} (broken, s) (named name, t) → ⊥
not_named s t name h = cc

same_name : (s t : Kernel) (a b : Bytes) → ◌≡◌ {A = Next × Kernel} (named a, s) (named b, t) → a ≡ b
same_name s t a b h = cc

shorter : (a b : ℕ) → leb a b ≡ false → b < a
shorter a b h = ground arith

-- A name that the scan gives is an identifier of 22 Base64url bytes that, with its NUL, fits the
-- caller's buffer, whatever the directory holds.
pub outgoing_next-named :
    (answers : List Answer) (scan capacity : ℕ) (k k' : Kernel) (name : Bytes)
    → outgoing_next answers scan capacity k ≡ (named name, k')
    → (valid_id name ≡ true) × (length name < capacity)
unfolding outgoing_next
outgoing_next-named [] scan capacity k k' name h = cc
outgoing_next-named (descriptor fd ∷ as') scan capacity k k' name h = cc
outgoing_next-named (success ∷ as') scan capacity k k' name h = cc
outgoing_next-named (status st ∷ as') scan capacity k k' name h = cc
outgoing_next-named (failure e ∷ as') scan capacity k k' name h = cc
outgoing_next-named (finished ∷ as') scan capacity k k' name h = cc
outgoing_next-named (entry entry_name ∷ as') scan capacity k k' name h =
    elim (Bool-cases (valid_id entry_name)) [
      | inl e ↦ elim (Bool-cases (leb capacity (length entry_name))) [
        | inl f ↦ absurd (not_named (made (read_entry scan) k) k' name (rw (e, f) at h))
        | inr f ↦
            subst (λ x. (valid_id x ≡ true) × (length x < capacity))
              (same_name _ k' entry_name name (rw (e, f) at h))
              (e, shorter capacity (length entry_name) f)
      ]
      | inr e ↦ outgoing_next-named as' scan capacity (made (read_entry scan) k) k' name (rw e at h)
    ]
