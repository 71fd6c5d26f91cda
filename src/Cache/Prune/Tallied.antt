-- ===== src/Cache/Prune/Tallied.antt =====
-- src/client/media.c: the scan of a prune and the tally of the listing agree.
use zimbr.Prelude.{
  ℕ, ◌+◌, ◌-◌, ◌≡◌, if_both, refl, ap, subst, if_two, Bool, true, false, Option, none, some, List,
  [], ◌∷◌, ◌++◌, ◌==◌, ltb, if◌then◌else◌, length, length-append, Bool-cases, inl, inr, arith,
}
use zimbr.Files.Kernel.{Bytes, no_entry}
use zimbr.Cache.{cache_name}
use zimbr.Cache.Prune.{
  Time, Entry, Looked, seen, failing, Listed, Scan, entry_cap, temporary_length, size_max, grown,
  counted, add_entry, add_temporary, take_file, sized, looked_at, scan_round, scan_loop,
  unless_broken,
}
use zimbr.Cache.Prune.Order.{total}
use zimbr.Cache.Prune.Invariant.{scan_loop-failed}
use zimbr.Cache.Prune.Tally.{
  with_time, seen_file, cache_file, Tally, tally_file, tally, Holds, IsTallied,
}

total-snoc : (es : List Entry) (e : Entry) → total (es ++ e ∷ []) ≡ total es + e.bytes
unfolding total
total-snoc [] e = omega arith
total-snoc (f ∷ fs) e = omega (arith, total-snoc fs e)

snoc-Holds :
    (e : Entry) (t : Tally) (s : Scan) (capacity : ℕ)
    → Holds t s
    → Holds
        (record t { entries = t.entries ++ e ∷ [] })
        (record s {
          entries = s.entries ++ e ∷ [];
          count = s.count + 1;
          capacity = capacity;
          bytes = s.bytes + e.bytes;
        })
snoc-Holds e t s capacity h = record {
  entries = ap (λ es. es ++ e ∷ []) h.entries;
  count = omega (arith, h.count, length-append t.entries (e ∷ []));
  bytes = omega (arith, h.bytes, total-snoc t.entries e);
  removed = h.removed;
}

counted-IsTallied :
    (l : Listed) (size capacity : ℕ) (modified : Time) (t : Tally) (s : Scan)
    → Holds t s
    → IsTallied
        (record t {
          entries = t.entries ++ record { name = l.name; bytes = size; used = modified } ∷ [];
        })
        (counted l size modified (record s { capacity = capacity }))
counted-IsTallied l size capacity modified t s h =
    let e : Entry = record { name = l.name; bytes = size; used = modified } in
    let t' : Tally = record t { entries = t.entries ++ e ∷ [] } in
    let s' : Scan = record s {
      entries = s.entries ++ e ∷ [];
      count = s.count + 1;
      capacity = capacity;
      bytes = s.bytes + size;
    } in
    if_both (IsTallied t') (ltb (size_max - s.bytes) size)
      (true, record s { ok = false; capacity = capacity }) (false, s') refl
      (inr (snoc-Holds e t s capacity h))

add_entry-IsTallied :
    (l : Listed) (size : ℕ) (modified : Time) (t : Tally) (s : Scan)
    → Holds t s
    → IsTallied
        (record t {
          entries = t.entries ++ record { name = l.name; bytes = size; used = modified } ∷ [];
        })
        (add_entry l size modified s)
add_entry-IsTallied l size modified t s h =
    let e : Entry = record { name = l.name; bytes = size; used = modified } in
    let t' : Tally = record t { entries = t.entries ++ e ∷ [] } in
    let more = counted l size modified (record s { capacity = grown s.capacity }) in
    let full : Bool × Scan = (true, record s { ok = false }) in
    if_both (IsTallied t') (s.count == s.capacity) (if l.allocated then more else full)
      (counted l size modified s)
      (if_both (IsTallied t') l.allocated more full
        (counted-IsTallied l size (grown s.capacity) modified t s h) refl)
      (counted-IsTallied l size s.capacity modified t s h)

add_temporary-IsTallied :
    (size : ℕ) (t : Tally) (s : Scan)
    → Holds t s
    → IsTallied (record t { temporaries = t.temporaries + size }) (add_temporary size s)
add_temporary-IsTallied size t s h =
    let t' : Tally = record t { temporaries = t.temporaries + size } in
    let s' : Scan = record s { bytes = s.bytes + size } in
    if_both (IsTallied t') (ltb (size_max - s.bytes) size) (true, record s { ok = false })
      (false, s') refl
      (inr (record {
        entries = h.entries;
        count = h.count;
        bytes = omega (arith, h.bytes);
        removed = h.removed;
      }))

failed-IsTallied :
    (size : ℕ) (t : Tally) (s : Scan) → IsTallied t (add_temporary size (record s { ok = false }))
failed-IsTallied size t s =
    let s' : Scan = record s { ok = false } in
    if_both (IsTallied t) (ltb (size_max - s.bytes) size) (true, s')
      (false, record s' { bytes = s.bytes + size }) refl (inl refl)

gone-Holds :
    (name : Bytes) (t : Tally) (s : Scan)
    → Holds t s
    → Holds
        (record t { removed = t.removed ++ name ∷ [] })
        (record s { removed = s.removed ++ name ∷ [] })
gone-Holds name t s h = record {
  entries = h.entries;
  count = h.count;
  bytes = h.bytes;
  removed = ap (λ names. names ++ name ∷ []) h.removed;
}

take_file-IsTallied :
    (startup : Bool) (l : Listed) (size : ℕ) (modified : Time) (t : Tally) (s : Scan)
    → Holds t s
    → IsTallied
        (tally_file startup l (some (size, modified)) t)
        (take_file startup l size modified s)
take_file-IsTallied startup l size modified t s h =
    let e : Entry = record { name = l.name; bytes = size; used = modified } in
    let gone : Tally = record t { removed = t.removed ++ l.name ∷ [] } in
    let more : Tally = record t { entries = t.entries ++ e ∷ [] } in
    let large : Tally = record t { temporaries = t.temporaries + size } in
    let went : Bool × Scan = (false, record s { removed = s.removed ++ l.name ∷ [] }) in
    let stayed = add_temporary size (record s { ok = false }) in
    let refused : Bool × Scan = (false, record s { ok = false }) in
    if_two IsTallied (length l.name == temporary_length) (if startup then gone else large)
      (if length t.entries == entry_cap then gone else more)
      (if startup then (if l.unlinked then went else stayed) else add_temporary size s)
      (if s.count == entry_cap
        then (if l.unlinked then went else refused)
        else add_entry l size modified s)
      (if_two IsTallied startup gone large (if l.unlinked then went else stayed)
        (add_temporary size s)
        (if_both (IsTallied gone) l.unlinked went stayed (inr (gone-Holds l.name t s h))
          (failed-IsTallied size gone s))
        (add_temporary-IsTallied size t s h))
      (subst
        (λ n. IsTallied (if n == entry_cap then gone else more) (
          if s.count == entry_cap
          then (if l.unlinked then went else refused)
          else add_entry l size modified s))
        h.count
        (if_two IsTallied (s.count == entry_cap) gone more (if l.unlinked then went else refused)
          (add_entry l size modified s)
          (if_both (IsTallied gone) l.unlinked went refused (inr (gone-Holds l.name t s h))
            (inl refl))
          (add_entry-IsTallied l size modified t s h)))

sized-IsTallied :
    (startup : Bool) (l : Listed) (size : Option ℕ) (modified : Time) (t : Tally) (s : Scan)
    → Holds t s
    → IsTallied (tally_file startup l (with_time size modified) t) (sized startup l size modified s)
sized-IsTallied startup l none modified t s h = inr h
sized-IsTallied startup l (some size) modified t s h =
    take_file-IsTallied startup l size modified t s h

looked_at-IsTallied :
    (startup : Bool) (l : Listed) (looked : Looked) (t : Tally) (s : Scan)
    → Holds t s
    → IsTallied (tally_file startup l (seen_file looked) t) (looked_at startup l looked s)
looked_at-IsTallied startup l (failing e) t s h =
    if_both (IsTallied t) (e == no_entry) (false, s) (false, record s { ok = false }) (inr h)
      (inl refl)
looked_at-IsTallied startup l (seen st) t s h = elim (Bool-cases st.is_regular) [
  | inl r ↦ elim (Bool-cases st.is_own) [
    | inl o ↦ rw (r, o) (sized-IsTallied startup l st.size st.modified t s h)
    | inr o ↦ rw (r, o) (inr h)
  ]
  | inr r ↦ rw r (inr h)
]

scan_round-IsTallied :
    (startup : Bool) (l : Listed) (t : Tally) (s : Scan)
    → Holds t s
    → IsTallied (tally_file startup l (cache_file l) t) (scan_round startup l s)
unfolding scan_round
scan_round-IsTallied startup l t s h = elim (Bool-cases (cache_name l.name)) [
  | inl c ↦ rw c (looked_at-IsTallied startup l l.looked t s h)
  | inr c ↦ rw c (inr h)
]

-- the rounds after a round, of which the induction is given
then-Holds :
    (startup : Bool) (ls : List Listed) (read_fails : Bool) (t : Tally) (r : Bool × Scan)
    → ((t : Tally) (s : Scan)
        → (scan_loop startup ls read_fails s).ok ≡ true
        → Holds t s
        → Holds (tally startup ls t) (scan_loop startup ls read_fails s))
    → (unless_broken r (scan_loop startup ls read_fails)).ok ≡ true
    → IsTallied t r
    → Holds (tally startup ls t) (unless_broken r (scan_loop startup ls read_fails))
then-Holds startup ls read_fails t (true, s) next h k = cc
then-Holds startup ls read_fails t (false, s) next h (inl failed) =
    let e = scan_loop-failed startup ls read_fails s failed in cc
then-Holds startup ls read_fails t (false, s) next h (inr holds) = next t s h holds

-- A scan that met no error counted what the tally counts.
pub scan_loop-Holds :
    (startup : Bool) (ls : List Listed) (read_fails : Bool) (t : Tally) (s : Scan)
    → (scan_loop startup ls read_fails s).ok ≡ true
    → Holds t s
    → Holds (tally startup ls t) (scan_loop startup ls read_fails s)
unfolding scan_loop tally
scan_loop-Holds startup [] true t s h k = cc
scan_loop-Holds startup [] false t s h k = k
scan_loop-Holds startup (l ∷ ls) read_fails t s h k =
    then-Holds startup ls read_fails (tally_file startup l (cache_file l) t)
      (scan_round startup l s) (scan_loop-Holds startup ls read_fails) h
      (scan_round-IsTallied startup l t s k)
