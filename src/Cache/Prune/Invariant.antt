-- ===== src/Cache/Prune/Invariant.antt =====
-- zc_cache_prune of src/client/media.c: the invariants of the scan, each from its case for every
-- change that a round makes.
use zimbr.Prelude.{
  ℕ, ◌+◌, ◌-◌, ◌≡◌, refl, Bool, true, false, not, ◌||◌, Option, none, some, List, [], ◌∷◌, ◌++◌,
  ◌==◌, ltb, if◌then◌else◌, length, Bool-cases, inl, inr, if_both, arith, if_case,
}
use zimbr.Files.Kernel.{Bytes, no_entry}
use zimbr.Cache.{cache_name}
use zimbr.Cache.Prune.{
  Time, Entry, Looked, seen, failing, Listed, Scan, entry_cap, temporary_length, size_max, grown,
  counted, add_entry, add_temporary, take_file, sized, looked_at, scan_round, scan_loop,
  unless_broken,
}

-- the file as an entry
abbrev pub entry_of : Listed → ℕ → Time → Entry
entry_of l size modified = record { name = l.name; bytes = size; used = modified }

-- a property of the scan that each change of a round preserves
pub record Preserved (P : Scan → Type 0) : Type 0 where
  pub fails : (s : Scan) → P s → P (record s { ok = false })
  pub removes :
      (s : Scan) (name : Bytes)
      → cache_name name ≡ true
      → P s
      → P (record s { removed = s.removed ++ name ∷ [] })
  pub measures :
      (s : Scan) (size : ℕ)
      → ltb (size_max - s.bytes) size ≡ false
      → P s
      → P (record s { bytes = s.bytes + size })
  pub grows :
      (s : Scan)
      → (s.count == entry_cap) ≡ false
      → (s.count == s.capacity) ≡ true
      → P s
      → P (record s { capacity = grown s.capacity })
  pub adds :
      (s : Scan) (l : Listed) (size : ℕ) (modified : Time)
      → cache_name l.name ≡ true
      → (s.count == entry_cap) ≡ false
      → (s.count == s.capacity) ≡ false
      → ltb (size_max - s.bytes) size ≡ false
      → P s
      → P (record s {
        entries = s.entries ++ entry_of l size modified ∷ [];
        count = s.count + 1;
        bytes = s.bytes + size;
      })

-- a count is not the capacity that a full array grows to
grown_ne : (count capacity : ℕ) → (count == capacity) ≡ true → (count == grown capacity) ≡ false
grown_ne count capacity h = ground arith

module _ (P : Scan → Type 0) (keep : Preserved P) where
  abbrev Kept : Bool × Scan → Type 0
  Kept r = P r.1

  counted-Kept :
      (l : Listed) (size : ℕ) (modified : Time) (s : Scan)
      → cache_name l.name ≡ true
      → (s.count == entry_cap) ≡ false
      → (s.count == s.capacity) ≡ false
      → P s
      → Kept (counted l size modified s)
  counted-Kept l size modified s c n m h =
      let s' : Scan = record s {
        entries = s.entries ++ entry_of l size modified ∷ [];
        count = s.count + 1;
        bytes = s.bytes + size;
      } in
      if_case Kept (ltb (size_max - s.bytes) size) (true, record s { ok = false }) (false, s')
        (λ _. keep.fails s h) (λ b. keep.adds s l size modified c n m b h)

  add_entry-Kept :
      (l : Listed) (size : ℕ) (modified : Time) (s : Scan)
      → cache_name l.name ≡ true
      → (s.count == entry_cap) ≡ false
      → P s
      → Kept (add_entry l size modified s)
  add_entry-Kept l size modified s c n h =
      let wide : Scan = record s { capacity = grown s.capacity } in
      let more = counted l size modified wide in
      let full : Bool × Scan = (true, record s { ok = false }) in
      if_case Kept (s.count == s.capacity) (if l.allocated then more else full)
        (counted l size modified s)
        (λ m.
          if_both Kept l.allocated more full
            (counted-Kept l size modified wide c n (grown_ne s.count s.capacity m)
              (keep.grows s n m h))
            (keep.fails s h))
        (λ m. counted-Kept l size modified s c n m h)

  add_temporary-Kept : (size : ℕ) (s : Scan) → P s → Kept (add_temporary size s)
  add_temporary-Kept size s h =
      if_case Kept (ltb (size_max - s.bytes) size) (true, record s { ok = false })
        (false, record s { bytes = s.bytes + size }) (λ _. keep.fails s h)
        (λ b. keep.measures s size b h)

  take_file-Kept :
      (startup : Bool) (l : Listed) (size : ℕ) (modified : Time) (s : Scan)
      → cache_name l.name ≡ true
      → P s
      → Kept (take_file startup l size modified s)
  take_file-Kept startup l size modified s c h =
      let went : Bool × Scan = (false, record s { removed = s.removed ++ l.name ∷ [] }) in
      let failing_scan : Scan = record s { ok = false } in
      let stayed = add_temporary size failing_scan in
      let refused : Bool × Scan = (false, failing_scan) in
      let gone = keep.removes s l.name c h in
      if_both Kept (length l.name == temporary_length)
        (if startup then (if l.unlinked then went else stayed) else add_temporary size s)
        (if s.count == entry_cap
          then (if l.unlinked then went else refused)
          else add_entry l size modified s)
        (if_both Kept startup (if l.unlinked then went else stayed) (add_temporary size s)
          (if_both Kept l.unlinked went stayed gone
            (add_temporary-Kept size failing_scan (keep.fails s h)))
          (add_temporary-Kept size s h))
        (if_case Kept (s.count == entry_cap) (if l.unlinked then went else refused)
          (add_entry l size modified s)
          (λ _. if_both Kept l.unlinked went refused gone (keep.fails s h))
          (λ n. add_entry-Kept l size modified s c n h))

  sized-Kept :
      (startup : Bool) (l : Listed) (size : Option ℕ) (modified : Time) (s : Scan)
      → cache_name l.name ≡ true
      → P s
      → Kept (sized startup l size modified s)
  sized-Kept startup l none modified s c h = h
  sized-Kept startup l (some size) modified s c h = take_file-Kept startup l size modified s c h

  looked_at-Kept :
      (startup : Bool) (l : Listed) (looked : Looked) (s : Scan)
      → cache_name l.name ≡ true
      → P s
      → Kept (looked_at startup l looked s)
  looked_at-Kept startup l (failing e) s c h =
      if_both Kept (e == no_entry) (false, s) (false, record s { ok = false }) h (keep.fails s h)
  looked_at-Kept startup l (seen st) s c h =
      if_both Kept (not st.is_regular || not st.is_own) (false, s)
        (sized startup l st.size st.modified s) h (sized-Kept startup l st.size st.modified s c h)

  scan_round-Kept : (startup : Bool) (l : Listed) (s : Scan) → P s → Kept (scan_round startup l s)
  unfolding scan_round
  scan_round-Kept startup l s h = elim (Bool-cases (cache_name l.name)) [
    | inl c ↦ rw c (looked_at-Kept startup l l.looked s c h)
    | inr c ↦ rw c h
  ]

  then-Kept :
      (r : Bool × Scan) (next : Scan → Scan)
      → ((s : Scan) → P s → P (next s))
      → Kept r
      → P (unless_broken r next)
  then-Kept (true, s) next keeps h = h
  then-Kept (false, s) next keeps h = keeps s h

  -- an invariant of each round is one of the loop
  pub scan_loop-Kept :
      (startup : Bool) (ls : List Listed) (read_fails : Bool) (s : Scan)
      → P s
      → P (scan_loop startup ls read_fails s)
  unfolding scan_loop
  scan_loop-Kept startup [] read_fails s h =
      if_both P read_fails (record s { ok = false }) s (keep.fails s h) h
  scan_loop-Kept startup (l ∷ ls) read_fails s h =
      then-Kept (scan_round startup l s) (scan_loop startup ls read_fails)
        (scan_loop-Kept startup ls read_fails) (scan_round-Kept startup l s h)

abbrev HasFailed : Scan → Type 0
HasFailed s = s.ok ≡ false

HasFailed-Preserved : Preserved HasFailed
HasFailed-Preserved = record {
  fails = λ s h. refl;
  removes = λ s name c h. h;
  measures = λ s size b h. h;
  grows = λ s n m h. h;
  adds = λ s l size modified c n m b h. h;
}

-- an error that was met is not forgotten
pub scan_loop-failed :
    (startup : Bool) (ls : List Listed) (read_fails : Bool) (s : Scan)
    → s.ok ≡ false
    → (scan_loop startup ls read_fails s).ok ≡ false
scan_loop-failed = scan_loop-Kept HasFailed HasFailed-Preserved
