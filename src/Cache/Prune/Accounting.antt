-- ===== src/Cache/Prune/Accounting.antt =====
-- zc_cache_prune of src/client/media.c: what was removed and what is left, where it reports a
-- usage.
use zimbr.Prelude.{
  ℕ, zero, suc, ◌+◌, ◌-◌, ◌≡◌, refl, sym, ◌∙◌, ap, subst, Bool, true, false, not, ◌||◌, some, List,
  [], ◌∷◌, ◌++◌, map, some_inj, length, take, drop, All, Bool-cases, inl, inr, arith, or_second,
  and_first,
}
use mathlib.Core.List.{append_assoc, append-nil}
use zimbr.Files.Kernel.{Bytes}
use zimbr.Cache.Prune.{
  Entry, Scene, Scan, Usage, qsort, scan_loop, is_over, next_removal, later_removals, Left,
  evict_loop, start_scan, after_scan, verdict, cache_prune,
}
use zimbr.Cache.Prune.Order.{
  IsOlderThan, qsort-IsSorted, first-IsOlderThan, total, total-qsort, length-qsort,
}
use zimbr.Cache.Prune.Tally.{Tally, tally, Holds}
use zimbr.Cache.Prune.Tallied.{scan_loop-Holds}

-- before the nth removal the cache was over a limit; `base` is the bytes of the temporary files
abbrev pub WasOver : (budget max_entries base : ℕ) → List Entry → ℕ → Type 0
WasOver budget max_entries base es zero = Unit
WasOver budget max_entries base es (suc n) =
    is_over budget max_entries (base + total (drop n es)) (length (drop n es)) ≡ true

-- the first n files were removed, one by one, while the cache was over a limit
abbrev pub IsEvicted : (budget max_entries base : ℕ) → List Entry → List Bytes → Left → Type 0
IsEvicted budget max_entries base es removed r =
    (n : ℕ) × (r.bytes ≡ base + total (drop n es))
    × (r.remaining ≡ length (drop n es))
    × (r.removed ≡ removed ++ map (λ e. e.name) (take n es))
    × WasOver budget max_entries base es n

evict_loop-failed :
    (budget max_entries : ℕ) (es : List Entry) (removals : List Bool) (s : Left)
    → s.ok ≡ false
    → (evict_loop budget max_entries es removals s).ok ≡ false
unfolding evict_loop
evict_loop-failed budget max_entries [] removals s h = h
evict_loop-failed budget max_entries (e ∷ es) removals s h =
    elim (Bool-cases (is_over budget max_entries s.bytes s.remaining)) [
      | inl o ↦ elim (Bool-cases (next_removal removals)) [
        | inl b ↦ rw (o, b) (evict_loop-failed budget max_entries es (later_removals removals) _ h)
        | inr b ↦
            rw (o, b) (evict_loop-failed budget max_entries es (later_removals removals) _ refl)
      ]
      | inr o ↦ rw o h
    ]

-- one more file in front
one_more :
    (budget max_entries base : ℕ) (e : Entry) (es : List Entry) (removed : List Bytes) (r : Left)
    → is_over budget max_entries (base + total (e ∷ es)) (length (e ∷ es)) ≡ true
    → IsEvicted budget max_entries base es (removed ++ e.name ∷ []) r
    → IsEvicted budget max_entries base (e ∷ es) removed r
one_more budget max_entries base e es removed r o (zero, b, m, names, w) =
    (1, b, m, names ∙ append_assoc removed (e.name ∷ []) [], o)
one_more budget max_entries base e es removed r o (suc n, b, m, names, w) = (
  suc (suc n),
  b,
  m,
  names ∙ append_assoc removed (e.name ∷ []) (map (λ f. f.name) (take (suc n) es)),
  w,
)

-- the variables after a removal
abbrev removing : Entry → Left → Left
removing e s = record s {
  bytes = s.bytes - e.bytes;
  remaining = s.remaining - 1;
  removed = s.removed ++ e.name ∷ [];
}

evict_loop-IsEvicted :
    (budget max_entries base : ℕ) (es : List Entry) (removals : List Bool) (s : Left)
    → s.bytes ≡ base + total es
    → s.remaining ≡ length es
    → (evict_loop budget max_entries es removals s).ok ≡ true
    → IsEvicted budget max_entries base es s.removed (evict_loop budget max_entries es removals s)
unfolding evict_loop total
evict_loop-IsEvicted budget max_entries base [] removals s b m h =
    (0, b, m, sym (append-nil s.removed), tt)
evict_loop-IsEvicted budget max_entries base (e ∷ es) removals s b m h =
    elim (Bool-cases (is_over budget max_entries s.bytes s.remaining)) [
      | inl o ↦ elim (Bool-cases (next_removal removals)) [
        | inl r ↦
            rw (o, r)
              (one_more budget max_entries base e es s.removed
                (evict_loop budget max_entries es (later_removals removals) (removing e s))
                (subst (λ n. is_over budget max_entries n (length (e ∷ es)) ≡ true) b
                  (subst (λ n. is_over budget max_entries s.bytes n ≡ true) m o))
                (evict_loop-IsEvicted budget max_entries base es (later_removals removals)
                  (removing e s) (omega (arith, b)) (omega (arith, m)) (rw (o, r) at h)))
        | inr r ↦
            let f =
              evict_loop-failed budget max_entries es (later_removals removals)
                (record s { ok = false }) refl in
            let h' = rw (o, r) at h in cc
      ]
      | inr o ↦ rw o (0, b, m, sym (append-nil s.removed), tt)
    ]

-- what is left of the directory after a run that reports a usage, by what the scan tallies
pub record IsPruned (budget max_entries : ℕ) (t : Tally) (u : Usage) (removed : List Bytes)
    : Type 0 where
  pub evicted : ℕ
  pub bytes : u.bytes ≡ t.temporaries + total (drop evicted (qsort t.entries))
  pub entries : u.entries ≡ length (drop evicted (qsort t.entries))
  pub names : removed ≡ t.removed ++ map (λ e. e.name) (take evicted (qsort t.entries))
  pub within : is_over budget max_entries u.bytes u.entries ≡ false
  pub oldest_first :
      All (IsOlderThan (drop evicted (qsort t.entries))) (take evicted (qsort t.entries))
  pub needed : WasOver budget max_entries t.temporaries (qsort t.entries) evicted

abbrev pub no_files : Tally
no_files = record { entries = []; temporaries = 0; removed = [] }

verdict-IsPruned :
    (budget max_entries : ℕ) (t : Tally) (r : Left) (u : Usage)
    → IsEvicted budget max_entries t.temporaries (qsort t.entries) t.removed r
    → (verdict budget max_entries r).0 ≡ some u
    → IsPruned budget max_entries t u (verdict budget max_entries r).1
verdict-IsPruned budget max_entries t r u (n, b, m, names, w) h =
    elim (Bool-cases (not r.ok || is_over budget max_entries r.bytes r.remaining)) [
      | inl o ↦ let h' = rw o at h in cc
      | inr o ↦ rw o (
          subst (λ v. IsPruned budget max_entries t v r.removed) (some_inj (rw o at h))
            (record {
              evicted = n;
              bytes = b;
              entries = m;
              names = names;
              within = or_second (not r.ok) (is_over budget max_entries r.bytes r.remaining) o;
              oldest_first = first-IsOlderThan n (qsort t.entries) (qsort-IsSorted t.entries);
              needed = w;
            }))
    ]

-- the verdict is over a state with no error
verdict-ok :
    (budget max_entries : ℕ) (r : Left) (u : Usage)
    → (verdict budget max_entries r).0 ≡ some u
    → r.ok ≡ true
verdict-ok budget max_entries r u h = elim (Bool-cases r.ok) [
  | inl o ↦ o
  | inr o ↦ let h' = rw o at h in cc
]

evict_loop-ok :
    (budget max_entries : ℕ) (es : List Entry) (removals : List Bool) (s : Left)
    → (evict_loop budget max_entries es removals s).ok ≡ true
    → s.ok ≡ true
evict_loop-ok budget max_entries es removals s h = elim (Bool-cases s.ok) [
  | inl o ↦ o
  | inr o ↦ let f = evict_loop-failed budget max_entries es removals s o in cc
]

-- the second loop and the verdict, after a scan that counted what the tally counts
after_scan-IsPruned :
    (budget max_entries : ℕ) (closes : Bool) (removals : List Bool) (t : Tally) (s : Scan)
    (u : Usage)
    → (s.ok ≡ true → Holds t s)
    → (verdict budget max_entries
        (evict_loop budget max_entries (qsort s.entries) removals (after_scan closes s))).0
      ≡ some u
    → IsPruned budget max_entries t u
        (verdict budget max_entries
          (evict_loop budget max_entries (qsort s.entries) removals (after_scan closes s))).1
after_scan-IsPruned budget max_entries closes removals t s u holds h =
    let es = qsort s.entries in
    let r = evict_loop budget max_entries es removals (after_scan closes s) in
    let fine = verdict-ok budget max_entries r u h in
    let k = holds (
      and_first s.ok closes
        (evict_loop-ok budget max_entries es removals (after_scan closes s) fine)) in
    let evicted : IsEvicted budget max_entries t.temporaries es s.removed r =
      evict_loop-IsEvicted budget max_entries t.temporaries es removals (after_scan closes s)
        (k.bytes
          ∙ ap (λ n. t.temporaries + n) (ap total (sym k.entries) ∙ sym (total-qsort s.entries)))
        (k.count ∙ ap length (sym k.entries) ∙ sym (length-qsort s.entries)) fine in
    verdict-IsPruned budget max_entries t r u
      (subst (λ fs. IsEvicted budget max_entries t.temporaries (qsort fs) t.removed r) k.entries
        (subst (λ names. IsEvicted budget max_entries t.temporaries es names r) k.removed evicted))
      h

no_files-Holds : Holds no_files start_scan
unfolding total
no_files-Holds = record { entries = refl; count = refl; bytes = refl; removed = refl }

-- Where a prune reports a usage, for any answers of the kernel: let the tally be the cache's files
-- in the listing. Then the names it unlinked are those of the tally and those of the first files by
-- age, none of which was used later than a file that is left, the usage is the number of the files
-- left and the bytes of these and of the temporary files, it is within both limits, and before each
-- removal of a file by age the cache was over one of them.
pub cache_prune-IsPruned :
    (budget max_entries : ℕ) (startup : Bool) (scene : Scene) (u : Usage)
    → (cache_prune budget max_entries startup scene).0 ≡ some u
    → IsPruned budget max_entries
        (tally startup scene.listing no_files)
        u
        (cache_prune budget max_entries startup scene).1
unfolding cache_prune
cache_prune-IsPruned budget max_entries startup scene u h =
    elim (Bool-cases (not scene.opens || not scene.streams)) [
      | inl o ↦ let h' = rw o at h in cc
      | inr o ↦ rw o (
          after_scan-IsPruned budget max_entries scene.closes scene.removals
            (tally startup scene.listing no_files)
            (scan_loop startup scene.listing scene.read_fails start_scan) u
            (λ ok.
              scan_loop-Holds startup scene.listing scene.read_fails no_files start_scan ok
                no_files-Holds)
            (rw o at h))
    ]
