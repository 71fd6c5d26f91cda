-- ===== src/Cache/Prune/Bounds.antt =====
-- zc_cache_prune of src/client/media.c: what holds of every run, failures included.
use zimbr.Prelude.{
  ℕ, ◌+◌, ◌-◌, ◌≤◌, ◌≡◌, refl, Bool, true, false, not, ◌||◌, Option, none, some, List, [], ◌∷◌,
  ◌++◌, ◌==◌, ltb, if◌then◌else◌, length, length-append, All, All-append, if_both, arith,
}
use zimbr.Files.Kernel.{Bytes}
use zimbr.Cache.{cache_name}
use zimbr.Cache.Prune.{
  Entry, Listed, Scene, Scan, insert, oldest, qsort, scan_loop, is_over, next_removal,
  later_removals, Left, evict_loop, start_scan, after_scan, verdict, Usage, grown, cache_prune,
  size_max, entry_cap,
}
use zimbr.Cache.Prune.Invariant.{Preserved, entry_of, scan_loop-Kept}
use zimbr.Prelude.Int.{pos, ltb_ℤ}

abbrev pub IsCacheName : Bytes → Type 0
IsCacheName name = cache_name name ≡ true

-- the names of the entries, and of the files that were unlinked
pub record IsNamed (s : Scan) : Type 0 where
  pub entries : All (λ e. IsCacheName e.name) s.entries
  pub removed : All IsCacheName s.removed

IsNamed-Preserved : Preserved IsNamed
IsNamed-Preserved = record {
  fails = λ s h. record { entries = h.entries; removed = h.removed };
  removes = λ s name c h. record {
    entries = h.entries;
    removed = All-append IsCacheName s.removed (name ∷ []) h.removed (c, tt);
  };
  measures = λ s size b h. record { entries = h.entries; removed = h.removed };
  grows = λ s n m h. record { entries = h.entries; removed = h.removed };
  adds = λ s l size modified c n m b h. record {
    entries =
        All-append (λ e. IsCacheName e.name) s.entries
          (record { name = l.name; bytes = size; used = modified } ∷ []) h.entries (c, tt);
    removed = h.removed;
  };
}

insert-All :
    (P : Entry → Type 0) (e : Entry) (es : List Entry) → P e → All P es → All P (insert e es)
unfolding insert
insert-All P e [] h k = (h, tt)
insert-All P e (f ∷ fs) h k =
    if_both (All P) (ltb_ℤ (oldest f e) (pos 0)) (f ∷ insert e fs) (e ∷ f ∷ fs)
      (k.0, insert-All P e fs h k.1) (h, k)

qsort-All : (P : Entry → Type 0) (es : List Entry) → All P es → All P (qsort es)
unfolding qsort
qsort-All P [] h = tt
qsort-All P (e ∷ es) h = insert-All P e (qsort es) h.0 (qsort-All P es h.1)

evict_loop-removed :
    (budget max_entries : ℕ) (es : List Entry) (removals : List Bool) (s : Left)
    → All (λ e. IsCacheName e.name) es
    → All IsCacheName s.removed
    → All IsCacheName (evict_loop budget max_entries es removals s).removed
unfolding evict_loop
evict_loop-removed budget max_entries [] removals s h k = k
evict_loop-removed budget max_entries (e ∷ es) removals s h k =
    let gone : Left = record s {
      bytes = s.bytes - e.bytes;
      remaining = s.remaining - 1;
      removed = s.removed ++ e.name ∷ [];
    } in
    let kept : Left = record s { ok = false } in
    let s' : Left = if next_removal removals then gone else kept in
    let named : All IsCacheName s'.removed =
      if_both (λ (r : Left). All IsCacheName r.removed) (next_removal removals) gone kept
        (All-append IsCacheName s.removed (e.name ∷ []) k (h.0, tt)) k in
    if_both (λ (r : Left). All IsCacheName r.removed)
      (is_over budget max_entries s.bytes s.remaining)
      (evict_loop budget max_entries es (later_removals removals) s') s
      (evict_loop-removed budget max_entries es (later_removals removals) s' h.1 named) k

verdict-removed :
    (budget max_entries : ℕ) (r : Left)
    → All IsCacheName r.removed
    → All IsCacheName (verdict budget max_entries r).1
verdict-removed budget max_entries r h =
    if_both (λ (r' : Option Usage × List Bytes). All IsCacheName r'.1)
      (not r.ok || is_over budget max_entries r.bytes r.remaining) (none, r.removed)
      (some (record { bytes = r.bytes; entries = r.remaining }), r.removed) h h

-- Whatever the kernel answers and whether or not it reports a usage, a prune unlinks only names of
-- the cache: 64 lowercase hexadecimal digits, or `tmp-` and 32 of them.
pub cache_prune-IsCacheName :
    (budget max_entries : ℕ) (startup : Bool) (scene : Scene)
    → All IsCacheName (cache_prune budget max_entries startup scene).1
unfolding cache_prune
cache_prune-IsCacheName budget max_entries startup scene =
    let s = scan_loop startup scene.listing scene.read_fails start_scan in
    let named : IsNamed s =
      scan_loop-Kept IsNamed IsNamed-Preserved startup scene.listing scene.read_fails start_scan
        (record { entries = tt; removed = tt }) in
    let r =
      evict_loop budget max_entries (qsort s.entries) scene.removals (after_scan scene.closes s) in
    if_both (λ (r' : Option Usage × List Bytes). All IsCacheName r'.1)
      (not scene.opens || not scene.streams) (none, []) (verdict budget max_entries r) tt
      (verdict-removed budget max_entries r (
        evict_loop-removed budget max_entries (qsort s.entries) scene.removals
          (after_scan scene.closes s) (qsort-All (λ e. IsCacheName e.name) s.entries named.entries)
          named.removed))

-- the lengths of the array: 64 doubled, up to the entry cap
unfoldable pub is_capacity : ℕ → Bool
is_capacity n =
    (n == 0)
    || (n == 64)
    || (n == 128)
    || (n == 256)
    || (n == 512)
    || (n == 1024)
    || (n == 2048)
    || (n == 4096)
    || (n == 8192)

pub record IsBounded (s : Scan) : Type 0 where
  pub counted : s.count ≡ length s.entries
  pub room : s.count ≤ s.capacity
  pub allocated : is_capacity s.capacity ≡ true
  pub bytes : s.bytes ≤ size_max

-- a larger capacity, where the array is full and not at the cap
grown-is_capacity :
    (count capacity : ℕ)
    → (count == entry_cap) ≡ false
    → (count == capacity) ≡ true
    → is_capacity capacity ≡ true
    → is_capacity (grown capacity) ≡ true
unfolding is_capacity
grown-is_capacity count capacity n m h = ground arith

grown_room : (count capacity : ℕ) → (count == capacity) ≡ true → count ≤ grown capacity
grown_room count capacity h = ground arith

within :
    (bytes size : ℕ)
    → ltb (size_max - bytes) size ≡ false
    → bytes ≤ size_max
    → bytes + size ≤ size_max
within bytes size h k = ground arith

one_more_room :
    (count capacity : ℕ) → (count == capacity) ≡ false → count ≤ capacity → count + 1 ≤ capacity
one_more_room count capacity h k = ground arith

IsBounded-Preserved : Preserved IsBounded
IsBounded-Preserved = record {
  fails = λ s h. record {
    counted = h.counted;
    room = h.room;
    allocated = h.allocated;
    bytes = h.bytes;
  };
  removes = λ s name c h. record {
    counted = h.counted;
    room = h.room;
    allocated = h.allocated;
    bytes = h.bytes;
  };
  measures = λ s size b h. record {
    counted = h.counted;
    room = h.room;
    allocated = h.allocated;
    bytes = within s.bytes size b h.bytes;
  };
  grows = λ s n m h. record {
    counted = h.counted;
    room = grown_room s.count s.capacity m;
    allocated = grown-is_capacity s.count s.capacity n m h.allocated;
    bytes = h.bytes;
  };
  adds = λ s l size modified c n m b h. record {
    counted = omega (arith, h.counted, length-append s.entries (entry_of l size modified ∷ []));
    room = one_more_room s.count s.capacity m h.room;
    allocated = h.allocated;
    bytes = within s.bytes size b h.bytes;
  };
}

capacity-le-cap : (n : ℕ) → is_capacity n ≡ true → n ≤ entry_cap
unfolding is_capacity
capacity-le-cap n h = ground arith

start_scan-IsBounded : IsBounded start_scan
unfolding is_capacity
start_scan-IsBounded = record {
  counted = refl;
  room = omega arith;
  allocated = refl;
  bytes = omega arith;
}

-- Whatever the directory lists and the kernel answers, at the end of the scan
--the count is the number of entries, the array has room for them, its
-- length is 0 or 64 doubled up to the cap of 8192, and the sum of the sizes has not wrapped.
pub scan_loop-IsBounded :
    (startup : Bool) (ls : List Listed) (read_fails : Bool)
    → IsBounded (scan_loop startup ls read_fails start_scan)
      × (length (scan_loop startup ls read_fails start_scan).entries ≤ entry_cap)
scan_loop-IsBounded startup ls read_fails =
    let s = scan_loop startup ls read_fails start_scan in
    let h : IsBounded s =
      scan_loop-Kept IsBounded IsBounded-Preserved startup ls read_fails start_scan
        start_scan-IsBounded in
    (h, omega (arith, h.counted, h.room, capacity-le-cap s.capacity h.allocated))
