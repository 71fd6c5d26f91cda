-- ===== src/Media/Sweep.antt =====
-- src/relay/media.c: the sweep of the temporary files, and the scan of a directory.
use zimbr.Prelude.{
  ℕ, Bool, true, false, not, ◌||◌, Option, none, some, List, [], ◌∷◌, leb, if◌then◌else◌, length,
  starts_with,
}
use zimbr.Files.Kernel.{
  Bytes, Answer, Kernel, made, is_ok, open_call, close, perform, descriptor, success, status, entry,
  finished, failure, open_at, duplicate, unlink, open_stream, read_entry,
}
use zimbr.Media.{component}
use zimbr.Media.Derivative.{temporary_prefix}

-- The loop of the sweep over the answers that are left; an unlink takes the next answer too.
unfoldable pub sweep_scan : List Answer → (directory scan : ℕ) → Kernel → Kernel
unfolding made
sweep_scan [] directory scan k = made (read_entry scan) k
sweep_scan (descriptor fd ∷ as') directory scan k = made (read_entry scan) k
sweep_scan (success ∷ as') directory scan k = made (read_entry scan) k
sweep_scan (status st ∷ as') directory scan k = made (read_entry scan) k
sweep_scan (finished ∷ as') directory scan k = made (read_entry scan) k
sweep_scan (failure e ∷ as') directory scan k = made (read_entry scan) k
sweep_scan (entry name ∷ []) directory scan k =
    let k' = made (read_entry scan) k in
    if starts_with temporary_prefix name
    then made (read_entry scan) (made (unlink directory name) k')
    else made (read_entry scan) k'
sweep_scan (entry name ∷ a ∷ as') directory scan k =
    let k' = made (read_entry scan) k in
    let kept = sweep_scan (a ∷ as') directory scan k' in
    let gone = sweep_scan as' directory scan (made (unlink directory name) k') in
    if starts_with temporary_prefix name then gone else kept

abbrev pub swept : ℕ → Option ℕ × Kernel → Bool × Kernel
swept directory (none, k) = (false, k)
swept directory (some copy, k) =
    let (e, k') = perform (open_stream copy) k in
    if is_ok e
    then (true, close copy (sweep_scan k'.answers directory copy k'))
    else (false, close copy k')

unfoldable pub media_sweep : ℕ → Kernel → Bool × Kernel
unfolding sweep_scan open_call perform
media_sweep directory k = swept directory (open_call (duplicate directory) k)

-- the stream of a scan, and `allocated` whether there is memory for it
abbrev pub scanning : Bool → Option ℕ × Kernel → Option ℕ × Kernel
scanning allocated (none, k) = (none, k)
scanning allocated (some copy, k) =
    let (e, k') = perform (open_stream copy) k in
    if not (is_ok e)
    then (none, close copy k')
    else if allocated
    then (some copy, k')
    else (none, close copy k')

unfoldable pub media_scan : ℕ → Bool → Kernel → Option ℕ × Kernel
unfolding open_call perform
media_scan directory allocated k = scanning allocated (open_call (open_at directory (b'.' ∷ [])) k)

-- the next name, or `none` at the end
unfoldable pub media_scan_next : List Answer → ℕ → ℕ → Kernel → Option Bytes × Kernel
unfolding component made
media_scan_next [] scan capacity k = (none, made (read_entry scan) k)
media_scan_next (descriptor fd ∷ as') scan capacity k = (none, made (read_entry scan) k)
media_scan_next (success ∷ as') scan capacity k = (none, made (read_entry scan) k)
media_scan_next (status st ∷ as') scan capacity k = (none, made (read_entry scan) k)
media_scan_next (finished ∷ as') scan capacity k = (none, made (read_entry scan) k)
media_scan_next (failure e ∷ as') scan capacity k = (none, made (read_entry scan) k)
media_scan_next (entry name ∷ as') scan capacity k =
    let k' = made (read_entry scan) k in
    let next = media_scan_next as' scan capacity k' in
    if leb capacity (length name) || not (component name) then next else (some name, k')

unfoldable pub media_scan_close : ℕ → Kernel → Kernel
media_scan_close scan k = close scan k
