-- ===== src/Net/Upload.antt =====
-- src/client/bridge.c, upload_read: the bytes of an upload, as libcurl asks for them.
pub mod Prefix
use zimbr.Prelude.{
  ℕ, ◌+◌, ◌*◌, ◌-◌, ◌%◌, ◌^◌, Bool, Option, none, some, List, [], ◌∷◌, ◌++◌, ◌==◌, ltb,
  if◌then◌else◌, length, take, drop,
}
use zimbr.Net.Slot.{Bytes, Slot, sub64}

-- an answer of pread(2): how many bytes, at most, the file gives; or an error, EINTR among them
pub data Answer : Type 0 where
  gives : ℕ → Answer
  interrupted : Answer
  failed : Answer

-- what the callback returns: the bytes that it stored, or CURL_READFUNC_ABORT
pub data Given : Type 0 where
  stored : Bytes → Given
  aborted : Given

-- the count that one call asks for
unfoldable pub wanted : ℕ → Slot → ℕ
unfolding sub64
wanted room s =
    let capped = if ltb 65536 room then 65536 else room in
    let remaining = sub64 s.upload_length s.read_offset in
    if ltb remaining capped then remaining else capped

-- the loop over EINTR; a kernel with no answer left has failed
unfoldable pub pread : List Answer → ℕ → ℕ → Bytes → Option Bytes
pread [] count offset content = none
pread (gives k ∷ answers) count offset content = some (take k (take count (drop offset content)))
pread (interrupted ∷ answers) count offset content = pread answers count offset content
pread (failed ∷ answers) count offset content = none

abbrev pub store : Option Bytes → Slot → Given × Slot
store none s = (aborted, s)
store (some b) s =
    if length b == 0
    then (aborted, s)
    else (stored b, record s { read_offset = (s.read_offset + length b) % 2 ^ 64 })

-- `room` is size * count, `content` what the descriptor's file holds
unfoldable pub upload_read : ℕ → List Answer → Bytes → Slot → Given × Slot
unfolding wanted pread
upload_read room answers content s =
    let count = wanted room s in
    if count == 0 then (stored [], s) else store (pread answers count s.read_offset content) s

abbrev pub given : Given → Bytes
given (stored b) = b
given aborted = []

-- the calls of one upload: the room of each, with the kernel's answers; and all that was stored
unfoldable pub upload : List (ℕ × List Answer) → Bytes → Slot → Bytes × Slot
unfolding upload_read
upload [] content s = ([], s)
upload ((room, answers) ∷ calls) content s =
    let (first, t) = upload_read room answers content s in
    let (rest, last) = upload calls content t in (given first ++ rest, last)
