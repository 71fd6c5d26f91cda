-- ===== src/Net/Receive.antt =====
-- src/client/bridge.c, receive and progress: the bytes that arrive, and the watchdogs.
pub mod Caps
use zimbr.Prelude.{
  ℕ, ◌+◌, ◌*◌, ◌-◌, Bool, true, false, ◌&&◌, ◌||◌, not, Option, none, some, List, [], ◌∷◌, ◌++◌,
  ◌==◌, ltb, if◌then◌else◌, length, take, drop,
}
use zimbr.Net.Slot.{Bytes, Slot, sub64}

-- the lanes of the array: the event stream, two media downloads, and the upload
abbrev pub is_stream : Slot → Bool
is_stream s = s.index == 1

abbrev pub is_media : Slot → Bool
is_media s = (s.index == 2) || (s.index == 3)

abbrev pub media_limit : ℕ
media_limit = 8 * 1024 * 1024

abbrev pub media_error_limit : ℕ
media_error_limit = 8192

-- Upload metadata gets 512 KiB, other JSON 64 MiB.
unfoldable pub body_limit : Slot → ℕ
body_limit s = if s.index == 4 then 512 * 1024 else 64 * 1024 * 1024

-- an answer of write(2): how many bytes, at most, it takes; or an error
pub data Answer : Type 0 where
  takes : ℕ → Answer
  interrupted : Answer
  failed : Answer

-- the loop over the bytes that are left, with what the file has; a kernel with no answer left has
-- failed
unfoldable pub write_all : List Answer → Bytes → Bytes → Bool × Bytes
write_all answers [] file = (true, file)
write_all [] (c ∷ cs) file = (false, file)
write_all (takes k ∷ answers) (c ∷ cs) file =
    let rest = write_all answers (drop k (c ∷ cs)) (file ++ take k (c ∷ cs)) in
    if k == 0 then (false, file) else rest
write_all (interrupted ∷ answers) (c ∷ cs) file = write_all answers (c ∷ cs) file
write_all (failed ∷ answers) (c ∷ cs) file = (false, file)

-- whether all of it was taken: the result is n, or 0
abbrev pub written : ℕ → Bool × Bytes → Slot → Bool × Slot
written n (true, file) s = (true, record s { file = file; len = s.len + n })
written n (false, file) s = (false, record s { file = file })

-- a body that a growing buffer holds; `allocated` is whether realloc succeeds
abbrev pub append : ℕ → Bytes → Bool → Slot → Bool × Slot
append limit chunk allocated s =
    if ltb (sub64 limit s.len) (length chunk) || not allocated
    then (false, s)
    else (true, record s { body = s.body ++ chunk; len = s.len + length chunk })

-- The result is whether `receive` returns n and not 0. `status` is the response code that libcurl
-- has, `now` the clock, `taken` whether the stream's reader takes the bytes.
unfoldable pub receive : Bytes → ℕ → ℕ → List Answer → Bool → Bool → Slot → Bool × Slot
unfolding write_all body_limit sub64
receive chunk status now answers taken allocated s₀ =
    let s = record s₀ { last_rx = now } in
    if is_media s && (status == 200)
    then (if ltb (sub64 media_limit s.len) (length chunk)
        then (false, s)
        else written (length chunk) (write_all answers chunk s.file) s)
    else if is_media s && ltb (sub64 media_error_limit s.len) (length chunk)
    then (false, s)
    else if is_stream s
    then (if status == 200 then (taken, s) else (true, s))
    else append (body_limit s) chunk allocated s

-- what is still allowed to come, by the kind of transfer
unfoldable pub cap : ℕ → Slot → ℕ
unfolding body_limit
cap status s =
    if is_media s then (if status == 200 then media_limit else media_error_limit) else body_limit s

pub record Call : Type 0 where
  pub chunk : Bytes
  pub now : ℕ
  pub answers : List Answer
  pub taken : Bool
  pub allocated : Bool

-- the calls of one transfer, which libcurl ends at the first that is refused
unfoldable pub receive_all : ℕ → List Call → Slot → Bool × Slot
unfolding receive
receive_all status [] s = (true, s)
receive_all status (c ∷ calls) s =
    let (ok, t) = receive c.chunk status c.now c.answers c.taken c.allocated s in
    let rest = receive_all status calls t in if ok then rest else (false, t)

-- progress: a nonzero result ends the transfer. `uploaded` is `none` where libcurl's count is below
-- 0.
unfoldable pub progress : Option ℕ → ℕ → Slot → Bool × Slot
progress none now s =
    if s.is_upload
    then (ltb 30000 (now - s.last_rx), s)
    else (is_stream s && ltb 45000 (now - s.last_rx), s)
progress (some n) now s =
    if s.is_upload
    then (let t = if n == s.sent then s else record s { sent = n; last_rx = now } in
        (ltb 30000 (now - t.last_rx), t))
    else (is_stream s && ltb 45000 (now - s.last_rx), s)
