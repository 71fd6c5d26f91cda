-- ===== src/Net/Outcome.antt =====
-- src/client/bridge.c, zc_net_poll: what a transfer that libcurl has finished comes to.
pub mod Verdict
use zimbr.Prelude.{
  ℕ, ◌≡◌, refl, Bool, true, false, ◌&&◌, ◌||◌, not, Option, none, some, List, [], ◌∷◌, ◌==◌, ltb,
  leb, if◌then◌else◌, bytes_eq, Bool-cases, inl, inr, arith,
}
use zimbr.Net.Slot.{
  Bytes, Slot, Kind, no_error, network, config, server_trust, credentials, client_rejected, tls,
  http,
}
use zimbr.Net.Receive.{is_stream, is_media}

-- the results of libcurl that the code tells apart
pub data Code : Type 0 where
  ok : Code
  peer_failed_verification : Code
  ssl_issuer_error : Code
  ssl_certproblem : Code
  ssl_cacert_badfile : Code
  ssl_connect_error : Code
  another_failure : Code

-- 42 to 46, unknown_ca and certificate_required
unfoldable pub is_rejection : ℕ → Bool
is_rejection alert = (leb 42 alert && leb alert 46) || (alert == 48) || (alert == 116)

-- the kinds after those that the code alone decides
abbrev pub by_alert : Bool → ℕ → Kind
by_alert connect alert =
    if is_rejection alert
    then client_rejected
    else if connect || not (alert == 0)
    then tls
    else network

abbrev pub by_code : Code → ℕ → Kind
by_code ok alert = no_error
by_code peer_failed_verification alert = server_trust
by_code ssl_issuer_error alert = server_trust
by_code ssl_certproblem alert = credentials
by_code ssl_cacert_badfile alert = credentials
by_code ssl_connect_error alert = by_alert true alert
by_code another_failure alert = by_alert false alert

-- the branch for a code that is not CURLE_OK; require_http2 has set ZC_CONFIG before
unfoldable pub failure_kind : Code → Slot → Kind
failure_kind code s = elim s.kind [ config ↦ config | _ ↦ by_code code s.alert ]

-- a C string, of a buffer that may hold a NUL inside
unfoldable pub c_string : Bytes → Bytes
c_string [] = []
c_string (c ∷ cs) = if c == 0 then [] else c ∷ c_string cs

abbrev pub image_png : Bytes
image_png = b'i' ∷ b'm' ∷ b'a' ∷ b'g' ∷ b'e' ∷ b'/' ∷ b'p' ∷ b'n' ∷ b'g' ∷ []

abbrev pub image_jpeg : Bytes
image_jpeg = b'i' ∷ b'm' ∷ b'a' ∷ b'g' ∷ b'e' ∷ b'/' ∷ b'j' ∷ b'p' ∷ b'e' ∷ b'g' ∷ []

-- the length that the headers promised: -1, which libcurl gives where it is unknown, is `none`
abbrev pub is_length : Option ℕ → ℕ → Bool
is_length none len = false
is_length (some n) len = leb 1 n && (n == len)

unfoldable pub is_image : Option ℕ → Slot → Bool
unfolding c_string
is_image content_length s =
    is_length content_length s.len
    && ((s.expected == 0) || (s.expected == s.len))
    && (bytes_eq (c_string s.mime) image_png || bytes_eq (c_string s.mime) image_jpeg)

-- the kind after a transfer that libcurl calls a success
abbrev pub success_kind : ℕ → Option ℕ → Slot → Kind
success_kind status content_length s =
    if is_media s && (status == 200) && not (is_image content_length s)
    then http
    else if is_stream s && (status == 200)
    then network
    else if leb 300 status || (is_stream s && not (status == 200))
    then http
    else s.kind

unfoldable pub finish : Code → ℕ → Option ℕ → Slot → Slot
unfolding failure_kind is_image
finish ok status content_length s = record s {
  status = status;
  kind = success_kind status content_length s;
  is_done = true;
}
finish peer_failed_verification status content_length s = record s {
  status = status;
  kind = failure_kind peer_failed_verification s;
  is_done = true;
}
finish ssl_issuer_error status content_length s = record s {
  status = status;
  kind = failure_kind ssl_issuer_error s;
  is_done = true;
}
finish ssl_certproblem status content_length s = record s {
  status = status;
  kind = failure_kind ssl_certproblem s;
  is_done = true;
}
finish ssl_cacert_badfile status content_length s = record s {
  status = status;
  kind = failure_kind ssl_cacert_badfile s;
  is_done = true;
}
finish ssl_connect_error status content_length s = record s {
  status = status;
  kind = failure_kind ssl_connect_error s;
  is_done = true;
}
finish another_failure status content_length s = record s {
  status = status;
  kind = failure_kind another_failure s;
  is_done = true;
}
