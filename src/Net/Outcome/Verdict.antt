-- ===== src/Net/Outcome/Verdict.antt =====
-- Which finished transfers count as successes.
use zimbr.Prelude.{
  ℕ, ◌≡◌, refl, Bool, true, false, ◌&&◌, ◌||◌, not, Option, ◌==◌, ltb, leb, if◌then◌else◌,
  Bool-cases, inl, inr, arith,
}
use zimbr.Net.Slot.{Slot, Kind, no_error, network, http}
use zimbr.Net.Receive.{is_stream, is_media}
use zimbr.Net.Outcome.{
  Code, ok, peer_failed_verification, ssl_issuer_error, ssl_certproblem, ssl_cacert_badfile,
  ssl_connect_error, another_failure, is_rejection, by_alert, failure_kind, is_image, success_kind,
  finish,
}

abbrev pub is_none : Kind → Bool
is_none k = elim k [ no_error ↦ true | _ ↦ false ]

abbrev pub is_ok : Code → Bool
is_ok code = elim code [ ok ↦ true | _ ↦ false ]

-- A transfer that is no failure: not the event stream, a status below 300, and for an image that
-- arrived, the length and the type that were promised.
abbrev pub is_accepted : Code → ℕ → Option ℕ → Slot → Bool
is_accepted code status content_length s =
    is_ok code
    && not (is_stream s)
    && ltb status 300
    && (not (is_media s && (status == 200)) || is_image content_length s)

by_alert_some : (connect : Bool) (alert : ℕ) → is_none (by_alert connect alert) ≡ false
by_alert_some connect alert = elim (Bool-cases (is_rejection alert)) [
  | inl e ↦ rw e refl
  | inr e ↦ elim (Bool-cases (connect || not (alert == 0))) [
    | inl f ↦ rw (e, f) refl
    | inr f ↦ rw (e, f) refl
  ]
]

failure_some :
    (code : Code) (s : Slot)
    → s.kind ≡ no_error
    → is_ok code ≡ false
    → is_none (failure_kind code s) ≡ false
unfolding failure_kind
failure_some ok s e h = cc
failure_some peer_failed_verification s e h = rw e refl
failure_some ssl_issuer_error s e h = rw e refl
failure_some ssl_certproblem s e h = rw e refl
failure_some ssl_cacert_badfile s e h = rw e refl
failure_some ssl_connect_error s e h = rw e (by_alert_some true s.alert)
failure_some another_failure s e h = rw e (by_alert_some false s.alert)

-- the tests of a success: an image that arrived, its checks, the stream, status 200, status 300 up
verdict :
    (image good stream two_hundred high : Bool)
    → is_none (
        if image && not good
        then http
        else if stream && two_hundred
        then network
        else if high || (stream && not two_hundred)
        then http
        else no_error)
      ≡ (not stream && not high && (not image || good))
verdict image good stream two_hundred high = ground arith

high_low : (status : ℕ) → ltb status 300 ≡ not (leb 300 status)
high_low status = ground arith

success_accepted :
    (status : ℕ) (content_length : Option ℕ) (s : Slot)
    → s.kind ≡ no_error
    → is_none (success_kind status content_length s) ≡ is_accepted ok status content_length s
unfolding is_image
success_accepted status content_length s e =
    rw (e, high_low status)
      (verdict (is_media s && (status == 200)) (is_image content_length s) (is_stream s)
        (status == 200) (leb 300 status))

-- A transfer that had no error before libcurl finished it has none after, whatever the code, the
-- status, the promised length and the TLS alert are, exactly when it is accepted: libcurl's code is
-- CURLE_OK, it is not the event stream, the status is below 300, and an image that arrived with
-- status 200 has the promised length, the expected length where there is one, and type PNG or JPEG.
pub finish-accepted :
    (code : Code) (status : ℕ) (content_length : Option ℕ) (s : Slot)
    → s.kind ≡ no_error
    → is_none (finish code status content_length s).kind ≡ is_accepted code status content_length s
unfolding finish
finish-accepted ok status content_length s e = success_accepted status content_length s e
finish-accepted peer_failed_verification status content_length s e =
    failure_some peer_failed_verification s e refl
finish-accepted ssl_issuer_error status content_length s e = failure_some ssl_issuer_error s e refl
finish-accepted ssl_certproblem status content_length s e = failure_some ssl_certproblem s e refl
finish-accepted ssl_cacert_badfile status content_length s e =
    failure_some ssl_cacert_badfile s e refl
finish-accepted ssl_connect_error status content_length s e =
    failure_some ssl_connect_error s e refl
finish-accepted another_failure status content_length s e = failure_some another_failure s e refl
