-- ===== src/Net/Tests.antt =====
-- An upload of five bytes, an image of four, and the headers of a response.
use zimbr.Prelude.{none, ℕ, ◌≤◌, ◌≡◌, refl, true, some, List, [], ◌∷◌, ◌++◌, take, arith}
use zimbr.Net.Slot.{Bytes, Slot, empty}
use zimbr.Prelude.Int.{pos}
use zimbr.Net.Start.{Net, Curl, start, start_file, start_upload}
use zimbr.Net.Start.Lanes.{IsStarted, starts-IsStarted}
use zimbr.Net.Upload as Upload
use zimbr.Net.Upload.{upload, upload_read}
use zimbr.Net.Upload.Prefix.{upload-IsPrefix, upload_complete}
use zimbr.Net.Receive as Receive
use zimbr.Net.Receive.{Call, receive_all}
use zimbr.Net.Receive.Caps.{IsCounted, IsGrown, whole, receive_all-IsGrown}
use zimbr.Net.Outcome.{Code, finish, image_png}
use zimbr.Net.Outcome.Verdict.{is_none, is_accepted, finish-accepted}
use zimbr.Net.Header.{type_word, receive_header, receive_headers}
use zimbr.Net.Header.Fields.{IsSized, receive_headers-IsSized, receive_header-type}

abbrev content : Bytes
content = b'h' ∷ b'e' ∷ b'l' ∷ b'l' ∷ b'o' ∷ b'!' ∷ []

abbrev sending : Slot
sending = record (empty 4) { is_upload = true; upload_length = 5 }

abbrev reads : List (ℕ × List Upload.Answer)
reads =
    (65536, Upload.Answer.interrupted ∷ Upload.Answer.gives 2 ∷ [])
    ∷ (65536, Upload.Answer.gives 100 ∷ [])
    ∷ []

upload-IsPrefix_example :
    ((upload reads content sending).0 ≡ take (upload reads content sending).1.read_offset content)
    × ((upload reads content sending).1.read_offset ≤ 5)
upload-IsPrefix_example = upload-IsPrefix reads content sending refl (omega arith)

sent_all :
    (upload_read 65536 [] content (upload reads content sending).1).0 ≡ Upload.Given.stored []
unfolding upload upload_read Upload.wanted Upload.pread zimbr.Net.Slot.sub64
sent_all = refl

upload_complete_example : (upload reads content sending).0 ≡ take 5 content
upload_complete_example =
    upload_complete reads content sending 65536 [] refl (omega arith) (omega arith) sent_all

abbrev fetching : Slot
fetching = empty 2

abbrev calls : List Call
calls =
    record {
      chunk = b'i' ∷ b'm' ∷ b'a' ∷ [];
      now = 3;
      answers = Receive.Answer.takes 1 ∷ Receive.Answer.interrupted ∷ Receive.Answer.takes 9 ∷ [];
      taken = true;
      allocated = true;
    }
    ∷ record {
      chunk = b'g' ∷ [];
      now = 4;
      answers = Receive.Answer.takes 1 ∷ [];
      taken = true;
      allocated = true;
    }
    ∷ []

abbrev fetched : Slot
fetched = record fetching { file = b'i' ∷ b'm' ∷ b'a' ∷ b'g' ∷ []; len = 4; last_rx = 4 }

fetching-IsCounted : IsCounted 200 fetching
unfolding Receive.cap
fetching-IsCounted = record { counted = refl; within = omega arith }

fetching_done : receive_all 200 calls fetching ≡ (true, fetched)
unfolding receive_all Receive.receive Receive.write_all zimbr.Net.Slot.sub64
fetching_done = refl

receive_all-IsGrown_example : IsGrown 200 fetching (whole calls) fetched
receive_all-IsGrown_example =
    receive_all-IsGrown 200 calls fetching fetched refl fetching-IsCounted fetching_done

finish-accepted_example :
    is_none (finish Code.ok 200 (some 4) (record fetched { mime = image_png })).kind
    ≡ is_accepted Code.ok 200 (some 4) (record fetched { mime = image_png })
finish-accepted_example =
    finish-accepted Code.ok 200 (some 4) (record fetched { mime = image_png }) refl

receive_headers-IsSized_example :
    IsSized (receive_headers ((type_word ++ image_png) ∷ (b'x' ∷ []) ∷ []) (empty 2)).1
receive_headers-IsSized_example =
    receive_headers-IsSized ((type_word ++ image_png) ∷ (b'x' ∷ []) ∷ []) 2

word_starts : zimbr.Net.Header.starts_word type_word type_word ≡ true
unfolding zimbr.Net.Header.starts_word zimbr.Net.Header.lower
word_starts = refl

receive_header-type_example :
    receive_header (type_word ++ ((b' ' ∷ []) ++ (image_png ++ (b'\r' ∷ b'\n' ∷ [])))) fetching
    ≡ (true, record fetching { mime = image_png })
receive_header-type_example =
    receive_header-type type_word (b' ' ∷ [])
      (b'm' ∷ b'a' ∷ b'g' ∷ b'e' ∷ b'/' ∷ b'p' ∷ b'n' ∷ b'g' ∷ []) (b'\r' ∷ b'\n' ∷ []) b'i'
      fetching word_starts refl (refl, tt)
      (
        (refl, refl),
        (
          (refl, refl),
          (
            (refl, refl),
            (
              (refl, refl),
              ((refl, refl), ((refl, refl), ((refl, refl), ((refl, refl), ((refl, refl), tt))))),
            ),
          ),
        ),
      )
      (refl, (refl, tt)) (omega arith)

abbrev idle : Net
idle = record {
  origin = b'h' ∷ b't' ∷ b't' ∷ b'p' ∷ b's' ∷ b':' ∷ b'/' ∷ b'/' ∷ b'r' ∷ [];
  slots = none ∷ none ∷ none ∷ none ∷ none ∷ [];
}

abbrev curl : Curl
curl = record { has_handle = true; is_configured = true }

abbrev path : Bytes
path = b'/' ∷ b'v' ∷ []

starts-IsStarted_example :
    IsStarted 1 idle (start curl (pos 1) path 100 7 idle)
    × IsStarted 3 idle (start_file curl (pos 1) path true 100 7 idle)
    × IsStarted 4 idle (start_upload curl true path path true 100 7 idle)
starts-IsStarted_example = starts-IsStarted curl true true 1 path path 100 7 idle
