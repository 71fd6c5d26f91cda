-- ===== src/Files/Tests.antt =====
-- An install that succeeds, a write in pieces, and a scan that skips an entry.
use zimbr.Prelude.{◌≡◌, refl, true, false, some, List, [], ◌∷◌, leb}
use zimbr.Files.Kernel.{
  Bytes, Stat, Answer, Call, Kernel, found, first_answer, success, status, entry, failure, finished,
  sync, status_of, status_at, rename, read_entry,
}
use zimbr.Files.Uploads.{
  component, upload_cap, is_own_file, upload_directory, upload_temporary, upload_install,
  upload_open, upload_remove,
}
use zimbr.Files.Descriptors.{IsKept, IsSame}
use zimbr.Files.Uploads.Descriptors.{uploads-IsKept}
use zimbr.Files.Uploads.Install.{upload_install-true}
use zimbr.Files.Write.{upload_write, outgoing_write, IsWritten, writes-IsWritten}
use zimbr.Files.Outgoing.{valid_id, named, outgoing_next}
use zimbr.Net.Receive as Receive

abbrev file_status : Stat
file_status = record {
  is_regular = true;
  is_directory = false;
  uid = 501;
  mode = 384;
  links = 1;
  size = some 3;
}

abbrev kernel : List Answer → Kernel
kernel answers = record { user = 501; answers = answers; fds = 4 ∷ []; calls = [] }

-- "part" and "file"
abbrev part : Bytes
part = b'p' ∷ b'a' ∷ b'r' ∷ b't' ∷ []

abbrev file : Bytes
file = b'f' ∷ b'i' ∷ b'l' ∷ b'e' ∷ []

abbrev good_answers : List Answer
good_answers = status file_status ∷ success ∷ failure 2 ∷ success ∷ success ∷ []

uploads-IsKept_example :
    IsKept (4 ∷ []) (upload_directory 4 part (kernel good_answers))
    × IsKept (4 ∷ []) (upload_temporary 4 part (kernel good_answers))
    × IsSame (4 ∷ []) (upload_install 4 4 part file 3 (kernel good_answers))
    × IsKept (4 ∷ []) (upload_open 4 part file 3 (kernel good_answers))
    × IsSame (4 ∷ []) (upload_remove 4 part (kernel good_answers))
uploads-IsKept_example = uploads-IsKept 4 4 4 part part file 3 (kernel good_answers)

abbrev installed : Kernel
installed = record {
  user = 501;
  answers = [];
  fds = 4 ∷ [];
  calls = sync 4 ∷ rename 4 part file ∷ status_at 4 file ∷ sync 4 ∷ status_of 4 ∷ [];
}

installs : upload_install 4 4 part file 3 (kernel good_answers) ≡ (true, installed)
unfolding upload_install component zimbr.Files.Uploads.has_slash zimbr.Files.Uploads.regular_file
    zimbr.Files.Kernel.stat_call zimbr.Files.Kernel.perform zimbr.Files.Kernel.made
installs = refl

upload_install-true_example :
    (component part ≡ true)
    × (component file ≡ true)
    × (leb 3 upload_cap ≡ true)
    × ((st : Stat) × (good_answers
          ≡ status st ∷ success ∷ failure 2 ∷ success ∷ success ∷ installed.answers)
        × (is_own_file 501 3 (found st) ≡ true))
    × (installed.calls ≡ sync 4 ∷ rename 4 part file ∷ status_at 4 file ∷ sync 4 ∷ status_of 4 ∷ [])
upload_install-true_example =
    upload_install-true 4 4 part file 3 (kernel good_answers) installed installs

abbrev pieces : List Receive.Answer
pieces = Receive.Answer.takes 1 ∷ Receive.Answer.interrupted ∷ Receive.Answer.takes 2 ∷ []

writes-IsWritten_example :
    IsWritten part [] (upload_write pieces part [])
    × IsWritten part [] (outgoing_write pieces part [])
writes-IsWritten_example = writes-IsWritten pieces part []

-- "abcdefghijklmnopqrstu-"
abbrev id : Bytes
id =
    b'a' ∷ b'b' ∷ b'c' ∷ b'd' ∷ b'e' ∷ b'f' ∷ b'g' ∷ b'h' ∷ b'i' ∷ b'j' ∷ b'k' ∷ b'l' ∷ b'm' ∷ b'n'
    ∷ b'o' ∷ b'p' ∷ b'q' ∷ b'r' ∷ b's' ∷ b't' ∷ b'u' ∷ b'-' ∷ []

abbrev entries : List Answer
entries = entry part ∷ entry id ∷ finished ∷ []

abbrev scanned : Kernel
scanned = record (kernel (finished ∷ [])) { calls = read_entry 4 ∷ read_entry 4 ∷ [] }

scans : outgoing_next entries 4 64 (kernel entries) ≡ (named id, scanned)
unfolding outgoing_next valid_id zimbr.Files.Outgoing.all_id_bytes zimbr.Files.Kernel.made
scans = refl
