-- ===== src/Drop/Tests.antt =====
-- src/client/drop.c at concrete drops.
use zimbr.Prelude.{
  ◌≤◌, ◌≡◌, refl, ◌||◌, false, none, some, List, [], ◌∷◌, ltb, if◌then◌else◌, length, All, arith,
}
use zimbr.Drop.{
  Bytes, drop_files, drop_bytes, has_nul, split_line, parse, DropState, initial, take_pending,
  take_error, offer,
}
use zimbr.Drop.Lines.{lines, uris, parse_all, parse-eq-parse_all}
use zimbr.Drop.Bounds.{IsSafePath, parse-IsSafePath}
use zimbr.Drop.RoundTrip.{render, IsPath, parse-render}
use zimbr.Drop.Delivery.{
  offered, named, taken, IsBatch, after_calls, after_calls-IsBatch, nonempty, is_none,
  take_pending-offer,
}

-- "file:///a%20b", a comment, and "file://localhost/c"
abbrev two_files : Bytes
two_files =
    b'f' ∷ b'i' ∷ b'l' ∷ b'e' ∷ b':' ∷ b'/' ∷ b'/' ∷ b'/' ∷ b'a' ∷ b'%' ∷ b'2' ∷ b'0' ∷ b'b' ∷ b'\r'
    ∷ b'\n' ∷ b'#' ∷ b'x' ∷ b'\n' ∷ b'f' ∷ b'i' ∷ b'l' ∷ b'e' ∷ b':' ∷ b'/' ∷ b'/' ∷ b'l' ∷ b'o'
    ∷ b'c' ∷ b'a' ∷ b'l' ∷ b'h' ∷ b'o' ∷ b's' ∷ b't' ∷ b'/' ∷ b'c' ∷ []

abbrev two_paths : List Bytes
two_paths = (b'/' ∷ b'a' ∷ b' ' ∷ b'b' ∷ []) ∷ (b'/' ∷ b'c' ∷ []) ∷ []

-- "file:/a?b"
abbrev query : Bytes
query = b'f' ∷ b'i' ∷ b'l' ∷ b'e' ∷ b':' ∷ b'/' ∷ b'a' ∷ b'?' ∷ b'b' ∷ []

two_files-parse : parse two_files ≡ some two_paths
unfolding parse has_nul split_line zimbr.Drop.skip_breaks zimbr.Drop.is_break zimbr.Drop.parse_uri
    zimbr.Drop.decode
two_files-parse = refl

query_fails : parse query ≡ none
unfolding parse has_nul split_line zimbr.Drop.skip_breaks zimbr.Drop.is_break zimbr.Drop.parse_uri
    zimbr.Drop.decode
query_fails = refl

parse-eq-parse_all_example : parse two_files ≡ (
    if ltb drop_bytes (length two_files) || has_nul two_files
    then none
    else if ltb drop_files (length (uris (lines two_files)))
    then none
    else parse_all (uris (lines two_files)))
parse-eq-parse_all_example = parse-eq-parse_all two_files

parse-IsSafePath_example : (length two_paths ≤ drop_files) × All IsSafePath two_paths
parse-IsSafePath_example = parse-IsSafePath two_files two_paths two_files-parse

parse-render_example : parse (render two_paths) ≡ some two_paths
parse-render_example = parse-render two_paths (omega arith) two_paths-IsPath
  where
    two_paths-IsPath : All IsPath two_paths
    two_paths-IsPath = omega arith

after_calls-IsBatch_example :
    IsBatch (after_calls initial (offered two_files ∷ taken ∷ named (none ∷ []) ∷ [])).pending
after_calls-IsBatch_example =
    after_calls-IsBatch (offered two_files ∷ taken ∷ named (none ∷ []) ∷ [])

take_pending-offer_example :
    ((take_pending (offer two_files initial)).0 ≡ nonempty (parse two_files))
    × ((take_pending (take_pending (offer two_files initial)).1).0 ≡ none)
    × ((take_error (offer two_files initial)).0 ≡ (is_none (parse two_files) || false))
take_pending-offer_example = take_pending-offer two_files initial
