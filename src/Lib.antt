-- ===== src/Lib.antt =====
-- A model of the C sources of zimbr, a client and a relay for messages, with the theorems that make
-- them correct. The program is in Zig with its platform code in C; what is modelled is C.
--
-- The parts, and the file of each:
-- - Drop (src/client/drop.c): a text/uri-list is parsed to at most 16 absolute paths, which wait
--   for the composer. `parse`, `offer`, `offer_paths`, `take_pending` and `take_error` are
--   zc_drop_parse, zc_drop_offer, zc_drop_paths, zc_drop_take and zc_drop_take_error. A C string is
--   the list of its bytes without the NUL, and the static variables are the record `DropState`.
-- - Notifications (src/client/notifications.c): the object of 64 slots that shows one notification
--   for each conversation. State has the record and the reference count, Callbacks what GIO calls,
--   Requests what the client calls, Image the scaled picture, and Events all of these as events of
--   a run. What GLib computes (the UTF-8 check, the markup escape) is the parameter `Glib`; what is
--   sent to the daemon is a log.
-- - Wayland (src/client/desktop/wayland.c): the data device. State has the offers, the drag, the
--   transfer and a log of the requests; Device its listener and zc_wayland_poll, which hands a text
--   to Drop; Globals the registry, the shutdown and the events of a session. An `Offer *` is the
--   number of its proxy, so that a use after destruction is a request on a proxy that the log has
--   destroyed.
-- - Net (src/client/bridge.c): the callbacks that libcurl makes for a transfer, receive (Receive),
--   receive_header (Header), upload_read (Upload) and progress, and what zc_net_poll makes of a
--   finished one (Outcome); Start has zc_net_start, zc_net_start_file and zc_net_upload over the
--   lanes. What the kernel answers to read, write and pread is a list of answers. Subtraction of
--   size_t is written out modulo 2 ^ 64.
-- - Text (src/client/bridge.c): text_measure_lines (Measure), the binary search of text_hit (Hit),
--   over the lines that Pango shaped, zc_text_boundary (Boundary) and zc_text_word_hit (Word), over
--   the characters' cursor positions.
-- - Cache (src/client/media.c): the cached pictures. Cache has the names and the directory,
--   Cache/Prune the scan and the removal of the oldest files, with the kernel's answers beside each
--   name that is listed, Cache/Image the read of a picture; libpng and libjpeg are parameters.
-- - Platform (src/platform.c, as on Linux): Spawn has zr_spawn over rounds of what read, waitpid
--   and the clock answer, Secrets the private files, the lock and the random bytes.
-- - Private (src/client/bridge.c, src/relay/tls.c): the walks to a private file, Client for
--   zc_private_read and Relay for private_parent and the reads, and Replace for
--   zr_tls_replace_config, in which the configuration may change between the two checks.
-- - Media (src/relay/media.c, as on Linux): the walks to the relay's media, Derivative the derived
--   pictures, Sweep the sweep and the scan of a directory, and Convert zr_media_convert with the
--   helper's report.
-- - Desktop (src/client/desktop.c): the wakes of the window's thread, as steps of the threads in
--   any order.
-- - Files (src/relay/uploads.c, src/client/outgoing.c): the private files of uploads. Kernel has
--   the system calls: each takes the next of a list of answers, and the descriptors and the calls
--   are logged. Uploads and Outgoing have the operations under their C names without the prefixes
--   zr_ and zc_, Write the loop over write(2), Read those over read(2) and pread(2).
-- - Prelude: the tests, lists and integers that the parts share.
--
-- Fuel: `Drop.parse_lines` takes the length of the text, which each round shortens (Drop/Lines
-- proves that it never runs out); `Text.Hit.search` takes the number of lines, which each round
-- shortens, and the loops of Text.Word the number of characters on their side (their theorems show
-- that the run ends where they stop). The read and write loops recur on the answers of the kernel:
-- a read with no answer left waits, a write or pread with none left has failed, and so has a call
-- of Files. The waits for a script and for the helper of the media recur on their rounds, and are
-- still waiting where no round is left; the theorems on them ask for a round in which the clock
-- reaches the deadline, and show the end.
--
-- Not modelled: the Zig sources, the Objective-C and AppleScript of the relay, and the branches for
-- macOS, of which the model would be another program; the certificates and the sessions of
-- src/relay/tls.c, the rasters, the ranges and the caret of a text in src/client/bridge.c, and the
-- rest of src/client/desktop.c, which hand on what OpenSSL, Pango, cairo and SDL compute; the
-- checks of an origin and a URL and the clock in src/client/bridge.c, and the timestamp and the
-- watch of src/platform.c, which no part above uses; and the generated
-- build/sdl/SDL_build_config.h.
pub mod Prelude
pub mod Cache
pub mod Desktop
pub mod Drop
pub mod Files
pub mod Media
pub mod Net
pub mod Notifications
pub mod Platform
pub mod Private
pub mod Text
pub mod Wayland
