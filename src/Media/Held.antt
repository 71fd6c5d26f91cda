-- ===== src/Media/Held.antt =====
-- The files of src/relay/media.c: the descriptors after each operation.
use zimbr.Files.Kernel.{Kernel}
