-- ===== src/Config/Saving.antt =====
-- Core/src/config.cpp: a configuration that cannot be written, and the file that is left.
use ocserver.Log.{Log}
