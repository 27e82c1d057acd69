-- ===== src/Log.antt =====
-- Core/src/debug.h and debug.cpp: the levels and classes, the file that messages go to, and DebugLog.
-- A text is the codes of its characters; the time, the names that backtrace finds and the digits that
-- an ostream prints are arguments.
pub mod Streams
pub mod Written
pub mod Filter
mod Tests
use ocserver.Common.{
  ℕ, zero, suc, ◌+◌, ◌-◌, ◌*◌, ◌/◌, ◌%◌, ◌^◌, Bool, true, false, not, ◌&&◌, ◌||◌, List, [], ◌∷◌,
  ◌++◌, map, Option, none, some, leb, ◌==◌, if◌then◌else◌, codes,
}

-- Bit `k` of a word.
abbrev pub bit : ℕ → ℕ → Bool
bit k n = n / 2 ^ k % 2 == 1

abbrev pub set_bit : ℕ → ℕ → ℕ
set_bit k n = if bit k n then n else n + 2 ^ k

abbrev pub clear_bit : ℕ → ℕ → ℕ
clear_bit k n = if bit k n then n - 2 ^ k else n

-- Whether two words of `w` bits have one in common.
abbrev pub meets : ℕ → ℕ → ℕ → Bool
meets zero a b = false
meets (suc w) a b = (bit 0 a && bit 0 b) || meets w (a / 2) (b / 2)

abbrev pub d_debug : ℕ
d_debug = 1

abbrev pub d_info : ℕ
d_info = 2

abbrev pub d_warning : ℕ
d_warning = 4

abbrev pub d_error : ℕ
d_error = 8

abbrev pub dl_all : ℕ
dl_all = 15

abbrev pub d_main : ℕ
d_main = 1

abbrev pub d_network : ℕ
d_network = 2

abbrev pub d_crypt : ℕ
d_crypt = 4

abbrev pub d_java : ℕ
d_java = 32

abbrev pub dc_all : ℕ
dc_all = 63

-- The name of one bit, if it is set.
abbrev pub named : ℕ → ℕ → List ℕ → List ℕ
named k n name = if bit k n then name else []

unfoldable pub level_text : ℕ → List ℕ
level_text lev =
    if lev == dl_all
    then []
    else named 0 lev (codes "DEBUG")
      ++ named 1 lev (codes "INFO")
      ++ named 2 lev (codes "WARNING")
      ++ named 3 lev (codes "ERROR")

unfoldable pub class_text : ℕ → List ℕ
class_text cl =
    if cl == dc_all
    then []
    else named 0 cl (codes "MAIN")
      ++ named 1 cl (codes "NETWORK")
      ++ named 2 cl (codes "CRYPT")
      ++ named 3 cl (codes "PROTO")
      ++ named 4 cl (codes "PLUGIN")
      ++ named 5 cl (codes "JAVA")

-- `debugLevel`, `debugClass` and `debugFile`, with the text that went to each stream. A file that is not open
-- takes nothing.
pub record Log : Type 0 where
  pub debug_level : ℕ
  pub debug_class : ℕ
  pub dir : ℕ
  pub file_open : Bool
  pub file : List ℕ
  pub cout : List ℕ
  pub cerr : List ℕ

-- D_FILE, D_COUT, D_CERR and D_THROW are the bits 0 to 3.
pub data Logged : Type 0 where
  logged : Log → Logged
  thrown : Log → List ℕ → Logged

infixl 5 ◌>>=◌
abbrev pub ◌>>=◌ : Logged → (Log → Logged) → Logged
logged s >>= f = f s
thrown s e >>= f = thrown s e

abbrev pub to_streams : List ℕ → Log → Log
to_streams v s = record s {
  file = if bit 0 s.dir && s.file_open then s.file ++ v else s.file;
  cerr = if bit 2 s.dir then s.cerr ++ v else s.cerr;
  cout = if bit 1 s.dir then s.cout ++ v else s.cout;
}

-- `log`, and the operator `<<`.
unfoldable pub log : List ℕ → Log → Logged
log v s = if bit 3 s.dir then thrown (to_streams v s) v else logged (to_streams v s)

-- `debugFile << c1 << c2 ...`
unfoldable pub log_chunks : List (List ℕ) → Log → Logged
unfolding log
log_chunks [] s = logged s
log_chunks (v ∷ chunks) s = log v s >>= log_chunks chunks

unfoldable pub header : List ℕ → List ℕ → List ℕ → List (List ℕ)
header now priority tag =
    (10 ∷ [])
    ∷ now
    ∷ codes " "
    ∷ codes "["
    ∷ priority
    ∷ codes "] "
    ∷ codes "["
    ∷ tag
    ∷ codes "]"
    ∷ codes ": "
    ∷ []

abbrev pub frame_text : List ℕ → List (List ℕ)
frame_text name = (10 ∷ 9 ∷ codes "(") ∷ name ∷ codes "), " ∷ []

unfoldable pub backtrace_text : List (List ℕ) → List (List ℕ)
backtrace_text [] = (10 ∷ 9 ∷ []) ∷ []
backtrace_text (name ∷ frames) = frame_text name ++ backtrace_text frames

unfoldable pub is_logged : ℕ → ℕ → Log → Bool
is_logged lev cl s =
    (meets 32 lev s.debug_level && meets 32 cl s.debug_class) || bit 3 lev || bit 0 cl

abbrev pub to_file : List ℕ → Log → Log
to_file v s = record s { file = if s.file_open then s.file ++ v else s.file }

-- `DebugFile::deinit`
unfoldable pub deinit : List ℕ → Log → Log
deinit now s =
    let t =
      to_file (codes "-----------------------------------------" ++ (10 ∷ 10 ∷ []))
        (to_file (now ++ codes " : Log shutdown." ++ (10 ∷ [])) (to_file (10 ∷ []) s)) in
    record t { file_open = false }

-- `frames` is what backtrace_symbols names, `now` the current time.
module _ (now : List ℕ) (frames : List (List ℕ)) where
  -- What is written before the message, and where the message will go.
  unfoldable pub announce : ℕ → ℕ → Log → Logged
  unfolding log_chunks
  announce lev cl s =
      if lev == d_error
      then (log_chunks (header now (level_text lev) (class_text cl) ++ backtrace_text frames)
            (record s { dir = 1 + 4 })
          >>= λ s'. logged (record s' { dir = set_bit 3 s'.dir }))
      else log_chunks (header now (level_text lev) (class_text cl)) (record s { dir = 1 + 2 })

  unfoldable pub debug_log : ℕ → ℕ → Log → Logged
  unfolding announce
  debug_log lev cl s =
      if is_logged lev cl s then announce lev cl s else logged (record s { dir = 0 })

  -- `DebugLog( lev, cl ) << c1 << c2 ...`
  unfoldable pub debug_message : ℕ → ℕ → List (List ℕ) → Log → Logged
  unfolding debug_log
  debug_message lev cl chunks s = debug_log lev cl s >>= log_chunks chunks

  -- The overload for Java, with the message behind it.
  unfoldable pub tagged_message : List ℕ → List ℕ → List (List ℕ) → Log → Logged
  unfolding log_chunks
  tagged_message priority tag chunks s =
      log_chunks (header now priority tag ++ chunks) (record s { dir = 1 + 2 })

  -- `decimal` is how an ostream prints an int.
  unfoldable pub limit_debug_level : (ℕ → List ℕ) → ℕ → Log → Logged
  unfolding debug_message
  limit_debug_level decimal level_bitmask s =
      debug_message d_info d_main (codes "Set debug level to: " ∷ decimal level_bitmask ∷ []) s
      >>= λ s'. logged (record s' { debug_level = level_bitmask })

  unfoldable pub limit_debug_class : (ℕ → List ℕ) → ℕ → Log → Logged
  unfolding debug_message
  limit_debug_class decimal class_bitmask s =
      debug_message d_info d_main (codes "Set debug class to: " ∷ decimal class_bitmask ∷ []) s
      >>= λ s'. logged (record s' { debug_class = class_bitmask })

  -- `DebugFile::init`: `size` is what stat tells of the old file, if there is one, `renames` and `opens` are
  -- whether rename and open succeed. A file that is open already cannot be opened, and then takes nothing.
  unfoldable pub init : List ℕ → Option ℕ → Bool → Bool → Log → Logged
  unfolding debug_message
  init filename size renames opens s =
      let t = to_file (now ++ codes " : Starting log.") (
        to_file ((10 ∷ codes "-----------------------------------------") ++ (10 ∷ []))
          (record s { file_open = opens && not s.file_open })) in
      if elim size [ none ↦ false | some n ↦ leb (1024 * 1024) n && not renames ]
      then debug_message d_warning d_main
          ((codes "Moving the previous log file to "
              ++ filename
              ++ codes ".prev"
              ++ codes " failed."
              ++ (10 ∷ [])
              ++ codes
                  "Check the file permissions. This program will continue to use the previous log file.")
            ∷ [])
          t
      else logged t
