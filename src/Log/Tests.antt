-- ===== src/Log/Tests.antt =====
-- Messages of the debug log.
use ocserver.Common.{ℕ, ◌+◌, ◌≡◌, ◌≢◌, ◌⊎◌, refl, true, List, [], ◌∷◌, ◌++◌, codes, arith}
use ocserver.Log.{
  d_error, d_network, Log, logged, thrown, to_streams, debug_message, limit_debug_level,
}
use ocserver.Log.Written.{IsWritten}
use ocserver.Log.Streams.{concat}
use ocserver.Log.Filter.{header_of, error_text, debug_message_lem, debug_message-limit_debug_level}

abbrev release : Log
release = record {
  debug_level = 8;
  debug_class = 63;
  dir = 0;
  file_open = true;
  file = [];
  cout = [];
  cerr = [];
}

abbrev at_noon : List ℕ
at_noon = codes "[2018-05-01 12:00:00]"

abbrev digit : ℕ → List ℕ
digit n = (b'0' + n) ∷ []

-- An error in two pieces: the second is lost.
debug_message_lem_example :
    ((d_error ≡ d_error)
      × (debug_message at_noon [] d_error d_network (codes "failed: " ∷ codes "EACCES" ∷ []) release
          ≡ thrown
              (record (to_streams
                (error_text at_noon [] d_network ++ codes "failed: ")
                (record release { dir = 5 })) { dir = 13 })
              (codes "failed: ")))
    ⊎ (((d_error ≢ d_error)
          × IsWritten d_error d_network release
          × (debug_message at_noon [] d_error d_network
                (codes "failed: " ∷ codes "EACCES" ∷ [])
                release
              ≡ logged (
                  to_streams
                    (header_of at_noon [] d_error d_network
                      ++ concat (codes "failed: " ∷ codes "EACCES" ∷ []))
                    (record release { dir = 3 }))))
        ⊎ ((d_error ≢ d_error)
            × (¬ (IsWritten d_error d_network release))
            × (debug_message at_noon [] d_error d_network
                  (codes "failed: " ∷ codes "EACCES" ∷ [])
                  release
                ≡ logged (record release { dir = 0 }))))
debug_message_lem_example =
    debug_message_lem at_noon [] d_error d_network (codes "failed: ") (codes "EACCES" ∷ []) release

-- With the level 4, warnings are logged.
debug_message-limit_debug_level_example :
    (s' : Log) × (limit_debug_level at_noon [] digit 4 release ≡ logged s')
    × (s'.debug_level ≡ 4)
    × (debug_message at_noon [] 4 d_network (codes "slow" ∷ []) s'
        ≡ logged (
            to_streams
              (header_of at_noon [] 4 d_network ++ concat (codes "slow" ∷ []))
              (record s' { dir = 3 })))
debug_message-limit_debug_level_example =
    debug_message-limit_debug_level at_noon [] digit 4 2 d_network (codes "slow" ∷ []) release
      (omega arith) refl refl
