-- ===== src/Log/Filter.antt =====
-- Core/src/debug.cpp: which messages are logged and where they go.
use ocserver.Common.{
  ℕ, zero, suc, ◌%◌, ◌^◌, ◌<◌, ◌≡◌, ◌≢◌, ◌⊎◌, refl, ap, ◌∙◌, Bool, true, false, ◌&&◌, ◌||◌, List,
  [], ◌∷◌, ◌++◌, append_assoc, ◌==◌, if◌then◌else◌, codes, arith, Bool-cases, ==_iff, ==_self, inl,
  inr,
}
use ocserver.Log.{
  bit, set_bit, meets, d_info, d_main, d_error, level_text, class_text, Log, logged, thrown,
  to_streams, log_chunks, header, backtrace_text, is_logged, announce, debug_log, ◌>>=◌,
  debug_message, limit_debug_level,
}
use ocserver.Log.Written.{IsWritten, is_logged-IsWritten, not_logged}
use ocserver.Log.Streams.{concat, to_streams-append, log_chunks-concat, log_chunks_throws}

or_true : (a b : Bool) → ((a || true) || b) ≡ true
or_true true b = refl
or_true false b = refl

or_last : (a b : Bool) → ((a || b) || true) ≡ true
or_last true b = refl
or_last false true = refl
or_last false false = refl

or_false : (b : Bool) → (b || false) ≡ b
or_false true = refl
or_false false = refl

filtered : (x y z w b : Bool) → x ≡ b → y ≡ true → z ≡ false → w ≡ false → ((x && y) || z || w) ≡ b
filtered true y z w b e h i j = ground arith
filtered false y z w b e h i j = ground arith

not_error : (k : ℕ) → k < 3 → bit 3 (2 ^ k) ≡ false
not_error zero h = refl
not_error (suc zero) h = refl
not_error (suc (suc zero)) h = refl
not_error (suc (suc (suc k))) h = absurd (omega arith)

no_error_level : (k : ℕ) → k < 3 → (2 ^ k == d_error) ≡ false
no_error_level zero h = refl
no_error_level (suc zero) h = refl
no_error_level (suc (suc zero)) h = refl
no_error_level (suc (suc (suc k))) h = absurd (omega arith)

is_logged-error : (cl : ℕ) (s : Log) → is_logged d_error cl s ≡ true
unfolding is_logged
is_logged-error cl s =
    or_true (meets 32 d_error s.debug_level && meets 32 cl s.debug_class) (bit 0 cl)

is_logged-main : (lev : ℕ) (s : Log) → is_logged lev d_main s ≡ true
unfolding is_logged
is_logged-main lev s =
    or_last (meets 32 lev s.debug_level && meets 32 d_main s.debug_class) (bit 3 lev)

-- A level with one bit, below D_ERROR, of a class that is not D_MAIN and is not filtered.
meets-bit : (k b : ℕ) → k < 3 → meets 32 (2 ^ k) b ≡ bit k b
meets-bit zero b h = or_false _ ∙ ap (λ n. n % 2 == 1) (omega arith)
meets-bit (suc zero) b h = or_false _ ∙ ap (λ n. n % 2 == 1) (omega arith)
meets-bit (suc (suc zero)) b h = or_false _ ∙ ap (λ n. n % 2 == 1) (omega arith)
meets-bit (suc (suc (suc k))) b h = absurd (omega arith)

is_logged-level :
    (k cl : ℕ) (s : Log)
    → k < 3
    → bit 0 cl ≡ false
    → meets 32 cl s.debug_class ≡ true
    → is_logged (2 ^ k) cl s ≡ bit k s.debug_level
unfolding is_logged
is_logged-level k cl s h c m =
    filtered (meets 32 (2 ^ k) s.debug_level) (meets 32 cl s.debug_class) (bit 3 (2 ^ k)) (bit 0 cl)
      (bit k s.debug_level) (meets-bit k s.debug_level h) m (not_error k h) c

module _ (now : List ℕ) (frames : List (List ℕ)) where
  abbrev pub header_of : ℕ → ℕ → List ℕ
  header_of lev cl = concat (header now (level_text lev) (class_text cl))

  announce_other :
      (lev cl : ℕ) (s : Log)
      → (lev == d_error) ≡ false
      → announce now frames lev cl s ≡ logged (to_streams (header_of lev cl) (record s { dir = 3 }))
  unfolding announce
  announce_other lev cl s q =
      rw q (
        log_chunks-concat (header now (level_text lev) (class_text cl)) (record s { dir = 3 }) refl)

  abbrev pub error_text : ℕ → List ℕ
  error_text cl = concat (header now (level_text d_error) (class_text cl) ++ backtrace_text frames)

  announce_error :
      (cl : ℕ) (s : Log)
      → announce now frames d_error cl s
        ≡ logged (record (to_streams (error_text cl) (record s { dir = 5 })) { dir = 13 })
  unfolding announce
  announce_error cl s =
      ap (λ r. r >>= λ s'. logged (record s' { dir = set_bit 3 s'.dir }))
        (log_chunks-concat
          (header now (level_text d_error) (class_text cl) ++ backtrace_text frames)
          (record s { dir = 5 }) refl)

  debug_log-is_logged :
      (lev cl : ℕ) (s : Log)
      → is_logged lev cl s ≡ true
      → debug_log now frames lev cl s ≡ announce now frames lev cl s
  unfolding debug_log
  debug_log-is_logged lev cl s p = rw p refl

  -- A message of a level other than D_ERROR.
  passed :
      (lev cl : ℕ) (chunks : List (List ℕ)) (s : Log)
      → is_logged lev cl s ≡ true
      → (lev == d_error) ≡ false
      → debug_message now frames lev cl chunks s
        ≡ logged (to_streams (header_of lev cl ++ concat chunks) (record s { dir = 3 }))
  unfolding debug_message
  passed lev cl chunks s p q =
      ap (λ r. r >>= log_chunks chunks) (debug_log-is_logged lev cl s p ∙ announce_other lev cl s q)
      ∙ log_chunks-concat chunks (to_streams (header_of lev cl) (record s { dir = 3 })) refl
      ∙ ap logged (to_streams-append (header_of lev cl) (concat chunks) (record s { dir = 3 }))

  errors :
      (cl : ℕ) (v : List ℕ) (chunks : List (List ℕ)) (s : Log)
      → debug_message now frames d_error cl (v ∷ chunks) s
        ≡ thrown (record (to_streams (error_text cl ++ v) (record s { dir = 5 })) { dir = 13 }) v
  unfolding debug_message
  errors cl v chunks s =
      ap (λ r. r >>= log_chunks (v ∷ chunks))
        (debug_log-is_logged d_error cl s (is_logged-error cl s) ∙ announce_error cl s)
      ∙ log_chunks_throws v chunks
          (record (to_streams (error_text cl) (record s { dir = 5 })) { dir = 13 }) refl
      ∙ ground (arith, append_assoc s.file (error_text cl) v, append_assoc s.cerr (error_text cl) v)

  at_error :
      (lev cl : ℕ) (v : List ℕ) (chunks : List (List ℕ)) (s : Log)
      → (lev == d_error) ≡ true
      → debug_message now frames lev cl (v ∷ chunks) s
        ≡ thrown (record (to_streams (error_text cl ++ v) (record s { dir = 5 })) { dir = 13 }) v
  at_error lev cl v chunks s e =
      ap (λ l. debug_message now frames l cl (v ∷ chunks) s) ((==_iff lev d_error).0 e)
      ∙ errors cl v chunks s

  quiet :
      (lev cl : ℕ) (chunks : List (List ℕ)) (s : Log)
      → is_logged lev cl s ≡ false
      → debug_message now frames lev cl chunks s ≡ logged (record s { dir = 0 })
  unfolding debug_message debug_log
  quiet lev cl chunks s p = rw p (log_chunks-concat chunks (record s { dir = 0 }) refl)

  -- An error is written, with the functions that are running, to the file (if it is open) and to cerr, and
  -- its first piece is then thrown, so that nothing behind it is written. A message of another level is
  -- written to the file and to cout if its level has a bit of debugLevel and its class one of debugClass,
  -- if its level has the bit of D_ERROR, or if its class has that of D_MAIN; and otherwise nowhere; and
  -- nothing is thrown.
  pub debug_message_lem :
      (lev cl : ℕ) (v : List ℕ) (chunks : List (List ℕ)) (s : Log)
      → ((lev ≡ d_error)
          × (debug_message now frames lev cl (v ∷ chunks) s
              ≡ thrown
                  (record (to_streams (error_text cl ++ v) (record s { dir = 5 })) { dir = 13 })
                  v))
        ⊎ (((lev ≢ d_error)
              × IsWritten lev cl s
              × (debug_message now frames lev cl (v ∷ chunks) s
                  ≡ logged (
                      to_streams (header_of lev cl ++ concat (v ∷ chunks)) (record s { dir = 3 }))))
            ⊎ ((lev ≢ d_error)
                × (¬ (IsWritten lev cl s))
                × (debug_message now frames lev cl (v ∷ chunks) s ≡ logged (record s { dir = 0 }))))
  debug_message_lem lev cl v chunks s = elim (Bool-cases (lev == d_error)) [
    | inl e ↦ inl ((==_iff lev d_error).0 e, at_error lev cl v chunks s e)
    | inr e ↦
        let n : lev ≢ d_error = λ q. ground (arith, q, ==_self d_error) in
        elim (Bool-cases (is_logged lev cl s)) [
          | inl p ↦ inr (inl (n, is_logged-IsWritten lev cl s p, passed lev cl (v ∷ chunks) s p e))
          | inr p ↦ inr (inr (n, not_logged lev cl s p, quiet lev cl (v ∷ chunks) s p))
        ]
  ]

  -- A message of a level other than D_ERROR throws nothing.
  pub debug_message-logged :
      (lev cl : ℕ) (chunks : List (List ℕ)) (s : Log)
      → (lev == d_error) ≡ false
      → (s' : Log) × (debug_message now frames lev cl chunks s ≡ logged s')
  debug_message-logged lev cl chunks s e = elim (Bool-cases (is_logged lev cl s)) [
    | inl p ↦ (
      to_streams (header_of lev cl ++ concat chunks) (record s { dir = 3 }),
      passed lev cl chunks s p e,
    )
    | inr p ↦ (record s { dir = 0 }, quiet lev cl chunks s p)
  ]

  -- The first piece of an error is thrown.
  pub debug_message-thrown :
      (cl : ℕ) (v : List ℕ) (chunks : List (List ℕ)) (s : Log)
      → (s' : Log) × (debug_message now frames d_error cl (v ∷ chunks) s ≡ thrown s' v)
  debug_message-thrown cl v chunks s = (
    record (to_streams (error_text cl ++ v) (record s { dir = 5 })) { dir = 13 },
    errors cl v chunks s,
  )

  at_level :
      (k cl : ℕ) (chunks : List (List ℕ)) (s : Log)
      → k < 3
      → bit 0 cl ≡ false
      → meets 32 cl s.debug_class ≡ true
      → debug_message now frames (2 ^ k) cl chunks s ≡ (
          if bit k s.debug_level
          then logged (to_streams (header_of (2 ^ k) cl ++ concat chunks) (record s { dir = 3 }))
          else logged (record s { dir = 0 }))
  at_level k cl chunks s h c m =
      let e = is_logged-level k cl s h c m in
      elim (Bool-cases (bit k s.debug_level)) [
        | inl p ↦ rw p (passed (2 ^ k) cl chunks s (e ∙ p) (no_error_level k h))
        | inr p ↦ rw p (quiet (2 ^ k) cl chunks s (e ∙ p))
      ]

  -- After limitDebugLevel, which never throws, a message of the level 2 ^ k below D_ERROR, of a class that is
  -- not D_MAIN and that debugClass lets pass, is written if bit k of the new level is set, and
  -- otherwise nowhere.
  pub debug_message-limit_debug_level :
      (decimal : ℕ → List ℕ) (level k cl : ℕ) (chunks : List (List ℕ)) (s : Log)
      → k < 3
      → bit 0 cl ≡ false
      → meets 32 cl s.debug_class ≡ true
      → (s' : Log) × (limit_debug_level now frames decimal level s ≡ logged s')
        × (s'.debug_level ≡ level)
        × (debug_message now frames (2 ^ k) cl chunks s' ≡ (
            if bit k level
            then logged (to_streams (header_of (2 ^ k) cl ++ concat chunks) (record s' { dir = 3 }))
            else logged (record s' { dir = 0 })))
  unfolding limit_debug_level
  debug_message-limit_debug_level decimal level k cl chunks s h c m =
      let text = codes "Set debug level to: " ∷ decimal level ∷ [] in
      let s' = record (to_streams (header_of d_info d_main ++ concat text) (record s { dir = 3 })) {
        debug_level = level;
      } in
      (
        s',
        ap (λ r. r >>= λ t. logged (record t { debug_level = level }))
            (passed d_info d_main text s (is_logged-main d_info s) refl),
        refl,
        at_level k cl chunks s' h c m,
      )
