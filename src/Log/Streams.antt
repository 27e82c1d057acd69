-- ===== src/Log/Streams.antt =====
-- Core/src/debug.h: the pieces of a message on their way to the streams.
use ocserver.Common.{
  ℕ, ◌≡◌, refl, ap, ◌∙◌, sym, true, false, List, [], ◌∷◌, ◌++◌, append_assoc, append-nil, arith,
}
use ocserver.Log.{bit, Log, logged, thrown, to_streams, log, log_chunks, ◌>>=◌}

abbrev pub concat : List (List ℕ) → List ℕ
concat [] = []
concat (v ∷ chunks) = v ++ concat chunks

pub concat-append : (a b : List (List ℕ)) → concat (a ++ b) ≡ concat a ++ concat b
concat-append [] b = refl
concat-append (v ∷ a) b =
    ap (λ t. v ++ t) (concat-append a b) ∙ sym (append_assoc v (concat a) (concat b))

pub to_streams-nil : (s : Log) → to_streams [] s ≡ s
to_streams-nil s = ground (arith, append-nil s.file, append-nil s.cout, append-nil s.cerr)

pub to_streams-append :
    (a b : List ℕ) (s : Log) → to_streams b (to_streams a s) ≡ to_streams (a ++ b) s
to_streams-append a b s =
    ground (arith, append_assoc s.file a b, append_assoc s.cout a b, append_assoc s.cerr a b)

pub log-logged : (v : List ℕ) (s : Log) → bit 3 s.dir ≡ false → log v s ≡ logged (to_streams v s)
unfolding log
log-logged v s h = rw h refl

pub log-thrown : (v : List ℕ) (s : Log) → bit 3 s.dir ≡ true → log v s ≡ thrown (to_streams v s) v
unfolding log
log-thrown v s h = rw h refl

-- Without D_THROW the pieces of a message are written one behind the other.
pub log_chunks-concat :
    (chunks : List (List ℕ)) (s : Log)
    → bit 3 s.dir ≡ false
    → log_chunks chunks s ≡ logged (to_streams (concat chunks) s)
unfolding log_chunks
log_chunks-concat [] s h = ap logged (sym (to_streams-nil s))
log_chunks-concat (v ∷ chunks) s h =
    ap (λ r. r >>= log_chunks chunks) (log-logged v s h)
    ∙ log_chunks-concat chunks (to_streams v s) h
    ∙ ap logged (to_streams-append v (concat chunks) s)

-- With D_THROW the first piece is written and thrown, and the others are lost.
pub log_chunks_throws :
    (v : List ℕ) (chunks : List (List ℕ)) (s : Log)
    → bit 3 s.dir ≡ true
    → log_chunks (v ∷ chunks) s ≡ thrown (to_streams v s) v
unfolding log_chunks
log_chunks_throws v chunks s h = ap (λ r. r >>= log_chunks chunks) (log-thrown v s h)
