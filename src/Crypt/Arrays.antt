-- ===== src/Crypt/Arrays.antt =====
-- Core/src/cryptoutils.cpp: texts that are too long for the arrays of 1024 bytes that String2Buffer writes to.
use ocserver.Common.{
  ℕ, ◌+◌, ◌/◌, ◌%◌, ◌<◌, ◌≡◌, refl, ap, ◌∙◌, true, false, List, [], ◌∷◌, length, ◌==◌,
  if◌then◌else◌, codes, arith, ==_iff, Bool-cases, inl, inr,
}
use ocserver.Util.{Formats, scan_pairs, string_to_buffer}
use ocserver.Crypt.{
  World, Outcome, Openssl, undefined, out_of_array, ec_key, bignum, and_then, ended, pure,
  hex_bytes, in_array, fail_if, M,
}
use ocserver.Crypt.Moves.{allocate-true, allocate-false}
use ocserver.Crypt.Succeeds.{ran}
use ocserver.Crypt.Shared.{load_private, share_texts, gen_shared_key}

length-scan_pairs :
    (formats : Formats) (src : List ℕ) → length (scan_pairs formats src) ≡ length src / 2
unfolding scan_pairs
length-scan_pairs formats [] = refl
length-scan_pairs formats (x ∷ []) = refl
length-scan_pairs formats (x ∷ y ∷ src) = omega (arith, length-scan_pairs formats src)

in_array_full :
    (bytes : List ℕ) (w : World) → 1024 < length bytes → in_array bytes w ≡ undefined out_of_array
in_array_full bytes w h = ground arith

hex_bytes_full :
    (formats : Formats) (text : List ℕ) (w : World)
    → length text % 2 ≡ 0
    → 2048 < length text
    → hex_bytes formats text w ≡ undefined out_of_array
unfolding hex_bytes string_to_buffer
hex_bytes_full formats text w e h =
    ap (λ t. in_array (if t then scan_pairs formats text else []) w)
      ((==_iff (length text % 2) 0).1 e)
    ∙ in_array_full (scan_pairs formats text) w (omega (arith, length-scan_pairs formats text))

stops :
    {A B : Type 0} (m : Outcome A) (f : A → M B)
    → m ≡ undefined out_of_array
    → and_then m f ≡ undefined out_of_array
stops m f e = ap (λ r. and_then r f) e

module _ (openssl : Openssl) (formats : Formats) (now : List ℕ) (frames : List (List ℕ))
    (decimal : ℕ → List ℕ) where
  open openssl use {allocates}

  load_private_full :
      (w : World)
      → length w.privatekey % 2 ≡ 0
      → 2048 < length w.privatekey
      → load_private openssl formats now frames decimal w ≡ undefined out_of_array
  unfolding load_private
  load_private_full w e h = elim (Bool-cases (allocates w.requests)) [
    | inl y ↦ ran _ _ _ _ _ (allocate-true allocates bignum w y) (
        stops _ _ (
          hex_bytes_full formats w.privatekey
            (record w { live = bignum ∷ w.live; requests = w.requests + 1 }) e h))
    | inr n ↦ ran _ _ _ _ _ (allocate-false allocates bignum w n) (
        stops _ _
          (hex_bytes_full formats w.privatekey (record w { requests = w.requests + 1 }) e h))
  ]

  -- Gen_Shared_Key of texts, given a private key of more than 2048 characters, an even number of them, and a
  -- peer's key that is not empty, writes behind its array of 1024 bytes, if its key can be allocated.
  pub gen_shared_key_overflows :
      (peerpub : List ℕ) (w : World)
      → 0 < length peerpub
      → length w.privatekey % 2 ≡ 0
      → 2048 < length w.privatekey
      → allocates w.requests ≡ true
      → gen_shared_key openssl formats now frames decimal peerpub w ≡ undefined out_of_array
  unfolding gen_shared_key share_texts
  gen_shared_key_overflows peerpub w p e h y =
      let w1 = record w { live = ec_key ∷ w.live; requests = w.requests + 1 } in
      let given : (length peerpub == 0) ≡ false = ground arith in
      let owned : (length w.privatekey == 0) ≡ false = ground arith in
      ap (λ r. ended (and_then r (λ _. pure 0)))
        (ran _ _ _ _ _
          (ap (λ b. fail_if now frames b (codes "svrpub can't be empty.") 0x10 w) given)
          (ran _ _ _ _ _
            (ap (λ b. fail_if now frames b (codes "privatekey can't be empty.") 0x55 w) owned)
            (ran _ _ _ _ _ (allocate-true allocates ec_key w y)
              (stops _ _ (load_private_full w1 e h)))))
