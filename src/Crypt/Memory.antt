-- ===== src/Crypt/Memory.antt =====
-- Core/src/cryptoutils.cpp: which objects of OpenSSL the functions leave allocated, however they end.
use ocserver.Common.{
  ℕ, ◌≡◌, ◌≢◌, refl, subst, sym, Bool, true, false, not, List, ◌∷◌, ◌++◌, some, length, ◌==◌, codes,
  Bool-cases, inl, inr,
}
use ocserver.Util.{Formats}
use ocserver.Log.{d_info}
use ocserver.Crypt.{
  M, World, Outcome, Object, Openssl, returned, exits, threw, undefined, not_allocated, ec_key,
  ec_point, bignum, and_then, pure, gets, ended, free, without, non_null, non_null_object, minus,
  is_positive, in_array, hex_bytes, public_text, private_text, set_publickey, set_privatekey,
  set_sharedkey, message, fail_if, ◌>>=◌, ◌>>◌,
}
use ocserver.Crypt.Moves.{
  Within, Moves, Keeps, Moves-bind, Moves-allocate, Keeps-message, Moves-fail_if, Moves-fail,
  Moves-free, Keeps-in_array, Keeps-hex_bytes, Keeps-non_null, Keeps-non_null_object,
}
use ocserver.Crypt.Shared.{
  load_private, read_point, no_point, given_point, load_public, agree, write_and_agree, share_texts,
  gen_shared_key,
}

-- What Gen_Shared_Key of texts leaves allocated beside `rest`, by the code that it returns.
pub data Left (rest : List Object) : ℕ → List Object → Type 0 where
  all_freed : Left rest 0 rest
  no_peer : Left rest (minus 0x10) rest
  no_private : Left rest (minus 0x55) rest
  no_key : Left rest (minus 0x7) rest
  no_number : Left rest (minus 0x5) (ec_key ∷ rest)
  stray_number : Left rest (minus 0x5) (bignum ∷ ec_key ∷ rest)
  private_refused : Left rest (minus 0x1) (ec_key ∷ rest)
  point_refused : Left rest (minus 0x11) (ec_point ∷ ec_key ∷ rest)
  no_product : Left rest (minus 0x2) (ec_point ∷ ec_key ∷ rest)
  public_refused : Left rest (minus 0x3) (ec_point ∷ ec_key ∷ rest)
  peer_refused : Left rest (minus 0x4) (ec_point ∷ ec_key ∷ rest)
  no_secret : Left rest (minus 0x9) (ec_point ∷ ec_key ∷ rest)

module _ (openssl : Openssl) (formats : Formats) (now : List ℕ) (frames : List (List ℕ))
    (decimal : ℕ → List ℕ) (rest : List Object) where
  open openssl use {
    Key, Point, allocates, new_by_curve_name, set_public_key, set_private_key, get0_public_key,
    get0_private_key, point_mul_null, oct_to_point, point_to_oct, bn_to_mpi, mpi_to_bn, compute_key,
    md5,
  }

  abbrev Leaves : {A : Type 0} → List Object → List Object → M A → Type 0
  Leaves = Moves (Left rest)

  abbrev keyed : List Object
  keyed = ec_key ∷ rest

  abbrev pointed : List Object
  pointed = ec_point ∷ ec_key ∷ rest

  Leaves-public_text : (key : Key) → Keeps (Left rest) (public_text openssl formats key)
  unfolding public_text
  Leaves-public_text key l =
      Moves-bind (Left rest) l l l (non_null (get0_public_key key)) _
        (Keeps-non_null (Left rest) (get0_public_key key) l) (λ _ w e. e)

  Leaves-private_text : (key : Key) → Keeps (Left rest) (private_text openssl formats key)
  unfolding private_text
  Leaves-private_text key l =
      Moves-bind (Left rest) l l l (non_null (get0_private_key key)) _
        (Keeps-non_null (Left rest) (get0_private_key key) l)
        (λ big.
          Moves-bind (Left rest) l l l (in_array (bn_to_mpi big)) _
            (Keeps-in_array (Left rest) (bn_to_mpi big) l) (λ _ w e. e))

  -- A check whose failure ends the function, and what follows it.
  check :
      {B : Type 0} (l after : List Object) (failed : Bool) (text : List ℕ) (code : ℕ)
      (f : Unit {0} → M B)
      → Left rest (minus code) l
      → Leaves l after (f tt)
      → Leaves l after (fail_if now frames failed text code >>= f)
  check l after failed text code f q h =
      Moves-bind (Left rest) l l after (fail_if now frames failed text code) f
        (Moves-fail_if (Left rest) now frames failed text code l q) (λ _. h)

  note :
      {B : Type 0} (l after : List Object) (chunks : List (List ℕ)) (f : Unit {0} → M B)
      → Leaves l after (f tt)
      → Leaves l after (message now frames d_info chunks >>= f)
  note l after chunks f h =
      Moves-bind (Left rest) l l after (message now frames d_info chunks) f
        (Keeps-message (Left rest) now frames d_info chunks refl l) (λ _. h)

  releasing :
      {B : Type 0} (o : Object) (l after : List Object) (f : Unit {0} → M B)
      → without o (o ∷ l) ≡ some l
      → Leaves l after (f tt)
      → Leaves (o ∷ l) after (free o >>= f)
  releasing o l after f e h =
      Moves-bind (Left rest) (o ∷ l) l after (free o) f (Moves-free (Left rest) o (o ∷ l) l e)
        (λ _. h)

  kept :
      {A B : Type 0} (l after : List Object) (m : M A) (f : A → M B)
      → Leaves l l m
      → ((a : A) → Leaves l after (f a))
      → Leaves l after (m >>= f)
  kept l after m f = Moves-bind (Left rest) l l after m f

  -- The number is freed before the call that took it is tested.
  Leaves-load_private : Leaves keyed keyed (load_private openssl formats now frames decimal)
  unfolding load_private
  Leaves-load_private =
      Moves-allocate (Left rest) keyed keyed allocates bignum _
        (kept (bignum ∷ keyed) keyed (gets (λ w. w.privatekey)) _ (λ _ e. e)
          λ text.
            kept (bignum ∷ keyed) keyed (hex_bytes formats text) _
              (Keeps-hex_bytes (Left rest) formats text (bignum ∷ keyed))
              λ bytes. releasing bignum keyed keyed _ refl (
                check keyed keyed
                  (not ((set_private_key new_by_curve_name (some (mpi_to_bn bytes))).0 == 1))
                  (codes "EC_KEY_set_private_key failed.") 0x1 _ private_refused (λ _ e. e)))
        (kept keyed keyed (gets (λ w. w.privatekey)) _ (λ _ e. e)
          λ text.
            kept keyed keyed (hex_bytes formats text) _
              (Keeps-hex_bytes (Left rest) formats text keyed)
              λ bytes.
                Moves-allocate (Left rest) keyed keyed allocates bignum _
                  (Moves-fail (Left rest) now frames (codes "big number null.") 0x5 (bignum ∷ keyed)
                    keyed _ stray_number)
                  (Moves-fail (Left rest) now frames (codes "big number null.") 0x5 keyed keyed _
                    no_number))

  Leaves-no_point :
      (has_point : Bool) (key : Key)
      → Leaves pointed pointed (no_point openssl formats now frames decimal has_point key)
  Leaves-no_point has_point key =
      kept pointed pointed (non_null_object has_point) _
        (Keeps-non_null_object (Left rest) has_point pointed)
        λ _.
          check pointed pointed (not ((point_mul_null key).0 == 1))
            (codes "EC_POINT_mul failed = " ++ decimal (point_mul_null key).0) 0x2 _ no_product
            (λ _ e. e)

  Leaves-given_point :
      (has_point : Bool) (key : Key) (text : List ℕ)
      → Leaves pointed pointed (given_point openssl formats now frames decimal has_point key text)
  Leaves-given_point has_point key text =
      kept pointed pointed (hex_bytes formats text) _
        (Keeps-hex_bytes (Left rest) formats text pointed)
        λ bytes.
          kept pointed pointed (non_null_object has_point) _
            (Keeps-non_null_object (Left rest) has_point pointed)
            λ _.
              check pointed pointed (not ((oct_to_point key bytes).0 == 1))
                (codes "EC_POINT_oct2point ret = " ++ decimal (oct_to_point key bytes).0) 0x11 _
                point_refused (λ _ e. e)

  Leaves-read_point :
      (key : Key) (text : List ℕ)
      → Leaves pointed pointed (read_point openssl formats now frames decimal true key text)
  unfolding read_point
  Leaves-read_point key text = elim (Bool-cases (length text == 0)) [
    | inl y ↦ rw y (Leaves-no_point true key)
    | inr n ↦ rw n (Leaves-given_point true key text)
  ]

  -- Without a point nothing is returned: a call takes the null pointer.
  Leaves-read_point_null :
      (after : List Object) (key : Key) (text : List ℕ)
      → Leaves keyed after (read_point openssl formats now frames decimal false key text)
  unfolding read_point
  Leaves-read_point_null after key text = elim (Bool-cases (length text == 0)) [
    | inl y ↦ rw y (λ w e p. cc p)
    | inr n ↦ rw n (
        kept keyed after (hex_bytes formats text) _ (Keeps-hex_bytes (Left rest) formats text keyed)
          (λ bytes w e p. cc p))
  ]

  Leaves-load_public :
      (key : Key) → Leaves keyed keyed (load_public openssl formats now frames decimal key)
  unfolding load_public
  Leaves-load_public key =
      let finish = λ (point : Point).
        check pointed keyed (not ((set_public_key key (some point)).0 == 1))
          (codes "EC_KEY_set_public_key ret = " ++ decimal (set_public_key key (some point)).0) 0x3
          (λ _. free ec_point >> pure (set_public_key key (some point)).1) public_refused
          (releasing ec_point keyed keyed _ refl (λ _ e. e)) in
      Moves-allocate (Left rest) keyed keyed allocates ec_point _
        (kept pointed keyed (gets (λ w. w.publickey)) _ (λ _ e. e)
          λ text.
            kept pointed keyed (read_point openssl formats now frames decimal true key text) _
              (Leaves-read_point key text) finish)
        (kept keyed keyed (gets (λ w. w.publickey)) _ (λ _ e. e)
          λ text.
            Moves-bind (Left rest) keyed pointed keyed
              (read_point openssl formats now frames decimal false key text) _
              (Leaves-read_point_null pointed key text) finish)

  -- On success both the point and the key are freed.
  Leaves-agree :
      (peer_bytes : List ℕ) (key : Key)
      → Moves (Left rest) keyed rest (agree openssl formats now frames decimal peer_bytes key)
  unfolding agree
  Leaves-agree peer_bytes key =
      Moves-allocate (Left rest) keyed rest allocates ec_point _
        (check pointed rest (not ((oct_to_point key peer_bytes).0 == 1))
          (codes "EC_POINT_oct2point ret = " ++ decimal (oct_to_point key peer_bytes).0) 0x4 _
          peer_refused
          (check pointed rest
            (not (is_positive (compute_key (oct_to_point key peer_bytes).1 key).0))
            (codes "ECDH_compute_key ret = "
              ++ decimal (compute_key (oct_to_point key peer_bytes).1 key).0)
            0x9 _ no_secret
            (note pointed rest _ _ (
              releasing ec_point keyed rest _ refl (
                note keyed rest _ _ (
                  kept keyed rest (set_sharedkey _) _ (λ _ e. e)
                    λ _. Moves-free (Left rest) ec_key keyed rest refl))))))
        (λ w e p. cc p)

  -- From the loaded keys to the end.
  Leaves-written :
      (peerpub : List ℕ) (key : Key)
      → Leaves keyed rest (write_and_agree openssl formats now frames decimal peerpub key)
  unfolding write_and_agree
  Leaves-written peerpub key =
      kept keyed rest (public_text openssl formats key) _ (Leaves-public_text key keyed) λ pubhex.
        kept keyed rest (set_publickey pubhex) _ (λ _ e. e)
          λ _.
            kept keyed rest (private_text openssl formats key) _ (Leaves-private_text key keyed)
              λ privhex.
                kept keyed rest (set_privatekey privhex) _ (λ _ e. e)
                  λ _.
                    kept keyed rest (hex_bytes formats peerpub) _
                      (Keeps-hex_bytes (Left rest) formats peerpub keyed)
                      λ svrpub. Leaves-agree svrpub key

  Leaves-share_texts :
      (peerpub : List ℕ) → Leaves rest rest (share_texts openssl formats now frames decimal peerpub)
  unfolding share_texts
  Leaves-share_texts peerpub =
      check rest rest (length peerpub == 0) (codes "svrpub can't be empty.") 0x10 _ no_peer (
        kept rest rest (gets (λ w. w.privatekey)) _ (λ _ e. e)
          λ privatekey.
            check rest rest (length privatekey == 0) (codes "privatekey can't be empty.") 0x55 _
              no_private
              (Moves-allocate (Left rest) rest rest allocates ec_key _
                (kept keyed rest (load_private openssl formats now frames decimal) _
                  Leaves-load_private
                  λ key1.
                    kept keyed rest (load_public openssl formats now frames decimal key1) _
                      (Leaves-load_public key1) (Leaves-written peerpub))
                (Moves-fail (Left rest) now frames
                  (codes "EC_KEY_new_by_curve_name(NID_secp192k1) failed.") 0x7 rest rest _
                  no_key)))

-- What a function may do to the objects that were allocated when it was called.
abbrev pub Accounts : List Object → Outcome ℕ → Type 0
Accounts rest (returned code w) = Left rest code w.live
Accounts rest (exits code w) = ⊥
Accounts rest (threw e w) = ⊥
Accounts rest (undefined x) = x ≢ not_allocated

Accounts-ended :
    (rest : List Object) (r : Outcome (Unit {0}))
    → Within (Left rest) rest r
    → Accounts rest (ended (and_then r (λ _. pure 0)))
Accounts-ended rest (returned a w) h = subst (Left rest 0) (sym h) all_freed
Accounts-ended rest (exits c w) h = h
Accounts-ended rest (threw e w) h = h
Accounts-ended rest (undefined x) h = h

-- Gen_Shared_Key of texts, whatever it is given and whatever OpenSSL answers, throws nothing and frees only what
-- is allocated, unless it comes to undefined behaviour; and the code that it returns tells what it leaves
-- allocated beside what was: nothing after 0, -0x10, -0x55 and -0x7; the key after -0x1; the key, and
-- perhaps a number, after -0x5; the key and a point after any other code.
pub gen_shared_key-Accounts :
    (openssl : Openssl) (formats : Formats) (now : List ℕ) (frames : List (List ℕ))
    (decimal : ℕ → List ℕ) (peerpub : List ℕ) (w : World)
    → Accounts w.live (gen_shared_key openssl formats now frames decimal peerpub w)
unfolding gen_shared_key
gen_shared_key-Accounts openssl formats now frames decimal peerpub w =
    Accounts-ended w.live (share_texts openssl formats now frames decimal peerpub w)
      (Leaves-share_texts openssl formats now frames decimal w.live peerpub w refl)
