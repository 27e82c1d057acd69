-- ===== src/Crypt/Succeeds.antt =====
-- Core/src/cryptoutils.cpp: the parts of its functions where all that they ask of OpenSSL succeeds.
use ocserver.Common.{
  ℕ, ◌+◌, ◌≤◌, ◌<◌, ◌≡◌, refl, ap, ◌∙◌, true, false, not, List, [], ◌∷◌, ◌++◌, some, length, take,
  take_all, ◌==◌, if◌then◌else◌, codes, arith, All,
}
use ocserver.Wire.{IsByte}
use ocserver.Util.{Formats, chars_to_string}
use ocserver.Util.RoundTrip.{
  IsHex, IsText, string_to_buffer-chars_to_string, length-chars_to_string,
}
use ocserver.Log.{Log, d_info}
use ocserver.Crypt.{
  M, World, Object, Outcome, Openssl, returned, ec_key, ec_point, bignum, and_then, pure, free,
  without, non_null, is_positive, hex_bytes, in_array, public_text, private_text, fail_if, ◌>>=◌,
  ◌>>◌,
}
use ocserver.Crypt.Moves.{allocate-true, message-returned, free_lem}
use ocserver.Crypt.Shared.{
  load_private, read_point, no_point, given_point, load_public, agree, agree_with, store_secret,
}
use ocserver.Crypt.Curve.{IsEcdh}

-- A step that returns, and what follows it.
pub ran :
    {A B : Type 0} (m : Outcome A) (a : A) (w : World) (f : A → M B) (x : Outcome B)
    → m ≡ returned a w
    → f a w ≡ x
    → and_then m f ≡ x
ran m a w f x e h = ap (λ r. and_then r f) e ∙ h

module _ (openssl : Openssl) (formats : Formats) (now : List ℕ) (frames : List (List ℕ))
    (decimal : ℕ → List ℕ) (ecdh : IsEcdh openssl) (hex : IsHex formats) (text : IsText formats)
    (memory : (n : ℕ) → openssl.allocates n ≡ true) where
  open openssl use {
    Key, Point, Big, allocates, new_by_curve_name, get0_public_key, get0_private_key,
    set_public_key, set_private_key, oct_to_point, point_to_oct, mpi_to_bn, bn_to_mpi, compute_key,
    md5,
  }
  open ecdh use {
    IsOnCurve, IsPrivate, base, exchange, new_is_on_curve, private_set, public_set, point_read,
    point_written, number_read, key_computed, exchange_comm, exchange_positive, point_bytes,
    number_bytes,
  }

  -- A call that returns 1, its test, and what follows.
  pub passes :
      {A B : Type 0} (r : ℕ × A) (a : A) (text_of : ℕ → List ℕ) (code : ℕ) (f : A → M B) (w : World)
      → r ≡ (1, a)
      → (fail_if now frames (not (r.0 == 1)) (text_of r.0) code >> f r.1) w ≡ f a w
  passes r a text_of code f w e =
      ap (λ q. (fail_if now frames (not (q.0 == 1)) (text_of q.0) code >> f q.1) w) e

  in_array_fits :
      (bytes : List ℕ) (w : World) → length bytes ≤ 1024 → in_array bytes w ≡ returned bytes w
  in_array_fits bytes w h = ground arith

  pub hex_bytes_fits :
      (src : List ℕ) (w : World)
      → All IsByte src
      → length src ≤ 1024
      → hex_bytes formats (chars_to_string formats src) w ≡ returned src w
  unfolding hex_bytes
  hex_bytes_fits src w a h =
      ap (λ b. in_array b w) (string_to_buffer-chars_to_string formats hex text src a)
      ∙ in_array_fits src w h

  pub public_text_of :
      (k : Key) (p : Point) (w : World)
      → get0_public_key k ≡ some p
      → public_text openssl formats k w ≡ returned (chars_to_string formats (point_to_oct k p)) w
  unfolding public_text
  public_text_of k p w e =
      ap (λ o. and_then (non_null o w) (λ q. pure (chars_to_string formats (point_to_oct k q)))) e

  pub private_text_of :
      (k : Key) (b : Big) (w : World)
      → get0_private_key k ≡ some b
      → IsPrivate b
      → private_text openssl formats k w ≡ returned (chars_to_string formats (bn_to_mpi b)) w
  unfolding private_text
  private_text_of k b w e p =
      ap
        (λ o.
          and_then (non_null o w)
            (λ q. in_array (bn_to_mpi q) >>= λ bytes. pure (chars_to_string formats bytes)))
        e
      ∙ ap (λ r. and_then r (λ bytes. pure (chars_to_string formats bytes)))
          (in_array_fits (bn_to_mpi b) w (number_bytes b p).2)

  -- The world with `n` allocations more.
  abbrev pub later : ℕ → World → World
  later n w = record w { requests = w.requests + n }

  pub load_private_of :
      (b : Big) (w : World)
      → IsPrivate b
      → w.privatekey ≡ chars_to_string formats (bn_to_mpi b)
      → (k : Key) × (load_private openssl formats now frames decimal w ≡ returned k (later 1 w))
        × IsOnCurve k
        × (get0_private_key k ≡ some b)
  unfolding load_private
  load_private_of b w p e =
      let (k, s, c, g) = private_set new_by_curve_name b new_is_on_curve p in
      let v = record w { live = bignum ∷ w.live; requests = w.requests + 1 } in
      (
        k,
        ran _ _ _ _ _ (allocate-true allocates bignum w (memory w.requests)) (
            ran _ _ _ _ _
              (ap (λ t. hex_bytes formats t v) e
                ∙ hex_bytes_fits (bn_to_mpi b) v (number_bytes b p).0 (number_bytes b p).2)
              (ran _ _ _ _ _ (free_lem bignum v w.live refl) (
                passes _ k (λ _. codes "EC_KEY_set_private_key failed.") 0x1 (λ q. pure q) _
                  (ap (λ n. set_private_key new_by_curve_name (some n)) (number_read b p) ∙ s)))),
        c,
        g,
      )

  -- The text of bytes is not empty unless there are none.
  pub text_given :
      (src : List ℕ)
      → All IsByte src
      → 0 < length src
      → (length (chars_to_string formats src) == 0) ≡ false
  text_given src a h = ground (arith, length-chars_to_string formats hex text src a)

  read_point_of :
      (key k0 : Key) (b : Big) (v : World)
      → IsOnCurve key
      → IsOnCurve k0
      → IsPrivate b
      → read_point openssl formats now frames decimal true key
          (chars_to_string formats (point_to_oct k0 (base b)))
          v
        ≡ returned (base b) v
  unfolding read_point
  read_point_of key k0 b v c c0 p =
      let (bytes, more, few) = point_bytes k0 (base b) in
      let src = point_to_oct k0 (base b) in
      ap
        (λ t.
          (if t
              then no_point openssl formats now frames decimal true key
              else given_point openssl formats now frames decimal true key
                  (chars_to_string formats src))
            v)
        (text_given src bytes more)
      ∙ ran _ _ _ _ _ (hex_bytes_fits src v bytes (omega arith)) (
          passes _ (base b) (λ n. codes "EC_POINT_oct2point ret = " ++ decimal n) 0x11 (λ q. pure q)
            v (point_read key k0 b c c0 p))

  pub load_public_of :
      (key : Key) (b : Big) (k0 : Key) (w : World)
      → IsOnCurve key
      → IsOnCurve k0
      → IsPrivate b
      → w.publickey ≡ chars_to_string formats (point_to_oct k0 (base b))
      → (k : Key) × (load_public openssl formats now frames decimal key w ≡ returned k (later 1 w))
        × IsOnCurve k
        × (get0_public_key k ≡ some (base b))
        × (get0_private_key k ≡ get0_private_key key)
  unfolding load_public
  load_public_of key b k0 w c c0 p e =
      let (k, s, d, g, q) = public_set key b c p in
      let v = record w { live = ec_point ∷ w.live; requests = w.requests + 1 } in
      (
        k,
        ran _ _ _ _ _ (allocate-true allocates ec_point w (memory w.requests)) (
            ran _ (base b) v _ _
              (ap (λ t. read_point openssl formats now frames decimal true key t v) e
                ∙ read_point_of key k0 b v c c0 p)
              (passes _ k (λ n. codes "EC_KEY_set_public_key ret = " ++ decimal n) 0x3
                  (λ q. free ec_point >> pure q) v s
                ∙ ran _ _ _ _ _ (free_lem ec_point v w.live refl) refl)),
        d,
        g,
        q,
      )

  -- The text that is stored for a secret.
  abbrev pub stored : List ℕ → List ℕ
  stored secret = chars_to_string formats (take 16 (md5 secret))

  computes :
      (key : Key) (a b : Big) (v : World)
      → IsOnCurve key
      → get0_private_key key ≡ some a
      → IsPrivate a
      → IsPrivate b
      → agree_with openssl formats now frames decimal key (base b) v
        ≡ store_secret openssl formats now frames decimal (exchange a b) v
  computes key a b v c g pa pb =
      let finish = λ (t : List ℕ). store_secret openssl formats now frames decimal t v in
      ap
        (λ r.
          (fail_if now frames (not (is_positive r.0))
                (codes "ECDH_compute_key ret = " ++ decimal r.0) 0x9
              >> store_secret openssl formats now frames decimal (take r.0 r.1))
            v)
        (key_computed key a b c g pa pb)
      ∙ ap
          (λ t.
            (fail_if now frames (not t)
                  (codes "ECDH_compute_key ret = " ++ decimal (length (exchange a b))) 0x9
                >> store_secret openssl formats now frames decimal
                    (take (length (exchange a b)) (exchange a b)))
              v)
          (exchange_positive a b)
      ∙ ap finish (take_all (length (exchange a b)) (exchange a b) (omega arith))

  pub agree_of :
      (key k0 : Key) (a b : Big) (live : List Object) (w : World)
      → IsOnCurve key
      → IsOnCurve k0
      → IsPrivate a
      → IsPrivate b
      → get0_private_key key ≡ some a
      → w.live ≡ ec_key ∷ live
      → (s : Log) × (agree openssl formats now frames decimal (point_to_oct k0 (base b)) key w
          ≡ returned tt (record w {
            live = live;
            requests = w.requests + 1;
            sharedkey = stored (exchange a b);
            log = s;
          }))
  unfolding agree
  agree_of key k0 a b live w c c0 pa pb g e =
      let secret = exchange a b in
      let v = record w { live = ec_point ∷ w.live; requests = w.requests + 1 } in
      let (s, m) =
        message-returned now frames d_info
          (codes "sharedkey = " ∷ chars_to_string formats secret ∷ []) v refl in
      let (s', m') =
        message-returned now frames d_info (codes "sharedkey_md5 = " ∷ stored secret ∷ [])
          (record w { requests = w.requests + 1; log = s }) refl in
      (
        s',
        ran _ _ _ _ _ (allocate-true allocates ec_point w (memory w.requests)) (
            passes _ (base b) (λ n. codes "EC_POINT_oct2point ret = " ++ decimal n) 0x4
              (agree_with openssl formats now frames decimal key) v (point_read key k0 b c c0 pb)
            ∙ computes key a b v c g pa pb
            ∙ ran _ _ _ _ _ m (
                ran _ _ _ _ _ (free_lem ec_point (record v { log = s }) w.live refl) (
                  ran _ _ _ _ _ m' (
                    free_lem ec_key
                      (record w { requests = w.requests + 1; sharedkey = stored secret; log = s' })
                      live (ap (without ec_key) e))))),
      )
