-- ===== src/Crypt/Runs.antt =====
-- Core/src/cryptoutils.cpp: whole calls where all that they ask of OpenSSL succeeds.
use ocserver.Common.{
  ℕ, ◌+◌, ◌≡◌, refl, ap, ◌∙◌, sym, Bool, true, false, List, ◌∷◌, ◌++◌, some, length, ◌==◌, codes,
  arith,
}
use ocserver.Util.{Formats, chars_to_string}
use ocserver.Util.RoundTrip.{IsHex, IsText}
use ocserver.Log.{Log}
use ocserver.Crypt.{World, Object, Openssl, returned, ec_key, non_null, fail_if, ◌>>=◌}
use ocserver.Crypt.Moves.{allocate-true, free_lem}
use ocserver.Crypt.Shared.{
  share_texts, set_private_part, agree_point, share_keys, agree, write_and_agree,
}
use ocserver.Crypt.Curve.{IsEcdh, IsPair}
use ocserver.Crypt.Pair.{make_pair, write_pair}
use ocserver.Crypt.Succeeds.{
  ran, passes, hex_bytes_fits, public_text_of, private_text_of, later, load_private_of, text_given,
  load_public_of, stored, agree_of,
}

module _ (openssl : Openssl) (formats : Formats) (now : List ℕ) (frames : List (List ℕ))
    (decimal : ℕ → List ℕ) (ecdh : IsEcdh openssl) (hex : IsHex formats) (text : IsText formats)
    (memory : (n : ℕ) → openssl.allocates n ≡ true) where
  open openssl use {
    Key, Point, Big, allocates, new_by_curve_name, get0_public_key, get0_private_key,
    set_public_key, set_private_key, oct_to_point, point_to_oct, mpi_to_bn, bn_to_mpi, compute_key,
    md5,
  }
  open ecdh use {
    IsOnCurve, IsPrivate, base, exchange, new_is_on_curve, private_set, public_set, point_read,
    point_written, number_read, key_computed, exchange_comm, exchange_positive, point_bytes,
    number_bytes,
  }

  not_failed :
      (failed : Bool) (message_text : List ℕ) (code : ℕ) (w : World)
      → failed ≡ false
      → fail_if now frames failed message_text code w ≡ returned tt w
  not_failed failed message_text code w e = ap (λ b. fail_if now frames b message_text code w) e

  write_and_agree_of :
      (key k0 : Key) (a b : Big) (live : List Object) (w : World)
      → IsOnCurve key
      → IsOnCurve k0
      → IsPrivate a
      → IsPrivate b
      → get0_private_key key ≡ some a
      → get0_public_key key ≡ some (base a)
      → w.live ≡ ec_key ∷ live
      → (s : Log) × (write_and_agree openssl formats now frames decimal
            (chars_to_string formats (point_to_oct k0 (base b)))
            key
            w
          ≡ returned tt (record w {
            live = live;
            requests = w.requests + 1;
            publickey = chars_to_string formats (point_to_oct key (base a));
            privatekey = chars_to_string formats (bn_to_mpi a);
            sharedkey =
                stored openssl formats now frames decimal ecdh hex text memory (exchange a b);
            log = s;
          }))
  unfolding write_and_agree
  write_and_agree_of key k0 a b live w c c0 pa pb g q e =
      let (bytes, more, few) = point_bytes k0 (base b) in
      let v = record w { publickey = chars_to_string formats (point_to_oct key (base a)) } in
      let u = record v { privatekey = chars_to_string formats (bn_to_mpi a) } in
      let (s, h) =
        agree_of openssl formats now frames decimal ecdh hex text memory key k0 a b live u c c0 pa
          pb g e in
      (
        s,
        ran _ _ _ _ _
            (public_text_of openssl formats now frames decimal ecdh hex text memory key (base a) w
              q)
            (ran _ _ _ _ _
              (private_text_of openssl formats now frames decimal ecdh hex text memory key a v g pa)
              (ran _ _ _ _ _
                (hex_bytes_fits openssl formats now frames decimal ecdh hex text memory
                  (point_to_oct k0 (base b)) u bytes (omega arith))
                h)),
      )

  -- Gen_Shared_Key of texts that stand for a pair of keys and the peer's public key.
  pub share_texts_of :
      (k0 k1 : Key) (a b : Big) (w : World)
      → IsOnCurve k0
      → IsOnCurve k1
      → IsPrivate a
      → IsPrivate b
      → w.publickey ≡ chars_to_string formats (point_to_oct k0 (base a))
      → w.privatekey ≡ chars_to_string formats (bn_to_mpi a)
      → (s : Log) × (share_texts openssl formats now frames decimal
            (chars_to_string formats (point_to_oct k1 (base b)))
            w
          ≡ returned tt (record w {
            requests = w.requests + 1 + 1 + 1 + 1;
            sharedkey =
                stored openssl formats now frames decimal ecdh hex text memory (exchange a b);
            log = s;
          }))
  unfolding share_texts
  share_texts_of k0 k1 a b w c0 c1 pa pb e q =
      let point = point_bytes k1 (base b) in
      let number = number_bytes a pa in
      let w1 = record w { live = ec_key ∷ w.live; requests = w.requests + 1 } in
      let (key1, l1, d1, g1) =
        load_private_of openssl formats now frames decimal ecdh hex text memory a w1 pa q in
      let (key, l, d, g, h) =
        load_public_of openssl formats now frames decimal ecdh hex text memory key1 a k0
          (later openssl formats now frames decimal ecdh hex text memory 1 w1) d1 c0 pa e in
      let (s, l2) =
        write_and_agree_of key k1 a b w.live
          (later openssl formats now frames decimal ecdh hex text memory 1
            (later openssl formats now frames decimal ecdh hex text memory 1 w1))
          d c1 pa pb (h ∙ g1) g refl in
      (
        s,
        ran _ _ _ _ _
            (not_failed _ (codes "svrpub can't be empty.") 0x10 w (
              text_given openssl formats now frames decimal ecdh hex text memory
                (point_to_oct k1 (base b)) point.0 point.1))
            (ran _ _ _ _ _
              (not_failed _ (codes "privatekey can't be empty.") 0x55 w (
                ap (λ t. length t == 0) q
                ∙ text_given openssl formats now frames decimal ecdh hex text memory (bn_to_mpi a)
                    number.0 number.1))
              (ran _ _ _ _ _ (allocate-true allocates ec_key w (memory w.requests)) (
                ran _ _ _ _ _ l1 (
                  ran _ _ _ _ _ l (
                    l2
                    ∙ ap
                        (λ t. returned tt (record w {
                          requests = w.requests + 1 + 1 + 1 + 1;
                          publickey = t;
                          privatekey = chars_to_string formats (bn_to_mpi a);
                          sharedkey =
                              stored openssl formats now frames decimal ecdh hex text memory
                                (exchange a b);
                          log = s;
                        }))
                        (ap (chars_to_string formats) (point_written key k0 (base a) d c0) ∙ sym e)
                    ∙ ap
                        (λ t. returned tt (record w {
                          requests = w.requests + 1 + 1 + 1 + 1;
                          privatekey = t;
                          sharedkey =
                              stored openssl formats now frames decimal ecdh hex text memory
                                (exchange a b);
                          log = s;
                        }))
                        (sym q)))))),
      )

  -- Gen_Shared_Key of keys; the peer's key may be of any curve, since only its point is read.
  pub share_keys_of :
      (s1 public_part private_part : Key) (a b : Big) (w : World)
      → IsPrivate a
      → IsPrivate b
      → get0_public_key s1 ≡ some (base b)
      → get0_public_key public_part ≡ some (base a)
      → get0_private_key private_part ≡ some a
      → (s : Log) × (share_keys openssl formats now frames decimal
            (some s1)
            (some public_part)
            (some private_part)
            w
          ≡ returned tt (record w {
            requests = w.requests + 1 + 1;
            sharedkey =
                stored openssl formats now frames decimal ecdh hex text memory (exchange a b);
            log = s;
          }))
  unfolding share_keys
  share_keys_of s1 public_part private_part a b w pa pb e q g =
      let w1 = record w { live = ec_key ∷ w.live; requests = w.requests + 1 } in
      let (k1, s, c1, _, _) = public_set new_by_curve_name a new_is_on_curve pa in
      let (k2, s', c2, g2) = private_set k1 a c1 pa in
      let (l, h) =
        agree_of openssl formats now frames decimal ecdh hex text memory k2 k2 a b w.live w1 c2 c2
          pa pb g2 refl in
      (
        l,
        ran _ _ _ _ _ (allocate-true allocates ec_key w (memory w.requests)) (
            passes openssl formats now frames decimal ecdh hex text memory _ k1
              (λ n. codes "EC_KEY_set_public_key ret = " ++ decimal n) 0x1
              (set_private_part openssl formats now frames decimal (some s1) (some private_part)) w1
              (ap (set_public_key new_by_curve_name) q ∙ s)
            ∙ passes openssl formats now frames decimal ecdh hex text memory _ k2
                (λ n. codes "EC_KEY_set_private_key ret = " ++ decimal n) 0x2
                (agree_point openssl formats now frames decimal (some s1)) w1
                (ap (set_private_key k1) g ∙ s')
            ∙ ap
                (λ o.
                  (non_null o >>= λ ps1.
                  agree openssl formats now frames decimal (point_to_oct k2 ps1) k2)
                    w1)
                e
            ∙ h),
      )

  pub make_pair_of :
      (generate_key : Key → ℕ × Key) (key : Key) (a : Big) (w : World)
      → generate_key new_by_curve_name ≡ (1, key)
      → IsPair openssl ecdh key a
      → make_pair openssl formats now frames decimal generate_key w
        ≡ returned tt (record w {
          requests = w.requests + 1;
          publickey = chars_to_string formats (point_to_oct key (base a));
          privatekey = chars_to_string formats (bn_to_mpi a);
        })
  unfolding make_pair
  make_pair_of generate_key key a w e p =
      let w1 = record w { live = ec_key ∷ w.live; requests = w.requests + 1 } in
      let w2 = record w1 { publickey = chars_to_string formats (point_to_oct key (base a)) } in
      ran _ _ _ _ _ (allocate-true allocates ec_key w (memory w.requests)) (
        passes openssl formats now frames decimal ecdh hex text memory _ key
          (λ n. codes "EC_KEY_generate_key failed return = " ++ decimal n) 0x55
          (write_pair openssl formats now frames decimal) w1 e
        ∙ ran _ _ _ _ _
            (public_text_of openssl formats now frames decimal ecdh hex text memory key (base a) w1
              p.point)
            (ran _ _ _ _ _
              (private_text_of openssl formats now frames decimal ecdh hex text memory key a w2
                p.number p.private)
              (free_lem ec_key (record w2 { privatekey = chars_to_string formats (bn_to_mpi a) })
                w.live refl)))
