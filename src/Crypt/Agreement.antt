-- ===== src/Crypt/Agreement.antt =====
-- Core/src/cryptoutils.cpp: two ends that exchange their public keys, and the two functions Gen_Shared_Key.
use ocserver.Common.{ℕ, ◌≡◌, refl, ap, subst, ◌+◌, sym, ◌∙◌, true, List, some}
use ocserver.Util.{Formats, chars_to_string}
use ocserver.Util.RoundTrip.{IsHex, IsText}
use ocserver.Crypt.{World, Outcome, Openssl, returned, ended, and_then, pure}
use ocserver.Crypt.Curve.{IsEcdh, IsPair}
use ocserver.Crypt.Pair.{gen_ecdh_key_pair, get_ec_pubkey_point, get_ec_privkey_bn}
use ocserver.Crypt.Shared.{gen_shared_key, gen_shared_key_of}
use ocserver.Crypt.Runs.{share_texts_of, share_keys_of, make_pair_of}
use ocserver.Crypt.Succeeds.{public_text_of, private_text_of, stored}

module _ (openssl : Openssl) (formats : Formats) (now : List ℕ) (frames : List (List ℕ))
    (decimal : ℕ → List ℕ) (ecdh : IsEcdh openssl) (hex : IsHex formats) (text : IsText formats)
    (memory : (n : ℕ) → openssl.allocates n ≡ true) where
  open openssl use {Key, Big, new_by_curve_name, get0_public_key, get0_private_key, point_to_oct}

  -- The function returns 0, leaves allocated what was, and leaves the texts of the keys and stores the shared
  -- key as told.
  pub record Agrees (publickey privatekey sharedkey : List ℕ) (w : World) (r : Outcome ℕ)
      : Type 0 where
    pub after : World
    pub returns : r ≡ returned 0 after
    pub nothing_left : after.live ≡ w.live
    pub public_kept : after.publickey ≡ publickey
    pub private_kept : after.privatekey ≡ privatekey
    pub shared : after.sharedkey ≡ sharedkey

  secret_text : Big → Big → List ℕ
  secret_text a b =
      stored openssl formats now frames decimal ecdh hex text memory (ecdh.exchange a b)

  secret_text_comm : (a b : Big) → secret_text a b ≡ secret_text b a
  unfolding secret_text
  secret_text_comm a b =
      ap (stored openssl formats now frames decimal ecdh hex text memory) (ecdh.exchange_comm a b)

  -- What a new pair leaves.
  abbrev pair_world : Key → Big → World → World
  pair_world key a w = record w {
    requests = w.requests + 1;
    publickey = chars_to_string formats (point_to_oct key (ecdh.base a));
    privatekey = chars_to_string formats (openssl.bn_to_mpi a);
  }

  -- From the texts of a pair and of the peer's key.
  texts-Agrees :
      (k0 k1 : Key) (a b : Big) (w : World)
      → ecdh.IsOnCurve k0
      → ecdh.IsOnCurve k1
      → ecdh.IsPrivate a
      → ecdh.IsPrivate b
      → w.publickey ≡ chars_to_string formats (point_to_oct k0 (ecdh.base a))
      → w.privatekey ≡ chars_to_string formats (openssl.bn_to_mpi a)
      → Agrees w.publickey w.privatekey (secret_text a b) w (
          gen_shared_key openssl formats now frames decimal
            (chars_to_string formats (point_to_oct k1 (ecdh.base b)))
            w)
  unfolding gen_shared_key secret_text
  texts-Agrees k0 k1 a b w c0 c1 pa pb e q =
      let (s, h) =
        share_texts_of openssl formats now frames decimal ecdh hex text memory k0 k1 a b w c0 c1 pa
          pb e q in
      record {
        after = record w {
          requests = w.requests + 1 + 1 + 1 + 1;
          sharedkey = secret_text a b;
          log = s;
        };
        returns = ap (λ r. ended (and_then r (λ _. pure 0))) h;
        nothing_left = refl;
        public_kept = refl;
        private_kept = refl;
        shared = refl;
      }

  -- Two ends each make a pair of keys with Gen_ECDH_KeyPair and pass the text of their public key to the other's
  -- Gen_Shared_Key: all four calls return 0 and leave nothing allocated, each end keeps the texts of its pair,
  -- and both store the same shared key. Conditions: OpenSSL behaves as documented on the curve, no
  -- allocation fails, the formats are the hexadecimal digits, and each key that OpenSSL generates is a pair.
  pub gen_shared_key-gen_ecdh_key_pair :
      (generate generate' : Key → ℕ × Key) (key key' : Key) (a b : Big) (w w' : World)
      → generate new_by_curve_name ≡ (1, key)
      → generate' new_by_curve_name ≡ (1, key')
      → IsPair openssl ecdh key a
      → IsPair openssl ecdh key' b
      → (v : World) × (v' : World) × (secret : List ℕ) × (gen_ecdh_key_pair openssl formats now
            frames decimal generate w
          ≡ returned 0 v)
        × (gen_ecdh_key_pair openssl formats now frames decimal generate' w' ≡ returned 0 v')
        × (v.live ≡ w.live)
        × (v'.live ≡ w'.live)
        × Agrees v.publickey v.privatekey secret v
            (gen_shared_key openssl formats now frames decimal v'.publickey v)
        × Agrees v'.publickey v'.privatekey secret v'
            (gen_shared_key openssl formats now frames decimal v.publickey v')
  unfolding gen_ecdh_key_pair
  gen_shared_key-gen_ecdh_key_pair generate generate' key key' a b w w' e e' p p' =
      let made =
        λ (g : Key → ℕ × Key) (k : Key) (n : Big) (u : World) (d : g new_by_curve_name ≡ (1, k))
            (i : IsPair openssl ecdh k n).
          make_pair_of openssl formats now frames decimal ecdh hex text memory g k n u d i in
      let finish = λ (r : Outcome (Unit {0})). ended (and_then r (λ _. pure 0)) in
      let v = pair_world key a w in
      let v' = pair_world key' b w' in
      (
        v,
        v',
        secret_text a b,
        ap finish (made generate key a w e p),
        ap finish (made generate' key' b w' e' p'),
        refl,
        refl,
        texts-Agrees key key' a b v p.on_curve p'.on_curve p.private p'.private refl refl,
        subst
            (λ t.
              Agrees v'.publickey v'.privatekey t v'
                (gen_shared_key openssl formats now frames decimal v.publickey v'))
            (secret_text_comm b a)
            (texts-Agrees key' key b a v' p'.on_curve p.on_curve p'.private p.private refl refl),
      )

  inverted : {A : Type 0} (x y : A) (u v : World) → returned x u ≡ returned y v → x ≡ y
  inverted x y u v e = cc e

  -- The two functions Gen_Shared_Key store the same shared key: the one of keys, given the peer's key and a
  -- pair's two parts, and the one of texts, given the texts that getECPubkeyPoint and getECPrivkeyBN make of
  -- those keys. Both return 0, leave nothing allocated and leave the texts as they were. Conditions: OpenSSL
  -- behaves as documented on the curve, no allocation fails, the formats are the hexadecimal digits, and the
  -- keys are of the curve and hold the parts that are read.
  pub gen_shared_key_of-gen_shared_key :
      (s1 public_part private_part : Key) (a b : Big) (peerpub : List ℕ) (w : World)
      → ecdh.IsOnCurve s1
      → ecdh.IsOnCurve public_part
      → ecdh.IsPrivate a
      → ecdh.IsPrivate b
      → get0_public_key s1 ≡ some (ecdh.base b)
      → get0_public_key public_part ≡ some (ecdh.base a)
      → get0_private_key private_part ≡ some a
      → get_ec_pubkey_point openssl formats (some s1) w ≡ returned peerpub w
      → get_ec_pubkey_point openssl formats (some public_part) w ≡ returned w.publickey w
      → get_ec_privkey_bn openssl formats (some private_part) w ≡ returned w.privatekey w
      → (secret : List ℕ) × Agrees w.publickey w.privatekey secret w (
          gen_shared_key_of openssl formats now frames decimal
            (some s1)
            (some public_part)
            (some private_part)
            w)
        × Agrees w.publickey w.privatekey secret w
            (gen_shared_key openssl formats now frames decimal peerpub w)
  unfolding gen_shared_key_of get_ec_pubkey_point get_ec_privkey_bn secret_text
  gen_shared_key_of-gen_shared_key s1 public_part private_part a b peerpub w c c' pa pb e q g t u
        n =
      let (s, h) =
        share_keys_of openssl formats now frames decimal ecdh hex text memory s1 public_part
          private_part a b w pa pb e q g in
      let peer = inverted _ _ w w (
        sym (
          public_text_of openssl formats now frames decimal ecdh hex text memory s1 (ecdh.base b) w
            e)
        ∙ t) in
      let mine = inverted _ _ w w (
        sym (
          public_text_of openssl formats now frames decimal ecdh hex text memory public_part
            (ecdh.base a) w q)
        ∙ u) in
      let secret = inverted _ _ w w (
        sym (
          private_text_of openssl formats now frames decimal ecdh hex text memory private_part a w g
            pa)
        ∙ n) in
      (
        secret_text a b,
        record {
          after = record w { requests = w.requests + 1 + 1; sharedkey = secret_text a b; log = s };
          returns = ap (λ r. ended (and_then r (λ _. pure 0))) h;
          nothing_left = refl;
          public_kept = refl;
          private_kept = refl;
          shared = refl;
        },
        subst
            (λ p.
              Agrees w.publickey w.privatekey (secret_text a b) w
                (gen_shared_key openssl formats now frames decimal p w))
            peer (texts-Agrees public_part s1 a b w c' c pa pb (sym mine) (sym secret)),
      )
