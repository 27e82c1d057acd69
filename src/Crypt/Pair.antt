-- ===== src/Crypt/Pair.antt =====
-- Core/src/cryptoutils.cpp: a new pair of keys, the texts of keys that are given, digests, and keys in PEM.
use ocserver.Common.{
  ℕ, ◌++◌, Bool, true, false, not, List, [], ◌∷◌, Option, none, some, take, ◌==◌, if◌then◌else◌,
  codes,
}
use ocserver.Util.{Formats, c_string}
use ocserver.Log.{d_warning}
use ocserver.Crypt.{
  M, Object, Openssl, ec_key, bio, evp_pkey, returned, pure, result, allocate, free, non_null,
  public_text, private_text, set_publickey, set_privatekey, message, fail_if, ◌>>=◌, ◌>>◌,
}

-- An object that a call of OpenSSL hands over.
abbrev pub hold : Object → M (Unit {0})
hold o w = returned tt (record w { live = o ∷ w.live })

abbrev free_if : Bool → Object → M (Unit {0})
free_if true o = free o
free_if false o = pure tt

module _ (openssl : Openssl) where
  open openssl use {md5}

  -- MD5_string: the digest as a C string.
  unfoldable pub md5_string : List ℕ → List ℕ
  md5_string pwd = c_string (take 16 (md5 pwd))

  -- MD5_vector; the front of an empty vector is undefined.
  unfoldable pub md5_vector : List ℕ → Option (List ℕ)
  md5_vector [] = none
  md5_vector (b ∷ buf) = some (take 16 (md5 (b ∷ buf)))

module _ (openssl : Openssl) (now : List ℕ) (frames : List (List ℕ)) where
  open openssl use {Key, Pkey, allocates, read_public, read_private, get1_ec_key}

  -- A key that was read from PEM, or the null pointer.
  abbrev key_of : List ℕ → Bool → Option Pkey → M (Option Key)
  key_of text has_bio none = do
    free_if has_bio bio
    message now frames d_warning (text ∷ [])
    pure none
  key_of text has_bio (some pkey) = do
    hold evp_pkey
    free_if has_bio bio
    elim (get1_ec_key pkey) [ none ↦ pure tt | some key ↦ hold ec_key ]
    free evp_pkey
    pure (get1_ec_key pkey)

  -- getPubKeyX509: from a BIO that is null nothing is read.
  unfoldable pub get_pub_key_x509 : List ℕ → M (Option Key)
  get_pub_key_x509 cert = do
    has_bio ← allocate allocates bio
    key_of (codes "Error while loading X509 public EC key.") has_bio
        (if has_bio then read_public cert else none)

  unfoldable pub get_priv_key_pkcs8 : List ℕ → M (Option Key)
  get_priv_key_pkcs8 cert = do
    has_bio ← allocate allocates bio
    key_of (codes "Error while loading X509 private EC key.") has_bio
        (if has_bio then read_private cert else none)

module _ (openssl : Openssl) (formats : Formats) where
  open openssl use {Key}

  -- getECPubkeyPoint, of a pointer.
  unfoldable pub get_ec_pubkey_point : Option Key → M (List ℕ)
  get_ec_pubkey_point pubkey = non_null pubkey >>= public_text openssl formats

  unfoldable pub get_ec_privkey_bn : Option Key → M (List ℕ)
  get_ec_privkey_bn privkey = non_null privkey >>= private_text openssl formats

-- `decimal` is std::to_string of an int.
module _ (openssl : Openssl) (formats : Formats) (now : List ℕ) (frames : List (List ℕ))
    (decimal : ℕ → List ℕ) where
  open openssl use {Key, allocates, new_by_curve_name}

  -- The texts of the new key, which is then freed.
  abbrev pub write_pair : Key → M (Unit {0})
  write_pair key = do
    pubhex ← public_text openssl formats key
    set_publickey pubhex
    privhex ← private_text openssl formats key
    set_privatekey privhex
    free ec_key

  -- Gen_ECDH_KeyPair up to `return 0`: both texts are replaced. `generate_key` is what OpenSSL's random
  -- numbers make of a key at this call.
  unfoldable pub make_pair : (Key → ℕ × Key) → M (Unit {0})
  make_pair generate_key = do
    has_key ← allocate allocates ec_key
    fail_if now frames (not has_key) (codes "EC_KEY_new_by_curve_name(NID_secp192k1) failed.") 0x7
    let r5 = generate_key new_by_curve_name
    fail_if now frames (not (r5.0 == 1))
        (codes "EC_KEY_generate_key failed return = " ++ decimal r5.0) 0x55
    write_pair r5.1

  unfoldable pub gen_ecdh_key_pair : (Key → ℕ × Key) → M ℕ
  gen_ecdh_key_pair generate_key = result (make_pair generate_key >> pure 0)
