-- ===== src/Crypt/Shared.antt =====
-- Core/src/cryptoutils.cpp: the two functions Gen_Shared_Key.
use ocserver.Common.{
  ℕ, ◌++◌, Bool, true, not, List, [], ◌∷◌, Option, some, length, take, ◌==◌, if◌then◌else◌, codes,
}
use ocserver.Util.{Formats, chars_to_string}
use ocserver.Log.{d_info}
use ocserver.Crypt.{
  M, Openssl, ec_key, ec_point, bignum, pure, gets, result, allocate, free, non_null,
  non_null_object, is_positive, hex_bytes, public_text, private_text, set_publickey, set_privatekey,
  set_sharedkey, message, fail_if, ◌>>=◌, ◌>>◌,
}

module _ (openssl : Openssl) (formats : Formats) (now : List ℕ) (frames : List (List ℕ))
    (decimal : ℕ → List ℕ) where
  open openssl use {
    Key, Point, allocates, new_by_curve_name, set_public_key, set_private_key, get0_public_key,
    get0_private_key, point_mul_null, oct_to_point, point_to_oct, mpi_to_bn, compute_key, md5,
  }

  -- The number for the private key; BN_mpi2bn makes one of its own if it is given a null pointer.
  unfoldable pub load_private : M Key
  load_private = do
    has_number ← allocate allocates bignum
    text ← gets (λ w. w.privatekey)
    bytes ← hex_bytes formats text
    if has_number then pure true else allocate allocates bignum
    fail_if now frames (not has_number) (codes "big number null.") 0x5
    let r = set_private_key new_by_curve_name (some (mpi_to_bn bytes))
    free bignum
    fail_if now frames (not (r.0 == 1)) (codes "EC_KEY_set_private_key failed.") 0x1
    pure r.1

  abbrev pub no_point : Bool → Key → M Point
  no_point has_point key = do
    non_null_object has_point
    let r2 = point_mul_null key
    fail_if now frames (not (r2.0 == 1)) (codes "EC_POINT_mul failed = " ++ decimal r2.0) 0x2
    pure r2.1

  abbrev pub given_point : Bool → Key → List ℕ → M Point
  given_point has_point key text = do
    bytes ← hex_bytes formats text
    non_null_object has_point
    let r1 = oct_to_point key bytes
    fail_if now frames (not (r1.0 == 1)) (codes "EC_POINT_oct2point ret = " ++ decimal r1.0) 0x11
    pure r1.1

  -- The point of the public key that is given; without one EC_POINT_mul is given null pointers only.
  unfoldable pub read_point : Bool → Key → List ℕ → M Point
  read_point has_point key text =
      if length text == 0 then no_point has_point key else given_point has_point key text

  unfoldable pub load_public : Key → M Key
  load_public key = do
    has_point ← allocate allocates ec_point
    text ← gets (λ w. w.publickey)
    point ← read_point has_point key text
    let r3 = set_public_key key (some point)
    fail_if now frames (not (r3.0 == 1)) (codes "EC_KEY_set_public_key ret = " ++ decimal r3.0) 0x3
    free ec_point
    pure r3.1

  -- The secret's digest is stored as text, and the point and the key are freed.
  abbrev pub store_secret : List ℕ → M (Unit {0})
  store_secret bytes = do
    message now frames d_info (codes "sharedkey = " ∷ chars_to_string formats bytes ∷ [])
    free ec_point
    let share_md5hex = chars_to_string formats (take 16 (md5 bytes))
    message now frames d_info (codes "sharedkey_md5 = " ∷ share_md5hex ∷ [])
    set_sharedkey share_md5hex
    free ec_key

  abbrev pub agree_with : Key → Point → M (Unit {0})
  agree_with key peer = do
    let shared = compute_key peer key
    fail_if now frames (not (is_positive shared.0))
        (codes "ECDH_compute_key ret = " ++ decimal shared.0) 0x9
    store_secret (take shared.0 shared.1)

  -- What both functions do with the bytes of the peer's point, from EC_POINT_new to the release of the key.
  unfoldable pub agree : List ℕ → Key → M (Unit {0})
  agree peer_bytes key = do
    has_point ← allocate allocates ec_point
    non_null_object has_point
    let r4 = oct_to_point key peer_bytes
    fail_if now frames (not (r4.0 == 1)) (codes "EC_POINT_oct2point ret = " ++ decimal r4.0) 0x4
    agree_with key r4.1

  -- The part of Gen_Shared_Key of texts behind the loading of the keys.
  unfoldable pub write_and_agree : List ℕ → Key → M (Unit {0})
  write_and_agree peerpub key = do
    pubhex ← public_text openssl formats key
    set_publickey pubhex
    privhex ← private_text openssl formats key
    set_privatekey privhex
    svrpub ← hex_bytes formats peerpub
    agree svrpub key

  -- Gen_Shared_Key of texts, up to `return 0`: `publickey` and `privatekey` are written anew.
  unfoldable pub share_texts : List ℕ → M (Unit {0})
  share_texts peerpub = do
    fail_if now frames (length peerpub == 0) (codes "svrpub can't be empty.") 0x10
    privatekey ← gets (λ w. w.privatekey)
    fail_if now frames (length privatekey == 0) (codes "privatekey can't be empty.") 0x55
    has_key ← allocate allocates ec_key
    fail_if now frames (not has_key) (codes "EC_KEY_new_by_curve_name(NID_secp192k1) failed.") 0x7
    key1 ← load_private
    key ← load_public key1
    write_and_agree peerpub key

  unfoldable pub gen_shared_key : List ℕ → M ℕ
  gen_shared_key peerpub = result (share_texts peerpub >> pure 0)

  -- The part of Gen_Shared_Key of keys behind the loading of both keys, and the part behind the public one.
  abbrev pub agree_point : Option Key → Key → M (Unit {0})
  agree_point s1 key = do
    peer ← non_null s1
    ps1 ← non_null (get0_public_key peer)
    agree (point_to_oct key ps1) key

  abbrev pub set_private_part : Option Key → Option Key → Key → M (Unit {0})
  set_private_part s1 privatekey key = do
    private_part ← non_null privatekey
    let r2 = set_private_key key (get0_private_key private_part)
    fail_if now frames (not (r2.0 == 1)) (codes "EC_KEY_set_private_key ret = " ++ decimal r2.0) 0x2
    agree_point s1 r2.1

  -- Gen_Shared_Key of keys, each a pointer, up to `return 0`. The new key is not tested.
  unfoldable pub share_keys : Option Key → Option Key → Option Key → M (Unit {0})
  share_keys s1 publickey privatekey = do
    has_key ← allocate allocates ec_key
    public_part ← non_null publickey
    non_null_object has_key
    let r1 = set_public_key new_by_curve_name (get0_public_key public_part)
    fail_if now frames (not (r1.0 == 1)) (codes "EC_KEY_set_public_key ret = " ++ decimal r1.0) 0x1
    set_private_part s1 privatekey r1.1

  unfoldable pub gen_shared_key_of : Option Key → Option Key → Option Key → M ℕ
  gen_shared_key_of s1 publickey privatekey = result (share_keys s1 publickey privatekey >> pure 0)
