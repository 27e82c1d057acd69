-- ===== src/Crypt/Tests.antt =====
-- Core/src/cryptoutils.cpp: a toy curve of numbers below 256.
use ocserver.Common.{
  ℕ, zero, suc, ◌*◌, ◌%◌, ◌<◌, ◌≡◌, refl, true, false, List, [], ◌∷◌, Option, none, some, All,
  length, ap, ◌≤◌, codes, arith,
}
use ocserver.Util.{chars_to_string, string_to_buffer}
use ocserver.Util.Digits.{formats, formats-IsHex, formats-IsText}
use ocserver.Log.{Log, debug_message, is_logged}
use ocserver.Crypt.{
  allocate, free, message, hex_bytes, public_text, private_text, Openssl, World, returned,
  undefined, out_of_array, bio,
}
use ocserver.Crypt.Curve.{IsEcdh, IsPair}
use ocserver.Crypt.Pair.{
  gen_ecdh_key_pair, get_ec_pubkey_point, get_ec_privkey_bn, md5_string, get_pub_key_x509,
}
use ocserver.Crypt.Shared.{
  share_texts, load_private, load_public, read_point, write_and_agree, agree, gen_shared_key,
  gen_shared_key_of,
}
use ocserver.Crypt.Memory.{Accounts, gen_shared_key-Accounts}
use ocserver.Crypt.Agreement.{
  Agrees, gen_shared_key-gen_ecdh_key_pair, gen_shared_key_of-gen_shared_key,
}
use ocserver.Crypt.Arrays.{gen_shared_key_overflows}

-- The public and the private part; what the curve computes is a product.
abbrev ToyKey : Type 0
ToyKey = Option ℕ × Option ℕ

abbrev product : Option ℕ → ℕ → ℕ × List ℕ
product none p = (0, [])
product (some a) p = (1, (a * p) % 256 ∷ [])

abbrev first : List ℕ → ℕ
first [] = 0
first (b ∷ bytes) = b

abbrev toy : Openssl
toy = record {
  Key = ToyKey;
  Point = ℕ;
  Big = ℕ;
  Pkey = ℕ;
  allocates = λ n. true;
  new_by_curve_name = (none, none);
  get0_public_key = λ k. k.0;
  get0_private_key = λ k. k.1;
  set_public_key = λ k p. (1, (p, k.1));
  set_private_key = λ k b. (1, (k.0, b));
  point_mul_null = λ k. (1, 0);
  oct_to_point = λ k bytes. (1, first bytes);
  point_to_oct = λ k p. p % 256 ∷ [];
  mpi_to_bn = first;
  bn_to_mpi = λ b. b % 256 ∷ [];
  compute_key = λ p k. product k.1 p;
  md5 = λ bytes. bytes;
  read_public = λ text. none;
  read_private = λ text. none;
  get1_ec_key = λ p. none;
}

small :
    (p : ℕ)
    → All (λ b. b < 256) (p % 256 ∷ []) × (0 < length (p % 256 ∷ [])) × (length (p % 256 ∷ []) ≤ 67)
small p = ((omega arith, tt), omega arith, omega arith)

same_secret : (a b : ℕ) → ◌≡◌ {A = List ℕ} ((a * b) % 256 ∷ []) ((b * a) % 256 ∷ [])
same_secret a b = ap (λ n. n % 256 ∷ []) (grind arith)

abbrev toy-IsEcdh : IsEcdh toy
toy-IsEcdh = record {
  IsOnCurve = λ k. Unit {0};
  IsPrivate = λ b. b < 256;
  base = λ b. b;
  exchange = λ a b. (a * b) % 256 ∷ [];
  new_is_on_curve = tt;
  private_set = λ k b c p. ((k.0, some b), refl, tt, refl);
  public_set = λ k b c p. ((some b, k.1), refl, tt, refl, refl);
  point_read = λ k k' b c c' p. ap (λ n. (1, n)) (omega arith);
  point_written = λ k k' p c c'. refl;
  number_read = λ b p. omega arith;
  key_computed = λ k a b c e pa pb. ap (λ o. product o b) e;
  exchange_comm = same_secret;
  exchange_positive = λ a b. refl;
  point_bytes = λ k p. small p;
  number_bytes = λ b p. ((omega arith, tt), omega arith, omega arith);
}

abbrev quiet_log : Log
quiet_log = record {
  debug_level = 0;
  debug_class = 0;
  dir = 0;
  file_open = false;
  file = [];
  cout = [];
  cerr = [];
}

-- A world with texts of keys.
abbrev holding : List ℕ → List ℕ → World
holding public_text private_text = record {
  live = bio ∷ [];
  requests = 0;
  publickey = public_text;
  privatekey = private_text;
  sharedkey = [];
  log = quiet_log;
}

abbrev digits : ℕ → List ℕ
digits n = []

abbrev pair_of : ℕ → ToyKey
pair_of a = (some a, some a)

pair_of-IsPair : (a : ℕ) → a < 256 → IsPair toy toy-IsEcdh (pair_of a) a
pair_of-IsPair a h = record { on_curve = tt; private = h; number = refl; point = refl }

-- The ends have the numbers 7 and 40.
gen_shared_key-gen_ecdh_key_pair_example :
    (v : World) × (v' : World) × (secret : List ℕ) × (gen_ecdh_key_pair toy formats [] [] digits
        (λ k. (1, pair_of 7))
        (holding [] [])
      ≡ returned 0 v)
    × (gen_ecdh_key_pair toy formats [] [] digits (λ k. (1, pair_of 40)) (holding [] [])
        ≡ returned 0 v')
    × (v.live ≡ bio ∷ [])
    × (v'.live ≡ bio ∷ [])
    × Agrees toy formats [] [] digits toy-IsEcdh formats-IsHex formats-IsText
        (λ n. refl)
        v.publickey
        v.privatekey
        secret
        v
        (gen_shared_key toy formats [] [] digits v'.publickey v)
    × Agrees toy formats [] [] digits toy-IsEcdh formats-IsHex formats-IsText
        (λ n. refl)
        v'.publickey
        v'.privatekey
        secret
        v'
        (gen_shared_key toy formats [] [] digits v.publickey v')
gen_shared_key-gen_ecdh_key_pair_example =
    gen_shared_key-gen_ecdh_key_pair toy formats [] [] digits toy-IsEcdh formats-IsHex
      formats-IsText (λ n. refl) (λ k. (1, pair_of 7)) (λ k. (1, pair_of 40)) (pair_of 7)
      (pair_of 40) 7 40 (holding [] []) (holding [] []) refl refl (pair_of-IsPair 7 (omega arith))
      (pair_of-IsPair 40 (omega arith))

abbrev ends : World
ends = holding (codes "07") (codes "07")

gen_shared_key_of-gen_shared_key_example :
    (secret : List ℕ) × Agrees toy formats [] [] digits toy-IsEcdh formats-IsHex formats-IsText
      (λ n. refl)
      (codes "07")
      (codes "07")
      secret
      ends
      (gen_shared_key_of toy formats [] [] digits
        (some (some 40, none))
        (some (some 7, none))
        (some (none, some 7))
        ends)
    × Agrees toy formats [] [] digits toy-IsEcdh formats-IsHex formats-IsText
        (λ n. refl)
        (codes "07")
        (codes "07")
        secret
        ends
        (gen_shared_key toy formats [] [] digits (codes "28") ends)
unfolding get_ec_pubkey_point get_ec_privkey_bn public_text chars_to_string private_text
gen_shared_key_of-gen_shared_key_example =
    gen_shared_key_of-gen_shared_key toy formats [] [] digits toy-IsEcdh formats-IsHex
      formats-IsText (λ n. refl) (some 40, none) (some 7, none) (none, some 7) 7 40 (codes "28")
      ends tt tt (omega arith) (omega arith) refl refl refl refl refl refl

gen_shared_key-Accounts_example :
    Accounts (bio ∷ []) (gen_shared_key toy formats [] [] digits (codes "28") ends)
gen_shared_key-Accounts_example = gen_shared_key-Accounts toy formats [] [] digits (codes "28") ends

abbrev zeros : ℕ → List ℕ
zeros zero = []
zeros (suc n) = 48 ∷ zeros n

length-zeros : (n : ℕ) → length (zeros n) ≡ n
length-zeros zero = refl
length-zeros (suc n) = ap suc (length-zeros n)

gen_shared_key_overflows_example :
    gen_shared_key toy formats [] [] digits (codes "28") (holding (codes "07") (zeros 2050))
    ≡ undefined out_of_array
gen_shared_key_overflows_example =
    gen_shared_key_overflows toy formats [] [] digits (codes "28")
      (holding (codes "07") (zeros 2050)) (omega arith) (ap (λ n. n % 2) (length-zeros 2050))
      (omega (arith, length-zeros 2050)) refl

-- A private key without a public one gives the text of the point at infinity.
no_public_run :
    elim (gen_shared_key toy formats [] [] digits (codes "28") (holding [] (codes "07"))) [
      | returned c w ↦ w.publickey
      | _ ↦ []
    ]
    ≡ codes "00"
unfolding gen_shared_key share_texts allocate load_private hex_bytes string_to_buffer free
    load_public read_point write_and_agree public_text private_text agree message debug_message
    is_logged chars_to_string
no_public_run = refl

-- A digest that begins with a zero byte.
md5_string_run : md5_string toy (0 ∷ 5 ∷ []) ≡ []
unfolding md5_string
md5_string_run = refl

get_pub_key_x509_run :
    elim (get_pub_key_x509 toy [] [] (codes "none") (holding [] [])) [
      | returned c w ↦ w.live
      | _ ↦ []
    ]
    ≡ bio ∷ []
unfolding get_pub_key_x509 allocate free message debug_message is_logged
get_pub_key_x509_run = refl
