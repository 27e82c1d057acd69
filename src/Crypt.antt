-- ===== src/Crypt.antt =====
-- Core/src/cryptoutils.cpp: the memory of OpenSSL's objects, the strings that are passed by reference, and what
-- the functions of crypt_util share. OpenSSL is an argument.
pub mod Pair
pub mod Shared
pub mod Moves
pub mod Memory
pub mod Curve
pub mod Succeeds
pub mod Runs
pub mod Agreement
pub mod Arrays
mod Tests
use ocserver.Common.{
  ℕ, zero, suc, ◌+◌, ◌-◌, ◌^◌, Bool, true, false, List, [], ◌∷◌, ◌++◌, Option, none, some, length,
  take, leb, ltb, ◌==◌, ◌&&◌, if◌then◌else◌, codes,
}
use ocserver.Log.{Log, logged, thrown, debug_message, d_warning, d_info, d_crypt}
use ocserver.Util.{Formats, string_to_buffer, chars_to_string}

pub data Object : Type 0 where
  ec_key ec_point bignum bio evp_pkey : Object

-- The objects that are allocated, the newest first, how many were asked for so far, the strings that the
-- caller passes by reference, and the log.
pub record World : Type 0 where
  pub live : List Object
  pub requests : ℕ
  pub publickey : List ℕ
  pub privatekey : List ℕ
  pub sharedkey : List ℕ
  pub log : Log

-- What the language leaves undefined: a null pointer where an object is needed, a write or a read behind the
-- end of an array, and the release of what is not there.
pub data Fault : Type 0 where
  null_object out_of_array not_allocated : Fault

-- `exits` is a return statement before the end of a function.
pub data Outcome (A : Type 0) : Type 0 where
  returned : A → World → Outcome A
  exits : ℕ → World → Outcome A
  threw : List ℕ → World → Outcome A
  undefined : Fault → Outcome A

abbrev pub M : Type 0 → Type 0
M A = World → Outcome A

abbrev pub and_then : {A B : Type 0} → Outcome A → (A → M B) → Outcome B
and_then (returned a w) f = f a w
and_then (exits c w) f = exits c w
and_then (threw e w) f = threw e w
and_then (undefined x) f = undefined x

infixl 5 ◌>>=◌ ◌>>◌
abbrev pub ◌>>=◌ : {A B : Type 0} → M A → (A → M B) → M B
◌>>=◌ m f w = and_then (m w) f

abbrev pub ◌>>◌ : {A B : Type 0} → M A → M B → M B
m >> k = m >>= λ _. k

abbrev pub pure : {A : Type 0} → A → M A
pure a w = returned a w

abbrev pub fault : {A : Type 0} → Fault → M A
fault x w = undefined x

abbrev pub gets : {A : Type 0} → (World → A) → M A
gets f w = returned (f w) w

-- The end of a function: what it returned early, it returns.
abbrev pub ended : Outcome ℕ → Outcome ℕ
ended (returned c w) = returned c w
ended (exits c w) = returned c w
ended (threw e w) = threw e w
ended (undefined x) = undefined x

abbrev pub result : M ℕ → M ℕ
result m w = ended (m w)

-- The int -n as a word.
abbrev pub minus : ℕ → ℕ
minus n = 2 ^ 32 - n

-- Whether a word is an int above zero.
abbrev pub is_positive : ℕ → Bool
is_positive n = ltb 0 n && ltb n (2 ^ 31)

abbrev pub set_publickey : List ℕ → M (Unit {0})
set_publickey text w = returned tt (record w { publickey = text })

abbrev pub set_privatekey : List ℕ → M (Unit {0})
set_privatekey text w = returned tt (record w { privatekey = text })

abbrev pub set_sharedkey : List ℕ → M (Unit {0})
set_sharedkey text w = returned tt (record w { sharedkey = text })

-- The contents of EC_KEY, EC_POINT, BIGNUM and EVP_PKEY, and the calls of OpenSSL. `allocates n` is whether the n-th
-- allocation succeeds. A result of type ℕ is an int as its word; the other part is what the call leaves in the
-- object that it is given. A key stands for its group where a call takes that.
pub record Openssl : Type 1 where
  pub Key : Type 0
  pub Point : Type 0
  pub Big : Type 0
  pub Pkey : Type 0
  pub allocates : ℕ → Bool
  pub new_by_curve_name : Key
  pub get0_public_key : Key → Option Point
  pub get0_private_key : Key → Option Big
  pub set_public_key : Key → Option Point → ℕ × Key
  pub set_private_key : Key → Option Big → ℕ × Key
  pub point_mul_null : Key → ℕ × Point
  pub oct_to_point : Key → List ℕ → ℕ × Point
  pub point_to_oct : Key → Point → List ℕ
  pub mpi_to_bn : List ℕ → Big
  pub bn_to_mpi : Big → List ℕ
  pub compute_key : Point → Key → ℕ × List ℕ
  pub md5 : List ℕ → List ℕ
  pub read_public : List ℕ → Option Pkey
  pub read_private : List ℕ → Option Pkey
  pub get1_ec_key : Pkey → Option Key

-- An allocation; false is a null pointer.
unfoldable pub allocate : (ℕ → Bool) → Object → M Bool
allocate allocates o w =
    if allocates w.requests
    then returned true (record w { live = o ∷ w.live; requests = w.requests + 1 })
    else returned false (record w { requests = w.requests + 1 })

abbrev pub same_object : Object → Object → Bool
same_object ec_key ec_key = true
same_object ec_point ec_point = true
same_object bignum bignum = true
same_object bio bio = true
same_object evp_pkey evp_pkey = true
same_object _ _ = false

-- The list without its newest object of that kind.
abbrev pub without : Object → List Object → Option (List Object)
without o [] = none
without o (p ∷ live) =
    if same_object o p
    then some live
    else elim (without o live) [ none ↦ none | some rest ↦ some (p ∷ rest) ]

-- The release of the newest object of a kind: no function holds two of one kind.
unfoldable pub free : Object → M (Unit {0})
free o w = elim (without o w.live) [
  | none ↦ undefined not_allocated
  | some rest ↦ returned tt (record w { live = rest })
]

abbrev pub non_null : {A : Type 0} → Option A → M A
non_null none = fault null_object
non_null (some a) = pure a

-- A point that is null where a call needs one.
abbrev pub non_null_object : Bool → M (Unit {0})
non_null_object true = pure tt
non_null_object false = fault null_object

-- Bytes that go to an array of 1024.
abbrev pub in_array : List ℕ → M (List ℕ)
in_array bytes = if leb (length bytes) 1024 then pure bytes else fault out_of_array

module _ (now : List ℕ) (frames : List (List ℕ)) where
  -- `DebugLog( lev, D_CRYPT ) << c1 << c2 ...`
  unfoldable pub message : ℕ → List (List ℕ) → M (Unit {0})
  message lev chunks w = elim (debug_message now frames lev d_crypt chunks w.log) [
    | logged s ↦ returned tt (record w { log = s })
    | thrown s e ↦ threw e (record w { log = s })
  ]

  -- `if( failed ) { DebugLog( D_WARNING, D_CRYPT ) << text; return -code; }`
  abbrev pub fail_if : Bool → List ℕ → ℕ → M (Unit {0})
  fail_if failed text code =
      if failed then (message d_warning (text ∷ []) >> λ w. exits (minus code) w) else pure tt

-- Text to the bytes in an array of 1024, by the String2Buffer for char pointers.
unfoldable pub hex_bytes : Formats → List ℕ → M (List ℕ)
hex_bytes formats text = in_array (string_to_buffer formats text)

module _ (openssl : Openssl) (formats : Formats) where
  open openssl use {Key, point_to_oct, bn_to_mpi, get0_public_key, get0_private_key}

  -- The text of a key's public part; `point_to_oct` has room for 67 bytes.
  unfoldable pub public_text : Key → M (List ℕ)
  public_text key = do
    point ← non_null (get0_public_key key)
    pure (chars_to_string formats (point_to_oct key point))

  -- The text of a key's private part. BN_bn2mpi is not told how long the array is.
  unfoldable pub private_text : Key → M (List ℕ)
  private_text key = do
    big ← non_null (get0_private_key key)
    bytes ← in_array (bn_to_mpi big)
    pure (chars_to_string formats bytes)
