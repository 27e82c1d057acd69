-- ===== src/Crypt/Curve.antt =====
-- Core/src/cryptoutils.cpp: what its functions rely on in OpenSSL, on a curve for key agreement.
use ocserver.Common.{ℕ, ◌≤◌, ◌<◌, ◌≡◌, List, some, length, All, true}
use ocserver.Wire.{IsByte}
use ocserver.Crypt.{Openssl, is_positive}

module _ (openssl : Openssl) where
  open openssl use {
    Key, Point, Big, allocates, new_by_curve_name, get0_public_key, get0_private_key,
    set_public_key, set_private_key, oct_to_point, point_to_oct, mpi_to_bn, bn_to_mpi, compute_key,
    md5,
  }

  -- The documented behaviour of the curve: `base b` is the generator times `b`, `exchange a b` the secret of
  -- two private numbers, which does not depend on their order. A private number is one that the curve allows.
  pub record IsEcdh : Type 1 where
    pub IsOnCurve : Key → Type 0
    pub IsPrivate : Big → Type 0
    pub base : Big → Point
    pub exchange : Big → Big → List ℕ
    pub new_is_on_curve : IsOnCurve new_by_curve_name
    pub private_set :
        (k : Key) (b : Big)
        → IsOnCurve k
        → IsPrivate b
        → (k' : Key) × (set_private_key k (some b) ≡ (1, k'))
          × IsOnCurve k'
          × (get0_private_key k' ≡ some b)
    pub public_set :
        (k : Key) (b : Big)
        → IsOnCurve k
        → IsPrivate b
        → (k' : Key) × (set_public_key k (some (base b)) ≡ (1, k'))
          × IsOnCurve k'
          × (get0_public_key k' ≡ some (base b))
          × (get0_private_key k' ≡ get0_private_key k)
    pub point_read :
        (k k' : Key) (b : Big)
        → IsOnCurve k
        → IsOnCurve k'
        → IsPrivate b
        → oct_to_point k (point_to_oct k' (base b)) ≡ (1, base b)
    pub point_written :
        (k k' : Key) (p : Point) → IsOnCurve k → IsOnCurve k' → point_to_oct k p ≡ point_to_oct k' p
    pub number_read : (b : Big) → IsPrivate b → mpi_to_bn (bn_to_mpi b) ≡ b
    pub key_computed :
        (k : Key) (a b : Big)
        → IsOnCurve k
        → get0_private_key k ≡ some a
        → IsPrivate a
        → IsPrivate b
        → compute_key (base b) k ≡ (length (exchange a b), exchange a b)
    pub exchange_comm : (a b : Big) → exchange a b ≡ exchange b a
    pub exchange_positive : (a b : Big) → is_positive (length (exchange a b)) ≡ true
    pub point_bytes :
        (k : Key) (p : Point)
        → All IsByte (point_to_oct k p)
          × (0 < length (point_to_oct k p))
          × (length (point_to_oct k p) ≤ 67)
    pub number_bytes :
        (b : Big)
        → IsPrivate b
        → All IsByte (bn_to_mpi b) × (0 < length (bn_to_mpi b)) × (length (bn_to_mpi b) ≤ 1024)

  -- A key of the curve with the private number `a` and its point.
  pub record IsPair (ecdh : IsEcdh) (key : Key) (a : Big) : Type 0 where
    pub on_curve : ecdh.IsOnCurve key
    pub private : ecdh.IsPrivate a
    pub number : get0_private_key key ≡ some a
    pub point : get0_public_key key ≡ some (ecdh.base a)
