-- ===== src/Wire/Header.antt =====
-- src/net_base.h: `char_to_net_packet` looks at eight bytes and at no more.
use ocserver.Common.{
  ℕ, ◌<◌, ◌^◌, ◌≤◌, ◌≡◌, refl, none, some, List, [], ◌∷◌, ◌++◌, length, take, arith,
}
use ocserver.Wire.{NetPacket, char_to_net_packet}

pub char_to_net_packet-append :
    (xs zs : List ℕ) (p : NetPacket)
    → char_to_net_packet xs ≡ some p
    → char_to_net_packet (xs ++ zs) ≡ some p
unfolding char_to_net_packet
char_to_net_packet-append (a ∷ b ∷ c ∷ d ∷ e ∷ f ∷ g ∷ h ∷ xs) zs p q = q
char_to_net_packet-append _ zs p q = cc

pub char_to_net_packet-length :
    (xs : List ℕ) (p : NetPacket) → char_to_net_packet xs ≡ some p → 8 ≤ length xs
unfolding char_to_net_packet
char_to_net_packet-length (a ∷ b ∷ c ∷ d ∷ e ∷ f ∷ g ∷ h ∷ xs) p q = omega arith
char_to_net_packet-length _ p q = cc

pub char_to_net_packet-some :
    (xs : List ℕ) → 8 ≤ length xs → (p : NetPacket) × (char_to_net_packet xs ≡ some p)
unfolding char_to_net_packet
char_to_net_packet-some (a ∷ b ∷ c ∷ d ∷ e ∷ f ∷ g ∷ h ∷ xs) q = (_, refl)
char_to_net_packet-some [] q = absurd (omega arith)
char_to_net_packet-some _ q = absurd (omega arith)

pub char_to_net_packet-none : (xs : List ℕ) → length xs < 8 → char_to_net_packet xs ≡ none
unfolding char_to_net_packet
char_to_net_packet-none (a ∷ b ∷ c ∷ d ∷ e ∷ f ∷ g ∷ h ∷ xs) q = absurd (omega arith)
char_to_net_packet-none [] q = refl
char_to_net_packet-none _ q = refl

pub char_to_net_packet-take :
    (xs zs : List ℕ) (p : NetPacket)
    → char_to_net_packet xs ≡ some p
    → char_to_net_packet (take 8 xs ++ zs) ≡ some p
unfolding char_to_net_packet
char_to_net_packet-take (a ∷ b ∷ c ∷ d ∷ e ∷ f ∷ g ∷ h ∷ xs) zs p q = q
char_to_net_packet-take _ zs p q = cc

pub char_to_net_packet-datalen_lt :
    (xs : List ℕ) (p : NetPacket) → char_to_net_packet xs ≡ some p → p.datalen < 2 ^ 32
unfolding char_to_net_packet
char_to_net_packet-datalen_lt (a ∷ b ∷ c ∷ d ∷ e ∷ f ∷ g ∷ h ∷ xs) p q = ground arith
char_to_net_packet-datalen_lt _ p q = cc
