-- ===== src/Listeners/WsProtocol/Bytes.antt =====
-- provider_simulator/listeners/ws_protocol.py: `^` on bytes, and what struct packs and unpacks.
use provider_simulator.Base.{
  ℕ, zero, suc, ◌+◌, ◌*◌, ◌/◌, ◌%◌, ◌^◌, ◌≤◌, ◌<◌, ◌≡◌, refl, ◌∙◌, List, [], ◌∷◌, ◌++◌, arith,
  length, nat_eq, if◌then◌else◌, length-append,
}

-- bytes[i], for an index that is there
abbrev pub nth : List ℕ → ℕ → ℕ
nth [] i = 0
nth (b ∷ bs) zero = b
nth (b ∷ bs) (suc i) = nth bs i

-- a ^ b, on the lowest bits
unfoldable pub xor : ℕ → ℕ → ℕ → ℕ
xor zero a b = 0
xor (suc bits) a b = (if nat_eq (a % 2) (b % 2) then 0 else 1) + 2 * xor bits (a / 2) (b / 2)

-- struct.pack of a number in so many bytes, the highest first
unfoldable pub be_bytes : ℕ → ℕ → List ℕ
be_bytes zero n = []
be_bytes (suc k) n = be_bytes k (n / 256) ++ n % 256 ∷ []

unfoldable pub from_be_onto : ℕ → List ℕ → ℕ
from_be_onto high [] = high
from_be_onto high (b ∷ bs) = from_be_onto (high * 256 + b) bs

-- struct.unpack
unfoldable pub from_be : List ℕ → ℕ
from_be bytes = from_be_onto 0 bytes

from_be_onto_append :
    (high : ℕ) (bs : List ℕ) (b : ℕ)
    → from_be_onto high (bs ++ b ∷ []) ≡ from_be_onto high bs * 256 + b
unfolding from_be_onto
from_be_onto_append high [] b = refl
from_be_onto_append high (c ∷ bs) b = from_be_onto_append (high * 256 + c) bs b

pub length-be_bytes : (k n : ℕ) → length (be_bytes k n) ≡ k
unfolding be_bytes
length-be_bytes zero n = refl
length-be_bytes (suc k) n =
    omega (arith, length-append (be_bytes k (n / 256)) (n % 256 ∷ []), length-be_bytes k (n / 256))

pub from_be-be_bytes : (k n : ℕ) → n < 256 ^ k → from_be (be_bytes k n) ≡ n
unfolding from_be be_bytes from_be_onto
from_be-be_bytes zero n h = omega arith
from_be-be_bytes (suc k) n h =
    from_be_onto_append 0 (be_bytes k (n / 256)) (n % 256)
    ∙ omega (arith, from_be-be_bytes k (n / 256) (omega arith))

xor_digit :
    (bits d r b : ℕ)
    → d ≤ 1
    → xor (suc bits) (d + 2 * r) b ≡ (if nat_eq d (b % 2) then 0 else 1) + 2 * xor bits r (b / 2)
unfolding xor
xor_digit bits d r b h =
    let low : (d + 2 * r) % 2 ≡ d = omega (arith, h) in
    let high : (d + 2 * r) / 2 ≡ r = omega (arith, h) in rw (low, high) refl

-- A byte that was masked twice is itself again.
pub xor-xor : (bits a b : ℕ) → a < 2 ^ bits → xor bits (xor bits a b) b ≡ a
unfolding xor
xor-xor zero a b h = omega arith
xor-xor (suc bits) a b h =
    xor_digit bits (if nat_eq (a % 2) (b % 2) then 0 else 1) (xor bits (a / 2) (b / 2)) b
      (ground arith)
    ∙ ground (arith, xor-xor bits (a / 2) (b / 2) (omega arith))

pub xor_bounded : (bits a b : ℕ) → xor bits a b < 2 ^ bits
unfolding xor
xor_bounded zero a b = omega arith
xor_bounded (suc bits) a b = ground (arith, xor_bounded bits (a / 2) (b / 2))
