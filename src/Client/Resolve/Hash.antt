-- ===== src/Client/Resolve/Hash.antt =====
-- The bucket of an address.
use diald_top.Base.{ℕ, ◌<◌, ◌≡◌, refl, true, arith, all_below, all_below_sound, ltb, bit_xor}
use diald_top.Client.Resolve.{InAddr, hash, hashsize}

abbrev pub IsByte : ℕ → Type 0
IsByte c = c < 256

-- Four bytes.
pub record IsAddr (a : InAddr) : Type 0 where
  pub c0 : IsByte a.c0
  pub c1 : IsByte a.c1
  pub c2 : IsByte a.c2
  pub c3 : IsByte a.c3

xor_table : all_below 256 (λ a. all_below 256 (λ b. ltb (bit_xor a b) 256)) ≡ true
unfolding all_below
xor_table = refl

bit_xor-IsByte : (a b : ℕ) → IsByte a → IsByte b → IsByte (bit_xor a b)
bit_xor-IsByte a b p q = ground (
  arith,
  all_below_sound 256 (λ b. ltb (bit_xor a b) 256) b
      (all_below_sound 256 (λ a. all_below 256 (λ b. ltb (bit_xor a b) 256)) a xor_table p) q,
)

-- The hash of an address is an index of `hosthash`.
pub hash_bound : (a : InAddr) → IsAddr a → hash a < hashsize
unfolding hash
hash_bound a h =
    omega (arith, bit_xor-IsByte a.c0 a.c2 h.c0 h.c2, bit_xor-IsByte a.c1 a.c3 h.c1 h.c3)
