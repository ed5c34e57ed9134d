-- ===== src/PerIpConn/Address.antt =====
-- `ip2uint32` and `uint322ip` of peripconn.go.
use justhttp.Base.{ℕ, ◌+◌, ◌*◌, ◌/◌, ◌%◌, ◌^◌, ◌<◌, ◌≡◌, [], ◌∷◌, arith, All, Bytes, IsByte}

-- The four bytes take disjoint bits.
unfoldable pub ip2uint32 : Bytes → ℕ
ip2uint32 (a ∷ b ∷ c ∷ d ∷ []) = a * 2 ^ 24 + b * 2 ^ 16 + c * 2 ^ 8 + d
ip2uint32 _ = 0

unfoldable pub uint322ip : ℕ → Bytes
uint322ip ip = ip / 2 ^ 24 % 256 ∷ ip / 2 ^ 16 % 256 ∷ ip / 2 ^ 8 % 256 ∷ ip % 256 ∷ []

-- `ip2uint32` and `uint322ip` are inverse to each other on addresses of four bytes and on uint32s.
pub ip2uint32_inverse :
    (a b c d ip : ℕ)
    → All IsByte (a ∷ b ∷ c ∷ d ∷ [])
    → ip < 2 ^ 32
    → (uint322ip (ip2uint32 (a ∷ b ∷ c ∷ d ∷ [])) ≡ a ∷ b ∷ c ∷ d ∷ [])
      × (ip2uint32 (uint322ip ip) ≡ ip)
unfolding ip2uint32 uint322ip
ip2uint32_inverse a b c d ip (ha, (hb, (hc, (hd, _)))) h = (ground arith, omega arith)
