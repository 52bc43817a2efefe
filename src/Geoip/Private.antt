-- ===== src/Geoip/Private.antt =====
-- The private addresses of src/rules/geoip.rs as ranges of 32-bit numbers.
use easynet.Prelude.{ℕ, ◌≤◌, ◌≡◌, ◌↔◌, true, List, [], ◌∷◌, arith, Any}
use easynet.Net.{Ipv4Addr, IsOctets, to_u32}
use easynet.Geoip.{is_private_ip}

-- From the first address of a block to its last.
abbrev pub InBlock : ℕ → ℕ × ℕ → Type 0
InBlock n (first, last) = (first ≤ n) × (n ≤ last)

-- 0.0.0.0, 10/8, 100.64/10, 127/8, 169.254/16, 172.16/12, 192.168/16, 224/4, 255.255.255.255.
abbrev pub private_blocks : List (ℕ × ℕ)
private_blocks =
    (0, 0)
    ∷ (0x0A000000, 0x0AFFFFFF)
    ∷ (0x64400000, 0x647FFFFF)
    ∷ (0x7F000000, 0x7FFFFFFF)
    ∷ (0xA9FE0000, 0xA9FEFFFF)
    ∷ (0xAC100000, 0xAC1FFFFF)
    ∷ (0xC0A80000, 0xC0A8FFFF)
    ∷ (0xE0000000, 0xEFFFFFFF)
    ∷ (0xFFFFFFFF, 0xFFFFFFFF)
    ∷ []

-- An address of four octets counts as private exactly when its number lies in one of the nine
-- blocks.
pub is_private_ip_iff :
    (ip : Ipv4Addr)
    → IsOctets ip
    → (is_private_ip ip ≡ true) ↔ Any (InBlock (to_u32 ip)) private_blocks
unfolding is_private_ip to_u32
is_private_ip_iff ip h = ground arith
