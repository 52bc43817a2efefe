-- ===== src/Netmask.antt =====
-- The prefix lengths of netmasks: `netmask_to_prefix_len` and `prefix_to_netmask` of
-- src/bin/transparent-proxy.rs, and the count of `create_smoltcp_net` in src/transparent_proxy/mod.rs.
pub mod Masks
pub mod Tests
use easynet.Prelude.{
  ℕ, zero, suc, ◌+◌, ◌-◌, ◌*◌, ◌/◌, ◌%◌, ◌^◌, ◌==◌, leb, ltb, if◌then◌else◌, Bool, Result, ok, err,
}
use easynet.Net.{Ipv4Addr, octets, IpAddr, v4, v6, to_u32}

-- `leading_ones` and `count_ones` of a number of so many bits, highest bit first.
unfoldable pub leading_ones : ℕ → ℕ → ℕ
leading_ones zero n = 0
leading_ones (suc k) n =
    let more = leading_ones k (n - 2 ^ k) in if leb (2 ^ k) n then 1 + more else 0

unfoldable pub count_ones : ℕ → ℕ → ℕ
count_ones zero n = 0
count_ones (suc k) n = count_ones k (n % 2 ^ k) + (n / 2 ^ k) % 2

-- `u32::MAX << shift`, for a shift below 32.
abbrev pub shifted_ones : ℕ → ℕ
shifted_ones shift = ((2 ^ 32 - 1) * 2 ^ shift) % 2 ^ 32

-- The mask of a prefix length, as both functions write it.
unfoldable pub expected_mask : ℕ → ℕ
expected_mask prefix_len = if prefix_len == 0 then 0 else shifted_ones (32 - prefix_len)

pub data NetmaskError : Type 0 where
  invalid_netmask invalid_prefix_length : NetmaskError

unfoldable pub netmask_to_prefix_len : Ipv4Addr → Result ℕ NetmaskError
unfolding to_u32 leading_ones expected_mask
netmask_to_prefix_len netmask =
    let bits = to_u32 netmask in
    let prefix_len = leading_ones 32 bits in
    if bits == expected_mask prefix_len then ok prefix_len else err invalid_netmask

-- `Ipv4Addr::from`.
abbrev pub from_u32 : ℕ → Ipv4Addr
from_u32 n = octets ((n / 2 ^ 24) % 256) ((n / 2 ^ 16) % 256) ((n / 2 ^ 8) % 256) (n % 256)

unfoldable pub prefix_to_netmask : ℕ → Result Ipv4Addr NetmaskError
unfolding expected_mask
prefix_to_netmask prefix_len =
    if ltb 32 prefix_len
    then err invalid_prefix_length
    else ok (from_u32 (expected_mask prefix_len))

-- The prefix length that `create_smoltcp_net` gives its network.
unfoldable pub smoltcp_prefix_len : IpAddr → ℕ
unfolding to_u32 count_ones
smoltcp_prefix_len (v4 mask) = count_ones 32 (to_u32 mask)
smoltcp_prefix_len (v6 mask) = count_ones 128 mask
