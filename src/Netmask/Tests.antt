-- ===== src/Netmask/Tests.antt =====
-- Netmasks at concrete values.
use easynet.Prelude.{◌-◌, ◌^◌, ◌≤◌, ◌≡◌, ◌↔◌, refl, ok, err}
use easynet.Net.{octets, v4, to_u32}
use easynet.Netmask.{
  invalid_netmask, netmask_to_prefix_len, smoltcp_prefix_len, leading_ones, count_ones,
  expected_mask,
}
use easynet.Netmask.Masks.{netmask_to_prefix_len_iff}

-- A mask with a gap is refused by one program, and counted by the other.
gap_refused : netmask_to_prefix_len (octets 255 0 255 0) ≡ err invalid_netmask
unfolding netmask_to_prefix_len leading_ones expected_mask to_u32
gap_refused = refl

gap_counted : smoltcp_prefix_len (v4 (octets 255 0 255 0)) ≡ 16
unfolding smoltcp_prefix_len count_ones to_u32
gap_counted = refl

class_c : netmask_to_prefix_len (octets 255 255 255 0) ≡ ok 24
unfolding netmask_to_prefix_len leading_ones expected_mask to_u32
class_c = refl

netmask_to_prefix_len_iff_example :
    (netmask_to_prefix_len (octets 255 255 255 0) ≡ ok 24)
    ↔ ((24 ≤ 32) × (to_u32 (octets 255 255 255 0) ≡ 2 ^ 32 - 2 ^ (32 - 24)))
netmask_to_prefix_len_iff_example = netmask_to_prefix_len_iff (octets 255 255 255 0) 24
