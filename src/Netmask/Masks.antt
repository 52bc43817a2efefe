-- ===== src/Netmask/Masks.antt =====
-- Netmasks and prefix lengths determine each other.
use easynet.Prelude.{
  ℕ, zero, suc, ◌-◌, ◌^◌, ◌<◌, ◌≤◌, ◌==◌, ◌≡◌, refl, sym, ◌∙◌, ap, ◌↔◌, arith, Bool, true, false,
  ◌&&◌, Result, ok, err, if◌then◌else◌, subst, and_split, ==_iff, ok_inj, le→leb, Bool-cases, inl,
  inr,
}
use easynet.Net.{Ipv4Addr, v4, to_u32}
use easynet.Netmask.{
  NetmaskError, leading_ones, count_ones, expected_mask, invalid_netmask, netmask_to_prefix_len,
  from_u32, prefix_to_netmask, smoltcp_prefix_len,
}

-- A test at each number below a bound.
abbrev all_below : (ℕ → Bool) → ℕ → Bool
all_below p zero = true
all_below p (suc n) = all_below p n && p n

all_below-at : (p : ℕ → Bool) (n k : ℕ) → all_below p n ≡ true → k < n → p k ≡ true
all_below-at p zero k h lt = ground arith
all_below-at p (suc n) k h lt =
    let (before, here) = and_split (all_below p n) (p n) h in
    elim (Bool-cases (k == n)) [
      | inl e ↦ subst (λ j. p j ≡ true) (sym ((==_iff k n).0 e)) here
      | inr e ↦ all_below-at p n k before (ground (arith, e))
    ]

-- What holds of the mask of each prefix length.
good : ℕ → Bool
good p =
    (leading_ones 32 (expected_mask p) == p)
    && ((count_ones 32 (expected_mask p) == p)
        && ((to_u32 (from_u32 (expected_mask p)) == expected_mask p)
            && (expected_mask p == 2 ^ 32 - 2 ^ (32 - p))))

all_good : all_below good 33 ≡ true
unfolding good leading_ones count_ones expected_mask to_u32
all_good = refl

record Consistent (p : ℕ) : Type 0 where
  leading : leading_ones 32 (expected_mask p) ≡ p
  counted : count_ones 32 (expected_mask p) ≡ p
  kept : to_u32 (from_u32 (expected_mask p)) ≡ expected_mask p
  value : expected_mask p ≡ 2 ^ 32 - 2 ^ (32 - p)

good-Consistent : (p : ℕ) → good p ≡ true → Consistent p
unfolding good
good-Consistent p h = record {
  leading = ground arith;
  counted = ground arith;
  kept = ground arith;
  value = ground arith;
}

expected_mask-Consistent : (p : ℕ) → p ≤ 32 → Consistent p
expected_mask-Consistent p le = good-Consistent p (all_below-at good 33 p all_good (omega arith))

leading_ones_le : (k n : ℕ) → leading_ones k n ≤ k
unfolding leading_ones
leading_ones_le zero n = omega arith
leading_ones_le (suc k) n = ground (arith, leading_ones_le k (n - 2 ^ k))

accepted :
    (bits p : ℕ) (b : Bool)
    → (bits == expected_mask (leading_ones 32 bits)) ≡ b
    → ◌≡◌ {A = Result ℕ NetmaskError}
        (if b then ok (leading_ones 32 bits) else err invalid_netmask)
        (ok p)
    → (p ≤ 32) × (bits ≡ 2 ^ 32 - 2 ^ (32 - p))
accepted bits p false e h = cc
accepted bits p true e h =
    let same : leading_ones 32 bits ≡ p = ok_inj h in
    let le : p ≤ 32 = subst (λ n. n ≤ 32) same (leading_ones_le 32 bits) in
    (le, (==_iff _ _).0 e ∙ ap expected_mask same ∙ (expected_mask-Consistent p le).value)

-- The netmasks that are accepted with a prefix length are those of so many ones and then zeros.
pub netmask_to_prefix_len_iff :
    (netmask : Ipv4Addr) (p : ℕ)
    → (netmask_to_prefix_len netmask ≡ ok p) ↔ ((p ≤ 32) × (to_u32 netmask ≡ 2 ^ 32 - 2 ^ (32 - p)))
unfolding netmask_to_prefix_len
netmask_to_prefix_len_iff netmask p = (accepted (to_u32 netmask) p _ refl, back)
  where
    back :
        (p ≤ 32) × (to_u32 netmask ≡ 2 ^ 32 - 2 ^ (32 - p)) → netmask_to_prefix_len netmask ≡ ok p
    back (le, e) =
        let k = expected_mask-Consistent p le in
        rw (e ∙ sym k.value, k.leading, (==_iff (expected_mask p) (expected_mask p)).1 refl) refl

-- A prefix length of at most 32 bits has a netmask, and is got back from it.
pub netmask_to_prefix_len-prefix_to_netmask :
    (p : ℕ)
    → p ≤ 32
    → (m : Ipv4Addr) × (prefix_to_netmask p ≡ ok m) × (netmask_to_prefix_len m ≡ ok p)
unfolding prefix_to_netmask
netmask_to_prefix_len-prefix_to_netmask p le =
    let k = expected_mask-Consistent p le in
    (
      from_u32 (expected_mask p),
      ground (arith, le→leb p 32 le),
      (netmask_to_prefix_len_iff _ p).1 (le, k.kept ∙ k.value),
    )

-- Where the transparent proxy program accepts a netmask, the proxy that the tunnel starts gives its
-- network the same prefix length.
pub smoltcp_prefix_len-netmask_to_prefix_len :
    (netmask : Ipv4Addr) (p : ℕ)
    → netmask_to_prefix_len netmask ≡ ok p
    → smoltcp_prefix_len (v4 netmask) ≡ p
unfolding smoltcp_prefix_len
smoltcp_prefix_len-netmask_to_prefix_len netmask p h =
    let (le, e) = (netmask_to_prefix_len_iff netmask p).0 h in
    let k = expected_mask-Consistent p le in rw (e ∙ sym k.value) k.counted
