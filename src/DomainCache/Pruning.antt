-- ===== src/DomainCache/Pruning.antt =====
-- What `DomainCache::lookup` of src/rules/domain_cache.rs answers, and that the removal of expired
-- entries is never seen.
use easynet.Prelude.{
  ℕ, ◌<◌, ◌≤◌, ◌≡◌, refl, ap, sym, ◌∙◌, ◌↔◌, true, false, Option, none, some, List, [], ◌∷◌, arith,
  if◌then◌else◌, Bool-cases, inl, inr, Any, is_empty, Option-cases,
}
use easynet.Text.{Text, text_eq, text_eq_iff}
use easynet.Assoc.{get, insert, remove, get-insert, get-remove}
use easynet.Net.{Ipv4Addr, ipv4_eq, ipv4_eq_iff, ipv4_key}
use easynet.DomainCache.{DomainEntry, DomainCache, or_default, live, domains_of, lookup}
use easynet.DomainCache.Expiry.{expiry_in, expiry, IsUnique, fresh, expiry_in-live, live-Distinct}

-- What `lookup` stores, for the entries found.
abbrev pruned : DomainCache → ℕ → Ipv4Addr → Option (List DomainEntry) → DomainCache
pruned cache now ip none = cache
pruned cache now ip (some es) =
    if is_empty (live now es) then remove ip cache else insert ip (live now es) cache

live_nil : (now : ℕ) → live now [] ≡ []
unfolding live
live_nil now = refl

lookup_domains :
    (cache : DomainCache) (now : ℕ) (ip : Ipv4Addr)
    → (lookup cache now ip).0 ≡ domains_of (live now (or_default (get ip cache)))
unfolding lookup
lookup_domains cache now ip = elim (Option-cases (get ip cache)) [
  | inl e ↦ rw (e, lookup) (rw (live_nil now))
  | inr (es, e) ↦ rw (e, lookup)
]

lookup_cache :
    (cache : DomainCache) (now : ℕ) (ip : Ipv4Addr)
    → (lookup cache now ip).1 ≡ pruned cache now ip (get ip cache)
unfolding lookup
lookup_cache cache now ip = elim (Option-cases (get ip cache)) [
  | inl e ↦ rw (e, lookup)
  | inr (es, e) ↦ rw (e, lookup)
]

empty_of : (es : List DomainEntry) → is_empty es ≡ true → es ≡ []
empty_of [] h = refl
empty_of (e ∷ es) h = cc

get-pruned_self :
    (cache : DomainCache) (now : ℕ) (ip : Ipv4Addr) (o : Option (List DomainEntry))
    → get ip cache ≡ o
    → or_default (get ip (pruned cache now ip o)) ≡ live now (or_default o)
get-pruned_self cache now ip none e = rw e (sym (live_nil now))
get-pruned_self cache now ip (some es) e = elim (Bool-cases (is_empty (live now es))) [
  | inl gone ↦
      rw gone (
        rw (get-remove ip ip cache, (ipv4_eq_iff ip ip).1 refl) (sym (empty_of (live now es) gone)))
  | inr kept ↦ rw kept (rw (get-insert ip ip (live now es) cache, (ipv4_eq_iff ip ip).1 refl))
]

get-pruned_other :
    (cache : DomainCache) (now : ℕ) (ip j : Ipv4Addr) (o : Option (List DomainEntry))
    → ipv4_eq ip j ≡ false
    → get j (pruned cache now ip o) ≡ get j cache
get-pruned_other cache now ip j none other = refl
get-pruned_other cache now ip j (some es) other = elim (Bool-cases (is_empty (live now es))) [
  | inl gone ↦ rw gone (rw (get-remove ip j cache, other))
  | inr kept ↦ rw kept (rw (get-insert ip j (live now es) cache, other))
]

-- The entries stored for any address after a lookup.
get-lookup :
    (cache : DomainCache) (now : ℕ) (ip j : Ipv4Addr)
    → or_default (get j (lookup cache now ip).1)
      ≡ (if ipv4_eq ip j then live now (or_default (get j cache)) else or_default (get j cache))
get-lookup cache now ip j = elim (Bool-cases (ipv4_eq ip j)) [
  | inl same ↦
      let eq : j ≡ ip = sym ((ipv4_eq_iff ip j).0 same) in
      rw (same, lookup_cache cache now ip, eq) (get-pruned_self cache now ip (get ip cache) refl)
  | inr other ↦
      rw (other, lookup_cache cache now ip)
        (ap or_default (get-pruned_other cache now ip j (get ip cache) other))
]

-- A later pass over the entries makes an earlier one needless.
live-live :
    (now later : ℕ) (es : List DomainEntry) → now ≤ later → live later (live now es) ≡ live later es
unfolding live
live-live now later [] h = refl
live-live now later (e ∷ es) h = ground (arith, live-live now later es h)

-- A lookup never changes what a later lookup answers, for any address.
pub lookup-lookup :
    (cache : DomainCache) (now later : ℕ) (ip j : Ipv4Addr)
    → now ≤ later
    → (lookup (lookup cache now ip).1 later j).0 ≡ (lookup cache later j).0
lookup-lookup cache now later ip j h =
    rw
      (
        lookup_domains (lookup cache now ip).1 later j,
        lookup_domains cache later j,
        get-lookup cache now ip j,
      )
      (elim (Bool-cases (ipv4_eq ip j)) [
        | inl same ↦ rw (same, live-live now later (or_default (get j cache)) h)
        | inr other ↦ rw other
      ])

-- A lookup keeps the domains of every address distinct.
pub lookup-IsUnique :
    (cache : DomainCache) (now : ℕ) (ip : Ipv4Addr)
    → IsUnique cache
    → IsUnique (lookup cache now ip).1
lookup-IsUnique cache now ip v j =
    rw (get-lookup cache now ip j) (elim (Bool-cases (ipv4_eq ip j)) [
      | inl same ↦ rw same (live-Distinct now (or_default (get j cache)) (v j))
      | inr other ↦ rw other (v j)
    ])

domains_sound :
    (d : Text) (es : List DomainEntry)
    → Any (λ v. v ≡ d) (domains_of es)
    → (t : ℕ) × (expiry_in d es ≡ some t)
unfolding expiry_in
domains_sound d [] h = elim h [ ]
domains_sound d (e ∷ es) (inl here) = (e.expires_at, rw ((text_eq_iff e.domain d).1 here))
domains_sound d (e ∷ es) (inr later) = elim (Bool-cases (text_eq e.domain d)) [
  | inl same ↦ (e.expires_at, rw same)
  | inr other ↦ let (t, found) = domains_sound d es later in (t, rw other found)
]

domains_complete :
    (d : Text) (t : ℕ) (es : List DomainEntry)
    → expiry_in d es ≡ some t
    → Any (λ v. v ≡ d) (domains_of es)
unfolding expiry_in
domains_complete d t [] h = cc
domains_complete d t (e ∷ es) h = elim (Bool-cases (text_eq e.domain d)) [
  | inl same ↦ inl ((text_eq_iff e.domain d).0 same)
  | inr other ↦ inr (domains_complete d t es (rw other at h))
]

fresh-some : (now : ℕ) (o : Option ℕ) (t : ℕ) → fresh now o ≡ some t → (o ≡ some t) × (now < t)
fresh-some now none t h = cc
fresh-some now (some s) t h = ground arith

-- Where domains are distinct, a lookup answers with exactly the domains of the address that expire
-- after the moment of the lookup.
pub lookup_iff :
    (cache : DomainCache) (now : ℕ) (ip : Ipv4Addr) (d : Text)
    → IsUnique cache
    → Any (λ v. v ≡ d) (lookup cache now ip).0
      ↔ ((t : ℕ) × (expiry cache ip d ≡ some t) × (now < t))
unfolding expiry
lookup_iff cache now ip d v = rw (lookup_domains cache now ip) (
  λ h.
      let (t, found) = domains_sound d (live now es) h in
      let (known, valid) = fresh-some now (expiry_in d es) t (sym kept ∙ found) in
      (t, known, valid),
  λ (t, known, valid). domains_complete d t (live now es) (kept ∙ rw known (still t valid)),
)
  where
    es : List DomainEntry
    es = or_default (get ip cache)

    kept : expiry_in d (live now es) ≡ fresh now (expiry_in d es)
    kept = expiry_in-live d now es (v ip)

    still : (t : ℕ) → now < t → fresh now (some t) ≡ some t
    still t h = ground arith
