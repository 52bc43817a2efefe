-- ===== src/DomainCache/Expiry.antt =====
-- The cache of src/rules/domain_cache.rs as a map from an address and a domain to a time of expiry.
use easynet.Prelude.{
  ℕ, ◌+◌, ◌≡◌, refl, ◌&&◌, Option, none, some, List, [], ◌∷◌, arith, ltb, ◌==◌, if◌then◌else◌,
  Bool-cases, inl, inr,
}
use easynet.Text.{Text, text_eq, text_eq_iff}
use easynet.Assoc.{get, get-insert}
use easynet.Net.{Ipv4Addr, ipv4_eq, ipv4_eq_iff, ipv4_key}
use easynet.DomainCache.{
  DomainEntry, DomainCache, normalize_domain, put_entry, or_default, insert_normal, insert_domain,
  live,
}

unfoldable pub expiry_in : Text → List DomainEntry → Option ℕ
expiry_in d [] = none
expiry_in d (e ∷ es) = if text_eq e.domain d then some e.expires_at else expiry_in d es

-- When the domain of an address expires, where it is known.
unfoldable pub expiry : DomainCache → Ipv4Addr → Text → Option ℕ
unfolding expiry_in
expiry cache ip d = expiry_in d (or_default (get ip cache))

expiry_in-put_entry :
    (d n : Text) (t : ℕ) (es : List DomainEntry)
    → expiry_in d (put_entry n t es) ≡ (if text_eq n d then some t else expiry_in d es)
unfolding expiry_in put_entry
expiry_in-put_entry d n t [] = refl
expiry_in-put_entry d n t (e ∷ es) = ground (
  arith,
  text_eq_iff n d,
  text_eq_iff e.domain n,
  text_eq_iff e.domain d,
  expiry_in-put_entry d n t es,
)

-- The map after an insertion: nothing changes for a time to live of 0 or a name that is empty once
-- it is normalised; else that name expires at that address at the end of its time to live, and
-- nothing else changes.
abbrev pub after_insert : DomainCache → ℕ → Ipv4Addr → ℕ → Option Text → Ipv4Addr → Text → Option ℕ
after_insert cache now ip ttl none j d = expiry cache j d
after_insert cache now ip ttl (some n) j d =
    if ttl == 0
    then expiry cache j d
    else if ipv4_eq ip j && text_eq n d
    then some (now + ttl)
    else expiry cache j d

insert_normal-expiry :
    (cache : DomainCache) (now : ℕ) (ip : Ipv4Addr) (ttl : ℕ) (n : Text) (j : Ipv4Addr) (d : Text)
    → expiry (insert_normal cache now ip ttl (some n)) j d
      ≡ (if ipv4_eq ip j && text_eq n d then some (now + ttl) else expiry cache j d)
unfolding expiry
insert_normal-expiry cache now ip ttl n j d = elim (Bool-cases (ipv4_eq ip j)) [
  | inl same ↦ rw (
    get-insert ip j (put_entry n (now + ttl) (or_default (get ip cache))) cache,
    same,
    expiry_in-put_entry d n (now + ttl) (or_default (get ip cache)),
    (ipv4_eq_iff ip j).0 same,
  )
  | inr other ↦
      rw (get-insert ip j (put_entry n (now + ttl) (or_default (get ip cache))) cache, other)
]

-- When a name expires at an address after an insertion: an insertion with a time to live of 0, or of
-- a name that is empty once it is normalised, changes nothing; any other sets the end of its time to
-- live for its normalised name at its address, and changes nothing else.
pub expiry-insert_domain :
    (cache : DomainCache) (now : ℕ) (ip : Ipv4Addr) (v : Text) (ttl : ℕ) (j : Ipv4Addr) (d : Text)
    → expiry (insert_domain cache now ip v ttl) j d
      ≡ after_insert cache now ip ttl (normalize_domain v) j d
unfolding insert_domain
expiry-insert_domain cache now ip v ttl j d = by_name (normalize_domain v)
  where
    by_name :
        (o : Option Text)
        → expiry (if ttl == 0 then cache else insert_normal cache now ip ttl o) j d
          ≡ after_insert cache now ip ttl o j d
    by_name none = ground arith
    by_name (some n) = ground (arith, insert_normal-expiry cache now ip ttl n j d)

-- No domain stands twice.
abbrev pub Distinct : List DomainEntry → Type 0
Distinct [] = Unit
Distinct (e ∷ es) = (expiry_in e.domain es ≡ none) × Distinct es

abbrev pub IsUnique : DomainCache → Type 0
IsUnique cache = (ip : Ipv4Addr) → Distinct (or_default (get ip cache))

put_entry-Distinct :
    (n : Text) (t : ℕ) (es : List DomainEntry) → Distinct es → Distinct (put_entry n t es)
unfolding put_entry expiry_in
put_entry-Distinct n t [] v = (refl, tt)
put_entry-Distinct n t (e ∷ es) v = ground (
  arith,
  put_entry-Distinct n t es v.1,
  expiry_in-put_entry e.domain n t es,
  text_eq_iff e.domain n,
  text_eq_iff n e.domain,
)

-- What is left of a time of expiry.
abbrev pub fresh : ℕ → Option ℕ → Option ℕ
fresh now none = none
fresh now (some t) = if ltb now t then some t else none

pub expiry_in-live :
    (d : Text) (now : ℕ) (es : List DomainEntry)
    → Distinct es
    → expiry_in d (live now es) ≡ fresh now (expiry_in d es)
unfolding live expiry_in
expiry_in-live d now [] v = refl
expiry_in-live d now (e ∷ es) v =
    ground (arith, expiry_in-live d now es v.1, text_eq_iff e.domain d)

pub live-Distinct : (now : ℕ) (es : List DomainEntry) → Distinct es → Distinct (live now es)
unfolding live
live-Distinct now [] v = tt
live-Distinct now (e ∷ es) v =
    ground (arith, live-Distinct now es v.1, expiry_in-live e.domain now es v.1)

insert_normal-IsUnique :
    (cache : DomainCache) (now : ℕ) (ip : Ipv4Addr) (ttl : ℕ) (o : Option Text)
    → IsUnique cache
    → IsUnique (insert_normal cache now ip ttl o)
insert_normal-IsUnique cache now ip ttl none v j = v j
insert_normal-IsUnique cache now ip ttl (some n) v j = elim (Bool-cases (ipv4_eq ip j)) [
  | inl same ↦
      rw (get-insert ip j (put_entry n (now + ttl) (or_default (get ip cache))) cache, same)
        (put_entry-Distinct n (now + ttl) (or_default (get ip cache)) (v ip))
  | inr other ↦
      rw (get-insert ip j (put_entry n (now + ttl) (or_default (get ip cache))) cache, other) (v j)
]

pub insert_domain-IsUnique :
    (cache : DomainCache) (now : ℕ) (ip : Ipv4Addr) (name : Text) (ttl : ℕ)
    → IsUnique cache
    → IsUnique (insert_domain cache now ip name ttl)
unfolding insert_domain
insert_domain-IsUnique cache now ip name ttl v = elim (Bool-cases (ttl == 0)) [
  | inl zero_ttl ↦ rw (zero_ttl, insert_domain) v
  | inr some_ttl ↦
      rw (some_ttl, insert_domain)
        (insert_normal-IsUnique cache now ip ttl (normalize_domain name) v)
]
