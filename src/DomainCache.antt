-- ===== src/DomainCache.antt =====
-- src/rules/domain_cache.rs: the domains under which an address was seen in DNS answers. Times are
-- numbers of milliseconds without bound, and every reading of the clock is an argument. The packet
-- slicer and the DNS parser are crates'.
pub mod Expiry
pub mod Pruning
pub mod Rules
pub mod Tests
use easynet.Prelude.{
  ℕ, ◌+◌, ◌*◌, suc, Bool, true, false, Option, none, some, List, [], ◌∷◌, map, ltb, ◌==◌,
  if◌then◌else◌, is_empty, retain,
}
use easynet.Text.{Text, text_eq, trim, trim_end_matches, to_ascii_lowercase}
use easynet.Assoc.{get, insert, remove}
use easynet.Net.{Ipv4Addr, ipv4_key}
use easynet.Context.{Slicer, SlicedPacket, TransportSlice, udp_slice}

pub record DomainEntry : Type 0 where
  pub domain : Text
  pub expires_at : ℕ

abbrev pub DomainCache : Type 0
DomainCache = List (Ipv4Addr × List DomainEntry)

abbrev pub new_cache : DomainCache
new_cache = []

unfoldable pub normalize_domain : Text → Option Text
normalize_domain value =
    let lower = to_ascii_lowercase (trim_end_matches b'.' (trim value)) in
    if is_empty lower then none else some lower

-- The entry of the domain is found and its expiry set, or a new entry is pushed.
unfoldable pub put_entry : Text → ℕ → List DomainEntry → List DomainEntry
unfolding text_eq
put_entry domain expires_at [] = record { domain = domain; expires_at = expires_at } ∷ []
put_entry domain expires_at (e ∷ es) =
    if text_eq e.domain domain
    then record e { expires_at = expires_at } ∷ es
    else e ∷ put_entry domain expires_at es

-- `entry(ip).or_default()`.
abbrev pub or_default : Option (List DomainEntry) → List DomainEntry
or_default none = []
or_default (some es) = es

abbrev pub insert_normal : DomainCache → ℕ → Ipv4Addr → ℕ → Option Text → DomainCache
insert_normal cache now ip ttl none = cache
insert_normal cache now ip ttl (some domain) =
    insert ip (put_entry domain (now + ttl) (or_default (get ip cache))) cache

-- `DomainCache::insert`.
unfoldable pub insert_domain : DomainCache → ℕ → Ipv4Addr → Text → ℕ → DomainCache
insert_domain cache now ip domain ttl =
    if ttl == 0 then cache else insert_normal cache now ip ttl (normalize_domain domain)

unfoldable pub live : ℕ → List DomainEntry → List DomainEntry
live now es = retain (λ e. ltb now e.expires_at) es

abbrev pub domains_of : List DomainEntry → List Text
domains_of = map (λ (e : DomainEntry). e.domain)

-- The domains that have not expired, and the cache without the expired ones.
unfoldable pub lookup : DomainCache → ℕ → Ipv4Addr → List Text × DomainCache
lookup cache now ip = elim (get ip cache) [
  | none ↦ ([], cache)
  | some es ↦ (
    domains_of (live now es),
    if is_empty (live now es) then remove ip cache else insert ip (live now es) cache,
  )
]

-- An answer of a DNS message: the address of an A record (`RData::A`), its name and its time.
pub record Answer : Type 0 where
  pub address : Option Ipv4Addr
  pub name : Text
  pub ttl : ℕ

pub record DnsMessage : Type 0 where
  pub is_response : Bool
  pub answers : List Answer

-- `Message::from_vec` of the crate `hickory_proto`.
abbrev pub DnsParser : Type 0
DnsParser = List ℕ → Option DnsMessage

abbrev pub udp_from_53 : Option TransportSlice → Bool
udp_from_53 (some (udp_slice sport dport)) = sport == 53
udp_from_53 _ = false

unfoldable pub dns_response_payload : Slicer → List ℕ → Option (List ℕ)
dns_response_payload from_ip packet = elim (from_ip packet) [
  | none ↦ none
  | some sliced ↦ if udp_from_53 sliced.transport then some sliced.udp_payload else none
]

abbrev pub insert_answer : DomainCache → ℕ → Option Ipv4Addr → Text → ℕ → DomainCache
insert_answer cache now none name ttl = cache
insert_answer cache now (some ip) name ttl = insert_domain cache now ip name (ttl * 1000)

-- The loop over the answers. `clock i` is read at the i-th.
unfoldable pub observe_answers : DomainCache → (ℕ → ℕ) → ℕ → List Answer → DomainCache
observe_answers cache clock i [] = cache
observe_answers cache clock i (a ∷ answers) =
    observe_answers (insert_answer cache (clock i) a.address a.name a.ttl) clock (suc i) answers

unfoldable pub observe_packet : Slicer → DnsParser → DomainCache → (ℕ → ℕ) → List ℕ → DomainCache
unfolding dns_response_payload observe_answers
observe_packet from_ip from_vec cache clock packet = elim (dns_response_payload from_ip packet) [
  | none ↦ cache
  | some payload ↦ elim (from_vec payload) [
    | none ↦ cache
    | some message ↦
        if message.is_response then observe_answers cache clock 0 message.answers else cache
  ]
]
