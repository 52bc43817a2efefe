-- ===== src/DomainCache/Tests.antt =====
-- Runs of the domain cache, and its theorems at concrete inputs.
use easynet.Prelude.{ℕ, ◌<◌, ◌≡◌, refl, ◌↔◌, true, some, List, [], ◌∷◌, arith, Any, ok}
use easynet.Text
use easynet.Text.{Text, codes}
use easynet.Assoc
use easynet.Net.{Ipv4Addr, octets, ipv4_eq}
use easynet.Context.{Slicer, ipv4_slice, udp_slice}
use easynet.Rule.Parse.{normalize_domain_rule_value, is_bad_char}
use easynet.Matcher.{matches_domain}
use easynet.DomainCache.{
  DomainCache, DnsParser, new_cache, normalize_domain, put_entry, insert_domain, live, lookup,
  observe_packet,
}
use easynet.DomainCache.Expiry.{expiry, IsUnique}
use easynet.DomainCache.Pruning.{lookup_iff}
use easynet.DomainCache.Rules.{
  domain_rule_meets, Call, inserts, looks_up, observes, after_calls, calls-IsUnique,
}

cache_runs : Unit {0}
unfolding insert_domain lookup live put_entry normalize_domain Text.trim Text.trim_end_matches
    Text.to_ascii_lowercase Text.text_eq Assoc.get Assoc.insert Assoc.remove ipv4_eq expiry
    observe_packet normalize_domain_rule_value is_bad_char
cache_runs = tt

abbrev host : Ipv4Addr
host = octets 1 2 3 4

abbrev seen : DomainCache
seen = (host, record { domain = codes "example.com"; expires_at = 160 } ∷ []) ∷ []

insert_runs : insert_domain new_cache 100 host (codes " Example.COM.") 60 ≡ seen
unfolding cache_runs
insert_runs = refl

lookup_alive : lookup seen 159 host ≡ (codes "example.com" ∷ [], seen)
unfolding cache_runs
lookup_alive = refl

lookup_expired : lookup seen 160 host ≡ ([], [])
unfolding cache_runs
lookup_expired = refl

-- A packet of which the slicer and the parser make one answer.
abbrev slicer : Slicer
slicer packet = some (record {
  net = some (ipv4_slice (octets 8 8 8 8) (octets 10 0 0 2));
  transport = some (udp_slice 53 53000);
  udp_payload = packet;
})

abbrev parser : DnsParser
parser payload = some (record {
  is_response = true;
  answers = record { address = some host; name = codes "Example.COM."; ttl = 60 } ∷ [];
})

observe_runs :
    observe_packet slicer parser new_cache (λ i. 100) []
    ≡ (host, record { domain = codes "example.com"; expires_at = 60100 } ∷ []) ∷ []
unfolding cache_runs
observe_runs = refl

abbrev calls : List Call
calls = inserts 100 host (codes "A.b") 60 ∷ observes (λ i. 5) (1 ∷ []) ∷ looks_up 50 host ∷ []

abbrev after : DomainCache
after = after_calls slicer parser new_cache calls

after-IsUnique : IsUnique after
after-IsUnique = calls-IsUnique slicer parser calls

calls-IsUnique_example : IsUnique after
calls-IsUnique_example = calls-IsUnique slicer parser calls

lookup_iff_example :
    Any (λ v. v ≡ codes "a.b") (lookup after 30 host).0
    ↔ ((t : ℕ) × (expiry after host (codes "a.b") ≡ some t) × (30 < t))
lookup_iff_example = lookup_iff after 30 host (codes "a.b") after-IsUnique

rule_normal : normalize_domain_rule_value (codes "Example.com") ≡ ok (codes "example.com")
unfolding cache_runs
rule_normal = refl

same_normal : normalize_domain (codes "EXAMPLE.com.") ≡ normalize_domain (codes "Example.com")
unfolding cache_runs
same_normal = refl

domain_rule_meets_example :
    matches_domain
      (codes "example.com")
      (lookup (insert_domain after 100 host (codes "EXAMPLE.com.") 60) 159 host).0
    ≡ true
domain_rule_meets_example =
    domain_rule_meets after 100 60 159 host (codes "Example.com") (codes "EXAMPLE.com.")
      (codes "example.com") after-IsUnique rule_normal same_normal (λ e. omega arith) (omega arith)
