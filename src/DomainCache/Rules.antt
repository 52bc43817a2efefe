-- ===== src/DomainCache/Rules.antt =====
-- The cache of src/rules/domain_cache.rs and the domain rules of src/rules/rule.rs and matcher.rs
-- together; and the packets that the cache observes.
use easynet.Prelude.{
  ℕ, suc, ◌+◌, ◌*◌, ◌<◌, ◌≡◌, ◌≢◌, refl, ap, ◌∙◌, true, Option, none, some, List, [], ◌∷◌, arith,
  if◌then◌else◌, Bool-cases, inl, inr, ok, ne→==,
}
use easynet.Text.{Text, text_eq_iff}
use easynet.Net.{Ipv4Addr, ipv4_eq_iff, ipv4_key}
use easynet.Assoc.{get}
use easynet.Context.{Slicer}
use easynet.Rule.Parse.{normalize_domain_rule_value}
use easynet.Matcher.{matches_domain}
use easynet.Matcher.Domains.{matches_domain_iff}
use easynet.DomainCache.{
  DomainCache, DnsMessage, DnsParser, Answer, new_cache, normalize_domain, insert_answer,
  insert_domain, lookup, observe_answers, dns_response_payload, observe_packet,
}
use easynet.DomainCache.Expiry.{
  expiry, IsUnique, after_insert, expiry-insert_domain, insert_domain-IsUnique,
}
use easynet.DomainCache.Pruning.{lookup_iff, lookup-IsUnique}

-- A rule's value and an observed name are normalised alike.
normalize_agrees : (v n : Text) → normalize_domain_rule_value v ≡ ok n → normalize_domain v ≡ some n
unfolding normalize_domain normalize_domain_rule_value
normalize_agrees v n h = ground arith

expiry_of_insert :
    (cache : DomainCache) (now ttl : ℕ) (ip : Ipv4Addr) (n : Text)
    → ttl ≢ 0
    → after_insert cache now ip ttl (some n) ip n ≡ some (now + ttl)
expiry_of_insert cache now ttl ip n h =
    rw (ne→== ttl 0 h, (ipv4_eq_iff ip ip).1 refl, (text_eq_iff n n).1 refl)

-- Where no domain stands twice at an address, a DOMAIN rule whose value normalises to `n` matches
-- the packets to an address that was seen under a name with the same normal form, whatever its
-- case and final dots, as long as the time to live of that sighting, which is not 0, runs.
pub domain_rule_meets :
    (cache : DomainCache) (now ttl later : ℕ) (ip : Ipv4Addr) (v w n : Text)
    → IsUnique cache
    → normalize_domain_rule_value v ≡ ok n
    → normalize_domain w ≡ normalize_domain v
    → ttl ≢ 0
    → later < now + ttl
    → matches_domain n (lookup (insert_domain cache now ip w ttl) later ip).0 ≡ true
domain_rule_meets cache now ttl later ip v w n u rule same some_ttl alive =
    (matches_domain_iff n _).1 (
      (lookup_iff (insert_domain cache now ip w ttl) later ip n
          (insert_domain-IsUnique cache now ip w ttl u)).1
        (now + ttl, known, alive))
  where
    known : expiry (insert_domain cache now ip w ttl) ip n ≡ some (now + ttl)
    known =
        expiry-insert_domain cache now ip w ttl ip n
        ∙ ap (λ o. after_insert cache now ip ttl o ip n) (same ∙ normalize_agrees v n rule)
        ∙ expiry_of_insert cache now ttl ip n some_ttl

insert_answer-IsUnique :
    (cache : DomainCache) (now : ℕ) (o : Option Ipv4Addr) (name : Text) (ttl : ℕ)
    → IsUnique cache
    → IsUnique (insert_answer cache now o name ttl)
insert_answer-IsUnique cache now none name ttl u ip = u ip
insert_answer-IsUnique cache now (some j) name ttl u ip =
    insert_domain-IsUnique cache now j name (ttl * 1000) u ip

observe_answers-IsUnique :
    (cache : DomainCache) (clock : ℕ → ℕ) (i : ℕ) (answers : List Answer)
    → IsUnique cache
    → IsUnique (observe_answers cache clock i answers)
unfolding observe_answers
observe_answers-IsUnique cache clock i [] u = u
observe_answers-IsUnique cache clock i (a ∷ answers) u =
    observe_answers-IsUnique (insert_answer cache (clock i) a.address a.name a.ttl) clock (suc i)
      answers (insert_answer-IsUnique cache (clock i) a.address a.name a.ttl u)

observe_packet-IsUnique :
    (from_ip : Slicer) (from_vec : DnsParser) (cache : DomainCache) (clock : ℕ → ℕ)
    (packet : List ℕ)
    → IsUnique cache
    → IsUnique (observe_packet from_ip from_vec cache clock packet)
unfolding observe_packet
observe_packet-IsUnique from_ip from_vec cache clock packet u =
    by_payload (dns_response_payload from_ip packet)
  where
    by_message :
        (o : Option DnsMessage)
        → IsUnique (elim o [
          | none ↦ cache
          | some message ↦
              if message.is_response then observe_answers cache clock 0 message.answers else cache
        ])
    by_message none = u
    by_message (some message) = elim (Bool-cases message.is_response) [
      | inl e ↦ rw e (observe_answers-IsUnique cache clock 0 message.answers u)
      | inr e ↦ rw e u
    ]

    by_payload :
        (o : Option (List ℕ))
        → IsUnique (elim o [
          | none ↦ cache
          | some payload ↦ elim (from_vec payload) [
            | none ↦ cache
            | some message ↦
                if message.is_response then observe_answers cache clock 0 message.answers else cache
          ]
        ])
    by_payload none = u
    by_payload (some payload) = by_message (from_vec payload)

-- The calls that the program makes on its cache.
pub data Call : Type 0 where
  inserts : (now : ℕ) → Ipv4Addr → Text → (ttl : ℕ) → Call
  looks_up : (now : ℕ) → Ipv4Addr → Call
  observes : (clock : ℕ → ℕ) → (packet : List ℕ) → Call

module _ (from_ip : Slicer) (from_vec : DnsParser) where
  pub after_call : DomainCache → Call → DomainCache
  after_call cache (inserts now ip name ttl) = insert_domain cache now ip name ttl
  after_call cache (looks_up now ip) = (lookup cache now ip).1
  after_call cache (observes clock packet) = observe_packet from_ip from_vec cache clock packet

  pub after_calls : DomainCache → List Call → DomainCache
  after_calls cache [] = cache
  after_calls cache (c ∷ cs) = after_calls (after_call cache c) cs

  after_call-IsUnique :
      (cache : DomainCache) (c : Call) → IsUnique cache → IsUnique (after_call cache c)
  unfolding after_call
  after_call-IsUnique cache (inserts now ip name ttl) u =
      insert_domain-IsUnique cache now ip name ttl u
  after_call-IsUnique cache (looks_up now ip) u = lookup-IsUnique cache now ip u
  after_call-IsUnique cache (observes clock packet) u =
      observe_packet-IsUnique from_ip from_vec cache clock packet u

  after_calls-IsUnique :
      (cache : DomainCache) (cs : List Call) → IsUnique cache → IsUnique (after_calls cache cs)
  unfolding after_calls
  after_calls-IsUnique cache [] u = u
  after_calls-IsUnique cache (c ∷ cs) u =
      after_calls-IsUnique (after_call cache c) cs (after_call-IsUnique cache c u)

new_cache-IsUnique : IsUnique new_cache
new_cache-IsUnique ip = unfold get in tt

-- After any calls on a new cache, whatever the packets and the readings of the clock, the domains of
-- every address are distinct.
pub calls-IsUnique :
    (from_ip : Slicer) (from_vec : DnsParser) (cs : List Call)
    → IsUnique (after_calls from_ip from_vec new_cache cs)
calls-IsUnique from_ip from_vec cs =
    after_calls-IsUnique from_ip from_vec new_cache cs new_cache-IsUnique
