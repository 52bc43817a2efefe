-- ===== src/Proxy/Tcp/Counted.antt =====
-- The relays of src/transparent_proxy/tcp_proxy.rs are counted, admitted and translated.
use easynet.Prelude.{
  ◌+◌, ◌-◌, ◌≡◌, refl, true, none, some, List, Picks, here, there, picked-All, All, length, arith,
  Bool-cases, inl, inr,
}
use easynet.Filter.{IpFilters, is_allowed}
use easynet.Proxy.{UpstreamServer, translate_socket}
use easynet.Proxy.Tcp.{
  Inbound, Relay, Relays, handle_inbound_stream, begin_relay, end_relay, Step, accepts, begins,
  ends, RelayEnd, copied, copy_failed, connect_failed, Reach, start, later,
}

length-picked : {T : Type 0} {x : T} {l r : List T} → Picks x l r → length l ≡ length r + 1
length-picked (here l) = omega arith
length-picked (there y l r k) = let e = length-picked k in omega (arith, e)

module _ (filters : IpFilters) (upstream : UpstreamServer) where
  -- Both addresses of the connection passed the filters.
  abbrev pub IsAdmitted : Inbound → Type 0
  IsAdmitted c = is_allowed filters (c.peer_addr).ip (c.local_addr).ip ≡ true

  -- An admitted connection, relayed to the address that the upstream server gives it.
  abbrev pub GoesTo : Relay → Type 0
  GoesTo r =
      IsAdmitted r.inbound × (r.outbound_addr ≡ translate_socket upstream (r.inbound).local_addr)

  pub record Counted (r : Relays) : Type 0 where
    pub count : r.active ≡ length r.running
    pub admitted : All IsAdmitted r.spawned
    pub relayed : All GoesTo r.running

  ended-Counted :
      {r : Relays} {relay : Relay} {rest : List Relay}
      → Counted r
      → (outcome : RelayEnd) → Picks relay r.running rest
      → Counted (end_relay filters upstream r outcome rest)
  unfolding end_relay
  ended-Counted {r} {relay} {rest} v outcome k = go outcome
    where
      others : All GoesTo rest
      others = (picked-All GoesTo k v.relayed).1

      fewer : r.active - 1 ≡ length rest
      fewer = let e = length-picked k in omega (arith, v.count, e)

      go : (outcome : RelayEnd) → Counted (end_relay filters upstream r outcome rest)
      go copied = record { count = fewer; admitted = v.admitted; relayed = others }
      go copy_failed = record { count = fewer; admitted = v.admitted; relayed = others }
      go connect_failed = record { count = fewer; admitted = v.admitted; relayed = others }

  Step-Counted : {r t : Relays} → Counted r → Step filters upstream r t → Counted t
  unfolding handle_inbound_stream begin_relay
  Step-Counted v (accepts r none listening) = record {
    count = v.count;
    admitted = v.admitted;
    relayed = v.relayed;
  }
  Step-Counted v (accepts r (some inbound) listening) =
      elim (Bool-cases (is_allowed filters (inbound.peer_addr).ip (inbound.local_addr).ip)) [
        | inl good ↦
            rw good (record { count = v.count; admitted = (good, v.admitted); relayed = v.relayed })
        | inr bad ↦ rw bad v
      ]
  Step-Counted v (begins r inbound rest k) =
      let (good, others) = picked-All IsAdmitted k v.admitted in
      record {
        count = omega (arith, v.count);
        admitted = others;
        relayed = ((good, refl), v.relayed);
      }
  Step-Counted v (ends r relay outcome rest k) = ended-Counted v outcome k

  -- Whatever order connections come and tasks begin and end in, the count of active TCP relays is the
  -- number of the relays that run, each of these has passed the filters with both its addresses,
  -- and it connects to the address that the upstream server makes of the one asked for.
  pub Reach-Counted : (r : Relays) → Reach filters upstream r → Counted r
  Reach-Counted _ start = record { count = refl; admitted = tt; relayed = tt }
  Reach-Counted _ (later {r} before step) = Step-Counted (Reach-Counted r before) step
