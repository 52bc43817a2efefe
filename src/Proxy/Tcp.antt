-- ===== src/Proxy/Tcp.antt =====
-- src/transparent_proxy/tcp_proxy.rs: the connections that are accepted, their relays, and the count
-- of the active ones.
pub mod Counted
pub mod Tests
use easynet.Prelude.{
  Bool, true, false, ℕ, ◌+◌, ◌-◌, ◌≡◌, Option, none, some, List, [], ◌∷◌, Picks, if◌then◌else◌,
}
use easynet.Net.{SocketAddr}
use easynet.Filter.{IpFilters, is_allowed}
use easynet.Proxy.{UpstreamServer, translate_socket}

-- An accepted connection, by its peer and its local address, which is what the client asked for.
pub record Inbound : Type 0 where
  pub peer_addr : SocketAddr
  pub local_addr : SocketAddr

-- A relay: its connection, and the address that it connects to.
pub record Relay : Type 0 where
  pub inbound : Inbound
  pub outbound_addr : SocketAddr

-- How a relay comes to its end: the outcome of `copy_bidirectional`, or a connect that fails.
pub data RelayEnd : Type 0 where
  copied copy_failed connect_failed : RelayEnd

-- Whether the loop of the listener runs, the tasks that are spawned and have not begun, those that
-- relay, and `active_tcp`.
pub record Relays : Type 0 where
  pub listening : Bool
  pub spawned : List Inbound
  pub running : List Relay
  pub active : ℕ

abbrev pub no_relays : Relays
no_relays = record { listening = true; spawned = []; running = []; active = 0 }

module _ (filters : IpFilters) (upstream : UpstreamServer) where
  -- The body of the loop of `handle_inbound_stream`, which returns where `accept` or `local_addr`
  -- fails.
  unfoldable pub handle_inbound_stream : Relays → Option Inbound → Relays
  unfolding is_allowed
  handle_inbound_stream r none = record r { listening = false }
  handle_inbound_stream r (some inbound) =
      if is_allowed filters (inbound.peer_addr).ip (inbound.local_addr).ip
      then record r { spawned = inbound ∷ r.spawned }
      else r

  -- A task begins: it is counted, and connects to the address of its own or of the upstream server.
  unfoldable pub begin_relay : Relays → Inbound → List Inbound → Relays
  unfolding translate_socket
  begin_relay r inbound rest = record r {
    spawned = rest;
    running =
        record { inbound = inbound; outbound_addr = translate_socket upstream inbound.local_addr }
        ∷ r.running;
    active = r.active + 1;
  }

  -- What comes of it: on each outcome it is no longer counted.
  unfoldable pub end_relay : Relays → RelayEnd → List Relay → Relays
  end_relay r copied rest = record r { running = rest; active = r.active - 1 }
  end_relay r copy_failed rest = record r { running = rest; active = r.active - 1 }
  end_relay r connect_failed rest = record r { running = rest; active = r.active - 1 }

  -- A relay ends when its connect fails or its copy returns, which may be never: no time limit is
  -- set.
  pub data Step : Relays → Relays → Type 0 where
    accepts :
        (r : Relays) (accepted : Option Inbound)
        → r.listening ≡ true
        → Step r (handle_inbound_stream r accepted)
    begins :
        (r : Relays) (inbound : Inbound) (rest : List Inbound)
        → Picks inbound r.spawned rest
        → Step r (begin_relay r inbound rest)
    ends :
        (r : Relays) (relay : Relay) (outcome : RelayEnd) (rest : List Relay)
        → Picks relay r.running rest
        → Step r (end_relay r outcome rest)

  pub data Reach : Relays → Type 0 where
    start : Reach no_relays
    later : {r t : Relays} → Reach r → Step r t → Reach t
