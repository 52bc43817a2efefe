-- ===== src/Route/Tests.antt =====
-- The routing of a concrete packet, and a concrete run of the task.
use easynet.Prelude.{◌≡◌, refl, ◌↔◌, true, some, none, List, [], ◌∷◌, ok}
use easynet.Text.{codes, to_ascii_lowercase}
use easynet.Net.{octets}
use easynet.Message.{Bytes}
use easynet.Rule.{proxy, new_rule, udp}
use easynet.Context.{
  Slicer, ipv4_slice, udp_slice, PacketContext, new_context, with_domains, from_ip_packet,
  of_slices, of_transport,
}
use easynet.Geoip.{without_database}
use easynet.Engine.FirstMatch.{IsDecision}
use easynet.DomainCache.{DomainCache, lookup}
use easynet.Route.{
  Task, Event, transport_received, direct_received, tun_read, direct_closed, handle_packet_route,
  tun_io_task,
}
use easynet.Route.Decision.{all_open, sends, handle_packet_route_iff}
use easynet.Route.Flow.{IsInOrder, tun_io_task-IsInOrder}

abbrev packet : Bytes
packet = 69 ∷ 0 ∷ []

-- A slicer that reads one packet as a DNS question.
abbrev question : Slicer
question bytes = some (record {
  net = some (ipv4_slice (octets 10 0 0 2) (octets 8 8 8 8));
  transport = some (udp_slice 5000 53);
  udp_payload = [];
})

abbrev task : Task
task = record {
  slicer = question;
  dns = λ bytes. none;
  parsers = record {
    unicode = record { to_lowercase = to_ascii_lowercase; to_lowercase_ascii = λ s h. refl };
    parse_network = λ s. none;
  };
  rules_engine = record {
    rules = record (new_rule proxy) { domain = some (codes "a.b") } ∷ [];
    geoip = without_database;
  };
}

abbrev seen : DomainCache
seen = (octets 8 8 8 8, record { domain = codes "a.b"; expires_at = 160 } ∷ []) ∷ []

abbrev context : PacketContext
context = new_context (octets 10 0 0 2) (octets 8 8 8 8) (some 5000) (some 53) udp

question_sliced : from_ip_packet question packet ≡ some context
unfolding from_ip_packet of_slices of_transport
question_sliced = refl

handle_packet_route_iff_example :
    ((handle_packet_route task all_open 100 seen packet).result ≡ ok (sends proxy packet))
    ↔ IsDecision task.parsers without_database
        (with_domains context (lookup seen 100 (octets 8 8 8 8)).0)
        (task.rules_engine).rules
        proxy
handle_packet_route_iff_example =
    handle_packet_route_iff task 100 seen packet context proxy question_sliced

abbrev events : List Event
events =
    transport_received packet (λ i. 0) true
    ∷ tun_read packet 5 all_open
    ∷ direct_received (1 ∷ []) (λ i. 7) true
    ∷ direct_closed
    ∷ []

tun_io_task-IsInOrder_example : IsInOrder events (tun_io_task task events)
tun_io_task-IsInOrder_example = tun_io_task-IsInOrder task events
