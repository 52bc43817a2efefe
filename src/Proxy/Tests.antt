-- ===== src/Proxy/Tests.antt =====
-- The session tables and the sessions of the proxy at concrete packets.
use easynet.Prelude.{ℕ, ◌≡◌, ◌≢◌, ◌⊎◌, ◌↔◌, refl, true, false, some, List, [], ◌∷◌}
use easynet.Assoc.{get}
use easynet.Assoc
use easynet.Net.{socket_addr, octets, v4, SocketAddr}
use easynet.Proxy.{UpstreamServer, translate_socket}
use easynet.Proxy.Sessions.{
  Task, spawned, Table, empty_table, take_channel, send_packet, queued, lost, begin_task, Reach,
  start, later, arrives, begins,
}
use easynet.Proxy.Sessions.Invariant.{counted, owned, WorksFor}
use easynet.Proxy.Sessions.Reached.{Reach-active, send_packet-WorksFor, Reach-entry_iff}
use easynet.Proxy.Udp.{
  UdpKey, udp_key, UdpEvent, requested, replied, delivered, idle, handle_udp_session,
}
use easynet.Proxy.Udp.Relay.{RelaysBoth, handle_udp_session-RelaysBoth}

abbrev client : SocketAddr
client = socket_addr (v4 (octets 10 0 0 2)) 5000

abbrev target : SocketAddr
target = socket_addr (v4 (octets 1 1 1 1)) 53

abbrev key : UdpKey
key = (client, target)

-- A datagram has arrived, and its task has begun.
abbrev one_task : Table UdpKey
one_task = begin_task (take_channel (empty_table UdpKey) key) 0 key

looked_up : (take_channel (empty_table UdpKey) key).tasks 0 ≡ spawned key
unfolding take_channel Assoc.get
looked_up = refl

one_task-Reach : Reach false one_task
one_task-Reach =
    later (later start (arrives (empty_table UdpKey) key refl))
      (begins (take_channel (empty_table UdpKey) key) 0 key looked_up)

Reach-active_example : one_task.active ≡ counted one_task.next_task one_task.tasks
Reach-active_example = Reach-active one_task-Reach

Reach-entry_iff_example :
    (get key one_task.sessions ≡ some 0) ↔ (owned (one_task.tasks 0) ≡ some key)
Reach-entry_iff_example = Reach-entry_iff one_task-Reach key 0

waiting : one_task.pending ≡ some (0, key)
unfolding begin_task take_channel Assoc.get
waiting = refl

send_packet-WorksFor_example :
    (((send_packet one_task 0 key).0 ≡ queued 0)
      × WorksFor key (one_task.tasks 0)
      × (one_task.tasks 0 ≢ Task.absent))
    ⊎ (((send_packet one_task 0 key).0 ≡ lost) × ((i : ℕ) → owned (one_task.tasks i) ≢ some key))
send_packet-WorksFor_example = send_packet-WorksFor one_task-Reach 0 key waiting

abbrev elsewhere : UpstreamServer
elsewhere = record { ip = some (v4 (octets 9 9 9 9)) }

abbrev talk : List UdpEvent
talk = requested (1 ∷ []) true ∷ replied (2 ∷ []) delivered ∷ idle ∷ []

handle_udp_session-RelaysBoth_example :
    RelaysBoth client target
      (translate_socket elsewhere target)
      talk
      (handle_udp_session elsewhere client target true talk)
handle_udp_session-RelaysBoth_example =
    handle_udp_session-RelaysBoth elsewhere client target true talk
