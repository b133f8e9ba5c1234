-- ===== src/Connection/Tests.antt =====
-- Instances of the theorems on the sockets of a client.
use is_rtsp_server.Base.{
  ℕ, ◌≡◌, refl, arith, Bool, true, false, Option, none, some, List, [], ◌∷◌, length,
}
use is_rtsp_server.Connection.{Output, Answer, write_data_queue, tcp_write_cb}
use is_rtsp_server.Connection.Order.{Event, queue, ready, run, SendsInOrder, run-SendsInOrder}
use is_rtsp_server.Connection.Udp.{Kernel, udp_zero, Opening, udp_transport}
use is_rtsp_server.Connection.Sessions.{open_all}
use is_rtsp_server.Connection.Ports.{IsKernel, Opened, udp_transport-Opened}

abbrev takes : List ℕ → Answer
takes p = record { written = some (length p); again = false }

-- Two packets are queued, and the socket is ready between them.
abbrev events : List Event
events = queue (1 ∷ 2 ∷ []) ∷ ready takes ∷ queue (3 ∷ []) ∷ ready takes ∷ ready takes ∷ []

abbrev fresh : Output
fresh = record { out_queue = []; writing = false; wire = []; leaked = 0 }

sent_bytes : (run events fresh).wire ≡ 1 ∷ 2 ∷ 3 ∷ []
unfolding run tcp_write_cb write_data_queue
sent_bytes = refl

-- Descriptors 0 and 4 are open; the first socket gets an odd port.
abbrev kernel : Bool → Kernel
kernel bound = record {
  socket1 = some 5;
  bind1 = bound;
  name1 = some 40001;
  socket2 = some 6;
  bind2 = true;
  bind3 = true;
  name2 = some 7;
  connect1 = true;
  connect2 = true;
}

kernel-IsKernel : IsKernel (kernel true) (0 ∷ 4 ∷ [])
kernel-IsKernel = record {
  new1 = omega arith;
  new2 = λ d e. let f : 5 ≡ d = cc in omega (arith, f);
  port1 = λ p e. let f : 40001 ≡ p = cc in omega (arith, f);
}

udp_transport-Opened_example :
    Opened (kernel true) (0 ∷ 4 ∷ []) (udp_transport (kernel true) udp_zero (0 ∷ 4 ∷ []))
udp_transport-Opened_example = udp_transport-Opened (kernel true) (0 ∷ 4 ∷ []) kernel-IsKernel

ports_of : Opening → Option (ℕ × ℕ)
ports_of (none, fs) = none
ports_of (some (u, p, q), fs) = some (p, q)

transport_runs : ports_of (udp_transport (kernel true) udp_zero (0 ∷ 4 ∷ [])) ≡ some (40000, 40001)
unfolding udp_transport ports_of
transport_runs = refl

-- If the first socket cannot be bound, descriptor 0 is closed with it.
left_open : Opening → List ℕ
left_open o = o.1

transport_fails : left_open (udp_transport (kernel false) udp_zero (0 ∷ 4 ∷ [])) ≡ 4 ∷ []
unfolding udp_transport left_open
transport_fails = refl

kernel_runs : (udp_transport (kernel true) udp_zero (0 ∷ 4 ∷ [])).1 ≡ 6 ∷ 5 ∷ 0 ∷ 4 ∷ []
unfolding udp_transport
kernel_runs = refl

-- Two transports; the second gets the descriptors 7 and 8.
abbrev kernels : List Kernel
kernels = kernel true ∷ record (kernel true) { socket1 = some 7; socket2 = some 8 } ∷ []

all_open : (open_all kernels (0 ∷ 4 ∷ [])).1 ≡ 8 ∷ 7 ∷ 6 ∷ 5 ∷ 0 ∷ 4 ∷ []
unfolding open_all udp_transport
all_open = refl

run-SendsInOrder_example : SendsInOrder events fresh (run events fresh)
run-SendsInOrder_example = run-SendsInOrder events fresh
