-- ===== src/Wire/Stream.antt =====
-- src/block_epoll_net.cpp and src/TCPKernel.cpp: a connection from the bytes on the socket to the
-- packets that its tasks queue for the handlers. A thread that has received a packet queues it and goes
-- on: other threads of the pool run the handlers, in any order and at the same time.
use nest_disk.Base.{ℕ, zero, suc, ◌<◌, ◌≡◌, ◌^◌, ℤ, Text, List, [], ◌∷◌, ◌++◌, length}
use nest_disk.Env.{M}
use nest_disk.Net.Frame.{send_data, recv_task, Received, hung_up, waiting, bad_size, delivered}
use nest_disk.Net.Frame.Trip.{AllNonempty, join, recv_task-send_data}
use nest_disk.Net.Loop.{DataBuffer}
use nest_disk.Logic.Serve.{Request, serve}
use nest_disk.Wire.Serve.{handle_packet, print_request, RequestFits, handle_packet-print_request}

-- What a task queues, and what the later tasks of the connection do.
pub after_task : ℤ → (List Text → List DataBuffer) → Received → List DataBuffer
after_task fd next hung_up = []
after_task fd next waiting = []
after_task fd next bad_size = []
after_task fd next (delivered buf rest) = record { sockfd = fd; buf = buf } ∷ next rest

-- The packets that at most `count` tasks of one connection queue, the first of them first. What `read`
-- and `recv` return is the list.
pub receive_socket : ℤ → ℕ → List Text → List DataBuffer
unfolding after_task
receive_socket fd zero results = []
receive_socket fd (suc count) results = after_task fd (receive_socket fd count) (recv_task results)

-- `Buffer_Deal`.
pub buffer_deal : ℕ → ℕ → DataBuffer → M (Unit {0})
buffer_deal depth fuel buffer = handle_packet depth fuel buffer.buf buffer.sockfd

-- A request as it comes over the socket: what `read` gives for its size, and what the calls of `recv`
-- then give for its bytes.
pub record Arrival : Type 0 where
  pub request : Request
  pub header : Text
  pub parts : List Text

-- The client has framed the request's bytes, and each call returned some of them.
pub record Arrives (a : Arrival) : Type 0 where
  pub fits : RequestFits a.request
  pub small : length (print_request a.request) < 2 ^ 31
  pub four : length a.header ≡ 4
  pub each : AllNonempty a.parts
  pub framed :
      a.header ++ join a.parts
      ≡ send_data (print_request a.request) (length (print_request a.request))

abbrev pub AllArrive : List Arrival → Type 0
AllArrive [] = Unit {0}
AllArrive (a ∷ later) = Arrives a × AllArrive later

-- What the calls give, with those behind the last packet.
abbrev pub incoming : List Arrival → List Text → List Text
incoming [] rest = rest
incoming (a ∷ later) rest = a.header ∷ (a.parts ++ incoming later rest)

abbrev pub requests : ℤ → List Arrival → List (ℤ × Request)
requests fd [] = []
requests fd (a ∷ later) = (fd, a.request) ∷ requests fd later

-- Each packet is for the request in its place, and is served as that request whenever and in whatever
-- state its handler runs.
abbrev pub AllServed : ℕ → ℕ → List DataBuffer → List (ℤ × Request) → Type 0
AllServed depth fuel [] [] = Unit {0}
AllServed depth fuel (b ∷ bs) ((fd, r) ∷ rs) =
    (buffer_deal depth fuel b ≡ serve depth fuel r fd) × AllServed depth fuel bs rs
AllServed depth fuel _ _ = ⊥

-- Requests that the structures can hold come over one connection, framed by their sizes of fewer than
-- 2 ^ 31 bytes, in calls that each return something, cut anyhow behind the headers: then the tasks of
-- the connection queue as many packets as requests were sent, in their order, and each packet is served
-- as its request, by the handler of its type with the fields that were sent, in whatever state and
-- order the pool runs the handlers.
pub receive_socket-incoming :
    (depth fuel : ℕ) (fd : ℤ) (arrivals : List Arrival) (rest : List Text)
    → AllArrive arrivals
    → AllServed depth fuel
        (receive_socket fd (length arrivals) (incoming arrivals rest))
        (requests fd arrivals)
unfolding receive_socket buffer_deal
receive_socket-incoming depth fuel fd [] rest h = tt
receive_socket-incoming depth fuel fd (a ∷ later) rest (one, h) =
    rw
      (recv_task-send_data (print_request a.request) a.header a.parts (incoming later rest)
        one.small one.four one.each one.framed)
      (
        handle_packet-print_request depth fuel a.request fd one.fits,
        receive_socket-incoming depth fuel fd later rest h,
      )
