-- ===== src/Net/Loop.antt =====
-- `EventLoop`, `accept_event`, `recv_event`, `recv_task` and `Buffer_Deal` as a step relation: the event
-- loop's thread, the pool's threads and the kernel in any interleaving. A pointer to a `myevent_s` is its
-- address, which `new` may give again after `delete`. The kernel knows for each open descriptor the
-- event structure that was made for it and what epoll does with it; a descriptor that `accept` returns
-- was not open. epoll reports data on an armed descriptor, and disarms it if that was asked for; a
-- report without EPOLLIN is not modelled. A registration fails if the kernel lacks the resources for it;
-- the code only prints that. A step may come late or never: `Producer_add` waits while the pool's queue
-- is full, and a queued task for a free thread of the pool. So what holds in every state that is reached
-- holds of the program, and that a step is possible here does not say that the program comes to it.
pub mod Life
pub mod Descriptors
pub mod OneShot
pub mod Calls
pub mod Exclusive
pub mod Reuse
use nest_disk.Base.{
  ℕ, zero, suc, ◌+◌, ◌-◌, ◌*◌, ◌/◌, ◌%◌, ◌^◌, ◌≡◌, ◌≢◌, ℤ, eq_ℤ, Text, Bool, false, ◌==◌, ◌||◌,
  Option, none, some, List, [], ◌∷◌, ◌++◌, length, if◌then◌else◌,
}
use nest_disk.MyMap.{MyMap, find, insert, erase}
use nest_disk.Net.Event.{Event, Ctl, ctl_add, ctl_mod, ctl_del, eventset, eventadd, eventdel}
use nest_disk.Net.Frame.{Received, hung_up, delivered, recv_task}

-- EPOLLIN, EPOLLONESHOT, and the events of a connection.
abbrev pub epollin : ℕ
epollin = 1

abbrev pub epolloneshot : ℕ
epolloneshot = 2 ^ 30

abbrev pub client_events : ℕ
client_events = epollin + epolloneshot

-- What epoll does with a descriptor.
pub data Watch : Type 0 where
  unwatched : Watch
  armed disarmed : ℕ → Watch

-- An open descriptor, with the address of the event structure that was made for it.
pub record Sock : Type 0 where
  pub owner : ℤ
  pub watch : Watch

-- `epoll_ctl`; a call that fails changes nothing.
unfoldable pub epoll_ctl : Ctl → Watch → Watch
epoll_ctl (ctl_add e) unwatched = armed e
epoll_ctl (ctl_add e) w = w
epoll_ctl (ctl_mod e) unwatched = unwatched
epoll_ctl (ctl_mod e) w = armed e
epoll_ctl ctl_del w = unwatched

abbrev pub newest : List Ctl → Watch → Watch
newest [] w = w
newest (c ∷ cs) w = epoll_ctl c w

-- The effect of the call that the event structure made between two of its states, if it made one and
-- the kernel does not lack the resources for it.
unfoldable pub called : Bool → Event → Event → Watch → Watch
called lacks old new w =
    if lacks || length new.calls == length old.calls then w else newest new.calls w

-- A report on an armed descriptor.
unfoldable pub reported_watch : ℕ → Watch
reported_watch e = if e / epolloneshot % 2 == 1 then disarmed e else armed e

-- Where the event structure of a connection is in use: in the array that `epoll_wait` filled, in the
-- pool's queue, in `recv_task` before its loop has ended, and behind each of the calls that follow,
-- `Producer_add`, or else `eventdel`, `close` and `erase`.
pub data Phase : Type 0 where
  reported queued receiving handed_over unlisted closed erased : Phase

-- `DataBuffer`.
pub record DataBuffer : Type 0 where
  pub sockfd : ℤ
  pub buf : Text

pub record Net : Type 0 where
  pub listenfd : ℤ
  pub epoll_fd : ℤ
  -- The event structures that have been made and not deleted.
  pub heap : MyMap Event
  -- `m_mapSockfdToEvent`.
  pub map_sockfd_to_event : MyMap ℤ
  pub tasks : List (ℤ × Phase)
  pub buffers : List DataBuffer
  pub socks : MyMap Sock

unfoldable pub start : ℤ → ℤ → Net
start listenfd epoll_fd = record {
  listenfd = listenfd;
  epoll_fd = epoll_fd;
  heap = [];
  map_sockfd_to_event = [];
  tasks = [];
  buffers = [];
  socks = [];
}

unfoldable pub new_event : ℤ → ℤ → Event
new_event fd efd = eventadd (eventset fd efd) client_events

-- `accept_event`, with the result of `accept`, the address of the new event structure, and whether its
-- registration fails.
unfoldable pub accept_event : Option ℤ → ℤ → Bool → Net → Net
accept_event none p lacks s = s
accept_event (some fd) p lacks s =
    let ev = new_event fd s.epoll_fd in
    record s {
      heap = insert p ev s.heap;
      map_sockfd_to_event = insert fd p s.map_sockfd_to_event;
      socks =
          insert fd
            (record { owner = p; watch = called lacks (eventset fd s.epoll_fd) ev unwatched })
            s.socks;
    }

-- What the event loop does with a report that has EPOLLIN.
pub data Turn : Type 0 where
  accepts receives : Turn

unfoldable pub turn : Net → Event → Turn
turn s ev = if eq_ℤ ev.fd s.listenfd then accepts else receives

-- The changes of one event structure and of its descriptor, behind those of its task.
abbrev pub with_event : ℤ → Event → Sock → List (ℤ × Phase) → Net → Net
with_event p ev k tasks s = record s {
  heap = insert p ev s.heap;
  tasks = tasks;
  socks = insert ev.fd k s.socks;
}

unfoldable pub hand_over : Event → Text → List (ℤ × Phase) → Net → Net
hand_over ev payload tasks s = record s {
  tasks = tasks;
  buffers = s.buffers ++ (record { sockfd = ev.fd; buf = payload } ∷ []);
}

-- `ev->eventadd(ev->events)`.
unfoldable pub rearm : ℤ → Event → Sock → Bool → List (ℤ × Phase) → Net → Net
rearm p ev k lacks tasks s =
    let new = eventadd ev ev.events in
    with_event p new (record k { watch = called lacks ev new k.watch }) tasks s

-- `ev->eventdel()`.
unfoldable pub unlist : ℤ → Event → Sock → List (ℤ × Phase) → Net → Net
unlist p ev k tasks s =
    with_event p (eventdel ev) (record k { watch = called false ev (eventdel ev) k.watch }) tasks s

abbrev pub close_fd : Event → List (ℤ × Phase) → Net → Net
close_fd ev tasks s = record s { tasks = tasks; socks = erase ev.fd s.socks }

abbrev pub erase_fd : Event → List (ℤ × Phase) → Net → Net
erase_fd ev tasks s = record s {
  tasks = tasks;
  map_sockfd_to_event = erase ev.fd s.map_sockfd_to_event;
}

abbrev pub delete_event : ℤ → List (ℤ × Phase) → Net → Net
delete_event p tasks s = record s { heap = erase p s.heap; tasks = tasks }

pub data Step (s : Net) : Net → Type 0 where
  accept_fails : (p : ℤ) → Step s (accept_event none p false s)
  accept :
      (fd p : ℤ) (lacks : Bool)
      → find fd s.socks ≡ none
      → fd ≢ s.listenfd
      → find p s.heap ≡ none
      → Step s (accept_event (some fd) p lacks s)
  report :
      (fd p : ℤ) (e : ℕ)
      → find fd s.socks ≡ some (record { owner = p; watch = armed e })
      → Step s (record s {
        tasks = (p, reported) ∷ s.tasks;
        socks = insert fd (record { owner = p; watch = reported_watch e }) s.socks;
      })
  -- `recv_event`.
  receive :
      (p : ℤ) (ev : Event) (before after : List (ℤ × Phase))
      → s.tasks ≡ before ++ ((p, reported) ∷ after)
      → find p s.heap ≡ some ev
      → turn s ev ≡ receives
      → Step s (record s { tasks = before ++ ((p, queued) ∷ after) })
  begin :
      (p : ℤ) (before after : List (ℤ × Phase))
      → s.tasks ≡ before ++ ((p, queued) ∷ after)
      → Step s (record s { tasks = before ++ ((p, receiving) ∷ after) })
  -- The loop of `recv_task` is left with a buffer.
  produce :
      (p : ℤ) (ev : Event) (payload : Text) (results rest : List Text)
      (before after : List (ℤ × Phase))
      → s.tasks ≡ before ++ ((p, receiving) ∷ after)
      → find p s.heap ≡ some ev
      → recv_task results ≡ delivered payload rest
      → Step s (hand_over ev payload (before ++ ((p, handed_over) ∷ after)) s)
  register :
      (p : ℤ) (ev : Event) (k : Sock) (lacks : Bool) (before after : List (ℤ × Phase))
      → s.tasks ≡ before ++ ((p, handed_over) ∷ after)
      → find p s.heap ≡ some ev
      → find ev.fd s.socks ≡ some k
      → Step s (rearm p ev k lacks (before ++ after) s)
  -- The header could not be read.
  hang_up :
      (p : ℤ) (ev : Event) (k : Sock) (results : List Text) (before after : List (ℤ × Phase))
      → s.tasks ≡ before ++ ((p, receiving) ∷ after)
      → find p s.heap ≡ some ev
      → find ev.fd s.socks ≡ some k
      → recv_task results ≡ hung_up
      → Step s (unlist p ev k (before ++ ((p, unlisted) ∷ after)) s)
  close :
      (p : ℤ) (ev : Event) (before after : List (ℤ × Phase))
      → s.tasks ≡ before ++ ((p, unlisted) ∷ after)
      → find p s.heap ≡ some ev
      → Step s (close_fd ev (before ++ ((p, closed) ∷ after)) s)
  forget :
      (p : ℤ) (ev : Event) (before after : List (ℤ × Phase))
      → s.tasks ≡ before ++ ((p, closed) ∷ after)
      → find p s.heap ≡ some ev
      → Step s (erase_fd ev (before ++ ((p, erased) ∷ after)) s)
  free :
      (p : ℤ) (before after : List (ℤ × Phase))
      → s.tasks ≡ before ++ ((p, erased) ∷ after)
      → Step s (delete_event p (before ++ after) s)
  -- `Buffer_Deal` has called the handler and freed the buffer.
  deal :
      (b : DataBuffer) (before after : List DataBuffer)
      → s.buffers ≡ before ++ (b ∷ after)
      → Step s (record s { buffers = before ++ after })

pub data Reach (s : Net) : Net → Type 0 where
  here : Reach s s
  next : {t u : Net} → Reach s t → Step t u → Reach s u
