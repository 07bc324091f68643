-- ===== src/Net/Loop/Reuse.antt =====
-- A descriptor that is given again, while the server still uses its number for the connection before.
use nest_disk.Base.{
  false, ◌≡◌, ◌≢◌, refl, ◌∙◌, ap, sym, ℤ, eq_ℤ_iff, none, some, List, [], ◌∷◌, ◌++◌, Text, arith,
}
use nest_disk.MyMap.{MyMap, find, insert}
use nest_disk.Net.Event.{Event, eventadd, eventdel, eventset}
use nest_disk.Net.Frame.{recv_task, delivered}
use nest_disk.Net.Loop.{
  client_events, Watch, armed, disarmed, unwatched, Sock, Phase, reported, queued, receiving,
  handed_over, unlisted, closed, erased, Net, start, turn, receives, Step, accept, report, receive,
  begin, produce, register, hang_up, close, forget, Reach, here, next, hand_over, rearm, unlist,
  close_fd, erase_fd, accept_event, reported_watch, DataBuffer, called,
}
use nest_disk.Net.Loop.Life.{busy_at}
use nest_disk.Net.Loop.Descriptors.{find_new, find_old, find_erased}
use nest_disk.Net.Loop.Calls.{structure_at, add_again, del_listed}
use nest_disk.Net.Loop.Exclusive.{Reach-Agrees}

-- Without a structure at an address, a change of another leaves it so.
still_unmade :
    (p q : ℤ) (ev new : Event) (m : MyMap Event)
    → find p m ≡ some ev
    → find q m ≡ none
    → find q (insert p new m) ≡ none
still_unmade p q ev new m at e =
    find_old p q new m (λ same. absurd (ground (arith, ap (λ (x : ℤ). find x m) same))) ∙ e

-- A connection that is accepted again.
accept_again :
    (s : Net) (fd q : ℤ)
    → find fd (accept_event (some fd) q false s).socks
      ≡ some (record { owner = q; watch = armed client_events })
unfolding accept_event nest_disk.Net.Loop.new_event eventadd eventset called
    nest_disk.Net.Loop.epoll_ctl
accept_again s fd q = find_new fd _ s.socks

module _ (listenfd epoll_fd : ℤ) (s : Net) (p : ℤ) (before after : List (ℤ × Phase))
    (r : Reach (start listenfd epoll_fd) s) where
  -- The thread of a closed connection goes on after `accept` has returned its descriptor again.
  Reach-forgotten :
      (q : ℤ) (ev : Event)
      → s.tasks ≡ before ++ ((p, closed) ∷ after)
      → find p s.heap ≡ some ev
      → find ev.fd s.socks ≡ none
      → find q s.heap ≡ none
      → (t : Net) × Reach (start listenfd epoll_fd) t
        × (find ev.fd t.socks ≡ some (record { owner = q; watch = armed client_events }))
        × (find ev.fd t.map_sockfd_to_event ≡ none)
  unfolding accept_event
  Reach-forgotten q ev task at shut unmade =
      let b = busy_at s p closed before after task (Reach-Agrees listenfd epoll_fd s r) in
      let is = structure_at s p ev 0 none at b.0.1 in
      let s1 = accept_event (some ev.fd) q false s in
      let tasks = before ++ ((p, erased) ∷ after) in
      (
        erase_fd ev tasks s1,
        next (next r (accept ev.fd q false shut is.2 unmade)) (
            forget p ev before after task (
              find_old q p _ s.heap
                (λ same. absurd (ground (arith, ap (λ (x : ℤ). find x s.heap) same)))
              ∙ at)),
        accept_again s ev.fd q,
        find_erased ev.fd s1.map_sockfd_to_event,
      )

-- A packet is handed over, the event is registered again and reported again, and a task receives.
module _ (listenfd epoll_fd : ℤ) (s : Net) (p : ℤ) (before after : List (ℤ × Phase))
    (r : Reach (start listenfd epoll_fd) s) (ev : Event)
    (task : s.tasks ≡ before ++ ((p, receiving) ∷ after)) (at : find p s.heap ≡ some ev) where
  abbrev packet_state : Text → Net
  packet_state payload = hand_over ev payload (before ++ ((p, handed_over) ∷ after)) s

  abbrev armed_state : Text → Net
  armed_state payload =
      rearm p ev (record { owner = p; watch = disarmed client_events }) false (before ++ after)
        (packet_state payload)

  abbrev reported_state : Text → Net
  reported_state payload =
      let u = armed_state payload in
      record u {
        tasks = (p, reported) ∷ u.tasks;
        socks = insert ev.fd (record { owner = p; watch = reported_watch client_events }) u.socks;
      }

  is_receiving :
      (ev.status ≡ 1)
      × (ev.events ≡ client_events)
      × (ev.fd ≢ s.listenfd)
      × (find ev.fd s.socks ≡ some (record { owner = p; watch = disarmed client_events }))
  is_receiving =
      structure_at s p ev 1 (some (disarmed client_events)) at
        (busy_at s p receiving before after task (Reach-Agrees listenfd epoll_fd s r)).0.1

  Reach-reported :
      (payload : Text) (results rest : List Text)
      → recv_task results ≡ delivered payload rest
      → Reach (start listenfd epoll_fd) (reported_state payload)
  unfolding hand_over rearm
  Reach-reported payload results rest got =
      let again = add_again ev (disarmed client_events) is_receiving.0 is_receiving.1 refl in
      let u = armed_state payload in
      next
        (next (next r (produce p ev payload results rest before after task at got)) (
          register p ev (record { owner = p; watch = disarmed client_events }) false before after
            refl at is_receiving.3))
        (report ev.fd p client_events (
          ap (λ (f : ℤ). find f u.socks) (sym again.0)
          ∙ find_new (eventadd ev ev.events).fd _ s.socks
          ∙ ap (λ (w : Watch). some (record { owner = p; watch = w })) again.3))

  -- The client has hung up: the same thread's next task reads nothing, and the descriptor is closed.
  module _ (payload : Text) (results rest : List Text)
      (got : recv_task results ≡ delivered payload rest) where
    abbrev new : Event
    new = eventadd ev ev.events

    abbrev tasks_at : Phase → List (ℤ × Phase)
    tasks_at ph = (p, ph) ∷ (before ++ after)

    abbrev receiving_state : Net
    receiving_state = record (reported_state payload) { tasks = tasks_at receiving }

    has_new : find p (reported_state payload).heap ≡ some new
    unfolding hand_over rearm
    has_new = find_new p new s.heap

    new_fields : (new.fd ≡ ev.fd) × (new.status ≡ 1)
    new_fields =
        let again = add_again ev (disarmed client_events) is_receiving.0 is_receiving.1 refl in
        (again.0, again.1)

    same_listener : (reported_state payload).listenfd ≡ s.listenfd
    unfolding hand_over rearm
    same_listener = refl

    its_tasks : (reported_state payload).tasks ≡ tasks_at reported
    unfolding hand_over rearm
    its_tasks = refl

    Reach-receiving : Reach (start listenfd epoll_fd) receiving_state
    unfolding turn
    Reach-receiving =
        next
          (next (Reach-reported payload results rest got) (
            receive p new [] (before ++ after) its_tasks has_new (
              ground (
                arith,
                eq_ℤ_iff new.fd (reported_state payload).listenfd,
                new_fields.0,
                same_listener,
                is_receiving.2,
              ))))
          (begin p [] (before ++ after) refl)

    abbrev unlisted_state : Net
    unlisted_state =
        unlist p new (record { owner = p; watch = disarmed client_events }) (tasks_at unlisted)
          receiving_state

    abbrev closed_state : Net
    closed_state = close_fd (eventdel new) (tasks_at closed) unlisted_state

    Reach-closed : Reach (start listenfd epoll_fd) closed_state
    unfolding unlist recv_task
    Reach-closed =
        let sock =
          (structure_at receiving_state p new 1 (some (disarmed client_events)) has_new
            (busy_at receiving_state p receiving [] (before ++ after) refl
              (Reach-Agrees listenfd epoll_fd receiving_state Reach-receiving)).0.1).3 in
        next
          (next Reach-receiving (
            hang_up p new (record { owner = p; watch = disarmed client_events }) ([] ∷ []) []
              (before ++ after) refl has_new sock refl))
          (close p (eventdel new) [] (before ++ after) refl
            (find_new p (eventdel new) (reported_state payload).heap))

    closed_socks : find ev.fd closed_state.socks ≡ none
    unfolding unlist
    closed_socks =
        let del = del_listed new (disarmed client_events) new_fields.1 in
        ap (λ (f : ℤ). find f closed_state.socks) (sym new_fields.0 ∙ sym del.0)
        ∙ find_erased (eventdel new).fd unlisted_state.socks

    closed_heap : (q : ℤ) → find q s.heap ≡ none → find q closed_state.heap ≡ none
    unfolding hand_over rearm unlist
    closed_heap q e =
        still_unmade p q new (eventdel new) (reported_state payload).heap has_new
          (still_unmade p q ev new s.heap at e)

    closed_buffers :
        closed_state.buffers ≡ s.buffers ++ (record { sockfd = ev.fd; buf = payload } ∷ [])
    unfolding hand_over rearm unlist
    closed_buffers = refl

    closed_listener : closed_state.listenfd ≡ s.listenfd
    unfolding hand_over rearm unlist
    closed_listener = refl

-- A thread receives a packet from a connection, and the event loop can make a new event structure. Then
-- a state is reached in which the packet still waits for its handler under the number of the
-- connection's descriptor, and that number is the open descriptor of another connection: the handler's
-- reply goes to the other client.
pub Reach-misdirected :
    (listenfd epoll_fd : ℤ) (s : Net) (p q : ℤ) (ev : Event) (before after : List (ℤ × Phase))
    (payload : Text) (results rest : List Text)
    → Reach (start listenfd epoll_fd) s
    → s.tasks ≡ before ++ ((p, receiving) ∷ after)
    → find p s.heap ≡ some ev
    → find q s.heap ≡ none
    → recv_task results ≡ delivered payload rest
    → (t : Net) × Reach (start listenfd epoll_fd) t
      × (t.buffers ≡ s.buffers ++ (record { sockfd = ev.fd; buf = payload } ∷ []))
      × (find ev.fd t.socks ≡ some (record { owner = q; watch = armed client_events }))
unfolding accept_event
Reach-misdirected listenfd epoll_fd s p q ev before after payload results rest r task at unmade
      got =
    let u = closed_state listenfd epoll_fd s p before after r ev task at payload results rest got in
    (
      accept_event (some ev.fd) q false u,
      next (Reach-closed listenfd epoll_fd s p before after r ev task at payload results rest got) (
          accept ev.fd q false
            (closed_socks listenfd epoll_fd s p before after r ev task at payload results rest got)
            (λ e. (is_receiving listenfd epoll_fd s p before after r ev task at).2 (
              e
              ∙ closed_listener listenfd epoll_fd s p before after r ev task at payload results rest
                  got))
            (closed_heap listenfd epoll_fd s p before after r ev task at payload results rest got q
              unmade)),
      closed_buffers listenfd epoll_fd s p before after r ev task at payload results rest got,
      accept_again u ev.fd q,
    )
