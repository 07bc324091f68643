-- ===== src/Net/Tests/Connections.antt =====
-- Two connections, and the states in which both are being received.
use nest_disk.Base.{false, ◌≡◌, ◌≢◌, refl, ℤ, pos, some, List, [], ◌∷◌, Text, arith}
use nest_disk.Net.Event.{Event, eventdel}
use nest_disk.Net.Frame.{Received, delivered, recv_task, le_bytes}
use nest_disk.Net.Loop.{
  client_events, armed, disarmed, Phase, reported, queued, receiving, Net, start, new_event,
  accept_event, reported_watch, Step, accept, report, receive, begin, hang_up, close, unlist,
  close_fd, unlisted, closed, Reach, here, next,
}
use nest_disk.MyMap.{find, insert}
use nest_disk.Net.Loop.Life.{Life, Agrees}
use nest_disk.Net.Loop.Exclusive.{Reach-Agrees, Reach-receiving_alone}
use nest_disk.Net.Loop.Reuse.{Reach-misdirected}

abbrev s0 : Net
s0 = start (pos 3) (pos 4)

abbrev s1 : Net
s1 = accept_event (some (pos 7)) (pos 100) false s0

abbrev s2 : Net
s2 = accept_event (some (pos 8)) (pos 200) false s1

two_accepted : Reach s0 s2
unfolding find start accept_event insert
two_accepted =
    next (next here (accept (pos 7) (pos 100) false refl (λ e. ground arith) refl))
      (accept (pos 8) (pos 200) false refl (λ e. ground arith) refl)

abbrev report_of : ℤ → ℤ → Net → Net
report_of fd p s = record s {
  tasks = (p, reported) ∷ s.tasks;
  socks = insert fd (record { owner = p; watch = reported_watch client_events }) s.socks;
}

abbrev s3 : Net
s3 = report_of (pos 8) (pos 200) (report_of (pos 7) (pos 100) s2)

both_reported : Reach s0 s3
unfolding find start accept_event insert nest_disk.Net.Loop.called new_event
    nest_disk.Net.Event.eventadd nest_disk.Net.Event.eventset nest_disk.Net.Loop.epoll_ctl
both_reported =
    next (next two_accepted (report (pos 7) (pos 100) client_events refl))
      (report (pos 8) (pos 200) client_events refl)

abbrev with_tasks : Phase → Phase → Net
with_tasks f g = record s3 { tasks = (pos 200, f) ∷ (pos 100, g) ∷ [] }

both_receiving : Reach s0 (with_tasks receiving receiving)
unfolding find start accept_event insert nest_disk.Net.Loop.turn new_event
    nest_disk.Net.Event.eventadd nest_disk.Net.Event.eventset
both_receiving =
    next
      (next
        (next
          (next both_reported (
            receive (pos 200) (new_event (pos 8) (pos 4)) [] ((pos 100, reported) ∷ []) refl refl
              refl))
          (receive (pos 100) (new_event (pos 7) (pos 4)) ((pos 200, queued) ∷ []) [] refl refl
            refl))
        (begin (pos 200) [] ((pos 100, queued) ∷ []) refl))
      (begin (pos 100) ((pos 200, receiving) ∷ []) [] refl)

Reach-Agrees_example : (l : Life) × Agrees (with_tasks receiving receiving) (pos 100) l
Reach-Agrees_example =
    Reach-Agrees (pos 3) (pos 4) (with_tasks receiving receiving) both_receiving (pos 100)

Reach-receiving_alone_example :
    (ev : Event) × (fv : Event) × (find (pos 200) (with_tasks receiving receiving).heap ≡ some ev)
    × (find (pos 100) (with_tasks receiving receiving).heap ≡ some fv)
    × (ev.fd ≢ fv.fd)
Reach-receiving_alone_example =
    Reach-receiving_alone (pos 3) (pos 4) (with_tasks receiving receiving) (pos 200) (pos 100) [] []
      [] both_receiving refl

-- A packet of one byte.
abbrev one_byte : List Text
one_byte = le_bytes 1 ∷ (65 ∷ []) ∷ []

one_byte_read : recv_task one_byte ≡ delivered (65 ∷ []) []
unfolding recv_task nest_disk.Net.Frame.recv_loop le_bytes nest_disk.Net.Frame.from_le
one_byte_read = refl

Reach-misdirected_example :
    (t : Net) × Reach s0 t
    × (t.buffers ≡ record { sockfd = pos 7; buf = 65 ∷ [] } ∷ [])
    × (find (pos 7) t.socks ≡ some (record { owner = pos 300; watch = armed client_events }))
unfolding find start accept_event insert new_event nest_disk.Net.Event.eventadd
    nest_disk.Net.Event.eventset
Reach-misdirected_example =
    Reach-misdirected (pos 3) (pos 4) (with_tasks receiving receiving) (pos 100) (pos 300)
      (new_event (pos 7) (pos 4)) ((pos 200, receiving) ∷ []) [] (65 ∷ []) one_byte []
      both_receiving refl refl refl one_byte_read

-- The first connection ends, up to its `close`.
abbrev unlisted_state : Net
unlisted_state =
    unlist (pos 100) (new_event (pos 7) (pos 4))
      (record { owner = pos 100; watch = disarmed client_events })
      ((pos 200, receiving) ∷ (pos 100, unlisted) ∷ []) (with_tasks receiving receiving)

abbrev closed_state : Net
closed_state =
    close_fd (eventdel (new_event (pos 7) (pos 4))) ((pos 200, receiving) ∷ (pos 100, closed) ∷ [])
      unlisted_state

first_closed : Reach s0 closed_state
unfolding find start accept_event insert nest_disk.Net.Loop.called new_event
    nest_disk.Net.Event.eventadd nest_disk.Net.Event.eventset nest_disk.Net.Loop.epoll_ctl
    nest_disk.Net.Loop.reported_watch recv_task unlist
first_closed =
    next
      (next both_receiving (
        hang_up (pos 100) (new_event (pos 7) (pos 4))
          (record { owner = pos 100; watch = disarmed client_events }) ([] ∷ [])
          ((pos 200, receiving) ∷ []) [] refl refl refl refl))
      (close (pos 100) (eventdel (new_event (pos 7) (pos 4))) ((pos 200, receiving) ∷ []) [] refl
        refl)
