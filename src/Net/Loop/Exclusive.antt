-- ===== src/Net/Loop/Exclusive.antt =====
-- What holds in every state that the event loop and its threads reach.
use nest_disk.Base.{◌≡◌, ◌≢◌, refl, ◌∙◌, ap, sym, ℤ, some, List, [], ◌∷◌, ◌++◌, arith}
use mathlib.Core.List.{append_assoc}
use nest_disk.MyMap.{find}
use nest_disk.Net.Event.{Event}
use nest_disk.Net.Loop.{
  client_events, Watch, armed, disarmed, Sock, Phase, reported, queued, receiving, handed_over,
  unlisted, closed, erased, Net, start, turn, receives, Step, accept_fails, accept, report, receive,
  begin, produce, register, hang_up, close, forget, free, deal, Reach, here, next, hand_over, rearm,
  unlist, close_fd, erase_fd, delete_event,
}
use nest_disk.Net.Loop.Life.{uses-append, uses, Life, gone, Agrees, Inv, busy_at, uses_self}
use nest_disk.Net.Loop.Descriptors.{other_fd}
use nest_disk.Net.Loop.OneShot.{accept-Inv, report-Inv, move-Inv}
use nest_disk.Net.Loop.Calls.{register-Inv, hang_up-Inv, close-Inv, free-Inv}

start-Inv : (listenfd epoll_fd : ℤ) → Inv (start listenfd epoll_fd)
unfolding start uses find
start-Inv listenfd epoll_fd p = (gone, (refl, (λ fd w h. absurd (ground (arith, h))), refl))

pub Step-Inv : (s t : Net) → Inv s → Step s t → Inv t
unfolding nest_disk.Net.Loop.accept_event hand_over
Step-Inv s t inv (accept_fails p) = inv
Step-Inv s t inv (accept fd p lacks shut other unmade) =
    accept-Inv s fd p lacks inv shut other unmade
Step-Inv s t inv (report fd p e at) = report-Inv s fd p e inv at
Step-Inv s t inv (receive p ev before after task at turns) =
    move-Inv s t p reported queued before after inv task refl refl refl refl (refl, refl)
Step-Inv s t inv (begin p before after task) =
    move-Inv s t p queued receiving before after inv task refl refl refl refl (refl, refl)
Step-Inv s t inv (produce p ev payload results rest before after task at got) =
    move-Inv s t p receiving handed_over before after inv task refl refl refl refl (refl, refl)
Step-Inv s t inv (register p ev k lacks before after task at sock) =
    register-Inv s p before after inv ev k lacks task at sock
Step-Inv s t inv (hang_up p ev k results before after task at sock got) =
    hang_up-Inv s p before after inv ev k task at sock
Step-Inv s t inv (close p ev before after task at) = close-Inv s p before after inv ev task at
Step-Inv s t inv (forget p ev before after task at) =
    move-Inv s t p closed erased before after inv task refl refl refl refl (refl, refl)
Step-Inv s t inv (free p before after task) = free-Inv s p before after inv task
Step-Inv s t inv (deal b before after at) = λ p. inv p

-- In every state that is reached from the start, an event structure is in one of four conditions. It
-- does not exist, is not in use and no open descriptor was opened for it. Or its descriptor is open and
-- armed for one report of data, and it is not in use. Or it is not in use, and its descriptor is open
-- and not armed: the first registration has failed and epoll does not know it, or a later one has failed
-- and it is left disarmed. Or it is in use in exactly one place, it has not been deleted, and its
-- descriptor is not armed: up to `eventdel` it is open and registered, then open, then closed.
pub Reach-Agrees :
    (listenfd epoll_fd : ℤ) (s : Net)
    → Reach (start listenfd epoll_fd) s
    → (p : ℤ) → (l : Life) × Agrees s p l
Reach-Agrees listenfd epoll_fd s here = start-Inv listenfd epoll_fd
Reach-Agrees listenfd epoll_fd s (next r step) =
    Step-Inv _ s (Reach-Agrees listenfd epoll_fd _ r) step

not_nil : (a b : List Phase) (f : Phase) → a ++ (f ∷ b) ≢ []
not_nil [] b f e = ground arith
not_nil (x ∷ a) b f e = ground arith

-- Two places in the list of tasks are uses of different structures.
two_tasks :
    (s : Net) (p q : ℤ) (f g : Phase) (a b c : List (ℤ × Phase))
    → Inv s
    → s.tasks ≡ a ++ ((p, f) ∷ (b ++ ((q, g) ∷ c)))
    → p ≢ q
two_tasks s p q f g a b c inv at e =
    let first =
      uses-append p a ((p, f) ∷ b) ∙ ap (λ (l : List Phase). uses p a ++ l) (uses_self p f b) in
    let second =
      (busy_at s q g (a ++ ((p, f) ∷ b)) c (at ∙ sym (append_assoc a ((p, f) ∷ b) ((q, g) ∷ c)))
        inv).1 in
    not_nil (uses p a) (uses p b) f
      (sym first ∙ ap (λ (x : ℤ). uses x (a ++ ((p, f) ∷ b))) e ∙ second)

-- When two threads of the pool are inside the receiving loops of two tasks, neither event structure has
-- been deleted, and their descriptors are different: no socket is read by two threads.
pub Reach-receiving_alone :
    (listenfd epoll_fd : ℤ) (s : Net) (p q : ℤ) (a b c : List (ℤ × Phase))
    → Reach (start listenfd epoll_fd) s
    → s.tasks ≡ a ++ ((p, receiving) ∷ (b ++ ((q, receiving) ∷ c)))
    → (ev : Event) × (fv : Event) × (find p s.heap ≡ some ev)
      × (find q s.heap ≡ some fv)
      × (ev.fd ≢ fv.fd)
Reach-receiving_alone listenfd epoll_fd s p q a b c r at =
    let inv = Reach-Agrees listenfd epoll_fd s r in
    let x = (busy_at s p receiving a (b ++ ((q, receiving) ∷ c)) at inv).0.1 in
    let y =
      (busy_at s q receiving (a ++ ((p, receiving) ∷ b)) c
        (at ∙ sym (append_assoc a ((p, receiving) ∷ b) ((q, receiving) ∷ c))) inv).0.1 in
    (
      x.0,
      y.0,
      x.1,
      y.1,
      other_fd s.socks x.0.fd p y.0.fd q (disarmed client_events) (disarmed client_events) x.5 y.5
          (two_tasks s p q receiving receiving a b c inv at),
    )
