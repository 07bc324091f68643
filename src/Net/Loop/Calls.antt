-- ===== src/Net/Loop/Calls.antt =====
-- The steps that change an event structure or its descriptor, behind the receiving loop.
use nest_disk.Base.{
  Bool, true, false, [], ℕ, ◌≡◌, ◌≢◌, refl, ◌∙◌, ap, sym, subst, ℤ, Option, none, some, List, ◌∷◌,
  ◌++◌, arith,
}
use nest_disk.MyMap.{find}
use nest_disk.Net.Event.{Event, eventadd, eventdel}
use nest_disk.Net.Loop.{
  client_events, Watch, unwatched, armed, disarmed, Sock, called, reported_watch, Phase, reported,
  queued, receiving, handed_over, unlisted, closed, erased, Net, start, new_event, accept_event,
  turn, receives, hand_over, rearm, unlist, close_fd, erase_fd, with_event, delete_event, Step,
  accept_fails, accept, report, receive, begin, produce, register, hang_up, close, forget, free,
  deal, Reach, here, next,
}
use nest_disk.Net.Loop.Life.{
  HasSock, watch_in, uses, uses_of, Life, gone, idle, unarmed, busy, Exists, Owns, Inv, busy_at,
  uses_moved, uses_removed, moved_other, Lives, removed_other,
}
use nest_disk.Net.Loop.Descriptors.{
  event_or, find_new, find_old, find_erased, find_kept, find_behind, erase-SameSocks, other_fd,
  only_fd, set-SameSocks, set-Owns, change_one,
}

-- The calls on an event structure that is registered.
pub add_again :
    (ev : Event) (w : Watch)
    → ev.status ≡ 1
    → ev.events ≡ client_events
    → w ≡ disarmed client_events
    → ((eventadd ev ev.events).fd ≡ ev.fd)
      × ((eventadd ev ev.events).status ≡ 1)
      × ((eventadd ev ev.events).events ≡ client_events)
      × (called false ev (eventadd ev ev.events) w ≡ armed client_events)
unfolding eventadd called nest_disk.Net.Loop.epoll_ctl
add_again ev w st evs e = rw (e) (ground arith)

-- Nothing changes where the kernel lacks the resources.
add_refused : (ev : Event) (w : Watch) → called true ev (eventadd ev ev.events) w ≡ w
unfolding called
add_refused ev w = refl

pub del_listed :
    (ev : Event) (w : Watch)
    → ev.status ≡ 1
    → ((eventdel ev).fd ≡ ev.fd)
      × ((eventdel ev).status ≡ 0)
      × ((eventdel ev).events ≡ ev.events)
      × (called false ev (eventdel ev) w ≡ unwatched)
unfolding eventdel called nest_disk.Net.Loop.epoll_ctl
del_listed ev w st = ground arith

-- The structure that an address has is the one of its life.
pub structure_at :
    (s : Net) (p : ℤ) (ev : Event) (n : ℕ) (w : Option Watch)
    → find p s.heap ≡ some ev
    → Lives s p n w
    → (ev.status ≡ n)
      × (ev.events ≡ client_events)
      × (ev.fd ≢ s.listenfd)
      × HasSock s.socks ev.fd p w
structure_at s p ev n w at (e0, at0, st, evs, other, sock) =
    subst
      (λ (e : Event).
        (e.status ≡ n)
        × (e.events ≡ client_events)
        × (e.fd ≢ s.listenfd)
        × HasSock s.socks e.fd p w)
      (ap (event_or e0) (sym at0 ∙ at)) (st, evs, other, sock)

abbrev sock_or : Sock → Option Sock → Sock
sock_or d none = d
sock_or d (some k) = k

-- A change of a structure and of what epoll does with its descriptor.
set-Inv :
    (s : Net) (p : ℤ) (ev new : Event) (w0 w : Watch) (n : ℕ) (tasks : List (ℤ × Phase))
    (old l : Life)
    → Inv s
    → find p s.heap ≡ some ev
    → find ev.fd s.socks ≡ some (record { owner = p; watch = w0 })
    → Owns s p old
    → (uses p tasks ≡ uses_of l) × ((q : ℤ) → p ≢ q → uses q tasks ≡ uses q s.tasks)
    → (new.fd ≡ ev.fd) × (new.status ≡ n) × (new.events ≡ client_events) × (ev.fd ≢ s.listenfd)
    → watch_in l ≡ some w
    → ((t : Net) → Lives t p n (some w) → Exists t p l)
    → Inv (with_event p new (record { owner = p; watch = w }) tasks s)
set-Inv s p ev new w0 w n tasks old l inv at sock o us fields watch lives =
    let t = with_event p new (record { owner = p; watch = w }) tasks s in
    change_one s t p l inv refl
      (
        us.0,
        set-Owns s t new.fd p w l new refl (find_new p new s.heap) refl watch
            (λ gd x there. fields.0 ∙ only_fd s p gd old ev x o at there),
        lives t (
          new,
          find_new p new s.heap,
          fields.1,
          fields.2,
          (λ e. fields.3 (sym fields.0 ∙ e)),
          find_new new.fd _ s.socks,
        ),
      )
      us.1 (λ q h. find_old p q new s.heap h)
      (λ q h.
        set-SameSocks s t new.fd _ q refl h
          (λ x there. other_fd s.socks ev.fd p new.fd q w0 x sock there h (sym fields.0)))

module _ (s : Net) (p : ℤ) (before after : List (ℤ × Phase)) (inv : Inv s) where
  register_watched :
      (ev : Event) (lacks : Bool) (w : Watch) (l : Life)
      → s.tasks ≡ before ++ ((p, handed_over) ∷ after)
      → find p s.heap ≡ some ev
      → called lacks ev (eventadd ev ev.events) (disarmed client_events) ≡ w
      → uses_of l ≡ []
      → watch_in l ≡ some w
      → ((t : Net) → Lives t p 1 (some w) → Exists t p l)
      → Inv (
          rearm p ev
            (record { owner = p; watch = disarmed client_events })
            lacks
            (before ++ after)
            s)
  unfolding rearm
  register_watched ev lacks w l task at effect unused watch lives =
      let b = busy_at s p handed_over before after task inv in
      let is = structure_at s p ev 1 (some (disarmed client_events)) at b.0.1 in
      let new = eventadd ev ev.events in
      let again = add_again ev (disarmed client_events) is.0 is.1 refl in
      subst
        (λ (w : Watch).
          Inv (with_event p new (record { owner = p; watch = w }) (before ++ after) s))
        (sym effect)
        (set-Inv s p ev new (disarmed client_events) w 1 (before ++ after) (busy handed_over) l inv
          at is.3 b.0.0
          (
            uses_removed s p handed_over before after task inv ∙ sym unused,
            removed_other s p handed_over before after task,
          )
          (again.0, again.1, again.2, is.2) watch lives)

  pub register-Inv :
      (ev : Event) (k : Sock) (lacks : Bool)
      → s.tasks ≡ before ++ ((p, handed_over) ∷ after)
      → find p s.heap ≡ some ev
      → find ev.fd s.socks ≡ some k
      → Inv (rearm p ev k lacks (before ++ after) s)
  register-Inv ev k lacks task at sock =
      let b = busy_at s p handed_over before after task inv in
      let is = structure_at s p ev 1 (some (disarmed client_events)) at b.0.1 in
      subst (λ (j : Sock). Inv (rearm p ev j lacks (before ++ after) s))
        (ap (sock_or k) (sym is.3 ∙ sock)) (by_answer lacks (is.0, is.1))
    where
      by_answer :
          (b : Bool)
          → (ev.status ≡ 1) × (ev.events ≡ client_events)
          → Inv (
              rearm p ev
                (record { owner = p; watch = disarmed client_events })
                b
                (before ++ after)
                s)
      by_answer true h =
          register_watched ev true (disarmed client_events) unarmed task at
            (add_refused ev (disarmed client_events)) refl refl (λ t x. x)
      by_answer false h =
          register_watched ev false (armed client_events) idle task at
            (add_again ev (disarmed client_events) h.0 h.1 refl).3 refl refl (λ t x. x)

  pub hang_up-Inv :
      (ev : Event) (k : Sock)
      → s.tasks ≡ before ++ ((p, receiving) ∷ after)
      → find p s.heap ≡ some ev
      → find ev.fd s.socks ≡ some k
      → Inv (unlist p ev k (before ++ ((p, unlisted) ∷ after)) s)
  unfolding unlist
  hang_up-Inv ev k task at sock =
      let b = busy_at s p receiving before after task inv in
      let is = structure_at s p ev 1 (some (disarmed client_events)) at b.0.1 in
      let new = eventdel ev in
      let tasks = before ++ ((p, unlisted) ∷ after) in
      let del = del_listed ev (disarmed client_events) is.0 in
      subst (λ (j : Sock). Inv (unlist p ev j tasks s)) (ap (sock_or k) (sym is.3 ∙ sock))
        (subst (λ (w : Watch). Inv (with_event p new (record { owner = p; watch = w }) tasks s))
          (sym del.3)
          (set-Inv s p ev new (disarmed client_events) unwatched 0 tasks (busy receiving)
            (busy unlisted) inv at is.3 b.0.0
            (
              uses_moved s p receiving before after task unlisted inv,
              moved_other s p receiving before after task unlisted,
            )
            (del.0, del.1, del.2 ∙ is.1, is.2) refl (λ t x. x)))

  pub close-Inv :
      (ev : Event)
      → s.tasks ≡ before ++ ((p, unlisted) ∷ after)
      → find p s.heap ≡ some ev
      → Inv (close_fd ev (before ++ ((p, closed) ∷ after)) s)
  close-Inv ev task at =
      let b = busy_at s p unlisted before after task inv in
      let is = structure_at s p ev 0 (some unwatched) at b.0.1 in
      let tasks = before ++ ((p, closed) ∷ after) in
      let t = close_fd ev tasks s in
      change_one s t p (busy closed) inv refl
        (
          uses_moved s p unlisted before after task closed inv,
          λ gd x there.
              let old = find_behind ev.fd gd _ s.socks there in
              absurd (old.1 (only_fd s p gd (busy unlisted) ev x b.0.0 at old.0)),
          (ev, at, is.0, is.1, is.2, tt),
        )
        (moved_other s p unlisted before after task closed) (λ q h. refl)
        (λ q h.
          erase-SameSocks s t ev.fd q refl
            (λ x there. other_fd s.socks ev.fd p ev.fd q unwatched x is.3 there h refl))

  pub free-Inv :
      s.tasks ≡ before ++ ((p, erased) ∷ after) → Inv (delete_event p (before ++ after) s)
  free-Inv task =
      let b = busy_at s p erased before after task inv in
      let t = delete_event p (before ++ after) s in
      change_one s t p gone inv refl
        (
          uses_removed s p erased before after task inv,
          λ gd x there. absurd (ground (arith, (b.0.0 gd x there).1)),
          find_erased p s.heap,
        )
        (removed_other s p erased before after task) (λ q h. find_kept p q s.heap h)
        (λ q h gd x. (λ e. e, λ e. e))
