-- ===== src/Net/Loop/OneShot.antt =====
-- In every state of the event loop and its threads, a connection is watched or in use, and not both.
use nest_disk.Base.{
  Bool, true, false, [], ℕ, ◌≡◌, ◌≢◌, refl, ◌∙◌, ap, sym, subst, ℤ, Option, none, some, List, ◌∷◌,
  ◌++◌, arith,
}
use nest_disk.MyMap.{MyMap, find, insert}
use nest_disk.Net.Event.{Event, eventset, eventadd}
use nest_disk.Net.Loop.{
  client_events, Watch, unwatched, armed, disarmed, Sock, called, reported_watch, Phase, reported,
  queued, receiving, handed_over, unlisted, closed, erased, Net, start, new_event, accept_event,
  turn, receives, hand_over, rearm, unlist, close_fd, erase_fd, with_event, delete_event, Step,
  accept_fails, accept, report, receive, begin, produce, register, hang_up, close, forget, free,
  deal, Reach, here, next,
}
use nest_disk.Net.Loop.Life.{
  uses, watch_of, Life, gone, idle, unregistered, unarmed, busy, Agrees, Exists, watch_in, uses_of,
  Inv, SameSocks, busy_at, uses_moved, moved_other, Lives, Lives-frame, status_of, uses_self,
  uses_other,
}
use nest_disk.Net.Loop.Descriptors.{
  find_new, find_old, other_fd, unused, only_fd, set-SameSocks, set-Owns, change_one,
}

-- The life of a new connection.
abbrev first_life : Bool → Life
first_life true = unregistered
first_life false = idle

abbrev first_watch : Bool → Watch
first_watch true = unwatched
first_watch false = armed client_events

accepted_watch :
    (fd efd : ℤ) (lacks : Bool)
    → called lacks (eventset fd efd) (new_event fd efd) unwatched ≡ first_watch lacks
unfolding new_event eventadd eventset called nest_disk.Net.Loop.epoll_ctl
accepted_watch fd efd true = refl
accepted_watch fd efd false = refl

module _ (s : Net) (fd p : ℤ) (lacks : Bool) where
  abbrev accepted : Net
  accepted = accept_event (some fd) p lacks s

  accepted_socks :
      accepted.socks ≡ insert fd (record { owner = p; watch = first_watch lacks }) s.socks
  unfolding accept_event
  accepted_socks =
      ap (λ (w : Watch). insert fd (record { owner = p; watch = w }) s.socks)
        (accepted_watch fd s.epoll_fd lacks)

  accepted-Lives :
      (b : Bool) → Lives accepted p 1 (some (first_watch b)) → Exists accepted p (first_life b)
  accepted-Lives true h = h
  accepted-Lives false h = h

  accepted_in : (b : Bool) → watch_in (first_life b) ≡ some (first_watch b)
  accepted_in true = refl
  accepted_in false = refl

  accepted_uses : (b : Bool) → uses_of (first_life b) ≡ []
  accepted_uses true = refl
  accepted_uses false = refl

  pub accept-Inv :
      Inv s → find fd s.socks ≡ none → fd ≢ s.listenfd → find p s.heap ≡ none → Inv accepted
  unfolding accept_event new_event eventadd eventset
  accept-Inv inv shut other unmade =
      let t = accepted in
      change_one s t p (first_life lacks) inv refl
        (
          unused s p (inv p).0 unmade (inv p).1 ∙ sym (accepted_uses lacks),
          set-Owns s t fd p (first_watch lacks) (first_life lacks) (new_event fd s.epoll_fd)
              accepted_socks (find_new p _ s.heap) refl (accepted_in lacks)
              (λ gd x at. absurd (ground (arith, ((inv p).1.1 gd x at).0.1))),
          accepted-Lives lacks (
            new_event fd s.epoll_fd,
            find_new p _ s.heap,
            refl,
            refl,
            other,
            ap (λ (m : MyMap Sock). find fd m) accepted_socks ∙ find_new fd _ s.socks,
          ),
        )
        (λ q h. refl) (λ q h. find_old p q _ s.heap h)
        (λ q h. set-SameSocks s t fd _ q accepted_socks h (λ x at. cc))

-- Nothing in use is armed.
not_armed : (ph : Phase) (e : ℕ) → watch_of ph ≢ some (armed e)
not_armed reported e h = ground arith
not_armed queued e h = ground arith
not_armed receiving e h = ground arith
not_armed handed_over e h = ground arith
not_armed unlisted e h = ground arith
not_armed closed e h = ground arith
not_armed erased e h = ground arith

idle_if_armed :
    (s : Net) (p fd : ℤ) (e : ℕ) (l : Life)
    → find fd s.socks ≡ some (record { owner = p; watch = armed e })
    → Agrees s p l
    → (l ≡ idle) × (e ≡ client_events)
idle_if_armed s p fd e gone at (us, o, ex) = absurd (ground (arith, (o fd (armed e) at).1))
idle_if_armed s p fd e idle at (us, o, ex) = (refl, ground (arith, (o fd (armed e) at).1))
idle_if_armed s p fd e unregistered at (us, o, ex) = absurd (ground (arith, (o fd (armed e) at).1))
idle_if_armed s p fd e unarmed at (us, o, ex) = absurd (ground (arith, (o fd (armed e) at).1))
idle_if_armed s p fd e (busy ph) at (us, o, ex) = absurd (not_armed ph e (o fd (armed e) at).1)

-- A report: the descriptor was armed for one report.
pub report-Inv :
    (s : Net) (fd p : ℤ) (e : ℕ)
    → Inv s
    → find fd s.socks ≡ some (record { owner = p; watch = armed e })
    → Inv (record s {
      tasks = (p, reported) ∷ s.tasks;
      socks = insert fd (record { owner = p; watch = reported_watch e }) s.socks;
    })
unfolding reported_watch
report-Inv s fd p e inv at =
    let t = record s {
      tasks = (p, reported) ∷ s.tasks;
      socks = insert fd (record { owner = p; watch = reported_watch e }) s.socks;
    } in
    let is = idle_if_armed s p fd e (inv p).0 at (inv p).1 in
    let a = subst (λ (l : Life). Agrees s p l) is.0 (inv p).1 in
    let ev = a.2.0 in
    let own = only_fd s p fd idle ev (armed e) a.1 a.2.1 at in
    let off = ap reported_watch is.1 in
    change_one s t p (busy reported) inv refl
      (
        uses_self p reported s.tasks ∙ ap (λ (l : List Phase). reported ∷ l) a.0,
        set-Owns s t fd p (reported_watch e) (busy reported) ev refl a.2.1 own (ap some (sym off))
            (λ gd x there. sym own ∙ only_fd s p gd idle ev x a.1 a.2.1 there),
        (
          ev,
          a.2.1,
          a.2.2,
          a.2.3,
          a.2.4,
          ap (λ (f : ℤ). find f t.socks) own
              ∙ find_new fd _ s.socks
              ∙ ap (λ (w : Watch). some (record { owner = p; watch = w })) off,
        ),
      )
      (λ q h. uses_other p q reported s.tasks h) (λ q h. refl)
      (λ q h.
        set-SameSocks s t fd _ q refl h
          (λ x there. other_fd s.socks fd p fd q (armed e) x at there h refl))

-- A task that goes on, while the structure and its descriptor stay as they are.
pub move-Inv :
    (s t : Net) (p : ℤ) (from to : Phase) (before after : List (ℤ × Phase))
    → Inv s
    → s.tasks ≡ before ++ ((p, from) ∷ after)
    → t.tasks ≡ before ++ ((p, to) ∷ after)
    → t.heap ≡ s.heap
    → t.socks ≡ s.socks
    → t.listenfd ≡ s.listenfd
    → (status_of from ≡ status_of to) × (watch_of from ≡ watch_of to)
    → Inv t
move-Inv s t p from to before after inv at now heap socks same kept =
    let b = busy_at s p from before after at inv in
    change_one s t p (busy to) inv same
      (
        ap (uses p) now ∙ uses_moved s p from before after at to inv,
        λ fd w there.
            let own = b.0.0 fd w ((same_socks p fd w).1 there) in
            (
              (own.0.0, ap (λ (m : MyMap Event). find p m) heap ∙ own.0.1, own.0.2),
              sym kept.1 ∙ own.1,
            ),
        subst (λ (n : ℕ). Lives t p n (watch_of to)) kept.0
            (subst (λ (w : Option Watch). Lives t p (status_of from) w) kept.1
              (Lives-frame s t p (status_of from) (watch_of from)
                (ap (λ (m : MyMap Event). find p m) heap) same (same_socks p) b.0.1)),
      )
      (λ q h. ap (uses q) now ∙ moved_other s p from before after at to q h)
      (λ q h. ap (λ (m : MyMap Event). find q m) heap) (λ q h. same_socks q)
  where
    same_socks : (q : ℤ) → SameSocks s t q
    same_socks q fd x = (
      λ h. ap (λ (m : MyMap Sock). find fd m) socks ∙ h,
      λ h. ap (λ (m : MyMap Sock). find fd m) (sym socks) ∙ h,
    )
