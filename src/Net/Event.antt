-- ===== src/Net/Event.antt =====
-- `myevent_s`: whether a descriptor is registered with epoll, and the `epoll_ctl` calls.
use nest_disk.Base.{
  ℕ, ℤ, ◌≡◌, ◌≢◌, refl, ◌==◌, if◌then◌else◌, Bool, true, false, List, [], ◌∷◌, length, Option, none,
  some, Option-cases, Bool-cases, inl, inr, arith,
}

-- The three operations of `epoll_ctl`, with the events that are asked for.
pub data Ctl : Type 0 where
  ctl_add ctl_mod : ℕ → Ctl
  ctl_del : Ctl

-- The fields of `myevent_s`. `calls` is no field of it: the `epoll_ctl` calls made for it, newest first.
pub record Event : Type 0 where
  pub fd : ℤ
  pub epoll_fd : ℤ
  pub events : ℕ
  pub status : ℕ
  pub calls : List Ctl

unfoldable pub eventset : ℤ → ℤ → Event
eventset fd efd = record { fd = fd; epoll_fd = efd; events = 0; status = 0; calls = [] }

unfoldable pub eventadd : Event → ℕ → Event
eventadd ev events =
    if ev.status == 1
    then record ev { events = events; calls = ctl_mod events ∷ ev.calls }
    else record ev { events = events; status = 1; calls = ctl_add events ∷ ev.calls }

unfoldable pub eventdel : Event → Event
eventdel ev = if ev.status == 1 then record ev { status = 0; calls = ctl_del ∷ ev.calls } else ev

-- The kernel's side: a descriptor is registered with its events or not. A call that does not fit fails
-- and changes nothing (EEXIST, ENOENT), and so does one for which the kernel lacks the resources
-- (ENOSPC, ENOMEM). The code looks at no result but to print it.
pub data Answer : Type 0 where
  success eexist enoent lacking : Answer

pub answer_ctl : Bool → Ctl → Option ℕ → Answer
answer_ctl lacks (ctl_add e) (some d) = eexist
answer_ctl lacks (ctl_add e) none = if lacks then lacking else success
answer_ctl lacks (ctl_mod e) none = enoent
answer_ctl lacks (ctl_mod e) (some d) = if lacks then lacking else success
answer_ctl lacks ctl_del none = enoent
answer_ctl lacks ctl_del (some d) = success

pub apply_ctl : Bool → Ctl → Option ℕ → Option ℕ
apply_ctl lacks (ctl_add e) (some d) = some d
apply_ctl lacks (ctl_add e) none = if lacks then none else some e
apply_ctl lacks (ctl_mod e) none = none
apply_ctl lacks (ctl_mod e) (some d) = if lacks then some d else some e
apply_ctl lacks ctl_del r = none

-- The registration after some calls, newest first; `lacks n` is whether the kernel lacks the resources
-- for the call that `n` calls precede.
pub replay : (ℕ → Bool) → List Ctl → Option ℕ
unfolding apply_ctl
replay lacks [] = none
replay lacks (c ∷ cs) = apply_ctl (lacks (length cs)) c (replay lacks cs)

pub data Act : Type 0 where
  add : ℕ → Act
  del : Act

pub act : Event → List Act → Event
unfolding eventadd eventdel
act ev [] = ev
act ev (add e ∷ more) = act (eventadd ev e) more
act ev (del ∷ more) = act (eventdel ev) more

-- The registration that the fields stand for.
abbrev pub registered : Event → Option ℕ
registered ev = if ev.status == 1 then some ev.events else none

-- What holds of each answer.
abbrev pub EachAnswer : (Answer → Type 0) → (ℕ → Bool) → List Ctl → Type 0
EachAnswer P lacks [] = Unit {0}
EachAnswer P lacks (c ∷ cs) =
    P (answer_ctl (lacks (length cs)) c (replay lacks cs)) × EachAnswer P lacks cs

-- A descriptor that is registered has status 1, and no call fails with EEXIST.
abbrev pub Tracked : (ℕ → Bool) → Event → Type 0
Tracked lacks ev =
    EachAnswer (λ a. a ≢ eexist) lacks ev.calls × (replay lacks ev.calls ≢ none → ev.status ≡ 1)

-- Every call succeeds, and the registration is that of the fields.
abbrev pub InStep : (ℕ → Bool) → Event → Type 0
InStep lacks ev =
    EachAnswer (λ a. a ≡ success) lacks ev.calls × (replay lacks ev.calls ≡ registered ev)

mod-ne-eexist : (b : Bool) (e : ℕ) (r : Option ℕ) → answer_ctl b (ctl_mod e) r ≢ eexist
unfolding answer_ctl
mod-ne-eexist true e none h = ground arith
mod-ne-eexist true e (some d) h = ground arith
mod-ne-eexist false e none h = ground arith
mod-ne-eexist false e (some d) h = ground arith

del-ne-eexist : (b : Bool) (r : Option ℕ) → answer_ctl b ctl_del r ≢ eexist
unfolding answer_ctl
del-ne-eexist b none h = ground arith
del-ne-eexist b (some d) h = ground arith

add-ne-eexist : (b : Bool) (e : ℕ) (r : Option ℕ) → r ≡ none → answer_ctl b (ctl_add e) r ≢ eexist
unfolding answer_ctl
add-ne-eexist true e none n h = ground arith
add-ne-eexist false e none n h = ground arith
add-ne-eexist b e (some d) n h = ground arith

module _ (lacks : ℕ → Bool) where
  -- Without status 1 the descriptor is not registered.
  unregistered : (ev : Event) → Tracked lacks ev → ev.status ≢ 1 → replay lacks ev.calls ≡ none
  unregistered ev h n = elim (Option-cases (replay lacks ev.calls)) [
    | inl out ↦ out
    | inr (d, found) ↦ absurd (n (h.1 (λ e. ground (arith, found))))
  ]

  eventadd-Tracked :
      (ev : Event) (events : ℕ) → Tracked lacks ev → Tracked lacks (eventadd ev events)
  unfolding eventadd
  eventadd-Tracked ev events h = elim (Bool-cases (ev.status == 1)) [
    | inl is1 ↦
        rw (is1, eventadd)
          (
            (mod-ne-eexist (lacks (length ev.calls)) events (replay lacks ev.calls), h.0),
            λ n. ground arith,
          )
    | inr not1 ↦
        rw (not1, eventadd)
          (
            (
              add-ne-eexist (lacks (length ev.calls)) events (replay lacks ev.calls)
                  (unregistered ev h (λ e. ground arith)),
              h.0,
            ),
            λ n. refl,
          )
  ]

  eventdel-Tracked : (ev : Event) → Tracked lacks ev → Tracked lacks (eventdel ev)
  unfolding eventdel replay apply_ctl
  eventdel-Tracked ev h = elim (Bool-cases (ev.status == 1)) [
    | inl is1 ↦
        rw (is1, eventdel)
          (
            (del-ne-eexist (lacks (length ev.calls)) (replay lacks ev.calls), h.0),
            λ n. absurd (n refl),
          )
    | inr not1 ↦ rw (not1, eventdel) h
  ]

  act-keeps-Tracked :
      (ev : Event) (acts : List Act) → Tracked lacks ev → Tracked lacks (act ev acts)
  unfolding act
  act-keeps-Tracked ev [] h = h
  act-keeps-Tracked ev (add e ∷ more) h =
      act-keeps-Tracked (eventadd ev e) more (eventadd-Tracked ev e h)
  act-keeps-Tracked ev (del ∷ more) h = act-keeps-Tracked (eventdel ev) more (eventdel-Tracked ev h)

  module _ (never : (n : ℕ) → lacks n ≡ false) where
    eventadd-InStep :
        (ev : Event) (events : ℕ) → InStep lacks ev → InStep lacks (eventadd ev events)
    unfolding eventadd replay answer_ctl apply_ctl
    eventadd-InStep ev events h = elim (Bool-cases (ev.status == 1)) [
      | inl is1 ↦ rw (is1, eventadd, h.1, is1, never (length ev.calls)) ((refl, h.0), refl)
      | inr not1 ↦ rw (not1, eventadd, h.1, not1, never (length ev.calls)) ((refl, h.0), refl)
    ]

    eventdel-InStep : (ev : Event) → InStep lacks ev → InStep lacks (eventdel ev)
    unfolding eventdel replay answer_ctl apply_ctl
    eventdel-InStep ev h = elim (Bool-cases (ev.status == 1)) [
      | inl is1 ↦ rw (is1, eventdel, h.1, is1) ((refl, h.0), refl)
      | inr not1 ↦ rw (not1, eventdel) h
    ]

    act-keeps-InStep : (ev : Event) (acts : List Act) → InStep lacks ev → InStep lacks (act ev acts)
    unfolding act
    act-keeps-InStep ev [] h = h
    act-keeps-InStep ev (add e ∷ more) h =
        act-keeps-InStep (eventadd ev e) more (eventadd-InStep ev e h)
    act-keeps-InStep ev (del ∷ more) h = act-keeps-InStep (eventdel ev) more (eventdel-InStep ev h)

-- After `eventset` and any sequence of `eventadd` and `eventdel`, whichever calls the kernel lacks the
-- resources for: no `epoll_ctl` call has failed with EEXIST, and a descriptor that is registered has
-- status 1. If it never lacks them, every call has succeeded, and the descriptor is registered exactly
-- when `status` is 1, with the events that `events` names.
pub act-Tracked :
    (lacks : ℕ → Bool) (fd efd : ℤ) (acts : List Act)
    → Tracked lacks (act (eventset fd efd) acts)
      × (((n : ℕ) → lacks n ≡ false) → InStep lacks (act (eventset fd efd) acts))
unfolding eventset replay
act-Tracked lacks fd efd acts = (
  act-keeps-Tracked lacks (eventset fd efd) acts (tt, λ n. absurd (n refl)),
  λ never. act-keeps-InStep lacks never (eventset fd efd) acts (tt, refl),
)
