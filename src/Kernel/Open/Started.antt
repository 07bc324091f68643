-- ===== src/Kernel/Open/Started.antt =====
-- When the program enters its event loop.
use nest_disk.Base.{
  ℤ, negsuc, eq_ℤ, eq_ℤ_iff, ◌≡◌, ◌≢◌, ◌↔◌, refl, sym, subst, ap, ◌∙◌, Bool, true, false, arith,
}
use nest_disk.Net.Loop.{Net, start}
use nest_disk.Kernel.{Table, set_net_pack_map}
use nest_disk.Kernel.Open.{
  Os, Run, ends, loops, null_net, main, kernel_open, finish_open, init_net, init_thread_pool,
  make_socket, bind_to, listen_on, watch_listener, event_loop, get_instance,
}

-- Everything that is checked at start-up succeeds.
abbrev pub IsReady : Os → Type 0
IsReady os =
    (os.mysql_connects ≡ true)
    × (os.threads_start ≡ true)
    × (os.socket ≢ negsuc 0)
    × (os.setsockopt ≢ negsuc 0)
    × (os.bind ≢ negsuc 0)
    × (os.listen ≢ negsuc 0)

-- The run by whether MySQL can be connected, the threads start, and whether the calls return -1.
abbrev run_by : Bool → Bool → Bool → Bool → Bool → Bool → Os → Run
run_by false t a b c d os = null_net
run_by true true false false false false os =
    loops (start os.socket os.epoll_create) set_net_pack_map
run_by true _ _ _ _ _ os = ends (negsuc 0)

abbrev TestsAs : ℤ → Bool → Type 0
TestsAs a b = eq_ℤ a (negsuc 0) ≡ b

main-run_by :
    (m t a b c d : Bool) (os : Os) (port : ℤ)
    → os.mysql_connects ≡ m
    → os.threads_start ≡ t
    → TestsAs os.socket a
    → TestsAs os.setsockopt b
    → TestsAs os.bind c
    → TestsAs os.listen d
    → main os port ≡ run_by m t a b c d os
unfolding main kernel_open finish_open init_net init_thread_pool make_socket bind_to listen_on
    watch_listener event_loop get_instance
main-run_by false t a b c d os port em et ea eb ec ed = rw (em) refl
main-run_by true false a b c d os port em et ea eb ec ed = rw (em, et) refl
main-run_by true true true b c d os port em et ea eb ec ed = rw (em, et, ea) refl
main-run_by true true false true c d os port em et ea eb ec ed = rw (em, et, ea, eb) refl
main-run_by true true false false true d os port em et ea eb ec ed = rw (em, et, ea, eb, ec) refl
main-run_by true true false false false true os port em et ea eb ec ed =
    rw (em, et, ea, eb, ec, ed) refl
main-run_by true true false false false false os port em et ea eb ec ed =
    rw (em, et, ea, eb, ec, ed) refl

abbrev Loops : Run → Os → Net → Table → Type 0
Loops r os net table =
    ((r ≡ loops net table)
      ↔ (IsReady os × (net ≡ start os.socket os.epoll_create) × (table ≡ set_net_pack_map)))
    × ((r ≡ null_net) ↔ (os.mysql_connects ≡ false))

ended :
    (os : Os) (net : Net) (table : Table)
    → os.mysql_connects ≡ true
    → ¬ IsReady os
    → Loops (ends (negsuc 0)) os net table
ended os net table em h = (
  (λ e. absurd (ground (arith, e)), λ r. absurd (h r.0)),
  (λ e. absurd (ground (arith, e)), λ e. absurd (ground (arith, em, e))),
)

ne_failure : (a : ℤ) → TestsAs a false → a ≢ negsuc 0
ne_failure a h e = ground (arith, eq_ℤ_iff a (negsuc 0))

abbrev net_of : Net → Run → Net
net_of d (loops net table) = net
net_of d _ = d

abbrev table_of : Table → Run → Table
table_of d (loops net table) = table
table_of d _ = d

run_by-Loops :
    (m t a b c d : Bool) (os : Os) (net : Net) (table : Table)
    → os.mysql_connects ≡ m
    → os.threads_start ≡ t
    → TestsAs os.socket a
    → TestsAs os.setsockopt b
    → TestsAs os.bind c
    → TestsAs os.listen d
    → Loops (run_by m t a b c d os) os net table
run_by-Loops false t a b c d os net table em et ea eb ec ed =
    ((λ e. absurd (ground (arith, e)), λ r. absurd (ground (arith, r.0.0))), (λ e. em, λ e. refl))
run_by-Loops true false a b c d os net table em et ea eb ec ed =
    ended os net table em (λ r. ground (arith, r.1))
run_by-Loops true true true b c d os net table em et ea eb ec ed =
    ended os net table em (λ r. r.2 ((eq_ℤ_iff os.socket (negsuc 0)).0 ea))
run_by-Loops true true false true c d os net table em et ea eb ec ed =
    ended os net table em (λ r. r.3 ((eq_ℤ_iff os.setsockopt (negsuc 0)).0 eb))
run_by-Loops true true false false true d os net table em et ea eb ec ed =
    ended os net table em (λ r. r.4 ((eq_ℤ_iff os.bind (negsuc 0)).0 ec))
run_by-Loops true true false false false true os net table em et ea eb ec ed =
    ended os net table em (λ r. r.5 ((eq_ℤ_iff os.listen (negsuc 0)).0 ed))
run_by-Loops true true false false false false os net table em et ea eb ec ed = (
  (
    λ e. (
      (em, et, ne_failure _ ea, ne_failure _ eb, ne_failure _ ec, ne_failure _ ed),
      sym (ap (net_of net) e),
      sym (ap (table_of table) e),
    ),
    λ r.
        ap (λ (n : Net). loops n set_net_pack_map) (sym r.1)
        ∙ ap (λ (u : Table). loops net u) (sym r.2),
  ),
  (λ e. absurd (ground (arith, e)), λ e. absurd (ground (arith, em, e))),
)

-- The program enters its event loop exactly if MySQL can be connected, the threads start and no call
-- for the listening socket fails; the loop then begins without connections, with the protocol table
-- filled. It calls the loop of a null pointer exactly if MySQL cannot be connected.
pub main-loops :
    (os : Os) (port : ℤ) (net : Net) (table : Table)
    → ((main os port ≡ loops net table)
        ↔ (IsReady os × (net ≡ start os.socket os.epoll_create) × (table ≡ set_net_pack_map)))
      × ((main os port ≡ null_net) ↔ (os.mysql_connects ≡ false))
main-loops os port net table =
    subst (λ (r : Run). Loops r os net table)
      (sym (main-run_by _ _ _ _ _ _ os port refl refl refl refl refl refl))
      (run_by-Loops _ _ _ _ _ _ os net table refl refl refl refl refl refl)
