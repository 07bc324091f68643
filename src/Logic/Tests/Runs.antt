-- ===== src/Logic/Tests/Runs.antt =====
-- Two clients ask for their lists, and a third hears nothing.
use nest_disk.Base.{◌≡◌, pos, ℤ, List, [], ◌∷◌, arith}
use nest_disk.Env.Isolation.{to, strays}
use nest_disk.Logic.Serve.{Request, list_packet, link_packet, run, serve}
use nest_disk.Logic.Serve.Isolated.{mail, run-Absent, reply_types, serve-strays}
use nest_disk.Logic.Tests.{fresh_server, answers}

abbrev two_requests : List (ℤ × Request)
two_requests =
    (pos 7, list_packet (record { userid = pos 42; dir = b'/' ∷ [] }))
    ∷ (
      pos 8,
      link_packet (record {
        userid = pos 43;
        share_link = pos 123456789;
        dir = b'/' ∷ [];
        time = b'9' ∷ [];
      }),
    )
    ∷ []

run-Absent_example :
    mail (pos 9) (run 3 3 two_requests (answers []) fresh_server).trace
    ≡ mail (pos 9) fresh_server.trace
run-Absent_example =
    run-Absent 3 3 two_requests (pos 9) (answers []) fresh_server
      (λ e. ground arith, (λ e. ground arith, tt))

abbrev list_request : Request
list_request = list_packet (record { userid = pos 42; dir = b'/' ∷ [] })

serve-strays_example :
    strays
      (to (pos 7) (reply_types list_request))
      (serve 3 3 list_request (pos 7) (answers []) fresh_server).1.trace
    ≡ strays (to (pos 7) (reply_types list_request)) fresh_server.trace
serve-strays_example = serve-strays 3 3 list_request (pos 7) (answers []) fresh_server
