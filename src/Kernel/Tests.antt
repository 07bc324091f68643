-- ===== src/Kernel/Tests.antt =====
-- The dispatch of a packet, at a login request.
use nest_disk.Base.{true, false, pos, ◌≡◌, ◌↔◌, [], ◌∷◌, ◌++◌, arith}
use nest_disk.Net.Frame.{le_bytes}
use nest_disk.Net.Loop.{start}
use nest_disk.Kernel.Open.{Os, loops, null_net, main}
use nest_disk.Kernel.Open.Started.{IsReady, main-loops}
use nest_disk.Kernel.{login_rq, deal_data, set_net_pack_map, calls, overread}
use nest_disk.Kernel.Protocol.{pack_type, deal_data-pack_type}

deal_data-pack_type_example :
    ((deal_data set_net_pack_map (le_bytes 10002 ++ (1 ∷ 2 ∷ [])) ≡ calls login_rq)
      ↔ (10002 ≡ pack_type login_rq))
    × ¬ (deal_data set_net_pack_map (le_bytes 10002 ++ (1 ∷ 2 ∷ [])) ≡ overread)
deal_data-pack_type_example = deal_data-pack_type 10002 (1 ∷ 2 ∷ []) login_rq (omega arith)

-- All calls succeed.
abbrev good_start : Os
good_start = record {
  mysql_connects = true;
  threads_start = true;
  socket = pos 3;
  setsockopt = pos 0;
  bind = pos 0;
  listen = pos 0;
  epoll_create = pos 4;
}

main-loops_example :
    ((main good_start (pos 8000) ≡ loops (start (pos 3) (pos 4)) set_net_pack_map) ↔ (
      IsReady good_start
      × (start (pos 3) (pos 4) ≡ start (pos 3) (pos 4))
      × (set_net_pack_map ≡ set_net_pack_map)))
    × ((main good_start (pos 8000) ≡ null_net) ↔ (true ≡ false))
main-loops_example = main-loops good_start (pos 8000) (start (pos 3) (pos 4)) set_net_pack_map
