-- ===== src/Wire/Tests.antt =====
-- Requests as bytes, and a connection that brings two of them.
use nest_disk.Base.{◌≡◌, refl, pos, ℤ, Text, List, [], ◌∷◌, arith}
use nest_disk.Logic.Serve.{share_list_packet, header_packet}
use nest_disk.Wire.Print.{MyShareRqFits, FileHeaderRsFits}
use nest_disk.Wire.Serve.{print_request}
use nest_disk.Wire.Stream.{
  Arrival, Arrives, AllServed, receive_socket, incoming, requests, receive_socket-incoming,
}

-- The list of a user's links is asked for; its eight bytes come in two calls.
abbrev asks_shares : Arrival
asks_shares = record {
  request = share_list_packet (record { userid = pos 42 });
  header = 8 ∷ 0 ∷ 0 ∷ 0 ∷ [];
  parts = (36 ∷ 39 ∷ 0 ∷ []) ∷ (0 ∷ 42 ∷ 0 ∷ 0 ∷ 0 ∷ []) ∷ [];
}

asks_shares-Arrives : Arrives asks_shares
unfolding print_request nest_disk.Net.Frame.send_data nest_disk.Net.Frame.le_bytes
    nest_disk.Wire.Print.print_my_share_rq nest_disk.Wire.int_bytes
    nest_disk.Kernel.Protocol.pack_type nest_disk.Base.low32
asks_shares-Arrives = record {
  fits = record { userid = omega arith };
  small = omega arith;
  four = refl;
  each = tt;
  framed = refl;
}

-- A header is acknowledged; the twenty bytes come at once.
abbrev takes_header : Arrival
takes_header = record {
  request =
      header_packet
        (record { timestamp = pos 258; userid = pos 42; fileid = pos 7; result = pos 1 });
  header = 20 ∷ 0 ∷ 0 ∷ 0 ∷ [];
  parts =
      (30 ∷ 39 ∷ 0 ∷ 0 ∷ 2 ∷ 1 ∷ 0 ∷ 0 ∷ 42 ∷ 0 ∷ 0 ∷ 0 ∷ 7 ∷ 0 ∷ 0 ∷ 0 ∷ 1 ∷ 0 ∷ 0 ∷ 0 ∷ []) ∷ [];
}

takes_header-Arrives : Arrives takes_header
unfolding print_request nest_disk.Net.Frame.send_data nest_disk.Net.Frame.le_bytes
    nest_disk.Wire.Print.print_file_header_rs nest_disk.Wire.int_bytes
    nest_disk.Kernel.Protocol.pack_type nest_disk.Base.low32
takes_header-Arrives = record {
  fits = record {
    timestamp = omega arith;
    userid = omega arith;
    fileid = omega arith;
    result = omega arith;
  };
  small = omega arith;
  four = refl;
  each = tt;
  framed = refl;
}

abbrev both : List Arrival
both = asks_shares ∷ takes_header ∷ []

receive_socket-incoming_example :
    AllServed 3 3 (receive_socket (pos 9) 2 (incoming both [])) (requests (pos 9) both)
receive_socket-incoming_example =
    receive_socket-incoming 3 3 (pos 9) both [] (asks_shares-Arrives, (takes_header-Arrives, tt))
