-- ===== src/Logic/Tests/Accounts.antt =====
-- Registration and login.
use nest_disk.Base.{◌≡◌, refl, ◌⊎◌, pos, Text, Bool, true, some, List, [], ◌∷◌, format, stoi, arith}
use nest_disk.Packet.{RegisterRq, LoginRq}
use nest_disk.Env.{Sys, Server, ok, queried}
use nest_disk.Mysql.{push_columns, push_rows, select_mysql}
use nest_disk.Logic.Account.{select_password, login_rq}
use nest_disk.Logic.Account.Login.{logged_in, login_rq_lem, login_rq-guarded}
use nest_disk.Logic.Tests.{fresh_server, answers}

abbrev new_user : RegisterRq
new_user = record { tel = 49 ∷ 50 ∷ []; name = 97 ∷ []; password = 120 ∷ 121 ∷ [] }

abbrev known_user : LoginRq
known_user = record { tel = 49 ∷ 50 ∷ []; password = 120 ∷ 121 ∷ [] }

-- The row of that user: the password "xy", the id 42, the name "a".
abbrev user_row : Sys
user_row = answers ((some (120 ∷ 121 ∷ []) ∷ some (52 ∷ 50 ∷ []) ∷ some (97 ∷ []) ∷ []) ∷ [])

abbrev asked : Server
asked = record fresh_server { trace = queried (format (select_password known_user)) ∷ [] }

row_found :
    select_mysql (format (select_password known_user)) 3 [] user_row fresh_server
    ≡ (ok (true, (120 ∷ 121 ∷ []) ∷ (52 ∷ 50 ∷ []) ∷ (97 ∷ []) ∷ []), asked)
unfolding select_mysql push_rows push_columns
row_found = refl

id_read : stoi (52 ∷ 50 ∷ []) ≡ some (pos 42)
unfolding stoi
id_read = refl

login_rq_lem_example :
    login_rq known_user (pos 7) user_row fresh_server
    ≡ logged_in known_user (pos 7) (120 ∷ 121 ∷ []) (pos 42) (97 ∷ []) asked
login_rq_lem_example =
    login_rq_lem known_user (pos 7) user_row fresh_server asked true (120 ∷ 121 ∷ []) (52 ∷ 50 ∷ [])
      (97 ∷ []) [] (pos 42) (omega arith) (omega arith) id_read row_found

login_rq-guarded_example :
    ((login_rq known_user (pos 7) user_row fresh_server).1.users ≡ fresh_server.users)
    ⊎ ((b : Bool) × (rest : List Text) × (s' : Server) × (select_mysql
            (format (select_password known_user))
            3
            []
            user_row
            fresh_server
          ≡ (ok (b, known_user.password ∷ rest), s')))
login_rq-guarded_example = login_rq-guarded known_user (pos 7) user_row fresh_server (omega arith)
