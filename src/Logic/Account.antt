-- ===== src/Logic/Account.antt =====
-- src/clogic.cpp: `RegisterRq` and `LoginRq`.
pub mod Replies
pub mod Login
pub mod Isolation
use nest_disk.Base.{
  ℤ, pos, negsuc, eq_ℤ, Text, text_eq, not, Option, none, some, List, [], ◌∷◌, Piece, lit, str, int,
  if◌then◌else◌,
}
use nest_disk.Packet.{
  RegisterRq, LoginRq, register_rs, login_rs, user_is_exist, register_success, register_error,
  user_not_exist, password_error, login_success, def_content_size, max_path_size, max_size,
}
use nest_disk.MyMap.{insert}
use nest_disk.Env.{
  M, ◌>>=◌, ◌>>◌, pure, stop, modify, call, made_dir, send_data, sprintf, copy_to, number_of,
  pop_front,
}
use nest_disk.Mysql.{select_mysql, updata_mysql}

abbrev pub register_reply : ℤ → ℤ → M (Unit {0})
register_reply fd r = send_data fd (register_rs (record { result = r }))

abbrev pub select_tel : RegisterRq → List Piece
select_tel rq = lit "select u_tel from t_user where u_tel='" ∷ str rq.tel ∷ lit "';" ∷ []

abbrev pub insert_user : RegisterRq → List Piece
insert_user rq =
    lit "insert into t_user(u_name,u_tel,u_password) values('"
    ∷ str rq.name
    ∷ lit "','"
    ∷ str rq.tel
    ∷ lit "','"
    ∷ str rq.password
    ∷ lit "');"
    ∷ []

abbrev pub select_id : RegisterRq → List Piece
select_id rq = lit "select u_id from t_user where u_tel='" ∷ str rq.tel ∷ lit "';" ∷ []

abbrev pub user_dir : ℤ → List Piece
user_dir id = lit "/home/xx/Node/NetDisk/" ∷ int id ∷ lit "/" ∷ []

-- The user's directory, if the query found an id.
pub make_user_dir : ℤ → List Text → M (Unit {0})
make_user_dir fd [] = pure tt
make_user_dir fd (t ∷ strlst) = do
  id ← number_of t
  path ← sprintf max_path_size (user_dir id)
  r ← call (made_dir path) (λ sys. sys.mkdir)
  if eq_ℤ r (negsuc 0) then (register_reply fd register_error >> stop) else pure tt

-- The new user's id is asked for.
pub find_id : RegisterRq → ℤ → M (Unit {0})
find_id rq fd = do
  sql ← sprintf def_content_size (select_id rq)
  (found, strlst) ← select_mysql sql 1 []
  if not found then (register_reply fd register_error >> stop) else make_user_dir fd strlst

-- The branch for a telephone number that is not registered.
pub create_user : RegisterRq → ℤ → M (Unit {0})
create_user rq fd = do
  sql ← sprintf def_content_size (insert_user rq)
  res ← updata_mysql sql
  if not res then (register_reply fd register_error >> stop) else find_id rq fd

-- What the first query found.
pub register_found : RegisterRq → ℤ → List Text → M (Unit {0})
register_found rq fd [] = create_user rq fd >> register_reply fd register_success
register_found rq fd (_ ∷ _) = register_reply fd user_is_exist

pub register_rq : RegisterRq → ℤ → M (Unit {0})
register_rq rq fd = do
  sql ← sprintf def_content_size (select_tel rq)
  (res, strlst) ← select_mysql sql 1 []
  if not res then (register_reply fd register_error >> stop) else register_found rq fd strlst

abbrev pub login_reply : ℤ → ℤ → ℤ → Option Text → M (Unit {0})
login_reply fd r id name = send_data fd (login_rs (record { result = r; userid = id; name = name }))

abbrev pub select_password : LoginRq → List Piece
select_password rq =
    lit "select u_password,u_id,u_name from t_user where u_tel='" ∷ str rq.tel ∷ lit "'" ∷ []

-- The session that is kept for a user who has logged in. An entry that is there is overwritten in
-- every field.
pub keep_session : ℤ → ℤ → Text → M (Unit {0})
keep_session id fd name =
    modify λ s. record s {
      users = insert id (record { userid = id; clientfd = fd; name = name }) s.users;
    }

-- The branch for the right password.
pub let_in : ℤ → ℤ → Text → M (Unit {0})
let_in fd id name = do
  copied ← copy_to max_size name
  keep_session id fd copied
  login_reply fd login_success id (some copied)

-- The branch for a query that gave something.
pub login_found : LoginRq → ℤ → List Text → M (Unit {0})
login_found rq fd lststr = do
  (pass, l1) ← pop_front lststr
  (t, l2) ← pop_front l1
  id ← number_of t
  (name, l3) ← pop_front l2
  if not (text_eq rq.password pass)
      then (login_reply fd password_error (pos 0) none >> stop)
      else let_in fd id name

pub login_answer : LoginRq → ℤ → List Text → M (Unit {0})
login_answer rq fd [] = login_reply fd user_not_exist (pos 0) none
login_answer rq fd (t ∷ ts) = login_found rq fd (t ∷ ts)

-- A failed query is only logged: the list is then empty.
pub login_rq : LoginRq → ℤ → M (Unit {0})
login_rq rq fd = do
  sql ← sprintf def_content_size (select_password rq)
  (res, lststr) ← select_mysql sql 3 []
  login_answer rq fd lststr
