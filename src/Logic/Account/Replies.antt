-- ===== src/Logic/Account/Replies.antt =====
-- Registration and login answer each request once.
use nest_disk.Base.{ℤ, negsuc, pos, Text, not, text_eq, eq_ℤ, List, [], ◌∷◌, some, none, refl}
use nest_disk.Packet.{
  RegisterRq, LoginRq, register_rs, login_rs, register_error, register_success, user_is_exist,
  password_error, user_not_exist, login_success, max_path_size, max_size, def_content_size,
}
use nest_disk.Env.{pure, stop, call, made_dir, sprintf, copy_to, number_of, pop_front, ◌>>◌}
use nest_disk.Env.Views.{packets}
use nest_disk.Env.Replies.{
  Early, Once, Early-bind, Once-bind, Early-if, Once-if, send_data-Once, send_stop-Early,
  send_stop-Once, copy_to-Early, sprintf-Early, number_of-Early, pop_front-Early,
  select_mysql-Early, updata_mysql-Early,
}
use nest_disk.Mysql.{select_mysql, updata_mysql}
use nest_disk.Logic.Account.{
  make_user_dir, find_id, create_user, register_found, register_rq, let_in, login_answer,
  register_reply, login_found, login_rq, login_reply, keep_session, select_tel, insert_user,
  select_id, user_dir, select_password,
}

make_user_dir-Early : (fd : ℤ) (l : List Text) → Early fd (make_user_dir fd l)
unfolding make_user_dir packets
make_user_dir-Early fd [] = λ sys s. refl
make_user_dir-Early fd (t ∷ ts) = Early-bind fd (number_of t) _ (number_of-Early fd t) λ id.
    Early-bind fd (sprintf max_path_size (user_dir id)) _
      (sprintf-Early fd max_path_size (user_dir id))
      λ path.
        Early-bind fd (call (made_dir path) (λ sys. sys.mkdir)) _ (λ sys s. refl)
          λ r.
            Early-if fd (eq_ℤ r (negsuc 0)) (register_reply fd register_error >> stop) (pure tt)
              (send_stop-Early fd (register_rs (record { result = register_error })))
              (λ sys s. refl)

find_id-Early : (rq : RegisterRq) (fd : ℤ) → Early fd (find_id rq fd)
unfolding find_id
find_id-Early rq fd =
    Early-bind fd (sprintf def_content_size (select_id rq)) _
      (sprintf-Early fd def_content_size (select_id rq))
      λ sql. Early-bind fd (select_mysql sql 1 []) _ (select_mysql-Early fd sql 1 []) λ (found, l).
        Early-if fd (not found) (register_reply fd register_error >> stop) (make_user_dir fd l)
          (send_stop-Early fd (register_rs (record { result = register_error })))
          (make_user_dir-Early fd l)

create_user-Early : (rq : RegisterRq) (fd : ℤ) → Early fd (create_user rq fd)
unfolding create_user
create_user-Early rq fd =
    Early-bind fd (sprintf def_content_size (insert_user rq)) _
      (sprintf-Early fd def_content_size (insert_user rq))
      λ sql. Early-bind fd (updata_mysql sql) _ (updata_mysql-Early fd sql) λ res.
        Early-if fd (not res) (register_reply fd register_error >> stop) (find_id rq fd)
          (send_stop-Early fd (register_rs (record { result = register_error })))
          (find_id-Early rq fd)

register_found-Once : (rq : RegisterRq) (fd : ℤ) (l : List Text) → Once fd (register_found rq fd l)
unfolding register_found
register_found-Once rq fd [] =
    Once-bind fd (create_user rq fd) _ (create_user-Early rq fd)
      λ u. send_data-Once fd (register_rs (record { result = register_success }))
register_found-Once rq fd (t ∷ ts) =
    send_data-Once fd (register_rs (record { result = user_is_exist }))

-- A registration that does not end in a fault sends exactly one packet, to the client that asked,
-- whatever the database and the file system answer.
register_rq-Once : (rq : RegisterRq) (fd : ℤ) → Once fd (register_rq rq fd)
unfolding register_rq
register_rq-Once rq fd =
    Once-bind fd (sprintf def_content_size (select_tel rq)) _
      (sprintf-Early fd def_content_size (select_tel rq))
      λ sql. Once-bind fd (select_mysql sql 1 []) _ (select_mysql-Early fd sql 1 []) λ (res, l).
        Once-if fd (not res) (register_reply fd register_error >> stop) (register_found rq fd l)
          (send_stop-Once fd (register_rs (record { result = register_error })))
          (register_found-Once rq fd l)

let_in-Once : (fd : ℤ) (id : ℤ) (name : Text) → Once fd (let_in fd id name)
unfolding let_in keep_session packets
let_in-Once fd id name =
    Once-bind fd (copy_to max_size name) _ (copy_to-Early fd max_size name) λ copied sys s.
      (login_rs (record { result = login_success; userid = id; name = some copied }), refl)

login_found-Once : (rq : LoginRq) (fd : ℤ) (l : List Text) → Once fd (login_found rq fd l)
unfolding login_found
login_found-Once rq fd l = Once-bind fd (pop_front l) _ (pop_front-Early fd l) λ (pass, l1).
    Once-bind fd (pop_front l1) _ (pop_front-Early fd l1) λ (t, l2).
      Once-bind fd (number_of t) _ (number_of-Early fd t) λ id.
        Once-bind fd (pop_front l2) _ (pop_front-Early fd l2) λ (name, l3).
          Once-if fd (not (text_eq rq.password pass))
            (login_reply fd password_error (pos 0) none >> stop) (let_in fd id name)
            (send_stop-Once fd
              (login_rs (record { result = password_error; userid = pos 0; name = none })))
            (let_in-Once fd id name)

login_answer-Once : (rq : LoginRq) (fd : ℤ) (l : List Text) → Once fd (login_answer rq fd l)
unfolding login_answer
login_answer-Once rq fd [] =
    send_data-Once fd (login_rs (record { result = user_not_exist; userid = pos 0; name = none }))
login_answer-Once rq fd (t ∷ ts) = login_found-Once rq fd (t ∷ ts)

-- A login that does not end in a fault sends exactly one packet, to the client that asked.
login_rq-Once : (rq : LoginRq) (fd : ℤ) → Once fd (login_rq rq fd)
unfolding login_rq
login_rq-Once rq fd =
    Once-bind fd (sprintf def_content_size (select_password rq)) _
      (sprintf-Early fd def_content_size (select_password rq))
      λ sql.
        Once-bind fd (select_mysql sql 3 []) _ (select_mysql-Early fd sql 3 [])
          λ (res, l). login_answer-Once rq fd l
