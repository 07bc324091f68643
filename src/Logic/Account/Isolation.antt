-- ===== src/Logic/Account/Isolation.antt =====
-- src/clogic.cpp: what the pieces of the handlers in Account send, and to whom.
use nest_disk.Base.{ℤ, Text, List, [], ◌∷◌}
use nest_disk.Packet.{def_pack_login_rs, def_pack_register_rs, LoginRq, RegisterRq}
use nest_disk.Env.Isolation.{to, OnlyTo}
use nest_disk.Env.Pieces.{pieces}
use nest_disk.Logic.Account.{
  make_user_dir, find_id, create_user, register_found, register_rq, keep_session, let_in,
  login_found, login_answer, login_rq,
}

pub make_user_dir-OnlyTo :
    (fd : ℤ) (l : List Text) → OnlyTo (to fd (def_pack_register_rs ∷ [])) (make_user_dir fd l)
unfolding make_user_dir
make_user_dir-OnlyTo fd [] = search pieces depth 30
make_user_dir-OnlyTo fd (t ∷ strlst) = search pieces depth 30

pub find_id-OnlyTo :
    (fd : ℤ) (rq : RegisterRq) → OnlyTo (to fd (def_pack_register_rs ∷ [])) (find_id rq fd)
unfolding find_id
find_id-OnlyTo fd rq = search (pieces, make_user_dir-OnlyTo) depth 30

pub create_user-OnlyTo :
    (fd : ℤ) (rq : RegisterRq) → OnlyTo (to fd (def_pack_register_rs ∷ [])) (create_user rq fd)
unfolding create_user
create_user-OnlyTo fd rq = search (pieces, find_id-OnlyTo) depth 30

pub register_found-OnlyTo :
    (fd : ℤ) (rq : RegisterRq) (l : List Text)
    → OnlyTo (to fd (def_pack_register_rs ∷ [])) (register_found rq fd l)
unfolding register_found
register_found-OnlyTo fd rq [] = search (pieces, create_user-OnlyTo) depth 30
register_found-OnlyTo fd rq (_ ∷ _) = search (pieces, create_user-OnlyTo) depth 30

pub register_rq-OnlyTo :
    (fd : ℤ) (rq : RegisterRq) → OnlyTo (to fd (def_pack_register_rs ∷ [])) (register_rq rq fd)
unfolding register_rq
register_rq-OnlyTo fd rq = search (pieces, register_found-OnlyTo) depth 30

pub keep_session-OnlyTo :
    (fd : ℤ) (id : ℤ) (name : Text)
    → OnlyTo (to fd (def_pack_login_rs ∷ [])) (keep_session id fd name)
unfolding keep_session
keep_session-OnlyTo fd id name = search pieces depth 30

pub let_in-OnlyTo :
    (fd : ℤ) (id : ℤ) (name : Text) → OnlyTo (to fd (def_pack_login_rs ∷ [])) (let_in fd id name)
unfolding let_in
let_in-OnlyTo fd id name = search (pieces, keep_session-OnlyTo) depth 30

pub login_found-OnlyTo :
    (fd : ℤ) (rq : LoginRq) (lststr : List Text)
    → OnlyTo (to fd (def_pack_login_rs ∷ [])) (login_found rq fd lststr)
unfolding login_found
login_found-OnlyTo fd rq lststr = search (pieces, let_in-OnlyTo) depth 30

pub login_answer-OnlyTo :
    (fd : ℤ) (rq : LoginRq) (l : List Text)
    → OnlyTo (to fd (def_pack_login_rs ∷ [])) (login_answer rq fd l)
unfolding login_answer
login_answer-OnlyTo fd rq [] = search (pieces, login_found-OnlyTo) depth 30
login_answer-OnlyTo fd rq (t ∷ ts) = search (pieces, login_found-OnlyTo) depth 30

pub login_rq-OnlyTo :
    (fd : ℤ) (rq : LoginRq) → OnlyTo (to fd (def_pack_login_rs ∷ [])) (login_rq rq fd)
unfolding login_rq
login_rq-OnlyTo fd rq = search (pieces, login_answer-OnlyTo) depth 30
