-- ===== src/Logic/Account/Login.antt =====
-- Who gets a session from `LoginRq`.
use nest_disk.Base.{
  ℕ, zero, suc, ◌+◌, ◌<◌, ◌≡◌, refl, ◌∙◌, ap, sym, ◌⊎◌, inl, inr, ℤ, pos, Text, text_eq,
  text_eq_iff, Bool, true, false, not, Bool-cases, Option-cases, Option, none, some, List, [], ◌∷◌,
  ◌++◌, length, stoi, bound, format, arith, if◌then◌else◌,
}
use nest_disk.Packet.{LoginRq, login_rs, password_error, login_success, max_size, def_content_size}
use nest_disk.MyMap.{insert}
use nest_disk.Env.{
  Sys, Server, Row, Out, ok, returned, fault, spent, M, after, ◌>>=◌, ◌>>◌, pure, stop, number_of,
  pop_front, sent, queried,
}
use nest_disk.Env.Rules.{sprintf-eq-ok, copy_to-eq-ok}
use nest_disk.Mysql.{push_columns, push_rows, stored, select_mysql}
use nest_disk.Logic.Account.{
  select_password, keep_session, let_in, login_reply, login_found, login_answer, login_rq,
}

-- Whatever the system answers, the piece keeps the sessions.
abbrev Keeps : {A : Type 0} → M A → Type 0
Keeps m = (sys : Sys) (s : Server) → (m sys s).1.users ≡ s.users

module _ {A B : Type 0} where
  Keeps-after :
      (r : Out A × Server) (k : A → M B) (sys : Sys)
      → ((a : A) → Keeps (k a))
      → (after r (λ a t. k a sys t)).1.users ≡ r.1.users
  Keeps-after (ok a, s) k sys h = h a sys s
  Keeps-after (returned, s) k sys h = refl
  Keeps-after (fault e, s) k sys h = refl
  Keeps-after (spent, s) k sys h = refl

  Keeps-bind : (m : M A) (k : A → M B) → Keeps m → ((a : A) → Keeps (k a)) → Keeps (m >>= k)
  Keeps-bind m k h g sys s = Keeps-after (m sys s) k sys g ∙ h sys s

push_columns-Keeps : (n : ℕ) (lst : List Text) (row : Row) → Keeps (push_columns n lst row)
unfolding push_columns
push_columns-Keeps zero lst row sys s = refl
push_columns-Keeps (suc n) lst [] sys s = refl
push_columns-Keeps (suc n) lst (none ∷ row) sys s = refl
push_columns-Keeps (suc n) lst (some c ∷ row) sys s =
    push_columns-Keeps n (lst ++ (c ∷ [])) row sys s

push_rows-Keeps : (n : ℕ) (lst : List Text) (rows : List Row) → Keeps (push_rows n lst rows)
unfolding push_rows
push_rows-Keeps n lst [] sys s = refl
push_rows-Keeps n lst (row ∷ rows) sys s =
    Keeps-bind (push_columns n lst row) (λ l. push_rows n l rows) (push_columns-Keeps n lst row)
      (λ l. push_rows-Keeps n l rows) sys s

stored-Keeps : (n : ℕ) (lst : List Text) (o : Option (List Row)) → Keeps (stored n lst o)
stored-Keeps n lst none sys s = refl
stored-Keeps n lst (some rows) sys s =
    Keeps-bind (push_rows n lst rows) (λ l. pure (true, l)) (push_rows-Keeps n lst rows)
      (λ l sys s. refl) sys s

select_mysql-Keeps : (sql : Text) (n : ℕ) (lst : List Text) → Keeps (select_mysql sql n lst)
unfolding select_mysql
select_mysql-Keeps sql n lst sys s = elim (Bool-cases (sys.mysql_query (queried sql ∷ s.trace))) [
  | inl bad ↦ rw bad refl
  | inr good ↦ rw good (
      stored-Keeps n lst (sys.mysql_store_result (queried sql ∷ s.trace)) sys
        (record s { trace = queried sql ∷ s.trace }))
]

-- The rest of the handler once the three strings are read.
abbrev check : LoginRq → ℤ → Text → ℤ → Text → M (Unit {0})
check rq fd pass id name =
    if not (text_eq rq.password pass)
    then (login_reply fd password_error (pos 0) none >> stop)
    else let_in fd id name

-- The server after a login, for the password, the id and the name that the look-up gave.
pub logged_in : LoginRq → ℤ → Text → ℤ → Text → Server → Out (Unit {0}) × Server
logged_in rq fd pass id name s =
    if text_eq rq.password pass
    then (
      ok tt,
      record {
        users = insert id (record { userid = id; clientfd = fd; name = name }) s.users;
        files = s.files;
        trace =
            sent fd (login_rs (record { result = login_success; userid = id; name = some name }))
            ∷ s.trace;
      },
    )
    else (
      returned,
      record s {
        trace =
            sent fd (login_rs (record { result = password_error; userid = pos 0; name = none }))
            ∷ s.trace;
      },
    )

check-eq :
    (rq : LoginRq) (fd : ℤ) (pass name : Text) (id : ℤ) (sys : Sys) (s : Server)
    → length name < max_size
    → check rq fd pass id name sys s ≡ logged_in rq fd pass id name s
unfolding let_in keep_session logged_in
check-eq rq fd pass name id sys s g = elim (Bool-cases (text_eq rq.password pass)) [
  | inl right ↦ rw (right, copy_to-eq-ok max_size name sys s g) refl
  | inr wrong ↦ rw wrong refl
]

login_found-eq :
    (rq : LoginRq) (fd : ℤ) (pass t name : Text) (rest : List Text) (id : ℤ) (sys : Sys)
    (s : Server)
    → stoi t ≡ some id
    → login_found rq fd (pass ∷ t ∷ name ∷ rest) sys s ≡ check rq fd pass id name sys s
unfolding login_found pop_front number_of
login_found-eq rq fd pass t name rest id sys s n = rw (n, number_of) refl

select_password-fits :
    (rq : LoginRq) → length rq.tel < max_size → bound (select_password rq) < def_content_size
unfolding nest_disk.Base.codes
select_password-fits rq h = omega arith

login_rq-select :
    (rq : LoginRq) (fd : ℤ) (sys : Sys) (s : Server)
    → length rq.tel < max_size
    → login_rq rq fd sys s
      ≡ after
          (select_mysql (format (select_password rq)) 3 [] sys s)
          (λ r t. login_answer rq fd r.1 sys t)
unfolding login_rq
login_rq-select rq fd sys s h =
    ap (λ r. after r (λ sql t. (select_mysql sql 3 [] >>= λ q. login_answer rq fd q.1) sys t))
      (sprintf-eq-ok def_content_size (select_password rq) sys s (select_password-fits rq h))

-- The look-up of the telephone number gives a password, a number and a name that fits the packet:
-- then the request with that password gets the session, under the id of the row and on the descriptor
-- it came from, with one reply of success; with another password it gets one reply of error and the
-- sessions stay.
pub login_rq_lem :
    (rq : LoginRq) (fd : ℤ) (sys : Sys) (s s' : Server) (res : Bool) (pass t name : Text)
    (rest : List Text) (id : ℤ)
    → length rq.tel < max_size
    → length name < max_size
    → stoi t ≡ some id
    → select_mysql (format (select_password rq)) 3 [] sys s ≡ (ok (res, pass ∷ t ∷ name ∷ rest), s')
    → login_rq rq fd sys s ≡ logged_in rq fd pass id name s'
unfolding login_answer
login_rq_lem rq fd sys s s' res pass t name rest id h g n e =
    login_rq-select rq fd sys s h
    ∙ ap (λ r. after r (λ q u. login_answer rq fd q.1 sys u)) e
    ∙ login_found-eq rq fd pass t name rest id sys s' n
    ∙ check-eq rq fd pass name id sys s' g

-- The piece that follows the strings keeps the sessions if the password is another one.
login_found-Keeps :
    (rq : LoginRq) (fd : ℤ) (pass : Text) (rest : List Text)
    → text_eq rq.password pass ≡ false
    → Keeps (login_found rq fd (pass ∷ rest))
unfolding login_found pop_front number_of
login_found-Keeps rq fd pass [] wrong sys s = refl
login_found-Keeps rq fd pass (t ∷ l) wrong sys s = elim (Option-cases (stoi t)) [
  | inl p ↦ rw (p, number_of) refl
  | inr (id, p) ↦ rw (p, number_of) (last id l)
]
  where
    last :
        (id : ℤ) (l : List Text)
        → ((pop_front l >>= λ q. check rq fd pass id q.0) sys s).1.users ≡ s.users
    last id [] = refl
    last id (name ∷ l) = rw wrong refl

-- A telephone number that fits the packet's array: if the sessions are not as before the request,
-- then the look-up of that number gave the request's password first.
pub login_rq-guarded :
    (rq : LoginRq) (fd : ℤ) (sys : Sys) (s : Server)
    → length rq.tel < max_size
    → ((login_rq rq fd sys s).1.users ≡ s.users)
      ⊎ ((b : Bool) × (rest : List Text) × (s' : Server) × (select_mysql
              (format (select_password rq))
              3
              []
              sys
              s
            ≡ (ok (b, rq.password ∷ rest), s')))
unfolding login_answer
login_rq-guarded rq fd sys s h = rw (login_rq-select rq fd sys s h) (
    go (select_mysql (format (select_password rq)) 3 [] sys s)
      (select_mysql-Keeps (format (select_password rq)) 3 [] sys s))
  where
    go :
        (r : Out (Bool × List Text) × Server)
        → r.1.users ≡ s.users
        → ((after r (λ q t. login_answer rq fd q.1 sys t)).1.users ≡ s.users)
          ⊎ ((b : Bool) × (rest : List Text) × (s' : Server) × (r
                ≡ (ok (b, rq.password ∷ rest), s')))
    go (ok (b, []), t) k = inl k
    go (ok (b, p ∷ rest), t) k = elim (Bool-cases (text_eq rq.password p)) [
      | inl right ↦ inr (b, rest, t, rw (sym ((text_eq_iff rq.password p).0 right)) refl)
      | inr wrong ↦ inl (login_found-Keeps rq fd p rest wrong sys t ∙ k)
    ]
    go (returned, t) k = inl k
    go (fault e, t) k = inl k
    go (spent, t) k = inl k
