-- ===== src/Env.antt =====
-- The state of the server and what it asks of the system. `Sys` is the part that is not in the
-- repository: the MySQL client library and server, the file calls of the operating system and
-- `random`. Each of its answers may depend on everything that was asked before: it is given the
-- trace, newest call first, with the present call on top. Nothing else is assumed of it.
-- Handlers run on pool threads, each packet by one handler; here a handler runs without another in
-- between.
pub mod Rules
pub mod Views
pub mod Replies
pub mod Isolation
pub mod Pieces
use nest_disk.Base.{
  ℕ, ℤ, Text, Bool, Option, none, some, List, [], ◌∷◌, length, ltb, if◌then◌else◌, Piece, format,
  stoi,
}
use nest_disk.Packet.{Packet, UserInfo, FileInfo}
use nest_disk.MyMap.{MyMap}

-- The flags with which the code opens a file: O_CREAT|O_WRONLY|O_TRUNC, O_RDONLY and O_WRONLY.
pub data OpenMode : Type 0 where
  create_truncate read_only write_only : OpenMode

pub data Whence : Type 0 where
  seek_set seek_cur seek_end : Whence

pub data Effect : Type 0 where
  queried : Text → Effect
  opened : Text → OpenMode → Effect
  wrote : ℤ → Text → Effect
  fetched : ℤ → ℕ → Effect
  sought : ℤ → ℤ → Whence → Effect
  closed : ℤ → Effect
  made_dir : Text → Effect
  drew : Effect
  removed : Text → Effect
  asked_stat : Text → Effect
  ran : Text → Effect
  sent : ℤ → Packet → Effect

abbrev pub Trace : Type 0
Trace = List Effect

-- A row of a result; a NULL column is `none`.
abbrev pub Row : Type 0
Row = List (Option Text)

pub record Sys : Type 0 where
  -- `mysql_query` is nonzero: the statement failed.
  pub mysql_query : Trace → Bool
  -- `mysql_store_result` and the rows that `mysql_fetch_row` then gives; `none` is NULL.
  pub mysql_store_result : Trace → Option (List Row)
  pub open_file : Trace → ℤ
  pub write_file : Trace → ℤ
  pub read_file : Trace → ℤ × Text
  pub seek_file : Trace → ℤ
  pub mkdir : Trace → ℤ
  pub errno : Trace → ℕ
  pub random : Trace → ℕ
  pub stat : Trace → ℤ
  -- What `std::system` returns.
  pub system : Trace → ℤ

pub record Server : Type 0 where
  pub users : MyMap UserInfo
  pub files : MyMap FileInfo
  pub trace : Trace

-- What ends a handler's thread or is undefined behaviour: `front()` of an empty list, a NULL column
-- made a string, a row shorter than is read, an exception of `stoi`, a buffer that is written or read
-- past its end, and a format that asks for an argument that is not there.
pub data Fault : Type 0 where
  empty_front null_column short_row bad_number overflow overread bad_format : Fault

-- How a piece of a handler ends: with a value, by `return`, or by a fault.
pub data Out (A : Type 0) : Type 0 where
  ok : A → Out A
  returned : Out A
  fault : Fault → Out A
  -- The fuel of a loop is used up.
  spent : Out A

abbrev pub M : Type 0 → Type 0
M A = Sys → Server → Out A × Server

abbrev pub after : {A B : Type 0} → Out A × Server → (A → Server → Out B × Server) → Out B × Server
after (ok a, s) k = k a s
after (returned, s) k = (returned, s)
after (fault e, s) k = (fault e, s)
after (spent, s) k = (spent, s)

infixl 5 ◌>>=◌ ◌>>◌
abbrev pub ◌>>=◌ : {A B : Type 0} → M A → (A → M B) → M B
◌>>=◌ m k sys s = after (m sys s) (λ a t. k a sys t)

abbrev pub ◌>>◌ : {B : Type 0} → M (Unit {0}) → M B → M B
m >> k = m >>= λ _. k

abbrev pub pure : {A : Type 0} → A → M A
pure a sys s = (ok a, s)

-- `return;`
abbrev pub stop : {A : Type 0} → M A
stop sys s = (returned, s)

abbrev pub fail : {A : Type 0} → Fault → M A
fail e sys s = (fault e, s)

abbrev pub out_of_fuel : {A : Type 0} → M A
out_of_fuel sys s = (spent, s)

abbrev pub gets : {A : Type 0} → (Server → A) → M A
gets f sys s = (ok (f s), s)

abbrev pub modify : (Server → Server) → M (Unit {0})
modify f sys s = (ok tt, f s)

-- A call that leaves the trace with itself on top, and its answer.
abbrev pub call : {A : Type 0} → Effect → (Sys → Trace → A) → M A
call e f sys s = (ok (f sys (e ∷ s.trace)), record s { trace = e ∷ s.trace })

abbrev pub send_data : ℤ → Packet → M (Unit {0})
send_data fd p = call (sent fd p) (λ sys t. tt)

-- The `return` of a function that the handler calls ends only that function.
abbrev pub function_end : Out (Unit {0}) × Server → Out (Unit {0}) × Server
function_end (ok a, s) = (ok a, s)
function_end (returned, s) = (ok tt, s)
function_end (fault e, s) = (fault e, s)
function_end (spent, s) = (spent, s)

abbrev pub function_call : M (Unit {0}) → M (Unit {0})
function_call m sys s = function_end (m sys s)

-- `sprintf` or `strcpy` into an array of `size` bytes.
unfoldable pub copy_to : ℕ → Text → M Text
copy_to size t = if ltb (length t) size then pure t else fail overflow

unfoldable pub sprintf : ℕ → List Piece → M Text
sprintf size ps = copy_to size (format ps)

-- `stoi`, which throws.
unfoldable pub number_of : Text → M ℤ
number_of t = elim (stoi t) [ none ↦ fail bad_number | some a ↦ pure a ]

-- `front()` and `pop_front()` of the list of strings.
unfoldable pub pop_front : List Text → M (Text × List Text)
pop_front [] = fail empty_front
pop_front (t ∷ ts) = pure (t, ts)
