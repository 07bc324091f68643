-- ===== src/Logic/Resume/Lost.antt =====
-- src/clogic.cpp, the beginning of `continueDownload` and `continueUpload`, where the map has nothing
-- under the request's timestamp: the file is looked up and opened again.
use nest_disk.Base.{
  ℕ, suc, ◌^◌, ◌<◌, ◌≤◌, ◌≡◌, refl, ℤ, pos, InInt, leb_ℤ, false, Text, none, some, List, [], ◌∷◌,
  map, length, format, bound, decimal, stoi-decimal, arith,
}
use nest_disk.Packet.{FileInfo, def_content_size, max_path_size}
use nest_disk.MyMap.{find, insert}
use nest_disk.Env.{Sys, Server, Trace, OpenMode, ok, queried, opened, pop_front}
use nest_disk.Env.Rules.{sprintf-eq-ok, number_of-eq-ok}
use nest_disk.Mysql.Rows.{Serves, select_mysql-all, concat}
use nest_disk.Logic.{session_key}
use nest_disk.Logic.Resume.{select_resume, resume_row, reopen, resume_file}

-- What the database gives for the file: name, size, time, MD5, type and path.
pub record Stored : Type 0 where
  pub name : Text
  pub size : ℕ
  pub time : Text
  pub md5 : Text
  pub type : Text
  pub path : Text

abbrev pub row_of : Stored → List Text
row_of f = f.name ∷ decimal (pos f.size) ∷ f.time ∷ f.md5 ∷ f.type ∷ f.path ∷ []

positive : (d : ℕ) → leb_ℤ (pos (suc d)) (pos 0) ≡ false
positive d = ground arith

select_resume-fits :
    (u fid : ℤ) (dir : Text)
    → length dir < max_path_size
    → bound (select_resume u fid dir) < def_content_size
unfolding nest_disk.Base.codes
select_resume-fits u fid dir h = omega arith

abbrev pub look_up : ℤ → ℤ → Text → Text
look_up u fid dir = format (select_resume u fid dir)

-- The calls of the request, up to `open`.
abbrev pub reopened : OpenMode → ℤ → ℤ → Text → Stored → Trace → Trace
reopened mode u fid dir f t = opened f.path mode ∷ queried (look_up u fid dir) ∷ t

abbrev pub session_of : ℤ → Text → ℤ → Stored → ℕ → FileInfo
session_of fid dir start f d = record {
  fid = fid;
  name = f.name;
  dir = dir;
  time = f.time;
  size = pos f.size;
  md5 = f.md5;
  type = f.type;
  absolute_path = f.path;
  pos = start;
  file_fd = pos d;
}

pub resume_file-lost :
    (mode : OpenMode) (u t fid : ℤ) (dir : Text) (start : ℤ) (f : Stored) (d : ℕ) (sys : Sys)
    (s : Server)
    → Serves sys
    → find t s.files ≡ none
    → length dir < max_path_size
    → f.size < 2 ^ 31
    → sys.mysql_store_result (queried (look_up u fid dir) ∷ s.trace)
      ≡ some (map (map some) (row_of f ∷ []))
    → sys.open_file (reopened mode u fid dir f s.trace) ≡ pos (suc d)
    → resume_file mode u t fid dir start sys s ≡ (
      ok (session_key u t, session_of fid dir start f (suc d)),
      record s {
        files = insert (session_key u t) (session_of fid dir start f (suc d)) s.files;
        trace = reopened mode u fid dir f s.trace;
      },
    )
unfolding resume_file reopen resume_row pop_front concat
resume_file-lost mode u t fid dir start f d sys s good lost short small row opens =
    rw
      (
        lost,
        sprintf-eq-ok def_content_size (select_resume u fid dir) sys s
            (select_resume-fits u fid dir short),
        select_mysql-all (look_up u fid dir) 6 (row_of f ∷ []) sys s good row (refl, tt),
        number_of-eq-ok (decimal (pos f.size)) (pos f.size) sys
            (record s { trace = queried (look_up u fid dir) ∷ s.trace })
            (stoi-decimal (pos f.size) (omega arith, omega arith)),
        opens,
        positive d,
      )
      refl
