-- ===== src/Logic/FolderDownload/Grown.antt =====
-- src/clogic.cpp, `downloadFolderByDir`: what the pieces of a folder's download add to the server.
use nest_disk.Base.{
  ◌≢◌, Option-cases, inl, inr, ℕ, suc, ◌+◌, ◌<◌, ◌≡◌, refl, sym, ap, ◌∙◌, subst, ℤ, pos, ◌+ℤ◌,
  InInt, eq_ℤ_iff, Text, none, some, List, [], ◌∷◌, ◌++◌, length, format, arith,
}
use mathlib.Core.List.{append_assoc, append-nil}
use nest_disk.Packet.{Packet, FileInfo, file_header_rq, AddFolderRq, add_folder_rq}
use nest_disk.MyMap.{MyMap, find, insert, find-insert}
use nest_disk.Env.{Sys, Server, ok, sent, queried, opened, read_only}
use nest_disk.Env.Views.{packets, statements}
use nest_disk.Logic.{session_key}
use nest_disk.Logic.Download.{select_download}
use nest_disk.Logic.Download.Offer.{Details, offered, header_of, session_of}
use nest_disk.Logic.FolderDownload.{fresh_timestamp, next_timestamp}
use nest_disk.Logic.FolderDownload.Fresh.{
  add_next, InInt-between, next_timestamp-eq, fresh_timestamp-free,
}

-- A packet that was sent, by what it was to be. The header of a file carries a timestamp under which
-- the user had no transfer in `old` and has that of the file in `new`, at its beginning.
abbrev pub Carries : ℤ → MyMap FileInfo → MyMap FileInfo → Packet → Packet → Type 0
Carries u old new (file_header_rq h) q =
    (t : ℤ) × (f : FileInfo) × (q ≡ file_header_rq (record h { timestamp = t }))
    × (find (session_key u t) old ≡ none)
    × (find (session_key u t) new ≡ some f)
    × (f.fid ≡ h.fileid)
    × (f.name ≡ h.file_name)
    × (f.dir ≡ h.dir)
    × (f.pos ≡ pos 0)
Carries u old new p q = q ≡ p

abbrev pub AllSent :
    ℤ → MyMap FileInfo → MyMap FileInfo → List (ℤ × Packet) → List (ℤ × Packet) → Type 0
AllSent u old new [] [] = Unit {0}
AllSent u old new (x ∷ ps) (y ∷ qs) =
    (y.0 ≡ x.0) × Carries u old new x.1 y.1 × AllSent u old new ps qs
AllSent u old new _ _ = ⊥

-- Packets went out as these were to be, these statements were executed, there are so many transfers
-- more, and those that were there are unchanged.
pub record Grew (u : ℤ) (ps : List (ℤ × Packet)) (qs : List Text) (n : ℕ) (s s' : Server)
    : Type 0 where
  pub sends :
      (sent_packets : List (ℤ × Packet)) × (packets s'.trace ≡ packets s.trace ++ sent_packets)
      × AllSent u s.files s'.files ps sent_packets
  pub executes : statements s'.trace ≡ statements s.trace ++ qs
  pub opens : length s'.files ≡ length s.files + n
  pub keeps : (k : ℤ) (f : FileInfo) → find k s.files ≡ some f → find k s'.files ≡ some f
  pub users : s'.users ≡ s.users

module _ (u : ℤ) (old old' new new' : MyMap FileInfo)
    (before : (k : ℤ) → find k old ≡ none → find k old' ≡ none)
    (later : (k : ℤ) (f : FileInfo) → find k new ≡ some f → find k new' ≡ some f) where
  Carries-mono : (p q : Packet) → Carries u old new p q → Carries u old' new' p q
  Carries-mono (file_header_rq h) q (t, f, e, free, there, id, name, dir, start) = (
    t,
    f,
    e,
    before (session_key u t) free,
    later (session_key u t) f there,
    id,
    name,
    dir,
    start,
  )
  Carries-mono p q e = e

  AllSent-mono : (ps qs : List (ℤ × Packet)) → AllSent u old new ps qs → AllSent u old' new' ps qs
  AllSent-mono [] [] h = tt
  AllSent-mono [] (y ∷ qs) h = absurd h
  AllSent-mono (x ∷ ps) [] h = absurd h
  AllSent-mono (x ∷ ps) (y ∷ qs) h = (h.0, Carries-mono x.1 y.1 h.1, AllSent-mono ps qs h.2)

AllSent-append :
    (u : ℤ) (old new : MyMap FileInfo) (ps qs rs os : List (ℤ × Packet))
    → AllSent u old new ps qs
    → AllSent u old new rs os
    → AllSent u old new (ps ++ rs) (qs ++ os)
AllSent-append u old new [] [] rs os h g = g
AllSent-append u old new [] (y ∷ qs) rs os h g = absurd h
AllSent-append u old new (x ∷ ps) [] rs os h g = absurd h
AllSent-append u old new (x ∷ ps) (y ∷ qs) rs os h g =
    (h.0, h.1, AllSent-append u old new ps qs rs os h.2 g)

-- What a piece finds without a transfer had none before it.
none_before :
    (old new : MyMap FileInfo)
    → ((k : ℤ) (f : FileInfo) → find k old ≡ some f → find k new ≡ some f)
    → (k : ℤ) → find k new ≡ none
    → find k old ≡ none
none_before old new keeps k e = elim (Option-cases (find k old)) [
  | inl out ↦ out
  | inr (f, found) ↦ absurd (some-ne-none f (sym (keeps k f found) ∙ e))
]
  where
    some-ne-none : (f : FileInfo) → some f ≢ none
    some-ne-none f h = cc

add_zero_right : (n : ℕ) → n ≡ n + 0
add_zero_right n = omega arith

zero_add : (n : ℕ) → 0 + n ≡ n
zero_add n = omega arith

pub Grew-refl : (u : ℤ) (s : Server) → Grew u [] [] 0 s s
Grew-refl u s = record {
  sends = ([], sym (append-nil (packets s.trace)), tt);
  executes = sym (append-nil (statements s.trace));
  opens = add_zero_right (length s.files);
  keeps = λ k f e. e;
  users = refl;
}

append_after {ℓ} :
    {A : Type ℓ} (a b c : List A) (ps qs : List A) → b ≡ a ++ ps → c ≡ b ++ qs → c ≡ a ++ (ps ++ qs)
append_after a b c ps qs e d = d ∙ ap (λ l. l ++ qs) e ∙ append_assoc a ps qs

pub Grew-trans :
    (u : ℤ) (ps rs : List (ℤ × Packet)) (qs os : List Text) (m n : ℕ) (s t r : Server)
    → Grew u ps qs m s t
    → Grew u rs os n t r
    → Grew u (ps ++ rs) (qs ++ os) (m + n) s r
Grew-trans u ps rs qs os m n s t r g h = record {
  sends = (
    g.sends.0 ++ h.sends.0,
    append_after (packets s.trace) (packets t.trace) (packets r.trace) g.sends.0 h.sends.0 g.sends.1
        h.sends.1,
    AllSent-append u s.files r.files ps g.sends.0 rs h.sends.0
        (AllSent-mono u s.files s.files t.files r.files (λ k e. e) h.keeps ps g.sends.0 g.sends.2)
        (AllSent-mono u t.files s.files r.files r.files (none_before s.files t.files g.keeps)
          (λ k f e. e) rs h.sends.0 h.sends.2),
  );
  executes =
      append_after (statements s.trace) (statements t.trace) (statements r.trace) qs os g.executes
        h.executes;
  opens = omega (arith, g.opens, h.opens);
  keeps = λ k f e. h.keeps k f (g.keeps k f e);
  users = h.users ∙ g.users;
}

-- A first piece that opens no transfer.
pub Grew-trans_zero :
    (u : ℤ) (ps rs : List (ℤ × Packet)) (qs os : List Text) (n : ℕ) (s t r : Server)
    → Grew u ps qs 0 s t
    → Grew u rs os n t r
    → Grew u (ps ++ rs) (qs ++ os) n s r
Grew-trans_zero u ps rs qs os n s t r g h =
    subst (λ (k : ℕ). Grew u (ps ++ rs) (qs ++ os) k s r) (zero_add n)
      (Grew-trans u ps rs qs os 0 n s t r g h)

module _ {V : Type 0} where
  length-insert_new :
      (k : ℤ) (v : V) (m : MyMap V) → find k m ≡ none → length (insert k v m) ≡ length m + 1
  unfolding find insert
  length-insert_new k v [] h = refl
  length-insert_new k v ((j, w) ∷ m) h = ground (arith, length-insert_new k v m)

  find-insert_new :
      (k j : ℤ) (v f : V) (m : MyMap V)
      → find k m ≡ none
      → find j m ≡ some f
      → find j (insert k v m) ≡ some f
  find-insert_new k j v f m new e =
      ground (arith, find-insert k j v m, eq_ℤ_iff k j, λ (p : k ≡ j). ap (λ (x : ℤ). find x m) p)

-- A file that is offered under a timestamp without a transfer.
pub offered-Grew :
    (u fd : ℤ) (dir : Text) (timestamp fid : ℤ) (name : Text) (f : Details) (sys : Sys) (s : Server)
    → find (session_key u timestamp) s.files ≡ none
    → Grew u
        ((fd, file_header_rq (header_of (pos 0) fid dir name f)) ∷ [])
        (format (select_download u dir fid) ∷ [])
        1
        s
        (offered u fd dir timestamp fid name f sys s)
unfolding packets statements
offered-Grew u fd dir timestamp fid name f sys s new =
    let file =
      session_of
        (sys.open_file
          (opened f.path read_only ∷ queried (format (select_download u dir fid)) ∷ s.trace))
        fid dir name f in
    record {
      sends = (
        (fd, file_header_rq (header_of timestamp fid dir name f)) ∷ [],
        refl,
        (
          refl,
          (
            timestamp,
            file,
            refl,
            new,
            find-insert (session_key u timestamp) (session_key u timestamp) file s.files
                ∙ rw ((eq_ℤ_iff (session_key u timestamp) (session_key u timestamp)).1 refl),
            refl,
            refl,
            refl,
            refl,
          ),
          tt,
        ),
      );
      executes = refl;
      opens = length-insert_new (session_key u timestamp) _ s.files new;
      keeps = λ k g e. find-insert_new (session_key u timestamp) k _ g s.files new e;
      users = refl;
    }

-- The client is told of a folder, and the folder's entries are asked for.
abbrev pub announced : ℤ → AddFolderRq → Text → Server → Server
announced fd p q s = record s { trace = queried q ∷ sent fd (add_folder_rq p) ∷ s.trace }

pub announced-Grew :
    (u fd : ℤ) (p : AddFolderRq) (q : Text) (s : Server)
    → Grew u ((fd, add_folder_rq p) ∷ []) (q ∷ []) 0 s (announced fd p q s)
unfolding packets statements
announced-Grew u fd p q s = record {
  sends = ((fd, add_folder_rq p) ∷ [], refl, (refl, refl, tt));
  executes = refl;
  opens = add_zero_right (length s.files);
  keeps = λ k f e. e;
  users = refl;
}

pub asked-Grew :
    (u : ℤ) (q : Text) (s : Server)
    → Grew u [] (q ∷ []) 0 s (record s { trace = queried q ∷ s.trace })
unfolding packets statements
asked-Grew u q s = record {
  sends = ([], sym (append-nil (packets s.trace)), tt);
  executes = refl;
  opens = add_zero_right (length s.files);
  keeps = λ k f e. e;
  users = refl;
}

-- The timestamp of the next entry.
pub next_stamp :
    (fuel : ℕ) (u t : ℤ) (sys : Sys) (s : Server)
    → length s.files < fuel
    → InInt t
    → InInt (t +ℤ pos (suc fuel))
    → (k : ℕ) × (k < fuel)
      × (fresh_timestamp fuel u (next_timestamp t) sys s ≡ (ok (t +ℤ pos (suc k)), s))
      × (find (session_key u (t +ℤ pos (suc k))) s.files ≡ none)
next_stamp fuel u t sys s few a b =
    let h =
      fresh_timestamp-free fuel u (t +ℤ pos 1) sys s few
        (InInt-between t 1 (suc fuel) (omega arith) a b) (subst InInt (sym (add_next t fuel)) b) in
    (
      h.0,
      h.1,
      ap (λ (x : ℤ). fresh_timestamp fuel u x sys s) (next_timestamp-eq t fuel a b)
          ∙ h.2
          ∙ ap (λ (x : ℤ). (ok x, s)) (add_next t h.0),
      ap (λ (x : ℤ). find (session_key u x) s.files) (sym (add_next t h.0)) ∙ h.3.0,
    )
