-- ===== src/Notify/Memory.antt =====
-- A file system in memory with the laws of one, which the examples run with: the contents by path.
use Prim.Native.String.{◌++◌}
use roadwisefleet.Prelude.{
  String, ◌≡◌, ◌≢◌, refl, Option, none, some, arith, ◌==◌, eq_iff, eq_refl, if◌then◌else◌,
}
use roadwisefleet.Notify.Spool.{Failure, exists, refused, FileSystem}
use roadwisefleet.Notify.Files.{IsFileSystem}
use roadwisefleet.Notify.Live.{IsWorking}

abbrev pub Disk : Type 0
Disk = String → Option String

abbrev pub content : Disk → String → Option String
content s q = s q

abbrev pub put : String → Option String → Disk → Disk
put p c s q = if q == p then c else s q

abbrev pub create : String → Disk → Option String → Disk × Option Failure
create p s none = (put p (some "") s, none)
create p s (some c) = (s, some exists)

abbrev pub append_to : String → String → Disk → Option String → Disk × Option Failure
append_to p body s none = (s, some refused)
append_to p body s (some old) = (put p (some (old ++ body)) s, none)

abbrev pub move : String → String → Disk → Option String → Disk × Option Failure
move a b s none = (s, some refused)
move a b s (some c) = (put b (some c) (put a none s), none)

abbrev pub memory : FileSystem Disk
memory = record {
  make_dir = λ d s. (s, none);
  open_new = λ p s. create p s (s p);
  set_mode = λ p s. (s, none);
  write = λ p body s. append_to p body s (s p);
  close = λ p s. (s, none);
  rename = λ a b s. move a b s (s a);
  unlink = λ p s. (put p none s, none);
}

put-same : (p : String) (c : Option String) (s : Disk) → put p c s p ≡ c
put-same p c s = rw (eq_refl p) refl

put-other : (p q : String) (c : Option String) (s : Disk) → q ≢ p → put p c s q ≡ s q
put-other p q c s h = ground (arith, h, eq_iff q p)

create-new :
    (p : String) (s : Disk) (o : Option String)
    → (create p s o).1 ≡ none
    → (create p s o).0 p ≡ some ""
create-new p s none h = put-same p (some "") s
create-new p s (some c) h = absurd (ground (arith, h))

create-other :
    (p : String) (s : Disk) (o : Option String) (q : String) → q ≢ p → (create p s o).0 q ≡ s q
create-other p s none q h = put-other p q (some "") s h
create-other p s (some c) q h = refl

append_to-same :
    (p body : String) (s : Disk) (o : Option String) (old : String)
    → (append_to p body s o).1 ≡ none
    → o ≡ some old
    → (append_to p body s o).0 p ≡ some (old ++ body)
append_to-same p body s none old h e = absurd (ground (arith, h))
append_to-same p body s (some c) old h e = rw (eq_refl p) (ground (arith, e))

append_to-other :
    (p body : String) (s : Disk) (o : Option String) (q : String)
    → q ≢ p
    → (append_to p body s o).0 q ≡ s q
append_to-other p body s none q h = refl
append_to-other p body s (some c) q h = put-other p q (some (c ++ body)) s h

move-same :
    (a b : String) (s : Disk) (o : Option String) → (move a b s o).1 ≡ none → (move a b s o).0 b ≡ o
move-same a b s none h = absurd (ground (arith, h))
move-same a b s (some c) h = put-same b (some c) (put a none s)

move-other :
    (a b : String) (s : Disk) (o : Option String) (q : String)
    → q ≢ a
    → q ≢ b
    → (move a b s o).0 q ≡ s q
move-other a b s none q h g = refl
move-other a b s (some c) q h g = ground (arith, h, g, eq_iff q a, eq_iff q b)

move-failed :
    (a b : String) (s : Disk) (o : Option String) (q : String) (e : Failure)
    → (move a b s o).1 ≡ some e
    → (move a b s o).0 q ≡ s q
move-failed a b s none q e h = refl
move-failed a b s (some c) q e h = absurd (ground (arith, h))

pub memory-IsFileSystem : IsFileSystem memory content
memory-IsFileSystem = record {
  read-make_dir = λ d s q. refl;
  read-open_new = λ p s h. create-new p s (s p) h;
  read-open_new_other = λ p s q h. create-other p s (s p) q h;
  read-set_mode = λ p s q. refl;
  read-write = λ p body s old h e. append_to-same p body s (s p) old h e;
  read-write_other = λ p body s q h. append_to-other p body s (s p) q h;
  read-close = λ p s q. refl;
  read-rename = λ a b s apart h. move-same a b s (s a) h;
  read-rename_other = λ a b s q h g. move-other a b s (s a) q h g;
  read-rename_failed = λ a b s q e h. move-failed a b s (s a) q e h;
  read-unlink_other = λ p s q h. put-other p q none s h;
}

opens-new : (p : String) (s : Disk) (o : Option String) → o ≡ none → (create p s o).1 ≡ none
opens-new p s none h = refl
opens-new p s (some c) h = absurd (ground (arith, h))

writes-some :
    (p body : String) (s : Disk) (o : Option String) (old : String)
    → o ≡ some old
    → (append_to p body s o).1 ≡ none
writes-some p body s none old h = absurd (ground (arith, h))
writes-some p body s (some c) old h = refl

moves-some :
    (a b : String) (s : Disk) (o : Option String) (c : String)
    → o ≡ some c
    → (move a b s o).1 ≡ none
moves-some a b s none c h = absurd (ground (arith, h))
moves-some a b s (some d) c h = refl

pub memory-IsWorking : IsWorking memory content
memory-IsWorking = record {
  makes_dir = λ d s. refl;
  opens_new = λ p s h. opens-new p s (s p) h;
  sets_mode = λ p s. refl;
  writes = λ p body s old h. writes-some p body s (s p) old h;
  closes = λ p s. refl;
  renames = λ a b s c h. moves-some a b s (s a) c h;
}
