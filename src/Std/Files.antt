-- ===== src/Std/Files.antt =====
-- The calls of `os` that this code makes, and a file system in memory on which they work.
use trillian_serverless.Base.{
  ℕ, String, Bool, true, false, List, [], ◌∷◌, Bytes, Option, none, some, Result, ok, err, length,
  bytes_eq, if◌then◌else◌, ◌==◌,
}
use trillian_serverless.Base.Dict.{Dict, lookup, insert, delete, keys}
use trillian_serverless.Base.Exec.{Exec}
use trillian_serverless.Std.Paths.{slash, strip_prefix}

-- `os.ErrExist`, `os.ErrNotExist`, or any other error.
pub data FileError : Type 0 where
  exist not_exist : FileError
  io : String → FileError

pub record Files : Type 1 where
  pub State : Type 0
  -- `Stat`: whether there is a directory or another file.
  pub stat_dir : Bytes → State → Result FileError Bool
  pub read_file : Bytes → State → Result FileError Bytes
  -- The paths of the files that begin with a text: `filepath.Glob` of it and `*`.
  pub glob : Bytes → State → Result FileError (List Bytes)
  pub mkdir_all : Bytes → Exec State FileError (Unit {0})
  -- `OpenFile` with `O_CREATE|O_EXCL`, a write to a new file with the count that is written, and
  -- its close.
  pub open_exclusive : Bytes → Exec State FileError (Unit {0})
  pub write : Bytes → Bytes → Exec State FileError ℕ
  pub close : Bytes → Exec State FileError (Unit {0})
  pub write_file : Bytes → Bytes → Exec State FileError (Unit {0})
  -- `Link` and `Symlink`: the old path first.
  pub link : Bytes → Bytes → Exec State FileError (Unit {0})
  pub symlink : Bytes → Bytes → Exec State FileError (Unit {0})
  pub rename : Bytes → Bytes → Exec State FileError (Unit {0})
  pub remove : Bytes → Exec State FileError (Unit {0})

-- What stands at a path; the target of a symbolic link is an absolute path.
pub data Entry : Type 0 where
  file : Bytes → Entry
  symlink : Bytes → Entry

abbrev pub Disk : Type 0
Disk = Dict Bytes Entry

-- A link to a link is not followed: this code makes none.
unfoldable pub contents : Bytes → Disk → Option Bytes
contents p d = elim (lookup p d) [
  | none ↦ none
  | some (file b) ↦ some b
  | some (symlink t) ↦ elim (lookup t d) [
    | some (file b) ↦ some b
    | some (symlink _) ↦ none
    | none ↦ none
  ]
]

unfoldable pub has_slash : Bytes → Bool
has_slash [] = false
has_slash (c ∷ cs) = let rest = has_slash cs in if c == slash then true else rest

unfoldable pub with_prefix : Bytes → List Bytes → List Bytes
with_prefix p [] = []
with_prefix p (q ∷ qs) =
    let rest = with_prefix p qs in
    elim (strip_prefix p q) [ none ↦ rest | some name ↦ if has_slash name then rest else q ∷ rest ]

abbrev found : Option Bytes → Result FileError Bytes
found none = err not_exist
found (some b) = ok b

-- A new name for what stands at a path, if the name is free.
unfoldable pub put_new : Bytes → Option Entry → Exec Disk FileError (Unit {0})
put_new p none d = (err not_exist, d)
put_new p (some e) d = elim (lookup p d) [ some _ ↦ (err exist, d) | none ↦ (ok tt, insert p e d) ]

unfoldable pub move : Bytes → Bytes → Exec Disk FileError (Unit {0})
move p q d = elim (lookup p d) [
  | none ↦ (err not_exist, d)
  | some e ↦ (ok tt, insert q e (delete p d))
]

-- Files in memory. Directories need not be made, and nothing fails but for a name that is missing
-- or taken.
abbrev pub memory : Files
memory = record {
  State = Disk;
  stat_dir = λ p d. err not_exist;
  read_file = λ p d. found (contents p d);
  glob = λ p d. ok (with_prefix p (keys d));
  mkdir_all = λ p d. (ok tt, d);
  open_exclusive = λ p d. put_new p (some (file [])) d;
  write = λ p b d. (ok (length b), insert p (file b) d);
  close = λ p d. (ok tt, d);
  write_file = λ p b d. (ok tt, insert p (file b) d);
  link = λ p q d. put_new q (lookup p d) d;
  symlink = λ p q d. put_new q (some (symlink p)) d;
  rename = λ p q d. move p q d;
  remove = λ p d. (ok tt, delete p d);
}
