-- ===== src/Examples/Disk.antt =====
-- A file system in memory, a SQLite in memory with one user, and a state of the server over them.
use pds_progetto.Cpp.Result.{ok, throws, Result, filesystem_error}
use pds_progetto.Base.Dict.{Dict, lookup, assign, erase}
use pds_progetto.Base.{
  Text, List, Option, ◌++◌, none, ℕ, codes, ap, ◌∷◌, some, [], text_eq, true, refl,
}
use pds_progetto.Client.FileWatcher.Mirror.{
  Kind, IsDisk, absent, regular, is_there, is_regular, is_dir, directory,
}
use pds_progetto.Cpp.Files.{Files}
use pds_progetto.Comm.Message.{Bytes}
use mathlib.Core.List.{append-nil, append_assoc}
use pds_progetto.Comm.Utils.{Sha256}

-- A digest that keeps all it was given.
abbrev pub keep_all : Sha256
keep_all = record {
  Ctx = Bytes;
  init = [];
  update = λ c xs. c ++ xs;
  final = λ c. c;
  update-nil = append-nil;
  update-append = append_assoc;
}

abbrev names : Dict Text Kind → List Text
names [] = []
names ((p, k) ∷ fs) = p ∷ names fs

abbrev pub kind_in : Dict Text Kind → Text → Kind
kind_in fs p = elim (lookup p fs) [ none ↦ absent | some k ↦ k ]

abbrev time_of : Kind → Result ℕ
time_of (regular t c) = ok t
time_of _ = throws filesystem_error

abbrev pub content_of : Kind → Option Bytes
content_of (regular t c) = some c
content_of _ = none

-- Paths are compared as texts, and the watched directory holds every path.
abbrev pub disk : Files
disk = record {
  State = Dict Text Kind;
  append = λ p q. p ++ codes "/" ++ q;
  remove_leaf = λ p. codes "/srv";
  elements = λ p. p ∷ [];
  relative = λ fs p root. ok p;
  exists = λ fs p. ok (is_there (kind_in fs p));
  is_regular_file = λ fs p. ok (is_regular (kind_in fs p));
  is_directory = λ fs p. ok (is_dir (kind_in fs p));
  last_write_time = λ fs p. time_of (kind_in fs p);
  walk = λ fs root. ok (names fs);
  create_directory = λ p fs. (ok true, assign p directory fs);
  remove = λ p fs. (ok true, erase p fs);
  remove_all = λ p fs. (ok 0, []);
  open_read = λ fs p. content_of (kind_in fs p);
  open_write = λ fs p bytes. assign p (regular 1 bytes) fs;
}

pub disk-IsDisk : (fs : Dict Text Kind) → IsDisk disk fs (kind_in fs)
disk-IsDisk fs = record {
  exists_ok = λ p. refl;
  regular_ok = λ p. refl;
  directory_ok = λ p. refl;
  time_ok = λ p t c e. ap time_of e;
  read_ok = λ p t c e. ap content_of e;
}
