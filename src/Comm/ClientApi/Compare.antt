-- ===== src/Comm/ClientApi/Compare.antt =====
-- What `Client_API::probe` pushes makes the server's elements those of the client.
pub mod Loops
pub mod Mirrors
use pds_progetto.Cpp.Effect.{
  ◌>>=◌, ◌>>◌, modify, pure, Ends, Effect, pure-Ends, bind-Ends, weaken-Ends, reads, reads-bind, on,
  Outcome,
}
use pds_progetto.Comm.Message
use pds_progetto.Comm.ClientApi.{
  ClientSocket, push, new_cycle, ClientState, Callback, pushing, push_erased, Pushes, differs,
  push_changed, file_for, read_from_file, settle, compare_with, on_api,
}
use pds_progetto.Base.Dict.{Dict, lookup}
use pds_progetto.Cpp.Files.{Files}
use pds_progetto.Base.{
  List, Text, ◌≡◌, Option, ◌∷◌, none, true, ◌++◌, [], ◌≢◌, ◌∙◌, ◌⊎◌, ap, text_eq, false, some,
  if◌then◌else◌, same_text, refl, inl, sym, Bool, inr, is_empty, Option-cases, arith, Bool-cases,
  All,
}
use pds_progetto.Comm.Message.{
  Message, MessageType, Bytes, ElementStatus, erased_dir, erased_file, msg_okay, is_okay,
}
use pds_progetto.Cpp.Result.{ok, Result, Exception, throws}
use pds_progetto.Comm.Changes.{after, left_by, after-append}
use pds_progetto.Base.Int.{negsuc}
use mathlib.Core.List.{append_assoc, append-nil}

-- The messages that a client socket has handed to its threads.
pub record IsTraced (A : ClientSocket) : Type 0 where
  pub launched : A.State → List Message
  pub launches :
      (m : Message) (expected : MessageType) (c : Callback) (a : A.State)
      → launched (A.async_send_and_receive m expected c a) ≡ launched a ++ m ∷ []
  pub waits : (a : A.State) → launched (A.wait_all_async a).1 ≡ launched a
  pub sends :
      (m : Message) (expected : MessageType) (a : A.State)
      → launched (A.send_and_receive m expected a).1 ≡ launched a

-- No key stands twice.
abbrev pub UniqueKeys : Dict Text Text → Type 0
UniqueKeys [] = Unit
UniqueKeys ((k, v) ∷ d) = (lookup k d ≡ none) × UniqueKeys d

-- What the first loop of `probe` does to the element under `q`, and the second one.
abbrev pub removed : Option Text → Option Text → Option Text → Option Text
removed none mine old = old
removed (some h) none old = none
removed (some h) (some k) old = old

abbrev pub forgotten : Dict Text Text → Dict Text Text → Text → Option Text → Option Text
forgotten map hashes q old = removed (lookup q hashes) (lookup q map) old

abbrev pub replaced : Option Text → Text → Option Text → Option Text
replaced none h old = some h
replaced (some k) h old = if same_text k h then old else some h

abbrev pub written : Option Text → Option Text → Option Text → Option Text
written none others old = old
written (some h) others old = replaced others h old

abbrev pub changed : Dict Text Text → Dict Text Text → Text → Option Text → Option Text
changed hashes map q old = written (lookup q map) (lookup q hashes) old

left_by-erased :
    (b : Bool) (old : Option Text) → left_by (if b then erased_dir else erased_file) [] old ≡ none
left_by-erased true old = refl
left_by-erased false old = refl

pub forgotten-absent :
    (map hashes : Dict Text Text) (path hash : Text)
    → lookup path map ≡ none
    → (q : Text) (old : Option Text)
    → forgotten map hashes q (
        if same_text path q
        then left_by (if is_empty hash then erased_dir else erased_file) [] old
        else old)
      ≡ forgotten map ((path, hash) ∷ hashes) q old
unfolding lookup
forgotten-absent map hashes path hash absent q old =
    rw (left_by-erased (is_empty hash) old) (ground (arith, text_eq.beq_iff path q, absent))

pub forgotten-present :
    (map hashes : Dict Text Text) (path hash h : Text)
    → lookup path map ≡ some h
    → (q : Text) (old : Option Text)
    → forgotten map hashes q old ≡ forgotten map ((path, hash) ∷ hashes) q old
unfolding lookup
forgotten-present map hashes path hash h present q old =
    ground (arith, text_eq.beq_iff path q, present)

-- A directory has no hash, on the client and, where it is listed, on the server.
abbrev pub IsDirectory : Dict Text Text → Text → Text → Type 0
IsDirectory hashes path hash = (hash ≡ []) × ((h : Text) → lookup path hashes ≡ some h → h ≡ [])

pub if_same : {B : Type 0} (b : Bool) (x : B) → x ≡ (if b then x else x)
if_same true x = refl
if_same false x = refl

pub changed-as :
    (hashes map : Dict Text Text) (path hash : Text) (f : Option Text → Option Text)
    → lookup path map ≡ none
    → ((old : Option Text) → f old ≡ replaced (lookup path hashes) hash old)
    → (q : Text) (old : Option Text)
    → changed hashes map q (if same_text path q then f old else old)
      ≡ changed hashes ((path, hash) ∷ map) q old
unfolding lookup
changed-as hashes map path hash f absent same q old =
    ground (arith, text_eq.beq_iff path q, absent, same old)

-- What is pushed for an element makes it the client's.
unfoldable pub Settled : Dict Text Text → Text → Text → Option ElementStatus → Type 0
Settled hashes path hash none = (old : Option Text) → old ≡ replaced (lookup path hashes) hash old
Settled hashes path hash (some status) =
    (old : Option Text) → left_by status hash old ≡ replaced (lookup path hashes) hash old

module _ (F : Files) (A : ClientSocket) where
  pub file-Settled :
      (hashes : Dict Text Text) (path hash : Text) (directory : Bool)
      → Settled hashes path hash (differs F A hashes path hash true directory)
  unfolding differs Settled
  file-Settled hashes path hash directory = elim (Option-cases (lookup path hashes)) [
    | inl absent ↦ rw (absent, differs) (λ old. rw (absent) refl)
    | inr (h, found) ↦ elim (Bool-cases (same_text h hash)) [
      | inl same ↦ rw (found, differs, same) (λ old. rw (found, same) refl)
      | inr other ↦ rw (found, differs, other) (λ old. rw (found, other) refl)
    ]
  ]

  pub directory-Settled :
      (hashes : Dict Text Text) (path hash : Text)
      → IsDirectory hashes path hash
      → Settled hashes path hash (differs F A hashes path hash false true)
  unfolding differs Settled
  directory-Settled hashes path hash kind = elim (Option-cases (lookup path hashes)) [
    | inl absent ↦ rw (absent, differs, kind.0) (λ old. rw (absent) refl)
    | inr (h, found) ↦
        rw (found, differs, kind.0)
          (λ old. rw (found, kind.1 h found, (text_eq.beq_iff [] []).1 refl) refl)
  ]
