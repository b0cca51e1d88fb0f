-- ===== src/Comm/Changes.antt =====
-- The abstract view of a backup: the hash of each element under its relative path, an empty hash for
-- a directory, and what the changes of the protocol do to it.
use pds_progetto.Comm.Message.{
  ElementStatus, unnamed_status, Message, created_file, modified_file, erased_file, created_dir,
  erased_dir,
}
use pds_progetto.Base.{
  Text, Option, some, List, none, [], ◌∷◌, ◌++◌, if◌then◌else◌, ◌≡◌, same_text, refl,
}

-- The element that a change leaves under its path, from the element before it. A status without a
-- name changes nothing.
abbrev pub left_by : ElementStatus → Text → Option Text → Option Text
left_by created_file hash old = some hash
left_by modified_file hash old = some hash
left_by erased_file hash old = none
left_by created_dir hash old = some []
left_by erased_dir hash old = none
left_by (unnamed_status _) hash old = old

-- The element under `q` after the pushes, from the element before them.
abbrev pub after : Text → Option Text → List Message → Option Text
after q old [] = old
after q old (m ∷ ms) =
    after q (if same_text m.path q then left_by m.element_status m.hash old else old) ms

pub after-append :
    (q : Text) (old : Option Text) (ms ns : List Message)
    → after q old (ms ++ ns) ≡ after q (after q old ms) ns
after-append q old [] ns = refl
after-append q old (m ∷ ms) ns =
    after-append q (if same_text m.path q then left_by m.element_status m.hash old else old) ms ns
