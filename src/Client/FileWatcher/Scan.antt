-- ===== src/Client/FileWatcher/Scan.antt =====
-- The scan of client/FileWatcher.cpp: `find_erased`, `find_created_or_modified` and `start`. A scan
-- sees the file system in one state `fs`; the action that it calls for a change acts on a world `W`.
use pds_progetto.Cpp.Effect.{Effect, ◌>>=◌, pure, reads}
use pds_progetto.Cpp.Files.{Files}
use pds_progetto.Comm.Utils.{Sha256}
use pds_progetto.Base.{Text, Bool, List, true, if◌then◌else◌, ◌∷◌, some, [], false, text_eq, none}
use pds_progetto.Comm.Message.{
  ElementStatus, erased_file, modified_file, erased_dir, created_file, created_dir,
}
use pds_progetto.Base.Int.{ℤ}
use pds_progetto.Client.FileWatcher.{
  FileWatcher, need_update, is_old, new_element, FsElement, parse_path,
}
use pds_progetto.Base.Sorted.{member, place_member, place}
use pds_progetto.Base.Dict.{Dict, assign, lookup}
use pds_progetto.Server.SessionManager.{next_id}

module _ (F : Files) (H : Sha256) where
  module _ {W : Type 0} (action : Text → Text → ElementStatus → ℤ → Effect W Bool)
      (fs : F.State) where
    -- `action(parse_path(p), hash, st, fw_cycle_)`.
    unfoldable pub report : Text → Text → ElementStatus → FileWatcher F H → Effect W Bool
    unfolding parse_path
    report p hash st w = do
      path ← reads (λ _. parse_path F H fs p w)
      action path hash st w.fw_cycle

    -- The loop over the files in `find_erased`: whether it went on to the end, and the entries left.
    unfoldable pub erase_files :
        FileWatcher F H → Dict Text (FsElement F H) → Effect W (Bool × Dict Text (FsElement F H))
    unfolding report
    erase_files w [] = pure (true, [])
    erase_files w ((p, e) ∷ files) =
        let rest = erase_files w files in
        do
          there ← reads (λ _. F.exists fs p)
          elim there [
            | true ↦ do (more, left) ← rest; pure (more, (p, e) ∷ left)
            | false ↦ do
              done ← report p e.hash erased_file w
              if done then rest else pure (false, (p, e) ∷ files)
          ]

    -- The loop over the directories, from the last one to the first.
    unfoldable pub erase_dirs : FileWatcher F H → List Text → Effect W (Bool × List Text)
    unfolding report
    erase_dirs w [] = pure (true, [])
    erase_dirs w (p ∷ dirs) = do
      (more, left) ← erase_dirs w dirs
      elim more [
        | false ↦ pure (false, p ∷ left)
        | true ↦ do
          there ← reads (λ _. F.exists fs p)
          elim there [
            | true ↦ pure (true, p ∷ left)
            | false ↦ do
              done ← report p [] erased_dir w
              pure (if done then (true, left) else (false, p ∷ left))
          ]
      ]

    unfoldable pub find_erased : FileWatcher F H → Effect W (Bool × FileWatcher F H)
    unfolding erase_files erase_dirs
    find_erased w = do
      (more, files) ← erase_files w w.files
      elim more [
        | false ↦ pure (false, record w { files = files })
        | true ↦ do
          (more, dirs) ← erase_dirs w w.dirs
          pure (more, record w { files = files; dirs = dirs })
      ]

    -- A regular file that the iterator visits and that is in the map.
    unfoldable pub refresh :
        Text → FileWatcher F H → Bool × (FsElement F H) → Effect W (Bool × FileWatcher F H)
    unfolding report need_update assign
    refresh p w (false, e) = pure (true, record w { files = assign p e w.files })
    refresh p w (true, e) = do
      (changed, e') ← reads (λ _. need_update F H fs e)
      let w' = record w { files = assign p e' w.files }
      elim changed [
        | true ↦ do done ← report p e'.hash modified_file w; pure (done, w')
        | false ↦ pure (true, w')
      ]

    unfoldable pub visit_file : Text → FileWatcher F H → Effect W (Bool × FileWatcher F H)
    unfolding report refresh is_old new_element place lookup
    visit_file p w = do
      lwt ← reads (λ _. F.last_write_time fs p)
      elim (lookup p w.files) [
        | some e ↦ refresh p w (is_old F H lwt e)
        | none ↦ do
          new_file ← reads (λ _. new_element F H p lwt fs)
          done ← report p new_file.hash created_file w
          pure (done, record w { files = place p new_file w.files })
      ]

    unfoldable pub visit_directory : Text → FileWatcher F H → Effect W (Bool × FileWatcher F H)
    unfolding report member place_member
    visit_directory p w = if member p w.dirs then pure (true, w) else (do
      done ← report p [] created_dir w
      pure (done, record w { dirs = place_member p w.dirs }))

    unfoldable pub visit : Text → FileWatcher F H → Effect W (Bool × FileWatcher F H)
    unfolding visit_file visit_directory
    visit p w = do
      regular ← reads (λ _. F.is_regular_file fs p)
      if regular then visit_file p w else (do
        directory ← reads (λ _. F.is_directory fs p)
        if directory then visit_directory p w else pure (true, w))

    unfoldable pub visit_all : List Text → FileWatcher F H → Effect W (Bool × FileWatcher F H)
    unfolding visit
    visit_all [] w = pure (true, w)
    visit_all (p ∷ ps) w = do
      (more, w') ← visit p w
      let rest = visit_all ps w'
      if more then rest else pure (false, w')

    unfoldable pub find_created_or_modified : FileWatcher F H → Effect W (Bool × FileWatcher F H)
    unfolding visit_all
    find_created_or_modified w = do
      paths ← reads (λ _. F.walk fs w.path_to_watch)
      visit_all paths w

    -- The body of the loop in `start`.
    unfoldable pub watch_cycle : FileWatcher F H → Effect W (Bool × FileWatcher F H)
    unfolding find_erased find_created_or_modified
    watch_cycle w = do
      (more, w') ← find_erased w
      elim more [
        | false ↦ pure (false, w')
        | true ↦ do
          (more, w2) ← find_created_or_modified w'
          pure (more, if more then record w2 { fw_cycle = next_id w2.fw_cycle } else w2)
      ]

  -- `start` over the states of the file system that the scans see until `stop`.
  unfoldable pub start :
      {W : Type 0}
      → (Text → Text → ElementStatus → ℤ → Effect W Bool)
      → List F.State
      → FileWatcher F H
      → Effect W (Bool × FileWatcher F H)
  unfolding watch_cycle
  start action [] w = pure (true, w)
  start action (fs ∷ later) w = do
    (more, w') ← watch_cycle action fs w
    let rest = start action later w'
    if more then rest else pure (false, w')
