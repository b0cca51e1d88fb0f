-- ===== src/Comm/ClientApi/Callbacks.antt =====
-- The callbacks of comm/Client_API.cpp, which run when a thread has its answer. The wait for
-- `active_thread_` is over where the code begins.
use pds_progetto.Cpp.Effect.{◌>>=◌, ◌>>◌, Effect, on, reads, modify, when, pure, catching}
use pds_progetto.Cpp.Files.{Files}
use pds_progetto.Comm.ClientApi.{ClientSocket, ClientState, Callback, pushed, save}
use pds_progetto.Base.{
  Text, Bool, Option, List, true, some, false, not, ◌∷◌, ◌&&◌, if◌then◌else◌, none, [],
}
use pds_progetto.Comm.Message.{Message, ElementStatus, is_okay, created_file}
use pds_progetto.Cpp.Result.{ok}

module _ (F : Files) (A : ClientSocket) where
  abbrev State : Type 0
  State = ClientState F A

  abbrev on_disk : {B : Type 0} → Effect F.State B → Effect State B
  on_disk = on (λ s. s.files) (λ f s. record s { files = f })

  -- `if (!fs::exists(dir)) fs::create_directory(dir);`
  unfoldable pub ensure_directory : Text → Effect F.State (Unit {0})
  ensure_directory dir = do
    there ← reads (λ fs. F.exists fs dir)
    when (not there) (do made ← F.create_directory dir; pure tt)

  unfoldable pub make_dirs : Text → List Text → Effect F.State (Unit {0})
  unfolding ensure_directory
  make_dirs dir [] = pure tt
  make_dirs dir (p ∷ ps) =
      let rest = make_dirs (F.append dir p) ps in do ensure_directory (F.append dir p); rest

  unfoldable pub create_dirs : Text → Text → Effect F.State (Unit {0})
  unfolding make_dirs
  create_dirs base path = make_dirs base (F.elements (F.remove_leaf path))

  -- `API::save_file_`.
  unfoldable pub save_file : Message → Effect F.State Bool
  save_file m fs = (ok true, F.open_write fs m.path m.file)

  abbrev pub set_active : Bool → State → State
  set_active b s = record s { active_thread = b }

  abbrev pub is_created_file : ElementStatus → Bool
  is_created_file created_file = true
  is_created_file _ = false

  -- The `try` block: `none` is its end, `some` its early return.
  unfoldable pub save_element : Text → Text → Message → Effect State (Option Bool)
  unfolding create_dirs save_file ensure_directory
  save_element root path res = do
    on_disk (create_dirs root path)
    elim (is_created_file res.element_status) [
      | true ↦ do saved ← on_disk (save_file res); pure (if saved then none else some false)
      | false ↦ do on_disk (ensure_directory res.path); pure none
    ]

  unfoldable pub saved_end : Option Bool → Effect State Bool
  saved_end (some b) = pure b
  saved_end none = do modify (set_active false); pure true

  -- `h` is the handler of an exception.
  unfoldable pub failed_save : Effect State (Option Bool)
  failed_save = do modify (set_active false); pure (some false)

  unfoldable pub save_callback : Text → Message → Effect State Bool
  unfolding is_okay save_element saved_end failed_save
  save_callback path res s = (if is_okay res then saving s.root_path else pure false) s
    where
      saving : Text → Effect State Bool
      saving root = do
        modify (set_active true)
        r ← catching (save_element root path (record res { path = F.append root path })) failed_save
        saved_end r

  unfoldable pub called_back : Callback → Bool → Message → Effect State Bool
  unfolding is_okay save_callback
  called_back (pushed path status) received res = pure (received && is_okay res)
  called_back (save path) received res = save_callback path res
