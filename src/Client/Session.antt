-- ===== src/Client/Session.antt =====
-- client/Client.h and client/Client.cpp: the client over the requests of comm/Client_API and the
-- watcher of client/FileWatcher. What is written on the screen and the thread of `run` are left out.
pub mod Attempts
use pds_progetto.Comm.ClientApi
use pds_progetto.Client.FileWatcher
use pds_progetto.Cpp.Effect.{◌>>=◌, ◌>>◌, pure, modify, reads, Effect, on}
use pds_progetto.Base.{ℕ, Text, Bool, true, if◌then◌else◌, false, [], suc, zero}
use pds_progetto.Cpp.Files.{Files}
use pds_progetto.Comm.Utils.{Sha256}
use pds_progetto.Comm.ClientApi.{ClientSocket, ClientState}
use pds_progetto.Comm.Message.{ElementStatus, created_file, modified_file}
use pds_progetto.Client.FileWatcher.{FileWatcher}
use pds_progetto.Cpp.Result.{ok}
use pds_progetto.Base.Int.{ℤ}

abbrev pub max_attempts : ℕ
max_attempts = 5

module _ (F : Files) (H : Sha256) (A : ClientSocket) where
  pub record Client : Type 0 where
    pub root_path : Text
    pub api : ClientState F A
    pub fw : FileWatcher F H
    pub running : Bool

  abbrev pub on_api : {B : Type 0} → Effect (ClientState F A) B → Effect Client B
  on_api = on (λ s. s.api) (λ a s. record s { api = a })

  -- `fw_.init()` over the files as they are.
  unfoldable pub init_watcher : Effect Client (Unit {0})
  unfolding FileWatcher.init
  init_watcher = do
    fw ← reads (λ s. FileWatcher.init F H s.api.files s.fw)
    modify (λ s. record s { fw = fw })

  unfoldable pub login : Text → Text → Effect Client Bool
  unfolding ClientApi.login
  login username password = on_api (ClientApi.login F A username password)

  unfoldable pub probe : Effect Client Bool
  unfolding init_watcher ClientApi.probe FileWatcher.get_elements
  probe = do
    init_watcher
    map ← reads (λ s. FileWatcher.get_elements F H s.api.files s.fw)
    on_api (ClientApi.probe F A map)

  abbrev pub has_content : ElementStatus → Bool
  has_content created_file = true
  has_content modified_file = true
  has_content _ = false

  unfoldable pub push : Text → Text → ElementStatus → ℤ → Effect Client Bool
  unfolding ClientApi.push ClientApi.read_from_file
  push path hash status fw_cycle = do
    file ← reads (λ s. ok (
        if has_content status
        then ClientApi.read_from_file F A s.api.files (F.append s.root_path path)
        else []))
    on_api (ClientApi.push F A file path hash status fw_cycle)

  unfoldable pub restore : Effect Client Bool
  unfolding ClientApi.restore init_watcher
  restore = do
    ret ← on_api (ClientApi.restore F A)
    if ret then (do init_watcher; pure true) else pure false

  unfoldable pub close : Effect Client Bool
  unfolding ClientApi.end
  close = do
    ret_val ← on_api (ClientApi.end F A)
    modify (λ s. record s { running = false })
    pure ret_val

  -- The loop of `pwdAttempts` from one try on, with so many left. `typed` is what the user types.
  unfoldable pub tries_from : (ℕ → Text × Text) → ℕ → ℕ → Effect Client Bool
  unfolding login ClientApi.end
  tries_from typed tries zero = do ret_val ← on_api (ClientApi.end F A); pure false
  tries_from typed tries (suc left) =
      let again = tries_from typed (suc tries) left in
      do accepted ← login (typed tries).0 (typed tries).1; if accepted then pure true else again

  unfoldable pub pwd_attempts : (ℕ → Text × Text) → Effect Client Bool
  unfolding tries_from
  pwd_attempts typed = tries_from typed 0 max_attempts
