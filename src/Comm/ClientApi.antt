-- ===== src/Comm/ClientApi.antt =====
-- comm/Client_API.h, comm/Client_API.cpp and comm/API.cpp: the requests of the client, over the
-- operations of a client socket and over a file system. A callback of `async_send_and_receive` is
-- named by data, and `called_back` is its code.
pub mod Callbacks
pub mod Compare
pub mod Threaded
use pds_progetto.Comm.Message
use pds_progetto.Comm.Message.{
  Message, MessageType, ElementStatus, is_okay, Bytes, msg_okay, msg_probe_content, created_file,
  msg_get_content, msg_restore_content, erased_dir, modified_file, erased_file,
}
use pds_progetto.Cpp.Effect.{◌>>=◌, ◌>>◌, Effect, on, pure, modify, reads}
use pds_progetto.Base.{
  Text, List, Bool, Option, [], ◌∷◌, none, ◌∷◌, if◌then◌else◌, some, false, true, is_empty,
  same_text, text_eq,
}
use pds_progetto.Cpp.Files.{Files}
use pds_progetto.Base.Int.{ℤ, ◌==ℤ◌, negsuc}
use pds_progetto.Base.Dict.{lookup, Dict}
use pds_progetto.Base.Sorted.{place_member}
use Message.{created_dir}
use pds_progetto.Cpp.Result.{ok}

pub data Callback : Type 0 where
  pushed : Text → ElementStatus → Callback
  save : Text → Callback

-- The methods of `Client_socket_API` that the class calls. A call that does not return has no value
-- here: it is an exception that nothing catches, as in `Threaded`, which fills the interface.
pub record ClientSocket : Type 1 where
  pub State : Type 0
  pub send_and_receive : Message → MessageType → Effect State Bool
  -- A thread is started for the message; its end is waited for in `wait_all_async`.
  pub async_send_and_receive : Message → MessageType → Callback → State → State
  pub wait_all_async : Effect State Bool
  pub get_message : State → Message

module _ (F : Files) (A : ClientSocket) where
  pub record ClientState : Type 0 where
    pub api : A.State
    pub files : F.State
    pub root_path : Text
    pub fw_cycle : ℤ
    pub active_thread : Bool

  abbrev pub on_api : {B : Type 0} → Effect A.State B → Effect ClientState B
  on_api = on (λ s. s.api) (λ a s. record s { api = a })

  abbrev on_files : {B : Type 0} → Effect F.State B → Effect ClientState B
  on_files = on (λ s. s.files) (λ f s. record s { files = f })

  -- `api_->send_and_receive(m, expected)` and then `get_message()->is_okay()`.
  unfoldable pub asked : Message → MessageType → Effect ClientState Bool
  unfolding is_okay
  asked m expected = do
    received ← on_api (A.send_and_receive m expected)
    if received then reads (λ s. ok (is_okay (A.get_message s.api))) else pure false

  unfoldable pub login : Text → Text → Effect ClientState Bool
  unfolding asked Message.login
  login username password = asked (Message.login username password) msg_okay

  -- A change of the cycle waits for the threads of the previous one.
  unfoldable pub new_cycle : ℤ → Effect ClientState Bool
  new_cycle fw_cycle s =
      if s.fw_cycle ==ℤ fw_cycle
      then (ok true, s)
      else (do
        done ← on_api A.wait_all_async
        if done then (do modify (λ s. record s { fw_cycle = fw_cycle }); pure true) else pure false)
          s

  unfoldable pub push : Bytes → Text → Text → ElementStatus → ℤ → Effect ClientState Bool
  unfolding new_cycle Message.push
  push file path hash status fw_cycle = do
    ready ← new_cycle fw_cycle
    if ready
        then (do
          modify (λ s. record s {
            api =
                A.async_send_and_receive (Message.push file path hash status) msg_okay
                  (pushed path status) s.api;
          })
          pure true)
        else pure false

  -- A loop that pushes and may stop: whether something was sent, or the return in the middle.
  abbrev pub Pushes : Type 0
  Pushes = Effect ClientState (Option Bool)

  unfoldable pub pushing : Effect ClientState Bool → Pushes → Pushes
  pushing m rest = do done ← m; if done then rest else pure none

  -- The elements of the server that the client does not have.
  unfoldable pub push_erased : Dict Text Text → Dict Text Text → Bool → Pushes
  unfolding push pushing lookup
  push_erased map [] sent = pure (some sent)
  push_erased map ((path, hash) ∷ hashes) sent =
      let kept = push_erased map hashes sent in
      let gone = push_erased map hashes true in
      elim (lookup path map) [
        | some h ↦ kept
        | none ↦
            pushing (push [] path [] (if is_empty hash then erased_dir else erased_file) (negsuc 0))
              gone
      ]

  unfoldable pub read_from_file : F.State → Text → Bytes
  read_from_file files path = elim (F.open_read files path) [ none ↦ [] | some bytes ↦ bytes ]

  -- What is pushed for an element of the client: nothing, or a change with its file.
  unfoldable pub differs : Dict Text Text → Text → Text → Bool → Bool → Option ElementStatus
  unfolding lookup
  differs hashes path hash true directory = elim (lookup path hashes) [
    | none ↦ some created_file
    | some h ↦ if same_text h hash then none else some modified_file
  ]
  differs hashes path hash false true = elim (lookup path hashes) [
    | none ↦ some created_dir
    | some h ↦ none
  ]
  differs hashes path hash false false = none

  abbrev pub file_for : ElementStatus → Bytes → Bytes
  file_for created_dir file = []
  file_for _ file = file

  -- The elements of the client that the server does not have, or has with another hash.
  unfoldable pub push_changed : Dict Text Text → Dict Text Text → Bool → Pushes
  unfolding push pushing differs read_from_file
  push_changed hashes [] sent = pure (some sent)
  push_changed hashes ((path, hash) ∷ map) sent =
      let same = push_changed hashes map sent in
      let more = push_changed hashes map true in
      do
        dest_path ← reads (λ s. ok (F.append s.root_path path))
        regular ← reads (λ s. F.is_regular_file s.files dest_path)
        directory ← (if regular then pure false else reads (λ s. F.is_directory s.files dest_path))
        elim (differs hashes path hash regular directory) [
          | none ↦ same
          | some status ↦ do
            file ← reads (λ s. ok (file_for status (read_from_file s.files dest_path)))
            pushing (push file path hash status (negsuc 0)) more
        ]

  -- The end of `probe`.
  unfoldable pub settle : Option Bool → Effect ClientState Bool
  unfolding Message.okay is_okay
  settle none = pure false
  settle (some true) = on_api A.wait_all_async
  settle (some false) = do
    received ← on_api (A.send_and_receive Message.okay msg_okay)
    reads (λ s. ok (is_okay (A.get_message s.api)))

  unfoldable pub keys : {V : Type 0} → Dict Text V → List Text
  keys [] = []
  keys ((k, v) ∷ d) = k ∷ keys d

  -- The comparison of `probe` with the server's elements.
  unfoldable pub compare_with : Dict Text Text → Dict Text Text → Effect ClientState Bool
  unfolding push_erased push_changed settle
  compare_with map hashes = do
    erased ← push_erased map hashes false
    sent ← elim erased [ none ↦ pure none | some sent ↦ push_changed hashes map sent ]
    settle sent

  unfoldable pub probe : Dict Text Text → Effect ClientState Bool
  unfolding asked keys Message.probe compare_with
  probe map = do
    okay ← asked (Message.probe (keys map)) msg_probe_content
    hashes ← reads (λ s. ok ((A.get_message s.api).hashes))
    if okay then compare_with map hashes else pure false

  unfoldable pub get_and_save : Text → Effect ClientState Bool
  unfolding Message.get
  get_and_save path = do
    modify (λ s. record s {
      api = A.async_send_and_receive (Message.get path) msg_get_content (save path) s.api;
    })
    pure true

  unfoldable pub get_all : List Text → Effect ClientState Bool
  unfolding get_and_save
  get_all [] = on_api A.wait_all_async
  get_all (path ∷ paths) =
      let rest = get_all paths in do done ← get_and_save path; if done then rest else pure false

  -- `std::set` of the paths.
  unfoldable pub path_set : List Text → List Text
  unfolding place_member
  path_set [] = []
  path_set (p ∷ ps) = place_member p (path_set ps)

  unfoldable pub restore : Effect ClientState Bool
  unfolding asked path_set get_all Message.restore
  restore = do
    root ← reads (λ s. ok (s.root_path))
    removed ← on_files (F.remove_all root)
    made ← on_files (F.create_directory root)
    okay ← asked Message.restore msg_restore_content
    paths ← reads (λ s. ok ((A.get_message s.api).paths))
    if okay then get_all (path_set paths) else pure false

  unfoldable pub end : Effect ClientState Bool
  unfolding asked Message.end
  end = do waited ← on_api A.wait_all_async; asked Message.end msg_okay
