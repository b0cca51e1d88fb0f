-- ===== src/Examples/Probe.antt =====
-- The client at concrete inputs.
use pds_progetto.Examples.Disk.{disk, keep_all}
use pds_progetto.Base.Equality.{same_text}
use pds_progetto.Cpp.Effect.{pure, reads, on, ◌>>=◌}
use pds_progetto.Comm.Message
use pds_progetto.Comm.ClientApi
use pds_progetto.Comm.ClientApi.{ClientSocket, ClientState, asked, keys}
use pds_progetto.Comm.ClientApi.Compare.{IsTraced, UniqueKeys}
use pds_progetto.Base.Dict.{Dict, lookup}
use pds_progetto.Comm.ClientApi.Compare.Mirrors.{Mirrored, probe-Mirrored}
use pds_progetto.Comm.ClientApi.Compare.Loops.{Listed}
use pds_progetto.Base.{[], List, Text, All, codes, ◌∷◌, inl, true, inr, refl, ◌++◌, ◌≡◌, false, ℕ}
use pds_progetto.Comm.Message.{is_okay, Message, new_message, msg_probe_content}
use pds_progetto.Cpp.Result.{ok}
use pds_progetto.Client.FileWatcher.Mirror.{regular, directory}
use pds_progetto.Base.Int.{negsuc, pos}
use pds_progetto.Client.Session.{Client, pwd_attempts}
use pds_progetto.Client.Session.Attempts.{Attempted, pwd_attempts-Attempted}

-- A socket that answers with one message and records what it is handed.
abbrev pub recorder : ClientSocket
recorder = record {
  State = List Message × Message;
  send_and_receive = λ m expected a. (ok true, a);
  async_send_and_receive = λ m expected c a. (a.0 ++ m ∷ [], a.1);
  wait_all_async = λ a. (ok true, a);
  get_message = λ a. a.1;
}

abbrev pub recorder-IsTraced : IsTraced recorder
recorder-IsTraced = record {
  launched = λ a. a.0;
  launches = λ m expected c a. refl;
  waits = λ a. refl;
  sends = λ m expected a. refl;
}

-- The server has one file that the client lost, and misses a file and a directory of the client.
abbrev server_list : Dict Text Text
server_list = (codes "lost", codes "ab") ∷ []

abbrev client_map : Dict Text Text
client_map = (codes "new", codes "cd") ∷ (codes "sub", []) ∷ []

abbrev client : ClientState disk recorder
client = record {
  api = ([], record Message.okay { hashes = server_list });
  files = (codes "c/new", regular 7 (codes "text")) ∷ (codes "c/sub", directory) ∷ [];
  root_path = codes "c";
  fw_cycle = negsuc 0;
  active_thread = false;
}

probe_answer :
    asked disk recorder (Message.probe (keys disk recorder client_map)) msg_probe_content client
    ≡ (ok true, client)
unfolding asked is_okay Message.okay pure reads on new_message ◌>>=◌
probe_answer = refl

different_paths : UniqueKeys client_map
unfolding lookup same_text
different_paths = (refl, (refl, tt))

on_the_disk :
    All
      (Listed disk recorder recorder-IsTraced client.files client.root_path server_list)
      client_map
unfolding lookup same_text
on_the_disk = (inl refl, (inr (refl, refl, (refl, λ h e. cc)), tt))

probe-Mirrored_example :
    Mirrored disk recorder recorder-IsTraced client_map server_list client
      (ClientApi.probe disk recorder client_map client).1
probe-Mirrored_example =
    probe-Mirrored disk recorder recorder-IsTraced client_map client client probe_answer refl
      different_paths on_the_disk

abbrev pub the_client : Client disk keep_all recorder
the_client = record {
  root_path = codes "c";
  api = client;
  fw = record { path_to_watch = codes "c"; files = []; dirs = []; fw_cycle = pos 0 };
  running = true;
}

abbrev typed_name : ℕ → Text × Text
typed_name n = (codes "ann", codes "pw")

pwd_attempts-Attempted_example :
    Attempted disk keep_all recorder typed_name the_client
      (pwd_attempts disk keep_all recorder typed_name the_client)
pwd_attempts-Attempted_example = pwd_attempts-Attempted disk keep_all recorder typed_name the_client
