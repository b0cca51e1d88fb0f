-- ===== src/Comm/ClientApi/Compare/Loops.antt =====
-- The two loops of `Client_API::probe` and what they hand to the threads.
use pds_progetto.Comm.Message
use mathlib.Core.List.{append_assoc, append-nil}
use pds_progetto.Cpp.Effect.{
  ◌>>=◌, Ends, Effect, pure, reads, modify, bind-Ends, pure-Ends, weaken-Ends, reads-bind,
}
use pds_progetto.Base.{
  Option, Bool, some, Text, none, List, ◌≡◌, ◌++◌, ◌∙◌, true, ap, [], sym, All, ◌⊎◌, ◌∷◌, text_eq,
  false, Option-cases, inl, if◌then◌else◌, refl, is_empty, same_text, inr,
}
use pds_progetto.Cpp.Files.{Files}
use pds_progetto.Comm.ClientApi.{
  ClientSocket, push, ClientState, pushing, push_erased, push_changed, new_cycle, Pushes, file_for,
  read_from_file,
}
use pds_progetto.Comm.ClientApi.Compare.{
  IsTraced, Settled, changed, forgotten, UniqueKeys, IsDirectory, if_same, file-Settled, changed-as,
  directory-Settled, forgotten-absent, forgotten-present,
}
use pds_progetto.Base.Dict.{Dict, lookup}
use pds_progetto.Comm.Message.{
  ElementStatus, Message, erased_dir, erased_file, Bytes, msg_okay, is_okay, msg_probe_content,
}
use pds_progetto.Cpp.Result.{ok}
use pds_progetto.Base.Int.{negsuc}
use pds_progetto.Comm.Changes.{after, after-append, left_by}

-- A loop has gone to its end.
abbrev pub Goes : Option Bool → Type 0
Goes none = ⊥
Goes (some b) = Unit

module _ (F : Files) (A : ClientSocket) (T : IsTraced A) where
  -- An element of the client is a file, or a directory that the server does not list with a hash.
  abbrev pub Listed : F.State → Text → Dict Text Text → Text × Text → Type 0
  Listed files root hashes (path, hash) =
      (F.is_regular_file files (F.append root path) ≡ ok true)
      ⊎ ((F.is_regular_file files (F.append root path) ≡ ok false)
          × (F.is_directory files (F.append root path) ≡ ok true)
          × IsDirectory hashes path hash)

  -- What the pushes since `s` do to the element under a path.
  pub record Sent (effect : Text → Option Text → Option Text) (s s' : ClientState F A)
      : Type 0 where
    pub messages : List Message
    pub traced : T.launched s'.api ≡ T.launched s.api ++ messages
    pub effect_of : (q : Text) (old : Option Text) → after q old messages ≡ effect q old
    pub same_cycle : s'.fw_cycle ≡ negsuc 0
    pub same_files : s'.files ≡ s.files
    pub same_root : s'.root_path ≡ s.root_path

  push-Sent :
      (file : Bytes) (path hash : Text) (st : ElementStatus) (s : ClientState F A)
      → s.fw_cycle ≡ negsuc 0
      → Ends
          (λ r s'.
            (r ≡ true) × Sent (λ q old. if same_text path q then left_by st hash old else old) s s')
          (λ _. ⊥)
          (push F A file path hash st (negsuc 0))
          s
  unfolding push new_cycle modify pure ◌>>=◌ Message.push
  push-Sent file path hash st s cycle = record {
    holds = rw (cycle) (
      refl,
      record {
        messages = Message.push file path hash st ∷ [];
        traced = T.launches _ _ _ _;
        effect_of = λ q old. refl;
        same_cycle = refl;
        same_files = refl;
        same_root = refl;
      },
    );
  }

  pub Sent-trans :
      {f g : Text → Option Text → Option Text} {s t u : ClientState F A}
      → Sent f s t
      → Sent g t u
      → Sent (λ q old. g q (f q old)) s u
  Sent-trans {f = f} {g = g} {s = s} a b = record {
    messages = a.messages ++ b.messages;
    traced =
        b.traced
        ∙ ap (λ x. x ++ b.messages) a.traced
        ∙ append_assoc (T.launched s.api) a.messages b.messages;
    effect_of = λ q old.
        after-append q old a.messages b.messages
        ∙ b.effect_of q (after q old a.messages)
        ∙ ap (g q) (a.effect_of q old);
    same_cycle = b.same_cycle;
    same_files = b.same_files ∙ a.same_files;
    same_root = b.same_root ∙ a.same_root;
  }

  Sent-refl : (s : ClientState F A) → s.fw_cycle ≡ negsuc 0 → Sent (λ q old. old) s s
  Sent-refl s cycle = record {
    messages = [];
    traced = sym (append-nil (T.launched s.api));
    effect_of = λ q old. refl;
    same_cycle = cycle;
    same_files = refl;
    same_root = refl;
  }

  Sent-as :
      {f g : Text → Option Text → Option Text} {s t : ClientState F A}
      → ((q : Text) (old : Option Text) → f q old ≡ g q old)
      → Sent f s t
      → Sent g s t
  Sent-as same a = record {
    messages = a.messages;
    traced = a.traced;
    effect_of = λ q old. a.effect_of q old ∙ same q old;
    same_cycle = a.same_cycle;
    same_files = a.same_files;
    same_root = a.same_root;
  }

  -- A loop has sent what it should, and goes on to the end.
  abbrev pub Looped :
      (Text → Option Text → Option Text) → ClientState F A → Option Bool → ClientState F A → Type 0
  Looped f s r s' = Goes r × Sent f s s'

  pushing-Looped :
      {f g h : Text → Option Text → Option Text} {m : Effect (ClientState F A) Bool}
      {rest : Pushes F A} {s : ClientState F A}
      → Ends (λ r s'. (r ≡ true) × Sent f s s') (λ _. ⊥) m s
      → ((t : ClientState F A) → Sent f s t → Ends (Looped g t) (λ _. ⊥) rest t)
      → ((q : Text) (old : Option Text) → g q (f q old) ≡ h q old)
      → Ends (Looped h s) (λ _. ⊥) (pushing F A m rest) s
  unfolding pushing
  pushing-Looped {s = s} sent next same = bind-Ends sent λ a t first. rw (first.0) (
      weaken-Ends (next t first.1)
        λ r u then_sent. (then_sent.0, Sent-as same (Sent-trans first.1 then_sent.1)))

  pub push_erased-Sent :
      (map hashes : Dict Text Text) (sent : Bool) (s : ClientState F A)
      → s.fw_cycle ≡ negsuc 0
      → Ends (Looped (forgotten map hashes) s) (λ _. ⊥) (push_erased F A map hashes sent) s
  unfolding push_erased
  push_erased-Sent map [] sent s cycle =
      pure-Ends (some sent) (tt, Sent-as (λ q old. refl) (Sent-refl s cycle))
  push_erased-Sent map ((path, hash) ∷ hashes) sent s cycle =
      elim (Option-cases (lookup path map)) [
        | inl absent ↦
            rw (absent, push_erased)
              (pushing-Looped
                (push-Sent [] path [] (if is_empty hash then erased_dir else erased_file) s cycle)
                (λ t first. push_erased-Sent map hashes true t first.same_cycle)
                (forgotten-absent map hashes path hash absent))
        | inr (h, present) ↦
            rw (present, push_erased)
              (weaken-Ends (push_erased-Sent map hashes sent s cycle) λ r t then_sent. (
                then_sent.0,
                Sent-as (forgotten-present map hashes path hash h present) then_sent.1,
              ))
      ]

  element-Sent :
      (dest : Text) (hashes : Dict Text Text) (path hash : Text) (map : Dict Text Text)
      (sent : Bool) (status : Option ElementStatus) (s : ClientState F A)
      → s.fw_cycle ≡ negsuc 0
      → lookup path map ≡ none
      → Settled hashes path hash status
      → ((b : Bool) (t : ClientState F A)
          → t.fw_cycle ≡ negsuc 0
          → t.files ≡ s.files
          → t.root_path ≡ s.root_path
          → Ends (Looped (changed hashes map) t) (λ _. ⊥) (push_changed F A hashes map b) t)
      → Ends
          (Looped (changed hashes ((path, hash) ∷ map)) s)
          (λ _. ⊥)
          (elim status [
            | none ↦ push_changed F A hashes map sent
            | some status ↦ do
              file ← reads (λ s. ok (file_for F A status (read_from_file F A s.files dest)))
              pushing F A
                  (push F A file path hash status (negsuc 0))
                  (push_changed F A hashes map true)
          ])
          s
  unfolding Settled
  element-Sent dest hashes path hash map sent none s cycle absent settled next =
      weaken-Ends (next sent s cycle refl refl) λ r t then_sent. (
        then_sent.0,
        Sent-as
            (λ q old.
              ap (changed hashes map q) (if_same (same_text path q) old)
              ∙ changed-as hashes map path hash (λ o. o) absent settled q old)
            then_sent.1,
      )
  element-Sent dest hashes path hash map sent (some status) s cycle absent settled next =
      reads-bind _ _ (file_for F A status (read_from_file F A s.files dest)) refl (
        pushing-Looped (push-Sent _ path hash status s cycle)
          (λ t first. next true t first.same_cycle first.same_files first.same_root)
          (changed-as hashes map path hash (λ o. left_by status hash o) absent settled))

  pub push_changed-Sent :
      (hashes map : Dict Text Text) (sent : Bool) (s : ClientState F A)
      → s.fw_cycle ≡ negsuc 0
      → UniqueKeys map
      → All (Listed s.files s.root_path hashes) map
      → Ends (Looped (changed hashes map) s) (λ _. ⊥) (push_changed F A hashes map sent) s
  unfolding push_changed
  push_changed-Sent hashes [] sent s cycle unique listed =
      pure-Ends (some sent) (tt, Sent-as (λ q old. refl) (Sent-refl s cycle))
  push_changed-Sent hashes ((path, hash) ∷ map) sent s cycle unique (inl regular, listed) =
      reads-bind _ _ (F.append s.root_path path) refl (
        reads-bind _ _ true regular (
          bind-Ends {P = λ b t. t ≡ s} (pure-Ends false refl) λ b t kept. rw (kept) (
            element-Sent _ hashes path hash map sent _ s cycle unique.0
              (file-Settled F A hashes path hash b)
              (λ b t same files root.
                push_changed-Sent hashes map b t same unique.1 (rw (files, root) listed)))))
  push_changed-Sent hashes ((path, hash) ∷ map) sent s cycle unique
        (inr (other, directory, kind), listed) =
      reads-bind _ _ (F.append s.root_path path) refl (
        reads-bind _ _ false other (
          reads-bind _ _ true directory (
            element-Sent _ hashes path hash map sent _ s cycle unique.0
              (directory-Settled F A hashes path hash kind)
              (λ b t same files root.
                push_changed-Sent hashes map b t same unique.1 (rw (files, root) listed)))))
