-- ===== src/Comm/ClientApi/Compare/Mirrors.antt =====
-- What `Client_API::probe` hands to its threads makes the server's elements the client's.
use pds_progetto.Comm.Message
use pds_progetto.Cpp.Effect.{
  ◌>>=◌, pure, reads, on, Ends, Outcome-kept, kept-Outcome, bind-Ends, kept, bind-returned, never,
}
use pds_progetto.Cpp.Files.{Files}
use pds_progetto.Comm.ClientApi.{
  ClientSocket, settle, compare_with, probe, ClientState, asked, keys, push_changed, on_api,
}
use pds_progetto.Comm.ClientApi.Compare.{IsTraced, changed, forgotten, written, UniqueKeys, removed}
use pds_progetto.Base.Dict.{Dict, lookup}
use pds_progetto.Base.{
  Option, Text, Bool, List, ◌≡◌, some, ◌++◌, All, ◌∙◌, true, text_eq, subst, sym, none, arith,
  if◌then◌else◌, refl, false,
}
use pds_progetto.Comm.ClientApi.Compare.Loops.{
  Sent, Listed, Looped, push_changed-Sent, Sent-trans, push_erased-Sent,
}
use pds_progetto.Comm.Message.{Message, msg_probe_content, msg_okay, is_okay}
use pds_progetto.Base.Int.{negsuc}
use pds_progetto.Comm.Changes.{after}
use pds_progetto.Cpp.Result.{ok}

module _ (F : Files) (A : ClientSocket) (T : IsTraced A) where
  settle-launched :
      (sent : Option Bool) (s : ClientState F A)
      → T.launched (settle F A sent s).1.api ≡ T.launched s.api
  unfolding settle pure on reads ◌>>=◌
  settle-launched none s = refl
  settle-launched (some true) s = T.waits s.api
  settle-launched (some false) s =
      Outcome-kept (λ u. T.launched u.api ≡ T.launched s.api) _
        (bind-Ends
          (kept (on_api F A (A.send_and_receive Message.okay msg_okay))
            (T.sends Message.okay msg_okay s.api))
          λ received t h. kept (reads (λ s. ok (is_okay (A.get_message s.api)))) h).holds

  changed-forgotten :
      (map hashes : Dict Text Text) (q : Text)
      → changed hashes map q (forgotten map hashes q (lookup q hashes)) ≡ lookup q map
  changed-forgotten map hashes q = both_cases (lookup q map) (lookup q hashes)
    where
      both_cases :
          (mine others : Option Text) → written mine others (removed others mine others) ≡ mine
      both_cases none none = refl
      both_cases none (some k) = refl
      both_cases (some h) none = refl
      both_cases (some h) (some k) = ground (arith, text_eq.beq_iff k h)

  -- The messages handed to the threads make the server's elements the client's.
  unfoldable pub Mirrored : (map hashes : Dict Text Text) (s s' : ClientState F A) → Type 0
  Mirrored map hashes s s' =
      (messages : List Message) × (T.launched s'.api ≡ T.launched s.api ++ messages)
      × ((q : Text) → after q (lookup q hashes) messages ≡ lookup q map)

  settle-Mirrored :
      (map hashes : Dict Text Text) (sent : Option Bool) {s t : ClientState F A}
      → Sent F A T (λ q old. changed hashes map q (forgotten map hashes q old)) s t
      → Ends (λ _ u. Mirrored map hashes s u) (Mirrored map hashes s) (settle F A sent) t
  unfolding Mirrored
  settle-Mirrored map hashes sent {s = s} {t = t} all = record {
    holds = kept-Outcome (Mirrored map hashes s) (settle F A sent t) (
      all.messages,
      settle-launched sent t ∙ all.traced,
      λ q. all.effect_of q (lookup q hashes) ∙ changed-forgotten map hashes q,
    );
  }

  compare_with-Mirrored :
      (map hashes : Dict Text Text) (s : ClientState F A)
      → s.fw_cycle ≡ negsuc 0
      → UniqueKeys map
      → All (Listed F A T s.files s.root_path hashes) map
      → Ends
          (λ _ u. Mirrored map hashes s u)
          (Mirrored map hashes s)
          (compare_with F A map hashes)
          s
  unfolding compare_with
  compare_with-Mirrored map hashes s cycle unique listed =
      bind-Ends (never (push_erased-Sent F A T map hashes false s cycle))
        λ r t first. after_erased r t first
    where
      after_erased :
          (r : Option Bool) (t : ClientState F A)
          → Looped F A T (forgotten map hashes) s r t
          → Ends
              (λ _ u. Mirrored map hashes s u)
              (Mirrored map hashes s)
              (do
                sent ← elim r [ none ↦ pure none | some sent ↦ push_changed F A hashes map sent ]
                settle F A sent)
              t
      after_erased none t first = absurd first.0
      after_erased (some sent) t first =
          bind-Ends
            (never (
              push_changed-Sent F A T hashes map sent t first.1.same_cycle unique
                (rw (first.1.same_files, first.1.same_root) listed)))
            λ b u second. settle-Mirrored map hashes b (Sent-trans F A T first.1 second.1)

  pub probe-Mirrored :
      (map : Dict Text Text) (s t : ClientState F A)
      → asked F A (Message.probe (keys F A map)) msg_probe_content s ≡ (ok true, t)
      → t.fw_cycle ≡ negsuc 0
      → UniqueKeys map
      → All (Listed F A T t.files t.root_path (A.get_message t.api).hashes) map
      → Mirrored map (A.get_message t.api).hashes t (probe F A map s).1
  unfolding probe reads ◌>>=◌
  probe-Mirrored map s t answered cycle unique listed =
      subst (λ r. Mirrored map (A.get_message t.api).hashes t r.1)
        (sym (
          bind-returned (asked F A (Message.probe (keys F A map)) msg_probe_content)
            (λ okay. do
              hashes ← reads (λ s. ok ((A.get_message s.api).hashes))
              if okay then compare_with F A map hashes else pure false)
            true answered))
        (Outcome-kept (Mirrored map _ t) _
          (compare_with-Mirrored map _ t cycle unique listed).holds)
