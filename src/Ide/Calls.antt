-- ===== src/Ide/Calls.antt =====
-- src/ide/IdeClientRegistry.ts: what holds of a registry after any calls.
use break_pilot.Common.{String, Option, List, [], ◌∷◌, refl, string_eq, none_or_some}
use break_pilot.Common.Dict.{get, put, remove}
use break_pilot.Ide.{Protocol}
use break_pilot.Ide.Records.{
  BridgeMessage, Session, Registry, Patch, new_registry, nonempty, session_key,
}
use break_pilot.Ide.Registry.{add, remove_client, remove_client_sessions, update, remove_session}
use break_pilot.Ide.Upsert.{upsert_session}
use break_pilot.Ide.Consistency.{
  IsConsistent, cleared-IsConsistent, update_client-IsConsistent, upsert_as-IsConsistent,
  removed-IsConsistent, get-put_other, get-remove_other,
}

-- What happens to a registry.
pub data Call (J : Type 0) : Type 0 where
  adding :
      (client_id : String) (ide workspace_root : Option String) (capabilities : Option J)
      (protocol : Protocol) (now : String)
      → Call J
  updating : Option String → Patch J → Call J
  upserting : Option String → BridgeMessage J → (state now : String) → Call J
  removing : String → Call J
  removing_session : (client_id ide_session_id : Option String) → Call J

module _ {J : Type 0} where
  unfoldable pub perform : Registry J → Call J → Registry J
  unfolding add update upsert_session remove_client remove_session
  perform r (adding cid ide root capabilities protocol now) =
      add cid ide root capabilities protocol now r
  perform r (updating client_id p) = update client_id p r
  perform r (upserting client_id m state now) = (upsert_session client_id m state now r).1
  perform r (removing cid) = remove_client cid r
  perform r (removing_session client_id sid) = remove_session client_id sid r

  unfoldable pub perform_all : Registry J → List (Call J) → Registry J
  unfolding perform
  perform_all r [] = r
  perform_all r (c ∷ cs) = perform_all (perform r c) cs

  perform-IsConsistent : (r : Registry J) (c : Call J) → IsConsistent r → IsConsistent (perform r c)
  unfolding perform add update upsert_session remove_client remove_session remove_client_sessions
  perform-IsConsistent r (adding cid ide root capabilities protocol now) v =
      cleared-IsConsistent cid r (put cid _ r.clients)
        (λ j other. get-put_other cid j _ r.clients other) v
  perform-IsConsistent r (updating client_id p) v =
      none_or_some IsConsistent (nonempty client_id) (λ missing. v)
        (λ cid given. update_client-IsConsistent cid p (get cid r.clients) r v)
  perform-IsConsistent r (upserting client_id m state now) v =
      none_or_some (λ (x : Option (Session J) × Registry J). IsConsistent x.1) (nonempty client_id)
        (λ missing. v)
        (λ cid given.
          none_or_some (λ (x : Option (Session J) × Registry J). IsConsistent x.1)
            (nonempty m.ide_session_id) (λ missing. v)
            (λ sid named. upsert_as-IsConsistent cid sid (get cid r.clients) m state now r refl v))
  perform-IsConsistent r (removing cid) v =
      cleared-IsConsistent cid r (remove cid r.clients)
        (λ j other. get-remove_other cid j r.clients other) v
  perform-IsConsistent r (removing_session client_id sid) v =
      none_or_some IsConsistent (nonempty client_id) (λ missing. v)
        (λ cid given.
          none_or_some IsConsistent (nonempty sid) (λ missing. v)
            (λ i named. removed-IsConsistent (session_key cid i) r v))

  perform_all-IsConsistent_from :
      (r : Registry J) (cs : List (Call J)) → IsConsistent r → IsConsistent (perform_all r cs)
  unfolding perform_all
  perform_all-IsConsistent_from r [] v = v
  perform_all-IsConsistent_from r (c ∷ cs) v =
      perform_all-IsConsistent_from (perform r c) cs (perform-IsConsistent r c v)

  -- After any calls on a new registry the client of every session is there, with the features of
  -- the session negotiated from what both of them are now; no key stands twice among the sessions;
  -- exactly the sessions have a revision, and only they have an epoch of a pause.
  pub perform_all-IsConsistent : (cs : List (Call J)) → IsConsistent (perform_all new_registry cs)
  unfolding get
  perform_all-IsConsistent cs =
      perform_all-IsConsistent_from new_registry cs
        (record { current = tt; distinct = tt; revised = λ k. refl; timed = λ k gone. refl })
