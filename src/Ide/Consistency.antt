-- ===== src/Ide/Consistency.antt =====
-- src/ide/IdeClientRegistry.ts: the sessions, their clients, revisions and epochs fit together.
use break_pilot.Common.{
  ℕ, ◌+◌, String, Bool, true, false, not, Option, none, some, List, [], ◌∷◌, ◌≡◌, refl, sym, ap,
  ◌∙◌, subst, ◌==◌, string_eq, eq_of_beq, if◌then◌else◌, ◌otherwise◌, member, Bool-cases, inl, inr,
  either_way, arith,
}
use break_pilot.Common.Dict.{
  Dict, get, put, remove, keep, is_some, get-put, get-remove, IsDistinct, put-IsDistinct,
  remove-IsDistinct, keep-IsDistinct, get-keep-none, AllEntries, put-AllEntries, remove-AllEntries,
}
use break_pilot.Ide.{valid_version, negotiate_debugger_features, is_debugger_protocol_v2}
use break_pilot.Ide.Records.{BridgeMessage, Client, Session, Registry, Patch, session_key}
use break_pilot.Ide.Registry.{
  keys_of, remove_keys, remove_client_sessions, refresh_negotiated_features, update_client, patched,
}
use break_pilot.Ide.Upsert.{recorded, fits, session_of, merge_protocol, upsert_as}

get-remove_keys :
    {V : Type 0} (ks : List String) (j : String) (m : Dict String V)
    → get j (remove_keys ks m) ≡ (if member j ks then none else get j m)
unfolding remove_keys
get-remove_keys [] j m = refl
get-remove_keys (k ∷ ks) j m = ground (arith, get-remove_keys ks j (remove k m), get-remove k j m)

pub get-put_other :
    {V : Type 0} (k j : String) (v : V) (m : Dict String V)
    → (j == k) ≡ false
    → get j (put k v m) ≡ get j m
get-put_other k j v m other =
    ground (arith, other, get-put k j v m, string_eq.beq_iff k j, string_eq.beq_iff j k)

pub get-remove_other :
    {V : Type 0} (k j : String) (m : Dict String V)
    → (j == k) ≡ false
    → get j (remove k m) ≡ get j m
get-remove_other k j m other =
    ground (arith, other, get-remove k j m, string_eq.beq_iff k j, string_eq.beq_iff j k)

module _ {J : Type 0} where
  -- The client of a session is there, and their features are negotiated with what both are now.
  abbrev pub IsCurrent : Dict String (Client J) → String → Session J → Type 0
  IsCurrent clients k s =
      (c : Client J) × (get s.client_id clients ≡ some c)
      × (s.negotiated ≡ negotiate_debugger_features c.protocol s.protocol)

  pub record IsConsistent (r : Registry J) : Type 0 where
    pub current : AllEntries (IsCurrent r.clients) r.sessions
    pub distinct : IsDistinct r.sessions
    pub revised : (k : String) → is_some (get k r.session_revisions) ≡ is_some (get k r.sessions)
    pub timed : (k : String) → get k r.sessions ≡ none → get k r.pause_epochs ≡ none

  -- Sessions of other clients do not see a change of one.
  kept-IsCurrent :
      (cid : String) (old new : Dict String (Client J))
      → ((j : String) → (j == cid) ≡ false → get j new ≡ get j old)
      → (m : Dict String (Session J)) → AllEntries (IsCurrent old) m
      → AllEntries (IsCurrent new) (keep (λ k s. not (s.client_id == cid)) m)
  unfolding keep
  kept-IsCurrent cid old new same [] a = tt
  kept-IsCurrent cid old new same ((k, s) ∷ m) a = elim (Bool-cases (s.client_id == cid)) [
    | inl mine ↦ rw mine (kept-IsCurrent cid old new same m a.1)
    | inr theirs ↦
        rw theirs
          ((a.0.0, same s.client_id theirs ∙ a.0.1, a.0.2), kept-IsCurrent cid old new same m a.1)
  ]

  absent_key :
      (cid k : String) (m : Dict String (Session J))
      → get k m ≡ none
      → member k (keys_of cid m) ≡ false
  unfolding get
  absent_key cid k [] h = refl
  absent_key cid k ((j, s) ∷ m) h = ground (arith, h, absent_key cid k m)

  -- The sessions that are kept are those that are not among the keys of the client.
  get-kept :
      (cid k : String) (m : Dict String (Session J))
      → IsDistinct m
      → is_some (get k (keep (λ k s. not (s.client_id == cid)) m))
        ≡ (if member k (keys_of cid m) then false else is_some (get k m))
  unfolding keep get
  get-kept cid k [] d = refl
  get-kept cid k ((j, s) ∷ m) d = elim (Bool-cases (s.client_id == cid)) [
    | inl mine ↦ (elim (Bool-cases (j == k)) [
      | inl here ↦
          (let e : j ≡ k = eq_of_beq j k here in
            let gone =
              subst (λ i. get i (keep (λ k s. not (s.client_id == cid)) m) ≡ none) e
                (get-keep-none (λ k s. not (s.client_id == cid)) j m d.0) in
            rw (mine, here) (ap is_some gone))
      | inr there ↦ rw (mine, there) (get-kept cid k m d.1)
    ])
    | inr theirs ↦ (elim (Bool-cases (j == k)) [
      | inl here ↦
          (let absent =
              subst (λ i. member i (keys_of cid m) ≡ false) (eq_of_beq j k here)
                (absent_key cid j m d.0) in
            rw (theirs, here, absent) refl)
      | inr there ↦ rw (theirs, there) (get-kept cid k m d.1)
    ])
  ]

  pub cleared-IsConsistent :
      (cid : String) (r : Registry J) (new : Dict String (Client J))
      → ((j : String) → (j == cid) ≡ false → get j new ≡ get j r.clients)
      → IsConsistent r
      → IsConsistent (record (remove_client_sessions cid r) { clients = new })
  unfolding remove_client_sessions
  cleared-IsConsistent cid r new same v = record {
    current = kept-IsCurrent cid r.clients new same r.sessions v.current;
    distinct = keep-IsDistinct (λ k s. not (s.client_id == cid)) r.sessions v.distinct;
    revised = λ k. ground (
      arith,
      get-kept cid k r.sessions v.distinct,
      get-remove_keys (keys_of cid r.sessions) k r.session_revisions,
      v.revised k,
    );
    timed = λ k gone. ground (
      arith,
      gone,
      get-kept cid k r.sessions v.distinct,
      get-remove_keys (keys_of cid r.sessions) k r.pause_epochs,
      v.timed k,
    );
  }

  get-refresh :
      (cid k : String) (c : Client J) (m : Dict String (Session J))
      → is_some (get k (refresh_negotiated_features cid c m)) ≡ is_some (get k m)
  unfolding refresh_negotiated_features get
  get-refresh cid k c [] = refl
  get-refresh cid k c ((j, s) ∷ m) = elim (Bool-cases (j == k)) [
    | inl here ↦ rw here refl
    | inr there ↦ rw there (get-refresh cid k c m)
  ]

  get-refresh_none :
      (cid k : String) (c : Client J) (m : Dict String (Session J))
      → get k (refresh_negotiated_features cid c m) ≡ none
      → get k m ≡ none
  get-refresh_none cid k c m h = ground (arith, get-refresh cid k c m, h)

  refresh-none :
      (cid k : String) (c : Client J) (m : Dict String (Session J))
      → get k m ≡ none
      → get k (refresh_negotiated_features cid c m) ≡ none
  refresh-none cid k c m h = ground (arith, get-refresh cid k c m, h)

  refresh-IsDistinct :
      (cid : String) (c : Client J) (m : Dict String (Session J))
      → IsDistinct m
      → IsDistinct (refresh_negotiated_features cid c m)
  unfolding refresh_negotiated_features
  refresh-IsDistinct cid c [] d = tt
  refresh-IsDistinct cid c ((k, s) ∷ m) d =
      (refresh-none cid k c m d.0, refresh-IsDistinct cid c m d.1)

  refresh-IsCurrent :
      (cid : String) (c : Client J) (old : Dict String (Client J)) (m : Dict String (Session J))
      → AllEntries (IsCurrent old) m
      → AllEntries (IsCurrent (put cid c old)) (refresh_negotiated_features cid c m)
  unfolding refresh_negotiated_features
  refresh-IsCurrent cid c old [] a = tt
  refresh-IsCurrent cid c old ((k, s) ∷ m) a = (
    either_way (IsCurrent (put cid c old) k) (s.client_id == cid)
        (λ mine. (
          c,
          rw (get-put cid s.client_id c old) (
              ground (
                arith,
                mine,
                string_eq.beq_iff s.client_id cid,
                string_eq.beq_iff cid s.client_id,
              )),
          refl,
        ))
        (λ theirs. (
          a.0.0,
          get-put cid s.client_id c old
              ∙ (let e : (cid == s.client_id) ≡ false =
                    (ground (
                      arith,
                      theirs,
                      string_eq.beq_iff s.client_id cid,
                      string_eq.beq_iff cid s.client_id,
                    )) in
                  ap (λ b. if b then some c else get s.client_id old) e)
              ∙ a.0.1,
          a.0.2,
        )),
    refresh-IsCurrent cid c old m a.1,
  )

  pub update_client-IsConsistent :
      (cid : String) (p : Patch J) (o : Option (Client J)) (r : Registry J)
      → IsConsistent r
      → IsConsistent (update_client cid p o r)
  update_client-IsConsistent cid p none r v = v
  update_client-IsConsistent cid p (some c) r v = record {
    current = refresh-IsCurrent cid (patched p c) r.clients r.sessions v.current;
    distinct = refresh-IsDistinct cid (patched p c) r.sessions v.distinct;
    revised = λ k. v.revised k ∙ sym (get-refresh cid k (patched p c) r.sessions);
    timed = λ k gone. v.timed k (get-refresh_none cid k (patched p c) r.sessions gone);
  }

  timed-recorded :
      (v2 : Bool) (o : Option ℕ) (key k : String) (s : Session J)
      (sessions : Dict String (Session J)) (epochs : Dict String ℕ)
      → ((i : String) → get i sessions ≡ none → get i epochs ≡ none)
      → get k (put key s sessions) ≡ none
      → get k (recorded v2 o key epochs) ≡ none
  timed-recorded v2 o key k s sessions epochs timed gone = go v2 o
    where
      other_key : (key == k) ≡ false
      other_key = ground (arith, gone, get-put key k s sessions)

      before : get k epochs ≡ none
      before = timed k (ground (arith, gone, get-put key k s sessions))

      go : (v2 : Bool) (o : Option ℕ) → get k (recorded v2 o key epochs) ≡ none
      go false o = before
      go true none = before
      go true (some n) =
          get-put key k n epochs ∙ ap (λ b. if b then some n else get k epochs) other_key ∙ before

  pub upsert_as-IsConsistent :
      (cid sid : String) (o : Option (Client J)) (m : BridgeMessage J) (state now : String)
      (r : Registry J)
      → get cid r.clients ≡ o
      → IsConsistent r
      → IsConsistent (upsert_as cid sid o m state now r).1
  upsert_as-IsConsistent cid sid none m state now r found v = v
  upsert_as-IsConsistent cid sid (some c) m state now r found v =
      let key = session_key cid sid in
      let existing = get key r.sessions in
      let epoch = get key r.pause_epochs in
      let v2 = is_debugger_protocol_v2 c.protocol (merge_protocol existing m.protocol) in
      let s = session_of cid sid c existing epoch m state now in
      either_way (λ (x : Option (Session J) × Registry J). IsConsistent x.1)
        (fits c existing epoch m state)
        (λ accepted. record {
          current =
              put-AllEntries (IsCurrent r.clients) key s r.sessions (c, found, refl) v.current;
          distinct = put-IsDistinct key s r.sessions v.distinct;
          revised = λ k. ground (
            arith,
            get-put key k s r.sessions,
            get-put key k ((get key r.session_revisions otherwise 0) + 1) r.session_revisions,
            v.revised k,
          );
          timed = λ k gone.
              timed-recorded v2 (valid_version m.pause_epoch) key k s r.sessions r.pause_epochs
                v.timed gone;
        })
        (λ refused. v)

  pub removed-IsConsistent :
      (key : String) (r : Registry J)
      → IsConsistent r
      → IsConsistent (record r {
        sessions = remove key r.sessions;
        session_revisions = remove key r.session_revisions;
        pause_epochs = remove key r.pause_epochs;
      })
  removed-IsConsistent key r v = record {
    current = remove-AllEntries (IsCurrent r.clients) key r.sessions v.current;
    distinct = remove-IsDistinct key r.sessions v.distinct;
    revised = λ k.
        ground
          (arith, get-remove key k r.sessions, get-remove key k r.session_revisions, v.revised k);
    timed = λ k gone.
        ground
          (arith, gone, get-remove key k r.sessions, get-remove key k r.pause_epochs, v.timed k);
  }
