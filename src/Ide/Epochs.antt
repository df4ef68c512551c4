-- ===== src/Ide/Epochs.antt =====
-- src/ide/IdeClientRegistry.ts: the epoch of the pauses of a session only grows.
use break_pilot.Common.{
  ℕ, ◌≤◌, ◌<◌, String, Bool, true, false, Option, none, some, List, [], ◌∷◌, ◌≡◌, refl, sym, ap,
  ◌∙◌, subst, ◌==◌, string_eq, eq_of_beq, eq_refl, if◌then◌else◌, Bool-cases, inl, inr, ◌⊎◌,
  either_way, none_or_some, arith,
}
use mathlib.Core.Path.{subst₂}
use break_pilot.Common.Dict.{Dict, get, get-put}
use break_pilot.Ide.{is_debugger_protocol_v2, valid_version}
use break_pilot.Ide.Records.{BridgeMessage, Client, Session, Registry, nonempty, session_key}
use break_pilot.Ide.Registry.{update, update_client}
use break_pilot.Ide.Upsert.{
  upsert_as, upsert_session, recorded, fits, merge_protocol, epoch_fits, is_later,
}
use break_pilot.Ide.Calls.{
  Call, adding, updating, upserting, removing, removing_session, perform, perform_all,
}

-- An epoch that is there stays, or a higher one takes its place.
abbrev pub IsKept : String → Dict String ℕ → Dict String ℕ → Type 0
IsKept k old new = (e : ℕ) → get k old ≡ some e → (n : ℕ) × (get k new ≡ some n) × (e ≤ n)

same-IsKept : (k : String) (m : Dict String ℕ) → IsKept k m m
same-IsKept k m e h = (e, h, omega arith)

recorded-IsKept :
    (v2 : Bool) (o : Option ℕ) (state key k : String) (m : Dict String ℕ)
    → epoch_fits v2 state (get key m) o ≡ true
    → IsKept k m (recorded v2 o key m)
recorded-IsKept false o state key k m fit e there = same-IsKept k m e there
recorded-IsKept true none state key k m fit e there = same-IsKept k m e there
recorded-IsKept true (some n) state key k m fit e there = elim (Bool-cases (key == k)) [
  | inl here ↦
      (let known : get key m ≡ some e =
          subst (λ i. get i m ≡ some e) (sym (eq_of_beq key k here)) there in
        let later : is_later (get key m) (some n) ≡ true = (ground (arith, fit)) in
        let above : is_later (some e) (some n) ≡ true =
          subst (λ o. is_later o (some n) ≡ true) known later in
        (
          n,
          get-put key k n m ∙ ap (λ b. if b then some n else get k m) here,
          ground (arith, above),
        ))
  | inr elsewhere ↦ (
    e,
    get-put key k n m ∙ ap (λ b. if b then some n else get k m) elsewhere ∙ there,
    omega arith,
  )
]

recorded_later :
    (v2 : Bool) (o : Option ℕ) (state key : String) (m : Dict String ℕ) (e : ℕ)
    → v2 ≡ true
    → get key m ≡ some e
    → epoch_fits v2 state (get key m) o ≡ true
    → (n : ℕ) × (o ≡ some n) × (e < n) × (get key (recorded v2 o key m) ≡ some n)
recorded_later false o state key m e on known fit = absurd (ground (arith, on))
recorded_later true none state key m e on known fit = absurd (
    let later : is_later (get key m) none ≡ true = (ground (arith, fit)) in
    let no : is_later (some e) none ≡ true = subst (λ o. is_later o none ≡ true) known later in
    ground (arith, no))
recorded_later true (some n) state key m e on known fit =
    let later : is_later (get key m) (some n) ≡ true = (ground (arith, fit)) in
    let above : is_later (some e) (some n) ≡ true =
      subst (λ o. is_later o (some n) ≡ true) known later in
    (
      n,
      refl,
      ground (arith, above),
      get-put key key n m ∙ ap (λ b. if b then some n else get key m) (eq_refl key),
    )

module _ {J : Type 0} where
  upsert_as-IsKept :
      (k cid sid : String) (o : Option (Client J)) (m : BridgeMessage J) (state now : String)
      (r : Registry J)
      → IsKept k r.pause_epochs (upsert_as cid sid o m state now r).1.pause_epochs
  upsert_as-IsKept k cid sid none m state now r = same-IsKept k r.pause_epochs
  upsert_as-IsKept k cid sid (some c) m state now r =
      let key = session_key cid sid in
      let existing = get key r.sessions in
      let epoch = get key r.pause_epochs in
      let v2 = is_debugger_protocol_v2 c.protocol (merge_protocol existing m.protocol) in
      either_way (λ (x : Option (Session J) × Registry J). IsKept k r.pause_epochs x.1.pause_epochs)
        (fits c existing epoch m state)
        (λ accepted.
          recorded-IsKept v2 (valid_version m.pause_epoch) state key k r.pause_epochs
            (ground (arith, accepted)))
        (λ refused. same-IsKept k r.pause_epochs)

  -- No client comes or goes, and no session is removed.
  abbrev pub never_removed : List (Call J) → Bool
  never_removed [] = true
  never_removed (updating client_id p ∷ cs) = never_removed cs
  never_removed (upserting client_id m state now ∷ cs) = never_removed cs
  never_removed (_ ∷ cs) = false

  perform-IsKept :
      (k : String) (r : Registry J) (c : Call J)
      → never_removed (c ∷ []) ≡ true
      → IsKept k r.pause_epochs (perform r c).pause_epochs
  unfolding perform update upsert_session
  perform-IsKept k r (adding cid ide root capabilities protocol now) h = absurd (ground (arith, h))
  perform-IsKept k r (updating client_id p) h =
      none_or_some (λ (t : Registry J). IsKept k r.pause_epochs t.pause_epochs) (nonempty client_id)
        (λ missing. same-IsKept k r.pause_epochs) (λ cid given. updated cid (get cid r.clients))
    where
      updated :
          (cid : String) (o : Option (Client J))
          → IsKept k r.pause_epochs (update_client cid p o r).pause_epochs
      updated cid none = same-IsKept k r.pause_epochs
      updated cid (some c) = same-IsKept k r.pause_epochs
  perform-IsKept k r (upserting client_id m state now) h =
      none_or_some
        (λ (x : Option (Session J) × Registry J). IsKept k r.pause_epochs x.1.pause_epochs)
        (nonempty client_id) (λ missing. same-IsKept k r.pause_epochs)
        (λ cid given.
          none_or_some
            (λ (x : Option (Session J) × Registry J). IsKept k r.pause_epochs x.1.pause_epochs)
            (nonempty m.ide_session_id) (λ missing. same-IsKept k r.pause_epochs)
            (λ sid named. upsert_as-IsKept k cid sid (get cid r.clients) m state now r))
  perform-IsKept k r (removing cid) h = absurd (ground (arith, h))
  perform-IsKept k r (removing_session client_id sid) h = absurd (ground (arith, h))

  never_removed-cons :
      (c : Call J) (cs : List (Call J))
      → never_removed (c ∷ cs) ≡ true
      → (never_removed (c ∷ []) ≡ true) × (never_removed cs ≡ true)
  never_removed-cons (updating client_id p) cs h = (refl, h)
  never_removed-cons (upserting client_id m state now) cs h = (refl, h)
  never_removed-cons (adding cid ide root capabilities protocol now) cs h =
      absurd (ground (arith, h))
  never_removed-cons (removing cid) cs h = absurd (ground (arith, h))
  never_removed-cons (removing_session client_id sid) cs h = absurd (ground (arith, h))

  -- While clients and sessions are updated and upserted and none is added or removed, the epoch of
  -- the pauses of a session stays or grows, whatever epochs the messages carry.
  pub perform_all-IsKept :
      (k : String) (r : Registry J) (cs : List (Call J))
      → never_removed cs ≡ true
      → IsKept k r.pause_epochs (perform_all r cs).pause_epochs
  unfolding perform_all
  perform_all-IsKept k r [] h e there = same-IsKept k r.pause_epochs e there
  perform_all-IsKept k r (c ∷ cs) h e there =
      let split = never_removed-cons c cs h in
      let (n, now, above) = perform-IsKept k r c split.0 e there in
      let (n2, later, above2) = perform_all-IsKept k (perform r c) cs split.1 n now in
      (n2, later, omega (arith, above, above2))

  -- Refused, or with a higher epoch.
  abbrev IsLater :
      String → String → BridgeMessage J → Registry J → ℕ → Option (Session J) × Registry J → Type 0
  IsLater cid sid m r e x =
      (x ≡ (none, r))
      ⊎ ((n : ℕ) × (valid_version m.pause_epoch ≡ some n)
          × (e < n)
          × (get (session_key cid sid) x.1.pause_epochs ≡ some n))

  upsert_as-IsLater :
      (cid sid : String) (c : Client J) (m : BridgeMessage J) (state now : String) (r : Registry J)
      (e : ℕ)
      → let key = session_key cid sid in
        get key r.pause_epochs ≡ some e
        → is_debugger_protocol_v2 c.protocol (merge_protocol (get key r.sessions) m.protocol) ≡ true
        → IsLater cid sid m r e (upsert_as cid sid (some c) m state now r)
  upsert_as-IsLater cid sid c m state now r e known v2 =
      let key = session_key cid sid in
      let epoch = get key r.pause_epochs in
      either_way (IsLater cid sid m r e) (fits c (get key r.sessions) epoch m state)
        (λ accepted. inr (
          recorded_later
            (is_debugger_protocol_v2 c.protocol (merge_protocol (get key r.sessions) m.protocol))
            (valid_version m.pause_epoch) state key r.pause_epochs e v2 known
            (ground (arith, accepted))))
        (λ refused. inl refl)

  -- In version 2 of the protocol an upsert of a session that has an epoch is refused, with the
  -- registry left as it is, unless the message has a higher one, which is then the epoch of the
  -- session; for a client that is registered and identifiers that are not empty.
  pub upsert_session-pause_epochs :
      (cid sid : String) (c : Client J) (m : BridgeMessage J) (state now : String) (r : Registry J)
      (e : ℕ)
      → nonempty (some cid) ≡ some cid
      → nonempty m.ide_session_id ≡ some sid
      → get cid r.clients ≡ some c
      → let key = session_key cid sid in
        get key r.pause_epochs ≡ some e
        → is_debugger_protocol_v2 c.protocol (merge_protocol (get key r.sessions) m.protocol) ≡ true
        → let x = upsert_session (some cid) m state now r in
          (x ≡ (none, r))
          ⊎ ((n : ℕ) × (valid_version m.pause_epoch ≡ some n)
              × (e < n)
              × (get key x.1.pause_epochs ≡ some n))
  unfolding upsert_session
  upsert_session-pause_epochs cid sid c m state now r e named called found known v2 =
      none_or_some (IsLater cid sid m r e) (nonempty (some cid)) (λ missing. inl refl)
        (λ i given.
          none_or_some (IsLater cid sid m r e) (nonempty m.ide_session_id) (λ missing. inl refl)
            (λ j given2.
              subst₂ (λ i j. IsLater cid sid m r e (upsert_as i j (get i r.clients) m state now r))
                (cc (named, given)) (cc (called, given2))
                (subst (λ o. IsLater cid sid m r e (upsert_as cid sid o m state now r)) (sym found)
                  (upsert_as-IsLater cid sid c m state now r e known v2))))
