-- ===== src/Adapters/Resolving.antt =====
-- src/debug-adapters/AdapterRegistry.ts: a language resolves to what was first registered for it.
use break_pilot.Common.{
  String, false, Option, none, some, List, [], ◌∷◌, ◌≡◌, refl, sym, ap, ◌∙◌, subst, ◌==◌, string_eq,
  eq_refl, eq_of_beq, if◌then◌else◌, ◌||◌, Result, ok, throw, >>=-eq-ok, Bool-cases, inl, inr, ◌⊎◌,
  arith,
}
use break_pilot.Common.Dict.{get, put, remove, has, is_some, get-put, get-remove}
use break_pilot.Adapters.{
  Adapter, Factory, RegistryError, creation_failed, Registry, constructed, validate_identifier,
  assert_no_collision, free_key, register, register_factory, created, found, resolve,
}

-- What happens to a registry.
pub data Call : Type 0 where
  registering : Adapter → Call
  registering_factory : Factory → Call
  resolving : String → Call

-- An error leaves the registry as it is.
abbrev pub kept : Registry → Result RegistryError Registry → Registry
kept r (ok t) = t
kept r (throw e) = r

-- What `get` answers where a factory returns or throws.
abbrev pub answer : Result String Adapter → Result RegistryError Adapter
answer (ok a) = ok a
answer (throw e) = throw (creation_failed e)

-- A key that resolves to an adapter that is there, or to what its factory returns or throws.
abbrev Holds : String → Result String Adapter → Registry → Type 0
Holds key a r =
    ((b : Adapter) × (get key r.adapters ≡ some b) × (ok b ≡ a))
    ⊎ ((f : Factory) × (get key r.adapters ≡ none)
        × (get key r.factories ≡ some f)
        × (f.create ≡ a))

module _ (lower_case : String → String) where
  unfoldable pub perform : Registry → Call → Registry
  unfolding register register_factory resolve
  perform r (registering a) = kept r (register lower_case a r)
  perform r (registering_factory f) = kept r (register_factory lower_case f r)
  perform r (resolving language) = (resolve lower_case language r).0

  unfoldable pub perform_all : Registry → List Call → Registry
  unfolding perform
  perform_all r [] = r
  perform_all r (c ∷ cs) = perform_all (perform r c) cs

  -- A free key is in neither map.
  free_key_absent :
      (r : Registry) (identifier key : String)
      → free_key lower_case r identifier ≡ ok key
      → (key ≡ lower_case identifier) × (get key r.adapters ≡ none) × (get key r.factories ≡ none)
  unfolding validate_identifier assert_no_collision has
  free_key_absent r identifier key h =
      let (k, valid, rest) = >>=-eq-ok (validate_identifier lower_case identifier) _ h in
      let (u, free, same) = >>=-eq-ok (assert_no_collision lower_case r k identifier) _ rest in
      let e : k ≡ key = (cc same) in
      let named : k ≡ lower_case identifier = (ground (arith, valid)) in
      let absent : (get k r.adapters ≡ none) × (get k r.factories ≡ none) =
        (unused (get k r.adapters) (get k r.factories) (ground (arith, free))) in
      (
        sym e ∙ named,
        subst (λ i. get i r.adapters ≡ none) e absent.0,
        subst (λ i. get i r.factories ≡ none) e absent.1,
      )
    where
      unused :
          (x : Option Adapter) (y : Option Factory)
          → (is_some x || is_some y) ≡ false
          → (x ≡ none) × (y ≡ none)
      unused none none h = (refl, refl)
      unused none (some f) h = absurd (ground (arith, h))
      unused (some a) y h = absurd (ground (arith, h))

  held_elsewhere :
      (k key : String) (a : Result String Adapter) (r : Registry)
      → Holds key a r
      → get k r.adapters ≡ none
      → get k r.factories ≡ none
      → (k == key) ≡ false
  held_elsewhere k key a r h no_adapter no_factory = elim (Bool-cases (k == key)) [
    | inr other ↦ other
    | inl same ↦ absurd (
        let e : k ≡ key = eq_of_beq k key same in
        let no_adapter' = subst (λ i. get i r.adapters ≡ none) e no_adapter in
        let no_factory' = subst (λ i. get i r.factories ≡ none) e no_factory in
        elim h [
          | inl (b, there, same2) ↦ cc (there, no_adapter')
          | inr (f, gone, there, made) ↦ cc (there, no_factory')
        ])
  ]

  kept-Holds :
      (key : String) (a : Result String Adapter) (r : Registry) (x : Result RegistryError Registry)
      → Holds key a r
      → ((t : Registry) → x ≡ ok t → Holds key a t)
      → Holds key a (kept r x)
  kept-Holds key a r (throw e) h go = h
  kept-Holds key a r (ok t) h go = go t refl

  perform-Holds :
      (key : String) (a : Result String Adapter) (r : Registry) (c : Call)
      → Holds key a r
      → Holds key a (perform r c)
  unfolding perform register register_factory resolve
  perform-Holds key a r (registering b) h =
      kept-Holds key a r (register lower_case b r) h (λ t done. added t done)
    where
      added : (t : Registry) → register lower_case b r ≡ ok t → Holds key a t
      added t done =
          let (k, free, same) = >>=-eq-ok (free_key lower_case r b.language) _ done in
          let absent = free_key_absent r b.language k free in
          let other = held_elsewhere k key a r h absent.1 absent.2 in
          subst (Holds key a)
            (let e : record r { adapters = put k b r.adapters } ≡ t = (cc same) in e)
            (elim h [
              | inl (c, there, same2) ↦ inl (
                c,
                get-put k key b r.adapters
                    ∙ ap (λ z. if z then some b else get key r.adapters) other
                    ∙ there,
                same2,
              )
              | inr (f, gone, there, made) ↦ inr (
                f,
                get-put k key b r.adapters
                    ∙ ap (λ z. if z then some b else get key r.adapters) other
                    ∙ gone,
                there,
                made,
              )
            ])
  perform-Holds key a r (registering_factory b) h =
      kept-Holds key a r (register_factory lower_case b r) h (λ t done. added t done)
    where
      added : (t : Registry) → register_factory lower_case b r ≡ ok t → Holds key a t
      added t done =
          let (k, free, same) = >>=-eq-ok (free_key lower_case r b.language) _ done in
          let absent = free_key_absent r b.language k free in
          let other = held_elsewhere k key a r h absent.1 absent.2 in
          subst (Holds key a)
            (let e : record r { factories = put k b r.factories } ≡ t = (cc same) in e)
            (elim h [
              | inl there ↦ inl there
              | inr (f, gone, there, made) ↦ inr (
                f,
                gone,
                get-put k key b r.factories
                    ∙ ap (λ z. if z then some b else get key r.factories) other
                    ∙ there,
                made,
              )
            ])
  perform-Holds key a r (resolving language) h =
      looked_up (get (lower_case language) r.adapters) refl
    where
      k : String
      k = lower_case language

      moved :
          (f : Factory) (c : Adapter)
          → get k r.adapters ≡ none
          → get k r.factories ≡ some f
          → f.create ≡ ok c
          → Holds key a (record { adapters = put k c r.adapters; factories = remove k r.factories })
      moved f c absent there makes = elim (Bool-cases (k == key)) [
        | inl same ↦
            (let e : k ≡ key = eq_of_beq k key same in
              let gone : get key r.adapters ≡ none =
                subst (λ i. get i r.adapters ≡ none) e absent in
              let mine : get key r.factories ≡ some f =
                subst (λ i. get i r.factories ≡ some f) e there in
              let now : get key (put k c r.adapters) ≡ some c =
                (get-put k key c r.adapters
                  ∙ ap (λ z. if z then some c else get key r.adapters) same) in
              elim h [
                | inl (b, held, same2) ↦ absurd (cc (held, gone))
                | inr (g, none_yet, held, made) ↦ inl (
                  c,
                  now,
                  let e2 : f ≡ g = (cc (mine, held)) in
                      sym makes ∙ ap (λ (x : Factory). x.create) e2 ∙ made,
                )
              ])
        | inr other ↦
            (let as_before =
                get-put k key c r.adapters
                ∙ ap (λ z. if z then some c else get key r.adapters) other in
              let left =
                get-remove k key r.factories
                ∙ ap (λ z. if z then none else get key r.factories) other in
              elim h [
                | inl (b, held, same2) ↦ inl (b, as_before ∙ held, same2)
                | inr (g, none_yet, held, made) ↦ inr (g, as_before ∙ none_yet, left ∙ held, made)
              ])
      ]

      made_by :
          (o : Option Factory)
          → get k r.adapters ≡ none
          → get k r.factories ≡ o
          → Holds key a (created lower_case k language o r).0
      made_by none absent e = h
      made_by (some f) absent e = outcome f.create refl
        where
          outcome :
              (y : Result String Adapter)
              → f.create ≡ y
              → Holds key a (constructed lower_case k y r).0
          outcome (throw x) makes = h
          outcome (ok c) makes = moved f c absent e makes

      looked_up :
          (o : Option Adapter)
          → get k r.adapters ≡ o
          → Holds key a (found lower_case k language o r).0
      looked_up (some b) e = h
      looked_up none e = made_by (get k r.factories) e refl

  perform_all-Holds_from :
      (key : String) (a : Result String Adapter) (r : Registry) (cs : List Call)
      → Holds key a r
      → Holds key a (perform_all r cs)
  unfolding perform_all
  perform_all-Holds_from key a r [] h = h
  perform_all-Holds_from key a r (c ∷ cs) h =
      perform_all-Holds_from key a (perform r c) cs (perform-Holds key a r c h)

  answered :
      (key : String) (r : Registry) (y : Result String Adapter)
      → (constructed lower_case key y r).1 ≡ answer y
  answered key r (throw e) = refl
  answered key r (ok a) = refl

  resolve-Holds :
      (language : String) (a : Result String Adapter) (r : Registry)
      → Holds (lower_case language) a r
      → (resolve lower_case language r).1 ≡ answer a
  unfolding resolve
  resolve-Holds language a r h = elim h [
    | inl (b, there, same) ↦
        ap (λ o. (found lower_case (lower_case language) language o r).1) there ∙ ap answer same
    | inr (f, gone, there, made) ↦
        ap (λ o. (found lower_case (lower_case language) language o r).1) gone
        ∙ ap (λ o. (created lower_case (lower_case language) language o r).1) there
        ∙ answered (lower_case language) r f.create
        ∙ ap answer made
  ]

  -- After the registrations of an adapter and then of a factory have succeeded, in whatever
  -- registry, and after any later registrations and resolutions, the identifier of the adapter
  -- resolves to it and that of the factory to the adapter that the factory makes, or throws what
  -- making it throws, in any spelling with the same lower case.
  pub resolve-register :
      (a : Adapter) (f : Factory) (r s t : Registry) (cs : List Call) (one two : String)
      → register lower_case a r ≡ ok s
      → register_factory lower_case f s ≡ ok t
      → lower_case one ≡ lower_case a.language
      → lower_case two ≡ lower_case f.language
      → ((resolve lower_case one (perform_all t cs)).1 ≡ ok a)
        × ((resolve lower_case two (perform_all t cs)).1 ≡ answer f.create)
  unfolding register register_factory perform
  resolve-register a f r s t cs one two added made spelled spelled2 =
      let (k, free, same) = >>=-eq-ok (free_key lower_case r a.language) _ added in
      let (j, free2, same2) = >>=-eq-ok (free_key lower_case s f.language) _ made in
      let absent = free_key_absent r a.language k free in
      let absent2 = free_key_absent s f.language j free2 in
      let first : Holds k (ok a) s =
        subst (Holds k (ok a))
          (let e : record r { adapters = put k a r.adapters } ≡ s = (cc same) in e)
          (inl (
            a,
            get-put k k a r.adapters ∙ ap (λ z. if z then some a else get k r.adapters) (eq_refl k),
            refl,
          )) in
      let second : Holds j f.create t =
        subst (Holds j f.create)
          (let e : record s { factories = put j f s.factories } ≡ t = (cc same2) in e)
          (inr (
            f,
            absent2.1,
            get-put j j f s.factories
                ∙ ap (λ z. if z then some f else get j s.factories) (eq_refl j),
            refl,
          )) in
      let still : Holds k (ok a) t =
        subst (Holds k (ok a)) (ap (kept s) made)
          (perform-Holds k (ok a) s (registering_factory f) first) in
      (
        resolve-Holds one (ok a) (perform_all t cs) (
            perform_all-Holds_from (lower_case one) (ok a) t cs
              (subst (λ i. Holds i (ok a) t) (absent.0 ∙ sym spelled) still)),
        resolve-Holds two f.create (perform_all t cs) (
            perform_all-Holds_from (lower_case two) f.create t cs
              (subst (λ i. Holds i f.create t) (absent2.0 ∙ sym spelled2) second)),
      )
