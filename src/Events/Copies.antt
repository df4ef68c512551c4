-- ===== src/Events/Copies.antt =====
-- src/runtime/RuntimeEventBuffer.ts, `normalizeRuntimeEventMetadata` and `copyEvent`: a copy of a
-- stored event is the event.
use break_pilot.Common.{
  String, Bool, true, false, Option, none, some, List, [], ◌∷◌, ◌≡◌, refl, sym, ap, ◌∙◌, ◌==◌,
  if◌then◌else◌, string_eq, member, filter_by, length, ltb, ◌≤◌, All, Bool-cases, Option-cases, inl,
  inr, arith, eq_of_beq, subst,
}
use break_pilot.Common.Dict
use break_pilot.Events.{
  Leaf, JsValue, Properties, EventInput, Buffer, leaf, array, is_json_scalar,
  normalize_metadata_value, own_value, collect, non_empty, metadata_keys, normalize_metadata,
  copy_event, normalized,
}

filter_by-twice : (p : Leaf → Bool) (ls : List Leaf) → filter_by p (filter_by p ls) ≡ filter_by p ls
filter_by-twice p [] = refl
filter_by-twice p (l ∷ ls) = elim (Bool-cases (p l)) [
  | inl scalar ↦ rw (scalar, scalar) (ap (λ t. l ∷ t) (filter_by-twice p ls))
  | inr cut ↦ rw cut (filter_by-twice p ls)
]

length-filter_by : (p : Leaf → Bool) (ls : List Leaf) → length (filter_by p ls) ≤ length ls
length-filter_by p [] = omega arith
length-filter_by p (l ∷ ls) = ground (arith, length-filter_by p ls)

-- What a value is normalized to is normal.
value_normal :
    (v w : JsValue) → normalize_metadata_value v ≡ some w → normalize_metadata_value w ≡ some w
unfolding normalize_metadata_value
value_normal (leaf l) w h = elim (Bool-cases (is_json_scalar l)) [
  | inl scalar ↦
      let same : leaf l ≡ w = cc (rw scalar at h) in
      subst (λ v. normalize_metadata_value v ≡ some v) same (rw scalar refl)
  | inr refused ↦ let fails : none ≡ some w = rw refused at h in absurd (ground (arith, fails))
]
value_normal (array ls) w h = elim (Bool-cases (ltb 256 (length ls))) [
  | inl long ↦ let fails : none ≡ some w = rw long at h in absurd (ground (arith, fails))
  | inr short ↦
      let kept : List Leaf = filter_by is_json_scalar ls in
      let same : array kept ≡ w = cc (rw short at h) in
      let still_short : ltb 256 (length kept) ≡ false =
        (ground (arith, short, length-filter_by is_json_scalar ls)) in
      subst (λ v. normalize_metadata_value v ≡ some v) same
        (rw (still_short, normalize_metadata_value)
          (ap (λ t. some (array t)) (filter_by-twice is_json_scalar ls)))
]

either_none {ℓ} : {A : Type ℓ} {o : Option A} (b : Bool) → o ≡ none → (if b then o else none) ≡ o
either_none true h = refl
either_none false h = sym h

get-collect :
    (key : String) (keys : List String) (props : Properties)
    → Dict.get key (collect keys props)
      ≡ (if member key keys then normalize_metadata_value (own_value props key) else none)
unfolding collect Dict.get
get-collect key [] props = refl
get-collect key (k ∷ keys) props =
    let ih = get-collect key keys props in
    elim (Bool-cases (k == key)) [
      | inl here ↦
          let same : k ≡ key = eq_of_beq k key here in
          elim (Option-cases (normalize_metadata_value (own_value props k))) [
            | inl cut ↦
                let cut_too : normalize_metadata_value (own_value props key) ≡ none =
                  subst (λ j. normalize_metadata_value (own_value props j) ≡ none) same cut in
                rw (cut, collect, here) (ih ∙ either_none (member key keys) cut_too)
            | inr (w, kept) ↦
                let kept_too : normalize_metadata_value (own_value props key) ≡ some w =
                  subst (λ j. normalize_metadata_value (own_value props j) ≡ some w) same kept in
                rw (kept, collect, here, Dict.get) (sym kept_too)
          ]
      | inr apart ↦ elim (Option-cases (normalize_metadata_value (own_value props k))) [
        | inl cut ↦ rw (cut, collect, apart) ih
        | inr (w, kept) ↦ rw (kept, collect, apart, Dict.get) ih
      ]
    ]

-- What is kept under a key that is looked at is normalized as the value it came from.
value_kept :
    (key : String) (keys : List String) (props : Properties)
    → member key keys ≡ true
    → normalize_metadata_value (own_value (collect keys props) key)
      ≡ normalize_metadata_value (own_value props key)
unfolding normalize_metadata_value
value_kept key keys props among =
    let found : Dict.get key (collect keys props) ≡ normalize_metadata_value (own_value props key) =
      get-collect key keys props ∙ (rw among refl) in
    elim (Option-cases (normalize_metadata_value (own_value props key))) [
      | inl cut ↦ rw (found, cut) refl
      | inr (w, kept) ↦ rw (found, kept) (value_normal (own_value props key) w kept)
    ]

abbrev with_value : String → Option JsValue → Properties → Properties
with_value key o rest = elim o [ none ↦ rest | some v ↦ (key, v) ∷ rest ]

collect_agree :
    (keys : List String) (p q : Properties)
    → All
        (λ k. normalize_metadata_value (own_value q k) ≡ normalize_metadata_value (own_value p k))
        keys
    → collect keys q ≡ collect keys p
unfolding collect
collect_agree [] p q h = refl
collect_agree (k ∷ keys) p q h =
    let ih : collect keys q ≡ collect keys p = collect_agree keys p q h.1 in
    ap (λ o. with_value k o (collect keys q)) h.0
    ∙ ap (with_value k (normalize_metadata_value (own_value p k))) ih

collect-twice :
    (props : Properties)
    → collect metadata_keys (collect metadata_keys props) ≡ collect metadata_keys props
collect-twice props =
    let v : (k : String)
        → member k metadata_keys ≡ true
        → normalize_metadata_value (own_value (collect metadata_keys props) k)
          ≡ normalize_metadata_value (own_value props k) =
      λ k among. value_kept k metadata_keys props among in
    collect_agree metadata_keys props (collect metadata_keys props) (
      v "reason" refl,
      (
        v "description" refl,
        (
          v "exitCode" refl,
          (
            v "processId" refl,
            (
              v "threadName" refl,
              (
                v "moduleName" refl,
                (
                  v "sourceReference" refl,
                  (
                    v "allThreadsStopped" refl,
                    (v "restart" refl, (v "hitBreakpointIds" refl, (v "areas" refl, tt))),
                  ),
                ),
              ),
            ),
          ),
        ),
      ),
    )

non_empty-twice :
    (props : Properties) (m : Option Properties)
    → collect metadata_keys props ≡ props
    → non_empty props ≡ m
    → normalize_metadata m ≡ m
unfolding normalize_metadata
non_empty-twice [] m h e = rw (sym e) refl
non_empty-twice (p ∷ ps) m h e = subst (λ n. normalize_metadata n ≡ n) e (ap non_empty h)

normalize_metadata-twice :
    (m : Option Properties) → normalize_metadata (normalize_metadata m) ≡ normalize_metadata m
unfolding normalize_metadata
normalize_metadata-twice none = refl
normalize_metadata-twice (some props) =
    non_empty-twice (collect metadata_keys props) (normalize_metadata (some props))
      (collect-twice props) refl

-- Copying the event that `append` stores, for any input, gives the same event: metadata that is
-- normalized once more stays as it is.
pub copy_event-normalized :
    (b : Buffer) (now : String) (e : EventInput)
    → copy_event (normalized b now e) ≡ normalized b now e
unfolding copy_event normalized
copy_event-normalized b now e =
    ap (λ m. record (normalized b now e) { metadata = m }) (normalize_metadata-twice e.metadata)
