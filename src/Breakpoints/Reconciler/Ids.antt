-- ===== src/Breakpoints/Reconciler/Ids.antt =====
-- src/sessions/BreakpointReconciler.ts: the breakpoint that is updated stays in the lists that are
-- sent, so it is found again after they are installed.
use break_pilot.Common.{
  String, Bool, true, false, some, List, [], ◌∷◌, ◌++◌, map, ◌≡◌, refl, sym, ap, ◌∙◌, ◌==◌,
  string_eq, member, ok, ◌||◌, arith, Bool-cases, inl, inr, any_of, filter_by, eq_refl, eq_of_beq,
  >>=-eq-ok,
}
use break_pilot.Common.Dict
use break_pilot.Common.Dict.{Dict}
use break_pilot.Breakpoints.{Breakpoint}
use break_pilot.Breakpoints.Manager
use break_pilot.Breakpoints.Manager.{
  Manager, Replacement, put_records, all_records, selected, final_session, check_conflicts, prepare,
  replace_sources, install, bucket, in_source, list_for_source,
}
use break_pilot.Breakpoints.Manager.Preflight.{stamp, stamp_all, prepare_lem}
use break_pilot.Breakpoints.Manager.Replace.{bucket-put}
use break_pilot.Breakpoints.Manager.Invariant.{Belongs}
use break_pilot.Breakpoints.Reconciler.{
  SourceState, ids_of, replaced, without, desired_list, source_state, source_states,
}
use break_pilot.Breakpoints.Reconciler.Sends.{Answers, same_ids, settings, settings_of}

pub ids_of-append : (as' bs : List Breakpoint) → ids_of (as' ++ bs) ≡ ids_of as' ++ ids_of bs
ids_of-append [] bs = refl
ids_of-append (a ∷ as') bs = ap (λ t. a.id ∷ t) (ids_of-append as' bs)

member-append :
    (a : String) (xs ys : List String) → member a (xs ++ ys) ≡ (member a xs || member a ys)
member-append a [] ys = refl
member-append a (x ∷ xs) ys = ground (arith, member-append a xs ys)

pub ids_of-stamp :
    (sid file : String) (bs : List Breakpoint) → ids_of (map (stamp sid file) bs) ≡ ids_of bs
ids_of-stamp sid file [] = refl
ids_of-stamp sid file (b ∷ bs) = ap (λ t. b.id ∷ t) (ids_of-stamp sid file bs)

pub settings_of-stamp :
    (sid file : String) (bs : List Breakpoint)
    → settings_of (map (stamp sid file) bs) ≡ settings_of bs
settings_of-stamp sid file [] = refl
settings_of-stamp sid file (b ∷ bs) = ap (λ t. settings b ∷ t) (settings_of-stamp sid file bs)

get-put_records :
    (id : String) (rs : List Breakpoint) (m : Dict String Breakpoint)
    → Dict.is_some (Dict.get id (put_records rs m))
      ≡ (member id (ids_of rs) || Dict.is_some (Dict.get id m))
unfolding put_records
get-put_records id [] m = refl
get-put_records id (r ∷ rs) m =
    ground (arith, get-put_records id rs (Dict.put r.id r m), Dict.get-put r.id id r m)

abbrev pub mentions : String → List Replacement → Bool
mentions id rs = any_of (λ r. member id (ids_of r.records)) rs

all_records-stamp_all :
    (resolve : String → String) (sid id : String) (rs : List Replacement)
    → member id (ids_of (all_records (stamp_all resolve sid rs))) ≡ mentions id rs
all_records-stamp_all resolve sid id [] = refl
all_records-stamp_all resolve sid id (r ∷ rs) =
    rw
      (
        ids_of-append (map (stamp sid (resolve r.file_path)) r.records) _,
        member-append,
        ids_of-stamp,
      )
      (rw (all_records-stamp_all resolve sid id rs))

install-get :
    (resolve : String → String) (sid id : String) (done : List Replacement) (m m' : Manager)
    → install resolve m sid done ≡ ok m'
    → member id (ids_of (all_records done)) ≡ true
    → Dict.is_some (Dict.get id (bucket m' sid)) ≡ true
unfolding final_session
install-get resolve sid id [] m m' h there = cc
install-get resolve sid id (p ∷ ps) m m' h there =
    let (u, checked, put) =
      >>=-eq-ok (check_conflicts resolve (selected (p ∷ ps)) (bucket m sid) (all_records (p ∷ ps)))
        _ h in
    let same : record m {
      by_session = Dict.put sid (final_session resolve (p ∷ ps) (bucket m sid)) m.by_session;
    }
        ≡ m' =
      (cc) in
    rw (← same) (
      rw (bucket-put m sid sid _, eq_refl sid)
        (get-put_records id (all_records (p ∷ ps)) _ ∙ rw there))

pub replace_sources-get :
    (resolve : String → String) (sid id : String) (rs : List Replacement) (m m' : Manager)
    → replace_sources resolve sid rs m ≡ ok m'
    → mentions id rs ≡ true
    → Dict.is_some (Manager.get m' sid id) ≡ true
unfolding replace_sources Manager.get
replace_sources-get resolve sid id rs m m' h mentioned =
    let (done, prepared, installed) = >>=-eq-ok (prepare resolve sid [] [] rs) _ h in
    let p = prepare_lem resolve sid [] [] rs done prepared in
    let there : member id (ids_of (all_records done)) ≡ true =
      (rw p.stamped (all_records-stamp_all resolve sid id rs ∙ mentioned)) in
    install-get resolve sid id done m m' installed there

-- The breakpoint under an id is listed for its own source.
listed :
    (resolve : String → String) (file k : String) (b : Breakpoint) (bps : Dict String Breakpoint)
    → b.id ≡ k
    → in_source resolve file b ≡ true
    → Dict.get k bps ≡ some b
    → member k (ids_of (filter_by (in_source resolve file) (Dict.values bps))) ≡ true
unfolding Dict.get
listed resolve file k b [] e i h = cc
listed resolve file k b ((j, c) ∷ bps) e i h = elim (Bool-cases (j == k)) [
  | inl same ↦ let e' : c ≡ b = (ground (arith, same)) in rw e' (rw i (rw (e, eq_refl k)))
  | inr other ↦ ground (arith, other, listed resolve file k b bps e i)
]

replaced-member :
    (requested : Breakpoint) (bs : List Breakpoint) → ids_of (replaced requested bs) ≡ ids_of bs
replaced-member requested [] = refl
replaced-member requested (b ∷ bs) = elim (Bool-cases (b.id == requested.id)) [
  | inl same ↦ rw same (rw (replaced-member requested bs) (rw (eq_of_beq _ requested.id same)))
  | inr other ↦ rw other (rw (replaced-member requested bs))
]

without-append :
    (id : String) (bs : List Breakpoint) (requested : Breakpoint)
    → requested.id ≡ id
    → member id (ids_of (bs ++ requested ∷ [])) ≡ true
without-append id [] requested e = rw (e, eq_refl id)
without-append id (b ∷ bs) requested e = ground (arith, without-append id bs requested)

module _ (resolve : String → String) (resolve_idem : (p : String) → resolve (resolve p) ≡ resolve p)
    (m : Manager) (sid : String) (target requested : Breakpoint)
    (placed : Dict.AllEntries (Belongs sid) (bucket m sid))
    (found : Manager.get m sid target.id ≡ some target) (same_id : requested.id ≡ target.id) where
  stays_listed :
      (file : String)
      → in_source resolve file target ≡ true
      → member target.id (ids_of (replaced requested (list_for_source resolve m sid file))) ≡ true
  unfolding list_for_source Manager.get
  stays_listed file inside =
      rw (replaced-member requested (list_for_source resolve m sid file))
        (listed resolve file target.id target (bucket m sid) refl inside found)

  desired_list-member :
      (file : String)
      → resolve requested.file ≡ file
      → member target.id
          (ids_of (desired_list resolve target requested file (list_for_source resolve m sid file)))
        ≡ true
  desired_list-member file e = elim (Bool-cases (resolve target.file == resolve requested.file)) [
    | inl stays ↦
        let e' = eq_of_beq (resolve target.file) (resolve requested.file) stays in
        let inside : in_source resolve file target ≡ true =
          (ground (arith, stays, ap resolve e, resolve_idem requested.file)) in
        let here : (file == resolve target.file) ≡ true =
          (ground (arith, stays, e, e', eq_refl file)) in
        rw (stays, here) (stays_listed file inside)
    | inr moves ↦
        let away : (file == resolve target.file) ≡ false =
          (ground (
            arith,
            moves,
            e,
            string_eq.beq_iff file (resolve target.file),
            string_eq.beq_iff (resolve target.file) (resolve requested.file),
          )) in
        let here : (file == resolve requested.file) ≡ true = (ground (arith, e, eq_refl file)) in
        rw (moves, away, here)
          (without-append target.id (without target.id (list_for_source resolve m sid file))
            requested same_id)
  ]

  abbrev wants : SourceState → Bool
  wants s = member target.id (ids_of s.desired)

  states-member :
      (files : List String)
      → member (resolve requested.file) files ≡ true
      → any_of wants (map (source_state resolve m sid target requested) files) ≡ true
  unfolding source_state
  states-member [] h = cc
  states-member (f ∷ fs) h = elim (Bool-cases (f == resolve requested.file)) [
    | inl same ↦ rw (desired_list-member f (sym (eq_of_beq f (resolve requested.file) same)))
    | inr other ↦ ground (arith, states-member fs (ground (arith, other)))
  ]

  pub source_states-member :
      (files : List String) (states : List SourceState)
      → source_states resolve m sid target requested files ≡ ok states
      → any_of wants states ≡ true
  unfolding source_states
  source_states-member files states h = elim (Bool-cases (member (resolve requested.file) files)) [
    | inl there ↦ elim (Bool-cases (member (resolve target.file) files)) [
      | inl too ↦
          let e : map (source_state resolve m sid target requested) files ≡ states =
            (ground (arith, there, too)) in
          rw (← e) (states-member files there)
      | inr absent ↦ absurd (ground (arith, there, absent))
    ]
    | inr absent ↦ absurd (ground (arith, absent))
  ]

-- The sources sent mention an id exactly when the lists wanted do.
pub Answers-mentions :
    (id : String) (ss : List SourceState) (rs : List Replacement)
    → Answers ss rs
    → mentions id rs ≡ any_of (λ s. member id (ids_of s.desired)) ss
Answers-mentions id [] [] a = refl
Answers-mentions id [] (r ∷ rs) a = absurd a
Answers-mentions id (s ∷ ss) [] a = absurd a
Answers-mentions id (s ∷ ss) (r ∷ rs) (file, kept, a) =
    rw (same_ids r.records s.desired kept) (rw (Answers-mentions id ss rs a))
