-- ===== src/Breakpoints/Manager/Replace.antt =====
-- `replaceSources` of src/sessions/BreakpointManager.ts: what every source of the session lists
-- after it.
use mathlib.Core.List.{append-nil}
use break_pilot.Common.{
  String, true, false, not, Option, none, some, List, [], ◌∷◌, ◌++◌, map, ◌≡◌, ◌≢◌, refl, ap, ◌∙◌,
  ◌==◌, if◌then◌else◌, filter_by, member, All, ok, arith, string_eq, ◌otherwise◌, Bool-cases,
  Option-cases, inl, inr, eq_refl, eq_of_beq, filter_by-append, Result-cases, subst, >>=-eq-ok,
}
use break_pilot.Common.Dict
use break_pilot.Common.Dict.{Dict}
use break_pilot.Breakpoints.{Breakpoint}
use break_pilot.Breakpoints.Manager.{
  Manager, Replacement, bucket, in_source, list_for_source, prepare, selected, all_records,
  check_conflicts, final_session, replace_sources, install,
}
use break_pilot.Breakpoints.Manager.Preflight.{
  stamp, entries, put_records_fresh, stamp_all, FreshSources, prepare_lem,
}

-- The list asked for a source: the records of the replacement that names it, with the session and
-- the source written into them.
abbrev pub requested :
    (String → String) → String → String → List Replacement → Option (List Breakpoint)
requested resolve sid file [] = none
requested resolve sid file (r ∷ rs) =
    if resolve r.file_path == file
    then some (map (stamp sid file) r.records)
    else requested resolve sid file rs

abbrev pub OtherSessionsKept : String → Manager → Manager → Type 0
OtherSessionsKept sid m m' = (s : String) → s ≢ sid → bucket m' s ≡ bucket m s

values-append :
    (m n : Dict String Breakpoint) → Dict.values (m ++ n) ≡ Dict.values m ++ Dict.values n
values-append [] n = refl
values-append ((k, b) ∷ m) n = ap (λ t. b ∷ t) (values-append m n)

values-entries : (rs : List Breakpoint) → Dict.values (entries rs) ≡ rs
values-entries [] = refl
values-entries (r ∷ rs) = ap (λ t. r ∷ t) (values-entries rs)

pub bucket-put :
    (m : Manager) (sid s : String) (x : Dict String Breakpoint)
    → bucket (record m { by_session = Dict.put sid x m.by_session }) s
      ≡ (if sid == s then x else bucket m s)
unfolding bucket
bucket-put m sid s x = rw Dict.get-put (ground arith)

module _ (resolve : String → String) where
  -- An id that passes the conflict check is no longer there once the selected sources are gone.
  check_conflicts_lem :
      (sources : List String) (m : Dict String Breakpoint) (rs : List Breakpoint)
      → Dict.IsDistinct m
      → check_conflicts resolve sources m rs ≡ ok tt
      → All
          (λ r. Dict.get r.id (Dict.keep (λ _ b. not (member (resolve b.file) sources)) m) ≡ none)
          rs
  unfolding check_conflicts
  check_conflicts_lem sources m [] d h = tt
  check_conflicts_lem sources m (r ∷ rs) d h = elim (Option-cases (Dict.get r.id m)) [
    | inl absent ↦ (
      Dict.get-keep-none _ r.id m absent,
      check_conflicts_lem sources m rs d (ground (arith, absent)),
    )
    | inr (c, found) ↦ elim (Bool-cases (member (resolve c.file) sources)) [
      | inl there ↦ (
        Dict.get-keep _ r.id c m d found ∙ rw there,
        check_conflicts_lem sources m rs d (ground (arith, found, there)),
      )
      | inr other ↦ absurd (ground (arith, found, other))
    ]
  ]

  -- The deletion empties the selected sources and leaves the others.
  filter-keep :
      (file : String) (sources : List String) (m : Dict String Breakpoint)
      → filter_by
          (in_source resolve file)
          (Dict.values (Dict.keep (λ _ b. not (member (resolve b.file) sources)) m))
        ≡ (if member (resolve file) sources
            then []
            else filter_by (in_source resolve file) (Dict.values m))
  unfolding Dict.keep
  filter-keep file sources [] = ground arith
  filter-keep file sources ((k, b) ∷ m) = elim (Bool-cases (resolve b.file == resolve file)) [
    | inl same ↦
        ground
          (arith, same, ap (λ f. member f sources) (eq_of_beq _ _ same), filter-keep file sources m)
    | inr other ↦ ground (arith, other, filter-keep file sources m)
  ]

  requested-none :
      (sid file : String) (seen : List String) (rs : List Replacement)
      → member file seen ≡ true
      → FreshSources seen (stamp_all resolve sid rs)
      → requested resolve sid file rs ≡ none
  requested-none sid file seen [] h f = refl
  requested-none sid file seen (r ∷ rs) h f = elim (Bool-cases (resolve r.file_path == file)) [
    | inl same ↦ absurd (cc (h, f.0, eq_of_beq (resolve r.file_path) file same))
    | inr other ↦
        rw other (requested-none sid file (resolve r.file_path ∷ seen) rs (ground (arith, h)) f.1)
  ]

  requested-member :
      (sid file : String) (rs : List Replacement)
      → member file (selected (stamp_all resolve sid rs))
        ≡ Dict.is_some (requested resolve sid file rs)
  requested-member sid file [] = refl
  requested-member sid file (r ∷ rs) = ground (arith, requested-member sid file rs)

  module _ (resolve_idem : (p : String) → resolve (resolve p) ≡ resolve p) where
    stamped_in :
        (sid g file : String) (rs : List Breakpoint)
        → (resolve g == resolve file) ≡ true
        → filter_by (in_source resolve file) (map (stamp sid (resolve g)) rs)
          ≡ map (stamp sid (resolve file)) rs
    stamped_in sid g file [] h = refl
    stamped_in sid g file (r ∷ rs) h =
        rw (resolve_idem g, h) (rw (stamped_in sid g file rs h) (rw (eq_of_beq _ (resolve file) h)))

    stamped_out :
        (sid g file : String) (rs : List Breakpoint)
        → (resolve g == resolve file) ≡ false
        → filter_by (in_source resolve file) (map (stamp sid (resolve g)) rs) ≡ []
    stamped_out sid g file [] h = refl
    stamped_out sid g file (r ∷ rs) h = rw (resolve_idem g, h) (stamped_out sid g file rs h)

    filter-stamp_all :
        (sid file : String) (seen : List String) (rs : List Replacement)
        → FreshSources seen (stamp_all resolve sid rs)
        → filter_by (in_source resolve file) (all_records (stamp_all resolve sid rs))
          ≡ (requested resolve sid (resolve file) rs otherwise [])
    filter-stamp_all sid file seen [] f = refl
    filter-stamp_all sid file seen (r ∷ rs) f =
        filter_by-append (in_source resolve file) (map (stamp sid (resolve r.file_path)) r.records)
          _
        ∙ elim (Bool-cases (resolve r.file_path == resolve file)) [
          | inl same ↦
              rw
                (
                  stamped_in sid r.file_path file r.records same,
                  filter-stamp_all sid file (resolve r.file_path ∷ seen) rs f.1,
                )
                (rw
                  (
                    requested-none sid (resolve file) (resolve r.file_path ∷ seen) rs
                        (ground (arith, same)) f.1,
                    same,
                  )
                  (append-nil _))
          | inr other ↦
              rw (stamped_out sid r.file_path file r.records other)
                (rw other (filter-stamp_all sid file (resolve r.file_path ∷ seen) rs f.1))
        ]

    -- What the list of a source is after a replacement, in terms of the preflight's result.
    final_list :
        (sid file : String) (rs done : List Replacement) (m : Dict String Breakpoint)
        → Dict.IsDistinct m
        → prepare resolve sid [] [] rs ≡ ok done
        → check_conflicts resolve (selected done) m (all_records done) ≡ ok tt
        → filter_by (in_source resolve file) (Dict.values (final_session resolve done m)) ≡ (
            requested resolve sid (resolve file) rs
            otherwise filter_by (in_source resolve file) (Dict.values m))
    unfolding final_session
    final_list sid file rs done m d prepared checked =
        let p = prepare_lem resolve sid [] [] rs done prepared in
        let absent = check_conflicts_lem (selected done) m (all_records done) d checked in
        rw (put_records_fresh [] (all_records done) _ p.fresh absent) (
          rw (values-append _ (entries (all_records done))) (
            rw (values-entries (all_records done)) (
              filter_by-append (in_source resolve file) _ (all_records done)
              ∙ rw (filter-keep file (selected done) m) (
                  rw p.stamped (
                    rw (filter-stamp_all sid file [] rs (subst (FreshSources []) p.stamped p.apart))
                      (rw (requested-member sid (resolve file) rs)
                        (settle (requested resolve sid (resolve file) rs))))))))
      where
        settle :
            (o : Option (List Breakpoint))
            → (if Dict.is_some o then [] else filter_by (in_source resolve file) (Dict.values m))
                ++ (o otherwise [])
              ≡ (o otherwise filter_by (in_source resolve file) (Dict.values m))
        settle none = append-nil _
        settle (some l) = refl

    install_list :
        (sid file : String) (rs done : List Replacement) (m m' : Manager)
        → Dict.IsDistinct (bucket m sid)
        → prepare resolve sid [] [] rs ≡ ok done
        → install resolve m sid done ≡ ok m'
        → (list_for_source resolve m' sid file ≡ (
            requested resolve sid (resolve file) rs otherwise list_for_source resolve m sid file))
          × OtherSessionsKept sid m m'
    unfolding bucket list_for_source
    install_list sid file rs [] m m' d prepared h =
        let p = prepare_lem resolve sid [] [] rs [] prepared in
        let same : m ≡ m' = cc in
        let nothing : requested resolve sid (resolve file) rs ≡ none =
          (ground (
            arith,
            requested-member sid (resolve file) rs,
            ap (λ l. member (resolve file) (selected l)) p.stamped,
          )) in
        (rw (nothing, ← same), λ s _. rw (← same))
    install_list sid file rs (p ∷ ps) m m' d prepared h =
        let done = p ∷ ps in
        elim (Result-cases
          (check_conflicts resolve (selected done) (bucket m sid) (all_records done))) [
            | inl (e, failed) ↦ absurd (ground (arith, failed))
            | inr (tt, checked) ↦
                let same : m' ≡ record m {
                  by_session =
                      Dict.put sid (final_session resolve done (bucket m sid)) m.by_session;
                } =
                  (ground (arith, checked)) in
                (
                  rw same (
                      rw (bucket-put m sid sid _, eq_refl sid)
                        (final_list sid file rs done (bucket m sid) d prepared checked)),
                  λ s apart.
                      rw same (rw (bucket-put m sid s _) (ground (arith, string_eq.beq_iff sid s))),
                )
          ]

    -- After a successful replacement each source lists the records asked for it, in their order and
    -- with the session and the source written into them; a source that no replacement names lists
    -- what it listed before, and the other sessions are unchanged. (`path.resolve` of a resolved
    -- path is that path, and no id stood twice in the session.)
    pub replace_sources-list_for_source :
        (sid file : String) (rs : List Replacement) (m m' : Manager)
        → Dict.IsDistinct (bucket m sid)
        → replace_sources resolve sid rs m ≡ ok m'
        → (list_for_source resolve m' sid file ≡ (
            requested resolve sid (resolve file) rs otherwise list_for_source resolve m sid file))
          × OtherSessionsKept sid m m'
    unfolding replace_sources
    replace_sources-list_for_source sid file rs m m' d h =
        let (done, prepared, installed) = >>=-eq-ok (prepare resolve sid [] [] rs) _ h in
        install_list sid file rs done m m' d prepared installed
