-- ===== src/Breakpoints/Manager/Preflight.antt =====
-- `#prepareSourceReplacements` of src/sessions/BreakpointManager.ts: what the preflight of
-- `replaceSources` has established when it succeeds.
use break_pilot.Common.{
  String, true, false, none, List, [], ◌∷◌, ◌++◌, map, ◌≡◌, sym, ap, ◌∙◌, ◌==◌, member, All, ok,
  arith, string_eq, Bool-cases, inl, inr, eq_refl, eq_of_beq, Result-cases, subst,
}
use mathlib.Core.List.{append-nil, append_assoc}
use break_pilot.Common.Dict
use break_pilot.Common.Dict.{Dict}
use break_pilot.Breakpoints.{Breakpoint}
use break_pilot.Breakpoints.Manager.{
  Replacement, prepare_records, prepare, all_records, put_records,
}

abbrev pub stamp : String → String → Breakpoint → Breakpoint
stamp sid file r = record r { session_id = sid; file = file }

-- No id stands twice, nor among those seen before.
abbrev pub FreshIds : List String → List Breakpoint → Type 0
FreshIds seen [] = Unit
FreshIds seen (r ∷ rs) = (member r.id seen ≡ false) × FreshIds (r.id ∷ seen) rs

abbrev pub entries : List Breakpoint → Dict String Breakpoint
entries [] = []
entries (r ∷ rs) = (r.id, r) ∷ entries rs

fresh_apart :
    (a : String) (seen : List String) (rs : List Breakpoint)
    → member a seen ≡ true
    → FreshIds seen rs
    → All (λ r. (a == r.id) ≡ false) rs
fresh_apart a seen [] h f = tt
fresh_apart a seen (r ∷ rs) h f = elim (Bool-cases (a == r.id)) [
  | inl same ↦ absurd (cc (h, f.0, eq_of_beq a r.id same))
  | inr apart ↦ (apart, fresh_apart a (r.id ∷ seen) rs (ground arith) f.1)
]

-- Fresh records are appended in order.
pub put_records_fresh :
    (seen : List String) (rs : List Breakpoint) (m : Dict String Breakpoint)
    → FreshIds seen rs
    → All (λ r. Dict.get r.id m ≡ none) rs
    → put_records rs m ≡ m ++ entries rs
unfolding put_records
put_records_fresh seen [] m f h = sym (append-nil m)
put_records_fresh seen (r ∷ rs) m f h =
    put_records_fresh (r.id ∷ seen) rs (Dict.put r.id r m) f.1 (still_fresh rs h.1 apart)
    ∙ rw (Dict.put_fresh r.id r m h.0) (append_assoc m ((r.id, r) ∷ []) (entries rs))
  where
    apart : All (λ s. (r.id == s.id) ≡ false) rs
    apart = fresh_apart r.id (r.id ∷ seen) rs (ground (arith, eq_refl r.id)) f.1

    still_fresh :
        (ss : List Breakpoint)
        → All (λ s. Dict.get s.id m ≡ none) ss
        → All (λ s. (r.id == s.id) ≡ false) ss
        → All (λ s. Dict.get s.id (Dict.put r.id r m) ≡ none) ss
    still_fresh [] a b = tt
    still_fresh (s ∷ ss) a b = (Dict.get-put r.id s.id r m ∙ rw b.0 a.0, still_fresh ss a.1 b.1)

-- What the preflight of one source has established.
record Prepared (sid file : String) (ids : List String) (rs : List Breakpoint) (ids' : List String)
    (done : List Breakpoint) : Type 0 where
  stamped : done ≡ map (stamp sid file) rs
  fresh : FreshIds ids done
  onward : (more : List Breakpoint) → FreshIds ids' more → FreshIds ids (done ++ more)

prepare_records_cons :
    (sid file : String) (ids : List String) (r : Breakpoint) (rs : List Breakpoint)
    (ids' : List String) (done : List Breakpoint)
    → prepare_records sid file ids (r ∷ rs) ≡ ok (ids', done)
    → (tail : List Breakpoint) × (member r.id ids ≡ false)
      × (prepare_records sid file (r.id ∷ ids) rs ≡ ok (ids', tail))
      × (done ≡ stamp sid file r ∷ tail)
unfolding prepare_records
prepare_records_cons sid file ids r rs ids' done h =
    elim (Result-cases (prepare_records sid file (r.id ∷ ids) rs)) [
      | inl (e, failed) ↦ absurd (ground (arith, failed))
      | inr ((ids2, tail), went) ↦
          (tail, ground (arith, went), ground (arith, went), ground (arith, went))
    ]

prepare_records_lem :
    (sid file : String) (ids : List String) (rs : List Breakpoint) (ids' : List String)
    (done : List Breakpoint)
    → prepare_records sid file ids rs ≡ ok (ids', done)
    → Prepared sid file ids rs ids' done
unfolding prepare_records
prepare_records_lem sid file ids [] ids' done h = record {
  stamped = cc;
  fresh = let e : done ≡ [] = cc in rw e tt;
  onward = λ more f.
      let e : done ≡ [] = cc in
      let e' : ids' ≡ ids = cc in rw e (subst (λ s. FreshIds s more) e' f);
}
prepare_records_lem sid file ids (r ∷ rs) ids' done h =
    let (tail, fresh, went, same) = prepare_records_cons sid file ids r rs ids' done h in
    let ih = prepare_records_lem sid file (r.id ∷ ids) rs ids' tail went in
    record {
      stamped = same ∙ ap (λ t. stamp sid file r ∷ t) ih.stamped;
      fresh = rw same (fresh, ih.fresh);
      onward = λ more f. rw same (fresh, ih.onward more f);
    }

-- What the whole preflight has established.
abbrev pub stamp_all : (String → String) → String → List Replacement → List Replacement
stamp_all resolve sid [] = []
stamp_all resolve sid (r ∷ rs) =
    record {
      file_path = resolve r.file_path;
      records = map (stamp sid (resolve r.file_path)) r.records;
    }
    ∷ stamp_all resolve sid rs

abbrev pub FreshSources : List String → List Replacement → Type 0
FreshSources seen [] = Unit
FreshSources seen (p ∷ ps) =
    (member p.file_path seen ≡ false) × FreshSources (p.file_path ∷ seen) ps

module _ (resolve : String → String) where
  prepare_cons :
      (sid : String) (sources ids : List String) (r : Replacement) (rs done : List Replacement)
      → prepare resolve sid sources ids (r ∷ rs) ≡ ok done
      → (ids' : List String) × (records : List Breakpoint) × (tail : List Replacement) × (member
            (resolve r.file_path)
            sources
          ≡ false)
        × (prepare_records sid (resolve r.file_path) ids r.records ≡ ok (ids', records))
        × (prepare resolve sid (resolve r.file_path ∷ sources) ids' rs ≡ ok tail)
        × (done ≡ record { file_path = resolve r.file_path; records = records } ∷ tail)
  unfolding prepare
  prepare_cons sid sources ids r rs done h =
      elim (Result-cases (prepare_records sid (resolve r.file_path) ids r.records)) [
        | inl (e, failed) ↦ absurd (ground (arith, failed))
        | inr ((ids', records), went) ↦
            elim (Result-cases (prepare resolve sid (resolve r.file_path ∷ sources) ids' rs)) [
              | inl (e, failed) ↦ absurd (ground (arith, went, failed))
              | inr (tail, on) ↦ (
                ids',
                records,
                tail,
                ground (arith, went, on),
                went,
                on,
                ground (arith, went, on),
              )
            ]
      ]

  pub record PreparedAll (sid : String) (sources ids : List String) (rs done : List Replacement)
      : Type 0 where
    pub stamped : done ≡ stamp_all resolve sid rs
    pub fresh : FreshIds ids (all_records done)
    pub apart : FreshSources sources done

  pub prepare_lem :
      (sid : String) (sources ids : List String) (rs done : List Replacement)
      → prepare resolve sid sources ids rs ≡ ok done
      → PreparedAll sid sources ids rs done
  unfolding prepare
  prepare_lem sid sources ids [] done h =
      let e : done ≡ [] = cc in record { stamped = e; fresh = rw e tt; apart = rw e tt }
  prepare_lem sid sources ids (r ∷ rs) done h =
      let (ids', records, tail, new, went, on, same) = prepare_cons sid sources ids r rs done h in
      let here = prepare_records_lem sid (resolve r.file_path) ids r.records ids' records went in
      let ih = prepare_lem sid (resolve r.file_path ∷ sources) ids' rs tail on in
      record {
        stamped = same ∙ rw (here.stamped, ih.stamped);
        fresh = rw same (here.onward (all_records tail) ih.fresh);
        apart = rw same (new, ih.apart);
      }
