-- ===== src/Breakpoints/Manager/Invariant.antt =====
-- src/sessions/BreakpointManager.ts: the consistency of the store, kept by every operation.
use break_pilot.Common.{
  String, Option, none, some, List, [], ◌∷◌, map, ◌≡◌, refl, ◌==◌, if◌then◌else◌, All, ok, arith,
  string_eq, ◌otherwise◌, All-append, Bool-cases, Option-cases, inl, inr, eq_of_beq, subst,
  >>=-eq-ok,
}
use break_pilot.Common.Dict
use break_pilot.Common.Dict.{Dict}
use break_pilot.Breakpoints.{Breakpoint, BreakpointInput, DapBreakpoint}
use break_pilot.Breakpoints.Manager.{
  Manager, Replacement, bucket, add, new_record, verify_one, verify_entries, in_source, head_of,
  rest_of, replace_bucket, update_verification, prepare, selected, all_records, check_conflicts,
  put_records, final_session, replace_sources, install, remove, clear,
}
use break_pilot.Breakpoints.Manager.Preflight.{stamp, stamp_all, prepare_lem}
use break_pilot.Breakpoints.Manager.Replace.{bucket-put}

-- Every breakpoint of a bucket stands under its own id and carries the bucket's session, and no
-- id stands twice.
abbrev pub Belongs : String → String → Breakpoint → Type 0
Belongs sid k b = (b.id ≡ k) × (b.session_id ≡ sid)

pub record IsTidy (sid : String) (bps : Dict String Breakpoint) : Type 0 where
  pub placed : Dict.AllEntries (Belongs sid) bps
  pub distinct : Dict.IsDistinct bps

pub record IsValid (m : Manager) : Type 0 where
  pub tidy : (sid : String) → IsTidy sid (bucket m sid)

pub IsTidy-nil : (sid : String) → IsTidy sid []
IsTidy-nil sid = record { placed = tt; distinct = tt }

put-IsTidy :
    (sid : String) (b : Breakpoint) (bps : Dict String Breakpoint)
    → b.session_id ≡ sid
    → IsTidy sid bps
    → IsTidy sid (Dict.put b.id b bps)
put-IsTidy sid b bps e t = record {
  placed = Dict.put-AllEntries (Belongs sid) b.id b bps (refl, e) t.placed;
  distinct = Dict.put-IsDistinct b.id b bps t.distinct;
}

put_records-IsTidy :
    (sid : String) (rs : List Breakpoint) (bps : Dict String Breakpoint)
    → All (λ r. r.session_id ≡ sid) rs
    → IsTidy sid bps
    → IsTidy sid (put_records rs bps)
unfolding put_records
put_records-IsTidy sid [] bps a t = t
put_records-IsTidy sid (r ∷ rs) bps a t =
    put_records-IsTidy sid rs (Dict.put r.id r bps) a.1 (put-IsTidy sid r bps a.0 t)

-- A new bucket for one session keeps the store consistent if it is consistent itself.
replace-IsValid :
    (m : Manager) (sid : String) (bps : Dict String Breakpoint)
    → IsValid m
    → IsTidy sid bps
    → IsValid (record m { by_session = Dict.put sid bps m.by_session })
replace-IsValid m sid bps v t = record { tidy = λ s. rw (bucket-put m sid s bps) (pick s) }
  where
    pick : (s : String) → IsTidy s (if sid == s then bps else bucket m s)
    pick s = elim (Bool-cases (sid == s)) [
      | inl same ↦ rw same (subst (λ x. IsTidy x bps) (eq_of_beq sid s same) t)
      | inr other ↦ rw other (v.tidy s)
    ]

get-bucket :
    (m : Manager) (sid : String) (bps : Dict String Breakpoint)
    → Dict.get sid m.by_session ≡ some bps
    → bucket m sid ≡ bps
unfolding bucket
get-bucket m sid bps h = rw h

module _ (resolve : String → String) where
  pub add-IsValid :
      (sid : String) (b : BreakpointInput) (fresh_id now : String) (m : Manager)
      → IsValid m
      → IsValid (add resolve sid b fresh_id now m).0
  unfolding add
  add-IsValid sid b fresh_id now m v =
      replace-IsValid m sid _ v
        (put-IsTidy sid (new_record resolve sid b fresh_id now) (bucket m sid) refl (v.tidy sid))

  get-verify_entries :
      (file k : String) (ds : List DapBreakpoint) (bps : Dict String Breakpoint)
      → Dict.get k bps ≡ none
      → Dict.get k (verify_entries resolve file ds bps) ≡ none
  unfolding Dict.get verify_entries
  get-verify_entries file k ds [] h = refl
  get-verify_entries file k ds ((j, b) ∷ bps) h =
      ground
        (arith, get-verify_entries file k (if in_source resolve file b then rest_of ds else ds) bps)

  verify_one-Belongs :
      (sid k : String) (d : Option DapBreakpoint) (b : Breakpoint)
      → Belongs sid k b
      → Belongs sid k (verify_one d b)
  verify_one-Belongs sid k none b h = h
  verify_one-Belongs sid k (some d) b h = h

  verify_entries-IsTidy :
      (sid file : String) (ds : List DapBreakpoint) (bps : Dict String Breakpoint)
      → IsTidy sid bps
      → IsTidy sid (verify_entries resolve file ds bps)
  unfolding verify_entries
  verify_entries-IsTidy sid file ds [] t = t
  verify_entries-IsTidy sid file ds ((k, b) ∷ bps) t =
      let ds' = (if in_source resolve file b then rest_of ds else ds) in
      let ih =
        verify_entries-IsTidy sid file ds' bps
          (record { placed = t.placed.1; distinct = t.distinct.1 }) in
      record {
        placed = (here, ih.placed);
        distinct = (get-verify_entries file k ds' bps t.distinct.0, ih.distinct);
      }
    where
      here : Belongs sid k (if in_source resolve file b then verify_one (head_of ds) b else b)
      here = elim (Bool-cases (in_source resolve file b)) [
        | inl mine ↦ rw mine (verify_one-Belongs sid k (head_of ds) b t.placed.0)
        | inr other ↦ rw other t.placed.0
      ]

  pub update_verification-IsValid :
      (sid file : String) (ds : List DapBreakpoint) (m : Manager)
      → IsValid m
      → IsValid (update_verification resolve sid file ds m).0
  unfolding update_verification
  update_verification-IsValid sid file ds m v = elim (Option-cases (Dict.get sid m.by_session)) [
    | inl absent ↦ rw (absent, replace_bucket) v
    | inr (bps, found) ↦
        rw (found, replace_bucket)
          (replace-IsValid m sid _ v (
            verify_entries-IsTidy sid file ds bps
              (subst (IsTidy sid) (get-bucket m sid bps found) (v.tidy sid))))
  ]

  stamp_all-session :
      (sid : String) (rs : List Replacement)
      → All (λ r. r.session_id ≡ sid) (all_records (stamp_all resolve sid rs))
  stamp_all-session sid [] = tt
  stamp_all-session sid (r ∷ rs) =
      All-append _ (map (stamp sid (resolve r.file_path)) r.records) _ (each r.records)
        (stamp_all-session sid rs)
    where
      each :
          (bs : List Breakpoint)
          → All (λ b. b.session_id ≡ sid) (map (stamp sid (resolve r.file_path)) bs)
      each [] = tt
      each (b ∷ bs) = (refl, each bs)

  final_session-IsTidy :
      (sid : String) (rs done : List Replacement) (bps : Dict String Breakpoint)
      → done ≡ stamp_all resolve sid rs
      → IsTidy sid bps
      → IsTidy sid (final_session resolve done bps)
  unfolding final_session
  final_session-IsTidy sid rs done bps e t =
      put_records-IsTidy sid (all_records done) _ (rw e (stamp_all-session sid rs)) (record {
        placed = Dict.keep-AllEntries (Belongs sid) _ bps t.placed;
        distinct = Dict.keep-IsDistinct _ bps t.distinct;
      })

  install-IsValid :
      (sid : String) (rs done : List Replacement) (m m' : Manager)
      → prepare resolve sid [] [] rs ≡ ok done
      → install resolve m sid done ≡ ok m'
      → IsValid m
      → IsValid m'
  install-IsValid sid rs [] m m' p h v = let same : m ≡ m' = cc in rw (← same) v
  install-IsValid sid rs (d ∷ ds) m m' p h v =
      let (u, checked, put) =
        >>=-eq-ok
          (check_conflicts resolve (selected (d ∷ ds)) (bucket m sid) (all_records (d ∷ ds))) _ h in
      let same : record m {
        by_session = Dict.put sid (final_session resolve (d ∷ ds) (bucket m sid)) m.by_session;
      }
          ≡ m' =
        (cc) in
      subst IsValid same (
        replace-IsValid m sid _ v (
          final_session-IsTidy sid rs (d ∷ ds) (bucket m sid)
            (prepare_lem resolve sid [] [] rs (d ∷ ds) p).stamped (v.tidy sid)))

  pub replace_sources-IsValid :
      (sid : String) (rs : List Replacement) (m m' : Manager)
      → replace_sources resolve sid rs m ≡ ok m'
      → IsValid m
      → IsValid m'
  unfolding replace_sources
  replace_sources-IsValid sid rs m m' h v =
      let (done, prepared, installed) = >>=-eq-ok (prepare resolve sid [] [] rs) _ h in
      install-IsValid sid rs done m m' prepared installed v

pub remove-IsValid : (sid id : String) (m : Manager) → IsValid m → IsValid (remove sid id m).0
unfolding remove
remove-IsValid sid id m v = elim (Option-cases (Dict.get sid m.by_session)) [
  | inl absent ↦ rw (absent, remove) v
  | inr (bps, found) ↦
      let t = subst (IsTidy sid) (get-bucket m sid bps found) (v.tidy sid) in
      rw (found, remove)
        (replace-IsValid m sid _ v (record {
          placed = Dict.remove-AllEntries (Belongs sid) id bps t.placed;
          distinct = Dict.remove-IsDistinct id bps t.distinct;
        }))
]

pub clear-IsValid : (sid : String) (m : Manager) → IsValid m → IsValid (clear sid m)
unfolding clear bucket
clear-IsValid sid m v = record { tidy = λ s. rw (Dict.get-remove sid s m.by_session) (pick s) }
  where
    pick :
        (s : String) → IsTidy s ((if sid == s then none else Dict.get s m.by_session) otherwise [])
    pick s = elim (Bool-cases (sid == s)) [
      | inl same ↦ rw same (IsTidy-nil s)
      | inr other ↦ rw other (v.tidy s)
    ]
