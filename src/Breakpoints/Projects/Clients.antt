-- ===== src/Breakpoints/Projects/Clients.antt =====
-- src/sessions/BreakpointManager.ts: what is left of a client's project breakpoints once they are
-- cleared.
use Prim.Native.String
use text.Mathlib.TextLemmas.{nil-append, cons-append}
use break_pilot.Common.{
  String, Bool, true, false, not, List, [], ◌∷◌, ◌≡◌, refl, sym, ◌==◌, ◌||◌, ◌otherwise◌, string_eq,
  Bool-cases, Option-cases, inl, inr, All, All-append, arith, eq_refl, eq_of_beq, subst, filter_by,
}
use break_pilot.Common.Dict
use break_pilot.Common.Dict.{
  Dict, AllEntries, put-AllEntries, get-AllEntries, remove-AllEntries, keep-AllEntries,
}
use break_pilot.Breakpoints.Projects.{
  ProjectInput, ProjectBreakpoint, Projects, ProjectPatch, ProjectFilter, assigned, ends_with,
  client_suffix, project_key, new_project_record, put_record, add_project, change_first, assign_in,
  update_project, remove_project, clear_project_for_client, all_records, matches, list_project,
}

ends_with_self : (t : String) → ends_with t t ≡ true
unfolding ends_with
ends_with_self String.[] = refl
ends_with_self (String.◌∷◌ c s) = rw (eq_refl (String.◌∷◌ c s)) refl

either_true : (b : Bool) {c : Bool} → c ≡ true → (b || c) ≡ true
either_true true h = refl
either_true false h = h

ends_with-append : (s t : String) → ends_with (String.◌++◌ s t) t ≡ true
unfolding ends_with
ends_with-append String.[] t =
    subst (λ s. ends_with s t ≡ true) (sym (nil-append t)) (ends_with_self t)
ends_with-append (String.◌∷◌ c s) t =
    subst (λ u. ends_with u t ≡ true) (sym (cons-append c s t))
      (either_true (String.◌∷◌ c (String.◌++◌ s t) == t) (ends_with-append s t))

-- The calls that change the breakpoints of projects.
pub data Call : Type 0 where
  adding : ProjectInput → String → String → Call
  updating : String → ProjectPatch → Call
  removing : String → Call
  clearing : String → Call

abbrev pub IsOfOther : String → ProjectBreakpoint → Type 0
IsOfOther client b = (b.client_id == client) ≡ false

filter_by-IsOfOther :
    (client : String) (p : ProjectBreakpoint → Bool) (bs : List ProjectBreakpoint)
    → All (IsOfOther client) bs
    → All (IsOfOther client) (filter_by p bs)
filter_by-IsOfOther client p [] v = tt
filter_by-IsOfOther client p (b ∷ bs) v = elim (Bool-cases (p b)) [
  | inl passes ↦ rw passes (v.0, filter_by-IsOfOther client p bs v.1)
  | inr fails ↦ rw fails (filter_by-IsOfOther client p bs v.1)
]

module _ (resolve : String → String) where
  -- Every record stands in the bucket of its workspace and client.
  abbrev HasKey : String → String → ProjectBreakpoint → Type 0
  HasKey key id b = key ≡ project_key resolve b.workspace_root b.client_id

  abbrev IsFiled : String → Dict String ProjectBreakpoint → Type 0
  IsFiled key bs = AllEntries (HasKey key) bs

  abbrev AllFiled : Projects → Type 0
  AllFiled ps = AllEntries IsFiled ps

  unfoldable pub perform : Projects → Call → Projects
  perform ps (adding p fresh_id now) = (add_project resolve p fresh_id now ps).0
  perform ps (updating id patch) = (update_project id patch ps).0
  perform ps (removing id) = (remove_project id ps).0
  perform ps (clearing client) = clear_project_for_client client ps

  unfoldable pub perform_all : Projects → List Call → Projects
  unfolding perform
  perform_all ps [] = ps
  perform_all ps (c ∷ cs) = perform_all (perform ps c) cs

  bucket-IsFiled :
      (key : String) (ps : Projects) → AllFiled ps → IsFiled key (Dict.get key ps otherwise [])
  bucket-IsFiled key ps v = elim (Option-cases (Dict.get key ps)) [
    | inl new ↦ rw new tt
    | inr (bs, there) ↦ rw there (get-AllEntries IsFiled key bs ps v there)
  ]

  put_record-AllFiled :
      (r : ProjectBreakpoint) (ps : Projects) → AllFiled ps → AllFiled (put_record resolve r ps)
  put_record-AllFiled r ps v =
      let key : String = project_key resolve r.workspace_root r.client_id in
      let old : Dict String ProjectBreakpoint = Dict.get key ps otherwise [] in
      put-AllEntries IsFiled key (Dict.put r.id r old) ps
        (put-AllEntries (HasKey key) r.id r old refl (bucket-IsFiled key ps v)) v

  change_first-AllFiled :
      (id : String) (f : Dict String ProjectBreakpoint → Dict String ProjectBreakpoint)
      (ps : Projects)
      → ((key : String) (bs : Dict String ProjectBreakpoint) → IsFiled key bs → IsFiled key (f bs))
      → AllFiled ps
      → AllFiled (change_first id f ps)
  change_first-AllFiled id f [] keeps v = tt
  change_first-AllFiled id f ((key, bs) ∷ ps) keeps v = elim (Bool-cases (Dict.has id bs)) [
    | inl here ↦ rw here (keeps key bs v.0, v.1)
    | inr later ↦ rw later (v.0, change_first-AllFiled id f ps keeps v.1)
  ]

  assign_in-IsFiled :
      (id : String) (patch : ProjectPatch) (key : String) (bs : Dict String ProjectBreakpoint)
      → IsFiled key bs
      → IsFiled key (assign_in id patch bs)
  assign_in-IsFiled id patch key bs v = elim (Option-cases (Dict.get id bs)) [
    | inl absent ↦ rw (absent, assign_in) v
    | inr (b, there) ↦
        rw (there, assign_in)
          (put-AllEntries (HasKey key) id (assigned patch b) bs
            (get-AllEntries (HasKey key) id b bs v there) v)
  ]

  perform-AllFiled : (ps : Projects) (c : Call) → AllFiled ps → AllFiled (perform ps c)
  unfolding perform add_project update_project remove_project clear_project_for_client
  perform-AllFiled ps (adding p fresh_id now) v =
      put_record-AllFiled (new_project_record resolve p fresh_id now) ps v
  perform-AllFiled ps (updating id patch) v =
      change_first-AllFiled id (assign_in id patch) ps (assign_in-IsFiled id patch) v
  perform-AllFiled ps (removing id) v =
      change_first-AllFiled id (Dict.remove id) ps (λ key bs. remove-AllEntries (HasKey key) id bs)
        v
  perform-AllFiled ps (clearing client) v =
      keep-AllEntries IsFiled (λ key bs. not (ends_with key (client_suffix client))) ps v

  perform_all-AllFiled :
      (ps : Projects) (cs : List Call) → AllFiled ps → AllFiled (perform_all ps cs)
  unfolding perform_all
  perform_all-AllFiled ps [] v = v
  perform_all-AllFiled ps (c ∷ cs) v =
      perform_all-AllFiled (perform ps c) cs (perform-AllFiled ps c v)

  not_of :
      (client key : String) (b : ProjectBreakpoint)
      → HasKey key b.id b
      → ends_with key (client_suffix client) ≡ false
      → IsOfOther client b
  unfolding project_key
  not_of client key b filed kept = elim (Bool-cases (b.client_id == client)) [
    | inl same ↦
        let own : ends_with key (client_suffix b.client_id) ≡ true =
          subst (λ k. ends_with k (client_suffix b.client_id) ≡ true) (sym filed)
            (ends_with-append (resolve b.workspace_root) (client_suffix b.client_id)) in
        let own' : ends_with key (client_suffix client) ≡ true =
          subst (λ c. ends_with key (client_suffix c) ≡ true) (eq_of_beq b.client_id client same)
            own in
        absurd (ground (arith, own', kept))
    | inr other ↦ other
  ]

  bucket-IsOfOther :
      (client key : String) (bs : Dict String ProjectBreakpoint)
      → IsFiled key bs
      → ends_with key (client_suffix client) ≡ false
      → All (IsOfOther client) (Dict.values bs)
  bucket-IsOfOther client key [] v kept = tt
  bucket-IsOfOther client key ((id, b) ∷ bs) v kept =
      (not_of client key b v.0 kept, bucket-IsOfOther client key bs v.1 kept)

  all_records-IsOfOther :
      (client : String) (ps : Projects)
      → AllFiled ps
      → All (IsOfOther client) (all_records (clear_project_for_client client ps))
  unfolding clear_project_for_client Dict.keep
  all_records-IsOfOther client [] v = tt
  all_records-IsOfOther client ((key, bs) ∷ ps) v =
      let rest = all_records-IsOfOther client ps v.1 in
      elim (Bool-cases (ends_with key (client_suffix client))) [
        | inl cleared ↦ rw (cleared, clear_project_for_client, Dict.keep) rest
        | inr kept ↦
            rw (kept, clear_project_for_client, Dict.keep)
              (All-append (IsOfOther client) (Dict.values bs)
                (all_records (clear_project_for_client client ps))
                (bucket-IsOfOther client key bs v.0 kept) rest)
      ]

  -- After any calls on an empty store and then the clearing of a client, no list of project
  -- breakpoints, under whatever filter, has a breakpoint of that client.
  pub list_project-cleared :
      (cs : List Call) (client : String) (f : ProjectFilter)
      → All
          (IsOfOther client)
          (list_project resolve f (clear_project_for_client client (perform_all [] cs)))
  unfolding list_project
  list_project-cleared cs client f =
      filter_by-IsOfOther client (matches resolve f)
        (all_records (clear_project_for_client client (perform_all [] cs)))
        (all_records-IsOfOther client (perform_all [] cs) (perform_all-AllFiled [] cs tt))
