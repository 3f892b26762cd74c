-- ===== src/FilePersister/Listing.antt =====
-- _examples/custom_persister.go : the loop of LoadAllCheckStates.
use mathlib.Core.Bool.{true≢false}
use health_go.Base.{
  String, Bool, true, false, not, ◌&&◌, Option, none, some, List, [], ◌∷◌, ◌≡◌, ◌≢◌, refl, sym, ◌∙◌,
  ap, arith, ◌==◌, if◌then◌else◌, inl, inr, Bool-cases, Option-cases, Sum-cases, eq_refl, eq_iff,
  ◌⊎◌,
}
use health_go.Base.GoMap.{GoMap, get, put, get-put}
use health_go.Types.{Error, EventTrackerState, CheckState}
use health_go.Base.Text.{◌<>◌}
use health_go.FilePersister.{
  Content, contents, missing, failed, Entry, Directory, Json, load_file, check_file, base,
  listed_name, load_entry, load_entries,
}
use health_go.FilePersister.Names.{IsPlain, base-plain, listed_name-check_file, listed_name-inverse}

abbrev pub is_file : String → Entry → Bool
is_file name entry = not entry.is_dir && entry.name == name

abbrev pub has_file : String → List Entry → Bool
has_file name [] = false
has_file name (entry ∷ entries) =
    let rest = has_file name entries in if is_file name entry then true else rest

-- What a directory that does not fail promises of `os.Remove` and `os.ReadDir`: a file that is
-- removed is not there, and no other file changes; the directory can be listed, and each file that can be read is
-- in the list.
pub record IsListing {F C : Type 0} (dir : Directory F C) : Type 0 where
  pub removed :
      (j k : String) (f : F)
      → dir.read_file j (dir.remove k f).0 ≡ (if k == j then missing else dir.read_file j f)
  pub entries : F → List Entry
  pub listed : (f : F) → dir.read_dir f ≡ inl (entries f)
  pub covers :
      (name : String) (c : C) (f : F)
      → dir.read_file name f ≡ contents c
      → has_file name (entries f) ≡ true

pub Content-cases :
    {C : Type 0} (r : Content C)
    → (r ≡ missing) ⊎ ((e : String) × (r ≡ failed e)) ⊎ ((c : C) × (r ≡ contents c))
Content-cases missing = inl refl
Content-cases (failed e) = inr (inl (e, refl))
Content-cases (contents c) = inr (inr (c, refl))

abbrev pub or_else : {A : Type 0} → Option A → Option A → Option A
or_else none o = o
or_else (some a) o = some a

-- an entry that is not listed for the check has another name
unlisted-apart :
    (j : String) (entry : Entry)
    → IsPlain j
    → listed_name entry.name ≢ some j
    → (entry.name == check_file j) ≡ false
unlisted-apart j entry plain unlisted = elim (Bool-cases (entry.name == check_file j)) [
  | inr apart ↦ apart
  | inl same ↦
      let base_j : base j ≡ j = base-plain plain in
      absurd (
        unlisted (
          ap listed_name ((eq_iff entry.name (check_file j)).0 same)
          ∙ listed_name-check_file j (rw base_j plain.nonempty)
          ∙ ap some base_j))
]

pub or_else-none : {A : Type 0} (o : Option A) → or_else o none ≡ o
or_else-none none = refl
or_else-none (some a) = refl

module _ {F C : Type 0} (dir : Directory F C) (tracker_json : Json C EventTrackerState)
    (check_json : Json C CheckState) (f : F) where
  -- what is loaded from a file
  abbrev pub state_in : String → Option CheckState
  state_in file = (load_file dir check_json "check state" file f).0

  abbrev put_found : Option CheckState → String → GoMap CheckState → GoMap CheckState
  put_found none name states = states
  put_found (some state) name states = put name state states

  load_entry-put :
      (entry : Entry) (k : String) (states : GoMap CheckState)
      → listed_name entry.name ≡ some k
      → entry.is_dir ≡ false
      → load_entry dir tracker_json check_json f entry states
        ≡ put_found (state_in entry.name) k states
  unfolding load_entry load_file
  load_entry-put entry k states listed file =
      let found_is : (loaded : Option CheckState × Error)
          → load_file dir check_json "check state" entry.name f ≡ loaded
          → put_found loaded.0 k states ≡ put_found (state_in entry.name) k states =
        λ loaded same. ap (λ x. put_found x.0 k states) (sym same) in
      elim (Content-cases (dir.read_file entry.name f)) [
        | inl e ↦ rw (load_entry, listed, file, e) (found_is (none, none) (rw (load_file, e) refl))
        | inr (inl found) ↦
            let message = "failed to read " <> ("check state" <> (": " <> found.0)) in
            rw (load_entry, listed, file, found.1)
              (found_is (none, some message) (rw (load_file, found.1) refl))
        | inr (inr found) ↦ elim (Sum-cases (check_json.unmarshal found.0)) [
          | inl good ↦
              rw (load_entry, listed, file, found.1, good.1)
                (found_is (some good.0, none) (rw (load_file, found.1, good.1) refl))
          | inr bad ↦
              let message = "failed to unmarshal " <> ("check state" <> (": " <> bad.0)) in
              rw (load_entry, listed, file, found.1, bad.1)
                (found_is (none, some message) (rw (load_file, found.1, bad.1) refl))
        ]
      ]

  get-put_found :
      (j k : String) (o : Option CheckState) (states : GoMap CheckState)
      → get j (put_found o k states) ≡ (if k == j then or_else o (get j states) else get j states)
  get-put_found j k none states = ground arith
  get-put_found j k (some state) states = get-put j k state states

  load_entry-get :
      (j : String) (entry : Entry) (states : GoMap CheckState)
      → IsPlain j
      → get j (load_entry dir tracker_json check_json f entry states) ≡ (
          if is_file (check_file j) entry
          then or_else (state_in (check_file j)) (get j states)
          else get j states)
  unfolding load_entry
  load_entry-get j entry states plain = elim (Bool-cases entry.is_dir) [
    | inl folder ↦ elim (Option-cases (listed_name entry.name)) [
      | inl other ↦ rw (load_entry, other, folder) refl
      | inr own ↦ rw (load_entry, own.1, folder) refl
    ]
    | inr file ↦ elim (Option-cases (listed_name entry.name)) [
      | inl other ↦
          rw
            (
              load_entry,
              other,
              file,
              unlisted-apart j entry plain (λ named. let no = other in let yes = named in cc),
            )
            refl
      | inr own ↦
          let (k, e) = own in
          ap (get j) (load_entry-put entry k states e file)
          ∙ get-put_found j k (state_in entry.name) states
          ∙ elim (Bool-cases (k == j)) [
            | inl same ↦
                let named : entry.name ≡ check_file j =
                  listed_name-inverse entry.name j plain (e ∙ ap some ((eq_iff k j).0 same)) in
                rw (same, file, named, eq_refl) refl
            | inr apart ↦
                rw
                  (
                    apart,
                    file,
                    unlisted-apart j entry plain (λ named.
                        let both : some k ≡ some j = sym e ∙ named in
                        let equal : k ≡ j = cc in true≢false (sym ((eq_iff k j).1 equal) ∙ apart)),
                  )
                  refl
          ]
    ]
  ]

  -- the list of a directory has what is in the file of the check, if an entry names that file
  pub load_entries-get :
      (j : String) (entries : List Entry) (states : GoMap CheckState)
      → IsPlain j
      → get j (load_entries dir tracker_json check_json f entries states) ≡ (
          if has_file (check_file j) entries
          then or_else (state_in (check_file j)) (get j states)
          else get j states)
  unfolding load_entries
  load_entries-get j [] states plain = refl
  load_entries-get j (entry ∷ entries) states plain =
      load_entries-get j entries _ plain ∙ ground (arith, load_entry-get j entry states plain)
