-- ===== src/Source/Ends.antt =====
-- input/filtergen/include.c: no directories in directories are followed for ever.
use filtergen.Base.{
  ℕ, zero, suc, ◌+◌, ◌<◌, some, Text, List, [], ◌∷◌, ◌++◌, codes, length, length-append, text_eq,
  ◌≡◌, refl, arith, Bool-cases, Option-cases, inl, inr,
}
use filtergen.Source.Include.{
  regular, link, directory, special, Status, missing, failing, is, FileSystem, Included, is_pattern,
  is_hidden, entry_path, include_file,
}
use filtergen.Source.Lists.{
  Lists, one_file, the_root, closed_directory, a_directory, a_pattern, no_match, nowhere, unknown,
  ListsEntries, no_more, hidden_entry, an_entry, matched,
}
use filtergen.Source.Order.{Lists-push}

module _ (fs : FileSystem) (limit : ℕ)
    (long_names : (name : Text) → limit < length name → fs.stat name ≡ failing) where
  -- What a name stands for, case by case.
  status-Lists :
      (name : Text) (s : Status)
      → fs.stat name ≡ s
      → ((ds : List Text) → s ≡ is directory → (names : List Text) × ListsEntries fs name ds names)
      → (names : List Text) × Lists fs name names
  status-Lists name missing e entries = elim (Bool-cases (is_pattern name)) [
    | inr plain ↦ ([], nowhere e plain)
    | inl pattern ↦ elim (Option-cases (fs.glob name)) [
      | inl failed ↦ ([], no_match e pattern failed)
      | inr (names, found) ↦ (matched fs names, a_pattern e pattern found)
    ]
  ]
  status-Lists name failing e entries = ([], unknown e)
  status-Lists name (is regular) e entries = (name ∷ [], one_file e refl)
  status-Lists name (is link) e entries = (name ∷ [], one_file e refl)
  status-Lists name (is special) e entries = (name ∷ [], one_file e refl)
  status-Lists name (is directory) e entries =
      elim (Bool-cases (text_eq (codes "/") (fs.basename name))) [
        | inl root ↦ ([], the_root e root)
        | inr other ↦ elim (Option-cases (fs.scandir name)) [
          | inl closed ↦ ([], closed_directory e other closed)
          | inr (ds, scanned) ↦
              let (names, each) = entries ds refl in (names, a_directory e other scanned each)
        ]
      ]

  each-Lists :
      (name : Text) (ds : List Text)
      → ((d : Text) → (names : List Text) × Lists fs (entry_path name d) names)
      → (names : List Text) × ListsEntries fs name ds names
  each-Lists name [] inside = ([], no_more)
  each-Lists name (d ∷ ds) inside =
      let (more, each) = each-Lists name ds inside in
      elim (Bool-cases (is_hidden d)) [
        | inl hidden ↦ (more, hidden_entry hidden each)
        | inr visible ↦
            let (names, lists) = inside d in (names ++ more, an_entry visible lists each)
      ]

  -- Every name has its list, since the paths get longer from directory to directory.
  name-Lists :
      (fuel : ℕ) (name : Text)
      → limit < length name + fuel
      → (names : List Text) × Lists fs name names
  name-Lists zero name enough =
      status-Lists name (fs.stat name) refl
        (λ ds dir. cc (dir, long_names name (omega (arith, enough))))
  name-Lists (suc fuel) name enough = status-Lists name (fs.stat name) refl (λ ds dir.
      each-Lists name ds (λ d.
        name-Lists fuel (entry_path name d) (omega (arith, enough, length-append name (b'/' ∷ d)))))

  -- Where `stat` fails on a name that is longer than a limit, two calls more than the limit, one in
  -- another, are enough for an `include` of any name to come to its end, whatever the directories
  -- hold and wherever their entries lead.
  pub include_file-ends :
      (name : Text) (i : Included)
      → (i' : Included) × (include_file fs (suc (suc limit)) name i ≡ some i')
  include_file-ends name i =
      let (names, lists) = name-Lists (suc limit) name (omega arith) in
      let (cs, e) =
        Lists-push fs limit long_names name names lists (suc limit) (omega arith) i.0 i.1 in
      (_, e)
