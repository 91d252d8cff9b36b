-- ===== src/Source/Lists.antt =====
-- The files that an `include` names, in the order in which they are read, without the stack.
use filtergen.Base.{
  Bool, true, false, none, some, Text, List, [], ◌∷◌, ◌++◌, codes, text_eq, if◌then◌else◌, ◌≡◌,
}
use filtergen.Source.Include.{
  Kind, directory, Status, missing, failing, is, FileSystem, is_pattern, is_file, is_hidden,
  entry_path,
}

abbrev pub is_directory : Kind → Bool
is_directory directory = true
is_directory _ = false

module _ (fs : FileSystem) where
  -- What matches a pattern: files only.
  abbrev pub is_match : Status → Bool
  is_match (is k) = is_file k
  is_match _ = false

  abbrev pub matched : List Text → List Text
  matched [] = []
  matched (name ∷ names) =
      let rest = matched names in if is_match (fs.stat name) then name ∷ rest else rest

  mutual
    pub data Lists : Text → List Text → Type 0 where
      one_file :
          {name : Text} {k : Kind}
          → fs.stat name ≡ is k
          → is_directory k ≡ false
          → Lists name (name ∷ [])
      the_root :
          {name : Text}
          → fs.stat name ≡ is directory
          → text_eq (codes "/") (fs.basename name) ≡ true
          → Lists name []
      closed_directory :
          {name : Text}
          → fs.stat name ≡ is directory
          → text_eq (codes "/") (fs.basename name) ≡ false
          → fs.scandir name ≡ none
          → Lists name []
      a_directory :
          {name : Text} {ds names : List Text}
          → fs.stat name ≡ is directory
          → text_eq (codes "/") (fs.basename name) ≡ false
          → fs.scandir name ≡ some ds
          → ListsEntries name ds names
          → Lists name names
      a_pattern :
          {name : Text} {names : List Text}
          → fs.stat name ≡ missing
          → is_pattern name ≡ true
          → fs.glob name ≡ some names
          → Lists name (matched names)
      no_match :
          {name : Text}
          → fs.stat name ≡ missing
          → is_pattern name ≡ true
          → fs.glob name ≡ none
          → Lists name []
      nowhere : {name : Text} → fs.stat name ≡ missing → is_pattern name ≡ false → Lists name []
      unknown : {name : Text} → fs.stat name ≡ failing → Lists name []

    -- The entries of a directory, but for the hidden ones.
    pub data ListsEntries : Text → List Text → List Text → Type 0 where
      no_more : {name : Text} → ListsEntries name [] []
      hidden_entry :
          {name d : Text} {ds names : List Text}
          → is_hidden d ≡ true
          → ListsEntries name ds names
          → ListsEntries name (d ∷ ds) names
      an_entry :
          {name d : Text} {ds names more : List Text}
          → is_hidden d ≡ false
          → Lists (entry_path name d) names
          → ListsEntries name ds more
          → ListsEntries name (d ∷ ds) (names ++ more)
