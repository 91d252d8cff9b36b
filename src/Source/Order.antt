-- ===== src/Source/Order.antt =====
-- input/filtergen/include.c: an `include` comes to its end, and puts the files on the stack in the
-- order in which they are to be read.
use filtergen.Base.{
  ℕ, zero, suc, ◌+◌, ◌<◌, false, Option, some, Text, List, [], ◌∷◌, ◌++◌, length, length-append,
  if◌then◌else◌, ◌≡◌, refl, sym, ap, ◌∙◌, arith,
}
use filtergen.Base.Optional.{◌>>=◌}
use filtergen.Source.Include.{
  Kind, regular, link, directory, special, Status, missing, failing, is, FileSystem, IncludeError,
  Reading, Included, is_file, entry_path, push_file, include_match, include_matches,
  include_entries, include_entry, include_status, include_file,
}
use filtergen.Source.Lists.{
  is_directory, is_match, matched, Lists, one_file, the_root, closed_directory, a_directory,
  a_pattern, no_match, nowhere, unknown, ListsEntries, no_more, hidden_entry, an_entry,
}

module _ (fs : FileSystem) where
  -- One name after another, from the last to the first.
  unfoldable pub push_all : List Text → Reading → Reading
  push_all [] r = r
  push_all (name ∷ names) r = push_file fs name (push_all names r)

  push_all-append :
      (xs ys : List Text) (r : Reading) → push_all (xs ++ ys) r ≡ push_all xs (push_all ys r)
  unfolding push_all
  push_all-append [] ys r = refl
  push_all-append (x ∷ xs) ys r = ap (push_file fs x) (push_all-append xs ys r)

  -- Some complaints are added, and the files are pushed.
  abbrev pub Pushes : Option Included → List Text → Reading → Type 0
  Pushes o names r = (cs : List IncludeError) × (o ≡ some (push_all names r, cs))

  match-push :
      (s : Status) (name : Text) (names : List Text) (r : Reading) (cs : List IncludeError)
      → (ds : List IncludeError) × (include_match fs s name (push_all names r, cs)
          ≡ (push_all (if is_match fs s then name ∷ names else names) r, ds))
  unfolding push_all
  match-push missing name names r cs = (_, refl)
  match-push failing name names r cs = (_, refl)
  match-push (is regular) name names r cs = (_, refl)
  match-push (is link) name names r cs = (_, refl)
  match-push (is directory) name names r cs = (_, refl)
  match-push (is special) name names r cs = (_, refl)

  matches-push :
      (names : List Text) (r : Reading) (cs : List IncludeError)
      → (ds : List IncludeError) × (include_matches fs names (r, cs)
          ≡ (push_all (matched fs names) r, ds))
  unfolding include_matches push_all
  matches-push [] r cs = (cs, refl)
  matches-push (name ∷ names) r cs =
      let (ds, e) = matches-push names r cs in
      let (ds', e') = match-push (fs.stat name) name (matched fs names) r ds in
      (ds', ap (include_match fs (fs.stat name) name) e ∙ e')

  file-push :
      (k : Kind) (fuel : ℕ) (name : Text) (r : Reading) (cs : List IncludeError)
      → is_directory k ≡ false
      → Pushes (include_status fs (include_file fs fuel) (is k) name (r, cs)) (name ∷ []) r
  unfolding include_status push_all
  file-push regular fuel name r cs other = (cs, refl)
  file-push link fuel name r cs other = (cs, refl)
  file-push special fuel name r cs other = (cs, refl)
  file-push directory fuel name r cs other = cc

  module _ (limit : ℕ)
      (long_names : (name : Text) → limit < length name → fs.stat name ≡ failing) where
    mutual
      unfolding include_file include_status include_entries push_all

      pub Lists-push :
          (name : Text) (names : List Text)
          → Lists fs name names
          → (fuel : ℕ) → limit < length name + fuel
          → (r : Reading) (cs : List IncludeError)
          → Pushes (include_file fs (suc fuel) name (r, cs)) names r
      Lists-push name names (one_file is_file other) fuel enough r cs =
          rw is_file (file-push _ fuel name r cs other)
      Lists-push name names (the_root is_dir root) fuel enough r cs = rw (is_dir, root) (_, refl)
      Lists-push name names (closed_directory is_dir other closed) fuel enough r cs =
          rw (is_dir, other, closed) (_, refl)
      Lists-push name names (a_directory is_dir other scanned entries) zero enough r cs =
          cc (is_dir, long_names name (omega (arith, enough)))
      Lists-push name names (a_directory {ds} is_dir other scanned entries) (suc fuel) enough r cs =
          rw (is_dir, other, scanned) (entries-push name ds names entries fuel enough r cs)
      Lists-push name names (a_pattern {names = found_names} gone pattern found) fuel enough r cs =
          let (ds, e) = matches-push found_names r cs in rw (gone, pattern, found) (ds, ap some e)
      Lists-push name names (no_match gone pattern failed) fuel enough r cs =
          rw (gone, pattern, failed) (_, refl)
      Lists-push name names (nowhere gone plain) fuel enough r cs = rw (gone, plain) (_, refl)
      Lists-push name names (unknown failed) fuel enough r cs = rw failed (_, refl)

      entries-push :
          (name : Text) (ds names : List Text)
          → ListsEntries fs name ds names
          → (fuel : ℕ) → limit < length name + suc fuel
          → (r : Reading) (cs : List IncludeError)
          → Pushes (include_entries fs (include_file fs (suc fuel)) name ds (r, cs)) names r
      entries-push name [] names no_more fuel enough r cs = (cs, refl)
      entries-push name (d ∷ ds) names (hidden_entry hidden entries) fuel enough r cs =
          let (ds', e) = entries-push name ds names entries fuel enough r cs in
          (
            ds',
            ap (λ o. o >>= include_entry fs (include_file fs (suc fuel)) name d) e ∙ rw hidden refl,
          )
      entries-push name (d ∷ ds) all (an_entry {names = names} {more = more} visible lists entries)
            fuel enough r cs =
          let (cs', e) = entries-push name ds more entries fuel enough r cs in
          let (ds', e') =
            Lists-push (entry_path name d) names lists fuel
              (omega (arith, enough, length-append name (b'/' ∷ d))) (push_all more r) cs' in
          (
            ds',
            ap (λ o. o >>= include_entry fs (include_file fs (suc fuel)) name d) e
                ∙ rw visible (e' ∙ ap (λ x. some (x, ds')) (sym (push_all-append names more r))),
          )
