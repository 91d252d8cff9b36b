-- ===== src/Source/Stacked.antt =====
-- input/filtergen/include.c: the files of an `include` on the stack.
use filtergen.Base.{
  ℕ, suc, ◌+◌, ◌≤◌, ◌<◌, false, some, Text, List, [], ◌∷◌, length, ltb, if◌then◌else◌, ◌≡◌, refl,
  ap, ◌∙◌, arith,
}
use filtergen.Source.{Files, on_top}
use filtergen.Source.Include.{
  failing, FileSystem, IncludeError, Reading, Included, push_file, include_file,
}
use filtergen.Source.Pushed.{
  file_of, is_readable, Pushed, too_deep, taken, not_opened, push_file-Pushed,
}
use filtergen.Source.Lists.{Lists}
use filtergen.Source.Order.{push_all, Lists-push}

module _ (fs : FileSystem) where
  -- The first name is on top.
  abbrev pub stacked : List Text → Files → Files
  stacked [] below = below
  stacked (name ∷ names) below =
      let rest = stacked names below in
      if is_readable fs name then on_top (file_of name) rest else rest

  Pushed-files :
      {name : Text} {r r' : Reading}
      → Pushed fs name r r'
      → (r'.stack.files
          ≡ (if ltb 100 r.stack.depth then r.stack.files else stacked (name ∷ []) r.stack.files))
        × (r'.stack.depth ≡ suc r.stack.depth)
  Pushed-files (too_deep deep) = (rw deep refl, refl)
  Pushed-files (taken room can same) = (rw (room, can, same) refl, refl)
  Pushed-files (not_opened room cannot) = (rw (room, cannot) refl, refl)

  pub push_file-files :
      (name : Text) (r : Reading)
      → ((push_file fs name r).stack.files
          ≡ (if ltb 100 r.stack.depth then r.stack.files else stacked (name ∷ []) r.stack.files))
        × ((push_file fs name r).stack.depth ≡ suc r.stack.depth)
  push_file-files name r = Pushed-files (push_file-Pushed fs name r)

  push_all-stacked :
      (names : List Text) (r : Reading)
      → r.stack.depth + length names ≤ 101
      → ((push_all fs names r).stack.files ≡ stacked names r.stack.files)
        × ((push_all fs names r).stack.depth ≡ r.stack.depth + length names)
  unfolding push_all
  push_all-stacked [] r room = (refl, omega arith)
  push_all-stacked (name ∷ names) r room =
      let (files, depth) = push_all-stacked names r (omega (arith, room)) in
      let pushed = push_all fs names r in
      let (top, deeper) = push_file-files name pushed in
      let shallow : ltb 100 pushed.stack.depth ≡ false = ground (arith, room, depth) in
      (
        top
            ∙ ap (λ b. if b then pushed.stack.files else stacked (name ∷ []) pushed.stack.files)
                shallow
            ∙ ap (stacked (name ∷ [])) files,
        omega (arith, depth, deeper),
      )

  -- The files that a name stands for, of which there are few enough for the depth, are on the stack
  -- with the first on top, but for those that cannot be opened: they are read in their order.
  pub include_file-stacked :
      (limit : ℕ) (long_names : (name : Text) → limit < length name → fs.stat name ≡ failing)
      (name : Text) (names : List Text) (r : Reading) (cs : List IncludeError)
      → Lists fs name names
      → r.stack.depth + length names ≤ 101
      → (i : Included) × (include_file fs (suc (suc limit)) name (r, cs) ≡ some i)
        × (i.0.stack.files ≡ stacked names r.stack.files)
        × (i.0.stack.depth ≡ r.stack.depth + length names)
  include_file-stacked limit long_names name names r cs lists room =
      let (ds, e) =
        Lists-push fs limit long_names name names lists (suc limit) (omega arith) r cs in
      let (files, depth) = push_all-stacked names r room in
      ((push_all fs names r, ds), e, files, depth)
