-- ===== src/Source/Pushed.antt =====
-- input/filtergen/include.c: the three ways in which one file is taken.
use filtergen.Base.{
  suc, Bool, true, false, ◌||◌, Text, [], ◌∷◌, ◌++◌, codes, ltb, if◌then◌else◌, ◌≡◌, refl,
  Bool-cases, inl, inr,
}
use filtergen.Source.{
  standard_input, file_stream, SourceFile, on_top, Refusal, too_many_nested, unreadable,
  starts_dash, opened_file, sourcefile_push,
}
use filtergen.Source.Include.{FileSystem, Reading, push_file}

-- A name that begins with a dash is the standard input.
abbrev pub file_of : Text → SourceFile
file_of name =
    if starts_dash name
    then opened_file standard_input (codes "<stdin>")
    else opened_file (file_stream name) name

abbrev pub is_readable : FileSystem → Text → Bool
is_readable fs name = starts_dash name || fs.opens name

abbrev pub refused_reading : Refusal → Reading → Reading
refused_reading why r = record {
  stack = record {
    files = r.stack.files;
    depth = suc r.stack.depth;
    refusals = r.stack.refusals ++ why ∷ [];
  };
  buffers = r.buffers;
}

abbrev pub opened_reading : SourceFile → Reading → Reading
opened_reading sf r = record {
  stack = record {
    files = on_top sf r.stack.files;
    depth = suc r.stack.depth;
    refusals = r.stack.refusals;
  };
  buffers = sf.f ∷ r.buffers;
}

pub data Pushed (fs : FileSystem) (name : Text) (r : Reading) : Reading → Type 0 where
  too_deep :
      ltb 100 r.stack.depth ≡ true → Pushed fs name r (refused_reading (too_many_nested name) r)
  taken :
      {sf : SourceFile}
      → ltb 100 r.stack.depth ≡ false
      → is_readable fs name ≡ true
      → sf ≡ file_of name
      → Pushed fs name r (opened_reading sf r)
  not_opened :
      ltb 100 r.stack.depth ≡ false
      → is_readable fs name ≡ false
      → Pushed fs name r (refused_reading (unreadable name) r)

pub push_file-Pushed :
    (fs : FileSystem) (name : Text) (r : Reading) → Pushed fs name r (push_file fs name r)
unfolding push_file sourcefile_push
push_file-Pushed fs name r = elim (Bool-cases (ltb 100 r.stack.depth)) [
  | inl deep ↦ rw deep (too_deep deep)
  | inr room ↦ elim (Bool-cases (starts_dash name)) [
    | inl dash ↦ rw (room, dash) (taken room (rw dash refl) (rw dash refl))
    | inr path ↦ elim (Bool-cases (fs.opens name)) [
      | inl can ↦ rw (room, path, can) (taken room (rw (path, can) refl) (rw path refl))
      | inr cannot ↦ rw (room, path, cannot) (not_opened room (rw (path, cannot) refl))
    ]
  ]
]
