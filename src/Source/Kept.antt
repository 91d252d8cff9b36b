-- ===== src/Source/Kept.antt =====
-- input/filtergen/include.c: what opening one file keeps, an `include` keeps.
use filtergen.Base.{
  ℕ, zero, suc, Option, none, some, Text, List, [], ◌∷◌, codes, text_eq, Bool-cases, Option-cases,
  inl, inr,
}
use filtergen.Base.Optional.{◌>>=◌}
use filtergen.Source.Include.{
  regular, link, directory, special, Status, missing, failing, is, FileSystem, Reading, Included,
  is_pattern, is_hidden, push_file, include_match, include_matches, include_entry, include_entries,
  include_status, include_file,
}

abbrev pub Keeps : (Reading → Type 0) → Option Included → Type 0
Keeps P none = Unit {0}
Keeps P (some i) = P i.0

bind-Keeps :
    (P : Reading → Type 0) (o : Option Included) (f : Included → Option Included)
    → Keeps P o
    → ((i : Included) → P i.0 → Keeps P (f i))
    → Keeps P (o >>= f)
bind-Keeps P none f k each = tt
bind-Keeps P (some i) f k each = each i k

module _ (fs : FileSystem) (P : Reading → Type 0)
    (push_keeps : (name : Text) (r : Reading) → P r → P (push_file fs name r)) where
  match_keeps : (s : Status) (name : Text) (i : Included) → P i.0 → P (include_match fs s name i).0
  match_keeps missing name i k = k
  match_keeps failing name i k = k
  match_keeps (is regular) name i k = push_keeps name i.0 k
  match_keeps (is link) name i k = push_keeps name i.0 k
  match_keeps (is directory) name i k = k
  match_keeps (is special) name i k = k

  matches_keep : (names : List Text) (i : Included) → P i.0 → P (include_matches fs names i).0
  unfolding include_matches
  matches_keep [] i k = k
  matches_keep (name ∷ names) i k =
      match_keeps (fs.stat name) name (include_matches fs names i) (matches_keep names i k)

  module _ (include : Text → Included → Option Included)
      (include_keeps : (name : Text) (i : Included) → P i.0 → Keeps P (include name i)) where
    entry-Keeps :
        (name d : Text) (i : Included) → P i.0 → Keeps P (include_entry fs include name d i)
    entry-Keeps name d i k = elim (Bool-cases (is_hidden d)) [
      | inl hidden ↦ rw hidden k
      | inr visible ↦ rw visible (include_keeps _ i k)
    ]

    entries-Keeps :
        (name : Text) (ds : List Text) (i : Included)
        → P i.0
        → Keeps P (include_entries fs include name ds i)
    unfolding include_entries
    entries-Keeps name [] i k = k
    entries-Keeps name (d ∷ ds) i k =
        bind-Keeps P (include_entries fs include name ds i) (include_entry fs include name d)
          (entries-Keeps name ds i k) (λ j. entry-Keeps name d j)

    status-Keeps :
        (s : Status) (name : Text) (i : Included)
        → P i.0
        → Keeps P (include_status fs include s name i)
    unfolding include_status
    status-Keeps missing name i k = elim (Bool-cases (is_pattern name)) [
      | inr plain ↦ rw plain k
      | inl pattern ↦ elim (Option-cases (fs.glob name)) [
        | inl failed ↦ rw (pattern, failed) k
        | inr (names, found) ↦ rw (pattern, found) (matches_keep names i k)
      ]
    ]
    status-Keeps failing name i k = k
    status-Keeps (is regular) name i k = push_keeps name i.0 k
    status-Keeps (is link) name i k = push_keeps name i.0 k
    status-Keeps (is special) name i k = push_keeps name i.0 k
    status-Keeps (is directory) name i k =
        elim (Bool-cases (text_eq (codes "/") (fs.basename name))) [
          | inl root ↦ rw root k
          | inr other ↦ elim (Option-cases (fs.scandir name)) [
            | inl closed ↦ rw (other, closed) k
            | inr (ds, scanned) ↦ rw (other, scanned) (entries-Keeps name ds i k)
          ]
        ]

  pub file-Keeps :
      (fuel : ℕ) (name : Text) (i : Included) → P i.0 → Keeps P (include_file fs fuel name i)
  unfolding include_file
  file-Keeps zero name i k = tt
  file-Keeps (suc fuel) name i k =
      status-Keeps (include_file fs fuel) (file-Keeps fuel) (fs.stat name) name i k
