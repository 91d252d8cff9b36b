-- ===== src/Filter/Build/Hosts.antt =====
-- `new_filter_host` on an address with a prefix length.
use filtergen.Base.{
  ℕ, ◌-◌, ◌^◌, ◌≤◌, ◌<◌, true, false, ◌==◌, ltb, Option, some, [], ◌∷◌, ◌++◌, Text, ◌≡◌, ap, ◌∙◌,
  arith,
}
use filtergen.Base.Int.{pos, to_int}
use filtergen.Filter.Types.{f_source, af_inet, inet}
use filtergen.Filter.Tree.{null, source}
use filtergen.Filter.Build.{
  Libc, cut_at, str_to_int, masked, inet_mask, inet_spec, host_spec, host_node, new_filter,
  new_filter_host,
}
use filtergen.Filter.Build.Masks.{inet_prefix_value}

abbrev pub LacksByte : ℕ → Text → Type 0
LacksByte c [] = Unit {0}
LacksByte c (a ∷ s) = ((a == c) ≡ false) × LacksByte c s

cut_at-append : (c : ℕ) (s t : Text) → LacksByte c s → cut_at c (s ++ c ∷ t) ≡ (s, some t)
unfolding cut_at
cut_at-append c [] t h = ground arith
cut_at-append c (a ∷ s) t (ne, h) = rw (ne, cut_at-append c s t h)

small_int : (i : ℕ) → i < 2 ^ 31 → to_int (pos i) ≡ pos i
small_int i h = ground arith

not_above : {i : ℕ} → i ≤ 32 → ltb 32 i ≡ false
not_above h = ground arith

above : {i : ℕ} → 32 < i → ltb 32 i ≡ true
above h = ground arith

module _ (libc : Libc) (addr m : Text) (i p : ℕ) (plain : LacksByte b'/' addr)
    (read : libc.strtol m ≡ (pos i, [])) where
  number_of_mask : i < 2 ^ 31 → str_to_int libc m ≡ some (pos i)
  unfolding str_to_int
  number_of_mask h = rw read (ap some (small_int i h))

  host_of_mask :
      i < 2 ^ 31
      → new_filter_host libc f_source (addr ++ b'/' ∷ m) af_inet p
        ≡ host_node f_source p (inet_spec addr (inet_mask libc m (some (pos i))))
  unfolding new_filter_host
  host_of_mask h =
      ap (λ (c : Text × Option Text). host_node f_source p (host_spec libc af_inet c.0 c.1))
        (cut_at-append b'/' addr m plain)
      ∙ ap (λ n. host_node f_source p (inet_spec addr (inet_mask libc m n))) (number_of_mask h)

  -- An IPv4 address with a prefix length of at most 32 gives a node with the mask of that many
  -- leading ones and, for its text, what the library prints for that mask.
  pub host_with_prefix :
      i ≤ 32
      → new_filter_host libc f_source (addr ++ b'/' ∷ m) af_inet p
        ≡ new_filter
            (source (
              masked af_inet addr
                (inet (2 ^ 32 - 2 ^ (32 - i)))
                (some (libc.inet_ntoa (2 ^ 32 - 2 ^ (32 - i))))))
            p
  host_with_prefix h = host_of_mask (omega arith) ∙ rw (not_above h, inet_prefix_value i h)

  -- A longer prefix length is refused.
  pub host_with_long_prefix :
      32 < i → i < 2 ^ 31 → new_filter_host libc f_source (addr ++ b'/' ∷ m) af_inet p ≡ null
  host_with_long_prefix h k = host_of_mask k ∙ rw (above h)
