-- ===== src/Filter/Build/Masks.antt =====
-- The netmasks that `new_filter_host` computes from prefix lengths, and the cut of its argument.
use Prim.Native.Nat.{min}
use filtergen.Base.{
  ℕ, zero, suc, Bool-cases, inl, inr, ◌-◌, ◌^◌, ◌≤◌, ◌<◌, Bool, true, false, ◌==◌, ◌&&◌,
  if◌then◌else◌, ltb, [], ◌∷◌, ◌++◌, ◌≡◌, refl, arith,
}
use filtergen.Filter.Build.{inet_prefix, inet6_prefix, clear_octet, shift_octet, full_octets}

-- Two functions agree below a bound, decided by trying each argument.
agree : (ℕ → ℕ) → (ℕ → ℕ) → ℕ → Bool
agree f g zero = true
agree f g (suc bound) = agree f g bound && (f bound == g bound)

agree_at : (f g : ℕ → ℕ) (bound i : ℕ) → i < bound → agree f g bound ≡ true → f i ≡ g i
unfolding agree
agree_at f g zero i lt h = absurd (omega arith)
agree_at f g (suc bound) i lt h = elim (Bool-cases (i == bound)) [
  | inl last ↦ last_at f g bound i (ground arith) (ground arith)
  | inr before ↦ agree_at f g bound i (ground arith) (ground arith)
]
  where
    last_at : (f g : ℕ → ℕ) (bound i : ℕ) → i ≡ bound → (f bound == g bound) ≡ true → f i ≡ g i
    last_at f g bound i e h = rw e (ground arith)

masks_agree : agree inet_prefix (λ i. 2 ^ 32 - 2 ^ (32 - i)) 33 ≡ true
unfolding agree inet_prefix
masks_agree = refl

-- For every IPv4 prefix length from 0 to 32 the shifts give the mask with that many leading ones:
-- 2^32 - 2^(32 - i).
pub inet_prefix_value : (i : ℕ) → i ≤ 32 → inet_prefix i ≡ 2 ^ 32 - 2 ^ (32 - i)
inet_prefix_value i h = agree_at inet_prefix _ 33 i (omega arith) masks_agree

clear_octet_ends : (fuel o : ℕ) → o ≤ fuel → ltb 8 (clear_octet fuel 0 o).1 ≡ false
unfolding clear_octet
clear_octet_ends zero o h = ground arith
clear_octet_ends (suc fuel) o h = ground (arith, clear_octet_ends fuel (o - 8))

octets_agree :
    agree
      (λ k. shift_octet (clear_octet 128 255 (128 - suc k)))
      (λ k. 256 - 2 ^ min 8 (128 - suc k))
      128
    ≡ true
unfolding agree clear_octet
octets_agree = refl

last_octet :
    (i : ℕ)
    → 1 ≤ i
    → i ≤ 128
    → shift_octet (clear_octet 128 255 (128 - i)) ≡ 256 - 2 ^ min 8 (128 - i)
last_octet zero l h = absurd (omega arith)
last_octet (suc k) l h = agree_at _ _ 128 k (omega arith) octets_agree

-- For every IPv6 prefix length from 1 to 128 the first 15 octets are 255 and only the last one
-- depends on the length: it is 256 - 2^(128 - i) from 120 on, and 0 below.
pub inet6_prefix_value :
    (i : ℕ) → 1 ≤ i → i ≤ 128 → inet6_prefix i ≡ full_octets ++ (256 - 2 ^ min 8 (128 - i)) ∷ []
unfolding inet6_prefix
inet6_prefix_value i l h = rw (last_octet i l h) (one_octet i _ _ l)
  where
    one_octet :
        (n a b : ℕ) → 1 ≤ n → full_octets ++ (if n == 0 then a else b) ∷ [] ≡ full_octets ++ b ∷ []
    one_octet n a b l = ground arith
