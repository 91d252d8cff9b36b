-- ===== src/Gen/Check/Complete.antt =====
-- What an entry without complaints is.
use filtergen.Base.{
  ℕ, Bool, true, false, List, [], ◌++◌, ◌&&◌, ◌||◌, not, is_set, ◌≡◌, ◌⊎◌, inl, inr, refl, arith,
}
use filtergen.Base.Int.{ℤ, pos, negsuc, int_is}
use filtergen.Filter.Types.{yyeof, localonly, masq, tag_eq}
use filtergen.Gen.Entry.{FilterEnt}
use filtergen.Gen.Check.{
  checkmatch, Complaint, complain_if, target_missing, direction_missing, iface_missing,
  ports_without_tcp_or_udp, icmptype_without_icmp, local_masquerade, ipproto_icmp, ipproto_tcp,
  ipproto_udp,
}

-- The conditions that gen.h and the comments of `checkmatch` state, each in positive form.
pub record IsComplete (e : FilterEnt) : Type 0 where
  pub has_target : (is_set e.subgroup ≡ true) ⊎ (tag_eq e.target yyeof ≡ false)
  pub has_direction : (is_set e.groupname ≡ true) ⊎ (tag_eq e.direction yyeof ≡ false)
  pub has_iface : (is_set e.groupname ≡ true) ⊎ (is_set e.iface ≡ true)
  pub ports_fit :
      ((is_set e.src.minstr || is_set e.dst.minstr) ≡ false)
      ⊎ ((e.proto.num ≡ pos ipproto_tcp) ⊎ (e.proto.num ≡ pos ipproto_udp))
  pub icmptype_fits : (is_set e.icmp ≡ false) ⊎ (e.proto.num ≡ pos ipproto_icmp)
  pub masquerade_fits : (tag_eq e.rtype localonly ≡ false) ⊎ (tag_eq e.target masq ≡ false)

-- One complaint after another.
no_complaints :
    (b : Bool) (c : Complaint) (rest : List Complaint)
    → complain_if b c ++ rest ≡ []
    → (b ≡ false) × (rest ≡ [])
no_complaints true c rest h = cc
no_complaints false c rest h = (refl, h)

last_complaint : (b : Bool) (c : Complaint) → complain_if b c ≡ [] → b ≡ false
last_complaint true c h = cc
last_complaint false c h = refl

either : (a b : Bool) → (not a && b) ≡ false → (a ≡ true) ⊎ (b ≡ false)
either true b h = inl refl
either false b h = inr h

either_set : (a b : Bool) → (not a && not b) ≡ false → (a ≡ true) ⊎ (b ≡ true)
either_set true b h = inl refl
either_set false b h = inr (ground arith)

unless_one_of :
    (a : Bool) (n : ℤ) (p q : ℕ)
    → (a && (not (int_is n p) && not (int_is n q))) ≡ false
    → (a ≡ false) ⊎ ((n ≡ pos p) ⊎ (n ≡ pos q))
unless_one_of true (pos n) p q h = inr (ground arith)
unless_one_of true (negsuc n) p q h = cc
unless_one_of false n p q h = inl refl

unless_equal :
    (a : Bool) (n : ℤ) (p : ℕ) → (a && not (int_is n p)) ≡ false → (a ≡ false) ⊎ (n ≡ pos p)
unless_equal true (pos n) p h = inr (ground arith)
unless_equal true (negsuc n) p h = cc
unless_equal false n p h = inl refl

not_both : (a b : Bool) → (a && b) ≡ false → (a ≡ false) ⊎ (b ≡ false)
not_both true b h = inr h
not_both false b h = inl refl

-- An entry that `checkmatch` has no complaint about is complete: it has a target or a subgroup, a
-- direction and an interface or a group name, ports only with TCP or UDP, an ICMP type only with
-- ICMP, and no masquerading of local packets.
pub checkmatch-IsComplete : (e : FilterEnt) → checkmatch e ≡ [] → IsComplete e
unfolding checkmatch
checkmatch-IsComplete e h =
    let (t, h₁) = no_complaints _ target_missing _ h in
    let (d, h₂) = no_complaints _ direction_missing _ h₁ in
    let (i, h₃) = no_complaints _ iface_missing _ h₂ in
    let (p, h₄) = no_complaints _ ports_without_tcp_or_udp _ h₃ in
    let (c, h₅) = no_complaints _ icmptype_without_icmp _ h₄ in
    record {
      has_target = either (is_set e.subgroup) _ t;
      has_direction = either (is_set e.groupname) _ d;
      has_iface = either_set (is_set e.groupname) (is_set e.iface) i;
      ports_fit =
          unless_one_of (is_set e.src.minstr || is_set e.dst.minstr) e.proto.num ipproto_tcp
            ipproto_udp p;
      icmptype_fits = unless_equal (is_set e.icmp) e.proto.num ipproto_icmp c;
      masquerade_fits =
          not_both (tag_eq e.rtype localonly) (tag_eq e.target masq)
            (last_complaint _ local_masquerade h₅);
    }
