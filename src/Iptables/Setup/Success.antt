-- ===== src/Iptables/Setup/Success.antt =====
-- src/fw_iptables.c, `iptables_fw_init`: what its status 0 says.
use wifi_cat.Base.{ℕ, ◌≡◌, ◌⊎◌, inl, inr, true, some, arith, Bool-cases, Option-cases}
use wifi_cat.Base.Int.{ℤ, pos, negsuc}
use wifi_cat.Shell.{Shell, Script, ◌|=◌, |=-eq-zero}
use wifi_cat.Conf.{Config}
use wifi_cat.Conf.Init.{mac_allow, mac_block}
use wifi_cat.Conf.Mac.{is_int}
use wifi_cat.Iptables.{
  Marks, iptables_init_marks, iptables_check_mark_masking, AreDistinct, init_marks-AreDistinct,
}
use wifi_cat.Iptables.Setup.{
  Gateway, gateway_of, marks_of, mac_rules, mangle_rules, nat_rules, filter_rules, iptables_fw_init,
}

is_int-eq : (a b : ℤ) → is_int a b ≡ true → b ≡ a
unfolding is_int
is_int-eq (pos a) (pos b) e = ground arith
is_int-eq (pos a) (negsuc b) e = cc
is_int-eq (negsuc a) (pos b) e = cc
is_int-eq (negsuc a) (negsuc b) e = ground arith

-- The mechanism for MAC addresses is one of the two that there are.
abbrev pub IsKnown : Config → Type 0
IsKnown config = (config.macmechanism ≡ mac_block) ⊎ (config.macmechanism ≡ mac_allow)

mac_rules-IsKnown :
    (config : Config) (m : Marks) (w : Shell) → (mac_rules config m w).1 ≡ 0 → IsKnown config
unfolding mac_rules
mac_rules-IsKnown config m w e = elim (Bool-cases (is_int mac_block config.macmechanism)) [
  | inl t ↦ inl (is_int-eq mac_block config.macmechanism t)
  | inr f ↦ elim (Bool-cases (is_int mac_allow config.macmechanism)) [
    | inl t ↦ inr (is_int-eq mac_allow config.macmechanism t)
    | inr g ↦ absurd (ground arith)
  ]
]

mangle_rules-IsKnown :
    (config : Config) (m : Marks) (g : Gateway) (w : Shell)
    → (mangle_rules config m g w).1 ≡ 0
    → IsKnown config
unfolding mangle_rules
mangle_rules-IsKnown config m g w e =
    mac_rules-IsKnown config m _ (|=-eq-zero _ (mac_rules config m) w (|=-eq-zero _ _ w e).0).1

init-success :
    (config : Config) (rc : ℕ) (m : Marks) (g : Gateway) (w : Shell)
    → (((λ v. (v, rc))
          |= mangle_rules config m g
          |= nat_rules config m g
          |= filter_rules config m g)
        w).1
      ≡ 0
    → (rc ≡ 0) × IsKnown config
init-success config rc m g w e =
    let first : Script = λ v. (v, rc) in
    let marks = mangle_rules config m g in
    let before_filter =
      |=-eq-zero (first |= marks |= nat_rules config m g) (filter_rules config m g) w e in
    let before_nat = |=-eq-zero (first |= marks) (nat_rules config m g) w before_filter.0 in
    let parts = |=-eq-zero first marks w before_nat.0 in
    (parts.0, mangle_rules-IsKnown config m g w parts.1)

-- Where the setup of the firewall ends with the status 0, the three marks of the configuration are
-- different from one another and from 0, and the mechanism for MAC addresses is one of the two known.
pub iptables_fw_init_success :
    (config : Config) (m m' : Marks) (w w' : Shell)
    → iptables_fw_init config m w ≡ some (m', w', 0)
    → AreDistinct (marks_of config m) × IsKnown config
unfolding iptables_fw_init
iptables_fw_init_success config m m' w w' e = elim (Option-cases (gateway_of config)) [
  | inl out ↦ absurd (ground arith)
  | inr (g, at) ↦
      let marks = iptables_init_marks (marks_of config m) in
      let checked = iptables_check_mark_masking marks.0 w in
      let both = init-success config marks.1 checked.0 g checked.1 (ground (arith, e, at)) in
      ((init_marks-AreDistinct (marks_of config m)).0 both.0, both.1)
]
