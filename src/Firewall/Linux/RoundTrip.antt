-- ===== src/Firewall/Linux/RoundTrip.antt =====
-- rushtle/src/firewall/linux.rs: `install` and then `remove`.
use mathlib.Core.Path.{fun_ext}
use kubectl_sshuttle.Base.{
  ℕ, ◌≡◌, ◌≢◌, refl, sym, ap, ◌∙◌, Bool, true, false, none, some, List, [], ◌∷◌, ◌++◌, arith, same,
  same_refl, same_comm, eq_of_same, All, Bool-cases, inl, inr,
}
use kubectl_sshuttle.Text.Utf8.{Str}
use kubectl_sshuttle.Text.Numbers.{to_string}
use kubectl_sshuttle.Client.Subnets.{has_v6}
use kubectl_sshuttle.Firewall.System.{System, ◌>>◌}
use kubectl_sshuttle.Firewall.Linux.{
  iptables, ip6tables, output, jump_rule, install, remove_one, remove,
}
use kubectl_sshuttle.Firewall.Linux.Nat.{Rule, View, put, put_same, put_other, same_rule, IsNat}
use kubectl_sshuttle.Firewall.Linux.Goes.{Goes, Leaves, Goes->>}
use kubectl_sshuttle.Firewall.Linux.Install.{rules_v6, hooked, hooked_v6, install-Goes, chain_v4}
use kubectl_sshuttle.Firewall.Linux.Jumps.{without, count}
use kubectl_sshuttle.Firewall.Linux.Remove.{Only, unhooked, remove_one-Goes}

-- There is OUTPUT, with these rules, and neither the chain nor a jump to it.
abbrev pub Clean : View → Str → Str → List Rule → Type 0
Clean v bin chain out =
    (v bin output ≡ some out)
    × (v bin chain ≡ none)
    × (count (jump_rule chain) out ≡ 0)
    × Only v bin chain

same_rule_refl : (r : Rule) → same_rule r r ≡ true
same_rule_refl [] = refl
same_rule_refl (x ∷ xs) = rw (same_refl x, same_rule_refl xs) refl

count-append :
    (r : Rule) (rs : List Rule)
    → count r rs ≡ 0
    → (count r (rs ++ r ∷ []) ≡ 1) × (without r (rs ++ r ∷ []) ≡ rs)
count-append r [] h = rw (same_rule_refl r) (refl, refl)
count-append r (x ∷ xs) h = elim (Bool-cases (same_rule r x)) [
  | inl hit ↦ absurd (ground arith)
  | inr miss ↦ let (c, w) = count-append r xs (rw miss at h) in rw miss (c, ap (λ t. x ∷ t) w)
]

-- what was put is taken away
unhooked-hooked :
    (v : View) (bin chain : Str) (rules out : List Rule)
    → same output chain ≡ false
    → Clean v bin chain out
    → unhooked (hooked v bin chain rules out) bin chain (out ++ jump_rule chain ∷ []) ≡ v
unhooked-hooked v bin chain rules out other (there, gone, unused, only) =
    let (c1, w) = count-append (jump_rule chain) out unused in
    rw w (
      fun_ext λ b. fun_ext λ c. elim (Bool-cases (same b bin)) [
        | inl hb ↦ elim (Bool-cases (same c chain)) [
          | inl hc ↦ rw (hb, hc, eq_of_same b bin hb, eq_of_same c chain hc) (sym gone)
          | inr hc ↦ elim (Bool-cases (same c output)) [
            | inl ho ↦ rw (hb, hc, ho, eq_of_same b bin hb, eq_of_same c output ho) (sym there)
            | inr ho ↦ rw (hb, hc, ho) refl
          ]
        ]
        | inr hb ↦ rw hb refl
      ])

hooked_swap :
    (v : View) (chain : Str) (r₄ r₆ out₄ out₆ : List Rule)
    → hooked (hooked v iptables chain r₄ out₄) ip6tables chain r₆ out₆
      ≡ hooked (hooked v ip6tables chain r₆ out₆) iptables chain r₄ out₄
hooked_swap v chain r₄ r₆ out₄ out₆ = fun_ext λ b. fun_ext λ c.
    elim (Bool-cases (same b iptables)) [
      | inl h ↦ rw (eq_of_same b iptables h) refl
      | inr h ↦ rw h refl
    ]

module _ (S : System) (N : IsNat S) where
  pub undo-Goes :
      (bin chain : Str) (v : View) (rules out : List Rule)
      → same output chain ≡ false
      → Clean v bin chain out
      → Goes S N (remove_one S bin chain) (hooked v bin chain rules out) v
  undo-Goes bin chain v rules out other clean =
      let w = hooked v bin chain rules out in
      let jumped = out ++ jump_rule chain ∷ [] in
      let inner = put v bin chain (some rules) in
      let (there, gone, unused, only) = clean in
      rw (unhooked-hooked v bin chain rules out other clean) at (
        remove_one-Goes S N bin chain w jumped rules other (put_same inner bin output (some jumped))
          (put_other inner bin output chain (some jumped) (same_comm chain output ∙ other)
            ∙ put_same v bin chain (some rules))
          (omega (arith, (count-append (jump_rule chain) out unused).0))
          (λ c rs ho hc h. only c rs ho hc (rw (same_refl bin, ho, hc) at h)))

  undo_both-Goes :
      (chain : Str) (v : View) (r₄ r₆ out₄ out₆ : List Rule)
      → same output chain ≡ false
      → Clean v iptables chain out₄
      → Clean v ip6tables chain out₆
      → Goes S N
          (remove_one S iptables chain >> remove_one S ip6tables chain)
          (hooked (hooked v iptables chain r₄ out₄) ip6tables chain r₆ out₆)
          v
  undo_both-Goes chain v r₄ r₆ out₄ out₆ other clean₄ clean₆ =
      let w = hooked v ip6tables chain r₆ out₆ in
      rw (← hooked_swap v chain r₄ r₆ out₄ out₆) at (
        Goes->> S N (remove_one S iptables chain) (remove_one S ip6tables chain)
          (hooked w iptables chain r₄ out₄) w v (undo-Goes iptables chain w r₄ out₄ other clean₄)
          (undo-Goes ip6tables chain v r₆ out₆ other clean₆))

  -- Installing in tables where there is OUTPUT, and neither a chain of this name nor a jump to it,
  -- and removing leaves the tables as they were, IPv4 and IPv6, if the system takes the rules.
  pub install-remove :
      (chain : Str) (tcp dns_port : ℕ) (v4 v6 : List Str) (dns : Bool) (s : S.State)
      (out₄ out₆ : List Rule)
      → same output chain ≡ false
      → Clean (N.view s) iptables chain out₄
      → (v6 ≢ [] → Clean (N.view s) ip6tables chain out₆)
      → All (N.accepted iptables) (chain_v4 S.read_file tcp dns_port v4 dns)
      → All (N.accepted ip6tables) (rules_v6 (to_string tcp) v6)
      → Leaves S N
          (install S chain tcp dns_port v4 v6 dns >> remove S chain (has_v6 v6))
          s
          (N.view s)
  unfolding remove
  install-remove chain tcp dns_port v4 v6 dns s out₄ out₆ other clean₄ clean₆ h₄ h₆ =
      let r₄ = chain_v4 S.read_file tcp dns_port v4 dns in
      let v = N.view s in
      let w = hooked v iptables chain r₄ out₄ in
      Goes->> S N (install S chain tcp dns_port v4 v6 dns) (remove S chain (has_v6 v6)) v
        (hooked_v6 w chain (to_string tcp) v6 out₆) v
        (install-Goes S N chain tcp dns_port v4 v6 dns v out₄ out₆ other clean₄.0
          (λ h. (clean₆ h).0) h₄ h₆)
        (undo v6 clean₆) s refl
    where
      undo :
          (subnets : List Str)
          → (subnets ≢ [] → Clean (N.view s) ip6tables chain out₆)
          → Goes S N
              (remove S chain (has_v6 subnets))
              (hooked_v6
                (hooked (N.view s) iptables chain (chain_v4 S.read_file tcp dns_port v4 dns) out₄)
                chain
                (to_string tcp)
                subnets
                out₆)
              (N.view s)
      undo [] c6 = undo-Goes iptables chain (N.view s) _ out₄ other clean₄
      undo (c ∷ cs) c6 = undo_both-Goes chain (N.view s) _ _ out₄ out₆ other clean₄ (c6 (λ e. cc))
